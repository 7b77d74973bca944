-- ===== src/Zone.antt =====
-- The zone records of files and of the database, `FileZoneRecord` of src/zones.rs, and
-- `TryFrom<FileZoneRecord>` of src/resourcerecord.rs, which turns one into a record to answer with.
pub mod Convert
pub mod Matching
use text.Mathlib.Text.{◌==◌ as str_eq}
use goatns.Prelude.{
  ℕ, zero, suc, ◌+◌, ◌-◌, ◌*◌, ◌≤◌, String, Bool, true, false, not, ◌&&◌, ◌||◌, Option, none, some,
  List, [], ◌∷◌, ◌++◌, ltb, leb, ◌==◌, if◌then◌else◌, length, Result, ok, err, ◌>>=◌, Bytes, equal,
  generic, long_label_in_name, name_too_long, bad_ipv6, bad_mx, bad_number, bad_caa, bad_caa_tag,
  bad_uri, bad_loc, invalid_type,
}
use goatns.Enums.{RecordClass}
use goatns.Name.{check_long_labels, pieces_of}
use goatns.Record.{InternalResourceRecord}

pub record FileZoneRecord : Type 0 where
  pub id : Option ℕ
  pub zoneid : Option ℕ
  pub name : Bytes
  pub rrtype : String
  pub class : RecordClass
  pub rdata : Bytes
  pub ttl : ℕ

pub record FileZone : Type 0 where
  pub id : Option ℕ
  pub name : Bytes
  pub rname : Bytes
  pub serial : ℕ
  pub refresh : ℕ
  pub retry : ℕ
  pub expire : ℕ
  pub minimum : ℕ
  pub records : List FileZoneRecord

-- `FileZone::matching_data`: all but the id and the records.
unfoldable pub matching_data : FileZone → FileZone → Bool
unfolding equal
matching_data z cmp =
    z.expire == cmp.expire
    && z.minimum == cmp.minimum
    && equal z.name cmp.name
    && z.refresh == cmp.refresh
    && z.retry == cmp.retry
    && equal z.rname cmp.rname
    && z.serial == cmp.serial

-- The part of a LOC record that its text gives.
pub record Location : Type 0 where
  pub size : ℕ
  pub horiz_pre : ℕ
  pub vert_pre : ℕ
  pub latitude : ℕ
  pub longitude : ℕ
  pub altitude : ℕ

-- The readers of text that are not in the repository, or that compute with floats: the address
-- parsers of `std::net`, the two regular expressions of goat-lib/src/validators.rs as the crate
-- regex runs them (the captures are the groups priority, weight and target), and the reading of a
-- location, `FileLocRecord::try_from` with `dms_to_u32`, which may fail.
pub record Readers : Type 0 where
  pub parse_ipv4 : Bytes → Option ℕ
  pub parse_ipv6 : Bytes → Option ℕ
  pub caa_tag_is_match : Bytes → Bool
  pub uri_captures : Bytes → Option (Option Bytes × Option Bytes × Option Bytes)
  pub location : Bytes → Option Location

-- The digits of an unsigned number; `acc` is the number so far.
parse_digits : ℕ → Bytes → Option ℕ
parse_digits acc [] = some acc
parse_digits acc (c ∷ cs) =
    let rest = parse_digits (acc * 10 + (c - b'0')) cs in
    if leb b'0' c && leb c b'9' then rest else none

at_most : ℕ → Option ℕ → Option ℕ
at_most max none = none
at_most max (some n) = if leb n max then some n else none

-- `u8::from_str` and `u16::from_str` with the type's largest number: one `+` may stand in front.
unfoldable pub parse_unsigned : ℕ → Bytes → Option ℕ
unfolding parse_digits at_most
parse_unsigned max [] = none
parse_unsigned max (c ∷ []) = if c == b'+' then none else at_most max (parse_digits 0 (c ∷ []))
parse_unsigned max (c ∷ d ∷ cs) =
    if c == b'+'
    then at_most max (parse_digits 0 (d ∷ cs))
    else at_most max (parse_digits 0 (c ∷ d ∷ cs))

-- `input.replace('@', ".")` where there is an `@`, in `From<&str> for DomainName`
domain_from_str : Bytes → Bytes
domain_from_str [] = []
domain_from_str (c ∷ cs) = (if c == b'@' then 46 else c) ∷ domain_from_str cs

join_spaces : List Bytes → Bytes
join_spaces [] = []
join_spaces (s ∷ []) = s
join_spaces (s ∷ t ∷ rest) = s ++ (b' ' ∷ join_spaces (t ∷ rest))

number_or {ℓ} : {A : Type ℓ} → Option ℕ → (ℕ → Result A) → Result A
number_or none f = err (generic bad_number)
number_or (some n) f = f n

mx_from : FileZoneRecord → List Bytes → Result InternalResourceRecord
unfolding parse_unsigned number_or domain_from_str
mx_from record_in (pref ∷ exchange ∷ []) =
    number_or (parse_unsigned 65535 pref)
      λ n. ok (InternalResourceRecord.mx n (domain_from_str exchange) record_in.ttl record_in.class)
mx_from record_in _ = err (generic bad_mx)

caa_from : Readers → FileZoneRecord → List Bytes → Result InternalResourceRecord
unfolding parse_unsigned number_or join_spaces
caa_from std record_in (flag ∷ tag ∷ value ∷ values) = number_or (parse_unsigned 255 flag) λ n.
    if not (std.caa_tag_is_match tag)
    then err (generic bad_caa_tag)
    else ok (
        InternalResourceRecord.caa n tag (join_spaces (value ∷ values)) record_in.ttl
          record_in.class)
caa_from std record_in _ = err (generic bad_caa)

group_or {ℓ} : {A : Type ℓ} → Option Bytes → (Bytes → Result A) → Result A
group_or none f = err (generic bad_uri)
group_or (some s) f = f s

uri_from :
    FileZoneRecord
    → Option (Option Bytes × Option Bytes × Option Bytes)
    → Result InternalResourceRecord
unfolding parse_unsigned number_or group_or
uri_from record_in none = err (generic bad_uri)
uri_from record_in (some (priority, weight, target)) = group_or priority λ p.
    number_or (parse_unsigned 65535 p) λ n. group_or weight λ w.
      number_or (parse_unsigned 65535 w) λ m.
        group_or target λ t. ok (InternalResourceRecord.uri n m t record_in.ttl record_in.class)

loc_from : FileZoneRecord → Option Location → Result InternalResourceRecord
loc_from r none = err (generic bad_loc)
loc_from r (some l) = ok (
    InternalResourceRecord.loc r.ttl r.class 0 l.size l.horiz_pre l.vert_pre l.latitude l.longitude
      l.altitude)

-- The address of an A record; a text that is no address gives 0.
ipv4_or_zero : Option ℕ → ℕ
ipv4_or_zero none = 0
ipv4_or_zero (some address) = address

aaaa_from : FileZoneRecord → Option ℕ → Result InternalResourceRecord
aaaa_from r none = err (generic bad_ipv6)
aaaa_from r (some address) = ok (InternalResourceRecord.aaaa address r.ttl r.class)

-- `match record.rrtype.as_str()`
by_type : Readers → FileZoneRecord → Result InternalResourceRecord
unfolding mx_from caa_from uri_from loc_from ipv4_or_zero aaaa_from
by_type std r =
    if str_eq r.rrtype "A"
    then ok (InternalResourceRecord.a (ipv4_or_zero (std.parse_ipv4 r.rdata)) r.ttl r.class)
    else if str_eq r.rrtype "AAAA"
    then aaaa_from r (std.parse_ipv6 r.rdata)
    else if str_eq r.rrtype "CNAME"
    then ok (InternalResourceRecord.cname r.rdata r.ttl r.class)
    else if str_eq r.rrtype "PTR"
    then ok (InternalResourceRecord.ptr r.rdata r.ttl r.class)
    else if str_eq r.rrtype "TXT"
    then ok (InternalResourceRecord.txt r.rdata r.ttl r.class)
    else if str_eq r.rrtype "MX"
    then mx_from r (pieces_of b' ' r.rdata)
    else if str_eq r.rrtype "NS"
    then ok (InternalResourceRecord.ns r.rdata r.ttl r.class)
    else if str_eq r.rrtype "CAA"
    then caa_from std r (pieces_of b' ' r.rdata)
    else if str_eq r.rrtype "LOC"
    then loc_from r (std.location r.rdata)
    else if str_eq r.rrtype "URI"
    then uri_from r (std.uri_captures r.rdata)
    else err (generic invalid_type)

unfoldable pub try_from : Readers → FileZoneRecord → Result InternalResourceRecord
unfolding by_type check_long_labels
try_from std r =
    if check_long_labels r.name
    then err (generic long_label_in_name)
    else if ltb 255 (length r.name)
    then err (generic name_too_long)
    else by_type std r
