-- ===== src/Record/Rdata.antt =====
-- `InternalResourceRecord::as_bytes` of src/resourcerecord.rs: the data of a record in a packet.
pub mod Laws
use goatns.Prelude.{
  ℕ, zero, suc, ◌+◌, ◌-◌, ◌/◌, ◌%◌, ◌^◌, ◌≤◌, ◌<◌, Bool, true, false, Option, none, some, ◌≡◌, ◌≢◌,
  refl, List, [], ◌∷◌, ◌++◌, length, take, Result, ok, err, panic, stuck, ◌>>=◌, Bytes, arith,
}
use goatns.Enums.{RecordType, RecordClass}
use goatns.Name.{name_as_bytes, be16, header_bytes}
use goatns.Record.{
  InternalResourceRecord, a, aaaa, axfr, caa, cname, loc, naptr, ns, soa, ptr, hinfo, mx, txt, uri,
  invalid_type, record_type,
}

-- `LocRecord`
pub record LocRecord : Type 0 where
  pub version : ℕ
  pub size : ℕ
  pub horiz_pre : ℕ
  pub vert_pre : ℕ
  pub latitude : ℕ
  pub longitude : ℕ
  pub altitude : ℕ

-- What is not in the repository: `std::env::consts`, and the packing that the crate packed_struct
-- derives for `LocRecord`, which is documented to give the 16 bytes of the structure or an error.
pub record Platform : Type 0 where
  pub arch : Bytes
  pub os : Bytes
  pub pack_loc : LocRecord → Result Bytes
  pub pack_loc_returns : (l : LocRecord) → (pack_loc l ≢ panic) × (pack_loc l ≢ stuck)

-- `to_be_bytes` of an integer of so many bytes
abbrev pub be_bytes : ℕ → ℕ → Bytes
be_bytes zero n = []
be_bytes (suc k) n = (n / 256 ^ k % 256) ∷ be_bytes k n

-- `DNSCharString::as_bytes`
unfoldable pub char_string_bytes : Bytes → Bytes
char_string_bytes s = let res = take 255 s in (length res % 256) ∷ res

-- `From<DNSCharString> for Vec<u8>`
unfoldable pub char_string_into_vec : Bytes → Bytes
char_string_into_vec s = (length s % 256) ∷ s

hinfo_part : Option Bytes → Bytes → Bytes
unfolding char_string_bytes
hinfo_part (some value) default = char_string_bytes value
hinfo_part none default = (length default % 256) ∷ default

-- `DomainName::as_bytes` with the pointer to the question and a reference
compressed : Bytes → Bytes → Result Bytes
unfolding name_as_bytes
compressed name reference = name_as_bytes name (some header_bytes) (some reference)

unfoldable pub as_bytes : Platform → InternalResourceRecord → Bytes → Result Bytes
unfolding compressed hinfo_part char_string_bytes
as_bytes std (a address _ _) question = ok (be_bytes 4 address)
as_bytes std (aaaa address _ _) question = ok (be_bytes 16 address)
as_bytes std (cname name _ _) question = compressed name question
as_bytes std (loc _ _ version size horiz_pre vert_pre latitude longitude altitude) question =
    std.pack_loc (record {
      version = version;
      size = size;
      horiz_pre = horiz_pre;
      vert_pre = vert_pre;
      latitude = latitude;
      longitude = longitude;
      altitude = altitude;
    })
as_bytes std (ns nsdname _ _) question = compressed nsdname question
as_bytes std (ptr ptrdname _ _) question = compressed ptrdname question
as_bytes std (soa zone mname rname serial refresh retry expire minimum _) question =
    compressed mname zone >>= λ primary. compressed rname zone >>= λ mailbox. ok (
      primary
      ++ (mailbox
          ++ (be_bytes 4 serial
              ++ (be_bytes 4 refresh
                  ++ (be_bytes 4 retry ++ (be_bytes 4 expire ++ be_bytes 4 minimum))))))
as_bytes std (txt txtdata _ _) question = ok (char_string_bytes txtdata)
as_bytes std (uri priority weight target _ _) question =
    ok (be16 priority ++ (be16 weight ++ target))
as_bytes std (hinfo cpu os _ _) question = ok (hinfo_part cpu std.arch ++ hinfo_part os std.os)
as_bytes std (mx preference exchange _ _) question =
    compressed exchange question >>= λ name. ok (be16 preference ++ name)
as_bytes std (axfr _ _) question = panic
as_bytes std invalid_type question = ok []
as_bytes std (caa flag tag value _ _) question = ok (flag ∷ (char_string_bytes tag ++ value))
as_bytes std (naptr _ _ _ _ _ _) question = ok []
