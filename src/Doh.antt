-- ===== src/Doh.antt =====
-- DNS over HTTPS, src/web/doh/mod.rs, and get_all_fzr_by_name of src/db/mod.rs. base64 and the text that
-- Rust's `{:?}` gives are parameters; JSON is left as the value that serde writes. The database is
-- reachable, and building a response does not fail.
pub mod Limits
pub mod Responses
use goatns.Prelude.{
  ℕ, zero, suc, ◌%◌, Bool, true, false, ◌&&◌, Option, none, some, List, [], ◌∷◌, map, ltb, ◌==◌,
  if◌then◌else◌, length, drop, take, Result, ok, err, panic, stuck, ◌>>=◌, Bytes, equal, codes,
  String, text, bad_base64,
}
use goatns.Enums.{OpCode, PacketType, Rcode, RecordType, RecordClass, to_u16, from_str, to_str}
use goatns.Datastore.{RecordRow, ViewRow, Tables, records_merged, select, min_ttl}
use goatns.Database.Zones.{records_from_rows}
use goatns.Header.{Header, HeaderCodec}
use goatns.Name.{header_bytes}
use goatns.Question.{Question, from_packets}
use goatns.Record.{InternalResourceRecord}
use goatns.Record.Rdata.{Platform}
use goatns.Reply.{Reply, reply_as_bytes}
use goatns.Server.{Backend, slice, unpacked, parse_query}
use goatns.Utf8.{Lowercase, is_utf8}
use goatns.Zone.{FileZoneRecord, Readers, try_from}

-- What is not in the repository.
pub record Outside : Type 0 where
  pub codec : HeaderCodec
  pub platform : Platform
  pub lowercase : Lowercase
  pub readers : Readers
  -- base64's STANDARD.decode
  pub decode : Bytes → Option Bytes
  -- `format!("{:?}", …)` of bytes
  pub debug : Bytes → Bytes

pub data ResponseType : Type 0 where
  json raw invalid : ResponseType

pub record JsonQuestion : Type 0 where
  pub name : Bytes
  pub qtype : ℕ

pub record JsonRecord : Type 0 where
  pub name : Bytes
  pub qtype : ℕ
  pub ttl : ℕ
  pub rdata : Bytes

-- The fields of `JSONResponse` that are not constant here.
pub record JsonResponse : Type 0 where
  pub status : ℕ
  pub question : JsonQuestion
  pub answer : List JsonRecord

pub data Response : Type 0 where
  -- application/dns-message and application/dns-json, with max-age
  message : ℕ → Bytes → Response
  json_sent : ℕ → JsonResponse → Response
  -- response_406 and response_500
  not_acceptable server_error : Response

-- `GetQueryString`: the fields that the handler reads
pub record GetQueryString : Type 0 where
  pub dns : Option Bytes
  pub name : Option Bytes
  pub rrtype : Option String

-- What parse_raw_http reads.
pub record RawQuery : Type 0 where
  pub name : Bytes
  pub rrtype : String
  pub id : ℕ

unfoldable pub raw_name : Outside → Bytes → Bytes
unfolding is_utf8
raw_name std qname = if is_utf8 qname then qname else std.debug qname

unfoldable pub parse_raw_http : Outside → Bytes → Result RawQuery
unfolding slice unpacked from_packets raw_name to_str
parse_raw_http std bytes = slice bytes 0 header_bytes >>= λ split_header.
    unpacked (std.codec.unpack split_header) >>= λ header.
    from_packets std.lowercase (drop header_bytes bytes) >>= λ question.
    ok (record {
      name = raw_name std question.qname;
      rrtype = to_str question.qtype;
      id = header.id;
    })

unfoldable pub get_response_type_from_headers : Option Bytes → ResponseType
unfolding equal
get_response_type_from_headers none = ResponseType.invalid
get_response_type_from_headers (some value) =
    if equal value (codes "application/dns-json")
    then ResponseType.json
    else if equal value (codes "application/dns-message")
    then ResponseType.raw
    else ResponseType.invalid

-- A row of the view as `TryFrom<SqliteRow> for FileZoneRecord` reads it.
unfoldable pub view_row : ViewRow → RecordRow
view_row row = record {
  id = row.record_id;
  zoneid = row.zoneid;
  name = some row.name;
  ttl = some row.ttl;
  rrtype = row.rrtype;
  rclass = row.rclass;
  rdata = row.rdata;
}

unfoldable pub is_named : Bytes → ℕ → ViewRow → Bool
unfolding equal
is_named name rrtype row = equal row.name name && row.rrtype == rrtype

unfoldable pub get_all_fzr_by_name : Tables → Bytes → ℕ → Result (List FileZoneRecord)
unfolding records_merged select is_named view_row records_from_rows
get_all_fzr_by_name db name rrtype =
    records_from_rows
      (map view_row (select (is_named name rrtype) (records_merged db.zones db.records)))

-- `records.iter().map(|r| r.ttl).min()`, or 1
unfoldable pub min_record_ttl : List FileZoneRecord → ℕ
min_record_ttl [] = 1
min_record_ttl (r ∷ []) = r.ttl
min_record_ttl (r ∷ s ∷ rs) =
    let rest = min_record_ttl (s ∷ rs) in if ltb rest r.ttl then rest else r.ttl

keep_converted :
    Result InternalResourceRecord → List InternalResourceRecord → List InternalResourceRecord
keep_converted (ok irr) rest = irr ∷ rest
keep_converted _ rest = rest

-- `filter_map` over the records
unfoldable pub converted : Readers → List FileZoneRecord → List InternalResourceRecord
unfolding try_from keep_converted
converted std [] = []
converted std (r ∷ rs) = keep_converted (try_from std r) (converted std rs)

unfoldable pub json_record : FileZoneRecord → JsonRecord
unfolding to_u16 from_str
json_record r = record {
  name = r.name;
  qtype = to_u16 (from_str r.rrtype);
  ttl = r.ttl;
  rdata = r.rdata;
}

unfoldable pub json_response : Bytes → RecordType → List FileZoneRecord → JsonResponse
unfolding to_u16 json_record
json_response qname rrtype records = record {
  status = 0;
  question = record { name = qname; qtype = to_u16 rrtype };
  answer = map json_record records;
}

unfoldable pub raw_reply : Readers → Bytes → RecordType → ℕ → List FileZoneRecord → Reply
unfolding converted
raw_reply std qname rrtype id records = record {
  header = record {
    id = id;
    qr = PacketType.answer;
    opcode = OpCode.query;
    authoritative = true;
    truncated = false;
    recursion_desired = false;
    recursion_available = false;
    z = false;
    ad = false;
    cd = false;
    rcode = Rcode.no_error;
    qdcount = 1;
    ancount = length records % 0x10000;
    nscount = 0;
    arcount = 0;
  };
  question = some (record { qname = qname; qtype = rrtype; qclass = RecordClass.internet });
  answers = converted std records;
  authorities = [];
  additional = [];
}

-- `match … { Ok(value) => …, Err(err) => Err(response_500()) }`
unfoldable pub or_500 : {A : Type 0} → Result A → (A → Result Response) → Result Response
or_500 (ok x) next = next x
or_500 (err e) next = ok Response.server_error
or_500 panic next = panic
or_500 stuck next = stuck

-- The records are there: the two forms of the response.
unfoldable pub respond :
    Outside → ResponseType → Bytes → RecordType → ℕ → List FileZoneRecord → Result Response
unfolding json_response raw_reply reply_as_bytes or_500 min_record_ttl
respond std ResponseType.invalid qname rrtype id records = ok Response.server_error
respond std ResponseType.json qname rrtype id records =
    ok (Response.json_sent (min_record_ttl records) (json_response qname rrtype records))
respond std ResponseType.raw qname rrtype id records =
    or_500 (reply_as_bytes std.codec std.platform (raw_reply std.readers qname rrtype id records))
      λ value. ok (Response.message (min_record_ttl records) value)

unfoldable pub look_up_and_respond :
    Outside → Tables → ResponseType → Bytes → String → ℕ → Result Response
unfolding get_all_fzr_by_name respond or_500 from_str to_u16
look_up_and_respond std db response_type qname rrtype id =
    or_500 (get_all_fzr_by_name db qname (to_u16 (from_str rrtype)))
      λ records. respond std response_type qname (from_str rrtype) id records

unfoldable pub name_or_empty : Option Bytes → Bytes
name_or_empty none = []
name_or_empty (some name) = name

unfoldable pub type_or_a : Option String → String
type_or_a none = "A"
type_or_a (some rrtype) = rrtype

unfoldable pub decoded : Option Bytes → Result Bytes
decoded none = err (text bad_base64)
decoded (some bytes) = ok bytes

-- The query of the URL: the raw bytes, where they are given, and else the name and the type.
unfoldable pub get_query :
    Outside → Tables → ResponseType → GetQueryString → Option Bytes → Result Response
unfolding decoded parse_raw_http look_up_and_respond or_500 name_or_empty type_or_a
get_query std db response_type query none =
    look_up_and_respond std db response_type (name_or_empty query.name) (type_or_a query.rrtype) 0
get_query std db response_type query (some dns) = or_500 (decoded (std.decode dns)) λ bytes.
    or_500 (parse_raw_http std bytes)
      λ raw. look_up_and_respond std db response_type raw.name raw.rrtype raw.id

unfoldable pub accepted_get : Outside → Tables → GetQueryString → ResponseType → Result Response
unfolding get_query
accepted_get std db query ResponseType.invalid = ok Response.not_acceptable
accepted_get std db query response_type = get_query std db response_type query query.dns

unfoldable pub handle_get : Outside → Tables → Option Bytes → GetQueryString → Result Response
unfolding accepted_get get_response_type_from_headers
handle_get std db accept query = accepted_get std db query (get_response_type_from_headers accept)

-- `bytes.resize(n, 0)`
unfoldable pub resize : ℕ → Bytes → Bytes
resize zero bytes = []
resize (suc n) [] = 0 ∷ resize n []
resize (suc n) (b ∷ bytes) = b ∷ resize n bytes

min_answer_ttl : List InternalResourceRecord → ℕ
unfolding min_ttl
min_answer_ttl [] = 1
min_answer_ttl (r ∷ rs) = min_ttl r rs

-- A reply that is too long is flagged, written again and cut.
unfoldable pub post_bytes : Outside → Reply → Bytes → Result Bytes
unfolding reply_as_bytes resize
post_bytes std reply value =
    if ltb 65535 (length value)
    then (reply_as_bytes std.codec std.platform
          (record reply { header = record reply.header { truncated = true } })
        >>= λ bytes. ok (resize 65535 bytes))
    else ok value

unfoldable pub accepted_post : Outside → Backend → Bytes → ResponseType → Result Response
unfolding parse_query reply_as_bytes post_bytes or_500 min_answer_ttl
accepted_post std datastore body ResponseType.raw =
    or_500 (parse_query std.codec std.lowercase datastore (length body) body) λ reply.
      or_500 (reply_as_bytes std.codec std.platform reply) λ value.
        or_500 (post_bytes std reply value)
          λ bytes. ok (Response.message (min_answer_ttl reply.answers) bytes)
accepted_post std datastore body _ = ok Response.not_acceptable

unfoldable pub handle_post : Outside → Backend → Option Bytes → Bytes → Result Response
unfolding accepted_post get_response_type_from_headers
handle_post std datastore accept body =
    accepted_post std datastore body (get_response_type_from_headers accept)
