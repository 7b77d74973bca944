-- ===== src/Examples/Queries.antt =====
-- The theorems on records, tables and queries applied to two addresses for www.example.com.
use goatns.Prelude.{
  ◌+◌, ◌≤◌, true, false, none, some, List, [], ◌∷◌, ◌++◌, ◌≡◌, ◌≢◌, refl, arith, All, length, map,
  ok, codes,
}
use goatns.Enums.{RecordType, RecordClass, supported, to_u16, class_to_u16}
use goatns.Datastore.{get_records, merged, merged_name, from_row}
use goatns.Datastore.Answers.{Answers, IsUniform, get_records-IsUniform}
use goatns.Datastore.Found.{get_records-In}
use mathlib.Core.List.{Memᴰ as In}
use mathlib.Core.List.Memᴰ.{head}
use goatns.Examples.{
  example_com, www, www-IsName, www-All-IsAscii, query_header, readers, tables, address_row,
  zone_row,
}
use goatns.Header.{IsWide}
use goatns.Header.Layout.{layout_codec, pack_layout, unpack-pack_layout, length-pack_layout}
use goatns.Name.{header_bytes, pieces_of}
use goatns.Record.{InternalResourceRecord, a}
use goatns.Reply.{reply_nxdomain}
use goatns.Server.{table_backend, parse_query}
use goatns.Server.EndToEnd.{IsLookup, parse_query-answered, parse_query-unreachable}
use goatns.Server.Query.{asked, question_bytes, reply_for}
use goatns.Utf8.{ascii_lowercase, ascii_lower, is_utf8}
use goatns.Zone.{FileZoneRecord, try_from}
use goatns.Zone.Convert.{Keeps, try_from-Keeps}

query_header-IsWide : IsWide query_header
query_header-IsWide = record {
  id = omega arith;
  qdcount = omega arith;
  ancount = omega arith;
  nscount = omega arith;
  arcount = omega arith;
}

-- Records

abbrev address : InternalResourceRecord
address = a 16909060 300 RecordClass.internet

address-valid : address ≢ InternalResourceRecord.invalid_type
address-valid e = cc

abbrev zone_record : FileZoneRecord
zone_record = record {
  id = some 7;
  zoneid = some 1;
  name = www;
  rrtype = "A";
  class = RecordClass.internet;
  rdata = codes "1.2.3.4";
  ttl = 300;
}

zone_record-accepted : try_from readers zone_record ≡ ok address
unfolding try_from
zone_record-accepted = refl

try_from-Keeps_example :
    Keeps zone_record address
    × All (λ label. length label ≤ 63) (pieces_of b'.' www)
    × (length www ≤ 255)
try_from-Keeps_example = try_from-Keeps readers zone_record zone_record-accepted

-- Tables

abbrev stored : List InternalResourceRecord
stored = address ∷ a 16909060 200 RecordClass.internet ∷ []

tables-stored :
    get_records readers (some tables) www RecordType.a RecordClass.internet false ≡ ok stored
unfolding get_records try_from
tables-stored = refl

get_records-IsUniform_example :
    (answers : List InternalResourceRecord) × (get_records readers
        (some tables)
        www
        RecordType.a
        RecordClass.internet
        true
      ≡ ok answers)
    × IsUniform stored answers
get_records-IsUniform_example =
    get_records-IsUniform readers tables www RecordType.a RecordClass.internet tables-stored
      (omega arith)

-- Queries

www-utf8 : is_utf8 (map ascii_lower www) ≡ true
unfolding is_utf8 ascii_lower
www-utf8 = refl

header_unpacks : layout_codec.unpack (pack_layout query_header) ≡ some query_header
unfolding layout_codec
header_unpacks = unpack-pack_layout query_header query_header-IsWide

lookup : IsLookup RecordType.a RecordClass.internet
unfolding supported
lookup = record { is_supported = refl; no_any = λ e. cc; no_chaos = λ e. cc }

parse_query-answered_example :
    (rs : List InternalResourceRecord) × (get_records readers
        (some tables)
        (map ascii_lower www)
        RecordType.a
        RecordClass.internet
        true
      ≡ ok rs)
    × All (Answers RecordType.a RecordClass.internet) rs
    × (parse_query layout_codec ascii_lowercase
          (table_backend readers (some tables))
          (header_bytes + length (question_bytes www RecordType.a RecordClass.internet))
          (pack_layout query_header
            ++ (question_bytes www RecordType.a RecordClass.internet ++ (0 ∷ [])))
        ≡ ok (reply_for query_header (asked www RecordType.a RecordClass.internet) rs))
parse_query-answered_example =
    parse_query-answered layout_codec ascii_lowercase readers tables query_header
      (pack_layout query_header) www (0 ∷ []) RecordType.a RecordClass.internet
      (length-pack_layout query_header) header_unpacks refl www-IsName (omega arith) www-All-IsAscii
      lookup

parse_query-unreachable_example :
    parse_query layout_codec ascii_lowercase
      (table_backend readers none)
      (header_bytes + length (question_bytes www RecordType.a RecordClass.internet))
      (pack_layout query_header ++ (question_bytes www RecordType.a RecordClass.internet ++ []))
    ≡ ok (reply_nxdomain 0x1234)
parse_query-unreachable_example =
    parse_query-unreachable layout_codec ascii_lowercase readers query_header
      (pack_layout query_header) www [] RecordType.a RecordClass.internet
      (length-pack_layout query_header) header_unpacks refl www-IsName (omega arith) www-All-IsAscii
      lookup

a_number : 1 ≡ to_u16 RecordType.a
unfolding to_u16
a_number = refl

internet_number : 1 ≡ class_to_u16 RecordClass.internet
unfolding class_to_u16
internet_number = refl

row_converted : from_row readers (merged (address_row 7 300) zone_row) ≡ ok address
unfolding from_row merged try_from
row_converted = refl

get_records-In_example :
    (rs : List InternalResourceRecord) × (get_records readers
        (some tables)
        (merged_name (some (codes "www")) example_com)
        RecordType.a
        RecordClass.internet
        false
      ≡ ok rs)
    × In address rs
get_records-In_example =
    get_records-In readers tables (address_row 7 300) zone_row RecordType.a RecordClass.internet
      address (head refl) (head refl) refl a_number internet_number row_converted
