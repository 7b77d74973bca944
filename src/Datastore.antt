-- ===== src/Datastore.antt =====
-- The reading side of the datastore: get_records and the view `records_merged` of src/db/mod.rs,
-- and handle_get_command of src/datastore.rs. A table is the list of its rows.
pub mod Answers
pub mod Found
use Prim.Native.Nat.{min}
use goatns.Prelude.{
  ℕ, zero, suc, ◌+◌, ◌≤◌, String, Bool, true, false, ◌&&◌, Option, none, some, List, [], ◌∷◌, ◌++◌,
  map, ltb, leb, ◌==◌, if◌then◌else◌, length, Result, ok, err, panic, stuck, ◌>>=◌, Bytes, equal,
  sqlx_error, text, not_utf8,
}
use goatns.Enums.{RecordType, RecordClass, to_u16, from_u16, to_str, class_to_u16, class_from_u16}
use goatns.Record.{InternalResourceRecord, ttl, set_ttl}
use goatns.Utf8.{is_utf8}
use goatns.Zone.{FileZoneRecord, Readers, try_from}

-- A row of the table `zones`.
pub record ZoneRow : Type 0 where
  pub id : ℕ
  pub name : Bytes
  pub rname : Bytes
  pub serial : ℕ
  pub refresh : ℕ
  pub retry : ℕ
  pub expire : ℕ
  pub minimum : ℕ

-- A row of the table `records`; `none` is NULL.
pub record RecordRow : Type 0 where
  pub id : ℕ
  pub zoneid : ℕ
  pub name : Option Bytes
  pub ttl : Option ℕ
  pub rrtype : ℕ
  pub rclass : ℕ
  pub rdata : Bytes

-- A row of the view `records_merged`.
pub record ViewRow : Type 0 where
  pub record_id : ℕ
  pub zoneid : ℕ
  pub rrtype : ℕ
  pub rclass : ℕ
  pub rdata : Bytes
  pub name : Bytes
  pub ttl : ℕ

-- `CASE WHEN records.name is NULL THEN zones.name ELSE records.name || '.' || zones.name END`
unfoldable pub merged_name : Option Bytes → Bytes → Bytes
merged_name none zone = zone
merged_name (some name) zone = name ++ (46 ∷ zone)

-- `CASE WHEN records.ttl is NULL then zones.minimum WHEN records.ttl > zones.minimum THEN
-- records.ttl ELSE records.ttl END`
unfoldable pub merged_ttl : Option ℕ → ℕ → ℕ
merged_ttl none minimum = minimum
merged_ttl (some t) minimum = if ltb minimum t then t else t

unfoldable pub merged : RecordRow → ZoneRow → ViewRow
unfolding merged_name merged_ttl
merged r z = record {
  record_id = r.id;
  zoneid = z.id;
  rrtype = r.rrtype;
  rclass = r.rclass;
  rdata = r.rdata;
  name = merged_name r.name z.name;
  ttl = merged_ttl r.ttl z.minimum;
}

-- the zones of one record: `where records.zoneid = zones.id`
joined_zones : RecordRow → List ZoneRow → List ViewRow
unfolding merged
joined_zones r [] = []
joined_zones r (z ∷ zones) =
    let rest = joined_zones r zones in if r.zoneid == z.id then merged r z ∷ rest else rest

unfoldable pub records_merged : List ZoneRow → List RecordRow → List ViewRow
unfolding joined_zones
records_merged zones [] = []
records_merged zones (r ∷ records) = joined_zones r zones ++ records_merged zones records

-- `WHERE name = ? AND rrtype = ? AND rclass = ?`
unfoldable pub is_selected : Bytes → RecordType → RecordClass → ViewRow → Bool
unfolding equal to_u16 class_to_u16
is_selected name rrtype rclass row =
    equal row.name name && row.rrtype == to_u16 rrtype && row.rclass == class_to_u16 rclass

unfoldable pub select : {A : Type 0} → (A → Bool) → List A → List A
select p [] = []
select p (row ∷ rows) = let rest = select p rows in if p row then row ∷ rest else rest

-- The zone record that `TryFrom<SqliteRow> for InternalResourceRecord` makes of a row.
row_record : ViewRow → FileZoneRecord
unfolding from_u16 to_str class_from_u16
row_record row = record {
  id = some row.record_id;
  zoneid = some row.zoneid;
  name = row.name;
  rrtype = to_str (from_u16 row.rrtype);
  class = class_from_u16 row.rclass;
  rdata = row.rdata;
  ttl = row.ttl;
}

-- `TryFrom<SqliteRow> for InternalResourceRecord`
unfoldable pub from_row : Readers → ViewRow → Result InternalResourceRecord
unfolding row_record try_from
from_row std row = try_from std (row_record row)

keep_ok : Result InternalResourceRecord → List InternalResourceRecord → List InternalResourceRecord
keep_ok (ok irr) results = irr ∷ results
keep_ok _ results = results

-- the rows that can be turned into records
from_rows : Readers → List ViewRow → List InternalResourceRecord
unfolding from_row keep_ok
from_rows std [] = []
from_rows std (row ∷ rows) = keep_ok (from_row std row) (from_rows std rows)

-- `iter().map(|r| r.ttl()).min()` of a list with a first element
unfoldable pub min_ttl : InternalResourceRecord → List InternalResourceRecord → ℕ
unfolding ttl
min_ttl r [] = ttl r
min_ttl r (s ∷ rs) = min (ttl r) (min_ttl s rs)

unfoldable pub set_ttls : ℕ → List InternalResourceRecord → List InternalResourceRecord
unfolding set_ttl
set_ttls t [] = []
set_ttls t (r ∷ rs) = set_ttl r t ∷ set_ttls t rs

-- The end of get_records: nothing is done for 0 or 1 result.
unfoldable pub normalize : Bool → List InternalResourceRecord → List InternalResourceRecord
unfolding set_ttls min_ttl
normalize normalize_ttls [] = []
normalize normalize_ttls (r ∷ []) = r ∷ []
normalize true (r ∷ s ∷ rs) = set_ttls (min_ttl r (s ∷ rs)) (r ∷ s ∷ rs)
normalize false (r ∷ s ∷ rs) = r ∷ s ∷ rs

-- The tables, or `none` where the database cannot be reached.
pub record Tables : Type 0 where
  pub zones : List ZoneRow
  pub records : List RecordRow

unfoldable pub get_records :
    Readers
    → Option Tables
    → Bytes
    → RecordType
    → RecordClass
    → Bool
    → Result (List InternalResourceRecord)
unfolding records_merged is_selected select from_rows normalize
get_records std none name rrtype rclass normalize_ttls = err sqlx_error
get_records std (some db) name rrtype rclass normalize_ttls = ok (
    normalize normalize_ttls (
      from_rows std (select (is_selected name rrtype rclass) (records_merged db.zones db.records))))

-- `ZoneRecord` of src/zones.rs
pub record ZoneRecord : Type 0 where
  pub name : Bytes
  pub typerecords : List InternalResourceRecord

results_of : Result (List InternalResourceRecord) → List InternalResourceRecord
results_of (ok value) = value
results_of _ = []

unfoldable pub zone_record : Bytes → List InternalResourceRecord → Option ZoneRecord
zone_record name [] = none
zone_record name (r ∷ rs) = some (record { name = name; typerecords = r ∷ rs })

-- handle_get_command: the message sent back to the caller, or an error and no message.
unfoldable pub handle_get_command :
    Readers → Option Tables → Bytes → RecordType → RecordClass → Result (Option ZoneRecord)
unfolding get_records results_of zone_record is_utf8
handle_get_command std db name rrtype rclass =
    if is_utf8 name
    then ok (zone_record name (results_of (get_records std db name rrtype rclass true)))
    else err (text not_utf8)
