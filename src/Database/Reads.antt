-- ===== src/Database/Reads.antt =====
-- Reading zones with their records from the database, get_zone_with_txn of src/db/mod.rs.
use goatns.Prelude.{
  ℕ, Option, none, some, ◌≡◌, refl, inl, inr, List, [], ◌∷◌, ◌==◌, ◌%◌, Bool-cases, All, Result, ok,
  Returns, Returns-bind, Bytes,
}
use goatns.Datastore.{ZoneRow, RecordRow}
use goatns.Enums.{to_u16, from_u16, RecordType}
use goatns.Zone.{FileZoneRecord}
use goatns.Database.{Db, first, zone_ids}
use goatns.Database.Rows.{All-select}
use goatns.Database.Zones.{
  record_from_row, keep_record, records_from_rows, zone_from_row, with_records, is_zone, found_zone,
  get_zone_with_txn, rows_of_zone,
}
use goatns.Database.Consistent.{IsRowOf, IsConsistent}

kept_Returns :
    (row : RecordRow) (rest : Result (List FileZoneRecord)) (zones : List ℕ)
    → IsRowOf zones row
    → Returns rest
    → Returns (keep_record (record_from_row row) rest)
unfolding record_from_row keep_record
kept_Returns row rest zones valid (rs, e) =
    let (name, n) = valid.named in
    let (t, l) = valid.lives in
    rw (n, l)
      (elim (Bool-cases (to_u16 (from_u16 (row.rrtype % 0x10000)) == to_u16 RecordType.any)) [
        | inl any ↦ rw any (rs, e)
        | inr other ↦ rw (other, e) (_, refl)
      ])

-- The rows of a consistent database can be read: there is no NULL to panic on.
pub records_from_rows-Returns :
    (rows : List RecordRow) (zones : List ℕ)
    → All (IsRowOf zones) rows
    → Returns (records_from_rows rows)
unfolding records_from_rows
records_from_rows-Returns [] zones h = ([], refl)
records_from_rows-Returns (row ∷ rows) zones (h, hs) =
    kept_Returns row (records_from_rows rows) zones h (records_from_rows-Returns rows zones hs)

-- A zone that is among the rows is read, with the identifier of its row.
pub get_zone_found :
    (db : Db) (name : Bytes) {row : ZoneRow}
    → IsConsistent db
    → first (is_zone none (some name)) db.zones ≡ some row
    → (records : List FileZoneRecord) × (get_zone_with_txn db none (some name)
        ≡ ok (some (record (zone_from_row row) { records = records })))
unfolding get_zone_with_txn found_zone with_records rows_of_zone
get_zone_found db name {row} kept e =
    let (records, r) =
      records_from_rows-Returns (rows_of_zone row.id db) (zone_ids db)
        (All-select _ _ db.records kept.records_belong) in
    (records, rw (e, r) refl)

pub with_records-Returns :
    (db : Db) (row : ZoneRow) → IsConsistent db → Returns (with_records db row)
unfolding with_records rows_of_zone
with_records-Returns db row kept =
    Returns-bind (records_from_rows (rows_of_zone row.id db)) _
      (records_from_rows-Returns (rows_of_zone row.id db) (zone_ids db)
        (All-select _ _ db.records kept.records_belong))
      (λ records. (_, refl))

found_zone-Returns :
    (db : Db) (found : Option ZoneRow) → IsConsistent db → Returns (found_zone db found)
unfolding found_zone
found_zone-Returns db none kept = (none, refl)
found_zone-Returns db (some row) kept =
    Returns-bind (with_records db row) _ (with_records-Returns db row kept)
      (λ zone. (some zone, refl))

-- In a consistent database, looking up a zone by any identifier and any name returns: no column is NULL
-- where reading it panics.
pub get_zone_with_txn-Returns :
    (db : Db) (id : Option ℕ) (name : Option Bytes)
    → IsConsistent db
    → Returns (get_zone_with_txn db id name)
unfolding get_zone_with_txn
get_zone_with_txn-Returns db id name kept =
    found_zone-Returns db (first (is_zone id name) db.zones) kept
