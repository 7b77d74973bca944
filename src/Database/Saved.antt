-- ===== src/Database/Saved.antt =====
-- What `FileZone::save_with_txn` of src/db/mod.rs leaves in the database, for a zone as it comes from a
-- zone file: without identifiers.
pub mod Records
use goatns.Prelude.{
  ℕ, Bool, true, false, not, Option, none, some, ◌≡◌, refl, sym, ap, subst, ◌∙◌, ◌⊎◌, inl, inr,
  List, [], ◌∷◌, ◌++◌, map, ◌==◌, ==_iff, ◌||◌, Bool-cases, Option-cases, All, Result, ok, err,
  ◌>>=◌, Returns, Returns-bind, Bytes, equal, equal_iff, if◌then◌else◌,
}
use mathlib.Core.List.{map-append}
use goatns.Datastore.{ZoneRow, RecordRow, select}
use goatns.Enums.{to_u16, from_u16, RecordType}
use goatns.Zone.{FileZone, FileZoneRecord, matching_data}
use goatns.Zone.Matching.{matching_data_iff}
use goatns.Database.{Db, RowIds, is_in, first, id_is, text_is, insert_id, zone_ids}
use goatns.Database.Rows.{
  All-select, first-append, first-update_where, first-some, first-is_in, select-delete_where,
  is_in-append_right, is_in-here,
}
use goatns.Database.Zones.{
  record_from_row, keep_record, records_from_rows, zone_from_row, with_records, is_zone, found_zone,
  get_zone_with_txn, zone_row, insert_zone, set_authority, update_zone, write_zone, drop_records,
  store_records, replace_records, save_zone, rows_of_zone, save_records,
}
use goatns.Database.Consistent.{IsRowOf, IsConsistent}
use goatns.Database.Consistent.Zones.{write_zone-IsConsistent}
use goatns.Database.Reads.{get_zone_found}
use goatns.Database.Saved.Records.{content, file_row, save_records-contents}

-- The zone `z` is among the rows under the identifier `n`.
abbrev IsZoneAt : ℕ → FileZone → Db → Type 0
IsZoneAt n z db = first (is_zone none (some z.name)) db.zones ≡ some (zone_row n z)

is_zone-name :
    (name : Bytes) (row : ZoneRow) → row.name ≡ name → is_zone none (some name) row ≡ true
unfolding is_zone text_is id_is
is_zone-name name row e = rw ((equal_iff row.name name).1 e) refl

name-is_zone :
    (name : Bytes) (row : ZoneRow) → is_zone none (some name) row ≡ true → row.name ≡ name
unfolding is_zone text_is id_is
name-is_zone name row h = (equal_iff row.name name).0 (or_true (equal row.name name) h)
  where
    or_true : (b : Bool) → (b || false) ≡ true → b ≡ true
    or_true true e = e
    or_true false e = cc

added_zone :
    (ids : RowIds) (z : FileZone) (db : Db)
    → z.id ≡ none
    → first (is_zone none (some z.name)) db.zones ≡ none
    → (n : ℕ) × (written : Db) × (write_zone ids z none db ≡ ok written) × IsZoneAt n z written
unfolding write_zone insert_zone insert_id zone_row
added_zone ids z db e absent =
    let n : ℕ = ids.fresh db.rowids (zone_ids db) in
    (
      n,
      record db { zones = db.zones ++ (zone_row n z ∷ []); rowids = n ∷ db.rowids },
      rw e refl,
      first-append (is_zone none (some z.name)) db.zones (zone_row n z) absent
          (is_zone-name z.name (zone_row n z) refl),
    )

updated_zone :
    (ids : RowIds) (z : FileZone) (db : Db) (row : ZoneRow) (ez : FileZone)
    → ez.id ≡ some row.id
    → first (is_zone none (some z.name)) db.zones ≡ some row
    → matching_data z ez ≡ false
    → (written : Db) × (write_zone ids z (some ez) db ≡ ok written) × IsZoneAt row.id z written
unfolding write_zone update_zone set_authority zone_row id_is is_zone
updated_zone ids z db row ez e found other =
    let name : row.name ≡ z.name =
      name-is_zone z.name row (first-some (is_zone none (some z.name)) db.zones found) in
    (
      update_zone (record z { id = ez.id }) db,
      rw other refl,
      rw e (
          first-update_where (is_zone none (some z.name)) (λ r. r.id == row.id) (set_authority z)
            db.zones (λ r. refl) found ((==_iff row.id row.id).1 refl)
          ∙ ap (λ name. some (record (zone_row row.id z) { name = name })) name),
    )

same_zone :
    (z : FileZone) (db : Db) (row : ZoneRow) (records : List FileZoneRecord)
    → first (is_zone none (some z.name)) db.zones ≡ some row
    → matching_data z (record (zone_from_row row) { records = records }) ≡ true
    → IsZoneAt row.id z db
unfolding zone_from_row zone_row
same_zone z db row records found same =
    let agree = (matching_data_iff z (record (zone_from_row row) { records = records })).0 same in
    let unchanged : some row ≡ some (zone_row row.id z) =
      rw
        (
          agree.expire, agree.minimum, agree.name, agree.refresh, agree.retry, agree.rname,
          agree.serial,
        )
        refl in
    found ∙ unchanged

is_zone-is_in :
    (name : Bytes) (row : ZoneRow) (db : Db)
    → first (is_zone none (some name)) db.zones ≡ some row
    → is_in row.id (zone_ids db) ≡ true
unfolding zone_ids
is_zone-is_in name row db h = first-is_in (is_zone none (some name)) (λ z. z.id) db.zones h

unwritten :
    (ids : RowIds) (z ez : FileZone) (db : Db)
    → matching_data z ez ≡ true
    → write_zone ids z (some ez) db ≡ ok db
unfolding write_zone
unwritten ids z ez db same = rw same refl

-- The zone has no identifier of its own, or there is a zone of its name.
abbrev pub IsWritable : FileZone → Db → Type 0
IsWritable z db =
    (z.id ≡ none) ⊎ ((row : ZoneRow) × (first (is_zone none (some z.name)) db.zones ≡ some row))

-- What the first half of the function comes to.
abbrev Written : RowIds → FileZone → Db → Type 0
Written ids z db =
    (n : ℕ) × (found : Option FileZone) × (written : Db) × (get_zone_with_txn db none (some z.name)
      ≡ ok found)
    × (write_zone ids z found db ≡ ok written)
    × IsZoneAt n z written

Written-present :
    (ids : RowIds) (z : FileZone) (db : Db) (row : ZoneRow)
    → IsConsistent db
    → first (is_zone none (some z.name)) db.zones ≡ some row
    → Written ids z db
unfolding zone_from_row
Written-present ids z db row kept present =
    let (records, read) = get_zone_found db z.name kept present in
    let ez : FileZone = record (zone_from_row row) { records = records } in
    elim (Bool-cases (matching_data z ez)) [
      | inl same ↦ (
        row.id,
        some ez,
        db,
        read,
        unwritten ids z ez db same,
        same_zone z db row records present same,
      )
      | inr other ↦
          let (written, w, there) = updated_zone ids z db row ez refl present other in
          (row.id, some ez, written, read, w, there)
    ]

Written-new :
    (ids : RowIds) (z : FileZone) (db : Db) → IsConsistent db → IsWritable z db → Written ids z db
unfolding get_zone_with_txn found_zone
Written-new ids z db kept (inl e) =
    elim (Option-cases (first (is_zone none (some z.name)) db.zones)) [
      | inl absent ↦
          let (n, written, w, there) = added_zone ids z db e absent in
          (n, none, written, rw absent refl, w, there)
      | inr (row, present) ↦ Written-present ids z db row kept present
    ]
Written-new ids z db kept (inr (row, present)) = Written-present ids z db row kept present

-- The zone `z` is stored under the identifier `n`: its start of authority is its row, and the rows of its
-- records are those of the zone file, one for each and in their order.
pub record IsStored (n : ℕ) (z : FileZone) (db : Db) : Type 0 where
  pub zone_stored : first (is_zone none (some z.name)) db.zones ≡ some (zone_row n z)
  pub records_stored : map content (rows_of_zone n db) ≡ map (file_row n) z.records

-- A zone file is stored: in a consistent database, saving a zone whose records have no identifiers, and
-- which has none either or the name of a stored zone, always succeeds, whether there is no such zone yet,
-- one that is the same, or one that differs. Then the zone is found under its name with the data of the
-- file, and its records are exactly those of the file.
pub save_zone-IsStored :
    (ids : RowIds) (z : FileZone) (db : Db)
    → IsConsistent db
    → IsWritable z db
    → All (λ r. r.id ≡ none) z.records
    → (n : ℕ) × (db' : Db) × (save_zone ids z db ≡ ok (record z { id = some n }, db'))
      × IsStored n z db'
unfolding save_zone replace_records store_records drop_records rows_of_zone zone_from_row zone_row
    id_is
save_zone-IsStored ids z db kept e new =
    let (n, found, written, f, w, there) = Written-new ids z db kept e in
    let kept' : IsConsistent written = write_zone-IsConsistent ids z found db kept f w in
    let (records, read) = get_zone_found written z.name kept' there in
    let dropped : Db = drop_records (some n) written in
    let (db', s, zones, rows) =
      save_records-contents ids n z.records dropped
        (is_zone-is_in z.name (zone_row n z) written there) new in
    (
      n,
      db',
      rw (f, w, read, s) refl,
      record {
        zone_stored = rw zones there;
        records_stored =
            rows
            ∙ ap (λ l. map content l ++ map (file_row n) z.records)
                (select-delete_where (λ row. row.zoneid == n) written.records);
      },
    )
