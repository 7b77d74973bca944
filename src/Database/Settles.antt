-- ===== src/Database/Settles.antt =====
-- Panics, or none, in the operations of src/db/mod.rs.
use goatns.Prelude.{
  ℕ, not, ◌&&◌, ◌||◌, ◌==◌, Option, none, some, ◌≡◌, refl, List, [], ◌∷◌, map, ok, err, Settles,
  Settles-bind, Settles-if, Returns-Settles, ◌%◌, sqlx_error,
}
use goatns.Enums.{RecordType, from_u16, to_u16}
use goatns.Datastore.{RecordRow, ZoneRow}
use goatns.Zone.{FileZone, FileZoneRecord, matching_data}
use goatns.Database.{Db, RowIds, is_in, first, insert_id, zone_ids, record_ids, user_ids}
use goatns.Database.Rows.{first-in_all}
use goatns.Database.Zones.{
  record_from_row, referred_zone, insert_record, update_record, write_record, is_existing,
  save_record, placed, save_records, get_zone_with_txn, insert_zone, write_zone, drop_records,
  store_records, replace_records, save_zone, with_records, get_with_txn, get_record_with_txn,
  remove_zone_row, remove_ownership, delete_zone,
}
use goatns.Database.Users.{User, ZoneOwnership, any_row, same_login, save_user, save_ownership}
use goatns.Database.Consistent.{IsRowOf, IsConsistent}
use goatns.Database.Consistent.Zones.{write_zone-IsConsistent}
use goatns.Database.Reads.{get_zone_with_txn-Returns, with_records-Returns}

insert_id-Settles :
    (ids : RowIds) (db : Db) (id : Option ℕ) (used : List ℕ) → Settles (insert_id ids db id used)
unfolding insert_id
insert_id-Settles ids db none used = tt
insert_id-Settles ids db (some id) used = Settles-if (is_in id used) _ _ tt tt

referred_zone-Settles : (zoneid : Option ℕ) (db : Db) → Settles (referred_zone zoneid db)
unfolding referred_zone
referred_zone-Settles none db = tt
referred_zone-Settles (some id) db = Settles-if (is_in id (zone_ids db)) _ _ tt tt

write_record-Settles :
    (ids : RowIds) (r : FileZoneRecord) (found : Option RecordRow) (db : Db)
    → Settles (write_record ids r found db)
unfolding write_record insert_record update_record
write_record-Settles ids r none db =
    Settles-bind (referred_zone r.zoneid db) _ (referred_zone-Settles r.zoneid db) (λ zoneid _.
      Settles-bind (insert_id ids db r.id (record_ids db)) _
        (insert_id-Settles ids db r.id (record_ids db)) (λ id _. tt))
write_record-Settles ids r (some row) db =
    Settles-bind (referred_zone r.zoneid db) _ (referred_zone-Settles r.zoneid db) (λ zoneid _. tt)

pub save_record-Settles :
    (ids : RowIds) (r : FileZoneRecord) (db : Db) → Settles (save_record ids r db)
unfolding save_record
save_record-Settles ids r db = write_record-Settles ids r (first (is_existing r) db.records) db

save_records-Settles :
    (ids : RowIds) (n : ℕ) (rs : List FileZoneRecord) (db : Db) → Settles (save_records ids n rs db)
unfolding save_records
save_records-Settles ids n [] db = tt
save_records-Settles ids n (r ∷ rs) db =
    Settles-bind (save_record ids (placed n r) db) _ (save_record-Settles ids (placed n r) db)
      (λ saved _. save_records-Settles ids n rs (saved.1))

write_zone-Settles :
    (ids : RowIds) (z : FileZone) (found : Option FileZone) (db : Db)
    → Settles (write_zone ids z found db)
unfolding write_zone insert_zone
write_zone-Settles ids z none db =
    Settles-bind (insert_id ids db z.id (zone_ids db)) _
      (insert_id-Settles ids db z.id (zone_ids db)) (λ id _. tt)
write_zone-Settles ids z (some ez) db = Settles-if (not (matching_data z ez)) _ _ tt tt

store_records-Settles :
    (ids : RowIds) (z : FileZone) (id : Option ℕ) (db : Db) → Settles (store_records ids z id db)
unfolding store_records
store_records-Settles ids z none db = tt
store_records-Settles ids z (some n) db =
    Settles-bind (save_records ids n z.records (drop_records (some n) db)) _
      (save_records-Settles ids n z.records (drop_records (some n) db)) (λ db' _. tt)

replace_records-Settles :
    (ids : RowIds) (z : FileZone) (updated : Option FileZone) (db : Db)
    → Settles (replace_records ids z updated db)
unfolding replace_records
replace_records-Settles ids z none db = tt
replace_records-Settles ids z (some updated) db = store_records-Settles ids z updated.id db

-- Saving a zone, whatever its identifiers are, succeeds or fails with an error.
pub save_zone-Settles :
    (ids : RowIds) (z : FileZone) (db : Db) → IsConsistent db → Settles (save_zone ids z db)
unfolding save_zone
save_zone-Settles ids z db kept =
    Settles-bind (get_zone_with_txn db none (some z.name)) _
      (Returns-Settles _ (get_zone_with_txn-Returns db none (some z.name) kept))
      (λ found f.
        Settles-bind (write_zone ids z found db) _ (write_zone-Settles ids z found db) (λ written w.
          Settles-bind (get_zone_with_txn written none (some z.name)) _
            (Returns-Settles _ (
              get_zone_with_txn-Returns written none (some z.name)
                (write_zone-IsConsistent ids z found db kept f w)))
            (λ updated _. replace_records-Settles ids z updated written)))

pub save_ownership-Settles :
    (ids : RowIds) (o : ZoneOwnership) (db : Db) → Settles (save_ownership ids o db)
unfolding save_ownership insert_id
save_ownership-Settles ids o db =
    Settles-if
      (not (is_in o.zoneid (zone_ids db))
        || not (is_in o.userid (user_ids db))
        || any_row (λ row. row.zoneid == o.zoneid && row.userid == o.userid) db.ownership)
      _ _ tt tt

pub save_user-Settles : (ids : RowIds) (u : User) (db : Db) → Settles (save_user ids u db)
unfolding save_user
save_user-Settles ids u db =
    Settles-bind (insert_id ids db u.id (user_ids db)) _
      (insert_id-Settles ids db u.id (user_ids db))
      (λ id _. Settles-if (any_row (same_login u) db.users) _ _ tt tt)

pub get_with_txn-Settles : (db : Db) (id : ℕ) → IsConsistent db → Settles (get_with_txn db id)
unfolding get_with_txn
get_with_txn-Settles db id kept = read (first (λ row. row.id == id) db.zones)
  where
    read :
        (found : Option ZoneRow)
        → Settles (elim found [ none ↦ err sqlx_error | some row ↦ with_records db row ])
    read none = tt
    read (some row) = Returns-Settles (with_records db row) (with_records-Returns db row kept)

record_from_row-Settles :
    (zones : List ℕ) (row : RecordRow) → IsRowOf zones row → Settles (record_from_row row)
unfolding record_from_row
record_from_row-Settles zones row valid =
    let (name, n) = valid.named in
    let (t, l) = valid.lives in
    rw (n, l)
      (Settles-if (to_u16 (from_u16 (row.rrtype % 0x10000)) == to_u16 RecordType.any) _ _ tt tt)

pub get_record_with_txn-Settles :
    (db : Db) (id : ℕ) → IsConsistent db → Settles (get_record_with_txn db id)
unfolding get_record_with_txn
get_record_with_txn-Settles db id kept = read (first (λ row. row.id == id) db.records) refl
  where
    read :
        (found : Option RecordRow)
        → first (λ row. row.id == id) db.records ≡ found
        → Settles (elim found [ none ↦ err sqlx_error | some row ↦ record_from_row row ])
    read none e = tt
    read (some row) e = record_from_row-Settles (zone_ids db) row (
        first-in_all (IsRowOf (zone_ids db)) (λ row. row.id == id) db.records kept.records_belong e)

remove_zone_row-Settles : (n : ℕ) (db : Db) → Settles (remove_zone_row n db)
unfolding remove_zone_row
remove_zone_row-Settles n db =
    Settles-if
      (is_in n (map (λ r. r.zoneid) db.records) || is_in n (map (λ o. o.zoneid) db.ownership)) _ _
      tt tt

-- Deleting a zone never panics.
pub delete_zone-Settles : (z : FileZone) (db : Db) → Settles (delete_zone z db)
unfolding delete_zone
delete_zone-Settles z db = with_id z.id
  where
    with_id :
        (id : Option ℕ)
        → Settles (elim id [
          | none ↦ ok db
          | some n ↦ remove_zone_row n (drop_records (some n) (remove_ownership n db))
        ])
    with_id none = tt
    with_id (some n) = remove_zone_row-Settles n (drop_records (some n) (remove_ownership n db))
