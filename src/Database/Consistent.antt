-- ===== src/Database/Consistent.antt =====
-- The invariant of the database of src/db/mod.rs, and the statements of a zone's records that keep it.
pub mod Deletes
pub mod Owners
pub mod Reach
pub mod Zones
use goatns.Prelude.{
  ℕ, Bool, true, false, ◌&&◌, ◌==◌, equal, Option, none, some, ◌≡◌, ◌≢◌, refl, sym, ap, subst, ◌∙◌,
  inl, inr, List, [], ◌∷◌, ◌++◌, map, Bool-cases, Option-cases, All, All-append, Result, ok, err,
  ◌>>=◌, bind-eq-ok, ok-injective, Bytes, if_err-eq-ok, if_else_err-eq-ok,
}
use mathlib.Core.List.{map-append}
use goatns.Enums.{to_u16, from_str, class_to_u16}
use goatns.Datastore.{ZoneRow, RecordRow}
use goatns.Zone.{FileZoneRecord}
use goatns.Database.{
  Db, RowIds, OwnershipRow, is_in, first, delete_where, update_where, id_is, text_is, insert_id,
  zone_ids, record_ids, user_ids, ownership_ids,
}
use goatns.Database.Rows.{
  Distinct, Distinct-append_one, All-select, Distinct-select, All-update_where, map-update_where,
  first-some, is_in-false,
}
use goatns.Database.Zones.{
  record_name, is_existing, row_of, referred_zone, insert_record, update_record, write_record,
  save_record, delete_record,
}

-- A record's row: it belongs to one of the zones, and its name and time to live are not NULL.
pub record IsRowOf (zones : List ℕ) (row : RecordRow) : Type 0 where
  pub belongs : is_in row.zoneid zones ≡ true
  pub named : (name : Bytes) × (row.name ≡ some name)
  pub lives : (t : ℕ) × (row.ttl ≡ some t)

-- A row of the ownership: there are the zone and the user.
pub record IsOwnerOf (zones users : List ℕ) (row : OwnershipRow) : Type 0 where
  pub owned : is_in row.zoneid zones ≡ true
  pub owner : is_in row.userid users ≡ true

pub record IsConsistent (db : Db) : Type 0 where
  pub zones_distinct : Distinct (zone_ids db)
  pub names_distinct : Distinct (map (λ z. z.name) db.zones)
  pub records_distinct : Distinct (record_ids db)
  pub users_distinct : Distinct (user_ids db)
  pub ownership_distinct : Distinct (ownership_ids db)
  pub records_belong : All (IsRowOf (zone_ids db)) db.records
  pub ownership_belongs : All (IsOwnerOf (zone_ids db) (user_ids db)) db.ownership

-- The identifier of a new row is not in use.
pub insert_id_unused :
    (ids : RowIds) (db : Db) (id : Option ℕ) (used : List ℕ) {n : ℕ}
    → insert_id ids db id used ≡ ok n
    → is_in n used ≡ false
unfolding insert_id
insert_id_unused ids db none used h =
    subst (λ n. is_in n used ≡ false) (ok-injective h) (ids.fresh_unused db.rowids used)
insert_id_unused ids db (some id) used h =
    let (free, e) = if_err-eq-ok (is_in id used) _ h in
    subst (λ n. is_in n used ≡ false) (ok-injective e) free

referred_zone_there :
    (zoneid : Option ℕ) (db : Db) {n : ℕ}
    → referred_zone zoneid db ≡ ok n
    → is_in n (zone_ids db) ≡ true
unfolding referred_zone
referred_zone_there none db h = cc
referred_zone_there (some id) db h =
    let (there, e) = if_else_err-eq-ok (is_in id (zone_ids db)) _ h in
    subst (λ n. is_in n (zone_ids db) ≡ true) (ok-injective e) there

with_record : (db : Db) (row : RecordRow) (last : List ℕ) → Db
with_record db row last = record db { records = db.records ++ (row ∷ []); rowids = last }

with_record-IsConsistent :
    (db : Db) (row : RecordRow) (last : List ℕ)
    → IsConsistent db
    → is_in row.id (record_ids db) ≡ false
    → IsRowOf (zone_ids db) row
    → IsConsistent (with_record db row last)
unfolding with_record zone_ids record_ids user_ids ownership_ids
with_record-IsConsistent db row last kept unused valid = record {
  zones_distinct = kept.zones_distinct;
  names_distinct = kept.names_distinct;
  records_distinct = subst Distinct (sym (map-append (λ r. r.id) db.records (row ∷ []))) (
      Distinct-append_one (map (λ r. r.id) db.records) row.id kept.records_distinct
        (is_in-false row.id (map (λ r. r.id) db.records) unused));
  users_distinct = kept.users_distinct;
  ownership_distinct = kept.ownership_distinct;
  records_belong =
      All-append (IsRowOf (map (λ z. z.id) db.zones)) db.records (row ∷ []) kept.records_belong
        (valid, tt);
  ownership_belongs = kept.ownership_belongs;
}

-- Other records in place of those that are there.
pub records_replaced :
    (db : Db) (rows : List RecordRow)
    → IsConsistent db
    → Distinct (map (λ r. r.id) rows)
    → All (IsRowOf (zone_ids db)) rows
    → IsConsistent (record db { records = rows })
unfolding zone_ids record_ids user_ids ownership_ids
records_replaced db rows kept distinct belong = record {
  zones_distinct = kept.zones_distinct;
  names_distinct = kept.names_distinct;
  records_distinct = distinct;
  users_distinct = kept.users_distinct;
  ownership_distinct = kept.ownership_distinct;
  records_belong = belong;
  ownership_belongs = kept.ownership_belongs;
}

insert_record-IsConsistent :
    (ids : RowIds) (r : FileZoneRecord) (db : Db) {saved : FileZoneRecord × Db}
    → IsConsistent db
    → insert_record ids r db ≡ ok saved
    → IsConsistent (saved.1)
unfolding insert_record row_of with_record
insert_record-IsConsistent ids r db kept h =
    let (zoneid, z, h') = bind-eq-ok (referred_zone r.zoneid db) _ h in
    let (id, i, h'') = bind-eq-ok (insert_id ids db r.id (record_ids db)) _ h' in
    subst (λ s. IsConsistent (s.1)) (ok-injective h'')
      (with_record-IsConsistent db (row_of id zoneid (some r.name) r) (id ∷ db.rowids) kept
        (insert_id_unused ids db r.id (record_ids db) i)
        (record {
          belongs = referred_zone_there r.zoneid db z;
          named = (r.name, refl);
          lives = (r.ttl, refl);
        }))

bound_named :
    (bound column : Option Bytes) (a b c d e f : Bool)
    → (a && b && text_is bound column && c && d && e && f) ≡ true
    → (name : Bytes) × (bound ≡ some name)
unfolding text_is
bound_named (some name) column a b c d e f h = (name, refl)
bound_named none column false b c d e f h = cc
bound_named none column true false c d e f h = cc
bound_named none column true true c d e f h = cc

-- A row is there already only for a record that has a name.
existing_named :
    (r : FileZoneRecord) (row : RecordRow)
    → is_existing r row ≡ true
    → (name : Bytes) × (record_name r.name ≡ some name)
unfolding is_existing
existing_named r row h =
    bound_named (record_name r.name) row.name (id_is r.id row.id) (id_is r.zoneid row.zoneid)
      (id_is row.ttl r.ttl) (row.rrtype == to_u16 (from_str r.rrtype))
      (row.rclass == class_to_u16 r.class) (equal row.rdata r.rdata) h

update_record-IsConsistent :
    (id : ℕ) (r : FileZoneRecord) (db : Db) {saved : FileZoneRecord × Db}
    → IsConsistent db
    → (name : Bytes) × (record_name r.name ≡ some name)
    → update_record id r db ≡ ok saved
    → IsConsistent (saved.1)
unfolding update_record row_of record_ids
update_record-IsConsistent id r db kept named h =
    let (zoneid, z, h') = bind-eq-ok (referred_zone r.zoneid db) _ h in
    let set : RecordRow → RecordRow = λ row. row_of row.id zoneid (record_name r.name) r in
    subst (λ s. IsConsistent (s.1)) (ok-injective h')
      (records_replaced db _ kept
        (subst Distinct (sym (map-update_where (λ row. row.id) _ set db.records (λ row. refl)))
          kept.records_distinct)
        (All-update_where (IsRowOf (zone_ids db)) _ set db.records
          (λ row old. record {
            belongs = referred_zone_there r.zoneid db z;
            named = named;
            lives = (r.ttl, refl);
          })
          kept.records_belong))

write_record-IsConsistent :
    (ids : RowIds) (r : FileZoneRecord) (db : Db) (found : Option RecordRow)
    {saved : FileZoneRecord × Db}
    → IsConsistent db
    → first (is_existing r) db.records ≡ found
    → write_record ids r found db ≡ ok saved
    → IsConsistent (saved.1)
unfolding write_record
write_record-IsConsistent ids r db none kept e h = insert_record-IsConsistent ids r db kept h
write_record-IsConsistent ids r db (some row) kept e h =
    update_record-IsConsistent row.id r db kept
      (existing_named r row (first-some (is_existing r) db.records e)) h

-- Saving a record keeps the invariant.
pub save_record-IsConsistent :
    (ids : RowIds) (r : FileZoneRecord) (db : Db) {saved : FileZoneRecord × Db}
    → IsConsistent db
    → save_record ids r db ≡ ok saved
    → IsConsistent (saved.1)
unfolding save_record
save_record-IsConsistent ids r db kept h =
    write_record-IsConsistent ids r db (first (is_existing r) db.records) kept refl h

pub delete_record-IsConsistent :
    (r : FileZoneRecord) (db : Db) → IsConsistent db → IsConsistent (delete_record r db)
unfolding delete_record delete_where record_ids
delete_record-IsConsistent r db kept =
    records_replaced db _ kept (Distinct-select (λ row. row.id) _ db.records kept.records_distinct)
      (All-select _ _ db.records kept.records_belong)
