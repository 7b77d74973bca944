-- ===== src/Database/Consistent/Zones.antt =====
-- The invariant and `FileZone::save_with_txn` of src/db/mod.rs.
use goatns.Prelude.{
  ℕ, Bool, true, false, ◌||◌, Option, none, some, ◌≡◌, ◌≢◌, refl, sym, ap, subst, ◌∙◌, inl, inr,
  Bool-cases, List, [], ◌∷◌, ◌++◌, map, All, ok, bind-eq-ok, ok-injective, Bytes, equal, equal_iff,
}
use mathlib.Core.List.{map-append}
use goatns.Datastore.{ZoneRow}
use goatns.Zone.{FileZone, FileZoneRecord, matching_data}
use goatns.Database.{
  Db, RowIds, is_in, delete_where, text_is, id_is, insert_id, zone_ids, record_ids, user_ids,
  ownership_ids,
}
use goatns.Database.Rows.{
  Distinct, Distinct-append_one, All-zip, All-implies, All-select, Distinct-select,
  is_in-append_left, is_in-false, map-update_where, first-none, map-All,
}
use goatns.Database.Zones.{
  found_zone, with_records, is_zone, get_zone_with_txn, zone_row, insert_zone, set_authority,
  update_zone, write_zone, drop_records, save_record, placed, save_records, store_records,
  replace_records, save_zone,
}
use goatns.Database.Consistent.{
  IsConsistent, insert_id_unused, records_replaced, save_record-IsConsistent,
}

-- Other zones that have all identifiers that records and owners refer to.
pub zones_replaced :
    (db : Db) (rows : List ZoneRow) (last : List ℕ)
    → IsConsistent db
    → Distinct (map (λ z. z.id) rows)
    → Distinct (map (λ z. z.name) rows)
    → All (λ r. is_in r.zoneid (map (λ z. z.id) rows) ≡ true) db.records
    → All (λ o. is_in o.zoneid (map (λ z. z.id) rows) ≡ true) db.ownership
    → IsConsistent (record db { zones = rows; rowids = last })
unfolding zone_ids record_ids user_ids ownership_ids
zones_replaced db rows last kept distinct names records owners = record {
  zones_distinct = distinct;
  names_distinct = names;
  records_distinct = kept.records_distinct;
  users_distinct = kept.users_distinct;
  ownership_distinct = kept.ownership_distinct;
  records_belong =
      All-zip db.records
        (λ r old there. record { belongs = there; named = old.named; lives = old.lives })
        kept.records_belong records;
  ownership_belongs =
      All-zip db.ownership (λ o old there. record { owned = there; owner = old.owner })
        kept.ownership_belongs owners;
}

absent_row : (db : Db) (found : Option ZoneRow) → found_zone db found ≡ ok none → found ≡ none
unfolding found_zone
absent_row db none h = refl
absent_row db (some row) h = let (zone, _, e) = bind-eq-ok (with_records db row) _ h in cc

-- A zone that is not found by its name is none of the rows.
pub get_zone_absent :
    (db : Db) (name : Bytes)
    → get_zone_with_txn db none (some name) ≡ ok none
    → All (λ z. z.name ≢ name) db.zones
unfolding get_zone_with_txn is_zone text_is id_is
get_zone_absent db name h =
    All-implies db.zones
      (λ row e same. cc ((equal_iff row.name name).1 same, or_false (equal row.name name) e))
      (first-none (is_zone none (some name)) db.zones (absent_row db _ h))
  where
    or_false : (b : Bool) → (b || false) ≡ false → b ≡ false
    or_false true e = e
    or_false false e = e

insert_zone-IsConsistent :
    (ids : RowIds) (z : FileZone) (db : Db) {db' : Db}
    → IsConsistent db
    → All (λ row. row.name ≢ z.name) db.zones
    → insert_zone ids z db ≡ ok db'
    → IsConsistent db'
unfolding insert_zone zone_row zone_ids
insert_zone-IsConsistent ids z db kept absent h =
    let (id, i, h') = bind-eq-ok (insert_id ids db z.id (zone_ids db)) _ h in
    let row : ZoneRow = zone_row id z in
    let used : List ℕ = map (λ z. z.id) db.zones in
    let more : map (λ z. z.id) (db.zones ++ (row ∷ [])) ≡ used ++ (id ∷ []) =
      map-append (λ z. z.id) db.zones (row ∷ []) in
    subst IsConsistent (ok-injective h') (
      zones_replaced db (db.zones ++ (row ∷ [])) (id ∷ db.rowids) kept
        (subst Distinct (sym more) (
          Distinct-append_one used id kept.zones_distinct
            (is_in-false id used (insert_id_unused ids db z.id used i))))
        (subst Distinct (sym (map-append (λ z. z.name) db.zones (row ∷ []))) (
          Distinct-append_one (map (λ z. z.name) db.zones) z.name kept.names_distinct
            (map-All (λ name. name ≢ z.name) (λ z. z.name) db.zones absent)))
        (All-implies db.records
          (λ r old.
            ap (is_in r.zoneid) more ∙ is_in-append_left r.zoneid used (id ∷ []) old.belongs)
          kept.records_belong)
        (All-implies db.ownership
          (λ o old. ap (is_in o.zoneid) more ∙ is_in-append_left o.zoneid used (id ∷ []) old.owned)
          kept.ownership_belongs))

update_zone-IsConsistent :
    (z : FileZone) (db : Db) → IsConsistent db → IsConsistent (update_zone z db)
unfolding update_zone set_authority zone_ids
update_zone-IsConsistent z db kept =
    let same =
      map-update_where (λ row. row.id) (λ row. id_is z.id row.id) (set_authority z) db.zones
        (λ row. refl) in
    zones_replaced db _ db.rowids kept (subst Distinct (sym same) kept.zones_distinct)
      (subst Distinct
        (sym (map-update_where (λ row. row.name) _ (set_authority z) db.zones (λ row. refl)))
        kept.names_distinct)
      (All-implies db.records (λ r old. ap (is_in r.zoneid) same ∙ old.belongs) kept.records_belong)
      (All-implies db.ownership (λ o old. ap (is_in o.zoneid) same ∙ old.owned)
        kept.ownership_belongs)

pub write_zone-IsConsistent :
    (ids : RowIds) (z : FileZone) (found : Option FileZone) (db : Db) {db' : Db}
    → IsConsistent db
    → get_zone_with_txn db none (some z.name) ≡ ok found
    → write_zone ids z found db ≡ ok db'
    → IsConsistent db'
unfolding write_zone
write_zone-IsConsistent ids z none db kept e h =
    insert_zone-IsConsistent ids z db kept (get_zone_absent db z.name e) h
write_zone-IsConsistent ids z (some ez) db kept e h = elim (Bool-cases (matching_data z ez)) [
  | inl same ↦ subst IsConsistent (ok-injective (sym (rw same refl) ∙ h)) kept
  | inr other ↦
      subst IsConsistent (ok-injective (sym (rw other refl) ∙ h))
        (update_zone-IsConsistent (record z { id = ez.id }) db kept)
]

pub drop_records-IsConsistent :
    (id : Option ℕ) (db : Db) → IsConsistent db → IsConsistent (drop_records id db)
unfolding drop_records delete_where record_ids
drop_records-IsConsistent id db kept =
    records_replaced db _ kept (Distinct-select (λ row. row.id) _ db.records kept.records_distinct)
      (All-select _ _ db.records kept.records_belong)

save_records-IsConsistent :
    (ids : RowIds) (zoneid : ℕ) (rs : List FileZoneRecord) (db : Db) {db' : Db}
    → IsConsistent db
    → save_records ids zoneid rs db ≡ ok db'
    → IsConsistent db'
unfolding save_records
save_records-IsConsistent ids zoneid [] db kept h = subst IsConsistent (ok-injective h) kept
save_records-IsConsistent ids zoneid (r ∷ rs) db kept h =
    let (saved, s, h') = bind-eq-ok (save_record ids (placed zoneid r) db) _ h in
    save_records-IsConsistent ids zoneid rs saved.1
      (save_record-IsConsistent ids (placed zoneid r) db kept s) h'

store_records-IsConsistent :
    (ids : RowIds) (z : FileZone) (id : Option ℕ) (db : Db) {saved : FileZone × Db}
    → IsConsistent db
    → store_records ids z id db ≡ ok saved
    → IsConsistent (saved.1)
unfolding store_records
store_records-IsConsistent ids z none db kept h = cc
store_records-IsConsistent ids z (some n) db kept h =
    let (db', s, e) = bind-eq-ok (save_records ids n z.records (drop_records (some n) db)) _ h in
    subst (λ s. IsConsistent (s.1)) (ok-injective e)
      (save_records-IsConsistent ids n z.records _ (drop_records-IsConsistent (some n) db kept) s)

replace_records-IsConsistent :
    (ids : RowIds) (z : FileZone) (updated : Option FileZone) (db : Db) {saved : FileZone × Db}
    → IsConsistent db
    → replace_records ids z updated db ≡ ok saved
    → IsConsistent (saved.1)
unfolding replace_records
replace_records-IsConsistent ids z none db kept h = cc
replace_records-IsConsistent ids z (some updated) db kept h =
    store_records-IsConsistent ids z updated.id db kept h

-- Saving a zone with its records keeps the invariant.
pub save_zone-IsConsistent :
    (ids : RowIds) (z : FileZone) (db : Db) {saved : FileZone × Db}
    → IsConsistent db
    → save_zone ids z db ≡ ok saved
    → IsConsistent (saved.1)
unfolding save_zone
save_zone-IsConsistent ids z db kept h =
    let (found, f, at_write) = bind-eq-ok (get_zone_with_txn db none (some z.name)) _ h in
    let (written, w, at_read) = bind-eq-ok (write_zone ids z found db) _ at_write in
    let (updated, _, at_end) =
      bind-eq-ok (get_zone_with_txn written none (some z.name)) _ at_read in
    replace_records-IsConsistent ids z updated written
      (write_zone-IsConsistent ids z found db kept f w) at_end
