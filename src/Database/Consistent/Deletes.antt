-- ===== src/Database/Consistent/Deletes.antt =====
-- The invariant and `FileZone::delete_with_txn` of src/db/mod.rs.
use goatns.Prelude.{
  ℕ, Bool, true, false, not, ◌||◌, ◌==◌, ==_iff, Option, none, some, ◌≡◌, ◌≢◌, refl, sym, subst,
  ◌∙◌, inl, inr, Bool-cases, map, ok, ok-injective, if_err-eq-ok,
}
use goatns.Zone.{FileZone}
use goatns.Database.{Db, is_in, delete_where, zone_ids, ownership_ids}
use goatns.Database.Rows.{All-zip, All-select, Distinct-select, is_in-false, is_in-select, All-map}
use goatns.Database.Zones.{drop_records, remove_zone_row, remove_ownership, delete_zone}
use goatns.Database.Consistent.{IsConsistent}
use goatns.Database.Consistent.Owners.{ownership_replaced}
use goatns.Database.Consistent.Zones.{zones_replaced, drop_records-IsConsistent}

remove_ownership-IsConsistent :
    (id : ℕ) (db : Db) → IsConsistent db → IsConsistent (remove_ownership id db)
unfolding remove_ownership delete_where ownership_ids
remove_ownership-IsConsistent id db kept =
    ownership_replaced db _ kept
      (Distinct-select (λ row. row.id) _ db.ownership kept.ownership_distinct)
      (All-select _ _ db.ownership kept.ownership_belongs)

or_false : (a b : Bool) → (a || b) ≡ false → (a ≡ false) × (b ≡ false)
or_false false false h = (refl, refl)
or_false false true h = cc
or_false true b h = cc

-- a row with another identifier is not deleted
kept_row : (id n m : ℕ) → n ≢ id → m ≡ n → not (m == id) ≡ true
kept_row id n m ne e = elim (Bool-cases (m == id)) [
  | inl same ↦ absurd (ne (sym e ∙ (==_iff m id).0 same))
  | inr other ↦ rw other refl
]

remove_zone_row-IsConsistent :
    (id : ℕ) (db : Db) {db' : Db}
    → IsConsistent db
    → remove_zone_row id db ≡ ok db'
    → IsConsistent db'
unfolding remove_zone_row delete_where zone_ids
remove_zone_row-IsConsistent id db kept h =
    let (free, e) =
      if_err-eq-ok
        (is_in id (map (λ r. r.zoneid) db.records) || is_in id (map (λ o. o.zoneid) db.ownership)) _
        h in
    let (no_record, no_owner) =
      or_false (is_in id (map (λ r. r.zoneid) db.records))
        (is_in id (map (λ o. o.zoneid) db.ownership)) free in
    let stays : (n : ℕ)
        → n ≢ id
        → is_in n (map (λ z. z.id) db.zones) ≡ true
        → is_in n (map (λ z. z.id) (delete_where (λ row. row.id == id) db.zones)) ≡ true =
      λ n ne there.
        is_in-select (λ z. z.id) (λ row. not (row.id == id)) n db.zones
          (λ row same. kept_row id n row.id ne same) there in
    subst IsConsistent (ok-injective e) (
      zones_replaced db _ db.rowids kept
        (Distinct-select (λ z. z.id) _ db.zones kept.zones_distinct)
        (Distinct-select (λ z. z.name) _ db.zones kept.names_distinct)
        (All-zip db.records (λ r ne old. stays r.zoneid ne old.belongs)
          (All-map (λ m. m ≢ id) (λ r. r.zoneid) db.records
            (is_in-false id (map (λ r. r.zoneid) db.records) no_record))
          kept.records_belong)
        (All-zip db.ownership (λ o ne old. stays o.zoneid ne old.owned)
          (All-map (λ m. m ≢ id) (λ o. o.zoneid) db.ownership
            (is_in-false id (map (λ o. o.zoneid) db.ownership) no_owner))
          kept.ownership_belongs))

-- Deleting a zone keeps the invariant.
pub delete_zone-IsConsistent :
    (z : FileZone) (db : Db) {db' : Db}
    → IsConsistent db
    → delete_zone z db ≡ ok db'
    → IsConsistent db'
unfolding delete_zone
delete_zone-IsConsistent z db {db'} kept h = with_id z.id h
  where
    with_id :
        (id : Option ℕ)
        → elim id [
          | none ↦ ok db
          | some n ↦ remove_zone_row n (drop_records (some n) (remove_ownership n db))
        ]
          ≡ ok db'
        → IsConsistent db'
    with_id none e = subst IsConsistent (ok-injective e) kept
    with_id (some n) e =
        remove_zone_row-IsConsistent n (drop_records (some n) (remove_ownership n db))
          (drop_records-IsConsistent (some n) _ (remove_ownership-IsConsistent n db kept)) e
