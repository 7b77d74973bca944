-- ===== src/Database/Consistent/Owners.antt =====
-- The invariant and the statements on users and on the ownership of zones, of src/db/mod.rs.
use goatns.Prelude.{
  ℕ, Bool, true, false, not, ◌&&◌, ◌||◌, ◌==◌, ◌≡◌, refl, sym, subst, List, [], ◌∷◌, ◌++◌, map, All,
  All-append, ok, bind-eq-ok, ok-injective, if_err-eq-ok,
}
use mathlib.Core.List.{map-append}
use goatns.Database.{
  Db, RowIds, UserRow, OwnershipRow, is_in, insert_id, zone_ids, record_ids, user_ids,
  ownership_ids,
}
use goatns.Database.Rows.{
  Distinct, Distinct-append_one, All-implies, All-select, Distinct-select, is_in-append_left,
  is_in-false,
}
use goatns.Database.Consistent.{IsOwnerOf, IsConsistent, insert_id_unused}
use goatns.Database.Users.{
  User, ZoneOwnership, user_row, same_login, any_row, save_user, save_ownership, delete_ownership,
}

-- Other owners in place of those that are there.
pub ownership_replaced :
    (db : Db) (rows : List OwnershipRow)
    → IsConsistent db
    → Distinct (map (λ o. o.id) rows)
    → All (IsOwnerOf (zone_ids db) (user_ids db)) rows
    → IsConsistent (record db { ownership = rows })
unfolding zone_ids record_ids user_ids ownership_ids
ownership_replaced db rows kept distinct belong = record {
  zones_distinct = kept.zones_distinct;
  names_distinct = kept.names_distinct;
  records_distinct = kept.records_distinct;
  users_distinct = kept.users_distinct;
  ownership_distinct = distinct;
  records_belong = kept.records_belong;
  ownership_belongs = belong;
}

-- Which identifiers were given is no part of the invariant.
pub rowids_replaced :
    (db : Db) (last : List ℕ) → IsConsistent db → IsConsistent (record db { rowids = last })
unfolding zone_ids record_ids user_ids ownership_ids
rowids_replaced db last kept = record {
  zones_distinct = kept.zones_distinct;
  names_distinct = kept.names_distinct;
  records_distinct = kept.records_distinct;
  users_distinct = kept.users_distinct;
  ownership_distinct = kept.ownership_distinct;
  records_belong = kept.records_belong;
  ownership_belongs = kept.ownership_belongs;
}

pub delete_ownership-IsConsistent :
    (o : ZoneOwnership) (db : Db) → IsConsistent db → IsConsistent (delete_ownership o db)
unfolding delete_ownership ownership_ids
delete_ownership-IsConsistent o db kept =
    ownership_replaced db _ kept
      (Distinct-select (λ row. row.id) _ db.ownership kept.ownership_distinct)
      (All-select _ _ db.ownership kept.ownership_belongs)

no_refusal : (a b c : Bool) → (not a || not b || c) ≡ false → (a ≡ true) × (b ≡ true)
no_refusal true true c h = (refl, refl)
no_refusal true false c h = cc
no_refusal false b c h = cc

-- An owner is stored only where there are the zone and the user.
pub save_ownership-IsConsistent :
    (ids : RowIds) (o : ZoneOwnership) (db : Db) {saved : ZoneOwnership × Db}
    → IsConsistent db
    → save_ownership ids o db ≡ ok saved
    → IsConsistent (saved.1)
unfolding save_ownership ownership_ids insert_id
save_ownership-IsConsistent ids o db kept h =
    let (guards, h') =
      if_err-eq-ok
        (not (is_in o.zoneid (zone_ids db))
          || not (is_in o.userid (user_ids db))
          || any_row (λ row. row.zoneid == o.zoneid && row.userid == o.userid) db.ownership)
        _ h in
    let (zone, user) = no_refusal _ _ _ guards in
    let id : ℕ = ids.fresh db.rowids (ownership_ids db) in
    let row : OwnershipRow = record { id = id; zoneid = o.zoneid; userid = o.userid } in
    subst (λ s. IsConsistent (s.1)) (ok-injective h')
      (rowids_replaced (record db { ownership = db.ownership ++ (row ∷ []) }) (id ∷ db.rowids)
        (ownership_replaced db (db.ownership ++ (row ∷ [])) kept
          (subst Distinct (sym (map-append (λ o. o.id) db.ownership (row ∷ []))) (
            Distinct-append_one (map (λ o. o.id) db.ownership) id kept.ownership_distinct (
              is_in-false id (map (λ o. o.id) db.ownership)
                (ids.fresh_unused db.rowids (ownership_ids db)))))
          (All-append (IsOwnerOf (zone_ids db) (user_ids db)) db.ownership (row ∷ [])
            kept.ownership_belongs (record { owned = zone; owner = user }, tt))))

more_users :
    (db : Db) (row : UserRow) (last : List ℕ)
    → IsConsistent db
    → is_in row.id (user_ids db) ≡ false
    → IsConsistent (record db { users = db.users ++ (row ∷ []); rowids = last })
unfolding zone_ids record_ids user_ids ownership_ids
more_users db row last kept unused =
    let ids = map (λ u. u.id) db.users in
    let more : map (λ u. u.id) (db.users ++ (row ∷ [])) ≡ ids ++ (row.id ∷ []) =
      map-append (λ u. u.id) db.users (row ∷ []) in
    record {
      zones_distinct = kept.zones_distinct;
      names_distinct = kept.names_distinct;
      records_distinct = kept.records_distinct;
      users_distinct =
          subst Distinct (sym more)
            (Distinct-append_one ids row.id kept.users_distinct (is_in-false row.id ids unused));
      ownership_distinct = kept.ownership_distinct;
      records_belong = kept.records_belong;
      ownership_belongs =
          subst (λ us. All (IsOwnerOf (map (λ z. z.id) db.zones) us) db.ownership) (sym more)
            (All-implies db.ownership
              (λ o old. record {
                owned = old.owned;
                owner = is_in-append_left o.userid ids (row.id ∷ []) old.owner;
              })
              kept.ownership_belongs);
    }

-- A new user keeps the invariant.
pub save_user-IsConsistent :
    (ids : RowIds) (u : User) (db : Db) {saved : User × Db}
    → IsConsistent db
    → save_user ids u db ≡ ok saved
    → IsConsistent (saved.1)
unfolding save_user user_row
save_user-IsConsistent ids u db kept h =
    let (id, i, h') = bind-eq-ok (insert_id ids db u.id (user_ids db)) _ h in
    let (_, h'') = if_err-eq-ok (any_row (same_login u) db.users) _ h' in
    subst (λ s. IsConsistent (s.1)) (ok-injective h'')
      (more_users db (user_row id u) (id ∷ db.rowids) kept
        (insert_id_unused ids db u.id (user_ids db) i))
