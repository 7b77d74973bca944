-- ===== src/Api/Ownership.antt =====
-- Who may change what: the checks of the ownership in src/web/api/filezone.rs, and
-- get_ownership_by_userid of src/db/mod.rs.
use mathlib.Core.List.{Memᴰ as In}
use mathlib.Core.List.Memᴰ.{head, tail}
use goatns.Prelude.{
  ℕ, Bool, true, false, not, ◌&&◌, ◌==◌, ==_iff, Option, none, some, ◌≡◌, refl, sym, ap, subst, ◌∙◌,
  inl, inr, List, [], ◌∷◌, Bool-cases, All, Result, ok, err, panic, stuck, Bytes, Option-cases,
  bind-eq-ok, ok-injective, sqlx_error,
}
use goatns.Name.{check_valid_tld}
use goatns.Datastore.{ZoneRow}
use goatns.Zone.{FileZone}
use goatns.Database.{Db, RowIds, UserRow, OwnershipRow, first}
use goatns.Database.Zones.{
  is_zone, records_from_rows, zone_from_row, rows_of_zone, with_records, get_with_txn, save_zone,
  delete_zone,
}
use goatns.Database.Users.{
  User, ZoneOwnership, user_joins, or_else, first_ownership, first_user, get_ownership_by_userid,
}
use goatns.Database.Rows.{first-some}
use goatns.Database.Consistent.{IsConsistent}
use goatns.Database.Saved.{IsStored, save_zone-IsStored}
use goatns.Database.Deleted.{IsWithout, delete_zone-IsWithout}
use goatns.Api.{success, Handled, require, expect_ok, require_true, zone_update, zone_delete}

-- The user is not disabled and owns the zone.
pub record IsOwnedBy (userid zoneid : ℕ) (db : Db) : Type 0 where
  pub user : UserRow
  pub ownership : OwnershipRow
  pub user_there : In user db.users
  pub user_is : user.id ≡ userid
  pub enabled : user.disabled ≡ false
  pub ownership_there : In ownership db.ownership
  pub owner_is : ownership.userid ≡ userid
  pub zone_is : ownership.zoneid ≡ zoneid

joined :
    (a b c d : Bool)
    → (a && b && c && not d) ≡ true
    → (a ≡ true) × (b ≡ true) × (c ≡ true) × (d ≡ false)
joined true true true false h = (refl, refl, refl, refl)
joined _ _ _ _ h = cc

first_ownership_joins :
    (userid zoneid : ℕ) (u : UserRow) (zones : List ZoneRow) (os : List OwnershipRow)
    {o : ZoneOwnership}
    → first_ownership userid zoneid u zones os ≡ some o
    → (row : OwnershipRow) × In row os × (user_joins userid zoneid u row ≡ true)
unfolding first_ownership
first_ownership_joins userid zoneid u zones [] h = cc
first_ownership_joins userid zoneid u zones (row ∷ os) h =
    elim (Bool-cases (user_joins userid zoneid u row)) [
      | inl e ↦ (row, head refl, e)
      | inr e ↦
          let (found, there, joins) =
            first_ownership_joins userid zoneid u zones os (sym (rw e refl) ∙ h) in
          (found, tail there, joins)
    ]

first_user_joins :
    (userid zoneid : ℕ) (zones : List ZoneRow) (os : List OwnershipRow) (us : List UserRow)
    {o : ZoneOwnership}
    → first_user userid zoneid zones os us ≡ some o
    → (u : UserRow) × (row : OwnershipRow) × In u us
      × In row os
      × (user_joins userid zoneid u row ≡ true)
unfolding first_user or_else
first_user_joins userid zoneid zones os [] h = cc
first_user_joins userid zoneid zones os (u ∷ us) h =
    elim (Option-cases (first_ownership userid zoneid u zones os)) [
      | inl e ↦
          let (v, row, there, found, joins) =
            first_user_joins userid zoneid zones os us (sym (rw e refl) ∙ h) in
          (v, row, tail there, found, joins)
      | inr (o, e) ↦
          let (row, found, joins) = first_ownership_joins userid zoneid u zones os e in
          (u, row, head refl, found, joins)
    ]

-- An ownership is found only where there is one: of this zone, by this user, who is not disabled.
pub get_ownership_by_userid-IsOwnedBy :
    (db : Db) (userid zoneid : ℕ) {o : ZoneOwnership}
    → get_ownership_by_userid db userid zoneid ≡ some o
    → IsOwnedBy userid zoneid db
unfolding get_ownership_by_userid user_joins
get_ownership_by_userid-IsOwnedBy db userid zoneid h =
    let (u, row, user_there, there, joins) =
      first_user_joins userid zoneid db.zones db.ownership db.users h in
    let (owner, zone, same, enabled) =
      joined (row.userid == userid) (row.zoneid == zoneid) (row.userid == u.id) u.disabled joins in
    record {
      user = u;
      ownership = row;
      user_there = user_there;
      user_is = sym ((==_iff row.userid u.id).0 same) ∙ (==_iff row.userid userid).0 owner;
      enabled = enabled;
      ownership_there = there;
      owner_is = (==_iff row.userid userid).0 owner;
      zone_is = (==_iff row.zoneid zoneid).0 zone;
    }

module _ {A : Type 0} (status : ℕ) (db : Db) {db' : Db} where
  require-eq-success :
      (o : Option A) (next : A → Handled)
      → require o status db next ≡ ok (success, db')
      → (x : A) × (o ≡ some x) × (next x ≡ ok (success, db'))
  unfolding require
  require-eq-success none next h = cc
  require-eq-success (some x) next h = (x, refl, h)

  expect_ok-eq-success :
      (r : Result A) (next : A → Handled)
      → expect_ok r status db next ≡ ok (success, db')
      → (x : A) × (r ≡ ok x) × (next x ≡ ok (success, db'))
  unfolding expect_ok
  expect_ok-eq-success (ok x) next h = (x, refl, h)
  expect_ok-eq-success (err e) next h = cc
  expect_ok-eq-success panic next h = cc
  expect_ok-eq-success stuck next h = cc

with_records_id :
    (db : Db) (row : ZoneRow) {z : FileZone} → with_records db row ≡ ok z → z.id ≡ some row.id
unfolding with_records zone_from_row
with_records_id db row h =
    let (records, _, e) = bind-eq-ok (records_from_rows (rows_of_zone row.id db)) _ h in
    ap (λ z. z.id) (sym (ok-injective e))

pub get_with_txn_id : (db : Db) (id : ℕ) {z : FileZone} → get_with_txn db id ≡ ok z → z.id ≡ some id
unfolding get_with_txn
get_with_txn_id db id {z} h = found (first (λ row. row.id == id) db.zones) refl h
  where
    found :
        (row : Option ZoneRow)
        → first (λ row. row.id == id) db.zones ≡ row
        → elim row [ none ↦ err sqlx_error | some row ↦ with_records db row ] ≡ ok z
        → z.id ≡ some id
    found none e k = cc
    found (some row) e k =
        with_records_id db row k
        ∙ ap some ((==_iff row.id id).0 (first-some (λ row. row.id == id) db.zones e))

-- A zone is deleted through the API only by a user of the session who is stored, not disabled, and its
-- owner; then it is gone with its records and owners, and the other zones, their records, their owners and the
-- users stay.
pub zone_delete-IsOwnedBy :
    (session : Option User) (id : ℕ) (db : Db) {db' : Db}
    → zone_delete session id db ≡ ok (success, db')
    → (user : User) × (userid : ℕ) × (session ≡ some user)
      × (user.id ≡ some userid)
      × IsOwnedBy userid id db
      × IsWithout id db db'
unfolding zone_delete
zone_delete-IsOwnedBy session id db h =
    let (user, s, at_user) = require-eq-success 403 db session _ h in
    let (userid, u, at_owner) = require-eq-success 500 db user.id _ at_user in
    let (o, owned, at_zone) =
      require-eq-success 404 db (get_ownership_by_userid db userid id) _ at_owner in
    let (zone, z, at_delete) = expect_ok-eq-success 500 db (get_with_txn db id) _ at_zone in
    let (deleted, d, at_end) = expect_ok-eq-success 500 db (delete_zone zone db) _ at_delete in
    let (without, d', gone) = delete_zone-IsWithout zone db id (get_with_txn_id db id z) in
    let same : without ≡ deleted = ok-injective (sym d' ∙ d) in
    let left : deleted ≡ _ = ap (λ answer. answer.1) (ok-injective at_end) in
    (
      user,
      userid,
      s,
      u,
      get_ownership_by_userid-IsOwnedBy db userid id owned,
      subst (IsWithout id db) (same ∙ left) gone,
    )

-- A stored zone is updated through the API by whoever has a session, the owner or not: on a consistent
-- database, for any user with an identifier, a zone file that has an identifier, an allowed name that
-- is the name of a stored zone, and records without identifiers is stored in place of that zone.
pub zone_update-IsStored :
    (ids : RowIds) (tlds : List Bytes) (user : User) (userid : ℕ) (z : FileZone) (id : ℕ)
    (row : ZoneRow) (db : Db)
    → IsConsistent db
    → user.id ≡ some userid
    → z.id ≡ some id
    → check_valid_tld z.name tlds ≡ true
    → first (is_zone none (some z.name)) db.zones ≡ some row
    → All (λ r. r.id ≡ none) z.records
    → (n : ℕ) × (db' : Db) × (zone_update ids tlds (some user) z db ≡ ok (success, db'))
      × IsStored n z db'
unfolding zone_update require expect_ok require_true
zone_update-IsStored ids tlds user userid z id row db kept u i valid present new =
    let (n, db', saved, stored) = save_zone-IsStored ids z db kept (inr (row, present)) new in
    let store : Handled = expect_ok (save_zone ids z db) 500 db (λ saved. ok (success, saved.1)) in
    (
      n,
      db',
      ap
            (λ o. require o 400 db λ zone_id.
              require_true (check_valid_tld z.name tlds) 400 db
                (require user.id 500 db λ user_id. store))
            i
          ∙ ap (λ test. require_true test 400 db (require user.id 500 db λ user_id. store)) valid
          ∙ ap (λ o. require o 500 db λ user_id. store) u
          ∙ ap (λ r. expect_ok r 500 db (λ saved. ok (success, saved.1))) saved,
      stored,
    )
