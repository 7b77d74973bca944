-- ===== src/Web/Admin/Takeover.antt =====
-- Who may give zones away on the pages of src/web/ui/admin_ui.rs.
use mathlib.Core.List.{Memᴰ as In}
use mathlib.Core.List.Memᴰ.{head, tail}
use goatns.Prelude.{
  ℕ, true, false, ◌&&◌, ◌==◌, ==_iff, Option, none, some, ◌≡◌, refl, sym, ap, ◌∙◌, List, [], ◌∷◌,
  ◌++◌, map, ok, err, ok-injective, Bytes, equal, sqlx_error,
}
use goatns.Zone.{FileZone}
use goatns.Datastore.{ZoneRow}
use goatns.Database.{
  Db, RowIds, UserRow, OwnershipRow, is_in, first, id_is, insert_id, zone_ids, user_ids,
  ownership_ids,
}
use goatns.Database.Rows.{first-is_in, first-some, first-there}
use goatns.Database.Zones.{with_records, get_with_txn}
use goatns.Database.Users.{User, ZoneOwnership, user_from_row, any_row, save_ownership}
use goatns.Database.Accounts.{found_user, get_user_by_name}
use goatns.Api.Ownership.{IsOwnedBy, get_with_txn_id}
use goatns.Web.{Urls, redirect, Session, GoatState, Handled, sent}
use goatns.Web.Sessions.{IsLoggedIn, check_logged_in-IsLoggedIn}
use goatns.Web.Admin.{
  AdminPage, or_admin, assign_to, assign_named, assign_checked, assign_zone_ownership,
}

-- The row of a user that is found by name.
get_user_by_name-row :
    (db : Db) (username : Bytes) {user : User}
    → get_user_by_name db username ≡ ok user
    → (row : UserRow) × In row db.users
      × (is_in row.id (user_ids db) ≡ true)
      × (user ≡ user_from_row row)
unfolding get_user_by_name user_ids
get_user_by_name-row db username {user} h =
    found (first (λ row. equal row.username username) db.users) refl h
  where
    found :
        (result : Option UserRow)
        → first (λ row. equal row.username username) db.users ≡ result
        → found_user result ≡ ok user
        → (row : UserRow) × In row db.users
          × (is_in row.id (map (λ u. u.id) db.users) ≡ true)
          × (user ≡ user_from_row row)
    found none e k = cc
    found (some row) e k =
        (row, first-there _ db.users e, first-is_in _ (λ u. u.id) db.users e, sym (ok-injective k))

get_with_txn-is_in :
    (db : Db) (id : ℕ) {z : FileZone} → get_with_txn db id ≡ ok z → is_in id (zone_ids db) ≡ true
unfolding get_with_txn zone_ids
get_with_txn-is_in db id {z} h = found (first (λ row. row.id == id) db.zones) refl h
  where
    found :
        (result : Option ZoneRow)
        → first (λ row. row.id == id) db.zones ≡ result
        → elim result [ none ↦ err sqlx_error | some row ↦ with_records db row ] ≡ ok z
        → is_in id (map (λ z. z.id) db.zones) ≡ true
    found none e k = cc
    found (some row) e k =
        ap (λ n. is_in n (map (λ z. z.id) db.zones))
          (sym ((==_iff row.id id).0 (first-some (λ row. row.id == id) db.zones e)))
        ∙ first-is_in (λ row. row.id == id) (λ z. z.id) db.zones e

last_there : {A : Type 0} (rows : List A) (row : A) → In row (rows ++ (row ∷ []))
last_there [] row = head refl
last_there (r ∷ rows) row = tail (last_there rows row)

-- A new owner of a zone that is there.
save_ownership-IsOwnedBy :
    (ids : RowIds) (db : Db) (zoneid : ℕ) (u : UserRow)
    → In u db.users
    → u.disabled ≡ false
    → is_in zoneid (zone_ids db) ≡ true
    → is_in u.id (user_ids db) ≡ true
    → any_row (λ row. row.zoneid == zoneid && row.userid == u.id) db.ownership ≡ false
    → (saved : ZoneOwnership × Db) × (save_ownership ids
          (record { id = none; userid = u.id; zoneid = zoneid })
          db
        ≡ ok saved)
      × IsOwnedBy u.id zoneid saved.1
unfolding save_ownership insert_id
save_ownership-IsOwnedBy ids db zoneid u there enabled zone user free =
    let n : ℕ = ids.fresh db.rowids (ownership_ids db) in
    let row : OwnershipRow = record { id = n; zoneid = zoneid; userid = u.id } in
    (
      (
        record { id = some n; userid = u.id; zoneid = zoneid },
        record db { ownership = db.ownership ++ (row ∷ []); rowids = n ∷ db.rowids },
      ),
      rw (zone, user, free) refl,
      record {
        user = u;
        ownership = row;
        user_there = there;
        user_is = refl;
        enabled = enabled;
        ownership_there = last_there db.ownership row;
        owner_is = refl;
        zone_is = refl;
      },
    )

-- Who can give zones away: any user of a session, admin or not and owner or not, makes the user with a name that is
-- stored and not disabled an owner of any zone that can be read, where the user is no owner of it yet.
pub assign_zone_ownership-IsOwnedBy :
    (ids : RowIds) (id : ℕ) (username : Bytes) (session : Session) (st : GoatState) (user : User)
    {zone : FileZone} {named : User}
    → IsLoggedIn session user
    → get_with_txn st.db id ≡ ok zone
    → get_user_by_name st.db username ≡ ok named
    → named.disabled ≡ false
    → any_row (λ row. row.zoneid == id && id_is named.id row.userid) st.db.ownership ≡ false
    → (after : Handled AdminPage) × (userid : ℕ) × (assign_zone_ownership ids id
          (some username)
          session
          st
        ≡ ok after)
      × (named.id ≡ some userid)
      × IsOwnedBy userid id after.state.db
unfolding assign_zone_ownership assign_checked assign_named assign_to or_admin id_is user_from_row
assign_zone_ownership-IsOwnedBy ids id username session st user {zone} {named} logged stored found
      enabled free =
    let (u, there, known, same) = get_user_by_name-row st.db username found in
    let (saved, done, owned) =
      save_ownership-IsOwnedBy ids st.db id u there (ap (λ x. x.disabled) (sym same) ∙ enabled)
        (get_with_txn-is_in st.db id stored) known
        (ap
            (λ (x : User).
              any_row (λ row. row.zoneid == id && id_is x.id row.userid) st.db.ownership)
            (sym same)
          ∙ free) in
    (
      sent session (record st { db = saved.1 }) Urls.admin,
      u.id,
      rw
          (
            check_logged_in-IsLoggedIn session (some (redirect Urls.home)) user logged,
            stored,
            found,
            get_with_txn_id st.db id stored,
            same,
            done,
          )
          refl,
      ap (λ x. x.id) same,
      owned,
    )
