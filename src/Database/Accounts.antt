-- ===== src/Database/Accounts.antt =====
-- Statements on the accounts of users of src/db/mod.rs that the web pages run, `update_with_txn` and
-- `get_by_name` of `DBEntity for User`.
use goatns.Prelude.{
  Bool, not, ◌&&◌, Option, none, some, ◌≡◌, refl, sym, subst, List, map, Result, ok, err,
  if◌then◌else◌, ok-injective, if_err-eq-ok, All, Bytes, equal, sqlx_error,
}
use goatns.Database.{
  Db, UserRow, first, update_where, id_is, zone_ids, record_ids, user_ids, ownership_ids,
}
use goatns.Database.Rows.{Distinct, map-update_where}
use goatns.Database.Consistent.{IsOwnerOf, IsConsistent}
use goatns.Database.Users.{User, user_from_row, user_row, same_login, any_row}

-- A row whose name and address the updated row would share.
unfoldable pub is_taken : User → UserRow → Bool
unfolding same_login id_is
is_taken u row = same_login u row && not (id_is u.id row.id)

-- `User::update_with_txn`: without a row of the identifier nothing is changed, and the unique index on name
-- and address holds.
unfoldable pub update_user : User → Db → Result Db
unfolding any_row is_taken update_where id_is user_row
update_user u db =
    if any_row (λ row. id_is u.id row.id) db.users && any_row (is_taken u) db.users
    then err sqlx_error
    else ok (record db {
      users = update_where (λ row. id_is u.id row.id) (λ row. user_row row.id u) db.users;
    })

-- `User::get_by_name`, by the user's name; no row is an error.
unfoldable pub found_user : Option UserRow → Result User
unfolding user_from_row
found_user none = err sqlx_error
found_user (some row) = ok (user_from_row row)

unfoldable pub get_user_by_name : Db → Bytes → Result User
unfolding first equal found_user
get_user_by_name db username = found_user (first (λ row. equal row.username username) db.users)

users_replaced :
    (db : Db) (rows : List UserRow)
    → IsConsistent db
    → map (λ u. u.id) rows ≡ user_ids db
    → IsConsistent (record db { users = rows })
unfolding zone_ids record_ids user_ids ownership_ids
users_replaced db rows kept same = record {
  zones_distinct = kept.zones_distinct;
  names_distinct = kept.names_distinct;
  records_distinct = kept.records_distinct;
  users_distinct = subst Distinct (sym same) kept.users_distinct;
  ownership_distinct = kept.ownership_distinct;
  records_belong = kept.records_belong;
  ownership_belongs =
      subst (λ us. All (IsOwnerOf (map (λ z. z.id) db.zones) us) db.ownership) (sym same)
        kept.ownership_belongs;
}

-- An updated user keeps the invariant.
pub update_user-IsConsistent :
    (u : User) (db : Db) {db' : Db} → IsConsistent db → update_user u db ≡ ok db' → IsConsistent db'
unfolding update_user user_row user_ids
update_user-IsConsistent u db kept h =
    let (_, e) =
      if_err-eq-ok (any_row (λ row. id_is u.id row.id) db.users && any_row (is_taken u) db.users) _
        h in
    subst IsConsistent (ok-injective e) (
      users_replaced db _ kept
        (map-update_where (λ row. row.id) _ (λ row. user_row row.id u) db.users (λ row. refl)))
