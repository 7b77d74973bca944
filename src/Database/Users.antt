-- ===== src/Database/Users.antt =====
-- Users and the ownership of zones in the database: `DBEntity for User`, `DBEntity for ZoneOwnership`
-- and the queries on them of src/db/mod.rs.
use goatns.Prelude.{
  ℕ, Bool, false, not, ◌&&◌, ◌||◌, Option, none, some, List, [], ◌∷◌, ◌++◌, map, ◌==◌,
  if◌then◌else◌, Result, ok, err, panic, ◌>>=◌, take, drop, Bytes, equal, sqlx_error,
}
use goatns.Database.{
  Db, RowIds, UserRow, OwnershipRow, is_in, first, delete_where, id_is, text_is, insert_id,
  zone_ids, user_ids, ownership_ids,
}
use goatns.Datastore.{ZoneRow, select}
use goatns.Zone.{FileZone}
use goatns.Database.Zones.{zone_from_row}

pub record User : Type 0 where
  pub id : Option ℕ
  pub displayname : Bytes
  pub username : Bytes
  pub email : Bytes
  pub disabled : Bool
  pub authref : Option Bytes
  pub admin : Bool

pub record ZoneOwnership : Type 0 where
  pub id : Option ℕ
  pub userid : ℕ
  pub zoneid : ℕ

-- `From<SqliteRow> for User`
unfoldable pub user_from_row : UserRow → User
user_from_row row = record {
  id = some row.id;
  displayname = row.displayname;
  username = row.username;
  email = row.email;
  disabled = row.disabled;
  authref = row.authref;
  admin = row.admin;
}

unfoldable pub user_row : ℕ → User → UserRow
user_row id u = record {
  id = id;
  displayname = u.displayname;
  username = u.username;
  email = u.email;
  disabled = u.disabled;
  authref = u.authref;
  admin = u.admin;
}

unfoldable pub any_row : {A : Type 0} → (A → Bool) → List A → Bool
any_row p [] = false
any_row p (row ∷ rows) = p row || any_row p rows

-- the unique index on the user's name and address
unfoldable pub same_login : User → UserRow → Bool
unfolding equal
same_login u row = equal row.username u.username && equal row.email u.email

-- `User::save_with_txn`
unfoldable pub save_user : RowIds → User → Db → Result (User × Db)
unfolding insert_id user_ids user_row any_row same_login
save_user ids u db = insert_id ids db u.id (user_ids db) >>= λ id.
    if any_row (same_login u) db.users
    then err sqlx_error
    else ok (
      record u { id = some id },
      record db { users = db.users ++ (user_row id u ∷ []); rowids = id ∷ db.rowids },
    )

-- `User::get_by_subject`
unfoldable pub get_by_subject : Db → Bytes → Option User
unfolding first text_is user_from_row
get_by_subject db subject = elim (first (λ row. text_is (some subject) row.authref) db.users) [
  | none ↦ none
  | some row ↦ some (user_from_row row)
]

-- `ZoneOwnership::save_with_txn`: both foreign keys, and the unique index on the pair
unfoldable pub save_ownership : RowIds → ZoneOwnership → Db → Result (ZoneOwnership × Db)
unfolding insert_id is_in zone_ids user_ids ownership_ids any_row
save_ownership ids o db =
    if not (is_in o.zoneid (zone_ids db))
      || not (is_in o.userid (user_ids db))
      || any_row (λ row. row.zoneid == o.zoneid && row.userid == o.userid) db.ownership
    then err sqlx_error
    else (insert_id ids db none (ownership_ids db) >>= λ id. ok (
      record o { id = some id },
      record db {
        ownership = db.ownership ++ (record { id = id; zoneid = o.zoneid; userid = o.userid } ∷ []);
        rowids = id ∷ db.rowids;
      },
    ))

-- `ZoneOwnership::delete`
unfoldable pub delete_ownership : ZoneOwnership → Db → Db
unfolding delete_where
delete_ownership o db = record db {
  ownership = delete_where (λ row. row.zoneid == o.zoneid && row.userid == o.userid) db.ownership;
}

-- `From<SqliteRow> for ZoneOwnership`
ownership_from_row : OwnershipRow → ZoneOwnership
ownership_from_row row = record { id = some row.id; userid = row.userid; zoneid = row.zoneid }

-- `ZoneOwnership::get_all_user`: the column that is compared is `id`.
unfoldable pub ownership_of_user : Db → ℕ → List ZoneOwnership
unfolding select ownership_from_row
ownership_of_user db id = map ownership_from_row (select (λ row. row.id == id) db.ownership)

-- The zones that the join takes: the zone of the row, or every zone for an admin.
unfoldable pub zone_joins : UserRow → OwnershipRow → ZoneRow → Bool
zone_joins u o z = z.id == o.zoneid || u.admin

unfoldable pub user_joins : ℕ → ℕ → UserRow → OwnershipRow → Bool
user_joins userid zoneid u o =
    o.userid == userid && o.zoneid == zoneid && o.userid == u.id && not u.disabled

unfoldable pub first_zone : UserRow → OwnershipRow → List ZoneRow → Option ZoneOwnership
unfolding first zone_joins
first_zone u o zones = elim (first (zone_joins u o) zones) [
  | none ↦ none
  | some z ↦ some (record { id = some o.id; userid = o.userid; zoneid = z.id })
]

unfoldable pub or_else : {A : Type 0} → Option A → Option A → Option A
or_else (some x) rest = some x
or_else none rest = rest

unfoldable pub first_ownership :
    ℕ → ℕ → UserRow → List ZoneRow → List OwnershipRow → Option ZoneOwnership
unfolding first_zone user_joins or_else
first_ownership userid zoneid u zones [] = none
first_ownership userid zoneid u zones (o ∷ os) =
    let rest = first_ownership userid zoneid u zones os in
    if user_joins userid zoneid u o then or_else (first_zone u o zones) rest else rest

unfoldable pub first_user :
    ℕ → ℕ → List ZoneRow → List OwnershipRow → List UserRow → Option ZoneOwnership
unfolding first_ownership or_else
first_user userid zoneid zones ownership [] = none
first_user userid zoneid zones ownership (u ∷ us) =
    or_else (first_ownership userid zoneid u zones ownership)
      (first_user userid zoneid zones ownership us)

-- `ZoneOwnership::get_ownership_by_userid`: `from users, ownership, zones where …`
unfoldable pub get_ownership_by_userid : Db → ℕ → ℕ → Option ZoneOwnership
unfolding first_user
get_ownership_by_userid db userid zoneid = first_user userid zoneid db.zones db.ownership db.users

is_orphan : Db → ZoneRow → Bool
unfolding any_row
is_orphan db z = not (any_row (λ o. o.zoneid == z.id) db.ownership)

-- `FileZone::get_orphans`: the rows have no column `id`, and reading it panics.
unfoldable pub get_orphans : Db → Result (List FileZone)
unfolding any_row is_orphan
get_orphans db = if any_row (is_orphan db) db.zones then panic else ok []

-- The zones of one row of `ownership`, as rows of `SELECT * FROM zones, ownership`. Both tables have a
-- column `id`; which of the two the crate sqlx reads under that name is a parameter.
owned_zones : (ℕ → ℕ → ℕ) → Option ℕ → ZoneRow → List OwnershipRow → List FileZone
unfolding id_is zone_from_row
owned_zones id_column userid z [] = []
owned_zones id_column userid z (o ∷ os) =
    let rest = owned_zones id_column userid z os in
    if z.id == o.zoneid && id_is userid o.userid
    then record (zone_from_row z) { id = some (id_column z.id o.id) } ∷ rest
    else rest

zones_of : (ℕ → ℕ → ℕ) → Option ℕ → List OwnershipRow → List ZoneRow → List FileZone
unfolding owned_zones
zones_of id_column userid ownership [] = []
zones_of id_column userid ownership (z ∷ zs) =
    owned_zones id_column userid z ownership ++ zones_of id_column userid ownership zs

-- `User::get_zones_for_user`, with LIMIT and OFFSET
unfoldable pub get_zones_for_user : (ℕ → ℕ → ℕ) → User → Db → ℕ → ℕ → List FileZone
unfolding zones_of zone_from_row
get_zones_for_user id_column u db offset limit = take limit (
    drop offset (
      if u.admin
      then map zone_from_row db.zones
      else zones_of id_column u.id db.ownership db.zones))
