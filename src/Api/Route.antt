-- ===== src/Api/Route.antt =====
-- The answers to requests to the web API of src/web/api.
use goatns.Prelude.{ℕ, Bool, Option, ◌≡◌, refl, subst, List, ok, err, panic, stuck, Bytes}
use goatns.Database.{Db, RowIds}
use goatns.Database.Users.{User}
use goatns.Tokens.{TokenRow}
use goatns.Database.Consistent.{IsConsistent}
use goatns.Api.{
  Response, success, zone_sent, record_sent, failure, login_answered, Handled, Request, login_sent,
  route,
}
use goatns.Api.Answers.{
  Answered, Left, Kept, zone_update-Answered, zone_delete-Answered, zone_get-Answered,
  record_create-Answered, record_delete-Answered, record_get-Answered, record_update-Answered,
  zone_create-Answered,
}

Left-Kept : (db : Db) (h : Handled) → Answered (Left db) h → Answered Kept h
Left-Kept db (ok (failure status, db')) (_, kept) = kept
Left-Kept db (ok (login_answered status user, db')) (_, kept) = kept
Left-Kept db (ok (success, db')) kept = kept
Left-Kept db (ok (zone_sent z, db')) kept = kept
Left-Kept db (ok (record_sent r, db')) kept = kept
Left-Kept db (err e) h = h
Left-Kept db panic h = h
Left-Kept db stuck h = h

Answered-ok :
    (h : Handled)
    → Answered Kept h
    → (answer : Response × Db) × (h ≡ ok answer) × IsConsistent (answer.1)
Answered-ok (ok answer) kept = (answer, refl, kept)
Answered-ok (err e) h = absurd h
Answered-ok panic h = absurd h
Answered-ok stuck h = absurd h

-- The request is not one that creates a zone.
abbrev pub CreatesNoZone : Request → Type 0
CreatesNoZone (Request.post_zone _) = ⊥
CreatesNoZone _ = Unit

route-Left :
    (ids : RowIds) (tlds : List Bytes) (validate_api_token : Bytes → Bytes → Bool)
    (tokens : List TokenRow) (session : Option User) (request : Request) (db : Db)
    → IsConsistent db
    → CreatesNoZone request
    → Answered (Left db) (route ids tlds validate_api_token tokens session request db)
unfolding route login_sent
route-Left ids tlds validate_api_token tokens session (Request.post_zone z) db kept c = absurd c
route-Left ids tlds validate_api_token tokens session (Request.put_zone z) db kept c =
    zone_update-Answered ids tlds session z db kept
route-Left ids tlds validate_api_token tokens session (Request.read_zone id) db kept c =
    zone_get-Answered session id db kept
route-Left ids tlds validate_api_token tokens session (Request.remove_zone id) db kept c =
    zone_delete-Answered session id db kept
route-Left ids tlds validate_api_token tokens session (Request.post_record r) db kept c =
    record_create-Answered ids session r db kept
route-Left ids tlds validate_api_token tokens session (Request.put_record payload) db kept c =
    record_update-Answered session payload db kept
route-Left ids tlds validate_api_token tokens session (Request.read_record id) db kept c =
    record_get-Answered session id db kept
route-Left ids tlds validate_api_token tokens session (Request.remove_record id) db kept c =
    record_delete-Answered session id db kept
route-Left ids tlds validate_api_token tokens session (Request.post_login key secret) db kept c =
    (refl, kept)

route-Kept :
    (ids : RowIds) (tlds : List Bytes) (validate_api_token : Bytes → Bytes → Bool)
    (tokens : List TokenRow) (session : Option User) (request : Request) (db : Db)
    → IsConsistent db
    → Answered Kept (route ids tlds validate_api_token tokens session request db)
unfolding route login_sent
route-Kept ids tlds validate_api_token tokens session (Request.post_zone z) db kept =
    zone_create-Answered ids tlds session z db kept
route-Kept ids tlds validate_api_token tokens session (Request.put_zone z) db kept =
    Left-Kept db _
      (route-Left ids tlds validate_api_token tokens session (Request.put_zone z) db kept tt)
route-Kept ids tlds validate_api_token tokens session (Request.read_zone id) db kept =
    Left-Kept db _
      (route-Left ids tlds validate_api_token tokens session (Request.read_zone id) db kept tt)
route-Kept ids tlds validate_api_token tokens session (Request.remove_zone id) db kept =
    Left-Kept db _
      (route-Left ids tlds validate_api_token tokens session (Request.remove_zone id) db kept tt)
route-Kept ids tlds validate_api_token tokens session (Request.post_record r) db kept =
    Left-Kept db _
      (route-Left ids tlds validate_api_token tokens session (Request.post_record r) db kept tt)
route-Kept ids tlds validate_api_token tokens session (Request.put_record payload) db kept =
    Left-Kept db _ (
      route-Left ids tlds validate_api_token tokens session (Request.put_record payload) db kept tt)
route-Kept ids tlds validate_api_token tokens session (Request.read_record id) db kept =
    Left-Kept db _
      (route-Left ids tlds validate_api_token tokens session (Request.read_record id) db kept tt)
route-Kept ids tlds validate_api_token tokens session (Request.remove_record id) db kept =
    Left-Kept db _
      (route-Left ids tlds validate_api_token tokens session (Request.remove_record id) db kept tt)
route-Kept ids tlds validate_api_token tokens session (Request.post_login key secret) db kept = kept

-- Every request to the API, logins included, is answered: on a consistent database no handler panics, with or without a
-- user in the session, and the database that is left is consistent again.
pub route-IsConsistent :
    (ids : RowIds) (tlds : List Bytes) (validate_api_token : Bytes → Bytes → Bool)
    (tokens : List TokenRow) (session : Option User) (request : Request) (db : Db)
    → IsConsistent db
    → (answer : Response × Db) × (route ids tlds validate_api_token tokens session request db
        ≡ ok answer)
      × IsConsistent (answer.1)
route-IsConsistent ids tlds validate_api_token tokens session request db kept =
    Answered-ok (route ids tlds validate_api_token tokens session request db)
      (route-Kept ids tlds validate_api_token tokens session request db kept)

Left-of_refusal :
    (db : Db) (h : Handled) {status : ℕ} {db' : Db}
    → Answered (Left db) h
    → h ≡ ok (failure status, db')
    → db' ≡ db
Left-of_refusal db h a e = (subst (Answered (Left db)) e a).0

-- A request that creates no zone and is refused, with whatever status, leaves the consistent database as it was.
pub route-failure :
    (ids : RowIds) (tlds : List Bytes) (validate_api_token : Bytes → Bytes → Bool)
    (tokens : List TokenRow) (session : Option User) (request : Request) (db : Db) {status : ℕ}
    {db' : Db}
    → IsConsistent db
    → CreatesNoZone request
    → route ids tlds validate_api_token tokens session request db ≡ ok (failure status, db')
    → db' ≡ db
route-failure ids tlds validate_api_token tokens session request db kept c e =
    Left-of_refusal db (route ids tlds validate_api_token tokens session request db)
      (route-Left ids tlds validate_api_token tokens session request db kept c) e
