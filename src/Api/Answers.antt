-- ===== src/Api/Answers.antt =====
-- The answers of each handler of src/web/api/filezone.rs and src/web/api/filezonerecord.rs.
use goatns.Prelude.{
  ℕ, Bool, true, false, Option, none, some, ◌≡◌, refl, List, Result, ok, err, panic, stuck, Settles,
  Bytes,
}
use goatns.Name.{check_valid_tld}
use goatns.Zone.{FileZone, FileZoneRecord}
use goatns.Database.{Db, RowIds}
use goatns.Database.Zones.{
  get_by_name, get_with_txn, save_zone, delete_zone, save_record, get_record_with_txn, get_record,
  update_record_with_txn,
}
use goatns.Database.Users.{User, ZoneOwnership, save_ownership, get_ownership_by_userid}
use goatns.Database.Consistent.{IsConsistent, save_record-IsConsistent, delete_record-IsConsistent}
use goatns.Database.Consistent.Owners.{save_ownership-IsConsistent}
use goatns.Database.Consistent.Zones.{save_zone-IsConsistent}
use goatns.Database.Consistent.Deletes.{delete_zone-IsConsistent}
use goatns.Database.Settles.{
  save_record-Settles, save_zone-Settles, save_ownership-Settles, get_with_txn-Settles,
  get_record_with_txn-Settles, delete_zone-Settles,
}
use goatns.Api.{
  Response, failure, login_answered, Handled, require, expect_ok, require_true, require_none,
  own_zone, zone_create, zone_update, zone_delete, zone_get, record_create, record_update,
  record_get, record_delete,
}

-- There is an answer, and it and the database that is left have the property.
abbrev pub Answered : (Response → Db → Type 0) → Handled → Type 0
Answered P (ok (response, db)) = P response db
Answered P _ = ⊥

module _ (P : Response → Db → Type 0) {A : Type 0} (status : ℕ) (db : Db)
    (refused : P (failure status) db) where
  require-Answered :
      (o : Option A) (next : A → Handled)
      → ((x : A) → o ≡ some x → Answered P (next x))
      → Answered P (require o status db next)
  unfolding require
  require-Answered none next h = refused
  require-Answered (some x) next h = h x refl

  expect_ok-Answered :
      (r : Result A) (next : A → Handled)
      → Settles r
      → ((x : A) → r ≡ ok x → Answered P (next x))
      → Answered P (expect_ok r status db next)
  unfolding expect_ok
  expect_ok-Answered (ok x) next s h = h x refl
  expect_ok-Answered (err e) next s h = refused
  expect_ok-Answered panic next s h = s
  expect_ok-Answered stuck next s h = s

  require_none-Answered :
      (o : Option A) (next : Handled) → Answered P next → Answered P (require_none o status db next)
  unfolding require_none
  require_none-Answered none next h = h
  require_none-Answered (some x) next h = refused

require_true-Answered :
    (P : Response → Db → Type 0) (status : ℕ) (db : Db) (test : Bool) (next : Handled)
    → P (failure status) db
    → Answered P next
    → Answered P (require_true test status db next)
unfolding require_true
require_true-Answered P status db true next refused h = h
require_true-Answered P status db false next refused h = refused

-- What holds of the answer to a request that reads or writes but creates no zone: a refusal and a login
-- leave the database as it was, and else it is left consistent.
abbrev pub Left : Db → Response → Db → Type 0
Left db (failure status) db' = (db' ≡ db) × IsConsistent db'
Left db (login_answered status user) db' = (db' ≡ db) × IsConsistent db'
Left db _ db' = IsConsistent db'

pub zone_update-Answered :
    (ids : RowIds) (tlds : List Bytes) (session : Option User) (z : FileZone) (db : Db)
    → IsConsistent db
    → Answered (Left db) (zone_update ids tlds session z db)
unfolding zone_update expect_ok
zone_update-Answered ids tlds session z db kept =
    let refused : (db ≡ db) × IsConsistent db = (refl, kept) in
    require-Answered (Left db) 403 db refused session _ (λ user _.
      require-Answered (Left db) 400 db refused z.id _ (λ zone_id _.
        require_true-Answered (Left db) 400 db (check_valid_tld z.name tlds) _ refused (
          require-Answered (Left db) 500 db refused user.id _ (λ user_id _.
            expect_ok-Answered (Left db) 500 db refused (save_zone ids z db) _
              (save_zone-Settles ids z db kept)
              (λ saved s. save_zone-IsConsistent ids z db kept s)))))

pub zone_delete-Answered :
    (session : Option User) (id : ℕ) (db : Db)
    → IsConsistent db
    → Answered (Left db) (zone_delete session id db)
unfolding zone_delete
zone_delete-Answered session id db kept =
    let refused : (db ≡ db) × IsConsistent db = (refl, kept) in
    require-Answered (Left db) 403 db refused session _ (λ user _.
      require-Answered (Left db) 500 db refused user.id _ (λ userid _.
        require-Answered (Left db) 404 db refused (get_ownership_by_userid db userid id) _ (λ _ _.
          expect_ok-Answered (Left db) 500 db refused (get_with_txn db id) _
            (get_with_txn-Settles db id kept)
            (λ zone _.
              expect_ok-Answered (Left db) 500 db refused (delete_zone zone db) _
                (delete_zone-Settles zone db)
                (λ deleted d. delete_zone-IsConsistent zone db kept d)))))

pub zone_get-Answered :
    (session : Option User) (id : ℕ) (db : Db)
    → IsConsistent db
    → Answered (Left db) (zone_get session id db)
unfolding zone_get expect_ok
zone_get-Answered session id db kept =
    let refused : (db ≡ db) × IsConsistent db = (refl, kept) in
    require-Answered (Left db) 403 db refused session _ (λ user _.
      require-Answered (Left db) 500 db refused user.id _ (λ user_id _.
        expect_ok-Answered (Left db) 500 db refused (get_with_txn db id) _
          (get_with_txn-Settles db id kept) (λ zone _. kept)))

pub record_create-Answered :
    (ids : RowIds) (session : Option User) (r : FileZoneRecord) (db : Db)
    → IsConsistent db
    → Answered (Left db) (record_create ids session r db)
unfolding record_create expect_ok
record_create-Answered ids session r db kept =
    let refused : (db ≡ db) × IsConsistent db = (refl, kept) in
    require-Answered (Left db) 403 db refused session _ (λ user _.
      require-Answered (Left db) 401 db refused user.id _ (λ user_id _.
        require-Answered (Left db) 400 db refused r.zoneid _ (λ zone_id _.
          expect_ok-Answered (Left db) 400 db refused (save_record ids r db) _
            (save_record-Settles ids r db) (λ saved s. save_record-IsConsistent ids r db kept s))))

pub record_delete-Answered :
    (session : Option User) (id : ℕ) (db : Db)
    → IsConsistent db
    → Answered (Left db) (record_delete session id db)
unfolding record_delete expect_ok
record_delete-Answered session id db kept =
    let refused : (db ≡ db) × IsConsistent db = (refl, kept) in
    require-Answered (Left db) 403 db refused session _ (λ user _.
      expect_ok-Answered (Left db) 401 db refused (get_record_with_txn db id) _
        (get_record_with_txn-Settles db id kept)
        (λ r _. require-Answered (Left db) 401 db refused user.id _ (λ user_id _.
          require-Answered (Left db) 400 db refused r.zoneid _
            (λ zone_id _. delete_record-IsConsistent r db kept))))

pub record_get-Answered :
    (session : Option User) (id : ℕ) (db : Db)
    → IsConsistent db
    → Answered (Left db) (record_get session id db)
unfolding record_get expect_ok get_record
record_get-Answered session id db kept =
    require-Answered (Left db) 403 db (refl, kept) session _ (λ _ _. (refl, kept))

pub record_update-Answered :
    (session : Option User) (payload : Option FileZoneRecord) (db : Db)
    → IsConsistent db
    → Answered (Left db) (record_update session payload db)
unfolding record_update expect_ok update_record_with_txn
record_update-Answered session payload db kept =
    require-Answered (Left db) 403 db (refl, kept) session _
      (λ _ _. require-Answered (Left db) 400 db (refl, kept) payload _ (λ _ _. (refl, kept)))

-- What holds of the answer to the creation of a zone.
abbrev pub Kept : Response → Db → Type 0
Kept _ db' = IsConsistent db'

own_zone-Answered :
    (ids : RowIds) (user : User) (name : Bytes) (db : Db)
    → IsConsistent db
    → Answered Kept (own_zone ids user name db)
unfolding own_zone
own_zone-Answered ids user name db kept =
    require-Answered Kept 404 db kept (get_by_name db name) _ (λ stored _.
      require-Answered Kept 500 db kept user.id _ (λ userid _.
        require-Answered Kept 500 db kept stored.id _ (λ zoneid _.
          let o : ZoneOwnership = record { id = none; userid = userid; zoneid = zoneid } in
          expect_ok-Answered Kept 500 db kept (save_ownership ids o db) _
            (save_ownership-Settles ids o db)
            (λ owned s. save_ownership-IsConsistent ids o db kept s))))

pub zone_create-Answered :
    (ids : RowIds) (tlds : List Bytes) (session : Option User) (z : FileZone) (db : Db)
    → IsConsistent db
    → Answered Kept (zone_create ids tlds session z db)
unfolding zone_create
zone_create-Answered ids tlds session z db kept =
    require-Answered Kept 403 db kept session _ (λ user _.
      require_true-Answered Kept 400 db (check_valid_tld z.name tlds) _ kept (
        require_none-Answered Kept 400 db kept (get_by_name db z.name) _ (
          expect_ok-Answered Kept 500 db kept (save_zone ids z db) _
            (save_zone-Settles ids z db kept)
            (λ created s.
              own_zone-Answered ids user z.name (created.1)
                (save_zone-IsConsistent ids z db kept s)))))
