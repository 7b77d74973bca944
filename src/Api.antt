-- ===== src/Api.antt =====
-- The web API of zones and records: src/web/api/mod.rs, src/web/api/filezone.rs and
-- src/web/api/filezonerecord.rs. A handler is a function of the session's user, the request and the
-- database to the response and the database that is committed; a panic is the outcome `panic`, and the
-- transaction it stood in is rolled back. Connections, `begin` and `commit` do not fail in the model.
pub mod Answers
pub mod Ownership
pub mod Route
use goatns.Prelude.{
  ℕ, Bool, true, false, not, Option, none, some, List, if◌then◌else◌, Result, ok, err, panic, stuck,
  Bytes,
}
use goatns.Name.{check_valid_tld}
use goatns.Zone.{FileZone, FileZoneRecord}
use goatns.Database.{Db, RowIds}
use goatns.Database.Zones.{
  get_by_name, get_with_txn, save_zone, delete_zone, save_record, delete_record,
  get_record_with_txn, get_record, update_record_with_txn,
}
use goatns.Tokens.{TokenRow, login}
use goatns.Database.Users.{User, ZoneOwnership, save_ownership, get_ownership_by_userid}

-- What is sent back: a value with the status 200, or an error's status.
pub data Response : Type 0 where
  success : Response
  zone_sent : FileZone → Response
  record_sent : FileZoneRecord → Response
  failure : ℕ → Response
  -- the status of a login, and the user of the session that it leaves
  login_answered : ℕ → Option User → Response

abbrev pub Handled : Type 0
Handled = Result (Response × Db)

-- `return error_result_json!(…, status)`
abbrev pub refuse : ℕ → Db → Handled
refuse status db = ok (failure status, db)

-- `match … { Some(val) => val, None => return … }`
unfoldable pub require : {A : Type 0} → Option A → ℕ → Db → (A → Handled) → Handled
require none status db next = refuse status db
require (some x) status db next = next x

-- `match … { Ok(val) => val, Err(err) => return … }`
unfoldable pub expect_ok : {A : Type 0} → Result A → ℕ → Db → (A → Handled) → Handled
expect_ok (ok x) status db next = next x
expect_ok (err e) status db next = refuse status db
expect_ok panic status db next = panic
expect_ok stuck status db next = stuck

-- `if !test { return … }`
unfoldable pub require_true : Bool → ℕ → Db → Handled → Handled
require_true test status db next = if test then next else refuse status db

-- `match … { Ok(Some(_)) => return …, Ok(None) => {} }`
unfoldable pub require_none : {A : Type 0} → Option A → ℕ → Db → Handled → Handled
require_none none status db next = next
require_none (some _) status db next = refuse status db

-- The second transaction of `api_create`, over the new zone.
unfoldable pub own_zone : RowIds → User → Bytes → Db → Handled
unfolding require expect_ok get_by_name save_ownership
own_zone ids user name db = require (get_by_name db name) 404 db λ stored.
    require user.id 500 db λ userid. require stored.id 500 db λ zoneid.
      expect_ok (save_ownership ids (record { id = none; userid = userid; zoneid = zoneid }) db) 500
        db λ owned. ok (zone_sent stored, owned.1)

-- `api_create` of zones: the zone is committed before its ownership is stored.
unfoldable pub zone_create : RowIds → List Bytes → Option User → FileZone → Db → Handled
unfolding require expect_ok require_true require_none check_valid_tld get_by_name save_zone own_zone
zone_create ids allowed_tlds session zone db = require session 403 db λ user.
    require_true (check_valid_tld zone.name allowed_tlds) 400 db (
      require_none (get_by_name db zone.name) 400 db
        (expect_ok (save_zone ids zone db) 500 db λ created. own_zone ids user zone.name created.1))

-- `api_update` of zones: only an error of the query for the ownership is refused.
unfoldable pub zone_update : RowIds → List Bytes → Option User → FileZone → Db → Handled
unfolding require expect_ok require_true check_valid_tld get_ownership_by_userid save_zone
zone_update ids allowed_tlds session zone db = require session 403 db λ user.
    require zone.id 400 db λ zone_id. require_true (check_valid_tld zone.name allowed_tlds) 400 db (
      require user.id 500 db λ user_id.
        expect_ok (ok (get_ownership_by_userid db user_id zone_id)) 401 db
          λ _. expect_ok (save_zone ids zone db) 500 db λ saved. ok (success, saved.1))

-- `api_delete` of zones
unfoldable pub zone_delete : Option User → ℕ → Db → Handled
unfolding require expect_ok get_ownership_by_userid get_with_txn delete_zone
zone_delete session id db = require session 403 db λ user. require user.id 500 db λ userid.
    require (get_ownership_by_userid db userid id) 404 db λ _.
      expect_ok (get_with_txn db id) 500 db
        λ zone. expect_ok (delete_zone zone db) 500 db λ deleted. ok (success, deleted)

-- `api_get` of zones
unfoldable pub zone_get : Option User → ℕ → Db → Handled
unfolding require expect_ok get_ownership_by_userid get_with_txn
zone_get session id db = require session 403 db λ user. require user.id 500 db λ user_id.
    expect_ok (ok (get_ownership_by_userid db user_id id)) 401 db
      λ _. expect_ok (get_with_txn db id) 500 db λ zone. ok (zone_sent zone, db)

-- `api_create` of records
unfoldable pub record_create : RowIds → Option User → FileZoneRecord → Db → Handled
unfolding require expect_ok get_ownership_by_userid save_record
record_create ids session r db = require session 403 db λ user. require user.id 401 db λ user_id.
    require r.zoneid 400 db λ zone_id.
      expect_ok (ok (get_ownership_by_userid db user_id zone_id)) 401 db
        λ _. expect_ok (save_record ids r db) 400 db λ saved. ok (record_sent saved.0, saved.1)

-- `api_update` of records: `none` is a payload that is no record.
unfoldable pub record_update : Option User → Option FileZoneRecord → Db → Handled
unfolding require expect_ok get_ownership_by_userid update_record_with_txn
record_update session payload db = require session 403 db λ user. require payload 400 db λ r.
    expect_ok (update_record_with_txn r db) 404 db λ res. require user.id 401 db λ user_id.
      require r.zoneid 400 db λ zone_id.
        expect_ok (ok (get_ownership_by_userid db user_id zone_id)) 401 db
          λ _. ok (record_sent res.0, db)

-- `api_get` of records
unfoldable pub record_get : Option User → ℕ → Db → Handled
unfolding require expect_ok get_record
record_get session id db =
    require session 403 db λ _. expect_ok (get_record db id) 404 db λ r. ok (record_sent r, db)

-- `api_delete` of records
unfoldable pub record_delete : Option User → ℕ → Db → Handled
unfolding require expect_ok get_ownership_by_userid get_record_with_txn delete_record
record_delete session id db = require session 403 db λ user.
    expect_ok (get_record_with_txn db id) 401 db λ r. require user.id 401 db λ user_id.
      require r.zoneid 400 db λ zone_id.
        expect_ok (ok (get_ownership_by_userid db user_id zone_id)) 401 db
          λ _. ok (success, delete_record r db)

-- A request to one of the routes.
pub data Request : Type 0 where
  post_zone put_zone : FileZone → Request
  read_zone remove_zone : ℕ → Request
  post_record : FileZoneRecord → Request
  put_record : Option FileZoneRecord → Request
  read_record remove_record : ℕ → Request
  -- the key and the secret of a token
  post_login : Bytes → Bytes → Request

-- What is sent back for a login; it only reads the database.
unfoldable pub login_sent : ℕ × Option User → Db → Handled
login_sent (status, user) db = ok (login_answered status user, db)

-- `new` of src/web/api/mod.rs: which handler a request goes to. A login reads the tokens, and the hash of its
-- secret is checked.
unfoldable pub route :
    RowIds
    → List Bytes
    → (Bytes → Bytes → Bool)
    → List TokenRow
    → Option User
    → Request
    → Db
    → Handled
unfolding zone_create zone_update zone_delete zone_get record_create record_update record_get
    record_delete login_sent login
route ids allowed_tlds validate_api_token tokens session (Request.post_zone zone) db =
    zone_create ids allowed_tlds session zone db
route ids allowed_tlds validate_api_token tokens session (Request.put_zone zone) db =
    zone_update ids allowed_tlds session zone db
route ids allowed_tlds validate_api_token tokens session (Request.read_zone id) db =
    zone_get session id db
route ids allowed_tlds validate_api_token tokens session (Request.remove_zone id) db =
    zone_delete session id db
route ids allowed_tlds validate_api_token tokens session (Request.post_record r) db =
    record_create ids session r db
route ids allowed_tlds validate_api_token tokens session (Request.put_record payload) db =
    record_update session payload db
route ids allowed_tlds validate_api_token tokens session (Request.read_record id) db =
    record_get session id db
route ids allowed_tlds validate_api_token tokens session (Request.remove_record id) db =
    record_delete session id db
route ids allowed_tlds validate_api_token tokens session (Request.post_login key secret) db =
    login_sent (login validate_api_token db tokens key secret) db
