-- ===== src/Examples/Requests.antt =====
-- The theorems on the web API, the datastore manager and DNS over HTTPS applied to requests.
use goatns.Prelude.{
  ℕ, true, false, none, some, ◌≡◌, ◌≢◌, refl, List, [], ◌∷◌, ◌++◌, inl, All, Result, ok, err, panic,
  Bytes, equal, codes, file_error, arith,
}
use goatns.Examples.{example_com, readers, platform, tables, www, zone_row}
use goatns.Examples.Home.{row_ids, zone_file, next_file, owner, stranger, home_db, home_kept}
use goatns.Header.Layout.{layout_codec}
use goatns.Utf8.{ascii_lowercase}
use goatns.Zone.{FileZone}
use goatns.Name.{check_valid_tld}
use goatns.Database.{Db, first}
use goatns.Database.Zones.{is_zone}
use goatns.Database.Users.{User}
use goatns.Database.Consistent.{IsConsistent}
use goatns.Database.Deleted.{IsWithout}
use goatns.Database.Saved.{IsStored}
use goatns.Tokens.{TokenRow}
use goatns.Api.{
  Response, success, failure, login_answered, Request, zone_update, zone_delete, route,
}
use goatns.Api.Ownership.{IsOwnedBy, zone_delete-IsOwnedBy, zone_update-IsStored}
use goatns.Api.Route.{route-IsConsistent}
use goatns.Manager.{Outside, Command, manager}
use goatns.Manager.Messages.{Reads}
use goatns.Manager.Runs.{IsSoundRun, manager-IsSoundRun, manager-import_file}
use goatns.Doh.{
  ResponseType, GetQueryString, JsonRecord, JsonResponse, handle_get,
  get_response_type_from_headers,
}
use goatns.Doh.Responses.{AnswersQuestion, handle_get-IsAnswered}
use goatns.Doh.Limits.{handle_get_short}

-- The web API

abbrev tlds : List Bytes
tlds = codes "com" ∷ []

abbrev nothing_left : Db
nothing_left = record home_db { zones = []; records = []; ownership = [] }

deleted : zone_delete (some owner) 1 home_db ≡ ok (success, nothing_left)
unfolding zone_delete
deleted = refl

zone_delete-IsOwnedBy_example :
    (user : User) × (userid : ℕ) × (some owner ≡ some user)
    × (user.id ≡ some userid)
    × IsOwnedBy userid 1 home_db
    × IsWithout 1 home_db nothing_left
zone_delete-IsOwnedBy_example = zone_delete-IsOwnedBy (some owner) 1 home_db deleted

com_allowed : check_valid_tld example_com tlds ≡ true
unfolding check_valid_tld
com_allowed = refl

present : first (is_zone none (some example_com)) home_db.zones ≡ some zone_row
unfolding first is_zone
present = refl

abbrev taken_file : FileZone
taken_file = record next_file { id = some 1 }

zone_update-IsStored_example :
    (n : ℕ) × (db' : Db) × (zone_update row_ids tlds (some stranger) taken_file home_db
      ≡ ok (success, db'))
    × IsStored n taken_file db'
zone_update-IsStored_example =
    zone_update-IsStored row_ids tlds stranger 2 taken_file 1 zone_row home_db home_kept refl refl
      com_allowed present (refl, tt)

abbrev tokens : List TokenRow
tokens =
    record {
      id = 1;
      name = codes "laptop";
      issued = 1700000000;
      expiry = none;
      userid = 1;
      tokenkey = codes "key";
      tokenhash = codes "secret";
    }
    ∷ []

route-IsConsistent_example :
    (answer : Response × Db) × (route row_ids tlds equal tokens
        (some stranger)
        (Request.put_zone taken_file)
        home_db
      ≡ ok answer)
    × IsConsistent (answer.1)
route-IsConsistent_example =
    route-IsConsistent row_ids tlds equal tokens (some stranger) (Request.put_zone taken_file)
      home_db home_kept

not_owned :
    route row_ids tlds equal tokens (some stranger) (Request.remove_zone 1) home_db
    ≡ ok (failure 404, home_db)
unfolding route
not_owned = refl

logged_in :
    route row_ids tlds equal tokens none (Request.post_login (codes "key") (codes "secret")) home_db
    ≡ ok (login_answered 200 (some owner), home_db)
unfolding route
logged_in = refl

-- The datastore manager

abbrev pub no_file : Bytes → Result (List FileZone)
no_file filename = err file_error

abbrev pub outside : Outside
outside = record {
  readers = readers;
  ids = row_ids;
  id_column = λ zone owner. owner;
  load_zones = no_file;
}

pub outside-Reads : Reads outside
outside-Reads filename = tt

abbrev commands : List Command
commands =
    Command.create_zone zone_file 1
    ∷ Command.get_zone (some 1) none
    ∷ Command.create_user (codes "next") (codes "subject") false false
    ∷ []

manager-IsSoundRun_example : IsSoundRun (manager outside commands home_db)
manager-IsSoundRun_example = manager-IsSoundRun outside commands home_db outside-Reads home_kept

manager-import_file_example :
    manager outside (commands ++ (Command.import_file (codes "zones.json") none ∷ commands)) home_db
    ≡ manager outside (commands ++ (Command.shutdown ∷ [])) home_db
manager-import_file_example =
    manager-import_file outside (codes "zones.json") none commands commands home_db
      (inl (file_error, refl))

-- DNS over HTTPS

abbrev https : goatns.Doh.Outside
https = record {
  codec = layout_codec;
  platform = platform;
  lowercase = ascii_lowercase;
  readers = readers;
  decode = λ text. some text;
  debug = λ text. text;
}

abbrev accept_json : Bytes
accept_json = codes "application/dns-json"

abbrev www_query : GetQueryString
www_query = record { dns = none; name = some www; rrtype = some "A" }

abbrev answer : ℕ → JsonRecord
answer ttl = record { name = www; qtype = 1; ttl = ttl; rdata = codes "1.2.3.4" }

abbrev www_response : JsonResponse
www_response = record {
  status = 0;
  question = record { name = www; qtype = 1 };
  answer = answer 300 ∷ answer 200 ∷ [];
}

answered :
    handle_get https tables (some accept_json) www_query
    ≡ ok (goatns.Doh.Response.json_sent 200 www_response)
unfolding handle_get
answered = refl

handle_get-IsAnswered_example : All (AnswersQuestion 200 www_response) www_response.answer
handle_get-IsAnswered_example =
    handle_get-IsAnswered https tables (some accept_json) www_query answered

json_accepted : get_response_type_from_headers (some accept_json) ≢ ResponseType.invalid
unfolding get_response_type_from_headers
json_accepted e = cc

abbrev short_query : GetQueryString
short_query = record { dns = some (codes "AAAB"); name = none; rrtype = none }

handle_get_short_example : handle_get https tables (some accept_json) short_query ≡ panic
handle_get_short_example =
    handle_get_short https tables (some accept_json) short_query (codes "AAAB") (codes "AAAB")
      json_accepted refl refl (omega arith)
