-- ===== src/Examples/Pages.antt =====
-- The theorems on the web pages applied to tokens and to a zone that is given away. A time is written as one
-- byte.
use mathlib.Core.List.{Memᴰ as In}
use mathlib.Core.List.Memᴰ.{head}
use goatns.Prelude.{
  ℕ, true, false, ◌+◌, ◌-◌, ◌≤◌, ◌&&◌, Option, none, some, ◌≡◌, refl, ap, ◌⊎◌, ◌↔◌, [], ◌∷◌, ◌==◌,
  ok, Returns, Bytes, equal, equal_iff, codes, arith,
}
use goatns.Database.{UserRow, id_is}
use goatns.Database.Users.{user_from_row, any_row}
use goatns.Database.Accounts.{get_user_by_name}
use goatns.Database.Zones.{get_with_txn}
use goatns.Examples.Home.{row_ids, home_db, owner, stranger}
use goatns.Tokens.{TokenRow}
use goatns.Tokens
use goatns.Api.Ownership.{IsOwnedBy}
use goatns.Web.{Session, empty_session, GoatState, Handled}
use goatns.Web.Sessions.{IsLoggedIn}
use goatns.Web.Csrf.{Clock, seconds_or, store_api_csrf_token, validate_csrf_expiry}
use goatns.Web.Csrf.Accepted.{IsClock, validate_csrf_expiry-store_api_csrf_token}
use goatns.Web.Settings.{Moment, ApiTokenLifetime, ApiTokenForm, generating}
use goatns.Web.ApiTokens.{api_tokens_post, api_tokens_delete_post}
use goatns.Web.ApiTokens.Deletes.{IsDeleted, api_tokens_delete_post-IsDeleted}
use goatns.Web.ApiTokens.Login.{api_tokens_post-login}
use goatns.Web.Admin.{AdminPage, assign_zone_ownership}
use goatns.Web.Admin.Takeover.{assign_zone_ownership-IsOwnedBy}
use goatns.Examples.Signups.{site}

-- Tokens

abbrev read_byte : Bytes → Option ℕ
read_byte (b ∷ []) = some (b - 125)
read_byte _ = none

-- a time is a byte behind `|`
abbrev clock : Clock
clock = record { to_rfc3339 = λ n. (n + 125) ∷ []; parse_from_rfc3339 = read_byte }

read_back : (n : ℕ) → read_byte ((n + 125) ∷ []) ≡ some n
read_back n = ap some (omega arith)

above : (n : ℕ) → ((n + 125) == 124) ≡ false
above n = ground arith

clock-IsClock : IsClock clock
clock-IsClock = record { reads = read_back; plain = λ n. (above n, tt) }

validate_csrf_expiry-store_api_csrf_token_example :
    ((validate_csrf_expiry clock 30
        (codes "a")
        (store_api_csrf_token clock 10 (codes "a") (some 30) empty_session)).0
      ≡ true)
    ↔ ((codes "a" ≡ codes "a") × (30 ≤ 10 + seconds_or (some 30)))
validate_csrf_expiry-store_api_csrf_token_example =
    validate_csrf_expiry-store_api_csrf_token clock 10 30 (codes "a") (codes "a") (some 30)
      empty_session clock-IsClock (refl, tt)

abbrev moment : Moment
moment = record {
  clock = clock;
  now = 30;
  csrftoken = codes "b";
  new_csrftoken = codes "c";
  digest = λ userid issued lifetime. codes "digest";
  hash_password = λ secret. secret;
  sample_string = codes "key";
  order = λ pairs. pairs;
  begins = true;
  commits = true;
}

-- the owner of the zone, with a token for the form
abbrev pub owner_session : Session
owner_session = record empty_session {
  authref = some (codes "owner");
  user = some owner;
  signed_in = some true;
  api_token_csrf_token = some (97 ∷ 124 ∷ 165 ∷ []);
}

owner-IsLoggedIn : IsLoggedIn owner_session owner
owner-IsLoggedIn = record { authref = codes "owner"; authref_is = refl; user_is = refl }

abbrev owner_token : TokenRow
owner_token = record {
  id = 1;
  name = codes "token";
  issued = 10;
  expiry = none;
  userid = 1;
  tokenkey = codes "GAold";
  tokenhash = codes "old";
}

abbrev token_site : GoatState
token_site = record (site home_db) { tokens = owner_token ∷ [] }

api_tokens_delete_post-IsDeleted_example :
    let after = (api_tokens_delete_post moment none 1 (codes "a") owner_session token_site).state in
    (after ≡ token_site)
    ⊎ (IsDeleted moment 1 (codes "a") owner_session token_site.tokens after.tokens
        × (after ≡ record token_site { tokens = after.tokens }))
api_tokens_delete_post-IsDeleted_example =
    api_tokens_delete_post-IsDeleted moment none 1 (codes "a") owner_session token_site

abbrev form : ApiTokenForm
form = record {
  token_name = some (codes "new");
  csrftoken = codes "a";
  state = generating;
  lifetime = some ApiTokenLifetime.forever;
}

abbrev owner_row : UserRow
owner_row = record {
  id = 1;
  displayname = codes "Owner";
  username = codes "owner";
  email = codes "owner@example.com";
  disabled = false;
  authref = none;
  admin = false;
}

accepted : validate_csrf_expiry clock 30 (codes "a") owner_session ≡ (true, owner_session)
unfolding validate_csrf_expiry equal
accepted = refl

api_tokens_post-login_example :
    let after = api_tokens_post row_ids moment form owner_session token_site in
    (key secret : Bytes) × (v : UserRow) × (after.session.new_api_tokenkey ≡ some key)
    × (after.session.new_api_token ≡ some secret)
    × In v home_db.users
    × (v.id ≡ 1)
    × (v.disabled ≡ false)
    × (Tokens.login equal home_db after.state.tokens key secret ≡ (200, some (user_from_row v)))
unfolding equal
api_tokens_post-login_example =
    api_tokens_post-login row_ids equal moment form owner_session token_site owner owner_row
      (codes "new") owner-IsLoggedIn accepted refl refl refl (head refl) refl (refl, tt)
      (λ secret. (equal_iff secret secret).1 refl) refl refl

-- A zone that is given away

abbrev stranger_row : UserRow
stranger_row = record owner_row { id = 2; username = codes "stranger" }

abbrev crowded_site : GoatState
crowded_site = site (record home_db { users = owner_row ∷ stranger_row ∷ [] })

abbrev stranger_session : Session
stranger_session = record owner_session { user = some stranger }

stranger_found : get_user_by_name crowded_site.db (codes "stranger") ≡ ok stranger
unfolding get_user_by_name equal
stranger_found = refl

zone_found : Returns (get_with_txn crowded_site.db 1)
unfolding get_with_txn
zone_found = (_, refl)

no_owner :
    any_row (λ row. row.zoneid == 1 && id_is (some 2) row.userid) crowded_site.db.ownership ≡ false
unfolding any_row id_is
no_owner = refl

assign_zone_ownership-IsOwnedBy_example :
    (after : Handled AdminPage) × (userid : ℕ) × (assign_zone_ownership row_ids 1
        (some (codes "stranger"))
        stranger_session
        crowded_site
      ≡ ok after)
    × (some 2 ≡ some userid)
    × IsOwnedBy userid 1 after.state.db
assign_zone_ownership-IsOwnedBy_example =
    assign_zone_ownership-IsOwnedBy row_ids 1 (codes "stranger") stranger_session crowded_site
      stranger (record { authref = codes "owner"; authref_is = refl; user_is = refl }) zone_found.1
      stranger_found refl no_owner
