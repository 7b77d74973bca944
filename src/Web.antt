-- ===== src/Web.antt =====
-- The state behind the web pages of src/web/mod.rs, the addresses of src/web/utils.rs, and the check of a
-- session of src/web/ui/mod.rs. The store of sessions does not fail, and a session is a record of the keys
-- that the handlers use. Metadata and tokens of the provider are texts that only the provider reads.

pub mod Admin
pub mod ApiTokens
pub mod Auth
pub mod Csrf
pub mod NewZone
pub mod Oidc
pub mod Pages
pub mod Sessions
pub mod Settings
pub mod Signup
use goatns.Prelude.{
  ℕ, Bool, true, false, not, Option, none, some, List, [], ◌∷◌, ◌++◌, Bytes, equal, codes,
}
use goatns.Database.{Db, first, delete_where}
use goatns.Database.Users.{User}
use goatns.Tokens.{TokenRow}

pub data Urls : Type 0 where
  home login dashboard zones_list admin settings settings_api_tokens : Urls

-- `AsRef<str> for Urls`, and `redirect`, whose address it is
unfoldable pub redirect : Urls → Bytes
redirect Urls.home = codes "/"
redirect Urls.login = codes "/auth/login"
redirect Urls.admin = codes "/ui/admin"
redirect Urls.dashboard = codes "/ui"
redirect Urls.zones_list = codes "/ui/zones/list"
redirect Urls.settings = codes "/ui/settings"
redirect Urls.settings_api_tokens = codes "/ui/settings/api_tokens"

-- The pairs of the query, with `&` between them.
unfoldable pub query_parts : List (Bytes × Bytes) → Bytes
query_parts [] = []
query_parts ((k, v) ∷ []) = k ++ codes "=" ++ v
query_parts ((k, v) ∷ rest) = k ++ codes "=" ++ v ++ codes "&" ++ query_parts rest

-- The query is a HashMap; its pairs come in the order of its iteration.
unfoldable pub redirect_with_query : Urls → List (Bytes × Bytes) → Bytes
unfolding redirect query_parts
redirect_with_query url [] = redirect url
redirect_with_query url (pair ∷ rest) = redirect url ++ codes "?" ++ query_parts (pair ∷ rest)

-- What a handler answers: a page, a redirect, or a status with a text.
pub data Answer (P : Type 0) : Type 0 where
  page : P → Answer P
  redirect_to : Bytes → Answer P
  status : ℕ → Answer P

pub record Session : Type 0 where
  pub authref : Option Bytes
  pub user : Option User
  pub signed_in : Option Bool
  pub redirect_path : Option Bytes
  pub api_token_csrf_token : Option Bytes
  pub new_api_token : Option Bytes
  pub new_api_tokenkey : Option Bytes

-- What `clear` and `flush` leave.
abbrev pub empty_session : Session
empty_session = record {
  authref = none;
  user = none;
  signed_in = none;
  redirect_path = none;
  api_token_csrf_token = none;
  new_api_token = none;
  new_api_tokenkey = none;
}

-- The verifier and the nonce that belong to a state of the login.
pub record Verifier : Type 0 where
  pub csrftoken : Bytes
  pub pkce_verifier : Bytes
  pub nonce : Bytes

-- `GoatChildState`, with the tables behind the pool. `exchanged` is what the provider remembers: the
-- codes that were sent to it.
pub record GoatState : Type 0 where
  pub db : Db
  pub tokens : List TokenRow
  pub oidc_config_updated : ℕ
  pub oidc_config : Option Bytes
  pub oidc_verifier : List Verifier
  pub exchanged : List Bytes

-- What a handler leaves.
pub record Handled (P : Type 0) : Type 0 where
  pub session : Session
  pub state : GoatState
  pub answer : Answer P

-- The time that is kept is not the one of the update, but the start of 1970.
unfoldable pub oidc_update : Bytes → GoatState → GoatState
oidc_update response st = record st { oidc_config = some response; oidc_config_updated = 0 }

unfoldable pub find_verifier : Bytes → List Verifier → Option Verifier
unfolding first equal
find_verifier csrftoken vs = first (λ v. equal v.csrftoken csrftoken) vs

-- `HashMap::remove`, as the map that is left
unfoldable pub without_verifier : Bytes → List Verifier → List Verifier
unfolding delete_where equal
without_verifier csrftoken vs = delete_where (λ v. equal v.csrftoken csrftoken) vs

unfoldable pub pop_verifier : Bytes → GoatState → Option Verifier × GoatState
unfolding find_verifier without_verifier
pop_verifier csrftoken st = (
  find_verifier csrftoken st.oidc_verifier,
  record st { oidc_verifier = without_verifier csrftoken st.oidc_verifier },
)

unfoldable pub push_verifier : Verifier → GoatState → GoatState
unfolding without_verifier
push_verifier v st = record st { oidc_verifier = v ∷ without_verifier v.csrftoken st.oidc_verifier }

-- The user of a session, or where the browser is sent.
pub data Checked : Type 0 where
  logged_in : User → Checked
  sent_to : Bytes → Checked

unfoldable pub path_or_root : Option Bytes → Bytes
path_or_root none = codes "/"
path_or_root (some path) = path

unfoldable pub user_or_login : Option User → Checked
unfolding redirect
user_or_login none = sent_to (redirect Urls.login)
user_or_login (some user) = logged_in user

unfoldable pub checked_authref : Option Bytes → Option Bytes → Session → Session × Checked
unfolding path_or_root redirect user_or_login
checked_authref none path session = (
  record empty_session { redirect_path = some (path_or_root path) },
  sent_to (redirect Urls.login),
)
checked_authref (some _) path session = (session, user_or_login session.user)

unfoldable pub check_logged_in : Session → Option Bytes → Session × Checked
unfolding checked_authref
check_logged_in session path = checked_authref session.authref path session

-- What a handler does behind the check of the session, with the session that the check leaves.
unfoldable pub when_logged_in :
    {P : Type 0} → GoatState → Session × Checked → (Session → User → Handled P) → Handled P
when_logged_in st (session, sent_to url) next = record {
  session = session;
  state = st;
  answer = redirect_to url;
}
when_logged_in st (session, logged_in user) next = next session user

-- A redirect that leaves the session and the state as they are.
abbrev pub sent : {P : Type 0} → Session → GoatState → Urls → Handled P
sent session st url = record { session = session; state = st; answer = redirect_to (redirect url) }
