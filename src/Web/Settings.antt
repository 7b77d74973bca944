-- ===== src/Web/Settings.antt =====
-- The pages of a user's tokens of src/web/ui/user_settings.rs, with create_api_token of src/web/utils.rs.
-- What is drawn at random, the digest and the hash of a password are the parameter `Moment`.
use goatns.Prelude.{
  ℕ, zero, suc, ◌-◌, Bool, true, false, ◌+◌, ◌*◌, Option, none, some, List, [], ◌∷◌, ◌++◌, map,
  ◌==◌, Bytes, codes,
}
use goatns.Database.{first}
use goatns.Database.Users.{User}
use goatns.Datastore.{select}
use goatns.Tokens.{TokenRow, UserAuthToken}
use goatns.Web.{
  Urls, redirect, page, Session, GoatState, Handled, sent, when_logged_in, check_logged_in,
}
use goatns.Web.Csrf.{Clock, store_api_csrf_token}

pub data ApiTokenLifetime : Type 0 where
  eight_hours twenty_four_hours thirty_days forever : ApiTokenLifetime

-- An i32.
pub data ℤ : Type 0 where
  pos negsuc : ℕ → ℤ

-- `From<ApiTokenLifetime> for i32`
unfoldable pub to_i32 : ApiTokenLifetime → ℤ
to_i32 ApiTokenLifetime.eight_hours = pos (8 * 60 * 60)
to_i32 ApiTokenLifetime.twenty_four_hours = pos (24 * 60 * 60)
to_i32 ApiTokenLifetime.thirty_days = pos (30 * 86400)
to_i32 ApiTokenLifetime.forever = negsuc 0

-- `Display for ApiTokenLifetime`
unfoldable pub lifetime_to_string : ApiTokenLifetime → Bytes
lifetime_to_string ApiTokenLifetime.eight_hours = codes "Eight Hours (8h)"
lifetime_to_string ApiTokenLifetime.twenty_four_hours = codes "Twenty-Four Hours (24h)"
lifetime_to_string ApiTokenLifetime.thirty_days = codes "Thirty Days (30d)"
lifetime_to_string ApiTokenLifetime.forever = codes "No Expiry"

unfoldable pub variant_str : ApiTokenLifetime → Bytes
variant_str ApiTokenLifetime.eight_hours = codes "EightHours"
variant_str ApiTokenLifetime.twenty_four_hours = codes "TwentyFourHours"
variant_str ApiTokenLifetime.thirty_days = codes "ThirtyDays"
variant_str ApiTokenLifetime.forever = codes "Forever"

abbrev pub lifetimes : List (Bytes × Bytes)
lifetimes =
    map (λ l. (lifetime_to_string l, variant_str l))
      (ApiTokenLifetime.eight_hours ∷ ApiTokenLifetime.twenty_four_hours
        ∷ ApiTokenLifetime.thirty_days ∷ ApiTokenLifetime.forever ∷ [])

pub data ApiTokenCreatePageState : Type 0 where
  start generating finished error : ApiTokenCreatePageState

-- What a request is served with: the time, what is drawn for it, and whether a transaction begins and is
-- committed. `order` is that of a HashMap, `digest` is the text of the digest of the secret, the user, the time and the lifetime.
pub record Moment : Type 0 where
  pub clock : Clock
  pub now : ℕ
  pub csrftoken : Bytes
  pub new_csrftoken : Bytes
  pub digest : ℕ → ℕ → ℤ → Bytes
  pub hash_password : Bytes → Bytes
  pub sample_string : Bytes
  pub order : List (Bytes × Bytes) → List (Bytes × Bytes)
  pub begins : Bool
  pub commits : Bool

pub record ApiToken : Type 0 where
  pub token_key : Bytes
  pub token_secret : Bytes
  pub token_hash : Bytes
  pub issued : ℕ
  pub expiry : Option ℕ

unfoldable pub expiry_after : ℕ → ℤ → Option ℕ
expiry_after issued (pos seconds) = some (issued + seconds)
expiry_after issued (negsuc zero) = none
expiry_after issued (negsuc (suc n)) = some (issued - suc (suc n))

-- `create_api_token`
unfoldable pub create_api_token : Moment → ℤ → ℕ → ApiToken
unfolding expiry_after
create_api_token moment lifetime userid =
    let token_secret = codes "goatns_" ++ moment.digest userid moment.now lifetime in
    record {
      token_key = codes "GA" ++ moment.sample_string;
      token_secret = token_secret;
      token_hash = moment.hash_password token_secret;
      issued = moment.now;
      expiry = expiry_after moment.now lifetime;
    }

pub record ApiTokensGetPage : Type 0 where
  pub csrftoken : Bytes
  pub tokens : List UserAuthToken
  pub tokenkey : Option Bytes
  pub token_value : Option Bytes
  pub user_is_admin : Bool

pub record ApiTokenForm : Type 0 where
  pub token_name : Option Bytes
  pub csrftoken : Bytes
  pub state : ApiTokenCreatePageState
  pub lifetime : Option ApiTokenLifetime

pub record ApiTokenPage : Type 0 where
  pub token_name : Option Bytes
  pub tokenkey : Option Bytes
  pub token_value : Option Bytes
  pub csrftoken : Bytes
  pub state : ApiTokenCreatePageState
  pub lifetime : Option ApiTokenLifetime
  pub lifetimes : Option (List (Bytes × Bytes))
  pub user_is_admin : Bool

pub record ApiTokenDeleteTemplate : Type 0 where
  pub id : ℕ
  pub token_name : Option Bytes
  pub csrftoken : Bytes
  pub user_is_admin : Bool

pub data SettingsPage : Type 0 where
  settings_page : Bool → SettingsPage
  tokens_page : ApiTokensGetPage → SettingsPage
  form_page : ApiTokenPage → SettingsPage
  delete_page : ApiTokenDeleteTemplate → SettingsPage

-- `settings`: whoever asks is shown as an admin.
unfoldable pub settings : Session → GoatState → Handled SettingsPage
settings session st = record { session = session; state = st; answer = page (settings_page true) }

-- `TryFrom<SqliteRow> for UserAuthToken`
unfoldable pub token_from_row : TokenRow → UserAuthToken
token_from_row row = record {
  id = some row.id;
  name = row.name;
  issued = row.issued;
  expiry = row.expiry;
  userid = row.userid;
  tokenkey = row.tokenkey;
  tokenhash = row.tokenhash;
}

-- `UserAuthToken::get_all_user`
unfoldable pub tokens_of_user : ℕ → List TokenRow → List UserAuthToken
unfolding select token_from_row
tokens_of_user userid tokens = map token_from_row (select (λ row. row.userid == userid) tokens)

-- `UserAuthToken::get`
unfoldable pub get_user_token : ℕ → List TokenRow → Option UserAuthToken
unfolding first token_from_row
get_user_token id tokens = elim (first (λ row. row.id == id) tokens) [
  | none ↦ none
  | some row ↦ some (token_from_row row)
]

unfoldable pub tokens_shown :
    Bytes
    → Option Bytes
    → Option Bytes
    → Session
    → User
    → GoatState
    → Option ℕ
    → Handled SettingsPage
unfolding redirect tokens_of_user
tokens_shown csrftoken tokenkey token_value session user st none = sent session st Urls.dashboard
tokens_shown csrftoken tokenkey token_value session user st (some user_id) = record {
  session = session;
  state = st;
  answer = page (
      tokens_page (record {
        csrftoken = csrftoken;
        tokens = tokens_of_user user_id st.tokens;
        tokenkey = tokenkey;
        token_value = token_value;
        user_is_admin = user.admin;
      }));
}

-- `api_tokens_get`: a new token is shown once.
unfoldable pub api_tokens_get : Moment → Session → GoatState → Handled SettingsPage
unfolding when_logged_in check_logged_in redirect store_api_csrf_token tokens_shown
api_tokens_get moment session st =
    when_logged_in st (check_logged_in session (some (redirect Urls.settings_api_tokens)))
      (λ session user.
        let stored = store_api_csrf_token moment.clock moment.now moment.csrftoken none session in
        tokens_shown moment.csrftoken stored.new_api_tokenkey stored.new_api_token
          (record stored { new_api_token = none; new_api_tokenkey = none }) user st user.id)

-- What a handler does behind the check of the form's token.
unfoldable pub when_accepted :
    {P : Type 0} → GoatState → Urls → Bool × Session → (Session → Handled P) → Handled P
unfolding redirect
when_accepted st url (false, session) next = sent session st url
when_accepted st url (true, session) next = next session
