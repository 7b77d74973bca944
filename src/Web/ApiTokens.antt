-- ===== src/Web/ApiTokens.antt =====
-- The handlers of src/web/ui/user_settings.rs that create and delete a user's tokens.
pub mod Deletes
pub mod Login
use goatns.Prelude.{
  ℕ, not, ◌&&◌, Option, none, some, List, [], ◌∷◌, ◌==◌, if◌then◌else◌, Result, ok, err, Bytes,
  codes, sqlx_error,
}
use goatns.Database.{RowIds}
use goatns.Database.Users.{User}
use goatns.Tokens.{TokenRow, UserAuthToken, save_token, delete_token}
use goatns.Web.{
  Urls, redirect, redirect_with_query, page, redirect_to, Session, GoatState, Handled, sent,
  when_logged_in, check_logged_in,
}
use goatns.Web.Csrf.{store_api_csrf_token, validate_csrf_expiry}
use goatns.Web.Settings.{
  ApiTokenLifetime, to_i32, lifetimes, ApiTokenCreatePageState, start, generating, finished, error,
  Moment, ApiToken, create_api_token, ApiTokenForm, SettingsPage, form_page, delete_page,
  get_user_token, when_accepted,
}

-- The form for a new token.
unfoldable pub lifetime_form : Moment → Session → User → GoatState → Handled SettingsPage
unfolding store_api_csrf_token
lifetime_form moment session user st = record {
  session = store_api_csrf_token moment.clock moment.now moment.new_csrftoken none session;
  state = st;
  answer = page (
      form_page (record {
        csrftoken = moment.new_csrftoken;
        state = start;
        token_name = none;
        lifetimes = some lifetimes;
        lifetime = none;
        tokenkey = none;
        token_value = none;
        user_is_admin = user.admin;
      }));
}

unfoldable pub new_token : ApiToken → Bytes → ℕ → UserAuthToken
new_token api_token name userid = record {
  id = none;
  name = name;
  issued = api_token.issued;
  expiry = api_token.expiry;
  userid = userid;
  tokenkey = api_token.token_key;
  tokenhash = api_token.token_hash;
}

-- The token is saved: the session gets its key and its secret, and then the transaction is committed.
unfoldable pub token_saved :
    Moment
    → ApiToken
    → Session
    → GoatState
    → Result (UserAuthToken × List TokenRow)
    → Handled SettingsPage
unfolding redirect redirect_with_query store_api_csrf_token
token_saved moment api_token session st (ok (uat, tokens)) =
    let shown = record session {
      new_api_token = some api_token.token_secret;
      new_api_tokenkey = some api_token.token_key;
    } in
    if moment.commits
    then record {
      session = store_api_csrf_token moment.clock moment.now moment.new_csrftoken (some 30) shown;
      state = record st { tokens = tokens };
      answer = redirect_to (
          redirect_with_query Urls.settings_api_tokens (
            moment.order
              ((codes "state", moment.new_csrftoken) ∷ (codes "token_created", codes "1") ∷ [])));
    }
    else sent shown st Urls.settings_api_tokens
token_saved moment api_token session st _ = sent session st Urls.settings_api_tokens

unfoldable pub token_named :
    RowIds → Moment → ApiToken → ℕ → Session → GoatState → Option Bytes → Handled SettingsPage
unfolding redirect redirect_with_query token_saved save_token new_token
token_named ids moment api_token userid session st none = record {
  session = session;
  state = st;
  answer = redirect_to (
      redirect_with_query Urls.settings_api_tokens
        ((codes "error", codes "Token name needs to be set!") ∷ []));
}
token_named ids moment api_token userid session st (some name) =
    token_saved moment api_token session st (
      if moment.begins
      then save_token ids (new_token api_token name userid) st.db st.tokens
      else err sqlx_error)

unfoldable pub lifetime_or : Option ApiTokenLifetime → ApiTokenLifetime
lifetime_or none = ApiTokenLifetime.eight_hours
lifetime_or (some lifetime) = lifetime

unfoldable pub token_for :
    RowIds → Moment → ApiTokenForm → Session → GoatState → Option ℕ → Handled SettingsPage
unfolding redirect token_named create_api_token to_i32 lifetime_or
token_for ids moment form session st none = sent session st Urls.settings_api_tokens
token_for ids moment form session st (some userid) =
    token_named ids moment (create_api_token moment (to_i32 (lifetime_or form.lifetime)) userid)
      userid session st form.token_name

unfoldable pub by_page_state :
    RowIds
    → Moment
    → ApiTokenForm
    → Session
    → User
    → GoatState
    → ApiTokenCreatePageState
    → Handled SettingsPage
unfolding redirect lifetime_form token_for
by_page_state ids moment form session user st start = lifetime_form moment session user st
by_page_state ids moment form session user st generating =
    token_for ids moment form session st user.id
by_page_state ids moment form session user st finished = sent session st Urls.settings_api_tokens
by_page_state ids moment form session user st error = sent session st Urls.settings_api_tokens

-- `api_tokens_post`
unfoldable pub api_tokens_post :
    RowIds → Moment → ApiTokenForm → Session → GoatState → Handled SettingsPage
unfolding when_logged_in check_logged_in redirect when_accepted validate_csrf_expiry by_page_state
api_tokens_post ids moment form session st =
    when_logged_in st (check_logged_in session (some (redirect Urls.settings_api_tokens)))
      (λ session user.
        when_accepted st Urls.settings
          (validate_csrf_expiry moment.clock moment.now form.csrftoken session)
          (λ session. by_page_state ids moment form session user st form.state))

-- A token of another user is not shown.
unfoldable pub own_token :
    Session → GoatState → Option ℕ → UserAuthToken → Handled SettingsPage → Handled SettingsPage
unfolding redirect
own_token session st none uat next = sent session st Urls.dashboard
own_token session st (some user_id) uat next =
    if not (uat.userid == user_id) then sent session st Urls.settings_api_tokens else next

unfoldable pub token_to_delete :
    Moment → ℕ → Session → User → GoatState → Option UserAuthToken → Handled SettingsPage
unfolding redirect own_token
token_to_delete moment id session user st none = sent session st Urls.settings_api_tokens
token_to_delete moment id session user st (some uat) = own_token session st user.id uat (record {
  session = session;
  state = st;
  answer = page (
      delete_page (record {
        id = id;
        token_name = some uat.name;
        csrftoken = moment.csrftoken;
        user_is_admin = user.admin;
      }));
})

unfoldable pub with_id : Moment → Session → User → GoatState → Option ℕ → Handled SettingsPage
unfolding redirect token_to_delete get_user_token
with_id moment session user st none = sent session st Urls.home
with_id moment session user st (some id) =
    token_to_delete moment id session user st (get_user_token id st.tokens)

-- `api_tokens_delete_get`; the number that the path is read as is given.
unfoldable pub api_tokens_delete_get :
    Moment → Option ℕ → Session → GoatState → Handled SettingsPage
unfolding when_logged_in check_logged_in redirect store_api_csrf_token with_id
api_tokens_delete_get moment id session st =
    when_logged_in st (check_logged_in session (some (redirect Urls.settings_api_tokens)))
      (λ session user.
        with_id moment (store_api_csrf_token moment.clock moment.now moment.csrftoken none session)
          user st id)

unfoldable pub token_deleted :
    Moment → ℕ → Session → GoatState → Option UserAuthToken → Handled SettingsPage
unfolding redirect delete_token
token_deleted moment user_id session st none = sent session st Urls.settings_api_tokens
token_deleted moment user_id session st (some uat) =
    if not (uat.userid == user_id)
    then sent session st Urls.settings_api_tokens
    else if moment.begins && moment.commits
    then sent session (record st { tokens = delete_token uat st.tokens }) Urls.settings_api_tokens
    else sent session st Urls.settings_api_tokens

unfoldable pub deleted_for : Moment → ℕ → Session → GoatState → Option ℕ → Handled SettingsPage
unfolding redirect token_deleted get_user_token
deleted_for moment id session st none = sent session st Urls.dashboard
deleted_for moment id session st (some user_id) =
    token_deleted moment user_id session st (get_user_token id st.tokens)

-- `api_tokens_delete_post`, with the number and the token of the form
unfoldable pub api_tokens_delete_post :
    Moment → Option Bytes → ℕ → Bytes → Session → GoatState → Handled SettingsPage
unfolding when_logged_in check_logged_in when_accepted validate_csrf_expiry deleted_for
api_tokens_delete_post moment path id csrftoken session st =
    when_logged_in st (check_logged_in session path) (λ session user.
      when_accepted st Urls.settings_api_tokens
        (validate_csrf_expiry moment.clock moment.now csrftoken session)
        (λ session. deleted_for moment id session st user.id))
