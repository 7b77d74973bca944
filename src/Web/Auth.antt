-- ===== src/Web/Auth.antt =====
-- The handlers `login` and `logout` of src/web/auth/mod.rs, as functions of the session, the state
-- and the request. Each answers with a page, a redirect or a status, from `Ok` and from `Err` alike.
pub mod Login
pub mod Keeps
mod Steps
use goatns.Prelude.{
  Bool, true, false, not, Option, none, some, List, [], if◌then◌else◌, Result, ok, err, Bytes,
  equal, sqlx_error,
}
use goatns.Contact.{to_html_parts}
use goatns.Database.{Db, RowIds}
use goatns.Database.Users.{User, save_user, get_by_subject}
use goatns.Database.Accounts.{update_user}
use goatns.Web.{
  Urls, redirect, page, redirect_to, status, Session, empty_session, Verifier, GoatState, Handled,
  sent, pop_verifier, push_verifier,
}
use goatns.Web.Oidc.{
  Claims, get_email, get_displayname, get_username, Env, ParserError, redirected, Parsed, claimed,
  not_claimed, oauth_start, exchange,
}

pub record AuthNewUserTemplate : Type 0 where
  pub state : Bytes
  pub code : Bytes
  pub email : Bytes
  pub displayname : Bytes
  pub redirect_url : Bytes
  pub errors : List Bytes
  pub user_is_admin : Bool

pub record AuthProvisioningDisabledTemplate : Type 0 where
  pub username : Bytes
  pub authref : Bytes
  pub admin_contact_name : Bytes
  pub admin_contact_url : Bytes
  pub user_is_admin : Bool

pub data AuthPage : Type 0 where
  new_user : AuthNewUserTemplate → AuthPage
  provisioning_disabled : AuthProvisioningDisabledTemplate → AuthPage

unfoldable pub parser_redirect : ParserError → Bytes
unfolding redirect
parser_redirect (redirected content) = content
parser_redirect _ = redirect Urls.home

-- The provider's address, or an error of the discovery.
unfoldable pub started_login : Session → GoatState → Option (Bytes × GoatState) → Handled AuthPage
started_login session st none = record { session = session; state = st; answer = status 500 }
started_login session st (some (url, st')) = record {
  session = session;
  state = st';
  answer = redirect_to url;
}

-- Nobody has the subject: a page for a new user, for which the verifier is stored again.
unfoldable pub unknown_user :
    Env → Claims → Bytes → Bytes → Bytes → Verifier → Session → GoatState → Handled AuthPage
unfolding to_html_parts get_username get_displayname push_verifier
unknown_user env claims email query_state query_code v session st =
    if not env.user_auto_provisioning
    then (let (name, url) = to_html_parts env.admin_contact in
        record {
          session = session;
          state = st;
          answer = page (
              provisioning_disabled (record {
                username = get_username claims;
                authref = claims.subject;
                admin_contact_name = name;
                admin_contact_url = url;
                user_is_admin = false;
              }));
        })
    else record {
      session = session;
      state = push_verifier (record v { csrftoken = query_state }) st;
      answer = page (
          new_user (record {
            state = query_state;
            code = query_code;
            email = email;
            displayname = get_displayname claims;
            redirect_url = [];
            errors = [];
            user_is_admin = false;
          }));
    }

unfoldable pub stored_email : User → Result Db → Result (User × Db)
stored_email user (ok db) = ok (user, db)
stored_email user _ = err sqlx_error

-- The user with the claimed address, which is stored where it is another one.
unfoldable pub with_email : Bool → Option Bytes → User → Db → Result (User × Db)
unfolding update_user equal stored_email
with_email answers none user db = ok (user, db)
with_email answers (some email) user db =
    let updated = record user { email = email } in
    let stored = stored_email updated (update_user updated db) in
    if equal email user.email then ok (user, db) else if answers then stored else err sqlx_error

unfoldable pub signed_in : Bytes → Session → GoatState → Result (User × Db) → Handled AuthPage
unfolding redirect
signed_in subject session st (ok (user, db)) = record {
  session = record session { authref = some subject; user = some user; signed_in = some true };
  state = record st { db = db };
  answer = redirect_to (redirect Urls.dashboard);
}
signed_in subject session st _ = sent session st Urls.home

unfoldable pub known_user : Env → Claims → User → Session → GoatState → Handled AuthPage
unfolding redirect with_email signed_in
known_user env claims user session st =
    if user.disabled
    then sent empty_session st Urls.home
    else signed_in claims.subject session st
        (with_email env.answers_transaction claims.email user st.db)

-- A redirect that the session asked for, where the query for the user failed.
unfoldable pub after_failure : Session → GoatState → Option Bytes → Handled AuthPage
unfolding redirect
after_failure session st none = sent session st Urls.home
after_failure session st (some destination) = record {
  session = session;
  state = st;
  answer = redirect_to destination;
}

unfoldable pub looked_up :
    Env
    → Claims
    → Bytes
    → Bytes
    → Bytes
    → Verifier
    → Session
    → GoatState
    → Option User
    → Handled AuthPage
unfolding unknown_user known_user
looked_up env claims email query_state query_code v session st none =
    unknown_user env claims email query_state query_code v session st
looked_up env claims email query_state query_code v session st (some user) =
    known_user env claims user session st

-- The claims are verified and have an address.
unfoldable pub with_claims :
    Env → Claims → Bytes → Bytes → Verifier → Session → GoatState → Option Bytes → Handled AuthPage
unfolding redirect after_failure looked_up get_by_subject
with_claims env claims query_state query_code v session st none = sent session st Urls.home
with_claims env claims query_state query_code v session st (some email) =
    if env.answers_query
    then looked_up env claims email query_state query_code v session st
        (get_by_subject st.db claims.subject)
    else after_failure (record session { redirect_path = none }) st session.redirect_path

unfoldable pub with_parsed :
    Env → Bytes → Bytes → Verifier → Session → Parsed × GoatState → Handled AuthPage
unfolding parser_redirect with_claims get_email
with_parsed env query_state query_code v session (not_claimed error, st) = record {
  session = session;
  state = st;
  answer = redirect_to (parser_redirect error);
}
with_parsed env query_state query_code v session (claimed claims, st) =
    with_claims env claims query_state query_code v session st (get_email claims)

unfoldable pub with_verifier :
    Env → Bytes → Bytes → Session → Option Verifier × GoatState → Handled AuthPage
unfolding redirect with_parsed exchange
with_verifier env query_state query_code session (none, st) = sent session st Urls.login
with_verifier env query_state query_code session (some v, st) =
    with_parsed env query_state query_code v session (exchange env.provider query_code v st)

-- Without a state and a code the login starts at the provider.
unfoldable pub login_query :
    Env → Option Bytes → Option Bytes → Session → GoatState → Handled AuthPage
unfolding with_verifier pop_verifier started_login oauth_start
login_query env (some query_state) (some query_code) session st =
    with_verifier env query_state query_code session (pop_verifier query_state st)
login_query env _ _ session st = started_login session st (oauth_start env st)

unfoldable pub is_signed_in : Option Bool → Bool
is_signed_in none = false
is_signed_in (some b) = b

-- `login`
unfoldable pub login : Env → Option Bytes → Option Bytes → Session → GoatState → Handled AuthPage
unfolding redirect is_signed_in login_query
login env query_state query_code session st =
    if is_signed_in session.signed_in
    then sent session st Urls.dashboard
    else login_query env query_state query_code session st

-- `logout`
unfoldable pub logout : Session → GoatState → Handled AuthPage
unfolding redirect
logout session st = sent empty_session st Urls.home
