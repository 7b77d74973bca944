-- ===== src/Web/Signup.antt =====
-- The handler `signup` of src/web/auth/mod.rs.
pub mod Users
use goatns.Prelude.{false, Option, none, some, if◌then◌else◌, Result, ok, err, Bytes, sqlx_error}
use goatns.Database.{Db, RowIds}
use goatns.Database.Users.{User, save_user}
use goatns.Web.{
  Urls, redirect, redirect_to, Session, Verifier, GoatState, Handled, sent, pop_verifier,
}
use goatns.Web.Oidc.{
  Claims, get_email, get_displayname, get_username, Env, Parsed, claimed, not_claimed, exchange,
}
use goatns.Web.Auth.{AuthPage, parser_redirect}

unfoldable pub signup_user : Claims → Bytes → User
unfolding get_displayname get_username
signup_user claims email = record {
  id = none;
  displayname = get_displayname claims;
  username = get_username claims;
  email = email;
  disabled = false;
  authref = some claims.subject;
  admin = false;
}

unfoldable pub signup_saved : Session → GoatState → Result (User × Db) → Handled AuthPage
unfolding redirect
signup_saved session st (ok (user, db)) = sent session (record st { db = db }) Urls.dashboard
signup_saved session st _ = sent session st Urls.home

unfoldable pub signup_claims :
    RowIds → Env → Claims → Session → GoatState → Option Bytes → Handled AuthPage
unfolding redirect signup_saved signup_user save_user
signup_claims ids env claims session st none = sent session st Urls.home
signup_claims ids env claims session st (some email) = signup_saved session st (
    if env.answers_transaction
    then save_user ids (signup_user claims email) st.db
    else err sqlx_error)

unfoldable pub signup_parsed : RowIds → Env → Session → Parsed × GoatState → Handled AuthPage
unfolding parser_redirect signup_claims get_email
signup_parsed ids env session (not_claimed error, st) = record {
  session = session;
  state = st;
  answer = redirect_to (parser_redirect error);
}
signup_parsed ids env session (claimed claims, st) =
    signup_claims ids env claims session st (get_email claims)

unfoldable pub signup_verifier :
    RowIds → Env → Bytes → Session → Option Verifier × GoatState → Handled AuthPage
unfolding redirect signup_parsed exchange
signup_verifier ids env code session (none, st) = sent session st Urls.login
signup_verifier ids env code session (some v, st) =
    signup_parsed ids env session (exchange env.provider code v st)

-- `signup`, with the state and the code of the form
unfoldable pub signup : RowIds → Env → Bytes → Bytes → Session → GoatState → Handled AuthPage
unfolding signup_verifier pop_verifier
signup ids env form_state form_code session st =
    signup_verifier ids env form_code session (pop_verifier form_state st)
