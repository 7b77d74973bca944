-- ===== src/Web/Auth/Login.antt =====
-- Who is signed in by the handler `login` of src/web/auth/mod.rs.
use mathlib.Core.List.{Memᴰ as In}
use goatns.Prelude.{
  true, false, Option, none, some, ◌≡◌, ◌≢◌, refl, sym, ap, subst, ◌∙◌, Bytes, equal_iff,
}
use goatns.Database.{UserRow, text_is}
use goatns.Database.Rows.{first-delete_where}
use goatns.Database.Users.{User, user_from_row}
use goatns.Web.{
  Session, Verifier, GoatState, Handled, find_verifier, without_verifier, pop_verifier,
}
use goatns.Web.Oidc.{Claims, Env, claimed, parse_state_code, exchange}
use goatns.Web.Auth.{AuthPage, with_verifier, login_query, is_signed_in, login}
use goatns.Web.Auth.Steps.{
  row_of_subject, IsOut, with_email-keeps, second_branch, with_parsed-Signs, started_login-session,
}

-- The login is that of a stored user who is not disabled, with claims that the provider gave for the code
-- and the verifier of the state, and the state is used up.
pub record IsLoginOf (env : Env) (query_state query_code : Bytes) (st : GoatState)
    (after : Handled AuthPage) : Type 0 where
  pub verifier : Verifier
  pub verifier_there : find_verifier query_state st.oidc_verifier ≡ some verifier
  pub claims : Claims
  pub claimed_for :
      parse_state_code env.provider st.oidc_config st.exchanged query_code verifier ≡ claimed claims
  pub row : UserRow
  pub row_there : In row st.db.users
  pub subject_is : row.authref ≡ some claims.subject
  pub enabled : row.disabled ≡ false
  pub authref_is : after.session.authref ≡ some claims.subject
  pub user_is :
      (address : Bytes) × (after.session.user
        ≡ some (record (user_from_row row) { email = address }))
  pub verifier_gone : find_verifier query_state after.state.oidc_verifier ≡ none

text_is-some :
    (bound : Bytes) (column : Option Bytes)
    → text_is (some bound) column ≡ true
    → column ≡ some bound
unfolding text_is
text_is-some bound none h = cc
text_is-some bound (some text) h = ap some ((equal_iff text bound).0 h)

-- A verifier that is popped is not found again.
find_verifier-pop_verifier :
    (csrftoken : Bytes) (st : GoatState)
    → find_verifier csrftoken (pop_verifier csrftoken st).1.oidc_verifier ≡ none
unfolding find_verifier pop_verifier without_verifier
find_verifier-pop_verifier csrftoken st = first-delete_where _ st.oidc_verifier

with_verifier-IsLoginOf :
    (env : Env) (query_state query_code : Bytes) (session : Session) (st : GoatState)
    (found : Option Verifier)
    → find_verifier query_state st.oidc_verifier ≡ found
    → IsOut session
    → let after =
        with_verifier env query_state query_code session (found, (pop_verifier query_state st).1) in
      after.session.signed_in ≡ some true → IsLoginOf env query_state query_code st after
unfolding with_verifier
with_verifier-IsLoginOf env query_state query_code session st none there out h = absurd (out h)
with_verifier-IsLoginOf env query_state query_code session st (some v) there out h =
    let popped = (pop_verifier query_state st).1 in
    let (parsed, left) = exchange env.provider query_code v popped in
    let (claims, verified, (user, known, enabled, (updated, stored, same))) =
      with_parsed-Signs env query_state query_code v session parsed left out h in
    let (row, row_there, subject_is, is_row) = row_of_subject claims.subject left.db known in
    let (address, kept) =
      with_email-keeps env.answers_transaction claims.email user left.db stored in
    record {
      verifier = v;
      verifier_there = there;
      claims = claims;
      claimed_for = unfold exchange pop_verifier in verified;
      row = row;
      row_there = unfold exchange pop_verifier in row_there;
      subject_is = text_is-some claims.subject row.authref subject_is;
      enabled = ap (λ u. u.disabled) (sym is_row) ∙ enabled;
      authref_is = ap (λ (a : Handled AuthPage). a.session.authref) same;
      user_is = (
        address,
        ap (λ (a : Handled AuthPage). a.session.user) same
            ∙ ap some (kept ∙ ap (λ (u : User). record u { email = address }) is_row),
      );
      verifier_gone =
          ap (λ (a : Handled AuthPage). find_verifier query_state a.state.oidc_verifier) same
          ∙ find_verifier-pop_verifier query_state st;
    }

login_query-IsLoginOf :
    (env : Env) (query_state query_code : Option Bytes) (session : Session) (st : GoatState)
    → IsOut session
    → (login_query env query_state query_code session st).session.signed_in ≡ some true
    → (state code : Bytes) × (query_state ≡ some state)
      × (query_code ≡ some code)
      × IsLoginOf env state code st (login_query env query_state query_code session st)
unfolding login_query
login_query-IsLoginOf env none query_code session st out h =
    absurd (out (ap (λ s. s.signed_in) (sym (started_login-session session st _)) ∙ h))
login_query-IsLoginOf env (some state) none session st out h =
    absurd (out (ap (λ s. s.signed_in) (sym (started_login-session session st _)) ∙ h))
login_query-IsLoginOf env (some state) (some code) session st out h = (
  state,
  code,
  refl,
  refl,
  with_verifier-IsLoginOf env state code session st (pop_verifier state st).0
      (unfold pop_verifier in refl) out h,
)

-- Who is signed in by `login`: only a request with a state that has a verifier and with a code for which the
-- provider has claims whose subject is that of a stored user who is not disabled. The session has the subject
-- and that user, with the rights that are stored and perhaps a new address, and the state is used up.
pub login-IsLoginOf :
    (env : Env) (query_state query_code : Option Bytes) (session : Session) (st : GoatState)
    → session.signed_in ≢ some true
    → (login env query_state query_code session st).session.signed_in ≡ some true
    → (state code : Bytes) × (query_state ≡ some state)
      × (query_code ≡ some code)
      × IsLoginOf env state code st (login env query_state query_code session st)
unfolding login
login-IsLoginOf env query_state query_code session st out h =
    let (_, h', same) =
      second_branch (is_signed_in session.signed_in) _
        (login_query env query_state query_code session st) out h in
    let (state, code, given, with_code, found) =
      login_query-IsLoginOf env query_state query_code session st out h' in
    (state, code, given, with_code, subst (IsLoginOf env state code st) (sym same) found)
