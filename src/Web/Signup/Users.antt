-- ===== src/Web/Signup/Users.antt =====
-- The users that the handler `signup` of src/web/auth/mod.rs stores.
use mathlib.Core.List.{Memᴰ as In}
use goatns.Prelude.{
  false, Option, none, some, ◌≡◌, refl, sym, ap, subst, ◌⊎◌, inl, inr, List, [], ◌∷◌, ◌++◌, Result,
  ok, err, panic, stuck, bind-eq-ok, ok-injective, if_err-eq-ok, if_else_err-eq-ok, Bytes,
}
use goatns.Database.{Db, RowIds, UserRow, insert_id, user_ids}
use goatns.Database.Consistent.{IsConsistent}
use goatns.Database.Users.{User, user_row, any_row, same_login, save_user}
use goatns.Web.{Session, Verifier, GoatState, Handled, page, find_verifier, pop_verifier}
use goatns.Web.Oidc.{
  Claims, get_email, Provider, Env, Parsed, claimed, not_claimed, error_message, parse_state_code,
  token_claims, exchange,
}
use goatns.Web.Auth.{AuthPage, new_user, AuthNewUserTemplate, login}
use goatns.Web.Auth.Keeps.{IsExchanged, login-IsSound}
use goatns.Web.Signup.{
  signup_user, signup_saved, signup_claims, signup_parsed, signup_verifier, signup,
}

-- The user that is stored: neither an admin nor disabled, with the subject of the claims.
pub record IsSignupOf (claims : Claims) (before after : Db) : Type 0 where
  pub row : UserRow
  pub stored : after.users ≡ before.users ++ (row ∷ [])
  pub subject_is : row.authref ≡ some claims.subject
  pub enabled : row.disabled ≡ false
  pub no_admin : row.admin ≡ false
  pub zones_stay : after.zones ≡ before.zones
  pub records_stay : after.records ≡ before.records
  pub ownership_stays : after.ownership ≡ before.ownership

save_user-IsSignupOf :
    (ids : RowIds) (claims : Claims) (email : Bytes) (db : Db) {saved : User × Db}
    → save_user ids (signup_user claims email) db ≡ ok saved
    → IsSignupOf claims db saved.1
unfolding save_user
save_user-IsSignupOf ids claims email db {saved} h =
    let u = signup_user claims email in
    let (id, i, h') = bind-eq-ok (insert_id ids db u.id (user_ids db)) _ h in
    let (_, h'') = if_err-eq-ok (any_row (same_login u) db.users) _ h' in
    let same = ap (λ p. p.1) (sym (ok-injective h'')) in
    record {
      row = user_row id u;
      stored = ap (λ d. d.users) same;
      subject_is = unfold user_row signup_user in refl;
      enabled = unfold user_row signup_user in refl;
      no_admin = unfold user_row signup_user in refl;
      zones_stay = ap (λ d. d.zones) same;
      records_stay = ap (λ d. d.records) same;
      ownership_stays = ap (λ d. d.ownership) same;
    }

-- Either nothing is stored or a user for the claims is; the session stays.
abbrev Stores : Claims → Session → GoatState → Handled AuthPage → Type 0
Stores claims session st after =
    (after.session ≡ session) × ((after.state.db ≡ st.db) ⊎ IsSignupOf claims st.db after.state.db)

signup_saved-Stores :
    (claims : Claims) (session : Session) (st : GoatState) (result : Result (User × Db))
    → ((saved : User × Db) → result ≡ ok saved → IsSignupOf claims st.db saved.1)
    → Stores claims session st (signup_saved session st result)
unfolding signup_saved
signup_saved-Stores claims session st (ok saved) h = (refl, inr (h saved refl))
signup_saved-Stores claims session st (err e) h = (refl, inl refl)
signup_saved-Stores claims session st panic h = (refl, inl refl)
signup_saved-Stores claims session st stuck h = (refl, inl refl)

signup_claims-Stores :
    (ids : RowIds) (env : Env) (claims : Claims) (session : Session) (st : GoatState)
    (email : Option Bytes)
    → Stores claims session st (signup_claims ids env claims session st email)
unfolding signup_claims
signup_claims-Stores ids env claims session st none = (refl, inl refl)
signup_claims-Stores ids env claims session st (some email) =
    signup_saved-Stores claims session st _ (λ saved h.
      save_user-IsSignupOf ids claims email st.db (if_else_err-eq-ok env.answers_transaction _ h).1)

-- What a signup shows of the request and the database.
abbrev pub IsSoundSignup : Env → Bytes → Bytes → Session → GoatState → Handled AuthPage → Type 0
IsSoundSignup env form_state form_code session st after =
    (after.session ≡ session)
    × ((after.state.db ≡ st.db)
        ⊎ ((v : Verifier) × (claims : Claims) × (find_verifier form_state st.oidc_verifier ≡ some v)
            × (parse_state_code env.provider st.oidc_config st.exchanged form_code v
                ≡ claimed claims)
            × IsSignupOf claims st.db after.state.db))

signup_parsed-IsSoundSignup :
    (ids : RowIds) (env : Env) (form_state form_code : Bytes) (session : Session) (st : GoatState)
    (v : Verifier) (parsed : Parsed)
    → find_verifier form_state st.oidc_verifier ≡ some v
    → parse_state_code env.provider st.oidc_config st.exchanged form_code v ≡ parsed
    → IsSoundSignup env form_state form_code session st (
        signup_parsed ids env session
          (parsed, (exchange env.provider form_code v (pop_verifier form_state st).1).1))
unfolding signup_parsed exchange pop_verifier
signup_parsed-IsSoundSignup ids env form_state form_code session st v (not_claimed error) there p =
    (refl, inl refl)
signup_parsed-IsSoundSignup ids env form_state form_code session st v (claimed claims) there p =
    let (same, stores) =
      signup_claims-Stores ids env claims session
        (exchange env.provider form_code v (pop_verifier form_state st).1).1 (get_email claims) in
    (
      same,
      elim stores [
        | inl unchanged ↦ inl unchanged
        | inr stored ↦ inr (v, claims, there, p, stored)
      ],
    )

signup_verifier-IsSoundSignup :
    (ids : RowIds) (env : Env) (form_state form_code : Bytes) (session : Session) (st : GoatState)
    (found : Option Verifier)
    → find_verifier form_state st.oidc_verifier ≡ found
    → IsSoundSignup env form_state form_code session st
        (signup_verifier ids env form_code session (found, (pop_verifier form_state st).1))
unfolding signup_verifier exchange pop_verifier
signup_verifier-IsSoundSignup ids env form_state form_code session st none there = (refl, inl refl)
signup_verifier-IsSoundSignup ids env form_state form_code session st (some v) there =
    signup_parsed-IsSoundSignup ids env form_state form_code session st v
      (parse_state_code env.provider st.oidc_config st.exchanged form_code v) there refl

-- What a signup stores: it leaves the session as it is, and the database too or with one user more, who is
-- neither an admin nor disabled, where the state of the form has a verifier and the provider has claims with
-- the user's subject for the code of the form.
pub signup-IsSoundSignup :
    (ids : RowIds) (env : Env) (form_state form_code : Bytes) (session : Session) (st : GoatState)
    → IsSoundSignup env form_state form_code session st
        (signup ids env form_state form_code session st)
unfolding signup pop_verifier
signup-IsSoundSignup ids env form_state form_code session st =
    signup_verifier-IsSoundSignup ids env form_state form_code session st
      (find_verifier form_state st.oidc_verifier) refl

-- A code is exchanged at most once, as RFC 6749 has it in section 4.1.2.
abbrev pub IsOnce : Provider → Type 0
IsOnce provider =
    (exchanged : List Bytes) (meta code verifier : Bytes)
    → In code exchanged
    → provider.exchange_code exchanged meta code verifier ≡ none

refused :
    (env : Env) (config : Option Bytes) (exchanged : List Bytes) (code : Bytes) (v : Verifier)
    → IsOnce env.provider
    → In code exchanged
    → parse_state_code env.provider config exchanged code v ≡ not_claimed error_message
unfolding parse_state_code token_claims
refused env none exchanged code v once seen = refl
refused env (some meta) exchanged code v once seen =
    rw (once exchanged meta code v.pkce_verifier seen) refl

signup_verifier-exchanged :
    (ids : RowIds) (env : Env) (form_code : Bytes) (session : Session) (found : Option Verifier)
    (st : GoatState)
    → IsOnce env.provider
    → In form_code st.exchanged
    → (signup_verifier ids env form_code session (found, st)).state.db ≡ st.db
unfolding signup_verifier exchange signup_parsed
signup_verifier-exchanged ids env form_code session none st once seen = refl
signup_verifier-exchanged ids env form_code session (some v) st once seen =
    rw (refused env st.oidc_config st.exchanged form_code v once seen) refl

-- Where the provider exchanges a code once, the signup that the page for a new user asks for stores nothing:
-- on a consistent database, with the state and the code of the page that a login showed, whatever the session,
-- the database stays as it is.
pub signup-new_user :
    (ids : RowIds) (env : Env) (query_state query_code : Option Bytes) (session later : Session)
    (st : GoatState) {shown : AuthNewUserTemplate}
    → IsConsistent st.db
    → IsOnce env.provider
    → (login env query_state query_code session st).answer ≡ page (new_user shown)
    → (signup ids env shown.state shown.code later
        (login env query_state query_code session st).state).state.db
      ≡ (login env query_state query_code session st).state.db
unfolding signup pop_verifier
signup-new_user ids env query_state query_code session later st {shown} kept once h =
    let after = login env query_state query_code session st in
    signup_verifier-exchanged ids env shown.code later (pop_verifier shown.state after.state).0
      (pop_verifier shown.state after.state).1 once
      (subst (IsExchanged after.state.exchanged) h
        (login-IsSound env query_state query_code session st kept).exchanged)
