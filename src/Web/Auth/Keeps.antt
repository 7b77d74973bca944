-- ===== src/Web/Auth/Keeps.antt =====
-- The database that the handler `login` of src/web/auth/mod.rs leaves, and the codes behind its pages.
use mathlib.Core.List.{Memᴰ as In}
use mathlib.Core.List.Memᴰ.{head}
use goatns.Prelude.{
  Bool, true, false, not, Option, none, some, ◌≡◌, refl, List, if◌then◌else◌, inl, inr, if-cases,
  if_else_err-eq-ok, ok-injective, subst, Result, ok, err, panic, stuck, Bytes, equal, ltb, ◌-◌,
  ◌/◌,
}
use goatns.Database.{Db}
use goatns.Database.Users.{User, get_by_subject}
use goatns.Database.Consistent.{IsConsistent}
use goatns.Database.Accounts.{update_user, update_user-IsConsistent}
use goatns.Web.{
  Urls, Answer, page, Session, Verifier, GoatState, Handled, sent, pop_verifier, push_verifier,
  oidc_update,
}
use goatns.Web.Oidc.{
  Claims, get_email, Provider, Env, Parsed, claimed, not_claimed, parse_state_code, asked_for,
  exchange, oauth_start, started, oauth_get_discover, authorized,
}
use goatns.Web.Auth.{
  AuthPage, new_user, unknown_user, stored_email, with_email, signed_in, known_user, after_failure,
  looked_up, with_claims, with_parsed, with_verifier, started_login, login_query, login,
  is_signed_in,
}

-- A page for a new user shows a code that was exchanged.
abbrev pub IsExchanged : List Bytes → Answer AuthPage → Type 0
IsExchanged codes (page (new_user shown)) = In shown.code codes
IsExchanged codes _ = Unit

pub record IsSound (after : Handled AuthPage) : Type 0 where
  pub kept : IsConsistent after.state.db
  pub exchanged : IsExchanged after.state.exchanged after.answer

IsSound-if :
    (b : Bool) (x y : Handled AuthPage) → IsSound x → IsSound y → IsSound (if b then x else y)
IsSound-if true x y h k = h
IsSound-if false x y h k = k

stored_email-IsConsistent :
    (updated : User) (result : Result Db) {pair : User × Db}
    → ((db' : Db) → result ≡ ok db' → IsConsistent db')
    → stored_email updated result ≡ ok pair
    → IsConsistent pair.1
unfolding stored_email
stored_email-IsConsistent updated (ok db) kept h =
    subst (λ p. IsConsistent p.1) (ok-injective h) (kept db refl)
stored_email-IsConsistent updated (err e) kept h = cc
stored_email-IsConsistent updated panic kept h = cc
stored_email-IsConsistent updated stuck kept h = cc

with_email-IsConsistent :
    (answers : Bool) (email : Option Bytes) (user : User) (db : Db) {updated : User × Db}
    → IsConsistent db
    → with_email answers email user db ≡ ok updated
    → IsConsistent updated.1
unfolding with_email
with_email-IsConsistent answers none user db kept h =
    subst (λ p. IsConsistent p.1) (ok-injective h) kept
with_email-IsConsistent answers (some email) user db kept h =
    let updated = record user { email = email } in
    elim (if-cases (equal email user.email) h) [
      | inl (_, e) ↦ subst (λ p. IsConsistent p.1) (ok-injective e) kept
      | inr (_, e) ↦
          stored_email-IsConsistent updated (update_user updated db)
            (λ db' stored. update_user-IsConsistent updated db kept stored)
            (if_else_err-eq-ok answers _ e).1
    ]

signed_in-IsSound :
    (subject : Bytes) (session : Session) (st : GoatState) (result : Result (User × Db))
    → IsConsistent st.db
    → ((updated : User × Db) → result ≡ ok updated → IsConsistent updated.1)
    → IsSound (signed_in subject session st result)
unfolding signed_in
signed_in-IsSound subject session st (ok updated) kept h = record {
  kept = h updated refl;
  exchanged = tt;
}
signed_in-IsSound subject session st (err e) kept h = record { kept = kept; exchanged = tt }
signed_in-IsSound subject session st panic kept h = record { kept = kept; exchanged = tt }
signed_in-IsSound subject session st stuck kept h = record { kept = kept; exchanged = tt }

looked_up-IsSound :
    (env : Env) (claims : Claims) (email query_state query_code : Bytes) (v : Verifier)
    (session : Session) (st : GoatState) (found : Option User)
    → IsConsistent st.db
    → In query_code st.exchanged
    → IsSound (looked_up env claims email query_state query_code v session st found)
unfolding looked_up unknown_user known_user push_verifier
looked_up-IsSound env claims email query_state query_code v session st none kept seen =
    IsSound-if (not env.user_auto_provisioning) _ _ (record { kept = kept; exchanged = tt })
      (record { kept = kept; exchanged = seen })
looked_up-IsSound env claims email query_state query_code v session st (some user) kept seen =
    IsSound-if user.disabled _ _ (record { kept = kept; exchanged = tt })
      (signed_in-IsSound claims.subject session st _ kept (λ updated stored.
        with_email-IsConsistent env.answers_transaction claims.email user st.db kept stored))

after_failure-IsSound :
    (session : Session) (st : GoatState) (destination : Option Bytes)
    → IsConsistent st.db
    → IsSound (after_failure session st destination)
unfolding after_failure
after_failure-IsSound session st none kept = record { kept = kept; exchanged = tt }
after_failure-IsSound session st (some destination) kept = record { kept = kept; exchanged = tt }

with_claims-IsSound :
    (env : Env) (claims : Claims) (query_state query_code : Bytes) (v : Verifier)
    (session : Session) (st : GoatState) (email : Option Bytes)
    → IsConsistent st.db
    → In query_code st.exchanged
    → IsSound (with_claims env claims query_state query_code v session st email)
unfolding with_claims
with_claims-IsSound env claims query_state query_code v session st none kept seen = record {
  kept = kept;
  exchanged = tt;
}
with_claims-IsSound env claims query_state query_code v session st (some email) kept seen =
    IsSound-if env.answers_query _ _
      (looked_up-IsSound env claims email query_state query_code v session st
        (get_by_subject st.db claims.subject) kept seen)
      (after_failure-IsSound (record session { redirect_path = none }) st session.redirect_path
        kept)

-- Claims come with a code that the provider was asked for.
parse_state_code-asked_for :
    (provider : Provider) (config : Option Bytes) (exchanged : List Bytes) (code : Bytes)
    (v : Verifier) {claims : Claims}
    → parse_state_code provider config exchanged code v ≡ claimed claims
    → In code (asked_for config code exchanged)
unfolding parse_state_code asked_for
parse_state_code-asked_for provider none exchanged code v h = cc
parse_state_code-asked_for provider (some meta) exchanged code v h = head refl

with_parsed-IsSound :
    (env : Env) (query_state query_code : Bytes) (v : Verifier) (session : Session)
    (parsed : Parsed) (st : GoatState)
    → IsConsistent st.db
    → ((claims : Claims) → parsed ≡ claimed claims → In query_code st.exchanged)
    → IsSound (with_parsed env query_state query_code v session (parsed, st))
unfolding with_parsed
with_parsed-IsSound env query_state query_code v session (not_claimed error) st kept seen = record {
  kept = kept;
  exchanged = tt;
}
with_parsed-IsSound env query_state query_code v session (claimed claims) st kept seen =
    with_claims-IsSound env claims query_state query_code v session st (get_email claims) kept
      (seen claims refl)

with_verifier-IsSound :
    (env : Env) (query_state query_code : Bytes) (session : Session) (found : Option Verifier)
    (st : GoatState)
    → IsConsistent st.db
    → IsSound (with_verifier env query_state query_code session (found, st))
unfolding with_verifier exchange
with_verifier-IsSound env query_state query_code session none st kept = record {
  kept = kept;
  exchanged = tt;
}
with_verifier-IsSound env query_state query_code session (some v) st kept =
    with_parsed-IsSound env query_state query_code v session
      (exchange env.provider query_code v st).0 (exchange env.provider query_code v st).1 kept
      (λ claims h.
        parse_state_code-asked_for env.provider st.oidc_config st.exchanged query_code v h)

IsConsistent-if :
    (b : Bool) (x y : Bytes × GoatState)
    → IsConsistent x.1.db
    → IsConsistent y.1.db
    → IsConsistent (if b then x else y).1.db
IsConsistent-if true x y h k = h
IsConsistent-if false x y h k = k

oauth_start-IsSound :
    (env : Env) (session : Session) (discovered : Option Bytes) (st : GoatState)
    → IsConsistent st.db
    → IsSound (
        started_login session st
          (started env st.oidc_config_updated (oauth_get_discover discovered st)))
unfolding started oauth_get_discover started_login authorized oidc_update push_verifier
oauth_start-IsSound env session none st kept = record { kept = kept; exchanged = tt }
oauth_start-IsSound env session (some discovery) st kept = record {
  kept = IsConsistent-if (ltb 5 ((env.now - st.oidc_config_updated) / 60)) _ _ kept kept;
  exchanged = tt;
}

login_query-IsSound :
    (env : Env) (query_state query_code : Option Bytes) (session : Session) (st : GoatState)
    → IsConsistent st.db
    → IsSound (login_query env query_state query_code session st)
unfolding login_query oauth_start pop_verifier
login_query-IsSound env (some query_state) (some query_code) session st kept =
    with_verifier-IsSound env query_state query_code session (pop_verifier query_state st).0
      (pop_verifier query_state st).1 kept
login_query-IsSound env none query_code session st kept =
    oauth_start-IsSound env session env.provider.discover st kept
login_query-IsSound env (some query_state) none session st kept =
    oauth_start-IsSound env session env.provider.discover st kept

-- A login keeps the invariant of the database.
pub login-IsSound :
    (env : Env) (query_state query_code : Option Bytes) (session : Session) (st : GoatState)
    → IsConsistent st.db
    → IsSound (login env query_state query_code session st)
unfolding login
login-IsSound env query_state query_code session st kept =
    IsSound-if (is_signed_in session.signed_in) (sent session st Urls.dashboard) _
      (record { kept = kept; exchanged = tt })
      (login_query-IsSound env query_state query_code session st kept)
