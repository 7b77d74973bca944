-- ===== src/Web/Auth/Steps.antt =====
-- The steps of the handler `login` of src/web/auth/mod.rs.
use mathlib.Core.List.{Memᴰ as In}
use goatns.Prelude.{
  Bool, true, false, Option, none, some, ◌≡◌, ◌≢◌, refl, sym, ap, ◌∙◌, inl, inr, Bool-cases, Result,
  ok, err, panic, stuck, ok-injective, some-injective, if-cases, if_else_err-eq-ok, if◌then◌else◌,
  Bytes, equal,
}
use goatns.Database.{Db, UserRow, first, text_is}
use goatns.Database.Rows.{first-some, first-there}
use goatns.Database.Users.{User, user_from_row, get_by_subject}
use goatns.Web.{Session, Verifier, GoatState, Handled}
use goatns.Web.Oidc.{Claims, get_email, Env, Parsed, claimed, not_claimed}
use goatns.Web.Auth.{
  AuthPage, unknown_user, stored_email, with_email, signed_in, known_user, after_failure, looked_up,
  with_claims, with_parsed, started_login,
}

found_row :
    (found : Option UserRow) {user : User}
    → elim found [ none ↦ none | some row ↦ some (user_from_row row) ] ≡ some user
    → (row : UserRow) × (found ≡ some row) × (user ≡ user_from_row row)
found_row none h = cc
found_row (some row) h = (row, refl, sym (some-injective h))

pub row_of_subject :
    (subject : Bytes) (db : Db) {user : User}
    → get_by_subject db subject ≡ some user
    → (row : UserRow) × In row db.users
      × (text_is (some subject) row.authref ≡ true)
      × (user ≡ user_from_row row)
unfolding get_by_subject
row_of_subject subject db h =
    let (row, e, same) = found_row (first (λ row. text_is (some subject) row.authref) db.users) h in
    (row, first-there _ db.users e, first-some _ db.users e, same)

-- The session is not signed in.
abbrev pub IsOut : Session → Type 0
IsOut session = session.signed_in ≢ some true

stored_email-ok :
    (updated : User) (result : Result Db) {pair : User × Db}
    → stored_email updated result ≡ ok pair
    → pair.0 ≡ updated
unfolding stored_email
stored_email-ok updated (ok db) h = ap (λ p. p.0) (sym (ok-injective h))
stored_email-ok updated (err e) h = cc
stored_email-ok updated panic h = cc
stored_email-ok updated stuck h = cc

-- Only the address of the user is replaced.
pub with_email-keeps :
    (answers : Bool) (email : Option Bytes) (user : User) (db : Db) {updated : User × Db}
    → with_email answers email user db ≡ ok updated
    → (address : Bytes) × (updated.0 ≡ record user { email = address })
unfolding with_email
with_email-keeps answers none user db h = (user.email, ap (λ p. p.0) (sym (ok-injective h)))
with_email-keeps answers (some email) user db h = elim (if-cases (equal email user.email) h) [
  | inl (_, e) ↦ (user.email, ap (λ p. p.0) (sym (ok-injective e)))
  | inr (_, e) ↦
      let (_, stored) = if_else_err-eq-ok answers _ e in
      (email, stored_email-ok (record user { email = email }) _ stored)
]

signed_in-ok :
    (subject : Bytes) (session : Session) (st : GoatState) (result : Result (User × Db))
    → IsOut session
    → (signed_in subject session st result).session.signed_in ≡ some true
    → (updated : User × Db) × (result ≡ ok updated)
unfolding signed_in
signed_in-ok subject session st (ok updated) out h = (updated, refl)
signed_in-ok subject session st (err e) out h = absurd (out h)
signed_in-ok subject session st panic out h = absurd (out h)
signed_in-ok subject session st stuck out h = absurd (out h)

unknown_user-session :
    (env : Env) (claims : Claims) (email query_state query_code : Bytes) (v : Verifier)
    (session : Session) (st : GoatState)
    → (unknown_user env claims email query_state query_code v session st).session ≡ session
unfolding unknown_user
unknown_user-session env claims email query_state query_code v session st =
    elim (Bool-cases env.user_auto_provisioning) [ inl e ↦ rw e refl | inr e ↦ rw e refl ]

-- A test before a branch that does not sign in.
pub second_branch :
    (b : Bool) (first second : Handled AuthPage)
    → IsOut first.session
    → (if b then first else second).session.signed_in ≡ some true
    → (b ≡ false)
      × (second.session.signed_in ≡ some true)
      × ((if b then first else second) ≡ second)
second_branch true first second out h = absurd (out h)
second_branch false first second out h = (refl, h, refl)

first_branch :
    (b : Bool) (first second : Handled AuthPage)
    → IsOut second.session
    → (if b then first else second).session.signed_in ≡ some true
    → (first.session.signed_in ≡ some true) × ((if b then first else second) ≡ first)
first_branch true first second out h = (h, refl)
first_branch false first second out h = absurd (out h)

-- What the handler has done with the user and the claims where it signs in.
abbrev pub Signs : Env → Claims → Session → GoatState → Option User → Handled AuthPage → Type 0
Signs env claims session st found handled =
    (user : User) × (found ≡ some user)
    × (user.disabled ≡ false)
    × ((updated : User × Db) × (with_email env.answers_transaction claims.email user st.db
          ≡ ok updated)
        × (handled ≡ signed_in claims.subject session st (ok updated)))

looked_up-Signs :
    (env : Env) (claims : Claims) (email query_state query_code : Bytes) (v : Verifier)
    (session : Session) (st : GoatState) (found : Option User)
    → IsOut session
    → (looked_up env claims email query_state query_code v session st found).session.signed_in
      ≡ some true
    → Signs env claims session st found
        (looked_up env claims email query_state query_code v session st found)
unfolding looked_up known_user
looked_up-Signs env claims email query_state query_code v session st none out h = absurd (
    out (
      ap (λ s. s.signed_in)
        (sym (unknown_user-session env claims email query_state query_code v session st))
      ∙ h))
looked_up-Signs env claims email query_state query_code v session st (some user) out h =
    let result = with_email env.answers_transaction claims.email user st.db in
    let (enabled, h', is_second) =
      second_branch user.disabled _ (signed_in claims.subject session st result) (λ e. cc e) h in
    let (updated, stored) = signed_in-ok claims.subject session st result out h' in
    (
      user,
      refl,
      enabled,
      (updated, stored, is_second ∙ ap (signed_in claims.subject session st) stored),
    )

pub started_login-session :
    (session : Session) (st : GoatState) (start : Option (Bytes × GoatState))
    → (started_login session st start).session ≡ session
unfolding started_login
started_login-session session st none = refl
started_login-session session st (some (url, st')) = refl

after_failure-IsOut :
    (session : Session) (st : GoatState) (destination : Option Bytes)
    → IsOut session
    → IsOut (after_failure session st destination).session
unfolding after_failure
after_failure-IsOut session st none out = out
after_failure-IsOut session st (some destination) out = out

with_claims-Signs :
    (env : Env) (claims : Claims) (query_state query_code : Bytes) (v : Verifier)
    (session : Session) (st : GoatState) (email : Option Bytes)
    → IsOut session
    → (with_claims env claims query_state query_code v session st email).session.signed_in
      ≡ some true
    → Signs env claims session st
        (get_by_subject st.db claims.subject)
        (with_claims env claims query_state query_code v session st email)
unfolding with_claims
with_claims-Signs env claims query_state query_code v session st none out h = absurd (out h)
with_claims-Signs env claims query_state query_code v session st (some email) out h =
    let found = get_by_subject st.db claims.subject in
    let (h', is_first) =
      first_branch env.answers_query
        (looked_up env claims email query_state query_code v session st found) _
        (after_failure-IsOut (record session { redirect_path = none }) st session.redirect_path out)
        h in
    let (user, there, enabled, (updated, stored, same)) =
      looked_up-Signs env claims email query_state query_code v session st found out h' in
    (user, there, enabled, (updated, stored, is_first ∙ same))

pub with_parsed-Signs :
    (env : Env) (query_state query_code : Bytes) (v : Verifier) (session : Session)
    (parsed : Parsed) (st : GoatState)
    → IsOut session
    → (with_parsed env query_state query_code v session (parsed, st)).session.signed_in ≡ some true
    → (claims : Claims) × (parsed ≡ claimed claims)
      × Signs env claims session st
          (get_by_subject st.db claims.subject)
          (with_parsed env query_state query_code v session (parsed, st))
unfolding with_parsed
with_parsed-Signs env query_state query_code v session (not_claimed error) st out h = absurd (out h)
with_parsed-Signs env query_state query_code v session (claimed claims) st out h = (
  claims,
  refl,
  with_claims-Signs env claims query_state query_code v session st (get_email claims) out h,
)
