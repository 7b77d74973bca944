-- ===== src/Web/Sessions.antt =====
-- What the check of a session of src/web/ui/mod.rs lets through.
use goatns.Prelude.{Option, none, some, ◌≡◌, refl, ap, ◌⊎◌, inl, inr, Bytes}
use goatns.Database.Users.{User}
use goatns.Web.{
  Session, GoatState, Handled, logged_in, sent_to, user_or_login, checked_authref, check_logged_in,
  when_logged_in,
}

-- The session has a subject and the user.
pub record IsLoggedIn (session : Session) (user : User) : Type 0 where
  pub authref : Bytes
  pub authref_is : session.authref ≡ some authref
  pub user_is : session.user ≡ some user

pub check_logged_in-IsLoggedIn :
    (session : Session) (path : Option Bytes) (user : User)
    → IsLoggedIn session user
    → check_logged_in session path ≡ (session, logged_in user)
unfolding check_logged_in checked_authref user_or_login
check_logged_in-IsLoggedIn session path user h = rw (h.authref_is, h.user_is) refl

user_or_login-cases :
    (user : Option User)
    → ((u : User) × (user ≡ some u)) ⊎ ((url : Bytes) × (user_or_login user ≡ sent_to url))
unfolding user_or_login
user_or_login-cases none = inr (_, refl)
user_or_login-cases (some u) = inl (u, refl)

checked_authref-cases :
    (session : Session) (path authref : Option Bytes)
    → session.authref ≡ authref
    → ((user : User) × IsLoggedIn session user)
      ⊎ ((left : Session) × (url : Bytes) × (checked_authref authref path session
            ≡ (left, sent_to url)))
unfolding checked_authref
checked_authref-cases session path none e = inr (_, _, refl)
checked_authref-cases session path (some authref) e = elim (user_or_login-cases session.user) [
  | inl (user, h) ↦ inl (user, record { authref = authref; authref_is = e; user_is = h })
  | inr (url, h) ↦ inr (session, url, ap (λ c. (session, c)) h)
]

pub check_logged_in-cases :
    (session : Session) (path : Option Bytes)
    → ((user : User) × IsLoggedIn session user)
      ⊎ ((left : Session) × (url : Bytes) × (check_logged_in session path ≡ (left, sent_to url)))
unfolding check_logged_in
check_logged_in-cases session path = checked_authref-cases session path session.authref refl

-- A handler leaves the state, or goes on for the user of the session.
pub when_logged_in-cases :
    {P : Type 0} (session : Session) (path : Option Bytes) (st : GoatState)
    (next : Session → User → Handled P)
    → ((user : User) × IsLoggedIn session user
        × (when_logged_in st (check_logged_in session path) next ≡ next session user))
      ⊎ ((when_logged_in st (check_logged_in session path) next).state ≡ st)
unfolding when_logged_in
when_logged_in-cases session path st next = elim (check_logged_in-cases session path) [
  | inl (user, h) ↦ inl (user, h, rw (check_logged_in-IsLoggedIn session path user h) refl)
  | inr (left, url, e) ↦ inr (rw e refl)
]
