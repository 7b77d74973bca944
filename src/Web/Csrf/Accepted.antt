-- ===== src/Web/Csrf/Accepted.antt =====
-- Which token validate_csrf_expiry of src/web/ui/user_settings.rs accepts.
use goatns.Prelude.{
  ℕ, Bool, true, false, not, ◌+◌, ◌≤◌, Option, none, some, ◌≡◌, refl, ◌↔◌, ltb, if◌then◌else◌,
  Bytes, equal, equal_iff, arith,
}
use goatns.Contact.{split_once}
use goatns.Contact.RoundTrip.{Lacks, split_once-here, split_once-whole}
use goatns.Web.{Session}
use goatns.Web.Csrf.{
  Clock, seconds_or, store_api_csrf_token, without_csrf, is_unexpired, expiry_accepted,
  stored_accepted, validate_csrf_expiry,
}

-- What chrono writes for a time it reads back as the time, and there is no `|` in it.
pub record IsClock (clock : Clock) : Type 0 where
  pub reads : (n : ℕ) → clock.parse_from_rfc3339 (clock.to_rfc3339 n) ≡ some n
  pub plain : (n : ℕ) → Lacks 124 (clock.to_rfc3339 n)

accepted_iff :
    (same : Bool) (expiry later : ℕ) (session : Session)
    → ((if not same then (false, session) else is_unexpired later (some expiry) session).0 ≡ true)
      ↔ ((same ≡ true) × (later ≤ expiry))
unfolding is_unexpired
accepted_iff false expiry later session = (λ h. cc h, λ h. cc (h.0))
accepted_iff true expiry later session = ground arith

if-session :
    (b : Bool) (x y : Bool × Session) {session : Session}
    → (x.0 ≡ true → x.1 ≡ session)
    → (y.0 ≡ true → y.1 ≡ session)
    → (if b then x else y).0 ≡ true
    → (if b then x else y).1 ≡ session
if-session true x y h k e = h e
if-session false x y h k e = k e

is_unexpired-session :
    (now : ℕ) (expiry : Option ℕ) (session : Session)
    → (is_unexpired now expiry session).0 ≡ true
    → (is_unexpired now expiry session).1 ≡ session
unfolding is_unexpired
is_unexpired-session now none session h = cc h
is_unexpired-session now (some expiry) session h =
    if-session (ltb expiry now) (false, without_csrf session) (true, session) (λ e. cc e)
      (λ e. refl) h

expiry_accepted-session :
    (clock : Clock) (now : ℕ) (behind : Option Bytes) (session : Session)
    → (expiry_accepted clock now behind session).0 ≡ true
    → (expiry_accepted clock now behind session).1 ≡ session
unfolding expiry_accepted
expiry_accepted-session clock now none session h = cc h
expiry_accepted-session clock now (some behind) session h =
    is_unexpired-session now (clock.parse_from_rfc3339 (split_once 124 behind).0) session h

stored_accepted-session :
    (clock : Clock) (now : ℕ) (user_input : Bytes) (stored : Option Bytes) (session : Session)
    → (stored_accepted clock now user_input stored session).0 ≡ true
    → (stored_accepted clock now user_input stored session).1 ≡ session
unfolding stored_accepted
stored_accepted-session clock now user_input none session h = cc h
stored_accepted-session clock now user_input (some token) session h =
    let (csrf_token, behind) = split_once 124 token in
    if-session (not (equal user_input csrf_token)) (false, session)
      (expiry_accepted clock now behind session) (λ e. refl)
      (expiry_accepted-session clock now behind session) h

pair_path : (p : Bool × Session) {b : Bool} {s : Session} → p.0 ≡ b → p.1 ≡ s → p ≡ (b, s)
pair_path p e f = cc (e, f)

-- An accepted token stays in the session.
pub validate_csrf_expiry-session :
    (clock : Clock) (now : ℕ) (user_input : Bytes) (session : Session)
    → (validate_csrf_expiry clock now user_input session).0 ≡ true
    → validate_csrf_expiry clock now user_input session ≡ (true, session)
unfolding validate_csrf_expiry
validate_csrf_expiry-session clock now user_input session h =
    pair_path (stored_accepted clock now user_input session.api_token_csrf_token session) h
      (stored_accepted-session clock now user_input session.api_token_csrf_token session h)

-- Which token is accepted: after a token is stored with its time, exactly the input that is the token is
-- accepted, and only until that time, where the token and the texts of times have no `|`.
pub validate_csrf_expiry-store_api_csrf_token :
    (clock : Clock) (now later : ℕ) (csrftoken user_input : Bytes) (delta : Option ℕ)
    (session : Session)
    → IsClock clock
    → Lacks 124 csrftoken
    → ((validate_csrf_expiry clock later user_input
          (store_api_csrf_token clock now csrftoken delta session)).0
        ≡ true)
      ↔ ((user_input ≡ csrftoken) × (later ≤ now + seconds_or delta))
unfolding validate_csrf_expiry store_api_csrf_token stored_accepted expiry_accepted
validate_csrf_expiry-store_api_csrf_token clock now later csrftoken user_input delta session right
      plain =
    let expiry : ℕ = now + seconds_or delta in
    let stored : Session = store_api_csrf_token clock now csrftoken delta session in
    rw (split_once-here 124 csrftoken (clock.to_rfc3339 expiry) plain) (
      rw (split_once-whole 124 (clock.to_rfc3339 expiry) (right.plain expiry), right.reads expiry)
        (let iff = accepted_iff (equal user_input csrftoken) expiry later stored in
          (
            λ h. let (same, early) = iff.0 h in ((equal_iff user_input csrftoken).0 same, early),
            λ h. iff.1 ((equal_iff user_input csrftoken).1 (h.0), h.1),
          )))
