-- ===== src/Web/Csrf.antt =====
-- The token against forged requests that a session keeps, of src/web/ui/user_settings.rs. Times are
-- seconds; the texts that the crate chrono writes and reads for them are the parameter `Clock`.
pub mod Accepted
use goatns.Prelude.{
  ℕ, Bool, true, false, not, ◌+◌, Option, none, some, ◌++◌, ltb, if◌then◌else◌, Bytes, equal, codes,
}
use goatns.Contact.{split_once}
use goatns.Web.{Session}

pub record Clock : Type 0 where
  pub to_rfc3339 : ℕ → Bytes
  pub parse_from_rfc3339 : Bytes → Option ℕ

unfoldable pub seconds_or : Option ℕ → ℕ
seconds_or none = 300
seconds_or (some seconds) = seconds

-- `store_api_csrf_token`, with the token that was drawn
unfoldable pub store_api_csrf_token : Clock → ℕ → Bytes → Option ℕ → Session → Session
unfolding seconds_or
store_api_csrf_token clock now csrftoken expiry_plus_seconds session = record session {
  api_token_csrf_token =
      some (csrftoken ++ (codes "|" ++ clock.to_rfc3339 (now + seconds_or expiry_plus_seconds)));
}

abbrev pub without_csrf : Session → Session
without_csrf session = record session { api_token_csrf_token = none }

unfoldable pub is_unexpired : ℕ → Option ℕ → Session → Bool × Session
is_unexpired now none session = (false, without_csrf session)
is_unexpired now (some expiry) session =
    if ltb expiry now then (false, without_csrf session) else (true, session)

-- The second piece of the stored text.
unfoldable pub expiry_accepted : Clock → ℕ → Option Bytes → Session → Bool × Session
unfolding is_unexpired split_once
expiry_accepted clock now none session = (false, without_csrf session)
expiry_accepted clock now (some behind) session =
    is_unexpired now (clock.parse_from_rfc3339 (split_once 124 behind).0) session

unfoldable pub stored_accepted : Clock → ℕ → Bytes → Option Bytes → Session → Bool × Session
unfolding split_once expiry_accepted equal
stored_accepted clock now user_input none session = (false, without_csrf session)
stored_accepted clock now user_input (some session_token) session =
    let (csrf_token, behind) = split_once 124 session_token in
    if not (equal user_input csrf_token)
    then (false, session)
    else expiry_accepted clock now behind session

-- `validate_csrf_expiry`
unfoldable pub validate_csrf_expiry : Clock → ℕ → Bytes → Session → Bool × Session
unfolding stored_accepted
validate_csrf_expiry clock now user_input session =
    stored_accepted clock now user_input session.api_token_csrf_token session
