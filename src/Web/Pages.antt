-- ===== src/Web/Pages.antt =====
-- The pages for zones of src/web/ui/mod.rs, src/web/ui/profile.rs and src/web/ui/zones.rs, and the test of names
-- of src/goat-lib/src/validators.rs. A page sends one command to the datastore manager and waits for the answer.
-- The text of a number, and the test that all characters of a part are alphanumeric or `-`, are parameters.
use goatns.Prelude.{
  ℕ, Bool, true, false, not, ◌&&◌, ◌||◌, Option, none, some, List, [], ◌∷◌, ◌==◌, ltb, length,
  if◌then◌else◌, Bytes, codes,
}
use goatns.Name.{pieces_of}
use goatns.Zone.{FileZone}
use goatns.Database.Users.{User}
use goatns.Manager.{Outside, Command, Answer, Message, handle_message}
use goatns.Web.{
  Urls, redirect, redirect_with_query, page, redirect_to, status, Session, GoatState, Handled, sent,
  when_logged_in, check_logged_in,
}

-- What the handlers are given: the manager, if it still takes commands, and the two parameters on texts.
pub record Site : Type 0 where
  pub std : Outside
  pub running : Bool
  pub number : ℕ → Bytes
  pub all_alphanumeric : Bytes → Bool

unfoldable pub has_byte : ℕ → Bytes → Bool
has_byte c [] = false
has_byte c (b ∷ s) = b == c || has_byte c s

unfoldable pub is_part : (Bytes → Bool) → Bytes → Bool
is_part all_alphanumeric [] = false
is_part all_alphanumeric (b ∷ s) = not (ltb 63 (length (b ∷ s))) && all_alphanumeric (b ∷ s)

unfoldable pub all_parts : (Bytes → Bool) → List Bytes → Bool
unfolding is_part
all_parts all_alphanumeric [] = true
all_parts all_alphanumeric (part ∷ parts) =
    is_part all_alphanumeric part && all_parts all_alphanumeric parts

-- `dns_name`
unfoldable pub dns_name : (Bytes → Bool) → Bytes → Bool
unfolding has_byte all_parts
dns_name all_alphanumeric name =
    has_byte 46 name
    && not (ltb 253 (length name))
    && all_parts all_alphanumeric (pieces_of 46 name)

-- What is received of a command that was sent; `none` is a command that could not be sent.
unfoldable pub ask : Site → Command → GoatState → Option Message
unfolding handle_message
ask site cmd st = if site.running then some (handle_message site.std cmd st.db) else none

pub record TemplateViewZones : Type 0 where
  pub zones : List FileZone
  pub user_is_admin : Bool
  pub message : Option Bytes
  pub error : Option Bytes

pub data ZonePage : Type 0 where
  zones_page : TemplateViewZones → ZonePage
  zone_page : FileZone → Bool → ZonePage
  dashboard_page : Bool → ZonePage
  profile_page : User → Bool → ZonePage

-- A redirect home with a message.
abbrev pub home_error : {P : Type 0} → Session → GoatState → Bytes → Handled P
home_error session st text = record {
  session = session;
  state = st;
  answer = redirect_to (redirect_with_query Urls.home ((codes "error", text) ∷ []));
}

unfoldable pub zones_received :
    Option Bytes → Option Bytes → Session → User → GoatState → Option Answer → Handled ZonePage
zones_received message error session user st (some (Answer.zones_found zones)) = record {
  session = session;
  state = st;
  answer = page (
      zones_page
        (record { zones = zones; user_is_admin = user.admin; message = message; error = error }));
}
zones_received message error session user st _ = record {
  session = session;
  state = st;
  answer = status 500;
}

unfoldable pub zones_asked :
    Option Bytes → Option Bytes → Session → User → GoatState → Option Message → Handled ZonePage
unfolding redirect zones_received
zones_asked message error session user st none = sent session st Urls.dashboard
zones_asked message error session user st (some left) =
    zones_received message error session user (record st { db = left.db }) left.answer

-- `zones_list`: the first 20 zones.
unfoldable pub zones_list :
    Site → Option Bytes → Option Bytes → Option Bytes → Session → GoatState → Handled ZonePage
unfolding when_logged_in check_logged_in zones_asked ask
zones_list site path message error session st =
    when_logged_in st (check_logged_in session path) (λ session user.
      zones_asked message error session user st (ask site (Command.get_zone_names user 0 20) st))

unfoldable pub zone_received : Session → User → GoatState → Option Answer → Handled ZonePage
unfolding redirect
zone_received session user st (some (Answer.zone_found (some zone))) = record {
  session = session;
  state = st;
  answer = page (zone_page zone user.admin);
}
zone_received session user st (some (Answer.zone_found none)) = record {
  session = session;
  state = st;
  answer = status 404;
}
zone_received session user st _ = sent session st Urls.zones_list

unfoldable pub zone_asked : Session → User → GoatState → Option Message → Handled ZonePage
unfolding redirect zone_received
zone_asked session user st none = sent session st Urls.zones_list
zone_asked session user st (some left) =
    zone_received session user (record st { db = left.db }) left.answer

-- `zone_view`: any user sees any zone.
unfoldable pub zone_view : Site → Option Bytes → ℕ → Session → GoatState → Handled ZonePage
unfolding when_logged_in check_logged_in zone_asked ask
zone_view site path id session st =
    when_logged_in st (check_logged_in session path)
      (λ session user. zone_asked session user st (ask site (Command.get_zone (some id) none) st))

-- `dashboard`
unfoldable pub dashboard : Option Bytes → Session → GoatState → Handled ZonePage
unfolding when_logged_in check_logged_in
dashboard path session st = when_logged_in st (check_logged_in session path) (λ session user.
    record { session = session; state = st; answer = page (dashboard_page user.admin) })

-- `user_profile_get`
unfoldable pub user_profile_get : Option Bytes → Session → GoatState → Handled ZonePage
unfolding when_logged_in check_logged_in
user_profile_get path session st = when_logged_in st (check_logged_in session path) (λ session user.
    record { session = session; state = st; answer = page (profile_page user user.admin) })
