-- ===== src/Web/NewZone.antt =====
-- The handler zones_new_post of src/web/ui/zones.rs.
pub mod Created
use goatns.Prelude.{
  ℕ, Bool, true, false, not, Option, none, some, [], ◌∷◌, ◌++◌, map, ◌==◌, if◌then◌else◌, Bytes,
  codes,
}
use goatns.Zone.{FileZone}
use goatns.Database.Users.{User}
use goatns.Manager.{Command, Answer, Message}
use goatns.Web.{
  Urls, redirect, redirect_to, Session, GoatState, Handled, sent, when_logged_in, check_logged_in,
}
use goatns.Web.Pages.{Site, ZonePage, dns_name, ask, home_error}

unfoldable pub is_empty : Bytes → Bool
is_empty [] = true
is_empty (b ∷ s) = false

-- `replace("@", ".")`
unfoldable pub at_replaced : Bytes → Bytes
at_replaced s = map (λ b. if b == 64 then 46 else b) s

unfoldable pub new_zone : Bytes → Bytes → FileZone
unfolding at_replaced
new_zone name email = record {
  id = none;
  name = name;
  rname = at_replaced email;
  serial = 0;
  refresh = 0;
  retry = 0;
  expire = 0;
  minimum = 0;
  records = [];
}

unfoldable pub zone_address : Site → Session → GoatState → Option ℕ → Handled ZonePage
unfolding redirect
zone_address site session st none = sent session st Urls.zones_list
zone_address site session st (some id) = record {
  session = session;
  state = st;
  answer = redirect_to (codes "/ui/zones/" ++ site.number id);
}

unfoldable pub created_answer : Site → Session → GoatState → Option Answer → Handled ZonePage
unfolding redirect zone_address
created_answer site session st (some (Answer.zone_created zone)) =
    zone_address site session st zone.id
created_answer site session st _ = home_error session st (codes "Error creating zone!")

unfoldable pub created : Site → Session → GoatState → Option Message → Handled ZonePage
unfolding created_answer
created site session st none = home_error session st (codes "Error creating zone!")
created site session st (some left) =
    created_answer site session (record st { db = left.db }) left.answer

unfoldable pub create : Site → Bytes → Bytes → ℕ → Session → GoatState → Handled ZonePage
unfolding is_empty created ask new_zone
create site name email userid session st =
    if is_empty email
    then home_error session st
        (codes "No email associate with your account, please update your profile!")
    else created site session st (ask site (Command.create_zone (new_zone name email) userid) st)

unfoldable pub unless_found :
    Site → Bytes → Bytes → ℕ → Session → GoatState → Option Answer → Handled ZonePage
unfolding create
unless_found site name email userid session st (some (Answer.zone_found none)) =
    create site name email userid session st
unless_found site name email userid session st (some (Answer.zone_found (some zone))) =
    home_error session st (codes "Zone already exists!")
unless_found site name email userid session st _ =
    home_error session st (codes "Error checking if zone exists... please try again.")

unfoldable pub checked :
    Site → Bytes → Bytes → ℕ → Session → GoatState → Option Message → Handled ZonePage
unfolding unless_found
checked site name email userid session st none =
    home_error session st (codes "Error checking if zone exists... please try again.")
checked site name email userid session st (some left) =
    unless_found site name email userid session (record st { db = left.db }) left.answer

unfoldable pub named : Site → Bytes → Bytes → ℕ → Session → GoatState → Handled ZonePage
unfolding is_empty dns_name checked ask
named site name email userid session st =
    if is_empty name
    then home_error session st (codes "Zone name cannot be empty!")
    else if not (dns_name site.all_alphanumeric name)
    then home_error session st (codes "Invalid DNS name")
    else checked site name email userid session st (ask site (Command.get_zone none (some name)) st)

unfoldable pub for_user : Site → Bytes → Bytes → Session → GoatState → Option ℕ → Handled ZonePage
unfolding named
for_user site name email session st none = home_error session st (codes "No user ID found")
for_user site name email session st (some userid) = named site name email userid session st

-- `zones_new_post`, with the name of the form
unfoldable pub zones_new_post : Site → Option Bytes → Bytes → Session → GoatState → Handled ZonePage
unfolding when_logged_in check_logged_in for_user
zones_new_post site path name session st =
    when_logged_in st (check_logged_in session path)
      (λ session user. for_user site name user.email session st user.id)
