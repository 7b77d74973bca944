-- ===== src/Contact.antt =====
-- `ContactDetails` of src/enums.rs: reading them from the configuration and showing them on a page.
pub mod RoundTrip
use goatns.Prelude.{
  ℕ, Bool, true, false, not, ◌||◌, Option, none, some, List, [], ◌∷◌, ◌++◌, ◌==◌, if◌then◌else◌,
  Bytes, equal, codes,
}

pub data ContactDetails : Type 0 where
  mastodon : Bytes → Bytes → ContactDetails
  email twitter : Bytes → ContactDetails
  no_contact : ContactDetails

-- `ContactDetailsDeserializerError`
pub data ContactError : Type 0 where
  input_length_wrong input_format_wrong wrong_contact_type : ContactError

pub data Parsed : Type 0 where
  parsed : ContactDetails → Parsed
  refused : ContactError → Parsed

-- The first piece of `split(c)`, and what is behind the separator, if there is one.
unfoldable pub split_once : ℕ → Bytes → Bytes × Option Bytes
split_once c [] = ([], none)
split_once c (b ∷ s) =
    let rest = split_once c s in if b == c then ([], some s) else (b ∷ rest.0, rest.1)

-- `trim_start_matches`
unfoldable pub trim_start : ℕ → Bytes → Bytes
trim_start c [] = []
trim_start c (b ∷ s) = let rest = trim_start c s in if b == c then rest else b ∷ s

-- `contact:` before the first `@`, `server:` up to the second one.
unfoldable pub mastodon_from : Bytes × Option Bytes → Parsed
unfolding split_once
mastodon_from (contact, none) = Parsed.refused ContactError.input_format_wrong
mastodon_from (contact, some behind) =
    Parsed.parsed (ContactDetails.mastodon contact (split_once 64 behind).0)

unfoldable pub by_contact_type : Bytes → Bytes → Parsed
unfolding equal mastodon_from split_once trim_start
by_contact_type contact_type contact_value =
    if equal contact_type (codes "Mastodon")
    then mastodon_from (split_once 64 (trim_start 64 contact_value))
    else if equal contact_type (codes "Email")
    then Parsed.parsed (ContactDetails.email contact_value)
    else if equal contact_type (codes "Twitter")
    then Parsed.parsed (ContactDetails.twitter contact_value)
    else Parsed.refused ContactError.wrong_contact_type

-- The first two pieces between colons: what is behind a second colon is left out.
unfoldable pub contact_pieces : Bytes × Option Bytes → Parsed
unfolding by_contact_type split_once
contact_pieces (contact_type, none) = Parsed.refused ContactError.input_length_wrong
contact_pieces (contact_type, some behind) = by_contact_type contact_type (split_once 58 behind).0

-- `TryFrom<String> for ContactDetails`
unfoldable pub contact_from : Bytes → Parsed
unfolding contact_pieces split_once
contact_from value = contact_pieces (split_once 58 value)

-- `ContactDetails::to_html_parts`
unfoldable pub to_html_parts : ContactDetails → Bytes × Bytes
to_html_parts (ContactDetails.mastodon contact server) =
    (contact, codes "https://" ++ (server ++ (codes "/@" ++ contact)))
to_html_parts (ContactDetails.email contact) = (contact, codes "mailto:" ++ contact)
to_html_parts (ContactDetails.twitter contact) = (contact, codes "https://twitter.com/" ++ contact)
to_html_parts ContactDetails.no_contact = ([], [])

-- A link with the URL and the text.
link : Bytes → Bytes → Bytes
link url text = codes "<a href=\"" ++ (url ++ (codes "\">" ++ (text ++ codes "</a>")))

-- `Display for ContactDetails`
unfoldable pub contact_to_string : ContactDetails → Bytes
unfolding link
contact_to_string (ContactDetails.mastodon contact server) =
    link (codes "https://" ++ (server ++ (codes "/@" ++ contact))) contact
contact_to_string (ContactDetails.email contact) = link (codes "mailto:" ++ contact) contact
contact_to_string (ContactDetails.twitter contact) =
    link (codes "https://twitter.com/" ++ contact) contact
contact_to_string ContactDetails.no_contact = []
