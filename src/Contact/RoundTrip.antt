-- ===== src/Contact/RoundTrip.antt =====
-- Texts for contacts and what is read from them, `ContactDetails` of src/enums.rs.
use goatns.Prelude.{
  ℕ, true, false, none, some, ◌≡◌, refl, ap, ◌∙◌, [], ◌∷◌, ◌++◌, ◌==◌, ==_iff, All, All-append,
  Bytes, codes, equal, arith,
}
use goatns.Contact.{
  ContactDetails, Parsed, split_once, trim_start, mastodon_from, by_contact_type, contact_pieces,
  contact_from,
}

-- The text has no byte `c`.
abbrev pub Lacks : ℕ → Bytes → Type 0
Lacks c s = All (λ b. (b == c) ≡ false) s

pub split_once-here :
    (c : ℕ) (s behind : Bytes) → Lacks c s → split_once c (s ++ (c ∷ behind)) ≡ (s, some behind)
unfolding split_once
split_once-here c [] behind h = rw ((==_iff c c).1 refl) refl
split_once-here c (b ∷ s) behind (h, hs) = rw (h, split_once-here c s behind hs) refl

pub split_once-whole : (c : ℕ) (s : Bytes) → Lacks c s → split_once c s ≡ (s, none)
unfolding split_once
split_once-whole c [] h = refl
split_once-whole c (b ∷ s) (h, hs) = rw (h, split_once-whole c s hs) refl

trim_start-first : (c : ℕ) (b : ℕ) (s : Bytes) → (b == c) ≡ false → trim_start c (b ∷ s) ≡ b ∷ s
unfolding trim_start
trim_start-first c b s h = rw h refl

trim_start-lead :
    (c : ℕ) (lead s : Bytes)
    → All (λ b. (b == c) ≡ true) lead
    → trim_start c (lead ++ s) ≡ trim_start c s
unfolding trim_start
trim_start-lead c [] s h = refl
trim_start-lead c (b ∷ lead) s (h, hs) = rw h (trim_start-lead c lead s hs)

Lacks-append : (c : ℕ) (s t : Bytes) → Lacks c s → Lacks c t → Lacks c (s ++ t)
Lacks-append c s t h k = All-append (λ b. (b == c) ≡ false) s t h k

lead-Lacks : (lead : Bytes) → All (λ b. (b == 64) ≡ true) lead → Lacks 58 lead
lead-Lacks [] h = tt
lead-Lacks (b ∷ lead) (h, hs) = (ground arith, lead-Lacks lead hs)

-- A contact on Mastodon is read back: `Mastodon:`, any number of `@`, the name, an `@` and the server are
-- read as the name and the server, where the name is not empty and neither has a colon or an `@`.
pub contact_from-mastodon :
    (lead : Bytes) (b : ℕ) (name server : Bytes)
    → All (λ b. (b == 64) ≡ true) lead
    → Lacks 58 (b ∷ name)
    → Lacks 58 server
    → Lacks 64 (b ∷ name)
    → Lacks 64 server
    → contact_from (codes "Mastodon:" ++ (lead ++ ((b ∷ name) ++ (64 ∷ server))))
      ≡ Parsed.parsed (ContactDetails.mastodon (b ∷ name) server)
unfolding contact_from contact_pieces by_contact_type mastodon_from equal
contact_from-mastodon lead b name server ats colon_name colon_server at_name at_server =
    let handle : Bytes = (b ∷ name) ++ (64 ∷ server) in
    let colon : Lacks 58 (lead ++ handle) =
      Lacks-append 58 lead handle (lead-Lacks lead ats)
        (Lacks-append 58 (b ∷ name) (64 ∷ server) colon_name (refl, colon_server)) in
    ap contact_pieces (
      split_once-here 58 (codes "Mastodon") (lead ++ handle)
        (refl, (refl, (refl, (refl, (refl, (refl, (refl, (refl, tt)))))))))
    ∙ ap (λ p. by_contact_type (codes "Mastodon") (p.0))
        (split_once-whole 58 (lead ++ handle) colon)
    ∙ ap (λ s. mastodon_from (split_once 64 s))
        (trim_start-lead 64 lead handle ats
          ∙ trim_start-first 64 b (name ++ (64 ∷ server)) at_name.0)
    ∙ ap mastodon_from (split_once-here 64 (b ∷ name) server at_name)
    ∙ ap (λ p. Parsed.parsed (ContactDetails.mastodon (b ∷ name) (p.0)))
        (split_once-whole 64 server at_server)
