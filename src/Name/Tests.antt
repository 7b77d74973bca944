-- ===== src/Name/Tests.antt =====
-- Runs of the source's own tests (src/tests/utils.rs), and of names that the encoder spoils.
use goatns.Prelude.{◌≡◌, refl, false, true, none, some, [], ◌∷◌, ok, codes}
use goatns.Name.{name_as_bytes, find_tail_match, check_valid_tld}

no_compress :
    name_as_bytes (codes "example.com") none none
    ≡ ok (7 ∷ 101 ∷ 120 ∷ 97 ∷ 109 ∷ 112 ∷ 108 ∷ 101 ∷ 3 ∷ 99 ∷ 111 ∷ 109 ∷ 0 ∷ [])
unfolding name_as_bytes
no_compress = refl

simple_compress : name_as_bytes (codes "example.com") (some 12) none ≡ ok (192 ∷ 12 ∷ [])
unfolding name_as_bytes
simple_compress = refl

with_compression :
    name_as_bytes (codes "lol.example.com") (some 12) (some (codes "example.com"))
    ≡ ok (3 ∷ 108 ∷ 111 ∷ 108 ∷ 192 ∷ 12 ∷ [])
unfolding name_as_bytes
with_compression = refl

with_tail_compression :
    name_as_bytes (codes "lol.example.com") (some 12) (some (codes "ns1.example.com"))
    ≡ ok (3 ∷ 108 ∷ 111 ∷ 108 ∷ 192 ∷ 16 ∷ [])
unfolding name_as_bytes
with_tail_compression = refl

tail_match : find_tail_match (codes "foo.example.com") (codes "zot.example.com") ≡ 3
unfolding find_tail_match
tail_match = refl

no_tail_match : find_tail_match (codes "foo.yeanah.xyz") (codes "zot.example.com") ≡ 0
unfolding find_tail_match
no_tail_match = refl

valid_tld :
    (check_valid_tld (codes "hello.example.goat") (codes "goat" ∷ []) ≡ true)
    × (check_valid_tld (codes "hello.example.happygoat") (codes "goat" ∷ []) ≡ false)
unfolding check_valid_tld
valid_tld = (refl, refl)

parent_of_question :
    name_as_bytes (codes "example.com") (some 12) (some (codes "www.example.com"))
    ≡ ok (0 ∷ 192 ∷ 17 ∷ [])
unfolding name_as_bytes
parent_of_question = refl
