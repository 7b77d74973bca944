-- ===== src/Utf8.antt =====
-- What src/ uses of Rust's text: `from_utf8` is the test of well-formed UTF-8 (Unicode, table 3-7).
-- `str::to_lowercase` follows the Unicode tables, so it is a parameter, with its documented effect
-- on ASCII text as the law.
use goatns.Prelude.{
  ℕ, zero, suc, ◌+◌, ◌<◌, Bool, true, false, ◌&&◌, Option, none, some, ◌≡◌, refl, [], ◌∷◌, map,
  arith, ltb, leb, ◌==◌, if◌then◌else◌, All, length, Bytes, ap,
}

-- How many bytes follow a first byte, and the range of the next one.
lead : ℕ → Option (ℕ × ℕ × ℕ)
lead b =
    if ltb b 0x80
    then some (0, 0x80, 0xbf)
    else if leb 0xc2 b && leb b 0xdf
    then some (1, 0x80, 0xbf)
    else if b == 0xe0
    then some (2, 0xa0, 0xbf)
    else if b == 0xed
    then some (2, 0x80, 0x9f)
    else if leb 0xe1 b && leb b 0xef
    then some (2, 0x80, 0xbf)
    else if b == 0xf0
    then some (3, 0x90, 0xbf)
    else if b == 0xf4
    then some (3, 0x80, 0x8f)
    else if leb 0xf1 b && leb b 0xf3
    then some (3, 0x80, 0xbf)
    else none

utf8_from : ℕ → ℕ → ℕ → Bytes → Bool
unfolding lead
utf8_from zero lo hi [] = true
utf8_from (suc n) lo hi [] = false
utf8_from zero lo hi (b ∷ bs) = elim (lead b) [
  | none ↦ false
  | some (n, lo', hi') ↦ utf8_from n lo' hi' bs
]
utf8_from (suc n) lo hi (b ∷ bs) =
    let rest = utf8_from n 0x80 0xbf bs in if leb lo b && leb b hi then rest else false

-- Does `from_utf8` succeed?
unfoldable pub is_utf8 : Bytes → Bool
unfolding utf8_from
is_utf8 bs = utf8_from 0 0x80 0xbf bs

abbrev pub IsAscii : ℕ → Type 0
IsAscii b = b < 0x80

utf8_from_ascii : (bs : Bytes) → All IsAscii bs → utf8_from 0 0x80 0xbf bs ≡ true
unfolding utf8_from
utf8_from_ascii [] h = refl
utf8_from_ascii (b ∷ bs) (g, h) = ground (arith, utf8_from_ascii bs h)

pub is_utf8-ascii : (bs : Bytes) → All IsAscii bs → is_utf8 bs ≡ true
unfolding is_utf8
is_utf8-ascii = utf8_from_ascii

unfoldable pub ascii_lower : ℕ → ℕ
ascii_lower b = if leb b'A' b && leb b b'Z' then b + 32 else b

pub record Lowercase : Type 0 where
  pub to_lowercase : Bytes → Bytes
  pub on_ascii : (s : Bytes) → All IsAscii s → to_lowercase s ≡ map ascii_lower s

-- The law can be met.
abbrev pub ascii_lowercase : Lowercase
ascii_lowercase = record { to_lowercase = map ascii_lower; on_ascii = λ s h. refl }

-- Text with no capital letter.
abbrev pub IsLower : ℕ → Type 0
IsLower b = IsAscii b × (ascii_lower b ≡ b)

pub map-ascii_lower : (s : Bytes) → All IsLower s → map ascii_lower s ≡ s
map-ascii_lower [] h = refl
map-ascii_lower (b ∷ s) (g, h) = ground (arith, map-ascii_lower s h)

pub All-IsLower-IsAscii : (s : Bytes) → All IsLower s → All IsAscii s
All-IsLower-IsAscii [] h = tt
All-IsLower-IsAscii (b ∷ s) (g, h) = (g.0, All-IsLower-IsAscii s h)

pub length-map-ascii_lower : (s : Bytes) → length (map ascii_lower s) ≡ length s
length-map-ascii_lower [] = refl
length-map-ascii_lower (b ∷ s) = ap suc (length-map-ascii_lower s)

pub All-IsAscii-map : (bs : Bytes) → All IsAscii bs → All IsAscii (map ascii_lower bs)
unfolding ascii_lower
All-IsAscii-map [] h = tt
All-IsAscii-map (b ∷ bs) (g, h) = (ground arith, All-IsAscii-map bs h)
