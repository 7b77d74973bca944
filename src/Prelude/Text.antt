-- ===== src/Prelude/Text.antt =====
-- Byte strings. A Rust `String`, `&str` or `Vec<u8>` that the code walks is the list of its bytes.
use Prim.Native.Char.{code}
use Prim.Native.Nat.{ℕ, compare, Ordering}
use Prim.Native.String.{String}
use mathlib.Core.Path.{◌≡◌}
use mathlib.Core.Logic.{◌↔◌}
use mathlib.Core.Bool.{Bool, true, false, ◌&&◌}
use mathlib.Core.List.{List, [], ◌∷◌}
use native.Mathlib.Omega.{arith}

abbrev pub Bytes : Type 0
Bytes = List ℕ

-- The bytes of an ASCII text.
abbrev pub codes : String → Bytes
codes String.[] = []
codes (String.◌∷◌ c s) = code c ∷ codes s

byte_eq : ℕ → ℕ → Bool
byte_eq a b = elim (compare a b) [ Ordering.eq ↦ true | _ ↦ false ]

-- `==` on `Vec<u8>`, `&[u8]` and `String`.
unfoldable pub equal : Bytes → Bytes → Bool
unfolding byte_eq
equal [] [] = true
equal (x ∷ xs) (y ∷ ys) = byte_eq x y && equal xs ys
equal _ _ = false

-- `equal` decides equality.
pub equal_iff : (left right : Bytes) → (equal left right ≡ true) ↔ (left ≡ right)
unfolding equal
equal_iff (b ∷ left) (c ∷ right) = ground (arith, equal_iff left right)
equal_iff _ _ = ground arith
