-- ===== src/Name/Wire.antt =====
-- Names in a packet as RFC 1035 4.1.4 reads them, described without the code: labels, the root and
-- pointers; and what the labels of a dotted name look like there.
use Prim.Native.Nat.{bit_or}
use goatns.Prelude.{
  ℕ, zero, suc, ◌+◌, ◌/◌, ◌%◌, ◌≤◌, ◌<◌, Bool, true, ◌≡◌, refl, ap, ◌∙◌, List, [], ◌∷◌, ◌++◌, ◌&&◌,
  append_assoc, arith, inl, inr, ◌==◌, Bool-cases, length, drop, All, ok, Bytes,
}
use goatns.Name.{seven_dot_three_conversion, pointer, pieces_of}
use goatns.Name.Labels.{encode_label, encode_rest, conversion-labels}

-- `bs`, standing somewhere in the packet `msg`, spells the labels `ls`.
pub data Reads (msg : Bytes) : Bytes → List Bytes → Type 0 where
  root : {bs : Bytes} (rest : Bytes) → bs ≡ 0 ∷ rest → Reads msg bs []
  label :
      {bs : Bytes} {ls : List Bytes} (l rest : Bytes)
      → 0 < length l
      → length l ≤ 63
      → bs ≡ length l ∷ (l ++ rest)
      → Reads msg rest ls
      → Reads msg bs (l ∷ ls)
  jump :
      {bs : Bytes} {ls : List Bytes} (offset : ℕ) (rest : Bytes)
      → offset < 0x4000
      → bs ≡ (192 + offset / 256) ∷ (offset % 256) ∷ rest
      → Reads msg (drop offset msg) ls
      → Reads msg bs ls

abbrev pub IsLabel : Bytes → Type 0
IsLabel l = (0 < length l) × (length l ≤ 63)

-- A dotted name whose labels have 1 to 63 bytes each.
abbrev pub IsName : Bytes → Type 0
IsName name = All IsLabel (pieces_of 46 name)

abbrev pub encode : List Bytes → Bytes
encode [] = []
encode (l ∷ ls) = length l ∷ (l ++ encode ls)

pub encode-append : (ks ls : List Bytes) → encode (ks ++ ls) ≡ encode ks ++ encode ls
encode-append [] ls = refl
encode-append (k ∷ ks) ls = simp (encode-append ks ls, append_assoc)

pub Reads-encode :
    {msg rest : Bytes} {ms : List Bytes} (ls : List Bytes)
    → All IsLabel ls
    → Reads msg rest ms
    → Reads msg (encode ls ++ rest) (ls ++ ms)
Reads-encode [] h r = r
Reads-encode {rest = rest} (l ∷ ls) (g, h) r =
    label l (encode ls ++ rest) g.0 g.1 (ap (◌∷◌ (length l)) (append_assoc l (encode ls) rest))
      (Reads-encode ls h r)

pub encode_rest-encode : (ls : List Bytes) → All IsLabel ls → encode_rest ls ≡ encode ls
unfolding encode_rest
encode_rest-encode [] h = refl
encode_rest-encode ([] ∷ ls) h = absurd (omega arith)
encode_rest-encode ((c ∷ l) ∷ ls) (g, h) =
    rw (encode_rest-encode ls h) (ap (λ n. n ∷ ((c ∷ l) ++ encode ls)) (omega arith))

encode_rest-concat : (ls : List Bytes) → encode_rest (ls ++ ([] ∷ [])) ≡ encode_rest ls
unfolding encode_rest
encode_rest-concat [] = refl
encode_rest-concat ([] ∷ ls) = encode_rest-concat ls
encode_rest-concat ((c ∷ l) ∷ ls) = ap (λ t. encode_label (c ∷ l) ++ t) (encode_rest-concat ls)

-- What the conversion writes, over the list of labels.
encode_pieces : List Bytes → Bytes
encode_pieces [] = []
encode_pieces (p ∷ ps) = encode_label p ++ encode_rest ps

encode_pieces-encode : (ls : List Bytes) → All IsLabel ls → encode_pieces ls ≡ encode ls
unfolding encode_pieces
encode_pieces-encode [] h = refl
encode_pieces-encode (l ∷ ls) (g, h) =
    rw (encode_rest-encode ls h) (ap (λ n. n ∷ (l ++ encode ls)) (omega arith))

encode_pieces-concat :
    (l : Bytes) (ls : List Bytes) → encode_pieces ((l ∷ ls) ++ ([] ∷ [])) ≡ encode_pieces (l ∷ ls)
unfolding encode_pieces
encode_pieces-concat l ls = ap (λ t. encode_label l ++ t) (encode_rest-concat ls)

conversion-encode_pieces :
    (name : Bytes) → seven_dot_three_conversion name ≡ ok (encode_pieces (pieces_of 46 name))
unfolding encode_pieces
conversion-encode_pieces = conversion-labels

-- A well-formed name is converted to its labels.
pub conversion-encode :
    (name : Bytes) → IsName name → seven_dot_three_conversion name ≡ ok (encode (pieces_of 46 name))
conversion-encode name h = rw (conversion-encode_pieces, encode_pieces-encode (pieces_of 46 name) h)

pub pieces_of-append :
    (front back : Bytes)
    → pieces_of 46 (front ++ (46 ∷ back)) ≡ pieces_of 46 front ++ pieces_of 46 back
pieces_of-append [] back = refl
pieces_of-append (c ∷ front) back = elim (Bool-cases (c == 46)) [
  | inl e ↦ rw e (ap (◌∷◌ []) (pieces_of-append front back))
  | inr e ↦ rw e (ground (arith, pieces_of-append front back))
]

pub length-encode : (name : Bytes) → length (encode (pieces_of 46 name)) ≡ length name + 1
length-encode [] = omega arith
length-encode (c ∷ name) = elim (Bool-cases (c == 46)) [
  | inl e ↦ rw e (omega (arith, length-encode name))
  | inr e ↦ rw e (omega (arith, length-encode name))
]

-- A dot at the end of a well-formed name adds nothing.
pub conversion_trailing_dot :
    (front : Bytes)
    → IsName front
    → seven_dot_three_conversion (front ++ (46 ∷ [])) ≡ ok (encode (pieces_of 46 front))
conversion_trailing_dot front h =
    conversion-encode_pieces (front ++ (46 ∷ []))
    ∙ ap (λ ls. ok (encode_pieces ls)) (pieces_of-append front [])
    ∙ ap ok (encode_pieces-concat _ _ ∙ encode_pieces-encode (pieces_of 46 front) h)

pub conversion_empty : seven_dot_three_conversion [] ≡ ok (0 ∷ [])
unfolding seven_dot_three_conversion
conversion_empty = refl

agree_below : ℕ → Bool
agree_below zero = true
agree_below (suc n) = bit_or 0xc000 n == 0xc000 + n && agree_below n

agree_below-lem : (n i : ℕ) → agree_below n ≡ true → i < n → bit_or 0xc000 i ≡ 0xc000 + i
unfolding agree_below
agree_below-lem zero i e h = absurd (omega arith)
agree_below-lem (suc n) i e h = ground (arith, agree_below-lem n i)

pub bit_or_pointer : (offset : ℕ) → offset < 0x4000 → bit_or 0xc000 offset ≡ 0xc000 + offset
unfolding agree_below
bit_or_pointer offset h = agree_below-lem 0x4000 offset refl h

pub pointer_bytes :
    (offset : ℕ) → offset < 0x4000 → pointer offset ≡ (192 + offset / 256) ∷ (offset % 256) ∷ []
pointer_bytes offset h = rw (bit_or_pointer offset h) (ground arith)
