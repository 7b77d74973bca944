-- ===== src/Name/Defects.antt =====
-- The classes of names that name_as_bytes of src/utils.rs does not write faithfully.
use goatns.Prelude.{
  ℕ, ◌+◌, ◌-◌, ◌%◌, ◌<◌, true, false, some, ◌≡◌, ◌≢◌, refl, sym, ap, subst, inl, inr, [], ◌∷◌, ◌++◌,
  arith, ◌==◌, Bool-cases, length, take, length-append, ok, Bytes, equal, equal_iff,
}
use goatns.Name.{
  pointer, pieces_of, contains, ends_with, find_tail_from, find_tail_match, name_as_bytes,
  header_bytes,
}
use goatns.Name.Wire.{Reads, root, IsName, encode, conversion-encode}
use goatns.Name.Branches.{longer_ne, take_front}
use goatns.Name.Compress.{ends_with-append, not_ends_with, last_differs}
use goatns.Name.RoundTrip.{HasQuestion, Reads-whole, Reads-pointer}

longer_not_ends_with : (name tail : Bytes) → length name < length tail → ends_with name tail ≡ false
unfolding ends_with
longer_not_ends_with name tail h = ground arith

find_tail_from-parent :
    (i : ℕ) (q name : Bytes) → 0 < length name → find_tail_from i name (q ++ name) ≡ i + length q
unfolding find_tail_from
find_tail_from-parent i [] [] h = absurd (omega arith)
find_tail_from-parent i [] (c ∷ name) h = ground (arith, ends_with-append [] (c ∷ name))
find_tail_from-parent i (c ∷ q) name h = ground (
  arith,
  longer_not_ends_with name (c ∷ (q ++ name)) (omega (arith, length-append q name)),
  find_tail_from-parent (i + 1) q name h,
)

find_tail_match-parent :
    (q name : Bytes) → 0 < length name → find_tail_match name (q ++ name) ≡ length q
unfolding find_tail_match
find_tail_match-parent q name h = omega (arith, find_tail_from-parent 0 q name h)

shorter_ne : (name ct : Bytes) → length name < length ct → equal name ct ≡ false
shorter_ne name ct h = elim (Bool-cases (equal name ct)) [
  | inl e ↦ absurd (omega (arith, ap length ((equal_iff name ct).0 e)))
  | inr e ↦ e
]

nonzero : (n : ℕ) → 0 < n → (n == 0) ≡ false
nonzero n h = ground arith

name-nonempty : (name : Bytes) → contains 46 name ≡ true → 0 < length name
unfolding contains
name-nonempty [] h = absurd (cc)
name-nonempty (c ∷ name) h = omega arith

-- A name that is a proper end of the question's name is written as the root, with a pointer
-- behind it: the packet spells no label at all.
pub parent_is_root :
    (msg name q rest : Bytes)
    → IsName name
    → contains 46 name ≡ true
    → 0 < length q
    → (out : Bytes) × (name_as_bytes name (some header_bytes) (some (q ++ name)) ≡ ok out)
      × Reads msg (out ++ rest) []
unfolding name_as_bytes
parent_is_root msg name q rest h c pos =
    let shorter : length name < length (q ++ name) = omega (arith, length-append q name) in
    (
      0 ∷ pointer ((header_bytes + length q + 1) % 0x10000),
      rw (
        c,
        conversion-encode name h,
        shorter_ne name (q ++ name) shorter,
        longer_not_ends_with name (q ++ name) shorter,
        find_tail_match-parent q name (name-nonempty name c),
        nonzero (length q) pos,
        take_none name q,
      ),
      root (pointer ((header_bytes + length q + 1) % 0x10000) ++ rest) refl,
    )
  where
    take_none : (name q : Bytes) → take (length name - (length (q ++ name) - length q)) name ≡ []
    take_none name q = ap (λ k. take k name) {y = 0} (omega (arith, length-append q name))

find_tail_from-apart :
    (i : ℕ) (front q : Bytes) (x y : ℕ)
    → x ≢ y
    → find_tail_from i (front ++ (x ∷ [])) (q ++ (y ∷ [])) ≡ 0
unfolding find_tail_from
find_tail_from-apart i front [] x y ne = ground (arith, not_ends_with front [] [] x y ne)
find_tail_from-apart i front (c ∷ q) x y ne =
    ground
      (arith, not_ends_with front (c ∷ q) [] x y ne, find_tail_from-apart (i + 1) front q x y ne)

-- A name with a dot that shares no byte at its end with the question's name is written without
-- the root label that should close it.
pub apart_unterminated :
    (front q : Bytes) (x y : ℕ)
    → x ≢ y
    → IsName (front ++ (x ∷ []))
    → contains 46 (front ++ (x ∷ [])) ≡ true
    → name_as_bytes (front ++ (x ∷ [])) (some header_bytes) (some (q ++ (y ∷ [])))
      ≡ ok (encode (pieces_of 46 (front ++ (x ∷ []))))
unfolding name_as_bytes find_tail_match
apart_unterminated front q x y ne h c = rw (
  c,
  conversion-encode (front ++ (x ∷ [])) h,
  unequal,
  not_ends_with front q [] x y ne,
  find_tail_from-apart 0 front q x y ne,
)
  where
    unequal : equal (front ++ (x ∷ [])) (q ++ (y ∷ [])) ≡ false
    unequal = elim (Bool-cases (equal (front ++ (x ∷ [])) (q ++ (y ∷ [])))) [
      | inl e ↦ absurd (ne (last_differs front q [] x y ((equal_iff _ _).0 e)))
      | inr e ↦ e
    ]

-- A name that ends with the question's name inside a label is spelled with one label more: the
-- part in front of the question's name becomes a name of its own.
pub glued_splits :
    (msg front qname rest : Bytes)
    → IsName (front ++ qname)
    → IsName front
    → IsName qname
    → contains 46 (front ++ qname) ≡ true
    → HasQuestion msg qname
    → (out : Bytes) × (name_as_bytes (front ++ qname) (some header_bytes) (some qname) ≡ ok out)
      × Reads msg (out ++ rest) (pieces_of 46 front ++ pieces_of 46 qname)
      × (length (pieces_of 46 front ++ pieces_of 46 qname)
          ≡ length (pieces_of 46 (front ++ qname)) + 1)
unfolding name_as_bytes
glued_splits msg front qname rest h hf k c (more, at) = (
  encode (pieces_of 46 front) ++ pointer header_bytes,
  rw (
    c,
    conversion-encode (front ++ qname) h,
    longer_ne (front ++ qname) qname (omega (arith, length-append front qname, nonempty front hf)),
    ends_with-append front qname,
    take_front front qname,
    conversion-encode front hf,
  ),
  Reads-pointer msg (pieces_of 46 front) (pieces_of 46 qname) header_bytes rest hf (omega arith) (
      subst (λ bs. Reads msg bs (pieces_of 46 qname)) (sym at)
        (Reads-whole msg (pieces_of 46 qname) more k)),
  length-pieces_of-append front qname,
)
  where
    nonempty : (l : Bytes) → IsName l → 0 < length l
    nonempty [] h = absurd (omega arith)
    nonempty (c ∷ l) h = omega arith

    length-pieces_of-append :
        (front b : Bytes)
        → length (pieces_of 46 front ++ pieces_of 46 b) ≡ length (pieces_of 46 (front ++ b)) + 1
    length-pieces_of-append [] b = omega arith
    length-pieces_of-append (c ∷ l) b = elim (Bool-cases (c == 46)) [
      | inl e ↦ rw e (omega (arith, length-pieces_of-append l b))
      | inr e ↦ rw e (omega (arith, length-pieces_of-append l b))
    ]
