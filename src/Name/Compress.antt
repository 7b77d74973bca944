-- ===== src/Name/Compress.antt =====
-- name_as_bytes of src/utils.rs read back from the packet it is written into: where compression
-- keeps the name.
use goatns.Prelude.{
  ℕ, ◌+◌, ◌-◌, true, false, ◌≡◌, ◌≢◌, sym, ap, ◌∙◌, inl, inr, [], ◌∷◌, ◌++◌, append_assoc, arith,
  Bool-cases, length, drop, take, length-append, drop-append, take-append-drop, Bytes, equal_iff,
}
use goatns.Name.{ends_with, find_tail_from, find_tail_match}

pub ends_with-append : (front tail : Bytes) → ends_with (front ++ tail) tail ≡ true
unfolding ends_with
ends_with-append front tail =
    let n : ℕ = length (front ++ tail) - length tail in
    let e : n ≡ length front = omega (arith, length-append front tail) in
    ground (
      arith,
      length-append front tail,
      ap (λ k. drop k (front ++ tail)) e,
      drop-append front tail,
      equal_iff tail tail,
    )

-- What `ends_with` finds is the end of the name.
pub ends_with_split :
    (name tail : Bytes) → ends_with name tail ≡ true → (front : Bytes) × (name ≡ front ++ tail)
unfolding ends_with
ends_with_split name tail h = (
  take (length name - length tail) name,
  sym (take-append-drop n name)
      ∙ ap (λ t. take n name ++ t) ((equal_iff (drop n name) tail).0 (ground arith)),
)
  where
    n : ℕ
    n = length name - length tail

pub last_differs : (p q s : Bytes) (x y : ℕ) → p ++ (x ∷ s) ≡ q ++ (y ∷ s) → x ≡ y
last_differs [] [] s x y h = cc
last_differs [] (d ∷ q) s x y h = absurd (omega (arith, ap length h, length-append q (y ∷ s)))
last_differs (c ∷ p) [] s x y h = absurd (omega (arith, ap length h, length-append p (x ∷ s)))
last_differs (c ∷ p) (d ∷ q) s x y h = last_differs p q s x y (ground arith)

-- Two names that differ in the byte before a shared end do not share a longer one.
pub not_ends_with :
    (front q s : Bytes) (x y : ℕ) → x ≢ y → ends_with (front ++ (x ∷ s)) (q ++ (y ∷ s)) ≡ false
not_ends_with front q s x y ne = elim (Bool-cases (ends_with (front ++ (x ∷ s)) (q ++ (y ∷ s)))) [
  | inl e ↦
      let (z, split_at) = ends_with_split (front ++ (x ∷ s)) (q ++ (y ∷ s)) e in
      absurd (ne (last_differs front (z ++ q) s x y (split_at ∙ sym (append_assoc z q (y ∷ s)))))
  | inr e ↦ e
]

find_tail_from-shared :
    (i : ℕ) (front q b : Bytes) (x y : ℕ)
    → x ≢ y
    → find_tail_from i (front ++ (x ∷ 46 ∷ b)) (q ++ (y ∷ 46 ∷ b)) ≡ i + length q + 1
unfolding find_tail_from
find_tail_from-shared i front [] b x y ne = ground (
  arith,
  not_ends_with front [] (46 ∷ b) x y ne,
  ends_with-append (front ++ (x ∷ [])) (46 ∷ b),
  append_assoc front (x ∷ []) (46 ∷ b),
)
find_tail_from-shared i front (c ∷ q) b x y ne = ground (
  arith,
  not_ends_with front (c ∷ q) (46 ∷ b) x y ne,
  find_tail_from-shared (i + 1) front q b x y ne,
)

-- Where two names share their end from a dot on, and no more, the match is at that dot.
pub find_tail_match-shared :
    (front q b : Bytes) (x y : ℕ)
    → x ≢ y
    → find_tail_match (front ++ (x ∷ 46 ∷ b)) (q ++ (y ∷ 46 ∷ b)) ≡ length q + 1
unfolding find_tail_match
find_tail_match-shared front q b x y ne = omega (arith, find_tail_from-shared 0 front q b x y ne)
