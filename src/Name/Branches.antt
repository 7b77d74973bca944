-- ===== src/Name/Branches.antt =====
-- The bytes that name_as_bytes of src/utils.rs writes for a well-formed name, branch by branch.
use Prim.Native.Nat.add
use goatns.Prelude.{
  ℕ, zero, suc, ◌+◌, ◌-◌, ◌%◌, ◌<◌, true, false, some, ◌≡◌, ◌≢◌, refl, sym, ap, subst, ◌∙◌, inl,
  inr, List, [], ◌∷◌, ◌++◌, append-nil, append_assoc, arith, ◌==◌, Bool-cases, length, drop, take,
  length-append, take-append, All, ok, Bytes, equal, equal_iff,
}
use goatns.Name.{pointer, pieces_of, contains, name_as_bytes}
use goatns.Name.Labels.{split_no_dot}
use goatns.Name.Wire.{
  IsName, IsLabel, encode, conversion-encode, conversion_trailing_dot, pieces_of-append,
}
use goatns.Name.Compress.{ends_with-append, not_ends_with, last_differs, find_tail_match-shared}

pub contains-middle : (front b : Bytes) → contains 46 (front ++ (46 ∷ b)) ≡ true
unfolding contains
contains-middle [] b = refl
contains-middle (c ∷ front) b = ground (arith, contains-middle front b)

pub All-split {ℓ κ} :
    {A : Type ℓ} (P : A → Type κ) (xs ys : List A) → All P (xs ++ ys) → All P xs × All P ys
All-split P [] ys h = (tt, h)
All-split P (x ∷ xs) ys (p, h) = let (hx, hy) = All-split P xs ys h in ((p, hx), hy)

drop_nil : (k : ℕ) → drop {A = ℕ} k [] ≡ []
drop_nil zero = refl
drop_nil (suc k) = refl

pub drop-drop : (k n : ℕ) (l : Bytes) → drop (n + k) l ≡ drop k (drop n l)
drop-drop k zero l = rw add.zero
drop-drop k (suc n) [] = rw add.suc (sym (drop_nil k))
drop-drop k (suc n) (c ∷ l) = rw add.suc (drop-drop k n l)

pub mod-label : (l : Bytes) → IsLabel l → length l % 256 ≡ length l
mod-label l h = omega arith

pub bytes_bare :
    (name : Bytes) (target : ℕ) (qname : Bytes)
    → IsName name
    → contains 46 name ≡ false
    → name_as_bytes name (some target) (some qname) ≡ ok (encode (pieces_of 46 name) ++ (0 ∷ []))
unfolding name_as_bytes
bytes_bare name target qname h c =
    rw (c, split_no_dot name c, append-nil)
      (ap (λ n. ok (n ∷ (name ++ (0 ∷ [])))) (mod-label name (rw (split_no_dot name c) at h).0))

pub bytes_same :
    (name : Bytes) (target : ℕ)
    → IsName name
    → contains 46 name ≡ true
    → name_as_bytes name (some target) (some name) ≡ ok (pointer target)
unfolding name_as_bytes
bytes_same name target h c =
    rw c (rw (conversion-encode name h) (ground (arith, equal_iff name name)))

pub IsName-split : (front b : Bytes) → IsName (front ++ (46 ∷ b)) → IsName front × IsName b
IsName-split front b h =
    All-split IsLabel (pieces_of 46 front) (pieces_of 46 b)
      (subst (All IsLabel) (pieces_of-append front b) h)

-- The two names differ in length, or in the byte before what they share.
pub longer_ne : (name ct : Bytes) → length ct < length name → equal name ct ≡ false
longer_ne name ct h = elim (Bool-cases (equal name ct)) [
  | inl e ↦ absurd (omega (arith, ap length ((equal_iff name ct).0 e)))
  | inr e ↦ e
]

pub take_front : (front ct : Bytes) → take (length (front ++ ct) - length ct) (front ++ ct) ≡ front
take_front front ct =
    let e : length (front ++ ct) - length ct ≡ length front =
      omega (arith, length-append front ct) in
    ap (λ k. take k (front ++ ct)) e ∙ take-append front ct

pub bytes_below :
    (front qname : Bytes) (target : ℕ)
    → IsName (front ++ (46 ∷ qname))
    → name_as_bytes (front ++ (46 ∷ qname)) (some target) (some qname)
      ≡ ok (encode (pieces_of 46 front) ++ pointer target)
unfolding name_as_bytes
bytes_below front qname target h =
    let split_front : front ++ (46 ∷ qname) ≡ (front ++ (46 ∷ [])) ++ qname =
      sym (append_assoc front (46 ∷ []) qname) in
    let front_name : IsName front = (IsName-split front qname h).0 in
    rw (
      contains-middle front qname,
      conversion-encode (front ++ (46 ∷ qname)) h,
      longer_ne (front ++ (46 ∷ qname)) qname (omega (arith, length-append front (46 ∷ qname))),
      split_front,
      ends_with-append (front ++ (46 ∷ [])) qname,
      take_front (front ++ (46 ∷ [])) qname,
      conversion_trailing_dot front front_name,
    )

unequal :
    (front q b : Bytes) (x y : ℕ)
    → x ≢ y
    → equal (front ++ (x ∷ 46 ∷ b)) (q ++ (y ∷ 46 ∷ b)) ≡ false
unequal front q b x y ne = elim (Bool-cases (equal (front ++ (x ∷ 46 ∷ b)) (q ++ (y ∷ 46 ∷ b)))) [
  | inl e ↦ absurd (ne (last_differs front q (46 ∷ b) x y ((equal_iff _ _).0 e)))
  | inr e ↦ e
]

pub ne_zero : (n : ℕ) → (n + 1 == 0) ≡ false
ne_zero n = ground arith

take_shared :
    (front q b : Bytes) (x y : ℕ)
    → take
        (length (front ++ (x ∷ 46 ∷ b)) - (length (q ++ (y ∷ 46 ∷ b)) - (length q + 1)))
        (front ++ (x ∷ 46 ∷ b))
      ≡ front ++ (x ∷ [])
take_shared front q b x y =
    let e : length (front ++ (x ∷ 46 ∷ b)) - (length (q ++ (y ∷ 46 ∷ b)) - (length q + 1))
        ≡ length (front ++ (x ∷ [])) =
      omega (
        arith,
        length-append front (x ∷ 46 ∷ b),
        length-append q (y ∷ 46 ∷ b),
        length-append front (x ∷ []),
      ) in
    ap (λ k. take k (front ++ (x ∷ 46 ∷ b))) e
    ∙ ap (take (length (front ++ (x ∷ [])))) (sym (append_assoc front (x ∷ []) (46 ∷ b)))
    ∙ take-append (front ++ (x ∷ [])) (46 ∷ b)

pub bytes_beside :
    (front q b : Bytes) (x y target : ℕ)
    → x ≢ y
    → IsName (front ++ (x ∷ 46 ∷ b))
    → name_as_bytes (front ++ (x ∷ 46 ∷ b)) (some target) (some (q ++ (y ∷ 46 ∷ b)))
      ≡ ok (
          encode (pieces_of 46 (front ++ (x ∷ [])))
          ++ pointer ((12 + (length q + 1) + 1) % 0x10000))
unfolding name_as_bytes
bytes_beside front q b x y target ne h =
    let name : Bytes = front ++ (x ∷ 46 ∷ b) in
    let ct : Bytes = q ++ (y ∷ 46 ∷ b) in
    let split_name : (front ++ (x ∷ [])) ++ (46 ∷ b) ≡ name =
      append_assoc front (x ∷ []) (46 ∷ b) in
    let has_dot : contains 46 name ≡ true =
      subst (λ n. contains 46 n ≡ true) split_name (contains-middle (front ++ (x ∷ [])) b) in
    let front_name : IsName (front ++ (x ∷ [])) =
      (IsName-split (front ++ (x ∷ [])) b (subst IsName (sym split_name) h)).0 in
    rw (
      has_dot,
      conversion-encode name h,
      unequal front q b x y ne,
      not_ends_with front q (46 ∷ b) x y ne,
      find_tail_match-shared front q b x y ne,
      ne_zero (length q),
      take_shared front q b x y,
      conversion-encode (front ++ (x ∷ [])) front_name,
    )
