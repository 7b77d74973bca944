-- ===== src/Database/Rows/Keys.antt =====
-- Lemmas on the keys of the tables of src/db/mod.rs: entries that are distinct, and identifiers in use.
use goatns.Prelude.{
  ℕ, true, false, ◌≡◌, ◌≢◌, refl, sym, ◌∙◌, inl, inr, List, [], ◌∷◌, ◌++◌, map, ◌==◌, ==_iff,
  Bool-cases, All, not,
}
use goatns.Database.{is_in}

-- No two entries are the same.
abbrev pub Distinct {ℓ} : {A : Type ℓ} → List A → Type ℓ
Distinct [] = Unit
Distinct (x ∷ xs) = All (λ y. x ≢ y) xs × Distinct xs

pub All-implies {ℓ κ κ'} :
    {A : Type ℓ} {P : A → Type κ} {Q : A → Type κ'} (xs : List A)
    → ((x : A) → P x → Q x)
    → All P xs
    → All Q xs
All-implies [] f h = tt
All-implies (x ∷ xs) f (h, hs) = (f x h, All-implies xs f hs)

pub All-zip {ℓ κ} :
    {A : Type ℓ} {P Q R : A → Type κ} (xs : List A)
    → ((x : A) → P x → Q x → R x)
    → All P xs
    → All Q xs
    → All R xs
All-zip [] f h k = tt
All-zip (x ∷ xs) f (h, hs) (k, ks) = (f x h k, All-zip xs f hs ks)

pub All-everywhere {ℓ κ} : {A : Type ℓ} {P : A → Type κ} (xs : List A) → ((x : A) → P x) → All P xs
All-everywhere [] f = tt
All-everywhere (x ∷ xs) f = (f x, All-everywhere xs f)

pub Distinct-append_one {ℓ} :
    {A : Type ℓ} (xs : List A) (x : A)
    → Distinct xs
    → All (λ y. y ≢ x) xs
    → Distinct (xs ++ (x ∷ []))
Distinct-append_one [] x d h = (tt, tt)
Distinct-append_one (y ∷ xs) x (a, d) (n, h) = (All-snoc xs a n, Distinct-append_one xs x d h)
  where
    All-snoc : (zs : List _) → All (λ z. y ≢ z) zs → y ≢ x → All (λ z. y ≢ z) (zs ++ (x ∷ []))
    All-snoc [] h k = (k, tt)
    All-snoc (z ∷ zs) (h, hs) k = (h, All-snoc zs hs k)

pub is_in-here : (n : ℕ) (ns : List ℕ) → is_in n (n ∷ ns) ≡ true
unfolding is_in
is_in-here n ns = rw ((==_iff n n).1 refl) refl

pub is_in-append_left : (n : ℕ) (ms ns : List ℕ) → is_in n ms ≡ true → is_in n (ms ++ ns) ≡ true
unfolding is_in
is_in-append_left n (m ∷ ms) ns h = elim (Bool-cases (n == m)) [
  | inl e ↦ rw e refl
  | inr e ↦ rw e (is_in-append_left n ms ns (sym (rw e refl) ∙ h))
]
is_in-append_left n [] ns h = cc

pub is_in-append_right : (n : ℕ) (ms ns : List ℕ) → is_in n ns ≡ true → is_in n (ms ++ ns) ≡ true
unfolding is_in
is_in-append_right n [] ns h = h
is_in-append_right n (m ∷ ms) ns h = elim (Bool-cases (n == m)) [
  | inl e ↦ rw e refl
  | inr e ↦ rw e (is_in-append_right n ms ns h)
]

-- A number that is not among the numbers is different from each.
pub is_in-false : (n : ℕ) (ns : List ℕ) → is_in n ns ≡ false → All (λ m. m ≢ n) ns
unfolding is_in
is_in-false n [] h = tt
is_in-false n (m ∷ ns) h = elim (Bool-cases (n == m)) [
  | inl e ↦ absurd (cc (e, h))
  | inr e ↦ (λ p. cc ((==_iff n m).1 (sym p), e), is_in-false n ns (sym (rw e refl) ∙ h))
]

pub All-map {ℓ κ} :
    {A : Type ℓ} {B : Type ℓ} (P : B → Type κ) (f : A → B) (xs : List A)
    → All P (map f xs)
    → All (λ x. P (f x)) xs
All-map P f [] h = tt
All-map P f (x ∷ xs) (h, hs) = (h, All-map P f xs hs)

pub map-All {ℓ κ} :
    {A : Type ℓ} {B : Type ℓ} (P : B → Type κ) (f : A → B) (xs : List A)
    → All (λ x. P (f x)) xs
    → All P (map f xs)
map-All P f [] h = tt
map-All P f (x ∷ xs) (h, hs) = (h, map-All P f xs hs)

-- A row with another number is not the one that is deleted.
pub other_key : (n m k : ℕ) → m ≢ n → (k == m) ≡ true → not (k == n) ≡ true
other_key n m k ne e = elim (Bool-cases (k == n)) [
  | inl same ↦ absurd (ne (sym ((==_iff k m).0 e) ∙ (==_iff k n).0 same))
  | inr other ↦ rw other refl
]
