-- ===== src/Database/Rows/Statements.antt =====
-- What the statements of src/db/mod.rs keep of a list of rows.
use mathlib.Core.List.{Memᴰ as In}
use mathlib.Core.List.Memᴰ.{head, tail}
use goatns.Prelude.{
  subst, arith, ℕ, Bool, true, false, none, some, ◌≡◌, refl, sym, ap, ◌∙◌, inl, inr, List, [], ◌∷◌,
  ◌++◌, map, ◌==◌, ==_iff, Bool-cases, All, some-injective,
}
use goatns.Database.{is_in, first, delete_where, update_where}
use goatns.Datastore.{select}
use goatns.Database.Rows.Keys.{Distinct, is_in-append_right}

module _ {A : Type 0} where
  pub All-select {κ} :
      (P : A → Type κ) (p : A → Bool) (rows : List A) → All P rows → All P (select p rows)
  unfolding select
  All-select P p [] h = tt
  All-select P p (row ∷ rows) (h, hs) = elim (Bool-cases (p row)) [
    | inl e ↦ rw e (h, All-select P p rows hs)
    | inr e ↦ rw e (All-select P p rows hs)
  ]

  -- What is selected passes the test.
  pub select_passes : (p : A → Bool) (rows : List A) → All (λ row. p row ≡ true) (select p rows)
  unfolding select
  select_passes p [] = tt
  select_passes p (row ∷ rows) = elim (Bool-cases (p row)) [
    | inl e ↦ rw e (e, select_passes p rows)
    | inr e ↦ rw e (select_passes p rows)
  ]

  All-map-select {κ} :
      {B : Type 0} (P : B → Type κ) (key : A → B) (p : A → Bool) (rows : List A)
      → All P (map key rows)
      → All P (map key (select p rows))
  unfolding select
  All-map-select P key p [] h = tt
  All-map-select P key p (row ∷ rows) (h, hs) = elim (Bool-cases (p row)) [
    | inl e ↦ rw e (h, All-map-select P key p rows hs)
    | inr e ↦ rw e (All-map-select P key p rows hs)
  ]

  pub Distinct-select :
      {B : Type 0} (key : A → B) (p : A → Bool) (rows : List A)
      → Distinct (map key rows)
      → Distinct (map key (select p rows))
  unfolding select
  Distinct-select key p [] h = tt
  Distinct-select key p (row ∷ rows) (h, hs) = elim (Bool-cases (p row)) [
    | inl e ↦ rw e (All-map-select _ key p rows h, Distinct-select key p rows hs)
    | inr e ↦ rw e (Distinct-select key p rows hs)
  ]

  -- A key stays where every row with the key is kept.
  pub is_in-select :
      (key : A → ℕ) (p : A → Bool) (n : ℕ) (rows : List A)
      → ((row : A) → key row ≡ n → p row ≡ true)
      → is_in n (map key rows) ≡ true
      → is_in n (map key (select p rows)) ≡ true
  unfolding select is_in
  is_in-select key p n [] keeps h = h
  is_in-select key p n (row ∷ rows) keeps h = elim (Bool-cases (n == key row)) [
    | inl e ↦ rw (keeps row (sym ((==_iff n (key row)).0 e)), e) refl
    | inr e ↦
        let rest = is_in-select key p n rows keeps (sym (rw e refl) ∙ h) in
        elim (Bool-cases (p row)) [ inl k ↦ rw (k, e) rest | inr k ↦ rw k rest ]
  ]

  pub All-update_where {κ} :
      (P : A → Type κ) (p : A → Bool) (set : A → A) (rows : List A)
      → ((row : A) → P row → P (set row))
      → All P rows
      → All P (update_where p set rows)
  unfolding update_where
  All-update_where P p set [] f h = tt
  All-update_where P p set (row ∷ rows) f (h, hs) = elim (Bool-cases (p row)) [
    | inl e ↦ rw e (f row h, All-update_where P p set rows f hs)
    | inr e ↦ rw e (h, All-update_where P p set rows f hs)
  ]

  -- A column that is not set stays.
  pub map-update_where :
      {B : Type 0} (key : A → B) (p : A → Bool) (set : A → A) (rows : List A)
      → ((row : A) → key (set row) ≡ key row)
      → map key (update_where p set rows) ≡ map key rows
  unfolding update_where
  map-update_where key p set [] f = refl
  map-update_where key p set (row ∷ rows) f = elim (Bool-cases (p row)) [
    | inl e ↦ rw (e, f row, map-update_where key p set rows f) refl
    | inr e ↦ rw (e, map-update_where key p set rows f) refl
  ]

  pub first-some : (p : A → Bool) (rows : List A) {row : A} → first p rows ≡ some row → p row ≡ true
  unfolding first
  first-some p [] h = cc
  first-some p (r ∷ rows) {row} h = elim (Bool-cases (p r)) [
    | inl e ↦
        let same : some r ≡ some row = sym (rw e refl) ∙ h in
        let found : r ≡ row = cc same in ap p (sym found) ∙ e
    | inr e ↦ first-some p rows (sym (rw e refl) ∙ h)
  ]

  pub first-none :
      (p : A → Bool) (rows : List A) → first p rows ≡ none → All (λ row. p row ≡ false) rows
  unfolding first
  first-none p [] h = tt
  first-none p (r ∷ rows) h = elim (Bool-cases (p r)) [
    | inl e ↦ cc (e, h)
    | inr e ↦ (e, first-none p rows (sym (rw e refl) ∙ h))
  ]

  pub first-delete_where : (p : A → Bool) (rows : List A) → first p (delete_where p rows) ≡ none
  unfolding first delete_where select
  first-delete_where p [] = refl
  first-delete_where p (r ∷ rows) = elim (Bool-cases (p r)) [
    | inl e ↦ rw e (first-delete_where p rows)
    | inr e ↦ rw e (rw e (first-delete_where p rows))
  ]

  pub first-there : (p : A → Bool) (rows : List A) {row : A} → first p rows ≡ some row → In row rows
  unfolding first
  first-there p [] h = cc
  first-there p (r ∷ rows) {row} h = elim (Bool-cases (p r)) [
    | inl e ↦ let same : some r ≡ some row = sym (rw e refl) ∙ h in head (sym (cc same))
    | inr e ↦ tail (first-there p rows (sym (rw e refl) ∙ h))
  ]

-- What the second test takes passes the first one, so the first one changes nothing.
pub select-select :
    {A : Type 0} (p q : A → Bool) (rows : List A)
    → ((row : A) → p row ≡ true → q row ≡ true)
    → select p (select q rows) ≡ select p rows
unfolding select
select-select p q [] passes = refl
select-select p q (row ∷ rows) passes = elim (Bool-cases (p row)) [
  | inl e ↦ rw (passes row e, e, select-select p q rows passes) refl
  | inr e ↦ elim (Bool-cases (q row)) [
    | inl k ↦ rw (k, e) (select-select p q rows passes)
    | inr k ↦ rw (k, e) (select-select p q rows passes)
  ]
]

-- A key whose rows are deleted is gone.
pub is_in-delete_where :
    {A : Type 0} (key : A → ℕ) (n : ℕ) (rows : List A)
    → is_in n (map key (delete_where (λ row. key row == n) rows)) ≡ false
unfolding delete_where select is_in
is_in-delete_where key n [] = refl
is_in-delete_where key n (row ∷ rows) = elim (Bool-cases (key row == n)) [
  | inl e ↦ rw e (is_in-delete_where key n rows)
  | inr e ↦
      let other : (n == key row) ≡ false = ==_sym_false (key row) n e in
      rw (e, other) (is_in-delete_where key n rows)
]
  where
    ==_sym_false : (a b : ℕ) → (a == b) ≡ false → (b == a) ≡ false
    ==_sym_false a b h = ground arith

pub select-append :
    {A : Type 0} (p : A → Bool) (xs ys : List A) → select p (xs ++ ys) ≡ select p xs ++ select p ys
unfolding select
select-append p [] ys = refl
select-append p (x ∷ xs) ys = elim (Bool-cases (p x)) [
  | inl e ↦ rw (e, select-append p xs ys) refl
  | inr e ↦ rw (e, select-append p xs ys) refl
]

-- No row is left that a deletion takes.
pub select-delete_where :
    {A : Type 0} (p : A → Bool) (rows : List A) → select p (delete_where p rows) ≡ []
unfolding delete_where select
select-delete_where p [] = refl
select-delete_where p (row ∷ rows) = elim (Bool-cases (p row)) [
  | inl e ↦ rw e (select-delete_where p rows)
  | inr e ↦ rw (e, e) (select-delete_where p rows)
]

pub first-none_all :
    {A : Type 0} (p : A → Bool) (rows : List A) → ((row : A) → p row ≡ false) → first p rows ≡ none
unfolding first
first-none_all p [] h = refl
first-none_all p (row ∷ rows) h = rw (h row) (first-none_all p rows h)

pub first-append :
    {A : Type 0} (p : A → Bool) (rows : List A) (row : A)
    → first p rows ≡ none
    → p row ≡ true
    → first p (rows ++ (row ∷ [])) ≡ some row
unfolding first
first-append p [] row h e = rw e refl
first-append p (r ∷ rows) row h e = elim (Bool-cases (p r)) [
  | inl k ↦ cc (k, h)
  | inr k ↦ rw k (first-append p rows row (sym (rw k refl) ∙ h) e)
]

-- An update that changes nothing that the query looks at changes the row that is found, where it
-- changes that row.
pub first-update_where :
    {A : Type 0} (p q : A → Bool) (set : A → A) (rows : List A) {row : A}
    → ((r : A) → p (set r) ≡ p r)
    → first p rows ≡ some row
    → q row ≡ true
    → first p (update_where q set rows) ≡ some (set row)
unfolding first update_where
first-update_where p q set [] same h e = cc
first-update_where p q set (r ∷ rows) {row} same h e = elim (Bool-cases (p r)) [
  | inl k ↦
      let found : r ≡ row = some-injective (sym (rw k refl) ∙ h) in
      rw (ap q found ∙ e, same r, k, found) refl
  | inr k ↦
      let rest = first-update_where p q set rows same (sym (rw k refl) ∙ h) e in
      elim (Bool-cases (q r)) [ inl u ↦ rw (u, same r, k) rest | inr u ↦ rw (u, k) rest ]
]

is_in-later : (n m : ℕ) (ns : List ℕ) → is_in n ns ≡ true → is_in n (m ∷ ns) ≡ true
is_in-later n m ns h = is_in-append_right n (m ∷ []) ns h

-- The key of a row that is found is one of the keys.
pub first-is_in :
    {A : Type 0} (p : A → Bool) (key : A → ℕ) (rows : List A) {row : A}
    → first p rows ≡ some row
    → is_in (key row) (map key rows) ≡ true
unfolding first is_in
first-is_in p key [] h = cc
first-is_in p key (r ∷ rows) {row} h = elim (Bool-cases (p r)) [
  | inl e ↦
      let found : r ≡ row = some-injective (sym (rw e refl) ∙ h) in
      rw ((==_iff (key row) (key r)).1 (ap key (sym found))) refl
  | inr e ↦
      is_in-later (key row) (key r) (map key rows) (first-is_in p key rows (sym (rw e refl) ∙ h))
]

-- The row that is found is one of the rows.
pub first-in_all {κ} :
    {A : Type 0} (P : A → Type κ) (p : A → Bool) (rows : List A) {row : A}
    → All P rows
    → first p rows ≡ some row
    → P row
unfolding first
first-in_all P p [] h e = cc
first-in_all P p (r ∷ rows) {row} (h, hs) e = elim (Bool-cases (p r)) [
  | inl k ↦ subst P (some-injective (sym (rw k refl) ∙ e)) h
  | inr k ↦ first-in_all P p rows hs (sym (rw k refl) ∙ e)
]
