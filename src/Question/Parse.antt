-- ===== src/Question/Parse.antt =====
-- get_question_qname of src/lib.rs on what a well-formed packet holds, and on packets cut short.
use mathlib.Core.Path.{ap₂}
use goatns.Prelude.{
  ℕ, zero, suc, ◌≤◌, ◌<◌, true, ◌≡◌, ◌≢◌, refl, sym, ap, subst, ◌∙◌, List, [], ◌∷◌, ◌++◌,
  append-nil, append_assoc, arith, ◌==◌, ==_iff, if◌then◌else◌, Bool-cases, inl, inr, length, take,
  drop, length-append, length-drop, not, bind-ne-stuck, drop-append, take-append, All, Result, ok,
  panic, stuck, Bytes,
}
use goatns.Name.{pieces_of, split}
use goatns.Name.Wire.{IsLabel, IsName, encode}
use goatns.Question.{behind_label, qname_loop, get_question_qname, lowered}
use goatns.Utf8.{Lowercase, is_utf8}

-- The labels with dots between them.
abbrev pub join : List Bytes → Bytes
join [] = []
join (l ∷ []) = l
join (l ∷ k ∷ ls) = l ++ (46 ∷ join (k ∷ ls))

join-cons : (c : ℕ) (l : Bytes) (ls : List Bytes) → join ((c ∷ l) ∷ ls) ≡ c ∷ join (l ∷ ls)
join-cons c l [] = refl
join-cons c l (k ∷ ls) = refl

pub join-pieces_of : (name : Bytes) → join (pieces_of 46 name) ≡ name
join-pieces_of [] = refl
join-pieces_of (c ∷ name) = elim (Bool-cases (c == 46)) [
  | inl e ↦ rw e (ap₂ ◌∷◌ (sym ((==_iff c 46).0 e)) (join-pieces_of name))
  | inr e ↦
      rw e (join-cons c (split 46 name).0 (split 46 name).1 ∙ ap (◌∷◌ c) (join-pieces_of name))
]

round_last :
    (fuel : ℕ) (l more result : Bytes)
    → IsLabel l
    → length (result ++ l) ≤ 255
    → qname_loop (suc (suc fuel)) (length l ∷ (l ++ (0 ∷ more))) result ≡ ok (result ++ l)
unfolding qname_loop
round_last fuel l more result h fits =
    ground (arith, drop-append l (0 ∷ more), take-append l (0 ∷ more), length-append l (0 ∷ more))

round_label :
    (fuel : ℕ) (l rest result : Bytes) (n : ℕ)
    → IsLabel l
    → 0 < n
    → length (result ++ (l ++ (46 ∷ []))) ≤ 255
    → qname_loop (suc fuel) (length l ∷ (l ++ (n ∷ rest))) result
      ≡ qname_loop fuel (n ∷ rest) (result ++ (l ++ (46 ∷ [])))
unfolding qname_loop
round_label fuel l rest result n h pos fits = ground (
  arith,
  drop-append l (n ∷ rest),
  take-append l (n ∷ rest),
  length-append l (n ∷ rest),
  append_assoc result l (46 ∷ []),
)

-- A label that ends the buffer: the byte behind it is read all the same.
round_cut :
    (fuel : ℕ) (l result : Bytes) → IsLabel l → qname_loop (suc fuel) (length l ∷ l) result ≡ panic
unfolding qname_loop
round_cut fuel l result h = ground (arith, drop_all l)
  where
    drop_all : (l : Bytes) → drop (length l) l ≡ []
    drop_all [] = refl
    drop_all (c ∷ l) = drop_all l

length-encode_labels : (ls : List Bytes) → length ls ≤ length (encode ls)
length-encode_labels [] = omega arith
length-encode_labels (l ∷ ls) = omega (arith, length-encode_labels ls, length-append l (encode ls))

joined :
    (result l k : Bytes) (ls : List Bytes)
    → (result ++ (l ++ (46 ∷ []))) ++ join (k ∷ ls) ≡ result ++ (l ++ (46 ∷ join (k ∷ ls)))
joined result l k ls =
    append_assoc result (l ++ (46 ∷ [])) (join (k ∷ ls))
    ∙ ap (λ t. result ++ t) (append_assoc l (46 ∷ []) (join (k ∷ ls)))

begun_fits :
    (result l k : Bytes) (ls : List Bytes)
    → length (result ++ (l ++ (46 ∷ join (k ∷ ls)))) ≤ 255
    → length (result ++ (l ++ (46 ∷ []))) ≤ 255
begun_fits result l k ls fits = omega (
  arith,
  length-append result (l ++ (46 ∷ [])),
  length-append l (46 ∷ []),
  length-append result (l ++ (46 ∷ join (k ∷ ls))),
  length-append l (46 ∷ join (k ∷ ls)),
)

-- `result` holds the labels read so far, and a dot behind each.
qname_loop-encode :
    (fuel : ℕ) (l : Bytes) (ls : List Bytes) (more result : Bytes)
    → length ls < fuel
    → All IsLabel (l ∷ ls)
    → length (result ++ join (l ∷ ls)) ≤ 255
    → qname_loop (suc fuel) (encode (l ∷ ls) ++ (0 ∷ more)) result ≡ ok (result ++ join (l ∷ ls))
qname_loop-encode zero l ls more result h labels fits = absurd (omega arith)
qname_loop-encode (suc fuel) l [] more result h (g, _) fits =
    ap (λ t. qname_loop (suc (suc fuel)) (length l ∷ t) result) (append_assoc l [] (0 ∷ more))
    ∙ round_last fuel l more result g fits
qname_loop-encode (suc fuel) l (k ∷ ls) more result h (g, labels) fits =
    ap (λ t. qname_loop (suc (suc fuel)) (length l ∷ t) result)
      (append_assoc l (encode (k ∷ ls)) (0 ∷ more))
    ∙ round_label (suc fuel) l ((k ++ encode ls) ++ (0 ∷ more)) result (length k) g labels.0.0
        (begun_fits result l k ls fits)
    ∙ qname_loop-encode fuel k ls more (result ++ (l ++ (46 ∷ []))) (omega arith) labels
        (subst (λ t. length t ≤ 255) (sym (joined result l k ls)) fits)
    ∙ ap ok (joined result l k ls)

-- The name of a question that follows the format is read, in lower case, whatever follows it.
pub get_question_qname-encode :
    (std : Lowercase) (name more : Bytes)
    → IsName name
    → length name ≤ 255
    → is_utf8 name ≡ true
    → get_question_qname std (encode (pieces_of 46 name) ++ (0 ∷ more)) ≡ ok (std.to_lowercase name)
unfolding get_question_qname
get_question_qname-encode std name more h fits valid =
    let (l, ls) = split 46 name in
    let read : Bytes = encode (pieces_of 46 name) ++ (0 ∷ more) in
    let fuel : length ls < length read =
      omega (arith, length-encode_labels (l ∷ ls), length-append (encode (l ∷ ls)) (0 ∷ more)) in
    rw (
      qname_loop-encode (length read) l ls more [] fuel h
          (subst (λ t. length t ≤ 255) (sym (join-pieces_of name)) fits),
      join-pieces_of name,
      valid,
    )

qname_loop-cut :
    (fuel : ℕ) (l : Bytes) (ls : List Bytes) (result : Bytes)
    → length ls < fuel
    → All IsLabel (l ∷ ls)
    → length (result ++ join (l ∷ ls)) ≤ 255
    → qname_loop (suc fuel) (encode (l ∷ ls)) result ≡ panic
qname_loop-cut zero l ls result h labels fits = absurd (omega arith)
qname_loop-cut (suc fuel) l [] result h (g, _) fits =
    ap (λ t. qname_loop (suc (suc fuel)) (length l ∷ t) result) (append-nil l)
    ∙ round_cut (suc fuel) l result g
qname_loop-cut (suc fuel) l (k ∷ ls) result h (g, labels) fits =
    round_label (suc fuel) l (k ++ encode ls) result (length k) g labels.0.0
      (begun_fits result l k ls fits)
    ∙ qname_loop-cut fuel k ls (result ++ (l ++ (46 ∷ []))) (omega arith) labels
        (subst (λ t. length t ≤ 255) (sym (joined result l k ls)) fits)

-- A question that stops behind its last label, with no closing zero, makes the parser panic.
pub get_question_qname_cut :
    (std : Lowercase) (name : Bytes)
    → IsName name
    → length name ≤ 255
    → get_question_qname std (encode (pieces_of 46 name)) ≡ panic
unfolding get_question_qname
get_question_qname_cut std name h fits =
    let (l, ls) = split 46 name in
    let fuel : length ls < length (encode (pieces_of 46 name)) =
      omega (arith, length-encode_labels ls, length-append l (encode ls)) in
    let whole : length (join (l ∷ ls)) ≤ 255 =
      subst (λ t. length t ≤ 255) (sym (join-pieces_of name)) fits in
    rw (qname_loop-cut (length (encode (pieces_of 46 name))) l ls [] fuel h whole)

behind_label-ne-stuck :
    (loop : Bytes → Bytes → Result Bytes) (d labelled : Bytes)
    → ((r : Bytes) → loop d r ≢ stuck)
    → behind_label loop d labelled ≢ stuck
unfolding behind_label
behind_label-ne-stuck loop [] labelled h = λ e. cc
behind_label-ne-stuck loop (b ∷ rest) labelled h =
    let result : Bytes = if not (b == 0) then labelled ++ (46 ∷ []) else labelled in
    ground (arith, h result)

qname_loop-ne-stuck :
    (fuel : ℕ) (buf result : Bytes) → length buf < fuel → qname_loop fuel buf result ≢ stuck
unfolding qname_loop
qname_loop-ne-stuck zero buf result h = absurd (omega arith)
qname_loop-ne-stuck (suc fuel) [] result h = λ e. cc
qname_loop-ne-stuck (suc fuel) (n ∷ buf) result h = ground (
  arith,
  behind_label-ne-stuck (qname_loop fuel) (drop n buf) (result ++ take n buf)
      (λ r. qname_loop-ne-stuck fuel (drop n buf) r (omega (arith, length-drop n buf))),
)

lowered-ne-stuck : (std : Lowercase) (s : Bytes) → lowered std s ≢ stuck
unfolding lowered
lowered-ne-stuck std s = ground arith

-- The loop ends on every buffer.
pub get_question_qname-ne-stuck :
    (std : Lowercase) (buf : Bytes) → get_question_qname std buf ≢ stuck
unfolding get_question_qname
get_question_qname-ne-stuck std [] = λ e. cc
get_question_qname-ne-stuck std (b ∷ buf) =
    bind-ne-stuck (qname_loop (suc (length (b ∷ buf))) (b ∷ buf) []) (lowered std)
      (qname_loop-ne-stuck (suc (length (b ∷ buf))) (b ∷ buf) [] (omega arith))
      (lowered-ne-stuck std)
