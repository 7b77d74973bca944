-- ===== src/Name/Labels.antt =====
-- seven_dot_three_conversion of src/utils.rs, against the cutting of a name at its dots: the loop
-- over bytes and positions ends, raises no index error, and writes the labels.
use goatns.Prelude.{
  ℕ, zero, suc, ◌+◌, ◌<◌, ◌%◌, false, none, some, ◌≡◌, ◌≢◌, refl, inl, inr, List, [], ◌∷◌, ◌++◌,
  append-nil, append_assoc, arith, ◌==◌, if◌then◌else◌, Bool-cases, length, get_elem?, drop,
  length-append, ok, Bytes,
}
use goatns.Name.{
  vec_find_from, vec_find, dot_or_end, Conversion, conversion_round, conversion_loop,
  seven_dot_three_conversion, contains, split,
}

-- A length byte and the label behind it.
abbrev pub encode_label : Bytes → Bytes
encode_label l = (length l % 256) ∷ l

-- The labels one after the other; an empty one is left out.
unfoldable pub encode_rest : List Bytes → Bytes
encode_rest [] = []
encode_rest ([] ∷ ls) = encode_rest ls
encode_rest ((c ∷ l) ∷ ls) = encode_label (c ∷ l) ++ encode_rest ls

vec_find_from-split :
    (i : ℕ) (l : Bytes)
    → vec_find_from i 46 l ≡ (if contains 46 l then some (i + length (split 46 l).0) else none)
unfolding vec_find_from contains
vec_find_from-split i [] = refl
vec_find_from-split i (c ∷ cs) = ground (arith, vec_find_from-split (i + 1) cs)

pub split_no_dot : (l : Bytes) → contains 46 l ≡ false → split 46 l ≡ (l, [])
unfolding contains
split_no_dot [] h = refl
split_no_dot (c ∷ cs) h = ground (arith, split_no_dot cs)

dot_or_end-split : (l : Bytes) → dot_or_end l ≡ length (split 46 l).0
unfolding dot_or_end vec_find
dot_or_end-split l = ground (arith, vec_find_from-split 0 l, split_no_dot l)

get_elem?-append :
    (done : Bytes) (c : ℕ) (rest : Bytes) → get_elem? (done ++ (c ∷ rest)) (length done) ≡ some c
get_elem?-append [] c rest = refl
get_elem?-append (x ∷ done) c rest = get_elem?-append done c rest

drop_one-append :
    (done : Bytes) (c : ℕ) (rest : Bytes) → drop (suc (length done)) (done ++ (c ∷ rest)) ≡ rest
drop_one-append [] c rest = refl
drop_one-append (x ∷ done) c rest = drop_one-append done c rest

-- What the loop still writes when `rest` is unread, and the label of its first byte is begun.
written : Bytes → Bytes
written rest = (split 46 rest).0 ++ encode_rest (split 46 rest).1

abbrev state : Bytes → ℕ → ℕ → Bytes → Conversion
state b dot p out = record { name_bytes = b; next_dot = dot; current_position = p; result = out }

length-middle :
    (done : Bytes) (c : ℕ) (rest : Bytes)
    → length (done ++ (c ∷ rest)) ≡ length done + length rest + 1
length-middle done c rest = omega (arith, length-append done (c ∷ rest))

-- The output when the loop has read a dot, and the label `l` comes next.
begun : Bytes → Bytes → Bytes
begun out l = if length l == 0 then out else out ++ ((length l % 256) ∷ [])

round_dot :
    (done rest out : Bytes)
    → conversion_round (state (done ++ (46 ∷ rest)) (length done) (length done) out)
      ≡ ok (state rest (length (split 46 rest).0) 0 (begun out (split 46 rest).0))
unfolding conversion_round begun
round_dot done rest out =
    ground (arith, length-middle done 46 rest, drop_one-append done 46 rest, dot_or_end-split rest)

round_byte :
    (done rest out : Bytes) (c dot : ℕ)
    → length done < dot
    → conversion_round (state (done ++ (c ∷ rest)) dot (length done) out)
      ≡ ok (state (done ++ (c ∷ rest)) dot (length done + 1) (out ++ (c ∷ [])))
unfolding conversion_round
round_byte done rest out c dot h = ground (arith, get_elem?-append done c rest)

begun-encode_rest :
    (out l : Bytes) (ls : List Bytes)
    → begun out l ++ (l ++ encode_rest ls) ≡ out ++ encode_rest (l ∷ ls)
unfolding begun encode_rest
begun-encode_rest out [] ls = refl
begun-encode_rest out (c ∷ l) ls = elim (Bool-cases (length (c ∷ l) == 0)) [
  | inl e ↦ absurd (ground arith)
  | inr e ↦ rw e (append_assoc out ((length (c ∷ l) % 256) ∷ []) (c ∷ (l ++ encode_rest ls)))
]

begun-written :
    (out rest : Bytes) → begun out (split 46 rest).0 ++ written rest ≡ out ++ written (46 ∷ rest)
unfolding written
begun-written out rest = begun-encode_rest out (split 46 rest).0 (split 46 rest).1

byte-written :
    (out rest : Bytes) (c : ℕ)
    → c ≢ 46
    → (out ++ (c ∷ [])) ++ written rest ≡ out ++ written (c ∷ rest)
unfolding written
byte-written out rest c h = ground (arith, append_assoc out (c ∷ []) (written rest))

encode_rest_nil : encode_rest [] ≡ []
unfolding encode_rest
encode_rest_nil = refl

written_lem : (l : Bytes) → written l ≡ (split 46 l).0 ++ encode_rest (split 46 l).1
unfolding written
written_lem l = refl

written_nil : written [] ≡ []
unfolding written encode_rest
written_nil = refl

conversion_loop-written :
    (fuel : ℕ) (done rest out : Bytes) (c dot : ℕ)
    → length rest < fuel
    → dot ≡ length done + length (split 46 (c ∷ rest)).0
    → conversion_loop fuel (state (done ++ (c ∷ rest)) dot (length done) out)
      ≡ ok (out ++ written (c ∷ rest))
unfolding conversion_loop
conversion_loop-written zero done rest out c dot h e = absurd (omega arith)
conversion_loop-written (suc fuel) done [] out c dot h e = elim (Bool-cases (c == 46)) [
  | inl at_dot ↦
      ground
        (arith, round_dot done [] out, begun-written out [], append-nil (begun out []), written_nil)
  | inr in_label ↦ ground (
    arith,
    round_byte done [] out c dot,
    length-middle done c [],
    byte-written out [] c,
    append-nil (out ++ (c ∷ [])),
    written_nil,
  )
]
conversion_loop-written (suc fuel) done (d ∷ rest) out c dot h e = elim (Bool-cases (c == 46)) [
  | inl at_dot ↦ ground (
    arith,
    round_dot done (d ∷ rest) out,
    begun-written out (d ∷ rest),
    conversion_loop-written fuel [] rest (begun out (split 46 (d ∷ rest)).0) d
        (length (split 46 (d ∷ rest)).0),
  )
  | inr in_label ↦ ground (
    arith,
    round_byte done (d ∷ rest) out c dot,
    length-middle done c (d ∷ rest),
    length-append done (c ∷ []),
    append_assoc done (c ∷ []) (d ∷ rest),
    byte-written out (d ∷ rest) c,
    conversion_loop-written fuel (done ++ (c ∷ [])) rest (out ++ (c ∷ [])) d dot,
  )
]

-- The conversion of every name gives its first label with a length byte, and then the others
-- but for empty ones. In particular the loop ends, and indexes nothing out of range.
pub conversion-labels :
    (name : Bytes)
    → seven_dot_three_conversion name
      ≡ ok (encode_label (split 46 name).0 ++ encode_rest (split 46 name).1)
unfolding seven_dot_three_conversion vec_find
conversion-labels [] = unfold vec_find_from encode_rest in refl
conversion-labels (c ∷ cs) = elim (Bool-cases (contains 46 (c ∷ cs))) [
  | inl dot ↦
      let begin : Bytes = (length (split 46 (c ∷ cs)).0 % 256) ∷ [] in
      ground (
        arith,
        vec_find_from-split 0 (c ∷ cs),
        conversion_loop-written (length (c ∷ cs)) [] cs begin c (length (split 46 (c ∷ cs)).0),
        written_lem (c ∷ cs),
      )
  | inr whole ↦ ground (
    arith,
    vec_find_from-split 0 (c ∷ cs),
    split_no_dot (c ∷ cs),
    append-nil (c ∷ cs),
    encode_rest_nil,
  )
]
