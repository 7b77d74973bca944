-- ===== src/Name/Total.antt =====
-- name_as_bytes of src/utils.rs gives bytes on every name, target and reference: its index and
-- slice operations stay in range, and the errors it names are not reached.
use goatns.Prelude.{
  ℕ, ◌+◌, ◌-◌, ◌%◌, Option, none, some, refl, ◌++◌, inl, inr, length, take, ok, ◌>>=◌, Bytes,
  Bool-cases, equal, ◌==◌, Returns, Returns-bind,
}
use goatns.Name.{
  name_as_bytes, name_as_bytes_from, compress_name, compress_tail, ends_with, find_tail_match,
  contains, seven_dot_three_conversion, header_bytes, pointer,
}
use goatns.Name.Labels.{conversion-labels}

pub conversion-Returns : (name : Bytes) → Returns (seven_dot_three_conversion name)
conversion-Returns name = (_, conversion-labels name)

pointed-Returns :
    (s : Bytes) (back : Bytes)
    → Returns (seven_dot_three_conversion s >>= λ front. ok (front ++ back))
pointed-Returns s back =
    Returns-bind (seven_dot_three_conversion s) (λ front. ok (front ++ back)) (conversion-Returns s)
      (λ front. (front ++ back, refl))

compress_tail-Returns : (name result ct : Bytes) → Returns (compress_tail name result ct)
unfolding compress_tail
compress_tail-Returns name result ct = elim (Bool-cases (find_tail_match name ct == 0)) [
  | inl e ↦ rw e (result, refl)
  | inr e ↦
      let i = find_tail_match name ct in
      rw e (
        pointed-Returns (take (length name - (length ct - i)) name)
          (pointer ((header_bytes + i + 1) % 0x10000)))
]

compress_name-Returns :
    (name result : Bytes) (target : Option ℕ) (reference : Option Bytes)
    → Returns (compress_name name result target reference)
unfolding compress_name
compress_name-Returns name result none reference = (_, refl)
compress_name-Returns name result (some target) none = (_, refl)
compress_name-Returns name result (some target) (some ct) = elim (Bool-cases (equal name ct)) [
  | inl e ↦ rw e (_, refl)
  | inr e ↦ elim (Bool-cases (ends_with name ct)) [
    | inl e' ↦ rw (e, e') (pointed-Returns (take (length name - length ct) name) (pointer target))
    | inr e' ↦ rw (e, e') (compress_tail-Returns name result ct)
  ]
]

from-Returns :
    (name : Bytes) (target : Option ℕ) (reference : Option Bytes)
    → Returns (name_as_bytes_from name target reference)
unfolding name_as_bytes_from
from-Returns name target reference = elim (Bool-cases (contains 46 name)) [
  | inl e ↦ rw e (
      Returns-bind (seven_dot_three_conversion name)
        (λ result. compress_name name result target reference) (conversion-Returns name)
        (λ result. compress_name-Returns name result target reference))
  | inr e ↦ rw e (_, refl)
]

-- Every name is written, whatever the target and the reference: with no error and no panic, and the
-- loop ends.
pub name_as_bytes-Returns :
    (name : Bytes) (target : Option ℕ) (reference : Option Bytes)
    → Returns (name_as_bytes name target reference)
unfolding name_as_bytes
name_as_bytes-Returns name (some target) none = (_, refl)
name_as_bytes-Returns name none reference = from-Returns name none reference
name_as_bytes-Returns name (some target) (some ct) = from-Returns name (some target) (some ct)
