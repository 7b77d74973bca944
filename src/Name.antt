-- ===== src/Name.antt =====
-- src/utils.rs: domain names from their dotted form to the form of a packet, with the compression
-- pointers of RFC 1035 4.1.4; check_long_labels of src/resourcerecord.rs and dns_name of
-- goat-lib/src/validators.rs, which judge the dotted form.
mod Tests
pub mod Labels
pub mod Total
pub mod Wire
pub mod Compress
pub mod Branches
pub mod RoundTrip
pub mod Defects
use Prim.Native.Nat.{bit_or}
use goatns.Prelude.{
  ℕ, zero, suc, ◌+◌, ◌-◌, ◌/◌, ◌%◌, String, Bool, true, false, not, ◌&&◌, ◌||◌, Option, none, some,
  List, [], ◌∷◌, ◌++◌, ltb, leb, ◌==◌, if◌then◌else◌, length, get_elem?, take, drop, Result, ok,
  panic, stuck, ◌>>=◌, Bytes, codes, equal,
}

-- `HEADER_BYTES` of src/lib.rs
abbrev pub header_bytes : ℕ
header_bytes = 12

-- `u16::to_be_bytes`
abbrev pub be16 : ℕ → Bytes
be16 n = (n / 256 % 256) ∷ (n % 256) ∷ []

vec_find_from : ℕ → ℕ → Bytes → Option ℕ
vec_find_from index item [] = none
vec_find_from index item (curr_byte ∷ search) =
    if item == curr_byte then some index else vec_find_from (index + 1) item search

-- The index of the first such byte.
unfoldable pub vec_find : ℕ → Bytes → Option ℕ
unfolding vec_find_from
vec_find item search = vec_find_from 0 item search

-- The loop's variables; `keep_looping` is the test at its end.
pub record Conversion : Type 0 where
  pub name_bytes : Bytes
  pub next_dot : ℕ
  pub current_position : ℕ
  pub result : Bytes

-- `match vec_find(46, …) { Some(value) => value, None => ….len() }`
dot_or_end : Bytes → ℕ
unfolding vec_find
dot_or_end bytes = elim (vec_find 46 bytes) [ none ↦ length bytes | some value ↦ value ]

-- one round of the loop
conversion_round : Conversion → Result Conversion
unfolding dot_or_end
conversion_round s =
    if s.next_dot == s.current_position
    then if ltb (length s.name_bytes) (s.current_position + 1)
      then panic
      else (let rest = drop (s.current_position + 1) s.name_bytes in
          let next = dot_or_end rest in
          ok (record {
            name_bytes = rest;
            next_dot = next;
            current_position = 0;
            result = if next == 0 then s.result else s.result ++ ((next % 256) ∷ []);
          }))
    else elim (get_elem? s.name_bytes s.current_position) [
      | none ↦ panic
      | some byte ↦
          ok (record s {
            current_position = s.current_position + 1;
            result = s.result ++ (byte ∷ []);
          })
    ]

conversion_loop : ℕ → Conversion → Result Bytes
unfolding conversion_round
conversion_loop zero s = stuck
conversion_loop (suc fuel) s = conversion_round s >>= λ s'.
    let more = conversion_loop fuel s' in
    if s'.current_position == length s'.name_bytes then ok s'.result else more

-- Each round takes a byte of the name, so its length in rounds is enough.
unfoldable pub seven_dot_three_conversion : Bytes → Result Bytes
unfolding vec_find conversion_loop
seven_dot_three_conversion name = elim (vec_find 46 name) [
  | none ↦ ok ((length name % 256) ∷ name)
  | some next_dot ↦ conversion_loop (length name) (record {
    name_bytes = name;
    next_dot = next_dot;
    current_position = 0;
    result = (next_dot % 256) ∷ [];
  })
]

-- `name.ends_with(tail)` on byte slices
unfoldable pub ends_with : Bytes → Bytes → Bool
unfolding equal
ends_with name tail =
    leb (length tail) (length name) && equal (drop (length name - length tail) name) tail

find_tail_from : ℕ → Bytes → Bytes → ℕ
find_tail_from i name [] = 0
find_tail_from i name (c ∷ target) =
    if ends_with name (c ∷ target) then i else find_tail_from (i + 1) name target

-- Where the longest tail of `target` with which `name` ends begins; 0 also if there is none.
unfoldable pub find_tail_match : Bytes → Bytes → ℕ
unfolding find_tail_from ends_with
find_tail_match name target = find_tail_from 0 name target

-- `0b1100000000000000 | target`, as bytes
abbrev pub pointer : ℕ → Bytes
pointer target = be16 (bit_or 0xc000 target)

unfoldable pub contains : ℕ → Bytes → Bool
contains item [] = false
contains item (x ∷ xs) = item == x || contains item xs

-- The part of `name_as_bytes` behind the search for a tail of the reference.
compress_tail : Bytes → Bytes → Bytes → Result Bytes
unfolding find_tail_match seven_dot_three_conversion
compress_tail name result ct =
    let tail_index = find_tail_match name ct in
    if tail_index == 0
    then ok result
    else (let matched_length = length ct - tail_index in
        seven_dot_three_conversion (take (length name - matched_length) name) >>= λ front.
        ok (front ++ pointer ((header_bytes + tail_index + 1) % 0x10000)))

-- The part of `name_as_bytes` behind the first conversion.
compress_name : Bytes → Bytes → Option ℕ → Option Bytes → Result Bytes
unfolding compress_tail ends_with equal
compress_name name result none reference = ok (result ++ (0 ∷ []))
compress_name name result (some target) none = ok result
compress_name name result (some target) (some ct) =
    if equal name ct
    then ok (pointer target)
    else if ends_with name ct
    then (seven_dot_three_conversion (take (length name - length ct) name) >>= λ front.
        ok (front ++ pointer target))
    else compress_tail name result ct

-- `name_as_bytes` behind the early return
name_as_bytes_from : Bytes → Option ℕ → Option Bytes → Result Bytes
unfolding compress_name contains
name_as_bytes_from name target reference =
    if not (contains 46 name)
    then ok ((length name % 256) ∷ (name ++ (0 ∷ [])))
    else (seven_dot_three_conversion name >>= λ result. compress_name name result target reference)

unfoldable pub name_as_bytes : Bytes → Option ℕ → Option Bytes → Result Bytes
unfolding name_as_bytes_from
name_as_bytes name (some target) none = ok (pointer target)
name_as_bytes name none reference = name_as_bytes_from name none reference
name_as_bytes name (some target) (some ct) = name_as_bytes_from name (some target) (some ct)

-- `split` of a text at one byte: the first piece and the others.
abbrev pub split : ℕ → Bytes → Bytes × List Bytes
split sep [] = ([], [])
split sep (c ∷ cs) =
    let (piece, pieces) = split sep cs in
    if c == sep then ([], piece ∷ pieces) else (c ∷ piece, pieces)

abbrev pub pieces_of : ℕ → Bytes → List Bytes
pieces_of sep s = let (piece, pieces) = split sep s in piece ∷ pieces

unfoldable pub any_longer : ℕ → List Bytes → Bool
any_longer n [] = false
any_longer n (x ∷ xs) = ltb n (length x) || any_longer n xs

-- Is some label of the name longer than 63 bytes?
unfoldable pub check_long_labels : Bytes → Bool
unfolding any_longer
check_long_labels testval = any_longer 63 (pieces_of 46 testval)

any_tld : Bytes → List Bytes → Bool
any_tld zone_name [] = false
any_tld zone_name (tld ∷ allowed_tlds) =
    ends_with zone_name (46 ∷ tld) || any_tld zone_name allowed_tlds

unfoldable pub check_valid_tld : Bytes → List Bytes → Bool
unfolding any_tld ends_with
check_valid_tld zone_name [] = true
check_valid_tld zone_name (tld ∷ allowed_tlds) = any_tld zone_name (tld ∷ allowed_tlds)
