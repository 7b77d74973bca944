-- ===== src/Question.antt =====
-- `Question` and get_question_qname of src/lib.rs: the question section of a query.
pub mod Parse
pub mod RoundTrip
use goatns.Prelude.{
  ℕ, zero, suc, ◌+◌, ◌*◌, Bool, true, false, not, Option, none, some, List, [], ◌∷◌, ◌++◌, ltb, leb,
  ◌==◌, if◌then◌else◌, length, get_elem?, take, drop, Result, ok, err, panic, stuck, ◌>>=◌, Bytes,
  text, zero_length_buffer, label_too_long, remaining_too_short, qname_too_long, not_utf8,
  packet_too_short, no_qclass,
}
use goatns.Enums.{RecordType, RecordClass, from_u16, to_u16, class_from_u16, class_to_u16}
use goatns.Name.{name_as_bytes, be16}
use goatns.Utf8.{Lowercase, is_utf8}

pub record Question : Type 0 where
  pub qname : Bytes
  pub qtype : RecordType
  pub qclass : RecordClass

-- The end of a round of get_question_qname: `buf[0]` of what is left behind a label is read, which
-- panics where nothing is left.
behind_label : (Bytes → Bytes → Result Bytes) → Bytes → Bytes → Result Bytes
behind_label loop [] labelled = panic
behind_label loop (b ∷ rest) labelled =
    let result = if not (b == 0) then labelled ++ (46 ∷ []) else labelled in
    if ltb 255 (length result) then err (text qname_too_long) else loop (b ∷ rest) result

qname_loop : ℕ → Bytes → Bytes → Result Bytes
unfolding behind_label
qname_loop zero buf result = stuck
qname_loop (suc fuel) [] result = ok result
qname_loop (suc fuel) (label_len ∷ buf) result =
    if label_len == 0
    then ok result
    else if ltb 63 label_len
    then err (text label_too_long)
    else if ltb (length (label_len ∷ buf)) (label_len + 1)
    then err (text remaining_too_short)
    else behind_label (qname_loop fuel) (drop label_len buf) (result ++ take label_len buf)

-- `from_utf8(…)`, then `to_lowercase`
lowered : Lowercase → Bytes → Result Bytes
unfolding is_utf8
lowered std s = if is_utf8 s then ok (std.to_lowercase s) else err (text not_utf8)

-- Each round takes a byte at least, so one round more than there are bytes is enough.
unfoldable pub get_question_qname : Lowercase → Bytes → Result Bytes
unfolding qname_loop lowered
get_question_qname std [] = err (text zero_length_buffer)
get_question_qname std (b ∷ input_val) =
    qname_loop (suc (length (b ∷ input_val))) (b ∷ input_val) [] >>= λ result. lowered std result

-- `u16::from_be_bytes` of the slice at `i`; a slice out of range panics.
be_u16_at : Bytes → ℕ → Result ℕ
be_u16_at buf i = elim (get_elem? buf i) [
  | none ↦ panic
  | some hi ↦ elim (get_elem? buf (i + 1)) [ none ↦ panic | some lo ↦ ok (hi * 256 + lo) ]
]

unfoldable pub from_packets : Lowercase → Bytes → Result Question
unfolding get_question_qname be_u16_at from_u16 class_from_u16
from_packets std buf = get_question_qname std buf >>= λ qname.
    let read_pointer = length qname + 2 in
    if leb (length buf) (read_pointer + 1)
    then err (text packet_too_short)
    else (be_u16_at buf read_pointer >>= λ qtype.
        if leb (length buf) (read_pointer + 3)
        then err (text no_qclass)
        else (be_u16_at buf (read_pointer + 2) >>= λ qclass.
            ok (record { qname = qname; qtype = from_u16 qtype; qclass = class_from_u16 qclass })))

unfoldable pub normalized_name : Lowercase → Question → Result Bytes
unfolding lowered
normalized_name std q = lowered std q.qname

unfoldable pub try_to_bytes : Question → Result Bytes
unfolding name_as_bytes to_u16 class_to_u16
try_to_bytes q = name_as_bytes q.qname none none >>= λ name_bytes.
    ok (name_bytes ++ (be16 (to_u16 q.qtype) ++ be16 (class_to_u16 q.qclass)))
