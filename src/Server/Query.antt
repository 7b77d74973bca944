-- ===== src/Server/Query.antt =====
-- What a query is answered with (parse_query and get_result of src/servers.rs).
use goatns.Prelude.{
  ℕ, ◌+◌, ◌≤◌, true, not, Option, none, some, List, [], ◌∷◌, ◌++◌, ◌≡◌, refl, sym, ap, ◌∙◌, ◌⊎◌,
  inl, inr, map, ◌==◌, Bool-cases, All, if◌then◌else◌, length, take, drop, length-append,
  take-append, drop-append, append_assoc, ok, err, ◌>>=◌, Bytes, equal, text, bad_opcode, arith,
}
use goatns.Enums.{
  OpCode, Rcode, RecordType, RecordClass, opcode_to_u8, supported, to_u16, class_to_u16,
}
use goatns.Enums.Laws.{
  from_u16-to_u16, class_from_u16-class_to_u16, to_u16_bound, class_to_u16_bound,
}
use goatns.Datastore.{ZoneRecord}
use goatns.Header.{Header, HeaderCodec}
use goatns.Name.{be16, header_bytes, pieces_of}
use goatns.Name.Wire.{IsName, encode}
use goatns.Question.{Question, from_packets}
use goatns.Question.RoundTrip.{from_packets-encode, normalized_name-utf8}
use goatns.Record.{InternalResourceRecord}
use goatns.Reply.{Reply, reply_builder, reply_nxdomain, reply_any}
use goatns.Server.{
  Backend, slice, shutdown, is_chaos, found_reply, from_datastore, look_up, echo_reply,
  answer_question, with_question, get_result, unpacked, parse_query,
}
use goatns.Utf8.{Lowercase, is_utf8, IsAscii, ascii_lower}

-- The reply carries the identifier of the query, and no other question than the one asked.
abbrev pub IsReplyTo : Header → Question → Reply → Type 0
IsReplyTo header q r = (r.header.id ≡ header.id) × ((r.question ≡ none) ⊎ (r.question ≡ some q))

from_datastore-IsReplyTo :
    (header : Header) (q : Question) (answer : Option (Option ZoneRecord))
    → IsReplyTo header q (from_datastore header q answer)
unfolding from_datastore reply_builder reply_nxdomain found_reply
from_datastore-IsReplyTo header q none = (refl, inl refl)
from_datastore-IsReplyTo header q (some none) = (refl, inl refl)
from_datastore-IsReplyTo header q (some (some zr)) = (refl, inr refl)

look_up-IsReplyTo :
    (datastore : Backend) (header : Header) (q : Question)
    → IsReplyTo header q (look_up datastore header q)
unfolding look_up reply_any
look_up-IsReplyTo datastore header q = elim (Bool-cases (to_u16 q.qtype == to_u16 RecordType.any)) [
  | inl e ↦ rw e (refl, inr refl)
  | inr e ↦ rw e (from_datastore-IsReplyTo header q (datastore q.qname q.qtype q.qclass))
]

-- Whatever the datastore says, a question whose name is UTF-8 has a reply, and the reply carries the
-- identifier of the query and no other question.
pub answer_question-IsReplyTo :
    (std : Lowercase) (datastore : Backend) (header : Header) (q : Question)
    → is_utf8 q.qname ≡ true
    → (r : Reply) × (answer_question std datastore header q ≡ ok r) × IsReplyTo header q r
unfolding answer_question reply_builder echo_reply
answer_question-IsReplyTo std datastore header q h = elim (Bool-cases (supported q.qtype)) [
  | inr e ↦ rw e (reply_builder header.id Rcode.not_implemented, refl, (refl, inl refl))
  | inl e ↦ rw e (elim (Bool-cases (is_chaos q.qclass)) [
    | inr c ↦ rw c (look_up datastore header q, refl, look_up-IsReplyTo datastore header q)
    | inl c ↦
        rw (c, normalized_name-utf8 std q h)
          (elim (Bool-cases (equal (std.to_lowercase q.qname) shutdown)) [
            | inl s ↦ rw s (echo_reply header q, refl, (refl, inr refl))
            | inr s ↦ rw s (look_up datastore header q, refl, look_up-IsReplyTo datastore header q)
          ])
  ])
]

-- The question that the packet of a name asks, read in lower case.
abbrev pub asked : Bytes → RecordType → RecordClass → Question
asked name qtype qclass = record { qname = map ascii_lower name; qtype = qtype; qclass = qclass }

-- The bytes of a question for a name.
abbrev pub question_bytes : Bytes → RecordType → RecordClass → Bytes
question_bytes name qtype qclass =
    encode (pieces_of 46 name) ++ (0 ∷ (be16 (to_u16 qtype) ++ be16 (class_to_u16 qclass)))

pub slice_in_range :
    (buf : Bytes) (from to : ℕ)
    → from ≤ to
    → to ≤ length buf
    → slice buf from to ≡ ok (drop from (take to buf))
unfolding slice
slice_in_range buf from to h k = ground arith

pub slice-behind :
    (front middle rest : Bytes)
    → slice (front ++ (middle ++ rest)) (length front) (length front + length middle) ≡ ok middle
slice-behind front middle rest =
    slice_in_range (front ++ (middle ++ rest)) (length front) (length front + length middle)
      (omega arith) (omega (arith, length-append front (middle ++ rest), length-append middle rest))
    ∙ ap (λ n. ok (drop (length front) (take n (front ++ (middle ++ rest)))))
        (sym (length-append front middle))
    ∙ ap (λ b. ok (drop (length front) (take (length (front ++ middle)) b)))
        (sym (append_assoc front middle rest))
    ∙ ap (λ b. ok (drop (length front) b)) (take-append (front ++ middle) rest)
    ∙ ap ok (drop-append front middle)

pub slice-front : (front rest : Bytes) → slice (front ++ rest) 0 (length front) ≡ ok front
slice-front front rest =
    slice_in_range (front ++ rest) 0 (length front) (omega arith)
      (omega (arith, length-append front rest))
    ∙ ap ok (take-append front rest)

from_packets-question_bytes :
    (std : Lowercase) (name : Bytes) (qtype : RecordType) (qclass : RecordClass)
    → IsName name
    → length name ≤ 255
    → All IsAscii name
    → from_packets std (question_bytes name qtype qclass) ≡ ok (asked name qtype qclass)
from_packets-question_bytes std name qtype qclass h fits ascii =
    from_packets-encode std name [] (to_u16 qtype) (class_to_u16 qclass) h fits ascii
      (to_u16_bound qtype) (class_to_u16_bound qclass)
    ∙ (λ i. ok (record {
      qname = map ascii_lower name;
      qtype = from_u16-to_u16 qtype i;
      qclass = class_from_u16-class_to_u16 qclass i;
    }))

-- A query packet, whatever follows it in the buffer.
pub parse_query-question :
    (codec : HeaderCodec) (std : Lowercase) (datastore : Backend) (header : Header)
    (front name rest : Bytes) (qtype : RecordType) (qclass : RecordClass)
    → length front ≡ header_bytes
    → codec.unpack front ≡ some header
    → header.opcode ≡ OpCode.query
    → IsName name
    → length name ≤ 255
    → All IsAscii name
    → parse_query codec std datastore
        (header_bytes + length (question_bytes name qtype qclass))
        (front ++ (question_bytes name qtype qclass ++ rest))
      ≡ answer_question std datastore header (asked name qtype qclass)
unfolding parse_query get_result with_question unpacked
parse_query-question codec std datastore header front name rest qtype qclass e u o h fits ascii =
    let q : Bytes = question_bytes name qtype qclass in
    let buf : Bytes = front ++ (q ++ rest) in
    let head : slice buf 0 header_bytes ≡ ok front =
      ap (slice buf 0) (sym e) ∙ slice-front front (q ++ rest) in
    let body : slice buf header_bytes (header_bytes + length q) ≡ ok q =
      ap (λ n. slice buf n (n + length q)) (sym e) ∙ slice-behind front q rest in
    rw (head, u)
      (ap
          (λ op.
            if not (opcode_to_u8 op == opcode_to_u8 OpCode.query)
            then err (text bad_opcode)
            else (slice buf header_bytes (header_bytes + length q) >>= λ packets.
                with_question std datastore header (from_packets std packets)))
          o
        ∙ ap (λ m. m >>= λ packets. with_question std datastore header (from_packets std packets))
            body
        ∙ ap (with_question std datastore header)
            (from_packets-question_bytes std name qtype qclass h fits ascii))

-- What a query is answered with, by the records that were found.
abbrev pub reply_for : Header → Question → List InternalResourceRecord → Reply
reply_for header q [] = reply_nxdomain header.id
reply_for header q (r ∷ rs) = found_reply header q (r ∷ rs)
