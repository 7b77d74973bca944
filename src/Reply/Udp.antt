-- ===== src/Reply/Udp.antt =====
-- The limit on replies over UDP, and when the bytes of a reply are there at all (src/reply.rs).
use goatns.Prelude.{
  ℕ, zero, suc, ◌%◌, ◌≤◌, ◌<◌, true, Option, none, some, List, [], ◌∷◌, ◌++◌, ◌≡◌, ◌≢◌, refl, sym,
  ap, subst, ◌∙◌, inl, inr, ltb, Bool-cases, All, length, take, length-take, take-append, ok, ◌>>=◌,
  Returns, Returns-bind, Bytes, arith,
}
use goatns.Enums.{RecordType}
use goatns.Header.{Header, HeaderCodec, IsWide}
use goatns.Name.{name_as_bytes}
use goatns.Name.Total.{name_as_bytes-Returns}
use goatns.Question.{Question, try_to_bytes}
use goatns.Record.{InternalResourceRecord, record_type}
use goatns.Record.Rdata.{Platform, as_bytes}
use goatns.Record.Rdata.Laws.{as_bytes-Returns}
use goatns.Reply.{
  Reply, udp_buffer_size, answer_bytes, answers_bytes, packed, sections_bytes, reply_as_bytes, cut,
  as_bytes_udp, truncated_if, check_set_truncated, resource_record_bytes,
}

-- A record that is neither AXFR nor LOC.
abbrev pub IsPlain : InternalResourceRecord → Type 0
IsPlain r = (record_type r ≢ RecordType.axfr) × (record_type r ≢ RecordType.loc)

answer_bytes-Returns :
    (std : Platform) (q : Question) (r : InternalResourceRecord)
    → IsPlain r
    → Returns (answer_bytes std q r)
unfolding answer_bytes resource_record_bytes name_as_bytes
answer_bytes-Returns std q r (h, k) =
    Returns-bind (as_bytes std r q.qname) _ (as_bytes-Returns std r q.qname h k)
      (λ rdata. (_, refl))

answers_bytes-Returns :
    (std : Platform) (q : Question) (rs : List InternalResourceRecord)
    → All IsPlain rs
    → Returns (answers_bytes std q rs)
unfolding answers_bytes
answers_bytes-Returns std q [] h = ([], refl)
answers_bytes-Returns std q (r ∷ rs) (g, h) =
    Returns-bind (answer_bytes std q r) _ (answer_bytes-Returns std q r g) (λ b.
      Returns-bind (answers_bytes std q rs) (λ others. ok (b ++ others))
        (answers_bytes-Returns std q rs h) (λ others. (b ++ others, refl)))

sections_bytes-Returns :
    (std : Platform) (question : Option Question) (rs : List InternalResourceRecord)
    → All IsPlain rs
    → Returns (sections_bytes std question rs)
unfolding sections_bytes try_to_bytes
sections_bytes-Returns std none rs h = ([], refl)
sections_bytes-Returns std (some q) rs h =
    Returns-bind (try_to_bytes q) _
      (Returns-bind (name_as_bytes q.qname none none) _ (name_as_bytes-Returns q.qname none none)
        (λ b. (_, refl)))
      (λ front.
        Returns-bind (answers_bytes std q rs) (λ others. ok (front ++ others))
          (answers_bytes-Returns std q rs h) (λ others. (front ++ others, refl)))

-- The header that is sent, with the number of answers.
abbrev pub sent_header : Reply → Header
sent_header reply = record reply.header { ancount = length reply.answers % 0x10000 }

pub sent_header-IsWide : (reply : Reply) → IsWide reply.header → IsWide (sent_header reply)
sent_header-IsWide reply wide = record {
  id = wide.id;
  qdcount = wide.qdcount;
  ancount = omega arith;
  nscount = wide.nscount;
  arcount = wide.arcount;
}

-- A reply whose answers are neither AXFR nor LOC has bytes, and their first twelve are a header that
-- unpacks to the reply's own header with the number of its answers, modulo 2 ^ 16.
pub reply_as_bytes-Returns :
    (codec : HeaderCodec) (std : Platform) (reply : Reply)
    → IsWide reply.header
    → All IsPlain reply.answers
    → (msg : Bytes) × (reply_as_bytes codec std reply ≡ ok msg)
      × (codec.unpack (take 12 msg) ≡ some (sent_header reply))
unfolding reply_as_bytes packed
reply_as_bytes-Returns codec std reply wide plain =
    let (b, packs, unpacks) =
      codec.unpack-pack (sent_header reply) (sent_header-IsWide reply wide) in
    let (sections, e) = sections_bytes-Returns std reply.question reply.answers plain in
    (
      b ++ sections,
      rw (packs, e) refl,
      subst (λ n. codec.unpack (take n (b ++ sections)) ≡ some (sent_header reply))
          (codec.length-pack _ b packs) (ap codec.unpack (take-append b sections) ∙ unpacks),
    )

take_all : (n : ℕ) (xs : Bytes) → length xs ≤ n → take n xs ≡ xs
take_all zero [] h = refl
take_all zero (x ∷ xs) h = absurd (omega arith)
take_all (suc n) [] h = refl
take_all (suc n) (x ∷ xs) h = ap (◌∷◌ x) (take_all n xs (omega arith))

cut-take : (msg : Bytes) → cut msg ≡ take udp_buffer_size msg
unfolding cut
cut-take msg = elim (Bool-cases (ltb udp_buffer_size (length msg))) [
  | inl e ↦ rw e refl
  | inr e ↦ rw e (sym (take_all udp_buffer_size msg (ground arith)))
]

-- What is sent over UDP is the first 1,232 bytes of the reply's bytes, so at most 1,232, and the
-- flag of truncation is set exactly where bytes are left out.
pub as_bytes_udp-limit :
    (codec : HeaderCodec) (std : Platform) (reply : Reply) (msg : Bytes)
    → reply_as_bytes codec std reply ≡ ok msg
    → (as_bytes_udp codec std reply ≡ ok (take udp_buffer_size msg))
      × (length (take udp_buffer_size msg) ≤ udp_buffer_size)
      × (length msg ≤ udp_buffer_size → check_set_truncated codec std reply ≡ ok reply)
      × (udp_buffer_size < length msg
          → check_set_truncated codec std reply
            ≡ ok (record reply { header = record reply.header { truncated = true } }))
unfolding as_bytes_udp check_set_truncated truncated_if
as_bytes_udp-limit codec std reply msg e = (
  ap (λ m. m >>= λ result. ok (cut result)) e ∙ ap ok (cut-take msg),
  omega (arith, length-take udp_buffer_size msg),
  λ h. rw e (ground arith),
  λ h. rw e (ground arith),
)
