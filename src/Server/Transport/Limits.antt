-- ===== src/Server/Transport/Limits.antt =====
-- What is read from and written to the sockets (src/servers.rs).
use goatns.Prelude.{
  ℕ, zero, suc, ◌+◌, ◌%◌, ◌≤◌, ◌<◌, Bool, true, false, some, List, [], ◌∷◌, ◌++◌, ◌≡◌, ◌≢◌, refl,
  sym, ap, ◌∙◌, inl, inr, ltb, Bool-cases, if◌then◌else◌, All, All-append, length, take,
  length-append, take-append, append_assoc, ok, panic, Bytes, arith,
}
use goatns.Enums.{OpCode, Rcode, RecordClass}
use goatns.Header.{Header, HeaderCodec, IsWide}
use goatns.Name.{be16, header_bytes}
use goatns.Question.{Question}
use goatns.Record.Rdata.{Platform}
use goatns.Reply.{Reply, udp_buffer_size, reply_as_bytes}
use goatns.Reply.Udp.{IsPlain, sent_header, reply_as_bytes-Returns, as_bytes_udp-limit}
use goatns.Server.{Backend, slice, parse_query, get_result, unpacked, refusal, chaos_no}
use goatns.Record.{record_type}
use goatns.Server.Chaos.{check_for_shutdown_refuses}
use goatns.Server.Query.{slice_in_range}
use goatns.Server.Transport.{
  udp_reply_bytes, sent, udp_round, read_message, framed, written_or_none, tcp_reply, after_check,
  unwrap_or,
}
use goatns.Utf8.{Lowercase}

abbrev pub concat : List Bytes → Bytes
concat [] = []
concat (chunk ∷ chunks) = chunk ++ concat chunks

take_prefix : (n : ℕ) (xs ys : Bytes) → n ≤ length xs → take n (xs ++ ys) ≡ take n xs
take_prefix zero xs ys h = refl
take_prefix (suc n) [] ys h = absurd (omega arith)
take_prefix (suc n) (x ∷ xs) ys h = ap (◌∷◌ x) (take_prefix n xs ys (omega arith))

take-take : (m n : ℕ) (xs : Bytes) → m ≤ n → take m (take n xs) ≡ take m xs
take-take zero n xs h = refl
take-take (suc m) zero xs h = absurd (omega arith)
take-take (suc m) (suc n) [] h = refl
take-take (suc m) (suc n) (x ∷ xs) h = ap (◌∷◌ x) (take-take m n xs (omega arith))

-- A buffer with enough bytes of a stream holds the message.
slice-enough :
    (buf message more rest : Bytes)
    → length message ≤ length buf
    → buf ++ rest ≡ message ++ more
    → slice buf 0 (length message) ≡ ok message
slice-enough buf message more rest h e =
    slice_in_range buf 0 (length message) (omega arith) h
    ∙ ap ok (
        sym (take_prefix (length message) buf rest h)
        ∙ ap (take (length message)) e
        ∙ take-append message more)

-- However a stream is cut into chunks, the handler of a connection reads a message of the length
-- that was announced, and it is the beginning of the stream.
pub read_message-slice :
    (buf message more : Bytes) (chunks : List Bytes)
    → buf ++ concat chunks ≡ message ++ more
    → (read : Bytes) × (read_message (length message) buf chunks ≡ some read)
      × (slice read 0 (length message) ≡ ok message)
unfolding read_message
read_message-slice buf message more [] e =
    let enough : length message ≤ length buf =
      omega (arith, ap length e, length-append buf [], length-append message more) in
    (buf, ground arith, slice-enough buf message more [] enough e)
read_message-slice buf message more (chunk ∷ chunks) e =
    elim (Bool-cases (ltb (length buf) (length message))) [
      | inl l ↦ rw l (
          read_message-slice (buf ++ chunk) message more chunks
            (append_assoc buf chunk (concat chunks) ∙ e))
      | inr l ↦
          rw l (buf, refl, slice-enough buf message more (chunk ++ concat chunks) (ground arith) e)
    ]

-- What is sent over UDP for a reply whose answers are neither AXFR nor LOC has at most 1,232 bytes,
-- and its header says whether the reply was cut.
pub udp_reply_bytes-limit :
    (codec : HeaderCodec) (std : Platform) (reply : Reply)
    → IsWide reply.header
    → All IsPlain reply.answers
    → (whole out : Bytes) × (reply_as_bytes codec std reply ≡ ok whole)
      × (udp_reply_bytes codec std reply ≡ ok out)
      × (length out ≤ udp_buffer_size)
      × (codec.unpack (take 12 out)
          ≡ some (record (sent_header reply) {
            truncated = if ltb udp_buffer_size (length whole) then true else reply.header.truncated;
          }))
unfolding udp_reply_bytes unwrap_or
udp_reply_bytes-limit codec std reply wide plain =
    let (whole, e, unpacks) = reply_as_bytes-Returns codec std reply wide plain in
    let flagged : Reply = record reply { header = record reply.header { truncated = true } } in
    let (whole', e', unpacks') =
      reply_as_bytes-Returns codec std flagged
        (record {
          id = wide.id;
          qdcount = wide.qdcount;
          ancount = wide.ancount;
          nscount = wide.nscount;
          arcount = wide.arcount;
        })
        plain in
    let (cut', short, _, _) = as_bytes_udp-limit codec std flagged whole' e' in
    elim (Bool-cases (ltb udp_buffer_size (length whole))) [
      | inr l ↦ (whole, whole, e, rw (e, l) refl, ground arith, rw l unpacks)
      | inl l ↦ (
        whole,
        take udp_buffer_size whole',
        e,
        rw (e, l, cut') refl,
        short,
        rw l (ap codec.unpack (take-take 12 udp_buffer_size whole' (omega arith)) ∙ unpacks'),
      )
    ]

parse_query_short :
    (codec : HeaderCodec) (std : Lowercase) (datastore : Backend) (len : ℕ) (buf : Bytes)
    (header : Header)
    → len < header_bytes
    → header_bytes ≤ length buf
    → codec.unpack (take header_bytes buf) ≡ some header
    → header.opcode ≡ OpCode.query
    → parse_query codec std datastore len buf ≡ panic
unfolding parse_query get_result unpacked slice
parse_query_short codec std datastore len buf header short long u o =
    rw (slice_in_range buf 0 header_bytes (omega arith) long, u) (rw o (ground arith))

-- A datagram of less than twelve bytes ends the UDP server, where the first twelve bytes of the
-- buffer, with what is left there from before, are the header of a query.
pub udp_round_short :
    (codec : HeaderCodec) (std : Lowercase) (platform : Platform) (datastore : Backend) (len : ℕ)
    (buffer : Bytes) (header : Header)
    → len < header_bytes
    → header_bytes ≤ length buffer
    → codec.unpack (take header_bytes buffer) ≡ some header
    → header.opcode ≡ OpCode.query
    → udp_round codec std platform datastore true len buffer ≡ panic
unfolding udp_round sent
udp_round_short codec std platform datastore len buffer header short long u o =
    rw (parse_query_short codec std datastore len buffer header short long u o) refl

IsPlain-chaos_no : IsPlain chaos_no
unfolding record_type
IsPlain-chaos_no = (λ e. cc, λ e. cc)

-- Over TCP a reply to a question that is not CHAOS is never sent as it is: what is written says
-- Refused, has one answer more, and the server goes on.
pub tcp_reply_refuses :
    (codec : HeaderCodec) (std : Platform) (reply : Reply) (allowed_shutdown : Bool)
    → ((q : Question) → reply.question ≡ some q → q.qclass ≢ RecordClass.chaos)
    → IsWide reply.header
    → All IsPlain reply.answers
    → (out : Bytes) × (tcp_reply codec std allowed_shutdown (ok reply)
        ≡ ok (record { stopped = false; written = be16 (length out % 0x10000) ++ out }))
      × (codec.unpack (take 12 out)
          ≡ some (record reply.header {
            rcode = Rcode.refused;
            ancount = (length reply.answers + 1) % 0x10000;
          }))
unfolding tcp_reply after_check written_or_none framed refusal
tcp_reply_refuses codec std reply allowed h wide plain =
    let (out, e, unpacks) =
      reply_as_bytes-Returns codec std (refusal reply)
        (record {
          id = wide.id;
          qdcount = wide.qdcount;
          ancount = wide.ancount;
          nscount = wide.nscount;
          arcount = wide.arcount;
        })
        (All-append IsPlain reply.answers (chaos_no ∷ []) plain (IsPlain-chaos_no, tt)) in
    (
      out,
      ap (after_check codec std) (check_for_shutdown_refuses reply allowed h)
          ∙ ap (written_or_none false) e,
      unpacks
          ∙ ap (λ n. some (record reply.header { rcode = Rcode.refused; ancount = n % 0x10000 }))
              (length-append reply.answers (chaos_no ∷ [])),
    )
