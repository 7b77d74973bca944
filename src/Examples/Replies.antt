-- ===== src/Examples/Replies.antt =====
-- The theorems on replies and on the servers applied to small replies.
use goatns.Prelude.{
  ◌+◌, ◌%◌, ◌≤◌, true, false, some, List, [], ◌∷◌, ◌++◌, ◌≡◌, ◌≢◌, ◌↔◌, refl, arith, ltb,
  if◌then◌else◌, All, length, take, ok, panic, Bytes, codes,
}
use goatns.Enums.{PacketType, Rcode, RecordType, RecordClass}
use goatns.Examples.{www, mail, www-IsName, mail-IsName, query_header, platform, readers, tables}
use goatns.Header.{Header, IsWide, default}
use goatns.Header.Layout.{layout_codec, unpack_layout}
use goatns.Name.{header_bytes, be16}
use goatns.Name.RoundTrip.{Shares, beside}
use goatns.Question.{Question}
use goatns.Record.{InternalResourceRecord, cname, record_type}
use goatns.Record.Rdata.Laws.{cname_to}
use goatns.Reply.{Reply, udp_buffer_size, reply_as_bytes}
use goatns.Reply.Answers.{Answered, reply_as_bytes-Answered}
use goatns.Reply.Udp.{IsPlain, sent_header, reply_as_bytes-Returns}
use goatns.Server.{table_backend, shut_down, shutdown, consent, check_for_shutdown}
use goatns.Server.Chaos.{AsksShutdown, check_for_shutdown_iff}
use goatns.Server.Transport.{udp_reply_bytes, udp_round, read_message, tcp_reply}
use goatns.Server.Transport.Limits.{
  read_message-slice, udp_reply_bytes-limit, udp_round_short, tcp_reply_refuses,
}
use goatns.Server.{slice}
use goatns.Utf8.{ascii_lowercase}

abbrev question : Question
question = record { qname = www; qtype = RecordType.cname; qclass = RecordClass.internet }

abbrev alias : InternalResourceRecord
alias = cname mail 300 RecordClass.internet

abbrev reply : Reply
reply = record {
  header = record query_header { qr = PacketType.answer; ancount = 1 };
  question = some question;
  answers = alias ∷ [];
  authorities = [];
  additional = [];
}

reply-IsWide : IsWide reply.header
reply-IsWide = record {
  id = omega arith;
  qdcount = omega arith;
  ancount = omega arith;
  nscount = omega arith;
  arcount = omega arith;
}

reply-IsPlain : All IsPlain reply.answers
unfolding record_type
reply-IsPlain = ((λ e. cc, λ e. cc), tt)

reply_as_bytes-Returns_example :
    (msg : Bytes) × (reply_as_bytes layout_codec platform reply ≡ ok msg)
    × (layout_codec.unpack (take 12 msg) ≡ some (sent_header reply))
reply_as_bytes-Returns_example =
    reply_as_bytes-Returns layout_codec platform reply reply-IsWide reply-IsPlain

reply-written :
    (msg : Bytes) × (reply_as_bytes layout_codec platform reply ≡ ok msg)
    × (layout_codec.unpack (take 12 msg) ≡ some (sent_header reply))
reply-written = reply_as_bytes-Returns layout_codec platform reply reply-IsWide reply-IsPlain

abbrev message : Bytes
message = reply-written.0

mail-www : Shares mail www
mail-www =
    beside (codes "mai") (codes "ww") (codes "example.com") 108 119 (λ e. omega arith) refl refl

reply_as_bytes-Answered_example : Answered message question alias mail
reply_as_bytes-Answered_example =
    reply_as_bytes-Answered layout_codec platform reply question [] [] alias mail message refl refl
      (cname_to mail 300 RecordClass.internet) www-IsName (omega arith) mail-IsName mail-www
      reply-written.1

udp_reply_bytes-limit_example :
    (whole out : Bytes) × (reply_as_bytes layout_codec platform reply ≡ ok whole)
    × (udp_reply_bytes layout_codec platform reply ≡ ok out)
    × (length out ≤ udp_buffer_size)
    × (layout_codec.unpack (take 12 out)
        ≡ some (record (sent_header reply) {
          truncated = if ltb udp_buffer_size (length whole) then true else reply.header.truncated;
        }))
udp_reply_bytes-limit_example =
    udp_reply_bytes-limit layout_codec platform reply reply-IsWide reply-IsPlain

-- The beginning of the buffer as it was made: the empty datagram leaves it so.
abbrev zeros : Bytes
zeros = 0 ∷ 0 ∷ 0 ∷ 0 ∷ 0 ∷ 0 ∷ 0 ∷ 0 ∷ 0 ∷ 0 ∷ 0 ∷ 0 ∷ 0 ∷ 0 ∷ []

abbrev zero_header : Header
zero_header = record default { authoritative = false }

zeros-unpack : layout_codec.unpack (take header_bytes zeros) ≡ some zero_header
unfolding layout_codec unpack_layout
zeros-unpack = refl

udp_round_short_example :
    udp_round layout_codec ascii_lowercase platform
      (table_backend readers (some tables))
      true
      0
      zeros
    ≡ panic
udp_round_short_example =
    udp_round_short layout_codec ascii_lowercase platform (table_backend readers (some tables)) 0
      zeros zero_header (omega arith) (omega arith) zeros-unpack refl

reply-ordinary : (q : Question) → reply.question ≡ some q → q.qclass ≢ RecordClass.chaos
reply-ordinary q e c = cc

tcp_reply_refuses_example :
    (out : Bytes) × (tcp_reply layout_codec platform true (ok reply)
      ≡ ok (record { stopped = false; written = be16 (length out % 0x10000) ++ out }))
    × (layout_codec.unpack (take 12 out)
        ≡ some (record reply.header {
          rcode = Rcode.refused;
          ancount = (length reply.answers + 1) % 0x10000;
        }))
tcp_reply_refuses_example =
    tcp_reply_refuses layout_codec platform reply true reply-ordinary reply-IsWide reply-IsPlain

abbrev chaos_reply : Reply
chaos_reply = record {
  header = query_header;
  question = some (record { qname = shutdown; qtype = RecordType.txt; qclass = RecordClass.chaos });
  answers = [];
  authorities = [];
  additional = [];
}

check_for_shutdown_iff_example :
    (check_for_shutdown chaos_reply true ≡ ok (shut_down (consent chaos_reply)))
    ↔ ((true ≡ true) × AsksShutdown chaos_reply × (consent chaos_reply ≡ consent chaos_reply))
check_for_shutdown_iff_example = check_for_shutdown_iff chaos_reply (consent chaos_reply) true

abbrev wanted : Bytes
wanted = 1 ∷ 2 ∷ 3 ∷ []

abbrev chunks : List Bytes
chunks = (1 ∷ []) ∷ (2 ∷ 3 ∷ 4 ∷ []) ∷ []

read_message-slice_example :
    (read : Bytes) × (read_message (length wanted) [] chunks ≡ some read)
    × (slice read 0 (length wanted) ≡ ok wanted)
read_message-slice_example = read_message-slice [] wanted (4 ∷ []) chunks refl
