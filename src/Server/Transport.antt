-- ===== src/Server/Transport.antt =====
-- The parts of udp_server and tcp_conn_handler of src/servers.rs between reading and writing. A
-- timeout is a Boolean that says whether the answer came in time.
pub mod Limits
use goatns.Prelude.{
  ℕ, ◌+◌, ◌%◌, Bool, true, false, not, ◌&&◌, Option, none, some, List, [], ◌∷◌, ◌++◌, ltb, leb,
  ◌==◌, if◌then◌else◌, length, take, drop, Result, ok, err, panic, stuck, ◌>>=◌, Bytes, equal, text,
  bad_header, bad_opcode, utf8_error,
}
use goatns.Enums.{
  OpCode, PacketType, Rcode, RecordType, RecordClass, opcode_to_u8, supported, to_u16, class_to_u16,
}
use goatns.Datastore.{ZoneRecord, Tables, handle_get_command}
use goatns.Header.{Header, HeaderCodec}
use goatns.Name.{be16, header_bytes}
use goatns.Question.{Question, from_packets, normalized_name}
use goatns.Record.{InternalResourceRecord, txt}
use goatns.Record.Rdata.{Platform}
use goatns.Reply.{
  Reply, udp_buffer_size, reply_as_bytes, as_bytes_udp, check_set_truncated, reply_builder,
  reply_nxdomain, reply_any,
}
use goatns.Utf8.{Lowercase, is_utf8}
use goatns.Server.{Backend, slice, parse_query, check_for_shutdown, ChaosResult, refused, shut_down}
use goatns.Zone.{Readers}

-- `unwrap_or`
unwrap_or : Result Bytes → Bytes → Result Bytes
unwrap_or (ok value) default = ok value
unwrap_or (err e) default = ok default
unwrap_or panic default = panic
unwrap_or stuck default = stuck

-- udp_server: what is sent for a reply.
unfoldable pub udp_reply_bytes : HeaderCodec → Platform → Reply → Result Bytes
unfolding reply_as_bytes check_set_truncated as_bytes_udp unwrap_or
udp_reply_bytes codec std r = reply_as_bytes codec std r >>= λ value.
    if ltb udp_buffer_size (length value)
    then (check_set_truncated codec std r >>= λ truncated.
        unwrap_or (as_bytes_udp codec std truncated) value)
    else ok value

-- What a round of the loop sends: an error in either step is logged, and nothing is sent.
sent : Result Bytes → Result (Option Bytes)
sent (ok value) = ok (some value)
sent (err e) = ok none
sent panic = panic
sent stuck = stuck

-- One round of the loop of udp_server, once `recv_from` has put a datagram of `len` bytes at the
-- beginning of the buffer: what is sent back, if anything. A panic ends the server.
unfoldable pub udp_round :
    HeaderCodec
    → Lowercase
    → Platform
    → Backend
    → (in_time : Bool) → (len : ℕ) → (udp_buffer : Bytes) → Result (Option Bytes)
unfolding parse_query udp_reply_bytes sent
udp_round codec std platform datastore in_time len udp_buffer =
    if in_time
    then sent
        (parse_query codec std datastore len udp_buffer >>= λ r. udp_reply_bytes codec platform r)
    else ok none

-- The loop of tcp_conn_handler that reads: each chunk is what one `read_buf` gives. `none` is a
-- stream with too few bytes, where the loop goes on until the connection's timeout.
unfoldable pub read_message : ℕ → Bytes → List Bytes → Option Bytes
read_message msg_length buf [] = if ltb (length buf) msg_length then none else some buf
read_message msg_length buf (chunk ∷ chunks) =
    let rest = read_message msg_length (buf ++ chunk) chunks in
    if ltb (length buf) msg_length then rest else some buf

-- What the handler of a connection does: is the server stopped, and what is written.
pub record TcpOutcome : Type 0 where
  pub stopped : Bool
  pub written : Bytes

-- `to_be_bytes` of the length, then the bytes
framed : Bool → Bytes → TcpOutcome
framed stopped reply_bytes = record {
  stopped = stopped;
  written = be16 (length reply_bytes % 0x10000) ++ reply_bytes;
}

-- An error while the reply is written after a shutdown was sent.
written_or_none : Bool → Result Bytes → Result TcpOutcome
unfolding framed
written_or_none stopped (ok reply_bytes) = ok (framed stopped reply_bytes)
written_or_none stopped (err e) = ok (record { stopped = stopped; written = [] })
written_or_none stopped panic = panic
written_or_none stopped stuck = stuck

-- The `match` on what check_for_shutdown says; an error of parse_query or of check_for_shutdown is
-- logged, and nothing is written.
after_check : HeaderCodec → Platform → Result ChaosResult → Result TcpOutcome
unfolding reply_as_bytes written_or_none
after_check codec std (ok (refused response)) =
    written_or_none false (reply_as_bytes codec std response)
after_check codec std (ok (shut_down response)) =
    written_or_none true (reply_as_bytes codec std response)
after_check codec std (err e) = ok (record { stopped = false; written = [] })
after_check codec std panic = panic
after_check codec std stuck = stuck

unfoldable pub tcp_reply : HeaderCodec → Platform → Bool → Result Reply → Result TcpOutcome
unfolding check_for_shutdown after_check
tcp_reply codec std allowed_shutdown result =
    after_check codec std (result >>= λ r. check_for_shutdown r allowed_shutdown)

-- tcp_conn_handler behind the reading of the message
unfoldable pub tcp_message :
    HeaderCodec
    → Lowercase
    → Platform
    → Backend
    → (in_time allowed_shutdown : Bool) → ℕ
    → Bytes
    → Result TcpOutcome
unfolding slice parse_query tcp_reply
tcp_message codec std platform datastore in_time allowed_shutdown msg_length buf =
    slice buf 0 msg_length >>= λ message.
    if in_time
    then tcp_reply codec platform allowed_shutdown
        (parse_query codec std datastore msg_length message)
    else ok (record { stopped = false; written = [] })
