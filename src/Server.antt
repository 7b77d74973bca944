-- ===== src/Server.antt =====
-- parse_query, get_result and check_for_shutdown of src/servers.rs. Capturing packets and logging are
-- left out.
pub mod Query
pub mod EndToEnd
pub mod Chaos
pub mod Transport
use goatns.Prelude.{
  ℕ, ◌+◌, ◌%◌, Bool, true, false, not, ◌&&◌, Option, none, some, List, [], ◌∷◌, ◌++◌, ltb, leb,
  ◌==◌, if◌then◌else◌, length, take, drop, Result, ok, err, panic, stuck, ◌>>=◌, Bytes, equal, text,
  bad_header, bad_opcode, utf8_error,
}
use goatns.Enums.{
  OpCode, PacketType, Rcode, RecordType, RecordClass, opcode_to_u8, supported, to_u16, class_to_u16,
}
use goatns.Datastore.{ZoneRecord, Tables, handle_get_command}
use goatns.Header.{Header, HeaderCodec}
use goatns.Name.{be16, header_bytes}
use goatns.Question.{Question, from_packets, normalized_name}
use goatns.Record.{InternalResourceRecord, txt}
use goatns.Record.Rdata.{Platform}
use goatns.Reply.{
  Reply, udp_buffer_size, reply_as_bytes, as_bytes_udp, check_set_truncated, reply_builder,
  reply_nxdomain, reply_any,
}
use goatns.Utf8.{Lowercase, is_utf8}
use goatns.Zone.{Readers}

-- What comes back over the channels from the datastore; `none` is a failed receive.
abbrev pub Backend : Type 0
Backend = Bytes → RecordType → RecordClass → Option (Option ZoneRecord)

received : Result (Option ZoneRecord) → Option (Option ZoneRecord)
received (ok message) = some message
received _ = none

-- The datastore that answers from tables: an error drops the sender.
unfoldable pub table_backend : Readers → Option Tables → Backend
unfolding received handle_get_command
table_backend std db name rrtype rclass = received (handle_get_command std db name rrtype rclass)

-- `&buf[from..to]`
unfoldable pub slice : Bytes → ℕ → ℕ → Result Bytes
slice buf from to =
    if leb from to && leb to (length buf) then ok (drop from (take to buf)) else panic

-- `"shutdown"`
abbrev pub shutdown : Bytes
shutdown = 115 ∷ 104 ∷ 117 ∷ 116 ∷ 100 ∷ 111 ∷ 119 ∷ 110 ∷ []

abbrev pub is_chaos : RecordClass → Bool
is_chaos rclass = class_to_u16 rclass == class_to_u16 RecordClass.chaos

-- The reply at the end of get_result.
unfoldable pub found_reply : Header → Question → List InternalResourceRecord → Reply
found_reply header question typerecords = record {
  header = record {
    id = header.id;
    qr = PacketType.answer;
    opcode = header.opcode;
    authoritative = true;
    truncated = false;
    recursion_desired = header.recursion_desired;
    recursion_available = header.recursion_available;
    z = false;
    ad = true;
    cd = false;
    rcode = Rcode.no_error;
    qdcount = 1;
    ancount = length typerecords % 0x10000;
    nscount = 0;
    arcount = 0;
  };
  question = some question;
  answers = typerecords;
  authorities = [];
  additional = [];
}

-- get_result behind the answer of the datastore
unfoldable pub from_datastore : Header → Question → Option (Option ZoneRecord) → Reply
unfolding found_reply reply_builder reply_nxdomain
from_datastore header question none = reply_builder header.id Rcode.serv_fail
from_datastore header question (some none) = reply_nxdomain header.id
from_datastore header question (some (some zr)) = found_reply header question zr.typerecords

-- get_result behind the test for CHAOS commands
unfoldable pub look_up : Backend → Header → Question → Reply
unfolding to_u16 reply_any from_datastore
look_up datastore header question =
    if to_u16 question.qtype == to_u16 RecordType.any
    then reply_any header.id question
    else from_datastore header question (datastore question.qname question.qtype question.qclass)

-- The reply to CHAOS `shutdown`: the header of the query, unchanged.
unfoldable pub echo_reply : Header → Question → Reply
echo_reply header question = record {
  header = header;
  question = some question;
  answers = [];
  authorities = [];
  additional = [];
}

-- get_result behind the parsing of the question
unfoldable pub answer_question : Lowercase → Backend → Header → Question → Result Reply
unfolding supported class_to_u16 normalized_name equal look_up echo_reply reply_builder
answer_question std datastore header question =
    if not (supported question.qtype)
    then ok (reply_builder header.id Rcode.not_implemented)
    else if is_chaos question.qclass
    then (normalized_name std question >>= λ name.
        if equal name shutdown
        then ok (echo_reply header question)
        else ok (look_up datastore header question))
    else ok (look_up datastore header question)

-- The `match` on the parsed question: an error is answered with ServFail.
unfoldable pub with_question : Lowercase → Backend → Header → Result Question → Result Reply
unfolding answer_question reply_builder
with_question std datastore header (ok question) = answer_question std datastore header question
with_question std datastore header (err e) = ok (reply_builder header.id Rcode.serv_fail)
with_question std datastore header panic = panic
with_question std datastore header stuck = stuck

unfoldable pub get_result : Lowercase → Backend → Header → ℕ → Bytes → Result Reply
unfolding opcode_to_u8 slice from_packets with_question
get_result std datastore header len buf =
    if not (opcode_to_u8 header.opcode == opcode_to_u8 OpCode.query)
    then err (text bad_opcode)
    else (slice buf header_bytes len >>= λ packets.
        with_question std datastore header (from_packets std packets))

unfoldable pub unpacked : Option Header → Result Header
unpacked none = err (text bad_header)
unpacked (some header) = ok header

unfoldable pub parse_query : HeaderCodec → Lowercase → Backend → ℕ → Bytes → Result Reply
unfolding slice unpacked get_result
parse_query codec std datastore len buf = slice buf 0 header_bytes >>= λ split_header.
    unpacked (codec.unpack split_header) >>= λ header. get_result std datastore header len buf

-- `CHAOS_OK` and `CHAOS_NO`
abbrev pub chaos_ok : InternalResourceRecord
chaos_ok = txt (79 ∷ 75 ∷ []) 0 RecordClass.chaos

abbrev pub chaos_no : InternalResourceRecord
chaos_no = txt (78 ∷ 79 ∷ []) 0 RecordClass.chaos

pub data ChaosResult : Type 0 where
  refused shut_down : Reply → ChaosResult

unfoldable pub refusal : Reply → Reply
refusal r = record r {
  answers = r.answers ++ (chaos_no ∷ []);
  header = record r.header { rcode = Rcode.refused };
}

unfoldable pub consent : Reply → Reply
consent r = record r { answers = r.answers ++ (chaos_ok ∷ []) }

-- check_for_shutdown for a reply with a question
unfoldable pub check_question : Question → Reply → Bool → Result ChaosResult
unfolding class_to_u16 is_utf8 equal refusal consent
check_question q r allowed_shutdown =
    if not (is_chaos q.qclass)
    then ok (refused (refusal r))
    else if not (is_utf8 q.qname)
    then err utf8_error
    else if not (equal q.qname shutdown)
    then ok (refused (refusal r))
    else if allowed_shutdown
    then ok (shut_down (consent r))
    else ok (refused (refusal r))

check_asked : Option Question → Reply → Bool → Result ChaosResult
unfolding check_question refusal
check_asked none r allowed_shutdown = ok (refused (refusal r))
check_asked (some q) r allowed_shutdown = check_question q r allowed_shutdown

unfoldable pub check_for_shutdown : Reply → Bool → Result ChaosResult
unfolding check_asked
check_for_shutdown r allowed_shutdown = check_asked r.question r allowed_shutdown
