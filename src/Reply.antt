-- ===== src/Reply.antt =====
-- `Reply` of src/reply.rs and `ResourceRecord` of src/lib.rs: the answer that is sent back, and its
-- bytes. A record in the authorities or the additional section is only logged.
pub mod Answers
pub mod Udp
use goatns.Prelude.{
  ℕ, ◌%◌, Bool, true, false, Option, none, some, List, [], ◌∷◌, ◌++◌, ltb, if◌then◌else◌, length,
  take, Result, ok, err, panic, stuck, ◌>>=◌, Bytes, byte_packing,
}
use goatns.Enums.{RecordType, RecordClass, PacketType, Rcode, to_u16, class_to_u16}
use goatns.Header.{Header, HeaderCodec, default}
use goatns.Name.{name_as_bytes, be16, header_bytes}
use goatns.Question.{Question, try_to_bytes}
use goatns.Record.{
  InternalResourceRecord, a, aaaa, axfr, caa, cname, loc, naptr, ns, soa, ptr, hinfo, mx, txt, uri,
  invalid_type, record_type,
}
use goatns.Record.Rdata.{Platform, as_bytes, be_bytes}

-- `UDP_BUFFER_SIZE`
abbrev pub udp_buffer_size : ℕ
udp_buffer_size = 1232

pub record ResourceRecord : Type 0 where
  pub name : Bytes
  pub record_type : RecordType
  pub class : RecordClass
  pub ttl : ℕ
  pub rdata : Bytes

-- `TryFrom<&ResourceRecord> for Vec<u8>`
unfoldable pub resource_record_bytes : ResourceRecord → Result Bytes
unfolding name_as_bytes to_u16 class_to_u16
resource_record_bytes r = name_as_bytes r.name (some header_bytes) none >>= λ name_bytes. ok (
    name_bytes
    ++ (be16 (to_u16 r.record_type)
        ++ (be16 (class_to_u16 r.class)
            ++ (be_bytes 4 r.ttl ++ (be16 (length r.rdata % 0x10000) ++ r.rdata)))))

pub record Reply : Type 0 where
  pub header : Header
  pub question : Option Question
  pub answers : List InternalResourceRecord
  pub authorities : List ResourceRecord
  pub additional : List ResourceRecord

-- The `match` on an answer for its TTL in `Reply::as_bytes`.
unfoldable pub answer_ttl : InternalResourceRecord → ℕ
answer_ttl (a _ t _) = t
answer_ttl (aaaa _ t _) = t
answer_ttl (axfr t _) = t
answer_ttl (caa _ _ _ t _) = t
answer_ttl (cname _ t _) = t
answer_ttl (hinfo _ _ t _) = t
answer_ttl invalid_type = 1
answer_ttl (loc t _ _ _ _ _ _ _ _) = t
answer_ttl (mx _ _ t _) = t
answer_ttl (naptr t _ _ _ _ _) = t
answer_ttl (ns _ t _) = t
answer_ttl (ptr _ t _) = t
answer_ttl (soa _ _ _ _ _ _ _ minimum _) = minimum
answer_ttl (txt _ t _) = t
answer_ttl (uri _ _ _ t _) = t

-- One round of the loop over the answers.
unfoldable pub answer_bytes : Platform → Question → InternalResourceRecord → Result Bytes
unfolding as_bytes record_type answer_ttl resource_record_bytes
answer_bytes std question answer = as_bytes std answer question.qname >>= λ rdata.
    resource_record_bytes (record {
      name = question.qname;
      record_type = record_type answer;
      class = question.qclass;
      ttl = answer_ttl answer;
      rdata = rdata;
    })

unfoldable pub answers_bytes : Platform → Question → List InternalResourceRecord → Result Bytes
unfolding answer_bytes
answers_bytes std question [] = ok []
answers_bytes std question (answer ∷ answers) = answer_bytes std question answer >>= λ reply_bytes.
    answers_bytes std question answers >>= λ others. ok (reply_bytes ++ others)

-- The question and the answers behind the header.
unfoldable pub sections_bytes :
    Platform → Option Question → List InternalResourceRecord → Result Bytes
unfolding try_to_bytes answers_bytes
sections_bytes std none answers = ok []
sections_bytes std (some question) answers = try_to_bytes question >>= λ question_bytes.
    answers_bytes std question answers >>= λ others. ok (question_bytes ++ others)

packed : Option Bytes → Result Bytes
packed none = err byte_packing
packed (some b) = ok b

-- `Reply::as_bytes`
unfoldable pub reply_as_bytes : HeaderCodec → Platform → Reply → Result Bytes
unfolding packed sections_bytes
reply_as_bytes codec std reply =
    let header = record reply.header { ancount = length reply.answers % 0x10000 } in
    packed (codec.pack header) >>= λ reply_header.
    sections_bytes std reply.question reply.answers >>= λ sections. ok (reply_header ++ sections)

cut : Bytes → Bytes
cut result = if ltb udp_buffer_size (length result) then take udp_buffer_size result else result

-- `Reply::as_bytes_udp`
unfoldable pub as_bytes_udp : HeaderCodec → Platform → Reply → Result Bytes
unfolding reply_as_bytes cut
as_bytes_udp codec std reply = reply_as_bytes codec std reply >>= λ result. ok (cut result)

truncated_if : Result Bytes → Reply → Result Reply
truncated_if (ok ret_bytes) reply =
    if ltb udp_buffer_size (length ret_bytes)
    then ok (record reply { header = record reply.header { truncated = true } })
    else ok reply
truncated_if (err e) reply = ok reply
truncated_if panic reply = panic
truncated_if stuck reply = stuck

-- `Reply::check_set_truncated`
unfoldable pub check_set_truncated : HeaderCodec → Platform → Reply → Result Reply
unfolding reply_as_bytes truncated_if
check_set_truncated codec std reply = truncated_if (reply_as_bytes codec std reply) reply

unfoldable pub reply_builder : ℕ → Rcode → Reply
reply_builder id rcode = record {
  header = record default { id = id; qr = PacketType.answer; rcode = rcode };
  question = none;
  answers = [];
  authorities = [];
  additional = [];
}

unfoldable pub reply_nxdomain : ℕ → Reply
unfolding reply_builder
reply_nxdomain id = reply_builder id Rcode.name_error

-- `"RFC8482"`
abbrev pub rfc8482 : Bytes
rfc8482 = 82 ∷ 70 ∷ 67 ∷ 56 ∷ 52 ∷ 56 ∷ 50 ∷ []

unfoldable pub reply_any : ℕ → Question → Reply
reply_any id question = record {
  header = record default {
    id = id;
    qr = PacketType.answer;
    rcode = Rcode.no_error;
    authoritative = true;
    qdcount = 1;
    ancount = 1;
  };
  question = some question;
  answers = hinfo (some rfc8482) (some []) 3789 question.qclass ∷ [];
  authorities = [];
  additional = [];
}
