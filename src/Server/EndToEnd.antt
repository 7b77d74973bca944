-- ===== src/Server/EndToEnd.antt =====
-- From the bytes of a query to the records of the tables (src/servers.rs, src/datastore.rs and
-- src/db/mod.rs together).
use goatns.Prelude.{
  ◌+◌, ◌≤◌, true, false, none, some, List, [], ◌∷◌, ◌++◌, ◌≡◌, ◌≢◌, refl, sym, ap, ◌∙◌, inl, inr,
  map, ◌==◌, ==_iff, Bool-cases, All, length, ok, Bytes,
}
use goatns.Enums.{OpCode, RecordType, RecordClass, supported, to_u16, from_u16}
use goatns.Enums.Laws.{from_u16-to_u16}
use goatns.Datastore.{Tables, get_records, zone_record}
use goatns.Datastore.Answers.{
  Answers, get_records-Answers, handle_get_command-found, handle_get_command-unreachable,
}
use goatns.Header.{Header, HeaderCodec}
use goatns.Name.{header_bytes}
use goatns.Name.Wire.{IsName}
use goatns.Question.{Question}
use goatns.Record.{InternalResourceRecord}
use goatns.Reply.{reply_nxdomain}
use goatns.Server.{
  Backend, table_backend, received, from_datastore, look_up, answer_question, parse_query,
}
use goatns.Server.Chaos.{not_chaos}
use goatns.Server.Query.{asked, question_bytes, parse_query-question, reply_for}
use goatns.Utf8.{Lowercase, IsAscii, ascii_lower, is_utf8-ascii, All-IsAscii-map}
use goatns.Zone.{Readers}

not_any : (t : RecordType) → t ≢ RecordType.any → (to_u16 t == to_u16 RecordType.any) ≡ false
not_any t h = elim (Bool-cases (to_u16 t == to_u16 RecordType.any)) [
  | inr e ↦ e
  | inl e ↦ absurd (
      h (
        sym (from_u16-to_u16 t)
        ∙ ap from_u16 ((==_iff (to_u16 t) (to_u16 RecordType.any)).0 e)
        ∙ from_u16-to_u16 RecordType.any))
]

-- A question that is for the datastore.
pub record IsLookup (qtype : RecordType) (qclass : RecordClass) : Type 0 where
  pub is_supported : supported qtype ≡ true
  pub no_any : qtype ≢ RecordType.any
  pub no_chaos : qclass ≢ RecordClass.chaos

answer_question-lookup :
    (std : Lowercase) (datastore : Backend) (header : Header) (q : Question)
    → IsLookup q.qtype q.qclass
    → answer_question std datastore header q
      ≡ ok (from_datastore header q (datastore q.qname q.qtype q.qclass))
unfolding answer_question look_up
answer_question-lookup std datastore header q h =
    rw (h.is_supported, not_chaos q.qclass h.no_chaos, not_any q.qtype h.no_any) refl

from_datastore-reply_for :
    (header : Header) (q : Question) (rs : List InternalResourceRecord)
    → from_datastore header q (some (zone_record q.qname rs)) ≡ reply_for header q rs
unfolding from_datastore zone_record
from_datastore-reply_for header q [] = refl
from_datastore-reply_for header q (r ∷ rs) = refl

-- A query packet whose question has a well-formed ASCII name, a type that is supported and not ANY,
-- and a class that is not CHAOS, is answered from the tables: with the records stored for the name
-- in lower case, which are all of the type and the class asked for, or with a name error where
-- there is none.
pub parse_query-answered :
    (codec : HeaderCodec) (std : Lowercase) (readers : Readers) (db : Tables) (header : Header)
    (front name rest : Bytes) (qtype : RecordType) (qclass : RecordClass)
    → length front ≡ header_bytes
    → codec.unpack front ≡ some header
    → header.opcode ≡ OpCode.query
    → IsName name
    → length name ≤ 255
    → All IsAscii name
    → IsLookup qtype qclass
    → (rs : List InternalResourceRecord) × (get_records readers
          (some db)
          (map ascii_lower name)
          qtype
          qclass
          true
        ≡ ok rs)
      × All (Answers qtype qclass) rs
      × (parse_query codec std
            (table_backend readers (some db))
            (header_bytes + length (question_bytes name qtype qclass))
            (front ++ (question_bytes name qtype qclass ++ rest))
          ≡ ok (reply_for header (asked name qtype qclass) rs))
unfolding table_backend received
parse_query-answered codec std readers db header front name rest qtype qclass e u o h fits ascii
      look =
    let q : Question = asked name qtype qclass in
    let (rs, found, all) = get_records-Answers readers db q.qname qtype qclass true in
    (
      rs,
      found,
      all,
      parse_query-question codec std (table_backend readers (some db)) header front name rest qtype
            qclass e u o h fits ascii
          ∙ answer_question-lookup std (table_backend readers (some db)) header q look
          ∙ ap (λ m. ok (from_datastore header q (received m)))
              (handle_get_command-found readers db q.qname qtype qclass rs
                (is_utf8-ascii q.qname (All-IsAscii-map name ascii)) found)
          ∙ ap ok (from_datastore-reply_for header q rs),
    )

-- Such a query is answered with a name error where the database cannot be reached, whatever the
-- name: the client is told that the name does not exist.
pub parse_query-unreachable :
    (codec : HeaderCodec) (std : Lowercase) (readers : Readers) (header : Header)
    (front name rest : Bytes) (qtype : RecordType) (qclass : RecordClass)
    → length front ≡ header_bytes
    → codec.unpack front ≡ some header
    → header.opcode ≡ OpCode.query
    → IsName name
    → length name ≤ 255
    → All IsAscii name
    → IsLookup qtype qclass
    → parse_query codec std
        (table_backend readers none)
        (header_bytes + length (question_bytes name qtype qclass))
        (front ++ (question_bytes name qtype qclass ++ rest))
      ≡ ok (reply_nxdomain header.id)
unfolding table_backend received
parse_query-unreachable codec std readers header front name rest qtype qclass e u o h fits ascii
      look =
    let q : Question = asked name qtype qclass in
    parse_query-question codec std (table_backend readers none) header front name rest qtype qclass
      e u o h fits ascii
    ∙ answer_question-lookup std (table_backend readers none) header q look
    ∙ ap (λ m. ok (from_datastore header q (received m)))
        (handle_get_command-unreachable readers q.qname qtype qclass
          (is_utf8-ascii q.qname (All-IsAscii-map name ascii)))
    ∙ ap ok (from_datastore-reply_for header q [])
