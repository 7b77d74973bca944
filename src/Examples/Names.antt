-- ===== src/Examples/Names.antt =====
-- The theorems on names and questions applied to names under example.com.
use goatns.Prelude.{true, some, [], ◌∷◌, ◌++◌, ◌≡◌, refl, arith, ok, panic, Bytes, codes}
use goatns.Enums.{RecordType, RecordClass}
use goatns.Examples.{
  www, mail, example_com, localhost, www-IsName, mail-IsName, example_com-IsName, localhost-IsName,
  localhost-All-IsLower, are_labels, are_labels-IsLabel,
}
use goatns.Name.{name_as_bytes, seven_dot_three_conversion, pieces_of, header_bytes, contains}
use goatns.Name.Labels.{conversion-labels, encode_label, encode_rest}
use goatns.Name.Wire.{IsName, encode, Reads}
use goatns.Name.RoundTrip.{beside, HasQuestion, Spells, name_as_bytes-Reads}
use goatns.Name.Defects.{parent_is_root, apart_unterminated}
use goatns.Question.{Question, get_question_qname, from_packets, try_to_bytes}
use goatns.Question.Parse.{get_question_qname_cut}
use goatns.Question.RoundTrip.{from_packets-try_to_bytes}
use goatns.Utf8.{ascii_lowercase}

-- A packet with twelve zero bytes and a question.
abbrev packet : Bytes → Bytes
packet name =
    0 ∷ 0 ∷ 0 ∷ 0 ∷ 0 ∷ 0 ∷ 0 ∷ 0 ∷ 0 ∷ 0 ∷ 0 ∷ 0 ∷ (encode (pieces_of 46 name) ++ (0 ∷ []))

packet-HasQuestion : HasQuestion (packet www) www
packet-HasQuestion = ([], refl)

example_com-dotted : contains 46 example_com ≡ true
unfolding contains
example_com-dotted = refl

example_net-IsName : IsName (codes "example.net")
unfolding are_labels
example_net-IsName = are_labels-IsLabel (pieces_of 46 (codes "example.net")) refl

example_net-dotted : contains 46 (codes "example.net") ≡ true
unfolding contains
example_net-dotted = refl

notexample_com-IsName : IsName (codes "notexample.com")
unfolding are_labels
notexample_com-IsName = are_labels-IsLabel (pieces_of 46 (codes "notexample.com")) refl

not-IsName : IsName (codes "not")
unfolding are_labels
not-IsName = are_labels-IsLabel (pieces_of 46 (codes "not")) refl

notexample_com-dotted : contains 46 (codes "notexample.com") ≡ true
unfolding contains
notexample_com-dotted = refl

name_as_bytes-Reads_example : Spells (packet www) mail www []
name_as_bytes-Reads_example =
    name_as_bytes-Reads (packet www) mail www [] mail-IsName www-IsName (omega arith)
      packet-HasQuestion
      (beside (codes "mai") (codes "ww") (codes "example.com") 108 119 (λ e. omega arith) refl refl)

conversion-labels_example :
    seven_dot_three_conversion www
    ≡ ok (encode_label (codes "www") ++ encode_rest (codes "example" ∷ codes "com" ∷ []))
conversion-labels_example = conversion-labels www

parent_is_root_example :
    (out : Bytes) × (name_as_bytes example_com
        (some header_bytes)
        (some (codes "www." ++ example_com))
      ≡ ok out)
    × Reads (packet www) (out ++ []) []
parent_is_root_example =
    parent_is_root (packet www) example_com (codes "www.") [] example_com-IsName example_com-dotted
      (omega arith)

apart_unterminated_example :
    name_as_bytes
      (codes "example.ne" ++ (116 ∷ []))
      (some header_bytes)
      (some (codes "www.example.co" ++ (109 ∷ [])))
    ≡ ok (encode (codes "example" ∷ codes "net" ∷ []))
apart_unterminated_example =
    apart_unterminated (codes "example.ne") (codes "www.example.co") 116 109 (λ e. omega arith)
      example_net-IsName example_net-dotted

get_question_qname_cut_example :
    get_question_qname ascii_lowercase (encode (pieces_of 46 www)) ≡ panic
get_question_qname_cut_example = get_question_qname_cut ascii_lowercase www www-IsName (omega arith)

abbrev local_question : Question
local_question = record { qname = localhost; qtype = RecordType.txt; qclass = RecordClass.chaos }

from_packets-try_to_bytes_example :
    (bytes : Bytes) × (try_to_bytes local_question ≡ ok bytes)
    × (from_packets ascii_lowercase (bytes ++ (1 ∷ [])) ≡ ok local_question)
from_packets-try_to_bytes_example =
    from_packets-try_to_bytes ascii_lowercase local_question (1 ∷ []) localhost-IsName (omega arith)
      localhost-All-IsLower
