-- ===== src/Question/RoundTrip.antt =====
-- `Question::from_packets` and `Question::try_to_bytes` of src/lib.rs, one after the other.
use Prim.Native.Nat.add
use goatns.Prelude.{
  ℕ, ◌+◌, ◌/◌, ◌%◌, ◌≤◌, ◌<◌, true, false, none, some, ◌≡◌, refl, sym, ap, subst, ◌∙◌, List, [],
  ◌∷◌, ◌++◌, append-nil, append_assoc, arith, Bool-cases, inl, inr, length, get_elem?,
  length-append, All, ok, err, Bytes, map, text, no_qclass, leb,
}
use goatns.Enums.{from_u16, to_u16, class_from_u16, class_to_u16}
use goatns.Enums.Laws.{
  from_u16-to_u16, class_from_u16-class_to_u16, to_u16_bound, class_to_u16_bound,
}
use goatns.Name.{pieces_of, be16, name_as_bytes, contains}
use goatns.Name.Branches.{mod-label}
use goatns.Name.Labels.{split_no_dot}
use goatns.Name.Wire.{IsName, encode, length-encode, conversion-encode}
use goatns.Question.{Question, be_u16_at, from_packets, normalized_name, lowered, try_to_bytes}
use goatns.Question.Parse.{get_question_qname-encode}
use goatns.Utf8.{
  Lowercase, is_utf8, IsAscii, IsLower, ascii_lower, is_utf8-ascii, map-ascii_lower,
  All-IsLower-IsAscii, length-map-ascii_lower,
}

get_elem?-behind :
    (front : Bytes) (i : ℕ) (back : Bytes)
    → get_elem? (front ++ back) (length front + i) ≡ get_elem? back i
get_elem?-behind [] i back = ap (get_elem? back) (add.zero i)
get_elem?-behind (c ∷ front) i back = rw add.suc (get_elem?-behind front i back)

be_u16_at-be16 :
    (front : Bytes) (n k : ℕ) (back : Bytes)
    → n < 0x10000
    → k ≡ length front
    → be_u16_at (front ++ (be16 n ++ back)) k ≡ ok n
unfolding be_u16_at
be_u16_at-be16 front n k back h e =
    let first : get_elem? (front ++ (be16 n ++ back)) k ≡ some (n / 256 % 256) =
      ap (get_elem? (front ++ (be16 n ++ back))) (omega arith)
      ∙ get_elem?-behind front 0 (be16 n ++ back) in
    let second : get_elem? (front ++ (be16 n ++ back)) (k + 1) ≡ some (n % 256) =
      ap (λ j. get_elem? (front ++ (be16 n ++ back)) (j + 1)) e
      ∙ get_elem?-behind front 1 (be16 n ++ back) in
    ground arith

-- A question with a well-formed ASCII name is read from the packet that holds it: its name in
-- lower case, its type and its class, whatever follows.
pub from_packets-encode :
    (std : Lowercase) (name more : Bytes) (qtype qclass : ℕ)
    → IsName name
    → length name ≤ 255
    → All IsAscii name
    → qtype < 0x10000
    → qclass < 0x10000
    → from_packets std (encode (pieces_of 46 name) ++ (0 ∷ (be16 qtype ++ (be16 qclass ++ more))))
      ≡ ok (record {
        qname = map ascii_lower name;
        qtype = from_u16 qtype;
        qclass = class_from_u16 qclass;
      })
unfolding from_packets
from_packets-encode std name more qtype qclass h fits ascii ht hc =
    let front : Bytes = encode (pieces_of 46 name) ++ (0 ∷ []) in
    let rest : Bytes = be16 qtype ++ (be16 qclass ++ more) in
    let buf : Bytes = encode (pieces_of 46 name) ++ (0 ∷ rest) in
    let front_at : length front ≡ length name + 2 =
      omega (arith, length-append (encode (pieces_of 46 name)) (0 ∷ []), length-encode name) in
    let whole : length buf ≡ length name + 6 + length more =
      omega (arith, length-append (encode (pieces_of 46 name)) (0 ∷ rest), length-encode name) in
    let buf_type : buf ≡ front ++ rest =
      sym (append_assoc (encode (pieces_of 46 name)) (0 ∷ []) rest) in
    let buf_class : buf ≡ (front ++ be16 qtype) ++ (be16 qclass ++ more) =
      buf_type ∙ sym (append_assoc front (be16 qtype) (be16 qclass ++ more)) in
    let type_at : be_u16_at buf (length name + 2) ≡ ok qtype =
      subst (λ b. be_u16_at b (length name + 2) ≡ ok qtype) (sym buf_type)
        (be_u16_at-be16 front qtype (length name + 2) (be16 qclass ++ more) ht (sym front_at)) in
    let class_at : be_u16_at buf (length name + 2 + 2) ≡ ok qclass =
      subst (λ b. be_u16_at b (length name + 2 + 2) ≡ ok qclass) (sym buf_class)
        (be_u16_at-be16 (front ++ be16 qtype) qclass (length name + 2 + 2) more hc
          (omega (arith, length-append front (be16 qtype)))) in
    let long : leb (length buf) (length name + 2 + 1) ≡ false = ground arith in
    let long' : leb (length buf) (length name + 2 + 3) ≡ false = ground arith in
    rw (
      get_question_qname-encode std name rest h fits (is_utf8-ascii name ascii),
      std.on_ascii name ascii,
      length-map-ascii_lower name,
      long,
      type_at,
      long',
      class_at,
    )

plain :
    (name : Bytes)
    → IsName name
    → name_as_bytes name none none ≡ ok (encode (pieces_of 46 name) ++ (0 ∷ []))
unfolding name_as_bytes
plain name h = elim (Bool-cases (contains 46 name)) [
  | inl c ↦ rw (c, conversion-encode name h)
  | inr c ↦
      rw (c, split_no_dot name c, append-nil)
        (ap (λ n. ok (n ∷ (name ++ (0 ∷ [])))) (mod-label name (rw (split_no_dot name c) at h).0))
]

pub try_to_bytes-encode :
    (q : Question)
    → IsName q.qname
    → try_to_bytes q
      ≡ ok (
          (encode (pieces_of 46 q.qname) ++ (0 ∷ []))
          ++ (be16 (to_u16 q.qtype) ++ be16 (class_to_u16 q.qclass)))
unfolding try_to_bytes
try_to_bytes-encode q h = rw (plain q.qname h)

-- A question with a well-formed lower-case ASCII name comes back from its own bytes.
pub from_packets-try_to_bytes :
    (std : Lowercase) (q : Question) (more : Bytes)
    → IsName q.qname
    → length q.qname ≤ 255
    → All IsLower q.qname
    → (bytes : Bytes) × (try_to_bytes q ≡ ok bytes) × (from_packets std (bytes ++ more) ≡ ok q)
from_packets-try_to_bytes std q more h fits lower =
    let ls : List Bytes = pieces_of 46 q.qname in
    let tail : Bytes = be16 (to_u16 q.qtype) ++ be16 (class_to_u16 q.qclass) in
    (
      (encode ls ++ (0 ∷ [])) ++ tail,
      try_to_bytes-encode q h,
      ap (from_packets std) (
            append_assoc (encode ls ++ (0 ∷ [])) tail more
            ∙ append_assoc (encode ls) (0 ∷ []) (tail ++ more))
          ∙ from_packets-encode std q.qname more (to_u16 q.qtype) (class_to_u16 q.qclass) h fits
              (All-IsLower-IsAscii q.qname lower) (to_u16_bound q.qtype)
              (class_to_u16_bound q.qclass)
          ∙ (λ i. ok (record {
            qname = map-ascii_lower q.qname lower i;
            qtype = from_u16-to_u16 q.qtype i;
            qclass = class_from_u16-class_to_u16 q.qclass i;
          })),
    )

-- The question for the root, `.`, with nothing behind it is refused, whatever its type and class:
-- its type is looked for one byte too far.
pub from_packets_root :
    (std : Lowercase) (t t' c c' : ℕ)
    → from_packets std (0 ∷ t ∷ t' ∷ c ∷ c' ∷ []) ≡ err (text no_qclass)
unfolding from_packets
from_packets_root std t t' c c' = rw (std.on_ascii [] tt)

pub normalized_name-utf8 :
    (std : Lowercase) (q : Question)
    → is_utf8 q.qname ≡ true
    → normalized_name std q ≡ ok (std.to_lowercase q.qname)
unfolding normalized_name lowered
normalized_name-utf8 std q h = rw h refl
