-- ===== src/Reply/Answers.antt =====
-- Where the question and the answers stand in the bytes of a reply, and what the names in them
-- spell (src/reply.rs).
use goatns.Prelude.{
  ◌%◌, ◌≤◌, Option, none, some, List, [], ◌∷◌, ◌++◌, ◌≡◌, refl, sym, ap, subst, ◌∙◌, append_assoc,
  length, drop, drop-append, ok, ◌>>=◌, bind-eq-ok, ok-injective, Bytes, arith,
}
use goatns.Enums.{to_u16, class_to_u16}
use goatns.Header.{HeaderCodec}
use goatns.Name.{name_as_bytes, be16, header_bytes, pointer, pieces_of}
use goatns.Name.Wire.{Reads, jump, IsName, encode}
use goatns.Name.RoundTrip.{HasQuestion, Shares, Reads-whole, name_as_bytes-Reads}
use goatns.Question.{Question, try_to_bytes}
use goatns.Question.RoundTrip.{try_to_bytes-encode}
use goatns.Record.{InternalResourceRecord, record_type}
use goatns.Record.Rdata.{Platform, as_bytes, be_bytes}
use goatns.Record.Rdata.Laws.{RefersTo, as_bytes-RefersTo}
use goatns.Reply.{
  Reply, answer_bytes, answers_bytes, answer_ttl, packed, reply_as_bytes, sections_bytes,
  resource_record_bytes,
}

-- The fixed part of a resource record behind its name.
abbrev pub fixed_part : Question → InternalResourceRecord → Bytes → Bytes
fixed_part q r rdata =
    be16 (to_u16 (record_type r))
    ++ (be16 (class_to_u16 q.qclass)
        ++ (be_bytes 4 (answer_ttl r) ++ be16 (length rdata % 0x10000)))

answer_bytes-parts :
    (std : Platform) (q : Question) (r : InternalResourceRecord) (b : Bytes)
    → answer_bytes std q r ≡ ok b
    → (rdata : Bytes) × (as_bytes std r q.qname ≡ ok rdata)
      × (b ≡ pointer header_bytes ++ (fixed_part q r rdata ++ rdata))
unfolding answer_bytes resource_record_bytes name_as_bytes
answer_bytes-parts std q r b e =
    let (rdata, er, e') = bind-eq-ok (as_bytes std r q.qname) _ e in
    (rdata, er, sym (ok-injective e'))

answers_bytes-at :
    (std : Platform) (q : Question) (rs : List InternalResourceRecord) (r : InternalResourceRecord)
    (rs' : List InternalResourceRecord) (out : Bytes)
    → answers_bytes std q (rs ++ (r ∷ rs')) ≡ ok out
    → (before b after : Bytes) × (answer_bytes std q r ≡ ok b) × (out ≡ before ++ (b ++ after))
unfolding answers_bytes
answers_bytes-at std q [] r rs' out e =
    let (b, eb, e') =
      bind-eq-ok (answer_bytes std q r)
        (λ b. answers_bytes std q rs' >>= λ others. ok (b ++ others)) e in
    let (others, eo, e'') = bind-eq-ok (answers_bytes std q rs') (λ others. ok (b ++ others)) e' in
    ([], b, others, eb, sym (ok-injective e''))
answers_bytes-at std q (s ∷ rs) r rs' out e =
    let (b, eb, e') =
      bind-eq-ok (answer_bytes std q s)
        (λ b. answers_bytes std q (rs ++ (r ∷ rs')) >>= λ others. ok (b ++ others)) e in
    let (others, eo, e'') =
      bind-eq-ok (answers_bytes std q (rs ++ (r ∷ rs'))) (λ others. ok (b ++ others)) e' in
    let (before, b', after, er, at) = answers_bytes-at std q rs r rs' others eo in
    (
      b ++ before,
      b',
      after,
      er,
      sym (ok-injective e'') ∙ ap (λ t. b ++ t) at ∙ sym (append_assoc b before (b' ++ after)),
    )

packed-ok : (o : Option Bytes) (b : Bytes) → packed o ≡ ok b → o ≡ some b
unfolding packed
packed-ok none b e = cc
packed-ok (some x) b e = ap some (ok-injective e)

-- The bytes of the question.
abbrev pub question_part : Question → Bytes
question_part q =
    (encode (pieces_of 46 q.qname) ++ (0 ∷ []))
    ++ (be16 (to_u16 q.qtype) ++ be16 (class_to_u16 q.qclass))

sections-parts :
    (std : Platform) (question : Option Question) (rs : List InternalResourceRecord) (q : Question)
    (sections : Bytes)
    → question ≡ some q
    → IsName q.qname
    → sections_bytes std question rs ≡ ok sections
    → (others : Bytes) × (answers_bytes std q rs ≡ ok others)
      × (sections ≡ question_part q ++ others)
unfolding sections_bytes
sections-parts std none rs q sections eq name e = cc
sections-parts std (some q') rs q sections eq name e =
    let e₀ : sections_bytes std (some q) rs ≡ ok sections =
      subst (λ o. sections_bytes std o rs ≡ ok sections) eq e in
    let (front, ef, e') = bind-eq-ok (try_to_bytes q) _ e₀ in
    let (others, eo, e'') = bind-eq-ok (answers_bytes std q rs) _ e' in
    (
      others,
      eo,
      sym (ok-injective e'')
          ∙ ap (λ t. t ++ others) (ok-injective (sym ef ∙ try_to_bytes-encode q name)),
    )

-- A reply with a question is its header, the question and the answers.
reply-parts :
    (codec : HeaderCodec) (std : Platform) (reply : Reply) (q : Question) (msg : Bytes)
    → reply.question ≡ some q
    → IsName q.qname
    → reply_as_bytes codec std reply ≡ ok msg
    → (header others : Bytes) × (length header ≡ header_bytes)
      × (answers_bytes std q reply.answers ≡ ok others)
      × (msg ≡ header ++ (question_part q ++ others))
unfolding reply_as_bytes
reply-parts codec std reply q msg eq name e =
    let packing : Option Bytes =
      codec.pack (record reply.header { ancount = length reply.answers % 0x10000 }) in
    let (header, eh, e') = bind-eq-ok (packed packing) _ e in
    let (sections, es, e'') = bind-eq-ok (sections_bytes std reply.question reply.answers) _ e' in
    let (others, eo, at) = sections-parts std reply.question reply.answers q sections eq name es in
    (
      header,
      others,
      codec.length-pack _ header (packed-ok packing header eh),
      eo,
      sym (ok-injective e'') ∙ ap (λ t. header ++ t) at,
    )

HasQuestion-reply :
    (q : Question) (header others : Bytes)
    → length header ≡ header_bytes
    → HasQuestion (header ++ (question_part q ++ others)) q.qname
HasQuestion-reply q header others e =
    let more : Bytes = be16 (to_u16 q.qtype) ++ be16 (class_to_u16 q.qclass) in
    (
      more ++ others,
      ap (λ n. drop n (header ++ (question_part q ++ others))) (sym e)
          ∙ drop-append header (question_part q ++ others)
          ∙ append_assoc (encode (pieces_of 46 q.qname) ++ (0 ∷ [])) more others
          ∙ append_assoc (encode (pieces_of 46 q.qname)) (0 ∷ []) (more ++ others),
    )

regroup : (xs ys zs ws : Bytes) → xs ++ (ys ++ (zs ++ ws)) ≡ (xs ++ (ys ++ zs)) ++ ws
regroup xs ys zs ws =
    sym (append_assoc xs (ys ++ zs) ws ∙ ap (λ t. xs ++ t) (append_assoc ys zs ws))

-- A record is in the packet at a place where the owner's name, then the fixed part, and then the
-- name that the record refers to can be read.
pub record Answered (msg : Bytes) (q : Question) (r : InternalResourceRecord) (name : Bytes)
    : Type 0 where
  pub before : Bytes
  pub owner : Bytes
  pub rdata : Bytes
  pub after : Bytes
  pub place : msg ≡ before ++ (owner ++ (fixed_part q r rdata ++ (rdata ++ after)))
  pub owner_reads :
      Reads msg (owner ++ (fixed_part q r rdata ++ (rdata ++ after))) (pieces_of 46 q.qname)
  pub name_reads : Reads msg (rdata ++ after) (pieces_of 46 name)

-- In the bytes of a reply, a CNAME, NS or PTR record among the answers stands with the question's name, its type,
-- class, TTL and data length, and its data spells the name that it refers to, under this condition on that name: it
-- has no dot, is the question's name, lies below it, or has exactly an end with it in common that begins at a dot.
-- Both names are well-formed, and the question's has at most 255 bytes.
pub reply_as_bytes-Answered :
    (codec : HeaderCodec) (std : Platform) (reply : Reply) (q : Question)
    (rs rs' : List InternalResourceRecord) (r : InternalResourceRecord) (name msg : Bytes)
    → reply.question ≡ some q
    → reply.answers ≡ rs ++ (r ∷ rs')
    → RefersTo r name
    → IsName q.qname
    → length q.qname ≤ 255
    → IsName name
    → Shares name q.qname
    → reply_as_bytes codec std reply ≡ ok msg
    → Answered msg q r name
reply_as_bytes-Answered codec std reply q rs rs' r name msg eq ea refers hq fits hn shares e =
    let (header, others, eh, eo, at) = reply-parts codec std reply q msg eq hq e in
    let (before, b, after, eb, at') =
      answers_bytes-at std q rs r rs' others (ap (answers_bytes std q) (sym ea) ∙ eo) in
    let (rdata, er, at'') = answer_bytes-parts std q r b eb in
    let has : HasQuestion msg q.qname =
      subst (λ m. HasQuestion m q.qname) (sym at) (HasQuestion-reply q header others eh) in
    let tail : Bytes = fixed_part q r rdata ++ (rdata ++ after) in
    let (out, eout, reads) = name_as_bytes-Reads msg name q.qname after hn hq fits has shares in
    let same : out ≡ rdata =
      ok-injective (sym eout ∙ sym (as_bytes-RefersTo std r name q.qname refers) ∙ er) in
    record {
      before = header ++ (question_part q ++ before);
      owner = pointer header_bytes;
      rdata = rdata;
      after = after;
      place =
          at
          ∙ ap (λ t. header ++ (question_part q ++ t)) (at' ∙ ap (λ t. before ++ (t ++ after)) at'')
          ∙ regroup header (question_part q) before (pointer header_bytes ++ tail);
      owner_reads = jump header_bytes tail (omega arith) refl (
          subst (λ bs. Reads msg bs (pieces_of 46 q.qname)) (sym has.1)
            (Reads-whole msg (pieces_of 46 q.qname) has.0 hq));
      name_reads = subst (λ o. Reads msg (o ++ after) (pieces_of 46 name)) same reads;
    }
