-- ===== src/Zone/Convert.antt =====
-- What `TryFrom<FileZoneRecord>` of src/resourcerecord.rs accepts, and what it keeps.
use text.Mathlib.Text.{◌==◌ as str_eq}
use text.Mathlib.TextEquality.{eq_iff}
use goatns.Prelude.{
  ℕ, ◌≤◌, String, true, false, not, Option, none, some, ◌≡◌, ◌≢◌, refl, sym, subst, List, [], ◌∷◌,
  arith, All, ltb, if_elim, length, Result, ok, Bytes, Bool-cases, inl, inr,
}
use goatns.Enums.{RecordType, to_str}
use goatns.Name.{check_long_labels, any_longer, pieces_of}
use goatns.Record.{InternalResourceRecord, record_type, ttl, class_of}
use goatns.Zone.{
  FileZoneRecord, Readers, Location, try_from, by_type, mx_from, caa_from, uri_from, loc_from,
  aaaa_from, number_or, group_or, parse_unsigned,
}

-- The record answers for the type, the time to live and the class that the zone record names.
pub record Keeps (r : FileZoneRecord) (rr : InternalResourceRecord) : Type 0 where
  pub type_word : to_str (record_type rr) ≡ r.rrtype
  pub time : ttl rr ≡ r.ttl
  pub class_kept : class_of rr ≡ some r.class
  pub no_hinfo : record_type rr ≢ RecordType.hinfo

abbrev KeepsIfOk : FileZoneRecord → Result InternalResourceRecord → Type 0
KeepsIfOk r (ok rr) = Keeps r rr
KeepsIfOk r _ = Unit

abbrev Word : FileZoneRecord → String → Type 0
Word r w = str_eq r.rrtype w ≡ true

word : (r : FileZoneRecord) (w : String) → Word r w → w ≡ r.rrtype
word r w h = sym ((eq_iff r.rrtype w).0 h)

number_or-Keeps :
    (r : FileZoneRecord) (o : Option ℕ) (f : ℕ → Result InternalResourceRecord)
    → ((n : ℕ) → KeepsIfOk r (f n))
    → KeepsIfOk r (number_or o f)
unfolding number_or
number_or-Keeps r none f h = tt
number_or-Keeps r (some n) f h = h n

group_or-Keeps :
    (r : FileZoneRecord) (o : Option Bytes) (f : Bytes → Result InternalResourceRecord)
    → ((s : Bytes) → KeepsIfOk r (f s))
    → KeepsIfOk r (group_or o f)
unfolding group_or
group_or-Keeps r none f h = tt
group_or-Keeps r (some s) f h = h s

mx_from-Keeps :
    (r : FileZoneRecord) (parts : List Bytes) → Word r "MX" → KeepsIfOk r (mx_from r parts)
unfolding mx_from record_type ttl class_of to_str
mx_from-Keeps r [] h = tt
mx_from-Keeps r (p ∷ []) h = tt
mx_from-Keeps r (p ∷ e ∷ []) h =
    number_or-Keeps r (parse_unsigned 65535 p) _ (λ n. record {
      type_word = word r "MX" h;
      time = refl;
      class_kept = refl;
      no_hinfo = λ e. cc;
    })
mx_from-Keeps r (p ∷ e ∷ x ∷ xs) h = tt

caa_from-Keeps :
    (std : Readers) (r : FileZoneRecord) (parts : List Bytes)
    → Word r "CAA"
    → KeepsIfOk r (caa_from std r parts)
unfolding caa_from record_type ttl class_of to_str
caa_from-Keeps std r [] h = tt
caa_from-Keeps std r (f ∷ []) h = tt
caa_from-Keeps std r (f ∷ t ∷ []) h = tt
caa_from-Keeps std r (f ∷ t ∷ v ∷ vs) h = number_or-Keeps r (parse_unsigned 255 f) _ (λ n.
    if_elim (KeepsIfOk r) (not (std.caa_tag_is_match t)) (λ _. tt)
      (λ _. record {
        type_word = word r "CAA" h;
        time = refl;
        class_kept = refl;
        no_hinfo = λ e. cc;
      }))

uri_from-Keeps :
    (r : FileZoneRecord) (c : Option (Option Bytes × Option Bytes × Option Bytes))
    → Word r "URI"
    → KeepsIfOk r (uri_from r c)
unfolding uri_from record_type ttl class_of to_str
uri_from-Keeps r none h = tt
uri_from-Keeps r (some (p, w, t)) h = group_or-Keeps r p _ (λ s.
    number_or-Keeps r (parse_unsigned 65535 s) _ (λ n. group_or-Keeps r w _ (λ s'.
      number_or-Keeps r (parse_unsigned 65535 s') _ (λ m. group_or-Keeps r t _ (λ u. record {
        type_word = word r "URI" h;
        time = refl;
        class_kept = refl;
        no_hinfo = λ e. cc;
      })))))

aaaa_from-Keeps : (r : FileZoneRecord) (o : Option ℕ) → Word r "AAAA" → KeepsIfOk r (aaaa_from r o)
unfolding aaaa_from record_type ttl class_of to_str
aaaa_from-Keeps r none h = tt
aaaa_from-Keeps r (some n) h = record {
  type_word = word r "AAAA" h;
  time = refl;
  class_kept = refl;
  no_hinfo = λ e. cc;
}

loc_from-Keeps :
    (r : FileZoneRecord) (l : Option Location) → Word r "LOC" → KeepsIfOk r (loc_from r l)
unfolding loc_from record_type ttl class_of to_str
loc_from-Keeps r none h = tt
loc_from-Keeps r (some l) h = record {
  type_word = word r "LOC" h;
  time = refl;
  class_kept = refl;
  no_hinfo = λ e. cc;
}

by_type-Keeps : (std : Readers) (r : FileZoneRecord) → KeepsIfOk r (by_type std r)
unfolding by_type record_type ttl class_of to_str
by_type-Keeps std r =
    if_elim (KeepsIfOk r) (str_eq r.rrtype "A")
      (λ h. record { type_word = word r "A" h; time = refl; class_kept = refl; no_hinfo = λ e. cc })
      λ _.
        if_elim (KeepsIfOk r) (str_eq r.rrtype "AAAA") (aaaa_from-Keeps r (std.parse_ipv6 r.rdata))
          λ _.
            if_elim (KeepsIfOk r) (str_eq r.rrtype "CNAME")
              (λ h. record {
                type_word = word r "CNAME" h;
                time = refl;
                class_kept = refl;
                no_hinfo = λ e. cc;
              })
              λ _.
                if_elim (KeepsIfOk r) (str_eq r.rrtype "PTR")
                  (λ h. record {
                    type_word = word r "PTR" h;
                    time = refl;
                    class_kept = refl;
                    no_hinfo = λ e. cc;
                  })
                  λ _.
                    if_elim (KeepsIfOk r) (str_eq r.rrtype "TXT")
                      (λ h. record {
                        type_word = word r "TXT" h;
                        time = refl;
                        class_kept = refl;
                        no_hinfo = λ e. cc;
                      })
                      λ _.
                        if_elim (KeepsIfOk r) (str_eq r.rrtype "MX")
                          (mx_from-Keeps r (pieces_of b' ' r.rdata))
                          λ _.
                            if_elim (KeepsIfOk r) (str_eq r.rrtype "NS")
                              (λ h. record {
                                type_word = word r "NS" h;
                                time = refl;
                                class_kept = refl;
                                no_hinfo = λ e. cc;
                              })
                              λ _.
                                if_elim (KeepsIfOk r) (str_eq r.rrtype "CAA")
                                  (caa_from-Keeps std r (pieces_of b' ' r.rdata))
                                  λ _.
                                    if_elim (KeepsIfOk r) (str_eq r.rrtype "LOC")
                                      (loc_from-Keeps r (std.location r.rdata))
                                      λ _.
                                        if_elim (KeepsIfOk r) (str_eq r.rrtype "URI")
                                          (uri_from-Keeps r (std.uri_captures r.rdata)) λ _. tt

any_longer-All :
    (n : ℕ) (labels : List Bytes)
    → any_longer n labels ≡ false
    → All (λ label. length label ≤ n) labels
unfolding any_longer
any_longer-All n [] h = tt
any_longer-All n (x ∷ xs) h = (ground arith, any_longer-All n xs (ground arith))

short_labels :
    (name : Bytes)
    → check_long_labels name ≡ false
    → All (λ label. length label ≤ 63) (pieces_of b'.' name)
unfolding check_long_labels
short_labels name h = any_longer-All 63 (pieces_of b'.' name) h

-- A zone record that is accepted becomes a record of the type that it names, which is not HINFO, with its
-- time to live and its class; and its name has no label above 63 bytes and no more than 255 bytes.
pub try_from-Keeps :
    (std : Readers) (r : FileZoneRecord) {rr : InternalResourceRecord}
    → try_from std r ≡ ok rr
    → Keeps r rr × All (λ label. length label ≤ 63) (pieces_of b'.' r.name) × (length r.name ≤ 255)
unfolding try_from
try_from-Keeps std r h = elim (Bool-cases (check_long_labels r.name)) [
  | inl long ↦ absurd (cc (rw long at h))
  | inr short ↦ elim (Bool-cases (ltb 255 (length r.name))) [
    | inl over ↦ absurd (cc (rw (short, over) at h))
    | inr fits ↦ (
      subst (KeepsIfOk r) (rw (short, fits) at h) (by_type-Keeps std r),
      short_labels r.name short,
      ground arith,
    )
  ]
]
