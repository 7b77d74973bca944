-- ===== src/Datastore/Answers.antt =====
-- What get_records of src/db/mod.rs answers: the types, classes and times to live of its records.
use Prim.Native.Nat.{min}
use native.Mathlib.Decide.{dec_le}
use goatns.Prelude.{
  ℕ, ◌≤◌, Bool, true, false, none, some, ◌≡◌, ◌≢◌, ◌⊎◌, refl, sym, ap, subst, ◌∙◌, List, [], ◌∷◌,
  arith, length, All, Result, ok-injective, ok, err, panic, stuck, Bytes, equal_iff, Bool-cases,
  inl, inr,
}
use goatns.Enums.{RecordType, RecordClass, to_u16, from_u16, from_str, class_to_u16, class_from_u16}
use goatns.Enums.Laws.{from_u16-to_u16, from_str-to_str, class_from_u16-class_to_u16}
use goatns.Record.{InternalResourceRecord, ttl, set_ttl, record_type, class_of}
use goatns.Record.Laws.{
  ttl-set_ttl, set_ttl_self, set_ttl-set_ttl, record_type-set_ttl, class_of-set_ttl,
}
use goatns.Utf8.{is_utf8}
use goatns.Zone.{Readers}
use goatns.Zone.Convert.{try_from-Keeps}
use goatns.Datastore.{
  ViewRow, Tables, is_selected, select, row_record, from_row, keep_ok, from_rows, records_merged,
  min_ttl, set_ttls, normalize, get_records, handle_get_command, results_of, zone_record,
}

-- A record of the type and the class that were asked for.
abbrev pub Answers : RecordType → RecordClass → InternalResourceRecord → Type 0
Answers rrtype rclass rr = (record_type rr ≡ rrtype) × (class_of rr ≡ some rclass)

from_row-Answers :
    (std : Readers) (row : ViewRow) (rrtype : RecordType) (rclass : RecordClass)
    {rr : InternalResourceRecord}
    → row.rrtype ≡ to_u16 rrtype
    → row.rclass ≡ class_to_u16 rclass
    → from_row std row ≡ ok rr
    → Answers rrtype rclass rr
unfolding from_row
from_row-Answers std row rrtype rclass {rr} t c h =
    let kept = (try_from-Keeps std (row_record row) h).0 in
    (
      sym (from_str-to_str (record_type rr))
          ∙ ap from_str kept.type_word
          ∙ from_str-to_str (from_u16 row.rrtype)
          ∙ ap from_u16 t
          ∙ from_u16-to_u16 rrtype,
      kept.class_kept ∙ ap some (ap class_from_u16 c ∙ class_from_u16-class_to_u16 rclass),
    )

keep_ok-All :
    (P : InternalResourceRecord → Type 0) (r : Result InternalResourceRecord)
    (rs : List InternalResourceRecord)
    → ((rr : InternalResourceRecord) → r ≡ ok rr → P rr)
    → All P rs
    → All P (keep_ok r rs)
unfolding keep_ok
keep_ok-All P (ok rr) rs h k = (h rr refl, k)
keep_ok-All P (err e) rs h k = k
keep_ok-All P panic rs h k = k
keep_ok-All P stuck rs h k = k

selected :
    (name : Bytes) (rrtype : RecordType) (rclass : RecordClass) (row : ViewRow)
    → is_selected name rrtype rclass row ≡ true
    → (row.name ≡ name) × (row.rrtype ≡ to_u16 rrtype) × (row.rclass ≡ class_to_u16 rclass)
unfolding is_selected
selected name rrtype rclass row h = ground (arith, equal_iff row.name name)

from_rows-Answers :
    (std : Readers) (name : Bytes) (rrtype : RecordType) (rclass : RecordClass)
    (rows : List ViewRow)
    → All (Answers rrtype rclass) (from_rows std (select (is_selected name rrtype rclass) rows))
unfolding from_rows select
from_rows-Answers std name rrtype rclass [] = tt
from_rows-Answers std name rrtype rclass (row ∷ rows) =
    elim (Bool-cases (is_selected name rrtype rclass row)) [
      | inl e ↦
          let (_, t, c) = selected name rrtype rclass row e in
          rw e (
            keep_ok-All (Answers rrtype rclass) (from_row std row) _
              (λ rr h. from_row-Answers std row rrtype rclass t c h)
              (from_rows-Answers std name rrtype rclass rows))
      | inr e ↦ rw e (from_rows-Answers std name rrtype rclass rows)
    ]

set_ttls-Answers :
    (rrtype : RecordType) (rclass : RecordClass) (t : ℕ) (rs : List InternalResourceRecord)
    → All (Answers rrtype rclass) rs
    → All (Answers rrtype rclass) (set_ttls t rs)
unfolding set_ttls
set_ttls-Answers rrtype rclass t [] h = tt
set_ttls-Answers rrtype rclass t (r ∷ rs) (h, hs) = (
  (record_type-set_ttl r t ∙ h.0, class_of-set_ttl r t ∙ h.1),
  set_ttls-Answers rrtype rclass t rs hs,
)

normalize-Answers :
    (rrtype : RecordType) (rclass : RecordClass) (b : Bool) (rs : List InternalResourceRecord)
    → All (Answers rrtype rclass) rs
    → All (Answers rrtype rclass) (normalize b rs)
unfolding normalize
normalize-Answers rrtype rclass b [] h = h
normalize-Answers rrtype rclass b (r ∷ []) h = h
normalize-Answers rrtype rclass true (r ∷ s ∷ rs) h =
    set_ttls-Answers rrtype rclass _ (r ∷ s ∷ rs) h
normalize-Answers rrtype rclass false (r ∷ s ∷ rs) h = h

-- Every record that a query returns is of the type and the class that were asked for, whatever
-- the tables hold and whether the times to live are normalised or not.
pub get_records-Answers :
    (std : Readers) (db : Tables) (name : Bytes) (rrtype : RecordType) (rclass : RecordClass)
    (b : Bool)
    → (rs : List InternalResourceRecord) × (get_records std (some db) name rrtype rclass b ≡ ok rs)
      × All (Answers rrtype rclass) rs
unfolding get_records
get_records-Answers std db name rrtype rclass b =
    let rows = select (is_selected name rrtype rclass) (records_merged db.zones db.records) in
    (
      normalize b (from_rows std rows),
      refl,
      normalize-Answers rrtype rclass b (from_rows std rows)
          (from_rows-Answers std name rrtype rclass (records_merged db.zones db.records)),
    )

abbrev pub Any : (InternalResourceRecord → Type 0) → List InternalResourceRecord → Type 0
Any P [] = ⊥
Any P (r ∷ rs) = P r ⊎ Any P rs

abbrev pub IsRecord : InternalResourceRecord → Type 0
IsRecord r = (r ≢ InternalResourceRecord.invalid_type) × (record_type r ≢ RecordType.hinfo)

All-le :
    (t u : ℕ) (rs : List InternalResourceRecord)
    → t ≤ u
    → All (λ x. u ≤ ttl x) rs
    → All (λ x. t ≤ ttl x) rs
All-le t u [] le h = tt
All-le t u (r ∷ rs) le (h, hs) = (omega arith, All-le t u rs le hs)

Any-eq :
    (t u : ℕ) (rs : List InternalResourceRecord)
    → t ≡ u
    → Any (λ x. ttl x ≡ t) rs
    → Any (λ x. ttl x ≡ u) rs
Any-eq t u rs e = subst (λ k. Any (λ x. ttl x ≡ k) rs) e

min_ttl_least :
    (r : InternalResourceRecord) (rs : List InternalResourceRecord)
    → All (λ x. min_ttl r rs ≤ ttl x) (r ∷ rs) × Any (λ x. ttl x ≡ min_ttl r rs) (r ∷ rs)
unfolding min_ttl
min_ttl_least r [] = ((omega arith, tt), inl refl)
min_ttl_least r (s ∷ rs) =
    let (below, some_at) = min_ttl_least s rs in
    let m : ℕ = min_ttl s rs in
    (
      (omega arith, All-le (min (ttl r) m) m (s ∷ rs) (omega arith) below),
      elim (dec_le (ttl r) m) [
        | yes p ↦ inl (omega arith)
        | no p ↦ inr (Any-eq m (min (ttl r) m) (s ∷ rs) (omega arith) some_at)
      ],
    )

set_ttls_same :
    (t : ℕ) (rs : List InternalResourceRecord)
    → All IsRecord rs
    → All (λ x. ttl x ≡ t) (set_ttls t rs)
unfolding set_ttls
set_ttls_same t [] h = tt
set_ttls_same t (r ∷ rs) (h, hs) = (ttl-set_ttl r t h.0 h.1, set_ttls_same t rs hs)

from_rows-IsRecord : (std : Readers) (rows : List ViewRow) → All IsRecord (from_rows std rows)
unfolding from_rows from_row class_of
from_rows-IsRecord std [] = tt
from_rows-IsRecord std (row ∷ rows) =
    keep_ok-All IsRecord (from_row std row) (from_rows std rows)
      (λ rr h.
        let kept = (try_from-Keeps std (row_record row) h).0 in
        (λ e. cc (ap class_of (sym e) ∙ kept.class_kept), kept.no_hinfo))
      (from_rows-IsRecord std rows)

-- Each record of `answers` is the one of `rs` in its place, but for the time to live.
abbrev pub Restores : List InternalResourceRecord → List InternalResourceRecord → Type 0
Restores [] [] = Unit
Restores (x ∷ answers) (r ∷ rs) = (set_ttl x (ttl r) ≡ r) × Restores answers rs
Restores _ _ = ⊥

set_ttls-Restores : (t : ℕ) (rs : List InternalResourceRecord) → Restores (set_ttls t rs) rs
unfolding set_ttls
set_ttls-Restores t [] = tt
set_ttls-Restores t (r ∷ rs) =
    (set_ttl-set_ttl r t (ttl r) ∙ set_ttl_self r, set_ttls-Restores t rs)

-- `rs` are records as stored and `answers` as they are returned.
pub record IsUniform (rs answers : List InternalResourceRecord) : Type 0 where
  pub time : ℕ
  pub restores : Restores answers rs
  pub same : All (λ r. ttl r ≡ time) answers
  pub least : All (λ r. time ≤ ttl r) rs
  pub taken : Any (λ r. ttl r ≡ time) rs

normalize-IsUniform :
    (rs : List InternalResourceRecord)
    → All IsRecord rs
    → 2 ≤ length rs
    → IsUniform rs (normalize true rs)
unfolding normalize
normalize-IsUniform [] all two = absurd (omega arith)
normalize-IsUniform (r ∷ []) all two = absurd (omega arith)
normalize-IsUniform (r ∷ s ∷ rs) all two =
    let t : ℕ = min_ttl r (s ∷ rs) in
    let (below, attained) = min_ttl_least r (s ∷ rs) in
    record {
      time = t;
      restores = set_ttls-Restores t (r ∷ s ∷ rs);
      same = set_ttls_same t (r ∷ s ∷ rs) all;
      least = below;
      taken = attained;
    }

pub normalize-false : (rs : List InternalResourceRecord) → normalize false rs ≡ rs
unfolding normalize
normalize-false [] = refl
normalize-false (r ∷ []) = refl
normalize-false (r ∷ s ∷ rs) = refl

-- Where a query finds two records or more, all that it returns have one time to live: the
-- smallest among the stored ones. Each is the stored record in its place but for that time, and none is lost.
pub get_records-IsUniform :
    (std : Readers) (db : Tables) (name : Bytes) (rrtype : RecordType) (rclass : RecordClass)
    {stored : List InternalResourceRecord}
    → get_records std (some db) name rrtype rclass false ≡ ok stored
    → 2 ≤ length stored
    → (answers : List InternalResourceRecord) × (get_records std (some db) name rrtype rclass true
        ≡ ok answers)
      × IsUniform stored answers
unfolding get_records
get_records-IsUniform std db name rrtype rclass {stored} h two =
    let rows = select (is_selected name rrtype rclass) (records_merged db.zones db.records) in
    let rs = from_rows std rows in
    let found : rs ≡ stored = sym (normalize-false rs) ∙ ok-injective h in
    let all : All IsRecord rs = from_rows-IsRecord std rows in
    (
      normalize true rs,
      refl,
      subst (λ l. IsUniform l (normalize true rs)) found
          (normalize-IsUniform rs all (subst (λ l. 2 ≤ length l) (sym found) two)),
    )

-- What the datastore sends back for a name that is UTF-8, with what was found in the tables.
pub handle_get_command-found :
    (std : Readers) (db : Tables) (name : Bytes) (rrtype : RecordType) (rclass : RecordClass)
    (rs : List InternalResourceRecord)
    → is_utf8 name ≡ true
    → get_records std (some db) name rrtype rclass true ≡ ok rs
    → handle_get_command std (some db) name rrtype rclass ≡ ok (zone_record name rs)
unfolding handle_get_command results_of
handle_get_command-found std db name rrtype rclass rs h e =
    rw h (ap (λ m. ok (zone_record name (results_of m))) e)

-- An error of the database is logged, and then there is no record.
pub handle_get_command-unreachable :
    (std : Readers) (name : Bytes) (rrtype : RecordType) (rclass : RecordClass)
    → is_utf8 name ≡ true
    → handle_get_command std none name rrtype rclass ≡ ok none
unfolding handle_get_command results_of get_records zone_record
handle_get_command-unreachable std name rrtype rclass h = rw h refl
