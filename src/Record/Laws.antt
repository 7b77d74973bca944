-- ===== src/Record/Laws.antt =====
-- The ttl of a record as a lens: ttl and set_ttl of src/resourcerecord.rs; and the comparisons of
-- a record with a type.
use goatns.Prelude.{ℕ, true, ◌≡◌, ◌≢◌, ◌↔◌, refl, sym, ◌==◌, ==_iff, ap, ◌∙◌}
use goatns.Enums.{RecordType, to_u16, from_u16}
use goatns.Enums.Laws.{from_u16-to_u16}
use goatns.Record.{InternalResourceRecord, ttl, set_ttl, record_type, class_of, eq_type}

pub ttl-set_ttl :
    (r : InternalResourceRecord) (t : ℕ)
    → r ≢ InternalResourceRecord.invalid_type
    → record_type r ≢ RecordType.hinfo
    → ttl (set_ttl r t) ≡ t
unfolding ttl set_ttl record_type
ttl-set_ttl InternalResourceRecord.invalid_type t h n = absurd (h refl)
ttl-set_ttl (InternalResourceRecord.hinfo cpu os old c) t h n = absurd (n refl)
ttl-set_ttl _ t h n = refl

pub set_ttl_self : (r : InternalResourceRecord) → set_ttl r (ttl r) ≡ r
unfolding ttl set_ttl
set_ttl_self InternalResourceRecord.invalid_type = refl
set_ttl_self (InternalResourceRecord.hinfo cpu os old c) = refl
set_ttl_self _ = refl

pub set_ttl-set_ttl : (r : InternalResourceRecord) (t u : ℕ) → set_ttl (set_ttl r t) u ≡ set_ttl r u
unfolding set_ttl
set_ttl-set_ttl InternalResourceRecord.invalid_type t u = refl
set_ttl-set_ttl (InternalResourceRecord.hinfo cpu os old c) t u = refl
set_ttl-set_ttl _ t u = refl

pub record_type-set_ttl :
    (r : InternalResourceRecord) (t : ℕ) → record_type (set_ttl r t) ≡ record_type r
unfolding record_type set_ttl
record_type-set_ttl InternalResourceRecord.invalid_type t = refl
record_type-set_ttl (InternalResourceRecord.hinfo cpu os old c) t = refl
record_type-set_ttl _ t = refl

pub class_of-set_ttl : (r : InternalResourceRecord) (t : ℕ) → class_of (set_ttl r t) ≡ class_of r
unfolding class_of set_ttl
class_of-set_ttl InternalResourceRecord.invalid_type t = refl
class_of-set_ttl (InternalResourceRecord.hinfo cpu os old c) t = refl
class_of-set_ttl _ t = refl

eq_type-to_u16 :
    (r : InternalResourceRecord) (t : RecordType)
    → eq_type r t ≡ (to_u16 t == to_u16 (record_type r))
unfolding eq_type record_type
eq_type-to_u16 InternalResourceRecord.invalid_type t = refl
eq_type-to_u16 _ t = refl

-- A record equals a type exactly when it is of that type.
pub eq_type_iff :
    (r : InternalResourceRecord) (t : RecordType) → (eq_type r t ≡ true) ↔ (record_type r ≡ t)
eq_type_iff r t = (
  λ h.
      sym (from_u16-to_u16 (record_type r))
      ∙ ap from_u16
          (sym ((==_iff (to_u16 t) (to_u16 (record_type r))).0 (sym (eq_type-to_u16 r t) ∙ h)))
      ∙ from_u16-to_u16 t,
  λ e. eq_type-to_u16 r t ∙ (==_iff (to_u16 t) (to_u16 (record_type r))).1 (ap to_u16 (sym e)),
)

-- The time to live of a record other than HINFO is a lens: what is set is read back, setting what is read changes nothing, the
-- last setting counts, and neither the type nor the class is touched.
pub set_ttl_lens :
    (r : InternalResourceRecord) (t u : ℕ)
    → r ≢ InternalResourceRecord.invalid_type
    → record_type r ≢ RecordType.hinfo
    → (ttl (set_ttl r t) ≡ t)
      × (set_ttl r (ttl r) ≡ r)
      × (set_ttl (set_ttl r t) u ≡ set_ttl r u)
      × (record_type (set_ttl r t) ≡ record_type r)
      × (class_of (set_ttl r t) ≡ class_of r)
set_ttl_lens r t u h n = (
  ttl-set_ttl r t h n,
  set_ttl_self r,
  set_ttl-set_ttl r t u,
  record_type-set_ttl r t,
  class_of-set_ttl r t,
)
