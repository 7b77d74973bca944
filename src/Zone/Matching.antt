-- ===== src/Zone/Matching.antt =====
-- `FileZone::matching_data` of src/zones.rs.
use goatns.Prelude.{Bool, true, ◌&&◌, ◌≡◌, ◌↔◌, refl, ==_iff, equal_iff}
use goatns.Zone.{FileZone, matching_data}

-- The start of authority of two zones is the same.
pub record SameAuthority (z cmp : FileZone) : Type 0 where
  pub expire : z.expire ≡ cmp.expire
  pub minimum : z.minimum ≡ cmp.minimum
  pub name : z.name ≡ cmp.name
  pub refresh : z.refresh ≡ cmp.refresh
  pub retry : z.retry ≡ cmp.retry
  pub rname : z.rname ≡ cmp.rname
  pub serial : z.serial ≡ cmp.serial

all_true :
    (a b c d e f g : Bool)
    → (a && b && c && d && e && f && g) ≡ true
    → (a ≡ true) × (b ≡ true) × (c ≡ true) × (d ≡ true) × (e ≡ true) × (f ≡ true) × (g ≡ true)
all_true true true true true true true true h = (refl, refl, refl, refl, refl, refl, refl)
all_true _ _ _ _ _ _ _ h = cc

-- Two zones match exactly when their name, their mailbox and the five numbers of their start of
-- authority agree, whatever their identifiers and records are.
pub matching_data_iff : (z cmp : FileZone) → (matching_data z cmp ≡ true) ↔ SameAuthority z cmp
unfolding matching_data
matching_data_iff z cmp = (
  λ h.
      (let (expire, minimum, name, refresh, retry, rname, serial) = all_true _ _ _ _ _ _ _ h in
        record {
          expire = (==_iff z.expire cmp.expire).0 expire;
          minimum = (==_iff z.minimum cmp.minimum).0 minimum;
          name = (equal_iff z.name cmp.name).0 name;
          refresh = (==_iff z.refresh cmp.refresh).0 refresh;
          retry = (==_iff z.retry cmp.retry).0 retry;
          rname = (equal_iff z.rname cmp.rname).0 rname;
          serial = (==_iff z.serial cmp.serial).0 serial;
        }),
  λ same.
      rw
        (
          (==_iff z.expire cmp.expire).1 same.expire,
          (==_iff z.minimum cmp.minimum).1 same.minimum,
          (equal_iff z.name cmp.name).1 same.name,
          (==_iff z.refresh cmp.refresh).1 same.refresh,
          (==_iff z.retry cmp.retry).1 same.retry,
          (equal_iff z.rname cmp.rname).1 same.rname,
          (==_iff z.serial cmp.serial).1 same.serial,
        )
        refl,
)
