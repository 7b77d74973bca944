-- ===== src/Record/Rdata/Laws.antt =====
-- When the data of a record can be written, and how long it is (src/resourcerecord.rs).
use goatns.Prelude.{
  ℕ, zero, suc, ◌≤◌, some, ◌≡◌, ◌≢◌, refl, ap, ◌∷◌, ◌++◌, length, take, length-take, ok, panic,
  ◌>>=◌, Bytes, arith, Returns, Returns-bind, Returns-ne-panic,
}
use goatns.Enums.{RecordType, RecordClass}
use goatns.Name.{name_as_bytes, header_bytes, be16}
use goatns.Name.Total.{name_as_bytes-Returns}
use goatns.Record.{InternalResourceRecord, axfr, cname, loc, ns, soa, ptr, mx, record_type}
use goatns.Record.Rdata.{Platform, as_bytes, compressed, char_string_bytes, be_bytes}

compressed-Returns : (name reference : Bytes) → Returns (compressed name reference)
unfolding compressed
compressed-Returns name reference = name_as_bytes-Returns name (some header_bytes) (some reference)

-- The data of every record but AXFR and LOC is written, with no error and no panic.
pub as_bytes-Returns :
    (std : Platform) (r : InternalResourceRecord) (question : Bytes)
    → record_type r ≢ RecordType.axfr
    → record_type r ≢ RecordType.loc
    → Returns (as_bytes std r question)
unfolding as_bytes record_type
as_bytes-Returns std (axfr t c) q h k = absurd (h refl)
as_bytes-Returns std (loc _ _ _ _ _ _ _ _ _) q h k = absurd (k refl)
as_bytes-Returns std (cname n _ _) q h k = compressed-Returns n q
as_bytes-Returns std (ns n _ _) q h k = compressed-Returns n q
as_bytes-Returns std (ptr n _ _) q h k = compressed-Returns n q
as_bytes-Returns std (mx p n _ _) q h k =
    Returns-bind (compressed n q) (λ name. ok (be16 p ++ name)) (compressed-Returns n q)
      (λ name. (be16 p ++ name, refl))
as_bytes-Returns std (soa z m r s f y e n c) q h k =
    Returns-bind (compressed m z)
      (λ primary. compressed r z >>= λ mailbox. ok (primary ++ (mailbox ++ times)))
      (compressed-Returns m z)
      (λ primary.
        Returns-bind (compressed r z) (λ mailbox. ok (primary ++ (mailbox ++ times)))
          (compressed-Returns r z) (λ mailbox. (primary ++ (mailbox ++ times), refl)))
  where
    times : Bytes
    times = be_bytes 4 s ++ (be_bytes 4 f ++ (be_bytes 4 y ++ (be_bytes 4 e ++ be_bytes 4 n)))
as_bytes-Returns std _ q h k = (_, refl)

-- The data of every record can be written without a panic, but for a zone transfer, AXFR, which
-- panics whatever it holds.
pub as_bytes-panic :
    (std : Platform) (r : InternalResourceRecord) (question : Bytes)
    → (record_type r ≢ RecordType.axfr → as_bytes std r question ≢ panic)
      × (record_type r ≡ RecordType.axfr → as_bytes std r question ≡ panic)
unfolding as_bytes record_type
as_bytes-panic std (axfr t c) q = (λ h. absurd (h refl), λ h. refl)
as_bytes-panic std (loc _ _ _ _ _ _ _ _ _) q = (λ h. (std.pack_loc_returns _).0, λ h. cc)
as_bytes-panic std r q =
    (λ h. Returns-ne-panic (as_bytes std r q) (as_bytes-Returns std r q h (λ e. cc)), λ h. cc)

-- A character string is written as one length byte and at most 255 bytes, and the length is that
-- of what follows.
pub char_string_bytes_shape :
    (s : Bytes) → (rest : Bytes) × (char_string_bytes s ≡ length rest ∷ rest) × (length rest ≤ 255)
unfolding char_string_bytes
char_string_bytes_shape s = (
  take 255 s,
  ap (λ n. n ∷ take 255 s) (omega (arith, length-take 255 s)),
  omega (arith, length-take 255 s),
)

pub length-be_bytes : (k n : ℕ) → length (be_bytes k n) ≡ k
length-be_bytes zero n = refl
length-be_bytes (suc k) n = ap suc (length-be_bytes k n)

-- The name that a record refers to.
pub data RefersTo : InternalResourceRecord → Bytes → Type 0 where
  cname_to : (name : Bytes) (t : ℕ) (c : RecordClass) → RefersTo (cname name t c) name
  ns_to : (name : Bytes) (t : ℕ) (c : RecordClass) → RefersTo (ns name t c) name
  ptr_to : (name : Bytes) (t : ℕ) (c : RecordClass) → RefersTo (ptr name t c) name

pub as_bytes-RefersTo :
    (std : Platform) (r : InternalResourceRecord) (name question : Bytes)
    → RefersTo r name
    → as_bytes std r question ≡ name_as_bytes name (some header_bytes) (some question)
unfolding as_bytes compressed
as_bytes-RefersTo std r name question (cname_to _ t c) = refl
as_bytes-RefersTo std r name question (ns_to _ t c) = refl
as_bytes-RefersTo std r name question (ptr_to _ t c) = refl
