-- ===== src/Record.antt =====
-- `InternalResourceRecord` of src/resourcerecord.rs: the records that the server answers with.
-- A `DomainName` or a `DNSCharString` is its bytes; an i32 is its bit pattern.
pub mod Laws
pub mod Rdata
use goatns.Prelude.{ℕ, Bool, true, false, Option, none, some, ◌==◌, Bytes}
use goatns.Enums.{RecordType, RecordClass, to_u16, class_to_u16}

pub data InternalResourceRecord : Type 0 where
  a : (address ttl : ℕ) (rclass : RecordClass) → InternalResourceRecord
  aaaa : (address ttl : ℕ) (rclass : RecordClass) → InternalResourceRecord
  axfr : (ttl : ℕ) (rclass : RecordClass) → InternalResourceRecord
  caa : (flag : ℕ) (tag value : Bytes) (ttl : ℕ) (rclass : RecordClass) → InternalResourceRecord
  cname : (name : Bytes) (ttl : ℕ) (rclass : RecordClass) → InternalResourceRecord
  loc :
      (ttl : ℕ) (rclass : RecordClass)
      (version size horiz_pre vert_pre latitude longitude altitude : ℕ)
      → InternalResourceRecord
  naptr :
      (ttl : ℕ) (rclass : RecordClass) (domain : Bytes) (order preference : ℕ) (flags : Bytes)
      → InternalResourceRecord
  ns : (nsdname : Bytes) (ttl : ℕ) (rclass : RecordClass) → InternalResourceRecord
  soa :
      (zone mname rname : Bytes) (serial refresh retry expire minimum : ℕ) (rclass : RecordClass)
      → InternalResourceRecord
  ptr : (ptrdname : Bytes) (ttl : ℕ) (rclass : RecordClass) → InternalResourceRecord
  hinfo : (cpu os : Option Bytes) (ttl : ℕ) (rclass : RecordClass) → InternalResourceRecord
  mx : (preference : ℕ) (exchange : Bytes) (ttl : ℕ) (rclass : RecordClass) → InternalResourceRecord
  txt : (txtdata : Bytes) (ttl : ℕ) (class : RecordClass) → InternalResourceRecord
  uri :
      (priority weight : ℕ) (target : Bytes) (ttl : ℕ) (rclass : RecordClass)
      → InternalResourceRecord
  invalid_type : InternalResourceRecord

unfoldable pub ttl : InternalResourceRecord → ℕ
ttl (a _ t _) = t
ttl (aaaa _ t _) = t
ttl (axfr t _) = t
ttl (caa _ _ _ t _) = t
ttl (cname _ t _) = t
ttl (loc t _ _ _ _ _ _ _ _) = t
ttl (naptr t _ _ _ _ _) = t
ttl (ns _ t _) = t
ttl (soa _ _ _ _ _ _ _ t _) = t
ttl (ptr _ t _) = t
ttl (hinfo _ _ t _) = t
ttl (mx _ _ t _) = t
ttl (txt _ t _) = t
ttl (uri _ _ _ t _) = t
ttl invalid_type = 0

-- `SetTTL::set_ttl`. The pattern of HINFO binds its time to live under the name of the argument, so it stays.
unfoldable pub set_ttl : InternalResourceRecord → ℕ → InternalResourceRecord
set_ttl (a address _ rclass) t = a address t rclass
set_ttl (aaaa address _ rclass) t = aaaa address t rclass
set_ttl (axfr _ rclass) t = axfr t rclass
set_ttl (caa flag tag value _ rclass) t = caa flag tag value t rclass
set_ttl (cname name _ rclass) t = cname name t rclass
set_ttl (loc _ rclass version size horiz_pre vert_pre latitude longitude altitude) t =
    loc t rclass version size horiz_pre vert_pre latitude longitude altitude
set_ttl (naptr _ rclass domain order preference flags) t =
    naptr t rclass domain order preference flags
set_ttl (ns nsdname _ rclass) t = ns nsdname t rclass
set_ttl (soa zone mname rname serial refresh retry expire _ rclass) t =
    soa zone mname rname serial refresh retry expire t rclass
set_ttl (ptr ptrdname _ rclass) t = ptr ptrdname t rclass
set_ttl (hinfo cpu os old rclass) t = hinfo cpu os old rclass
set_ttl (mx preference exchange _ rclass) t = mx preference exchange t rclass
set_ttl (txt txtdata _ class) t = txt txtdata t class
set_ttl (uri priority weight target _ rclass) t = uri priority weight target t rclass
set_ttl invalid_type t = invalid_type

-- `From<InternalResourceRecord> for RecordType`
unfoldable pub record_type : InternalResourceRecord → RecordType
record_type (a _ _ _) = RecordType.a
record_type (aaaa _ _ _) = RecordType.aaaa
record_type (axfr _ _) = RecordType.axfr
record_type (caa _ _ _ _ _) = RecordType.caa
record_type (cname _ _ _) = RecordType.cname
record_type (loc _ _ _ _ _ _ _ _ _) = RecordType.loc
record_type (naptr _ _ _ _ _ _) = RecordType.naptr
record_type (ns _ _ _) = RecordType.ns
record_type (soa _ _ _ _ _ _ _ _ _) = RecordType.soa
record_type (ptr _ _ _) = RecordType.ptr
record_type (hinfo _ _ _ _) = RecordType.hinfo
record_type (mx _ _ _ _) = RecordType.mx
record_type (txt _ _ _) = RecordType.txt
record_type (uri _ _ _ _ _) = RecordType.uri
record_type invalid_type = RecordType.invalid_type

-- `PartialEq<RecordType>`; the derived equality of types compares their numbers
unfoldable pub eq_type : InternalResourceRecord → RecordType → Bool
unfolding to_u16
eq_type (a _ _ _) other = to_u16 other == to_u16 RecordType.a
eq_type (aaaa _ _ _) other = to_u16 other == to_u16 RecordType.aaaa
eq_type (axfr _ _) other = to_u16 other == to_u16 RecordType.axfr
eq_type (caa _ _ _ _ _) other = to_u16 other == to_u16 RecordType.caa
eq_type (cname _ _ _) other = to_u16 other == to_u16 RecordType.cname
eq_type (loc _ _ _ _ _ _ _ _ _) other = to_u16 other == to_u16 RecordType.loc
eq_type (naptr _ _ _ _ _ _) other = to_u16 other == to_u16 RecordType.naptr
eq_type (ns _ _ _) other = to_u16 other == to_u16 RecordType.ns
eq_type (soa _ _ _ _ _ _ _ _ _) other = to_u16 other == to_u16 RecordType.soa
eq_type (ptr _ _ _) other = to_u16 other == to_u16 RecordType.ptr
eq_type (hinfo _ _ _ _) other = to_u16 other == to_u16 RecordType.hinfo
eq_type (mx _ _ _ _) other = to_u16 other == to_u16 RecordType.mx
eq_type (txt _ _ _) other = to_u16 other == to_u16 RecordType.txt
eq_type (uri _ _ _ _ _) other = to_u16 other == to_u16 RecordType.uri
eq_type invalid_type other = to_u16 other == to_u16 RecordType.invalid_type

-- `PartialEq<RecordClass>`
unfoldable pub eq_class : InternalResourceRecord → RecordClass → Bool
unfolding class_to_u16
eq_class (txt _ _ class) other = class_to_u16 class == class_to_u16 other
eq_class _ other = class_to_u16 other == class_to_u16 RecordClass.internet

-- The class that a record carries.
unfoldable pub class_of : InternalResourceRecord → Option RecordClass
class_of (a _ _ c) = some c
class_of (aaaa _ _ c) = some c
class_of (axfr _ c) = some c
class_of (caa _ _ _ _ c) = some c
class_of (cname _ _ c) = some c
class_of (loc _ c _ _ _ _ _ _ _) = some c
class_of (naptr _ c _ _ _ _) = some c
class_of (ns _ _ c) = some c
class_of (soa _ _ _ _ _ _ _ _ c) = some c
class_of (ptr _ _ c) = some c
class_of (hinfo _ _ _ c) = some c
class_of (mx _ _ _ c) = some c
class_of (txt _ _ c) = some c
class_of (uri _ _ _ _ c) = some c
class_of invalid_type = none
