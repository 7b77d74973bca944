-- ===== src/Enums/Laws.antt =====
-- src/enums.rs: what survives a round through the wire numbers and the words.
use goatns.Prelude.{ℕ, ◌<◌, ◌≡◌, ◌⊎◌, refl, arith}
use goatns.Enums.{
  RecordType, RecordClass, to_u16, from_u16, to_str, from_str, class_to_u16, class_from_u16,
}

-- Reading the number of a record type gives the type back, the invalid type included.
pub from_u16-to_u16 : (t : RecordType) → from_u16 (to_u16 t) ≡ t
unfolding from_u16 to_u16
from_u16-to_u16 RecordType.a = refl
from_u16-to_u16 _ = refl

pub from_str-to_str : (t : RecordType) → from_str (to_str t) ≡ t
unfolding from_str to_str
from_str-to_str RecordType.a = refl
from_str-to_str _ = refl

-- A number is either that of the type read from it, or it is read as the invalid type.
pub to_u16-from_u16 : (n : ℕ) → (to_u16 (from_u16 n) ≡ n) ⊎ (from_u16 n ≡ RecordType.invalid_type)
unfolding from_u16 to_u16
to_u16-from_u16 n = ground arith

pub class_from_u16-class_to_u16 : (c : RecordClass) → class_from_u16 (class_to_u16 c) ≡ c
unfolding class_from_u16 class_to_u16
class_from_u16-class_to_u16 RecordClass.internet = refl
class_from_u16-class_to_u16 _ = refl

pub to_u16_bound : (t : RecordType) → to_u16 t < 0x10000
unfolding to_u16
to_u16_bound RecordType.a = omega arith
to_u16_bound _ = omega arith

pub class_to_u16_bound : (c : RecordClass) → class_to_u16 c < 0x10000
unfolding class_to_u16
class_to_u16_bound RecordClass.internet = omega arith
class_to_u16_bound _ = omega arith
