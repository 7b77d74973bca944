-- ===== src/Header/Layout.antt =====
-- The packing of `Header` that the attributes of src/lib.rs state: twelve bytes, bits numbered from
-- the highest, numbers big-endian, the enumerations by their discriminants.
use goatns.Prelude.{
  ℕ, ◌+◌, ◌*◌, ◌/◌, ◌%◌, ◌<◌, ◌≤◌, Bool, true, false, Option, none, some, ◌≡◌, refl, ap, subst, [],
  ◌∷◌, ◌++◌, arith, ◌==◌, if◌then◌else◌, length, Bytes,
}
use goatns.Enums.{OpCode, Rcode, PacketType, opcode_to_u8, rcode_to_u8}
use goatns.Header.{Header, HeaderCodec, IsWide}
use goatns.Name.{be16}

bit : Bool → ℕ
bit true = 1
bit false = 0

packet_type_bit : PacketType → ℕ
packet_type_bit PacketType.query = 0
packet_type_bit PacketType.answer = 1

-- bits 16 to 23
high_flags : PacketType → OpCode → Bool → Bool → Bool → ℕ
unfolding bit packet_type_bit opcode_to_u8
high_flags qr op aa tc rd =
    packet_type_bit qr * 128 + opcode_to_u8 op * 8 + bit aa * 4 + bit tc * 2 + bit rd

-- bits 24 to 31
low_flags : Bool → Bool → Bool → Bool → Rcode → ℕ
unfolding bit rcode_to_u8
low_flags ra z ad cd rcode =
    bit ra * 128 + bit z * 64 + bit ad * 32 + bit cd * 16 + rcode_to_u8 rcode

unfoldable pub pack_layout : Header → Bytes
unfolding high_flags low_flags
pack_layout h =
    be16 h.id
    ++ (high_flags h.qr h.opcode h.authoritative h.truncated h.recursion_desired
        ∷ low_flags h.recursion_available h.z h.ad h.cd h.rcode
        ∷ (be16 h.qdcount ++ (be16 h.ancount ++ (be16 h.nscount ++ be16 h.arcount))))

-- A four-bit number that is no discriminant cannot be unpacked.
opcode_at : ℕ → Option OpCode
opcode_at n =
    if n == 0
    then some OpCode.query
    else if n == 2
    then some OpCode.status
    else if n == 15
    then some OpCode.reserved
    else none

rcode_at : ℕ → Option Rcode
rcode_at n =
    if n == 0
    then some Rcode.no_error
    else if n == 1
    then some Rcode.format_error
    else if n == 2
    then some Rcode.serv_fail
    else if n == 3
    then some Rcode.name_error
    else if n == 4
    then some Rcode.not_implemented
    else if n == 5
    then some Rcode.refused
    else none

set_at : ℕ → ℕ → Bool
set_at weight n = n / weight % 2 == 1

header_of : ℕ → ℕ → ℕ → ℕ → ℕ → ℕ → ℕ → Option OpCode → Option Rcode → Option Header
unfolding set_at
header_of id high low qd an ns ar none rcode = none
header_of id high low qd an ns ar (some op) none = none
header_of id high low qd an ns ar (some op) (some rcode) = some (record {
  id = id;
  qr = if set_at 128 high then PacketType.answer else PacketType.query;
  opcode = op;
  authoritative = set_at 4 high;
  truncated = set_at 2 high;
  recursion_desired = set_at 1 high;
  recursion_available = set_at 128 low;
  z = set_at 64 low;
  ad = set_at 32 low;
  cd = set_at 16 low;
  rcode = rcode;
  qdcount = qd;
  ancount = an;
  nscount = ns;
  arcount = ar;
})

unfoldable pub unpack_layout : Bytes → Option Header
unfolding header_of opcode_at rcode_at
unpack_layout (i ∷ i' ∷ high ∷ low ∷ q ∷ q' ∷ a ∷ a' ∷ n ∷ n' ∷ r ∷ r' ∷ []) =
    header_of (i * 256 + i') high low (q * 256 + q') (a * 256 + a') (n * 256 + n') (r * 256 + r')
      (opcode_at (high / 8 % 16)) (rcode_at (low % 16))
unpack_layout _ = none

bit_bound : (b : Bool) → bit b ≤ 1
unfolding bit
bit_bound true = omega arith
bit_bound false = omega arith

packet_type_bit_bound : (qr : PacketType) → packet_type_bit qr ≤ 1
unfolding packet_type_bit
packet_type_bit_bound PacketType.query = omega arith
packet_type_bit_bound PacketType.answer = omega arith

opcode_to_u8_bound : (op : OpCode) → opcode_to_u8 op ≤ 15
unfolding opcode_to_u8
opcode_to_u8_bound OpCode.query = omega arith
opcode_to_u8_bound OpCode.status = omega arith
opcode_to_u8_bound OpCode.reserved = omega arith

rcode_to_u8_bound : (rcode : Rcode) → rcode_to_u8 rcode ≤ 15
unfolding rcode_to_u8
rcode_to_u8_bound Rcode.no_error = omega arith
rcode_to_u8_bound Rcode.format_error = omega arith
rcode_to_u8_bound Rcode.serv_fail = omega arith
rcode_to_u8_bound Rcode.name_error = omega arith
rcode_to_u8_bound Rcode.not_implemented = omega arith
rcode_to_u8_bound Rcode.refused = omega arith

set_at-bit : (weight n : ℕ) (b : Bool) → n / weight % 2 ≡ bit b → set_at weight n ≡ b
unfolding set_at bit
set_at-bit weight n true e = rw e refl
set_at-bit weight n false e = rw e refl

packet_type_at :
    (n : ℕ) (qr : PacketType)
    → n / 128 % 2 ≡ packet_type_bit qr
    → (if set_at 128 n then PacketType.answer else PacketType.query) ≡ qr
unfolding set_at packet_type_bit
packet_type_at n PacketType.query e = rw e refl
packet_type_at n PacketType.answer e = rw e refl

opcode_at-to_u8 : (op : OpCode) → opcode_at (opcode_to_u8 op) ≡ some op
unfolding opcode_at opcode_to_u8
opcode_at-to_u8 OpCode.query = refl
opcode_at-to_u8 OpCode.status = refl
opcode_at-to_u8 OpCode.reserved = refl

rcode_at-to_u8 : (rcode : Rcode) → rcode_at (rcode_to_u8 rcode) ≡ some rcode
unfolding rcode_at rcode_to_u8
rcode_at-to_u8 Rcode.no_error = refl
rcode_at-to_u8 Rcode.format_error = refl
rcode_at-to_u8 Rcode.serv_fail = refl
rcode_at-to_u8 Rcode.name_error = refl
rcode_at-to_u8 Rcode.not_implemented = refl
rcode_at-to_u8 Rcode.refused = refl

be16_value : (n : ℕ) → n < 0x10000 → (n / 256 % 256) * 256 + n % 256 ≡ n
be16_value n h = omega arith

-- A header whose numbers are below 2 ^ 16 comes back from its twelve bytes.
pub unpack-pack_layout : (h : Header) → IsWide h → unpack_layout (pack_layout h) ≡ some h
unfolding unpack_layout pack_layout header_of high_flags low_flags
unpack-pack_layout h wide =
    let b0 = packet_type_bit_bound h.qr in
    let b1 = opcode_to_u8_bound h.opcode in
    let b2 = bit_bound h.authoritative in
    let b3 = bit_bound h.truncated in
    let b4 = bit_bound h.recursion_desired in
    let b5 = bit_bound h.recursion_available in
    let b6 = bit_bound h.z in
    let b7 = bit_bound h.ad in
    let b8 = bit_bound h.cd in
    let b9 = rcode_to_u8_bound h.rcode in
    let high = high_flags h.qr h.opcode h.authoritative h.truncated h.recursion_desired in
    let low = low_flags h.recursion_available h.z h.ad h.cd h.rcode in
    rw
      (
        be16_value h.id wide.id,
        be16_value h.qdcount wide.qdcount,
        be16_value h.ancount wide.ancount,
        be16_value h.nscount wide.nscount,
        be16_value h.arcount wide.arcount,
      )
      (rw
        (
          ap opcode_at {x = high / 8 % 16} {y = opcode_to_u8 h.opcode} (omega arith),
          ap rcode_at {x = low % 16} {y = rcode_to_u8 h.rcode} (omega arith),
          opcode_at-to_u8 h.opcode,
          rcode_at-to_u8 h.rcode,
        )
        (rw
          (
            packet_type_at high h.qr (omega arith),
            set_at-bit 4 high h.authoritative (omega arith),
            set_at-bit 2 high h.truncated (omega arith),
            set_at-bit 1 high h.recursion_desired (omega arith),
            set_at-bit 128 low h.recursion_available (omega arith),
            set_at-bit 64 low h.z (omega arith),
            set_at-bit 32 low h.ad (omega arith),
            set_at-bit 16 low h.cd (omega arith),
          )
          refl))

pub length-pack_layout : (h : Header) → length (pack_layout h) ≡ 12
unfolding pack_layout
length-pack_layout h = refl

-- The layout as a codec.
unfoldable pub layout_codec : HeaderCodec
unfolding pack_layout unpack_layout
layout_codec = record {
  pack = λ h. some (pack_layout h);
  unpack = unpack_layout;
  length-pack = λ h b e.
      subst (λ o. length (elim o [ none ↦ [] | some b ↦ b ]) ≡ 12) e (length-pack_layout h);
  unpack-pack = λ h wide. (pack_layout h, refl, unpack-pack_layout h wide);
}
