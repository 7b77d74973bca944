-- ===== src/Header.antt =====
-- `Header` of src/lib.rs. Its packing is derived by the crate packed_struct, which is not in the
-- repository: `HeaderCodec` is the interface with the laws that the crate documents, and
-- Header/Layout.antt meets it with the bit positions that the attributes of the structure state.
pub mod Layout
use goatns.Prelude.{ℕ, ◌<◌, Bool, true, false, Option, some, ◌≡◌, length, Bytes}
use goatns.Enums.{OpCode, Rcode, PacketType}

pub record Header : Type 0 where
  pub id : ℕ
  pub qr : PacketType
  pub opcode : OpCode
  pub authoritative : Bool
  pub truncated : Bool
  pub recursion_desired : Bool
  pub recursion_available : Bool
  pub z : Bool
  pub ad : Bool
  pub cd : Bool
  pub rcode : Rcode
  pub qdcount : ℕ
  pub ancount : ℕ
  pub nscount : ℕ
  pub arcount : ℕ

-- `Default for Header`
abbrev pub default : Header
default = record {
  id = 0;
  qr = PacketType.query;
  opcode = OpCode.query;
  authoritative = true;
  truncated = false;
  recursion_desired = false;
  recursion_available = false;
  z = false;
  ad = false;
  cd = false;
  rcode = Rcode.no_error;
  qdcount = 0;
  ancount = 0;
  nscount = 0;
  arcount = 0;
}

-- `Header::as_answer`
unfoldable pub as_answer : Header → Header
as_answer h = record h { qr = PacketType.answer }

-- The numbers of a header are u16.
pub record IsWide (h : Header) : Type 0 where
  pub id : h.id < 0x10000
  pub qdcount : h.qdcount < 0x10000
  pub ancount : h.ancount < 0x10000
  pub nscount : h.nscount < 0x10000
  pub arcount : h.arcount < 0x10000

-- `none` is a `PackingError`.
pub record HeaderCodec : Type 0 where
  pub pack : Header → Option Bytes
  pub unpack : Bytes → Option Header
  pub length-pack : (h : Header) (b : Bytes) → pack h ≡ some b → length b ≡ 12
  pub unpack-pack : (h : Header) → IsWide h → (b : Bytes) × (pack h ≡ some b) × (unpack b ≡ some h)
