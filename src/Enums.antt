-- ===== src/Enums.antt =====
-- src/enums.rs: the enumerations of the DNS protocol, and their conversions from and to the
-- numbers of the wire and the words of zone files.
pub mod Laws
use text.Mathlib.Text.{◌==◌ as str_eq}
use goatns.Prelude.{ℕ, String, Bool, true, false, ◌==◌, if◌then◌else◌}

pub data OpCode : Type 0 where
  query status reserved : OpCode

-- `From<u8> for OpCode`
unfoldable pub opcode_from_u8 : ℕ → OpCode
opcode_from_u8 n = if n == 0 then query else if n == 2 then status else reserved

-- the discriminants
unfoldable pub opcode_to_u8 : OpCode → ℕ
opcode_to_u8 query = 0
opcode_to_u8 status = 2
opcode_to_u8 reserved = 15

-- `From<OpCode> for i32`
unfoldable pub opcode_to_i32 : OpCode → ℕ
opcode_to_i32 query = 0
opcode_to_i32 status = 2
opcode_to_i32 reserved = 3

pub data Rcode : Type 0 where
  no_error format_error serv_fail name_error not_implemented refused : Rcode

unfoldable pub rcode_to_u8 : Rcode → ℕ
rcode_to_u8 no_error = 0
rcode_to_u8 format_error = 1
rcode_to_u8 serv_fail = 2
rcode_to_u8 name_error = 3
rcode_to_u8 not_implemented = 4
rcode_to_u8 refused = 5

pub data PacketType : Type 0 where
  query answer : PacketType

-- `From<bool> for PacketType`
unfoldable pub packet_type_from_bool : Bool → PacketType
packet_type_from_bool false = PacketType.query
packet_type_from_bool true = answer

pub data RecordType : Type 0 where
  a ns cname soa mb mg mr null wks ptr hinfo minfo : RecordType
  mx txt aaaa loc naptr axfr mailb uri any caa : RecordType
  invalid_type : RecordType

-- `RecordType as u16`; `InvalidType` is one above `CAA`
unfoldable pub to_u16 : RecordType → ℕ
to_u16 a = 1
to_u16 ns = 2
to_u16 cname = 5
to_u16 soa = 6
to_u16 mb = 7
to_u16 mg = 8
to_u16 mr = 9
to_u16 null = 10
to_u16 wks = 11
to_u16 ptr = 12
to_u16 hinfo = 13
to_u16 minfo = 14
to_u16 mx = 15
to_u16 txt = 16
to_u16 aaaa = 28
to_u16 loc = 29
to_u16 naptr = 35
to_u16 axfr = 252
to_u16 mailb = 253
to_u16 uri = 256
to_u16 any = 255
to_u16 caa = 257
to_u16 RecordType.invalid_type = 258

-- `From<&u16> for RecordType`
unfoldable pub from_u16 : ℕ → RecordType
from_u16 n =
    if n == 1
    then RecordType.a
    else if n == 2
    then RecordType.ns
    else if n == 5
    then RecordType.cname
    else if n == 6
    then RecordType.soa
    else if n == 7
    then RecordType.mb
    else if n == 8
    then RecordType.mg
    else if n == 9
    then RecordType.mr
    else if n == 10
    then RecordType.null
    else if n == 11
    then RecordType.wks
    else if n == 12
    then RecordType.ptr
    else if n == 13
    then RecordType.hinfo
    else if n == 14
    then RecordType.minfo
    else if n == 15
    then RecordType.mx
    else if n == 16
    then RecordType.txt
    else if n == 28
    then RecordType.aaaa
    else if n == 29
    then RecordType.loc
    else if n == 35
    then RecordType.naptr
    else if n == 252
    then RecordType.axfr
    else if n == 253
    then RecordType.mailb
    else if n == 255
    then RecordType.any
    else if n == 256
    then RecordType.uri
    else if n == 257
    then RecordType.caa
    else RecordType.invalid_type

-- `From<&str> for RecordType`
unfoldable pub from_str : String → RecordType
from_str s =
    if str_eq s "A"
    then RecordType.a
    else if str_eq s "AAAA"
    then RecordType.aaaa
    else if str_eq s "ANY"
    then RecordType.any
    else if str_eq s "AXFR"
    then RecordType.axfr
    else if str_eq s "CAA"
    then RecordType.caa
    else if str_eq s "CNAME"
    then RecordType.cname
    else if str_eq s "HINFO"
    then RecordType.hinfo
    else if str_eq s "LOC"
    then RecordType.loc
    else if str_eq s "MAILB"
    then RecordType.mailb
    else if str_eq s "MB"
    then RecordType.mb
    else if str_eq s "MG"
    then RecordType.mg
    else if str_eq s "MINFO"
    then RecordType.minfo
    else if str_eq s "MR"
    then RecordType.mr
    else if str_eq s "MX"
    then RecordType.mx
    else if str_eq s "NAPTR"
    then RecordType.naptr
    else if str_eq s "NS"
    then RecordType.ns
    else if str_eq s "NULL"
    then RecordType.null
    else if str_eq s "PTR"
    then RecordType.ptr
    else if str_eq s "SOA"
    then RecordType.soa
    else if str_eq s "TXT"
    then RecordType.txt
    else if str_eq s "URI"
    then RecordType.uri
    else if str_eq s "WKS"
    then RecordType.wks
    else RecordType.invalid_type

-- `From<RecordType> for &'static str`
unfoldable pub to_str : RecordType → String
to_str a = "A"
to_str aaaa = "AAAA"
to_str any = "ANY"
to_str axfr = "AXFR"
to_str caa = "CAA"
to_str cname = "CNAME"
to_str hinfo = "HINFO"
to_str loc = "LOC"
to_str mailb = "MAILB"
to_str mb = "MB"
to_str mg = "MG"
to_str minfo = "MINFO"
to_str mr = "MR"
to_str mx = "MX"
to_str naptr = "NAPTR"
to_str ns = "NS"
to_str null = "NULL"
to_str ptr = "PTR"
to_str soa = "SOA"
to_str txt = "TXT"
to_str uri = "URI"
to_str wks = "WKS"
to_str RecordType.invalid_type = ""

unfoldable pub supported : RecordType → Bool
supported a = true
supported aaaa = true
supported any = true
supported caa = true
supported cname = true
supported hinfo = true
supported loc = true
supported mx = true
supported ns = true
supported ptr = true
supported soa = true
supported txt = true
supported uri = true
supported _ = false

pub data RecordClass : Type 0 where
  internet cs_net chaos hesiod invalid_type : RecordClass

-- `RecordClass as u16`
unfoldable pub class_to_u16 : RecordClass → ℕ
class_to_u16 internet = 1
class_to_u16 cs_net = 2
class_to_u16 chaos = 3
class_to_u16 hesiod = 4
class_to_u16 RecordClass.invalid_type = 0

-- `From<&u16> for RecordClass`
unfoldable pub class_from_u16 : ℕ → RecordClass
class_from_u16 n =
    if n == 1
    then internet
    else if n == 2
    then cs_net
    else if n == 3
    then chaos
    else if n == 4
    then hesiod
    else RecordClass.invalid_type

-- `From<&str> for RecordClass`
unfoldable pub class_from_str : String → RecordClass
class_from_str s =
    if str_eq s "IN"
    then internet
    else if str_eq s "CS"
    then cs_net
    else if str_eq s "CHAOS"
    then chaos
    else if str_eq s "HESIOD"
    then hesiod
    else RecordClass.invalid_type

-- `Display for RecordClass`
unfoldable pub class_to_str : RecordClass → String
class_to_str internet = "IN"
class_to_str cs_net = "CS"
class_to_str chaos = "CHAOS"
class_to_str hesiod = "HESIOD"
class_to_str RecordClass.invalid_type = "Invalid"
