-- ===== src/Examples.antt =====
-- Data to run the model on, and the theorems of the other files applied to it. The crates that are
-- not in the repository are stood for by small functions.
mod Logins
mod Names
mod Queries
mod Configs
mod Forms
mod Pages
mod Replies
mod Requests
mod Signups
mod Home
use goatns.Prelude.{
  ℕ, zero, suc, ◌+◌, ◌≤◌, ◌<◌, String, Bool, true, false, ◌&&◌, Option, none, some, List, [], ◌∷◌,
  ◌++◌, ◌≡◌, ◌≢◌, refl, arith, ltb, leb, All, length, Result, ok, err, panic, stuck, Bytes, codes,
}
use goatns.Enums.{OpCode, PacketType, Rcode, RecordType, RecordClass}
use goatns.Datastore.{ZoneRow, RecordRow, Tables}
use goatns.Header.{Header, HeaderCodec, default}
use goatns.Header.Layout.{layout_codec, pack_layout}
use goatns.Name.{pieces_of}
use goatns.Name.Wire.{IsLabel, IsName}
use goatns.Question.{Question}
use goatns.Record.{InternalResourceRecord}
use goatns.Record.Rdata.{Platform, LocRecord, be_bytes}
use goatns.Utf8.{IsAscii, IsLower, ascii_lower}
use goatns.Zone.{Readers, FileZoneRecord, Location}

-- Names

abbrev pub www : Bytes
www = codes "www.example.com"

abbrev pub mail : Bytes
mail = codes "mail.example.com"

abbrev pub example_com : Bytes
example_com = codes "example.com"

are_labels : List Bytes → Bool
are_labels [] = true
are_labels (l ∷ ls) = ltb 0 (length l) && leb (length l) 63 && are_labels ls

are_labels-IsLabel : (ls : List Bytes) → are_labels ls ≡ true → All IsLabel ls
unfolding are_labels
are_labels-IsLabel [] e = tt
are_labels-IsLabel (l ∷ ls) e = ground (arith, are_labels-IsLabel ls)

are_ascii : Bytes → Bool
are_ascii [] = true
are_ascii (b ∷ bs) = ltb b 0x80 && are_ascii bs

are_ascii-IsAscii : (bs : Bytes) → are_ascii bs ≡ true → All IsAscii bs
unfolding are_ascii
are_ascii-IsAscii [] e = tt
are_ascii-IsAscii (b ∷ bs) e = ground (arith, are_ascii-IsAscii bs)

are_small : Bytes → Bool
are_small [] = true
are_small (b ∷ bs) = leb 91 b && ltb b 0x80 && are_small bs

-- small letters, and no dot
are_small-IsLower : (bs : Bytes) → are_small bs ≡ true → All IsLower bs
unfolding are_small ascii_lower
are_small-IsLower [] e = tt
are_small-IsLower (b ∷ bs) e = ground (arith, are_small-IsLower bs)

pub www-IsName : IsName www
unfolding are_labels
www-IsName = are_labels-IsLabel (pieces_of 46 www) refl

pub mail-IsName : IsName mail
unfolding are_labels
mail-IsName = are_labels-IsLabel (pieces_of 46 mail) refl

pub example_com-IsName : IsName example_com
unfolding are_labels
example_com-IsName = are_labels-IsLabel (pieces_of 46 example_com) refl

pub www-All-IsAscii : All IsAscii www
unfolding are_ascii
www-All-IsAscii = are_ascii-IsAscii www refl

abbrev pub localhost : Bytes
localhost = codes "localhost"

pub localhost-IsName : IsName localhost
unfolding are_labels
localhost-IsName = are_labels-IsLabel (pieces_of 46 localhost) refl

pub localhost-All-IsLower : All IsLower localhost
unfolding are_small
localhost-All-IsLower = are_small-IsLower localhost refl

-- A header as it comes from a client.
abbrev pub query_header : Header
query_header = record default {
  id = 0x1234;
  recursion_desired = true;
  authoritative = false;
  qdcount = 1;
}

-- Parameters

-- The sixteen bytes of a location.
abbrev pub pack_loc : LocRecord → Result Bytes
pack_loc l = ok (
    l.version
    ∷ l.size
    ∷ l.horiz_pre
    ∷ l.vert_pre
    ∷ (be_bytes 4 l.latitude ++ (be_bytes 4 l.longitude ++ be_bytes 4 l.altitude)))

pub pack_loc_returns : (l : LocRecord) → (pack_loc l ≢ panic) × (pack_loc l ≢ stuck)
pack_loc_returns l = (λ e. cc, λ e. cc)

abbrev pub platform : Platform
platform = record {
  arch = codes "x86_64";
  os = codes "linux";
  pack_loc = pack_loc;
  pack_loc_returns = pack_loc_returns;
}

-- Addresses of four digits and a test for tags that accepts all: enough for the runs.
abbrev pub readers : Readers
readers = record {
  parse_ipv4 = λ s. some 16909060;
  parse_ipv6 = λ s. some 1;
  caa_tag_is_match = λ s. true;
  uri_captures = λ s. none;
  location = λ s. none;
}

-- Tables: two addresses for www.example.com with different times to live

abbrev pub zone_row : ZoneRow
zone_row = record {
  id = 1;
  name = example_com;
  rname = codes "billy.example.com";
  serial = 1;
  refresh = 60;
  retry = 60;
  expire = 60;
  minimum = 60;
}

abbrev pub address_row : ℕ → ℕ → RecordRow
address_row id ttl = record {
  id = id;
  zoneid = 1;
  name = some (codes "www");
  ttl = some ttl;
  rrtype = 1;
  rclass = 1;
  rdata = codes "1.2.3.4";
}

abbrev pub tables : Tables
tables = record { zones = zone_row ∷ []; records = address_row 7 300 ∷ address_row 8 200 ∷ [] }
