-- ===== src/Examples/Home.antt =====
-- A database with one zone and its owner, reached from the empty one, and the theorems on the database
-- applied to it.
use mathlib.Core.List.{Memᴰ as In}
use mathlib.Core.List.Memᴰ.{head}
use goatns.Prelude.{
  ℕ, suc, ◌+◌, ◌<◌, false, none, some, ◌≡◌, refl, inl, inr, List, [], ◌∷◌, ◌++◌, ok, codes, arith,
}
use goatns.Enums.{RecordType, RecordClass}
use goatns.Examples.{example_com, zone_row}
use goatns.Zone.{FileZone, FileZoneRecord}
use goatns.Datastore.{RecordRow, merged, records_merged, is_selected}
use goatns.Database.{Db, RowIds, UserRow, is_in}
use goatns.Database.Zones.{save_zone, delete_zone, save_record, placed}
use goatns.Database.Users.{User, ZoneOwnership, save_user, save_ownership}
use goatns.Database.Consistent.{IsConsistent}
use goatns.Database.Consistent.Reach.{
  empty_db, saves_zone, saves_user, saves_ownership, Reach, start, more, Reach-IsConsistent,
}
use goatns.Database.Deleted.{IsWithout, delete_zone-IsWithout}
use goatns.Database.Saved.{IsStored, save_zone-IsStored}
use goatns.Database.Apex.{save_record-apex}

abbrev pub total : List ℕ → ℕ
total [] = 0
total (n ∷ ns) = n + total ns

pub total_unused : (n : ℕ) (ids : List ℕ) → total ids < n → is_in n ids ≡ false
unfolding is_in
total_unused n [] h = refl
total_unused n (m ∷ ids) h =
    let rest : is_in n ids ≡ false = total_unused n ids (omega arith) in ground (arith, rest)

-- A new row gets an identifier above all others.
abbrev pub row_ids : RowIds
row_ids = record {
  fresh = λ history ids. suc (total ids);
  fresh_unused = λ history ids. total_unused (suc (total ids)) ids (omega arith);
}

abbrev apex_record : FileZoneRecord
apex_record = record {
  id = none;
  zoneid = none;
  name = codes "@";
  rrtype = "TXT";
  class = RecordClass.internet;
  rdata = codes "hello";
  ttl = 60;
}

abbrev www_record : FileZoneRecord
www_record = record apex_record { name = codes "www"; rrtype = "A"; rdata = codes "1.2.3.4" }

abbrev pub zone_file : FileZone
zone_file = record {
  id = none;
  name = example_com;
  rname = codes "billy.example.com";
  serial = 1;
  refresh = 60;
  retry = 60;
  expire = 60;
  minimum = 60;
  records = apex_record ∷ www_record ∷ [];
}

abbrev pub owner : User
owner = record {
  id = some 1;
  displayname = codes "Owner";
  username = codes "owner";
  email = codes "owner@example.com";
  disabled = false;
  authref = none;
  admin = false;
}

abbrev pub stranger : User
stranger = record owner { id = some 2; username = codes "stranger" }

abbrev owner_row : UserRow
owner_row = record {
  id = 1;
  displayname = codes "Owner";
  username = codes "owner";
  email = codes "owner@example.com";
  disabled = false;
  authref = none;
  admin = false;
}

abbrev apex_row : RecordRow
apex_row = record {
  id = 1;
  zoneid = 1;
  name = some [];
  ttl = some 60;
  rrtype = 16;
  rclass = 1;
  rdata = codes "hello";
}

abbrev www_row : RecordRow
www_row = record apex_row { id = 2; name = some (codes "www"); rrtype = 1; rdata = codes "1.2.3.4" }

abbrev user_db : Db
user_db = record empty_db { users = owner_row ∷ []; rowids = 1 ∷ [] }

abbrev zone_db : Db
zone_db = record user_db {
  zones = zone_row ∷ [];
  records = apex_row ∷ www_row ∷ [];
  rowids = 2 ∷ 1 ∷ 1 ∷ 1 ∷ [];
}

abbrev pub home_db : Db
home_db = record zone_db {
  ownership = record { id = 1; zoneid = 1; userid = 1 } ∷ [];
  rowids = 1 ∷ 2 ∷ 1 ∷ 1 ∷ 1 ∷ [];
}

abbrev ownership : ZoneOwnership
ownership = record { id = none; userid = 1; zoneid = 1 }

user_saved : save_user row_ids owner empty_db ≡ ok (owner, user_db)
unfolding save_user
user_saved = refl

zone_saved : save_zone row_ids zone_file user_db ≡ ok (record zone_file { id = some 1 }, zone_db)
unfolding save_zone
zone_saved = refl

ownership_saved :
    save_ownership row_ids ownership zone_db ≡ ok (record ownership { id = some 1 }, home_db)
unfolding save_ownership
ownership_saved = refl

home_reached : Reach row_ids home_db
home_reached =
    more (more (more start (saves_user owner user_saved)) (saves_zone zone_file zone_saved))
      (saves_ownership ownership ownership_saved)

pub home_kept : IsConsistent home_db
home_kept = Reach-IsConsistent row_ids home_reached

Reach-IsConsistent_example : IsConsistent home_db
Reach-IsConsistent_example = Reach-IsConsistent row_ids home_reached

-- a new serial, and one record less
abbrev pub next_file : FileZone
next_file = record zone_file { serial = 2; records = www_record ∷ [] }

save_zone-IsStored_example :
    (n : ℕ) × (db' : Db) × (save_zone row_ids next_file home_db
      ≡ ok (record next_file { id = some n }, db'))
    × IsStored n next_file db'
save_zone-IsStored_example =
    save_zone-IsStored row_ids next_file home_db home_kept (inl refl) (refl, tt)

delete_zone-IsWithout_example :
    (db' : Db) × (delete_zone (record zone_file { id = some 1 }) home_db ≡ ok db')
    × IsWithout 1 home_db db'
delete_zone-IsWithout_example =
    delete_zone-IsWithout (record zone_file { id = some 1 }) home_db 1 refl

save_record-apex_example :
    (saved : FileZoneRecord) × (db' : Db) × (row : RecordRow) × (save_record row_ids
        (placed 1 apex_record)
        home_db
      ≡ ok (saved, db'))
    × (db'.records ≡ home_db.records ++ (row ∷ []))
    × (row.rdata ≡ apex_record.rdata)
    × In (merged row zone_row) (records_merged db'.zones db'.records)
    × ((merged row zone_row).name ≡ 46 ∷ example_com)
    × (is_selected example_com RecordType.txt RecordClass.internet (merged row zone_row) ≡ false)
save_record-apex_example =
    save_record-apex row_ids apex_record zone_row home_db RecordType.txt RecordClass.internet
      (head refl) refl (inr refl)
