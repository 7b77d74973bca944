-- ===== src/Database/Consistent/Reach.antt =====
-- The states that the operations of src/db/mod.rs lead to, and the invariant of all of them.
use goatns.Prelude.{[], ◌≡◌, ok}
use goatns.Zone.{FileZone, FileZoneRecord}
use goatns.Database.{Db, RowIds, zone_ids, record_ids, user_ids, ownership_ids}
use goatns.Database.Zones.{save_record, delete_record, save_zone, delete_zone}
use goatns.Database.Users.{User, ZoneOwnership, save_user, save_ownership, delete_ownership}
use goatns.Database.Consistent.{IsConsistent, save_record-IsConsistent, delete_record-IsConsistent}
use goatns.Database.Accounts.{update_user, update_user-IsConsistent}
use goatns.Database.Consistent.Owners.{
  delete_ownership-IsConsistent, save_ownership-IsConsistent, save_user-IsConsistent,
}
use goatns.Database.Consistent.Zones.{save_zone-IsConsistent}
use goatns.Database.Consistent.Deletes.{delete_zone-IsConsistent}

-- The database before anything is stored.
abbrev pub empty_db : Db
empty_db = record { zones = []; records = []; users = []; ownership = []; rowids = [] }

-- One operation that succeeds. One that fails is rolled back and is no step.
pub data Step (ids : RowIds) (db : Db) : Db → Type 0 where
  saves_zone :
      (z : FileZone) {saved : FileZone × Db} → save_zone ids z db ≡ ok saved → Step ids db (saved.1)
  deletes_zone : (z : FileZone) {db' : Db} → delete_zone z db ≡ ok db' → Step ids db db'
  saves_record :
      (r : FileZoneRecord) {saved : FileZoneRecord × Db}
      → save_record ids r db ≡ ok saved
      → Step ids db (saved.1)
  deletes_record : (r : FileZoneRecord) → Step ids db (delete_record r db)
  saves_user :
      (u : User) {saved : User × Db} → save_user ids u db ≡ ok saved → Step ids db (saved.1)
  updates_user : (u : User) {db' : Db} → update_user u db ≡ ok db' → Step ids db db'
  saves_ownership :
      (o : ZoneOwnership) {saved : ZoneOwnership × Db}
      → save_ownership ids o db ≡ ok saved
      → Step ids db (saved.1)
  deletes_ownership : (o : ZoneOwnership) → Step ids db (delete_ownership o db)

-- Any sequence of operations on the empty database.
pub data Reach (ids : RowIds) : Db → Type 0 where
  start : Reach ids empty_db
  more : {db db' : Db} → Reach ids db → Step ids db db' → Reach ids db'

Step-IsConsistent :
    (ids : RowIds) {db db' : Db} → IsConsistent db → Step ids db db' → IsConsistent db'
Step-IsConsistent ids {db} kept (saves_zone z h) = save_zone-IsConsistent ids z db kept h
Step-IsConsistent ids {db} kept (deletes_zone z h) = delete_zone-IsConsistent z db kept h
Step-IsConsistent ids {db} kept (saves_record r h) = save_record-IsConsistent ids r db kept h
Step-IsConsistent ids {db} kept (deletes_record r) = delete_record-IsConsistent r db kept
Step-IsConsistent ids {db} kept (saves_user u h) = save_user-IsConsistent ids u db kept h
Step-IsConsistent ids {db} kept (updates_user u h) = update_user-IsConsistent u db kept h
Step-IsConsistent ids {db} kept (saves_ownership o h) = save_ownership-IsConsistent ids o db kept h
Step-IsConsistent ids {db} kept (deletes_ownership o) = delete_ownership-IsConsistent o db kept

empty_db-IsConsistent : IsConsistent empty_db
unfolding zone_ids record_ids user_ids ownership_ids
empty_db-IsConsistent = record {
  zones_distinct = tt;
  names_distinct = tt;
  records_distinct = tt;
  users_distinct = tt;
  ownership_distinct = tt;
  records_belong = tt;
  ownership_belongs = tt;
}

-- Whatever zones, records, users and owners are saved and deleted from the empty database on, and users
-- updated, in whatever order: identifiers stay distinct in each table, no two zones have one name, each record
-- belongs to a zone that is there and has a name and a time to live, and each owner's zone and user
-- are there.
pub Reach-IsConsistent : (ids : RowIds) {db : Db} → Reach ids db → IsConsistent db
Reach-IsConsistent ids start = empty_db-IsConsistent
Reach-IsConsistent ids (more before step) =
    Step-IsConsistent ids (Reach-IsConsistent ids before) step
