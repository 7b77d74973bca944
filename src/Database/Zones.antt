-- ===== src/Database/Zones.antt =====
-- Zones and their records in the database: `DBEntity for FileZone`, `DBEntity for FileZoneRecord` and
-- get_zone_with_txn of src/db/mod.rs.
use goatns.Prelude.{
  ℕ, Bool, not, ◌&&◌, ◌||◌, ◌%◌, Option, none, some, List, [], ◌∷◌, ◌++◌, map, ◌==◌, if◌then◌else◌,
  Result, ok, err, panic, stuck, ◌>>=◌, Bytes, equal, sqlx_error, rfc8482,
}
use goatns.Database.{
  Db, RowIds, is_in, first, delete_where, update_where, id_is, text_is, insert_id, last_rowid,
  zone_ids, record_ids,
}
use goatns.Datastore.{ZoneRow, RecordRow, select}
use goatns.Enums.{RecordType, to_u16, from_u16, to_str, from_str, class_to_u16, class_from_u16}
use goatns.Zone.{FileZone, FileZoneRecord, matching_data}

-- `TryFrom<SqliteRow> for FileZoneRecord`: reading NULL as a string or a number panics.
unfoldable pub record_from_row : RecordRow → Result FileZoneRecord
unfolding from_u16 to_u16 to_str class_from_u16
record_from_row row = elim row.name [
  | none ↦ panic
  | some name ↦ elim row.ttl [
    | none ↦ panic
    | some ttl ↦
        let rrtype = from_u16 (row.rrtype % 0x10000) in
        if to_u16 rrtype == to_u16 RecordType.any
        then err rfc8482
        else ok (record {
          id = some row.id;
          zoneid = some row.zoneid;
          name = name;
          rrtype = to_str rrtype;
          class = class_from_u16 row.rclass;
          rdata = row.rdata;
          ttl = ttl;
        })
  ]
]

unfoldable pub keep_record :
    Result FileZoneRecord → Result (List FileZoneRecord) → Result (List FileZoneRecord)
keep_record (ok r) rest = rest >>= λ rs. ok (r ∷ rs)
keep_record (err e) rest = rest
keep_record panic rest = panic
keep_record stuck rest = stuck

-- `filter_map` over the rows
unfoldable pub records_from_rows : List RecordRow → Result (List FileZoneRecord)
unfolding record_from_row keep_record
records_from_rows [] = ok []
records_from_rows (row ∷ rows) = keep_record (record_from_row row) (records_from_rows rows)

-- `From<SqliteRow> for FileZone`
unfoldable pub zone_from_row : ZoneRow → FileZone
zone_from_row row = record {
  id = some row.id;
  name = row.name;
  rname = row.rname;
  serial = row.serial;
  refresh = row.refresh;
  retry = row.retry;
  expire = row.expire;
  minimum = row.minimum;
  records = [];
}

-- `WHERE zoneid = ?`
unfoldable pub rows_of_zone : ℕ → Db → List RecordRow
unfolding select
rows_of_zone zoneid db = select (λ row. row.zoneid == zoneid) db.records

unfoldable pub with_records : Db → ZoneRow → Result FileZone
unfolding zone_from_row records_from_rows rows_of_zone
with_records db row = records_from_rows (rows_of_zone row.id db) >>= λ records.
    ok (record (zone_from_row row) { records = records })

-- `WHERE name = ? or id = ?`
unfoldable pub is_zone : Option ℕ → Option Bytes → ZoneRow → Bool
unfolding text_is id_is
is_zone id name row = text_is name (some row.name) || id_is id row.id

unfoldable pub found_zone : Db → Option ZoneRow → Result (Option FileZone)
unfolding with_records
found_zone db none = ok none
found_zone db (some row) = with_records db row >>= λ zone. ok (some zone)

unfoldable pub get_zone_with_txn : Db → Option ℕ → Option Bytes → Result (Option FileZone)
unfolding found_zone first is_zone
get_zone_with_txn db id name = found_zone db (first (is_zone id name) db.zones)

-- `FileZone::get_with_txn`: a missing row is an error.
unfoldable pub get_with_txn : Db → ℕ → Result FileZone
unfolding first with_records
get_with_txn db id = elim (first (λ row. row.id == id) db.zones) [
  | none ↦ err sqlx_error
  | some row ↦ with_records db row
]

-- `FileZone::get_by_name`: the records are not read.
unfoldable pub get_by_name : Db → Bytes → Option FileZone
unfolding first equal zone_from_row
get_by_name db name = elim (first (λ row. equal row.name name) db.zones) [
  | none ↦ none
  | some row ↦ some (zone_from_row row)
]

-- `record_name` in `FileZoneRecord::save_with_txn`: an empty name is NULL.
unfoldable pub record_name : Bytes → Option Bytes
record_name [] = none
record_name (c ∷ name) = some (c ∷ name)

-- The row that is there already.
unfoldable pub is_existing : FileZoneRecord → RecordRow → Bool
unfolding id_is text_is record_name to_u16 from_str class_to_u16 equal
is_existing r row =
    id_is r.id row.id
    && id_is r.zoneid row.zoneid
    && text_is (record_name r.name) row.name
    && id_is row.ttl r.ttl
    && row.rrtype == to_u16 (from_str r.rrtype)
    && row.rclass == class_to_u16 r.class
    && equal row.rdata r.rdata

unfoldable pub row_of : ℕ → ℕ → Option Bytes → FileZoneRecord → RecordRow
unfolding to_u16 from_str class_to_u16
row_of id zoneid name r = record {
  id = id;
  zoneid = zoneid;
  name = name;
  ttl = some r.ttl;
  rrtype = to_u16 (from_str r.rrtype);
  rclass = class_to_u16 r.class;
  rdata = r.rdata;
}

-- A zone that the record may refer to: NOT NULL, and the foreign key.
unfoldable pub referred_zone : Option ℕ → Db → Result ℕ
unfolding is_in zone_ids
referred_zone none db = err sqlx_error
referred_zone (some zoneid) db = if is_in zoneid (zone_ids db) then ok zoneid else err sqlx_error

-- The INSERT statements: the name that is bound is the record's own, also where it is empty.
unfoldable pub insert_record : RowIds → FileZoneRecord → Db → Result (FileZoneRecord × Db)
unfolding referred_zone insert_id record_ids row_of
insert_record ids r db = referred_zone r.zoneid db >>= λ zoneid.
    insert_id ids db r.id (record_ids db) >>= λ id. ok (
      record r { id = some id },
      record db {
        records = db.records ++ (row_of id zoneid (some r.name) r ∷ []);
        rowids = id ∷ db.rowids;
      },
    )

-- The UPDATE statement: the identifier in the answer is that of the last INSERT.
unfoldable pub update_record : ℕ → FileZoneRecord → Db → Result (FileZoneRecord × Db)
unfolding referred_zone update_where row_of record_name last_rowid
update_record id r db = referred_zone r.zoneid db >>= λ zoneid. ok (
  record r { id = some (last_rowid db.rowids) },
  record db {
    records =
        update_where (λ row. row.id == id) (λ row. row_of row.id zoneid (record_name r.name) r)
          db.records;
  },
)

-- UPDATE where the row is there already, and else INSERT.
unfoldable pub write_record :
    RowIds → FileZoneRecord → Option RecordRow → Db → Result (FileZoneRecord × Db)
unfolding insert_record update_record
write_record ids r none db = insert_record ids r db
write_record ids r (some existing) db = update_record existing.id r db

-- `FileZoneRecord::save_with_txn`
unfoldable pub save_record : RowIds → FileZoneRecord → Db → Result (FileZoneRecord × Db)
unfolding first is_existing write_record
save_record ids r db = write_record ids r (first (is_existing r) db.records) db

-- `FileZoneRecord::get_with_txn`: a missing row is an error.
unfoldable pub get_record_with_txn : Db → ℕ → Result FileZoneRecord
unfolding first record_from_row
get_record_with_txn db id = elim (first (λ row. row.id == id) db.records) [
  | none ↦ err sqlx_error
  | some row ↦ record_from_row row
]

-- `FileZoneRecord::get` and `FileZoneRecord::update_with_txn` are not implemented: they return an error.
unfoldable pub get_record : Db → ℕ → Result FileZoneRecord
get_record db id = err sqlx_error

unfoldable pub update_record_with_txn : FileZoneRecord → Db → Result (FileZoneRecord × Db)
update_record_with_txn r db = err sqlx_error

-- `FileZoneRecord::delete_with_txn`
unfoldable pub delete_record : FileZoneRecord → Db → Db
unfolding delete_where id_is
delete_record r db = record db { records = delete_where (λ row. id_is r.id row.id) db.records }

-- `@` stands for the zone itself.
unfoldable pub apex_name : Bytes → Bytes
unfolding equal
apex_name name = if equal name (b'@' ∷ []) then [] else name

-- A record of the zone file, placed in its zone.
unfoldable pub placed : ℕ → FileZoneRecord → FileZoneRecord
unfolding apex_name
placed zoneid r = record r { zoneid = some zoneid; name = apex_name r.name }

-- The loop over the records in `FileZone::save_with_txn`.
unfoldable pub save_records : RowIds → ℕ → List FileZoneRecord → Db → Result Db
unfolding save_record placed
save_records ids zoneid [] db = ok db
save_records ids zoneid (r ∷ rs) db =
    save_record ids (placed zoneid r) db >>= λ saved. save_records ids zoneid rs saved.1

unfoldable pub zone_row : ℕ → FileZone → ZoneRow
zone_row id z = record {
  id = id;
  name = z.name;
  rname = z.rname;
  serial = z.serial;
  refresh = z.refresh;
  retry = z.retry;
  expire = z.expire;
  minimum = z.minimum;
}

-- The INSERT statement of `FileZone::save_with_txn`.
unfoldable pub insert_zone : RowIds → FileZone → Db → Result Db
unfolding insert_id zone_ids zone_row
insert_zone ids z db = insert_id ids db z.id (zone_ids db) >>= λ id.
    ok (record db { zones = db.zones ++ (zone_row id z ∷ []); rowids = id ∷ db.rowids })

unfoldable pub set_authority : FileZone → ZoneRow → ZoneRow
set_authority z row = record row {
  rname = z.rname;
  serial = z.serial;
  refresh = z.refresh;
  retry = z.retry;
  expire = z.expire;
  minimum = z.minimum;
}

-- `FileZone::update_with_txn`: all but the name.
unfoldable pub update_zone : FileZone → Db → Db
unfolding update_where set_authority id_is
update_zone z db = record db {
  zones = update_where (λ row. id_is z.id row.id) (set_authority z) db.zones;
}

-- The zone itself is written, if it is new or differs.
unfoldable pub write_zone : RowIds → FileZone → Option FileZone → Db → Result Db
unfolding insert_zone update_zone matching_data
write_zone ids z none db = insert_zone ids z db
write_zone ids z (some ez) db =
    if not (matching_data z ez) then ok (update_zone (record z { id = ez.id }) db) else ok db

-- `delete from records where zoneid = ?`
unfoldable pub drop_records : Option ℕ → Db → Db
unfolding delete_where id_is
drop_records id db = record db { records = delete_where (λ row. id_is id row.zoneid) db.records }

-- The records of the zone are written anew, for the identifier that was read.
unfoldable pub store_records : RowIds → FileZone → Option ℕ → Db → Result (FileZone × Db)
unfolding drop_records save_records
store_records ids z none db = err sqlx_error
store_records ids z (some id) db =
    save_records ids id z.records (drop_records (some id) db) >>= λ db'.
    ok (record z { id = some id }, db')

-- What follows once the zone is there.
unfoldable pub replace_records : RowIds → FileZone → Option FileZone → Db → Result (FileZone × Db)
unfolding store_records
replace_records ids z none db = err sqlx_error
replace_records ids z (some updated_zone) db = store_records ids z updated_zone.id db

-- `FileZone::save_with_txn`
unfoldable pub save_zone : RowIds → FileZone → Db → Result (FileZone × Db)
unfolding get_zone_with_txn write_zone replace_records
save_zone ids z db = get_zone_with_txn db none (some z.name) >>= λ find_zone.
    write_zone ids z find_zone db >>= λ written.
    get_zone_with_txn written none (some z.name) >>= λ updated_zone.
    replace_records ids z updated_zone written

-- The zone's row may go where nothing refers to it.
unfoldable pub remove_zone_row : ℕ → Db → Result Db
unfolding is_in delete_where
remove_zone_row id db =
    if is_in id (map (λ r. r.zoneid) db.records) || is_in id (map (λ o. o.zoneid) db.ownership)
    then err sqlx_error
    else ok (record db { zones = delete_where (λ row. row.id == id) db.zones })

unfoldable pub remove_ownership : ℕ → Db → Db
unfolding delete_where
remove_ownership id db = record db {
  ownership = delete_where (λ row. row.zoneid == id) db.ownership;
}

-- `FileZone::delete_with_txn`: ownership, records, and then the zone. NULL is the identifier of none.
unfoldable pub delete_zone : FileZone → Db → Result Db
unfolding remove_zone_row remove_ownership drop_records
delete_zone z db = elim z.id [
  | none ↦ ok db
  | some id ↦ remove_zone_row id (drop_records (some id) (remove_ownership id db))
]
