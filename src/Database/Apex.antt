-- ===== src/Database/Apex.antt =====
-- Records of a zone itself, as src/db/mod.rs stores them and as its view `records_merged` names them.
use mathlib.Core.List.{Memᴰ as In}
use mathlib.Core.List.Memᴰ.{head, tail, append_right}
use goatns.Prelude.{
  Bool, true, false, none, some, ◌≡◌, ◌≢◌, ◌⊎◌, inl, inr, refl, ap, List, [], ◌∷◌, ◌++◌, map,
  ==_iff, length, ok, Bytes, equal, equal_iff, arith,
}
use goatns.Enums.{RecordType, RecordClass}
use goatns.Zone.{FileZoneRecord}
use goatns.Datastore.{ZoneRow, RecordRow, merged_name, merged, records_merged, is_selected}
use goatns.Datastore.Found.{In-records_merged}
use goatns.Database.{Db, RowIds, first, is_in, zone_ids, record_ids, insert_id, text_is}
use goatns.Database.Zones.{
  record_name, is_existing, row_of, referred_zone, insert_record, write_record, save_record,
  apex_name, placed,
}

-- NULL is no name of a row, so a record of the zone itself is never found to be there already.
is_existing-apex : (r : FileZoneRecord) (row : RecordRow) → r.name ≡ [] → is_existing r row ≡ false
unfolding is_existing record_name text_is
is_existing-apex r row e = rw e (ground arith)

first-apex :
    (r : FileZoneRecord) (rows : List RecordRow) → r.name ≡ [] → first (is_existing r) rows ≡ none
unfolding first
first-apex r [] e = refl
first-apex r (row ∷ rows) e = rw (is_existing-apex r row e) (first-apex r rows e)

is_in-In :
    (zone : ZoneRow) (zones : List ZoneRow)
    → In zone zones
    → is_in zone.id (map (λ z. z.id) zones) ≡ true
unfolding is_in
is_in-In zone [] there = elim there [ ]
is_in-In zone (z ∷ zones) (head same) = rw ((==_iff zone.id z.id).1 (ap (λ z. z.id) same)) refl
is_in-In zone (z ∷ zones) (tail there) =
    let rest : is_in zone.id (map (λ z. z.id) zones) ≡ true = is_in-In zone zones there in
    ground (arith, rest)

-- The row of a new record of the zone itself.
abbrev apex_row : RowIds → Db → ZoneRow → FileZoneRecord → RecordRow
apex_row ids db zone r = row_of (ids.fresh db.rowids (record_ids db)) zone.id (some []) r

save_record-row :
    (ids : RowIds) (r : FileZoneRecord) (zone : ZoneRow) (db : Db)
    → In zone db.zones
    → r.id ≡ none
    → r.zoneid ≡ some zone.id
    → r.name ≡ []
    → save_record ids r db
      ≡ ok (
        record r { id = some (ids.fresh db.rowids (record_ids db)) },
        record db {
          records = db.records ++ (apex_row ids db zone r ∷ []);
          rowids = ids.fresh db.rowids (record_ids db) ∷ db.rowids;
        },
      )
unfolding save_record write_record insert_record referred_zone insert_id zone_ids
save_record-row ids r zone db there new in_zone name =
    rw (first-apex r db.records name, in_zone, is_in-In zone db.zones there, new, name) refl

cons_same : (zone : Bytes) → 46 ∷ zone ≢ zone
cons_same zone e = let same : length (46 ∷ zone) ≡ length zone = ap length e in omega arith

unless_true : (b : Bool) → b ≢ true → b ≡ false
unless_true true h = absurd (h refl)
unless_true false h = refl

longer : (zone : Bytes) → equal (46 ∷ zone) zone ≡ false
longer zone = unless_true _ (λ e. cons_same zone ((equal_iff (46 ∷ zone) zone).0 e))

not_selected :
    (row : RecordRow) (zone : ZoneRow) (rrtype : RecordType) (rclass : RecordClass)
    → row.name ≡ some []
    → is_selected zone.name rrtype rclass (merged row zone) ≡ false
unfolding is_selected merged merged_name
not_selected row zone rrtype rclass e = rw (e, longer zone.name) refl

apex_name_empty : (name : Bytes) → (name ≡ []) ⊎ (name ≡ b'@' ∷ []) → apex_name name ≡ []
unfolding apex_name equal
apex_name_empty name (inl e) = rw e refl
apex_name_empty name (inr e) = rw e refl

-- A new record for a stored zone itself, with an empty name or `@`, is stored in every database as one row
-- more, and misses its name: the view names that row `.` in front of the zone's name, and no query for the zone's
-- name selects it, whatever type and class it is for.
pub save_record-apex :
    (ids : RowIds) (r : FileZoneRecord) (zone : ZoneRow) (db : Db) (rrtype : RecordType)
    (rclass : RecordClass)
    → In zone db.zones
    → r.id ≡ none
    → (r.name ≡ []) ⊎ (r.name ≡ b'@' ∷ [])
    → (saved : FileZoneRecord) × (db' : Db) × (row : RecordRow) × (save_record ids
          (placed zone.id r)
          db
        ≡ ok (saved, db'))
      × (db'.records ≡ db.records ++ (row ∷ []))
      × (row.rdata ≡ r.rdata)
      × In (merged row zone) (records_merged db'.zones db'.records)
      × ((merged row zone).name ≡ 46 ∷ zone.name)
      × (is_selected zone.name rrtype rclass (merged row zone) ≡ false)
unfolding placed row_of merged merged_name
save_record-apex ids r zone db rrtype rclass there new name =
    let r' : FileZoneRecord = placed zone.id r in
    let row : RecordRow = apex_row ids db zone r' in
    (
      _,
      _,
      row,
      save_record-row ids r' zone db there new refl (apex_name_empty r.name name),
      refl,
      refl,
      In-records_merged row zone db.zones (db.records ++ (row ∷ [])) refl there
          (append_right db.records (head refl)),
      refl,
      not_selected row zone rrtype rclass refl,
    )
