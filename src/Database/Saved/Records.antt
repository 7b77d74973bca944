-- ===== src/Database/Saved/Records.antt =====
-- The loop of `FileZone::save_with_txn` in src/db/mod.rs over records that have no identifier, as they
-- come from a zone file.
use goatns.Prelude.{
  ℕ, true, false, none, some, ◌≡◌, refl, sym, ap, ◌∙◌, List, [], ◌∷◌, ◌++◌, map, append_assoc,
  append-nil, ◌==◌, ==_iff, All, ok, ◌>>=◌,
}
use mathlib.Core.List.{map-append}
use goatns.Datastore.{RecordRow, select}
use goatns.Zone.{FileZoneRecord}
use goatns.Database.{Db, RowIds, is_in, id_is, insert_id, zone_ids, record_ids}
use goatns.Database.Rows.{select-append, first-none_all}
use goatns.Database.Zones.{
  is_existing, row_of, referred_zone, insert_record, write_record, save_record, placed,
  save_records, rows_of_zone,
}

-- A row but for its identifier.
abbrev pub content : RecordRow → RecordRow
content row = record row { id = 0 }

-- The row that a record of the zone file gets in the zone `n`, but for its identifier.
abbrev pub file_row : ℕ → FileZoneRecord → RecordRow
file_row n r = row_of 0 n (some ((placed n r).name)) (placed n r)

abbrev contents : ℕ → Db → List RecordRow
contents n db = map content (rows_of_zone n db)

not_existing : (r : FileZoneRecord) (row : RecordRow) → r.id ≡ none → is_existing r row ≡ false
unfolding is_existing id_is
not_existing r row e = rw e refl

with_row : RowIds → ℕ → FileZoneRecord → Db → Db
unfolding record_ids
with_row ids n r db = record db {
  records = db.records ++ (row_of (ids.fresh db.rowids (record_ids db)) n (some r.name) r ∷ []);
  rowids = ids.fresh db.rowids (record_ids db) ∷ db.rowids;
}

save_new_record :
    (ids : RowIds) (n : ℕ) (r : FileZoneRecord) (db : Db)
    → r.id ≡ none
    → r.zoneid ≡ some n
    → is_in n (zone_ids db) ≡ true
    → (saved : FileZoneRecord) × (save_record ids r db ≡ ok (saved, with_row ids n r db))
unfolding save_record write_record insert_record referred_zone insert_id with_row
save_new_record ids n r db e z there = (
  record r { id = some (ids.fresh db.rowids (record_ids db)) },
  rw (first-none_all (is_existing r) db.records (λ row. not_existing r row e), e, z, there) refl,
)

contents-with_row :
    (ids : RowIds) (n : ℕ) (r : FileZoneRecord) (db : Db)
    → contents n (with_row ids n (placed n r) db) ≡ contents n db ++ (file_row n r ∷ [])
unfolding with_row rows_of_zone select row_of
contents-with_row ids n r db =
    rw
      (
        select-append (λ row. row.zoneid == n) db.records
            (row_of (ids.fresh db.rowids (record_ids db)) n (some ((placed n r).name)) (placed n r)
              ∷ []),
        (==_iff n n).1 refl,
        map-append content (select (λ row. row.zoneid == n) db.records) (
            row_of (ids.fresh db.rowids (record_ids db)) n (some ((placed n r).name)) (placed n r)
            ∷ []),
      )
      refl

-- The records are appended to those of the zone, in their order, and the zones stay.
pub save_records-contents :
    (ids : RowIds) (n : ℕ) (rs : List FileZoneRecord) (db : Db)
    → is_in n (zone_ids db) ≡ true
    → All (λ r. r.id ≡ none) rs
    → (db' : Db) × (save_records ids n rs db ≡ ok db')
      × (db'.zones ≡ db.zones)
      × (map content (rows_of_zone n db') ≡ map content (rows_of_zone n db) ++ map (file_row n) rs)
unfolding save_records placed with_row zone_ids
save_records-contents ids n [] db there new = (db, refl, refl, sym (append-nil _))
save_records-contents ids n (r ∷ rs) db there (e, es) =
    let (saved, s) = save_new_record ids n (placed n r) db e refl there in
    let (db', h, zones, rows) =
      save_records-contents ids n rs (with_row ids n (placed n r) db) there es in
    (
      db',
      ap (λ m. m >>= λ saved. save_records ids n rs (saved.1)) s ∙ h,
      zones,
      rows
          ∙ ap (λ l. l ++ map (file_row n) rs) (contents-with_row ids n r db)
          ∙ append_assoc (contents n db) (file_row n r ∷ []) (map (file_row n) rs),
    )
