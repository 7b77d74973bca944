-- ===== src/Database/Deleted.antt =====
-- The database behind `FileZone::delete_with_txn` of src/db/mod.rs.
use goatns.Prelude.{ℕ, false, not, ◌==◌, some, ◌≡◌, ◌≢◌, refl, map, ok}
use goatns.Datastore.{select}
use goatns.Zone.{FileZone}
use goatns.Database.{Db, is_in, delete_where, id_is, zone_ids}
use goatns.Database.Rows.{other_key, select-select, is_in-delete_where}
use goatns.Database.Zones.{
  rows_of_zone, drop_records, remove_zone_row, remove_ownership, delete_zone,
}

-- `db'` is `db` without the zone `n`, its records and its owners; other zones keep their records and owners.
pub record IsWithout (n : ℕ) (db db' : Db) : Type 0 where
  pub no_zone : is_in n (zone_ids db') ≡ false
  pub no_record : is_in n (map (λ r. r.zoneid) db'.records) ≡ false
  pub no_owner : is_in n (map (λ o. o.zoneid) db'.ownership) ≡ false
  pub other_zones :
      (m : ℕ) → m ≢ n → select (λ z. z.id == m) db'.zones ≡ select (λ z. z.id == m) db.zones
  pub other_records : (m : ℕ) → m ≢ n → rows_of_zone m db' ≡ rows_of_zone m db
  pub other_owners :
      (m : ℕ)
      → m ≢ n
      → select (λ o. o.zoneid == m) db'.ownership ≡ select (λ o. o.zoneid == m) db.ownership
  pub same_users : db'.users ≡ db.users

-- A stored zone can always be deleted: whatever the database holds, the deletion succeeds, the zone, its
-- records and its owners are gone, and the other zones, their records, their owners and the users stay.
pub delete_zone-IsWithout :
    (z : FileZone) (db : Db) (n : ℕ)
    → z.id ≡ some n
    → (db' : Db) × (delete_zone z db ≡ ok db') × IsWithout n db db'
unfolding delete_zone remove_zone_row remove_ownership drop_records zone_ids rows_of_zone
    delete_where id_is
delete_zone-IsWithout z db n e =
    let dropped : Db = drop_records (some n) (remove_ownership n db) in
    (
      record dropped { zones = delete_where (λ row. row.id == n) db.zones },
      rw
          (
            e,
            is_in-delete_where (λ r. r.zoneid) n db.records,
            is_in-delete_where (λ o. o.zoneid) n db.ownership,
          )
          refl,
      record {
        no_zone = is_in-delete_where (λ z. z.id) n db.zones;
        no_record = is_in-delete_where (λ r. r.zoneid) n db.records;
        no_owner = is_in-delete_where (λ o. o.zoneid) n db.ownership;
        other_zones = λ m ne.
            select-select (λ z. z.id == m) (λ z. not (z.id == n)) db.zones
              (λ row. other_key n m row.id ne);
        other_records = λ m ne.
            select-select (λ r. r.zoneid == m) (λ r. not (r.zoneid == n)) db.records
              (λ row. other_key n m row.zoneid ne);
        other_owners = λ m ne.
            select-select (λ o. o.zoneid == m) (λ o. not (o.zoneid == n)) db.ownership
              (λ row. other_key n m row.zoneid ne);
        same_users = refl;
      },
    )
