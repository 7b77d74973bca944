-- ===== src/Database.antt =====
-- The database of src/db/mod.rs: its tables as lists of rows, and what the statements that the code
-- runs do to them. Identifiers are only compared, so they are naturals. SQLite is not in the
-- repository: which identifier a new row gets is the parameter `RowIds`, and the constraints of the
-- tables (primary keys, NOT NULL, unique indexes, foreign keys, which the crate sqlx turns on) refuse
-- a statement as documented. A transaction that ends in an error is rolled back, so an operation is a
-- function to `Result` of a value and the new state.
pub mod Accounts
pub mod Apex
pub mod Consistent
pub mod Deleted
pub mod Reads
pub mod Rows
pub mod Saved
pub mod Settles
pub mod Zones
pub mod Users
use goatns.Prelude.{
  ℕ, Bool, true, false, not, ◌&&◌, ◌||◌, Option, none, some, ◌≡◌, List, [], ◌∷◌, ◌++◌, map, ◌==◌,
  if◌then◌else◌, Result, ok, err, panic, stuck, ◌>>=◌, Bytes, equal, sqlx_error,
}
use goatns.Datastore.{ZoneRow, RecordRow, Tables, select}

-- A row of the table `users`.
pub record UserRow : Type 0 where
  pub id : ℕ
  pub displayname : Bytes
  pub username : Bytes
  pub email : Bytes
  pub disabled : Bool
  pub authref : Option Bytes
  pub admin : Bool

-- A row of the table `ownership`.
pub record OwnershipRow : Type 0 where
  pub id : ℕ
  pub zoneid : ℕ
  pub userid : ℕ

-- The tables, and the identifiers that INSERT statements gave, the last first.
pub record Db : Type 0 where
  pub zones : List ZoneRow
  pub records : List RecordRow
  pub users : List UserRow
  pub ownership : List OwnershipRow
  pub rowids : List ℕ

-- The tables that queries for names read.
abbrev pub tables : Db → Tables
tables db = record { zones = db.zones; records = db.records }

-- Is the number among the numbers?
unfoldable pub is_in : ℕ → List ℕ → Bool
is_in n [] = false
is_in n (x ∷ xs) = n == x || is_in n xs

-- `last_insert_rowid`
unfoldable pub last_rowid : List ℕ → ℕ
last_rowid [] = 0
last_rowid (id ∷ ids) = id

-- The identifier that SQLite gives to a new row: any that is not among the table's, whether it is above those that
-- the table holds or, with AUTOINCREMENT, above those that it has ever held. It may depend on all that was inserted
-- before, in whatever table; each INSERT makes that list longer, so two of them need not agree on anything.
pub record RowIds : Type 0 where
  pub fresh : List ℕ → List ℕ → ℕ
  pub fresh_unused : (history ids : List ℕ) → is_in (fresh history ids) ids ≡ false

-- The first row that a query finds.
unfoldable pub first : {A : Type 0} → (A → Bool) → List A → Option A
first p [] = none
first p (row ∷ rows) = let rest = first p rows in if p row then some row else rest

-- `DELETE … WHERE`
unfoldable pub delete_where : {A : Type 0} → (A → Bool) → List A → List A
unfolding select
delete_where p rows = select (λ row. not (p row)) rows

-- `UPDATE … SET … WHERE`
unfoldable pub update_where : {A : Type 0} → (A → Bool) → (A → A) → List A → List A
update_where p set [] = []
update_where p set (row ∷ rows) =
    let rest = update_where p set rows in if p row then set row ∷ rest else row ∷ rest

-- A comparison with a bound value; NULL is equal to nothing.
unfoldable pub id_is : Option ℕ → ℕ → Bool
id_is none n = false
id_is (some m) n = n == m

unfoldable pub text_is : Option Bytes → Option Bytes → Bool
unfolding equal
text_is (some bound) (some column) = equal column bound
text_is _ _ = false

-- The identifier of an inserted row, where the primary key allows it.
unfoldable pub insert_id : RowIds → Db → Option ℕ → List ℕ → Result ℕ
unfolding is_in
insert_id ids db none used = ok (ids.fresh db.rowids used)
insert_id ids db (some id) used = if is_in id used then err sqlx_error else ok id

unfoldable pub zone_ids : Db → List ℕ
zone_ids db = map (λ z. z.id) db.zones

unfoldable pub record_ids : Db → List ℕ
record_ids db = map (λ r. r.id) db.records

unfoldable pub user_ids : Db → List ℕ
user_ids db = map (λ u. u.id) db.users

unfoldable pub ownership_ids : Db → List ℕ
ownership_ids db = map (λ o. o.id) db.ownership
