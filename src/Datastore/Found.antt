-- ===== src/Datastore/Found.antt =====
-- What is in the tables is found: get_records of src/db/mod.rs and its view miss no record.
use mathlib.Core.List.{Memᴰ as In}
use mathlib.Core.List.Memᴰ.{head, tail, append_left, append_right}
use goatns.Prelude.{
  Bool, true, false, some, ◌≡◌, refl, sym, ap, ◌∙◌, inl, inr, List, [], ◌∷◌, ◌==◌, ==_iff,
  Bool-cases, Result, ok, err, panic, stuck, Bytes, equal_iff,
}
use goatns.Enums.{RecordType, RecordClass, to_u16, class_to_u16}
use goatns.Record.{InternalResourceRecord}
use goatns.Zone.{Readers}
use goatns.Datastore.Answers.{normalize-false}
use goatns.Datastore.{
  ZoneRow, RecordRow, ViewRow, Tables, merged_name, merged, joined_zones, records_merged,
  is_selected, select, from_row, keep_ok, from_rows, get_records,
}

In-joined_zones :
    (r : RecordRow) (z : ZoneRow) (zones : List ZoneRow)
    → r.zoneid ≡ z.id
    → In z zones
    → In (merged r z) (joined_zones r zones)
unfolding joined_zones
In-joined_zones r z [] e h = elim h [ ]
In-joined_zones r z (y ∷ zones) e (head same) =
    rw ((==_iff r.zoneid y.id).1 (e ∙ ap (λ row. row.id) same)) (head (ap (merged r) same))
In-joined_zones r z (y ∷ zones) e (tail h) = elim (Bool-cases (r.zoneid == y.id)) [
  | inl c ↦ rw c (tail (In-joined_zones r z zones e h))
  | inr c ↦ rw c (In-joined_zones r z zones e h)
]

pub In-records_merged :
    (r : RecordRow) (z : ZoneRow) (zones : List ZoneRow) (records : List RecordRow)
    → r.zoneid ≡ z.id
    → In z zones
    → In r records
    → In (merged r z) (records_merged zones records)
unfolding records_merged
In-records_merged r z zones [] e h k = elim k [ ]
In-records_merged r z zones (s ∷ records) e h (head same) =
    append_left (records_merged zones records) (rw (sym same) (In-joined_zones r z zones e h))
In-records_merged r z zones (s ∷ records) e h (tail k) =
    append_right (joined_zones s zones) (In-records_merged r z zones records e h k)

In-select :
    (p : ViewRow → Bool) (row : ViewRow) (rows : List ViewRow)
    → p row ≡ true
    → In row rows
    → In row (select p rows)
unfolding select
In-select p row [] e h = elim h [ ]
In-select p row (s ∷ rows) e (head same) = rw (sym (ap p same) ∙ e) (head same)
In-select p row (s ∷ rows) e (tail h) = elim (Bool-cases (p s)) [
  | inl c ↦ rw c (tail (In-select p row rows e h))
  | inr c ↦ rw c (In-select p row rows e h)
]

In-keep_ok :
    (rr : InternalResourceRecord) (result : Result InternalResourceRecord)
    (rs : List InternalResourceRecord)
    → In rr rs
    → In rr (keep_ok result rs)
unfolding keep_ok
In-keep_ok rr (ok x) rs h = tail h
In-keep_ok rr (err e) rs h = h
In-keep_ok rr panic rs h = h
In-keep_ok rr stuck rs h = h

In-from_rows :
    (std : Readers) (row : ViewRow) (rows : List ViewRow) (rr : InternalResourceRecord)
    → from_row std row ≡ ok rr
    → In row rows
    → In rr (from_rows std rows)
unfolding from_rows keep_ok
In-from_rows std row [] rr e h = elim h [ ]
In-from_rows std row (s ∷ rows) rr e (head same) = rw (ap (from_row std) (sym same) ∙ e) (head refl)
In-from_rows std row (s ∷ rows) rr e (tail h) =
    In-keep_ok rr (from_row std s) (from_rows std rows) (In-from_rows std row rows rr e h)

is_selected-merged :
    (r : RecordRow) (z : ZoneRow) (rrtype : RecordType) (rclass : RecordClass)
    → r.rrtype ≡ to_u16 rrtype
    → r.rclass ≡ class_to_u16 rclass
    → is_selected (merged_name r.name z.name) rrtype rclass (merged r z) ≡ true
unfolding is_selected merged
is_selected-merged r z rrtype rclass t c =
    rw
      (
        (equal_iff (merged_name r.name z.name) (merged_name r.name z.name)).1 refl,
        (==_iff r.rrtype (to_u16 rrtype)).1 t,
        (==_iff r.rclass (class_to_u16 rclass)).1 c,
      )
      refl

-- A record of the tables is found: where its zone is there, where its name in front of the zone's,
-- or the zone's alone, is the name asked for, where type and class are those asked for, and where it
-- can be converted, the query without normalised times to live returns it.
pub get_records-In :
    (std : Readers) (db : Tables) (r : RecordRow) (z : ZoneRow) (rrtype : RecordType)
    (rclass : RecordClass) (rr : InternalResourceRecord)
    → In r db.records
    → In z db.zones
    → r.zoneid ≡ z.id
    → r.rrtype ≡ to_u16 rrtype
    → r.rclass ≡ class_to_u16 rclass
    → from_row std (merged r z) ≡ ok rr
    → (rs : List InternalResourceRecord) × (get_records std
          (some db)
          (merged_name r.name z.name)
          rrtype
          rclass
          false
        ≡ ok rs)
      × In rr rs
unfolding get_records
get_records-In std db r z rrtype rclass rr found_r found_z e t c converts =
    let name : Bytes = merged_name r.name z.name in
    let rows : List ViewRow =
      select (is_selected name rrtype rclass) (records_merged db.zones db.records) in
    (
      from_rows std rows,
      ap ok (normalize-false (from_rows std rows)),
      In-from_rows std (merged r z) rows rr converts (
          In-select (is_selected name rrtype rclass) (merged r z)
            (records_merged db.zones db.records) (is_selected-merged r z rrtype rclass t c)
            (In-records_merged r z db.zones db.records e found_z found_r)),
    )
