-- ===== src/Manager/Messages.antt =====
-- The invariant of the database and each command of src/datastore.rs.
use goatns.Prelude.{
  ℕ, Option, none, some, ◌≡◌, ◌≢◌, refl, subst, List, [], ◌∷◌, Result, ok, err, panic, stuck,
  bind-eq-ok, ok-injective, Settles, Settles-bind, Settles-if, Bytes,
}
use goatns.Datastore.{select, handle_get_command}
use goatns.Zone.{FileZone}
use goatns.Utf8.{is_utf8}
use goatns.Database.{Db, RowIds, tables}
use goatns.Database.Zones.{get_zone_with_txn, save_zone}
use goatns.Database.Users.{User, ZoneOwnership, save_user, save_ownership}
use goatns.Database.Consistent.{IsConsistent}
use goatns.Database.Consistent.Owners.{save_ownership-IsConsistent, save_user-IsConsistent}
use goatns.Database.Consistent.Zones.{save_zone-IsConsistent}
use goatns.Database.Reads.{get_zone_with_txn-Returns}
use goatns.Database.Settles.{save_zone-Settles, save_ownership-Settles, save_user-Settles}
use goatns.Prelude.{Returns-Settles}
use goatns.Manager.{
  Outside, Command, Answer, End, Message, is_wanted, save_zones, import_zones, handle_import_file,
  answered, ended, or_logged, or_stopped, own_created, new_user, created_user, handle_message,
}

-- The command did not end the task by a panic, and the database is consistent.
pub record IsSound (message : Message) : Type 0 where
  pub alive : message.end ≢ End.dies
  pub kept : IsConsistent message.db

answered-IsSound :
    (answer : Option Answer) (db : Db) → IsConsistent db → IsSound (answered answer db)
answered-IsSound answer db kept = record { alive = λ e. cc; kept = kept }

stopped-IsSound : (db : Db) → IsConsistent db → IsSound (ended End.stops db)
stopped-IsSound db kept = record { alive = λ e. cc; kept = kept }

or_logged-IsSound :
    {A : Type 0} (r : Result A) (db : Db) (next : A → Message)
    → IsConsistent db
    → Settles r
    → ((x : A) → r ≡ ok x → IsSound (next x))
    → IsSound (or_logged r db next)
unfolding or_logged
or_logged-IsSound (ok x) db next kept s h = h x refl
or_logged-IsSound (err e) db next kept s h = record { alive = λ e. cc; kept = kept }
or_logged-IsSound panic db next kept s h = absurd s
or_logged-IsSound stuck db next kept s h = absurd s

or_stopped-IsSound :
    {A : Type 0} (r : Result A) (db : Db) (next : A → Message)
    → IsConsistent db
    → Settles r
    → ((x : A) → r ≡ ok x → IsSound (next x))
    → IsSound (or_stopped r db next)
unfolding or_stopped
or_stopped-IsSound (ok x) db next kept s h = h x refl
or_stopped-IsSound (err e) db next kept s h = stopped-IsSound db kept
or_stopped-IsSound panic db next kept s h = absurd s
or_stopped-IsSound stuck db next kept s h = absurd s

save_zones-Settles :
    (ids : RowIds) (zs : List FileZone) (db : Db) → IsConsistent db → Settles (save_zones ids zs db)
unfolding save_zones
save_zones-Settles ids [] db kept = tt
save_zones-Settles ids (z ∷ zs) db kept =
    Settles-bind (save_zone ids z db) _ (save_zone-Settles ids z db kept)
      (λ saved s. save_zones-Settles ids zs saved.1 (save_zone-IsConsistent ids z db kept s))

save_zones_kept :
    (ids : RowIds) (zs : List FileZone) (db : Db) {db' : Db}
    → IsConsistent db
    → save_zones ids zs db ≡ ok db'
    → IsConsistent db'
unfolding save_zones
save_zones_kept ids [] db kept h = subst IsConsistent (ok-injective h) kept
save_zones_kept ids (z ∷ zs) db kept h =
    let (saved, s, h') = bind-eq-ok (save_zone ids z db) _ h in
    save_zones_kept ids zs saved.1 (save_zone-IsConsistent ids z db kept s) h'

import_zones-Settles :
    (ids : RowIds) (zs : List FileZone) (db : Db)
    → IsConsistent db
    → Settles (import_zones ids zs db)
unfolding import_zones
import_zones-Settles ids [] db kept = tt
import_zones-Settles ids (z ∷ zs) db kept = save_zones-Settles ids (z ∷ zs) db kept

import_zones_kept :
    (ids : RowIds) (zs : List FileZone) (db : Db) {db' : Db}
    → IsConsistent db
    → import_zones ids zs db ≡ ok db'
    → IsConsistent db'
unfolding import_zones
import_zones_kept ids [] db kept h = cc
import_zones_kept ids (z ∷ zs) db kept h = save_zones_kept ids (z ∷ zs) db kept h

-- json5 returns zones or an error.
abbrev pub Reads : Outside → Type 0
Reads std = (filename : Bytes) → Settles (std.load_zones filename)

import-IsSound :
    (std : Outside) (filename : Bytes) (name : Option Bytes) (db : Db)
    → Reads std
    → IsConsistent db
    → IsSound (
        or_stopped
          (handle_import_file std filename name db)
          db
          λ db'. answered (some Answer.imported) db')
unfolding handle_import_file
import-IsSound std filename name db reads kept =
    or_stopped-IsSound (handle_import_file std filename name db) db _ kept
      (Settles-bind (std.load_zones filename) _ (reads filename)
        (λ zones _. import_zones-Settles std.ids (select (is_wanted name) zones) db kept))
      (λ db' e.
        let (zones, _, e') = bind-eq-ok (std.load_zones filename) _ e in
        answered-IsSound (some Answer.imported) db'
          (import_zones_kept std.ids (select (is_wanted name) zones) db kept e'))

own_created-IsSound :
    (ids : RowIds) (userid : ℕ) (z : FileZone) (db : Db)
    → IsConsistent db
    → IsSound (own_created ids userid z db)
unfolding own_created
own_created-IsSound ids userid z db kept = with_id z.id
  where
    with_id :
        (id : Option ℕ)
        → IsSound (elim id [
          | none ↦ answered (some (Answer.zone_created z)) db
          | some zoneid ↦
              or_stopped
                (save_ownership ids (record { id = none; userid = userid; zoneid = zoneid }) db)
                db
                λ owned. answered (some (Answer.zone_created z)) owned.1
        ])
    with_id none = answered-IsSound _ db kept
    with_id (some zoneid) =
        let o : ZoneOwnership = record { id = none; userid = userid; zoneid = zoneid } in
        or_stopped-IsSound (save_ownership ids o db) db _ kept (save_ownership-Settles ids o db)
          (λ owned s. answered-IsSound _ owned.1 (save_ownership-IsConsistent ids o db kept s))

created_user-IsSound :
    (db : Db) (r : Result (User × Db))
    → IsConsistent db
    → Settles r
    → ((saved : User × Db) → r ≡ ok saved → IsConsistent (saved.1))
    → IsSound (created_user db r)
unfolding created_user
created_user-IsSound db (ok saved) kept s h = answered-IsSound _ saved.1 (h saved refl)
created_user-IsSound db (err e) kept s h = answered-IsSound _ db kept
created_user-IsSound db panic kept s h = absurd s
created_user-IsSound db stuck kept s h = absurd s

get_command-IsSound :
    (std : Outside) (name : Bytes) (rrtype : _) (rclass : _) (db : Db)
    → IsConsistent db
    → IsSound (handle_message std (Command.get_record name rrtype rclass) db)
unfolding handle_message handle_get_command
get_command-IsSound std name rrtype rclass db kept =
    or_logged-IsSound (handle_get_command std.readers (some (tables db)) name rrtype rclass) db _
      kept (Settles-if (is_utf8 name) _ _ tt tt) (λ found _. answered-IsSound _ db kept)

pub handle_message-IsSound :
    (std : Outside) (cmd : Command) (db : Db)
    → Reads std
    → IsConsistent db
    → IsSound (handle_message std cmd db)
unfolding handle_message
handle_message-IsSound std (Command.get_record name rrtype rclass) db reads kept =
    get_command-IsSound std name rrtype rclass db kept
handle_message-IsSound std (Command.get_zone id name) db reads kept =
    or_logged-IsSound (get_zone_with_txn db id name) db _ kept
      (Returns-Settles _ (get_zone_with_txn-Returns db id name kept))
      (λ zone _. answered-IsSound _ db kept)
handle_message-IsSound std (Command.import_file filename name) db reads kept =
    import-IsSound std filename name db reads kept
handle_message-IsSound std Command.shutdown db reads kept = stopped-IsSound db kept
handle_message-IsSound std (Command.create_zone z userid) db reads kept =
    or_logged-IsSound (save_zone std.ids z db) db _ kept (save_zone-Settles std.ids z db kept)
      (λ saved s.
        own_created-IsSound std.ids userid saved.0 saved.1
          (save_zone-IsConsistent std.ids z db kept s))
handle_message-IsSound std (Command.create_user username authref admin disabled) db reads kept =
    let u : User = new_user username authref admin disabled in
    created_user-IsSound db (save_user std.ids u db) kept (save_user-Settles std.ids u db)
      (λ saved s. save_user-IsConsistent std.ids u db kept s)
handle_message-IsSound std (Command.get_ownership zoneid (some userid)) db reads kept =
    answered-IsSound _ db kept
handle_message-IsSound std (Command.get_ownership zoneid none) db reads kept =
    answered-IsSound _ db kept
handle_message-IsSound std (Command.get_zone_names user offset limit) db reads kept =
    answered-IsSound _ db kept
handle_message-IsSound std Command.delete_zone db reads kept = answered-IsSound _ db kept
handle_message-IsSound std Command.update_zone db reads kept = answered-IsSound _ db kept
handle_message-IsSound std Command.delete_user db reads kept = answered-IsSound _ db kept
handle_message-IsSound std Command.update_user db reads kept = answered-IsSound _ db kept
handle_message-IsSound std (Command.get_user id name) db reads kept = answered-IsSound _ db kept
handle_message-IsSound std (Command.delete_ownership zoneid userid) db reads kept =
    answered-IsSound _ db kept
handle_message-IsSound std (Command.post_ownership zoneid userid) db reads kept =
    answered-IsSound _ db kept
