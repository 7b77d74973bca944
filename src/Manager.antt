-- ===== src/Manager.antt =====
-- The datastore manager of src/datastore.rs: the commands it is sent, handle_message, handle_import_file
-- and the loop of `manager`. A command is answered on its own channel, and a caller that has gone away is
-- only logged, so the answers are a list. Connections, `begin` and `commit` do not fail in the model.
pub mod Messages
pub mod Runs
use goatns.Prelude.{
  ℕ, Bool, true, false, Option, none, some, List, [], ◌∷◌, if◌then◌else◌, Result, ok, err, panic,
  stuck, ◌>>=◌, Bytes, equal, codes, empty_file,
}
use goatns.Enums.{RecordType, RecordClass}
use goatns.Zone.{FileZone, Readers}
use goatns.Datastore.{ZoneRecord, select, handle_get_command}
use goatns.Database.{Db, RowIds, tables}
use goatns.Database.Zones.{get_zone_with_txn, save_zone}
use goatns.Database.Users.{
  User, ZoneOwnership, save_user, save_ownership, ownership_of_user, get_zones_for_user,
}

-- What is not in the repository: the readers of numbers and addresses, SQLite's choice of identifiers, the
-- column that sqlx reads, and the zones that json5 finds in a file (load_zones of src/zones.rs).
pub record Outside : Type 0 where
  pub readers : Readers
  pub ids : RowIds
  pub id_column : ℕ → ℕ → ℕ
  pub load_zones : Bytes → Result (List FileZone)

pub data Command : Type 0 where
  get_record : Bytes → RecordType → RecordClass → Command
  get_zone : Option ℕ → Option Bytes → Command
  get_zone_names : User → ℕ → ℕ → Command
  import_file : Bytes → Option Bytes → Command
  shutdown : Command
  create_zone : FileZone → ℕ → Command
  -- username, authref, admin, disabled
  create_user : Bytes → Bytes → Bool → Bool → Command
  get_ownership : Option ℕ → Option ℕ → Command
  -- these are only logged
  delete_zone update_zone delete_user update_user : Command
  get_user : Option ℕ → Option Bytes → Command
  delete_ownership : ℕ → Option ℕ → Command
  post_ownership : ℕ → ℕ → Command

-- What is sent on a command's channel.
pub data Answer : Type 0 where
  record_found : Option ZoneRecord → Answer
  zone_found : Option FileZone → Answer
  zones_found : List FileZone → Answer
  imported : Answer
  zone_created : FileZone → Answer
  user_created : Bool → Answer
  owners_found : List ZoneOwnership → Answer

-- handle_message returns `Ok`, or `Err`, or it panics.
pub data End : Type 0 where
  goes_on stops dies : End

pub record Message : Type 0 where
  pub answer : Option Answer
  pub end : End
  pub db : Db

-- the name is the one that is wanted
unfoldable pub is_wanted : Option Bytes → FileZone → Bool
unfolding equal
is_wanted none z = true
is_wanted (some name) z = equal z.name name

unfoldable pub save_zones : RowIds → List FileZone → Db → Result Db
unfolding save_zone
save_zones ids [] db = ok db
save_zones ids (z ∷ zs) db = save_zone ids z db >>= λ saved. save_zones ids zs saved.1

unfoldable pub import_zones : RowIds → List FileZone → Db → Result Db
unfolding save_zones
import_zones ids [] db = err empty_file
import_zones ids (z ∷ zs) db = save_zones ids (z ∷ zs) db

-- handle_import_file: one transaction over all zones of the file.
unfoldable pub handle_import_file : Outside → Bytes → Option Bytes → Db → Result Db
unfolding is_wanted import_zones select
handle_import_file std filename zone_name db = std.load_zones filename >>= λ zones.
    import_zones std.ids (select (is_wanted zone_name) zones) db

abbrev pub answered : Option Answer → Db → Message
answered answer db = record { answer = answer; end = End.goes_on; db = db }

abbrev pub ended : End → Db → Message
ended end db = record { answer = none; end = end; db = db }

-- An error is logged and no answer is sent; what was written is rolled back.
unfoldable pub or_logged : {A : Type 0} → Result A → Db → (A → Message) → Message
or_logged (ok x) db next = next x
or_logged (err e) db next = ended End.goes_on db
or_logged panic db next = ended End.dies db
or_logged stuck db next = ended End.dies db

-- An error is handed to the loop.
unfoldable pub or_stopped : {A : Type 0} → Result A → Db → (A → Message) → Message
or_stopped (ok x) db next = next x
or_stopped (err e) db next = ended End.stops db
or_stopped panic db next = ended End.dies db
or_stopped stuck db next = ended End.dies db

unfoldable pub own_created : RowIds → ℕ → FileZone → Db → Message
unfolding save_ownership or_stopped
own_created ids userid z db = elim z.id [
  | none ↦ answered (some (Answer.zone_created z)) db
  | some zoneid ↦
      or_stopped (save_ownership ids (record { id = none; userid = userid; zoneid = zoneid }) db) db
        λ owned. answered (some (Answer.zone_created z)) owned.1
]

unfoldable pub new_user : Bytes → Bytes → Bool → Bool → User
new_user username authref admin disabled = record {
  id = none;
  displayname = codes "Anonymous Kid";
  username = username;
  email = [];
  disabled = disabled;
  authref = some authref;
  admin = admin;
}

unfoldable pub created_user : Db → Result (User × Db) → Message
created_user db (ok saved) = answered (some (Answer.user_created true)) saved.1
created_user db (err e) = answered (some (Answer.user_created false)) db
created_user db panic = ended End.dies db
created_user db stuck = ended End.dies db

unfoldable pub handle_message : Outside → Command → Db → Message
unfolding or_logged or_stopped own_created new_user created_user handle_import_file
    handle_get_command get_zone_with_txn get_zones_for_user save_zone save_user ownership_of_user
handle_message std (Command.get_zone id name) db =
    or_logged (get_zone_with_txn db id name) db λ zone. answered (some (Answer.zone_found zone)) db
handle_message std (Command.get_zone_names user offset limit) db =
    answered (some (Answer.zones_found (get_zones_for_user std.id_column user db offset limit))) db
handle_message std Command.shutdown db = ended End.stops db
handle_message std (Command.import_file filename zone_name) db =
    or_stopped (handle_import_file std filename zone_name db) db
      λ db'. answered (some Answer.imported) db'
handle_message std (Command.get_record name rrtype rclass) db =
    or_logged (handle_get_command std.readers (some (tables db)) name rrtype rclass) db
      λ found. answered (some (Answer.record_found found)) db
handle_message std (Command.create_zone zone userid) db =
    or_logged (save_zone std.ids zone db) db λ saved. own_created std.ids userid saved.0 saved.1
handle_message std (Command.create_user username authref admin disabled) db =
    created_user db (save_user std.ids (new_user username authref admin disabled) db)
handle_message std (Command.get_ownership zoneid (some userid)) db =
    answered (some (Answer.owners_found (ownership_of_user db userid))) db
handle_message std _ db = answered none db

-- What the loop leaves: the answers in the order of the commands, how it ended and the database.
pub record Run : Type 0 where
  pub answers : List (Option Answer)
  pub end : End
  pub db : Db

-- Only `Ok` goes on.
unfoldable pub then_run : End → Message → Run → Run
then_run End.goes_on message rest = record rest { answers = message.answer ∷ rest.answers }
then_run End.stops message rest = record {
  answers = message.answer ∷ [];
  end = End.stops;
  db = message.db;
}
then_run End.dies message rest = record {
  answers = message.answer ∷ [];
  end = End.dies;
  db = message.db;
}

-- The loop of `manager`: it ends after the first command that is not `Ok`. When all senders are gone there
-- are no more commands.
unfoldable pub manager : Outside → List Command → Db → Run
unfolding handle_message then_run
manager std [] db = record { answers = []; end = End.goes_on; db = db }
manager std (cmd ∷ cmds) db =
    let message = handle_message std cmd db in
    let rest = manager std cmds message.db in then_run message.end message rest
