-- ===== src/Manager/Runs.antt =====
-- Runs of the datastore manager of src/datastore.rs over any commands.
use goatns.Prelude.{
  ℕ, suc, Bool, false, Option, ◌≡◌, ◌≢◌, refl, ap, ◌⊎◌, inl, inr, List, [], ◌∷◌, ◌++◌, All, length,
  ok, err, Bytes, Error, empty_file,
}
use goatns.Zone.{FileZone}
use goatns.Datastore.{select}
use goatns.Database.{Db}
use goatns.Database.Consistent.{IsConsistent}
use goatns.Manager.{
  Outside, Command, End, Message, is_wanted, import_zones, handle_import_file, or_stopped,
  handle_message, Run, then_run, manager,
}
use goatns.Manager.Messages.{Reads, IsSound, handle_message-IsSound}

-- The task did not panic, and the database is consistent.
pub record IsSoundRun (run : Run) : Type 0 where
  pub alive : run.end ≢ End.dies
  pub kept : IsConsistent run.db

then_run_sound :
    (end : End) (message : Message) (rest : Run)
    → end ≢ End.dies
    → IsConsistent message.db
    → IsSoundRun rest
    → IsSoundRun (then_run end message rest)
unfolding then_run
then_run_sound End.goes_on message rest alive kept sound = record {
  alive = sound.alive;
  kept = sound.kept;
}
then_run_sound End.stops message rest alive kept sound = record { alive = λ e. cc; kept = kept }
then_run_sound End.dies message rest alive kept sound = absurd (alive refl)

-- Whatever commands the datastore is sent, from a consistent database on it never panics, and the database
-- that it leaves is consistent, where reading a zone file gives zones or an error.
pub manager-IsSoundRun :
    (std : Outside) (cmds : List Command) (db : Db)
    → Reads std
    → IsConsistent db
    → IsSoundRun (manager std cmds db)
unfolding manager
manager-IsSoundRun std [] db reads kept = record { alive = λ e. cc; kept = kept }
manager-IsSoundRun std (cmd ∷ cmds) db reads kept =
    let sound : IsSound (handle_message std cmd db) =
      handle_message-IsSound std cmd db reads kept in
    then_run_sound (handle_message std cmd db).end (handle_message std cmd db)
      (manager std cmds (handle_message std cmd db).db) sound.alive sound.kept
      (manager-IsSoundRun std cmds (handle_message std cmd db).db reads sound.kept)

then_run_answers :
    (end : End) (message : Message) (rest : Run) (n : ℕ)
    → (rest.end ≡ End.goes_on → length rest.answers ≡ n)
    → (then_run end message rest).end ≡ End.goes_on
    → length ((then_run end message rest).answers) ≡ suc n
unfolding then_run
then_run_answers End.goes_on message rest n h e = ap suc (h e)
then_run_answers End.stops message rest n h e = cc
then_run_answers End.dies message rest n h e = cc

-- A datastore that is still running has handled every command it was sent.
pub length-manager :
    (std : Outside) (cmds : List Command) (db : Db)
    → (manager std cmds db).end ≡ End.goes_on
    → length ((manager std cmds db).answers) ≡ length cmds
unfolding manager
length-manager std [] db e = refl
length-manager std (cmd ∷ cmds) db e =
    let message : Message = handle_message std cmd db in
    then_run_answers message.end message (manager std cmds message.db) (length cmds)
      (length-manager std cmds message.db) e

-- No command behind a shutdown is handled: a run goes as if it had not been sent.
pub manager-shutdown :
    (std : Outside) (cmds later : List Command) (db : Db)
    → manager std (cmds ++ (Command.shutdown ∷ later)) db
      ≡ manager std (cmds ++ (Command.shutdown ∷ [])) db
unfolding manager handle_message then_run
manager-shutdown std [] later db = refl
manager-shutdown std (cmd ∷ cmds) later db =
    let message : Message = handle_message std cmd db in
    ap (then_run message.end message) (manager-shutdown std cmds later message.db)

-- The file cannot be read, or none of its zones is wanted.
abbrev pub IsMissed : Outside → Bytes → Option Bytes → Type 0
IsMissed std filename zone_name =
    ((e : Error) × (std.load_zones filename ≡ err e))
    ⊎ ((zones : List FileZone) × (std.load_zones filename ≡ ok zones)
        × All (λ z. is_wanted zone_name z ≡ false) zones)

select-none :
    (p : FileZone → Bool) (zones : List FileZone)
    → All (λ z. p z ≡ false) zones
    → select p zones ≡ []
unfolding select
select-none p [] h = refl
select-none p (z ∷ zones) (h, hs) = rw h (select-none p zones hs)

handle_import_file-missed :
    (std : Outside) (filename : Bytes) (zone_name : Option Bytes) (db : Db)
    → IsMissed std filename zone_name
    → (e : Error) × (handle_import_file std filename zone_name db ≡ err e)
unfolding handle_import_file import_zones
handle_import_file-missed std filename zone_name db (inl (e, h)) = (e, rw h refl)
handle_import_file-missed std filename zone_name db (inr (zones, h, unwanted)) =
    (empty_file, rw (h, select-none (is_wanted zone_name) zones unwanted) refl)

handle_message-missed :
    (std : Outside) (filename : Bytes) (zone_name : Option Bytes) (db : Db)
    → IsMissed std filename zone_name
    → handle_message std (Command.import_file filename zone_name) db
      ≡ handle_message std Command.shutdown db
unfolding handle_message or_stopped
handle_message-missed std filename zone_name db missed =
    rw (handle_import_file-missed std filename zone_name db missed).1 refl

-- An import from a file that cannot be read, or of whose zones none is wanted, is a shutdown: whatever commands
-- come before and after it, the run is the one with a shutdown in its place and nothing behind it.
pub manager-import_file :
    (std : Outside) (filename : Bytes) (zone_name : Option Bytes) (cmds later : List Command)
    (db : Db)
    → IsMissed std filename zone_name
    → manager std (cmds ++ (Command.import_file filename zone_name ∷ later)) db
      ≡ manager std (cmds ++ (Command.shutdown ∷ [])) db
unfolding manager
manager-import_file std filename zone_name [] later db missed =
    rw (handle_message-missed std filename zone_name db missed) (manager-shutdown std [] later db)
manager-import_file std filename zone_name (cmd ∷ cmds) later db missed =
    let message : Message = handle_message std cmd db in
    ap (then_run message.end message)
      (manager-import_file std filename zone_name cmds later message.db missed)
