-- ===== src/Web/NewZone/Created.antt =====
-- What a new zone of src/web/ui/zones.rs leaves in the database.
use goatns.Prelude.{
  ℕ, true, Option, none, some, ◌≡◌, refl, sym, ap, subst, ◌∙◌, ◌⊎◌, inl, inr, Bool-cases, Result,
  ok, err, panic, stuck, bind-eq-ok, ok-injective, if◌then◌else◌, Bytes,
}
use goatns.Zone.{FileZone}
use goatns.Datastore.{ZoneRow}
use goatns.Database.{Db, first}
use goatns.Database.Zones.{is_zone, with_records, found_zone, get_zone_with_txn}
use goatns.Database.Users.{User}
use goatns.Database.Consistent.{IsConsistent}
use goatns.Manager.{Command, Answer, Message, answered, or_logged, handle_message}
use goatns.Manager.Messages.{Reads, handle_message-IsSound}
use goatns.Web.{Session, GoatState, Handled}
use goatns.Web.Sessions.{IsLoggedIn, when_logged_in-cases}
use goatns.Web.Pages.{Site, ZonePage, dns_name, ask}
use goatns.Web.NewZone.{
  is_empty, new_zone, zone_address, created_answer, created, create, unless_found, checked, named,
  for_user, zones_new_post,
}

-- The zone that a user of the session asked for was created: its name is valid and was not taken.
pub record IsNewZone (site : Site) (name : Bytes) (session : Session) (before after : Db)
    : Type 0 where
  pub user : User
  pub of_session : IsLoggedIn session user
  pub userid : ℕ
  pub id_is : user.id ≡ some userid
  pub valid : dns_name site.all_alphanumeric name ≡ true
  pub unused : first (is_zone none (some name)) before.zones ≡ none
  pub running : site.running ≡ true
  pub done :
      after
      ≡ (handle_message site.std (Command.create_zone (new_zone name user.email) userid) before).db

zone_address-state :
    (site : Site) (session : Session) (st : GoatState) (id : Option ℕ)
    → (zone_address site session st id).state ≡ st
unfolding zone_address
zone_address-state site session st none = refl
zone_address-state site session st (some id) = refl

created_answer-state :
    (site : Site) (session : Session) (st : GoatState) (answer : Option Answer)
    → (created_answer site session st answer).state ≡ st
unfolding created_answer
created_answer-state site session st none = refl
created_answer-state site session st (some (Answer.zone_created zone)) =
    zone_address-state site session st zone.id
created_answer-state site session st (some (Answer.record_found r)) = refl
created_answer-state site session st (some (Answer.zone_found z)) = refl
created_answer-state site session st (some (Answer.zones_found zs)) = refl
created_answer-state site session st (some Answer.imported) = refl
created_answer-state site session st (some (Answer.user_created b)) = refl
created_answer-state site session st (some (Answer.owners_found os)) = refl

unless_found-cases :
    (site : Site) (name email : Bytes) (userid : ℕ) (session : Session) (st : GoatState)
    (answer : Option Answer)
    → ((unless_found site name email userid session st answer).state ≡ st)
      ⊎ ((answer ≡ some (Answer.zone_found none))
          × (unless_found site name email userid session st answer
              ≡ create site name email userid session st))
unfolding unless_found
unless_found-cases site name email userid session st none = inl refl
unless_found-cases site name email userid session st (some (Answer.zone_found none)) =
    inr (refl, refl)
unless_found-cases site name email userid session st (some (Answer.zone_found (some z))) = inl refl
unless_found-cases site name email userid session st (some (Answer.zone_created zone)) = inl refl
unless_found-cases site name email userid session st (some (Answer.record_found r)) = inl refl
unless_found-cases site name email userid session st (some (Answer.zones_found zs)) = inl refl
unless_found-cases site name email userid session st (some Answer.imported) = inl refl
unless_found-cases site name email userid session st (some (Answer.user_created b)) = inl refl
unless_found-cases site name email userid session st (some (Answer.owners_found os)) = inl refl

-- The manager creates the zone, or the state stays.
create-cases :
    (site : Site) (name email : Bytes) (userid : ℕ) (session : Session) (st : GoatState)
    → ((create site name email userid session st).state.db ≡ st.db)
      ⊎ ((site.running ≡ true)
          × ((create site name email userid session st).state.db
              ≡ (handle_message site.std
                  (Command.create_zone (new_zone name email) userid)
                  st.db).db))
unfolding create created ask
create-cases site name email userid session st = elim (Bool-cases (is_empty email)) [
  | inl e ↦ inl (rw e refl)
  | inr e ↦ elim (Bool-cases site.running) [
    | inr r ↦ inl (rw (e, r) refl)
    | inl r ↦
        let message =
          handle_message site.std (Command.create_zone (new_zone name email) userid) st.db in
        inr (
          r,
          rw (e, r)
              (ap (λ (s : GoatState). s.db)
                (created_answer-state site session (record st { db = message.db }) message.answer)),
        )
  ]
]

or_logged-db :
    (result : Result (Option FileZone)) (db : Db)
    → (or_logged result db (λ zone. answered (some (Answer.zone_found zone)) db)).db ≡ db
unfolding or_logged
or_logged-db (ok _) db = refl
or_logged-db (err e) db = refl
or_logged-db panic db = refl
or_logged-db stuck db = refl

or_logged-none :
    (result : Result (Option FileZone)) (db : Db)
    → (or_logged result db (λ zone. answered (some (Answer.zone_found zone)) db)).answer
      ≡ some (Answer.zone_found none)
    → result ≡ ok none
unfolding or_logged
or_logged-none (ok none) db h = refl
or_logged-none (ok (some zone)) db h = cc h
or_logged-none (err e) db h = cc h
or_logged-none panic db h = cc h
or_logged-none stuck db h = cc h

found_zone-none : (db : Db) (found : Option ZoneRow) → found_zone db found ≡ ok none → found ≡ none
unfolding found_zone
found_zone-none db none h = refl
found_zone-none db (some row) h =
    let (zone, _, e) = bind-eq-ok (with_records db row) _ h in cc (ok-injective e)

-- What the database is where a zone is created with the user's address.
abbrev Creates : Site → Bytes → Bytes → ℕ → Db → Db → Type 0
Creates site name email userid before after =
    (dns_name site.all_alphanumeric name ≡ true)
    × (first (is_zone none (some name)) before.zones ≡ none)
    × (site.running ≡ true)
    × (after
        ≡ (handle_message site.std (Command.create_zone (new_zone name email) userid) before).db)

checked-cases :
    (site : Site) (name email : Bytes) (userid : ℕ) (session : Session) (st : GoatState)
    → dns_name site.all_alphanumeric name ≡ true
    → let after =
        checked site name email userid session st
          (some (handle_message site.std (Command.get_zone none (some name)) st.db)) in
      (after.state.db ≡ st.db) ⊎ Creates site name email userid st.db after.state.db
unfolding checked handle_message get_zone_with_txn
checked-cases site name email userid session st valid =
    let result : Result (Option FileZone) =
      found_zone st.db (first (is_zone none (some name)) st.db.zones) in
    let message : Message =
      or_logged result st.db (λ zone. answered (some (Answer.zone_found zone)) st.db) in
    let same : message.db ≡ st.db = or_logged-db result st.db in
    let st' : GoatState = record st { db = message.db } in
    elim (unless_found-cases site name email userid session st' message.answer) [
      | inl e ↦ inl (ap (λ (s : GoatState). s.db) e ∙ same)
      | inr (answer, e) ↦ elim (create-cases site name email userid session st') [
        | inl kept ↦ inl (ap (λ (h : Handled ZonePage). h.state.db) e ∙ kept ∙ same)
        | inr (running, done) ↦ inr (
          valid,
          found_zone-none st.db _ (or_logged-none result st.db answer),
          running,
          ap (λ (h : Handled ZonePage). h.state.db) e
              ∙ done
              ∙ ap
                  (λ d.
                    (handle_message site.std (Command.create_zone (new_zone name email) userid)
                      d).db)
                  same,
        )
      ]
    ]

ask-running :
    (site : Site) (cmd : Command) (st : GoatState)
    → site.running ≡ true
    → ask site cmd st ≡ some (handle_message site.std cmd st.db)
unfolding ask
ask-running site cmd st r = ap (λ b. if b then some (handle_message site.std cmd st.db) else none) r

named-cases :
    (site : Site) (name email : Bytes) (userid : ℕ) (session : Session) (st : GoatState)
    → let after = named site name email userid session st in
      (after.state.db ≡ st.db) ⊎ Creates site name email userid st.db after.state.db
unfolding named ask
named-cases site name email userid session st = elim (Bool-cases (is_empty name)) [
  | inl e ↦ inl (rw e refl)
  | inr e ↦ elim (Bool-cases (dns_name site.all_alphanumeric name)) [
    | inr v ↦ inl (rw (e, v) refl)
    | inl v ↦ elim (Bool-cases site.running) [
      | inr r ↦ inl (rw (e, v, r) refl)
      | inl r ↦
          let is_checked : named site name email userid session st
              ≡ checked site name email userid session st
                  (ask site (Command.get_zone none (some name)) st) =
            rw (e, v) refl in
          subst
            (λ (h : Handled ZonePage).
              (h.state.db ≡ st.db) ⊎ Creates site name email userid st.db h.state.db)
            (sym (
              is_checked
              ∙ ap (checked site name email userid session st)
                  (ask-running site (Command.get_zone none (some name)) st r)))
            (checked-cases site name email userid session st v)
    ]
  ]
]

for_user-cases :
    (site : Site) (name email : Bytes) (session : Session) (st : GoatState) (id : Option ℕ)
    → let after = for_user site name email session st id in
      (after.state.db ≡ st.db)
      ⊎ ((userid : ℕ) × (id ≡ some userid) × Creates site name email userid st.db after.state.db)
unfolding for_user
for_user-cases site name email session st none = inl refl
for_user-cases site name email session st (some userid) =
    elim (named-cases site name email userid session st) [
      | inl kept ↦ inl kept
      | inr creates ↦ inr (userid, refl, creates)
    ]

-- What a form for a new zone leaves: on a consistent database, where reading a file gives zones or an error, the
-- database is consistent afterwards, and it is the one before or what the manager leaves that creates the zone for
-- a user of the session, whose name is valid and is no stored zone's.
pub zones_new_post-IsNewZone :
    (site : Site) (path : Option Bytes) (name : Bytes) (session : Session) (st : GoatState)
    → Reads site.std
    → IsConsistent st.db
    → let after = (zones_new_post site path name session st).state in
      IsConsistent after.db × ((after.db ≡ st.db) ⊎ IsNewZone site name session st.db after.db)
unfolding zones_new_post
zones_new_post-IsNewZone site path name session st reads kept =
    elim (when_logged_in-cases session path st
      (λ session user. for_user site name user.email session st user.id)) [
        | inr same ↦
            let db_same = ap (λ (s : GoatState). s.db) same in
            (subst IsConsistent (sym db_same) kept, inl db_same)
        | inl (user, logged, e) ↦
            let e_db = ap (λ (h : Handled ZonePage). h.state.db) e in
            elim (for_user-cases site name user.email session st user.id) [
              | inl same ↦ (subst IsConsistent (sym (e_db ∙ same)) kept, inl (e_db ∙ same))
              | inr (userid, id, (valid, unused, running, done)) ↦
                  let cmd = Command.create_zone (new_zone name user.email) userid in
                  (
                    subst IsConsistent (sym (e_db ∙ done))
                        (handle_message-IsSound site.std cmd st.db reads kept).kept,
                    inr (record {
                      user = user;
                      of_session = logged;
                      userid = userid;
                      id_is = id;
                      valid = valid;
                      unused = unused;
                      running = running;
                      done = e_db ∙ done;
                    }),
                  )
            ]
      ]
