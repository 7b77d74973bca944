-- ===== src/Web/ApiTokens/Login.antt =====
-- A token that the handlers of src/web/ui/user_settings.rs create and the login of src/web/api/auth.rs.
use mathlib.Core.List.{Memᴰ as In}
use mathlib.Core.List.Memᴰ.{head, tail}
use goatns.Prelude.{
  ℕ, Bool, true, false, not, ◌&&◌, ◌==◌, ==_iff, Option, none, some, ◌≡◌, refl, sym, ap, ◌∙◌, inl,
  inr, List, [], ◌∷◌, ◌++◌, map, All, Bool-cases, Result, ok, Bytes, equal, equal_iff, codes, subst,
}
use goatns.Database.{Db, RowIds, UserRow, is_in, insert_id, user_ids}
use goatns.Database.Rows.{is_in-append_right}
use goatns.Database.Users.{User, user_from_row, any_row, or_else}
use goatns.Tokens.Login.{and_true}
use goatns.Tokens.{
  TokenRow, UserAuthToken, token_row, same_token, save_token, search_row, token_joins,
  token_of_user, first_token, token_or_error, get_token, admitted, validated, login,
}
use goatns.Web.{Session, GoatState, Handled, when_logged_in}
use goatns.Web.Sessions.{IsLoggedIn, check_logged_in-IsLoggedIn}
use goatns.Web.Csrf.{validate_csrf_expiry, store_api_csrf_token}
use goatns.Web.Settings.{
  Moment, SettingsPage, ApiToken, ApiTokenForm, generating, to_i32, create_api_token, when_accepted,
}
use goatns.Web.ApiTokens.{
  new_token, token_saved, token_named, lifetime_or, token_for, by_page_state, api_tokens_post,
}

-- No token has the key.
abbrev pub IsNew : Bytes → List TokenRow → Type 0
IsNew key tokens = All (λ (row : TokenRow). equal row.tokenkey key ≡ false) tokens

joins_not : (a b : Bool) → (not a && false && b) ≡ false
joins_not true b = refl
joins_not false b = refl

token_of_user-other :
    (key : Bytes) (row : TokenRow) (users : List UserRow)
    → equal row.tokenkey key ≡ false
    → token_of_user key row users ≡ none
unfolding token_of_user token_joins
token_of_user-other key row [] h = refl
token_of_user-other key row (u ∷ users) h =
    rw (h, joins_not u.disabled (row.userid == u.id)) (token_of_user-other key row users h)

-- Tokens with other keys are passed over.
first_token-new :
    (key : Bytes) (users : List UserRow) (tokens : List TokenRow) (row : TokenRow)
    → IsNew key tokens
    → first_token key users (tokens ++ (row ∷ [])) ≡ token_of_user key row users
unfolding first_token or_else
first_token-new key users [] row h = last (token_of_user key row users)
  where
    last : {A : Type 0} (found : Option A) → or_else found none ≡ found
    last none = refl
    last (some x) = refl
first_token-new key users (other ∷ tokens) row (h, hs) =
    rw (token_of_user-other key other users h) (first_token-new key users tokens row hs)

same_token-new :
    (t : UserAuthToken) (tokens : List TokenRow)
    → IsNew t.tokenkey tokens
    → any_row (same_token t) tokens ≡ false
unfolding any_row same_token
same_token-new t [] h = refl
same_token-new t (row ∷ tokens) (h, hs) =
    rw (h, and_middle (row.userid == t.userid) (equal row.tokenhash t.tokenhash))
      (same_token-new t tokens hs)
  where
    and_middle : (a b : Bool) → (a && false && b) ≡ false
    and_middle true b = refl
    and_middle false b = refl

joins :
    (key : Bytes) (row : TokenRow) (u : UserRow)
    → row.tokenkey ≡ key
    → row.userid ≡ u.id
    → u.disabled ≡ false
    → token_joins key row u ≡ true
unfolding token_joins
joins key row u k owner enabled =
    rw (enabled, (equal_iff row.tokenkey key).1 k, (==_iff row.userid u.id).1 owner) refl

-- The token finds a user that is stored under its number.
token_of_user-found :
    (key : Bytes) (row : TokenRow) (users : List UserRow) {u : UserRow}
    → In u users
    → token_joins key row u ≡ true
    → (v : UserRow) × In v users
      × (token_joins key row v ≡ true)
      × (token_of_user key row users ≡ some (search_row row v))
unfolding token_of_user
token_of_user-found key row (v ∷ users) {u} there h = elim (Bool-cases (token_joins key row v)) [
  | inl e ↦ (v, head refl, e, rw e refl)
  | inr e ↦ elim there [
    | head same ↦ cc (same, e, h)
    | tail there ↦
        let (w, w_there, w_joins, found) = token_of_user-found key row users there h in
        (w, tail w_there, w_joins, rw e found)
  ]
]
token_of_user-found key row [] there h = elim there [ ]

-- A token that is saved with a new key logs in.
saved_token-login :
    (validate_api_token : Bytes → Bytes → Bool) (db : Db) (tokens : List TokenRow) (row : TokenRow)
    (secret : Bytes) {u : UserRow}
    → IsNew row.tokenkey tokens
    → validate_api_token row.tokenhash secret ≡ true
    → In u db.users
    → token_joins row.tokenkey row u ≡ true
    → (v : UserRow) × In v db.users
      × (token_joins row.tokenkey row v ≡ true)
      × (login validate_api_token db (tokens ++ (row ∷ [])) row.tokenkey secret
          ≡ (200, some (user_from_row v)))
unfolding login get_token token_or_error validated admitted search_row
saved_token-login validate_api_token db tokens row secret fresh valid there h =
    let (v, v_there, v_joins, found) = token_of_user-found row.tokenkey row db.users there h in
    (
      v,
      v_there,
      v_joins,
      rw (first_token-new row.tokenkey db.users tokens row fresh, found, valid) refl,
    )

user_there :
    (users : List UserRow) {u : UserRow} → In u users → is_in u.id (map (λ r. r.id) users) ≡ true
unfolding is_in
user_there [] there = elim there [ ]
user_there (u ∷ users) (head same) = rw ((==_iff _ _).1 (ap (λ r. r.id) same)) refl
user_there (v ∷ users) {u} (tail there) =
    is_in-append_right u.id (v.id ∷ []) (map (λ r. r.id) users) (user_there users there)

api_tokens_post-save_token :
    (ids : RowIds) (moment : Moment) (form : ApiTokenForm) (session : Session) (st : GoatState)
    (user : User) (userid : ℕ) (name : Bytes)
    → IsLoggedIn session user
    → validate_csrf_expiry moment.clock moment.now form.csrftoken session ≡ (true, session)
    → form.state ≡ generating
    → user.id ≡ some userid
    → form.token_name ≡ some name
    → moment.begins ≡ true
    → let created = create_api_token moment (to_i32 (lifetime_or form.lifetime)) userid in
      api_tokens_post ids moment form session st
      ≡ token_saved moment created session st
          (save_token ids (new_token created name userid) st.db st.tokens)
unfolding api_tokens_post when_logged_in when_accepted by_page_state token_for token_named
api_tokens_post-save_token ids moment form session st user userid name logged accepted state id
      named begins =
    rw (check_logged_in-IsLoggedIn session _ user logged, accepted, state, id, named, begins) refl

save_token-new :
    (ids : RowIds) (t : UserAuthToken) (db : Db) (tokens : List TokenRow)
    → t.id ≡ none
    → is_in t.userid (user_ids db) ≡ true
    → IsNew t.tokenkey tokens
    → (id : ℕ) × (save_token ids t db tokens
        ≡ ok (record t { id = some id }, tokens ++ (token_row id t ∷ [])))
unfolding save_token insert_id
save_token-new ids t db tokens unset there fresh = (
  ids.fresh db.rowids (map (λ row. row.id) tokens),
  rw (there, same_token-new t tokens fresh, unset) refl,
)

-- The session has the key and the secret, and the tokens are stored.
IsGiven : ApiToken → List TokenRow → Handled SettingsPage → Type 0
IsGiven created tokens after =
    (after.session.new_api_tokenkey ≡ some created.token_key)
    × (after.session.new_api_token ≡ some created.token_secret)
    × (after.state.tokens ≡ tokens)

token_saved-IsGiven :
    (moment : Moment) (created : ApiToken) (session : Session) (st : GoatState)
    (result : Result (UserAuthToken × List TokenRow)) (uat : UserAuthToken) (tokens : List TokenRow)
    → moment.commits ≡ true
    → result ≡ ok (uat, tokens)
    → IsGiven created tokens (token_saved moment created session st result)
unfolding token_saved store_api_csrf_token IsGiven
token_saved-IsGiven moment created session st result uat tokens commits saved =
    rw (saved, commits) (refl, refl, refl)

-- A token that is made is one that logs in: where a user of the session who is stored and not disabled asks for a
-- token with a name, the form's token is accepted, the new key is no other token's, the hash of a password
-- validates it and the transaction is committed, the session is given a key and a secret, and the login with
-- them succeeds, for a stored user with the number of the session's user.
pub api_tokens_post-login :
    (ids : RowIds) (validate_api_token : Bytes → Bytes → Bool) (moment : Moment)
    (form : ApiTokenForm) (session : Session) (st : GoatState) (user : User) (row : UserRow)
    (name : Bytes)
    → IsLoggedIn session user
    → validate_csrf_expiry moment.clock moment.now form.csrftoken session ≡ (true, session)
    → form.state ≡ generating
    → form.token_name ≡ some name
    → user.id ≡ some row.id
    → In row st.db.users
    → row.disabled ≡ false
    → IsNew (codes "GA" ++ moment.sample_string) st.tokens
    → ((secret : Bytes) → validate_api_token (moment.hash_password secret) secret ≡ true)
    → moment.begins ≡ true
    → moment.commits ≡ true
    → let after = api_tokens_post ids moment form session st in
      (key secret : Bytes) × (v : UserRow) × (after.session.new_api_tokenkey ≡ some key)
      × (after.session.new_api_token ≡ some secret)
      × In v st.db.users
      × (v.id ≡ row.id)
      × (v.disabled ≡ false)
      × (login validate_api_token st.db after.state.tokens key secret
          ≡ (200, some (user_from_row v)))
unfolding create_api_token new_token token_row token_joins IsGiven
api_tokens_post-login ids validate_api_token moment form session st user row name logged accepted
      state named id there enabled fresh valid begins commits =
    let created = create_api_token moment (to_i32 (lifetime_or form.lifetime)) row.id in
    let token = new_token created name row.id in
    let (n, saved) =
      save_token-new ids token st.db st.tokens refl
        (unfold user_ids in user_there st.db.users there) fresh in
    let (v, v_there, v_joins, success) =
      saved_token-login validate_api_token st.db st.tokens (token_row n token) created.token_secret
        fresh (valid created.token_secret) there
        (joins _ (token_row n token) row refl refl enabled) in
    let (v_enabled, _, owner) = and_true v.disabled _ _ v_joins in
    let (key_given, secret_given, stored) : IsGiven created (st.tokens ++ (token_row n token ∷ []))
        (api_tokens_post ids moment form session st) =
      subst (IsGiven created (st.tokens ++ (token_row n token ∷ [])))
        (sym (
          api_tokens_post-save_token ids moment form session st user row.id name logged accepted
            state id named begins))
        (token_saved-IsGiven moment created session st _ _ _ commits saved) in
    (
      created.token_key,
      created.token_secret,
      v,
      key_given,
      secret_given,
      v_there,
      sym ((==_iff _ v.id).0 owner),
      v_enabled,
      ap (λ ts. login validate_api_token st.db ts created.token_key created.token_secret) stored
          ∙ success,
    )
