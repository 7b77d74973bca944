-- ===== src/Web/ApiTokens/Deletes.antt =====
-- Which tokens the handlers of src/web/ui/user_settings.rs delete.
use mathlib.Core.List.{Memᴰ as In}
use goatns.Prelude.{
  ℕ, true, false, not, ◌≢◌, subst, map, ◌&&◌, ◌==◌, ==_iff, Option, none, some, ◌≡◌, refl, sym, ap,
  ◌∙◌, ◌⊎◌, inl, inr, List, Bool-cases, some-injective, Bytes,
}
use goatns.Datastore.{select}
use goatns.Database.{first, is_in, delete_where, id_is}
use goatns.Database.Rows.{other_key, first-some, first-there, select-select, is_in-delete_where}
use goatns.Database.Users.{User}
use goatns.Tokens.{TokenRow, UserAuthToken, delete_token}
use goatns.Web.{Urls, Session, GoatState, Handled}
use goatns.Web.Sessions.{IsLoggedIn, when_logged_in-cases}
use goatns.Web.Csrf.{validate_csrf_expiry}
use goatns.Web.Csrf.Accepted.{validate_csrf_expiry-session}
use goatns.Web.Settings.{Moment, SettingsPage, token_from_row, get_user_token, when_accepted}
use goatns.Web.ApiTokens.{token_deleted, deleted_for, api_tokens_delete_post}

-- The token of the number is stored for the user of the session, whose token of the form is accepted, and it
-- is what is deleted: no token has the number then, and each other number has the tokens that it had.
pub record IsDeleted (moment : Moment) (id : ℕ) (csrftoken : Bytes) (session : Session)
    (before after : List TokenRow) : Type 0 where
  pub user : User
  pub of_session : IsLoggedIn session user
  pub accepted : validate_csrf_expiry moment.clock moment.now csrftoken session ≡ (true, session)
  pub row : TokenRow
  pub row_there : In row before
  pub id_is : row.id ≡ id
  pub owner_is : user.id ≡ some row.userid
  pub deleted : is_in id (map (λ t. t.id) after) ≡ false
  pub others_stay :
      (m : ℕ) → m ≢ id → select (λ t. t.id == m) after ≡ select (λ t. t.id == m) before

delete_token-is_in :
    (row : TokenRow) (tokens : List TokenRow)
    → is_in row.id (map (λ t. t.id) (delete_token (token_from_row row) tokens)) ≡ false
unfolding delete_token delete_where id_is token_from_row
delete_token-is_in row tokens = is_in-delete_where (λ t. t.id) row.id tokens

delete_token-others :
    (row : TokenRow) (tokens : List TokenRow) (m : ℕ)
    → m ≢ row.id
    → select (λ t. t.id == m) (delete_token (token_from_row row) tokens)
      ≡ select (λ t. t.id == m) tokens
unfolding delete_token delete_where id_is token_from_row
delete_token-others row tokens m ne =
    select-select (λ t. t.id == m) (λ t. not (t.id == row.id)) tokens
      (λ t. other_key row.id m t.id ne)

when_accepted-cases :
    (moment : Moment) (csrftoken : Bytes) (url : Urls) (session : Session) (st : GoatState)
    (next : Session → Handled SettingsPage)
    → ((validate_csrf_expiry moment.clock moment.now csrftoken session ≡ (true, session))
        × (when_accepted st url
              (validate_csrf_expiry moment.clock moment.now csrftoken session)
              next
            ≡ next session))
      ⊎ ((when_accepted st url
            (validate_csrf_expiry moment.clock moment.now csrftoken session)
            next).state
          ≡ st)
unfolding when_accepted
when_accepted-cases moment csrftoken url session st next =
    elim (Bool-cases (validate_csrf_expiry moment.clock moment.now csrftoken session).0) [
      | inl e ↦
          let same = validate_csrf_expiry-session moment.clock moment.now csrftoken session e in
          inl (same, rw same refl)
      | inr e ↦ inr (rw e refl)
    ]

found_token :
    (found : Option TokenRow) {uat : UserAuthToken}
    → elim found [ none ↦ none | some row ↦ some (token_from_row row) ] ≡ some uat
    → (row : TokenRow) × (found ≡ some row) × (uat ≡ token_from_row row)
found_token none h = cc
found_token (some row) h = (row, refl, sym (some-injective h))

get_user_token-row :
    (id : ℕ) (tokens : List TokenRow) {uat : UserAuthToken}
    → get_user_token id tokens ≡ some uat
    → (row : TokenRow) × In row tokens × (row.id ≡ id) × (uat ≡ token_from_row row)
unfolding get_user_token
get_user_token-row id tokens h =
    let (row, e, same) = found_token (first (λ row. row.id == id) tokens) h in
    (
      row,
      first-there _ tokens e,
      (==_iff row.id id).0 (first-some (λ (row : TokenRow). row.id == id) tokens e),
      same,
    )

-- The tokens stay, or one of the user is deleted.
token_deleted-cases :
    (moment : Moment) (user_id : ℕ) (session : Session) (st : GoatState)
    (found : Option UserAuthToken)
    → ((token_deleted moment user_id session st found).state ≡ st)
      ⊎ ((uat : UserAuthToken) × (found ≡ some uat)
          × (uat.userid ≡ user_id)
          × ((token_deleted moment user_id session st found).state
              ≡ record st { tokens = delete_token uat st.tokens }))
unfolding token_deleted
token_deleted-cases moment user_id session st none = inl refl
token_deleted-cases moment user_id session st (some uat) =
    elim (Bool-cases (uat.userid == user_id)) [
      | inr e ↦ inl (rw e refl)
      | inl e ↦ elim (Bool-cases (moment.begins && moment.commits)) [
        | inl k ↦ inr (uat, refl, (==_iff uat.userid user_id).0 e, rw (e, k) refl)
        | inr k ↦ inl (rw (e, k) refl)
      ]
    ]

deleted_for-cases :
    (moment : Moment) (id : ℕ) (session : Session) (st : GoatState) (user_id : Option ℕ)
    → ((deleted_for moment id session st user_id).state ≡ st)
      ⊎ ((row : TokenRow) × In row st.tokens
          × (row.id ≡ id)
          × (user_id ≡ some row.userid)
          × ((deleted_for moment id session st user_id).state
              ≡ record st { tokens = delete_token (token_from_row row) st.tokens }))
unfolding deleted_for
deleted_for-cases moment id session st none = inl refl
deleted_for-cases moment id session st (some user_id) =
    elim (token_deleted-cases moment user_id session st (get_user_token id st.tokens)) [
      | inl e ↦ inl e
      | inr (uat, found, owner, e) ↦
          let (row, there, is_id, same) = get_user_token-row id st.tokens found in
          inr (
            row,
            there,
            is_id,
            ap some (sym owner ∙ ap (λ t. t.userid) same ∙ unfold token_from_row in refl),
            e ∙ ap (λ t. record st { tokens = delete_token t st.tokens }) same,
          )
    ]

-- Whose tokens are deleted: a request to delete a token leaves the state as it is, or takes from the tokens the
-- one of the request's number and no other, where it belongs to the user of the session and the session accepts
-- the token of the form; nothing else of the state changes.
pub api_tokens_delete_post-IsDeleted :
    (moment : Moment) (path : Option Bytes) (id : ℕ) (csrftoken : Bytes) (session : Session)
    (st : GoatState)
    → let after = (api_tokens_delete_post moment path id csrftoken session st).state in
      (after ≡ st)
      ⊎ (IsDeleted moment id csrftoken session st.tokens after.tokens
          × (after ≡ record st { tokens = after.tokens }))
unfolding api_tokens_delete_post
api_tokens_delete_post-IsDeleted moment path id csrftoken session st =
    elim (when_logged_in-cases session path st (λ session user.
      when_accepted st Urls.settings_api_tokens
        (validate_csrf_expiry moment.clock moment.now csrftoken session)
        (λ session. deleted_for moment id session st user.id))) [
          | inr same ↦ inl same
          | inl (user, logged, e) ↦
              elim (when_accepted-cases moment csrftoken Urls.settings_api_tokens session st
                (λ session. deleted_for moment id session st user.id)) [
                  | inr same ↦ inl (ap (λ h. h.state) e ∙ same)
                  | inl (accepted, f) ↦ elim (deleted_for-cases moment id session st user.id) [
                    | inl same ↦ inl (ap (λ h. h.state) (e ∙ f) ∙ same)
                    | inr (row, there, is_id, owner, g) ↦
                        let changed = ap (λ h. h.state) (e ∙ f) ∙ g in
                        let gone : (api_tokens_delete_post moment path id csrftoken session
                              st).state.tokens
                            ≡ delete_token (token_from_row row) st.tokens =
                          ap (λ s. s.tokens) changed in
                        inr (
                          record {
                            user = user;
                            of_session = logged;
                            accepted = accepted;
                            row = row;
                            row_there = there;
                            id_is = is_id;
                            owner_is = owner;
                            deleted =
                                ap (λ l. is_in id (map (λ t. t.id) l)) gone
                                ∙ subst
                                    (λ k.
                                      is_in k (
                                        map (λ t. t.id)
                                          (delete_token (token_from_row row) st.tokens))
                                      ≡ false)
                                    is_id (delete_token-is_in row st.tokens);
                            others_stay = λ m ne.
                                ap (select (λ t. t.id == m)) gone
                                ∙ delete_token-others row st.tokens m (λ same. ne (same ∙ is_id));
                          },
                          changed ∙ ap (λ ts. record st { tokens = ts }) (sym gone),
                        )
                  ]
                ]
        ]
