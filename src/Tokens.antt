-- ===== src/Tokens.antt =====
-- Tokens for the API and the login with them: `UserAuthToken` and `User::get_token` of src/db/mod.rs,
-- validate_api_token of src/web/utils.rs and src/web/api/auth.rs. Times are timestamps of ten digits, whose
-- order as texts is that of the numbers. The hash is a parameter, and the store of sessions does not fail.
pub mod Login
use goatns.Prelude.{
  ℕ, Bool, true, false, not, ◌&&◌, ◌||◌, Option, none, some, List, [], ◌∷◌, ◌++◌, map, ◌==◌, ltb,
  if◌then◌else◌, Result, ok, err, panic, stuck, ◌>>=◌, Bytes, equal, sqlx_error,
}
use goatns.Database.{Db, RowIds, UserRow, is_in, delete_where, id_is, insert_id, user_ids}
use goatns.Database.Users.{User, user_from_row, any_row, or_else}

-- A row of the table `user_tokens`.
pub record TokenRow : Type 0 where
  pub id : ℕ
  pub name : Bytes
  pub issued : ℕ
  pub expiry : Option ℕ
  pub userid : ℕ
  pub tokenkey : Bytes
  pub tokenhash : Bytes

pub record UserAuthToken : Type 0 where
  pub id : Option ℕ
  pub name : Bytes
  pub issued : ℕ
  pub expiry : Option ℕ
  pub userid : ℕ
  pub tokenkey : Bytes
  pub tokenhash : Bytes

unfoldable pub token_row : ℕ → UserAuthToken → TokenRow
token_row id t = record {
  id = id;
  name = t.name;
  issued = t.issued;
  expiry = t.expiry;
  userid = t.userid;
  tokenkey = t.tokenkey;
  tokenhash = t.tokenhash;
}

-- the unique index on the user, the key and the hash
unfoldable pub same_token : UserAuthToken → TokenRow → Bool
unfolding equal
same_token t row =
    row.userid == t.userid && equal row.tokenkey t.tokenkey && equal row.tokenhash t.tokenhash

-- `UserAuthToken::save_with_txn`: the user must be there.
unfoldable pub save_token :
    RowIds → UserAuthToken → Db → List TokenRow → Result (UserAuthToken × List TokenRow)
unfolding is_in user_ids insert_id token_row any_row same_token
save_token ids t db tokens =
    if not (is_in t.userid (user_ids db)) || any_row (same_token t) tokens
    then err sqlx_error
    else (insert_id ids db t.id (map (λ row. row.id) tokens) >>= λ id.
        ok (record t { id = some id }, tokens ++ (token_row id t ∷ [])))

-- `UserAuthToken::delete_with_txn`
unfoldable pub delete_token : UserAuthToken → List TokenRow → List TokenRow
unfolding delete_where id_is
delete_token t tokens = delete_where (λ row. id_is t.id row.id) tokens

unfoldable pub is_before : Option ℕ → ℕ → Bool
is_before none now = false
is_before (some expiry) now = ltb expiry now

unfoldable pub is_expired : ℕ → TokenRow → Bool
unfolding is_before
is_expired now row = is_before row.expiry now

-- `UserAuthToken::cleanup`: `DELETE … where expiry NOT NULL and expiry < ?`
unfoldable pub cleanup : ℕ → List TokenRow → List TokenRow
unfolding delete_where is_expired
cleanup now tokens = delete_where (is_expired now) tokens

pub record TokenSearchRow : Type 0 where
  pub tokenhash : Bytes
  pub user : User
  pub tokenkey : Bytes

unfoldable pub search_row : TokenRow → UserRow → TokenSearchRow
unfolding user_from_row
search_row row u = record {
  tokenhash = row.tokenhash;
  user = user_from_row u;
  tokenkey = row.tokenkey;
}

-- `users.disabled=0 AND user_tokens.tokenkey=? AND user_tokens.userid=users.id`
unfoldable pub token_joins : Bytes → TokenRow → UserRow → Bool
unfolding equal
token_joins tokenkey row u = not u.disabled && equal row.tokenkey tokenkey && row.userid == u.id

unfoldable pub token_of_user : Bytes → TokenRow → List UserRow → Option TokenSearchRow
unfolding token_joins search_row
token_of_user tokenkey row [] = none
token_of_user tokenkey row (u ∷ users) =
    let rest = token_of_user tokenkey row users in
    if token_joins tokenkey row u then some (search_row row u) else rest

-- `SELECT … FROM user_tokens, users WHERE …`, the first row
unfoldable pub first_token : Bytes → List UserRow → List TokenRow → Option TokenSearchRow
unfolding token_of_user or_else
first_token tokenkey users [] = none
first_token tokenkey users (row ∷ tokens) =
    or_else (token_of_user tokenkey row users) (first_token tokenkey users tokens)

unfoldable pub token_or_error : Option TokenSearchRow → Result TokenSearchRow
token_or_error none = err sqlx_error
token_or_error (some found) = ok found

-- `User::get_token`: no row is an error.
unfoldable pub get_token : Db → List TokenRow → Bytes → Result TokenSearchRow
unfolding first_token token_or_error
get_token db tokens tokenkey = token_or_error (first_token tokenkey db.users tokens)

-- The session keeps the user where the token is valid, and else it is flushed.
unfoldable pub admitted : User → Bool → ℕ × Option User
admitted user true = (200, some user)
admitted user false = (500, none)

unfoldable pub validated : (Bytes → Bytes → Bool) → Bytes → Result TokenSearchRow → ℕ × Option User
unfolding admitted
validated validate_api_token token_secret (ok token) =
    admitted token.user (validate_api_token token.tokenhash token_secret)
validated validate_api_token token_secret _ = (401, none)

-- The status that `login` answers with, and the user of the session that is left.
unfoldable pub login : (Bytes → Bytes → Bool) → Db → List TokenRow → Bytes → Bytes → ℕ × Option User
unfolding get_token validated
login validate_api_token db tokens token_key token_secret =
    validated validate_api_token token_secret (get_token db tokens token_key)
