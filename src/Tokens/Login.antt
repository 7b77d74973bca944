-- ===== src/Tokens/Login.antt =====
-- Who is let in by the login of src/web/api/auth.rs, and for how long.
use mathlib.Core.List.{Memᴰ as In}
use mathlib.Core.List.Memᴰ.{head, tail}
use goatns.Prelude.{
  ℕ, Bool, true, false, not, ◌&&◌, ◌==◌, ==_iff, Option, none, some, ◌≡◌, refl, sym, ap, ◌∙◌, inl,
  inr, List, [], ◌∷◌, map, Bool-cases, Option-cases, some-injective, Bytes, equal, equal_iff,
}
use goatns.Database.{Db, UserRow}
use goatns.Database.Users.{User, user_from_row, or_else}
use goatns.Tokens.{
  TokenRow, TokenSearchRow, search_row, token_joins, token_of_user, first_token, token_or_error,
  get_token, admitted, validated, login,
}

-- A stored token of the key, with a hash of the secret, of a user who is stored and not disabled.
pub record IsTokenOf (validate_api_token : Bytes → Bytes → Bool) (db : Db) (tokens : List TokenRow)
    (key secret : Bytes) (user : User) : Type 0 where
  pub token : TokenRow
  pub row : UserRow
  pub token_there : In token tokens
  pub row_there : In row db.users
  pub key_is : token.tokenkey ≡ key
  pub hash_is : validate_api_token token.tokenhash secret ≡ true
  pub owner_is : token.userid ≡ row.id
  pub enabled : row.disabled ≡ false
  pub user_is : user ≡ user_from_row row

pub and_true : (a b c : Bool) → (not a && b && c) ≡ true → (a ≡ false) × (b ≡ true) × (c ≡ true)
and_true false true true h = (refl, refl, refl)
and_true _ _ _ h = cc

user_found :
    (key : Bytes) (row : TokenRow) (users : List UserRow) {found : TokenSearchRow}
    → token_of_user key row users ≡ some found
    → (u : UserRow) × In u users × (token_joins key row u ≡ true) × (search_row row u ≡ found)
unfolding token_of_user
user_found key row [] h = cc
user_found key row (u ∷ users) h = elim (Bool-cases (token_joins key row u)) [
  | inl e ↦ (u, head refl, e, some-injective (sym (rw e refl) ∙ h))
  | inr e ↦
      let (v, there, joins, same) = user_found key row users (sym (rw e refl) ∙ h) in
      (v, tail there, joins, same)
]

token_found :
    (key : Bytes) (users : List UserRow) (tokens : List TokenRow) {found : TokenSearchRow}
    → first_token key users tokens ≡ some found
    → (row : TokenRow) × (u : UserRow) × In row tokens
      × In u users
      × (token_joins key row u ≡ true)
      × (search_row row u ≡ found)
unfolding first_token or_else
token_found key users [] h = cc
token_found key users (row ∷ tokens) h = elim (Option-cases (token_of_user key row users)) [
  | inl e ↦
      let (r, u, r_there, u_there, joins, same) =
        token_found key users tokens (sym (rw e refl) ∙ h) in
      (r, u, tail r_there, u_there, joins, same)
  | inr (found', e) ↦
      let (u, there, joins, same) = user_found key row users e in
      (row, u, head refl, there, joins, same ∙ some-injective (sym (rw e refl) ∙ h))
]

admitted_valid :
    (holder : User) (valid : Bool) {user : User}
    → admitted holder valid ≡ (200, some user)
    → (valid ≡ true) × (holder ≡ user)
unfolding admitted
admitted_valid holder true h = (refl, some-injective (ap (λ p. p.1) h))
admitted_valid holder false h = cc (ap (λ p. p.1) h)

found_valid :
    (validate_api_token : Bytes → Bytes → Bool) (secret : Bytes) (found : Option TokenSearchRow)
    {user : User}
    → validated validate_api_token secret (token_or_error found) ≡ (200, some user)
    → (token : TokenSearchRow) × (found ≡ some token)
      × (validate_api_token token.tokenhash secret ≡ true)
      × (token.user ≡ user)
unfolding validated token_or_error
found_valid validate_api_token secret none h = cc (ap (λ p. p.1) h)
found_valid validate_api_token secret (some token) h =
    let (valid, same) = admitted_valid token.user (validate_api_token token.tokenhash secret) h in
    (token, refl, valid, same)

-- Who logs in: the session gets a user only for a stored token of the key that was sent, whose hash is one of
-- the secret, and the user is the token's, is stored and is not disabled.
pub login-IsTokenOf :
    (validate_api_token : Bytes → Bytes → Bool) (db : Db) (tokens : List TokenRow)
    (key secret : Bytes) {user : User}
    → login validate_api_token db tokens key secret ≡ (200, some user)
    → IsTokenOf validate_api_token db tokens key secret user
unfolding login get_token token_joins search_row
login-IsTokenOf validate_api_token db tokens key secret h =
    let (found, f, valid, u) =
      found_valid validate_api_token secret (first_token key db.users tokens) h in
    let (token, row, token_there, row_there, joins, same) = token_found key db.users tokens f in
    let (enabled, key_is, owner) =
      and_true row.disabled (equal token.tokenkey key) (token.userid == row.id) joins in
    record {
      token = token;
      row = row;
      token_there = token_there;
      row_there = row_there;
      key_is = (equal_iff token.tokenkey key).0 key_is;
      hash_is = ap (λ s. validate_api_token s.tokenhash secret) same ∙ valid;
      owner_is = (==_iff token.userid row.id).0 owner;
      enabled = enabled;
      user_is = sym u ∙ sym (ap (λ s. s.user) same);
    }

-- The token with another time of expiry.
abbrev pub expiring : Option ℕ → TokenRow → TokenRow
expiring expiry row = record row { expiry = expiry }

token_of_user-expiring :
    (expiry : Option ℕ) (key : Bytes) (row : TokenRow) (users : List UserRow)
    → token_of_user key (expiring expiry row) users ≡ token_of_user key row users
unfolding token_of_user token_joins search_row
token_of_user-expiring expiry key row [] = refl
token_of_user-expiring expiry key row (u ∷ users) =
    rw (token_of_user-expiring expiry key row users) refl

first_token-expiring :
    (expiry : Option ℕ) (key : Bytes) (users : List UserRow) (tokens : List TokenRow)
    → first_token key users (map (expiring expiry) tokens) ≡ first_token key users tokens
unfolding first_token
first_token-expiring expiry key users [] = refl
first_token-expiring expiry key users (row ∷ tokens) =
    rw (token_of_user-expiring expiry key row users, first_token-expiring expiry key users tokens)
      refl

-- The expiry of tokens is not looked at: with any time of expiry on all tokens, a login has the same status
-- and gives the session the same user.
pub login-expiring :
    (validate_api_token : Bytes → Bytes → Bool) (expiry : Option ℕ) (db : Db)
    (tokens : List TokenRow) (key secret : Bytes)
    → login validate_api_token db (map (expiring expiry) tokens) key secret
      ≡ login validate_api_token db tokens key secret
unfolding login get_token
login-expiring validate_api_token expiry db tokens key secret =
    ap (λ found. validated validate_api_token secret (token_or_error found))
      (first_token-expiring expiry key db.users tokens)
