-- ===== src/Web/Oidc.antt =====
-- The flow with the provider of OpenID Connect, of src/web/auth/mod.rs, and the claims of
-- src/web/auth/traits.rs. The provider, with the crates openidconnect and oauth2 that talk to it, is the
-- parameter `Provider`.
use goatns.Prelude.{
  ℕ, ◌-◌, ◌/◌, Bool, Option, none, some, List, [], ◌∷◌, ltb, if◌then◌else◌, Bytes, codes,
}
use goatns.Contact.{ContactDetails}
use goatns.Web.{Verifier, GoatState, oidc_update, push_verifier}

-- The claims of a verified token; the names are those of `name`, in the order that it iterates over them.
pub record Claims : Type 0 where
  pub subject : Bytes
  pub email : Option Bytes
  pub preferred_username : Option Bytes
  pub name : Option (List Bytes)

unfoldable pub email_or : Option Bytes → Option Bytes → Option Bytes
email_or (some email) username = some email
email_or none username = username

-- Without an address the browser is sent home.
unfoldable pub get_email : Claims → Option Bytes
unfolding email_or
get_email claims = email_or claims.email claims.preferred_username

unfoldable pub displayname_of : Option (List Bytes) → Bytes
displayname_of (some (name ∷ names)) = name
displayname_of _ = codes "Anonymous Kid"

unfoldable pub get_displayname : Claims → Bytes
unfolding displayname_of
get_displayname claims = displayname_of claims.name

unfoldable pub username_of : Option Bytes → Bytes
username_of none = []
username_of (some username) = username

unfoldable pub get_username : Claims → Bytes
unfolding username_of
get_username claims = username_of claims.preferred_username

-- What `authorize_url` gives, with the state, the verifier and the nonce that were drawn for it.
pub record Authorization : Type 0 where
  pub authorize_url : Bytes
  pub verifier : Verifier

-- The provider. Its metadata may be out of reach. A code is exchanged, with the codes that it has seen
-- before: for nothing, or for a response with or without a token. The claims of a token are checked
-- against the nonce.
pub record Provider : Type 0 where
  pub discover : Option Bytes
  pub authorize : Bytes → Authorization
  pub exchange_code : List Bytes → Bytes → Bytes → Bytes → Option (Option Bytes)
  pub claims : Bytes → Bytes → Bytes → Option Claims

-- What a handler is given besides the request: the time, the configuration, and whether the database
-- answers a query and a transaction.
pub record Env : Type 0 where
  pub provider : Provider
  pub now : ℕ
  pub user_auto_provisioning : Bool
  pub admin_contact : ContactDetails
  pub answers_query : Bool
  pub answers_transaction : Bool

pub data ParserError : Type 0 where
  redirected : Bytes → ParserError
  error_message claims_verification_error : ParserError

pub data Parsed : Type 0 where
  claimed : Claims → Parsed
  not_claimed : ParserError → Parsed

-- `oauth_get_discover`: the metadata, which the state keeps.
unfoldable pub oauth_get_discover : Option Bytes → GoatState → Option (Bytes × GoatState)
unfolding oidc_update
oauth_get_discover none st = none
oauth_get_discover (some discovery) st = some (discovery, oidc_update discovery st)

unfoldable pub config_or : Option Bytes → Bytes → Bytes
config_or none discovery = discovery
config_or (some config) discovery = config

unfoldable pub authorized : Env → Bytes → GoatState → Bytes × GoatState
unfolding push_verifier
authorized env meta st =
    let authorization = env.provider.authorize meta in
    (authorization.authorize_url, push_verifier authorization.verifier st)

-- The metadata were updated at `last_updated`; `st` keeps what the discovery gave.
unfoldable pub started : Env → ℕ → Option (Bytes × GoatState) → Option (Bytes × GoatState)
unfolding authorized config_or oidc_update
started env last_updated none = none
started env last_updated (some (discovery, st)) = some (
    if ltb 5 ((env.now - last_updated) / 60)
    then authorized env discovery st
    else (let meta = config_or st.oidc_config discovery in
        authorized env meta (oidc_update meta st)))

unfoldable pub oauth_start : Env → GoatState → Option (Bytes × GoatState)
unfolding started oauth_get_discover
oauth_start env st =
    started env st.oidc_config_updated (oauth_get_discover env.provider.discover st)

unfoldable pub verified : Option Claims → Parsed
verified none = not_claimed claims_verification_error
verified (some claims) = claimed claims

unfoldable pub token_claims : Provider → Bytes → Bytes → Option (Option Bytes) → Parsed
unfolding verified
token_claims provider meta nonce none = not_claimed error_message
token_claims provider meta nonce (some none) = not_claimed error_message
token_claims provider meta nonce (some (some token)) = verified (provider.claims meta token nonce)

unfoldable pub parse_state_code : Provider → Option Bytes → List Bytes → Bytes → Verifier → Parsed
unfolding token_claims
parse_state_code provider none exchanged code v = not_claimed error_message
parse_state_code provider (some meta) exchanged code v =
    token_claims provider meta v.nonce (provider.exchange_code exchanged meta code v.pkce_verifier)

-- The codes that the provider has seen: without its metadata it is not asked.
unfoldable pub asked_for : Option Bytes → Bytes → List Bytes → List Bytes
asked_for none code exchanged = exchanged
asked_for (some meta) code exchanged = code ∷ exchanged

-- What `parse_state_code` gives, and the provider with the code that it has been asked for.
unfoldable pub exchange : Provider → Bytes → Verifier → GoatState → Parsed × GoatState
unfolding parse_state_code asked_for
exchange provider code v st = (
  parse_state_code provider st.oidc_config st.exchanged code v,
  record st { exchanged = asked_for st.oidc_config code st.exchanged },
)
