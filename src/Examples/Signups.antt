-- ===== src/Examples/Signups.antt =====
-- The theorems on the login and the signup of the pages applied to a user. The provider exchanges a code once,
-- for a token that is always the same.
use mathlib.Core.List.{Memᴰ as In}
use mathlib.Core.List.Memᴰ.{head, tail}
use goatns.Prelude.{
  Bool, true, false, ◌||◌, none, some, ◌≡◌, refl, sym, List, [], ◌∷◌, if◌then◌else◌, Bytes, equal,
  equal_iff, codes,
}
use goatns.Contact.{ContactDetails}
use goatns.Database.{Db, UserRow}
use goatns.Examples.Home.{row_ids, home_db, home_kept}
use goatns.Web.{page, empty_session, Verifier, GoatState}
use goatns.Web.Oidc.{Claims, Provider, Env}
use goatns.Web.Auth.{AuthNewUserTemplate, new_user, login}
use goatns.Web.Auth.Login.{IsLoginOf, login-IsLoginOf}
use goatns.Web.Signup.{signup}
use goatns.Web.Signup.Users.{IsOnce, IsSoundSignup, signup-IsSoundSignup, signup-new_user}

is_seen : Bytes → List Bytes → Bool
unfolding equal
is_seen code [] = false
is_seen code (c ∷ seen) = equal c code || is_seen code seen

abbrev goat : Claims
goat = record {
  subject = codes "goat";
  email = some (codes "billy@goat.net");
  preferred_username = some (codes "billy");
  name = none;
}

abbrev verifier : Verifier
verifier = record {
  csrftoken = codes "state";
  pkce_verifier = codes "verifier";
  nonce = codes "nonce";
}

abbrev provider : Provider
provider = record {
  discover = none;
  authorize = λ meta. record { authorize_url = meta; verifier = verifier };
  exchange_code =
      λ seen meta code v. if is_seen code seen then none else some (some (codes "token"));
  claims = λ meta token nonce. some goat;
}

abbrev env : Env
env = record {
  provider = provider;
  now = 1000000000;
  user_auto_provisioning = true;
  admin_contact = ContactDetails.no_contact;
  answers_query = true;
  answers_transaction = true;
}

abbrev pub site : Db → GoatState
site db = record {
  db = db;
  tokens = [];
  oidc_config_updated = 0;
  oidc_config = some (codes "metadata");
  oidc_verifier = verifier ∷ [];
  exchanged = [];
}

abbrev goat_row : UserRow
goat_row = record {
  id = 1;
  displayname = codes "Billy";
  username = codes "billy";
  email = codes "old@goat.net";
  disabled = false;
  authref = some (codes "goat");
  admin = false;
}

abbrev goat_db : Db
goat_db = record home_db { users = goat_row ∷ [] }

signs_in :
    (login env
      (some (codes "state"))
      (some (codes "code"))
      empty_session
      (site goat_db)).session.signed_in
    ≡ some true
unfolding login equal is_seen
signs_in = refl

login-IsLoginOf_example :
    (state code : Bytes) × (some (codes "state") ≡ some state)
    × (some (codes "code") ≡ some code)
    × IsLoginOf env state code
        (site goat_db)
        (login env (some (codes "state")) (some (codes "code")) empty_session (site goat_db))
login-IsLoginOf_example =
    login-IsLoginOf env (some (codes "state")) (some (codes "code")) empty_session (site goat_db)
      (λ e. cc e) signs_in

signup-IsSoundSignup_example :
    IsSoundSignup env
      (codes "state")
      (codes "code")
      empty_session
      (site home_db)
      (signup row_ids env (codes "state") (codes "code") empty_session (site home_db))
signup-IsSoundSignup_example =
    signup-IsSoundSignup row_ids env (codes "state") (codes "code") empty_session (site home_db)

In-is_seen : (code : Bytes) (seen : List Bytes) → In code seen → is_seen code seen ≡ true
unfolding is_seen
In-is_seen code [] there = elim there [ ]
In-is_seen code (c ∷ seen) (head same) = rw ((equal_iff c code).1 (sym same)) refl
In-is_seen code (c ∷ seen) (tail there) =
    or_true (equal c code) (is_seen code seen) (In-is_seen code seen there)
  where
    or_true : (a b : Bool) → b ≡ true → (a || b) ≡ true
    or_true true b h = refl
    or_true false b h = h

provider-IsOnce : IsOnce provider
provider-IsOnce seen meta code v there = rw (In-is_seen code seen there) refl

abbrev shown : AuthNewUserTemplate
shown = record {
  state = codes "state";
  code = codes "code";
  email = codes "billy@goat.net";
  displayname = codes "Anonymous Kid";
  redirect_url = [];
  errors = [];
  user_is_admin = false;
}

shows :
    (login env (some (codes "state")) (some (codes "code")) empty_session (site home_db)).answer
    ≡ page (new_user shown)
unfolding login equal is_seen
shows = refl

signup-new_user_example :
    (signup row_ids env shown.state shown.code empty_session
      (login env
        (some (codes "state"))
        (some (codes "code"))
        empty_session
        (site home_db)).state).state.db
    ≡ (login env (some (codes "state")) (some (codes "code")) empty_session (site home_db)).state.db
signup-new_user_example =
    signup-new_user row_ids env (some (codes "state")) (some (codes "code")) empty_session
      empty_session (site home_db) home_kept provider-IsOnce shows
