-- ===== src/Examples/Logins.antt =====
-- The theorems on the login applied to a stored token; the hash of a secret is the secret itself.
use goatns.Prelude.{some, none, ◌≡◌, refl, List, [], ◌∷◌, map, Bytes, codes, equal}
use goatns.Examples.Home.{home_db, owner}
use goatns.Tokens.{TokenRow, login}
use goatns.Tokens.Login.{IsTokenOf, login-IsTokenOf, expiring, login-expiring}

abbrev key : Bytes
key = codes "GAkey"

abbrev secret : Bytes
secret = codes "goatns_secret"

-- expired in 2001
abbrev tokens : List TokenRow
tokens =
    record {
      id = 1;
      name = codes "token";
      issued = 1000000000;
      expiry = some 1000000001;
      userid = 1;
      tokenkey = key;
      tokenhash = secret;
    }
    ∷ []

logged_in : login equal home_db tokens key secret ≡ (200, some owner)
unfolding login equal
logged_in = refl

login-IsTokenOf_example : IsTokenOf equal home_db tokens key secret owner
login-IsTokenOf_example = login-IsTokenOf equal home_db tokens key secret logged_in

login-expiring_example :
    login equal home_db (map (expiring none) tokens) key secret
    ≡ login equal home_db tokens key secret
login-expiring_example = login-expiring equal none home_db tokens key secret
