-- ===== src/Examples/Configs.antt =====
-- The theorem on the configuration applied to a home folder with one file. The parts of URLs are left alone.
use goatns.Prelude.{
  true, false, none, some, ◌≡◌, ◌≢◌, refl, ◌⊎◌, [], ◌∷◌, panic, err, codes, equal, file_error,
}
use goatns.Config.{Outside, Loaded, config_from, file_locations, try_from}
use goatns.Config.Chosen.{IsChosen, existing, try_from-IsChosen}

abbrev nothing_set : Loaded
nothing_set = record {
  hostname = none;
  address = none;
  port = none;
  capture_packets = none;
  log_level = none;
  tcp_client_timeout = none;
  enable_hinfo = none;
  sqlite_path = none;
  zone_file = none;
  allowed_tlds = none;
  ip_allow_lists = none;
  enable_api = none;
  api_port = none;
  api_tls_cert = none;
  api_tls_key = none;
  api_static_dir = none;
  api_cookie_secret = none;
  oauth2_client_id = none;
  oauth2_redirect_url = none;
  oauth2_secret = none;
  oauth2_config_url = none;
  oauth2_user_scopes = none;
  sql_log_statements = none;
  sql_log_slow_duration = none;
  sql_db_cleanup_seconds = none;
  admin_contact = none;
  user_auto_provisioning = none;
}

abbrev home : Outside
home = record {
  hostname = codes "goat";
  cookie_secret = codes "secret";
  tilde = λ path. path;
  starts_with_tilde = λ path. false;
  exists = λ path. equal path (codes "./goatns.json");
  load = λ path. some nothing_set;
  parse_url = λ text. some text;
  path_ends_with = λ url path. true;
  set_path = λ url path. url;
  number = λ n. n ∷ [];
}

starts : try_from home none ≡ config_from home nothing_set
unfolding try_from equal
starts = refl

no_url : try_from (record home { parse_url = λ text. none }) none ≡ panic
unfolding try_from equal
no_url = refl

try_from-IsChosen_example :
    let files = existing home (file_locations none) in
    ((files ≡ []) × (try_from home none ≡ err file_error))
    ⊎ ((files ≢ []) × IsChosen home files (try_from home none))
try_from-IsChosen_example = try_from-IsChosen home none
