-- ===== src/Config.antt =====
-- The configuration of src/config.rs: its defaults, how it is read from a file, and the check of it. Files,
-- the home folder, the crate config that reads JSON and the environment, the parts of a URL and the text of a
-- number are the parameter `Outside`. Paths, addresses and URLs are texts.
pub mod Chosen
use goatns.Prelude.{
  ℕ, Bool, true, false, not, Option, none, some, List, [], ◌∷◌, ◌++◌, ◌==◌, if◌then◌else◌, Result,
  ok, err, panic, stuck, ◌>>=◌, Bytes, codes, file_error,
}
use goatns.Contact.{ContactDetails}
use goatns.Web.{Urls, redirect}

pub record ConfigFile : Type 0 where
  pub hostname : Bytes
  pub address : Bytes
  pub port : ℕ
  pub capture_packets : Bool
  pub log_level : Bytes
  pub tcp_client_timeout : ℕ
  pub enable_hinfo : Bool
  pub sqlite_path : Bytes
  pub zone_file : Option Bytes
  pub allowed_tlds : List Bytes
  pub ip_allow_lists : List Bytes
  pub enable_api : Bool
  pub api_port : ℕ
  pub api_tls_cert : Bytes
  pub api_tls_key : Bytes
  pub api_static_dir : Bytes
  pub api_cookie_secret : Bytes
  pub oauth2_client_id : Bytes
  pub oauth2_redirect_url : Bytes
  pub oauth2_secret : Bytes
  pub oauth2_config_url : Bytes
  pub oauth2_user_scopes : List Bytes
  pub sql_log_statements : Bool
  pub sql_log_slow_duration : ℕ
  pub sql_db_cleanup_seconds : ℕ
  pub admin_contact : ContactDetails
  pub user_auto_provisioning : Bool

-- What the crate config gives for each key; `none` is a key that is not there or of another type.
pub record Loaded : Type 0 where
  pub hostname : Option Bytes
  pub address : Option Bytes
  pub port : Option ℕ
  pub capture_packets : Option Bool
  pub log_level : Option Bytes
  pub tcp_client_timeout : Option ℕ
  pub enable_hinfo : Option Bool
  pub sqlite_path : Option Bytes
  pub zone_file : Option (Option Bytes)
  pub allowed_tlds : Option (List Bytes)
  pub ip_allow_lists : Option (List Bytes)
  pub enable_api : Option Bool
  pub api_port : Option ℕ
  pub api_tls_cert : Option Bytes
  pub api_tls_key : Option Bytes
  pub api_static_dir : Option Bytes
  pub api_cookie_secret : Option Bytes
  pub oauth2_client_id : Option Bytes
  pub oauth2_redirect_url : Option Bytes
  pub oauth2_secret : Option Bytes
  pub oauth2_config_url : Option Bytes
  pub oauth2_user_scopes : Option (List Bytes)
  pub sql_log_statements : Option Bool
  pub sql_log_slow_duration : Option ℕ
  pub sql_db_cleanup_seconds : Option ℕ
  pub admin_contact : Option ContactDetails
  pub user_auto_provisioning : Option Bool

-- `load` is what the builder makes of a file and the environment, if it can. A text may
-- be no URL for `parse_url`, and `path` is the path of a URL.
pub record Outside : Type 0 where
  pub hostname : Bytes
  pub cookie_secret : Bytes
  pub tilde : Bytes → Bytes
  pub starts_with_tilde : Bytes → Bool
  pub exists : Bytes → Bool
  pub load : Bytes → Option Loaded
  pub parse_url : Bytes → Option Bytes
  pub path_ends_with : Bytes → Bytes → Bool
  pub set_path : Bytes → Bytes → Bytes
  pub number : ℕ → Bytes

-- `Default for ConfigFile`
unfoldable pub default : Outside → ConfigFile
default o = record {
  hostname = o.hostname;
  address = codes "127.0.0.1";
  port = 15353;
  capture_packets = false;
  log_level = codes "INFO";
  tcp_client_timeout = 5;
  enable_hinfo = false;
  sqlite_path = codes "~/.cache/goatns.sqlite";
  zone_file = none;
  allowed_tlds = [];
  ip_allow_lists = [];
  enable_api = false;
  api_port = 9000;
  api_tls_cert = codes "./certificates/cert.pem";
  api_tls_key = codes "./certificates/key.pem";
  api_static_dir = codes "./static_files/";
  api_cookie_secret = o.cookie_secret;
  oauth2_client_id = [];
  oauth2_redirect_url = codes "https://example.com";
  oauth2_secret = [];
  oauth2_config_url = [];
  oauth2_user_scopes = codes "openid" ∷ codes "email" ∷ [];
  sql_log_statements = false;
  sql_log_slow_duration = 5;
  sql_db_cleanup_seconds = 3600;
  admin_contact = ContactDetails.no_contact;
  user_auto_provisioning = false;
}

unfoldable pub or : {A : Type 0} → Option A → A → A
or none fallback = fallback
or (some x) fallback = x

-- A host that makes no URL is a panic: `expect`.
unfoldable pub with_login_path : Outside → Option Bytes → Result Bytes
unfolding redirect
with_login_path o none = panic
with_login_path o (some url) = ok (o.set_path url (redirect Urls.login))

-- The URL of the login is under the one that is configured, or under the host and the port of the API.
unfoldable pub login_url : Outside → Bytes → ℕ → Option Bytes → Result Bytes
unfolding redirect with_login_path
login_url o hostname api_port (some url) = ok (
    if not (o.path_ends_with url (redirect Urls.login))
    then o.set_path url (redirect Urls.login)
    else url)
login_url o hostname api_port none =
    let host = codes "https://" ++ hostname in
    with_login_path o
      (o.parse_url (if api_port == 443 then host else host ++ (codes ":" ++ o.number api_port)))

-- `From<Config> for ConfigFile`: the port alone falls back to 0 and not to the default.
unfoldable pub config_from : Outside → Loaded → Result ConfigFile
unfolding default or login_url
config_from o config =
    login_url o (or config.hostname (default o).hostname) (or config.api_port (default o).api_port)
      config.oauth2_redirect_url
    >>= λ url. ok (record {
      hostname = or config.hostname (default o).hostname;
      address = or config.address (default o).address;
      port = or config.port 0;
      capture_packets = or config.capture_packets false;
      log_level = or config.log_level (default o).log_level;
      tcp_client_timeout = or config.tcp_client_timeout (default o).tcp_client_timeout;
      enable_hinfo = or config.enable_hinfo (default o).enable_hinfo;
      sqlite_path = or config.sqlite_path (default o).sqlite_path;
      zone_file = or config.zone_file (default o).zone_file;
      allowed_tlds = or config.allowed_tlds (default o).allowed_tlds;
      ip_allow_lists = or config.ip_allow_lists (default o).ip_allow_lists;
      enable_api = or config.enable_api (default o).enable_api;
      api_port = or config.api_port (default o).api_port;
      api_tls_cert = or config.api_tls_cert (default o).api_tls_cert;
      api_tls_key = or config.api_tls_key (default o).api_tls_key;
      api_static_dir = or config.api_static_dir (default o).api_static_dir;
      api_cookie_secret = or config.api_cookie_secret (default o).api_cookie_secret;
      oauth2_client_id = or config.oauth2_client_id (default o).oauth2_client_id;
      oauth2_redirect_url = url;
      oauth2_secret = or config.oauth2_secret (default o).oauth2_secret;
      oauth2_config_url = or config.oauth2_config_url (default o).oauth2_config_url;
      oauth2_user_scopes = or config.oauth2_user_scopes (default o).oauth2_user_scopes;
      sql_log_statements = or config.sql_log_statements (default o).sql_log_statements;
      sql_log_slow_duration = or config.sql_log_slow_duration (default o).sql_log_slow_duration;
      sql_db_cleanup_seconds = or config.sql_db_cleanup_seconds (default o).sql_db_cleanup_seconds;
      admin_contact = or config.admin_contact (default o).admin_contact;
      user_auto_provisioning = or config.user_auto_provisioning (default o).user_auto_provisioning;
    })

abbrev pub config_locations : List Bytes
config_locations = codes "./goatns.json" ∷ codes "~/.config/goatns.json" ∷ []

unfoldable pub file_locations : Option Bytes → List Bytes
file_locations none = config_locations
file_locations (some path) = path ∷ []

-- The files that exist, with the home folder in their names.
unfoldable pub found_files : Outside → List Bytes → List Bytes
found_files o [] = []
found_files o (f ∷ fs) =
    let rest = found_files o fs in if o.exists (o.tilde f) then o.tilde f ∷ rest else rest

unfoldable pub loaded_or : Outside → Option Loaded → Result ConfigFile → Result ConfigFile
unfolding config_from
loaded_or o none rest = rest
loaded_or o (some config) rest = config_from o config

-- The first file that can be read, or the defaults.
unfoldable pub first_loaded : Outside → List Bytes → Result ConfigFile
unfolding loaded_or default
first_loaded o [] = ok (default o)
first_loaded o (f ∷ fs) = loaded_or o (o.load (o.tilde f)) (first_loaded o fs)

unfoldable pub unless_empty : Outside → List Bytes → Result ConfigFile
unfolding first_loaded
unless_empty o [] = err file_error
unless_empty o (f ∷ fs) = first_loaded o (f ∷ fs)

-- `ConfigFile::try_from`; it is an error that no file is there.
unfoldable pub try_from : Outside → Option Bytes → Result ConfigFile
unfolding unless_empty found_files file_locations
try_from o config_path = unless_empty o (found_files o (file_locations config_path))

unfoldable pub expanded : Outside → Bytes → Bytes
expanded o path = if o.starts_with_tilde path then o.tilde path else path

unfoldable pub with_paths : Outside → ConfigFile → ConfigFile
unfolding expanded
with_paths o config = record config {
  api_tls_cert = expanded o config.api_tls_cert;
  api_tls_key = expanded o config.api_tls_key;
}

-- The files that are missed, as a message names each.
unfoldable pub missing : Outside → Bytes → List Bytes → List Bytes
missing o path rest = if o.exists path then rest else path ∷ rest

-- `ConfigFile::check_config`: the configuration that is committed, and the files that are not there.
unfoldable pub check_config : Outside → ConfigFile → ConfigFile × List Bytes
unfolding with_paths missing
check_config o config =
    let updated = with_paths o config in
    (updated, missing o updated.api_tls_key (missing o updated.api_tls_cert []))
