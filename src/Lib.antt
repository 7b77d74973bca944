-- ===== src/Lib.antt =====
-- goatns, a DNS server: what it does between the bytes of a query and the bytes of an answer, and
-- how its zones come into the database and are served from it.
--
-- A query comes in over UDP or TCP (src/servers.rs). parse_query unpacks the header and get_result
-- parses the question (src/lib.rs), refuses what is not supported, and asks the datastore through a
-- channel (src/datastore.rs), which reads the view records_merged of the database (src/db/mod.rs)
-- and converts every row (src/resourcerecord.rs). The reply (src/reply.rs) is written with the
-- names compressed against the question (src/utils.rs), and cut to 1,232 bytes over UDP. Over TCP
-- check_for_shutdown looks at every reply first. Over HTTPS (src/web/doh/mod.rs) a POST goes the same
-- way, and a GET reads the view itself.
--
-- Zones are written by the manager of the datastore (src/datastore.rs), which is sent commands such as
-- the import of a zone file, and by the web API (src/web/api). Both use the operations on zones,
-- records, users and ownership of src/db/mod.rs, which run SQL in transactions. Users come in by the
-- pages (src/web/auth, src/web/ui): they log in at a provider of OpenID Connect, sign up, make tokens for
-- the API, and give zones to each other.
--
-- Files:
--   Prelude     names of the libraries, Boolean tests on native numbers, lists measured by them,
--               the outcomes ok, err, panic and stuck of fallible code, byte strings
--   Enums       src/enums.rs: codes, record types and classes, with their numbers and words
--   Name        src/utils.rs: vec_find, seven_dot_three_conversion, find_tail_match, name_as_bytes,
--               check_valid_tld; check_long_labels of src/resourcerecord.rs
--   Utf8        from_utf8 as a test on bytes, and to_lowercase as a parameter
--   Question    src/lib.rs: Question, get_question_qname, from_packets, try_to_bytes
--   Header      src/lib.rs: Header; Header/Layout has its twelve bytes
--   Record      src/resourcerecord.rs: InternalResourceRecord, ttl, set_ttl, comparisons;
--               Record/Rdata has as_bytes and DNSCharString
--   Zone        src/zones.rs: FileZoneRecord, FileZone; TryFrom<FileZoneRecord> of
--               src/resourcerecord.rs
--   Datastore   src/db/mod.rs: get_records and its view; handle_get_command of src/datastore.rs
--   Reply       src/reply.rs: Reply and its bytes; ResourceRecord of src/lib.rs
--   Server      src/servers.rs: parse_query, get_result, check_for_shutdown; Server/Transport has
--               a round of udp_server and tcp_conn_handler
--   Database    src/db/mod.rs: the tables with their keys; Database/Zones has the operations on zones
--               and records, Database/Users and Database/Accounts those on users and ownership,
--               Database/Consistent the
--               invariant of the tables, Database/Saved and Database/Deleted what saving and
--               deleting a zone leave
--   Manager     src/datastore.rs: the commands, handle_message, handle_import_file and manager
--   Api         src/web/api/filezone.rs and src/web/api/filezonerecord.rs: the handlers, and the routes of
--               src/web/api/mod.rs to them and to the login
--   Tokens      src/web/api/auth.rs: login; UserAuthToken and get_token of src/db/mod.rs
--   Web         src/web/mod.rs and src/web/utils.rs: the state behind the pages, sessions and addresses;
--               Web/Oidc and Web/Auth have the login of src/web/auth/mod.rs and src/web/auth/traits.rs,
--               Web/Signup its signup, Web/Csrf, Web/Settings and Web/ApiTokens the pages of
--               src/web/ui/user_settings.rs, Web/Admin those of src/web/ui/admin_ui.rs,
--               Web/Pages and Web/NewZone those of src/web/ui/mod.rs, src/web/ui/profile.rs and
--               src/web/ui/zones.rs, and Web/Sessions the check of src/web/ui/mod.rs
--   Config      src/config.rs: ConfigFile, its defaults, try_from and check_config
--   Doh         src/web/doh/mod.rs: handle_get and handle_post; get_all_fzr_by_name of src/db/mod.rs
--   Contact     src/enums.rs: ContactDetails
--   Examples    data, and the theorems applied to it
--
-- State and operations: a buffer, a name and a text are lists of bytes. A function of the source is
-- the function of the same name in snake case; a part of a long function that the proofs speak of is
-- a helper with a name of its own. A table is the list of its rows, and a query on it a function of
-- the list, with rows in the order of their insertion. An operation on the database is a function
-- from the tables to a value and the tables it commits; one that fails is rolled back, and gives an
-- error alone. The steps of Database/Consistent/Reach are the operations that succeed. A handler gives
-- a response with the tables that are left, and the manager the list of its answers. Connections to
-- the database do not fail there. Logging and capturing packets are left out.
--
-- Fuel: the loops of seven_dot_three_conversion and get_question_qname take a byte at least in each
-- round, so the length of what they read, and one more for the second, is enough; running out of it
-- is the outcome stuck. The other loops are structural.
--
-- Parameters: the packing of headers and of LOC records by the crate packed_struct, to_lowercase
-- beyond ASCII, the parsers of addresses, the regular expressions for CAA and URI, the reading of a
-- location with its floats, the architecture and system names. The laws that the proofs use are
-- fields of Lowercase, HeaderCodec and Platform, and Examples has instances.
--
-- Also parameters: which identifier SQLite gives to a new row, any that the table does not hold, chosen
-- with all earlier INSERTs in view as AUTOINCREMENT does (Database.RowIds); which of two columns of one
-- name sqlx reads, json5, base64, the hash of tokens and the text that Debug prints. The constraints of
-- the tables refuse a statement as SQLite documents it.
--
-- For the pages: the provider of OpenID Connect with what the crates openidconnect and oauth2 do to talk
-- to it (Web.Oidc.Provider), the texts of times (Web.Csrf.Clock), and what is drawn at random, digests
-- and hashes (Web.Settings.Moment). For the configuration: files, what the crate config makes of them,
-- and which texts are URLs (Config.Outside). What the proofs take of them are IsOnce, and
-- IsClock, which the texts of chrono keep for years of four digits. A session is a record of the keys that the handlers use, and its store does not fail.
--
-- Not modelled: the export of zones, the templates and the middleware, the command line, and of the
-- configuration the addresses to listen on, TLS and logging. Sockets, timeouts and tasks are the
-- environment of the servers, HTTP and JSON that of the web handlers.
pub mod Prelude
pub mod Enums
pub mod Name
pub mod Utf8
pub mod Question
pub mod Record
pub mod Zone
pub mod Datastore
pub mod Database
pub mod Manager
pub mod Api
pub mod Tokens
pub mod Web
pub mod Config
pub mod Doh
pub mod Contact
pub mod Header
pub mod Reply
pub mod Server
pub mod Examples
