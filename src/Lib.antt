-- ===== src/Lib.antt =====
-- A web panel for Xray proxies (app/*.py, FastAPI over SQLite): an admin manages users, the panel
-- generates the Xray config that serves them and the links that they dial, counts their traffic,
-- disables them at a quota or an expiry, and pushes them to remote nodes, which run the same program.
--
-- The files, with the code that each models:
-- - Value, Config, Settings: JSON values with Python's truth, `str` and `int`; app/config.py;
--   `DEFAULT_SETTINGS` and app/db.py `get_settings`.
-- - User, Db and its children: app/db.py. The record `Db` holds the tables as lists of rows, each
--   statement is a function on it, and `none` is the IntegrityError of a UNIQUE column. Db/Users/Laws
--   says what `get_user` returns after each, Db/Users/Unique states the UNIQUE uids.
-- - Panel: what the process keeps in memory, and the type of a request handler: `Action A` takes the
--   panel to a result or an `HTTPException`, and to the panel after it, which keeps what was written
--   before an exception.
-- - Protocol: app/main.py `_normalize_protocol_fields` and `_tcp_port`. Protocol/Served writes the
--   combinations that are served down on their own.
-- - Tuning: app/tuning.py, with its bounds in Tuning/Bounds.
-- - Xray and its children: app/xray.py `generate_xray_config`. Clients makes the lists of clients,
--   Build the inbounds in the order of the code, Served and Withdrawn say who is in them, SsKeys sets
--   the Shadowsocks keys against those of the links.
-- - Endpoint: the port part of app/main.py `_user_endpoint`. Endpoint/Agree sets it against the
--   generated inbounds.
-- - Stats: app/xray.py `get_xray_stats`. Stats/Polls is about any number of polls.
-- - Tasks: app/tasks.py, one round of each loop. Rows takes a round to one row, Quota, Expiry and
--   Usage are about the rounds.
-- - Reload: app/main.py `_reload_xray`, as a step relation on the loop's counters.
-- - Nodes, Reality, Wg: app/nodes.py, app/reality.py, app/wg.py.
-- - Links, SsKeys: app/links.py and app/sskeys.py; Codes, Url, Base64 and Json are what they use of
--   Python's library, over code points.
-- - Subfmt and its children: app/subfmt.py. Vless sets the parser against the VLESS links, Sort is
--   `parse_links` and Sorted about what becomes an entry, Tag about the names of outbounds. XrayFile,
--   Singbox and Clash build the three documents, as trees of Doc, and their children say what the
--   documents refer to.
-- - Subscriptions: the groups of users of app/main.py, their payload and handlers. Exact is about the
--   payload, Rotation about the keys.
-- - Auth: login, setup and passwords of app/main.py, app/security.py and app/db.py.
-- - Guard: app/main.py `csrf_origin_guard`; Guard/Origin says which pages it lets write.
-- - Handlers: the other handlers of app/main.py that change the tables.
-- - Tests: sample data, and the properties at concrete inputs.
--
-- Times are whole seconds and the login window whole hours, where the program has floats. The clock,
-- fresh ids and keys are arguments; PBKDF2, SHA-256, the payload hash, the push over HTTP and
-- what other requests do while a failed login is delayed are functions that the definitions take. Loops are recursion over the list that they run
-- through. Fuel stands in three places: the digits of a number n (Value, Codes/Decimal) have n + 1
-- rounds, each of which divides by ten; the loop of `allocate_ip` (Wg) has one round for each address
-- that it may look at; and the loop of `_tag` (Subfmt/Tag) has one round for each tag
-- in use, which is proved to be enough.
--
-- Not modelled: network I/O (GeoIP, probes, HTTP to nodes), processes, files and backups, migrations,
-- the signed cookie of itsdangerous, pages, the answers that handlers serialise, the YAML printer and
-- `render` (app/subfmt.py), and the subscription page (app/subpage.py).
pub mod Prelude
pub mod Value
pub mod Config
pub mod Protocol
pub mod User
pub mod Db
pub mod Panel
pub mod Tasks
pub mod Stats
pub mod Settings
pub mod Tuning
pub mod Wg
pub mod Tests
pub mod Reload
pub mod Codes
pub mod Url
pub mod Base64
pub mod Json
pub mod SsKeys
pub mod Links
pub mod Subfmt
pub mod Subscriptions
pub mod Nodes
pub mod Guard
pub mod Handlers
pub mod Auth
pub mod Endpoint
pub mod Xray
pub mod Reality
