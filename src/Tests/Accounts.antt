-- ===== src/Tests/Accounts.antt =====
-- The properties of the login and of the handlers for users and nodes, at concrete inputs.
use testuder.Reality.{apply_reality_config}
use testuder.Nodes.{secret_valid_for_node}
use testuder.Prelude.{
  ◌≡◌, ℕ, String, refl, Bool, true, false, ◌&&◌, not, none, some, [], ◌∷◌, arith, ◌==◌, ltb,
  if◌then◌else◌, all, strip, lookup, insert, append,
}
use mathlib.Core.Option
use testuder.Prelude.Int.{pos}
use testuder.User.{set_fields, set_field, User, Field}
use testuder.Config.{Env, default_env}
use testuder.Value.{truthy, num}
use testuder.Db.{get_meta}
use testuder.Db.Users.{create_user, create_user, get_user}
use testuder.Db.Events.{add_event}
use testuder.Panel.{err, http}
use testuder.Guard.{Request, csrf_origin_guard, guarded, source}
use testuder.Guard.Origin.{own_page_host, csrf_origin_guard-exact}
use testuder.Codes.{after_last, join, split, codes, starts_with, strip_codes, same, is_space}
use testuder.Tests.{db, panel}
use testuder.Value.{text}
use testuder.Settings.{text_or, Settings}
use testuder.Wg.{allocate_ip, Subnet, ip_text}
use testuder.Value.{show}
use testuder.Wg.Allocation.{Fits, allocate_ip-Fits}
use testuder.Handlers.Settings.{api_set_settings}
use testuder.Handlers.Settings.Valid.{row_valid, api_set_settings-valid}
use testuder.Handlers.Users.{api_delete_user}
use testuder.Handlers.Users.Toggle.{get_user-api_delete_user}
use testuder.Auth.{
  valid_username, first_run_state, window_start, Auth, default_auth, attempts_of, login, setup,
}
use testuder.Auth.Credentials.{is_ok, accepts, login-exact, setup-login}
use testuder.Auth.Lockout.{Guess, try}
use testuder.Handlers.NodeSync.{put_entry, put_all, Entry, RealityData, known, node_sync, seen}
use testuder.Handlers.NodeSync.Reconcile.{node_sync-exact}
use testuder.Handlers.NodeUsage.{Report, merge_each}
use testuder.Handlers.NodeUsage.Merge.{merged, reports, ups, downs, get_user-merge_each}
use testuder.Handlers.Users.{
  new_row, given, create_row, NewUser, Patch, api_create_user, api_update_user, api_toggle,
}
use testuder.Handlers.Users.Served.{test, row_served, create-served}
use testuder.Handlers.Users.Patched.{update-served}
use testuder.Handlers.Users.Toggle.{flipped, get_user-api_toggle}

abbrev subnet : Subnet
subnet = record { network = 180879360; broadcast = 180879363 }

-- A hash for the tests: the password and the salt side by side.
abbrev hash : String → String → String
hash password salt = append password salt

abbrev auth : Auth
auth = record { db = db; since = some 5; attempts = [] }

abbrev claimed_auth : Auth
claimed_auth = record auth { db = record db { meta = ("auth_is_default", "0") ∷ [] } }

login-exact_example :
    is_ok (login hash default_env 50 51 (λ a. a) "ip" "ip" "TiTaN" "TiTaN " "" false auth).0 ≡ (
      not (ltb 50 (attempts_of "ip" auth).locked_until)
      && accepts hash default_env 50 auth (strip "TiTaN ") "")
login-exact_example =
    login-exact hash default_env 50 51 (λ a. a) "ip" "ip" "TiTaN" "TiTaN " "" false auth

setup-login_example :
    (is_ok
        (login hash default_env 60 61
          (λ a. a)
          "ip"
          "ip"
          "admin"
          "admin"
          "secret"
          false
          (setup hash default_env 50 "s" "ip" "admin" "secret" auth).1).0
      ≡ true)
    × ((at : ℕ) (salt' ip' name' password' : String)
        → (setup hash default_env at salt' ip' name' password'
            (setup hash default_env 50 "s" "ip" "admin" "secret" auth).1).0
          ≡ err (http 400 "already-configured"))
unfolding setup first_run_state default_auth get_meta lookup window_start valid_username strip
    attempts_of
setup-login_example =
    setup-login hash default_env 50 60 61 (λ a. a) "s" "ip" "ip" "admin" "admin" "secret" false auth
      refl refl

abbrev guess : Guess
guess = record {
  now = 100;
  later = 101;
  others = λ a. a;
  ip = "ip";
  shown = "TiTaN";
  name = "TiTaN";
  password = "nope";
}

-- Of three requests that overlap, two end in the delay of the first: the second of these locks the
-- key, and the first, which read 28 before, clears the lock.
abbrev near_lock : Auth
near_lock = record claimed_auth {
  attempts = insert "ip" (record { count = 28; locked_until = 0 }) [];
}

abbrev once : Auth → Auth
once a = (try hash default_env "ip" guess a).1

lock_set : (attempts_of "ip" (once (once near_lock))).locked_until ≡ 701
unfolding login attempts_of lookup insert first_run_state default_auth get_meta strip add_event
lock_set = refl

lock_cleared :
    attempts_of "ip"
      (try hash default_env "ip" (record guess { others = λ a. once (once a) }) near_lock).1
    ≡ record { count = 29; locked_until = 0 }
unfolding login attempts_of lookup insert first_run_state default_auth get_meta strip add_event
lock_cleared = refl

abbrev node_env : Env
node_env = record default_env { is_node = true; node_secret = "s" }

abbrev entry : Entry
entry = record { uid = "carol"; uuid = "uuid-carol"; fields = Field.protocol "trojan" ∷ [] }

abbrev no_reality : RealityData
no_reality = record { priv = ""; key = ""; sid = "" }

node_sync-exact_example :
    known (get_user "carol" (node_sync node_env 60 "s" no_reality (entry ∷ []) panel).1.db)
    ≡ seen "carol" (entry ∷ [])
unfolding node_sync secret_valid_for_node put_all strip put_entry get_user apply_reality_config
    create_user set_fields testuder.User.set_field
node_sync-exact_example = node_sync-exact node_env 60 "s" no_reality (entry ∷ []) panel "carol" refl

abbrev report : Report
report = record { uid = "ada"; up = pos 70; down = pos 80 }

get_user-merge_each_example :
    get_user "ada" (merge_each 60 (report ∷ []) db)
    ≡ Option.map
        (merged
          (reports "ada" (report ∷ []))
          60
          (ups "ada" (report ∷ []))
          (downs "ada" (report ∷ [])))
        (get_user "ada" db)
get_user-merge_each_example = get_user-merge_each "ada" 60 (report ∷ []) db

abbrev new_user : NewUser
new_user = record {
  name = "carol";
  note = "";
  protocol = some "vmess";
  transport = "tcp";
  security = "reality";
  fingerprint = "";
  alpn = none;
  public_key = "";
  short_id = "";
  spider_x = "";
  max_devices = 0;
  allowed_ips = [];
  quota_bytes = 0;
  expire_days = pos 30;
  max_requests = 0;
  node_id = num (pos 1);
  avatar = "";
  ss_method = "";
}

create-served_example :
    test row_served (
      get_user "carol"
        (api_create_user default_env 60 "ip" "carol" "u3" subnet ("", "") new_user panel).1.db)
    ≡ true
unfolding api_create_user new_row create_row create_user
create-served_example =
    create-served default_env 60 "ip" "carol" "u3" subnet ("", "") new_user panel refl

abbrev patch : Patch
patch = record {
  protocol = some "trojan";
  transport = some "grpc";
  security = none;
  fingerprint = none;
  alpn = none;
  ss_method = none;
  node_id = none;
  quota_bytes = some 7;
  expire_days = none;
  rest = Field.note "n" ∷ [];
}

update-served_example :
    test row_served
      (get_user "ada" (api_update_user default_env 60 "ip" "ada" subnet ("", "") patch panel).1.db)
    ≡ true
unfolding given get_user
update-served_example =
    update-served default_env 60 "ip" "ada" subnet ("", "") patch panel refl refl refl

get_user-api_toggle_example : get_user "bob" (api_toggle 60 "ip" "bob" panel).1.db ≡ (
    if "bob" == "bob"
    then Option.map flipped (get_user "bob" panel.db)
    else get_user "bob" panel.db)
get_user-api_toggle_example = get_user-api_toggle 60 "ip" "bob" "bob" panel

get_user-api_delete_user_example :
    get_user "ada" (api_delete_user 60 "ip" "bob" panel).1.db
    ≡ (if "bob" == "ada" then none else get_user "ada" panel.db)
get_user-api_delete_user_example = get_user-api_delete_user 60 "ip" "bob" "ada" panel

abbrev body : Settings
body = ("operator_profile", text "mars") ∷ ("wg_mtu", text "1300") ∷ ("unknown", text "x") ∷ []

api_set_settings-valid_example :
    all (api_set_settings 60 "{}" body panel).1.db.settings row_valid ≡ true
api_set_settings-valid_example = api_set_settings-valid 60 "{}" body panel refl

allocate_ip-Fits_example : Fits subnet db (allocate_ip subnet db)
allocate_ip-Fits_example = allocate_ip-Fits subnet db

first_ip : allocate_ip subnet db ≡ "10.200.0.2"
unfolding allocate_ip ip_text show
first_ip = refl

abbrev own_page : Request
own_page = record {
  method = "POST";
  path = codes "/api/users";
  origin = [];
  referer = codes "https://vpn.example.org:8443/panel/users?page=2";
  host = codes "vpn.example.org:8443";
  forwarded_host = [];
}

csrf_origin_guard-exact_example :
    csrf_origin_guard true [] own_page
    ≡ own_page_host true [] own_page (codes "vpn.example.org:8443")
unfolding guarded source starts_with strip_codes same is_space
csrf_origin_guard-exact_example =
    csrf_origin_guard-exact true [] own_page "https:" (codes "vpn.example.org:8443")
      (some (codes "panel/users?page=2")) refl refl refl (ground arith) refl

own_page_passes : csrf_origin_guard true [] own_page ≡ true
unfolding csrf_origin_guard starts_with same strip_codes is_space join split
own_page_passes = refl

abbrev forwarded_page : Bool → Bool
forwarded_page trust = csrf_origin_guard trust [] (record own_page {
  host = codes "127.0.0.1";
  forwarded_host = codes "a.example, vpn.example.org:8443";
})

forwarded_trusted : (forwarded_page true ≡ true) × (forwarded_page false ≡ false)
unfolding csrf_origin_guard starts_with same strip_codes is_space join split after_last text_or
    truthy lookup
forwarded_trusted = (refl, refl)
