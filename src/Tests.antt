-- ===== src/Tests.antt =====
-- Sample data, and each property at one concrete input.
mod Services
mod Accounts
mod Formats
use testuder.Prelude.{
  ◌≡◌, ◌≢◌, ◌↔◌, ◌⊎◌, inl, inr, ℕ, zero, suc, ◌+◌, ◌-◌, ◌*◌, ◌/◌, ◌%◌, ◌≤◌, ◌<◌, String, refl, sym,
  ap, Bool, true, false, ◌&&◌, ◌||◌, not, Option, none, some, List, [], ◌∷◌, ◌++◌, map, arith, ◌==◌,
  eq_iff, eq_refl, ltb, leb, eqb, if◌then◌else◌, Bool-cases, Option-cases, &&-split, length, take,
  drop, any, all, filter, find?, All, any-append, all-append, find?-sound, any-filter, All-append,
  All-filter, All-map, All-of_forall, All-mono, any-map, length-map, lower, truncate, strip, one_of,
  or_else, one_of-elim, coerce_to, lookup, insert, remove, lookup-insert, lookup-remove,
  lookup-insert_self, append, coerce_to-all, min, max, subst, ◌∙◌,
}
use testuder.Prelude.Int.{ℤ, pos}
use testuder.User.{User}
use testuder.Config.{Env, default_env}
use testuder.Settings.{Settings}
use testuder.Db.{Db, Node}
use testuder.Panel.{Panel}

abbrev pub user : String → String → String → String → User
user uid protocol transport security = record {
  id = 1;
  uid = uid;
  uuid = append "uuid-" uid;
  name = uid;
  note = "";
  enabled = true;
  protocol = protocol;
  transport = transport;
  security = security;
  fingerprint = "chrome";
  alpn = "http/1.1";
  public_key = "";
  short_id = "";
  spider_x = "";
  max_devices = 0;
  first_device_uid = "";
  allowed_ips = [];
  quota_bytes = 100;
  expire_at = some 500;
  created_at = 10;
  used_up = 20;
  used_down = 30;
  request_count = 0;
  max_requests = 0;
  node_id = pos 1;
  avatar = "";
  ss_method = "";
  wg_ip = "";
  wg_priv = "";
  wg_pub = "";
  last_seen = none;
}

abbrev pub ada : User
ada = user "ada" "vless" "tcp" "reality"

abbrev pub bob : User
bob = record (user "bob" "vmess" "ws" "tls") { enabled = false }

abbrev pub local_node : Node
local_node = record {
  id = 1;
  name = "main";
  address = "";
  city = "";
  country = "";
  country_code = "";
  flag = "";
  token = "";
  wg_pub = "";
  is_local = true;
  enabled = true;
  last_seen = 0;
}

abbrev pub remote_node : Node
remote_node = record local_node {
  id = 2;
  address = "https://node.example";
  token = "t";
  is_local = false;
}

abbrev pub db : Db
db = record {
  meta = ("auth_is_default", "1") ∷ [];
  admin =
      some (record { username = "TiTaN"; password_hash = "salt"; salt = "salt"; created_at = 5 });
  settings = [];
  users = ada ∷ bob ∷ [];
  next_user = 3;
  events = [];
  nodes = local_node ∷ remote_node ∷ [];
  next_node = 3;
  subscriptions = [];
  next_subscription = 1;
  traffic = [];
}

abbrev pub panel : Panel
panel = record { db = db; active = []; jobs = [] }
