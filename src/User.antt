-- ===== src/User.antt =====
-- A row of the table `users` (app/db.py), what an update may write to it, and what the panel reads
-- off it: app/main.py `_user_status`, app/nodes.py `user_node_id`, app/db.py `coerce_node_id`.
-- Times are whole seconds. A quota below 0 acts as no quota, and is 0 here.
use testuder.Prelude.{
  ℕ, ◌+◌, ◌-◌, ◌/◌, String, Bool, false, ◌&&◌, not, Option, none, some, List, [], ◌∷◌, ◌==◌, ltb,
  leb, eqb, if◌then◌else◌,
}
use testuder.Prelude.Int.{ℤ, pos}
use testuder.Value.{Value, null, text, to_int}

pub record User : Type 0 where
  pub id : ℕ
  pub uid : String
  pub uuid : String
  pub name : String
  pub note : String
  pub enabled : Bool
  pub protocol : String
  pub transport : String
  pub security : String
  pub fingerprint : String
  pub alpn : String
  pub public_key : String
  pub short_id : String
  pub spider_x : String
  pub max_devices : ℕ
  pub first_device_uid : String
  pub allowed_ips : List String
  pub quota_bytes : ℕ
  pub expire_at : Option ℕ
  pub created_at : ℕ
  pub used_up : ℕ
  pub used_down : ℕ
  pub request_count : ℕ
  pub max_requests : ℕ
  pub node_id : ℤ
  pub avatar : String
  pub ss_method : String
  pub wg_ip : String
  pub wg_priv : String
  pub wg_pub : String
  pub last_seen : Option ℕ

-- One entry of the `fields` of `update_user`: a column of its allowlist with a value of the column's
-- type, or a key that is not on the list.
pub data Field : Type 0 where
  enabled : Bool → Field
  name note protocol transport security fingerprint alpn public_key short_id : String → Field
  spider_x first_device_uid avatar uuid ss_method wg_ip wg_priv wg_pub : String → Field
  max_devices quota_bytes max_requests : ℕ → Field
  expire_at : Option ℕ → Field
  node_id : ℤ → Field
  allowed_ips : List String → Field
  skipped : String → Field

-- `SET column = ?`
unfoldable pub set_field : Field → User → User
set_field (Field.enabled v) u = record u { enabled = v }
set_field (Field.name v) u = record u { name = v }
set_field (Field.note v) u = record u { note = v }
set_field (Field.protocol v) u = record u { protocol = v }
set_field (Field.transport v) u = record u { transport = v }
set_field (Field.security v) u = record u { security = v }
set_field (Field.fingerprint v) u = record u { fingerprint = v }
set_field (Field.alpn v) u = record u { alpn = v }
set_field (Field.public_key v) u = record u { public_key = v }
set_field (Field.short_id v) u = record u { short_id = v }
set_field (Field.spider_x v) u = record u { spider_x = v }
set_field (Field.first_device_uid v) u = record u { first_device_uid = v }
set_field (Field.avatar v) u = record u { avatar = v }
set_field (Field.uuid v) u = record u { uuid = v }
set_field (Field.ss_method v) u = record u { ss_method = v }
set_field (Field.wg_ip v) u = record u { wg_ip = v }
set_field (Field.wg_priv v) u = record u { wg_priv = v }
set_field (Field.wg_pub v) u = record u { wg_pub = v }
set_field (Field.max_devices v) u = record u { max_devices = v }
set_field (Field.quota_bytes v) u = record u { quota_bytes = v }
set_field (Field.max_requests v) u = record u { max_requests = v }
set_field (Field.expire_at v) u = record u { expire_at = v }
set_field (Field.node_id v) u = record u { node_id = v }
set_field (Field.allowed_ips v) u = record u { allowed_ips = v }
set_field (Field.skipped _) u = u

unfoldable pub set_fields : List Field → User → User
set_fields [] u = u
set_fields (f ∷ fs) u = set_fields fs (set_field f u)

-- `coerce_node_id(v)`, and `user_node_id` of a row: absent and empty mean the local node, 1.
or_one : Option ℤ → ℤ
or_one none = pos 1
or_one (some n) = n

unfoldable pub coerce_node_id : Value → ℤ
unfolding or_one
coerce_node_id null = pos 1
coerce_node_id (text s) = if s == "" then pos 1 else or_one (to_int (text s))
coerce_node_id v = or_one (to_int v)

-- `bool(u["expire_at"]) and now >= u["expire_at"]`
unfoldable pub due : Option ℕ → ℕ → Bool
due none now = false
due (some t) now = not (eqb t 0) && leb t now

pub record Status : Type 0 where
  pub used : ℕ
  pub quota_bytes : ℕ
  pub quota_exceeded : Bool
  pub expired : Bool
  pub live_enabled : Bool
  pub days_left : Option ℕ

unfoldable pub used : User → ℕ
used u = u.used_up + u.used_down

-- `quota > 0 and used >= quota`
unfoldable pub over_quota : User → Bool
unfolding used
over_quota u = ltb 0 u.quota_bytes && leb u.quota_bytes (used u)

-- `max(0, int((expire_at - now) // 86400))`: the difference stops at 0 before the division does.
unfoldable pub days_left : Option ℕ → ℕ → Option ℕ
days_left none now = none
days_left (some t) now = if eqb t 0 then none else some ((t - now) / 86400)

-- `_user_status(u)`, without the count of live connections
unfoldable pub user_status : ℕ → User → Status
unfolding used over_quota due days_left
user_status now u = record {
  used = used u;
  quota_bytes = u.quota_bytes;
  quota_exceeded = over_quota u;
  expired = due u.expire_at now;
  live_enabled = u.enabled && not (over_quota u) && not (due u.expire_at now);
  days_left = days_left u.expire_at now;
}
