-- ===== src/Handlers/Users.antt =====
-- app/main.py, the handlers under /api/users that change the table. A body is a record of its keys,
-- decoded; an absent text is "" where the code treats both alike. Quotas arrive as bytes, avatars as
-- `_sanitize_avatar_key` leaves them. Fresh ids and key pairs are arguments.
pub mod Served
pub mod Toggle
pub mod Patched
use testuder.Prelude.{
  ◌≡◌, ◌≢◌, ◌↔◌, ◌⊎◌, inl, inr, ℕ, zero, suc, ◌+◌, ◌-◌, ◌*◌, ◌/◌, ◌%◌, ◌≤◌, ◌<◌, String, refl, sym,
  ap, Bool, true, false, ◌&&◌, ◌||◌, not, Option, none, some, List, [], ◌∷◌, ◌++◌, map, arith, ◌==◌,
  eq_iff, eq_refl, ltb, leb, eqb, if◌then◌else◌, Bool-cases, Option-cases, &&-split, length, take,
  drop, any, all, filter, find?, All, any-append, all-append, find?-sound, any-filter, All-append,
  All-filter, All-map, All-of_forall, All-mono, any-map, length-map, lower, truncate, strip, one_of,
  or_else, one_of-elim, coerce_to, lookup, insert, remove, lookup-insert, lookup-remove,
  lookup-insert_self, append, coerce_to-all, min, max, subst, ◌∙◌, append-nil, append_assoc, upper,
  length-append,
}
use testuder.Prelude.Int.{ℤ, pos, negsuc}
use testuder.Value.{Value, text, to_text}
use testuder.User.{User, Field, coerce_node_id}
use testuder.Config.{Env, ss_methods, valid_protocols, valid_fingerprints, valid_alpns}
use testuder.Settings.{Settings, get_settings, text_or, get_or}
use testuder.Protocol.{normalize_protocol_fields}
use testuder.Db.{Db}
use testuder.Db.Users.{get_user, create_user, update_user, delete_user, reset_user_usage}
use testuder.Db.Events.{add_event}
use testuder.Wg.{Subnet, ensure_user_keys}
use testuder.Panel.{Panel, Job, Error, Result, Action, ok, err, http, integrity, reload, node_sync}

-- `_expire_from_days(days)`
unfoldable pub expire_from_days : ℕ → ℤ → Option ℕ
expire_from_days now (pos n) = if eqb n 0 then none else some (now + n * 86400)
expire_from_days now (negsuc n) = none

-- the body of `POST /api/users`
pub record NewUser : Type 0 where
  pub name : String
  pub note : String
  pub protocol : Option String
  pub transport : String
  pub security : String
  pub fingerprint : String
  pub alpn : Option String
  pub public_key : String
  pub short_id : String
  pub spider_x : String
  pub max_devices : ℕ
  pub allowed_ips : List String
  pub quota_bytes : ℕ
  pub expire_days : ℤ
  pub max_requests : ℕ
  pub node_id : Value
  pub avatar : String
  pub ss_method : String

abbrev pub or_text : Option String → String → String
or_text none d = d
or_text (some v) d = v

-- `data` of `api_create_user`
unfoldable pub new_row : Env → Settings → ℕ → String → String → NewUser → User
new_row env s now uid uuid n =
    let protocol = or_text n.protocol "vless" in
    let fields =
      normalize_protocol_fields protocol (or_else n.transport (text_or "default_transport" "ws" s))
        n.security in
    record {
      id = 0;
      uid = uid;
      uuid = uuid;
      name = truncate 64 (strip (or_else n.name "User"));
      note = truncate 200 n.note;
      enabled = true;
      protocol = protocol;
      transport = fields.0;
      security = fields.1;
      fingerprint =
          coerce_to (or_else n.fingerprint (text_or "default_fingerprint" "chrome" s))
            valid_fingerprints "chrome";
      alpn =
          coerce_to (or_text n.alpn (to_text (get_or "default_alpn" (text "http/1.1") s)))
            valid_alpns "http/1.1";
      public_key = n.public_key;
      short_id = n.short_id;
      spider_x = n.spider_x;
      max_devices = n.max_devices;
      first_device_uid = "";
      allowed_ips = n.allowed_ips;
      quota_bytes = n.quota_bytes;
      expire_at = expire_from_days now n.expire_days;
      created_at = now;
      used_up = 0;
      used_down = 0;
      request_count = 0;
      max_requests = n.max_requests;
      node_id = coerce_node_id n.node_id;
      avatar = n.avatar;
      ss_method =
          coerce_to (or_else n.ss_method (text_or "ss_method" env.default_ss_method s)) ss_methods
            env.default_ss_method;
      wg_ip = "";
      wg_priv = "";
      wg_pub = "";
      last_seen = none;
    }

-- `_reload_xray(); _trigger_node_sync(); add_event(…)`
unfoldable pub announce : ℕ → String → String → String → String → Panel → Panel
announce now level action detail ip p = record p {
  db = add_event now level action detail ip p.db;
  jobs = p.jobs ++ reload ∷ node_sync ∷ [];
}

-- `if protocol == "wireguard": wg.ensure_user_keys(user)`
unfoldable pub keyed : Subnet → String × String → Option User → Db → Db
keyed net pair none d = d
keyed net pair (some u) d = if u.protocol == "wireguard" then ensure_user_keys net pair u d else d

-- what `api_create_user` does after its checks
unfoldable pub create_row : Subnet → String × String → User → Db → Option Db
unfolding keyed
create_row net pair u d = elim (create_user u d) [
  | none ↦ none
  | some d' ↦ some (keyed net pair (get_user u.uid d') d')
]

-- `api_create_user`
unfoldable pub api_create_user :
    Env → ℕ → String → String → String → Subnet → String × String → NewUser → Action (Unit {0})
unfolding announce
api_create_user env now ip uid uuid net pair n p =
    let u = new_row env (get_settings p.db) now uid uuid n in
    if not (one_of u.protocol valid_protocols)
    then (err (http 400 "invalid-protocol"), p)
    else elim (create_row net pair u p.db) [
      | none ↦ (err integrity, p)
      | some d ↦ (
        ok tt,
        announce now "info" "user-create" (append u.name (append " (" (append u.protocol ")"))) ip
            (record p { db = d }),
      )
    ]

-- the body of `PATCH /api/users/{uid}`: the keys that the handler looks into, and `rest`, the others
-- of its list
pub record Patch : Type 0 where
  pub protocol : Option String
  pub transport : Option String
  pub security : Option String
  pub fingerprint : Option String
  pub alpn : Option String
  pub ss_method : Option String
  pub node_id : Option Value
  pub quota_bytes : Option ℕ
  pub expire_days : Option ℤ
  pub rest : List Field

unfoldable pub field : {A : Type 0} → (A → Field) → Option A → List Field
field f none = []
field f (some v) = f v ∷ []

unfoldable pub given : Option String → Bool
given none = false
given (some v) = true

coerced : List String → String → Option String → Option String
coerced ys d none = none
coerced ys d (some v) = some (coerce_to v ys d)

placed : Option Value → Option ℤ
placed none = none
placed (some v) = some (coerce_node_id v)

expiring : ℕ → Option ℤ → Option (Option ℕ)
expiring now none = none
expiring now (some n) = some (expire_from_days now n)

unfoldable pub pair_fields : String × String → List Field
pair_fields (t, s) = Field.transport t ∷ Field.security s ∷ []

-- `transport` and `security` of `fields`
unfoldable pub transport_fields : String → User → Patch → List Field
unfolding given pair_fields
transport_fields proto u c =
    if given c.transport || given c.security || (proto == "hysteria2") || (proto == "wireguard")
    then pair_fields (
        normalize_protocol_fields proto (or_text c.transport u.transport)
          (or_text c.security u.security))
    else []

-- `fields` of `api_update_user` but for the transport, the security and the protocol
unfoldable pub other_fields : Env → ℕ → Patch → List Field
unfolding field coerced placed expiring
other_fields env now c =
    c.rest
    ++ (field Field.ss_method (coerced ss_methods env.default_ss_method c.ss_method)
        ++ (field Field.fingerprint (coerced valid_fingerprints "chrome" c.fingerprint)
            ++ (field Field.alpn (coerced valid_alpns "http/1.1" c.alpn)
                ++ (field Field.node_id (placed c.node_id)
                    ++ (field Field.quota_bytes c.quota_bytes
                        ++ field Field.expire_at (expiring now c.expire_days))))))

unfoldable pub patch_fields : Env → ℕ → User → Patch → List Field
unfolding field
patch_fields env now u c =
    other_fields env now c
    ++ (field Field.protocol c.protocol ++ transport_fields (or_text c.protocol u.protocol) u c)

-- `api_update_user`
unfoldable pub api_update_user :
    Env → ℕ → String → String → Subnet → String × String → Patch → Action (Unit {0})
unfolding announce keyed
api_update_user env now ip uid net pair c p = elim (get_user uid p.db) [
  | none ↦ (err (http 404 "not-found"), p)
  | some u ↦
      if not (one_of (or_text c.protocol u.protocol) valid_protocols)
      then (err (http 400 "invalid-protocol"), p)
      else elim (update_user uid (patch_fields env now u c) p.db) [
        | none ↦ (err integrity, p)
        | some d ↦ (
          ok tt,
          announce now "info" "user-update" uid ip
              (record p { db = keyed net pair (get_user uid d) d }),
        )
      ]
]

-- `api_delete_user`
unfoldable pub api_delete_user : ℕ → String → String → Action (Unit {0})
unfolding announce
api_delete_user now ip uid p =
    if not (delete_user uid p.db).0 then (err (http 404 "not-found"), p) else (
      ok tt,
      announce now "warn" "user-delete" uid ip
          (record p { db = (delete_user uid p.db).1; active = remove uid p.active }),
    )

-- `api_reset_user`
unfoldable pub api_reset_user : String → Action (Unit {0})
api_reset_user uid p = elim (get_user uid p.db) [
  | none ↦ (err (http 404 "not-found"), p)
  | some u ↦ (ok tt, record p { db = reset_user_usage uid p.db })
]

-- `api_regenerate`
unfoldable pub api_regenerate : ℕ → String → String → String → Action (Unit {0})
unfolding announce
api_regenerate now ip uid uuid p = elim (get_user uid p.db) [
  | none ↦ (err (http 404 "not-found"), p)
  | some u ↦ elim (update_user uid (Field.uuid uuid ∷ []) p.db) [
    | none ↦ (err integrity, p)
    | some d ↦ (
      ok tt,
      announce now "warn" "uuid-rotate" uid ip (record p { db = d; active = remove uid p.active }),
    )
  ]
]

show_bool : Bool → String
show_bool true = "True"
show_bool false = "False"

-- `update_user(uid, {"enabled": v})`, which no UNIQUE column refuses
set_enabled : String → Bool → Db → Db
set_enabled uid v d = elim (update_user uid (Field.enabled v ∷ []) d) [ none ↦ d | some d' ↦ d' ]

-- `api_toggle`
unfoldable pub api_toggle : ℕ → String → String → Action Bool
unfolding announce set_enabled show_bool
api_toggle now ip uid p = elim (get_user uid p.db) [
  | none ↦ (err (http 404 "not-found"), p)
  | some u ↦ (
    ok (not u.enabled),
    announce now "info" "user-toggle" (append uid (append " -> " (show_bool (not u.enabled)))) ip
        (record p { db = set_enabled uid (not u.enabled) p.db }),
  )
]
