-- ===== src/Handlers/NodeSync.antt =====
-- app/main.py `api_node_sync`, on a node: the users that the panel pushes replace the node's own.
pub mod Reconcile
use testuder.Prelude.{
  ◌≡◌, ◌≢◌, ◌↔◌, ◌⊎◌, inl, inr, ℕ, zero, suc, ◌+◌, ◌-◌, ◌*◌, ◌/◌, ◌%◌, ◌≤◌, ◌<◌, String, refl, sym,
  ap, Bool, true, false, ◌&&◌, ◌||◌, not, Option, none, some, List, [], ◌∷◌, ◌++◌, map, arith, ◌==◌,
  eq_iff, eq_refl, ltb, leb, eqb, if◌then◌else◌, Bool-cases, Option-cases, &&-split, length, take,
  drop, any, all, filter, find?, All, any-append, all-append, find?-sound, any-filter, All-append,
  All-filter, All-map, All-of_forall, All-mono, any-map, length-map, lower, truncate, strip, one_of,
  or_else, one_of-elim, coerce_to, lookup, insert, remove, lookup-insert, lookup-remove,
  lookup-insert_self, append, coerce_to-all, min, max, subst, ◌∙◌,
}
use testuder.Prelude.Int.{ℤ, pos}
use testuder.User.{User, Field, set_fields}
use testuder.Config.{Env}
use testuder.Db.{Db}
use testuder.Db.Users.{get_user, list_users, create_user, update_user, delete_user}
use testuder.Nodes.{secret_valid_for_node}
use testuder.Reality.{apply_reality_config}
use testuder.Panel.{Panel, Job, Error, Result, Action, ok, err, http, integrity, reload}

-- One element of `users`: its uid as sent, its uuid, and the other `SYNC_FIELDS` that are not null.
pub record Entry : Type 0 where
  pub uid : String
  pub uuid : String
  pub fields : List Field

-- the `reality` object of the payload; an absent one has no `priv`
pub record RealityData : Type 0 where
  pub priv : String
  pub key : String
  pub sid : String

-- The row of `create_user` before its fields: the defaults of the module.
abbrev pub default_row : String → String → ℕ → User
default_row uid uuid now = record {
  id = 0;
  uid = uid;
  uuid = uuid;
  name = "User";
  note = "";
  enabled = true;
  protocol = "vless";
  transport = "ws";
  security = "tls";
  fingerprint = "chrome";
  alpn = "http/1.1";
  public_key = "";
  short_id = "";
  spider_x = "";
  max_devices = 0;
  first_device_uid = "";
  allowed_ips = [];
  quota_bytes = 0;
  expire_at = none;
  created_at = now;
  used_up = 0;
  used_down = 0;
  request_count = 0;
  max_requests = 0;
  node_id = pos 1;
  avatar = "";
  ss_method = "2022-blake3-aes-128-gcm";
  wg_ip = "";
  wg_priv = "";
  wg_pub = "";
  last_seen = none;
}

-- The loop skips an entry without uid or uuid.
abbrev pub usable : Entry → Bool
usable e = not (strip e.uid == "") && not (e.uuid == "")

unfoldable pub known : Option User → Bool
known none = false
known (some u) = true

-- the body of the first loop for a usable entry; `none` is an IntegrityError
unfoldable pub put_entry : ℕ → Entry → Db → Option Db
unfolding known
put_entry now e d =
    if known (get_user (strip e.uid) d)
    then update_user (strip e.uid) (e.fields ++ Field.uuid e.uuid ∷ []) d
    else create_user (set_fields e.fields (default_row (strip e.uid) e.uuid now)) d

or_keep : Option Db → Db → Bool × Db
or_keep none d = (false, d)
or_keep (some d') d = (true, d')

-- the first loop: whether it came to its end, and the database
unfoldable pub put_all : ℕ → List Entry → Db → Bool × Db
unfolding or_keep
put_all now [] d = (true, d)
put_all now (e ∷ es) d =
    let (fine, d1) = or_keep (put_entry now e d) d in
    let rest = put_all now es d1 in
    let skip = put_all now es d in if usable e then if fine then rest else (false, d) else skip

-- `uid in seen`
abbrev pub seen : String → List Entry → Bool
seen k es = any es (λ e. usable e && (strip e.uid == k))

-- the second loop
unfoldable pub drop_unseen : List Entry → List User → Db → Db
drop_unseen es [] d = d
drop_unseen es (u ∷ us) d = drop_unseen es us (if seen u.uid es then d else (delete_user u.uid d).1)

unfoldable pub forget_unseen :
    List Entry → List User → List (String × List String) → List (String × List String)
forget_unseen es [] m = m
forget_unseen es (u ∷ us) m = forget_unseen es us (if seen u.uid es then m else remove u.uid m)

unfoldable pub reconcile : List Entry → Db → Db
reconcile es d = drop_unseen es (list_users d) d

-- `api_node_sync`
unfoldable pub node_sync : Env → ℕ → String → RealityData → List Entry → Action (Unit {0})
node_sync env now secret r es p =
    if not (secret_valid_for_node env secret)
    then (err (http 401 "bad-secret"), p)
    else let (fine, d) = put_all now es (apply_reality_config env r.priv r.key r.sid p.db) in
      if not fine then (err integrity, record p { db = d }) else (
        ok tt,
        record p {
          db = reconcile es d;
          active = forget_unseen es (list_users d) p.active;
          jobs = p.jobs ++ reload ∷ [];
        },
      )
