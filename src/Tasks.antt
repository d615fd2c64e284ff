-- ===== src/Tasks.antt =====
-- app/tasks.py: one round of each background loop over the database and the usage that waits to be
-- reported. The sleeps between rounds, and the HTTP calls, are outside: a round takes the time, the
-- traffic deltas of app/xray.py, and whether the report was accepted.
pub mod Rows
pub mod Quota
pub mod Expiry
pub mod Usage
use testuder.Prelude.{
  append, ◌≡◌, ◌≢◌, ◌↔◌, ◌⊎◌, inl, inr, ℕ, zero, suc, ◌+◌, ◌-◌, ◌*◌, ◌/◌, ◌%◌, ◌≤◌, ◌<◌, String,
  refl, sym, ap, Bool, true, false, ◌&&◌, ◌||◌, not, Option, none, some, List, [], ◌∷◌, ◌++◌, map,
  arith, ◌==◌, eq_iff, eq_refl, ltb, leb, eqb, if◌then◌else◌, Bool-cases, Option-cases, &&-split,
  length, take, any, all, filter, find?, All, any-append, all-append, find?-sound, any-filter,
  All-append, All-filter, All-map, All-of_forall, All-mono, any-map, length-map, lower, truncate,
  strip, one_of, or_else, one_of-elim, coerce_to, lookup, insert, remove, lookup-insert,
  lookup-remove, lookup-insert_self,
}
use testuder.User.{User, due, over_quota, used}
use testuder.Config.{Env}
use testuder.Db.{Db, Node}
use testuder.Db.Users.{list_users, get_user, disable_user, add_user_usage, touch_last_seen}
use testuder.Db.Nodes.{list_nodes, touch_node}
use testuder.Db.Events.{add_event}
use testuder.Db.Traffic.{add_traffic}

-- the traffic of one user
pub record Delta : Type 0 where
  pub uid : String
  pub up : ℕ
  pub down : ℕ

pub record State : Type 0 where
  pub db : Db
  -- `_pending_usage`
  pub pending : List (String × (ℕ × ℕ))
  -- `state.LAST_TRAFFIC`
  pub last_traffic : List (String × ℕ)

-- `_check_quota(uid)`
disable_if : Bool → ℕ → String → Db → Db
disable_if b now uid d =
    if b
    then add_event now "warn" "auto-disable" (append "quota reached: " uid) "" (disable_user uid d)
    else d

check_row : Option User → ℕ → String → Db → Db
unfolding disable_if
check_row none now uid d = d
check_row (some u) now uid d = disable_if (over_quota u) now uid d

unfoldable pub check_quota : ℕ → String → Db → Db
unfolding check_row
check_quota now uid d = check_row (get_user uid d) now uid d

-- `p = _pending_usage.setdefault(uid, …); p["up"] += up; p["down"] += down`
add_pair : Option (ℕ × ℕ) → ℕ → ℕ → ℕ × ℕ
add_pair none up down = (up, down)
add_pair (some (u, d)) up down = (u + up, d + down)

unfoldable pub add_pending : Delta → List (String × (ℕ × ℕ)) → List (String × (ℕ × ℕ))
unfolding add_pair
add_pending x m = insert x.uid (add_pair (lookup x.uid m) x.up x.down) m

-- the body of the `for` of `_periodic_flush`
unfoldable pub flush_one : Env → ℕ → Delta → State → State
flush_one env now x s =
    let d = touch_last_seen x.uid now (add_user_usage x.uid x.up x.down s.db) in
    let seen = insert x.uid now s.last_traffic in
    if env.is_node
    then record { db = d; pending = add_pending x s.pending; last_traffic = seen }
    else record s { db = check_quota now x.uid d; last_traffic = seen }

unfoldable pub flush_each : Env → ℕ → List Delta → State → State
flush_each env now [] s = s
flush_each env now (x ∷ xs) s = flush_each env now xs (flush_one env now x s)

abbrev pub total_up : List Delta → ℕ
total_up [] = 0
total_up (x ∷ xs) = x.up + total_up xs

abbrev pub total_down : List Delta → ℕ
total_down [] = 0
total_down (x ∷ xs) = x.down + total_down xs

-- one round of `_periodic_flush`
unfoldable pub flush : Env → ℕ → List Delta → State → State
flush env now [] s = s
flush env now (x ∷ xs) s =
    let s' = flush_each env now (x ∷ xs) s in
    record s' {
      db = add_traffic (now / 3600 * 3600) (total_up (x ∷ xs)) (total_down (x ∷ xs)) s'.db;
    }

-- the first loop of `_housekeeping`, over the rows as they were listed
unfoldable pub expire_one : ℕ → User → Db → Db
expire_one now u d =
    if u.enabled && due u.expire_at now
    then add_event now "warn" "auto-disable" (append "expired: " u.uid) "" (disable_user u.uid d)
    else d

unfoldable pub expire_each : ℕ → List User → Db → Db
expire_each now [] d = d
expire_each now (u ∷ us) d = expire_each now us (expire_one now u d)

touch_locals : ℕ → List Node → Db → Db
touch_locals now [] d = d
touch_locals now (n ∷ ns) d = touch_locals now ns (if n.is_local then touch_node now n.id d else d)

-- one round of `_housekeeping`, without the backup
unfoldable pub housekeeping : ℕ → Db → Db
unfolding touch_locals
housekeeping now d =
    let d' = expire_each now (list_users d) d in touch_locals now (list_nodes d') d'

-- One round of `_report_usage_loop`: the new state, and the snapshot that reached the main panel.
-- `accepted` is the value of `report_usage(snapshot)`, which the loop does not look at.
unfoldable pub report_round : Bool → State → State × List (String × (ℕ × ℕ))
report_round accepted s =
    let snapshot = s.pending in (record s { pending = [] }, if accepted then snapshot else [])
