-- ===== src/Handlers/NodeUsage.antt =====
-- app/main.py `api_node_usage`, on the main panel: the usage that a node reports is added up.
use testuder.Prelude.{ℕ, ◌+◌, String, ◌&&◌, not, List, [], ◌∷◌, eqb, if◌then◌else◌}
pub mod Merge
use testuder.Prelude.Int.{ℤ, pos, negsuc}
use testuder.Config.{Env}
use testuder.Db.{Db}
use testuder.Db.Users.{add_user_usage, touch_last_seen}
use testuder.Nodes.{secret_valid_for_main}
use testuder.Panel.{Action, ok, err, http}

-- One item of `usage`: the numbers of its `up` and `down`, an absent one being 0.
pub record Report : Type 0 where
  pub uid : String
  pub up : ℤ
  pub down : ℤ

-- `max(0, n)`
abbrev pub at_least_0 : ℤ → ℕ
at_least_0 (pos n) = n
at_least_0 (negsuc n) = 0

unfoldable pub merge_one : ℕ → Report → Db → Db
merge_one now r d =
    let up = at_least_0 r.up in
    let down = at_least_0 r.down in
    if eqb up 0 && eqb down 0 then d else touch_last_seen r.uid now (add_user_usage r.uid up down d)

unfoldable pub merge_each : ℕ → List Report → Db → Db
merge_each now [] d = d
merge_each now (r ∷ rs) d = merge_each now rs (merge_one now r d)

count_merged : List Report → ℕ
count_merged [] = 0
count_merged (r ∷ rs) =
    (if eqb (at_least_0 r.up) 0 && eqb (at_least_0 r.down) 0 then 0 else 1) + count_merged rs

-- `api_node_usage`: the number of reports that are merged
unfoldable pub node_usage : Env → ℕ → String → List Report → Action ℕ
unfolding count_merged
node_usage env now secret rs p =
    if not (secret_valid_for_main env p.db secret)
    then (err (http 401 "bad-secret"), p)
    else (ok (count_merged rs), record p { db = merge_each now rs p.db })
