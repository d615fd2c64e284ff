-- ===== src/Nodes.antt =====
-- app/nodes.py: which process serves which user, the secrets between the panel and its nodes, and the
-- push of users to the nodes. The HTTP call of `sync_node` and the hash of a payload are parameters.
pub mod Placement
use Prim.Native.Char.{code}
use Prim.Native.String
use testuder.Prelude.{
  ◌≡◌, ◌≢◌, ◌↔◌, ◌⊎◌, inl, inr, ℕ, zero, suc, ◌+◌, ◌-◌, ◌*◌, ◌/◌, ◌%◌, ◌≤◌, ◌<◌, String, refl, sym,
  ap, Bool, true, false, ◌&&◌, ◌||◌, not, Option, none, some, List, [], ◌∷◌, ◌++◌, map, arith, ◌==◌,
  eq_iff, eq_refl, ltb, leb, eqb, if◌then◌else◌, Bool-cases, Option-cases, &&-split, length, take,
  any, all, filter, find?, All, any-append, all-append, find?-sound, any-filter, All-append,
  All-filter, All-map, All-of_forall, All-mono, any-map, length-map, lower, truncate, strip, one_of,
  or_else, one_of-elim, coerce_to, lookup, insert, remove, lookup-insert, lookup-remove,
  lookup-insert_self, append, coerce_to-all, min, max, subst, ◌∙◌,
}
use testuder.Prelude.Int.{ℤ, pos, negsuc}
use testuder.User.{User}
use testuder.Config.{Env}
use testuder.Value.{show}
use testuder.Db.{Db, Node, get_meta, set_meta}
use testuder.Db.Users.{list_users}
use testuder.Db.Nodes.{list_nodes, get_node_by_token}

-- `user_node_id(u)` of a row: the column is an INTEGER.
abbrev pub user_node_id : User → ℤ
user_node_id u = u.node_id

-- `user_node_id(u) == id`
abbrev pub is_id : ℤ → ℕ → Bool
is_id (pos n) id = eqb n id
is_id (negsuc n) id = false

abbrev pub assigned : ℕ → User → Bool
assigned id u = is_id (user_node_id u) id

-- `has_remote`
unfoldable pub has_remote : Db → Bool
has_remote d = any (list_nodes d) (λ n. not n.is_local && n.enabled && not (strip n.address == ""))

-- `served(u)`
unfoldable pub served_locally : Db → User → Bool
unfolding has_remote
served_locally d u =
    any (list_nodes d) (λ n. n.is_local && assigned n.id u) || (assigned 0 u && not (has_remote d))

unfoldable pub local_users : Env → Db → List User
unfolding served_locally
local_users env d = if env.is_node then list_users d else filter (served_locally d) (list_users d)

-- `_matches(a, b)`
unfoldable pub matches : String → String → Bool
matches a b = not (b == "") && (a == b)

unfoldable pub secret_valid_for_node : Env → String → Bool
unfolding matches
secret_valid_for_node env secret = matches secret env.node_secret || matches secret env.node_token

is_some : Option Node → Bool
is_some none = false
is_some (some n) = true

unfoldable pub secret_valid_for_main : Env → Db → String → Bool
unfolding matches is_some
secret_valid_for_main env d secret =
    matches secret env.node_secret || is_some (get_node_by_token secret d)

-- `a <= b` on texts
text_leb : String → String → Bool
text_leb String.[] t = true
text_leb (String.◌∷◌ c s) String.[] = false
text_leb (String.◌∷◌ c s) (String.◌∷◌ e t) =
    let rest = text_leb s t in if eqb (code c) (code e) then rest else ltb (code c) (code e)

insert_uid : User → List User → List User
insert_uid u [] = u ∷ []
insert_uid u (v ∷ us) =
    let rest = insert_uid u us in if text_leb u.uid v.uid then u ∷ v ∷ us else v ∷ rest

-- `sorted(…, key=lambda x: x["uid"])`
sort_uids : List User → List User
unfolding insert_uid text_leb
sort_uids [] = []
sort_uids (u ∷ us) = insert_uid u (sort_uids us)

-- the users that a node is sent
unfoldable pub pushed : Node → User → Bool
pushed n u = assigned n.id u || assigned 0 u

unfoldable pub node_users : Node → Db → List User
unfolding sort_uids pushed
node_users n d = sort_uids (filter (pushed n) (list_users d))

-- the nodes that a push skips
unfoldable pub skipped : Env → Node → Bool
skipped env n = n.is_local || not n.enabled || ((n.token == "") && (env.node_secret == ""))

module _ (payload_hash : List User → String) (sync_node : Node → List User → Bool) where
  hash_key : Node → String
  hash_key n = append "node_sync_hash:" (show n.id)

  same : Option String → String → Bool
  same none h = false
  same (some k) h = k == h

  -- one node of the loop: its result, and the hash remembered on success
  sync_one : Node → Db → Bool × Db
  unfolding hash_key same
  sync_one n d =
      let us = node_users n d in
      let h = payload_hash us in
      if same (get_meta (hash_key n) d) h
      then (true, d)
      else if sync_node n us
      then (true, set_meta (hash_key n) h d)
      else (false, d)

  sync_each : Env → List Node → Db → List (String × Bool) × Db
  unfolding sync_one
  sync_each env [] d = ([], d)
  sync_each env (n ∷ ns) d =
      let (r, d1) = sync_one n d in
      let (rest, d2) = sync_each env ns d1 in
      let (rest', d2') = sync_each env ns d in
      if skipped env n then (rest', d2') else ((n.name, r) ∷ rest, d2)

  -- `sync_all()`, the results in the order of the nodes
  unfoldable pub sync_all : Env → Db → List (String × Bool) × Db
  unfolding sync_each
  sync_all env d = sync_each env (list_nodes d) d
