-- ===== src/Tasks/Expiry.antt =====
-- The expiry enforcement of `_housekeeping`, exactly.
use mathlib.Core.Option
use testuder.Prelude.{
  ◌≡◌, inl, inr, ℕ, String, refl, Bool, ◌&&◌, some, List, [], ◌∷◌, arith, if◌then◌else◌, Bool-cases,
  Option-cases, any, append, ◌∙◌,
}
use testuder.User.{User, due}
use testuder.Db.{Db, Node}
use testuder.Db.Users.{get_user, list_users, disable_user}
use testuder.Db.Users.Laws.{get_user-add_event, disabled, get_user-disable_user}
use testuder.Db.Users.Unique.{UniqueUids, matches, any-list_users, any-matches}
use testuder.Db.Nodes.{list_nodes, touch_node}
use testuder.Tasks.{expire_one, expire_each, touch_locals, housekeeping}

abbrev pub has_run_out : ℕ → User → Bool
has_run_out now u = u.enabled && due u.expire_at now

abbrev pub expired_row : ℕ → User → User
expired_row now u = if has_run_out now u then disabled u else u

get_user-expire_one :
    (now : ℕ) (k : String) (u : User) (d : Db)
    → get_user k (expire_one now u d)
      ≡ (if matches k (has_run_out now) u then Option.map disabled (get_user k d) else get_user k d)
unfolding expire_one
get_user-expire_one now k u d = elim (Bool-cases (has_run_out now u)) [
  | inl e ↦ rw e (
      get_user-add_event k now "warn" "auto-disable" (append "expired: " u.uid) ""
        (disable_user u.uid d)
      ∙ ground (arith, get_user-disable_user k u.uid d))
  | inr e ↦ ground arith
]

get_user-expire_each :
    (now : ℕ) (k : String) (us : List User) (d : Db)
    → get_user k (expire_each now us d) ≡ (
        if any us (matches k (has_run_out now))
        then Option.map disabled (get_user k d)
        else get_user k d)
unfolding expire_each
get_user-expire_each now k [] d = refl
get_user-expire_each now k (u ∷ us) d = elim (Option-cases (get_user k d)) [
  | inl e ↦
      ground
        (arith, get_user-expire_one now k u d, get_user-expire_each now k us (expire_one now u d))
  | inr (v, e) ↦
      ground
        (arith, get_user-expire_one now k u d, get_user-expire_each now k us (expire_one now u d))
]

get_user-touch_locals :
    (now : ℕ) (k : String) (ns : List Node) (d : Db)
    → get_user k (touch_locals now ns d) ≡ get_user k d
unfolding touch_locals touch_node get_user
get_user-touch_locals now k [] d = refl
get_user-touch_locals now k (n ∷ ns) d =
    ground (arith, get_user-touch_locals now k ns (if n.is_local then touch_node now n.id d else d))

-- With unique uids, a round of `_housekeeping` disables exactly the enabled users whose expiry is set
-- and reached, and leaves every other column of every user as it was.
pub housekeeping-expires :
    (now : ℕ) (d : Db) (k : String)
    → UniqueUids d.users
    → get_user k (housekeeping now d) ≡ Option.map (expired_row now) (get_user k d)
unfolding housekeeping
housekeeping-expires now d k unique = elim (Option-cases (get_user k d)) [
  | inl e ↦ ground (
    arith,
    get_user-touch_locals now k (list_nodes (expire_each now (list_users d) d))
        (expire_each now (list_users d) d),
    get_user-expire_each now k (list_users d) d,
  )
  | inr (u, e) ↦ ground (
    arith,
    get_user-touch_locals now k (list_nodes (expire_each now (list_users d) d))
        (expire_each now (list_users d) d),
    get_user-expire_each now k (list_users d) d,
    any-list_users d (matches k (has_run_out now)),
    scan u e,
  )
]
  where
    scan :
        (u : User)
        → get_user k d ≡ some u
        → any d.users (matches k (has_run_out now)) ≡ has_run_out now u
    scan u e = unfold get_user in ground (arith, any-matches k (has_run_out now) d.users unique)
