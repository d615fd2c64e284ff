-- ===== src/Tasks/Rows.antt =====
-- What one round of the loops does to the row of one user: the statements of `flush_one` and
-- `expire_one` as a change of that row alone.
use mathlib.Core.Option
use testuder.Prelude.{
  ◌≡◌, inl, inr, ℕ, ◌+◌, String, refl, Bool, false, some, List, [], ◌∷◌, arith, ◌==◌, eq_iff,
  if◌then◌else◌, Bool-cases, Option-cases, append,
}
use testuder.User.{User, over_quota}
use testuder.Config.{Env}
use testuder.Db.{Db}
use testuder.Db.Users.{get_user, disable_user, add_user_usage, touch_last_seen}
use testuder.Db.Users.Laws.{get_user-add_event, disabled, find-update_where, get_user-disable_user}
use testuder.Tasks.{Delta, State, check_quota, flush_one, flush_each}

-- The row after a delta of its user is booked.
abbrev pub booked : ℕ → Delta → User → User
booked now x u = record u {
  used_up = u.used_up + x.up;
  used_down = u.used_down + x.down;
  last_seen = some now;
}

-- On the main panel the quota is checked as well.
abbrev pub enforced : Bool → User → User
enforced is_node u = if is_node then u else if over_quota u then disabled u else u

unfoldable pub row_one : Env → ℕ → String → Delta → User → User
row_one env now k x u = if x.uid == k then enforced env.is_node (booked now x u) else u

unfoldable pub row_each : Env → ℕ → String → List Delta → User → User
row_each env now k [] u = u
row_each env now k (x ∷ xs) u = row_each env now k xs (row_one env now k x u)

get_user-book :
    (k : String) (now : ℕ) (x : Delta) (d : Db)
    → get_user k (touch_last_seen x.uid now (add_user_usage x.uid x.up x.down d))
      ≡ (if x.uid == k then Option.map (booked now x) (get_user k d) else get_user k d)
unfolding get_user touch_last_seen add_user_usage
get_user-book k now x d = ground (
  arith,
  find-update_where k x.uid (λ u. record u { last_seen = some now }) (λ u. refl)
      (add_user_usage x.uid x.up x.down d).users,
  find-update_where k x.uid
      (λ u. record u { used_up = u.used_up + x.up; used_down = u.used_down + x.down }) (λ u. refl)
      d.users,
)

get_user-check_quota :
    (k j : String) (now : ℕ) (d : Db)
    → get_user k (check_quota now j d)
      ≡ (if j == k then Option.map (enforced false) (get_user k d) else get_user k d)
unfolding check_quota
get_user-check_quota k j now d = elim (Option-cases (get_user j d)) [
  | inl e ↦ ground (arith, eq_iff j k)
  | inr (u, e) ↦ elim (Bool-cases (over_quota u)) [
    | inl over ↦ ground (
      arith,
      eq_iff j k,
      get_user-disable_user k j d,
      get_user-add_event k now "warn" "auto-disable" (append "quota reached: " j) ""
          (disable_user j d),
    )
    | inr under ↦ ground (arith, eq_iff j k)
  ]
]

pub get_user-flush_one :
    (env : Env) (now : ℕ) (k : String) (x : Delta) (s : State)
    → get_user k (flush_one env now x s).db ≡ Option.map (row_one env now k x) (get_user k s.db)
unfolding flush_one row_one
get_user-flush_one env now k x s = elim (Option-cases (get_user k s.db)) [
  | inl e ↦ ground (
    arith,
    get_user-book k now x s.db,
    get_user-check_quota k x.uid now
        (touch_last_seen x.uid now (add_user_usage x.uid x.up x.down s.db)),
  )
  | inr (u, e) ↦ ground (
    arith,
    get_user-book k now x s.db,
    get_user-check_quota k x.uid now
        (touch_last_seen x.uid now (add_user_usage x.uid x.up x.down s.db)),
  )
]

pub get_user-flush_each :
    (env : Env) (now : ℕ) (k : String) (xs : List Delta) (s : State)
    → get_user k (flush_each env now xs s).db ≡ Option.map (row_each env now k xs) (get_user k s.db)
unfolding flush_each row_each
get_user-flush_each env now k [] s = elim (Option-cases (get_user k s.db)) [
  | inl e ↦ rw e
  | inr (u, e) ↦ rw e
]
get_user-flush_each env now k (x ∷ xs) s = elim (Option-cases (get_user k s.db)) [
  | inl e ↦ ground (
    arith,
    get_user-flush_one env now k x s,
    get_user-flush_each env now k xs (flush_one env now x s),
  )
  | inr (u, e) ↦ ground (
    arith,
    get_user-flush_one env now k x s,
    get_user-flush_each env now k xs (flush_one env now x s),
  )
]
