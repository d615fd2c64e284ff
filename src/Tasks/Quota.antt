-- ===== src/Tasks/Quota.antt =====
-- The quota enforcement of `_periodic_flush` and `_check_quota`, exactly.
use mathlib.Core.Option
use mathlib.Core.Path.{fun_ext}
use testuder.Tasks.Rows.{enforced, booked}
use testuder.Prelude.{
  ◌≡◌, inl, inr, ℕ, ◌+◌, String, refl, ap, Bool, true, false, ◌&&◌, not, some, List, [], ◌∷◌, arith,
  ◌==◌, if◌then◌else◌, Bool-cases, Option-cases, any, ◌∙◌,
}
use testuder.User.{User, used, over_quota}
use testuder.Config.{Env}
use testuder.Db.Users.{get_user}
use testuder.Db.Traffic.{add_traffic}
use testuder.Tasks.{Delta, State, flush}
use testuder.Tasks.Rows.{row_one, row_each, get_user-flush_each}

abbrev pub names : String → List Delta → Bool
names k xs = any xs (λ x. x.uid == k)

abbrev pub up_for : String → List Delta → ℕ
up_for k [] = 0
up_for k (x ∷ xs) = (if x.uid == k then x.up else 0) + up_for k xs

abbrev pub down_for : String → List Delta → ℕ
down_for k [] = 0
down_for k (x ∷ xs) = (if x.uid == k then x.down else 0) + down_for k xs

-- The row with the usage of a round added.
abbrev pub metered : ℕ → ℕ → ℕ → User → User
metered now up down u = record u {
  used_up = u.used_up + up;
  used_down = u.used_down + down;
  last_seen = some now;
}

-- The quota rule: enabled before, and not at the quota now.
abbrev pub within_quota : User → User → User
within_quota u v = record v { enabled = u.enabled && not (over_quota v) }

-- What a row must be after a round, by whether it had traffic and whether this is a node.
abbrev pub settle : Bool → Bool → ℕ → ℕ → ℕ → User → User
settle false is_node now up down u = u
settle true true now up down u = metered now up down u
settle true false now up down u = within_quota u (metered now up down u)

abbrev pub settled : Env → ℕ → String → List Delta → User → User
settled env now k xs = settle (names k xs) env.is_node now (up_for k xs) (down_for k xs)

-- One step of the induction, on a row to which the first delta belongs.
settle_more :
    (named is_node : Bool) (now up down : ℕ) (x : Delta) (u : User)
    → (named ≡ false → (up ≡ 0) × (down ≡ 0))
    → settle named is_node now up down (enforced is_node (booked now x u))
      ≡ settle true is_node now (x.up + up) (x.down + down) u
unfolding over_quota used
settle_more false true now up down x u h = ground (arith, h refl)
settle_more false false now up down x u h = elim (Bool-cases (over_quota (booked now x u))) [
  | inl over ↦ ground (arith, h refl)
  | inr under ↦ ground (arith, h refl)
]
settle_more true true now up down x u h = ground arith
settle_more true false now up down x u h = elim (Bool-cases (over_quota (booked now x u))) [
  | inl over ↦ ground arith
  | inr under ↦ ground arith
]

silent :
    (k : String) (xs : List Delta) → names k xs ≡ false → (up_for k xs ≡ 0) × (down_for k xs ≡ 0)
silent k [] h = (refl, refl)
silent k (x ∷ xs) h = ground (arith, silent k xs)

row_each-eq-settled :
    (env : Env) (now : ℕ) (k : String) (xs : List Delta) (u : User)
    → row_each env now k xs u ≡ settled env now k xs u
unfolding row_each row_one
row_each-eq-settled env now k [] u = refl
row_each-eq-settled env now k (x ∷ xs) u = elim (Bool-cases (x.uid == k)) [
  | inl e ↦ ground (
    arith,
    row_each-eq-settled env now k xs (enforced env.is_node (booked now x u)),
    settle_more (names k xs) env.is_node now (up_for k xs) (down_for k xs) x u (silent k xs),
  )
  | inr e ↦ ground (arith, row_each-eq-settled env now k xs u)
]

-- After a round of `_periodic_flush`, the row of a user that has traffic in the round is the old row
-- with the deltas of its uid added and `last_seen` set to the time of the round; on the main panel it
-- is enabled only if it was and its new usage is below its quota. Every other column of it is as it
-- was, and so is the whole row of a user without traffic in the round, whatever its quota.
pub flush-settles :
    (env : Env) (now : ℕ) (xs : List Delta) (s : State) (k : String)
    → get_user k (flush env now xs s).db ≡ Option.map (settled env now k xs) (get_user k s.db)
unfolding flush get_user add_traffic
flush-settles env now [] s k = elim (Option-cases (get_user k s.db)) [
  | inl e ↦ rw e
  | inr (u, e) ↦ rw e
]
flush-settles env now (x ∷ xs) s k =
    get_user-flush_each env now k (x ∷ xs) s
    ∙ ap (λ (f : User → User). Option.map f (get_user k s.db))
        (fun_ext (row_each-eq-settled env now k (x ∷ xs)))
