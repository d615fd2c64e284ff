-- ===== src/Handlers/NodeUsage/Merge.antt =====
-- What merging a node's report does to the users: its usage, and when it was seen.
use testuder.Prelude.{
  ◌≡◌, inl, inr, ℕ, ◌+◌, String, refl, Bool, true, false, ◌&&◌, ◌||◌, not, some, List, [], ◌∷◌,
  arith, ◌==◌, eqb, if◌then◌else◌, Option-cases, any,
}
use mathlib.Core.Option
use testuder.User.{User}
use testuder.Db.{Db}
use testuder.Db.Users.{get_user, add_user_usage, touch_last_seen}
use testuder.Db.Users.Laws.{find-update_where}
use testuder.Handlers.NodeUsage.{Report, at_least_0, merge_one, merge_each}

abbrev pub ups : String → List Report → ℕ
ups k [] = 0
ups k (r ∷ rs) = (if r.uid == k then at_least_0 r.up else 0) + ups k rs

abbrev pub downs : String → List Report → ℕ
downs k [] = 0
downs k (r ∷ rs) = (if r.uid == k then at_least_0 r.down else 0) + downs k rs

-- The report has traffic of the user.
abbrev pub reports : String → List Report → Bool
reports k rs =
    any rs (λ r. (r.uid == k) && not (eqb (at_least_0 r.up) 0 && eqb (at_least_0 r.down) 0))

-- The row with the traffic of a report added, and seen now.
abbrev pub merged : Bool → ℕ → ℕ → ℕ → User → User
merged false now up down u = u
merged true now up down u = record u {
  used_up = u.used_up + up;
  used_down = u.used_down + down;
  last_seen = some now;
}

get_user-book :
    (k : String) (now : ℕ) (uid : String) (up down : ℕ) (d : Db)
    → get_user k (touch_last_seen uid now (add_user_usage uid up down d))
      ≡ (if uid == k then Option.map (merged true now up down) (get_user k d) else get_user k d)
unfolding get_user touch_last_seen add_user_usage
get_user-book k now uid up down d = ground (
  arith,
  find-update_where k uid (λ u. record u { last_seen = some now }) (λ u. refl)
      (add_user_usage uid up down d).users,
  find-update_where k uid
      (λ u. record u { used_up = u.used_up + up; used_down = u.used_down + down }) (λ u. refl)
      d.users,
)

abbrev moved : Report → Bool
moved r = not (eqb (at_least_0 r.up) 0 && eqb (at_least_0 r.down) 0)

get_user-merge_one :
    (k : String) (now : ℕ) (r : Report) (d : Db)
    → get_user k (merge_one now r d)
      ≡ Option.map
          (merged ((r.uid == k) && moved r) now (at_least_0 r.up) (at_least_0 r.down))
          (get_user k d)
unfolding merge_one
get_user-merge_one k now r d = elim (Option-cases (get_user k d)) [
  | inl e ↦ ground (arith, get_user-book k now r.uid (at_least_0 r.up) (at_least_0 r.down) d)
  | inr (u, e) ↦ ground (arith, get_user-book k now r.uid (at_least_0 r.up) (at_least_0 r.down) d)
]

silent : (k : String) (rs : List Report) → reports k rs ≡ false → (ups k rs ≡ 0) × (downs k rs ≡ 0)
silent k [] h = (refl, refl)
silent k (r ∷ rs) h = ground (arith, silent k rs)

-- Two bookings in a row are one.
merged-merged :
    (b c : Bool) (now up up' down down' : ℕ) (u : User)
    → (c ≡ false → (up' ≡ 0) × (down' ≡ 0))
    → (b ≡ false → (up ≡ 0) × (down ≡ 0))
    → merged c now up' down' (merged b now up down u)
      ≡ merged (b || c) now (up + up') (down + down') u
merged-merged false false now up up' down down' u h g = refl
merged-merged false true now up up' down down' u h g = ground (arith, g refl)
merged-merged true false now up up' down down' u h g = ground (arith, h refl)
merged-merged true true now up up' down down' u h g = ground arith

-- Merging a report adds to a user that it has traffic of exactly that traffic, negative numbers
-- counting as 0, sets its `last_seen` to the time of the report, and changes nothing else of it: even
-- at its quota the user stays enabled. Every other user is as it was.
pub get_user-merge_each :
    (k : String) (now : ℕ) (rs : List Report) (d : Db)
    → get_user k (merge_each now rs d)
      ≡ Option.map (merged (reports k rs) now (ups k rs) (downs k rs)) (get_user k d)
unfolding merge_each
get_user-merge_each k now [] d = elim (Option-cases (get_user k d)) [
  | inl e ↦ rw e refl
  | inr (u, e) ↦ rw e refl
]
get_user-merge_each k now (r ∷ rs) d = elim (Option-cases (get_user k d)) [
  | inl e ↦
      ground (arith, get_user-merge_one k now r d, get_user-merge_each k now rs (merge_one now r d))
  | inr (u, e) ↦ ground (
    arith,
    get_user-merge_one k now r d,
    get_user-merge_each k now rs (merge_one now r d),
    merged-merged ((r.uid == k) && moved r) (reports k rs) now
        (if r.uid == k then at_least_0 r.up else 0) (ups k rs)
        (if r.uid == k then at_least_0 r.down else 0) (downs k rs) u (silent k rs)
        (λ h. ground arith),
  )
]
