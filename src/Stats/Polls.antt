-- ===== src/Stats/Polls.antt =====
-- Polls in a row report all the traffic, once.
use testuder.Prelude.{
  ◌≡◌, inl, inr, ℕ, ◌+◌, String, refl, none, List, [], ◌∷◌, ◌++◌, arith, ◌==◌, eq_iff, ltb,
  if◌then◌else◌, Bool-cases, lookup,
}
use testuder.Tasks.{Delta}
use testuder.Tasks.Quota.{up_for, down_for}
use testuder.Stats.{Item, Counters, at, collect, growth, deltas, poll}
use testuder.Stats.Keys.{UniqueKeys, collect-UniqueKeys}

up_for_absent :
    (k : String) (prev m : Counters)
    → lookup k m ≡ none
    → (up_for k (deltas prev m) ≡ 0) × (down_for k (deltas prev m) ≡ 0)
unfolding deltas lookup
up_for_absent k prev [] h = (refl, refl)
up_for_absent k prev ((j, c) ∷ m) h = ground (arith, up_for_absent k prev m)

-- What the deltas of one poll hold for a user is the growth of its counters.
up_for-deltas :
    (k : String) (prev m : Counters)
    → UniqueKeys m
    → (up_for k (deltas prev m) ≡ growth (at k m).up (at k prev).up)
      × (down_for k (deltas prev m) ≡ growth (at k m).down (at k prev).down)
unfolding deltas lookup growth
up_for-deltas k prev [] h = ground arith
up_for-deltas k prev ((j, c) ∷ m) h = elim (Bool-cases (j == k)) [
  | inl e ↦ ground (arith, eq_iff j k, up_for_absent k prev m)
  | inr e ↦ ground (arith, up_for-deltas k prev m h.1)
]

-- The replies of the API in the order of the polls.
unfoldable pub polls : List (List Item) → Counters → List Delta × Counters
polls [] prev = ([], prev)
polls (is ∷ iss) prev =
    let (now, current) = poll is prev in
    let (later, last) = polls iss current in (now ++ later, last)

-- The counters that stood before each reset of a user's counter, added up.
abbrev dropped : ℕ → ℕ → ℕ
dropped now before = if ltb now before then before else 0

unfoldable pub reset_up : String → List (List Item) → Counters → ℕ
reset_up k [] prev = 0
reset_up k (is ∷ iss) prev =
    let current = collect is [] in dropped (at k current).up (at k prev).up + reset_up k iss current

unfoldable pub reset_down : String → List (List Item) → Counters → ℕ
reset_down k [] prev = 0
reset_down k (is ∷ iss) prev =
    let current = collect is [] in
    dropped (at k current).down (at k prev).down + reset_down k iss current

up_for-append :
    (k : String) (xs ys : List Delta)
    → (up_for k (xs ++ ys) ≡ up_for k xs + up_for k ys)
      × (down_for k (xs ++ ys) ≡ down_for k xs + down_for k ys)
up_for-append k [] ys = omega arith
up_for-append k (x ∷ xs) ys = omega (arith, (up_for-append k xs ys).0, (up_for-append k xs ys).1)

-- Over any polls, what all the deltas report for a user, with its counter before the first poll, is
-- its counter after the last one with the values that its resets dropped; so traffic between two
-- polls is reported once, and a restart of Xray loses nothing that was polled.
pub polls-report_all :
    (k : String) (iss : List (List Item)) (prev : Counters)
    → (up_for k (polls iss prev).0 + (at k prev).up
        ≡ (at k (polls iss prev).1).up + reset_up k iss prev)
      × (down_for k (polls iss prev).0 + (at k prev).down
          ≡ (at k (polls iss prev).1).down + reset_down k iss prev)
unfolding polls poll reset_up reset_down growth
polls-report_all k [] prev = omega arith
polls-report_all k (is ∷ iss) prev =
    let current = collect is [] in
    let rest = polls-report_all k iss current in
    let here = up_for-deltas k prev current (collect-UniqueKeys is [] tt) in
    let both = up_for-append k (deltas prev current) (polls iss current).0 in
    ground (arith, rest.0, rest.1, here.0, here.1, both.0, both.1)
