-- ===== src/Reload/Kept.antt =====
-- No change is forgotten by the reload loop.
use testuder.Prelude.{◌≡◌, inl, inr, ◌+◌, ◌-◌, ◌<◌, true, arith, ltb, Bool-cases}
use testuder.Reload.{
  State, request, check, begin, reloaded, wake, Step, requests, begins, reloads, wakes, Reached,
  start, step,
}

abbrev pub Invariant : State → Type 0
Invariant s =
    (s.running ≡ true → 0 < s.reloading + s.sleeping)
    × (0 < s.wanted → 0 < s.spawned + s.reloading + s.sleeping)
    × (s.dirty ≡ true → 0 < s.wanted)

check-Invariant : (s : State) → (s.dirty ≡ true → 0 < s.wanted) → Invariant (check s)
unfolding check
check-Invariant s k = elim (Bool-cases (ltb 0 s.wanted)) [
  | inl e ↦ ground arith
  | inr e ↦ ground arith
]

request-Invariant : (s : State) → Invariant s → Invariant (request s)
unfolding request
request-Invariant s i = elim (Bool-cases s.running) [ inl e ↦ ground arith | inr e ↦ ground arith ]

reloaded-Invariant : (s : State) → Invariant s → Invariant (reloaded s)
unfolding reloaded check
reloaded-Invariant s i = elim (Bool-cases (ltb 0 s.wanted)) [
  | inl e ↦ ground arith
  | inr e ↦ ground arith
]

Step-Invariant : (s t : State) → Step s t → Invariant s → Invariant t
unfolding begin wake
Step-Invariant _ _ (requests s) i = request-Invariant s i
Step-Invariant _ _ (begins s h) i =
    check-Invariant (record s { spawned = s.spawned - 1; running = true }) i.2
Step-Invariant _ _ (reloads s h) i = reloaded-Invariant s i
Step-Invariant _ _ (wakes s h) i = check-Invariant (record s { sleeping = s.sleeping - 1 }) i.2

Reached-Invariant : (s : State) → Reached s → Invariant s
Reached-Invariant _ start = ground arith
Reached-Invariant _ (step s t r h) = Step-Invariant s t h (Reached-Invariant s r)

-- In every state that is reached, a change that no reload has started after is still wanted, and a
-- loop is there that will look at it.
pub change-kept :
    (s : State)
    → Reached s
    → s.dirty ≡ true
    → (0 < s.wanted) × (0 < s.spawned + s.reloading + s.sleeping)
change-kept s r d = let i = Reached-Invariant s r in (i.2 d, i.1 (i.2 d))
