-- ===== src/Reload.antt =====
-- app/main.py `_reload_xray`: bursts of reload requests are served by a loop in the background. The
-- event loop runs one coroutine at a time up to its next `await`; a step is one such stretch, and
-- coroutines at the same `await` are counted. A request is made in the event loop, as a handler's
-- is; the early return outside of one is not modelled, nor is a cancelled task. `dirty` says that a change is in the database which no
-- reload has started after.
pub mod Kept
use testuder.Prelude.{
  ◌≡◌, ◌≢◌, ◌↔◌, ◌⊎◌, inl, inr, ℕ, zero, suc, ◌+◌, ◌-◌, ◌*◌, ◌/◌, ◌%◌, ◌≤◌, ◌<◌, String, refl, sym,
  ap, Bool, true, false, ◌&&◌, ◌||◌, not, Option, none, some, List, [], ◌∷◌, ◌++◌, map, arith, ◌==◌,
  eq_iff, eq_refl, ltb, leb, eqb, if◌then◌else◌, Bool-cases, Option-cases, &&-split, length, take,
  drop, any, all, filter, find?, All, any-append, all-append, find?-sound, any-filter, All-append,
  All-filter, All-map, All-of_forall, All-mono, any-map, length-map, lower, truncate, strip, one_of,
  or_else, one_of-elim, coerce_to, lookup, insert, remove, lookup-insert, lookup-remove,
  lookup-insert_self, append, coerce_to-all, min, max, subst, ◌∙◌,
}

pub record State : Type 0 where
  -- `_reload_wanted`, `_reload_running`
  pub wanted : ℕ
  pub running : Bool
  -- loops that have not begun, that wait for `_do_reload`, and that sleep
  pub spawned : ℕ
  pub reloading : ℕ
  pub sleeping : ℕ
  pub dirty : Bool

abbrev pub idle : State
idle = record {
  wanted = 0;
  running = false;
  spawned = 0;
  reloading = 0;
  sleeping = 0;
  dirty = false;
}

-- a handler writes, and calls `_reload_xray()`
unfoldable pub request : State → State
request s = record s {
  wanted = s.wanted + 1;
  spawned = if s.running then s.spawned else s.spawned + 1;
  dirty = true;
}

-- `while _reload_wanted > 0`, up to the reload or to the end of the loop
unfoldable pub check : State → State
check s =
    if ltb 0 s.wanted
    then record s { wanted = 0; reloading = s.reloading + 1; dirty = false }
    else record s { running = false }

-- a loop begins, its reload returns, its sleep ends
unfoldable pub begin : State → State
begin s = check (record s { spawned = s.spawned - 1; running = true })

unfoldable pub reloaded : State → State
reloaded s =
    let t = record s { reloading = s.reloading - 1 } in
    if ltb 0 s.wanted then record t { sleeping = t.sleeping + 1 } else check t

unfoldable pub wake : State → State
wake s = check (record s { sleeping = s.sleeping - 1 })

pub data Step : State → State → Type 0 where
  requests : (s : State) → Step s (request s)
  begins : (s : State) → 0 < s.spawned → Step s (begin s)
  reloads : (s : State) → 0 < s.reloading → Step s (reloaded s)
  wakes : (s : State) → 0 < s.sleeping → Step s (wake s)

-- The states that are reached from an idle start.
pub data Reached : State → Type 0 where
  start : Reached idle
  step : (s t : State) → Reached s → Step s t → Reached t
