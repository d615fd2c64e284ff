-- ===== src/Db/Events.antt =====
-- app/db.py, the table `events`: the last 2000 rows are kept.
use testuder.Prelude.{
  ℕ, String, Option, none, some, List, [], ◌∷◌, ◌==◌, if◌then◌else◌, take, filter, truncate,
}
use testuder.Db.{Db, Event}

abbrev pub max_events : ℕ
max_events = 2000

keep_newest : List Event → List Event
keep_newest es = take max_events es

-- `add_event(level, action, detail, ip)`
unfoldable pub add_event : ℕ → String → String → String → String → Db → Db
unfolding keep_newest
add_event now level action detail ip d =
    let e : Event = record {
      ts = now;
      level = level;
      action = action;
      detail = truncate 400 detail;
      ip = ip;
    } in
    record d { events = keep_newest (e ∷ d.events) }

abbrev of_level : Option String → List Event → List Event
of_level none es = es
of_level (some l) es = if l == "" then es else filter (λ e. e.level == l) es

-- `list_events(limit, level)`
unfoldable pub list_events : ℕ → Option String → Db → List Event
list_events limit level d = take limit (of_level level d.events)

unfoldable pub clear_events : Db → Db
clear_events d = record d { events = [] }
