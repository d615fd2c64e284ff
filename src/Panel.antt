-- ===== src/Panel.antt =====
-- The running process: the database with what app/main.py, app/state.py and app/tasks.py keep in
-- memory, and request handlers as actions on it. A handler that raises keeps what it has written.
use testuder.Prelude.{ℕ, String, List}
use testuder.Db.{Db}

-- What a handler leaves to the event loop: `_reload_xray()` and `_trigger_node_sync()`.
pub data Job : Type 0 where
  reload node_sync : Job

pub record Panel : Type 0 where
  pub db : Db
  pub active : List (String × List String)
  pub jobs : List Job

-- `HTTPException(status, detail)`, or an exception of SQLite
pub data Error : Type 0 where
  http : ℕ → String → Error
  integrity : Error

pub data Result {ℓ} (A : Type ℓ) : Type ℓ where
  ok : A → Result A
  err : Error → Result A

abbrev pub Action : Type 0 → Type 0
Action A = Panel → Result A × Panel
