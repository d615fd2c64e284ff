-- ===== src/Auth.antt =====
-- app/main.py `_first_run_state`, `api_setup`, `api_login`, `api_change_password`, `_set_session`;
-- app/security.py `hash_password`, `verify_password`; app/db.py `apply_env_admin_password` and the
-- admin of `_ensure_bootstrap`. PBKDF2 is a parameter, and a fresh salt is an argument. The rows of
-- `meta` that hold a number or JSON are kept decoded. Request bodies hold texts.
pub mod Credentials
pub mod Lockout
use Prim.Native.Char.{code}
use Prim.Native.String
use testuder.Prelude.{
  ◌^◌, ◌≡◌, ◌≢◌, ◌↔◌, ◌⊎◌, inl, inr, ℕ, zero, suc, ◌+◌, ◌-◌, ◌*◌, ◌/◌, ◌%◌, ◌≤◌, ◌<◌, String, refl,
  sym, ap, Bool, true, false, ◌&&◌, ◌||◌, not, Option, none, some, List, [], ◌∷◌, ◌++◌, map, arith,
  ◌==◌, eq_iff, eq_refl, ltb, leb, eqb, if◌then◌else◌, Bool-cases, Option-cases, &&-split, length,
  take, drop, any, all, filter, find?, All, any-append, all-append, find?-sound, any-filter,
  All-append, All-filter, All-map, All-of_forall, All-mono, any-map, length-map, lower, truncate,
  strip, one_of, or_else, one_of-elim, coerce_to, lookup, insert, remove, lookup-insert,
  lookup-remove, lookup-insert_self, append, coerce_to-all, min, max, subst, ◌∙◌, append-nil,
  append_assoc, upper, length-append,
}
use testuder.Prelude.Int.{ℤ, pos, negsuc}
use testuder.Value.{show}
use testuder.Config.{
  Env, session_max_age, login_soft_fails, login_backoff_cap_seconds, login_hard_lock_attempts,
  login_lock_seconds,
}
use testuder.Db.{Db, Admin, get_meta, set_meta, set_admin}
use testuder.Db.Events.{add_event}
use testuder.Panel.{Error, http, Result, ok, err}

-- the blob under `login_attempts:<key>`
pub record Attempts : Type 0 where
  pub count : ℕ
  pub locked_until : ℕ

pub record Auth : Type 0 where
  pub db : Db
  -- `auth_default_since`
  pub since : Option ℕ
  pub attempts : List (String × Attempts)

-- the cookie of `_set_session`: whose it is, and its age in the browser
pub record Session : Type 0 where
  pub username : String
  pub max_age : ℕ

unfoldable pub set_session : String → Bool → Session
set_session username remember = record {
  username = username;
  max_age = if remember then session_max_age * 4 else session_max_age;
}

is_one : Option String → Bool
is_one none = false
is_one (some v) = v == "1"

-- `db.get_meta("auth_is_default") == "1"`
unfoldable pub default_auth : Auth → Bool
unfolding is_one
default_auth a = is_one (get_meta "auth_is_default" a.db)

created : Option Admin → ℕ → ℕ
created none now = now
created (some u) now = if eqb u.created_at 0 then now else u.created_at

-- when the no-password window began: the row, if it holds a number other than 0
unfoldable pub window_start : ℕ → Auth → ℕ
unfolding created
window_start now a = elim a.since [
  | none ↦ created a.db.admin now
  | some t ↦ if eqb t 0 then created a.db.admin now else t
]

run_state : Bool → ℤ → ℕ → ℕ → Auth → (Bool × Option ℕ) × Auth
run_state false hours start now a = ((false, none), a)
run_state true (negsuc n) start now a = ((true, none), a)
run_state true (pos h) start now a =
    ((true, some (start + h * 3600 - now)), record a { since = some start })

-- `_first_run_state()`: the seconds that are left stop at 0.
unfoldable pub first_run_state : Env → ℕ → Auth → (Bool × Option ℕ) × Auth
unfolding run_state
first_run_state env now a =
    run_state (default_auth a) env.default_login_hours (window_start now a) now a

word_char : ℕ → Bool
word_char c =
    (leb b'a' c && leb c b'z')
    || (leb b'A' c && leb c b'Z')
    || (leb b'0' c && leb c b'9')
    || eqb c b'_'

text_length : String → ℕ
text_length String.[] = 0
text_length (String.◌∷◌ c s) = suc (text_length s)

word : String → Bool
unfolding word_char
word String.[] = true
word (String.◌∷◌ c s) = word_char (code c) && word s

-- `^[a-zA-Z0-9_]{3,32}$` on a text without blanks at its ends
unfoldable pub valid_username : String → Bool
unfolding word text_length
valid_username s = leb 3 (text_length s) && leb (text_length s) 32 && word s

closed : Option ℕ → Bool
closed none = false
closed (some left) = eqb left 0

-- what a login attempt comes to, before its effects
pub data Verdict : Type 0 where
  accepted refused window_closed : Verdict

no_attempts : Option Attempts → Attempts
no_attempts none = record { count = 0; locked_until = 0 }
no_attempts (some t) = t

unfoldable pub attempts_of : String → Auth → Attempts
unfolding no_attempts
attempts_of key a = no_attempts (lookup key a.attempts)

set_attempts : String → Attempts → Auth → Auth
set_attempts key t a = record a { attempts = insert key t a.attempts }

log_event : ℕ → String → String → String → String → Auth → Auth
log_event now level action detail ip a = record a { db = add_event now level action detail ip a.db }

-- the blob that a failed attempt writes; `count` is the number that it read, and one
unfoldable pub penalise : ℕ → ℕ → Attempts
penalise now count =
    if leb login_hard_lock_attempts count
    then record { count = 0; locked_until = now + login_lock_seconds }
    else record { count = count; locked_until = 0 }

-- the delay before a failed attempt is answered, in half seconds
unfoldable pub delay : ℕ → ℕ
delay count =
    if leb login_soft_fails count
    then min (2 * login_backoff_cap_seconds) (2 ^ min (count - login_soft_fails) 5)
    else 0

-- `await asyncio.sleep(…)`, if there is a delay: what other requests do to the state meanwhile
unfoldable pub waited : ℕ → (Auth → Auth) → Auth → Auth
unfolding delay
waited count others a = if eqb (delay count) 0 then a else others a

module _ (pbkdf2 : String → String → String) where
  -- `security.verify_password(password, salt, hash)`
  unfoldable pub verify_password : String → String → String → Bool
  verify_password password salt hash = pbkdf2 password salt == hash

  unfoldable pub check_admin : String → String → Option Admin → Bool
  unfolding verify_password
  check_admin username password none = false
  check_admin username password (some u) =
      (u.username == username) && verify_password password u.salt u.password_hash

  verdict : Bool → Option ℕ → Option Admin → String → String → Verdict
  unfolding check_admin closed
  verdict true left (some u) username password =
      if not (username == u.username) || not (password == "")
      then refused
      else if closed left
      then window_closed
      else accepted
  verdict first left admin username password =
      if check_admin username password admin then accepted else refused

  -- `now` is the time of the request and `later` the time after the delay; `shown` is the attempted
  -- name as the log may show it. `count` was read before the delay, and `a` is the state after it.
  fail : ℕ → ℕ → String → String → String → Auth → Auth
  unfolding penalise log_event set_attempts
  fail later count key ip shown a =
      let a1 =
        if leb login_hard_lock_attempts count
        then log_event later "warn" "login-locked"
            (append "after " (append (show count) " attempts")) ip a
        else a in
      log_event later "warn" "login-failed" (append "username=" shown) ip
        (set_attempts key (penalise later count) a1)

  answer :
      Verdict
      → ℕ
      → ℕ
      → (Auth → Auth)
      → ℕ
      → String
      → String
      → String
      → String
      → Bool
      → Auth
      → Result Session × Auth
  unfolding fail log_event set_attempts waited
  answer accepted now later others count key ip shown username remember a = (
    ok (set_session username remember),
    log_event now "info" "login" "admin login" ip
        (set_attempts key (record { count = 0; locked_until = 0 }) a),
  )
  answer window_closed now later others count key ip shown username remember a = (
    err (
        http 403
          "first-run-closed: the no-password window ended; set TITAN_ADMIN_PASSWORD (min 8 chars) and redeploy, then log in with it"),
    a,
  )
  answer refused now later others count key ip shown username remember a = (
    err (http 401 "invalid-credentials"),
    fail later (count + 1) key ip shown (waited (count + 1) others a),
  )

  -- `api_login`; `others` is what other requests do to the state during the delay
  unfoldable pub login :
      Env
      → ℕ
      → ℕ
      → (Auth → Auth)
      → String
      → String
      → String
      → String
      → String
      → Bool
      → Auth
      → Result Session × Auth
  unfolding verdict answer
  login env now later others key ip shown name password remember a =
      let username = strip name in
      let t = attempts_of key a in
      let (state, a1) = first_run_state env now a in
      if ltb now t.locked_until
      then (err (http 429 (append "locked:" (show (t.locked_until - now)))), a)
      else answer (verdict state.0 state.1 a1.db.admin username password) now later others t.count
          key ip shown username remember a1

  -- `set_admin(username, **hash_password(password))` with `auth_is_default = "0"`
  claim : ℕ → String → String → String → Auth → Auth
  claim now username password salt a = record a {
    db = set_meta "auth_is_default" "0" (set_admin now username (pbkdf2 password salt) salt a.db);
  }

  -- `api_setup`
  unfoldable pub setup : Env → ℕ → String → String → String → String → Auth → Result Session × Auth
  unfolding claim log_event closed text_length
  setup env now salt ip name password a =
      let username = strip name in
      let (state, a1) = first_run_state env now a in
      if not state.0
      then (err (http 400 "already-configured"), a1)
      else if closed state.1
      then (err (http 403 "first-run-closed: use TITAN_ADMIN_PASSWORD"), a1)
      else if not (valid_username username)
      then (err (http 400 "invalid-username"), a1)
      else if ltb (text_length password) 6
      then (err (http 400 "weak-password"), a1)
      else (
        ok (set_session username false),
        log_event now "info" "setup" (append "admin created: " username) ip
            (claim now username password salt a1),
      )

  -- `api_change_password`, behind `_require_auth`; without an admin, first-run mode fails on
  -- `admin["username"]`, which the server answers with 500.
  unfoldable pub change_password :
      ℕ → String → String → String → String → Auth → Result (Unit {0}) × Auth
  unfolding claim log_event text_length
  change_password now salt ip old new a = elim a.db.admin [
    | none ↦
        if not (default_auth a)
        then (err (http 401 "wrong-old-password"), a)
        else if ltb (text_length new) 6
        then (err (http 400 "weak-password"), a)
        else (err (http 500 ""), a)
    | some u ↦
        if not (default_auth a) && not (verify_password old u.salt u.password_hash)
        then (err (http 401 "wrong-old-password"), a)
        else if ltb (text_length new) 6
        then (err (http 400 "weak-password"), a)
        else (
          ok tt,
          log_event now "warn" "password-change" "admin password changed" ip
              (claim now u.username new salt a),
        )
  ]

  name_of : Option Admin → String
  name_of none = "TiTaN"
  name_of (some u) = u.username

  -- `apply_env_admin_password()`
  unfoldable pub apply_env_admin_password : Env → ℕ → String → Auth → Bool × Auth
  unfolding claim name_of text_length
  apply_env_admin_password env now salt a =
      if env.admin_password == ""
      then (false, a)
      else if ltb (text_length env.admin_password) 8
      then (false, a)
      else (true, claim now (name_of a.db.admin) env.admin_password salt a)

  -- the default admin of `_ensure_bootstrap()`
  unfoldable pub bootstrap_admin : ℕ → String → Auth → Auth
  bootstrap_admin now salt a = elim a.db.admin [
    | some u ↦ a
    | none ↦ record a {
      db = set_meta "auth_is_default" "1" (set_admin now "TiTaN" (pbkdf2 "" salt) salt a.db);
      since = some now;
    }
  ]
