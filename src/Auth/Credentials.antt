-- ===== src/Auth/Credentials.antt =====
-- Which credentials `api_login` accepts, and that `api_setup` and `api_change_password` set them.
use testuder.Prelude.{
  ◌≡◌, inl, inr, ℕ, ◌+◌, ◌*◌, String, refl, ap, Bool, true, false, ◌&&◌, not, Option, none, some,
  arith, ◌==◌, eq_iff, eq_refl, ltb, if◌then◌else◌, Bool-cases, strip, lookup, lookup-insert_self,
  append, ◌∙◌,
}
use testuder.Prelude.Int.{ℤ, pos, negsuc}
use testuder.Config.{Env}
use testuder.Db.{Db, Admin, get_meta, set_meta, set_admin}
use testuder.Db.Events.{add_event}
use testuder.Panel.{http, Result, ok, err}
use testuder.Auth.{
  no_attempts, is_one, claim, log_event, accepted, refused, window_closed, Verdict, run_state,
  verdict, answer, check_admin, closed, closed, answer, check_admin, verdict, Auth, default_auth,
  window_start, first_run_state, attempts_of, login, setup, verify_password,
}

abbrev pub is_ok : {A : Type 0} → Result A → Bool
is_ok (ok a) = true
is_ok (err e) = false

-- The no-password window has not ended.
abbrev pub window_open : ℤ → ℕ → ℕ → Bool
window_open (negsuc n) start now = true
window_open (pos h) start now = ltb now (start + h * 3600)

abbrev admin_accepts :
    (String → String → String) → Bool → Bool → Option Admin → String → String → Bool
admin_accepts pbkdf2 first is_open none username password = false
admin_accepts pbkdf2 first is_open (some u) username password =
    (u.username == username)
    && (if first then (password == "") && is_open else pbkdf2 password u.salt == u.password_hash)

-- The rule: the admin's name, with no password while the panel is unclaimed and the window is open,
-- and with the admin's password after that.
abbrev pub accepts : (String → String → String) → Env → ℕ → Auth → String → String → Bool
accepts pbkdf2 env now a username password =
    admin_accepts pbkdf2 (default_auth a)
      (window_open env.default_login_hours (window_start now a) now) a.db.admin username password

is_accepted : Verdict → Bool
is_accepted accepted = true
is_accepted refused = false
is_accepted window_closed = false

module _ (pbkdf2 : String → String → String) (start now : ℕ) (a : Auth) where
  verdict-accepts :
      (first : Bool) (hours : ℤ) (admin : Option Admin) (name password : String)
      → is_accepted (
          verdict pbkdf2
            (run_state first hours start now a).0.0
            (run_state first hours start now a).0.1
            admin
            name
            password)
        ≡ admin_accepts pbkdf2 first (window_open hours start now) admin name password
  unfolding is_accepted run_state verdict check_admin verify_password closed
  verdict-accepts false hours none name password = refl
  verdict-accepts true (negsuc n) none name password = refl
  verdict-accepts true (pos h) none name password = refl
  verdict-accepts false hours (some u) name password = ground arith
  verdict-accepts true (negsuc n) (some u) name password =
      ground (arith, eq_iff u.username name, eq_iff name u.username)
  verdict-accepts true (pos h) (some u) name password =
      ground (arith, eq_iff u.username name, eq_iff name u.username)

  run_state-db : (first : Bool) (hours : ℤ) → (run_state first hours start now a).1.db ≡ a.db
  unfolding run_state
  run_state-db false hours = refl
  run_state-db true (negsuc n) = refl
  run_state-db true (pos h) = refl

answer-ok :
    (pbkdf2 : String → String → String) (v : Verdict) (now later : ℕ) (others : Auth → Auth)
    (count : ℕ) (key ip shown name : String) (remember : Bool) (a : Auth)
    → is_ok (answer pbkdf2 v now later others count key ip shown name remember a).0 ≡ is_accepted v
unfolding answer is_accepted
answer-ok pbkdf2 accepted now later others count key ip shown name remember a = refl
answer-ok pbkdf2 refused now later others count key ip shown name remember a = refl
answer-ok pbkdf2 window_closed now later others count key ip shown name remember a = refl

-- A login gives a session exactly if its key is not locked, the name is the admin's, and: on an
-- unclaimed panel the password is empty and the no-password window is open; on a claimed one the
-- password's hash is the admin's; whatever other requests do while a failed one is delayed.
pub login-exact :
    (pbkdf2 : String → String → String) (env : Env) (now later : ℕ) (others : Auth → Auth)
    (key ip shown name password : String) (remember : Bool) (a : Auth)
    → is_ok (login pbkdf2 env now later others key ip shown name password remember a).0 ≡ (
        not (ltb now (attempts_of key a).locked_until)
        && accepts pbkdf2 env now a (strip name) password)
unfolding login first_run_state
login-exact pbkdf2 env now later others key ip shown name password remember a =
    let first = default_auth a in
    let start = window_start now a in
    let s = run_state first env.default_login_hours start now a in
    elim (Bool-cases (ltb now (attempts_of key a).locked_until)) [
      | inl l ↦ rw l refl
      | inr l ↦ rw l (
          answer-ok pbkdf2 (verdict pbkdf2 s.0.0 s.0.1 s.1.db.admin (strip name) password) now later
            others (attempts_of key a).count key ip shown (strip name) remember s.1
          ∙ ap (λ (d : Db). is_accepted (verdict pbkdf2 s.0.0 s.0.1 d.admin (strip name) password))
              (run_state-db pbkdf2 start now a first env.default_login_hours)
          ∙ verdict-accepts pbkdf2 start now a first env.default_login_hours a.db.admin (strip name)
              password)
    ]

claimed : (String → String → String) → ℕ → String → String → String → String → Auth → Auth
claimed pbkdf2 now salt ip name password a =
    log_event now "info" "setup" (append "admin created: " name) ip
      (claim pbkdf2 now name password salt a)

setup-claimed :
    (pbkdf2 : String → String → String) (env : Env) (now : ℕ) (salt ip name password : String)
    (a : Auth)
    → is_ok (setup pbkdf2 env now salt ip name password a).0 ≡ true
    → (setup pbkdf2 env now salt ip name password a).1
      ≡ claimed pbkdf2 now salt ip (strip name) password (first_run_state env now a).1
unfolding setup claimed
setup-claimed pbkdf2 env now salt ip name password a h = ground arith

module _ (pbkdf2 : String → String → String) (now : ℕ) (salt ip name password : String)
    (a : Auth) where
  claimed-default_auth : default_auth (claimed pbkdf2 now salt ip name password a) ≡ false
  unfolding claimed log_event claim default_auth add_event set_meta get_meta is_one set_admin
  claimed-default_auth = rw (lookup-insert_self "auth_is_default" "0" a.db.meta) refl

  claimed-accepts :
      (env : Env) (later : ℕ)
      → accepts pbkdf2 env later (claimed pbkdf2 now salt ip name password a) name password ≡ true
  unfolding claimed log_event claim set_meta set_admin add_event
  claimed-accepts env later =
      rw claimed-default_auth (ground (arith, eq_refl name, eq_refl (pbkdf2 password salt)))

claimed-refuses :
    (pbkdf2 : String → String → String) (env : Env) (now later : ℕ)
    (salt ip salt' ip' name name' password password' : String) (a : Auth)
    → (setup pbkdf2 env later salt' ip' name' password'
        (claimed pbkdf2 now salt ip name password a)).0
      ≡ err (http 400 "already-configured")
unfolding setup first_run_state run_state
claimed-refuses pbkdf2 env now later salt ip salt' ip' name name' password password' a =
    rw (claimed-default_auth pbkdf2 now salt ip name password a) refl

claimed-attempts :
    (pbkdf2 : String → String → String) (now : ℕ) (key salt ip name password : String) (a : Auth)
    → attempts_of key (claimed pbkdf2 now salt ip name password a) ≡ attempts_of key a
unfolding claimed log_event claim attempts_of
claimed-attempts pbkdf2 now key salt ip name password a = refl

first_run_state-attempts :
    (env : Env) (now : ℕ) (key : String) (a : Auth)
    → attempts_of key (first_run_state env now a).1 ≡ attempts_of key a
unfolding first_run_state attempts_of
first_run_state-attempts env now key a =
    go (default_auth a) env.default_login_hours (window_start now a)
  where
    go :
        (first : Bool) (h : ℤ) (start : ℕ)
        → no_attempts (lookup key (run_state first h start now a).1.attempts)
          ≡ no_attempts (lookup key a.attempts)
    go false h start = refl
    go true (negsuc n) start = refl
    go true (pos h) start = refl

-- After `api_setup` answers with a session, a login with the same name and password, at any time at
-- which its key is not locked, gives a session too; and any other setup, whenever it comes and
-- whatever it asks for, is refused.
pub setup-login :
    (pbkdf2 : String → String → String) (env : Env) (now then_ later : ℕ) (others : Auth → Auth)
    (salt key ip shown name password : String) (remember : Bool) (a : Auth)
    → is_ok (setup pbkdf2 env now salt ip name password a).0 ≡ true
    → ltb then_ (attempts_of key a).locked_until ≡ false
    → (is_ok
          (login pbkdf2 env then_ later others key ip shown name password remember
            (setup pbkdf2 env now salt ip name password a).1).0
        ≡ true)
      × ((at : ℕ) (salt' ip' name' password' : String)
          → (setup pbkdf2 env at salt' ip' name' password'
              (setup pbkdf2 env now salt ip name password a).1).0
            ≡ err (http 400 "already-configured"))
setup-login pbkdf2 env now then_ later others salt key ip shown name password remember a h l =
    let a1 = (first_run_state env now a).1 in
    let after = claimed pbkdf2 now salt ip (strip name) password a1 in
    rw (setup-claimed pbkdf2 env now salt ip name password a h) (
      login-exact pbkdf2 env then_ later others key ip shown name password remember after
          ∙ ground (
            arith,
            claimed-accepts pbkdf2 now salt ip (strip name) password a1 env then_,
            claimed-attempts pbkdf2 now key salt ip (strip name) password a1,
            first_run_state-attempts env now key a,
            l,
          ),
      λ at salt' ip' name' password'.
          claimed-refuses pbkdf2 env now at salt ip salt' ip' (strip name) name' password password'
            a1,
    )
