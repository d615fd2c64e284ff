-- ===== src/Auth/Lockout.antt =====
-- The brute-force guard of `api_login`: how many wrong passwords one key can have looked at.
use testuder.Prelude.{
  ◌≡◌, ℕ, ◌+◌, ◌≤◌, ◌<◌, String, Bool, false, Option, List, [], ◌∷◌, eqb, if◌then◌else◌, strip,
}
use testuder.Config.{Env, login_lock_seconds}
use testuder.Db.{Admin}
use testuder.Panel.{http, Result, err}
use testuder.Auth.{Auth, Session, default_auth, attempts_of, login, check_admin, fail, waited}

-- One request to `api_login`: when it comes, when its answer is written, what other requests do to the
-- state in between, and what it holds.
pub record Guess : Type 0 where
  pub now : ℕ
  pub later : ℕ
  pub others : Auth → Auth
  pub ip : String
  pub shown : String
  pub name : String
  pub password : String

abbrev pub is_refusal : Result Session → Bool
is_refusal (err (http status _)) = eqb status 401
is_refusal _ = false

module _ (pbkdf2 : String → String → String) (env : Env) (key : String) where
  abbrev pub try : Guess → Auth → Result Session × Auth
  try g a = login pbkdf2 env g.now g.later g.others key g.ip g.shown g.name g.password false a

  -- How many of the guesses have their password looked at and refused.
  abbrev pub looked_at : List Guess → Auth → ℕ
  looked_at [] a = 0
  looked_at (g ∷ gs) a = (if is_refusal (try g a).0 then 1 else 0) + looked_at gs (try g a).1

  -- The guess is wrong, and comes in the ten minutes after `start`.
  abbrev pub WrongIn : ℕ → Option Admin → Guess → Type 0
  WrongIn start admin g =
      (check_admin pbkdf2 (strip g.name) g.password admin ≡ false)
      × (start ≤ g.later)
      × (g.now < start + login_lock_seconds)

  -- While the guess is delayed, nobody claims the panel or changes the admin.
  abbrev pub Quiet : Guess → Type 0
  Quiet g =
      (a : Auth)
      → (default_auth (g.others a) ≡ default_auth a) × ((g.others a).db.admin ≡ a.db.admin)

  -- the state that the guess writes to, and what it writes
  abbrev failed : Guess → Auth → Auth
  failed g a =
      let count = (attempts_of key a).count + 1 in
      fail pbkdf2 g.later count key g.ip g.shown (waited count g.others a)
