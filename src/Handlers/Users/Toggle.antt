-- ===== src/Handlers/Users/Toggle.antt =====
-- `api_toggle` and `api_delete_user`: what they do to the rows.
use mathlib.Core.Option.{none}
use testuder.Prelude.{
  ◌≡◌, inl, inr, ℕ, String, Bool, false, not, none, [], ◌∷◌, arith, ◌==◌, eq_iff, if◌then◌else◌,
  Bool-cases, Option-cases, append,
}
use mathlib.Core.Option
use testuder.User.{User, Field, set_field, set_fields}
use testuder.Db.{Db}
use testuder.Db.Users.{delete_user, uuid_taken, get_user, update_user}
use testuder.Db.Users.Laws.{
  get_user-delete_user, any-find?, find-update_where, get_user-add_event, set_fields-uid,
}
use testuder.Panel.{Panel}
use testuder.Handlers.Users.{false, api_delete_user, show_bool, announce, set_enabled, api_toggle}

abbrev pub flipped : User → User
flipped u = record u { enabled = not u.enabled }

get_user-set_enabled :
    (k uid : String) (v : Bool) (d : Db)
    → get_user k (set_enabled uid v d) ≡ (
        if uid == k
        then Option.map (set_fields (Field.enabled v ∷ [])) (get_user k d)
        else get_user k d)
unfolding set_enabled get_user update_user uuid_taken
get_user-set_enabled k uid v d =
    find-update_where k uid (set_fields (Field.enabled v ∷ []))
      (set_fields-uid (Field.enabled v ∷ [])) d.users

-- Toggling a user that exists flips its `enabled` and nothing else of it, and leaves every other user
-- as it was; for one that does not exist nothing changes.
pub get_user-api_toggle :
    (now : ℕ) (ip uid k : String) (p : Panel)
    → get_user k (api_toggle now ip uid p).1.db
      ≡ (if uid == k then Option.map flipped (get_user k p.db) else get_user k p.db)
unfolding api_toggle announce set_fields set_field
get_user-api_toggle now ip uid k p = elim (Option-cases (get_user uid p.db)) [
  | inl e ↦ ground (arith, eq_iff uid k)
  | inr (u, e) ↦ ground (
    arith,
    eq_iff uid k,
    get_user-add_event k now "info" "user-toggle"
        (append uid (append " -> " (show_bool (not u.enabled)))) ip
        (set_enabled uid (not u.enabled) p.db),
    get_user-set_enabled k uid (not u.enabled) p.db,
  )
]

-- After `api_delete_user`, whether it answers or raises, the user that it names is not in the table,
-- and every other user is as it was.
pub get_user-api_delete_user :
    (now : ℕ) (ip uid k : String) (p : Panel)
    → get_user k (api_delete_user now ip uid p).1.db ≡ (if uid == k then none else get_user k p.db)
unfolding api_delete_user announce
get_user-api_delete_user now ip uid k p = elim (Bool-cases (delete_user uid p.db).0) [
  | inl e ↦ ground (
    arith,
    get_user-add_event k now "warn" "user-delete" uid ip (delete_user uid p.db).1,
    get_user-delete_user k uid p.db,
  )
  | inr e ↦ ground (arith, eq_iff uid k, absent uid p.db e)
]
  where
    absent : (uid : String) (d : Db) → (delete_user uid d).0 ≡ false → get_user uid d ≡ none
    absent uid d e = unfold delete_user get_user in any-find? uid d.users e
