-- ===== src/Db/Users/Laws.antt =====
-- What `get_user` returns after each statement on `users`.
use testuder.Db.Events.{add_event}
use mathlib.Core.Option
use testuder.Prelude.{
  ◌≡◌, String, refl, false, ◌||◌, not, none, some, List, [], ◌∷◌, ◌++◌, arith, ◌==◌, eq_iff,
  if◌then◌else◌, any, filter, find?, ◌∙◌,
}
use testuder.User.{User, Field, set_field, set_fields}
use testuder.Db.{ℕ, Db}
use testuder.Db.Users.{
  stored, has_uid, update_where, get_user, create_user, update_user, disable_user, delete_user,
}

abbrev pub KeepsUid : (User → User) → Type 0
KeepsUid f = (u : User) → (f u).uid ≡ u.uid

pub find-update_where :
    (k j : String) (f : User → User)
    → KeepsUid f
    → (us : List User)
    → find? (has_uid k) (update_where (has_uid j) f us)
      ≡ (if j == k then Option.map f (find? (has_uid k) us) else find? (has_uid k) us)
find-update_where k j f keep [] = ground arith
find-update_where k j f keep (u ∷ us) =
    ground
      (arith, keep u, eq_iff u.uid k, eq_iff u.uid j, eq_iff j k, find-update_where k j f keep us)

pub set_field-uid : (x : Field) → KeepsUid (set_field x)
unfolding set_field
set_field-uid (Field.enabled _) u = refl
set_field-uid _ u = refl

pub set_fields-uid : (fs : List Field) → KeepsUid (set_fields fs)
unfolding set_fields
set_fields-uid [] u = refl
set_fields-uid (f ∷ fs) u = set_fields-uid fs (set_field f u) ∙ set_field-uid f u

abbrev pub disabled : User → User
disabled u = record u { enabled = false }

pub get_user-disable_user :
    (k j : String) (d : Db)
    → get_user k (disable_user j d)
      ≡ (if j == k then Option.map disabled (get_user k d) else get_user k d)
unfolding get_user disable_user set_fields set_field
get_user-disable_user k j d = find-update_where k j disabled (λ u. refl) d.users

pub get_user-update_user :
    (k j : String) (fs : List Field) (d d' : Db)
    → update_user j fs d ≡ some d'
    → get_user k d' ≡ (if j == k then Option.map (set_fields fs) (get_user k d) else get_user k d)
unfolding get_user update_user
get_user-update_user k j fs d d' h =
    ground (arith, find-update_where k j (set_fields fs) (set_fields-uid fs) d.users)

find-append :
    (k : String) (us : List User) (u : User)
    → find? (has_uid k) (us ++ u ∷ [])
      ≡ (if any us (has_uid k) then find? (has_uid k) us else if u.uid == k then some u else none)
find-append k [] u = ground arith
find-append k (v ∷ us) u = ground (arith, find-append k us u)

find-filter :
    (k j : String) (us : List User)
    → find? (has_uid k) (filter (λ u. not (u.uid == j)) us)
      ≡ (if j == k then none else find? (has_uid k) us)
find-filter k j [] = ground arith
find-filter k j (u ∷ us) =
    ground (arith, eq_iff u.uid k, eq_iff u.uid j, eq_iff j k, find-filter k j us)

pub get_user-delete_user :
    (k j : String) (d : Db)
    → get_user k (delete_user j d).1 ≡ (if j == k then none else get_user k d)
unfolding get_user delete_user
get_user-delete_user k j d = find-filter k j d.users

pub any-find? :
    (k : String) (us : List User) → any us (has_uid k) ≡ false → find? (has_uid k) us ≡ none
any-find? k [] h = refl
any-find? k (u ∷ us) h = ground (arith, any-find? k us)

any-or :
    (k j : String) (us : List User)
    → any us (λ v. (v.uid == k) || (v.uuid == j)) ≡ false
    → any us (has_uid k) ≡ false
any-or k j [] h = refl
any-or k j (u ∷ us) h = ground (arith, any-or k j us)

-- A created user is found, and the others stay as they were.
pub get_user-create_user :
    (k : String) (u : User) (d d' : Db)
    → create_user u d ≡ some d'
    → get_user k d' ≡ (if u.uid == k then some (stored d.next_user u) else get_user k d)
unfolding get_user create_user
get_user-create_user k u d d' h = ground (
  arith,
  eq_iff u.uid k,
  any-or u.uid u.uuid d.users,
  any-find? k d.users,
  find-append k d.users (stored d.next_user u),
)

-- The log is another table.
pub get_user-add_event :
    (k : String) (now : ℕ) (l a t i : String) (d : Db)
    → get_user k (add_event now l a t i d) ≡ get_user k d
unfolding get_user add_event
get_user-add_event k now l a t i d = refl
