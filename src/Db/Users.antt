-- ===== src/Db/Users.antt =====
-- app/db.py, the table `users`. `none` is the IntegrityError of a UNIQUE column.
pub mod Laws
pub mod Unique
use testuder.Prelude.{
  ℕ, ◌+◌, ◌-◌, String, Bool, false, ◌&&◌, ◌||◌, not, Option, none, some, List, [], ◌∷◌, ◌++◌, map,
  ◌==◌, ltb, leb, if◌then◌else◌, length, any, filter, find?,
}
use testuder.User.{User, Field, set_fields}
use testuder.Db.{truncate, Db}

abbrev pub has_uid : String → User → Bool
has_uid uid u = u.uid == uid

-- One row is moved into its place by `created_at`; ties keep the order of the rows.
sort_in : User → List User → List User
sort_in u [] = u ∷ []
sort_in u (v ∷ us) =
    let rest = sort_in u us in if leb u.created_at v.created_at then u ∷ v ∷ us else v ∷ rest

by_created_at : List User → List User
by_created_at [] = []
by_created_at (u ∷ us) = sort_in u (by_created_at us)

-- `list_users()`: ORDER BY created_at ASC
pub list_users : Db → List User
unfolding by_created_at sort_in
list_users d = by_created_at d.users

unfoldable pub get_user : String → Db → Option User
get_user uid d = find? (has_uid uid) d.users

-- The row that an INSERT stores: the texts cut, and the columns that it does not name at their defaults.
abbrev pub stored : ℕ → User → User
stored id u = record u {
  id = id;
  name = truncate 64 u.name;
  note = truncate 200 u.note;
  used_up = 0;
  used_down = 0;
  request_count = 0;
  last_seen = none;
}

-- `create_user(data)`: `u` is the row of `data`, with the defaults of its missing keys.
unfoldable pub create_user : User → Db → Option Db
create_user u d =
    if any d.users (λ v. (v.uid == u.uid) || (v.uuid == u.uuid))
    then none
    else some
        (record d { users = d.users ++ stored d.next_user u ∷ []; next_user = d.next_user + 1 })

-- The uuid that an update writes is another row's.
unfoldable pub uuid_taken : String → List Field → List User → Bool
uuid_taken uid [] us = false
uuid_taken uid (Field.uuid v ∷ fs) us =
    any us (λ u. not (u.uid == uid) && (u.uuid == v)) || uuid_taken uid fs us
uuid_taken uid (f ∷ fs) us = uuid_taken uid fs us

abbrev pub update_where : (User → Bool) → (User → User) → List User → List User
update_where p f us = map (λ u. if p u then f u else u) us

-- `update_user(uid, fields)`
unfoldable pub update_user : String → List Field → Db → Option Db
unfolding uuid_taken
update_user uid fields d =
    if uuid_taken uid fields d.users
    then none
    else some (record d { users = update_where (has_uid uid) (set_fields fields) d.users })

-- `update_user` with only `enabled = False`, which no UNIQUE column can refuse
unfoldable pub disable_user : String → Db → Db
disable_user uid d = record d {
  users = update_where (has_uid uid) (set_fields (Field.enabled false ∷ [])) d.users;
}

unfoldable pub add_user_usage : String → ℕ → ℕ → Db → Db
add_user_usage uid up down d = record d {
  users =
      update_where (has_uid uid)
        (λ u. record u { used_up = u.used_up + up; used_down = u.used_down + down }) d.users;
}

unfoldable pub reset_user_usage : String → Db → Db
reset_user_usage uid d = record d {
  users =
      update_where (has_uid uid) (λ u. record u { used_up = 0; used_down = 0; request_count = 0 })
        d.users;
}

-- `delete_user(uid)`, with whether a row went
unfoldable pub delete_user : String → Db → Bool × Db
delete_user uid d =
    (any d.users (has_uid uid), record d { users = filter (λ u. not (u.uid == uid)) d.users })

unfoldable pub touch_last_seen : String → ℕ → Db → Db
touch_last_seen uid now d = record d {
  users = update_where (has_uid uid) (λ u. record u { last_seen = some now }) d.users;
}

count_seen : ℕ → List User → ℕ
count_seen since [] = 0
count_seen since (u ∷ us) =
    elim u.last_seen [ none ↦ 0 | some t ↦ if ltb since t then 1 else 0 ] + count_seen since us

-- `count_recently_seen(seconds)`
pub count_recently_seen : ℕ → ℕ → Db → ℕ
unfolding count_seen
count_recently_seen now seconds d = count_seen (now - seconds) d.users

abbrev pub sum_of : (User → ℕ) → List User → ℕ
sum_of f [] = 0
sum_of f (u ∷ us) = f u + sum_of f us

-- `get_totals()`
unfoldable pub get_totals : Db → ℕ × ℕ × ℕ
get_totals d = (sum_of (λ u. u.used_up) d.users, sum_of (λ u. u.used_down) d.users, length d.users)
