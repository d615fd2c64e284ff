-- ===== src/Db/Users/Unique.antt =====
-- The UNIQUE columns of `users` as an invariant, and what it gives for scans over the rows.
use testuder.Prelude.{
  ◌≡◌, inl, inr, String, refl, Bool, false, ◌&&◌, ◌||◌, Option, none, some, List, [], ◌∷◌, arith,
  ◌==◌, eq_iff, Bool-cases, any, find?,
}
use testuder.User.{User}
use testuder.Db.{Db}
use testuder.Db.Users.{has_uid, by_created_at, sort_in, list_users}

-- No two rows have the same uid.
abbrev pub UniqueUids : List User → Type 0
UniqueUids [] = Unit
UniqueUids (u ∷ us) = (any us (has_uid u.uid) ≡ false) × UniqueUids us

abbrev pub matches : String → (User → Bool) → User → Bool
matches k q v = (v.uid == k) && q v

abbrev pub test_row : (User → Bool) → Option User → Bool
test_row q none = false
test_row q (some u) = q u

any-sort_in :
    (u : User) (us : List User) (q : User → Bool) → any (sort_in u us) q ≡ (q u || any us q)
unfolding sort_in
any-sort_in u [] q = refl
any-sort_in u (v ∷ us) q = ground (arith, any-sort_in u us q)

any-by_created_at : (us : List User) (q : User → Bool) → any (by_created_at us) q ≡ any us q
unfolding by_created_at
any-by_created_at [] q = refl
any-by_created_at (u ∷ us) q =
    ground (arith, any-by_created_at us q, any-sort_in u (by_created_at us) q)

-- Listing the users by time of creation loses and adds none.
pub any-list_users : (d : Db) (q : User → Bool) → any (list_users d) q ≡ any d.users q
unfolding list_users
any-list_users d q = any-by_created_at d.users q

any_no_uid :
    (k : String) (q : User → Bool) (us : List User)
    → any us (has_uid k) ≡ false
    → any us (matches k q) ≡ false
any_no_uid k q [] h = refl
any_no_uid k q (u ∷ us) h = ground (arith, any_no_uid k q us)

-- With unique uids, a scan for a row of one user is a test of the row that `get_user` finds.
pub any-matches :
    (k : String) (q : User → Bool) (us : List User)
    → UniqueUids us
    → any us (matches k q) ≡ test_row q (find? (has_uid k) us)
any-matches k q [] h = refl
any-matches k q (u ∷ us) h = elim (Bool-cases (u.uid == k)) [
  | inl e ↦ ground (arith, any_no_uid k q us (rw (← (eq_iff u.uid k).0 e) h.0))
  | inr e ↦ ground (arith, any-matches k q us h.1)
]
