-- ===== src/Handlers/NodeSync/Reconcile.antt =====
-- After a push, a node serves exactly the users of the push.
use testuder.Prelude.{
  ◌≡◌, inl, inr, ℕ, String, refl, ap, Bool, true, false, ◌&&◌, ◌||◌, not, Option, none, some, List,
  [], ◌∷◌, ◌++◌, arith, ◌==◌, eq_iff, if◌then◌else◌, Bool-cases, Option-cases, any, find?, strip,
  ◌∙◌,
}
use testuder.User.{User, Field, set_fields}
use testuder.Config.{Env}
use testuder.Db.{Db}
use testuder.Db.Users.{get_user, list_users, delete_user, has_uid}
use mathlib.Core.Option
use testuder.Db.Users.Laws.{
  set_fields-uid, get_user-delete_user, get_user-create_user, get_user-update_user,
}
use testuder.Db.Users.Unique.{any-list_users}
use testuder.Reality.{apply_reality_config}
use testuder.Panel.{Result, ok, err, Panel}
use testuder.Handlers.NodeSync.{
  known, default_row, Entry, RealityData, put_entry, put_all, seen, usable, drop_unseen, reconcile,
  node_sync,
}

get_user-drop_unseen :
    (k : String) (es : List Entry) (us : List User) (d : Db)
    → get_user k (drop_unseen es us d)
      ≡ (if any us (has_uid k) && not (seen k es) then none else get_user k d)
unfolding drop_unseen
get_user-drop_unseen k es [] d = ground arith
get_user-drop_unseen k es (u ∷ us) d = elim (Bool-cases (seen u.uid es)) [
  | inl e ↦ rw e (get_user-drop_unseen k es us d ∙ ground (arith, eq_iff u.uid k))
  | inr e ↦ rw e (
      get_user-drop_unseen k es us (delete_user u.uid d).1
      ∙ ground (arith, eq_iff u.uid k, get_user-delete_user k u.uid d))
]

known-get_user : (k : String) (d : Db) → known (get_user k d) ≡ any d.users (has_uid k)
unfolding known get_user
known-get_user k d = go d.users
  where
    go : (us : List User) → known (find? (has_uid k) us) ≡ any us (has_uid k)
    go [] = refl
    go (u ∷ us) = ground (arith, go us)

known-map : (f : User → User) (u : Option User) → known (Option.map f u) ≡ known u
unfolding known
known-map f none = refl
known-map f (some u) = refl

fields-uid :
    (e : Entry) (now : ℕ)
    → (set_fields e.fields (default_row (strip e.uid) e.uuid now)).uid ≡ strip e.uid
fields-uid e now = set_fields-uid e.fields (default_row (strip e.uid) e.uuid now)

put_entry-known :
    (now : ℕ) (k : String) (e : Entry) (d d' : Db)
    → put_entry now e d ≡ some d'
    → known (get_user k d') ≡ ((strip e.uid == k) || known (get_user k d))
unfolding put_entry
put_entry-known now k e d d' h = elim (Bool-cases (known (get_user (strip e.uid) d))) [
  | inl y ↦
      let fs = e.fields ++ Field.uuid e.uuid ∷ [] in
      ap known (get_user-update_user k (strip e.uid) fs d d' (ground (arith, h, y)))
      ∙ ground (arith, known-map (set_fields fs) (get_user k d), eq_iff (strip e.uid) k)
  | inr n ↦
      let u = set_fields e.fields (default_row (strip e.uid) e.uuid now) in
      ap known (get_user-create_user k u d d' (ground (arith, h, n)))
      ∙ ground (arith, fields-uid e now, eq_iff (strip e.uid) k)
]

put_all-known :
    (now : ℕ) (k : String) (es : List Entry) (d : Db)
    → (put_all now es d).0 ≡ true
    → known (get_user k (put_all now es d).1) ≡ (seen k es || known (get_user k d))
unfolding put_all
put_all-known now k [] d h = refl
put_all-known now k (e ∷ es) d h = elim (Bool-cases (usable e)) [
  | inl y ↦ elim (Option-cases (put_entry now e d)) [
    | inl none_put ↦ ground arith
    | inr (d', put) ↦ ground (arith, put_all-known now k es d', put_entry-known now k e d d' put)
  ]
  | inr n ↦ ground (arith, put_all-known now k es d)
]

reconcile-known :
    (k : String) (es : List Entry) (d : Db)
    → known (get_user k (reconcile es d)) ≡ (known (get_user k d) && seen k es)
unfolding reconcile known
reconcile-known k es d =
    ap known (get_user-drop_unseen k es (list_users d) d)
    ∙ ground (arith, any-list_users d (has_uid k), known-get_user k d)

abbrev pub is_done : Result (Unit {0}) → Bool
is_done (ok _) = true
is_done (err _) = false

-- When a push is accepted and comes to its end, the node has a user of a uid exactly if the push has a
-- usable entry for it: no user of before is left over, and none of the push is lost.
pub node_sync-exact :
    (env : Env) (now : ℕ) (secret : String) (r : RealityData) (es : List Entry) (p : Panel)
    (k : String)
    → is_done (node_sync env now secret r es p).0 ≡ true
    → known (get_user k (node_sync env now secret r es p).1.db) ≡ seen k es
unfolding node_sync
node_sync-exact env now secret r es p k h =
    let d = apply_reality_config env r.priv r.key r.sid p.db in
    ground (arith, put_all-known now k es d, reconcile-known k es (put_all now es d).1)
