-- ===== src/Subscriptions/Rotation.antt =====
-- What a rotation of a group's key does to the links under /sub.
use testuder.Subscriptions.Handlers.{api_rotate_subscription, rotate_row}
use testuder.Db.Groups.{
  get_subscription, get_subscription_by_key, update_subscription, decode_row, decode_members,
  set_sub_field,
}
use testuder.Subscriptions.{Target, first_target, of_group, sub_target}
use testuder.Panel.{Panel}
use testuder.Value.{show}
use testuder.Db.Events.{add_event}
use testuder.Db.Users.{get_user}
use testuder.Prelude.{
  ◌≡◌, ℕ, String, refl, ap, true, false, none, some, List, [], ◌∷◌, map, arith, ◌==◌, eq_refl, eqb,
  if◌then◌else◌, any, find?, All, strip, ◌∙◌,
}
use testuder.Db.{Db, Subscription}

-- only the group has the key
abbrev pub Only : String → ℕ → List Subscription → Type 0
Only key id ss = All (λ s. (s.skey == key) ≡ true → eqb s.id id ≡ true) ss

-- no row of the group's id, after the others, under a key that none of them has
rotate : String → ℕ → ℕ → List Subscription → List Subscription
rotate key now id ss =
    map (λ s. if eqb s.id id then record s { skey = key; updated_at = now } else s) ss

old_gone :
    (old key : String) (now id : ℕ) (ss : List Subscription)
    → Only old id ss
    → (key == old) ≡ false
    → find? (λ s. s.skey == old) (rotate key now id ss) ≡ none
unfolding rotate
old_gone old key now id [] h n = refl
old_gone old key now id (s ∷ ss) h n = ground (arith, old_gone old key now id ss h.1 n, h.0)

new_found :
    (key : String) (now id : ℕ) (ss : List Subscription) (t : Subscription)
    → any ss (λ s. s.skey == key) ≡ false
    → find? (λ s. eqb s.id id) ss ≡ some t
    → find? (λ s. s.skey == key) (rotate key now id ss)
      ≡ some (record t { skey = key; updated_at = now })
unfolding rotate
new_found key now id [] t n f = ground arith
new_found key now id (s ∷ ss) t n f = ground (arith, new_found key now id ss t, eq_refl key)

by_key :
    (key : String) (d : Db)
    → get_user key d ≡ none
    → sub_target key d ≡ of_group (get_subscription_by_key key d)
unfolding sub_target first_target
by_key key d h = ap (λ o. first_target o (of_group (get_subscription_by_key key d))) h

found_row :
    (id : ℕ) (d : Db) (t : Subscription)
    → find? (λ s. eqb s.id id) d.subscriptions ≡ some t
    → get_subscription id d ≡ some (decode_members t)
unfolding get_subscription decode_row
found_row id d t f = ap decode_row f

found_key :
    (key : String) (d : Db)
    → strip key ≡ key
    → (key == "") ≡ false
    → get_subscription_by_key key d ≡ decode_row (find? (λ s. s.skey == key) d.subscriptions)
unfolding get_subscription_by_key
found_key key d h n = rw (h, n)

no_key :
    (key : String) (d : Db)
    → strip key ≡ key
    → find? (λ s. s.skey == key) d.subscriptions ≡ none
    → get_subscription_by_key key d ≡ none
unfolding get_subscription_by_key decode_row
no_key key d h n = rw h (ground (arith, ap decode_row n))

-- the database after a rotation
rotated : ℕ → String → String → ℕ → Db → Db
rotated now ip key id d =
    add_event now "info" "sub-rotate" (show id) ip
      (record d { subscriptions = rotate key now id d.subscriptions })

api_rotate-rotated :
    (now : ℕ) (ip key : String) (id : ℕ) (p : Panel) (t : Subscription)
    → find? (λ s. eqb s.id id) p.db.subscriptions ≡ some t
    → (api_rotate_subscription now ip key id p).1.db ≡ rotated now ip key id p.db
unfolding api_rotate_subscription rotate_row update_subscription rotate rotated set_sub_field
api_rotate-rotated now ip key id p t f =
    ap (λ o. (rotate_row now ip key id o p).1.db) (found_row id p.db t f)

-- After the key of an enabled group is rotated to a fresh one, where no uid is either key: the new
-- key serves the group, with its members, and an old key that only this group had serves nothing.
pub sub_target-rotate :
    (now : ℕ) (ip key old : String) (id : ℕ) (p : Panel) (t : Subscription)
    → find? (λ s. eqb s.id id) p.db.subscriptions ≡ some t
    → t.enabled ≡ true
    → get_user key p.db ≡ none
    → get_user old p.db ≡ none
    → strip key ≡ key
    → strip old ≡ old
    → (key == "") ≡ false
    → (key == old) ≡ false
    → any p.db.subscriptions (λ s. s.skey == key) ≡ false
    → Only old id p.db.subscriptions
    → (sub_target key (api_rotate_subscription now ip key id p).1.db
        ≡ some (Target.group (decode_members (record t { skey = key; updated_at = now }))))
      × (sub_target old (api_rotate_subscription now ip key id p).1.db ≡ none)
unfolding rotated add_event get_user of_group decode_row
sub_target-rotate now ip key old id p t f on uk uo sk so ne differ fresh only =
    let e = api_rotate-rotated now ip key id p t f in
    let d = rotated now ip key id p.db in
    (
      ap (sub_target key) e
          ∙ by_key key d uk
          ∙ ap of_group (
              found_key key d sk ne
              ∙ ap decode_row (new_found key now id p.db.subscriptions t fresh f))
          ∙ rw on,
      ap (sub_target old) e
          ∙ by_key old d uo
          ∙ ap of_group (no_key old d so (old_gone old key now id p.db.subscriptions only differ)),
    )
