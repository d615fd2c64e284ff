-- ===== src/Db/Groups.antt =====
-- app/db.py, the table `subscriptions`: groups of users behind one link.
use testuder.Prelude.{
  ℕ, ◌+◌, String, Bool, true, false, not, Option, none, some, List, [], ◌∷◌, ◌++◌, map, ◌==◌, eqb,
  if◌then◌else◌, any, filter, find?, truncate, strip, or_else,
}
use testuder.Db.{Db, Subscription}

-- `create_subscription(data)`; `none` is the IntegrityError of a key that is taken
unfoldable pub create_subscription : ℕ → Subscription → Db → Option (Subscription × Db)
create_subscription now s d =
    let row = record s {
      id = d.next_subscription;
      name = truncate 64 (or_else s.name "Subscription");
      remark = truncate 200 s.remark;
      updated_at = now;
    } in
    if any d.subscriptions (λ t. t.skey == s.skey)
    then none
    else some (
      row,
      record d {
        subscriptions = d.subscriptions ++ row ∷ [];
        next_subscription = d.next_subscription + 1;
      },
    )

-- `_decode_members(row)` drops empty uids
unfoldable pub decode_members : Subscription → Subscription
decode_members s = record s { member_uids = filter (λ u. not (u == "")) s.member_uids }

unfoldable pub decode_row : Option Subscription → Option Subscription
unfolding decode_members
decode_row none = none
decode_row (some s) = some (decode_members s)

unfoldable pub get_subscription : ℕ → Db → Option Subscription
unfolding decode_row
get_subscription id d = decode_row (find? (λ s. eqb s.id id) d.subscriptions)

unfoldable pub get_subscription_by_key : String → Db → Option Subscription
unfolding decode_row
get_subscription_by_key skey d =
    let k = strip skey in
    if k == "" then none else decode_row (find? (λ s. s.skey == k) d.subscriptions)

reverse_rows : List Subscription → List Subscription → List Subscription
reverse_rows [] acc = acc
reverse_rows (s ∷ ss) acc = reverse_rows ss (s ∷ acc)

-- `list_subscriptions()`: ORDER BY id DESC
unfoldable pub list_subscriptions : Db → List Subscription
unfolding reverse_rows decode_members
list_subscriptions d = map decode_members (reverse_rows d.subscriptions [])

pub data SubField : Type 0 where
  name remark skey : String → SubField
  member_uids : List String → SubField
  enabled include_info : Bool → SubField
  skipped : String → SubField

unfoldable pub set_sub_field : SubField → Subscription → Subscription
set_sub_field (SubField.name v) s = record s { name = v }
set_sub_field (SubField.remark v) s = record s { remark = v }
set_sub_field (SubField.skey v) s = record s { skey = v }
set_sub_field (SubField.member_uids v) s = record s { member_uids = v }
set_sub_field (SubField.enabled v) s = record s { enabled = v }
set_sub_field (SubField.include_info v) s = record s { include_info = v }
set_sub_field (SubField.skipped _) s = s

set_sub_fields : List SubField → Subscription → Subscription
set_sub_fields [] s = s
set_sub_fields (f ∷ fs) s = set_sub_fields fs (set_sub_field f s)

-- `if k not in allowed: continue`
is_column : SubField → Bool
is_column (SubField.skipped _) = false
is_column _ = true

-- `update_subscription(id, fields)`; the key is the only UNIQUE column, and it is minted fresh
unfoldable pub update_subscription : ℕ → ℕ → List SubField → Db → Db
unfolding set_sub_fields is_column
update_subscription now id fields d =
    if any fields is_column
    then record d {
      subscriptions =
          map
            (λ s. if eqb s.id id then record (set_sub_fields fields s) { updated_at = now } else s)
            d.subscriptions;
    }
    else d

unfoldable pub delete_subscription : ℕ → Db → Bool × Db
delete_subscription id d = (
  any d.subscriptions (λ s. eqb s.id id),
  record d { subscriptions = filter (λ s. not (eqb s.id id)) d.subscriptions },
)
