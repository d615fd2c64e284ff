-- ===== src/Subscriptions/Handlers.antt =====
-- The handlers under /api/subscriptions of app/main.py that change groups.
use testuder.Prelude.{
  ℕ, String, Bool, true, false, not, Option, none, some, List, [], ◌∷◌, map, ◌==◌, if◌then◌else◌,
  length, take, filter, truncate, strip, append,
}
use testuder.Value.{show}
use testuder.Db.{Db, Subscription}
use testuder.Db.Users.{get_user}
use testuder.Db.Groups.{
  SubField, create_subscription, get_subscription, update_subscription, delete_subscription,
}
use testuder.Db.Events.{add_event}
use testuder.Panel.{Error, Action, ok, err, http, integrity}

-- `[str(u) for u in … if str(u).strip()]`
unfoldable pub given_uids : List String → List String
given_uids uids = filter (λ u. not (strip u == "")) uids

-- `[u for u in uids if not db.get_user(u)]`
unfoldable pub unknown : List String → Db → List String
unknown uids d = filter (λ u. elim (get_user u d) [ none ↦ true | some _ ↦ false ]) uids

commas : List String → String
commas [] = ""
commas (u ∷ []) = u
commas (u ∷ v ∷ us) = append u (append "," (commas (v ∷ us)))

unfoldable pub unknown_users : List String → Error
unfolding commas
unknown_users us = http 400 (append "unknown-users: " (commas (take 5 us)))

-- the body of `POST /api/subscriptions`
pub record NewGroup : Type 0 where
  pub name : String
  pub remark : String
  pub member_uids : List String
  pub include_info : Bool

-- `api_create_subscription`; `skey` is the key that is minted
unfoldable pub api_create_subscription : ℕ → String → String → NewGroup → Action Subscription
unfolding given_uids unknown unknown_users
api_create_subscription now ip skey g p =
    let name = truncate 64 (strip g.name) in
    let uids = given_uids g.member_uids in
    if name == "" then (err (http 400 "name-required"), p) else elim (unknown uids p.db) [
      | u ∷ us ↦ (err (unknown_users (u ∷ us)), p)
      | [] ↦
          elim (create_subscription now
            (record {
              id = 0;
              skey = skey;
              name = name;
              remark = truncate 200 g.remark;
              member_uids = uids;
              enabled = true;
              include_info = g.include_info;
              updated_at = now;
            })
            p.db) [
              | none ↦ (err integrity, p)
              | some (sub, d) ↦ (
                ok sub,
                record p {
                  db =
                      add_event now "info" "sub-create"
                        (append name (append " (" (append (show (length uids)) " users)"))) ip d;
                },
              )
            ]
    ]

-- the keys that a `PATCH` reads
is_patch_key : SubField → Bool
is_patch_key (SubField.skey _) = false
is_patch_key (SubField.skipped _) = false
is_patch_key _ = true

-- the uids without the blank ones
unfoldable pub clean_field : SubField → SubField
clean_field (SubField.member_uids v) = SubField.member_uids (given_uids v)
clean_field f = f

unfoldable pub field_error : Db → SubField → Option Error
unfolding given_uids unknown unknown_users
field_error d (SubField.member_uids v) = elim (unknown (given_uids v) d) [
  | [] ↦ none
  | u ∷ us ↦ some (unknown_users (u ∷ us))
]
field_error d (SubField.name v) = if strip v == "" then some (http 400 "name-required") else none
field_error d _ = none

-- the members are looked at before the name
first_error : Db → List SubField → Option Error → Option Error
unfolding field_error
first_error d [] later = later
first_error d (SubField.member_uids v ∷ fs) later = elim (field_error d (SubField.member_uids v)) [
  | some e ↦ some e
  | none ↦ first_error d fs later
]
first_error d (f ∷ fs) later =
    first_error d fs (elim later [ some e ↦ some e | none ↦ field_error d f ])

-- `api_update_subscription`
unfoldable pub api_update_subscription :
    ℕ → String → ℕ → List SubField → Action (Option Subscription)
unfolding first_error clean_field is_patch_key
api_update_subscription now ip id payload p =
    let fields = filter is_patch_key payload in
    elim (get_subscription id p.db) [
      | none ↦ (err (http 404 "not-found"), p)
      | some _ ↦ elim (first_error p.db fields none) [
        | some e ↦ (err e, p)
        | none ↦
            let d = update_subscription now id (map clean_field fields) p.db in
            (
              ok (get_subscription id d),
              record p { db = add_event now "info" "sub-update" (show id) ip d },
            )
      ]
    ]

unfoldable pub api_delete_subscription : ℕ → String → ℕ → Action (Unit {0})
api_delete_subscription now ip id p = elim (get_subscription id p.db) [
  | none ↦ (err (http 404 "not-found"), p)
  | some _ ↦ (
    ok tt,
    record p {
      db = add_event now "info" "sub-delete" (show id) ip (delete_subscription id p.db).1;
    },
  )
]

-- once the group is looked up
unfoldable pub rotate_row :
    ℕ → String → String → ℕ → Option Subscription → Action (Option Subscription)
rotate_row now ip skey id none p = (err (http 404 "not-found"), p)
rotate_row now ip skey id (some _) p =
    let d = update_subscription now id (SubField.skey skey ∷ []) p.db in
    (ok (get_subscription id d), record p { db = add_event now "info" "sub-rotate" (show id) ip d })

-- `api_rotate_subscription`; `skey` is the key that is minted
unfoldable pub api_rotate_subscription : ℕ → String → String → ℕ → Action (Option Subscription)
unfolding rotate_row
api_rotate_subscription now ip skey id p = rotate_row now ip skey id (get_subscription id p.db) p
