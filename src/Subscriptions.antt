-- ===== src/Subscriptions.antt =====
-- The groups of users behind one link, app/main.py: `_group_members`, `_group_payload`, `_sub_target`
-- and the handlers under /api/subscriptions. The links of a user, `_links_for(u, request)["all"]`, are
-- a function that the payload takes; the status links of the members are left out.
pub mod Handlers
pub mod Exact
pub mod Rotation
use testuder.Prelude.{
  ◌≡◌, ◌≢◌, ◌↔◌, ◌⊎◌, inl, inr, ℕ, zero, suc, ◌+◌, ◌-◌, ◌*◌, ◌/◌, ◌%◌, ◌≤◌, ◌<◌, String, refl, sym,
  ap, Bool, true, false, ◌&&◌, ◌||◌, not, Option, none, some, List, [], ◌∷◌, ◌++◌, map, arith, ◌==◌,
  eq_iff, eq_refl, ltb, leb, eqb, if◌then◌else◌, Bool-cases, Option-cases, &&-split, length, take,
  drop, any, all, filter, find?, All, any-append, all-append, find?-sound, any-filter, All-append,
  All-filter, All-map, All-of_forall, All-mono, any-map, length-map, lower, truncate, strip, one_of,
  or_else, one_of-elim, coerce_to, lookup, insert, remove, lookup-insert, lookup-remove,
  lookup-insert_self, append, coerce_to-all, min, max, subst, ◌∙◌, append-nil, append_assoc, upper,
  length-append,
}
use testuder.Codes.{Codes, same}
use testuder.User.{User, used}
use testuder.Value.{show}
use testuder.Db.{Db, Subscription}
use testuder.Db.Users.{get_user}
use testuder.Db.Groups.{
  SubField, create_subscription, get_subscription, get_subscription_by_key, update_subscription,
  delete_subscription,
}
use testuder.Db.Events.{add_event}
use testuder.Panel.{Panel, Error, Result, Action, ok, err, http, integrity}

-- `if not u or not u.get("enabled"): continue`
unfoldable pub add_member : Option User → List User → List User
add_member none us = us
add_member (some u) us = if u.enabled then u ∷ us else us

unfoldable pub members_of : List String → Db → List User
unfolding add_member
members_of [] d = []
members_of (uid ∷ uids) d = add_member (get_user uid d) (members_of uids d)

-- `_group_members(sub)`
unfoldable pub group_members : Subscription → Db → List User
unfolding members_of
group_members sub d = members_of sub.member_uids d

-- `line in seen`
unfoldable pub seen : Codes → List Codes → Bool
seen line links = any links (λ l. same line l)

-- the loop over the links of one member
unfoldable pub add_lines : List Codes → List Codes → List Codes
unfolding seen
add_lines [] links = links
add_lines (line ∷ lines) links =
    add_lines lines (if same line [] || seen line links then links else links ++ line ∷ [])

unfoldable pub add_members : (User → List Codes) → List User → List Codes → List Codes
unfolding add_lines
add_members links_for [] links = links
add_members links_for (u ∷ us) links = add_members links_for us (add_lines (links_for u) links)

-- the expiries that are set
unfoldable pub expiries : List User → List ℕ
expiries [] = []
expiries (u ∷ us) =
    let rest = expiries us in
    elim u.expire_at [ none ↦ rest | some t ↦ if eqb t 0 then rest else t ∷ rest ]

unfoldable pub earliest : List ℕ → ℕ
earliest [] = 0
earliest (t ∷ []) = t
earliest (t ∷ s ∷ ts) = min t (earliest (s ∷ ts))

unfoldable pub sum_of : (User → ℕ) → List User → ℕ
sum_of f [] = 0
sum_of f (u ∷ us) = f u + sum_of f us

-- `if sub.get("include_info", 1): info.extend(built["info"])`
unfoldable pub all_info : Bool → (User → List Codes) → List User → List Codes
all_info false info_for us = []
all_info true info_for [] = []
all_info true info_for (u ∷ us) = info_for u ++ all_info true info_for us

-- an entry of `members`
pub record Member : Type 0 where
  pub uid : String
  pub name : String
  pub protocol : String
  pub expire_at : ℕ
  pub used : ℕ

unfoldable pub member_entry : User → Member
member_entry u = record {
  uid = u.uid;
  name = u.name;
  protocol = u.protocol;
  expire_at = elim u.expire_at [ none ↦ 0 | some t ↦ t ];
  used = used u;
}

pub record Payload : Type 0 where
  pub links : List Codes
  pub info : List Codes
  pub members : List Member
  pub used : ℕ
  pub total : ℕ
  pub expire_at : ℕ

-- `_group_payload(sub, request)`
unfoldable pub group_payload :
    (User → List Codes) → (User → List Codes) → Subscription → Db → Payload
unfolding group_members add_members expiries earliest sum_of all_info member_entry
group_payload links_for info_for sub d =
    let us = group_members sub d in
    record {
      links = add_members links_for us [];
      info = all_info sub.include_info info_for us;
      members = map member_entry us;
      used = sum_of used us;
      total = sum_of (λ u. u.quota_bytes) us;
      expire_at = earliest (expiries us);
    }

pub data Target : Type 0 where
  user : User → Target
  group : Subscription → Target

unfoldable pub of_group : Option Subscription → Option Target
of_group none = none
of_group (some s) = if s.enabled then some (group s) else none

-- users win on a clash
unfoldable pub first_target : Option User → Option Target → Option Target
first_target none t = t
first_target (some u) t = some (user u)

-- `_sub_target(key)`
unfoldable pub sub_target : String → Db → Option Target
unfolding of_group first_target
sub_target key d = first_target (get_user key d) (of_group (get_subscription_by_key key d))
