-- ===== src/Db.antt =====
-- app/db.py: the tables, as one record. Each statement of the module is a function on it; the
-- children hold them by table. The process-wide lock makes every one atomic.
pub mod Users
pub mod Nodes
pub mod Events
pub mod Traffic
pub mod Groups
use testuder.Prelude.{
  ◌≡◌, ◌≢◌, ◌↔◌, ◌⊎◌, inl, inr, ℕ, zero, suc, ◌+◌, ◌-◌, ◌*◌, ◌/◌, ◌%◌, ◌≤◌, ◌<◌, String, refl, sym,
  ap, Bool, true, false, ◌&&◌, ◌||◌, not, Option, none, some, List, [], ◌∷◌, ◌++◌, map, arith, ◌==◌,
  eq_iff, eq_refl, ltb, leb, eqb, if◌then◌else◌, Bool-cases, Option-cases, &&-split, length, take,
  any, all, filter, find?, All, any-append, all-append, find?-sound, any-filter, All-append,
  All-filter, All-map, All-of_forall, All-mono, any-map, length-map, lower, truncate, strip, one_of,
  or_else, one_of-elim, coerce_to, lookup, insert, remove, lookup-insert, lookup-remove,
  lookup-insert_self,
}
use testuder.Value.{Value}
use testuder.User.{User}

pub record Admin : Type 0 where
  pub username : String
  pub password_hash : String
  pub salt : String
  pub created_at : ℕ

pub record Node : Type 0 where
  pub id : ℕ
  pub name : String
  pub address : String
  pub city : String
  pub country : String
  pub country_code : String
  pub flag : String
  pub token : String
  pub wg_pub : String
  pub is_local : Bool
  pub enabled : Bool
  pub last_seen : ℕ

pub record Event : Type 0 where
  pub ts : ℕ
  pub level : String
  pub action : String
  pub detail : String
  pub ip : String

pub record Subscription : Type 0 where
  pub id : ℕ
  pub skey : String
  pub name : String
  pub remark : String
  pub member_uids : List String
  pub enabled : Bool
  pub include_info : Bool
  pub updated_at : ℕ

pub record Bucket : Type 0 where
  pub at : ℕ
  pub up : ℕ
  pub down : ℕ

-- `events` is newest first; the other tables are in the order of their row ids.
pub record Db : Type 0 where
  pub meta : List (String × String)
  pub admin : Option Admin
  pub settings : List (String × Value)
  pub users : List User
  pub next_user : ℕ
  pub events : List Event
  pub nodes : List Node
  pub next_node : ℕ
  pub subscriptions : List Subscription
  pub next_subscription : ℕ
  pub traffic : List Bucket

unfoldable pub get_meta : String → Db → Option String
get_meta key d = lookup key d.meta

unfoldable pub set_meta : String → String → Db → Db
set_meta key value d = record d { meta = insert key value d.meta }

unfoldable pub set_admin : ℕ → String → String → String → Db → Db
set_admin now username password_hash salt d = record d {
  admin = some (record {
    username = username;
    password_hash = password_hash;
    salt = salt;
    created_at = now;
  });
}

unfoldable pub set_setting : String → Value → Db → Db
set_setting key value d = record d { settings = insert key value d.settings }

-- `set_settings(mapping)`
unfoldable pub set_settings : List (String × Value) → Db → Db
set_settings [] d = d
set_settings ((k, v) ∷ m) d = set_settings m (set_setting k v d)
