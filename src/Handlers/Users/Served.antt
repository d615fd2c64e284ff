-- ===== src/Handlers/Users/Served.antt =====
-- `api_create_user` and `api_update_user` keep to what the inbounds can serve.
use testuder.Prelude.{
  ◌≡◌, inl, inr, ℕ, String, refl, Bool, true, false, ◌||◌, Option, none, some, arith, ◌==◌, eq_refl,
  if◌then◌else◌, Bool-cases, Option-cases, one_of, append,
}
use mathlib.Core.Option
use testuder.User.{User, set_field, set_fields}
use testuder.Config.{Env, valid_protocols}
use testuder.Settings.{get_settings}
use testuder.Protocol.Served.{is_served, normalize-is_served}
use testuder.Db.{Db}
use testuder.Db.Users.{get_user, update_user, create_user}
use testuder.Db.Users.Laws.{get_user-add_event, get_user-update_user, get_user-create_user}
use testuder.Wg.{Subnet, or_same, ensure_user_keys, missing_keys}
use testuder.Panel.{Panel, Result, ok, err}
use testuder.Handlers.Users.{
  announce, NewUser, new_row, create_row, api_create_user, or_text, keyed,
}

-- The columns that decide how a row is served.
abbrev pub row_served : User → Bool
row_served u = is_served u.protocol u.transport u.security

abbrev pub test : (User → Bool) → Option User → Bool
test q none = false
test q (some u) = q u

abbrev pub is_done : {A : Type 0} → Result A → Bool
is_done (ok _) = true
is_done (err _) = false

new_row-served :
    (env : Env) (now : ℕ) (uid uuid : String) (n : NewUser) (d : Db)
    → one_of (new_row env (get_settings d) now uid uuid n).protocol valid_protocols ≡ true
    → row_served (new_row env (get_settings d) now uid uuid n) ≡ true
unfolding new_row
new_row-served env now uid uuid n d h =
    normalize-is_served (or_text n.protocol "vless") _ n.security h

missing_keys-served :
    (net : Subnet) (pair : String × String) (u v : User) (d : Db)
    → row_served (set_fields (missing_keys net pair u d) v) ≡ row_served v
unfolding missing_keys set_fields set_field
missing_keys-served net pair u v d = elim (Bool-cases ((u.wg_priv == "") || (u.wg_pub == ""))) [
  | inl a ↦ elim (Bool-cases (u.wg_ip == "")) [ inl b ↦ rw (a, b) refl | inr b ↦ rw (a, b) refl ]
  | inr a ↦ elim (Bool-cases (u.wg_ip == "")) [ inl b ↦ rw (a, b) refl | inr b ↦ rw (a, b) refl ]
]

-- Keys and address of WireGuard leave the other columns alone.
get_user-ensure_user_keys :
    (k : String) (net : Subnet) (pair : String × String) (u : User) (d : Db)
    → test row_served (get_user k (ensure_user_keys net pair u d)) ≡ test row_served (get_user k d)
unfolding ensure_user_keys or_same
get_user-ensure_user_keys k net pair u d =
    elim (Option-cases (update_user u.uid (missing_keys net pair u d) d)) [
      | inl e ↦ rw e refl
      | inr (d', e) ↦
          rw e (same d' (get_user-update_user k u.uid (missing_keys net pair u d) d d' e))
    ]
  where
    same :
        (d' : Db)
        → get_user k d' ≡ (
            if u.uid == k
            then Option.map (set_fields (missing_keys net pair u d)) (get_user k d)
            else get_user k d)
        → test row_served (get_user k d') ≡ test row_served (get_user k d)
    same d' h = elim (Option-cases (get_user k d)) [
      | inl e ↦ ground (arith, h, e)
      | inr (v, e) ↦ ground (arith, h, e, missing_keys-served net pair u v d)
    ]

pub get_user-keyed :
    (k : String) (net : Subnet) (pair : String × String) (u : Option User) (d : Db)
    → test row_served (get_user k (keyed net pair u d)) ≡ test row_served (get_user k d)
unfolding keyed
get_user-keyed k net pair none d = refl
get_user-keyed k net pair (some u) d = elim (Bool-cases (u.protocol == "wireguard")) [
  | inl e ↦ rw e (get_user-ensure_user_keys k net pair u d)
  | inr e ↦ rw e refl
]

create_row-served :
    (net : Subnet) (pair : String × String) (u : User) (d d' : Db)
    → create_row net pair u d ≡ some d'
    → row_served u ≡ true
    → test row_served (get_user u.uid d') ≡ true
unfolding create_row
create_row-served net pair u d d' h s = elim (Option-cases (create_user u d)) [
  | inl e ↦ ground arith
  | inr (b, e) ↦ ground (
    arith,
    eq_refl u.uid,
    get_user-create_user u.uid u d b e,
    get_user-keyed u.uid net pair (get_user u.uid b) b,
  )
]

-- A user that `api_create_user` creates is stored with a protocol, a transport and a security that the
-- generated inbounds serve together, whatever the body asked for.
pub create-served :
    (env : Env) (now : ℕ) (ip uid uuid : String) (net : Subnet) (pair : String × String)
    (n : NewUser) (p : Panel)
    → is_done (api_create_user env now ip uid uuid net pair n p).0 ≡ true
    → test row_served (get_user uid (api_create_user env now ip uid uuid net pair n p).1.db) ≡ true
unfolding api_create_user announce
create-served env now ip uid uuid net pair n p h =
    let u = new_row env (get_settings p.db) now uid uuid n in
    elim (Bool-cases (one_of u.protocol valid_protocols)) [
      | inl v ↦ elim (Option-cases (create_row net pair u p.db)) [
        | inl e ↦ ground arith
        | inr (d, e) ↦ ground (
          arith,
          get_user-add_event uid now "info" "user-create"
              (append u.name (append " (" (append u.protocol ")"))) ip d,
          created d e (new_row-served env now uid uuid n p.db v),
        )
      ]
      | inr v ↦ ground arith
    ]
  where
    created :
        (d : Db)
        → create_row net pair (new_row env (get_settings p.db) now uid uuid n) p.db ≡ some d
        → row_served (new_row env (get_settings p.db) now uid uuid n) ≡ true
        → test row_served (get_user uid d) ≡ true
    created d e s =
        unfold new_row in
        create_row-served net pair (new_row env (get_settings p.db) now uid uuid n) p.db d e s
