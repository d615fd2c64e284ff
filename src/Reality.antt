-- ===== src/Reality.antt =====
-- app/reality.py: the short ids and server names that the Reality inbound accepts, and their rotation.
-- `Keys` holds
-- the two rows of `meta` that are JSON lists, decoded; fresh ids are arguments.
pub mod Grace
use testuder.Prelude.{
  ◌≡◌, ◌≢◌, ◌↔◌, ◌⊎◌, inl, inr, ℕ, zero, suc, ◌+◌, ◌-◌, ◌*◌, ◌/◌, ◌%◌, ◌≤◌, ◌<◌, String, refl, sym,
  ap, Bool, true, false, ◌&&◌, ◌||◌, not, Option, none, some, List, [], ◌∷◌, ◌++◌, map, arith, ◌==◌,
  eq_iff, eq_refl, ltb, leb, eqb, if◌then◌else◌, Bool-cases, Option-cases, &&-split, length, take,
  drop, any, all, filter, find?, All, any-append, all-append, find?-sound, any-filter, All-append,
  All-filter, All-map, All-of_forall, All-mono, any-map, length-map, lower, truncate, strip, one_of,
  or_else, one_of-elim, coerce_to, lookup, insert, remove, lookup-insert, lookup-remove,
  lookup-insert_self, append, coerce_to-all, min, max, subst, ◌∙◌,
}
use testuder.Value.{text}
use testuder.Config.{Env}
use testuder.Settings.{get_settings, text_or}
use testuder.Db.{Db, get_meta, set_meta, set_setting}

pub record Keys : Type 0 where
  pub sids : List String
  pub snis : List String

-- `if value not in out: out.append(value)`
unfoldable pub add_new : List String → List String → List String
add_new out [] = out
add_new out (v ∷ vs) = if one_of v out then add_new out vs else add_new (out ++ v ∷ []) vs

or_list : List String → List String → List String
or_list [] d = d
or_list (x ∷ xs) d = x ∷ xs

-- `values[-12:]`
unfoldable pub last_12 : List String → List String
last_12 xs = drop (length xs - 12) xs

-- `db.get_meta(key) or ""`
abbrev pub or_empty : Option String → String
or_empty none = ""
or_empty (some v) = v

-- `accepted_short_ids()`
unfoldable pub accepted_short_ids : Keys → Db → List String
unfolding or_list
accepted_short_ids k d =
    or_list (add_new [] (k.sids ++ or_empty (get_meta "reality_sid" d) ∷ [])) ("" ∷ [])

-- `sorted({…})` of at most two texts that are not empty; which one is first has no effect on what is
-- accepted, and the order is an argument.
current_names : (String → String → Bool) → Env → Db → List String
current_names before env d =
    let a = env.reality_sni in
    let b = text_or "reality_sni" "" (get_settings d) in
    if a == ""
    then if b == "" then [] else b ∷ []
    else if (b == "") || (a == b)
    then a ∷ []
    else if before a b
    then a ∷ b ∷ []
    else b ∷ a ∷ []

-- `accepted_server_names()`
unfoldable pub accepted_server_names : (String → String → Bool) → Env → Keys → Db → List String
unfolding current_names or_list
accepted_server_names before env k d =
    let current = current_names before env d in
    or_list (add_new [] (filter (λ v. not (v == "")) (k.snis ++ current)))
      (or_list current (env.reality_sni ∷ []))

abbrev pub without : String → List String → List String
without s xs = filter (λ v. not (v == s)) xs

-- `rotate_short_id(count, keep_grace)`, its ids minted before: `sid` and `more`
unfoldable pub rotate_short_id : String → List String → Bool → Keys → Db → Keys × Db
rotate_short_id sid more keep_grace k d =
    let old = if keep_grace then accepted_short_ids k d else [] in
    (
      record k { sids = last_12 (without sid old ++ sid ∷ more) },
      set_setting "reality_sid" (text sid) (set_meta "reality_sid" sid d),
    )

-- `rotate_sni(sni, dest, keep_grace)`
unfoldable pub rotate_sni :
    (String → String → Bool) → Env → String → String → Bool → Keys → Db → Keys × Db
rotate_sni before env sni dest keep_grace k d =
    let s = strip sni in
    let t = strip dest in
    let old = if keep_grace then accepted_server_names before env k d else [] in
    let k' = if s == "" then k else record k { snis = last_12 (without s old ++ s ∷ []) } in
    let d1 = if s == "" then d else set_setting "reality_sni" (text s) d in
    (k', if t == "" then d1 else set_setting "reality_dest" (text t) d1)

-- `apply_reality_config(data)` on a node: the panel's key pair and short id
unfoldable pub apply_reality_config : Env → String → String → String → Db → Db
apply_reality_config env priv key sid d =
    if priv == ""
    then d
    else set_setting "reality_dest" (text env.reality_dest) (
        set_setting "reality_sni" (text env.reality_sni) (
          set_setting "reality_sid" (text sid) (
            set_setting "reality_pub" (text key) (
              set_meta "reality_sid" sid
                (set_meta "reality_pub" key (set_meta "reality_priv" priv d))))))

-- `ensure_reality_keys()`; `keys` is what `xray x25519` prints, and `sid` a fresh id
unfoldable pub ensure_reality_keys : Env → Option (String × String) → String → Db → Db
ensure_reality_keys env none sid d = d
ensure_reality_keys env (some (priv, key)) sid d =
    if or_empty (get_meta "reality_priv" d) == ""
    then apply_reality_config env priv key sid d
    else d
