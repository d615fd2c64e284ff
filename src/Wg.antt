-- ===== src/Wg.antt =====
-- app/wg.py `server_ip`, `allocate_ip`, `ensure_user_keys`, `server_config`. The subnet is an argument,
-- as Python's `ipaddress` reads it, and so is a fresh X25519 key pair. Addresses are their numbers, and
-- those of the subnet and the one after it stand below 2^32.
pub mod Allocation
use testuder.Prelude.{
  ◌≡◌, ◌≢◌, ◌↔◌, ◌⊎◌, inl, inr, ℕ, zero, suc, ◌+◌, ◌-◌, ◌*◌, ◌/◌, ◌%◌, ◌≤◌, ◌<◌, String, refl, sym,
  ap, Bool, true, false, ◌&&◌, ◌||◌, not, Option, none, some, List, [], ◌∷◌, ◌++◌, map, arith, ◌==◌,
  eq_iff, eq_refl, ltb, leb, eqb, if◌then◌else◌, Bool-cases, Option-cases, &&-split, length, take,
  drop, any, all, filter, find?, All, any-append, all-append, find?-sound, any-filter, All-append,
  All-filter, All-map, All-of_forall, All-mono, any-map, length-map, lower, truncate, strip, one_of,
  or_else, one_of-elim, coerce_to, lookup, insert, remove, lookup-insert, lookup-remove,
  lookup-insert_self, append, coerce_to-all, min, max, subst, ◌∙◌, append-nil, append_assoc, upper,
  length-append,
}
use testuder.Value.{show}
use testuder.User.{User, Field}
use testuder.Db.{Db}
use testuder.Db.Users.{update_user}

-- `taken`
abbrev pub taken : Db → String → Bool
taken d ip = any d.users (λ u. not (u.wg_ip == "") && (u.wg_ip == ip))

-- `_subnet()`
pub record Subnet : Type 0 where
  pub network : ℕ
  pub broadcast : ℕ

-- `str(ip)` of an IPv4Address
unfoldable pub ip_text : ℕ → String
unfolding show
ip_text n = append (show (n / 16777216 % 256)) (
    append "." (
      append (show (n / 65536 % 256))
        (append "." (append (show (n / 256 % 256)) (append "." (show (n % 256)))))))

-- `server_ip()`
unfoldable pub server_ip : Subnet → String
unfolding ip_text
server_ip net = ip_text (net.network + 1)

-- `while ip <= last`, with the rounds that are left
unfoldable pub first_free : ℕ → ℕ → Db → String
unfolding ip_text
first_free zero ip d = ""
first_free (suc rounds) ip d =
    let rest = first_free rounds (ip + 1) d in if taken d (ip_text ip) then rest else ip_text ip

-- `allocate_ip()`: one round for each number from `ip` to `last`
unfoldable pub allocate_ip : Subnet → Db → String
unfolding first_free
allocate_ip net d =
    let ip = net.network + 2 in let last = net.broadcast - 1 in first_free (last + 1 - ip) ip d

-- the fields that `ensure_user_keys(u)` fills in
unfoldable pub missing_keys : Subnet → String × String → User → Db → List Field
missing_keys net (priv, key) u d =
    (if (u.wg_priv == "") || (u.wg_pub == "")
      then Field.wg_priv priv ∷ Field.wg_pub key ∷ []
      else [])
    ++ (if u.wg_ip == "" then Field.wg_ip (allocate_ip net d) ∷ [] else [])

unfoldable pub or_same : Option Db → Db → Db
or_same none d = d
or_same (some d') d = d'

-- `ensure_user_keys(u)` with the crypto library there; its columns are not UNIQUE.
unfoldable pub ensure_user_keys : Subnet → String × String → User → Db → Db
unfolding or_same
ensure_user_keys net pair u d = or_same (update_user u.uid (missing_keys net pair u d) d) d

-- `"\n".join(lines)`
join_lines : List String → String
join_lines [] = ""
join_lines (l ∷ []) = l
join_lines (l ∷ m ∷ ls) = append l (append "\n" (join_lines (m ∷ ls)))

-- the `[Peer]` of one user
peer : User → List String
peer u =
    if u.enabled && not (u.wg_pub == "") && not (u.wg_ip == "")
    then "[Peer]"
      ∷ append "PublicKey = " u.wg_pub
      ∷ append "AllowedIPs = " (append u.wg_ip "/32")
      ∷ ""
      ∷ []
    else []

peers : List User → List String
unfolding peer
peers [] = []
peers (u ∷ us) = peer u ++ peers us

-- `server_config(users)`
unfoldable pub server_config : String → Subnet → String → ℕ → List User → String
unfolding join_lines peers server_ip
server_config priv net prefix port us =
    if priv == ""
    then ""
    else join_lines (
        "[Interface]"
        ∷ append "PrivateKey = " priv
        ∷ append "ListenPort = " (show port)
        ∷ append "Address = " (append (server_ip net) (append "/" prefix))
        ∷ ""
        ∷ peers us)
