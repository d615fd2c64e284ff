-- ===== src/Endpoint.antt =====
-- app/main.py `_user_endpoint`: the host and port that a user's link names.
pub mod Agree
use testuder.Prelude.{
  ◌≡◌, ◌≢◌, ◌↔◌, ◌⊎◌, inl, inr, ℕ, zero, suc, ◌+◌, ◌-◌, ◌*◌, ◌/◌, ◌%◌, ◌≤◌, ◌<◌, String, refl, sym,
  ap, Bool, true, false, ◌&&◌, ◌||◌, not, Option, none, some, List, [], ◌∷◌, ◌++◌, map, arith, ◌==◌,
  eq_iff, eq_refl, ltb, leb, eqb, if◌then◌else◌, Bool-cases, Option-cases, &&-split, length, take,
  drop, any, all, filter, find?, All, any-append, all-append, find?-sound, any-filter, All-append,
  All-filter, All-map, All-of_forall, All-mono, any-map, length-map, lower, truncate, strip, one_of,
  or_else, one_of-elim, coerce_to, lookup, insert, remove, lookup-insert, lookup-remove,
  lookup-insert_self, append, coerce_to-all, min, max, subst, ◌∙◌, append-nil, append_assoc, upper,
  length-append,
}
use testuder.Prelude.Int.{ℤ, pos}
use testuder.Value.{Value, num, truthy, to_int}
use testuder.User.{User}
use testuder.Config.{Env, Ports, ss_2022_methods, fallback_active}
use testuder.Settings.{Settings, get, text_or}
use testuder.Protocol.{tcp_port}

port_or_443 : Option ℤ → ℕ
port_or_443 (some (pos n)) = if leb 1 n && leb n 65535 then n else 443
port_or_443 _ = 443

-- `_link_port(settings)`
unfoldable pub link_port : Settings → ℕ
unfolding port_or_443
link_port s =
    let v = get "public_port" s in port_or_443 (to_int (if truthy v then v else num (pos 443)))

-- the end of `_user_endpoint`, on the lower-cased columns
unfoldable pub dial : Env → String → String → String → String → ℕ → ℕ
dial env proto transport sec method base =
    let ports = env.ports in
    if proto == "wireguard"
    then ports.wg
    else if proto == "hysteria2"
    then ports.hy2
    else if proto == "shadowsocks"
    then if one_of method ss_2022_methods then ports.ss_2022 else ports.ss
    else if transport == "tcp"
    then if (proto == "vless") && (sec == "tls") && fallback_active env
      then env.fallback_port
      else tcp_port ports proto sec
    else base

-- the port of a user's link; `base` is the one that the host part has decided
unfoldable pub dial_port : Env → Settings → User → ℕ → ℕ
unfolding dial
dial_port env s u base =
    dial env (lower (or_else u.protocol "vless")) (lower (or_else u.transport "ws"))
      (lower (or_else u.security "none"))
      (lower (or_else u.ss_method (text_or "ss_method" env.default_ss_method s))) base
