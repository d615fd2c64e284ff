-- ===== src/Protocol.antt =====
-- app/main.py `_SERVED_TRANSPORTS`, `_normalize_protocol_fields`, `_tcp_port`; app/links.py
-- `SERVED_TRANSPORTS`, `_transport_for`. Protocols, transports and securities are texts, as in the
-- database.
pub mod Served
use testuder.Prelude.{
  coerce_to, ℕ, String, Bool, true, false, ◌&&◌, ◌||◌, not, List, [], ◌∷◌, ◌==◌, one_of, or_else,
  lower, if◌then◌else◌,
}
use testuder.Config.{Env, Ports}

-- `_SERVED_TRANSPORTS.get(protocol, {"ws"})`
unfoldable pub served_transports : String → List String
served_transports p =
    if p == "vless" || p == "vmess"
    then "ws" ∷ "xhttp" ∷ "grpc" ∷ "tcp" ∷ "httpupgrade" ∷ []
    else if p == "trojan"
    then "ws" ∷ "tcp" ∷ []
    else if p == "shadowsocks" || p == "hysteria2"
    then []
    else "ws" ∷ []

-- The rules that tie the security to the protocol and the transport.
restrict_security : String → String → String → String
restrict_security p t s1 =
    let s2 =
      if p == "trojan" then "tls" else if (p == "vmess") && (s1 == "reality") then "tls" else s1 in
    if (s2 == "reality") && not (t == "tcp") then "tls" else s2

-- A transport that is not served falls back to `ws`: it is in every table that is not empty, and
-- `next(iter(set()), "ws")` is `ws` too.
served_fields : String → String → String → String × String
unfolding served_transports
served_fields p t s =
    let t' = coerce_to t (served_transports p) "ws" in
    (t', restrict_security p t' (coerce_to s ("tls" ∷ "none" ∷ "reality" ∷ []) "tls"))

-- `_normalize_protocol_fields(protocol, transport, security)`; an absent value is "".
unfoldable pub normalize_protocol_fields : String → String → String → String × String
unfolding served_fields restrict_security
normalize_protocol_fields p transport security =
    if p == "hysteria2"
    then ("", "tls")
    else if p == "wireguard"
    then ("", "")
    else served_fields p (lower (or_else transport "ws")) (lower (or_else security "tls"))

-- `_tcp_port(protocol, security)`
unfoldable pub tcp_port : Ports → String → String → ℕ
tcp_port ports protocol security =
    let p = lower (or_else protocol "vless") in
    let s = lower (or_else security "none") in
    if p == "vless"
    then if s == "tls"
      then ports.tcp_vless_tls
      else if s == "reality"
      then ports.tcp_vless_reality
      else ports.tcp_vless
    else if p == "vmess"
    then if s == "tls" then ports.tcp_vmess_tls else ports.tcp_vmess
    else if p == "trojan"
    then ports.tcp_trojan
    else ports.tcp_vless
