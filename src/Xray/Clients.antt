-- ===== src/Xray/Clients.antt =====
-- app/xray.py `generate_xray_config`: the lists of clients, by the rows they are made of.
use testuder.SsKeys.{psk_inbound}
use testuder.Prelude.{
  ℕ, String, Bool, ◌&&◌, not, List, [], map, ◌==◌, filter, one_of, or_else, coerce_to,
}
use testuder.User.{User}
use testuder.Config.{Env, ss_2022_methods}
use testuder.Settings.{Settings, text_or}
use testuder.Xray.{Codes, Client}

-- SHA-256, and `next(iter(methods))`
pub record Oracle : Type 0 where
  pub sha256 : List ℕ → List ℕ
  pub first : List String → String

abbrev pub client : String → String → String → String → Codes → Client
client id email flow method password = record {
  id = id;
  email = email;
  flow = flow;
  method = method;
  password = password;
}

-- `mk_client(u, flow)`, and Trojan's and Hysteria2's entries: a row has no `password`.
unfoldable pub mk_client : String → User → Client
mk_client flow u = client u.uuid u.uid flow "" []

-- `u["enabled"] and u["protocol"] == p`
abbrev pub enabled_on : String → User → Bool
enabled_on p u = u.enabled && (u.protocol == p)

-- `u.get("transport") == "tcp" and u["protocol"] == p`
abbrev pub raw_tcp : String → User → Bool
raw_tcp p u = (u.transport == "tcp") && (u.protocol == p)

unfoldable pub shared_clients : String → List User → List Client
shared_clients p us = map (mk_client "") (filter (enabled_on p) us)

-- the raw-TCP clients of a protocol and a security: `(u.get("security") or d) == s`
unfoldable pub tcp_clients : String → String → String → String → List User → List Client
tcp_clients flow p d s us =
    map (mk_client flow) (filter (λ u. raw_tcp p u && (or_else u.security d == s)) us)

unfoldable pub trojan_tcp_clients : List User → List Client
trojan_tcp_clients us = map (mk_client "") (filter (raw_tcp "trojan") us)

-- `u.get("ss_method") or settings.get("ss_method") or DEFAULT_SS_METHOD`
unfoldable pub ss_method : Env → Settings → User → String
ss_method env s u = or_else u.ss_method (text_or "ss_method" env.default_ss_method s)

abbrev pub is_2022 : Env → Settings → User → Bool
is_2022 env s u = one_of (ss_method env s u) ss_2022_methods

unfoldable pub ss_users : List User → List User
ss_users us = filter (enabled_on "shadowsocks") us

unfoldable pub ss_client : Oracle → Env → Settings → User → Client
ss_client o env s u =
    client "" u.uid "" (ss_method env s u) (psk_inbound o.sha256 u.uuid (ss_method env s u))

unfoldable pub ss_legacy : Oracle → Env → Settings → List User → List Client
unfolding ss_client
ss_legacy o env s us = map (ss_client o env s) (filter (λ u. not (is_2022 env s u)) (ss_users us))

-- the method of the 2022 inbound
unfoldable pub ss_2022_method : Oracle → Env → Settings → List User → String
ss_2022_method o env s us =
    coerce_to
      (o.first (filter (λ m. one_of m ss_2022_methods) (map (ss_method env s) (ss_users us))))
      ss_2022_methods env.default_ss_method

unfoldable pub ss_2022_clients : Oracle → Env → Settings → List User → List Client
ss_2022_clients o env s us =
    map (λ u. client "" u.uid "" "" (psk_inbound o.sha256 u.uuid (ss_2022_method o env s us)))
      (filter (is_2022 env s) (ss_users us))
