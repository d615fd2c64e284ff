-- ===== src/Xray/Build.antt =====
-- app/xray.py `generate_xray_config`: the inbounds, in the order in which the code appends them.
use testuder.SsKeys.{server_psk}
use testuder.Prelude.{
  ℕ, String, Bool, true, ◌&&◌, not, none, List, [], ◌∷◌, ◌++◌, ◌==◌, if◌then◌else◌,
}
use testuder.User.{User}
use testuder.Config.{Env, Ports, tls_ready, fallback_active}
use testuder.Settings.{Settings, text_or}
use testuder.Tuning.{flow_for, xhttp_server_settings}
use testuder.Xray.{Client, Stream, Inbound, Rule, apply_to_inbounds, routing_rules}
use testuder.Xray.Clients.{
  Oracle, shared_clients, tcp_clients, trojan_tcp_clients, ss_legacy, ss_2022_method,
  ss_2022_clients,
}

-- The Reality keys that the inbound needs (app/reality.py, and `meta`).
pub record RealityKeys : Type 0 where
  pub priv : String
  pub server_names : List String
  pub short_ids : List String

unfoldable pub inbound : String → ℕ → String → List Client → Stream → String → Inbound
inbound listen port protocol clients stream tag = record {
  listen = listen;
  port = port;
  protocol = protocol;
  clients = clients;
  method = "";
  password = [];
  stream = stream;
  fallbacks = [];
  tag = tag;
  sockopt = [];
  sniffing = none;
}

-- `if clients: inbounds.append(…)`
unfoldable pub when_any : List Client → Inbound → List Inbound
when_any [] ib = []
when_any (c ∷ cs) ib = ib ∷ []

abbrev pub local : String
local = "127.0.0.1"

abbrev pub public : String
public = "0.0.0.0"

-- an inbound that exists only while somebody uses it
unfoldable pub offer : Bool → String → ℕ → String → List Client → Stream → String → List Inbound
unfolding when_any inbound
offer b listen port protocol clients stream tag =
    if b then when_any clients (inbound listen port protocol clients stream tag) else []

unfoldable pub api_inbound : Ports → Inbound
unfolding inbound
api_inbound ports = inbound local ports.api "dokodemo-door" [] Stream.bare "api"

-- the WebSocket, XHTTP, HTTPUpgrade and gRPC inbounds
unfoldable pub shared_inbounds : Env → Settings → List User → List (List Inbound)
shared_inbounds env s us =
    let ports = env.ports in
    let vless = shared_clients "vless" us in
    let vmess = shared_clients "vmess" us in
    let fb = fallback_active env in
    let xhttp = Stream.xhttp (xhttp_server_settings s "/xhttp") in
    offer true local ports.vless_ws "vless" vless (Stream.ws "/vl-ws" fb) "in-vless-ws"
    ∷ offer true local ports.vmess_ws "vmess" vmess (Stream.ws "/vm-ws" fb) "in-vmess-ws"
    ∷ offer true local ports.trojan_ws "trojan" (shared_clients "trojan" us) (Stream.ws "/tr-ws" fb)
        "in-trojan-ws"
    ∷ offer true local ports.xhttp "vless" vless xhttp "in-vless-xhttp"
    ∷ offer true local ports.xhttp "vmess" vmess xhttp "in-vmess-xhttp"
    ∷ offer true local ports.httpupgrade "vless" vless (Stream.httpupgrade "/hup")
        "in-vless-httpupgrade"
    ∷ offer true local ports.httpupgrade "vmess" vmess (Stream.httpupgrade "/hup")
        "in-vmess-httpupgrade"
    ∷ offer true local ports.grpc "vless" vless (Stream.grpc "titan") "in-vless-grpc"
    ∷ offer true local ports.grpc "vmess" vmess (Stream.grpc "titan") "in-vmess-grpc"
    ∷ []

unfoldable pub ss_2022_inbound : Oracle → Env → Settings → List User → List Inbound
unfolding when_any inbound
ss_2022_inbound o env s us =
    let m = ss_2022_method o env s us in
    let cs = ss_2022_clients o env s us in
    when_any cs
      (record (inbound local env.ports.ss_2022 "shadowsocks" cs Stream.bare "in-ss-2022") {
        method = m;
        password = server_psk o.sha256 m;
      })

unfoldable pub fallback_inbound : Env → List Client → List Inbound
unfolding when_any inbound
fallback_inbound env cs =
    let ports = env.ports in
    if fallback_active env
    then when_any cs
        (record (inbound public env.fallback_port "vless" cs (Stream.tcp_tls ("http/1.1" ∷ []))
          "in-vless-fallback") {
            fallbacks =
                ("/vl-ws", ports.vless_ws)
                ∷ ("/vm-ws", ports.vmess_ws)
                ∷ ("/tr-ws", ports.trojan_ws)
                ∷ [];
          })
    else []

or_names : List String → String → List String
or_names [] d = d ∷ []
or_names (n ∷ ns) d = n ∷ ns

-- the raw-TCP inbounds, the single-port fallback and Reality
unfoldable pub tcp_inbounds : Env → Settings → RealityKeys → List User → List (List Inbound)
unfolding or_names
tcp_inbounds env s r us =
    let ports = env.ports in
    let tls = Stream.tcp_tls ("h2" ∷ "http/1.1" ∷ []) in
    let vless_tls = tcp_clients "" "vless" "" "tls" us in
    offer true public ports.tcp_vless "vless" (tcp_clients "" "vless" "none" "none" us)
      Stream.tcp_plain "in-vless-tcp"
    ∷ offer true public ports.tcp_vmess "vmess" (tcp_clients "" "vmess" "none" "none" us)
        Stream.tcp_plain "in-vmess-tcp"
    ∷ offer (tls_ready env && not (fallback_active env)) public ports.tcp_vless_tls "vless"
        vless_tls tls "in-vless-tcp-tls"
    ∷ offer (tls_ready env) public ports.tcp_vmess_tls "vmess" (tcp_clients "" "vmess" "" "tls" us)
        tls "in-vmess-tcp-tls"
    ∷ offer (tls_ready env) public ports.tcp_trojan "trojan" (trojan_tcp_clients us) tls
        "in-trojan-tcp"
    ∷ fallback_inbound env vless_tls
    ∷ offer (not (r.priv == "")) public ports.tcp_vless_reality "vless"
        (tcp_clients (flow_for s "tcp" "reality") "vless" "" "reality" us)
        (Stream.tcp_reality (text_or "reality_dest" env.reality_dest s)
          (or_names r.server_names env.reality_sni) r.priv r.short_ids)
        "in-vless-reality"
    ∷ []

unfoldable pub concat : List (List Inbound) → List Inbound
concat [] = []
concat (p ∷ ps) = p ++ concat ps

unfoldable pub ss_inbound : Oracle → Env → Settings → List User → List Inbound
ss_inbound o env s us =
    offer true local env.ports.ss "shadowsocks" (ss_legacy o env s us) Stream.bare "in-ss"

unfoldable pub hy2_inbound : Env → List User → List Inbound
hy2_inbound env us =
    offer (tls_ready env) public env.ports.hy2 "hysteria" (shared_clients "hysteria2" us)
      (Stream.hysteria env.hy2_obfs env.hy2_masquerade_url) "in-hysteria2"

-- the parts of `inbounds` before tuning
unfoldable pub parts : Oracle → Env → Settings → RealityKeys → List User → List (List Inbound)
unfolding api_inbound shared_inbounds tcp_inbounds
parts o env s r us =
    (api_inbound env.ports ∷ [])
    ∷ (shared_inbounds env s us
        ++ ss_inbound o env s us
          ∷ ss_2022_inbound o env s us
          ∷ (tcp_inbounds env s r us ++ hy2_inbound env us ∷ []))

-- `generate_xray_config()`, for the users that this process serves
unfoldable pub generate_xray_config :
    Oracle → Env → Settings → RealityKeys → List User → List Inbound × List Rule
unfolding concat parts
generate_xray_config o env s r us =
    (apply_to_inbounds (concat (parts o env s r us)) s, routing_rules s)
