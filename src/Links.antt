-- ===== src/Links.antt =====
-- app/links.py: the links that a subscriber gets. A link is made of code points; its query is put
-- together from pairs of a key and a value, in the order of the source.
pub mod Tame
use testuder.Prelude.{
  ℕ, String, ◌&&◌, List, [], ◌∷◌, ◌++◌, map, ◌==◌, if◌then◌else◌, lower, one_of, or_else, coerce_to,
  append, upper,
}
use testuder.Codes.{Codes, codes, join}
use testuder.Codes.Decimal.{decimal}
use testuder.Url.{quote, encode_utf8}
use testuder.Base64.{encode, standard, url_safe, unpad}
use testuder.Json.{dumps}
use testuder.SsKeys.{psk_link}
use testuder.Settings.{Settings, get_text, text_or}
use testuder.User.{User}
use testuder.Tuning.{
  fragment_in_link, fragment_values, xhttp_mode, client_only_modes, flow_for, wg_conf,
}
use testuder.Protocol.{served_transports}
use testuder.Config.{Env, ss_methods, ss_2022_methods}
use testuder.Value.{show}

-- A value in a query: `quote(s, safe)`, or a text as it is.
pub data Part : Type 0 where
  quoted : String → String → Part
  raw : String → Part

abbrev pub rendered : Part → Codes
rendered (Part.quoted safe s) = quote (codes safe) (codes s)
rendered (Part.raw s) = codes s

abbrev pub Pairs : Type 0
Pairs = List (String × Part)

abbrev pub pair : String × Part → Codes
pair (k, v) = codes k ++ b'=' ∷ rendered v

-- `k=v&k=v…`
unfoldable pub query : Pairs → Codes
query ps = join b'&' (map pair ps)

-- `quote(s, safe="")`, and `quote(s)`, which keeps "/"
abbrev pub quote_all : String → Codes
quote_all s = quote [] (codes s)

abbrev pub quote_path : String → Codes
quote_path s = quote (b'/' ∷ []) (codes s)

-- `{scheme}://{credential}@{host}:{port}`
unfoldable pub address : String → Codes → String → ℕ → Codes
address scheme credential host port =
    codes scheme ++ (codes "://" ++ (credential ++ (b'@' ∷ (codes host ++ (b':' ∷ decimal port)))))

-- `{address}?{query}#{name}`
unfoldable pub uri : String → Codes → String → ℕ → Pairs → Codes → Codes
uri scheme credential host port ps name =
    codes scheme
    ++ (codes "://"
        ++ (credential
            ++ (b'@'
                ∷ (codes host ++ (b':' ∷ (decimal port ++ (b'?' ∷ (query ps ++ (b'#' ∷ name)))))))))

-- `_transport_for(user, settings)`
unfoldable pub transport_for : User → Settings → String
transport_for u s =
    coerce_to (lower (or_else (or_else u.transport (get_text "default_transport" "ws" s)) "ws"))
      (served_transports (lower u.protocol)) "ws"

-- `_fragment_params(settings)`, quoted
unfoldable pub fragment_params : Settings → Pairs
fragment_params s =
    if fragment_in_link s
    then ("fp_len", quoted "" (fragment_values s).0)
      ∷ ("fp_int", quoted "" (fragment_values s).1)
      ∷ []
    else []

-- `_path_for(protocol, transport)`
unfoldable pub path_for : String → String → String
path_for protocol transport =
    if transport == "ws"
    then if protocol == "vless"
      then "/vl-ws"
      else if protocol == "vmess"
      then "/vm-ws"
      else if protocol == "trojan"
      then "/tr-ws"
      else "/ws"
    else if transport == "xhttp"
    then "/xhttp"
    else if transport == "httpupgrade"
    then "/hup"
    else "/ws"

abbrev pub grpc_service : String
grpc_service = "titan"

-- `_host_params(…)`
unfoldable pub host_params : String → String → String → String → String → String → Settings → Pairs
host_params host path sni fp alpn transport s =
    ("type", quoted "" transport)
    ∷ ("host", quoted "" host)
    ∷ ("path", quoted "/" path)
    ∷ ("sni", quoted "" sni)
    ∷ ("fp", quoted "" fp)
    ∷ ((if alpn == "" then [] else ("alpn", quoted ",/" alpn) ∷ [])
        ++ ((if (transport == "xhttp") && one_of (xhttp_mode s) client_only_modes
              then ("mode", quoted "" (xhttp_mode s)) ∷ []
              else [])
            ++ fragment_params s))

-- `_grpc_params(service, sni, fp)`
unfoldable pub grpc_params : String → String → String → Pairs
grpc_params service sni fp =
    ("type", raw "grpc")
    ∷ ("serviceName", quoted "" service)
    ∷ ("sni", quoted "" sni)
    ∷ ("fp", quoted "" fp)
    ∷ []

abbrev pub sni_of : String → Settings → String
sni_of host s = text_or "sni_override" host s

abbrev pub fingerprint_of : User → Settings → String
fingerprint_of u s = or_else u.fingerprint (get_text "default_fingerprint" "chrome" s)

-- `"TiTaN-" + name + kind`
abbrev pub name_of : User → String → Codes
name_of u kind = quote_path (append "TiTaN-" (append u.name kind))

-- the query of a Reality link
unfoldable pub reality_params : String → User → Settings → Pairs
reality_params host u s =
    let rsni = text_or "reality_sni" (sni_of host s) s in
    ("encryption", raw "none")
    ∷ ("security", raw "reality")
    ∷ ("pbk", quoted "" (or_else u.public_key (get_text "reality_pub" "" s)))
    ∷ ("sid", quoted "" (or_else u.short_id (get_text "reality_sid" "" s)))
    ∷ ("sni", quoted "" rsni)
    ∷ ("spx", quoted "" (or_else u.spider_x rsni))
    ∷ ("fp", raw (fingerprint_of u s))
    ∷ ("type", raw "tcp")
    ∷ ("headerType", raw "none")
    ∷ ((if flow_for s "tcp" "reality" == ""
          then []
          else ("flow", raw (flow_for s "tcp" "reality")) ∷ [])
        ++ fragment_params s)

-- the query of every other VLESS link
unfoldable pub vless_params : String → User → Settings → String → String → Pairs
vless_params host u s security transport =
    let sni = sni_of host s in
    let fp = fingerprint_of u s in
    let sec = if security == "tls" then "tls" else "none" in
    ("encryption", raw "none")
    ∷ ("security", raw sec)
    ∷ (if transport == "grpc"
        then grpc_params grpc_service sni fp
        else if one_of transport ("ws" ∷ "xhttp" ∷ "httpupgrade" ∷ [])
        then host_params host (path_for "vless" transport) sni fp u.alpn transport s
        else if (transport == "tcp") && (security == "tls")
        then ("type", raw "tcp")
          ∷ ("headerType", raw "none")
          ∷ ("sni", quoted "" sni)
          ∷ ("fp", raw fp)
          ∷ (if u.alpn == "" then [] else ("alpn", quoted ",/" u.alpn) ∷ [])
        else ("type", raw "tcp") ∷ ("headerType", raw "none") ∷ [])

unfoldable pub build_vless_link : String → ℕ → User → Settings → Codes
unfolding reality_params vless_params
build_vless_link host port u s =
    let transport = transport_for u s in
    let security = lower (or_else u.security "tls") in
    uri "vless" (codes u.uuid) host port
      (if security == "reality"
        then reality_params host u s
        else vless_params host u s security transport)
      (name_of u (append "-VLESS-" (upper transport)))

-- the dict of a VMess link, in its order
unfoldable pub vmess_fields : String → ℕ → User → Settings → List (String × String)
vmess_fields host port u s =
    let transport = transport_for u s in
    let net =
      if one_of transport ("ws" ∷ "xhttp" ∷ "grpc" ∷ "httpupgrade" ∷ [])
      then transport
      else "tcp" in
    ("v", "2")
    ∷ ("ps", append "TiTaN-" (append u.name (append "-VMess-" (upper net))))
    ∷ ("add", host)
    ∷ ("port", show port)
    ∷ ("id", u.uuid)
    ∷ ("aid", "0")
    ∷ ("scy", "auto")
    ∷ ("net", net)
    ∷ ("type", "none")
    ∷ ("host", host)
    ∷ (
      "path",
      if one_of transport ("ws" ∷ "xhttp" ∷ "httpupgrade" ∷ [])
          then path_for "vmess" transport
          else if transport == "grpc"
          then grpc_service
          else "",
    )
    ∷ ("tls", if lower (or_else u.security "tls") == "tls" then "tls" else "none")
    ∷ ("sni", sni_of host s)
    ∷ ("alpn", u.alpn)
    ∷ ("fp", fingerprint_of u s)
    ∷ []

unfoldable pub build_vmess_link : String → ℕ → User → Settings → Codes
unfolding vmess_fields dumps
build_vmess_link host port u s =
    codes "vmess://" ++ encode standard (dumps (vmess_fields host port u s))

unfoldable pub trojan_params : String → User → Settings → String → Pairs
trojan_params host u s transport =
    ("security", raw "tls")
    ∷ ((if transport == "tcp"
          then []
          else ("type", raw "ws") ∷ ("host", quoted "" host) ∷ ("path", quoted "/" "/tr-ws") ∷ [])
        ++ (("sni", quoted "" (sni_of host s))
            ∷ ("alpn", quoted ",/" u.alpn)
            ∷ ("fp", raw (fingerprint_of u s))
            ∷ []))

unfoldable pub build_trojan_link : String → ℕ → User → Settings → Codes
unfolding trojan_params
build_trojan_link host port u s =
    let transport = transport_for u s in
    uri "trojan" (quote_all u.uuid) host port (trojan_params host u s transport)
      (name_of u (append "-Trojan-" (upper transport)))

unfoldable pub ss_method_of : Env → User → Settings → String
ss_method_of env u s =
    coerce_to
      (lower (or_else (or_else u.ss_method (text_or "ss_method" "" s)) env.default_ss_method))
      ss_methods env.default_ss_method

-- the credential of a Shadowsocks link: `method:key`, or that in base64
unfoldable pub ss_credential : (List ℕ → List ℕ) → String → String → Codes
ss_credential sha256 uuid method =
    let plain = codes method ++ (b':' ∷ psk_link sha256 uuid method) in
    if one_of method ss_2022_methods then plain else unpad (encode url_safe (encode_utf8 plain))

unfoldable pub build_ss_link : (List ℕ → List ℕ) → Env → String → ℕ → User → Settings → Codes
unfolding ss_credential
build_ss_link sha256 env host port u s =
    address "ss" (ss_credential sha256 u.uuid (ss_method_of env u s)) host port
    ++ (b'#' ∷ name_of u "-SS")

unfoldable pub build_wg_link : String → ℕ → User → String → Settings → Codes
build_wg_link host port u server_pub s =
    codes "wireguard://"
    ++ (encode standard
          (encode_utf8 (codes (wg_conf u.wg_priv u.wg_ip host port server_pub s "1.1.1.1")))
        ++ (b'#' ∷ name_of u "-WG"))

unfoldable pub hy2_params : Env → String → Settings → Pairs
hy2_params env host s =
    ("sni", quoted "" (sni_of host s))
    ∷ ("insecure", raw "0")
    ∷ ("alpn", raw "h3")
    ∷ (if env.hy2_obfs == ""
        then []
        else ("obfs", raw "salamander") ∷ ("obfs-password", quoted "" env.hy2_obfs) ∷ [])

-- The path `/` stands between the port and the query.
unfoldable pub build_hy2_link : Env → String → ℕ → User → Settings → Codes
unfolding hy2_params
build_hy2_link env host port u s =
    address "hysteria2" (quote_all u.uuid) host port
    ++ (codes "/?" ++ (query (hy2_params env host s) ++ (b'#' ∷ name_of u "-Hysteria2")))

pub record Links : Type 0 where
  pub main : Codes
  pub every : List Codes
  pub info : Codes

-- the link of a row, by its protocol
unfoldable pub protocol_links :
    (List ℕ → List ℕ) → Env → String → ℕ → User → Settings → String → List Codes
protocol_links sha256 env host port u s server_pub =
    if u.protocol == "vless"
    then build_vless_link host port u s ∷ []
    else if u.protocol == "vmess"
    then build_vmess_link host port u s ∷ []
    else if u.protocol == "trojan"
    then build_trojan_link host port u s ∷ []
    else if u.protocol == "shadowsocks"
    then build_ss_link sha256 env host port u s ∷ []
    else if u.protocol == "hysteria2"
    then build_hy2_link env host port u s ∷ []
    else if u.protocol == "wireguard"
    then build_wg_link host port u server_pub s ∷ []
    else []

abbrev pub info_uuid : String
info_uuid = "00000000-0000-0000-0000-000000000001"

-- the link that only carries a remark
unfoldable pub info_link : String → Codes
info_link remark =
    uri "vless" (codes info_uuid) "127.0.0.1" 10001
      (("encryption", raw "none")
        ∷ ("security", raw "none")
        ∷ ("type", raw "tcp")
        ∷ ("headerType", raw "none")
        ∷ [])
      (quote_path remark)

-- `build_links(…)`; the remark, which prints floats, is an argument.
unfoldable pub build_links :
    (List ℕ → List ℕ) → Env → String → ℕ → User → Settings → String → String → Links
unfolding protocol_links info_link
build_links sha256 env host port u s server_pub remark =
    let all_links = protocol_links sha256 env host port u s server_pub in
    record {
      main = elim all_links [ [] ↦ [] | l ∷ _ ↦ l ];
      every = all_links;
      info = info_link remark;
    }

-- `subscription_text(links)`
unfoldable pub subscription_text : List Codes → Codes
subscription_text links = encode standard (encode_utf8 (join b'\n' links))
