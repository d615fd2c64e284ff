-- ===== src/Subfmt/XrayFile.antt =====
-- `xray_config` of app/subfmt.py: the client file of v2rayN and Xray.
pub mod Kept
pub mod Vless
use testuder.Prelude.{String, true, Option, none, some, List, [], ◌∷◌, ◌++◌, map, if◌then◌else◌}
use testuder.Codes.{Codes, codes, same, or_codes}
use testuder.Settings.{Settings}
use testuder.Tuning.{sockopt}
use testuder.Subfmt.{pos, Entry}
use testuder.Subfmt.Client.{client_alpn, alpn_of, security_of, network_of, extra_client, of_value}
use testuder.Subfmt.Outbounds.{outbounds}
use testuder.Subfmt.Doc.{Doc, Entries, object, array, lit, lits, strs, str, int, bool, when_given}

abbrev given_or : Codes → String → Doc
given_or s d = str (or_codes s (codes d))

-- `realitySettings` or `tlsSettings`
unfoldable pub xray_security : Settings → Entry → Entries
unfolding security_of alpn_of client_alpn
xray_security s e =
    if same (security_of e) (codes "reality")
    then (
      "realitySettings",
      object (
          ("fingerprint", given_or e.fp "chrome")
          ∷ ("serverName", str e.sni)
          ∷ ("publicKey", str e.pbk)
          ∷ ("shortId", str e.sid)
          ∷ ("spiderX", str e.spx)
          ∷ ("alpn", strs (client_alpn s))
          ∷ []),
    )
      ∷ []
    else if same (security_of e) (codes "tls")
    then (
      "tlsSettings",
      object (
          ("serverName", str e.sni)
          ∷ ("alpn", strs (alpn_of s e))
          ∷ ("allowInsecure", bool e.insecure)
          ∷ when_given "fingerprint" e.fp),
    )
      ∷ []
    else []

-- the settings of XHTTP and of HTTPUpgrade
xhttp_entry : Settings → Entry → Doc
unfolding extra_client
xhttp_entry s e = object (
    ("path", given_or e.path "/xhttp")
    ∷ (when_given "host" e.host
        ++ (when_given "mode" e.mode ++ elim (extra_client s (or_codes e.mode (codes "auto"))) [
          | [] ↦ []
          | x ∷ xs ↦ ("extra", object (x ∷ xs)) ∷ []
        ])))

-- the settings of the transport
unfoldable pub xray_network : Settings → Entry → Entries
unfolding network_of xhttp_entry
xray_network s e =
    let net = network_of e in
    if same net (codes "ws")
    then (
      "wsSettings",
      object (
          ("path", given_or e.path "/")
          ∷ (if same e.host [] then [] else ("headers", object (("Host", str e.host) ∷ [])) ∷ [])),
    )
      ∷ []
    else if same net (codes "xhttp")
    then ("xhttpSettings", xhttp_entry s e) ∷ []
    else if same net (codes "httpupgrade")
    then ("httpUpgradeSettings", xhttp_entry s e) ∷ []
    else if same net (codes "grpc")
    then (
      "grpcSettings",
      object (
          ("serviceName", given_or e.service "titan")
          ∷ ("multiMode", bool true)
          ∷ when_given "authority" e.host),
    )
      ∷ []
    else []

sockopt_entry : Settings → Entries
unfolding sockopt of_value
sockopt_entry s = elim (sockopt s) [
  | [] ↦ []
  | o ∷ os ↦ ("sockopt", object (map (λ (k, v). (k, of_value v)) (o ∷ os))) ∷ []
]

-- `streamSettings`
unfoldable pub xray_stream : Settings → Entry → Doc
unfolding xray_security xray_network sockopt_entry
xray_stream s e = object (
    ("network", given_or e.transport "tcp")
    ∷ ("security", given_or e.security "none")
    ∷ (xray_security s e ++ (xray_network s e ++ sockopt_entry s)))

-- `{"vnext": [{…, "users": [user]}]}`
abbrev vnext : Entry → Entries → Doc
vnext e user = object (
    (
      "vnext",
      array (
          object (
            ("address", str e.server)
            ∷ ("port", int e.port)
            ∷ ("users", array (object user ∷ []))
            ∷ [])
          ∷ []),
    )
    ∷ [])

-- `{"servers": [{…}]}`
abbrev servers : Entry → Entries → Doc
servers e more = object (
    ("servers", array (object (("address", str e.server) ∷ ("port", int e.port) ∷ more) ∷ [])) ∷ [])

-- the protocol and its settings; `none` is the `continue`
unfoldable pub xray_kind : Codes → Entry → Option (String × Doc)
xray_kind tag e =
    if same e.kind (codes "vless")
    then some (
      "vless",
      vnext e (
          ("id", str e.user) ∷ ("encryption", given_or e.cipher "none") ∷ when_given "flow" e.flow),
    )
    else if same e.kind (codes "vmess")
    then some (
      "vmess",
      vnext e (
          ("id", str e.user)
          ∷ ("alterId", int (pos 0))
          ∷ ("security", given_or e.cipher "auto")
          ∷ []),
    )
    else if same e.kind (codes "trojan")
    then some (
      "trojan",
      servers e (("password", str (or_codes e.password e.user)) ∷ ("email", str tag) ∷ []),
    )
    else if same e.kind (codes "shadowsocks")
    then some (
      "shadowsocks",
      servers e (
          ("method", str e.cipher)
          ∷ ("password", str e.password)
          ∷ ("level", int (pos 0))
          ∷ ("email", str tag)
          ∷ []),
    )
    else none

-- the outbound of an entry
unfoldable pub xray_outbound : Settings → Codes → Entry → Option Doc
unfolding xray_stream xray_kind
xray_outbound s tag e = elim (xray_kind tag e) [
  | none ↦ none
  | some (protocol, settings) ↦ some (
      object (
        ("tag", str tag)
        ∷ ("streamSettings", xray_stream s e)
        ∷ ("protocol", lit protocol)
        ∷ ("settings", settings)
        ∷ []))
]

inbounds : Doc
inbounds = array (
    object (
      ("listen", lit "127.0.0.1")
      ∷ ("port", int (pos 10808))
      ∷ ("protocol", lit "http")
      ∷ ("tag", lit "http")
      ∷ [])
    ∷ object (
        ("listen", lit "127.0.0.1")
        ∷ ("port", int (pos 1080))
        ∷ ("protocol", lit "socks")
        ∷ ("tag", lit "socks")
        ∷ (
          "settings",
          object (("auth", lit "noauth") ∷ ("udp", bool true) ∷ ("ip", lit "127.0.0.1") ∷ []),
        )
        ∷ [])
    ∷ [])

-- `{**direct, key: value}`
direct_rule : String → Doc → Doc
direct_rule key value =
    object (("type", lit "field") ∷ ("outboundTag", lit "direct") ∷ (key, value) ∷ [])

routing : Doc
unfolding direct_rule
routing = object (
    ("domainStrategy", lit "AsOrigin")
    ∷ (
      "rules",
      array (
          object (
            ("type", lit "field")
            ∷ ("network", lit "udp")
            ∷ ("port", lit "53")
            ∷ ("outboundTag", lit "direct")
            ∷ [])
          ∷ direct_rule "ip" (lits ("geoip:private" ∷ []))
          ∷ direct_rule "domain" (lits ("subdomain:ir" ∷ []))
          ∷ object (
              ("type", lit "field")
              ∷ ("protocol", lits ("bittorrent" ∷ []))
              ∷ ("outboundTag", lit "block")
              ∷ [])
          ∷ []),
    )
    ∷ [])

-- `outbounds` of the file
unfoldable pub xray_outbounds : Settings → List Entry → List Doc
unfolding xray_outbound outbounds
xray_outbounds s es =
    outbounds (xray_outbound s) es []
    ++ object (("protocol", lit "freedom") ∷ ("tag", lit "direct") ∷ [])
      ∷ object (("protocol", lit "blackhole") ∷ ("tag", lit "block") ∷ [])
      ∷ []

-- `xray_config(entries, settings)`
unfoldable pub xray_config : List Entry → Settings → Doc
unfolding xray_outbounds inbounds routing
xray_config es s = object (
    ("log", object (("loglevel", lit "warning") ∷ []))
    ∷ ("inbounds", inbounds)
    ∷ ("outbounds", array (xray_outbounds s es))
    ∷ ("routing", routing)
    ∷ [])
