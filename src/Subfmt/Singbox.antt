-- ===== src/Subfmt/Singbox.antt =====
-- `singbox_config` of app/subfmt.py: the client file of sing-box and Hiddify.
pub mod References
use testuder.Prelude.{
  String, true, false, ◌&&◌, not, Option, none, some, List, [], ◌∷◌, ◌++◌, ◌==◌, if◌then◌else◌,
}
use testuder.Codes.{Codes, codes, same, or_codes, is_one_of}
use testuder.Settings.{Settings}
use testuder.Tuning.{profile, client_fragment}
use testuder.Subfmt.{pos, Entry}
use testuder.Subfmt.Client.{packet_encoding, alpn_of, security_of, network_of}
use testuder.Subfmt.Outbounds.{outbounds, entry_tags}
use testuder.Subfmt.Doc.{Doc, Entries, object, array, lit, lits, strs, str, int, bool, when_given}

abbrev given_or : Codes → String → Doc
given_or s d = str (or_codes s (codes d))

-- the keys of the protocol; `none` is the `continue`
unfoldable pub singbox_kind : Settings → Entry → Option Entries
unfolding packet_encoding
singbox_kind s e =
    if same e.kind (codes "vless")
    then some (
        ("type", lit "vless")
        ∷ ("uuid", str e.user)
        ∷ ("packet_encoding", given_or (packet_encoding s) "xudp")
        ∷ when_given "flow" e.flow)
    else if same e.kind (codes "vmess")
    then some
        (("type", lit "vmess") ∷ ("uuid", str e.user) ∷ ("security", given_or e.cipher "auto") ∷ [])
    else if same e.kind (codes "trojan")
    then some (("type", lit "trojan") ∷ ("password", str (or_codes e.password e.user)) ∷ [])
    else if same e.kind (codes "shadowsocks")
    then some
        (("type", lit "shadowsocks") ∷ ("method", str e.cipher) ∷ ("password", str e.password) ∷ [])
    else if same e.kind (codes "hysteria2")
    then some (
        ("type", lit "hysteria2")
        ∷ ("password", str e.user)
        ∷ (if same e.obfs (codes "salamander") && not (same e.obfs_param [])
            then ("obfs", object (("mode", lit "salamander") ∷ ("password", str e.obfs_param) ∷ []))
              ∷ []
            else []))
    else none

-- the keys of fragmentation
singbox_fragment : Settings → Entries
unfolding client_fragment
singbox_fragment s =
    let frag = client_fragment s in
    if frag.enabled
    then ("fragment", bool true)
      ∷ ("fragment_fallback_delay", lit frag.fallback_delay)
      ∷ (if frag.record_fragment then ("record_fragment", bool true) ∷ [] else [])
    else []

-- `tls`, which is left out without security
unfoldable pub singbox_tls : Settings → Entry → Entries
unfolding security_of alpn_of singbox_fragment
singbox_tls s e =
    if same (security_of e) (codes "none")
    then []
    else (
      "tls",
      object (
          ("enabled", bool true)
          ∷ ("server_name", str e.sni)
          ∷ ("insecure", bool e.insecure)
          ∷ ("alpn", strs (alpn_of s e))
          ∷ ((if same e.fp []
                then []
                else ("utls", object (("enabled", bool true) ∷ ("fingerprint", str e.fp) ∷ []))
                  ∷ [])
              ++ ((if same (security_of e) (codes "reality")
                    then (
                      "reality",
                      object (
                          ("enabled", bool true)
                          ∷ ("public_key", str e.pbk)
                          ∷ ("short_id", str e.sid)
                          ∷ []),
                    )
                      ∷ []
                    else [])
                  ++ singbox_fragment s))),
    )
      ∷ []

-- `transport`, which Hysteria2 has not
unfoldable pub singbox_transport : Entry → Entries
unfolding network_of
singbox_transport e =
    let net = network_of e in
    if same e.kind (codes "hysteria2")
    then []
    else if same net (codes "ws")
    then (
      "transport",
      object (
          ("type", lit "ws")
          ∷ ("path", given_or e.path "/")
          ∷ (if same e.host [] then [] else ("headers", object (("Host", str e.host) ∷ [])) ∷ [])),
    )
      ∷ []
    else if is_one_of net ("xhttp" ∷ "httpupgrade" ∷ [])
    then (
      "transport",
      object (
          ("type", lit "http")
          ∷ ("path", given_or e.path "/xhttp")
          ∷ ("method", lit "POST")
          ∷ (if same e.host [] then [] else ("host", strs (e.host ∷ [])) ∷ [])),
    )
      ∷ []
    else if same net (codes "grpc")
    then (
      "transport",
      object (
          ("type", lit "grpc")
          ∷ ("service_name", given_or e.service "titan")
          ∷ ("idle_timeout", lit "60s")
          ∷ when_given "authority" e.host),
    )
      ∷ []
    else []

-- the outbound of an entry
unfoldable pub singbox_outbound : Settings → Codes → Entry → Option Doc
unfolding singbox_kind singbox_tls singbox_transport
singbox_outbound s tag e = elim (singbox_kind s e) [
  | none ↦ none
  | some kind ↦ some (
      object (
        ("tag", str tag)
        ∷ ("server", str e.server)
        ∷ ("port", int e.port)
        ∷ (kind ++ (singbox_tls s e ++ singbox_transport e))))
]

-- `selector`
unfoldable pub selector : List Entry → Doc
unfolding entry_tags
selector es = object (
    ("type", lit "selector")
    ∷ ("tag", lit "proxy")
    ∷ ("actors", strs (entry_tags es ++ codes "direct" ∷ []))
    ∷ [])

-- `outbounds` of the file
unfoldable pub singbox_outbounds : Settings → List Entry → List Doc
unfolding selector singbox_outbound outbounds
singbox_outbounds s es =
    selector es
    ∷ (outbounds (singbox_outbound s) es []
        ++ object (("type", lit "direct") ∷ ("tag", lit "direct") ∷ [])
          ∷ object (("type", lit "block") ∷ ("tag", lit "block") ∷ [])
          ∷ [])

dns : Settings → Doc
dns s = object (
    (
      "servers",
      array (
          object (("tag", lit "local") ∷ ("address", lit "local") ∷ ("detour", lit "direct") ∷ [])
          ∷ object (
              ("tag", lit "remote")
              ∷ ("address", lit "https://one.one.one.one/dns-query")
              ∷ ("detour", lit "proxy")
              ∷ [])
          ∷ []),
    )
    ∷ (
      "rules",
      array (
          object (
            ("action", lit "route")
            ∷ ("outbound", lit "local")
            ∷ ("domain_suffix", lits ("ir" ∷ []))
            ∷ [])
          ∷ []),
    )
    ∷ ("final", lit "remote")
    ∷ (if (profile s).domain_strategy == "" then [] else ("strategy", lit "prefer_ipv4") ∷ []))

route : Doc
route = object (
    (
      "rules",
      array (
          object (("action", lit "sniff") ∷ [])
          ∷ object (("protocol", lit "dns") ∷ ("action", lit "hijack-dns") ∷ [])
          ∷ object (("domain_suffix", lits ("ir" ∷ [])) ∷ ("outbound", lit "direct") ∷ [])
          ∷ object (("protocol", lit "quic") ∷ ("action", lit "reject") ∷ [])
          ∷ []),
    )
    ∷ ("final", lit "proxy")
    ∷ ("auto_detect_interface", bool true)
    ∷ ("override_android_package", bool false)
    ∷ [])

-- `singbox_config(entries, settings)`
unfoldable pub singbox_config : List Entry → Settings → Doc
unfolding singbox_outbounds dns route
singbox_config es s = object (
    ("log", object (("level", lit "warning") ∷ ("timestamp", bool true) ∷ []))
    ∷ ("dns", dns s)
    ∷ (
      "inbounds",
      array (
          object (
            ("type", lit "mixed")
            ∷ ("tag", lit "mixed-in")
            ∷ ("listen", lit "127.0.0.1")
            ∷ ("listen_port", int (pos 2080))
            ∷ [])
          ∷ []),
    )
    ∷ ("outbounds", array (singbox_outbounds s es))
    ∷ ("route", route)
    ∷ [])
