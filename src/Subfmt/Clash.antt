-- ===== src/Subfmt/Clash.antt =====
-- `clash_dict` of app/subfmt.py: the client file of mihomo and Clash.
pub mod File
pub mod References
use testuder.Prelude.{
  ◌≡◌, ◌≢◌, ◌↔◌, ◌⊎◌, inl, inr, ℕ, zero, suc, ◌+◌, ◌-◌, ◌*◌, ◌/◌, ◌%◌, ◌≤◌, ◌<◌, String, refl, sym,
  ap, Bool, true, false, ◌&&◌, ◌||◌, not, Option, none, some, List, [], ◌∷◌, ◌++◌, map, arith, ◌==◌,
  eq_iff, eq_refl, ltb, leb, eqb, if◌then◌else◌, Bool-cases, Option-cases, &&-split, length, take,
  drop, any, all, filter, find?, All, any-append, all-append, find?-sound, any-filter, All-append,
  All-filter, All-map, All-of_forall, All-mono, any-map, length-map, lower, truncate, strip, one_of,
  or_else, one_of-elim, coerce_to, lookup, insert, remove, lookup-insert, lookup-remove,
  lookup-insert_self, append, coerce_to-all, min, max, subst, ◌∙◌, append-nil, append_assoc, upper,
  length-append,
}
use testuder.Codes.{Codes, codes, same, or_codes, is_one_of}
use testuder.Settings.{Settings}
use testuder.Value.{num, to_text}
use testuder.Tuning.{profile}
use testuder.Subfmt.{Entry}
use testuder.Subfmt.Client.{
  packet_encoding, alpn_of, security_of, network_of, client_xmux, padding_entry,
}
use testuder.Subfmt.Doc.{Doc, Entries, object, array, lit, lits, strs, str, int, bool, when_given}

abbrev given_or : Codes → String → Doc
given_or s d = str (or_codes s (codes d))

-- the credentials of each kind; a Trojan proxy loses its empty `uuid` again
unfoldable pub clash_kind : Entry → Entries
clash_kind e =
    if same e.kind (codes "vless")
    then ("uuid", str e.user) ∷ []
    else if same e.kind (codes "vmess")
    then ("uuid", str e.user) ∷ ("cipher", given_or e.cipher "auto") ∷ []
    else if same e.kind (codes "trojan")
    then ("password", str (or_codes e.password e.user)) ∷ []
    else if same e.kind (codes "shadowsocks")
    then ("cipher", str e.cipher) ∷ ("password", str e.password) ∷ []
    else if same e.kind (codes "hysteria2")
    then ("password", str e.user)
      ∷ (if same e.obfs (codes "salamander") && not (same e.obfs_param [])
          then ("obfs", lit "salamander") ∷ ("obfs-password", str e.obfs_param) ∷ []
          else [])
    else []

-- `pe_ok(e)`
unfoldable pub pe_ok : Entry → Bool
unfolding network_of
pe_ok e = is_one_of (network_of e) ("tcp" ∷ "ws" ∷ "xhttp" ∷ "httpupgrade" ∷ "grpc" ∷ [])

-- `network`, `flow` and `packet-encoding`
unfoldable pub clash_network : Settings → Entry → Entries
unfolding network_of pe_ok packet_encoding
clash_network s e =
    (if is_one_of e.kind ("vless" ∷ "trojan" ∷ "vmess" ∷ "shadowsocks" ∷ [])
      then ("network", str (network_of e)) ∷ []
      else [])
    ++ (when_given "flow" e.flow
        ++ (if is_one_of e.transport ("tcp" ∷ "xhttp" ∷ "httpupgrade" ∷ "grpc" ∷ "ws" ∷ [])
              && pe_ok e
            then ("packet-encoding", str (packet_encoding s)) ∷ []
            else []))

unfoldable pub clash_security : Settings → Entry → Entries
unfolding security_of alpn_of
clash_security s e =
    if same e.kind (codes "hysteria2")
    then when_given "sni" e.sni ++ ("skip-cert-verify", bool e.insecure) ∷ []
    else if same (security_of e) (codes "none")
    then []
    else ("tls", bool true)
      ∷ (when_given "servername" e.sni
          ++ ("client-fingerprint", given_or e.fp "chrome")
            ∷ ("alpn", strs (alpn_of s e))
            ∷ ("skip-cert-verify", bool e.insecure)
            ∷ (if same (security_of e) (codes "reality")
                then (
                  "reality-opts",
                  object (("public-key", str e.pbk) ∷ ("short-id", str e.sid) ∷ []),
                )
                  ∷ []
                else []))

-- `xmux[key]`, and `str` of it
picked : String → Entries → Doc
picked key xmux = elim (lookup key xmux) [ none ↦ str [] | some d ↦ d ]

shown : Doc → Doc
shown (int n) = lit (to_text (num n))
shown d = d

-- mihomo spells xmux `reuse-settings`
reuse_settings : Entries → Doc
unfolding picked shown
reuse_settings xmux = object (
    ("max-concurrency", picked "maxConcurrency" xmux)
    ∷ ("max-connections", shown (picked "maxConnections" xmux))
    ∷ ("c-max-reuse-times", shown (picked "cMaxReuseTimes" xmux))
    ∷ ("h-max-request-times", picked "hMaxRequestTimes" xmux)
    ∷ ("h-max-reusable-secs", picked "hMaxReusableSecs" xmux)
    ∷ ("h-keep-alive-period", picked "hKeepAlivePeriod" xmux)
    ∷ [])

-- `xhttp-opts`
xhttp_opts : Settings → Entry → Doc
unfolding padding_entry client_xmux reuse_settings
xhttp_opts s e = object (
    ("path", given_or e.path "/xhttp")
    ∷ (when_given "host" e.host
        ++ (when_given "mode" e.mode
            ++ (padding_entry "x-padding-bytes" s ++ elim (client_xmux s) [
              | none ↦ []
              | some xmux ↦
                  if same e.mode (codes "stream-one")
                  then []
                  else ("reuse-settings", reuse_settings xmux) ∷ []
            ]))))

-- the options of the transport
unfoldable pub clash_transport : Settings → Entry → Entries
unfolding network_of xhttp_opts
clash_transport s e =
    let net = network_of e in
    let opts = object (("path", str e.path) ∷ when_given "host" e.host) in
    if same net (codes "ws") && not (same e.path [])
    then ("ws-opts", opts) ∷ []
    else if same net (codes "httpupgrade") && not (same e.path [])
    then ("httpupgrade-opts", opts) ∷ []
    else if same net (codes "xhttp")
    then ("xhttp-opts", xhttp_opts s e) ∷ []
    else if same net (codes "grpc")
    then ("grpc-opts", object (("grpc-service-name", given_or e.service "titan") ∷ [])) ∷ []
    else []

-- the proxy of an entry, under its tag
unfoldable pub proxy : Settings → Codes → Entry → Doc
unfolding clash_kind clash_network clash_security clash_transport
proxy s tag e = object (
    ("name", str tag)
    ∷ ("type", str e.kind)
    ∷ ("server", str e.server)
    ∷ ("port", int e.port)
    ∷ ("udp", bool true)
    ∷ (clash_kind e ++ (clash_network s e ++ (clash_security s e ++ clash_transport s e))))
