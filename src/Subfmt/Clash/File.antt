-- ===== src/Subfmt/Clash/File.antt =====
-- The groups, the rules and the whole document of `clash_dict`, app/subfmt.py.

use testuder.Prelude.{
  ℕ, String, Bool, true, false, some, List, [], ◌∷◌, ◌++◌, map, ◌==◌, ltb, if◌then◌else◌, length,
  append,
}
use testuder.Codes.{Codes, codes}
use testuder.Settings.{Settings}
use testuder.Tuning.{profile}
use testuder.Subfmt.{pos, Entry}
use testuder.Subfmt.Outbounds.{outbounds, entry_tags}
use testuder.Subfmt.Clash.{proxy}
use testuder.Subfmt.Doc.{Doc, object, array, lit, lits, strs, int, bool}

-- `len(names) > 1`
abbrev several : List Codes → Bool
several names = ltb 1 (length names)

-- `groups`
unfoldable pub groups : List Codes → List Doc
groups names =
    object (
      ("name", lit "TiTaN")
      ∷ ("type", lit "select")
      ∷ ("proxies", strs (names ++ codes "DIRECT" ∷ codes "REJECT" ∷ []))
      ∷ [])
    ∷ (if several names
        then object (
            ("name", lit "TiTaN-Auto")
            ∷ ("type", lit "url-test")
            ∷ ("url", lit "http://www.gstatic.com/generate_204")
            ∷ ("interval", int (pos 300))
            ∷ ("tolerance", int (pos 40))
            ∷ ("proxies", strs names)
            ∷ [])
          ∷ []
        else [])

-- the group that the last rule sends everything else to
unfoldable pub match_group : List Codes → String
match_group names = if several names then "TiTaN-Auto" else "TiTaN"

rules : List Codes → Doc
unfolding match_group
rules names = lits (
    "GEOIP,LAN,DIRECT,no-resolve"
    ∷ "DOMAIN-SUFFIX,local,DIRECT"
    ∷ "DOMAIN-SUFFIX,ir,DIRECT"
    ∷ "GEOIP,IR,DIRECT,no-resolve"
    ∷ append "MATCH," (match_group names)
    ∷ [])

dns : Doc
dns = object (
    ("enable", bool true)
    ∷ ("listen", lit "127.0.0.1:1053")
    ∷ ("enhanced-mode", lit "fake-ip")
    ∷ ("fake-ip-range", lit "198.18.0.1/16")
    ∷ ("fake-ip-filter", lits ("*.lan" ∷ "+.local" ∷ []))
    ∷ ("default-nameserver", lits ("223.5.5.5" ∷ "1.1.1.1" ∷ []))
    ∷ ("nameserver", lits ("https://dns.cloudflare.com/dns-query" ∷ "223.5.5.5" ∷ []))
    ∷ ("proxy-server-nameserver", lits ("223.5.5.5" ∷ []))
    ∷ ("direct-nameserver", lits ("223.5.5.5" ∷ []))
    ∷ [])

-- `{"ports": […]}`
abbrev ports : List ℕ → Doc
ports ns = object (("ports", array (map (λ n. int (pos n)) ns)) ∷ [])

sniffer : Doc
sniffer = object (
    ("enable", bool true)
    ∷ ("force-dns-mapping", bool true)
    ∷ ("parse-pure-ip", bool true)
    ∷ ("override-destination", bool false)
    ∷ (
      "sniff",
      object (
          ("HTTP", ports (80 ∷ 8080 ∷ []))
          ∷ ("TLS", ports (443 ∷ []))
          ∷ ("QUIC", ports (443 ∷ 8443 ∷ []))
          ∷ []),
    )
    ∷ [])

-- `proxies`
unfoldable pub proxies : Settings → List Entry → List Doc
unfolding outbounds proxy
proxies s es = outbounds (λ t e. some (proxy s t e)) es []

-- `clash_dict(entries, settings)`
unfoldable pub clash_dict : List Entry → Settings → Doc
unfolding proxies groups entry_tags rules dns sniffer
clash_dict es s = object (
    ("mixed-port", int (pos 7890))
    ∷ ("allow-lan", bool false)
    ∷ ("mode", lit "rule")
    ∷ ("log-level", lit "warning")
    ∷ ("tcp-concurrent", bool true)
    ∷ ("unified-delay", bool true)
    ∷ ("ipv6", bool ((profile s).domain_strategy == ""))
    ∷ ("global-client-fingerprint", lit "chrome")
    ∷ ("proxies", array (proxies s es))
    ∷ ("proxy-groups", array (groups (entry_tags es)))
    ∷ ("dns", dns)
    ∷ ("sniffer", sniffer)
    ∷ ("rules", rules (entry_tags es))
    ∷ ("profile", object (("store-selections", bool true) ∷ ("store-fake-ip", bool true) ∷ []))
    ∷ [])
