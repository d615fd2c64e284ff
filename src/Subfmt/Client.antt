-- ===== src/Subfmt/Client.antt =====
-- What app/tuning.py and `_extra_client` of app/subfmt.py give to every client file.
use testuder.Prelude.{
  String, true, ◌&&◌, not, Option, none, some, List, [], ◌∷◌, ◌++◌, map, ◌==◌, if◌then◌else◌, strip,
}
use testuder.Codes.{same, Codes, codes, or_codes, lower_codes}
use testuder.Value.{Value, flag, num, to_text}
use testuder.Settings.{Settings, text_or, on}
use testuder.Tuning.{profile, range_ok}
use testuder.Subfmt.{pos, Entry, words}
use testuder.Subfmt.Doc.{Doc, Entries, object, lit, int, bool}

-- `client_alpn(settings)`
unfoldable pub client_alpn : Settings → List Codes
unfolding words profile
client_alpn s =
    let alpn = strip (text_or "default_alpn" "" s) in
    if alpn == "" then map codes (profile s).client_alpn else words (codes alpn)

-- `packet_encoding(settings)`
unfoldable pub packet_encoding : Settings → Codes
packet_encoding s = codes (profile s).packet_encoding

-- `client_xmux(settings)`; `none` is the empty dict
unfoldable pub client_xmux : Settings → Option Entries
client_xmux s =
    if not (on "xhttp_xmux" true s)
    then none
    else some (
        ("maxConcurrency", lit "16-32")
        ∷ ("maxConnections", int (pos 0))
        ∷ ("cMaxReuseTimes", int (pos 0))
        ∷ ("hMaxRequestTimes", lit "600-900")
        ∷ ("hMaxReusableSecs", lit "1800-3000")
        ∷ ("hKeepAlivePeriod", int (pos 0))
        ∷ [])

-- `e.get("alpn") or alpn`
unfoldable pub alpn_of : Settings → Entry → List Codes
unfolding client_alpn
alpn_of s e = elim e.alpn [ [] ↦ client_alpn s | a ∷ more ↦ a ∷ more ]

-- `(e.get("security") or "none").lower()`
unfoldable pub security_of : Entry → Codes
security_of e = lower_codes (or_codes e.security (codes "none"))

-- `(e.get("transport") or "tcp").lower()`
unfoldable pub network_of : Entry → Codes
network_of e = lower_codes (or_codes e.transport (codes "tcp"))

-- the padding of XHTTP, if it is a range
unfoldable pub padding_entry : String → Settings → Entries
padding_entry key s =
    let padding = strip (text_or "xhttp_padding" "" s) in
    if not (padding == "") && range_ok padding then (key, lit padding) ∷ [] else []

-- `_extra_client(settings, mode)`
unfoldable pub extra_client : Settings → Codes → Entries
unfolding padding_entry client_xmux
extra_client s mode =
    padding_entry "xPaddingBytes" s
    ++ (if same mode (codes "stream-one")
        then []
        else elim (client_xmux s) [ none ↦ [] | some xmux ↦ ("xmux", object xmux) ∷ [] ])

-- a value of `sockopt`, all of which are flags, numbers and texts
unfoldable pub of_value : Value → Doc
of_value (flag b) = bool b
of_value (num n) = int n
of_value v = lit (to_text v)
