-- ===== src/Tuning.antt =====
-- app/tuning.py: the operator profiles, and what they and the settings put into inbounds, links and
-- client files. The labels and notes that the UI shows are left out.
pub mod Bounds
use Prim.Native.Char.{code}
use Prim.Native.String
use testuder.Prelude.{
  ◌≡◌, ◌≢◌, ◌↔◌, ◌⊎◌, inl, inr, ℕ, zero, suc, ◌+◌, ◌-◌, ◌*◌, ◌/◌, ◌%◌, ◌≤◌, ◌<◌, String, refl, sym,
  ap, Bool, true, false, ◌&&◌, ◌||◌, not, Option, none, some, List, [], ◌∷◌, ◌++◌, map, arith, ◌==◌,
  eq_iff, eq_refl, ltb, leb, eqb, if◌then◌else◌, Bool-cases, Option-cases, &&-split, length, take,
  drop, any, all, filter, find?, All, any-append, all-append, find?-sound, any-filter, All-append,
  All-filter, All-map, All-of_forall, All-mono, any-map, length-map, lower, truncate, strip, one_of,
  or_else, one_of-elim, coerce_to, lookup, insert, remove, lookup-insert, lookup-remove,
  lookup-insert_self, append, coerce_to-all, min, max, subst, ◌∙◌, append-nil, append_assoc, upper,
  length-append,
}
use testuder.Prelude.Int.{ℤ, pos, negsuc}
use testuder.Value.{Value, flag, num, text, truthy, to_text, to_int, show}
use testuder.Settings.{Settings, get, get_or, text_or, on}

pub record Profile : Type 0 where
  pub domain_strategy : String
  pub packets : String
  pub length : String
  pub interval : String
  pub record_fragment : Bool
  pub client_alpn : List String
  pub xhttp_mode : String
  pub wg_mtu : ℕ
  pub wg_keepalive : ℕ
  pub packet_encoding : String

abbrev pub vision_flow : String
vision_flow = "xtls-rprx-vision"

abbrev pub forbidden_sockopt : List String
forbidden_sockopt = "tcpMss" ∷ "tcpRecvWindow" ∷ "tcpSendWindow" ∷ []

abbrev pub udp_only_networks : List String
udp_only_networks = "hysteria" ∷ "utp" ∷ "kcp" ∷ "mkcp" ∷ []

abbrev general : Profile
general = record {
  domain_strategy = "";
  packets = "1-3";
  length = "100-200";
  interval = "10-20";
  record_fragment = false;
  client_alpn = "h3" ∷ "h2" ∷ "http/1.1" ∷ [];
  xhttp_mode = "auto";
  wg_mtu = 1280;
  wg_keepalive = 25;
  packet_encoding = "xudp";
}

abbrev mci : Profile
mci = record {
  domain_strategy = "UseIPv4";
  packets = "1-3";
  length = "100-200";
  interval = "10-20";
  record_fragment = false;
  client_alpn = "h2" ∷ "http/1.1" ∷ [];
  xhttp_mode = "stream-up";
  wg_mtu = 1280;
  wg_keepalive = 20;
  packet_encoding = "xudp";
}

abbrev irancell : Profile
irancell = record {
  domain_strategy = "UseIPv4";
  packets = "1-5";
  length = "80-160";
  interval = "5-15";
  record_fragment = true;
  client_alpn = "h3" ∷ "h2" ∷ "http/1.1" ∷ [];
  xhttp_mode = "packet-up";
  wg_mtu = 1280;
  wg_keepalive = 15;
  packet_encoding = "xudp";
}

-- the keys of `PROFILES`
abbrev pub profiles : List String
profiles = "general" ∷ "mci" ∷ "irancell" ∷ []

unfoldable pub profile_name : Settings → String
profile_name s =
    coerce_to (lower (strip (text_or "operator_profile" "general" s))) profiles "general"

-- `PROFILES[name]`
abbrev pub profile_of : String → Profile
profile_of name = if name == "mci" then mci else if name == "irancell" then irancell else general

unfoldable pub profile : Settings → Profile
unfolding profile_name
profile s = profile_of (profile_name s)

unfoldable pub vision_on : Settings → Bool
vision_on s = on "vision_enabled" true s

unfoldable pub flow_for : Settings → String → String → String
unfolding vision_on
flow_for s transport security =
    if not (vision_on s)
    then ""
    else if not (lower transport == "tcp")
    then ""
    else if not (one_of (lower security) ("reality" ∷ "tls" ∷ []))
    then ""
    else vision_flow

-- `max(lo, min(hi, v))`, with `lo` at least 0
abbrev pub clamp : ℕ → ℕ → ℤ → ℕ
clamp lo hi (pos n) = max lo (min hi n)
clamp lo hi (negsuc n) = lo

or_int : Option ℤ → ℤ → ℤ
or_int none d = d
or_int (some n) d = n

-- `_int(settings, key, fallback, lo, hi)`
unfoldable pub int_setting : Settings → String → ℕ → ℕ → ℕ → ℕ
unfolding or_int
int_setting s key fallback lo hi =
    clamp lo hi (or_int (to_int (get_or key (num (pos fallback)) s)) (pos fallback))

-- `sockopt(settings)`; the empty dict turns the feature off. The check against `FORBIDDEN_SOCKOPT`
-- stands in `sockopt_checked`.
unfoldable pub sockopt : Settings → List (String × Value)
sockopt s =
    if not (on "sockopt_enabled" true s)
    then []
    else ("tcpNoDelay", flag true)
      ∷ ("tcpFastOpen", flag true)
      ∷ ("tcpcongestion", text (text_or "tcp_congestion" "bbr" s))
      ∷ ("tcpKeepAliveIdle", num (pos (int_setting s "tcp_keepalive_idle" 30 5 600)))
      ∷ ("tcpUserTimeout", num (pos (int_setting s "tcp_user_timeout" 10000 2000 130000)))
      ∷ ((if on "tcp_mptcp" true s then ("tcpMptcp", flag true) ∷ [] else [])
          ++ (if (profile s).domain_strategy == ""
              then []
              else ("domainStrategy", text (profile s).domain_strategy) ∷ []))

-- `none` is the ValueError on a forbidden key.
unfoldable pub sockopt_checked : Settings → Option (List (String × Value))
unfolding sockopt
sockopt_checked s =
    if any (sockopt s) (λ e. one_of e.0 forbidden_sockopt) then none else some (sockopt s)

pub record Sniffing : Type 0 where
  pub dest_override : List String
  pub metadata_only : Bool
  pub route_only : Bool

unfoldable pub sniffing : Settings → Option Sniffing
sniffing s =
    if not (on "sniffing_enabled" true s)
    then none
    else some (record {
      dest_override = "http" ∷ "tls" ∷ "quic" ∷ [];
      metadata_only = false;
      route_only = on "sniffing_route_only" true s;
    })

-- the zeros of the decimal digits of Unicode 14.0.0, each with the other nine after it
abbrev zeros : List ℕ
zeros =
    48 ∷ 1632 ∷ 1776 ∷ 1984 ∷ 2406 ∷ 2534 ∷ 2662 ∷ 2790 ∷ 2918 ∷ 3046 ∷ 3174 ∷ 3302 ∷ 3430 ∷ 3558
    ∷ 3664 ∷ 3792 ∷ 3872 ∷ 4160 ∷ 4240 ∷ 6112 ∷ 6160 ∷ 6470 ∷ 6608 ∷ 6784 ∷ 6800 ∷ 6992 ∷ 7088
    ∷ 7232 ∷ 7248 ∷ 42528 ∷ 43216 ∷ 43264 ∷ 43472 ∷ 43504 ∷ 43600 ∷ 44016 ∷ 65296 ∷ 66720 ∷ 68912
    ∷ 69734 ∷ 69872 ∷ 69942 ∷ 70096 ∷ 70384 ∷ 70736 ∷ 70864 ∷ 71248 ∷ 71360 ∷ 71472 ∷ 71904 ∷ 72016
    ∷ 72784 ∷ 73040 ∷ 73120 ∷ 92768 ∷ 92864 ∷ 93008 ∷ 120782 ∷ 120792 ∷ 120802 ∷ 120812 ∷ 120822
    ∷ 123200 ∷ 123632 ∷ 125264 ∷ 130032 ∷ []

-- `\d`
is_digit : ℕ → Bool
is_digit c = any zeros (λ z. leb z c && leb c (z + 9))

-- `\d*` to the end of the text
digits_only : String → Bool
unfolding is_digit
digits_only String.[] = true
digits_only (String.◌∷◌ c s) = is_digit (code c) && digits_only s

some_digits : String → Bool
unfolding digits_only
some_digits s = not (s == "") && digits_only s

-- `\d*(-\d+)?` to the end
range_tail : String → Bool
unfolding some_digits is_digit
range_tail String.[] = true
range_tail (String.◌∷◌ c s) =
    (is_digit (code c) && range_tail s) || (eqb (code c) b'-' && some_digits s)

starts_with_digit : String → Bool
unfolding is_digit
starts_with_digit String.[] = false
starts_with_digit (String.◌∷◌ c s) = is_digit (code c)

-- `_range_ok`: `\d+(-\d+)?`
unfoldable pub range_ok : String → Bool
unfolding range_tail starts_with_digit
range_ok value = starts_with_digit (strip value) && range_tail (strip value)

abbrev pub xhttp_modes : List String
xhttp_modes = "auto" ∷ "packet-up" ∷ "stream-up" ∷ "stream-one" ∷ []

abbrev pub client_only_modes : List String
client_only_modes = "packet-up" ∷ "stream-up" ∷ "stream-one" ∷ []

unfoldable pub xhttp_mode : Settings → String
xhttp_mode s =
    coerce_to (lower (strip (text_or "xhttp_mode" "" s))) xhttp_modes (profile s).xhttp_mode

unfoldable pub xhttp_extra : Settings → String → List (String × Value)
xhttp_extra s mode =
    let padding = strip (text_or "xhttp_padding" "" s) in
    (if not (padding == "") && range_ok padding then ("xPaddingBytes", text padding) ∷ [] else [])
    ++ (if mode == "packet-up"
        then (
          "scMaxEachPostBytes",
          num (pos (int_setting s "xhttp_max_each_post" 1000000 5000 100000000)),
        )
          ∷ ("scMaxBufferedPosts", num (pos (int_setting s "xhttp_max_buffered_posts" 30 1 1000)))
          ∷ []
        else [])
    ++ (if mode == "stream-up"
        then ("scStreamUpServerSecs", text (text_or "xhttp_stream_up_secs" "20-80" s)) ∷ []
        else [])
    ++ (if truthy (get "xhttp_no_sse_header" s) then ("noSSEHeader", flag true) ∷ [] else [])

pub record XhttpSettings : Type 0 where
  pub path : String
  pub mode : String
  pub extra : List (String × Value)

unfoldable pub xhttp_server_settings : Settings → String → XhttpSettings
xhttp_server_settings s p = record {
  path = p;
  mode = xhttp_mode s;
  extra = xhttp_extra s (xhttp_mode s);
}

pub record Fragment : Type 0 where
  pub packets : String
  pub length : String
  pub interval : String
  pub enabled : Bool
  pub record_fragment : Bool
  pub fallback_delay : String

unfoldable pub client_fragment : Settings → Fragment
client_fragment s =
    let p = profile s in
    let own = truthy (get "fragment_enabled" s) in
    record {
      packets = p.packets;
      length = if own then text_or "fragment_length" p.length s else p.length;
      interval = if own then text_or "fragment_interval" p.interval s else p.interval;
      enabled = on "client_fragment_enabled" true s;
      record_fragment = p.record_fragment;
      fallback_delay = "500ms";
    }

-- (PersistentKeepalive seconds, MTU)
unfoldable pub wg_tuning : Settings → ℕ × ℕ
wg_tuning s = (
  int_setting s "wg_keepalive" (profile s).wg_keepalive 0 300,
  int_setting s "wg_mtu" (profile s).wg_mtu 0 1420,
)

unfoldable pub fragment_in_link : Settings → Bool
fragment_in_link s =
    truthy (get "fragment_enabled" s) || one_of (profile_name s) ("mci" ∷ "irancell" ∷ [])

unfoldable pub fragment_values : Settings → String × String
fragment_values s = (
  text_or "fragment_length" (profile s).length s,
  text_or "fragment_interval" (profile s).interval s,
)

lines : List String → String
lines [] = ""
lines (l ∷ ls) = append l (append "\n" (lines ls))

-- `wg_conf(u, host, port, server_pub, settings, dns)`: every line ends with a line feed
unfoldable pub wg_conf : String → String → String → ℕ → String → Settings → String → String
unfolding lines
wg_conf wg_priv wg_ip host port server_pub s dns =
    let (keepalive, mtu) = wg_tuning s in
    lines (
      "[Interface]"
      ∷ append "PrivateKey = " wg_priv
      ∷ append "Address = " (append wg_ip "/32")
      ∷ append "DNS = " dns
      ∷ ((if eqb mtu 0 then [] else append "MTU = " (show mtu) ∷ [])
          ++ (""
              ∷ "[Peer]"
              ∷ append "PublicKey = " server_pub
              ∷ "AllowedIPs = 0.0.0.0/0, ::/0"
              ∷ append "Endpoint = " (append host (append ":" (show port)))
              ∷ (if eqb keepalive 0
                  then []
                  else append "PersistentKeepalive = " (show keepalive) ∷ []))))
