-- ===== src/Subfmt.antt =====
-- app/subfmt.py: client files are made from the links that are already published. Here, a link is
-- taken apart: `_params`, `parse_link`. `json.loads` of what a VMess link holds is an argument:
-- `none` is an error, or a value that is no object.
pub mod Sort
pub mod Params
pub mod Address
pub mod Parse
pub mod Vless
pub mod Sorted
pub mod Tag
pub mod Singbox
pub mod Clash
pub mod XrayFile
pub mod Outbounds
pub mod Client
pub mod Doc
use testuder.Prelude.{
  ◌≡◌, ◌≢◌, ◌↔◌, ◌⊎◌, inl, inr, ℕ, zero, suc, ◌+◌, ◌-◌, ◌*◌, ◌/◌, ◌%◌, ◌≤◌, ◌<◌, String, refl, sym,
  ap, Bool, true, false, ◌&&◌, ◌||◌, not, Option, none, some, List, [], ◌∷◌, ◌++◌, map, arith, ◌==◌,
  eq_iff, eq_refl, ltb, leb, eqb, if◌then◌else◌, Bool-cases, Option-cases, &&-split, length, take,
  drop, any, all, filter, find?, All, any-append, all-append, find?-sound, any-filter, All-append,
  All-filter, All-map, All-of_forall, All-mono, any-map, length-map, lower, truncate, strip, one_of,
  or_else, one_of-elim, coerce_to, lookup, insert, remove, lookup-insert, lookup-remove,
  lookup-insert_self, append, coerce_to-all, min, max, subst, ◌∙◌, append-nil, append_assoc, upper,
  length-append,
}
use testuder.Prelude.Int.{ℤ, pos, negsuc, eqz}
use testuder.Codes.{
  Codes, codes, same, is_one_of, or_codes, before, after, after_last, before_last, count, split,
  split_first, strip_codes, lower_codes, has,
}
use testuder.Codes.Decimal.{number}
use testuder.Url.{unquote, decode_utf8}
use testuder.Base64.{standard, url_safe, decode, padding}
use testuder.Settings.{Settings, get}
use testuder.Value.{Value, text, truthy, to_text, to_int}

-- What a client config needs of one link. A key that an entry does not have is empty.
pub record Entry : Type 0 where
  pub kind : Codes
  pub name : Codes
  pub server : Codes
  pub port : ℤ
  pub user : Codes
  pub password : Codes
  pub cipher : Codes
  pub transport : Codes
  pub security : Codes
  pub path : Codes
  pub host : Codes
  pub sni : Codes
  pub fp : Codes
  pub alpn : List Codes
  pub service : Codes
  pub flow : Codes
  pub mode : Codes
  pub pbk : Codes
  pub sid : Codes
  pub spx : Codes
  pub insecure : Bool
  pub obfs : Codes
  pub obfs_param : Codes

abbrev pub Params : Type 0
Params = List (Codes × Codes)

-- `_params(query)`: the pairs in order; an empty part is skipped
unfoldable pub read_params : List Codes → Params
read_params [] = []
read_params (chunk ∷ chunks) =
    let rest = read_params chunks in
    if same chunk [] then rest else (before b'=' chunk, unquote (after b'=' chunk)) ∷ rest

unfoldable pub params : Codes → Params
unfolding read_params
params q = read_params (split b'&' q)

-- the last value of a key
unfoldable pub lookup_param : Codes → Params → Option Codes
lookup_param k [] = none
lookup_param k ((j, v) ∷ ps) = elim (lookup_param k ps) [
  | none ↦ if same j k then some v else none
  | some w ↦ some w
]

-- `p.get(k) or ""`
unfoldable pub param : String → Params → Codes
unfolding lookup_param
param k ps = elim (lookup_param (codes k) ps) [ none ↦ [] | some v ↦ v ]

signed : Codes → Option ℤ
signed [] = none
signed (c ∷ s) =
    if eqb c b'-'
    then elim (number s) [ none ↦ none | some zero ↦ some (pos 0) | some (suc n) ↦ some (negsuc n) ]
    else elim (number (if eqb c b'+' then s else c ∷ s)) [ none ↦ none | some n ↦ some (pos n) ]

or_443 : Option ℤ → ℤ
or_443 none = pos 443
or_443 (some n) = n

-- `_port` of a text: `int` of what follows the last colon, of ASCII digits
unfoldable pub port_of : Codes → ℤ
unfolding signed or_443
port_of loc = or_443 (signed (strip_codes (after_last b':' loc)))

-- `_port` of a value of JSON
unfoldable pub port_of_value : Value → ℤ
unfolding port_of or_443
port_of_value (text s) = port_of (codes s)
port_of_value v = or_443 (to_int v)

-- `_host(loc)`
unfoldable pub host_of : Codes → Codes
host_of loc = if eqb (count b':' loc) 1 then before_last b':' loc else before b':' loc

-- `[a for a in s.split(",") if a]`
unfoldable pub words : Codes → List Codes
words s = filter (λ a. not (same a [])) (split b',' s)

-- `str(obj.get(k) or d)`
unfoldable pub field_or : String → Codes → Settings → Codes
field_or k d obj = if truthy (get k obj) then codes (to_text (get k obj)) else d

abbrev pub Loads : Type 0
Loads = Codes → Option Settings

abbrev swap_char : ℕ → ℕ
swap_char c = if eqb c b'-' then b'+' else if eqb c b'_' then b'/' else c

-- one variant of `_b64_json`
b64_variant : Loads → Codes → Option Settings
b64_variant loads s = elim (decode standard s) [ none ↦ none | some bs ↦ loads (decode_utf8 bs) ]

-- `_b64_json(blob)`; no object is the empty one
unfoldable pub b64_json : Loads → Codes → Settings
unfolding b64_variant
b64_json loads blob = elim (b64_variant loads (blob ++ padding blob)) [
  | some obj ↦ obj
  | none ↦ elim (b64_variant loads (map swap_char blob ++ padding blob)) [
    | some obj ↦ obj
    | none ↦ []
  ]
]

-- `_b64_text(blob)`
unfoldable pub b64_text : Codes → Codes
b64_text blob = elim (decode url_safe (blob ++ padding blob)) [
  | none ↦ []
  | some bs ↦ decode_utf8 bs
]

vmess_entry : Settings → Codes → Entry
unfolding field_or port_of_value words
vmess_entry obj name =
    let net = field_or "net" (codes "tcp") obj in
    record {
      kind = codes "vmess";
      name = field_or "ps" name obj;
      server = field_or "add" [] obj;
      port = port_of_value (get "port" obj);
      user = field_or "id" [] obj;
      password = [];
      cipher = field_or "scy" (codes "auto") obj;
      transport =
          if is_one_of net ("ws" ∷ "grpc" ∷ "httpupgrade" ∷ "xhttp" ∷ "tcp" ∷ [])
          then net
          else codes "tcp";
      security = if same (field_or "tls" [] obj) (codes "tls") then codes "tls" else codes "none";
      path = field_or "path" [] obj;
      host = field_or "host" [] obj;
      sni = field_or "sni" [] obj;
      fp = field_or "fp" [] obj;
      alpn = words (field_or "alpn" [] obj);
      service = field_or "serviceName" [] obj;
      flow = [];
      mode = [];
      pbk = [];
      sid = [];
      spx = [];
      insecure = false;
      obfs = [];
      obfs_param = [];
    }

-- the branch of VMess
unfoldable pub parse_vmess : Loads → Codes → Codes → Option Entry
unfolding b64_json vmess_entry
parse_vmess loads rest name = elim (b64_json loads rest) [
  | [] ↦ none
  | f ∷ fs ↦ some (vmess_entry (f ∷ fs) name)
]

unfoldable pub ss_entry : Codes → Codes → Codes → Codes → Entry
unfolding host_of port_of
ss_entry method password loc name = record {
  kind = codes "shadowsocks";
  name = name;
  server = host_of loc;
  port = port_of loc;
  user = [];
  password = password;
  cipher = method;
  transport = codes "tcp";
  security = codes "none";
  path = [];
  host = [];
  sni = [];
  fp = [];
  alpn = [];
  service = [];
  flow = [];
  mode = [];
  pbk = [];
  sid = [];
  spx = [];
  insecure = false;
  obfs = [];
  obfs_param = [];
}

-- the branch of Shadowsocks: `method:password`, or that in base64
unfoldable pub parse_ss : Codes → Codes → Option Entry
unfolding ss_entry b64_text
parse_ss rest name =
    let head = before b'@' rest in
    let raw = if has b':' head then head else b64_text head in
    let method = before b':' raw in
    let password = if has b':' head then unquote (after b':' raw) else after b':' raw in
    if same method [] || same password []
    then none
    else some (ss_entry method password (after b'@' rest) name)

-- the entry of VLESS, Trojan and Hysteria2
unfoldable pub url_entry : Codes → Codes → Params → Codes → Entry
unfolding param host_of port_of words
url_entry scheme rest p name =
    let cred = unquote (before b'@' rest) in
    let loc = after b'@' rest in
    record {
      kind = scheme;
      name = name;
      server = host_of loc;
      port = port_of loc;
      user = cred;
      password = cred;
      cipher = param "encryption" p;
      transport =
          if same scheme (codes "hysteria2")
          then codes "hysteria"
          else or_codes (param "type" p) (codes "tcp");
      security =
          or_codes (param "security" p)
            (if same scheme (codes "trojan") then codes "tls" else codes "none");
      path = param "path" p;
      host = param "host" p;
      sni = param "sni" p;
      fp = param "fp" p;
      alpn = words (param "alpn" p);
      service = param "serviceName" p;
      flow = param "flow" p;
      mode = param "mode" p;
      pbk = or_codes (param "pbk" p) (param "publicKey" p);
      sid = or_codes (param "sid" p) (param "shortId" p);
      spx = or_codes (param "spx" p) (param "spiderX" p);
      insecure =
          is_one_of (or_codes (or_codes (param "allowInsecure" p) (param "insecure" p)) (codes "0"))
            ("1" ∷ "true" ∷ []);
      obfs = param "obfs" p;
      obfs_param = param "obfsParam" p;
    }

unfoldable pub parse_url : Codes → Codes → Params → Codes → Option Entry
unfolding url_entry
parse_url scheme rest p name =
    let e = url_entry scheme rest p name in if same e.server [] then none else some e

-- the branches of a link by its scheme, once the fragment and the query are cut off
unfoldable pub parse_scheme : Loads → Codes → Codes → Params → Codes → Option Entry
unfolding parse_vmess parse_ss parse_url
parse_scheme loads scheme rest p name =
    if same scheme (codes "vmess")
    then parse_vmess loads rest name
    else if same scheme (codes "wireguard")
    then none
    else if same scheme (codes "shadowsocks")
    then parse_ss rest name
    else parse_url scheme rest p name

abbrev pub supported : List String
supported = "vless" ∷ "vmess" ∷ "trojan" ∷ "shadowsocks" ∷ "hysteria2" ∷ "wireguard" ∷ []

-- the wire format is `ss://`, the kind is not
unfoldable pub scheme_of : Codes → Codes
scheme_of s =
    let scheme = lower_codes s in if same scheme (codes "ss") then codes "shadowsocks" else scheme

-- `parse_link`, once the scheme is split off
unfoldable pub parse_split : Loads → Option (Codes × Codes) → Option Entry
unfolding params parse_scheme scheme_of
parse_split loads none = none
parse_split loads (some (s, rest)) =
    let scheme = scheme_of s in
    let body = before b'#' rest in
    if is_one_of scheme supported
    then parse_scheme loads scheme (before b'?' body) (params (after b'?' body))
        (or_codes (unquote (after b'#' rest)) (codes "TiTaN"))
    else none

-- `parse_link(link)`
unfoldable pub parse_link : Loads → Codes → Option Entry
unfolding parse_split
parse_link loads link = parse_split loads (split_first (codes "://") (strip_codes link))
