-- ===== src/Config.antt =====
-- app/config.py: what the environment fixes at start. `Env` holds the variables that the modelled
-- code reads; the files that `tls_ready` looks for are Booleans.
use testuder.Prelude.{ℕ, String, Bool, false, ◌&&◌, not, List, [], ◌∷◌, ◌==◌, eqb}
use testuder.Prelude.Int.{ℤ, pos}

pub record Ports : Type 0 where
  pub vless_ws : ℕ
  pub vmess_ws : ℕ
  pub trojan_ws : ℕ
  pub xhttp : ℕ
  pub grpc : ℕ
  pub ss : ℕ
  pub ss_2022 : ℕ
  pub api : ℕ
  pub tcp_vless : ℕ
  pub tcp_vless_tls : ℕ
  pub tcp_vless_reality : ℕ
  pub tcp_vmess : ℕ
  pub tcp_vmess_tls : ℕ
  pub tcp_trojan : ℕ
  pub hy2 : ℕ
  pub httpupgrade : ℕ
  pub wg : ℕ

pub record Env : Type 0 where
  pub is_node : Bool
  pub node_secret : String
  pub node_token : String
  pub main_url : String
  pub ports : Ports
  pub fallback_port : ℕ
  pub tls_cert_file : String
  pub tls_key_file : String
  pub cert_exists : Bool
  pub key_exists : Bool
  pub hy2_obfs : String
  pub hy2_masquerade_url : String
  pub reality_sni : String
  pub reality_dest : String
  pub default_ss_method : String
  pub default_login_hours : ℤ
  pub admin_password : String

-- The ports of a start with no environment.
abbrev pub default_ports : Ports
default_ports = record {
  vless_ws = 10001;
  vmess_ws = 10002;
  trojan_ws = 10003;
  xhttp = 10004;
  grpc = 10005;
  ss = 10006;
  ss_2022 = 10014;
  api = 10085;
  tcp_vless = 10007;
  tcp_vless_tls = 10008;
  tcp_vless_reality = 10009;
  tcp_vmess = 10010;
  tcp_vmess_tls = 10011;
  tcp_trojan = 10012;
  hy2 = 443;
  httpupgrade = 10013;
  wg = 51820;
}

abbrev pub default_env : Env
default_env = record {
  is_node = false;
  node_secret = "";
  node_token = "";
  main_url = "";
  ports = default_ports;
  fallback_port = 0;
  tls_cert_file = "";
  tls_key_file = "";
  cert_exists = false;
  key_exists = false;
  hy2_obfs = "";
  hy2_masquerade_url = "";
  reality_sni = "www.microsoft.com";
  reality_dest = "1.1.1.1:443";
  default_ss_method = "2022-blake3-aes-128-gcm";
  default_login_hours = pos 24;
  admin_password = "";
}

abbrev pub ss_methods : List String
ss_methods =
    "aes-128-gcm" ∷ "aes-256-gcm" ∷ "chacha20-ietf-poly1305" ∷ "2022-blake3-aes-128-gcm"
    ∷ "2022-blake3-aes-256-gcm" ∷ "2022-blake3-chacha20-poly1305" ∷ []

abbrev pub ss_2022_methods : List String
ss_2022_methods =
    "2022-blake3-aes-128-gcm" ∷ "2022-blake3-aes-256-gcm" ∷ "2022-blake3-chacha20-poly1305" ∷ []

-- `tls_ready()`
unfoldable pub tls_ready : Env → Bool
tls_ready e =
    not (e.tls_cert_file == "") && not (e.tls_key_file == "") && e.cert_exists && e.key_exists

-- `fallback_active()`, and `fallback_mode` of the Xray config
unfoldable pub fallback_active : Env → Bool
unfolding tls_ready
fallback_active e = not (eqb e.fallback_port 0) && tls_ready e

abbrev pub session_max_age : ℕ
session_max_age = 604800

abbrev pub login_soft_fails : ℕ
login_soft_fails = 3

abbrev pub login_backoff_cap_seconds : ℕ
login_backoff_cap_seconds = 15

abbrev pub login_hard_lock_attempts : ℕ
login_hard_lock_attempts = 30

abbrev pub login_lock_seconds : ℕ
login_lock_seconds = 600

abbrev pub valid_fingerprints : List String
valid_fingerprints =
    "chrome" ∷ "firefox" ∷ "safari" ∷ "ios" ∷ "android" ∷ "edge" ∷ "360" ∷ "qq" ∷ "random"
    ∷ "randomized" ∷ []

abbrev pub valid_alpns : List String
valid_alpns = "http/1.1" ∷ "h2,http/1.1" ∷ "h3,h2,http/1.1" ∷ "" ∷ []

abbrev pub valid_protocols : List String
valid_protocols = "vless" ∷ "vmess" ∷ "trojan" ∷ "shadowsocks" ∷ "hysteria2" ∷ "wireguard" ∷ []
