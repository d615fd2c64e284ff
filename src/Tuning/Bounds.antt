-- ===== src/Tuning/Bounds.antt =====
-- What the tuning promises whatever the settings hold: known profiles and modes, numbers in range, no
-- forbidden socket option, and Vision on raw TCP alone.
use testuder.Prelude.{
  ◌≡◌, ℕ, ◌≤◌, String, refl, Bool, true, false, ◌&&◌, ◌||◌, some, [], ◌∷◌, arith, ◌==◌, leb,
  if◌then◌else◌, all, lower, strip, one_of, lookup, coerce_to-all,
}
use testuder.Value.{to_int}
use testuder.Prelude.Int.{ℤ, pos, negsuc}
use testuder.Settings.{on, Settings, text_or}
use testuder.Tuning.{
  or_int, num, wg_tuning, Value, text, xhttp_extra, profile_name, profiles, profile, profile_of,
  xhttp_mode, xhttp_modes, int_setting, clamp, sockopt, sockopt_checked, flow_for, vision_flow,
  vision_on,
}

clamp_range : (lo hi : ℕ) (n : ℤ) → lo ≤ hi → (lo ≤ clamp lo hi n) × (clamp lo hi n ≤ hi)
clamp_range lo hi (pos n) h = omega arith
clamp_range lo hi (negsuc n) h = omega arith

int_setting_range :
    (s : Settings) (key : String) (fallback lo hi : ℕ)
    → lo ≤ hi
    → (lo ≤ int_setting s key fallback lo hi) × (int_setting s key fallback lo hi ≤ hi)
unfolding int_setting
int_setting_range s key fallback lo hi h = clamp_range lo hi _ h

int_setting_stored :
    (s : Settings) (key : String) (fallback lo hi n : ℕ)
    → lookup key s ≡ some (num (pos n))
    → lo ≤ n
    → n ≤ hi
    → int_setting s key fallback lo hi ≡ n
unfolding int_setting to_int or_int
int_setting_stored s key fallback lo hi n e l h = rw e (omega arith)

-- The limits of the options that are numbers; no other option is a number.
abbrev pub in_limits : String × Value → Bool
in_limits (k, num (pos n)) =
    ((k == "tcpKeepAliveIdle") && (leb 5 n && leb n 600))
    || ((k == "tcpUserTimeout") && (leb 2000 n && leb n 130000))
    || ((k == "scMaxEachPostBytes") && (leb 5000 n && leb n 100000000))
    || ((k == "scMaxBufferedPosts") && (leb 1 n && leb n 1000))
in_limits (k, num (negsuc n)) = false
in_limits _ = true

all-text : (k v : String) (b : Bool) → all (if b then [] else (k, text v) ∷ []) in_limits ≡ true
all-text k v b = ground arith

-- Whatever the settings hold, each number among the socket options is a keepalive of 5 to 600 seconds
-- or a user timeout of 2000 to 130000 milliseconds; each one in the XHTTP extras is a body of 5000 to
-- 100000000 bytes or 1 to 1000 buffered posts; and WireGuard has a keepalive of at most 300 seconds and
-- an MTU of at most 1420.
pub numbers-in_limits :
    (s : Settings) (mode : String)
    → (all (sockopt s) in_limits ≡ true)
      × (all (xhttp_extra s mode) in_limits ≡ true)
      × ((wg_tuning s).0 ≤ 300)
      × ((wg_tuning s).1 ≤ 1420)
unfolding sockopt xhttp_extra wg_tuning
numbers-in_limits s mode = (
  ground (
    arith,
    int_setting_range s "tcp_keepalive_idle" 30 5 600 (omega arith),
    int_setting_range s "tcp_user_timeout" 10000 2000 130000 (omega arith),
  ),
  ground (
    arith,
    int_setting_range s "xhttp_max_each_post" 1000000 5000 100000000 (omega arith),
    int_setting_range s "xhttp_max_buffered_posts" 30 1 1000 (omega arith),
  ),
  (int_setting_range s "wg_keepalive" (profile s).wg_keepalive 0 300 (omega arith)).1,
  (int_setting_range s "wg_mtu" (profile s).wg_mtu 0 1420 (omega arith)).1,
)

-- While the socket options are on, a stored number that is within its limits is emitted as it is: the
-- keepalive and the user timeout among the socket options, the keepalive and the MTU for WireGuard.
pub stored-emitted :
    (s : Settings) (idle timeout keepalive mtu : ℕ)
    → on "sockopt_enabled" true s ≡ true
    → lookup "tcp_keepalive_idle" s ≡ some (num (pos idle))
    → lookup "tcp_user_timeout" s ≡ some (num (pos timeout))
    → lookup "wg_keepalive" s ≡ some (num (pos keepalive))
    → lookup "wg_mtu" s ≡ some (num (pos mtu))
    → (5 ≤ idle) × (idle ≤ 600)
    → (2000 ≤ timeout) × (timeout ≤ 130000)
    → keepalive ≤ 300
    → mtu ≤ 1420
    → (lookup "tcpKeepAliveIdle" (sockopt s) ≡ some (num (pos idle)))
      × (lookup "tcpUserTimeout" (sockopt s) ≡ some (num (pos timeout)))
      × (wg_tuning s ≡ (keepalive, mtu))
unfolding sockopt wg_tuning lookup
stored-emitted s idle timeout keepalive mtu o ei et ek em hi ht hk hm =
    let i = int_setting_stored s "tcp_keepalive_idle" 30 5 600 idle ei hi.0 hi.1 in
    let t = int_setting_stored s "tcp_user_timeout" 10000 2000 130000 timeout et ht.0 ht.1 in
    let k =
      int_setting_stored s "wg_keepalive" (profile s).wg_keepalive 0 300 keepalive ek (omega arith)
        hk in
    let m = int_setting_stored s "wg_mtu" (profile s).wg_mtu 0 1420 mtu em (omega arith) hm in
    (rw (o, i) refl, rw (o, t) refl, rw (k, m) refl)

-- The profile in use is one of the three.
pub profile_name-known : (s : Settings) → one_of (profile_name s) profiles ≡ true
unfolding profile_name
profile_name-known s =
    coerce_to-all (λ p. one_of p profiles) (lower (strip (text_or "operator_profile" "general" s)))
      profiles "general" refl

profile_mode :
    (s : Settings) → all ((profile s).xhttp_mode ∷ xhttp_modes) (λ p. one_of p xhttp_modes) ≡ true
unfolding profile profile_name
profile_mode s =
    coerce_to-all (λ p. all ((profile_of p).xhttp_mode ∷ xhttp_modes) (λ m. one_of m xhttp_modes))
      (lower (strip (text_or "operator_profile" "general" s))) profiles "general" refl

-- Whatever the settings hold, the XHTTP mode of inbounds and links is one that Xray knows.
pub xhttp_mode-known : (s : Settings) → one_of (xhttp_mode s) xhttp_modes ≡ true
unfolding xhttp_mode
xhttp_mode-known s =
    coerce_to-all (λ p. one_of p xhttp_modes) (lower (strip (text_or "xhttp_mode" "" s)))
      xhttp_modes (profile s).xhttp_mode (profile_mode s)

-- The check against forbidden socket options never fires: for every setting the options are emitted,
-- and none of their keys is forbidden.
pub sockopt_checked_total : (s : Settings) → sockopt_checked s ≡ some (sockopt s)
unfolding sockopt_checked sockopt
sockopt_checked_total s = ground arith

-- A flow is emitted only when Vision is on, the transport is raw TCP and the security is Reality or
-- TLS; it is then the Vision flow.
pub flow_for_exact :
    (s : Settings) (t sec : String)
    → flow_for s t sec ≡ (
        if vision_on s && (lower t == "tcp") && one_of (lower sec) ("reality" ∷ "tls" ∷ [])
        then vision_flow
        else "")
unfolding flow_for
flow_for_exact s t sec = ground arith
