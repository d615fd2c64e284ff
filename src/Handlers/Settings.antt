-- ===== src/Handlers/Settings.antt =====
-- app/main.py `api_set_settings`. A value that is not a text is in no table of texts.
pub mod Valid
use testuder.Prelude.{
  ◌≡◌, ◌≢◌, ◌↔◌, ◌⊎◌, inl, inr, ℕ, zero, suc, ◌+◌, ◌-◌, ◌*◌, ◌/◌, ◌%◌, ◌≤◌, ◌<◌, String, refl, sym,
  ap, Bool, true, false, ◌&&◌, ◌||◌, not, Option, none, some, List, [], ◌∷◌, ◌++◌, map, arith, ◌==◌,
  eq_iff, eq_refl, ltb, leb, eqb, if◌then◌else◌, Bool-cases, Option-cases, &&-split, length, take,
  drop, any, all, filter, find?, All, any-append, all-append, find?-sound, any-filter, All-append,
  All-filter, All-map, All-of_forall, All-mono, any-map, length-map, lower, truncate, strip, one_of,
  or_else, one_of-elim, coerce_to, lookup, insert, remove, lookup-insert, lookup-remove,
  lookup-insert_self, append, coerce_to-all, min, max, subst, ◌∙◌, append-nil, append_assoc, upper,
  length-append,
}
use testuder.Prelude.Int.{ℤ}
use testuder.Value.{Value, null, flag, num, text, other, truthy, to_text, to_int}
use testuder.Config.{valid_fingerprints, valid_alpns}
use testuder.Settings.{Settings, default_settings}
use testuder.Tuning.{profiles, xhttp_modes, range_ok}
use testuder.Db.{Db, set_settings}
use testuder.Db.Events.{add_event}
use testuder.Panel.{Panel, Job, Result, Action, ok, reload}

abbrev pub tcp_congestion : List String
tcp_congestion = "bbr" ∷ "cubic" ∷ "reno" ∷ "" ∷ []

abbrev pub number_keys : List String
number_keys = "tcp_keepalive_idle" ∷ "tcp_user_timeout" ∷ "wg_keepalive" ∷ "wg_mtu" ∷ []

-- `_RELOAD_KEYS`
abbrev pub reload_keys : List String
reload_keys =
    "block_ads" ∷ "block_iran_sites" ∷ "restrict_ips" ∷ "vision_enabled" ∷ "sockopt_enabled"
    ∷ "tcp_congestion" ∷ "tcp_keepalive_idle" ∷ "tcp_user_timeout" ∷ "tcp_mptcp"
    ∷ "sniffing_enabled" ∷ "sniffing_route_only" ∷ "xhttp_mode" ∷ "xhttp_padding" ∷ "xhttp_xmux"
    ∷ "operator_profile" ∷ "reality_dest" ∷ "reality_sni" ∷ "reality_sid" ∷ []

-- `v in {…}`
abbrev pub text_in : List String → Value → Bool
text_in ys (text s) = one_of s ys
text_in ys _ = false

-- `str(v or "").strip() and not range_ok(v)` is false
abbrev pub padding_fits : Value → Bool
padding_fits v =
    let s = if truthy v then to_text v else "" in (strip s == "") || range_ok (to_text v)

as_number : Option ℤ → Option Value
as_number none = none
as_number (some n) = some (num n)

-- `k in DEFAULT_SETTINGS`
is_setting : String → Bool
unfolding default_settings
is_setting k = any default_settings (λ e. e.0 == k)

-- the value that the loop keeps for a key, if it keeps one
unfoldable pub accept : String → Value → Option Value
unfolding as_number is_setting
accept k v =
    if not (is_setting k)
    then none
    else if (k == "default_fingerprint") && not (text_in valid_fingerprints v)
    then none
    else if (k == "default_alpn") && not (text_in valid_alpns v)
    then none
    else if (k == "operator_profile") && not (one_of (to_text v) profiles)
    then none
    else if (k == "xhttp_mode") && not (one_of (to_text v) xhttp_modes)
    then none
    else if (k == "tcp_congestion") && not (one_of (to_text v) tcp_congestion)
    then none
    else if (k == "xhttp_padding") && not (padding_fits v)
    then none
    else if one_of k number_keys
    then as_number (to_int v)
    else some v

keep : String → Option Value → Settings → Settings
keep k none us = us
keep k (some v) us = (k, v) ∷ us

-- `updates`
unfoldable pub updates : Settings → Settings
unfolding keep
updates [] = []
updates ((k, v) ∷ m) = keep k (accept k v) (updates m)

-- `api_set_settings`: `shown` is the JSON of the updates, cut. The reload is done at once.
unfoldable pub api_set_settings : ℕ → String → Settings → Action (Unit {0})
api_set_settings now shown body p =
    let us = updates body in
    (
      ok tt,
      record p {
        db = add_event now "info" "settings-update" (truncate 300 shown) "" (set_settings us p.db);
        jobs = p.jobs ++ (if any us (λ e. one_of e.0 reload_keys) then reload ∷ [] else []);
      },
    )
