-- ===== src/Settings.antt =====
-- The settings of the panel: app/config.py `DEFAULT_SETTINGS`, app/db.py `get_settings`, and Python's
-- ways of reading a key. Values that were stored are taken as decoded from their JSON.
use testuder.Prelude.{
  String, Bool, true, false, Option, none, some, List, [], ◌∷◌, if◌then◌else◌, lookup, insert,
}
use testuder.Prelude.Int.{pos}
use testuder.Value.{Value, null, flag, num, text, truthy, to_text}
use testuder.Db.{Db}

abbrev pub Settings : Type 0
Settings = List (String × Value)

unfoldable pub default_settings : Settings
default_settings =
    ("public_domain", text "")
    ∷ ("public_port", num (pos 443))
    ∷ ("admin_avatar", text "titan")
    ∷ ("default_transport", text "ws")
    ∷ ("default_fingerprint", text "chrome")
    ∷ ("default_alpn", text "http/1.1")
    ∷ ("sni_override", text "")
    ∷ ("fragment_enabled", flag false)
    ∷ ("fragment_length", text "10-30")
    ∷ ("fragment_interval", text "10-20")
    ∷ ("restrict_ips", flag true)
    ∷ ("block_ads", flag true)
    ∷ ("block_iran_sites", flag false)
    ∷ ("backup_enabled", flag true)
    ∷ ("backup_interval_hours", num (pos 24))
    ∷ ("operator_profile", text "general")
    ∷ ("vision_enabled", flag true)
    ∷ ("sockopt_enabled", flag true)
    ∷ ("tcp_congestion", text "bbr")
    ∷ ("tcp_keepalive_idle", num (pos 30))
    ∷ ("tcp_user_timeout", num (pos 10000))
    ∷ ("tcp_mptcp", flag true)
    ∷ ("sniffing_enabled", flag true)
    ∷ ("sniffing_route_only", flag true)
    ∷ ("xhttp_mode", text "auto")
    ∷ ("xhttp_padding", text "")
    ∷ ("xhttp_xmux", flag true)
    ∷ ("client_fragment_enabled", flag true)
    ∷ ("wg_keepalive", num (pos 25))
    ∷ ("wg_mtu", num (pos 1280))
    ∷ ("reality_pub", text "")
    ∷ ("reality_sid", text "")
    ∷ ("reality_sni", text "")
    ∷ ("reality_dest", text "")
    ∷ []

overlay : Settings → Settings → Settings
overlay [] s = s
overlay ((k, v) ∷ rows) s = overlay rows (insert k v s)

-- `get_settings()`: the stored rows over the defaults
unfoldable pub get_settings : Db → Settings
unfolding overlay default_settings
get_settings d = overlay d.settings default_settings

abbrev pub or_value : Option Value → Value → Value
or_value none d = d
or_value (some v) d = v

-- `settings.get(key, d)`
abbrev pub get_or : String → Value → Settings → Value
get_or key d s = or_value (lookup key s) d

abbrev pub get : String → Settings → Value
get key s = get_or key null s

-- `str(settings.get(key) or d)`
unfoldable pub text_or : String → String → Settings → String
text_or key d s = if truthy (get key s) then to_text (get key s) else d

-- `settings.get(key, d)`, of a key that holds a text
unfoldable pub get_text : String → String → Settings → String
get_text key d s = to_text (get_or key (text d) s)

-- `bool(settings.get(key, d))`
unfoldable pub on : String → Bool → Settings → Bool
on key d s = truthy (get_or key (flag d) s)
