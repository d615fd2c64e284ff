-- ===== src/Protocol/Served.antt =====
-- What `_normalize_protocol_fields` promises: only combinations that an Xray inbound serves.
use testuder.Prelude.{
  refl, coerce_to, or_else, coerce_to-all, lower, all, one_of-elim, String, Bool, true, ◌&&◌, ◌||◌,
  [], ◌∷◌, ◌==◌, ◌≡◌, one_of,
}
use testuder.Config.{valid_protocols}
use testuder.Protocol.{
  normalize_protocol_fields, served_fields, restrict_security, served_transports,
}

-- The triples that the generated inbounds can carry, written down on their own.
abbrev pub is_served : String → String → String → Bool
is_served p t s =
    ((p == "vless")
      && one_of t ("ws" ∷ "xhttp" ∷ "grpc" ∷ "httpupgrade" ∷ [])
      && one_of s ("tls" ∷ "none" ∷ []))
    || ((p == "vless") && (t == "tcp") && one_of s ("tls" ∷ "none" ∷ "reality" ∷ []))
    || ((p == "vmess")
        && one_of t ("ws" ∷ "xhttp" ∷ "grpc" ∷ "httpupgrade" ∷ "tcp" ∷ [])
        && one_of s ("tls" ∷ "none" ∷ []))
    || ((p == "trojan") && one_of t ("ws" ∷ "tcp" ∷ []) && (s == "tls"))
    || ((p == "shadowsocks") && (t == "ws") && one_of s ("tls" ∷ "none" ∷ []))
    || ((p == "hysteria2") && (t == "") && (s == "tls"))
    || ((p == "wireguard") && (t == "") && (s == ""))

served_fields-is_served :
    (p t s : String)
    → all ("ws" ∷ served_transports p) (λ t'.
      all
        ("tls" ∷ "tls" ∷ "none" ∷ "reality" ∷ [])
        (λ s'. is_served p t' (restrict_security p t' s')))
      ≡ true
    → is_served p (served_fields p t s).0 (served_fields p t s).1 ≡ true
unfolding served_fields
served_fields-is_served p t s h =
    coerce_to-all
      (λ s'.
        is_served p (coerce_to t (served_transports p) "ws")
          (restrict_security p (coerce_to t (served_transports p) "ws") s'))
      s ("tls" ∷ "none" ∷ "reality" ∷ []) "tls"
      (coerce_to-all
        (λ t'.
          all ("tls" ∷ "tls" ∷ "none" ∷ "reality" ∷ [])
            (λ s'. is_served p t' (restrict_security p t' s')))
        t (served_transports p) "ws" h)

-- For a valid protocol, the normalised pair is a served one, whatever was asked for.
pub normalize-is_served :
    (p t s : String)
    → one_of p valid_protocols ≡ true
    → is_served p (normalize_protocol_fields p t s).0 (normalize_protocol_fields p t s).1 ≡ true
unfolding normalize_protocol_fields
normalize-is_served p t s =
    let t' = lower (or_else t "ws") in
    let s' = lower (or_else s "tls") in
    one_of-elim
      (λ q.
        is_served q (normalize_protocol_fields q t s).0 (normalize_protocol_fields q t s).1 ≡ true)
      p valid_protocols
      (
        served_fields-is_served "vless" t' s' refl,
        (
          served_fields-is_served "vmess" t' s' refl,
          (
            served_fields-is_served "trojan" t' s' refl,
            (served_fields-is_served "shadowsocks" t' s' refl, (refl, (refl, tt))),
          ),
        ),
      )
