-- ===== src/Xray/Withdrawn.antt =====
-- Users that may not be served: which inbounds of `generate_xray_config` still have them.
use testuder.Prelude.{
  ◌≡◌, inl, inr, ℕ, String, refl, ap, Bool, true, false, ◌&&◌, ◌||◌, not, List, [], ◌∷◌, ◌++◌, map,
  arith, ◌==◌, Bool-cases, any, filter, All, any-filter, All-append, or_else, ◌∙◌,
}
use testuder.User.{User}
use testuder.Config.{Env, fallback_active}
use testuder.Settings.{Settings}
use testuder.Xray.{tuned, Client, Stream, Inbound, apply_to_inbounds}
use testuder.Xray.Clients.{
  ss_client, is_2022, ss_users, Oracle, shared_clients, tcp_clients, trojan_tcp_clients, ss_legacy,
  ss_2022_clients, enabled_on, raw_tcp,
}
use testuder.Xray.Build.{
  ss_inbound, hy2_inbound, api_inbound, fallback_inbound, ss_2022_inbound, RealityKeys, concat,
  parts, generate_xray_config, tcp_inbounds, shared_inbounds, offer, when_any, inbound,
}
use testuder.Xray.Served.{any-clients, any-concat}

-- The inbound knows the user.
abbrev pub knows : String → Inbound → Bool
knows k ib = any ib.clients (λ c. c.email == k)

-- The rows that the config is made for: enabled ones, and raw-TCP ones whatever their state.
abbrev pub admits : User → Bool
admits u = u.enabled || (u.transport == "tcp")

tuned-knows :
    (k : String) (ibs : List Inbound) (s : Settings)
    → any (apply_to_inbounds ibs s) (knows k) ≡ any ibs (knows k)
unfolding apply_to_inbounds tuned
tuned-knows k [] s = refl
tuned-knows k (ib ∷ ibs) s = ground (arith, tuned-knows k ibs s)

any-offer-knows :
    (b : Bool) (listen : String) (port : ℕ) (p : String) (cs : List Client) (st : Stream)
    (tag k : String)
    → any cs (λ c. c.email == k) ≡ false
    → any (offer b listen port p cs st tag) (knows k) ≡ false
unfolding offer when_any inbound
any-offer-knows b listen port p [] st tag k h = ground arith
any-offer-knows b listen port p (c ∷ cs) st tag k h = ground arith

-- A narrower test is met by no row if a wider one is not.
none-of :
    (us : List User) (q r : User → Bool)
    → ((u : User) → q u ≡ true → r u ≡ true)
    → any us r ≡ false
    → any us q ≡ false
none-of [] q r i h = refl
none-of (u ∷ us) q r i h = elim (Bool-cases (q u)) [
  | inl e ↦ ground (arith, i u e)
  | inr e ↦ ground (arith, none-of us q r i)
]

any-emails :
    (k : String) (f : User → Client) (q : User → Bool) (us : List User)
    → ((u : User) → (f u).email ≡ u.uid)
    → any (map f (filter q us)) (λ c. c.email == k) ≡ any us (λ u. q u && (u.uid == k))
any-emails k f q [] e = refl
any-emails k f q (u ∷ us) e = elim (Bool-cases (q u)) [
  | inl h ↦ rw h (rw (e u) (ap (λ (b : Bool). (u.uid == k) || b) (any-emails k f q us e)))
  | inr h ↦ rw h (any-emails k f q us e)
]

any-when_any :
    (cs : List Client) (ib : Inbound) (k : String)
    → knows k ib ≡ false
    → any (when_any cs ib) (knows k) ≡ false
unfolding when_any
any-when_any [] ib k h = refl
any-when_any (c ∷ cs) ib k h = ground arith

no_parts :
    (ps : List (List Inbound)) (k : String)
    → All (λ p. any p (knows k) ≡ false) ps
    → any ps (λ p. any p (knows k)) ≡ false
no_parts [] k h = refl
no_parts (p ∷ ps) k h = ground (arith, h.0, no_parts ps k h.1)

module _ (o : Oracle) (env : Env) (s : Settings) (r : RealityKeys) (us : List User) (k : String)
    (out : any us (λ u. admits u && (u.uid == k)) ≡ false) where
  no_shared : (p : String) → any (shared_clients p us) (λ c. c.email == k) ≡ false
  unfolding shared_clients
  no_shared p =
      any-clients k "" (enabled_on p) us
      ∙ none-of us (λ u. enabled_on p u && (u.uid == k)) (λ u. admits u && (u.uid == k))
          (λ u h. ground arith) out

  no_tcp : (flow p d sec : String) → any (tcp_clients flow p d sec us) (λ c. c.email == k) ≡ false
  unfolding tcp_clients
  no_tcp flow p d sec =
      any-clients k flow (λ u. raw_tcp p u && (or_else u.security d == sec)) us
      ∙ none-of us (λ u. (raw_tcp p u && (or_else u.security d == sec)) && (u.uid == k))
          (λ u. admits u && (u.uid == k)) (λ u h. ground arith) out

  no_trojan : any (trojan_tcp_clients us) (λ c. c.email == k) ≡ false
  unfolding trojan_tcp_clients
  no_trojan =
      any-clients k "" (raw_tcp "trojan") us
      ∙ none-of us (λ u. raw_tcp "trojan" u && (u.uid == k)) (λ u. admits u && (u.uid == k))
          (λ u h. ground arith) out

  no_ss_user : (q : User → Bool) → any (ss_users us) (λ u. q u && (u.uid == k)) ≡ false
  unfolding ss_users
  no_ss_user q =
      any-filter us (enabled_on "shadowsocks") (λ u. q u && (u.uid == k))
      ∙ none-of us (λ u. enabled_on "shadowsocks" u && (q u && (u.uid == k)))
          (λ u. admits u && (u.uid == k)) (λ u h. ground arith) out

  no_legacy : any (ss_legacy o env s us) (λ c. c.email == k) ≡ false
  unfolding ss_legacy ss_client
  no_legacy = any-emails k _ _ (ss_users us) (λ u. refl) ∙ no_ss_user (λ u. not (is_2022 env s u))

  no_2022 : any (ss_2022_clients o env s us) (λ c. c.email == k) ≡ false
  unfolding ss_2022_clients
  no_2022 = any-emails k _ _ (ss_users us) (λ u. refl) ∙ no_ss_user (is_2022 env s)

  no_2022_inbound : any (ss_2022_inbound o env s us) (knows k) ≡ false
  unfolding ss_2022_inbound
  no_2022_inbound = any-when_any (ss_2022_clients o env s us) _ k no_2022

  no_fallback : any (fallback_inbound env (tcp_clients "" "vless" "" "tls" us)) (knows k) ≡ false
  unfolding fallback_inbound
  no_fallback = elim (Bool-cases (fallback_active env)) [
    | inl f ↦
        rw f (any-when_any (tcp_clients "" "vless" "" "tls" us) _ k (no_tcp "" "vless" "" "tls"))
    | inr f ↦ rw f refl
  ]

  absent :
      (b : Bool) (listen : String) (port : ℕ) (p : String) (cs : List Client) (st : Stream)
      (tag : String)
      → any cs (λ c. c.email == k) ≡ false
      → any (offer b listen port p cs st tag) (knows k) ≡ false
  absent b listen port p cs st tag h = any-offer-knows b listen port p cs st tag k h

  no_shared_part : All (λ p. any p (knows k) ≡ false) (shared_inbounds env s us)
  unfolding shared_inbounds
  no_shared_part = (
    absent _ _ _ _ _ _ _ (no_shared "vless"),
    (
      absent _ _ _ _ _ _ _ (no_shared "vmess"),
      (
        absent _ _ _ _ _ _ _ (no_shared "trojan"),
        (
          absent _ _ _ _ _ _ _ (no_shared "vless"),
          (
            absent _ _ _ _ _ _ _ (no_shared "vmess"),
            (
              absent _ _ _ _ _ _ _ (no_shared "vless"),
              (
                absent _ _ _ _ _ _ _ (no_shared "vmess"),
                (
                  absent _ _ _ _ _ _ _ (no_shared "vless"),
                  (absent _ _ _ _ _ _ _ (no_shared "vmess"), tt),
                ),
              ),
            ),
          ),
        ),
      ),
    ),
  )

  no_tcp_part : All (λ p. any p (knows k) ≡ false) (tcp_inbounds env s r us)
  unfolding tcp_inbounds
  no_tcp_part = (
    absent _ _ _ _ _ _ _ (no_tcp _ _ _ _),
    (
      absent _ _ _ _ _ _ _ (no_tcp _ _ _ _),
      (
        absent _ _ _ _ _ _ _ (no_tcp _ _ _ _),
        (
          absent _ _ _ _ _ _ _ (no_tcp _ _ _ _),
          (
            absent _ _ _ _ _ _ _ no_trojan,
            (no_fallback, (absent _ _ _ _ _ _ _ (no_tcp _ _ _ _), tt)),
          ),
        ),
      ),
    ),
  )

  no_ss_inbound : any (ss_inbound o env s us) (knows k) ≡ false
  unfolding ss_inbound
  no_ss_inbound = absent _ _ _ _ _ _ _ no_legacy

  no_hy2_inbound : any (hy2_inbound env us) (knows k) ≡ false
  unfolding hy2_inbound
  no_hy2_inbound = absent _ _ _ _ _ _ _ (no_shared "hysteria2")

  no_last : All (λ p. any p (knows k) ≡ false) (tcp_inbounds env s r us ++ hy2_inbound env us ∷ [])
  no_last =
      All-append (λ p. any p (knows k) ≡ false) (tcp_inbounds env s r us) (hy2_inbound env us ∷ [])
        no_tcp_part (no_hy2_inbound, tt)

  no_part : All (λ p. any p (knows k) ≡ false) (parts o env s r us)
  unfolding parts api_inbound inbound
  no_part = (
    refl,
    All-append (λ p. any p (knows k) ≡ false) (shared_inbounds env s us)
        (ss_inbound o env s us
          ∷ ss_2022_inbound o env s us
          ∷ (tcp_inbounds env s r us ++ hy2_inbound env us ∷ []))
        no_shared_part (no_ss_inbound, (no_2022_inbound, no_last)),
  )

-- A uid none of whose rows is enabled or raw-TCP is a client of no inbound of the generated config.
pub withdrawn-unserved :
    (o : Oracle) (env : Env) (s : Settings) (r : RealityKeys) (us : List User) (k : String)
    → any us (λ u. admits u && (u.uid == k)) ≡ false
    → any (generate_xray_config o env s r us).0 (knows k) ≡ false
unfolding generate_xray_config
withdrawn-unserved o env s r us k out =
    tuned-knows k (concat (parts o env s r us)) s
    ∙ any-concat (parts o env s r us) (knows k)
    ∙ no_parts (parts o env s r us) k (no_part o env s r us k out)
