-- ===== src/Endpoint/Agree.antt =====
-- Links against inbounds: the port that `_user_endpoint` puts into the link of a raw-TCP user is the
-- port of an inbound of the generated config that has the user.
use testuder.Tuning.{flow_for}
use testuder.Prelude.{
  ◌≡◌, inl, inr, ℕ, String, refl, sym, Bool, true, false, ◌&&◌, ◌||◌, List, [], ◌∷◌, ◌++◌, arith,
  ◌==◌, eq_iff, eq_refl, Bool-cases, any, any-append, lower, one_of, or_else, one_of-elim, subst,
  ◌∙◌,
}
use testuder.User.{User}
use testuder.Config.{Env, fallback_active}
use testuder.Settings.{Settings}
use testuder.Protocol.{tcp_port}
use testuder.Endpoint.{text_or, dial, dial_port}
use testuder.Xray.{Client, network}
use testuder.Xray.Clients.{Oracle, tcp_clients, trojan_tcp_clients, raw_tcp}
use testuder.Xray.Build.{
  inbound, when_any, fallback_inbound, RealityKeys, parts, generate_xray_config, tcp_inbounds,
}
use testuder.Xray.Served.{serves, any-clients, generated, part, ready}

any-mid :
    (before after : List User) (v : User) (q : User → Bool)
    → q v ≡ true
    → any (before ++ v ∷ after) q ≡ true
any-mid before after v q h = any-append before (v ∷ after) q ∙ ground arith

or_else-eq : (s d t : String) → (t == "") ≡ false → (s == t) ≡ true → (or_else s d == t) ≡ true
or_else-eq s d t n e = rw ((eq_iff s t).0 e) (rw n (eq_refl t))

in_tcp :
    (flow p d s : String) (before after : List User) (v : User)
    → (v.transport == "tcp") ≡ true
    → (v.protocol == p) ≡ true
    → (or_else v.security d == s) ≡ true
    → any (tcp_clients flow p d s (before ++ v ∷ after)) (λ c. c.email == v.uid) ≡ true
unfolding tcp_clients
in_tcp flow p d s before after v t e h =
    any-clients v.uid flow (λ u. raw_tcp p u && (or_else u.security d == s)) (before ++ v ∷ after)
    ∙ any-mid before after v (λ u. (raw_tcp p u && (or_else u.security d == s)) && (u.uid == v.uid))
        (ground (arith, eq_refl v.uid))

in_trojan :
    (before after : List User) (v : User)
    → (v.transport == "tcp") ≡ true
    → (v.protocol == "trojan") ≡ true
    → any (trojan_tcp_clients (before ++ v ∷ after)) (λ c. c.email == v.uid) ≡ true
unfolding trojan_tcp_clients
in_trojan before after v t e =
    any-clients v.uid "" (raw_tcp "trojan") (before ++ v ∷ after)
    ∙ any-mid before after v (λ u. raw_tcp "trojan" u && (u.uid == v.uid))
        (ground (arith, eq_refl v.uid))

any-fallback :
    (env : Env) (cs : List Client) (k : String)
    → fallback_active env ≡ true
    → any cs (λ c. c.email == k) ≡ true
    → any (fallback_inbound env cs) (serves env.fallback_port "vless" "tcp" k) ≡ true
unfolding fallback_inbound when_any inbound network
any-fallback env [] k f h = ground arith
any-fallback env (c ∷ cs) k f h = ground arith

-- The row is a raw-TCP triple that the inbounds can carry, written down on its own.
abbrev pub tcp_row : String → String → Bool
tcp_row p sec =
    ((p == "vless") && one_of sec ("none" ∷ "tls" ∷ "reality" ∷ []))
    || ((p == "vmess") && one_of sec ("none" ∷ "tls" ∷ []))
    || ((p == "trojan") && (sec == "tls"))

module _ (o : Oracle) (env : Env) (s : Settings) (r : RealityKeys) (before after : List User)
    (v : User) (m : String) (base : ℕ) (is_tcp : (v.transport == "tcp") ≡ true) where
  At : String → String → Type 0
  At p sec =
      (v.protocol == p) ≡ true
      → (v.security == sec) ≡ true
      → ready env r sec ≡ true
      → any (generate_xray_config o env s r (before ++ v ∷ after)).0
          (serves (dial env p "tcp" sec m base) p "tcp" v.uid)
        ≡ true

  vless_none : At "vless" "none"
  unfolding At dial tcp_port lower parts tcp_inbounds network
  vless_none hp hs ok = generated o env s r (before ++ v ∷ after) v.uid _ "vless" "tcp" 12 (
      part v.uid _ _ _ _ _ _ _ refl (
        in_tcp "" "vless" "none" "none" before after v is_tcp hp
          (or_else-eq v.security _ "none" refl hs)))

  vless_reality : At "vless" "reality"
  unfolding At dial tcp_port lower parts tcp_inbounds network
  vless_reality hp hs ok = generated o env s r (before ++ v ∷ after) v.uid _ "vless" "tcp" 18 (
      part v.uid _ _ _ _ _ _ _ ok (
        in_tcp (flow_for s "tcp" "reality") "vless" "" "reality" before after v is_tcp hp
          (or_else-eq v.security _ "reality" refl hs)))

  vmess_none : At "vmess" "none"
  unfolding At dial tcp_port lower parts tcp_inbounds network
  vmess_none hp hs ok = generated o env s r (before ++ v ∷ after) v.uid _ "vmess" "tcp" 13 (
      part v.uid _ _ _ _ _ _ _ refl (
        in_tcp "" "vmess" "none" "none" before after v is_tcp hp
          (or_else-eq v.security _ "none" refl hs)))

  vmess_tls : At "vmess" "tls"
  unfolding At dial tcp_port lower parts tcp_inbounds network
  vmess_tls hp hs ok = generated o env s r (before ++ v ∷ after) v.uid _ "vmess" "tcp" 15 (
      part v.uid _ _ _ _ _ _ _ ok (
        in_tcp "" "vmess" "" "tls" before after v is_tcp hp
          (or_else-eq v.security _ "tls" refl hs)))

  trojan_tls : At "trojan" "tls"
  unfolding At dial tcp_port lower parts tcp_inbounds network
  trojan_tls hp hs ok =
      generated o env s r (before ++ v ∷ after) v.uid _ "trojan" "tcp" 16
        (part v.uid _ _ _ _ _ _ _ ok (in_trojan before after v is_tcp hp))

  fallback_dial :
      fallback_active env ≡ true → dial env "vless" "tcp" "tls" m base ≡ env.fallback_port
  unfolding dial
  fallback_dial f = ground arith

  tls_dial :
      fallback_active env ≡ false → dial env "vless" "tcp" "tls" m base ≡ env.ports.tcp_vless_tls
  unfolding dial tcp_port lower
  tls_dial f = ground arith

  clients :
      (v.protocol == "vless") ≡ true
      → (v.security == "tls") ≡ true
      → any (tcp_clients "" "vless" "" "tls" (before ++ v ∷ after)) (λ c. c.email == v.uid) ≡ true
  clients hp hs =
      in_tcp "" "vless" "" "tls" before after v is_tcp hp (or_else-eq v.security _ "tls" refl hs)

  vless_tls : At "vless" "tls"
  unfolding At parts tcp_inbounds network
  vless_tls hp hs ok = elim (Bool-cases (fallback_active env)) [
    | inl f ↦ rw (fallback_dial f) (
        generated o env s r (before ++ v ∷ after) v.uid _ "vless" "tcp" 17
          (any-fallback env _ v.uid f (clients hp hs)))
    | inr f ↦ rw (tls_dial f) (
        generated o env s r (before ++ v ∷ after) v.uid _ "vless" "tcp" 14
          (part v.uid _ _ _ _ _ _ _ (ground arith) (clients hp hs)))
  ]

lowered :
    (sec : String)
    → one_of sec ("none" ∷ "tls" ∷ "reality" ∷ []) ≡ true
    → lower (or_else sec "none") ≡ sec
unfolding lower
lowered sec =
    one_of-elim (λ x. lower (or_else x "none") ≡ x) sec ("none" ∷ "tls" ∷ "reality" ∷ [])
      (refl, (refl, (refl, tt)))

dial_port-eq :
    (env : Env) (s : Settings) (v : User) (base : ℕ) (p : String)
    → v.transport ≡ "tcp"
    → v.protocol ≡ p
    → lower (or_else p "vless") ≡ p
    → one_of v.security ("none" ∷ "tls" ∷ "reality" ∷ []) ≡ true
    → dial_port env s v base
      ≡ dial env p "tcp" v.security
          (lower (or_else v.ss_method (text_or "ss_method" env.default_ss_method s)))
          base
unfolding dial_port lower
dial_port-eq env s v base p t e l h = rw (t, e, l, lowered v.security h) refl

-- For a raw-TCP row of a combination that is served, the port in the user's link is the port of a
-- generated inbound that speaks the row's protocol over TCP and has the user, once the certificate
-- (for TLS) or the private key (for Reality) is there; with single-port fallback too. The row need
-- not be enabled.
pub link-inbound-agree :
    (o : Oracle) (env : Env) (s : Settings) (r : RealityKeys) (before after : List User) (v : User)
    (base : ℕ)
    → v.transport ≡ "tcp"
    → tcp_row v.protocol v.security ≡ true
    → ready env r v.security ≡ true
    → any
        (generate_xray_config o env s r (before ++ v ∷ after)).0
        (serves (dial_port env s v base) v.protocol "tcp" v.uid)
      ≡ true
unfolding At lower
link-inbound-agree o env s r before after v base t h ok =
    elim (Bool-cases (v.protocol == "vless")) [
      | inl p ↦ conclude "vless" p refl (ground arith) (
          one_of-elim (here "vless") v.security ("none" ∷ "tls" ∷ "reality" ∷ [])
            (
              vless_none o env s r before after v m base is_tcp,
              (
                vless_tls o env s r before after v m base is_tcp,
                (vless_reality o env s r before after v m base is_tcp, tt),
              ),
            )
            (ground arith) p (eq_refl v.security) ok)
      | inr n ↦ elim (Bool-cases (v.protocol == "vmess")) [
        | inl p ↦ conclude "vmess" p refl (ground arith) (
            one_of-elim (here "vmess") v.security ("none" ∷ "tls" ∷ [])
              (
                vmess_none o env s r before after v m base is_tcp,
                (vmess_tls o env s r before after v m base is_tcp, tt),
              )
              (ground arith) p (eq_refl v.security) ok)
        | inr n' ↦ conclude "trojan" (ground arith) refl (ground arith) (
            one_of-elim (here "trojan") v.security ("tls" ∷ [])
              (trojan_tls o env s r before after v m base is_tcp, tt) (ground arith) (ground arith)
              (eq_refl v.security) ok)
      ]
    ]
  where
    m : String
    m = lower (or_else v.ss_method (text_or "ss_method" env.default_ss_method s))

    is_tcp : (v.transport == "tcp") ≡ true
    is_tcp = (eq_iff v.transport "tcp").1 t

    here : String → String → Type 0
    here = At o env s r before after v m base is_tcp

    conclude :
        (p : String)
        → (v.protocol == p) ≡ true
        → lower (or_else p "vless") ≡ p
        → one_of v.security ("none" ∷ "tls" ∷ "reality" ∷ []) ≡ true
        → any
            (generate_xray_config o env s r (before ++ v ∷ after)).0
            (serves (dial env p "tcp" v.security m base) p "tcp" v.uid)
          ≡ true
        → any
            (generate_xray_config o env s r (before ++ v ∷ after)).0
            (serves (dial_port env s v base) v.protocol "tcp" v.uid)
          ≡ true
    conclude p e l sec h =
        let ep : v.protocol ≡ p = (eq_iff v.protocol p).0 e in
        subst
          (λ (n : ℕ).
            any (generate_xray_config o env s r (before ++ v ∷ after)).0
              (serves n v.protocol "tcp" v.uid)
            ≡ true)
          (sym (dial_port-eq env s v base p t ep l sec))
          (subst
            (λ (q : String).
              any (generate_xray_config o env s r (before ++ v ∷ after)).0
                (serves (dial env p "tcp" v.security m base) q "tcp" v.uid)
              ≡ true)
            (sym ep) h)
