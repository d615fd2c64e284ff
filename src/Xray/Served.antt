-- ===== src/Xray/Served.antt =====
-- Every user that can be served is: the inbound that the user's links point at exists and has it.
use testuder.Prelude.{
  ◌≡◌, ℕ, zero, suc, String, refl, Bool, true, false, ◌&&◌, not, List, [], ◌∷◌, map, arith, ◌==◌,
  eq_refl, eqb, if◌then◌else◌, any, filter, All, any-append, one_of, one_of-elim, ◌∙◌,
}
use testuder.User.{User}
use testuder.Config.{Env, Ports, tls_ready}
use testuder.Settings.{Settings}
use testuder.Xray.{tuned, Client, Stream, Inbound, network, apply_to_inbounds}
use testuder.Xray.Clients.{enabled_on, Oracle, mk_client, shared_clients}
use testuder.Xray.Build.{RealityKeys, concat, parts, generate_xray_config, shared_inbounds, offer}

-- The inbound listens on the port, speaks the protocol over the network, and knows the user.
abbrev pub serves : ℕ → String → String → String → Inbound → Bool
serves port p net uid ib =
    eqb ib.port port
    && (ib.protocol == p)
    && (network ib.stream == net)
    && any ib.clients (λ c. c.email == uid)

pub any-concat :
    (ps : List (List Inbound)) (q : Inbound → Bool) → any (concat ps) q ≡ any ps (λ p. any p q)
unfolding concat
any-concat [] q = refl
any-concat (p ∷ ps) q = any-append p (concat ps) q ∙ ground (arith, any-concat ps q)

-- Tuning changes neither the port, the protocol, the network nor the clients.
tuned-serves :
    (port : ℕ) (p net uid : String) (ibs : List Inbound) (s : Settings)
    → any (apply_to_inbounds ibs s) (serves port p net uid) ≡ any ibs (serves port p net uid)
unfolding apply_to_inbounds tuned
tuned-serves port p net uid [] s = refl
tuned-serves port p net uid (ib ∷ ibs) s = ground (arith, tuned-serves port p net uid ibs s)

-- Whoever a list of clients is made for is in it.
pub any-clients :
    (k flow : String) (q : User → Bool) (us : List User)
    → any (map (mk_client flow) (filter q us)) (λ c. c.email == k)
      ≡ any us (λ u. q u && (u.uid == k))
unfolding mk_client
any-clients k flow q [] = refl
any-clients k flow q (u ∷ us) = ground (arith, any-clients k flow q us)

any-offer :
    (b : Bool) (listen : String) (port : ℕ) (p : String) (cs : List Client) (st : Stream)
    (tag k : String)
    → any (offer b listen port p cs st tag) (serves port p (network st) k)
      ≡ (b && any cs (λ c. c.email == k))
unfolding offer
any-offer b listen port p [] st tag k = ground arith
any-offer b listen port p (c ∷ cs) st tag k = ground (arith, eq_refl p, eq_refl (network st))

-- The n-th part has such an inbound.
abbrev pub in_part : ℕ → List (List Inbound) → (Inbound → Bool) → Bool
in_part n [] q = false
in_part zero (p ∷ ps) q = any p q
in_part (suc n) (p ∷ ps) q = in_part n ps q

any-in_part :
    (n : ℕ) (ps : List (List Inbound)) (q : Inbound → Bool)
    → in_part n ps q ≡ true
    → any ps (λ p. any p q) ≡ true
any-in_part n [] q h = h
any-in_part zero (p ∷ ps) q h = ground arith
any-in_part (suc n) (p ∷ ps) q h = ground (arith, any-in_part n ps q)

-- The port behind the path of a shared transport.
abbrev pub shared_port : Ports → String → String → ℕ
shared_port ports p t =
    if t == "ws"
    then if p == "vless"
      then ports.vless_ws
      else if p == "vmess"
      then ports.vmess_ws
      else ports.trojan_ws
    else if t == "xhttp"
    then ports.xhttp
    else if t == "grpc"
    then ports.grpc
    else ports.httpupgrade

in_shared :
    (k p : String) (us : List User)
    → any us (λ u. enabled_on p u && (u.uid == k)) ≡ true
    → any (shared_clients p us) (λ c. c.email == k) ≡ true
unfolding shared_clients
in_shared k p us m = any-clients k "" (enabled_on p) us ∙ m

-- The ports that links of raw-TCP rows name, when the inbound can run.
abbrev pub ready : Env → RealityKeys → String → Bool
ready env r s =
    if s == "tls" then tls_ready env else if s == "reality" then not (r.priv == "") else true

-- An inbound that is offered and made for a user serves the user.
pub part :
    (k : String) (b : Bool) (listen : String) (port : ℕ) (p : String) (cs : List Client)
    (st : Stream) (tag : String)
    → b ≡ true
    → any cs (λ c. c.email == k) ≡ true
    → any (offer b listen port p cs st tag) (serves port p (network st) k) ≡ true
part k b listen port p cs st tag e h = ground (arith, any-offer b listen port p cs st tag k)

module _ (o : Oracle) (env : Env) (s : Settings) (r : RealityKeys) (us : List User)
    (k : String) where
  pub generated :
      (port : ℕ) (p net : String) (n : ℕ)
      → in_part n (parts o env s r us) (serves port p net k) ≡ true
      → any (generate_xray_config o env s r us).0 (serves port p net k) ≡ true
  unfolding generate_xray_config
  generated port p net n h =
      tuned-serves port p net k (concat (parts o env s r us)) s
      ∙ any-concat (parts o env s r us) (serves port p net k)
      ∙ any-in_part n (parts o env s r us) (serves port p net k) h

  OnPath : String → String → Type 0
  OnPath p t =
      any us (λ u. enabled_on p u && (u.uid == k)) ≡ true
      → any (generate_xray_config o env s r us).0 (serves (shared_port env.ports p t) p t k) ≡ true

  vless_paths : All (OnPath "vless") ("ws" ∷ "xhttp" ∷ "grpc" ∷ "httpupgrade" ∷ [])
  unfolding parts shared_inbounds network OnPath
  vless_paths = (
    λ m. generated _ "vless" "ws" 1 (part k _ _ _ _ _ _ _ refl (in_shared k "vless" us m)),
    (
      λ m. generated _ "vless" "xhttp" 4 (part k _ _ _ _ _ _ _ refl (in_shared k "vless" us m)),
      (
        λ m. generated _ "vless" "grpc" 8 (part k _ _ _ _ _ _ _ refl (in_shared k "vless" us m)),
        (
          λ m.
              generated _ "vless" "httpupgrade" 6
                (part k _ _ _ _ _ _ _ refl (in_shared k "vless" us m)),
          tt,
        ),
      ),
    ),
  )

  vmess_paths : All (OnPath "vmess") ("ws" ∷ "xhttp" ∷ "grpc" ∷ "httpupgrade" ∷ [])
  unfolding parts shared_inbounds network OnPath
  vmess_paths = (
    λ m. generated _ "vmess" "ws" 2 (part k _ _ _ _ _ _ _ refl (in_shared k "vmess" us m)),
    (
      λ m. generated _ "vmess" "xhttp" 5 (part k _ _ _ _ _ _ _ refl (in_shared k "vmess" us m)),
      (
        λ m. generated _ "vmess" "grpc" 9 (part k _ _ _ _ _ _ _ refl (in_shared k "vmess" us m)),
        (
          λ m.
              generated _ "vmess" "httpupgrade" 7
                (part k _ _ _ _ _ _ _ refl (in_shared k "vmess" us m)),
          tt,
        ),
      ),
    ),
  )

  trojan_paths : All (OnPath "trojan") ("ws" ∷ [])
  unfolding parts shared_inbounds network OnPath
  trojan_paths =
      (λ m. generated _ "trojan" "ws" 3 (part k _ _ _ _ _ _ _ refl (in_shared k "trojan" us m)), tt)

abbrev paths_of : String → List String
paths_of p = if p == "trojan" then "ws" ∷ [] else "ws" ∷ "xhttp" ∷ "grpc" ∷ "httpupgrade" ∷ []

-- Every enabled VLESS, VMess or Trojan user that this process serves is a client of the inbound
-- behind each shared transport of its protocol.
pub shared-serves :
    (o : Oracle) (env : Env) (s : Settings) (r : RealityKeys) (us : List User) (k p t : String)
    → one_of p ("vless" ∷ "vmess" ∷ "trojan" ∷ []) ≡ true
    → one_of t (paths_of p) ≡ true
    → any us (λ u. enabled_on p u && (u.uid == k)) ≡ true
    → any (generate_xray_config o env s r us).0 (serves (shared_port env.ports p t) p t k) ≡ true
unfolding OnPath
shared-serves o env s r us k p t =
    one_of-elim (λ p. one_of t (paths_of p) ≡ true → OnPath o env s r us k p t) p
      ("vless" ∷ "vmess" ∷ "trojan" ∷ [])
      (
        one_of-elim (OnPath o env s r us k "vless") t ("ws" ∷ "xhttp" ∷ "grpc" ∷ "httpupgrade" ∷ [])
            (vless_paths o env s r us k),
        (
          one_of-elim (OnPath o env s r us k "vmess") t
              ("ws" ∷ "xhttp" ∷ "grpc" ∷ "httpupgrade" ∷ []) (vmess_paths o env s r us k),
          (
            one_of-elim (OnPath o env s r us k "trojan") t ("ws" ∷ [])
                (trojan_paths o env s r us k),
            tt,
          ),
        ),
      )
