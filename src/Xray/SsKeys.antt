-- ===== src/Xray/SsKeys.antt =====
-- The Shadowsocks keys of the generated config against those of the links, app/xray.py, app/links.py
-- and app/sskeys.py.
use testuder.SsKeys.Agree.{decode-psk_link, decode-psk_inbound}
use testuder.Url.{encode_utf8}
use testuder.Base64.{padding, url_safe, standard, decode}
use testuder.Xray.{Client}
use testuder.Prelude.{
  ◌≡◌, inl, inr, ℕ, ◌<◌, String, refl, sym, ap, Bool, true, false, not, some, List, [], ◌∷◌, ◌++◌,
  map, arith, ◌==◌, eq_iff, if◌then◌else◌, Bool-cases, take, filter, All, lower, one_of, or_else,
  one_of-elim, coerce_to, subst, ◌∙◌,
}
use testuder.User.{User}
use testuder.Value.{truthy, to_text}
use testuder.Codes.{Codes, codes}
use testuder.Config.{Env, ss_methods, ss_2022_methods}
use testuder.Settings.{Settings, get, text_or}
use testuder.SsKeys.{psk_link, psk_bytes, psk_inbound, contains}
use testuder.Links.{ss_credential, ss_method_of}
use testuder.Xray.Clients.{
  ss_2022_clients, ss_legacy, ss_client, client, ss_users, ss_2022_method, Oracle, ss_method,
  is_2022,
}

-- the bytes of a key of the 2022 methods
abbrev pub key_size : String → ℕ
key_size method = if contains (codes "128") (codes method) then 16 else 32

-- The lists have one element for each other, and these are related.
abbrev pub Paired : {A B : Type 0} → (A → B → Type 0) → List A → List B → Type 0
Paired P [] [] = Unit
Paired P [] (y ∷ ys) = false ≡ true
Paired P (x ∷ xs) [] = false ≡ true
Paired P (x ∷ xs) (y ∷ ys) = P x y × Paired P xs ys

Paired-map :
    {A B : Type 0} (P : A → B → Type 0) (f : A → B) (xs : List A)
    → All (λ x. P x (f x)) xs
    → Paired P xs (map f xs)
Paired-map P f [] h = tt
Paired-map P f (x ∷ xs) h = (h.0, Paired-map P f xs h.1)

All-filter_if {ℓ κ} :
    {A : Type ℓ} (P Q : A → Type κ) (p : A → Bool) (xs : List A)
    → ((x : A) → P x → p x ≡ true → Q x)
    → All P xs
    → All Q (filter p xs)
All-filter_if P Q p [] f h = tt
All-filter_if P Q p (x ∷ xs) f h = elim (Bool-cases (p x)) [
  | inl e ↦ rw e (f x h.0 e, All-filter_if P Q p xs f h.1)
  | inr e ↦ rw e (All-filter_if P Q p xs f h.1)
]

All-both {ℓ κ} :
    {A : Type ℓ} (P Q R : A → Type κ) (xs : List A)
    → ((x : A) → P x → Q x → R x)
    → All P xs
    → All Q xs
    → All R xs
All-both P Q R [] f p q = tt
All-both P Q R (x ∷ xs) f p q = (f x p.0 q.0, All-both P Q R xs f p.1 q.1)

-- a method of the table stays as it is when a link is made
lower_known : (m : String) → one_of m ss_methods ≡ true → lower m ≡ m
unfolding lower
lower_known m h =
    one_of-elim (λ x. lower x ≡ x) m ss_methods (refl, (refl, (refl, (refl, (refl, (refl, tt)))))) h

-- a default of the settings' value, and one after it, come to the same for a known method
choice :
    (a x d : String) (b : Bool)
    → one_of (or_else a (if b then x else d)) ss_methods ≡ true
    → or_else (or_else a (if b then x else "")) d ≡ or_else a (if b then x else d)
choice a x d b h = elim (Bool-cases (a == "")) [
  | inr e ↦ rw (e, e) refl
  | inl e ↦ elim (Bool-cases b) [
    | inr f ↦ rw (e, f) refl
    | inl f ↦ elim (Bool-cases (x == "")) [
      | inr k ↦ rw (e, f, k) refl
      | inl k ↦ ground (arith, e, f, h, ap (λ m. one_of m ss_methods) ((eq_iff x "").0 k))
    ]
  ]
]

ss_method_of-ss_method :
    (env : Env) (s : Settings) (u : User)
    → one_of (ss_method env s u) ss_methods ≡ true
    → ss_method_of env u s ≡ ss_method env s u
unfolding ss_method_of ss_method text_or
ss_method_of-ss_method env s u h =
    ap (λ m. coerce_to (lower m) ss_methods env.default_ss_method)
      (choice u.ss_method (to_text (get "ss_method" s)) env.default_ss_method
        (truthy (get "ss_method" s)) h)
    ∙ ap (λ m. coerce_to m ss_methods env.default_ss_method) (lower_known (ss_method env s u) h)
    ∙ ap (λ b. if b then ss_method env s u else env.default_ss_method) h

one_of-filter :
    (x : String) (ms ys : List String)
    → one_of x (filter (λ m. one_of m ys) ms) ≡ true
    → one_of x ys ≡ true
one_of-filter x [] ys h = ground (arith, h)
one_of-filter x (m ∷ ms) ys h = elim (Bool-cases (one_of m ys)) [
  | inr e ↦ ground (arith, e, h, one_of-filter x ms ys)
  | inl e ↦ elim (Bool-cases (x == m)) [
    | inl k ↦ subst (λ n. one_of n ys ≡ true) (sym ((eq_iff x m).0 k)) e
    | inr k ↦ ground (arith, e, k, h, one_of-filter x ms ys)
  ]
]

-- the methods of the 2022 users, as `ss_methods & SS_2022_METHODS`
methods-2022 :
    (env : Env) (s : Settings) (us : List User)
    → filter (λ m. one_of m ss_2022_methods) (map (ss_method env s) us)
      ≡ map (ss_method env s) (filter (is_2022 env s) us)
methods-2022 env s [] = refl
methods-2022 env s (u ∷ us) = elim (Bool-cases (is_2022 env s u)) [
  | inl e ↦ rw (e, methods-2022 env s us) refl
  | inr e ↦ rw (e, methods-2022 env s us) refl
]

-- `next(iter(methods))` is one of the methods.
abbrev pub Picks : Oracle → Type 0
Picks o = (m : String) (ms : List String) → one_of (o.first (m ∷ ms)) (m ∷ ms) ≡ true

inbound_method :
    (o : Oracle) (env : Env) (s : Settings) (us vs : List User) (u : User)
    → Picks o
    → filter (is_2022 env s) (ss_users us) ≡ u ∷ vs
    → one_of (ss_2022_method o env s us) ss_2022_methods ≡ true
unfolding ss_2022_method
inbound_method o env s us vs u picks e =
    let ms = filter (λ m. one_of m ss_2022_methods) (map (ss_method env s) (ss_users us)) in
    let there : ms ≡ ss_method env s u ∷ map (ss_method env s) vs =
      methods-2022 env s (ss_users us) ∙ ap (map (ss_method env s)) e in
    let picked : one_of (o.first ms) ms ≡ true =
      subst (λ l. one_of (o.first l) l ≡ true) (sym there)
        (picks (ss_method env s u) (map (ss_method env s) vs)) in
    let known =
      one_of-filter (o.first ms) (map (ss_method env s) (ss_users us)) ss_2022_methods picked in
    ap (λ b. one_of (if b then o.first ms else env.default_ss_method) ss_2022_methods) known ∙ known

module _ (o : Oracle) (bytes : (m : List ℕ) → All (λ b. b < 256) (o.sha256 m)) (env : Env)
    (s : Settings) where
  -- the key in the link of a user
  abbrev pub link_key : User → Codes
  link_key u = psk_link o.sha256 u.uuid (ss_method_of env u s)

  -- A client of the shared inbound has the method and the key of the user's link.
  abbrev pub SameKey : User → Client → Type 0
  SameKey u c = (c.email ≡ u.uid) × (c.method ≡ ss_method_of env u s) × (c.password ≡ link_key u)

  -- A client of the 2022 inbound has the bytes of the key in the user's link.
  abbrev pub SameBytes : User → Client → Type 0
  SameBytes u c =
      (c.email ≡ u.uid)
      × (ss_credential o.sha256 u.uuid (ss_method_of env u s)
          ≡ codes (ss_method_of env u s) ++ b':' ∷ link_key u)
      × (decode standard (c.password) ≡ decode url_safe (link_key u ++ padding (link_key u)))

  psk_bytes-same_size :
      (uuid m n : String)
      → one_of m ss_2022_methods ≡ true
      → one_of n ss_2022_methods ≡ true
      → key_size m ≡ key_size n
      → psk_bytes o.sha256 uuid m ≡ psk_bytes o.sha256 uuid n
  unfolding psk_bytes
  psk_bytes-same_size uuid m n hm hn e =
      rw (hm, hn) (ap (λ k. take k (o.sha256 (encode_utf8 (codes "titan-ss:" ++ codes uuid)))) e)

  legacy-SameKey :
      (u : User)
      → one_of (ss_method env s u) ss_methods ≡ true
      → is_2022 env s u ≡ false
      → SameKey u (ss_client o env s u)
  unfolding ss_client psk_inbound
  legacy-SameKey u h n =
      let same = ss_method_of-ss_method env s u h in
      (refl, sym same, rw n (ap (psk_link o.sha256 u.uuid) (sym same)))

  client-SameBytes :
      (us : List User) (u : User)
      → one_of (ss_method env s u) ss_methods ≡ true
      → is_2022 env s u ≡ true
      → one_of (ss_2022_method o env s us) ss_2022_methods ≡ true
      → key_size (ss_method env s u) ≡ key_size (ss_2022_method o env s us)
      → SameBytes u
          (client "" u.uid "" "" (psk_inbound o.sha256 u.uuid (ss_2022_method o env s us)))
  unfolding ss_credential
  client-SameBytes us u h y k e =
      let m = ss_2022_method o env s us in
      let same = ss_method_of-ss_method env s u h in
      let y' : one_of (ss_method_of env u s) ss_2022_methods ≡ true = rw same y in
      (
        refl,
        rw y' refl,
        decode-psk_inbound o.sha256 bytes u.uuid m k
            ∙ ap some (
                psk_bytes-same_size u.uuid m (ss_method_of env u s) k y'
                  (sym e ∙ ap key_size (sym same)))
            ∙ sym (decode-psk_link o.sha256 bytes u.uuid (ss_method_of env u s)),
      )

  -- The clients of the shared inbound are the enabled users of the older methods, in order, each with
  -- the method and the key of its link; those of the 2022 inbound are the enabled users of the 2022
  -- methods, in order, each with the bytes of its link's key. It needs that SHA-256 gives bytes, that
  -- the users' methods are of the table, and that the 2022 ones have keys as long as the one method
  -- that is picked for their inbound.
  pub ss_clients-agree :
      (us : List User)
      → Picks o
      → All (λ u. one_of (ss_method env s u) ss_methods ≡ true) (ss_users us)
      → All
          (λ u. key_size (ss_method env s u) ≡ key_size (ss_2022_method o env s us))
          (filter (is_2022 env s) (ss_users us))
      → Paired SameKey (filter (λ u. not (is_2022 env s u)) (ss_users us)) (ss_legacy o env s us)
        × Paired SameBytes (filter (is_2022 env s) (ss_users us)) (ss_2022_clients o env s us)
  unfolding ss_legacy ss_2022_clients
  ss_clients-agree us picks known sizes = (
    Paired-map SameKey (ss_client o env s) (filter (λ u. not (is_2022 env s u)) (ss_users us)) (
        All-filter_if _ _ (λ u. not (is_2022 env s u)) (ss_users us)
          (λ u h n. legacy-SameKey u h (ground arith)) known),
    Paired-map SameBytes _ (filter (is_2022 env s) (ss_users us))
        (inbound_clients (filter (is_2022 env s) (ss_users us)) refl),
  )
    where
      inbound_clients :
          (vs : List User)
          → filter (is_2022 env s) (ss_users us) ≡ vs
          → All
              (λ u.
                SameBytes u
                  (client "" u.uid "" "" (psk_inbound o.sha256 u.uuid (ss_2022_method o env s us))))
              (filter (is_2022 env s) (ss_users us))
      inbound_clients [] e = rw e tt
      inbound_clients (v ∷ vs) e =
          let k = inbound_method o env s us vs v picks e in
          All-both (λ u. (one_of (ss_method env s u) ss_methods ≡ true) × (is_2022 env s u ≡ true))
            _ _ (filter (is_2022 env s) (ss_users us)) (λ u h z. client-SameBytes us u h.0 h.1 k z)
            (All-filter_if _ _ (is_2022 env s) (ss_users us) (λ u h y. (h, y)) known) sizes
