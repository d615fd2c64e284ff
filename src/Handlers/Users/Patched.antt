-- ===== src/Handlers/Users/Patched.antt =====
-- `api_update_user` keeps a served row served.
use testuder.Wg.{Subnet}
use testuder.Prelude.{
  ◌≡◌, inl, inr, ℕ, String, refl, ap, Bool, true, false, ◌||◌, not, Option, none, some, List, [],
  ◌∷◌, ◌++◌, arith, ◌==◌, eq_refl, Bool-cases, Option-cases, all, all-append, one_of, ◌∙◌,
}
use testuder.User.{User, Field, set_field, set_fields}
use testuder.Config.{Env, ss_methods, valid_protocols, valid_fingerprints, valid_alpns}
use testuder.Protocol.{normalize_protocol_fields}
use testuder.Protocol.Served.{is_served, normalize-is_served}
use testuder.Db.Users.{get_user, update_user}
use testuder.Db.Users.Laws.{get_user-add_event, get_user-update_user}
use testuder.Panel.{Panel}
use testuder.Handlers.Users.{
  expiring, placed, coerced, pair_fields, Patch, api_update_user, or_text, transport_fields,
  other_fields, patch_fields, keyed, field, given, announce,
}
use testuder.Handlers.Users.Served.{row_served, test, get_user-keyed}

-- The field leaves the protocol, the transport and the security alone.
abbrev pub neutral : Field → Bool
neutral (Field.protocol _) = false
neutral (Field.transport _) = false
neutral (Field.security _) = false
neutral _ = true

abbrev Alike : User → User → Type 0
Alike u v = (u.protocol ≡ v.protocol) × (u.transport ≡ v.transport) × (u.security ≡ v.security)

set_field-neutral : (x : Field) (u : User) → neutral x ≡ true → Alike (set_field x u) u
unfolding set_field
set_field-neutral (Field.protocol _) u h = ground arith
set_field-neutral (Field.transport _) u h = ground arith
set_field-neutral (Field.security _) u h = ground arith
set_field-neutral _ u h = (refl, refl, refl)

set_fields-neutral :
    (fs : List Field) (u : User) → all fs neutral ≡ true → Alike (set_fields fs u) u
unfolding set_fields
set_fields-neutral [] u h = (refl, refl, refl)
set_fields-neutral (f ∷ fs) u h =
    let rest = set_fields-neutral fs (set_field f u) (ground (arith, h)) in
    let one = set_field-neutral f u (ground (arith, h)) in
    (rest.0 ∙ one.0, rest.1 ∙ one.1, rest.2 ∙ one.2)

set_fields-append :
    (fs gs : List Field) (u : User) → set_fields (fs ++ gs) u ≡ set_fields gs (set_fields fs u)
unfolding set_fields
set_fields-append [] gs u = refl
set_fields-append (f ∷ fs) gs u = set_fields-append fs gs (set_field f u)

all-field :
    {A : Type 0} (f : A → Field) (v : Option A)
    → ((a : A) → neutral (f a) ≡ true)
    → all (field f v) neutral ≡ true
unfolding field
all-field f none h = refl
all-field f (some a) h = ground (arith, h a)

all-both :
    (fs gs : List Field)
    → all fs neutral ≡ true
    → all gs neutral ≡ true
    → all (fs ++ gs) neutral ≡ true
all-both fs gs h g = all-append fs gs neutral ∙ ground arith

before :
    {A : Type 0} (f : A → Field) (v : Option A) (gs : List Field)
    → ((a : A) → neutral (f a) ≡ true)
    → all gs neutral ≡ true
    → all (field f v ++ gs) neutral ≡ true
before f v gs n g = all-both (field f v) gs (all-field f v n) g

other_fields-neutral :
    (env : Env) (now : ℕ) (c : Patch)
    → all c.rest neutral ≡ true
    → all (other_fields env now c) neutral ≡ true
unfolding other_fields
other_fields-neutral env now c h =
    let e5 = field Field.expire_at (expiring now c.expire_days) in
    let e4 = field Field.quota_bytes c.quota_bytes ++ e5 in
    let e3 = field Field.node_id (placed c.node_id) ++ e4 in
    let e2 = field Field.alpn (coerced valid_alpns "http/1.1" c.alpn) ++ e3 in
    let e1 = field Field.fingerprint (coerced valid_fingerprints "chrome" c.fingerprint) ++ e2 in
    let e0 = field Field.ss_method (coerced ss_methods env.default_ss_method c.ss_method) ++ e1 in
    all-both c.rest e0 h (
      before Field.ss_method (coerced ss_methods env.default_ss_method c.ss_method) e1 (λ a. refl)
        (before Field.fingerprint (coerced valid_fingerprints "chrome" c.fingerprint) e2 (λ a. refl)
          (before Field.alpn (coerced valid_alpns "http/1.1" c.alpn) e3 (λ a. refl)
            (before Field.node_id (placed c.node_id) e4 (λ a. refl)
              (before Field.quota_bytes c.quota_bytes e5 (λ a. refl)
                (all-field Field.expire_at (expiring now c.expire_days) (λ a. refl)))))))

-- The transport and the security come with a new protocol.
abbrev pub complete : Patch → Bool
complete c = not (given c.protocol) || given c.transport || given c.security

-- The last fields of a patch, on a row whose protocol, transport and security are still the old ones.
named :
    (cp : Option String) (v : User)
    → ((set_fields (field Field.protocol cp) v).protocol ≡ or_text cp v.protocol)
      × ((set_fields (field Field.protocol cp) v).transport ≡ v.transport)
      × ((set_fields (field Field.protocol cp) v).security ≡ v.security)
unfolding field set_fields set_field
named none v = (refl, refl, refl)
named (some q) v = (refl, refl, refl)

pair_fields-served :
    (u v : User) (c : Patch) (t s : String)
    → Alike v u
    → one_of (or_text c.protocol u.protocol) valid_protocols ≡ true
    → row_served (
        set_fields
          (pair_fields (normalize_protocol_fields (or_text c.protocol u.protocol) t s))
          (set_fields (field Field.protocol c.protocol) v))
      ≡ true
unfolding pair_fields set_fields set_field
pair_fields-served u v c t s a valid =
    let f = normalize_protocol_fields (or_text c.protocol u.protocol) t s in
    ap (λ (q : String). is_served q f.0 f.1) ((named c.protocol v).0 ∙ ap (or_text c.protocol) a.0)
    ∙ normalize-is_served (or_text c.protocol u.protocol) t s valid

untouched :
    (u v : User) (cp : Option String)
    → Alike v u
    → given cp ≡ false
    → row_served (set_fields (field Field.protocol cp) v) ≡ row_served u
unfolding field given set_fields
untouched u v none a h = rw (← a.0, ← a.1, ← a.2) refl
untouched u v (some q) a h = ground arith

last_fields-served :
    (u v : User) (c : Patch)
    → Alike v u
    → complete c ≡ true
    → one_of (or_text c.protocol u.protocol) valid_protocols ≡ true
    → row_served u ≡ true
    → row_served (
        set_fields
          (transport_fields (or_text c.protocol u.protocol) u c)
          (set_fields (field Field.protocol c.protocol) v))
      ≡ true
unfolding transport_fields set_fields
last_fields-served u v c a done valid s =
    let q = or_text c.protocol u.protocol in
    elim (Bool-cases
      (given c.transport || given c.security || (q == "hysteria2") || (q == "wireguard"))) [
        | inl e ↦ rw e (
            pair_fields-served u v c (or_text c.transport u.transport)
              (or_text c.security u.security) a valid)
        | inr e ↦ rw e (untouched u v c.protocol a (ground arith) ∙ s)
      ]

patch_fields-served :
    (env : Env) (now : ℕ) (u : User) (c : Patch)
    → all c.rest neutral ≡ true
    → complete c ≡ true
    → one_of (or_text c.protocol u.protocol) valid_protocols ≡ true
    → row_served u ≡ true
    → row_served (set_fields (patch_fields env now u c) u) ≡ true
unfolding patch_fields
patch_fields-served env now u c n done valid s =
    let others = other_fields env now c in
    let last = transport_fields (or_text c.protocol u.protocol) u c in
    rw
      (
        set_fields-append others (field Field.protocol c.protocol ++ last) u,
        set_fields-append (field Field.protocol c.protocol) last (set_fields others u),
      )
      (last_fields-served u (set_fields others u) c
        (set_fields-neutral others u (other_fields-neutral env now c n)) done valid s)

-- A patch that gives a transport or a security with a new protocol keeps a served row served.
pub update-served :
    (env : Env) (now : ℕ) (ip uid : String) (net : Subnet) (pair : String × String) (c : Patch)
    (p : Panel)
    → all c.rest neutral ≡ true
    → complete c ≡ true
    → test row_served (get_user uid p.db) ≡ true
    → test row_served (get_user uid (api_update_user env now ip uid net pair c p).1.db) ≡ true
unfolding api_update_user announce
update-served env now ip uid net pair c p neutral_rest done s =
    elim (Option-cases (get_user uid p.db)) [
      | inl e ↦ ground arith
      | inr (u, e) ↦ elim (Bool-cases (one_of (or_text c.protocol u.protocol) valid_protocols)) [
        | inr v ↦ ground arith
        | inl v ↦ elim (Option-cases (update_user uid (patch_fields env now u c) p.db)) [
          | inl e' ↦ ground arith
          | inr (d, e') ↦ ground (
            arith,
            eq_refl uid,
            get_user-update_user uid uid (patch_fields env now u c) p.db d e',
            get_user-keyed uid net pair (get_user uid d) d,
            get_user-add_event uid now "info" "user-update" uid ip
                (keyed net pair (get_user uid d) d),
            patch_fields-served env now u c neutral_rest done v,
          )
        ]
      ]
    ]
