-- ===== src/Guard.antt =====
-- The guards at the door of app/main.py: `csrf_origin_guard` with `_allowed_origins`. A request has the
-- parts that they read; a header that is not sent is empty.
pub mod Origin
use testuder.Prelude.{
  ◌≡◌, ◌≢◌, ◌↔◌, ◌⊎◌, inl, inr, ℕ, zero, suc, ◌+◌, ◌-◌, ◌*◌, ◌/◌, ◌%◌, ◌≤◌, ◌<◌, String, refl, sym,
  ap, Bool, true, false, ◌&&◌, ◌||◌, not, Option, none, some, List, [], ◌∷◌, ◌++◌, map, arith, ◌==◌,
  eq_iff, eq_refl, ltb, leb, eqb, if◌then◌else◌, Bool-cases, Option-cases, &&-split, length, take,
  drop, any, all, filter, find?, All, any-append, all-append, find?-sound, any-filter, All-append,
  All-filter, All-map, All-of_forall, All-mono, any-map, length-map, lower, truncate, strip, one_of,
  or_else, one_of-elim, coerce_to, lookup, insert, remove, lookup-insert, lookup-remove,
  lookup-insert_self, append, coerce_to-all, min, max, subst, ◌∙◌, append-nil, append_assoc, upper,
  length-append,
}
use testuder.Codes.{Codes, codes, same, strip_codes, split, join, starts_with, after_last}
use testuder.Settings.{Settings, text_or}

pub record Request : Type 0 where
  pub method : String
  pub path : Codes
  pub origin : Codes
  pub referer : Codes
  pub host : Codes
  pub forwarded_host : Codes

-- `_SAFE_METHODS`
abbrev pub safe_methods : List String
safe_methods = "GET" ∷ "HEAD" ∷ "OPTIONS" ∷ []

-- `_CSRF_EXEMPT_PREFIXES`
abbrev pub csrf_exempt_prefixes : List String
csrf_exempt_prefixes = "/sub/" ∷ "/api/node/" ∷ "/dns-query" ∷ "/status/" ∷ []

-- `s.split("//")[-1]`; `part` is the current part
unfoldable pub last_part : Codes → Codes → Codes
last_part part [] = part
last_part part (c ∷ []) = part ++ c ∷ []
last_part part (c ∷ d ∷ s) =
    let cut = last_part [] s in
    let go = last_part (part ++ c ∷ []) (d ∷ s) in if eqb c b'/' && eqb d b'/' then cut else go

-- `s.rstrip(x)`, and `s.lstrip(x)`
unfoldable pub rstrip : ℕ → Codes → Codes
rstrip x [] = []
rstrip x (c ∷ s) = elim (rstrip x s) [ [] ↦ if eqb c x then [] else c ∷ [] | d ∷ t ↦ c ∷ d ∷ t ]

unfoldable pub lstrip : ℕ → Codes → Codes
lstrip x [] = []
lstrip x (c ∷ s) = let rest = lstrip x s in if eqb c x then rest else c ∷ s

-- the names that the panel answers to: the `Host`, the public domain, and what a proxy forwards
unfoldable pub hosts : Bool → Settings → Request → List Codes
unfolding last_part rstrip lstrip
hosts trust s r =
    let domain = strip_codes (codes (text_or "public_domain" "" s)) in
    let forwarded = strip_codes r.forwarded_host in
    strip_codes r.host
    ∷ ((if same domain [] then [] else rstrip b'/' (lstrip b'/' (last_part [] domain)) ∷ [])
        ++ (if trust && not (same forwarded [])
            then strip_codes (after_last b',' forwarded) ∷ []
            else []))

-- `out`
unfoldable pub origins : List Codes → List Codes
origins [] = []
origins (h ∷ hs) =
    let rest = origins hs in
    if same h [] then rest else (codes "https://" ++ h) ∷ (codes "http://" ++ h) ∷ rest

-- `_allowed_origins(request)`
unfoldable pub allowed_origins : Bool → Settings → Request → List Codes
unfolding hosts origins
allowed_origins trust s r = origins (hosts trust s r)

-- `"/".join(source.split("/")[:3])`
unfoldable pub root : Codes → Codes
root source = join b'/' (take 3 (split b'/' source))

-- the method and the path are looked at
unfoldable pub guarded : Request → Bool
guarded r =
    not (one_of r.method safe_methods)
    && not (any csrf_exempt_prefixes (λ p. starts_with (codes p) r.path))

-- `origin or referer`
unfoldable pub source : Request → Codes
source r = elim (strip_codes r.origin) [ [] ↦ strip_codes r.referer | c ∷ s ↦ c ∷ s ]

-- `csrf_origin_guard`: whether the request is passed on; the other answer is a 403
unfoldable pub csrf_origin_guard : Bool → Settings → Request → Bool
unfolding guarded source root allowed_origins rstrip
csrf_origin_guard trust s r =
    if guarded r && not (same (source r) [])
    then any (allowed_origins trust s r) (λ a. same (rstrip b'/' a) (rstrip b'/' (root (source r))))
    else true
