-- ===== src/Subfmt/Outbounds/Named.antt =====
-- The outbounds of a client file carry the tags of their entries.
use testuder.Subfmt.Sort.{parse_links, sort_link, sort_parsed}
use testuder.Prelude.{
  ◌≡◌, inl, inr, String, refl, ap, true, Option, none, some, List, [], ◌∷◌, ◌++◌, map, arith,
  Bool-cases, All, All-append, ◌∙◌,
}
use testuder.Codes.{before, after, strip_codes, split_first, Codes, codes, same, is_one_of}
use testuder.Subfmt.{
  params, scheme_of, parse_split, b64_json, url_entry, ss_entry, supported, vmess_entry, Params,
  parse_url, parse_vmess, parse_ss, Loads, Entry, parse_link, parse_scheme,
}
use testuder.Subfmt.Tag.{tag, tags}
use testuder.Subfmt.Doc.{Doc}
use testuder.Subfmt.Outbounds.{outbounds, put}

-- the entry has an outbound, under the tag that it is given
abbrev pub Builds : (Doc → Codes) → (Codes → Entry → Option Doc) → Entry → Type 0
Builds name build e = (t : Codes) → (o : Doc) × (build t e ≡ some o) × (name o ≡ t)

pub map-append :
    {A B : Type 0} (f : A → B) (xs ys : List A) → map f (xs ++ ys) ≡ map f xs ++ map f ys
map-append f [] ys = refl
map-append f (x ∷ xs) ys = ap (λ r. f x ∷ r) (map-append f xs ys)

pub outbounds-tags :
    (name : Doc → Codes) (build : Codes → Entry → Option Doc) (es : List Entry) (used : List Codes)
    → All (Builds name build) es
    → map name (outbounds build es used) ≡ tags (map (λ e. e.name) es) used
unfolding outbounds tags
outbounds-tags name build [] used h = refl
outbounds-tags name build (e ∷ es) used h =
    let t = tag e.name used in
    let (o, built, named) = h.0 t in
    ap (λ b. map name (put b (outbounds build es (t ∷ used)))) built
    ∙ ap (λ n. n ∷ map name (outbounds build es (t ∷ used))) named
    ∙ ap (λ ts. t ∷ ts) (outbounds-tags name build es (t ∷ used) h.1)

-- the entries of a list of links
abbrev pub entries_of : Loads → List Codes → List Entry
entries_of loads links = (parse_links loads links).0

-- the kinds that a link can have
abbrev pub kinds : List String
kinds = "vless" ∷ "vmess" ∷ "trojan" ∷ "shadowsocks" ∷ "hysteria2" ∷ []

abbrev pub Kind : Entry → Type 0
Kind e = is_one_of e.kind kinds ≡ true

abbrev OfKind : Option Entry → Type 0
OfKind none = Unit
OfKind (some e) = Kind e

parse_vmess-OfKind : (loads : Loads) (rest name : Codes) → OfKind (parse_vmess loads rest name)
unfolding parse_vmess is_one_of same vmess_entry
parse_vmess-OfKind loads rest name =
    elim (b64_json loads rest)
      as (λ o. OfKind (elim o [ [] ↦ none | f ∷ fs ↦ some (vmess_entry (f ∷ fs) name) ])) [
        | [] ↦ tt
        | f ∷ fs ↦ refl
      ]

parse_ss-OfKind : (rest name : Codes) → OfKind (parse_ss rest name)
unfolding parse_ss is_one_of same ss_entry
parse_ss-OfKind rest name = ground arith

parse_url-OfKind :
    (scheme rest : Codes) (p : Params) (name : Codes)
    → is_one_of scheme kinds ≡ true
    → OfKind (parse_url scheme rest p name)
unfolding parse_url url_entry
parse_url-OfKind scheme rest p name h = ground arith

parse_scheme-OfKind :
    (loads : Loads) (scheme rest : Codes) (p : Params) (name : Codes)
    → is_one_of scheme supported ≡ true
    → OfKind (parse_scheme loads scheme rest p name)
unfolding parse_scheme is_one_of
parse_scheme-OfKind loads scheme rest p name h = ground (
  arith,
  parse_vmess-OfKind loads rest name,
  parse_ss-OfKind rest name,
  parse_url-OfKind scheme rest p name,
)

parse_split-OfKind : (loads : Loads) (o : Option (Codes × Codes)) → OfKind (parse_split loads o)
unfolding parse_split
parse_split-OfKind loads none = tt
parse_split-OfKind loads (some (s, rest)) = elim (Bool-cases (is_one_of (scheme_of s) supported)) [
  | inl e ↦
      rw e (parse_scheme-OfKind loads (scheme_of s) _ (params (after b'?' (before b'#' rest))) _ e)
  | inr e ↦ rw e tt
]

sort_parsed-Kind : (link : Codes) (o : Option Entry) → OfKind o → All Kind (sort_parsed link o).0
unfolding sort_parsed
sort_parsed-Kind link none h = tt
sort_parsed-Kind link (some e) h = ground (arith, h)

-- Every entry is of one of the five kinds.
pub parse_links-Kind : (loads : Loads) (links : List Codes) → All Kind (parse_links loads links).0
unfolding parse_links sort_link parse_link
parse_links-Kind loads [] = tt
parse_links-Kind loads (link ∷ links) =
    All-append Kind (sort_link loads link).0 (parse_links loads links).0
      (sort_parsed-Kind link (parse_link loads link)
        (parse_split-OfKind loads (split_first (codes "://") (strip_codes link))))
      (parse_links-Kind loads links)
