-- ===== src/Subfmt/XrayFile/Kept.antt =====
-- Which entries the client file of Xray has an outbound for.
use testuder.Prelude.{
  ◌≡◌, inl, inr, String, refl, ap, true, false, Option, none, some, List, [], ◌∷◌, ◌++◌, map, arith,
  if◌then◌else◌, Bool-cases, Option-cases, All, ◌∙◌,
}
use testuder.Codes.{Codes, codes, same, same_iff, is_one_of}
use testuder.Settings.{Settings}
use testuder.Subfmt.{Loads, Entry}
use testuder.Subfmt.Tag.{tag, tags}
use testuder.Subfmt.Outbounds.{outbounds, entry_tags, put}
use testuder.Subfmt.Outbounds.Named.{Kind, entries_of, map-append, parse_links-Kind}
use testuder.Subfmt.XrayFile.{xray_kind, xray_outbound, xray_outbounds, xray_config}
use testuder.Subfmt.Doc.{Doc, object, lit, text_at, list_at, items-list_of, fields_of, find_key}

-- the tags of the entries that are not of Hysteria2
abbrev pub without_hysteria : List Codes → List Entry → List Codes
without_hysteria [] es = []
without_hysteria (t ∷ ts) [] = []
without_hysteria (t ∷ ts) (e ∷ es) =
    if same e.kind (codes "hysteria2") then without_hysteria ts es else t ∷ without_hysteria ts es

-- the tag of an outbound, if there is one
abbrev put_tag : Option Doc → List Codes → List Codes
put_tag none ts = ts
put_tag (some o) ts = text_at "tag" o ∷ ts

map-put :
    (o : Option Doc) (os : List Doc)
    → map (text_at "tag") (put o os) ≡ put_tag o (map (text_at "tag") os)
map-put none os = refl
map-put (some o) os = refl

put-kind :
    (s : Settings) (t : Codes) (e : Entry) (k : Option (String × Doc)) (ts : List Codes)
    → xray_kind t e ≡ k
    → put_tag (xray_outbound s t e) ts ≡ elim k [ none ↦ ts | some _ ↦ t ∷ ts ]
unfolding xray_outbound text_at find_key fields_of
put-kind s t e none ts p = rw (p, xray_outbound) refl
put-kind s t e (some k) ts p = rw (p, xray_outbound) refl

hysteria-none :
    (t : Codes) (e : Entry) → same e.kind (codes "hysteria2") ≡ true → xray_kind t e ≡ none
unfolding xray_kind same
hysteria-none t e h =
    ap (λ k. xray_kind t (record e { kind = k })) ((same_iff e.kind (codes "hysteria2")).0 h)

other-some :
    (t : Codes) (e : Entry)
    → Kind e
    → same e.kind (codes "hysteria2") ≡ false
    → (k : String × Doc) × (xray_kind t e ≡ some k)
unfolding xray_kind is_one_of
other-some t e h n = elim (Option-cases (xray_kind t e)) [
  | inl p ↦ ground (arith, p, h, n)
  | inr (k, p) ↦ (k, p)
]

put-outbound :
    (s : Settings) (t : Codes) (e : Entry) (ts : List Codes)
    → Kind e
    → put_tag (xray_outbound s t e) ts ≡ (if same e.kind (codes "hysteria2") then ts else t ∷ ts)
put-outbound s t e ts h = elim (Bool-cases (same e.kind (codes "hysteria2"))) [
  | inl y ↦ put-kind s t e none ts (hysteria-none t e y) ∙ rw y refl
  | inr n ↦ let (k, p) = other-some t e h n in put-kind s t e (some k) ts p ∙ rw n refl
]

outbounds-without :
    (s : Settings) (es : List Entry) (used : List Codes)
    → All Kind es
    → map (text_at "tag") (outbounds (xray_outbound s) es used)
      ≡ without_hysteria (tags (map (λ e. e.name) es) used) es
unfolding outbounds tags
outbounds-without s [] used h = refl
outbounds-without s (e ∷ es) used h =
    let t = tag e.name used in
    map-put (xray_outbound s t e) (outbounds (xray_outbound s) es (t ∷ used))
    ∙ put-outbound s t e (map (text_at "tag") (outbounds (xray_outbound s) es (t ∷ used))) h.0
    ∙ ap (λ ts. if same e.kind (codes "hysteria2") then ts else t ∷ ts)
        (outbounds-without s es (t ∷ used) h.1)

-- In the Xray file that is made from any links, the outbounds are one for each entry that is not of
-- Hysteria2, in order and under its tag, then `direct` and `block`.
pub xray_config-kept :
    (loads : Loads) (links : List Codes) (s : Settings)
    → map (text_at "tag") (list_at "outbounds" (xray_config (entries_of loads links) s))
      ≡ without_hysteria (entry_tags (entries_of loads links)) (entries_of loads links)
        ++ codes "direct" ∷ codes "block" ∷ []
unfolding xray_config xray_outbounds list_at text_at find_key fields_of entry_tags
xray_config-kept loads links s =
    let es = entries_of loads links in
    let tail =
      object (("protocol", lit "freedom") ∷ ("tag", lit "direct") ∷ [])
      ∷ object (("protocol", lit "blackhole") ∷ ("tag", lit "block") ∷ [])
      ∷ [] in
    ap (map (text_at "tag")) (items-list_of (xray_outbounds s es))
    ∙ map-append (text_at "tag") (outbounds (xray_outbound s) es []) tail
    ∙ ap (λ ts. ts ++ map (text_at "tag") tail)
        (outbounds-without s es [] (parse_links-Kind loads links))
