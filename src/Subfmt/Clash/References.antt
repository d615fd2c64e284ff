-- ===== src/Subfmt/Clash/References.antt =====
-- What the groups and the last rule of a Clash file refer to.
use testuder.Prelude.{
  ◌≡◌, inl, inr, refl, sym, ap, true, false, ◌||◌, some, List, [], ◌∷◌, ◌++◌, map, arith, ltb,
  Bool-cases, length, any, All, All-append, All-of_forall, All-mono, subst, ◌∙◌,
}
use testuder.Codes.{Codes, codes, same, same_iff, is_one_of}
use testuder.Settings.{Settings}
use testuder.Subfmt.{Entry}
use testuder.Subfmt.Tag.{taken}
use testuder.Subfmt.Tag.Fresh.{Distinct, tags-Distinct}
use testuder.Subfmt.Outbounds.{entry_tags}
use testuder.Subfmt.Outbounds.Named.{map-append, outbounds-tags}
use testuder.Subfmt.Clash.{proxy}
use testuder.Subfmt.Clash.File.{clash_dict, proxies, groups, match_group}
use testuder.Subfmt.Doc.{Doc, str, text_at, list_at, items-list_of, fields_of, find_key}

-- the text is one of the names, or one of the two that every file has
abbrev pub Known : List Codes → Doc → Type 0
Known names (str t) = (taken t names || is_one_of t ("DIRECT" ∷ "REJECT" ∷ [])) ≡ true
Known names _ = false ≡ true

taken_self : (names : List Codes) → All (λ t. taken t names ≡ true) names
unfolding taken
taken_self [] = tt
taken_self (t ∷ ts) =
    (ground (arith, same_iff t t), All-mono _ _ ts (λ x h. ground (arith, h)) (taken_self ts))

All-Known :
    (names ts : List Codes) → All (λ t. taken t names ≡ true) ts → All (Known names) (map str ts)
All-Known names [] h = tt
All-Known names (t ∷ ts) h = (ground (arith, h.0), All-Known names ts h.1)

select-Known :
    (names : List Codes)
    → All (Known names) (map str (names ++ codes "DIRECT" ∷ codes "REJECT" ∷ []))
unfolding is_one_of same
select-Known names =
    subst (All (Known names)) (sym (map-append str names (codes "DIRECT" ∷ codes "REJECT" ∷ []))) (
      All-append (Known names) (map str names) _ (All-Known names names (taken_self names))
        (ground arith, (ground arith, tt)))

groups-Known :
    (names : List Codes) → All (λ g. All (Known names) (list_at "proxies" g)) (groups names)
unfolding groups list_at fields_of find_key
groups-Known names = (
  subst (All (Known names))
      (sym (items-list_of (map str (names ++ codes "DIRECT" ∷ codes "REJECT" ∷ []))))
      (select-Known names),
  elim (Bool-cases (ltb 1 (length names))) [
    | inl e ↦ rw e (
      subst (All (Known names)) (sym (items-list_of (map str names)))
          (All-Known names names (taken_self names)),
      tt,
    )
    | inr e ↦ rw e tt
  ],
)

match-found :
    (names : List Codes)
    → any (groups names) (λ g. same (text_at "name" g) (codes (match_group names))) ≡ true
unfolding groups match_group text_at fields_of find_key same
match-found names = elim (Bool-cases (ltb 1 (length names))) [
  | inl e ↦ rw e refl
  | inr e ↦ rw e refl
]

-- In the Clash file of any entries: the proxies are the entries, in order, each under its tag, and no
-- two have one name; what a group lists is the name of a proxy, `DIRECT` or `REJECT`; and the group
-- that the last rule names is there.
pub clash_dict-references :
    (es : List Entry) (s : Settings)
    → (map (text_at "name") (list_at "proxies" (clash_dict es s)) ≡ entry_tags es)
      × Distinct (entry_tags es)
      × All
          (λ g. All (Known (entry_tags es)) (list_at "proxies" g))
          (list_at "proxy-groups" (clash_dict es s))
      × (any
            (list_at "proxy-groups" (clash_dict es s))
            (λ g. same (text_at "name" g) (codes (match_group (entry_tags es))))
          ≡ true)
unfolding clash_dict proxies proxy list_at text_at find_key fields_of entry_tags
clash_dict-references es s =
    let there = items-list_of (groups (entry_tags es)) in
    (
      ap (map (text_at "name")) (items-list_of (proxies s es))
          ∙ outbounds-tags (text_at "name") (λ t e. some (proxy s t e)) es []
              (All-of_forall _ es (λ e t. (proxy s t e, refl, refl))),
      (tags-Distinct (map (λ e. e.name) es) []).0,
      subst (All (λ g. All (Known (entry_tags es)) (list_at "proxies" g))) (sym there)
          (groups-Known (entry_tags es)),
      ap (λ gs. any gs (λ g. same (text_at "name" g) (codes (match_group (entry_tags es))))) there
          ∙ match-found (entry_tags es),
    )
