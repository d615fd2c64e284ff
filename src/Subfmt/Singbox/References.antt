-- ===== src/Subfmt/Singbox/References.antt =====
-- What the selector of a sing-box file refers to.
use testuder.Prelude.{
  ◌≡◌, inl, inr, refl, ap, some, List, [], ◌∷◌, ◌++◌, map, arith, Option-cases, All-mono, ◌∙◌,
}
use testuder.Codes.{Codes, codes, is_one_of}
use testuder.Settings.{Settings}
use testuder.Subfmt.{Loads, Entry}
use testuder.Subfmt.Tag.Fresh.{Distinct, tags-Distinct}
use testuder.Subfmt.Outbounds.{outbounds, entry_tags}
use testuder.Subfmt.Outbounds.Named.{
  entries_of, Builds, map-append, outbounds-tags, Kind, parse_links-Kind,
}
use testuder.Subfmt.Singbox.{
  singbox_transport, singbox_tls, selector, singbox_kind, singbox_outbound, singbox_outbounds,
  singbox_config,
}
use testuder.Subfmt.Doc.{
  lit, int, str, Entries, object, text_at, list_at, items-list_of, fields_of, find_key,
}

singbox_kind-some :
    (s : Settings) (e : Entry) → Kind e → (k : Entries) × (singbox_kind s e ≡ some k)
unfolding singbox_kind is_one_of
singbox_kind-some s e h = elim (Option-cases (singbox_kind s e)) [
  | inl n ↦ ground (arith, n, h)
  | inr (k, p) ↦ (k, p)
]

outbound-of_kind :
    (s : Settings) (e : Entry) (k : Entries)
    → singbox_kind s e ≡ some k
    → Builds (text_at "tag") (singbox_outbound s) e
unfolding singbox_outbound text_at find_key fields_of
outbound-of_kind s e k p t = (
  object (
      ("tag", str t)
      ∷ ("server", str e.server)
      ∷ ("port", int e.port)
      ∷ (k ++ (singbox_tls s e ++ singbox_transport e))),
  rw (p, singbox_outbound) refl,
  refl,
)

singbox-Builds : (s : Settings) (e : Entry) → Kind e → Builds (text_at "tag") (singbox_outbound s) e
singbox-Builds s e h = let (k, p) = singbox_kind-some s e h in outbound-of_kind s e k p

-- In the sing-box file that is made from any links, the selector names each entry by its tag, then
-- `direct`; the outbounds of the file are the selector, one under each of these tags, in this order,
-- then `direct` and `block`; and no two entries have one tag.
pub singbox_config-references :
    (loads : Loads) (links : List Codes) (s : Settings)
    → let es = entries_of loads links in
      (map (text_at "tag") (list_at "outbounds" (singbox_config es s))
        ≡ codes "proxy" ∷ (entry_tags es ++ codes "direct" ∷ codes "block" ∷ []))
      × (list_at "actors" (selector es) ≡ map str (entry_tags es ++ codes "direct" ∷ []))
      × Distinct (entry_tags es)
unfolding singbox_config singbox_outbounds selector list_at text_at find_key fields_of entry_tags
singbox_config-references loads links s =
    let es = entries_of loads links in
    let tail =
      object (("type", lit "direct") ∷ ("tag", lit "direct") ∷ [])
      ∷ object (("type", lit "block") ∷ ("tag", lit "block") ∷ [])
      ∷ [] in
    (
      ap (map (text_at "tag")) (items-list_of (singbox_outbounds s es))
          ∙ ap (λ r. codes "proxy" ∷ r)
              (map-append (text_at "tag") (outbounds (singbox_outbound s) es []) tail
                ∙ ap (λ ts. ts ++ map (text_at "tag") tail)
                    (outbounds-tags (text_at "tag") (singbox_outbound s) es [] (
                      All-mono Kind _ es (λ e h. singbox-Builds s e h)
                        (parse_links-Kind loads links)))),
      items-list_of (map str (entry_tags es ++ codes "direct" ∷ [])),
      (tags-Distinct (map (λ e. e.name) es) []).0,
    )
