-- ===== src/Subfmt/Params.antt =====
-- The query of a link is read back as its keys and values.
use testuder.Prelude.{
  ◌≡◌, ℕ, String, refl, ap, false, List, [], ◌∷◌, ◌++◌, map, All, All-append, ◌∙◌,
}
use testuder.Codes.{Codes, codes, same}
use testuder.Codes.Lacks.{Lacks, before-append, after-append, split-join}
use testuder.Links.{Part, rendered, Pairs, pair, query}
use testuder.Links.Tame.{
  separator, Tame-Lacks, value, Unreserved, Unreserved-Tame, Sound, SoundPairs, rendered-Tame,
  unquote-rendered,
}
use testuder.Subfmt.{Params, read_params, params}

-- The pairs with their values as they were before quoting.
unfoldable pub values : Pairs → Params
values [] = []
values ((k, p) ∷ ps) = (codes k, codes (value p)) ∷ values ps

same-append : (s : Codes) (c : ℕ) (t : Codes) → same (s ++ c ∷ t) [] ≡ false
unfolding same
same-append [] c t = refl
same-append (d ∷ s) c t = refl

read-pair :
    (k : String) (p : Part) (chunks : List Codes)
    → Unreserved k
    → Sound p
    → read_params (pair (k, p) ∷ chunks) ≡ (codes k, codes (value p)) ∷ read_params chunks
unfolding read_params
read-pair k p chunks hk hp =
    let lacks = Tame-Lacks b'=' (codes k) (unfold separator in refl) (Unreserved-Tame k hk) in
    rw (
      same-append (codes k) b'=' (rendered p),
      before-append b'=' (codes k) (rendered p) lacks,
      after-append b'=' (codes k) (rendered p) lacks,
      unquote-rendered p hp,
    )

read_params-map : (ps : Pairs) → SoundPairs ps → read_params (map pair ps) ≡ values ps
unfolding values
read_params-map [] h = unfold read_params in refl
read_params-map ((k, p) ∷ ps) h =
    read-pair k p (map pair ps) h.0.0 h.0.1
    ∙ ap (λ r. (codes k, codes (value p)) ∷ r) (read_params-map ps h.1)

pair-Lacks : (k : String) (p : Part) → Unreserved k → Sound p → Lacks b'&' (pair (k, p))
unfolding separator
pair-Lacks k p hk hp =
    All-append _ (codes k) (b'=' ∷ rendered p)
      (Tame-Lacks b'&' (codes k) refl (Unreserved-Tame k hk))
      (refl, Tame-Lacks b'&' (rendered p) refl (rendered-Tame p hp))

map-pair-Lacks : (ps : Pairs) → SoundPairs ps → All (Lacks b'&') (map pair ps)
map-pair-Lacks [] h = tt
map-pair-Lacks ((k, p) ∷ ps) h = (pair-Lacks k p h.0.0 h.0.1, map-pair-Lacks ps h.1)

-- A query with a pair is read back.
pub params-query :
    (q : String × Part) (ps : Pairs)
    → SoundPairs (q ∷ ps)
    → params (query (q ∷ ps)) ≡ values (q ∷ ps)
unfolding params query
params-query q ps h =
    ap read_params (split-join b'&' (pair q) (map pair ps) (map-pair-Lacks (q ∷ ps) h))
    ∙ read_params-map (q ∷ ps) h
