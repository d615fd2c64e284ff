-- ===== src/Subfmt/Outbounds.antt =====
-- The loop of `xray_config` and `singbox_config` of app/subfmt.py over the entries: a tag for each,
-- and an outbound unless the kind has no form (`continue`).
pub mod Named
use testuder.Prelude.{Option, none, some, List, [], ◌∷◌, map}
use testuder.Codes.{Codes}
use testuder.Subfmt.{Entry}
use testuder.Subfmt.Tag.{tag, tags}
use testuder.Subfmt.Doc.{Doc}

abbrev pub put : Option Doc → List Doc → List Doc
put none os = os
put (some o) os = o ∷ os

-- each entry is built under its tag
unfoldable pub outbounds : (Codes → Entry → Option Doc) → List Entry → List Codes → List Doc
outbounds build [] used = []
outbounds build (e ∷ es) used =
    put (build (tag e.name used) e) (outbounds build es (tag e.name used ∷ used))

-- `tags`, one for each entry
unfoldable pub entry_tags : List Entry → List Codes
unfolding tags
entry_tags es = tags (map (λ e. e.name) es) []
