-- ===== src/Subfmt/Doc.antt =====
-- The documents that app/subfmt.py builds as dicts and lists: trees of objects with their keys in the
-- order of insertion.
use testuder.Prelude.{
  ◌≡◌, String, refl, ap, Bool, Option, none, some, List, [], ◌∷◌, map, ◌==◌, if◌then◌else◌,
}
use testuder.Codes.{Codes, codes}
use testuder.Prelude.Int.{ℤ}

mutual
  pub data Doc : Type 0 where
    str : Codes → Doc
    int : ℤ → Doc
    bool : Bool → Doc
    arr : Docs → Doc
    obj : Fields → Doc

  pub data Docs : Type 0 where
    nil : Docs
    cons : Doc → Docs → Docs

  pub data Fields : Type 0 where
    end : Fields
    field : String → Doc → Fields → Fields

abbrev pub Entries : Type 0
Entries = List (String × Doc)

unfoldable pub list_of : List Doc → Docs
list_of [] = nil
list_of (d ∷ ds) = cons d (list_of ds)

unfoldable pub fields_of : Entries → Fields
fields_of [] = end
fields_of ((k, d) ∷ fs) = field k d (fields_of fs)

-- `{…}`, `[…]` and texts
abbrev pub object : Entries → Doc
object fs = obj (fields_of fs)

abbrev pub array : List Doc → Doc
array ds = arr (list_of ds)

abbrev pub lit : String → Doc
lit s = str (codes s)

abbrev pub lits : List String → Doc
lits ss = array (map lit ss)

abbrev pub strs : List Codes → Doc
strs ss = array (map str ss)

-- `if v: d[k] = v`
abbrev pub when_given : String → Codes → Entries
when_given k [] = []
when_given k (c ∷ s) = (k, str (c ∷ s)) ∷ []

unfoldable pub items : Docs → List Doc
items nil = []
items (cons d ds) = d ∷ items ds

unfoldable pub find_key : String → Fields → Option Doc
find_key k end = none
find_key k (field j d fs) = if j == k then some d else find_key k fs

-- the list under a key
unfoldable pub list_at : String → Doc → List Doc
unfolding items find_key
list_at k (obj fs) = elim (find_key k fs) [ some (arr ds) ↦ items ds | some _ ↦ [] | none ↦ [] ]
list_at k _ = []

-- the text under a key
unfoldable pub text_at : String → Doc → Codes
unfolding find_key
text_at k (obj fs) = elim (find_key k fs) [ some (str s) ↦ s | some _ ↦ [] | none ↦ [] ]
text_at k _ = []

pub items-list_of : (ds : List Doc) → items (list_of ds) ≡ ds
unfolding items list_of
items-list_of [] = refl
items-list_of (d ∷ ds) = ap (λ r. d ∷ r) (items-list_of ds)
