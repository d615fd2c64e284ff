-- ===== src/Base64.antt =====
-- Python's `base64`, as app/links.py, app/sskeys.py and app/subfmt.py use it.
pub mod RoundTrip
use testuder.Prelude.{
  ◌≡◌, ◌≢◌, ◌↔◌, ◌⊎◌, inl, inr, ℕ, zero, suc, ◌+◌, ◌-◌, ◌*◌, ◌/◌, ◌%◌, ◌≤◌, ◌<◌, String, refl, sym,
  ap, Bool, true, false, ◌&&◌, ◌||◌, not, Option, none, some, List, [], ◌∷◌, ◌++◌, map, arith, ◌==◌,
  eq_iff, eq_refl, ltb, leb, eqb, if◌then◌else◌, Bool-cases, Option-cases, &&-split, length, take,
  drop, any, all, filter, find?, All, any-append, all-append, find?-sound, any-filter, All-append,
  All-filter, All-map, All-of_forall, All-mono, any-map, length-map, lower, truncate, strip, one_of,
  or_else, one_of-elim, coerce_to, lookup, insert, remove, lookup-insert, lookup-remove,
  lookup-insert_self, append, coerce_to-all, min, max, subst, ◌∙◌, append-nil, append_assoc, upper,
}
use testuder.Codes.{Codes}

-- The last two characters of the alphabet: `+/`, or `-_` of the URL-safe one.
pub record Alphabet : Type 0 where
  pub c62 : ℕ
  pub c63 : ℕ

abbrev pub standard : Alphabet
standard = record { c62 = b'+'; c63 = b'/' }

abbrev pub url_safe : Alphabet
url_safe = record { c62 = b'-'; c63 = b'_' }

unfoldable pub sextet : Alphabet → ℕ → ℕ
sextet a n =
    if ltb n 26
    then b'A' + n
    else if ltb n 52
    then n + 71
    else if ltb n 62
    then n - 4
    else if eqb n 62
    then a.c62
    else a.c63

-- `b64encode(bs)` and `urlsafe_b64encode(bs)`
unfoldable pub encode : Alphabet → List ℕ → Codes
unfolding sextet
encode a [] = []
encode a (x ∷ []) = sextet a (x / 4) ∷ sextet a (x % 4 * 16) ∷ b'=' ∷ b'=' ∷ []
encode a (x ∷ y ∷ []) =
    sextet a (x / 4) ∷ sextet a (x % 4 * 16 + y / 16) ∷ sextet a (y % 16 * 4) ∷ b'=' ∷ []
encode a (x ∷ y ∷ z ∷ bs) =
    sextet a (x / 4)
    ∷ sextet a (x % 4 * 16 + y / 16)
    ∷ sextet a (y % 16 * 4 + z / 64)
    ∷ sextet a (z % 64)
    ∷ encode a bs

-- `s.rstrip("=")`
unfoldable pub unpad : Codes → Codes
unpad [] = []
unpad (c ∷ s) =
    let rest = unpad s in if eqb c b'=' then elim rest [ [] ↦ [] | d ∷ t ↦ c ∷ d ∷ t ] else c ∷ rest

unfoldable pub six_bits : Alphabet → ℕ → Option ℕ
six_bits a c =
    if leb b'A' c && leb c b'Z'
    then some (c - b'A')
    else if leb b'a' c && leb c b'z'
    then some (c - 71)
    else if leb b'0' c && leb c b'9'
    then some (c + 4)
    else if eqb c a.c62
    then some 62
    else if eqb c a.c63
    then some 63
    else none

-- What the decoder keeps: the place in the group of four, the bits that are left, the paddings.
pub record Group : Type 0 where
  pub place : ℕ
  pub left : ℕ
  pub pads : ℕ

-- one character of the alphabet: the byte that is complete with it, and the new group
unfoldable pub take_bits : Group → ℕ → List ℕ × Group
take_bits g v =
    if eqb g.place 0
    then ([], record { place = 1; left = v; pads = 0 })
    else if eqb g.place 1
    then ((g.left * 4 + v / 16) ∷ [], record { place = 2; left = v % 16; pads = 0 })
    else if eqb g.place 2
    then ((g.left * 16 + v / 4) ∷ [], record { place = 3; left = v % 4; pads = 0 })
    else ((g.left * 64 + v) ∷ [], record { place = 0; left = 0; pads = 0 })

-- `binascii.a2b_base64`: other characters are skipped; `none` is an error in the padding
unfoldable pub scan : Alphabet → Group → Codes → Option (List ℕ)
unfolding six_bits take_bits
scan a g [] = if eqb g.place 0 then some [] else none
scan a g (c ∷ s) = elim (eqb c b'=') [
  | true ↦ elim (leb 2 g.place) [
    | true ↦ elim (leb 4 (g.place + (g.pads + 1))) [
      | true ↦ some []
      | false ↦ scan a (record g { pads = g.pads + 1 }) s
    ]
    | false ↦ scan a g s
  ]
  | false ↦ elim (six_bits a c) [
    | none ↦ scan a g s
    | some v ↦ elim (scan a (take_bits g v).1 s) [
      | none ↦ none
      | some bs ↦ some ((take_bits g v).0 ++ bs)
    ]
  ]
]

abbrev pub start : Group
start = record { place = 0; left = 0; pads = 0 }

-- `b64decode(s)` and `urlsafe_b64decode(s)`
unfoldable pub decode : Alphabet → Codes → Option (List ℕ)
unfolding scan
decode a s = scan a start s

-- `"=" * (-len(s) % 4)`
unfoldable pub padding : Codes → Codes
padding s =
    let n = length s % 4 in
    if eqb n 0
    then []
    else if eqb n 1
    then b'=' ∷ b'=' ∷ b'=' ∷ []
    else if eqb n 2
    then b'=' ∷ b'=' ∷ []
    else b'=' ∷ []
