-- ===== src/Subfmt/Tag.antt =====
-- `_tag` of app/subfmt.py: a name for each outbound.
pub mod Fresh
use testuder.Prelude.{
  ◌≡◌, ◌≢◌, ◌↔◌, ◌⊎◌, inl, inr, ℕ, zero, suc, ◌+◌, ◌-◌, ◌*◌, ◌/◌, ◌%◌, ◌≤◌, ◌<◌, String, refl, sym,
  ap, Bool, true, false, ◌&&◌, ◌||◌, not, Option, none, some, List, [], ◌∷◌, ◌++◌, map, arith, ◌==◌,
  eq_iff, eq_refl, ltb, leb, eqb, if◌then◌else◌, Bool-cases, Option-cases, &&-split, length, take,
  drop, any, all, filter, find?, All, any-append, all-append, find?-sound, any-filter, All-append,
  All-filter, All-map, All-of_forall, All-mono, any-map, length-map, lower, truncate, strip, one_of,
  or_else, one_of-elim, coerce_to, lookup, insert, remove, lookup-insert, lookup-remove,
  lookup-insert_self, append, coerce_to-all, min, max, subst, ◌∙◌, append-nil, append_assoc, upper,
}
use testuder.Codes.{Codes, codes, same, has, strip_codes, or_codes}
use testuder.Codes.Decimal.{decimal}

-- the characters that `re.sub` drops
abbrev pub dropped : Codes
dropped = codes "[](){}\"':,|*&%$#@!<>?/\\"

-- the first try: the name without these characters, with dashes for spaces, at most 48 long
unfoldable pub clean : Codes → Codes
clean name = take 48 (
    map (λ c. if eqb c b' ' then b'-' else c)
      (or_codes (strip_codes (filter (λ c. not (has c dropped)) name)) (codes "TiTaN")))

-- the tries in order: the clean name, then with `-2`, `-3`, …
unfoldable pub candidate : Codes → ℕ → Codes
candidate base zero = base
candidate base (suc n) = base ++ b'-' ∷ decimal (n + 2)

-- `tag in used`
unfoldable pub taken : Codes → List Codes → Bool
taken tag used = any used (λ t. same tag t)

-- `while tag in used`, from the n-th try
unfoldable pub search_tag : ℕ → ℕ → Codes → List Codes → Codes
unfolding candidate taken
search_tag zero n base used = candidate base n
search_tag (suc fuel) n base used =
    let next = search_tag fuel (suc n) base used in
    if taken (candidate base n) used then next else candidate base n

-- `_tag(name, used)`: one round for each used tag is enough
unfoldable pub tag : Codes → List Codes → Codes
unfolding search_tag clean
tag name used = search_tag (length used) 0 (clean name) used

-- the tags of a list of names, each with the tags before it in `used`
unfoldable pub tags : List Codes → List Codes → List Codes
unfolding tag
tags [] used = []
tags (name ∷ names) used = tag name used ∷ tags names (tag name used ∷ used)
