-- ===== src/Codes.antt =====
-- Texts as lists of code points, for the code that takes them apart: app/links.py and app/subfmt.py.
-- Python's operations on `str` that they use.
pub mod Decimal
pub mod Lacks
use text.Mathlib.TextLemmas.{nil-append, cons-append}
use testuder.Prelude.{
  ◌≡◌, ◌≢◌, ◌↔◌, ◌⊎◌, inl, inr, ℕ, zero, suc, ◌+◌, ◌-◌, ◌*◌, ◌/◌, ◌%◌, ◌≤◌, ◌<◌, String, refl, sym,
  ap, Bool, true, false, ◌&&◌, ◌||◌, not, Option, none, some, List, [], ◌∷◌, ◌++◌, map, arith, ◌==◌,
  eq_iff, eq_refl, ltb, leb, eqb, if◌then◌else◌, Bool-cases, Option-cases, &&-split, length, take,
  drop, any, all, filter, find?, All, any-append, all-append, find?-sound, any-filter, All-append,
  All-filter, All-map, All-of_forall, All-mono, any-map, length-map, lower, truncate, strip, one_of,
  or_else, one_of-elim, coerce_to, lookup, insert, remove, lookup-insert, lookup-remove,
  lookup-insert_self, append, coerce_to-all, min, max, subst, ◌∙◌, append-nil, append_assoc, upper,
}
use Prim.Native.Char.{code}
use Prim.Native.String

abbrev pub Codes : Type 0
Codes = List ℕ

abbrev pub codes : String → Codes
codes String.[] = []
codes (String.◌∷◌ c s) = code c ∷ codes s

-- `s == t`
unfoldable pub same : Codes → Codes → Bool
same [] [] = true
same [] (d ∷ t) = false
same (c ∷ s) [] = false
same (c ∷ s) (d ∷ t) = eqb c d && same s t

pub same_iff : (s t : Codes) → (same s t ≡ true) ↔ (s ≡ t)
unfolding same
same_iff [] [] = ground arith
same_iff [] (d ∷ t) = ground arith
same_iff (c ∷ s) [] = ground arith
same_iff (c ∷ s) (d ∷ t) = ground (arith, same_iff s t)

-- `s in (…)`
unfoldable pub is_one_of : Codes → List String → Bool
is_one_of s [] = false
is_one_of s (t ∷ ts) = same s (codes t) || is_one_of s ts

-- `s or d`
unfoldable pub or_codes : Codes → Codes → Codes
or_codes [] d = d
or_codes (c ∷ s) d = c ∷ s

-- `x in s` for one character
unfoldable pub has : ℕ → Codes → Bool
has x s = any s (λ c. eqb c x)

-- `s.partition(x)[0]`
unfoldable pub before : ℕ → Codes → Codes
before x [] = []
before x (c ∷ s) = if eqb c x then [] else c ∷ before x s

-- `s.partition(x)[2]`
unfoldable pub after : ℕ → Codes → Codes
after x [] = []
after x (c ∷ s) = if eqb c x then s else after x s

-- `s.rsplit(x, 1)[-1]`
unfoldable pub after_last : ℕ → Codes → Codes
unfolding has
after_last x [] = []
after_last x (c ∷ s) =
    let rest = after_last x s in if has x s then rest else if eqb c x then s else c ∷ s

-- `s.rsplit(x, 1)[0]`
unfoldable pub before_last : ℕ → Codes → Codes
unfolding has
before_last x [] = []
before_last x (c ∷ s) =
    let rest = before_last x s in if has x s then c ∷ rest else if eqb c x then [] else c ∷ s

-- `s.count(x)`
unfoldable pub count : ℕ → Codes → ℕ
count x [] = 0
count x (c ∷ s) = (if eqb c x then 1 else 0) + count x s

-- `s.split(x)`: the current part is built up in `part`
split_on : ℕ → Codes → Codes → List Codes
split_on x part [] = part ∷ []
split_on x part (c ∷ s) =
    let cut = part ∷ split_on x [] s in
    let go = split_on x (part ++ c ∷ []) s in if eqb c x then cut else go

unfoldable pub split : ℕ → Codes → List Codes
unfolding split_on
split x s = split_on x [] s

-- `x.join(parts)`
unfoldable pub join : ℕ → List Codes → Codes
join x [] = []
join x (p ∷ []) = p
join x (p ∷ q ∷ ps) = p ++ x ∷ join x (q ∷ ps)

unfoldable pub starts_with : Codes → Codes → Bool
starts_with [] s = true
starts_with (x ∷ p) [] = false
starts_with (x ∷ p) (c ∷ s) = eqb x c && starts_with p s

-- `s.split(p, 1)` where `p` occurs in `s`, else `none`
unfoldable pub split_first : Codes → Codes → Option (Codes × Codes)
unfolding starts_with
split_first p [] = none
split_first p (c ∷ s) =
    if starts_with p (c ∷ s)
    then some ([], drop (length p) (c ∷ s))
    else elim (split_first p s) [ none ↦ none | some (a, b) ↦ some (c ∷ a, b) ]

-- `c.isspace()`
unfoldable pub is_space : ℕ → Bool
is_space n =
    (leb 9 n && leb n 13)
    || (leb 28 n && leb n 32)
    || eqb n 0x85
    || eqb n 0xa0
    || eqb n 0x1680
    || (leb 0x2000 n && leb n 0x200a)
    || eqb n 0x2028
    || eqb n 0x2029
    || eqb n 0x202f
    || eqb n 0x205f
    || eqb n 0x3000

unfoldable pub strip_front : Codes → Codes
strip_front [] = []
strip_front (c ∷ s) = if is_space c then strip_front s else c ∷ s

unfoldable pub strip_back : Codes → Codes
strip_back [] = []
strip_back (c ∷ s) = let rest = strip_back s in if is_space c && same rest [] then [] else c ∷ rest

-- `s.strip()`
unfoldable pub strip_codes : Codes → Codes
unfolding strip_front strip_back
strip_codes s = strip_front (strip_back s)

-- `s.lower()`, of ASCII letters
unfoldable pub lower_codes : Codes → Codes
lower_codes s = map (λ c. if leb b'A' c && leb c b'Z' then c + 32 else c) s

pub codes-append : (s t : String) → codes (append s t) ≡ codes s ++ codes t
codes-append String.[] t = ap codes (nil-append t)
codes-append (String.◌∷◌ c s) t =
    ap codes (cons-append c s t) ∙ ap (λ r. code c ∷ r) (codes-append s t)
