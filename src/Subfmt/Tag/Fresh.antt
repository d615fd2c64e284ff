-- ===== src/Subfmt/Tag/Fresh.antt =====
-- The loop of `_tag` ends, with a tag that is not in use.
use testuder.Prelude.{
  ◌≡◌, ◌≢◌, inl, inr, ℕ, zero, suc, ◌+◌, ◌≤◌, ◌<◌, refl, sym, ap, true, false, ◌||◌, not, List, [],
  ◌∷◌, ◌++◌, arith, Bool-cases, length, filter, All, All-mono, ◌∙◌, length-append,
}
use testuder.Codes.{Codes, same, same_iff}
use testuder.Codes.Decimal.{decimal, number, number-decimal}
use testuder.Subfmt.Tag.{candidate, taken, search_tag, tag, tags}

longer : (s : Codes) (c : ℕ) (t : Codes) → s ++ c ∷ t ≢ s
longer s c t e = absurd (omega (arith, length-append s (c ∷ t), ap (length {A = ℕ}) e))

behind : Codes → Codes → Codes
behind [] t = t
behind (c ∷ s) [] = []
behind (c ∷ s) (d ∷ t) = behind s t

behind-append : (s t : Codes) → behind s (s ++ t) ≡ t
unfolding behind
behind-append [] t = refl
behind-append (c ∷ s) t = behind-append s t

decimal_inj : (m n : ℕ) → decimal m ≡ decimal n → m ≡ n
decimal_inj m n e = ground (arith, number-decimal m, number-decimal n, ap number e)

candidate-suc : (base : Codes) (m n : ℕ) → candidate base (suc m) ≡ candidate base (suc n) → m ≡ n
unfolding candidate
candidate-suc base m n e =
    let tails =
      sym (behind-append base (b'-' ∷ decimal (m + 2)))
      ∙ ap (behind base) e
      ∙ behind-append base (b'-' ∷ decimal (n + 2)) in
    ground (arith, tails, decimal_inj (m + 2) (n + 2))

candidate-ne : (base : Codes) (m n : ℕ) → m < n → candidate base m ≢ candidate base n
unfolding candidate
candidate-ne base m zero h e = absurd (omega arith)
candidate-ne base zero (suc n) h e = longer base b'-' (decimal (n + 2)) (sym e)
candidate-ne base (suc m) (suc n) h e = absurd (omega (arith, candidate-suc base m n e))

-- the tag is a try that is not before the first one
search_tag-candidate :
    (fuel n : ℕ) (base : Codes) (used : List Codes)
    → (k : ℕ) × (n ≤ k) × (search_tag fuel n base used ≡ candidate base k)
unfolding search_tag
search_tag-candidate zero n base used = (n, omega arith, refl)
search_tag-candidate (suc fuel) n base used = elim (Bool-cases (taken (candidate base n) used)) [
  | inl e ↦
      let later = search_tag-candidate fuel (suc n) base used in
      (later.0, omega (arith, later.1), rw e later.2)
  | inr e ↦ (n, omega arith, rw e)
]

-- the search reads `used` at the tries from the first one only
search_tag-cong :
    (fuel n : ℕ) (base : Codes) (used less : List Codes)
    → ((k : ℕ) → n ≤ k → taken (candidate base k) used ≡ taken (candidate base k) less)
    → search_tag fuel n base used ≡ search_tag fuel n base less
unfolding search_tag
search_tag-cong zero n base used less h = refl
search_tag-cong (suc fuel) n base used less h =
    ground (arith, h n, search_tag-cong fuel (suc n) base used less (λ k m. h k (omega arith)))

others : Codes → List Codes → List Codes
others t used = filter (λ u. not (same t u)) used

taken-others : (t x : Codes) (used : List Codes) → t ≢ x → taken x (others t used) ≡ taken x used
unfolding taken others
taken-others t x [] h = refl
taken-others t x (u ∷ used) h = elim (Bool-cases (same t u)) [
  | inl e ↦
      let ne : same x u ≡ false = ground (arith, same_iff x u, same_iff t u, h) in
      rw (e, ne) (taken-others t x used h)
  | inr e ↦ rw e (ap (λ b. same x u || b) (taken-others t x used h))
]

length-others-le : (t : Codes) (used : List Codes) → length (others t used) ≤ length used
unfolding others
length-others-le t [] = omega arith
length-others-le t (u ∷ used) = ground (arith, length-others-le t used)

length-others-lt :
    (t : Codes) (used : List Codes) → taken t used ≡ true → length (others t used) < length used
unfolding taken others
length-others-lt t [] h = ground arith
length-others-lt t (u ∷ used) h = elim (Bool-cases (same t u)) [
  | inl e ↦ rw e (omega (arith, length-others-le t used))
  | inr e ↦ rw e (omega (arith, length-others-lt t used (ground arith)))
]

taken-nil : (t : Codes) (used : List Codes) → length used ≤ 0 → taken t used ≡ false
unfolding taken
taken-nil t [] h = refl
taken-nil t (u ∷ used) h = absurd (omega arith)

-- A try that is taken may be forgotten: the later ones differ from it.
search_later :
    (fuel n : ℕ) (base : Codes) (used : List Codes)
    → taken
        (search_tag fuel (suc n) base (others (candidate base n) used))
        (others (candidate base n) used)
      ≡ false
    → taken (search_tag fuel (suc n) base used) used ≡ false
search_later fuel n base used ih =
    let t = candidate base n in
    let (k, after, found) = search_tag-candidate fuel (suc n) base used in
    let same_later = λ (j : ℕ) (m : suc n ≤ j).
      sym (taken-others t (candidate base j) used (candidate-ne base n j (omega arith))) in
    ap (λ x. taken x used) found
    ∙ same_later k after
    ∙ ap (λ x. taken x (others t used))
        (sym found ∙ search_tag-cong fuel (suc n) base used (others t used) same_later)
    ∙ ih

search_tag-taken :
    (fuel n : ℕ) (base : Codes) (used : List Codes)
    → taken (candidate base n) used ≡ true
    → search_tag (suc fuel) n base used ≡ search_tag fuel (suc n) base used
unfolding search_tag
search_tag-taken fuel n base used e = rw e

search_tag_free :
    (fuel n : ℕ) (base : Codes) (used : List Codes)
    → taken (candidate base n) used ≡ false
    → search_tag (suc fuel) n base used ≡ candidate base n
unfolding search_tag
search_tag_free fuel n base used e = rw e

search_tag-fresh :
    (fuel n : ℕ) (base : Codes) (used : List Codes)
    → length used ≤ fuel
    → taken (search_tag fuel n base used) used ≡ false
search_tag-fresh zero n base used h = taken-nil _ used h
search_tag-fresh (suc fuel) n base used h = elim (Bool-cases (taken (candidate base n) used)) [
  | inl e ↦
      ap (λ x. taken x used) (search_tag-taken fuel n base used e)
      ∙ search_later fuel n base used (
          search_tag-fresh fuel (suc n) base (others (candidate base n) used)
            (omega (arith, length-others-lt (candidate base n) used e)))
  | inr e ↦ ap (λ x. taken x used) (search_tag_free fuel n base used e) ∙ e
]

-- The loop of `_tag` ends within one round for each tag in use: the tag is not in use.
pub tag-fresh : (name : Codes) (used : List Codes) → taken (tag name used) used ≡ false
unfolding tag
tag-fresh name used = search_tag-fresh (length used) 0 _ used (omega arith)

-- No tag stands twice.
abbrev pub Distinct : List Codes → Type 0
Distinct [] = Unit
Distinct (t ∷ ts) = (taken t ts ≡ false) × Distinct ts

tags-fresh : (names used : List Codes) → All (λ t. taken t used ≡ false) (tags names used)
unfolding tags taken
tags-fresh [] used = tt
tags-fresh (name ∷ names) used = (
  tag-fresh name used,
  All-mono _ _ (tags names (tag name used ∷ used)) (λ t h. ground arith)
      (tags-fresh names (tag name used ∷ used)),
)

taken-All :
    (t : Codes) (used ts : List Codes)
    → All (λ x. taken x (t ∷ used) ≡ false) ts
    → taken t ts ≡ false
unfolding taken
taken-All t used [] h = refl
taken-All t used (x ∷ ts) h = ground (arith, same_iff x t, same_iff t x, taken-All t used ts h.1)

-- However the links are named, with as many of them alike as there may be, their tags all differ,
-- from one another and from the ones in use before.
pub tags-Distinct :
    (names used : List Codes)
    → Distinct (tags names used) × All (λ t. taken t used ≡ false) (tags names used)
unfolding tags
tags-Distinct [] used = (tt, tt)
tags-Distinct (name ∷ names) used = (
  (
    taken-All (tag name used) used (tags names (tag name used ∷ used))
        (tags-fresh names (tag name used ∷ used)),
    (tags-Distinct names (tag name used ∷ used)).0,
  ),
  tags-fresh (name ∷ names) used,
)
