-- ===== src/Codes/Lacks.antt =====
-- What the operations on texts do where a character does not occur.
use testuder.Prelude.{
  ◌≡◌, ℕ, refl, ap, true, false, List, [], ◌∷◌, ◌++◌, arith, eqb, All, ◌∙◌, append-nil,
  append_assoc,
}
use testuder.Codes.{Codes, has, before, after, after_last, before_last, split, join, split_on}

-- The character is not in the text.
abbrev pub Lacks : ℕ → Codes → Type 0
Lacks x s = All (λ c. eqb c x ≡ false) s

pub before-append : (x : ℕ) (s t : Codes) → Lacks x s → before x (s ++ x ∷ t) ≡ s
unfolding before
before-append x [] t h = ground arith
before-append x (c ∷ s) t h = ground (arith, before-append x s t h.1)

pub after-append : (x : ℕ) (s t : Codes) → Lacks x s → after x (s ++ x ∷ t) ≡ t
unfolding after
after-append x [] t h = ground arith
after-append x (c ∷ s) t h = ground (arith, after-append x s t h.1)

pub has-append : (x : ℕ) (s t : Codes) → has x (s ++ x ∷ t) ≡ true
unfolding has
has-append x [] t = ground arith
has-append x (c ∷ s) t = ground (arith, has-append x s t)

pub has-Lacks : (x : ℕ) (s : Codes) → Lacks x s → has x s ≡ false
unfolding has
has-Lacks x [] h = refl
has-Lacks x (c ∷ s) h = ground (arith, has-Lacks x s h.1)

pub before-Lacks : (x : ℕ) (s : Codes) → Lacks x s → before x s ≡ s
unfolding before
before-Lacks x [] h = refl
before-Lacks x (c ∷ s) h = ground (arith, before-Lacks x s h.1)

pub after_last-append : (x : ℕ) (s t : Codes) → Lacks x t → after_last x (s ++ x ∷ t) ≡ t
unfolding after_last
after_last-append x [] t h = ground (arith, has-Lacks x t h)
after_last-append x (c ∷ s) t h = ground (arith, after_last-append x s t h, has-append x s t)

pub before_last-append : (x : ℕ) (s t : Codes) → Lacks x t → before_last x (s ++ x ∷ t) ≡ s
unfolding before_last
before_last-append x [] t h = ground (arith, has-Lacks x t h)
before_last-append x (c ∷ s) t h = ground (arith, before_last-append x s t h, has-append x s t)

split_on-append :
    (x : ℕ) (part s t : Codes) → Lacks x s → split_on x part (s ++ x ∷ t) ≡ (part ++ s) ∷ split x t
unfolding split_on split
split_on-append x part [] t h = ground (arith, append-nil part)
split_on-append x part (c ∷ s) t h =
    ground (arith, split_on-append x (part ++ c ∷ []) s t h.1, append_assoc part (c ∷ []) s)

split_on-Lacks : (x : ℕ) (part s : Codes) → Lacks x s → split_on x part s ≡ (part ++ s) ∷ []
unfolding split_on
split_on-Lacks x part [] h = ground (arith, append-nil part)
split_on-Lacks x part (c ∷ s) h =
    ground (arith, split_on-Lacks x (part ++ c ∷ []) s h.1, append_assoc part (c ∷ []) s)

pub split-append : (x : ℕ) (s t : Codes) → Lacks x s → split x (s ++ x ∷ t) ≡ s ∷ split x t
unfolding split
split-append x s t h = split_on-append x [] s t h

pub split-Lacks : (x : ℕ) (s : Codes) → Lacks x s → split x s ≡ s ∷ []
unfolding split
split-Lacks x s h = split_on-Lacks x [] s h

-- The parts of a join come back, if no part holds the separator.
pub split-join :
    (x : ℕ) (p : Codes) (ps : List Codes)
    → All (Lacks x) (p ∷ ps)
    → split x (join x (p ∷ ps)) ≡ p ∷ ps
unfolding split join
split-join x p [] h = split_on-Lacks x [] p h.0
split-join x p (q ∷ ps) h =
    split_on-append x [] p (join x (q ∷ ps)) h.0 ∙ ap (λ r. p ∷ r) (split-join x q ps h.1)
