-- ===== src/Prelude/Lists.antt =====
-- Lists measured by native numbers and searched by Boolean tests, under the library's names.
use Prim.Native.Nat.{◌+◌, ℕ, zero, suc, ◌≤◌}
use mathlib.Core.Path.{◌≡◌, refl, ap}
use mathlib.Core.Bool.{Bool, true, false, ◌&&◌, ◌||◌, cond}
use mathlib.Core.List.{List, [], ◌∷◌, ◌++◌, map}
use mathlib.Core.Option.{Option, none, some}
use native.Mathlib.Omega.{arith}

module _ {ℓ} {A : Type ℓ} where
  abbrev pub length : List A → ℕ
  length [] = 0
  length (x ∷ xs) = suc (length xs)

  abbrev pub take : ℕ → List A → List A
  take zero xs = []
  take (suc n) [] = []
  take (suc n) (x ∷ xs) = x ∷ take n xs

  abbrev pub drop : ℕ → List A → List A
  drop zero xs = xs
  drop (suc n) [] = []
  drop (suc n) (x ∷ xs) = drop n xs

  abbrev pub any : List A → (A → Bool) → Bool
  any [] p = false
  any (x ∷ xs) p = p x || any xs p

  abbrev pub all : List A → (A → Bool) → Bool
  all [] p = true
  all (x ∷ xs) p = p x && all xs p

  -- `[x for x in xs if p(x)]`
  abbrev pub filter : (A → Bool) → List A → List A
  filter p [] = []
  filter p (x ∷ xs) = cond (p x) (x ∷ filter p xs) (filter p xs)

  -- `next((x for x in xs if p(x)), None)`: the first row that a query selects.
  abbrev pub find? : (A → Bool) → List A → Option A
  find? p [] = none
  find? p (x ∷ xs) = cond (p x) (some x) (find? p xs)

  -- The predicate holds of every member.
  abbrev pub All {κ} : (A → Type κ) → List A → Type κ
  All P [] = Unit
  All P (x ∷ xs) = P x × All P xs

module _ {ℓ} {A : Type ℓ} where
  pub length-take-le : (n : ℕ) (xs : List A) → length (take n xs) ≤ n
  length-take-le zero xs = omega arith
  length-take-le (suc n) [] = omega arith
  length-take-le (suc n) (x ∷ xs) = omega (arith, length-take-le n xs)

  pub length-append : (xs ys : List A) → length (xs ++ ys) ≡ length xs + length ys
  length-append [] ys = omega arith
  length-append (x ∷ xs) ys = omega (arith, length-append xs ys)

  pub All-of_all : (q : A → Bool) (xs : List A) → all xs q ≡ true → All (λ x. q x ≡ true) xs
  All-of_all q [] h = tt
  All-of_all q (x ∷ xs) h = (ground arith, All-of_all q xs (ground arith))

  pub any-append : (xs ys : List A) (p : A → Bool) → any (xs ++ ys) p ≡ (any xs p || any ys p)
  any-append [] ys p = refl
  any-append (x ∷ xs) ys p = ground (arith, any-append xs ys p)

  pub all-append : (xs ys : List A) (p : A → Bool) → all (xs ++ ys) p ≡ (all xs p && all ys p)
  all-append [] ys p = refl
  all-append (x ∷ xs) ys p = ground (arith, all-append xs ys p)

  pub find?-sound : (p : A → Bool) (xs : List A) (x : A) → find? p xs ≡ some x → p x ≡ true
  find?-sound p [] x h = ground arith
  find?-sound p (y ∷ xs) x h = ground (arith, find?-sound p xs x)

  pub any-filter : (xs : List A) (p q : A → Bool) → any (filter p xs) q ≡ any xs (λ x. p x && q x)
  any-filter [] p q = refl
  any-filter (x ∷ xs) p q = ground (arith, any-filter xs p q)

  pub All-append {κ} :
      (Q : A → Type κ) (front back : List A) → All Q front → All Q back → All Q (front ++ back)
  All-append Q [] back f b = b
  All-append Q (a ∷ front) back f b = (f.0, All-append Q front back f.1 b)

  pub All-filter {κ} :
      (P : A → Type κ) (p : A → Bool) (xs : List A) → All P xs → All P (filter p xs)
  All-filter P p [] h = tt
  All-filter P p (x ∷ xs) h = ground (arith, All-filter P p xs h.1)

  pub All-map {κ μ} :
      {B : Type μ} (P : B → Type κ) (f : A → B) (xs : List A)
      → ((x : A) → P (f x))
      → All P (map f xs)
  All-map P f [] h = tt
  All-map P f (x ∷ xs) h = (h x, All-map P f xs h)

  pub All-of_forall {κ} : (P : A → Type κ) (xs : List A) → ((x : A) → P x) → All P xs
  All-of_forall P [] h = tt
  All-of_forall P (x ∷ xs) h = (h x, All-of_forall P xs h)

  pub All-mono {κ μ} :
      (P : A → Type κ) (Q : A → Type μ) (xs : List A) → ((x : A) → P x → Q x) → All P xs → All Q xs
  All-mono P Q [] h a = tt
  All-mono P Q (x ∷ xs) h a = (h x a.0, All-mono P Q xs h a.1)

module _ {ℓ κ} {A : Type ℓ} {B : Type κ} where
  pub any-map : (xs : List A) (f : A → B) (p : B → Bool) → any (map f xs) p ≡ any xs (λ x. p (f x))
  any-map [] f p = refl
  any-map (x ∷ xs) f p = ground (arith, any-map xs f p)

  pub length-map : (xs : List A) (f : A → B) → length (map f xs) ≡ length xs
  length-map [] f = refl
  length-map (x ∷ xs) f = ap suc (length-map xs f)
