-- ===== src/Prelude/Text.antt =====
-- Python's operations on `str`, over the native texts. Letters change case in ASCII only.
use Prim.Native.Nat.{ℕ, zero, suc, ◌-◌, compare, Ordering}
use Prim.Native.Char.{Char, code}
use Prim.Native.String
use Prim.Native.String.{String, char_at}
use mathlib.Core.Bool.{Bool, true, false, ◌&&◌, ◌||◌, cond}
use mathlib.Core.List.{List, [], ◌∷◌}
use text.Mathlib.Text.{◌==◌}
use text.Mathlib.TextEquality.{eq_iff}
use mathlib.Core.Path.{◌≡◌, sym, subst}
use mathlib.Core.Logic.{inl, inr}
use mathlib.Core.Bool.{false≢true}
use native.Mathlib.Omega.{arith}
use testuder.Prelude.Tests.{Bool-cases, &&-split}
use testuder.Prelude.Lists.{All, all, All-of_all}

abbrev between : ℕ → ℕ → ℕ → Bool
between lo hi n = elim (compare n lo) [
  | Ordering.lt ↦ false
  | _ ↦ elim (compare n hi) [ Ordering.gt ↦ false | _ ↦ true ]
]

lower_char : Char → Char
lower_char c =
    cond (between b'A' b'Z' (code c)) (char_at "abcdefghijklmnopqrstuvwxyz" (code c - b'A')) c

-- `s.lower()`
unfoldable pub lower : String → String
unfolding lower_char
lower String.[] = ""
lower (String.◌∷◌ c s) = String.◌∷◌ (lower_char c) (lower s)

upper_char : Char → Char
upper_char c =
    cond (between b'a' b'z' (code c)) (char_at "ABCDEFGHIJKLMNOPQRSTUVWXYZ" (code c - b'a')) c

-- `s.upper()`
unfoldable pub upper : String → String
unfolding upper_char
upper String.[] = ""
upper (String.◌∷◌ c s) = String.◌∷◌ (upper_char c) (upper s)

-- `str(s)[:n]`
unfoldable pub truncate : ℕ → String → String
truncate zero s = ""
truncate (suc n) String.[] = ""
truncate (suc n) (String.◌∷◌ c s) = String.◌∷◌ c (truncate n s)

is_space : ℕ → Bool
is_space n = between 9 13 n || between 28 32 n

unfoldable pub strip_left : String → String
unfolding is_space
strip_left String.[] = ""
strip_left (String.◌∷◌ c s) = cond (is_space (code c)) (strip_left s) (String.◌∷◌ c s)

strip_right : String → String
unfolding is_space
strip_right String.[] = ""
strip_right (String.◌∷◌ c s) =
    let rest = strip_right s in cond (is_space (code c) && (rest == "")) "" (String.◌∷◌ c rest)

-- `s.strip()`
unfoldable pub strip : String → String
unfolding strip_left strip_right
strip s = strip_left (strip_right s)

-- `s + t`, and the parts of an f-string
abbrev pub append : String → String → String
append s t = String.◌++◌ s t

-- `x in {…}` for a set of texts
abbrev pub one_of : String → List String → Bool
one_of x [] = false
one_of x (y ∷ ys) = (x == y) || one_of x ys

-- `a or b` on texts: the empty text is falsy.
abbrev pub or_else : String → String → String
or_else s d = cond (s == "") d s

-- `x if x in ys else d`
abbrev pub coerce_to : String → List String → String → String
coerce_to x ys d = cond (one_of x ys) x d

-- To prove something of a text that is in a set, prove it of each member.
pub one_of-elim {κ} :
    (P : String → Type κ) (x : String) (ys : List String) → All P ys → one_of x ys ≡ true → P x
one_of-elim P x [] a h = absurd (false≢true h)
one_of-elim P x (y ∷ ys) a h = elim (Bool-cases (x == y)) [
  | inl e ↦ subst P (sym ((eq_iff x y).0 e)) a.0
  | inr e ↦ one_of-elim P x ys a.1 (ground arith)
]

-- A test that every member of a set passes, and the default, is passed by a coerced text.
pub coerce_to-all :
    (q : String → Bool) (x : String) (ys : List String) (d : String)
    → all (d ∷ ys) q ≡ true
    → q (coerce_to x ys d) ≡ true
coerce_to-all q x ys d h = elim (Bool-cases (one_of x ys)) [
  | inl e ↦
      rw e (one_of-elim (λ y. q y ≡ true) x ys (All-of_all q ys (&&-split (q d) (all ys q) h).1) e)
  | inr e ↦ rw e (&&-split (q d) (all ys q) h).0
]
