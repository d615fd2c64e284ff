-- ===== src/Codes/Decimal.antt =====
-- `str(n)` and `int(s)` over code points.
use testuder.Prelude.{
  ◌≡◌, ◌≢◌, ℕ, zero, suc, ◌+◌, ◌-◌, ◌*◌, ◌/◌, ◌%◌, ◌<◌, refl, Bool, true, ◌&&◌, Option, none, some,
  [], ◌∷◌, arith, leb, eqb, if◌then◌else◌, All, ◌∙◌,
}
use testuder.Codes.{Codes}

digits_from : ℕ → ℕ → Codes → Codes
digits_from zero n acc = acc
digits_from (suc f) n acc =
    let acc' = (b'0' + n % 10) ∷ acc in
    let rest = digits_from f (n / 10) acc' in if eqb (n / 10) 0 then acc' else rest

-- `str(n)`: each round divides `n` by ten, so `n + 1` rounds are enough
unfoldable pub decimal : ℕ → Codes
unfolding digits_from
decimal n = digits_from (n + 1) n []

unfoldable pub is_digit : ℕ → Bool
is_digit c = leb b'0' c && leb c b'9'

unfoldable pub scan : ℕ → Codes → Option ℕ
unfolding is_digit
scan n [] = some n
scan n (c ∷ s) = let rest = scan (n * 10 + (c - b'0')) s in if is_digit c then rest else none

-- the number that a text of ASCII digits stands for
unfoldable pub number : Codes → Option ℕ
number [] = none
number (c ∷ s) = scan 0 (c ∷ s)

scan-digits_from : (f n : ℕ) (acc : Codes) → n < f → scan 0 (digits_from f n acc) ≡ scan n acc
unfolding scan digits_from
scan-digits_from zero n acc h = absurd (omega arith)
scan-digits_from (suc f) n acc h =
    ground (arith, scan-digits_from f (n / 10) ((b'0' + n % 10) ∷ acc))

abbrev pub AllDigits : Codes → Type 0
AllDigits s = All (λ c. is_digit c ≡ true) s

digits_from-AllDigits : (f n : ℕ) (acc : Codes) → AllDigits acc → AllDigits (digits_from f n acc)
unfolding digits_from is_digit
digits_from-AllDigits zero n acc h = h
digits_from-AllDigits (suc f) n acc h =
    ground (arith, digits_from-AllDigits f (n / 10) ((b'0' + n % 10) ∷ acc))

-- A printed number is made of digits.
pub decimal-AllDigits : (n : ℕ) → AllDigits (decimal n)
unfolding decimal
decimal-AllDigits n = digits_from-AllDigits (n + 1) n [] tt

digits_from-ne-nil : (f n : ℕ) (c : ℕ) (acc : Codes) → digits_from f n (c ∷ acc) ≢ []
unfolding digits_from
digits_from-ne-nil zero n c acc = ground arith
digits_from-ne-nil (suc f) n c acc =
    ground (arith, digits_from-ne-nil f (n / 10) (b'0' + n % 10) (c ∷ acc))

digits_from_start : (f n : ℕ) → 0 < f → digits_from f n [] ≢ []
unfolding digits_from
digits_from_start zero n h = absurd (omega arith)
digits_from_start (suc f) n h = ground (arith, digits_from-ne-nil f (n / 10) (b'0' + n % 10) [])

pub decimal-ne-nil : (n : ℕ) → decimal n ≢ []
unfolding decimal
decimal-ne-nil n = digits_from_start (n + 1) n (omega arith)

number-scan : (s : Codes) → s ≢ [] → number s ≡ scan 0 s
unfolding number
number-scan [] h = absurd (h refl)
number-scan (c ∷ s) h = refl

-- A printed number is read back.
pub number-decimal : (n : ℕ) → number (decimal n) ≡ some n
unfolding decimal scan
number-decimal n =
    number-scan (decimal n) (decimal-ne-nil n) ∙ scan-digits_from (n + 1) n [] (omega arith)
