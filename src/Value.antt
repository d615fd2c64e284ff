-- ===== src/Value.antt =====
-- JSON values, as settings and request bodies hold them, with Python's truth test, `str` and `int`
-- (used all over app/). A finite float is `real`, by what `int` makes of it and its truth; lists and
-- objects are `other`, of which only the truth is kept. Texts of digits are of ASCII digits.
use Prim.Native.Char.{code}
use testuder.Prelude.{
  ℕ, zero, suc, ◌+◌, ◌-◌, ◌*◌, ◌/◌, ◌%◌, String, Bool, true, false, ◌&&◌, not, Option, none, some,
  ◌==◌, leb, eqb, if◌then◌else◌, strip,
}
use testuder.Prelude.Int.{ℤ, pos, negsuc}
use Prim.Native.String
use Prim.Native.String.{char_at}

pub data Value : Type 0 where
  null : Value
  flag : Bool → Value
  num : ℤ → Value
  text : String → Value
  real : ℤ → Bool → Value
  other : Bool → Value

-- `bool(v)`
unfoldable pub truthy : Value → Bool
truthy null = false
truthy (flag b) = b
truthy (num (pos n)) = not (eqb n 0)
truthy (num (negsuc n)) = true
truthy (text s) = not (s == "")
truthy (real n b) = b
truthy (other b) = b

-- The digits of a number, the last one first computed; `n + 1` rounds are enough.
digits_from : ℕ → ℕ → String → String
digits_from zero n acc = acc
digits_from (suc f) n acc =
    let acc' = String.◌∷◌ (char_at "0123456789" (n % 10)) acc in
    let rest = digits_from f (n / 10) acc' in if eqb (n / 10) 0 then acc' else rest

-- `str(n)` of a number that is not negative
unfoldable pub show : ℕ → String
unfolding digits_from
show n = digits_from (n + 1) n ""

show_int : ℤ → String
unfolding show
show_int (pos n) = show n
show_int (negsuc n) = String.◌++◌ "-" (show (n + 1))

-- `str(v)`. A float, a list or an object gives a text that none of the program's tables holds.
unfoldable pub to_text : Value → String
unfolding show_int
to_text null = "None"
to_text (flag true) = "True"
to_text (flag false) = "False"
to_text (num n) = show_int n
to_text (text s) = s
to_text (real n b) = "[...]"
to_text (other b) = "[...]"

-- The value of a text of digits.
parse_digits : ℕ → String → Option ℕ
parse_digits acc String.[] = some acc
parse_digits acc (String.◌∷◌ c s) =
    let d = code c in
    let rest = parse_digits (acc * 10 + (d - b'0')) s in
    if leb b'0' d && leb d b'9' then rest else none

parse_nat : String → Option ℕ
unfolding parse_digits
parse_nat String.[] = none
parse_nat s = parse_digits 0 s

negate : Option ℕ → Option ℤ
negate none = none
negate (some zero) = some (pos 0)
negate (some (suc n)) = some (negsuc n)

positive : Option ℕ → Option ℤ
positive none = none
positive (some n) = some (pos n)

parse_signed : String → Option ℤ
unfolding parse_nat negate positive
parse_signed String.[] = none
parse_signed (String.◌∷◌ c s) =
    if eqb (code c) b'-'
    then negate (parse_nat s)
    else if eqb (code c) b'+'
    then positive (parse_nat s)
    else positive (parse_nat (String.◌∷◌ c s))

-- `int(v)`; `none` is a `TypeError` or a `ValueError`.
unfoldable pub to_int : Value → Option ℤ
unfolding parse_signed
to_int null = none
to_int (flag true) = some (pos 1)
to_int (flag false) = some (pos 0)
to_int (num n) = some n
to_int (text s) = parse_signed (strip s)
to_int (real n b) = some n
to_int (other b) = none
