-- ===== src/Url/Quoted.antt =====
-- What quoted text is made of.
use testuder.Url.Utf8.{AllScalar, Scalar, Scalar-of_IsScalar, utf8-lt}
use testuder.Url.RoundTrip.{codes-AllScalar}
use testuder.Prelude.{
  ◌≡◌, inl, inr, ℕ, ◌/◌, ◌%◌, ◌<◌, String, Bool, true, ◌||◌, List, [], ◌∷◌, arith, eqb, Bool-cases,
  All, All-append,
}
use testuder.Codes.{Codes, codes, has}
use testuder.Url.{utf8, unreserved, hex_digit, escape, quote_char, quote}

-- What a quoted text is made of: unreserved characters, the ones to keep, and `%`.
abbrev pub quoted_char : Codes → ℕ → Bool
quoted_char safe c = unreserved c || has c safe || eqb c b'%'

hex_digit-unreserved : (d : ℕ) → d < 16 → unreserved (hex_digit d) ≡ true
unfolding hex_digit unreserved
hex_digit-unreserved d h = ground arith

escape-quoted :
    (safe : Codes) (bs : List ℕ)
    → All (λ b. b < 256) bs
    → All (λ c. quoted_char safe c ≡ true) (escape bs)
unfolding escape
escape-quoted safe [] h = tt
escape-quoted safe (b ∷ bs) h = (
  ground arith,
  (
    ground (arith, hex_digit-unreserved (b / 16)),
    (ground (arith, hex_digit-unreserved (b % 16)), escape-quoted safe bs h.1),
  ),
)

quote_char-quoted :
    (safe : Codes) (c : ℕ) → Scalar c → All (λ x. quoted_char safe x ≡ true) (quote_char safe c)
unfolding quote_char
quote_char-quoted safe c v = elim (Bool-cases (unreserved c || has c safe)) [
  | inl e ↦ rw e (ground arith, tt)
  | inr e ↦ rw e (escape-quoted safe (utf8 c) (utf8-lt c v))
]

quote-quoted_codes :
    (safe s : Codes) → AllScalar s → All (λ x. quoted_char safe x ≡ true) (quote safe s)
unfolding quote
quote-quoted_codes safe [] v = tt
quote-quoted_codes safe (c ∷ s) v =
    All-append _ (quote_char safe c) (quote safe s)
      (quote_char-quoted safe c (Scalar-of_IsScalar c v.0)) (quote-quoted_codes safe s v.1)

pub quote-quoted :
    (safe : Codes) (s : String) → All (λ x. quoted_char safe x ≡ true) (quote safe (codes s))
quote-quoted safe s = quote-quoted_codes safe (codes s) (codes-AllScalar s)
