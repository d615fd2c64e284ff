-- ===== src/Url/RoundTrip.antt =====
-- `unquote` undoes `quote`.
use testuder.Url.Utf8.{
  AllScalar, Scalar, Scalar-of_IsScalar, utf8-lt, pieces_plain, pieces-escapes, decode-utf8, bytes,
}
use testuder.Prelude.{
  ◌≡◌, inl, inr, ℕ, String, refl, ap, Bool, true, ◌&&◌, ◌||◌, not, [], ◌∷◌, ◌++◌, arith, ltb, eqb,
  Bool-cases, all, ◌∙◌,
}
use Prim.Native.Char
use Prim.Native.Char.{IsScalar}
use testuder.Codes.{Codes, codes, has}
use testuder.Url.{
  replacement, utf8, unreserved, quote_char, quote, byte, pieces, closed, flush, decode, unquote,
}

-- The characters that a call keeps are ASCII, and `%` is not one of them.
abbrev pub fits_safe : ℕ → Bool
fits_safe x = ltb x 0x80 && not (eqb x b'%')

has-fits_safe :
    (c : ℕ) (safe : Codes) → has c safe ≡ true → all safe fits_safe ≡ true → fits_safe c ≡ true
unfolding has
has-fits_safe c [] h k = ground arith
has-fits_safe c (x ∷ safe) h k = ground (arith, has-fits_safe c safe)

unreserved-fits_safe : (c : ℕ) → unreserved c ≡ true → fits_safe c ≡ true
unfolding unreserved
unreserved-fits_safe c h = ground arith

pieces_kept : (c : ℕ) (s : Codes) → fits_safe c ≡ true → pieces (c ∷ s) ≡ byte c ∷ pieces s
pieces_kept c s h = pieces_plain c s (ground arith) (ground arith)

pub kept-fits_safe :
    (safe : Codes) (c : ℕ)
    → all safe fits_safe ≡ true
    → (unreserved c || has c safe) ≡ true
    → fits_safe c ≡ true
kept-fits_safe safe c k h = ground (arith, unreserved-fits_safe c, has-fits_safe c safe)

utf8_short : (c : ℕ) → fits_safe c ≡ true → utf8 c ≡ c ∷ []
unfolding utf8
utf8_short c h = ground arith

pieces-quote_char :
    (safe : Codes) (c : ℕ) (s : Codes)
    → all safe fits_safe ≡ true
    → Scalar c
    → pieces (quote_char safe c ++ s) ≡ bytes (utf8 c) (pieces s)
unfolding quote_char bytes
pieces-quote_char safe c s k v = elim (Bool-cases (unreserved c || has c safe)) [
  | inl e ↦ let f = kept-fits_safe safe c k e in rw (e, utf8_short c f) (pieces_kept c s f)
  | inr e ↦ rw e (pieces-escapes (utf8 c) s (utf8-lt c v))
]

decode-quote :
    (safe s : Codes)
    → all safe fits_safe ≡ true
    → AllScalar s
    → decode (replacement ∷ []) closed (pieces (quote safe s)) ≡ s
unfolding quote
decode-quote safe [] k v = unfold pieces decode flush in refl
decode-quote safe (c ∷ s) k v =
    ap (λ ps. decode (replacement ∷ []) closed ps)
      (pieces-quote_char safe c (quote safe s) k (Scalar-of_IsScalar c v.0))
    ∙ decode-utf8 (replacement ∷ []) c (pieces (quote safe s)) (Scalar-of_IsScalar c v.0)
    ∙ ap (λ r. c ∷ r) (decode-quote safe s k v.1)

pub codes-AllScalar : (s : String) → AllScalar (codes s)
codes-AllScalar String.[] = tt
codes-AllScalar (String.◌∷◌ (Char.char n p) s) = (p, codes-AllScalar s)

-- For every text and every set of characters to keep that are ASCII other than `%`, `unquote` gives
-- back what `quote` was given.
pub unquote-quote :
    (safe : Codes) (s : String)
    → all safe fits_safe ≡ true
    → unquote (quote safe (codes s)) ≡ codes s
unfolding unquote
unquote-quote safe s k = decode-quote safe (codes s) k (codes-AllScalar s)
