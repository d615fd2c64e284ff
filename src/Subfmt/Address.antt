-- ===== src/Subfmt/Address.antt =====
-- The host and the port of a link are read back.
use testuder.Prelude.{◌≡◌, ◌≢◌, ℕ, refl, none, some, [], ◌∷◌, ◌++◌, arith, ◌∙◌}
use testuder.Prelude.Int.{pos}
use testuder.Codes.{Codes, count}
use testuder.Codes.Decimal.{
  decimal, number, number-decimal, decimal-AllDigits, decimal-ne-nil, is_digit, AllDigits,
}
use testuder.Codes.Lacks.{Lacks, before_last-append, after_last-append}
use testuder.Links.Tame.{Tame, separator, Tame-Lacks, Tame-space, decimal-Tame, strip_codes_none}
use testuder.Subfmt.{host_of, port_of, signed, or_443}

count-Lacks : (x : ℕ) (s : Codes) → Lacks x s → count x s ≡ 0
unfolding count
count-Lacks x [] h = refl
count-Lacks x (c ∷ s) h = ground (arith, count-Lacks x s h.1)

count-append : (x : ℕ) (s t : Codes) → Lacks x s → count x (s ++ t) ≡ count x t
unfolding count
count-append x [] t h = refl
count-append x (c ∷ s) t h = ground (arith, count-append x s t h.1)

count_one : (x : ℕ) (s t : Codes) → Lacks x s → Lacks x t → count x (s ++ x ∷ t) ≡ 1
count_one x s t hs ht =
    count-append x s (x ∷ t) hs ∙ unfold count in ground (arith, count-Lacks x t ht)

colon : (n : ℕ) → Lacks b':' (decimal n)
unfolding separator
colon n = Tame-Lacks b':' (decimal n) refl (decimal-Tame n)

pub host_of-append : (host : Codes) (n : ℕ) → Tame host → host_of (host ++ b':' ∷ decimal n) ≡ host
unfolding host_of separator
host_of-append host n h =
    rw (count_one b':' host (decimal n) (Tame-Lacks b':' host refl h) (colon n))
      (before_last-append b':' host (decimal n) (colon n))

signed_digits :
    (s : Codes)
    → AllDigits s
    → s ≢ []
    → signed s ≡ elim (number s) [ none ↦ none | some n ↦ some (pos n) ]
unfolding signed is_digit
signed_digits [] h k = absurd (k refl)
signed_digits (c ∷ s) h k = ground arith

pub port_of-append : (front : Codes) (n : ℕ) → port_of (front ++ b':' ∷ decimal n) ≡ pos n
unfolding port_of or_443
port_of-append front n = rw (
  after_last-append b':' front (decimal n) (colon n),
  strip_codes_none (decimal n) (Tame-space (decimal n) (decimal-Tame n)),
  signed_digits (decimal n) (decimal-AllDigits n) (decimal-ne-nil n),
  number-decimal n,
)
