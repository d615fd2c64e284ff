-- ===== src/Links/Tame.antt =====
-- The characters between the separators of a link.
use testuder.Prelude.{
  All-of_all, ◌≡◌, ℕ, String, refl, sym, ap, Bool, true, false, ◌&&◌, ◌||◌, [], ◌∷◌, map, arith,
  eqb, &&-split, all, All, All-append, All-mono, ◌∙◌,
}
use testuder.Codes.{Codes, codes, is_space, strip_codes, strip_front, strip_back, join, has}
use testuder.Codes.Decimal.{decimal, is_digit, decimal-AllDigits}
use testuder.Codes.Lacks.{Lacks}
use testuder.Url.{unreserved, quote, quote_char, unquote}
use testuder.Url.RoundTrip.{fits_safe, unquote-quote}
use testuder.Url.Quoted.{quote-quoted}
use testuder.Links.{Part, quoted, raw, rendered, Pairs, pair, query}

-- unreserved, or `%`, `/`, `,`
unfoldable pub tame : ℕ → Bool
unfolding unreserved
tame c = unreserved c || eqb c b'%' || eqb c b'/' || eqb c b','

abbrev pub Tame : Codes → Type 0
Tame s = All (λ c. tame c ≡ true) s

-- a text that `quote` and `unquote` leave alone
abbrev pub Unreserved : String → Type 0
Unreserved s = All (λ c. unreserved c ≡ true) (codes s)

unfoldable pub separator : ℕ → Bool
separator c = eqb c b'#' || eqb c b'?' || eqb c b'&' || eqb c b'=' || eqb c b'@' || eqb c b':'

-- A tame text has none of the separators of a link.
pub Tame-Lacks : (x : ℕ) (s : Codes) → separator x ≡ true → Tame s → Lacks x s
unfolding separator tame
Tame-Lacks x s k h = All-mono _ _ s (λ c t. ground arith) h

pub Tame-space : (s : Codes) → Tame s → All (λ c. is_space c ≡ false) s
unfolding is_space tame
Tame-space s h = All-mono _ _ s (λ c t. ground arith) h

pub Unreserved-Tame : (s : String) → Unreserved s → Tame (codes s)
unfolding tame
Unreserved-Tame s h = All-mono _ _ (codes s) (λ c t. ground arith) h

pub decimal-Tame : (n : ℕ) → Tame (decimal n)
unfolding tame is_digit
decimal-Tame n = All-mono _ _ (decimal n) (λ c t. ground arith) (decimal-AllDigits n)

-- the characters to keep that the links use
abbrev pub Slashes : String → Type 0
Slashes safe = all (codes safe) (λ c. eqb c b'/' || eqb c b',') ≡ true

has-Slashes :
    (c : ℕ) (safe : Codes)
    → has c safe ≡ true
    → all safe (λ x. eqb x b'/' || eqb x b',') ≡ true
    → tame c ≡ true
unfolding has tame
has-Slashes c [] h k = ground arith
has-Slashes c (x ∷ safe) h k = ground (arith, has-Slashes c safe)

pub quote-Tame : (safe s : String) → Slashes safe → Tame (quote (codes safe) (codes s))
unfolding tame
quote-Tame safe s k =
    All-mono _ _ (quote (codes safe) (codes s)) (λ c t. ground (arith, has-Slashes c (codes safe)))
      (quote-quoted (codes safe) s)

quote-unreserved : (s : Codes) → All (λ c. unreserved c ≡ true) s → quote [] s ≡ s
unfolding quote quote_char
quote-unreserved [] h = refl
quote-unreserved (c ∷ s) h = ground (arith, quote-unreserved s h.1)

pub unquote-Unreserved : (s : String) → Unreserved s → unquote (codes s) ≡ codes s
unquote-Unreserved s h = ap unquote (sym (quote-unreserved (codes s) h)) ∙ unquote-quote [] s refl

Slashes-fits_safe :
    (safe : Codes) → all safe (λ c. eqb c b'/' || eqb c b',') ≡ true → all safe fits_safe ≡ true
Slashes-fits_safe [] h = refl
Slashes-fits_safe (c ∷ safe) h = ground (arith, Slashes-fits_safe safe)

pub unquote-quote_safe :
    (safe s : String) → Slashes safe → unquote (quote (codes safe) (codes s)) ≡ codes s
unquote-quote_safe safe s k = unquote-quote (codes safe) s (Slashes-fits_safe (codes safe) k)

-- The value that a part stands for.
abbrev pub value : Part → String
value (quoted safe s) = s
value (raw s) = s

-- A part is written soundly: a raw one needs no quoting.
abbrev pub Sound : Part → Type 0
Sound (quoted safe s) = Slashes safe
Sound (raw s) = Unreserved s

pub rendered-Tame : (p : Part) → Sound p → Tame (rendered p)
rendered-Tame (quoted safe s) h = quote-Tame safe s h
rendered-Tame (raw s) h = Unreserved-Tame s h

pub unquote-rendered : (p : Part) → Sound p → unquote (rendered p) ≡ codes (value p)
unquote-rendered (quoted safe s) h = unquote-quote_safe safe s h
unquote-rendered (raw s) h = unquote-Unreserved s h

-- Keys need no quoting either.
abbrev pub SoundPairs : Pairs → Type 0
SoundPairs ps = All (λ kp. Unreserved kp.0 × Sound kp.1) ps

-- what may stand in a query
unfoldable pub query_char : ℕ → Bool
query_char c = tame c || eqb c b'&' || eqb c b'='

pair-query_char :
    (k : String) (p : Part) → Unreserved k → Sound p → All (λ c. query_char c ≡ true) (pair (k, p))
unfolding query_char tame
pair-query_char k p hk hp =
    All-append _ (codes k) (b'=' ∷ rendered p)
      (All-mono _ _ (codes k) (λ c t. ground arith) (Unreserved-Tame k hk))
      (refl, All-mono _ _ (rendered p) (λ c t. ground arith) (rendered-Tame p hp))

join-query_char :
    (ps : Pairs) → SoundPairs ps → All (λ c. query_char c ≡ true) (join b'&' (map pair ps))
unfolding join query_char tame
join-query_char [] h = tt
join-query_char ((k, p) ∷ []) h = pair-query_char k p h.0.0 h.0.1
join-query_char ((k, p) ∷ q ∷ ps) h =
    All-append _ (pair (k, p)) (b'&' ∷ join b'&' (map pair (q ∷ ps)))
      (pair-query_char k p h.0.0 h.0.1) (refl, join-query_char (q ∷ ps) h.1)

pub query-query_char : (ps : Pairs) → SoundPairs ps → All (λ c. query_char c ≡ true) (query ps)
unfolding query
query-query_char ps h = join-query_char ps h

pub query-Lacks : (ps : Pairs) → SoundPairs ps → Lacks b'#' (query ps)
unfolding query_char tame
query-Lacks ps h = All-mono _ _ (query ps) (λ c t. ground arith) (query-query_char ps h)

pub query-space : (ps : Pairs) → SoundPairs ps → All (λ c. is_space c ≡ false) (query ps)
unfolding query_char tame is_space
query-space ps h = All-mono _ _ (query ps) (λ c t. ground arith) (query-query_char ps h)

strip_back_none : (s : Codes) → All (λ c. is_space c ≡ false) s → strip_back s ≡ s
unfolding strip_back
strip_back_none [] h = refl
strip_back_none (c ∷ s) h = ground (arith, strip_back_none s h.1)

strip_front_none : (s : Codes) → All (λ c. is_space c ≡ false) s → strip_front s ≡ s
unfolding strip_front
strip_front_none [] h = refl
strip_front_none (c ∷ s) h = ground arith

-- A text with no spaces is stripped to itself.
pub strip_codes_none : (s : Codes) → All (λ c. is_space c ≡ false) s → strip_codes s ≡ s
unfolding strip_codes
strip_codes_none s h = rw (strip_back_none s h) (strip_front_none s h)

-- The same as tests.
abbrev pub is_unreserved : String → Bool
is_unreserved s = all (codes s) unreserved

pub Unreserved-of : (s : String) → is_unreserved s ≡ true → Unreserved s
Unreserved-of s h = All-of_all unreserved (codes s) h

abbrev pub is_sound : Part → Bool
is_sound (quoted safe s) = all (codes safe) (λ c. eqb c b'/' || eqb c b',')
is_sound (raw s) = is_unreserved s

Sound-of : (p : Part) → is_sound p ≡ true → Sound p
Sound-of (quoted safe s) h = h
Sound-of (raw s) h = Unreserved-of s h

abbrev pub sound_pairs : Pairs → Bool
sound_pairs [] = true
sound_pairs ((k, p) ∷ ps) = is_unreserved k && (is_sound p && sound_pairs ps)

pub SoundPairs-of : (ps : Pairs) → sound_pairs ps ≡ true → SoundPairs ps
SoundPairs-of [] h = tt
SoundPairs-of ((k, p) ∷ ps) h =
    let one = &&-split (is_unreserved k) (is_sound p && sound_pairs ps) h in
    let two = &&-split (is_sound p) (sound_pairs ps) one.1 in
    ((Unreserved-of k one.0, Sound-of p two.0), SoundPairs-of ps two.1)
