-- ===== src/Base64/RoundTrip.antt =====
-- Decoding what was encoded.
use testuder.Prelude.{
  ◌≡◌, ℕ, ◌+◌, ◌*◌, ◌/◌, ◌%◌, ◌<◌, refl, false, some, List, [], ◌∷◌, ◌++◌, arith, eqb, All, ◌∙◌,
}
use testuder.Codes.{Codes}
use testuder.Base64.{
  All, padding, start, encode, unpad, decode, Alphabet, sextet, six_bits, Group, take_bits, scan,
}

-- The two characters are outside of the rest of the alphabet, and `=` is in none.
abbrev pub Usable : Alphabet → Type 0
Usable a =
    (six_bits a (sextet a 62) ≡ some 62)
    × (six_bits a (sextet a 63) ≡ some 63)
    × (eqb a.c62 b'=' ≡ false)
    × (eqb a.c63 b'=' ≡ false)

six_bits-sextet : (a : Alphabet) (n : ℕ) → Usable a → n < 64 → six_bits a (sextet a n) ≡ some n
unfolding six_bits sextet
six_bits-sextet a n u h = ground arith

sextet-ne-pad : (a : Alphabet) (n : ℕ) → Usable a → n < 64 → eqb (sextet a n) b'=' ≡ false
unfolding sextet
sextet-ne-pad a n u h = ground arith

-- one character of the alphabet is read
scan-sextet :
    (a : Alphabet) (g : Group) (n : ℕ) (s : Codes) (bs : List ℕ)
    → Usable a
    → n < 64
    → scan a (take_bits g n).1 s ≡ some bs
    → scan a g (sextet a n ∷ s) ≡ some ((take_bits g n).0 ++ bs)
unfolding scan
scan-sextet a g n s bs u h k = ground (arith, six_bits-sextet a n u h, sextet-ne-pad a n u h)

-- what is left of a group before its next character
abbrev two : ℕ → Group
two l = record { place = 1; left = l; pads = 0 }

abbrev three : ℕ → Group
three l = record { place = 2; left = l; pads = 0 }

abbrev four : ℕ → Group
four l = record { place = 3; left = l; pads = 0 }

-- the last characters of a group of four
scan-two :
    (a : Alphabet) (l v : ℕ) (s : Codes) (bs : List ℕ)
    → Usable a
    → v < 64
    → scan a (three (v % 16)) s ≡ some bs
    → scan a (two l) (sextet a v ∷ s) ≡ some ((l * 4 + v / 16) ∷ bs)
unfolding take_bits
scan-two a l v s bs u h k = scan-sextet a (two l) v s bs u h k

scan-three :
    (a : Alphabet) (l v : ℕ) (s : Codes) (bs : List ℕ)
    → Usable a
    → v < 64
    → scan a (four (v % 4)) s ≡ some bs
    → scan a (three l) (sextet a v ∷ s) ≡ some ((l * 16 + v / 4) ∷ bs)
unfolding take_bits
scan-three a l v s bs u h k = scan-sextet a (three l) v s bs u h k

scan-four :
    (a : Alphabet) (l v : ℕ) (s : Codes) (bs : List ℕ)
    → Usable a
    → v < 64
    → scan a start s ≡ some bs
    → scan a (four l) (sextet a v ∷ s) ≡ some ((l * 64 + v) ∷ bs)
unfolding take_bits
scan-four a l v s bs u h k = scan-sextet a (four l) v s bs u h k

scan_one :
    (a : Alphabet) (v : ℕ) (s : Codes) (bs : List ℕ)
    → Usable a
    → v < 64
    → scan a (two v) s ≡ some bs
    → scan a start (sextet a v ∷ s) ≡ some bs
unfolding take_bits
scan_one a v s bs u h k = scan-sextet a start v s bs u h k

-- a whole group of four
scan_group :
    (a : Alphabet) (x y z : ℕ) (s : Codes) (bs : List ℕ)
    → Usable a
    → x < 256
    → y < 256
    → z < 256
    → scan a start s ≡ some bs
    → scan a start (
        sextet a (x / 4)
        ∷ sextet a (x % 4 * 16 + y / 16)
        ∷ sextet a (y % 16 * 4 + z / 64)
        ∷ sextet a (z % 64)
        ∷ s)
      ≡ some (x ∷ y ∷ z ∷ bs)
scan_group a x y z s bs u hx hy hz k =
    scan_one a (x / 4) _ _ u (omega arith) (
      scan-two a (x / 4) (x % 4 * 16 + y / 16) _ _ u (omega arith) (
        scan-three a _ (y % 16 * 4 + z / 64) _ _ u (omega arith)
          (scan-four a _ (z % 64) s bs u (omega arith) k)))
    ∙ ground arith

scan_pads :
    (a : Alphabet) (l : ℕ)
    → (scan a (three l) (b'=' ∷ b'=' ∷ []) ≡ some []) × (scan a (four l) (b'=' ∷ []) ≡ some [])
unfolding scan
scan_pads a l = (refl, refl)

decode_start :
    (a : Alphabet) (bs : List ℕ)
    → Usable a
    → All (λ b. b < 256) bs
    → scan a start (encode a bs) ≡ some bs
unfolding encode
decode_start a [] u h = unfold scan in refl
decode_start a (x ∷ []) u h =
    scan_one a (x / 4) _ _ u (omega arith)
      (scan-two a (x / 4) (x % 4 * 16) _ _ u (omega arith) (scan_pads a _).0)
    ∙ ground arith
decode_start a (x ∷ y ∷ []) u h =
    scan_one a (x / 4) _ _ u (omega arith) (
      scan-two a (x / 4) (x % 4 * 16 + y / 16) _ _ u (omega arith)
        (scan-three a _ (y % 16 * 4) _ _ u (omega arith) (scan_pads a _).1))
    ∙ ground arith
decode_start a (x ∷ y ∷ z ∷ bs) u h =
    scan_group a x y z (encode a bs) bs u h.0 h.1.0 h.1.1.0 (decode_start a bs u h.1.1.1)

-- Bytes that are encoded, in either alphabet, are decoded to themselves.
pub decode-encode :
    (a : Alphabet) (bs : List ℕ)
    → Usable a
    → All (λ b. b < 256) bs
    → decode a (encode a bs) ≡ some bs
unfolding decode
decode-encode a bs u h = decode_start a bs u h

unpad_keep : (c : ℕ) (s : Codes) → eqb c b'=' ≡ false → unpad (c ∷ s) ≡ c ∷ unpad s
unfolding unpad
unpad_keep c s h = ground arith

unpad-sextet :
    (a : Alphabet) (n : ℕ) (s : Codes)
    → Usable a
    → n < 64
    → unpad (sextet a n ∷ s) ≡ sextet a n ∷ unpad s
unpad-sextet a n s u h = unpad_keep (sextet a n) s (sextet-ne-pad a n u h)

padding_four : (c d e f : ℕ) (s : Codes) → padding (c ∷ d ∷ e ∷ f ∷ s) ≡ padding s
unfolding padding
padding_four c d e f s = ground arith

-- A text that was stripped of its padding gets the same padding back.
pub unpad-encode :
    (a : Alphabet) (bs : List ℕ)
    → Usable a
    → All (λ b. b < 256) bs
    → unpad (encode a bs) ++ padding (unpad (encode a bs)) ≡ encode a bs
unfolding encode
unpad-encode a [] u h = unfold unpad padding in refl
unpad-encode a (x ∷ []) u h =
    rw (unpad-sextet a (x / 4) _ u (omega arith), unpad-sextet a (x % 4 * 16) _ u (omega arith))
      (unfold unpad padding in refl)
unpad-encode a (x ∷ y ∷ []) u h =
    rw
      (
        unpad-sextet a (x / 4) _ u (omega arith),
        unpad-sextet a (x % 4 * 16 + y / 16) _ u (omega arith),
        unpad-sextet a (y % 16 * 4) _ u (omega arith),
      )
      (unfold unpad padding in refl)
unpad-encode a (x ∷ y ∷ z ∷ bs) u h = rw (
  unpad-sextet a (x / 4) _ u (omega arith),
  unpad-sextet a (x % 4 * 16 + y / 16) _ u (omega arith),
  unpad-sextet a (y % 16 * 4 + z / 64) _ u (omega arith),
  unpad-sextet a (z % 64) _ u (omega arith),
  padding_four,
  unpad-encode a bs u h.1.1.1,
)
