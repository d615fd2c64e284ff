-- ===== src/Url/Utf8.antt =====
-- A character survives its UTF-8 bytes and their escapes.
use testuder.Prelude.{
  ◌≡◌, ℕ, suc, ◌+◌, ◌-◌, ◌*◌, ◌/◌, ◌%◌, ◌≤◌, ◌<◌, refl, ap, true, false, some, List, [], ◌∷◌, ◌++◌,
  arith, ltb, eqb, if◌then◌else◌, All, ◌∙◌,
}
use Prim.Native.Char.{IsScalar}
use testuder.Codes.{Codes}
use testuder.Url.{
  utf8, hex_digit, escape, Piece, byte, hex_value, plain, pieces, closed, begin, extend, feed,
  decode,
}

abbrev pub AllScalar : Codes → Type 0
AllScalar s = All (λ c. IsScalar c) s

hex_value-hex_digit : (d : ℕ) → d < 16 → hex_value (hex_digit d) ≡ some d
unfolding hex_value hex_digit
hex_value-hex_digit d h = ground arith

pieces-escape :
    (b : ℕ) (s : Codes)
    → b < 256
    → pieces (b'%' ∷ hex_digit (b / 16) ∷ hex_digit (b % 16) ∷ s) ≡ byte b ∷ pieces s
unfolding pieces
pieces-escape b s h = ground (arith, hex_value-hex_digit (b / 16), hex_value-hex_digit (b % 16))

unfoldable pub bytes : List ℕ → List Piece → List Piece
bytes [] ps = ps
bytes (b ∷ bs) ps = byte b ∷ bytes bs ps

pub pieces-escapes :
    (bs : List ℕ) (s : Codes)
    → All (λ b. b < 256) bs
    → pieces (escape bs ++ s) ≡ bytes bs (pieces s)
unfolding escape bytes
pieces-escapes [] s h = refl
pieces-escapes (b ∷ bs) s h =
    pieces-escape b (escape bs ++ s) h.0 ∙ ap (λ r. byte b ∷ r) (pieces-escapes bs s h.1)

-- a scalar value, in the order of the numbers
abbrev pub Scalar : ℕ → Type 0
Scalar c = (c < 0x110000) × (0xd7ff < c → 0xdfff < c)

pub Scalar-of_IsScalar : (c : ℕ) → IsScalar c → Scalar c
Scalar-of_IsScalar c h = ground arith

pub utf8-lt : (c : ℕ) → Scalar c → All (λ b. b < 256) (utf8 c)
unfolding utf8
utf8-lt c h = ground arith

pub pieces_plain :
    (c : ℕ) (s : Codes)
    → ltb c 0x80 ≡ true
    → eqb c b'%' ≡ false
    → pieces (c ∷ s) ≡ byte c ∷ pieces s
unfolding pieces plain
pieces_plain c [] h k = ground arith
pieces_plain c (d ∷ []) h k = ground arith
pieces_plain c (d ∷ e ∷ s) h k = ground arith

decode_one :
    (bad : Codes) (c : ℕ) (ps : List Piece)
    → c < 0x80
    → decode bad closed (byte c ∷ ps) ≡ c ∷ decode bad closed ps
unfolding decode feed begin
decode_one bad c ps h = ground arith

decode_two :
    (bad : Codes) (c : ℕ) (ps : List Piece)
    → 0x80 ≤ c
    → c < 0x800
    → decode bad closed (byte (0xc0 + c / 64) ∷ byte (0x80 + c % 64) ∷ ps)
      ≡ c ∷ decode bad closed ps
unfolding decode feed begin extend
decode_two bad c ps h k = ground arith

decode_three :
    (bad : Codes) (c : ℕ) (ps : List Piece)
    → 0x800 ≤ c
    → c < 0x10000
    → Scalar c
    → decode bad closed
        (byte (0xe0 + c / 4096) ∷ byte (0x80 + c / 64 % 64) ∷ byte (0x80 + c % 64) ∷ ps)
      ≡ c ∷ decode bad closed ps
unfolding decode feed begin extend
decode_three bad c ps h k s = ground arith

decode_next :
    (bad : Codes) (m bits lo hi b : ℕ) (ps : List Piece)
    → lo ≤ b
    → b ≤ hi
    → decode bad (record { missing = suc (suc m); bits = bits; lo = lo; hi = hi }) (byte b ∷ ps)
      ≡ decode bad
          (record { missing = suc m; bits = bits * 64 + (b - 0x80); lo = 0x80; hi = 0xbf })
          ps
unfolding decode feed extend
decode_next bad m bits lo hi b ps h k = ground arith

decode_last :
    (bad : Codes) (bits lo hi b : ℕ) (ps : List Piece)
    → lo ≤ b
    → b ≤ hi
    → decode bad (record { missing = 1; bits = bits; lo = lo; hi = hi }) (byte b ∷ ps)
      ≡ (bits * 64 + (b - 0x80)) ∷ decode bad closed ps
unfolding decode feed extend
decode_last bad bits lo hi b ps h k = ground arith

decode_lead :
    (bad : Codes) (b : ℕ) (ps : List Piece)
    → 0xf0 ≤ b
    → b < 0xf5
    → decode bad closed (byte b ∷ ps)
      ≡ decode bad
          (record {
            missing = 3;
            bits = b - 0xf0;
            lo = if eqb b 0xf0 then 0x90 else 0x80;
            hi = if eqb b 0xf4 then 0x8f else 0xbf;
          })
          ps
unfolding decode feed begin
decode_lead bad b ps h k = ground arith

four_bits :
    (c : ℕ)
    → 0x10000 ≤ c
    → c < 0x110000
    → (((0xf0 + c / 262144 - 0xf0) * 64 + (0x80 + c / 4096 % 64 - 0x80)) * 64
            + (0x80 + c / 64 % 64 - 0x80))
          * 64
        + (0x80 + c % 64 - 0x80)
      ≡ c
four_bits c h k = omega arith

decode_four :
    (bad : Codes) (c : ℕ) (ps : List Piece)
    → 0x10000 ≤ c
    → c < 0x110000
    → decode bad closed (
        byte (0xf0 + c / 262144)
        ∷ byte (0x80 + c / 4096 % 64)
        ∷ byte (0x80 + c / 64 % 64)
        ∷ byte (0x80 + c % 64)
        ∷ ps)
      ≡ c ∷ decode bad closed ps
decode_four bad c ps h k =
    decode_lead bad (0xf0 + c / 262144) _ (omega arith) (omega arith)
    ∙ decode_next bad 1 _ _ _ (0x80 + c / 4096 % 64) _ (ground arith) (ground arith)
    ∙ decode_next bad 0 _ _ _ (0x80 + c / 64 % 64) _ (omega arith) (omega arith)
    ∙ decode_last bad _ _ _ (0x80 + c % 64) ps (omega arith) (omega arith)
    ∙ ap (λ n. n ∷ decode bad closed ps) (four_bits c h k)

-- The bytes of a character are read back as the character.
pub decode-utf8 :
    (bad : Codes) (c : ℕ) (ps : List Piece)
    → Scalar c
    → decode bad closed (bytes (utf8 c) ps) ≡ c ∷ decode bad closed ps
unfolding utf8 bytes
decode-utf8 bad c ps h =
    ground
      (arith, decode_one bad c ps, decode_two bad c ps, decode_three bad c ps, decode_four bad c ps)
