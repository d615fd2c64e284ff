-- ===== src/Url.antt =====
-- `urllib.parse.quote` and `unquote`, as app/links.py and app/subfmt.py use them: UTF-8 in
-- `%XX` escapes, and back with the replacement character where the bytes are no UTF-8.
pub mod Utf8
pub mod RoundTrip
pub mod Quoted
use testuder.Prelude.{
  ◌≡◌, ◌≢◌, ◌↔◌, ◌⊎◌, inl, inr, ℕ, zero, suc, ◌+◌, ◌-◌, ◌*◌, ◌/◌, ◌%◌, ◌≤◌, ◌<◌, String, refl, sym,
  ap, Bool, true, false, ◌&&◌, ◌||◌, not, Option, none, some, List, [], ◌∷◌, ◌++◌, map, arith, ◌==◌,
  eq_iff, eq_refl, ltb, leb, eqb, if◌then◌else◌, Bool-cases, Option-cases, &&-split, length, take,
  drop, any, all, filter, find?, All, any-append, all-append, find?-sound, any-filter, All-append,
  All-filter, All-map, All-of_forall, All-mono, any-map, length-map, lower, truncate, strip, one_of,
  or_else, one_of-elim, coerce_to, lookup, insert, remove, lookup-insert, lookup-remove,
  lookup-insert_self, append, coerce_to-all, min, max, subst, ◌∙◌, append-nil, append_assoc, upper,
}
use testuder.Codes.{Codes, has}

-- the bytes of a character
unfoldable pub utf8 : ℕ → List ℕ
utf8 c =
    if ltb c 0x80
    then c ∷ []
    else if ltb c 0x800
    then (0xc0 + c / 64) ∷ (0x80 + c % 64) ∷ []
    else if ltb c 0x10000
    then (0xe0 + c / 4096) ∷ (0x80 + c / 64 % 64) ∷ (0x80 + c % 64) ∷ []
    else (0xf0 + c / 262144) ∷ (0x80 + c / 4096 % 64) ∷ (0x80 + c / 64 % 64) ∷ (0x80 + c % 64) ∷ []

-- the characters that `quote` never escapes
unfoldable pub unreserved : ℕ → Bool
unreserved c =
    (leb b'a' c && leb c b'z')
    || (leb b'A' c && leb c b'Z')
    || (leb b'0' c && leb c b'9')
    || eqb c b'_'
    || eqb c b'.'
    || eqb c b'-'
    || eqb c b'~'

unfoldable pub hex_digit : ℕ → ℕ
hex_digit d = if ltb d 10 then b'0' + d else b'A' + d - 10

-- `%XX` for each byte
unfoldable pub escape : List ℕ → Codes
unfolding hex_digit
escape [] = []
escape (b ∷ bs) = b'%' ∷ hex_digit (b / 16) ∷ hex_digit (b % 16) ∷ escape bs

unfoldable pub quote_char : Codes → ℕ → Codes
quote_char safe c = if unreserved c || has c safe then c ∷ [] else escape (utf8 c)

-- `quote(s, safe=safe)`
unfoldable pub quote : Codes → Codes → Codes
quote safe [] = []
quote safe (c ∷ s) = quote_char safe c ++ quote safe s

-- What `unquote` reads: a byte, from an escape or an ASCII character, or another character.
pub data Piece : Type 0 where
  byte : ℕ → Piece
  char : ℕ → Piece

unfoldable pub hex_value : ℕ → Option ℕ
hex_value c =
    if leb b'0' c && leb c b'9'
    then some (c - b'0')
    else if leb b'A' c && leb c b'F'
    then some (c + 10 - b'A')
    else if leb b'a' c && leb c b'f'
    then some (c + 10 - b'a')
    else none

unfoldable pub plain : ℕ → Piece
plain c = if ltb c 0x80 then byte c else char c

-- the byte of two hexadecimal digits
unfoldable pub hex_pair : Option ℕ → Option ℕ → Option ℕ
hex_pair (some a) (some b) = some (16 * a + b)
hex_pair _ _ = none

unfoldable pub pieces : Codes → List Piece
unfolding plain hex_pair hex_value
pieces [] = []
pieces (c ∷ []) = plain c ∷ []
pieces (c ∷ d ∷ []) = plain c ∷ pieces (d ∷ [])
pieces (c ∷ d ∷ e ∷ s) =
    let next = plain c ∷ pieces (d ∷ e ∷ s) in
    let rest = pieces s in
    if eqb c b'%'
    then elim (hex_pair (hex_value d) (hex_value e)) [ none ↦ next | some b ↦ byte b ∷ rest ]
    else next

-- A sequence that is open: the bytes that are missing, the bits so far, and the bounds of the next
-- byte. `missing = 0` is no sequence.
pub record Open : Type 0 where
  pub missing : ℕ
  pub bits : ℕ
  pub lo : ℕ
  pub hi : ℕ

abbrev pub closed : Open
closed = record { missing = 0; bits = 0; lo = 0; hi = 0 }

abbrev pub replacement : ℕ
replacement = 0xfffd

-- `bad` is what a broken sequence gives: the replacement character, or nothing (`"ignore"`).
module _ (bad : Codes) where
  -- A byte where no sequence is open: what it gives, and what it opens.
  unfoldable pub begin : ℕ → Codes × Open
  begin b =
      if ltb b 0x80
      then (b ∷ [], closed)
      else if ltb b 0xc2
      then (bad, closed)
      else if ltb b 0xe0
      then ([], record { missing = 1; bits = b - 0xc0; lo = 0x80; hi = 0xbf })
      else if ltb b 0xf0
      then (
        [],
        record {
          missing = 2;
          bits = b - 0xe0;
          lo = if eqb b 0xe0 then 0xa0 else 0x80;
          hi = if eqb b 0xed then 0x9f else 0xbf;
        },
      )
      else if ltb b 0xf5
      then (
        [],
        record {
          missing = 3;
          bits = b - 0xf0;
          lo = if eqb b 0xf0 then 0x90 else 0x80;
          hi = if eqb b 0xf4 then 0x8f else 0xbf;
        },
      )
      else (bad, closed)

  -- the next byte of an open sequence that fits
  unfoldable pub extend : Open → ℕ → Codes × Open
  extend o b =
      let bits' = o.bits * 64 + (b - 0x80) in
      if ltb o.missing 2
      then (bits' ∷ [], closed)
      else ([], record { missing = o.missing - 1; bits = bits'; lo = 0x80; hi = 0xbf })

  -- A sequence that breaks off gives `bad`, and the byte is read anew.
  unfoldable pub feed : Open → ℕ → Codes × Open
  unfolding begin extend
  feed o b =
      if eqb o.missing 0
      then begin b
      else if leb o.lo b && leb b o.hi
      then extend o b
      else (bad ++ (begin b).0, (begin b).1)

  unfoldable pub flush : Open → Codes
  flush o = if eqb o.missing 0 then [] else bad

  -- `bytes.decode("utf-8", errors)` of each run of bytes
  unfoldable pub decode : Open → List Piece → Codes
  unfolding feed flush
  decode o [] = flush o
  decode o (byte b ∷ ps) = (feed o b).0 ++ decode (feed o b).1 ps
  decode o (char c ∷ ps) = flush o ++ c ∷ decode closed ps

-- `unquote(s)`
unfoldable pub unquote : Codes → Codes
unfolding pieces decode
unquote s = decode (replacement ∷ []) closed (pieces s)

-- `s.encode()`
unfoldable pub encode_utf8 : Codes → List ℕ
unfolding utf8
encode_utf8 [] = []
encode_utf8 (c ∷ s) = utf8 c ++ encode_utf8 s

-- `bytes.decode("utf-8", "ignore")`
unfoldable pub decode_utf8 : List ℕ → Codes
unfolding decode
decode_utf8 bs = decode [] closed (map byte bs)
