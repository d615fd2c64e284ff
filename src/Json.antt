-- ===== src/Json.antt =====
-- `json.dumps` of a flat object of texts, with no spaces and in ASCII: what app/links.py prints.
use testuder.Prelude.{
  ℕ, ◌+◌, ◌-◌, ◌/◌, ◌%◌, String, ◌&&◌, List, [], ◌∷◌, ◌++◌, map, ltb, leb, eqb, if◌then◌else◌,
}
use testuder.Codes.{Codes, codes, join}

unfoldable pub hex_small : ℕ → ℕ
hex_small d = if ltb d 10 then b'0' + d else b'a' + d - 10

-- `\uXXXX`
unfoldable pub unicode_escape : ℕ → Codes
unfolding hex_small
unicode_escape n =
    b'\\'
    ∷ b'u'
    ∷ hex_small (n / 4096)
    ∷ hex_small (n / 256 % 16)
    ∷ hex_small (n / 16 % 16)
    ∷ hex_small (n % 16)
    ∷ []

-- One character of a text; above U+FFFF it is a pair of surrogates.
unfoldable pub json_char : ℕ → Codes
unfolding unicode_escape
json_char c =
    if eqb c b'"'
    then b'\\' ∷ b'"' ∷ []
    else if eqb c b'\\'
    then b'\\' ∷ b'\\' ∷ []
    else if eqb c 10
    then b'\\' ∷ b'n' ∷ []
    else if eqb c 13
    then b'\\' ∷ b'r' ∷ []
    else if eqb c 9
    then b'\\' ∷ b't' ∷ []
    else if eqb c 12
    then b'\\' ∷ b'f' ∷ []
    else if eqb c 8
    then b'\\' ∷ b'b' ∷ []
    else if leb 32 c && leb c 126
    then c ∷ []
    else if ltb c 0x10000
    then unicode_escape c
    else unicode_escape (0xd800 + (c - 0x10000) / 1024)
      ++ unicode_escape (0xdc00 + (c - 0x10000) % 1024)

unfoldable pub json_chars : Codes → Codes
json_chars [] = []
json_chars (c ∷ s) = json_char c ++ json_chars s

unfoldable pub json_text : Codes → Codes
unfolding json_chars
json_text s = b'"' ∷ (json_chars s ++ b'"' ∷ [])

-- `json.dumps(d, separators=(",", ":"))`
unfoldable pub dumps : List (String × String) → Codes
unfolding json_text
dumps fields =
    b'{'
    ∷ (join b',' (map (λ f. json_text (codes f.0) ++ b':' ∷ json_text (codes f.1)) fields)
        ++ b'}' ∷ [])
