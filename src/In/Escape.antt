-- ===== src/In/Escape.antt =====
-- `jsonEscape` of in/common.go: `json.Marshal` of a string, without the quotes around it. A text is a
-- list of code points, so the replacement of bytes that are not UTF-8 has no place here.
pub mod Decoding
use wsbalancer.Prelude.{
  ℕ, ◌+◌, ◌-◌, ◌/◌, ◌%◌, ◌≡◌, refl, Bool, ◌||◌, List, [], ◌∷◌, ◌++◌, Text, codes, ltb, ◌==◌,
  if◌then◌else◌,
}

abbrev pub backslash : ℕ
backslash = 92

abbrev pub quote : ℕ
quote = 34

unfoldable pub hex_digit : ℕ → ℕ
hex_digit d = if ltb d 10 then b'0' + d else b'a' + d - 10

-- A control character, or one that HTML reads.
abbrev pub is_unsafe : ℕ → Bool
is_unsafe c = ltb c 32 || (c == b'<' || (c == b'>' || c == b'&'))

-- The line separators U+2028 and U+2029.
abbrev pub is_separator : ℕ → Bool
is_separator c = c == 8232 || c == 8233

unfoldable pub escape_char : ℕ → Text
unfolding hex_digit
escape_char c =
    if c == quote || c == backslash
    then backslash ∷ c ∷ []
    else if c == 10
    then codes "\\n"
    else if c == 13
    then codes "\\r"
    else if c == 9
    then codes "\\t"
    else if is_unsafe c
    then codes "\\u00" ++ hex_digit (c / 16) ∷ hex_digit (c % 16) ∷ []
    else if is_separator c
    then codes "\\u202" ++ hex_digit (c % 16) ∷ []
    else c ∷ []

unfoldable pub json_escape : Text → Text
unfolding escape_char
json_escape [] = []
json_escape (c ∷ s) = escape_char c ++ json_escape s

with_quotes : json_escape (codes "a\"b<\t\\") ≡ codes "a\\\"b\\u003c\\t\\\\"
unfolding json_escape
with_quotes = refl
