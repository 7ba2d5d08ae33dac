-- ===== src/In/Escape/Decoding.antt =====
-- What a reader of JSON makes of the characters of a string (RFC 8259), and that it gets back what
-- `jsonEscape` of in/common.go was given.
use wsbalancer.Prelude.{
  ℕ, zero, suc, ◌+◌, ◌*◌, ◌-◌, ◌/◌, ◌%◌, ◌<◌, ◌≡◌, refl, ◌∙◌, false, ◌||◌, ◌&&◌, [], ◌∷◌, ◌++◌,
  Text, Option, none, some, leb, ltb, ◌==◌, if◌then◌else◌, arith, Bool-cases, inl, inr,
}
use wsbalancer.In.Escape.{
  backslash, quote, hex_digit, escape_char, is_unsafe, is_separator, json_escape,
}

-- Between characters, behind a backslash, or with a number of hexadecimal digits to come behind the
-- next, and the value of the ones that were read.
pub data Mode : Type 0 where
  plain escaped : Mode
  hex : ℕ → ℕ → Mode

abbrev pub hex_value : ℕ → Option ℕ
hex_value c =
    if leb b'0' c && leb c b'9'
    then some (c - b'0')
    else if leb b'a' c && leb c b'f'
    then some (c - b'a' + 10)
    else if leb b'A' c && leb c b'F'
    then some (c - b'A' + 10)
    else none

-- The character that follows a backslash, but for `u`.
abbrev pub short_escape : ℕ → Option ℕ
short_escape c =
    if c == quote || (c == backslash || c == b'/')
    then some c
    else if c == b'b'
    then some 8
    else if c == b'f'
    then some 12
    else if c == b'n'
    then some 10
    else if c == b'r'
    then some 13
    else if c == b't'
    then some 9
    else none

-- One character read: the mode behind it, and the character that is complete.
unfoldable pub read_char : Mode → ℕ → Option (Mode × Option ℕ)
read_char plain c =
    if c == quote || ltb c 32
    then none
    else if c == backslash
    then some (escaped, none)
    else some (plain, some c)
read_char escaped c =
    if c == b'u'
    then some (hex 3 0, none)
    else elim (short_escape c) [ none ↦ none | some d ↦ some (plain, some d) ]
read_char (hex n v) c = elim (hex_value c) [
  | none ↦ none
  | some h ↦ elim n [
    | zero ↦ some (plain, some (v * 16 + h))
    | suc k ↦ some (hex k (v * 16 + h), none)
  ]
]

abbrev emit : Option ℕ → Option Text → Option Text
emit none t = t
emit (some c) none = none
emit (some c) (some t) = some (c ∷ t)

-- The string whose characters these are, where they stand between the quotes of a JSON string.
unfoldable pub decode : Mode → Text → Option Text
unfolding read_char
decode plain [] = some []
decode escaped [] = none
decode (hex n v) [] = none
decode mode (c ∷ s) = elim (read_char mode c) [
  | none ↦ none
  | some (mode', out) ↦ emit out (decode mode' s)
]

hex_value-hex_digit : (d : ℕ) → d < 16 → hex_value (hex_digit d) ≡ some d
unfolding hex_digit
hex_value-hex_digit d h = ground (arith)

-- Four hexadecimal digits.
decode-hex :
    (a b c d : ℕ) (s : Text)
    → a < 16
    → b < 16
    → c < 16
    → d < 16
    → decode plain (backslash ∷ b'u' ∷ hex_digit a ∷ hex_digit b ∷ hex_digit c ∷ hex_digit d ∷ s)
      ≡ emit (some ((((0 * 16 + a) * 16 + b) * 16 + c) * 16 + d)) (decode plain s)
unfolding decode
decode-hex a b c d s ha hb hc hd =
    rw
      (
        hex_value-hex_digit a ha,
        hex_value-hex_digit b hb,
        hex_value-hex_digit c hc,
        hex_value-hex_digit d hd,
      )
      refl

read_plain :
    (c : ℕ)
    → (c == quote || c == backslash) ≡ false
    → is_unsafe c ≡ false
    → read_char plain c ≡ some (plain, some c)
unfolding read_char
read_plain c h g = ground arith

-- A character that stands for itself.
decode-plain :
    (c : ℕ) (s : Text)
    → (c == quote || c == backslash) ≡ false
    → is_unsafe c ≡ false
    → decode plain (c ∷ s) ≡ emit (some c) (decode plain s)
unfolding decode
decode-plain c s h g = rw (read_plain c h g, decode) refl

-- The three forms in which a character is written.
data Written (c : ℕ) : Type 0 where
  bare :
      (c == quote || c == backslash) ≡ false
      → is_unsafe c ≡ false
      → escape_char c ≡ c ∷ []
      → Written c
  short :
      (e : ℕ)
      → read_char escaped e ≡ some (plain, some c)
      → escape_char c ≡ backslash ∷ e ∷ []
      → Written c
  four :
      (h i j k : ℕ)
      → (h < 16) × (i < 16) × (j < 16) × (k < 16)
      → (((0 * 16 + h) * 16 + i) * 16 + j) * 16 + k ≡ c
      → escape_char c
        ≡ backslash ∷ b'u' ∷ hex_digit h ∷ hex_digit i ∷ hex_digit j ∷ hex_digit k ∷ []
      → Written c

Written-cases : (c : ℕ) → Written c
unfolding escape_char read_char
Written-cases c = elim (Bool-cases (c == quote || c == backslash)) [
  | inl h ↦ short c (ground arith) (rw (h) refl)
  | inr h ↦ elim (Bool-cases (c == 10)) [
    | inl n ↦ short b'n' (ground arith) (rw (h, n) refl)
    | inr n ↦ elim (Bool-cases (c == 13)) [
      | inl r ↦ short b'r' (ground arith) (rw (h, n, r) refl)
      | inr r ↦ elim (Bool-cases (c == 9)) [
        | inl t ↦ short b't' (ground arith) (rw (h, n, r, t) refl)
        | inr t ↦ elim (Bool-cases (is_unsafe c)) [
          | inl u ↦
              four 0 0 (c / 16) (c % 16) (ground arith) (ground arith) (rw (h, n, r, t, u) refl)
          | inr u ↦ elim (Bool-cases (is_separator c)) [
            | inl w ↦ four 2 0 2 (c % 16) (ground arith) (ground arith) (rw (h, n, r, t, u, w) refl)
            | inr w ↦ bare h u (rw (h, n, r, t, u, w) refl)
          ]
        ]
      ]
    ]
  ]
]

decode-short :
    (e c : ℕ) (s : Text)
    → read_char escaped e ≡ some (plain, some c)
    → decode plain (backslash ∷ e ∷ s) ≡ emit (some c) (decode plain s)
unfolding decode
decode-short e c s h = rw (h, decode) refl

decode-escape_char :
    (c : ℕ) (s : Text) → decode plain (escape_char c ++ s) ≡ emit (some c) (decode plain s)
decode-escape_char c s = elim (Written-cases c) [
  | bare h u e ↦ rw (e) (decode-plain c s h u)
  | short d h e ↦ rw (e) (decode-short d c s h)
  | four h i j k b v e ↦ rw (e) (decode-hex h i j k s b.0 b.1 b.2 b.3 ∙ rw (v) refl)
]

-- A reader of JSON gets back from `jsonEscape` what it was given, for every text of code points.
pub decode-json_escape : (s : Text) → decode plain (json_escape s) ≡ some s
unfolding json_escape decode
decode-json_escape [] = refl
decode-json_escape (c ∷ s) = decode-escape_char c (json_escape s) ∙ rw (decode-json_escape s) refl
