-- ===== src/In/Names.antt =====
-- `NormalizeForID` of in/common.go, with the regular expressions of in/inc_manager.go that it
-- uses, `://((.+?)(:\d+)?)(/|$)` and `[^0-9a-zA-Z]`, as matchers on code points.
pub mod Laws
use wsbalancer.Prelude.{
  ℕ, ◌≡◌, refl, Bool, true, false, ◌&&◌, ◌||◌, List, [], ◌∷◌, map, Option, none, some, Text, codes,
  leb, ◌==◌, if◌then◌else◌,
}

unfoldable pub is_digit : ℕ → Bool
is_digit c = leb b'0' c && leb c b'9'

unfoldable pub is_alphanumeric : ℕ → Bool
unfolding is_digit
is_alphanumeric c = is_digit c || ((leb b'a' c && leb c b'z') || (leb b'A' c && leb c b'Z'))

abbrev newline : ℕ
newline = 10

-- (/|$)
abbrev is_end : Text → Bool
is_end [] = true
is_end (c ∷ s) = c == b'/'

-- The longest run of digits, if the text ends behind it.
digits_to_end : Text → Option Text
digits_to_end [] = some []
digits_to_end (c ∷ s) =
    if is_digit c
    then elim (digits_to_end s) [ none ↦ none | some ds ↦ some (c ∷ ds) ]
    else if c == b'/'
    then some []
    else none

-- :\d+(/|$), a colon and at least one digit.
port_to_end : Text → Option Text
unfolding digits_to_end
port_to_end [] = none
port_to_end (c ∷ []) = none
port_to_end (c ∷ d ∷ s) =
    if c == b':' && is_digit d
    then elim (digits_to_end (d ∷ s)) [ none ↦ none | some ds ↦ some (c ∷ ds) ]
    else none

-- (:\d+)?(/|$)
tail_to_end : Text → Option Text
unfolding port_to_end
tail_to_end s = elim (port_to_end s) [ some p ↦ some p | none ↦ if is_end s then some [] else none ]

-- The rest of (.+?)(:\d+)?(/|$) behind the first character, as few characters as possible.
lazy_host : Text → Option Text
unfolding tail_to_end
lazy_host [] = tail_to_end []
lazy_host (c ∷ s) = elim (tail_to_end (c ∷ s)) [
  | some p ↦ some p
  | none ↦ if c == newline then none else elim (lazy_host s) [ none ↦ none | some h ↦ some (c ∷ h) ]
]

host_port : Text → Option Text
unfolding lazy_host
host_port [] = none
host_port (c ∷ s) =
    if c == newline then none else elim (lazy_host s) [ none ↦ none | some h ↦ some (c ∷ h) ]

-- The leftmost match of `hostPortRe`, its first group.
find_host_port : Text → Option Text
unfolding host_port
find_host_port [] = none
find_host_port (a ∷ []) = none
find_host_port (a ∷ b ∷ []) = none
find_host_port (a ∷ b ∷ c ∷ s) =
    let later = find_host_port (b ∷ c ∷ s) in
    if a == b':' && (b == b'/' && c == b'/')
    then elim (host_port s) [ some m ↦ some m | none ↦ later ]
    else later

-- `nonAlphaRe.ReplaceAllString(s, "-")`
abbrev pub hyphenate : Text → Text
hyphenate = map (λ c. if is_alphanumeric c then c else b'-')

unfoldable pub normalize_for_id : Text → Text
unfolding find_host_port
normalize_for_id addr = elim (find_host_port addr) [ none ↦ hyphenate addr | some m ↦ hyphenate m ]

with_port : normalize_for_id (codes "ws://localhost:9090/ocpp") ≡ codes "localhost-9090"
unfolding normalize_for_id is_alphanumeric
with_port = refl

listen_address : normalize_for_id (codes ":8080") ≡ codes "-8080"
unfolding normalize_for_id is_alphanumeric
listen_address = refl

not_a_port : normalize_for_id (codes "ws://a:b:1:2x/y") ≡ codes "a-b-1-2x"
unfolding normalize_for_id is_alphanumeric
not_a_port = refl
