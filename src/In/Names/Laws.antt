-- ===== src/In/Names/Laws.antt =====
-- What an ID looks like, and which part of an address it keeps.
use wsbalancer.Prelude.{
  ℕ, ◌≤◌, none, false, ap2, ◌≡◌, refl, ◌⊎◌, inl, inr, ◌≢◌, [], ◌∷◌, ◌++◌, some, Text, codes, All,
  arith, ◌==◌, if◌then◌else◌, Option-cases, ◌∙◌,
}
use wsbalancer.In.Names.{
  is_digit, is_alphanumeric, newline, digits_to_end, port_to_end, tail_to_end, lazy_host, host_port,
  find_host_port, hyphenate, normalize_for_id,
}

-- A digit, a letter or a hyphen.
abbrev pub IsIdChar : ℕ → Type 0
IsIdChar c =
    ((b'0' ≤ c) × (c ≤ b'9'))
    ⊎ (((b'a' ≤ c) × (c ≤ b'z')) ⊎ (((b'A' ≤ c) × (c ≤ b'Z')) ⊎ (c ≡ b'-')))

replaced-IsIdChar : (c : ℕ) → IsIdChar (if is_alphanumeric c then c else b'-')
unfolding is_alphanumeric is_digit
replaced-IsIdChar c = ground arith

hyphenate-IsIdChar : (s : Text) → All IsIdChar (hyphenate s)
hyphenate-IsIdChar [] = tt
hyphenate-IsIdChar (c ∷ s) = (replaced-IsIdChar c, hyphenate-IsIdChar s)

replaced-same : (c : ℕ) → IsIdChar c → (if is_alphanumeric c then c else b'-') ≡ c
unfolding is_alphanumeric is_digit
replaced-same c h = ground (arith, h)

hyphenate-same : (s : Text) → All IsIdChar s → hyphenate s ≡ s
hyphenate-same [] h = refl
hyphenate-same (c ∷ s) h = ap2 (λ x xs. x ∷ xs) (replaced-same c h.0) (hyphenate-same s h.1)

no_colon : (c : ℕ) → IsIdChar c → (c == b':') ≡ false
no_colon c h = ground (arith, h)

find_host_port-none : (s : Text) → All IsIdChar s → find_host_port s ≡ none
unfolding find_host_port
find_host_port-none [] h = refl
find_host_port-none (a ∷ []) h = refl
find_host_port-none (a ∷ b ∷ []) h = refl
find_host_port-none (a ∷ b ∷ c ∷ s) h = rw (no_colon a h.0) (find_host_port-none (b ∷ c ∷ s) h.1)

-- A text of digits, letters and hyphens is its own ID.
normalize-same : (s : Text) → All IsIdChar s → normalize_for_id s ≡ s
unfolding normalize_for_id
normalize-same s h = rw (find_host_port-none s h, normalize_for_id) (hyphenate-same s h)

normalize-chars : (addr : Text) → All IsIdChar (normalize_for_id addr)
unfolding normalize_for_id
normalize-chars addr = elim (Option-cases (find_host_port addr)) [
  | inl e ↦ rw (e, normalize_for_id) (hyphenate-IsIdChar addr)
  | inr (m, e) ↦ rw (e, normalize_for_id) (hyphenate-IsIdChar m)
]

-- Every character of an ID is a digit from 0 to 9, a letter from a to z or A to Z, or a hyphen; and an
-- ID is its own ID.
pub normalize_for_id-IsIdChar :
    (addr : Text)
    → All IsIdChar (normalize_for_id addr)
      × (normalize_for_id (normalize_for_id addr) ≡ normalize_for_id addr)
normalize_for_id-IsIdChar addr =
    let chars = normalize-chars addr in (chars, normalize-same (normalize_for_id addr) chars)

-- A plain description of the part of an address that the pattern captures.
abbrev pub until_slash : Text → Text
until_slash [] = []
until_slash (c ∷ s) = let rest = until_slash s in if c == b'/' then [] else c ∷ rest

digits_to_end-until_slash : (s ds : Text) → digits_to_end s ≡ some ds → ds ≡ until_slash s
unfolding digits_to_end is_digit
digits_to_end-until_slash [] ds e = ground arith
digits_to_end-until_slash (c ∷ s) ds e = elim (Option-cases (digits_to_end s)) [
  | inl n ↦ ground arith
  | inr (ds', n) ↦ ground (arith, digits_to_end-until_slash s ds' n)
]

port_to_end-until_slash : (s p : Text) → port_to_end s ≡ some p → p ≡ until_slash s
unfolding port_to_end is_digit
port_to_end-until_slash [] p e = cc
port_to_end-until_slash (c ∷ []) p e = cc
port_to_end-until_slash (c ∷ d ∷ s) p e = elim (Option-cases (digits_to_end (d ∷ s))) [
  | inl n ↦ ground arith
  | inr (ds, n) ↦ ground (arith, digits_to_end-until_slash (d ∷ s) ds n)
]

tail_to_end-until_slash : (s p : Text) → tail_to_end s ≡ some p → p ≡ until_slash s
unfolding tail_to_end
tail_to_end-until_slash [] p e = ground (arith, port_to_end-until_slash [] p)
tail_to_end-until_slash (c ∷ s) p e = elim (Option-cases (port_to_end (c ∷ s))) [
  | inl n ↦ ground arith
  | inr (q, n) ↦ ground (arith, port_to_end-until_slash (c ∷ s) q n)
]

abbrev pub HasNoNewline : Text → Type 0
HasNoNewline = All (λ c. c ≢ newline)

lazy_host-until_slash : (s : Text) → HasNoNewline s → lazy_host s ≡ some (until_slash s)
unfolding lazy_host
lazy_host-until_slash [] h = refl
lazy_host-until_slash (c ∷ s) h = elim (Option-cases (tail_to_end (c ∷ s))) [
  | inl n ↦ ground (arith, lazy_host-until_slash s h.1)
  | inr (p, n) ↦ ground (arith, tail_to_end-until_slash (c ∷ s) p n)
]

host_port-until_slash :
    (c : ℕ) (s : Text) → HasNoNewline (c ∷ s) → host_port (c ∷ s) ≡ some (c ∷ until_slash s)
unfolding host_port
host_port-until_slash c s h = ground (arith, lazy_host-until_slash s h.1)

skip_one :
    (a b c : ℕ) (s : Text) → a ≢ b':' → find_host_port (a ∷ b ∷ c ∷ s) ≡ find_host_port (b ∷ c ∷ s)
unfolding find_host_port
skip_one a b c s h = ground arith

find_here :
    (c : ℕ) (s : Text)
    → HasNoNewline (c ∷ s)
    → find_host_port (codes "://" ++ c ∷ s) ≡ some (c ∷ until_slash s)
unfolding find_host_port
find_here c s h = rw (host_port-until_slash c s h, find_host_port)

abbrev pub HasNoColon : Text → Type 0
HasNoColon = All (λ c. c ≢ b':')

find_host_port_lem :
    (scheme : Text) (c : ℕ) (s : Text)
    → HasNoColon scheme
    → HasNoNewline (c ∷ s)
    → find_host_port (scheme ++ codes "://" ++ c ∷ s) ≡ some (c ∷ until_slash s)
find_host_port_lem [] c s k h = find_here c s h
find_host_port_lem (a ∷ []) c s k h = skip_one a b':' b'/' _ k.0 ∙ find_here c s h
find_host_port_lem (a ∷ b ∷ []) c s k h =
    skip_one a b b':' _ k.0 ∙ find_host_port_lem (b ∷ []) c s k.1 h
find_host_port_lem (a ∷ b ∷ d ∷ r) c s k h =
    skip_one a b d _ k.0 ∙ find_host_port_lem (b ∷ d ∷ r) c s k.1 h

-- The ID of an address with a scheme and no newline is its host and port, up to the first slash
-- behind the host's first character, with a hyphen in place of each other character.
pub normalize_for_id_lem :
    (scheme : Text) (c : ℕ) (s : Text)
    → HasNoColon scheme
    → HasNoNewline (c ∷ s)
    → normalize_for_id (scheme ++ codes "://" ++ c ∷ s) ≡ hyphenate (c ∷ until_slash s)
unfolding normalize_for_id
normalize_for_id_lem scheme c s k h = rw (find_host_port_lem scheme c s k h, normalize_for_id)
