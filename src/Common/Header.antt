-- ===== src/Common/Header.antt =====
-- `http.Header` of the standard library: a map from canonical keys to lists of values, as an
-- association list. Every access makes the key canonical first, as `net/textproto` does.
use wsbalancer.Prelude.{
  ℕ, ◌+◌, ◌-◌, ◌≡◌, refl, Bool, true, false, not, ◌&&◌, ◌||◌, List, [], ◌∷◌, ◌++◌, Text, codes,
  same, same_iff, arith, leb, ◌==◌, if◌then◌else◌,
}

-- The characters of a token (RFC 7230).
is_lower : ℕ → Bool
is_lower c = leb b'a' c && leb c b'z'

is_upper : ℕ → Bool
is_upper c = leb b'A' c && leb c b'Z'

is_digit : ℕ → Bool
is_digit c = leb b'0' c && leb c b'9'

abbrev one_of : ℕ → Text → Bool
one_of c [] = false
one_of c (x ∷ xs) = (c == x) || one_of c xs

is_token_char : ℕ → Bool
unfolding is_lower is_upper is_digit
is_token_char c = is_lower c || (is_upper c || (is_digit c || one_of c (codes "!#$%&'*+-.^_`|~")))

all_token : Text → Bool
unfolding is_token_char
all_token [] = true
all_token (c ∷ s) = is_token_char c && all_token s

-- Upper case at the start and after each dash, lower case elsewhere.
capitalise : Bool → Text → Text
unfolding is_lower is_upper
capitalise up [] = []
capitalise up (c ∷ s) =
    (if up && is_lower c then c - 32 else if not up && is_upper c then c + 32 else c)
    ∷ capitalise (c == b'-') s

-- `CanonicalMIMEHeaderKey`: a key that is no token is left alone.
unfoldable pub canonical : Text → Text
unfolding all_token capitalise
canonical key = if all_token key then capitalise true key else key

abbrev pub Header : Type 0
Header = List (Text × List Text)

-- On a canonical key.
unfoldable pub lookup : Text → Header → List Text
lookup k [] = []
lookup k ((j, v) ∷ h) = if same j k then v else lookup k h

unfoldable pub remove : Text → Header → Header
remove k [] = []
remove k ((j, v) ∷ h) = let rest = remove k h in if same j k then rest else (j, v) ∷ rest

-- `h.Values(key)`
unfoldable pub values : Header → Text → List Text
values h key = lookup (canonical key) h

abbrev first : List Text → Text
first [] = []
first (v ∷ vs) = v

-- `h.Get(key)`: the empty text where there is none.
unfoldable pub get : Header → Text → Text
get h key = first (values h key)

-- `h.Del(key)`
unfoldable pub del : Header → Text → Header
del h key = remove (canonical key) h

-- `h.Set(key, value)`
unfoldable pub put : Header → Text → Text → Header
put h key value = (canonical key, value ∷ []) ∷ remove (canonical key) h

-- `h.Add(key, value)`
unfoldable pub add : Header → Text → Text → Header
add h key value = (canonical key, lookup (canonical key) h ++ value ∷ []) ∷ remove (canonical key) h

pub lookup-remove :
    (k j : Text) (h : Header) → lookup j (remove k h) ≡ (if same k j then [] else lookup j h)
unfolding lookup remove
lookup-remove k j [] = ground arith
lookup-remove k j ((i, v) ∷ h) =
    ground (arith, same_iff k j, same_iff i k, same_iff i j, lookup-remove k j h)

pub values-del :
    (h : Header) (k j : Text)
    → values (del h k) j ≡ (if same (canonical k) (canonical j) then [] else values h j)
unfolding values del
values-del h k j = lookup-remove (canonical k) (canonical j) h

pub values-put :
    (h : Header) (k v j : Text)
    → values (put h k v) j ≡ (if same (canonical k) (canonical j) then v ∷ [] else values h j)
unfolding values put lookup
values-put h k v j = ground (arith, lookup-remove (canonical k) (canonical j) h)

pub values-add :
    (h : Header) (k v j : Text)
    → values (add h k v) j
      ≡ (if same (canonical k) (canonical j) then values h j ++ v ∷ [] else values h j)
unfolding values add lookup
values-add h k v j =
    ground
      (arith, same_iff (canonical k) (canonical j), lookup-remove (canonical k) (canonical j) h)

canonical_key : canonical (codes "sec-webSocket-KEY") ≡ codes "Sec-Websocket-Key"
unfolding canonical
canonical_key = refl
