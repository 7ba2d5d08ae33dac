-- ===== src/In/Admin/Routes.antt =====
-- The endpoints that `registerHTTPHandlers` of in/admin.go hands to the `ServeMux` of the standard
-- library, and `beIDRe` of in/inc_manager.go, `(backend|frontend|session)/(.+?)/(.+)`, which takes
-- the ID out of a URI. The mux's redirects to a clean path come before.
pub mod Ids
use wsbalancer.Prelude.{
  ℕ, ◌≡◌, refl, Bool, true, false, ◌&&◌, List, [], ◌∷◌, ◌++◌, Option, none, some, Text, codes, same,
  Exec, returns, ◌==◌, if◌then◌else◌,
}

-- The calls on an ID, which end in it, and the others.
pub data Action : Type 0 where
  disable_backend enable_backend reset_backend delete_backend failover_backend : Action
  abort_session failover_session pause_frontend resume_frontend : Action

pub data Route : Type 0 where
  act : Action → Route
  list_backend add_backend backend_config list_session list_frontend : Route

abbrev pub action_path : Action → Text
action_path disable_backend = codes "/backend/disable/"
action_path enable_backend = codes "/backend/enable/"
action_path failover_backend = codes "/backend/failover/"
action_path reset_backend = codes "/backend/reset/"
action_path delete_backend = codes "/backend/delete/"
action_path abort_session = codes "/session/abort/"
action_path failover_session = codes "/session/failover/"
action_path pause_frontend = codes "/frontend/pause/"
action_path resume_frontend = codes "/frontend/resume/"

abbrev actions : List Action
actions =
    disable_backend ∷ enable_backend ∷ failover_backend ∷ reset_backend ∷ delete_backend
    ∷ abort_session ∷ failover_session ∷ pause_frontend ∷ resume_frontend ∷ []

-- What a text has behind a prefix.
unfoldable pub behind : Text → Text → Option Text
behind [] s = some s
behind (p ∷ prefix) [] = none
behind (p ∷ prefix) (c ∷ s) = let rest = behind prefix s in if p == c then rest else none

-- The endpoints that end in a slash take every path that starts so.
first_action : List Action → Text → Option Route
unfolding behind
first_action [] path = none
first_action (a ∷ rest) path = elim (behind (action_path a) path) [
  | some id ↦ some (act a)
  | none ↦ first_action rest path
]

unfoldable pub route : Text → Option Route
unfolding first_action behind
route path =
    if same path (codes "/backend/list")
    then some list_backend
    else if same path (codes "/backend/add")
    then some add_backend
    else if same path (codes "/session/list")
    then some list_session
    else if same path (codes "/frontend/list")
    then some list_frontend
    else elim (behind (codes "/backend/config/") path) [
      | some id ↦ some backend_config
      | none ↦ first_action actions path
    ]

-- (.+), up to the end or a line feed.
to_line_end : Text → Text
to_line_end [] = []
to_line_end (c ∷ s) = let rest = to_line_end s in if c == 10 then [] else c ∷ rest

nonempty : Text → Option Text
nonempty [] = none
nonempty (c ∷ s) = some (c ∷ s)

-- /(.+)
slash_id : Text → Option Text
unfolding to_line_end nonempty
slash_id [] = none
slash_id (c ∷ s) = let id = nonempty (to_line_end s) in if c == b'/' then id else none

-- The rest of (.+?)/(.+) behind the first character, as few characters as possible.
lazy_id : Text → Option Text
unfolding slash_id
lazy_id [] = none
lazy_id (c ∷ s) =
    let later = lazy_id s in
    elim (slash_id (c ∷ s)) [ some id ↦ some id | none ↦ if c == 10 then none else later ]

verb_id : Text → Option Text
unfolding lazy_id
verb_id [] = none
verb_id (c ∷ s) = if c == 10 then none else lazy_id s

-- (backend|frontend|session)/
kind_slash : Text → Option Text
unfolding behind
kind_slash s = elim (behind (codes "backend/") s) [
  | some t ↦ some t
  | none ↦ elim (behind (codes "frontend/") s) [
    | some t ↦ some t
    | none ↦ behind (codes "session/") s
  ]
]

match_here : Text → Option Text
unfolding kind_slash verb_id
match_here s = elim (kind_slash s) [ none ↦ none | some t ↦ verb_id t ]

-- The third group of the leftmost match of `beIDRe`.
unfoldable pub find_id : Text → Option Text
unfolding match_here
find_id [] = none
find_id (c ∷ s) =
    let later = find_id s in elim (match_here (c ∷ s)) [ some id ↦ some id | none ↦ later ]

with_query : find_id (codes "/backend/disable/one?x=1") ≡ some (codes "one?x=1")
unfolding find_id
with_query = refl

without_id : find_id (codes "/backend/disable/") ≡ none
unfolding find_id
without_id = refl
