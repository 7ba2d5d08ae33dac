-- ===== src/In/Admin/Routes/Ids.antt =====
-- Which endpoint and which ID a URI of in/admin.go names.
use wsbalancer.Prelude.{ℕ, ◌≡◌, refl, ◌≢◌, [], ◌∷◌, ◌++◌, some, Text, All, arith, same}
use wsbalancer.In.Admin.Routes.{
  Action, disable_backend, enable_backend, reset_backend, delete_backend, failover_backend,
  abort_session, failover_session, pause_frontend, resume_frontend, act, action_path, route,
  find_id, behind, to_line_end, nonempty, slash_id, lazy_id, verb_id, kind_slash, match_here,
  first_action,
}

-- A text of one line.
abbrev pub IsLine : Text → Type 0
IsLine = All (λ c. c ≢ 10)

to_line_end_lem : (s : Text) → IsLine s → to_line_end s ≡ s
unfolding to_line_end
to_line_end_lem [] h = refl
to_line_end_lem (c ∷ s) h = ground (arith, h.0, to_line_end_lem s h.1)

find_id-action_path :
    (a : Action) (c : ℕ) (id : Text)
    → IsLine (c ∷ id)
    → find_id (action_path a ++ c ∷ id) ≡ some (c ∷ id)
unfolding find_id match_here kind_slash behind verb_id lazy_id slash_id nonempty
find_id-action_path disable_backend c id h = rw (to_line_end_lem (c ∷ id) h, find_id) refl
find_id-action_path enable_backend c id h = rw (to_line_end_lem (c ∷ id) h, find_id) refl
find_id-action_path reset_backend c id h = rw (to_line_end_lem (c ∷ id) h, find_id) refl
find_id-action_path delete_backend c id h = rw (to_line_end_lem (c ∷ id) h, find_id) refl
find_id-action_path failover_backend c id h = rw (to_line_end_lem (c ∷ id) h, find_id) refl
find_id-action_path abort_session c id h = rw (to_line_end_lem (c ∷ id) h, find_id) refl
find_id-action_path failover_session c id h = rw (to_line_end_lem (c ∷ id) h, find_id) refl
find_id-action_path pause_frontend c id h = rw (to_line_end_lem (c ∷ id) h, find_id) refl
find_id-action_path resume_frontend c id h = rw (to_line_end_lem (c ∷ id) h, find_id) refl

route-action_path : (a : Action) (id : Text) → route (action_path a ++ id) ≡ some (act a)
unfolding route first_action behind same
route-action_path disable_backend id = refl
route-action_path enable_backend id = refl
route-action_path reset_backend id = refl
route-action_path delete_backend id = refl
route-action_path failover_backend id = refl
route-action_path abort_session id = refl
route-action_path failover_session id = refl
route-action_path pause_frontend id = refl
route-action_path resume_frontend id = refl

-- The path of an endpoint for calls on an ID, followed by an ID that is one line and not empty, is
-- read back as this endpoint and, to its last character, this ID. The ID may contain slashes, and
-- words that the pattern looks for.
pub action_path-read_back :
    (a : Action) (c : ℕ) (id : Text)
    → IsLine (c ∷ id)
    → (route (action_path a ++ c ∷ id) ≡ some (act a))
      × (find_id (action_path a ++ c ∷ id) ≡ some (c ∷ id))
action_path-read_back a c id h = (route-action_path a (c ∷ id), find_id-action_path a c id h)
