-- ===== src/Out/Manager/Registry/Refinement.antt =====
-- The pool of out/outc_manager.go behind any sequence of calls that disable, enable and delete
-- backends, against the registry behind the same commands.
use mathlib.Core.Path.{fun_ext}
use wsbalancer.Prelude.{
  ℕ, arith, ◌≡◌, refl, sym, ap, ◌∙◌, inl, inr, List, [], ◌∷◌, none, some, Text, Option-cases,
  Returns, Returns-bind,
}
use wsbalancer.Common.{Result, no_action_reqd, failed}
use wsbalancer.Out.Manager.{Manager, find_index, disable_backend, enable_backend, delete_backend}
use wsbalancer.Out.Manager.Lookup.{Found, Found-count, find_index-Found}
use wsbalancer.Out.Manager.Invariant.{IsWellFormed}
use wsbalancer.Out.Manager.Coherence.{IsCoherent}
use wsbalancer.Out.Manager.Registry.{
  Standing, absent, enabled, disabled, standing, Command, disable, enable, promise, replay, call,
  call_all,
}
use wsbalancer.Out.Manager.Registry.Moves.{Moves, Moves-still, disable_at-Moves, enable_at-Moves}
use wsbalancer.Out.Manager.Registry.Standings.{standing-nil}
use wsbalancer.Out.Manager.Registry.Removal.{delete_enabled-Moves, delete_disabled-Moves}

module _ {C : Type 0} where
  -- How the lists of a pool hold an ID.
  data Held (id : Text) (m : Manager C) : Type 0 where
    held_disabled :
        (i : ℕ)
        → find_index m.store m.disabled_be id ≡ some i
        → standing m id ≡ disabled
        → Held id m
    held_enabled :
        (i : ℕ)
        → find_index m.store m.disabled_be id ≡ none
        → find_index m.store m.backends id ≡ some i
        → standing m id ≡ enabled
        → Held id m
    not_held :
        find_index m.store m.disabled_be id ≡ none
        → find_index m.store m.backends id ≡ none
        → standing m id ≡ absent
        → Held id m

  Held-cases : (id : Text) (m : Manager C) → Held id m
  unfolding standing
  Held-cases id m = elim (Option-cases (find_index m.store m.disabled_be id)) [
    | inr (i, e) ↦ held_disabled i e (rw (e, standing) refl)
    | inl e ↦ elim (Option-cases (find_index m.store m.backends id)) [
      | inr (i, n) ↦ held_enabled i e n (rw (e, n, standing) refl)
      | inl n ↦ not_held e n (rw (e, n, standing) refl)
    ]
  ]

  -- What is found in the one list is not found in the other.
  not_in_both :
      (id : Text) (i : ℕ) (m : Manager C)
      → Found m.store m.disabled_be id i
      → IsWellFormed m
      → IsCoherent m
      → find_index m.store m.backends id ≡ none
  not_in_both id i m f w k = elim (Option-cases (find_index m.store m.backends id)) [
    | inl e ↦ e
    | inr (j, e) ↦
        let g = find_index-Found m.store m.backends id j e in
        let one_object : f.found ≡ g.found =
          k.own_id f.found g.found (ground (arith, Found-count m.disabled_be id i f f.found))
            (ground (arith, Found-count m.backends id j g g.found)) (f.has_id ∙ sym g.has_id) in
        absurd (
          ground (
            arith,
            one_object,
            w.once f.found,
            Found-count m.disabled_be id i f f.found,
            Found-count m.backends id j g f.found,
          ))
  ]

  pub call-Moves :
      (c : Command) (id : Text) (m : Manager C)
      → IsWellFormed m
      → IsCoherent m
      → Returns (Moves c id m) (call c id m)
  unfolding call disable_backend enable_backend delete_backend find_index
  call-Moves disable [] m w k =
      Moves-still disable [] m no_action_reqd w k (rw (standing-nil m) refl)
  call-Moves enable [] m w k = Moves-still enable [] m failed w k (rw (standing-nil m) refl)
  call-Moves Command.delete [] m w k =
      Moves-still Command.delete [] m no_action_reqd w k (rw (standing-nil m) refl)
  call-Moves disable (d ∷ id) m w k = elim (Held-cases (d ∷ id) m) [
    | held_disabled i e s ↦
        rw (e, disable_backend) (Moves-still disable (d ∷ id) m no_action_reqd w k (rw (s) refl))
    | held_enabled i e n s ↦
        rw (e, n, disable_backend)
          (disable_at-Moves d id i m (find_index-Found m.store m.backends (d ∷ id) i n) s w k)
    | not_held e n s ↦
        rw (e, n, disable_backend) (Moves-still disable (d ∷ id) m no_action_reqd w k (rw (s) refl))
  ]
  call-Moves enable (d ∷ id) m w k = elim (Held-cases (d ∷ id) m) [
    | held_disabled i e s ↦
        let f = find_index-Found m.store m.disabled_be (d ∷ id) i e in
        rw (not_in_both (d ∷ id) i m f w k, e, enable_backend) (enable_at-Moves d id i m f s w k)
    | held_enabled i e n s ↦
        rw (n, enable_backend) (Moves-still enable (d ∷ id) m no_action_reqd w k (rw (s) refl))
    | not_held e n s ↦
        rw (n, e, enable_backend) (Moves-still enable (d ∷ id) m failed w k (rw (s) refl))
  ]
  call-Moves Command.delete (d ∷ id) m w k = elim (Held-cases (d ∷ id) m) [
    | held_disabled i e s ↦
        rw (e, delete_backend)
          (delete_disabled-Moves d id i m (find_index-Found m.store m.disabled_be (d ∷ id) i e) s w
            k)
    | held_enabled i e n s ↦
        rw (e, n, delete_backend)
          (delete_enabled-Moves d id i m (find_index-Found m.store m.backends (d ∷ id) i n) s w k)
    | not_held e n s ↦
        rw (e, n, delete_backend)
          (Moves-still Command.delete (d ∷ id) m no_action_reqd w k (rw (s) refl))
  ]

  -- The results of the replay, a pool whose standings are the registry behind it, and the invariants.
  abbrev Follows : List (Command × Text) → (Text → Standing) → List Result × Manager C → Type 0
  Follows calls registry t =
      IsWellFormed t.1
      × IsCoherent t.1
      × (t.0 ≡ (replay calls registry).0)
      × (standing t.1 ≡ (replay calls registry).1)

  -- On a pool where the lists partition the backends into enabled and disabled ones, and distinct
  -- backends have distinct IDs and one entry of the configuration each, every sequence of calls that
  -- disable, enable or delete a backend returns, and keeps all this. Its results, and how the pool
  -- holds every ID behind it, are those of the same commands on a map from IDs to absent, enabled or
  -- disabled.
  pub call_all-replay :
      (calls : List (Command × Text)) (m : Manager C)
      → IsWellFormed m
      → IsCoherent m
      → Returns
          (λ t.
            IsWellFormed t.1
            × IsCoherent t.1
            × (t.0 ≡ (replay calls (standing m)).0)
            × (standing t.1 ≡ (replay calls (standing m)).1))
          (call_all calls m)
  unfolding call_all
  call_all-replay [] m w k = (w, k, refl, refl)
  call_all-replay ((c, id) ∷ calls) m w k =
      Returns-bind (Moves c id m) (Follows ((c, id) ∷ calls) (standing m)) (call c id m) _
        (call-Moves c id m w k)
        (λ t h.
          Returns-bind (Follows calls (standing t.1)) (Follows ((c, id) ∷ calls) (standing m))
            (call_all calls t.1) _ (call_all-replay calls t.1 h.0 h.1)
            (λ u g.
              let agrees = fun_ext h.3 in
              (
                g.0,
                g.1,
                ap (λ x. x ∷ u.0) h.2
                    ∙ ap (◌∷◌ (promise c (standing m id)).0)
                        (g.2 ∙ ap (λ s. (replay calls s).0) agrees),
                g.3 ∙ ap (λ s. (replay calls s).1) agrees,
              )))
