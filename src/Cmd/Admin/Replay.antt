-- ===== src/Cmd/Admin/Replay.antt =====
-- The administrative requests as commands on a registry of the backends.
use wsbalancer.Prelude.{
  ℕ, ◌≡◌, refl, ◌≢◌, ap, sym, ◌∙◌, List, [], ◌∷◌, ◌++◌, map, Option, some, Text, same, All, returns,
  arith, ℤ, Returns, Returns-bind, Returns-value,
}
use mathlib.Core.List.{append-nil, append_assoc}
use mathlib.Core.Path.{fun_ext}
use wsbalancer.Common.{Result}
use wsbalancer.In.Names.Laws.{IsIdChar}
use wsbalancer.In.Inc.{Socket}
use wsbalancer.In.Sessions.{Backends}
use wsbalancer.In.Admin.{System}
use wsbalancer.In.Admin.Replies.{Writer}
use wsbalancer.In.Admin.Routes.{act, disable_backend, enable_backend, delete_backend}
use wsbalancer.In.Admin.Routes.Ids.{IsLine, action_path-read_back}
use wsbalancer.In.Admin.Posted.{
  serve_lem, answer, disable_backend_handler_lem, enable_backend_handler_lem,
  delete_backend_handler_lem,
}
use wsbalancer.In.Admin.Actions.{serve, handle, handle_action}
use wsbalancer.Out.Backend.{Circuit}
use wsbalancer.Out.Manager.{Manager, NewBackendDef}
use wsbalancer.Out.Manager.Listing.{administrator}
use wsbalancer.Out.Manager.Invariant.{IsWellFormed}
use wsbalancer.Out.Manager.Coherence.{IsCoherent}
use wsbalancer.Out.Manager.Registry.{standing, Command, disable, enable, promise, replay, call}
use wsbalancer.Out.Manager.Registry.Moves.{Moves}
use wsbalancer.Out.Manager.Registry.Refinement.{call-Moves}
use wsbalancer.Cmd.Admin.{request, aborted, deletions, serve_all}

-- The ID is not empty, and of letters, digits and hyphens, as the IDs of `NormalizeForID` are. It
-- stands in a URL as it is, so that the path of a request and its URI are the same.
abbrev pub IsId : Text → Type 0
IsId id = (id ≢ []) × All IsIdChar id

chars-IsLine : (id : Text) → All IsIdChar id → IsLine id
chars-IsLine [] h = tt
chars-IsLine (c ∷ id) h = (ground (arith, h.0), chars-IsLine id h.1)

module _ {V C K B W : Type 0} where
  -- What the requests leave: the answers of the replay, a pool whose standings are the registry
  -- behind it, the sessions to abort, and the rest as it was.
  abbrev pub Replayed :
      List (Command × Text)
      → System K B W (V × Manager C)
      → List Writer × System K B W (V × Manager C)
      → Type 0
  Replayed calls sys t =
      IsWellFormed t.1.backends.1
      × IsCoherent t.1.backends.1
      × (t.0 ≡ map answer (replay calls (standing sys.backends.1)).0)
      × (standing t.1.backends.1 ≡ (replay calls (standing sys.backends.1)).1)
      × (t.1.aborting ≡ sys.aborting ++ deletions calls (standing sys.backends.1))
      × (t.1.manager ≡ sys.manager)

  Replayed-cons :
      (c : Command) (id : Text) (calls : List (Command × Text)) (sys : System K B W (V × Manager C))
      (t : Result × Manager C)
      → Moves c id sys.backends.1 t
      → (u : List Writer × System K B W (V × Manager C))
      → Replayed calls
          (record sys {
            backends = (sys.backends.0, t.1);
            aborting = sys.aborting ++ aborted c id t.0;
          })
          u
      → Replayed ((c, id) ∷ calls) sys (answer t.0 ∷ u.0, u.1)
  Replayed-cons c id calls sys t moved u h =
      let registry = standing sys.backends.1 in
      let agrees = fun_ext moved.3 in
      (
        h.0,
        h.1,
        ap (λ res. answer res ∷ u.0) moved.2
            ∙ ap (◌∷◌ (answer (promise c (registry id)).0))
                (h.2 ∙ ap (λ s. map answer (replay calls s).0) agrees),
        h.3 ∙ ap (λ s. (replay calls s).1) agrees,
        h.4
            ∙ append_assoc sys.aborting (aborted c id t.0) (deletions calls (standing t.1))
            ∙ ap (λ res. sys.aborting ++ (aborted c id res ++ deletions calls (standing t.1)))
                moved.2
            ∙ ap
                (λ s.
                  sys.aborting ++ (aborted c id (promise c (registry id)).0 ++ deletions calls s))
                agrees,
        h.5,
      )

module _ {V C : Type 0} (breaker : Circuit C V) (unmarshal : List ℕ → Option NewBackendDef)
    (time_parse : Text → Option ℤ) (marshal : NewBackendDef → Text) (duration_text : ℤ → Text) where
  module _ {K B W : Type 0} (ws : Socket K) (backends : Backends B K W) where
    -- A request served: the answer that tells the result of the call, and the pool behind the call.
    serve-request :
        (c : Command) (d : ℕ) (id : Text) (sys : System K B W (V × Manager C))
        (t : Result × Manager C)
        → IsLine (d ∷ id)
        → call c (d ∷ id) sys.backends.1 ≡ returns t
        → serve ws backends
            (some (administrator breaker unmarshal time_parse marshal duration_text))
            (request (c, d ∷ id))
            sys
          ≡ returns (
            answer t.0,
            record sys {
              backends = (sys.backends.0, t.1);
              aborting = sys.aborting ++ aborted c (d ∷ id) t.0;
            },
          )
    unfolding handle handle_action administrator call same
    serve-request disable d id sys t line e =
        let read = action_path-read_back disable_backend d id line in
        let pool = administrator breaker unmarshal time_parse marshal duration_text in
        let adm = some pool in
        let r = request (disable, d ∷ id) in
        rw (append-nil sys.aborting) (
          serve_lem ws backends adm r (act disable_backend) sys read.0
          ∙ disable_backend_handler_lem pool r sys (d ∷ id) t.0 (sys.backends.0, t.1) refl read.1
              (rw (e) refl))
    serve-request enable d id sys t line e =
        let read = action_path-read_back enable_backend d id line in
        let pool = administrator breaker unmarshal time_parse marshal duration_text in
        let adm = some pool in
        let r = request (enable, d ∷ id) in
        rw (append-nil sys.aborting) (
          serve_lem ws backends adm r (act enable_backend) sys read.0
          ∙ enable_backend_handler_lem pool r sys (d ∷ id) t.0 (sys.backends.0, t.1) refl read.1
              (rw (e) refl))
    serve-request Command.delete d id sys t line e =
        let read = action_path-read_back delete_backend d id line in
        let pool = administrator breaker unmarshal time_parse marshal duration_text in
        let adm = some pool in
        let r = request (Command.delete, d ∷ id) in
        (serve_lem ws backends adm r (act delete_backend) sys read.0
          ∙ delete_backend_handler_lem pool r sys (d ∷ id) t.0 (sys.backends.0, t.1) refl read.1
              refl (rw (e) refl))

    -- The administrative server over a pool where the lists partition the backends into enabled and
    -- disabled ones, and distinct backends have distinct IDs and one entry of the configuration each:
    -- every sequence of POST requests that disable, enable or delete a backend is served, where the IDs
    -- are not empty and of letters, digits and hyphens, as `NormalizeForID` makes them. The answers, all of status 200, tell the results that the same
    -- commands give on a map from IDs to absent, enabled or disabled; behind the requests the pool holds
    -- every ID as that map does, and is as it has to be for further ones; the sessions of the deleted
    -- backends, in their order, are what is left to abort; and the manager of the sessions is as it was.
    pub serve_all-replay :
        (calls : List (Command × Text)) (sys : System K B W (V × Manager C))
        → All (λ call. IsId call.1) calls
        → IsWellFormed sys.backends.1
        → IsCoherent sys.backends.1
        → Returns (Replayed calls sys) (
            serve_all ws backends
              (some (administrator breaker unmarshal time_parse marshal duration_text))
              (map request calls)
              sys)
    unfolding serve_all
    serve_all-replay [] sys ids w k = (w, k, refl, refl, sym (append-nil sys.aborting), refl)
    serve_all-replay ((c, []) ∷ calls) sys ids w k = absurd (ids.0.0 refl)
    serve_all-replay ((c, d ∷ id) ∷ calls) sys ids w k =
        let (t, e, moved) =
          Returns-value (Moves c (d ∷ id) sys.backends.1) _
            (call-Moves c (d ∷ id) sys.backends.1 w k) in
        let sys' = record sys {
          backends = (sys.backends.0, t.1);
          aborting = sys.aborting ++ aborted c (d ∷ id) t.0;
        } in
        rw (serve-request c d id sys t (chars-IsLine (d ∷ id) ids.0.1) e) (
          Returns-bind (Replayed calls sys') (Replayed ((c, d ∷ id) ∷ calls) sys) _ _
            (serve_all-replay calls sys' ids.1 moved.0 moved.1)
            (λ u h. Replayed-cons c (d ∷ id) calls sys t moved u h))
