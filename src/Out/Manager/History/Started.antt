-- ===== src/Out/Manager/History/Started.antt =====
-- Histories of a pool that `NewManager` of out/outc_manager.go has made.
use wsbalancer.Prelude.{
  ℕ, ◌+◌, ◌≡◌, false, List, Option, none, some, Text, ℤ, All, length, Returns, Returns-mono,
  Returns-both, Returns-UnlessPanics,
}
use wsbalancer.Out.Config.{UpstreamConfig}
use wsbalancer.Out.Config.Sanitized.{IsGiven, IsMatched}
use wsbalancer.Out.Config.Sanitized.Identified.{final_ids}
use wsbalancer.Out.Backend.{Circuit, Backend, DialRequest, DialReply}
use wsbalancer.Out.Manager.{Manager, NewBackendDef}
use wsbalancer.Out.Manager.Setup.{new_manager}
use wsbalancer.Out.Manager.Setup.Started.{IsStarted, new_manager-IsStarted}
use wsbalancer.Out.Manager.Setup.Coherent.{AreDistinct, CoherentIfAny, new_manager-IsCoherent}
use wsbalancer.Out.Manager.Registry.{Command, call}
use wsbalancer.Out.Manager.Registry.Moves.{Moves}
use wsbalancer.Out.Manager.History.{IsSound, Reachable, Reachable-IsSound}

module _ {C K W : Type 0} (breaker : Circuit C W) (dial : DialRequest → W → DialReply K × W)
    (unmarshal : List ℕ → Option NewBackendDef) (time_parse : Text → Option ℤ) where
  -- What becomes of a pool over `n` backends; without one there is none.
  abbrev pub IsLasting : ℕ → Option (Manager C) → Type 0
  IsLasting n none = n ≡ 0
  IsLasting n (some pool) =
      (length pool.backends ≡ n)
      × ((m : Manager C)
          → Reachable breaker dial unmarshal time_parse pool m
          → IsSound breaker dial unmarshal time_parse m
            × ((c : Command) (id : Text) → Returns (Moves c id m) (call c id m)))

  started_lem :
      (n : ℕ) (made : Option (Manager C))
      → IsStarted breaker n made × CoherentIfAny breaker made
      → IsLasting n made
  started_lem n none h = h.0
  started_lem n (some pool) ((w, all, some_entry), c) =
      (all, λ m r. Reachable-IsSound breaker dial unmarshal time_parse pool m (w, c) r)

  -- Where a configuration was not sanitized before, has no nil backend, gives either no IDs or as many
  -- as URLs, and the IDs that its backends and URLs have, or else get from their URLs, are distinct:
  -- `NewManager` returns, with an error only where there is neither a backend nor a URL. The pool has
  -- a backend for each of them. And behind every history of dials, whatever the world answers, of
  -- calls that disable, enable and delete backends, of resets, of additions of backends with new IDs,
  -- and of what the backends' own routines do: the lists partition the backends into enabled and
  -- disabled ones, distinct backends have distinct IDs and one entry of the configuration each; and
  -- every further call that disables, enables or deletes a backend returns, and does to its ID, and to
  -- no other, what the command does on a map from IDs to absent, enabled or disabled.
  pub new_manager-IsLasting :
      (blank : Backend C) (uc : UpstreamConfig)
      → uc.sanitized ≡ false
      → All IsGiven uc.backends
      → IsMatched uc.urls uc.ids
      → AreDistinct (final_ids uc)
      → Returns (IsLasting (length uc.backends + length uc.urls)) (new_manager breaker blank uc)
  new_manager-IsLasting blank uc fresh given matched distinct =
      let n = length uc.backends + length uc.urls in
      let made = new_manager breaker blank uc in
      Returns-mono made (started_lem n) (
        Returns-both (IsStarted breaker n) (CoherentIfAny breaker) made
          (new_manager-IsStarted breaker blank uc fresh given matched)
          (Returns-UnlessPanics (CoherentIfAny breaker) made
            (new_manager-IsCoherent breaker blank uc fresh given matched distinct)))
