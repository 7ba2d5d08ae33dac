-- ===== src/In/Inc/Aborted.antt =====
-- `abortBackend` of in/inc.go: the signal that the routine which writes to the client gets.
use wsbalancer.Prelude.{
  Option, Exec, Returns, Returns-bind, All, returns, ◌≡◌, refl, ◌∙◌, true, List, [], ◌∷◌, ◌++◌,
  none, some, UnlessPanics, UnlessPanics-bind, UnlessPanics-any, arith,
}
use wsbalancer.Common.{WsMessage}
use wsbalancer.In.Inc.{
  Valve, Verdict, passed, failed, Inc, transmit, put_upstream, count_received, after_valves,
  send_to_upstream, abort_backend,
}

module _ {K : Type 0} where
  put_upstream-done : (m : WsMessage) (inc : Inc K) → (put_upstream m inc).1.done ≡ inc.done
  unfolding put_upstream
  put_upstream-done m inc = ground arith

  count_received-done : (m : WsMessage) (inc : Inc K) → (count_received m inc).done ≡ inc.done
  unfolding count_received
  count_received-done m inc = ground arith

  after_valves-done : (v : Verdict) (inc : Inc K) → (after_valves v inc).1.done ≡ inc.done
  unfolding after_valves
  after_valves-done (failed err) inc = refl
  after_valves-done (passed none) inc = refl
  after_valves-done (passed (some m)) inc = put_upstream-done m inc

  send_to_upstream-done :
      {S : Type 0} (valves : List (Valve S)) (m : WsMessage) (inc : Inc K) (s : S)
      → UnlessPanics (λ t. t.1.0.done ≡ inc.done) (send_to_upstream valves m inc s)
  unfolding send_to_upstream
  send_to_upstream-done valves m inc s =
      UnlessPanics-bind (λ t. Unit) (λ t. t.1.0.done ≡ inc.done) (transmit valves (some m) s) _
        (UnlessPanics-any (transmit valves (some m) s))
        (λ t u. after_valves-done t.0 (count_received m inc) ∙ count_received-done m inc)

  -- Whatever the valves make of the message, the signal is given.
  pub abort_backend-done :
      {S : Type 0} (valves : List (Valve S)) (inc : Inc K) (s : S)
      → UnlessPanics (λ t. t.0.done ≡ inc.done ++ true ∷ []) (abort_backend valves inc s)
  unfolding abort_backend
  abort_backend-done valves inc s =
      UnlessPanics-bind (λ t. t.1.0.done ≡ inc.done ++ true ∷ [])
        (λ t. t.0.done ≡ inc.done ++ true ∷ [])
        (send_to_upstream valves _ (record inc { done = inc.done ++ true ∷ [] }) s) _
        (send_to_upstream-done valves _ (record inc { done = inc.done ++ true ∷ [] }) s) (λ t h. h)

-- A valve that returns whatever it gets.
unfoldable pub IsSteady : {S : Type 0} → Valve S → Type 0
IsSteady {S = S} vl =
    (msg : Option WsMessage) (s : S) → Returns (λ t. Unit) (vl.before_transmit msg s)

transmit-Returns :
    {S : Type 0} (valves : List (Valve S))
    → All IsSteady valves
    → (msg : Option WsMessage) (s : S) → Returns (λ t. Unit) (transmit valves msg s)
unfolding transmit IsSteady
transmit-Returns [] h msg s = tt
transmit-Returns (vl ∷ valves) (h, hs) msg s =
    Returns-bind (λ t. Unit) (λ t. Unit) (vl.before_transmit msg s) _ (h msg s)
      (λ t u. to_next t.0 t.1 (transmit valves) (transmit-Returns valves hs))
  where
    to_next :
        {T : Type 0} (verdict : Verdict) (s' : T) (next : Option WsMessage → T → Exec (Verdict × T))
        → ((msg' : Option WsMessage) (s'' : T) → Returns (λ t. Unit) (next msg' s''))
        → Returns
            (λ t. Unit)
            (elim verdict [ passed msg' ↦ next msg' s' | failed err ↦ returns (failed err, s') ])
    to_next (passed msg') s' next steady = steady msg' s'
    to_next (failed err) s' next steady = tt

pub abort_backend-Returns :
    {K S : Type 0} (valves : List (Valve S)) (inc : Inc K) (s : S)
    → All IsSteady valves
    → Returns (λ t. Unit) (abort_backend valves inc s)
unfolding abort_backend send_to_upstream
abort_backend-Returns valves inc s h =
    Returns-bind (λ t. Unit) (λ t. Unit)
      (send_to_upstream valves _ (record inc { done = inc.done ++ true ∷ [] }) s) _
      (Returns-bind (λ t. Unit) (λ t. Unit) (transmit valves _ s) _ (transmit-Returns valves h _ s)
        (λ t u. tt))
      (λ t u. tt)
