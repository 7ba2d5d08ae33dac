-- ===== src/Inst/Chain.antt =====
-- What the chain of inst/prometheus.go does to the messages of a client with other valves.
use wsbalancer.Prelude.{ℕ, suc, ◌≡◌, refl, List, [], ◌∷◌, Option, some, Text, length, panics}
use wsbalancer.Common.{WsMessage}
use wsbalancer.In.Inc.{Valve, Inc, receive, on_receive_from_upstream}
use wsbalancer.Inst.{InstrumentValve, nils, copy, add_valves}

module _ {S : Type 0} (observe : Text → InstrumentValve → ℕ → S → S) where
  receive-copy :
      (current : List (Valve S)) (msg : Option WsMessage) (s : S)
      → receive (copy observe (nils observe (suc (length current))) current) msg s ≡ panics
  unfolding receive copy nils
  receive-copy [] msg s = refl
  receive-copy (c ∷ current) msg s = rw (receive-copy current msg s) refl

  -- Behind any valve of another provider, the chain with the instrument valve panics on every
  -- message of the backend, for every client.
  pub on_receive-add_valves :
      {K : Type 0} (frontend backend : Text) (c : Valve S) (current : List (Valve S))
      (m : WsMessage) (inc : Inc K) (s : S)
      → on_receive_from_upstream (add_valves observe frontend backend (c ∷ current)) m inc s
        ≡ panics
  unfolding on_receive_from_upstream add_valves receive copy
  on_receive-add_valves frontend backend c current m inc s =
      rw (receive-copy current (some m) s) refl
