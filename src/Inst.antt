-- ===== src/Inst.antt =====
-- inst/prometheus.go: the valve that measures the messages, and its place in the chain. The
-- histogram of the library is the parameter `observe`, with the direction, the two ids and the size.
pub mod Chain
use wsbalancer.Prelude.{
  ℕ, zero, suc, Bool, true, false, List, [], ◌∷◌, Option, none, some, Text, codes, length, Exec,
  returns, panics,
}
use wsbalancer.Common.{WsMessage, is_control}
use wsbalancer.In.Inc.{Valve, Verdict, passed}

pub record InstrumentValve : Type 0 where
  pub frontend : Text
  pub backend : Text

abbrev new_instrument_valve : Text → Text → InstrumentValve
new_instrument_valve frontend backend = record { frontend = frontend; backend = backend }

module _ {S : Type 0} (observe : Text → InstrumentValve → ℕ → S → S) where
  -- `BeforeTransmit` and `AfterReceive`, by the direction.
  unfoldable pub measure : Text → InstrumentValve → Option WsMessage → S → Exec (Verdict × S)
  measure dir inst none s = panics
  measure dir inst (some msg) s = elim (is_control msg) [
    | true ↦ returns (passed (some msg), s)
    | false ↦ returns (passed (some msg), observe dir inst (length msg.payload) s)
  ]

  unfoldable pub as_valve : InstrumentValve → Valve S
  unfolding measure
  as_valve inst = record {
    before_transmit = measure (codes "f2b") inst;
    after_receive = measure (codes "b2f") inst;
  }

  nil_valve : Valve S
  nil_valve = record { before_transmit = λ msg s. panics; after_receive = λ msg s. panics }

  -- `make`
  unfoldable pub nils : ℕ → List (Valve S)
  unfolding nil_valve
  nils zero = []
  nils (suc n) = nil_valve ∷ nils n

  put_first : Valve S → List (Valve S) → List (Valve S)
  put_first v [] = []
  put_first v (x ∷ xs) = v ∷ xs

  -- `copy`, of the shorter length.
  unfoldable pub copy : List (Valve S) → List (Valve S) → List (Valve S)
  copy [] current = []
  copy (x ∷ valves) [] = x ∷ valves
  copy (x ∷ valves) (c ∷ current) = c ∷ copy valves current

  -- `AddValves` for a session between a frontend and a backend with these ids.
  unfoldable pub add_valves : Text → Text → List (Valve S) → List (Valve S)
  unfolding nils put_first copy
  add_valves frontend backend current =
      let valves = nils (suc (length current)) in
      let valves = put_first (as_valve (new_instrument_valve frontend backend)) valves in
      copy valves current
