-- ===== src/Out/Backend/Lifecycle.antt =====
-- The goroutines of out/backend.go: the one that manages a backend, and the one that waits until the
-- connections of a deleted backend are drained.
pub mod Draining
pub mod Counting
pub mod Deletion
pub mod Census
use wsbalancer.Prelude.{
  ℕ, zero, suc, ◌+◌, ◌-◌, ◌^◌, ◌≡◌, Bool, true, false, ◌||◌, List, [], ◌∷◌, leb, ◌==◌,
  if◌then◌else◌,
}
use wsbalancer.Out.Backend.{Backend, u32}

-- What `startManagementListener` selects; the events of the circuit breaker are logged only.
pub data ManagementEvent : Type 0 where
  con_done deleted breaker_event : ManagementEvent

-- The backend behind the goroutine, and the events that it has not taken.
pub record Managed (C : Type 0) : Type 0 where
  pub backend : Backend C
  pub left : List ManagementEvent

module _ {C : Type 0} where
  -- `<-bk.conDone` and `atomic.AddInt32(&bk.activeConnections, -1)`
  unfoldable pub count_done : Backend C → Backend C
  count_done bk = record bk {
    active_connections = u32 (bk.active_connections + 4294967295);
    con_done = bk.con_done - 1;
  }

  unfoldable pub start_management_listener : List ManagementEvent → Backend C → Managed C
  unfolding count_done
  start_management_listener [] bk = record { backend = bk; left = [] }
  start_management_listener (con_done ∷ events) bk =
      start_management_listener events (count_done bk)
  start_management_listener (deleted ∷ events) bk = record {
    backend = record bk { listening = false };
    left = events;
  }
  start_management_listener (breaker_event ∷ events) bk = start_management_listener events bk

-- `atomic.LoadInt32(&bk.activeConnections) < 1`, on the bit pattern.
unfoldable pub is_drained : ℕ → Bool
is_drained active = active == 0 || leb (2 ^ 31) active

-- How the goroutine of `delete` ends: behind how many polls, and whether the connections were drained.
-- Either way it signals `deleted` then.
pub record Drained : Type 0 where
  pub polls : ℕ
  pub drained : Bool

-- Its loop, with the rounds that are left: `active i` is what the poll of round `i` reads.
drain_loop : (ℕ → ℕ) → ℕ → ℕ → Drained
drain_loop active i zero = record { polls = i; drained = false }
drain_loop active i (suc rounds) =
    let rest = drain_loop active (suc i) rounds in
    if is_drained (active i) then record { polls = i; drained = true } else rest

unfoldable pub drain : (ℕ → ℕ) → Drained
unfolding drain_loop
drain active = drain_loop active 0 600
