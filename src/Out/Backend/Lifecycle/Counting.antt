-- ===== src/Out/Backend/Lifecycle/Counting.antt =====
-- What the goroutine of `startManagementListener` in out/backend.go makes of its signals.
use wsbalancer.Prelude.{
  ℕ, suc, ◌-◌, ◌≤◌, ◌<◌, ◌≡◌, ◌∙◌, ap2, Bool, true, false, List, [], ◌∷◌, arith, if◌then◌else◌,
}
use wsbalancer.Out.Backend.{Backend}
use wsbalancer.Out.Backend.Lifecycle.{
  ManagementEvent, con_done, deleted, breaker_event, count_done, start_management_listener,
}

-- The closed connections that are signalled before the backend is deleted.
abbrev pub signals : List ManagementEvent → ℕ
signals [] = 0
signals (con_done ∷ events) = suc (signals events)
signals (deleted ∷ events) = 0
signals (breaker_event ∷ events) = signals events

abbrev pub behind_deleted : List ManagementEvent → List ManagementEvent
behind_deleted [] = []
behind_deleted (con_done ∷ events) = behind_deleted events
behind_deleted (deleted ∷ events) = events
behind_deleted (breaker_event ∷ events) = behind_deleted events

abbrev pub is_deleted : List ManagementEvent → Bool
is_deleted [] = false
is_deleted (con_done ∷ events) = is_deleted events
is_deleted (deleted ∷ events) = true
is_deleted (breaker_event ∷ events) = is_deleted events

module _ {C : Type 0} where
  -- The backend with its connections counted down, and the end of the goroutine.
  abbrev pub counted_down : ℕ → Bool → Backend C → Backend C
  counted_down n over bk = record bk {
    active_connections = bk.active_connections - n;
    con_done = bk.con_done - n;
    listening = if over then false else bk.listening;
  }

  -- On a backend with fewer than 2^32 active connections, of which no more are signalled as closed,
  -- the goroutine takes one off the count, and one signal out of the channel, for each signal in front of the deletion, changes nothing
  -- else, ends with the deletion and takes nothing that comes behind it.
  pub start_management_listener_lem :
      (events : List ManagementEvent) (bk : Backend C)
      → bk.active_connections < 4294967296
      → signals events ≤ bk.active_connections
      → start_management_listener events bk ≡ record {
        backend = counted_down (signals events) (is_deleted events) bk;
        left = behind_deleted events;
      }
  unfolding start_management_listener count_done
  start_management_listener_lem [] bk h k =
      let active : bk.active_connections ≡ bk.active_connections - 0 = omega arith in
      let waiting : bk.con_done ≡ bk.con_done - 0 = omega arith in
      ap2
        (λ n j. record { backend = record bk { active_connections = n; con_done = j }; left = [] })
        active waiting
  start_management_listener_lem (con_done ∷ events) bk h k =
      start_management_listener_lem events (count_done bk) (omega arith) (omega (arith, h, k))
      ∙ ap2
          (λ n j. record {
            backend = record bk {
              active_connections = n;
              con_done = j;
              listening = if is_deleted events then false else bk.listening;
            };
            left = behind_deleted events;
          })
          (omega (arith, h, k)) (omega arith)
  start_management_listener_lem (deleted ∷ events) bk h k =
      ap2
        (λ n j. record {
          backend = record bk { active_connections = n; con_done = j; listening = false };
          left = events;
        })
        (omega arith) (omega arith)
  start_management_listener_lem (breaker_event ∷ events) bk h k =
      start_management_listener_lem events bk h k
