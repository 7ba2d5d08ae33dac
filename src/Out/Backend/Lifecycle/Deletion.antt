-- ===== src/Out/Backend/Lifecycle/Deletion.antt =====
-- The two goroutines of out/backend.go together: a deleted backend, and the connections to it that are
-- still open.
use wsbalancer.Prelude.{ℕ, ◌-◌, ◌≤◌, ◌<◌, ◌≡◌, ap, inl, inr, true, false, List, arith, Bool-cases}
use wsbalancer.Out.Backend.{Backend}
use wsbalancer.Out.Backend.Lifecycle.{
  ManagementEvent, start_management_listener, Drained, is_drained, drain,
}
use wsbalancer.Out.Backend.Lifecycle.Draining.{EndsAt, drain-EndsAt}
use wsbalancer.Out.Backend.Lifecycle.Counting.{signals, start_management_listener_lem}

module _ {C : Type 0} (bk : Backend C) (taken : ℕ → List ManagementEvent) where
  -- What the poll of a round reads, where the managing goroutine has taken these events by then.
  abbrev pub reading : ℕ → ℕ
  reading i = (start_management_listener (taken i) bk).backend.active_connections

  -- It waits while connections are open, for a minute at most, and ends at the first poll that finds
  -- them closed.
  pub record WaitsForClose (d : Drained) : Type 0 where
    pub in_time : d.polls ≤ 600
    pub some_open : (j : ℕ) → j < d.polls → signals (taken j) < bk.active_connections
    pub all_closed : d.drained ≡ true → signals (taken d.polls) ≡ bk.active_connections
    pub given_up : d.drained ≡ false → d.polls ≡ 600
    pub prompt :
        (i : ℕ)
        → i < 600
        → signals (taken i) ≡ bk.active_connections
        → (d.drained ≡ true) × (d.polls ≤ i)

  reading_lem :
      (i : ℕ)
      → bk.active_connections < 2147483648
      → signals (taken i) ≤ bk.active_connections
      → reading i ≡ bk.active_connections - signals (taken i)
  reading_lem i h k =
      ap (λ m. m.backend.active_connections)
        (start_management_listener_lem (taken i) bk (omega (arith, h)) k)

  still_open :
      (i : ℕ)
      → bk.active_connections < 2147483648
      → signals (taken i) ≤ bk.active_connections
      → is_drained (reading i) ≡ false
      → signals (taken i) < bk.active_connections
  unfolding is_drained
  still_open i h k e = ground (arith, reading_lem i h k)

  now_closed :
      (i : ℕ)
      → bk.active_connections < 2147483648
      → signals (taken i) ≤ bk.active_connections
      → is_drained (reading i) ≡ true
      → signals (taken i) ≡ bk.active_connections
  unfolding is_drained
  now_closed i h k e = ground (arith, reading_lem i h k)

  -- The goroutine that drains a backend with fewer than 2^31 active connections, of which no more are
  -- signalled as closed, ends. It ends behind 600 polls at most. As long as it polls, some connection is
  -- open; where it reports that the connections are drained, all of them are closed; and where all of
  -- them are closed by the time of a poll, it reports that, at this poll or an earlier one.
  pub drain-WaitsForClose :
      bk.active_connections < 2147483648
      → ((i : ℕ) → signals (taken i) ≤ bk.active_connections)
      → WaitsForClose (drain reading)
  drain-WaitsForClose h k = record {
    in_time = ends.in_time;
    some_open = open_at;
    all_closed = λ e. now_closed d.polls h (k d.polls) (ends.seen e).1;
    given_up = ends.given_up;
    prompt = λ i b e. elim (Bool-cases d.drained) [
      | inl over ↦ (over, ground (arith, open_at i, e))
      | inr late ↦ absurd (omega (arith, open_at i (rw (ends.given_up late) b), e))
    ];
  }
    where
      d : Drained
      d = drain reading

      ends : EndsAt reading 0 600 d
      ends = drain-EndsAt reading

      open_at : (j : ℕ) → j < d.polls → signals (taken j) < bk.active_connections
      open_at j b = still_open j h (k j) (ends.waited j (omega arith) b)
