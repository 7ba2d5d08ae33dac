-- ===== src/Out/Backend/Lifecycle/Draining.antt =====
-- When the goroutine of `delete` in out/backend.go ends.
use wsbalancer.Prelude.{
  ℕ, zero, suc, ◌+◌, ◌≤◌, ◌<◌, ◌≡◌, inl, inr, true, false, Bool-cases, arith, ◌==◌, ==_iff,
}
use wsbalancer.Out.Backend.Lifecycle.{Drained, is_drained, drain_loop, drain}

-- The end of the loop from round `i` on: at the first poll that reads less than one, or behind the
-- last round.
pub record EndsAt (active : ℕ → ℕ) (i last : ℕ) (d : Drained) : Type 0 where
  pub not_early : i ≤ d.polls
  pub in_time : d.polls ≤ last
  pub waited : (j : ℕ) → i ≤ j → j < d.polls → is_drained (active j) ≡ false
  pub seen : d.drained ≡ true → (d.polls < last) × (is_drained (active d.polls) ≡ true)
  pub given_up : d.drained ≡ false → d.polls ≡ last

drain_loop-EndsAt :
    (active : ℕ → ℕ) (i rounds : ℕ) → EndsAt active i (i + rounds) (drain_loop active i rounds)
unfolding drain_loop
drain_loop-EndsAt active i zero = record {
  not_early = omega arith;
  in_time = omega arith;
  waited = λ j a b. absurd (omega (arith, a, b));
  seen = λ e. absurd (ground (arith, e));
  given_up = λ e. omega arith;
}
drain_loop-EndsAt active i (suc rounds) =
    let later = drain_loop-EndsAt active (suc i) rounds in
    elim (Bool-cases (is_drained (active i))) [
      | inl now ↦ rw (now) (record {
        not_early = omega arith;
        in_time = omega arith;
        waited = λ j a b. absurd (omega (arith, a, b));
        seen = λ e. (omega arith, now);
        given_up = λ e. absurd (cc);
      })
      | inr wait ↦ rw (wait) (record {
        not_early = omega (arith, later.not_early);
        in_time = omega (arith, later.in_time);
        waited = λ j a b. elim (Bool-cases (j == i)) [
          | inl here ↦ rw ((==_iff j i).0 here) wait
          | inr on ↦ later.waited j (ground arith) b
        ];
        seen = λ e. (omega (arith, (later.seen e).0), (later.seen e).1);
        given_up = λ e. omega (arith, later.given_up e);
      })
    ]

pub drain-EndsAt : (active : ℕ → ℕ) → EndsAt active 0 600 (drain active)
unfolding drain
drain-EndsAt active = drain_loop-EndsAt active 0 600
