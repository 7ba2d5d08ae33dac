-- ===== src/Out/Manager/RoundRobin/Fairness.antt =====
-- Consecutive dials of out/outc_manager.go: which backend each of them tries first.
use native.Mathlib.Nat.{mod-lt}
use wsbalancer.Prelude.{
  ℕ, zero, suc, ◌+◌, ◌%◌, ◌^◌, ◌≤◌, ◌<◌, ◌≡◌, refl, ap, ◌∙◌, List, [], ◌∷◌, length, drop, count,
  index, Exec, returns, panics, Returns, ◌>>=◌, arith,
}
use wsbalancer.Out.Manager.{Manager, pick_from, next_backend_list}
use wsbalancer.Out.Manager.RoundRobin.{
  drop_get, pick_one, pick_none, pick_all, count-turn, next_backend_list_lem,
}

module _ {C : Type 0} where
  -- The first backend of each of `n` consecutive lists.
  unfoldable pub firsts : ℕ → Manager C → Exec (List ℕ × Manager C)
  firsts zero m = returns ([], m)
  firsts (suc n) m = do
    (picked, m') ← next_backend_list m
    r ← index picked 0
    (rest, m'') ← firsts n m'
    returns (r ∷ rest, m'')

  -- The counter moved on.
  abbrev moved : ℕ → Manager C → Manager C
  moved i m = record m { next_backend_idx = m.next_backend_idx + i }

  first_one :
      (n i r : ℕ) (behind : List ℕ) (m : Manager C)
      → m.next_backend_idx + i + 1 + length m.backends < 2 ^ 63
      → drop ((m.next_backend_idx + i + 1) % length m.backends) m.backends ≡ r ∷ behind
      → firsts (suc n) (moved i m) ≡ (firsts n (moved (suc i) m) >>= λ t. returns (r ∷ t.0, t.1))
  unfolding firsts
  first_one n i r behind m small d =
      let moved_on : m.next_backend_idx + i + 1 ≡ m.next_backend_idx + suc i = omega arith in
      rw (next_backend_list_lem (moved i m) small, d, moved_on) refl

  -- The same loop as that of one list, but over the calls.
  firsts_from :
      (n i : ℕ) (m : Manager C)
      → 1 ≤ length m.backends
      → m.next_backend_idx + i + 1 + n + length m.backends < 2 ^ 63
      → firsts n (moved i m) ≡ (
          pick_from m.backends (m.next_backend_idx + 1) i n >>= λ picked.
          returns (picked, moved (i + n) m))
  unfolding firsts
  firsts_from zero i m any small =
      rw (pick_none m.backends (m.next_backend_idx + 1) i)
        (ap (λ k. returns ([], moved k m)) (omega arith))
  firsts_from (suc n) i m any small =
      let be = m.backends in
      let next = m.next_backend_idx + 1 in
      let k = (m.next_backend_idx + i + 1) % length be in
      let (r, g, d) = drop_get be k (mod-lt (m.next_backend_idx + i + 1) any) in
      first_one n i r (drop (suc k) be) m (omega (arith, small)) d
      ∙ rw
          (
            firsts_from n (suc i) m any (omega (arith, small)),
            pick_one be next i n k r (omega (arith, small)) (ap (λ x. x % length be) (omega arith))
                g,
          )
          (kept r (i + suc n) (suc i + n) (omega arith) m (pick_from be next (suc i) n))
    where
      with_manager : ℕ → Manager C → List ℕ → Exec (List ℕ × Manager C)
      with_manager k m picked = returns (picked, moved k m)

      put_front : ℕ → List ℕ × Manager C → Exec (List ℕ × Manager C)
      put_front r t = returns (r ∷ t.0, t.1)

      kept :
          (r a b : ℕ)
          → a ≡ b
          → (m : Manager C) (e : Exec (List ℕ))
          → ((e >>= with_manager b m) >>= put_front r)
            ≡ ((e >>= λ rest. returns (r ∷ rest)) >>= with_manager a m)
      kept r a b h m (returns picked) = rw (h) refl
      kept r a b h m panics = refl

  -- Where a backend is enabled at all, and while the counter is far from 2^63: as many consecutive
  -- calls as there are enabled backends return, and each backend comes first in as many of their lists
  -- as it has places among the enabled ones. The calls change nothing but the counter.
  pub firsts-IsFair :
      (m : Manager C)
      → 1 ≤ length m.backends
      → m.next_backend_idx + 1 + length m.backends + length m.backends < 2 ^ 63
      → Returns
          (λ t.
            ((a : ℕ) → count a t.0 ≡ count a m.backends)
            × (t.1 ≡ record m { next_backend_idx = m.next_backend_idx + length m.backends }))
          (firsts (length m.backends) m)
  firsts-IsFair m any small =
      let next = m.next_backend_idx + 1 in
      let same_start : firsts (length m.backends) m ≡ firsts (length m.backends) (moved 0 m) =
        ap (λ k. firsts (length m.backends) (record m { next_backend_idx = k })) (omega arith) in
      rw
        (
          same_start,
          firsts_from (length m.backends) 0 m any (omega (arith, small)),
          pick_all m.backends next (omega (arith, small)),
        )
        (λ a. count-turn a (next % length m.backends) m.backends, ap (λ k. moved k m) (omega arith))
