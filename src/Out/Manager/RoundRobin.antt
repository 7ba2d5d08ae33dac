-- ===== src/Out/Manager/RoundRobin.antt =====
-- `nextBackendList` of out/outc_manager.go against a plain description, the turned list of backends.
pub mod Fairness
use native.Mathlib.Nat.{mod-lt, mod-eq_of_lt, mod-add-mod, add-mod_left, add-zero}
use wsbalancer.Prelude.{
  ℕ, zero, suc, ◌+◌, ◌-◌, ◌%◌, ◌^◌, ◌≤◌, ◌<◌, ◌≡◌, refl, sym, List, [], ◌∷◌, ◌++◌, some, length,
  take, drop, get_elem?, count, count-append, returns, ◌>>=◌, arith, lt→ltb, ◌∙◌,
}
use wsbalancer.Out.Manager.{Manager, int_index, pick_from, next_backend_list}

-- The element at a place, and what is behind it.
drop_get :
    (be : List ℕ) (k : ℕ)
    → k < length be
    → (r : ℕ) × (get_elem? be k ≡ some r) × (drop k be ≡ r ∷ drop (suc k) be)
drop_get [] k h = absurd (omega arith)
drop_get (x ∷ be) zero h = (x, refl, refl)
drop_get (x ∷ be) (suc k) h = drop_get be k (omega arith)

drop-length : (be : List ℕ) → drop (length be) be ≡ []
drop-length [] = refl
drop-length (x ∷ be) = drop-length be

-- One round: the element at `k`, where the sum is in range and `k` is its remainder.
pick_one :
    (be : List ℕ) (next i n k r : ℕ)
    → next + i < 2 ^ 63
    → (next + i) % length be ≡ k
    → get_elem? be k ≡ some r
    → pick_from be next i (suc n) ≡ (pick_from be next (suc i) n >>= λ rest. returns (r ∷ rest))
unfolding pick_from int_index
pick_one be next i n k r small rem e = rw (
  mod-eq_of_lt {n = next + i} {m = 2 ^ 64} (omega arith),
  lt→ltb (next + i) (2 ^ 63) small,
  rem,
  e,
)

-- The remainder of the index in each round.
rem_low : (len next i k : ℕ) → next % len ≡ k → k + i < len → (next + i) % len ≡ k + i
rem_low len next i k e h = sym (mod-add-mod next len i) ∙ rw e (mod-eq_of_lt h)

rem_high : (len next i k j : ℕ) → next % len ≡ k → k + i ≡ len + j → j < len → (next + i) % len ≡ j
rem_high len next i k j e s h =
    sym (mod-add-mod next len i) ∙ rw (e, s, add-mod_left) (mod-eq_of_lt h)

pick_none : (be : List ℕ) (next i : ℕ) → pick_from be next i zero ≡ returns []
unfolding pick_from
pick_none be next i = refl

module _ (be : List ℕ) (next k : ℕ) (at_k : next % length be ≡ k) where
  -- The rounds behind the wrap, from place `j` on.
  pick_high :
      (n i j : ℕ)
      → k + i ≡ length be + j
      → j + n ≤ length be
      → next + i + n < 2 ^ 63
      → pick_from be next i n ≡ returns (take n (drop j be))
  pick_high zero i j s h small = pick_none be next i
  pick_high (suc n) i j s h small =
      let (r, g, d) = drop_get be j (omega arith) in
      pick_one be next i n j r (omega arith) (rem_high (length be) next i k j at_k s (omega arith))
        g
      ∙ rw (pick_high n (suc i) (suc j) (omega arith) (omega arith) (omega arith), d)

  -- All rounds, `w` of which come before the wrap.
  pick_low :
      (w n i : ℕ)
      → k + i + w ≡ length be
      → i + n ≡ length be
      → next + i + n < 2 ^ 63
      → pick_from be next i n ≡ returns (drop (k + i) be ++ take k be)
  pick_low zero n i s t small =
      let all : n ≡ k = omega arith in
      let wrapped : k + i ≡ length be = omega arith in
      pick_high n i 0 (omega arith) (omega arith) small ∙ rw (all, wrapped, drop-length be)
  pick_low (suc w) zero i s t small = absurd (omega arith)
  pick_low (suc w) (suc n) i s t small =
      let (r, g, d) = drop_get be (k + i) (omega arith) in
      let next_place : k + suc i ≡ suc (k + i) = omega arith in
      pick_one be next i n (k + i) r (omega arith) (rem_low (length be) next i k at_k (omega arith))
        g
      ∙ rw (pick_low w n (suc i) (omega arith) (omega arith) (omega arith), d, next_place)

-- A list turned by `k` places.
abbrev pub turn : ℕ → List ℕ → List ℕ
turn k be = drop k be ++ take k be

pick_all :
    (be : List ℕ) (next : ℕ)
    → next + length be < 2 ^ 63
    → pick_from be next 0 (length be) ≡ returns (turn (next % length be) be)
pick_all [] next small = pick_none [] next 0 ∙ rw (turn_nil (next % 0))
  where
    turn_nil : (k : ℕ) → turn k [] ≡ []
    turn_nil zero = refl
    turn_nil (suc k) = refl
pick_all (x ∷ be) next small =
    let len : ℕ = length (x ∷ be) in
    let below : next % len < len = mod-lt next (omega arith) in
    pick_low (x ∷ be) next (next % len) refl (len - next % len) len 0 (omega arith) (omega arith)
      (omega arith)
    ∙ rw add-zero

module _ {C : Type 0} where
  -- While the counter's next value and the number of the enabled backends add up to less than 2^63,
  -- the call returns, the backends to try are the list of the enabled ones turned by that value, and
  -- nothing changes but the counter, which takes it.
  pub next_backend_list_lem :
      (m : Manager C)
      → m.next_backend_idx + 1 + length m.backends < 2 ^ 63
      → next_backend_list m
        ≡ returns (
          turn ((m.next_backend_idx + 1) % length m.backends) m.backends,
          record m { next_backend_idx = m.next_backend_idx + 1 },
        )
  unfolding next_backend_list
  next_backend_list_lem m small = rw (
    mod-eq_of_lt {n = m.next_backend_idx + 1} {m = 2 ^ 64} (omega arith),
    pick_all m.backends (m.next_backend_idx + 1) small,
  )

-- Turning a list keeps what stands in it, and how often.
pub count-turn : (a k : ℕ) (be : List ℕ) → count a (turn k be) ≡ count a be
count-turn a zero be = omega (arith, count-append a be [])
count-turn a (suc k) [] = refl
count-turn a (suc k) (x ∷ be) = omega (
  arith,
  count-turn a k be,
  count-append a (drop k be) (x ∷ take k be),
  count-append a (drop k be) (take k be),
)
