-- ===== src/Out/Manager/Invariant.antt =====
-- The two lists of backends partition the objects that the pool owns, and the flag `enabled` says
-- in which of them an object stands.
use wsbalancer.Prelude.{
  ℕ, ◌+◌, ◌≤◌, ◌<◌, ◌≡◌, true, false, List, [], ◌∷◌, ◌++◌, Text, count, count-append, returns,
  Returns, Option-cases, inl, inr, arith,
}
use wsbalancer.Common.{success}
use wsbalancer.Out.Backend.{Backend}
use wsbalancer.Out.Manager.{
  Manager, update, find_index, disable_at, disable_backend, enable_at, enable_backend,
}
use wsbalancer.Out.Manager.Lookup.{Found, find_index-Found, Found-index, Found-remove, Found-count}

module _ {C : Type 0} where
  pub record IsPartition (backends disabled : List ℕ) (next : ℕ) (store : ℕ → Backend C)
      : Type 0 where
    pub once : (a : ℕ) → count a backends + count a disabled ≤ 1
    pub alive : (a : ℕ) → 1 ≤ count a backends → (store a).enabled ≡ true
    pub dead : (a : ℕ) → 1 ≤ count a disabled → (store a).enabled ≡ false
    pub fresh : (a : ℕ) → 1 ≤ count a backends + count a disabled → a < next

  abbrev pub IsWellFormed : Manager C → Type 0
  IsWellFormed m = IsPartition m.backends m.disabled_be m.next_ref m.store

  pub disable_at-effect :
      (id : Text) (idx : ℕ) (m : Manager C) (f : Found m.store m.backends id idx)
      → disable_at idx m
        ≡ returns (
          success,
          record m {
            backends = f.before ++ f.behind;
            disabled_be = m.disabled_be ++ f.found ∷ [];
            store = update m.store f.found (record (m.store f.found) { enabled = false });
            next_backend_idx = 0;
          },
        )
  unfolding disable_at
  disable_at-effect id idx m f =
      rw (Found-index m.backends id idx f, Found-remove m.backends id idx f)

  pub disabled-IsPartition :
      (be dis : List ℕ) (next : ℕ) (store : ℕ → Backend C) (id : Text) (idx : ℕ)
      (f : Found store be id idx)
      → IsPartition be dis next store
      → IsPartition
          (f.before ++ f.behind)
          (dis ++ f.found ∷ [])
          next
          (update store f.found (record (store f.found) { enabled = false }))
  unfolding update
  disabled-IsPartition be dis next store id idx f p = record {
    once = λ a. omega (arith, p.once a, counted a, added a);
    alive = λ a h. ground (arith, p.once a, p.alive a, counted a, added a);
    dead = λ a h. ground (arith, p.once a, p.dead a, counted a, added a);
    fresh = λ a h. omega (arith, p.fresh a, counted a, added a);
  }
    where
      counted : (a : ℕ) → count a be ≡ count a (f.before ++ f.behind) + count a (f.found ∷ [])
      counted = Found-count be id idx f

      added : (a : ℕ) → count a (dis ++ f.found ∷ []) ≡ count a dis + count a (f.found ∷ [])
      added a = count-append a dis (f.found ∷ [])

  disable_at-IsWellFormed :
      (id : Text) (idx : ℕ) (m : Manager C) (f : Found m.store m.backends id idx)
      → IsWellFormed m
      → Returns (λ t. IsWellFormed t.1) (disable_at idx m)
  disable_at-IsWellFormed id idx m f p =
      rw (disable_at-effect id idx m f)
        (disabled-IsPartition m.backends m.disabled_be m.next_ref m.store id idx f p)

  -- Disabling returns on every input, and keeps the pool well formed.
  pub disable_backend-IsWellFormed :
      (id : Text) (m : Manager C)
      → IsWellFormed m
      → Returns (λ t. IsWellFormed t.1) (disable_backend id m)
  unfolding disable_backend
  disable_backend-IsWellFormed id m p = elim (Option-cases (find_index m.store m.disabled_be id)) [
    | inr (i, e) ↦ rw (e, disable_backend) p
    | inl e ↦ elim (Option-cases (find_index m.store m.backends id)) [
      | inl n ↦ rw (e, n, disable_backend) p
      | inr (idx, n) ↦
          rw (e, n, disable_backend)
            (disable_at-IsWellFormed id idx m (find_index-Found m.store m.backends id idx n) p)
    ]
  ]

  pub enable_at-effect :
      (id : Text) (idx : ℕ) (m : Manager C) (f : Found m.store m.disabled_be id idx)
      → enable_at idx m
        ≡ returns (
          success,
          record m {
            backends = m.backends ++ f.found ∷ [];
            disabled_be = f.before ++ f.behind;
            store = update m.store f.found (record (m.store f.found) { enabled = true });
          },
        )
  unfolding enable_at
  enable_at-effect id idx m f =
      rw (Found-index m.disabled_be id idx f, Found-remove m.disabled_be id idx f)

  pub enabled-IsPartition :
      (be dis : List ℕ) (next : ℕ) (store : ℕ → Backend C) (id : Text) (idx : ℕ)
      (f : Found store dis id idx)
      → IsPartition be dis next store
      → IsPartition
          (be ++ f.found ∷ [])
          (f.before ++ f.behind)
          next
          (update store f.found (record (store f.found) { enabled = true }))
  unfolding update
  enabled-IsPartition be dis next store id idx f p = record {
    once = λ a. omega (arith, p.once a, counted a, added a);
    alive = λ a h. ground (arith, p.once a, p.alive a, counted a, added a);
    dead = λ a h. ground (arith, p.once a, p.dead a, counted a, added a);
    fresh = λ a h. omega (arith, p.fresh a, counted a, added a);
  }
    where
      counted : (a : ℕ) → count a dis ≡ count a (f.before ++ f.behind) + count a (f.found ∷ [])
      counted = Found-count dis id idx f

      added : (a : ℕ) → count a (be ++ f.found ∷ []) ≡ count a be + count a (f.found ∷ [])
      added a = count-append a be (f.found ∷ [])

  enable_at-IsWellFormed :
      (id : Text) (idx : ℕ) (m : Manager C) (f : Found m.store m.disabled_be id idx)
      → IsWellFormed m
      → Returns (λ t. IsWellFormed t.1) (enable_at idx m)
  enable_at-IsWellFormed id idx m f p =
      rw (enable_at-effect id idx m f)
        (enabled-IsPartition m.backends m.disabled_be m.next_ref m.store id idx f p)

  -- Enabling returns on every input, and keeps the pool well formed.
  pub enable_backend-IsWellFormed :
      (id : Text) (m : Manager C)
      → IsWellFormed m
      → Returns (λ t. IsWellFormed t.1) (enable_backend id m)
  unfolding enable_backend
  enable_backend-IsWellFormed id m p = elim (Option-cases (find_index m.store m.backends id)) [
    | inr (i, e) ↦ rw (e, enable_backend) p
    | inl e ↦ elim (Option-cases (find_index m.store m.disabled_be id)) [
      | inl n ↦ rw (e, n, enable_backend) p
      | inr (idx, n) ↦
          rw (e, n, enable_backend)
            (enable_at-IsWellFormed id idx m (find_index-Found m.store m.disabled_be id idx n) p)
    ]
  ]

  -- An object that is taken out of either list, with `enabled` cleared.
  pub deleted-IsPartition :
      (be be' dis dis' : List ℕ) (next r : ℕ) (store : ℕ → Backend C)
      → ((a : ℕ) → count a be + count a dis ≡ count a be' + count a dis' + count a (r ∷ []))
      → ((a : ℕ) → count a be' ≤ count a be)
      → ((a : ℕ) → count a dis' ≤ count a dis)
      → IsPartition be dis next store
      → IsPartition be' dis' next (update store r (record (store r) { enabled = false }))
  unfolding update
  deleted-IsPartition be be' dis dis' next r store total less less' p = record {
    once = λ a. omega (arith, p.once a, total a);
    alive = λ a h. ground (arith, p.once a, p.alive a, total a, less a, less' a);
    dead = λ a h. ground (arith, p.once a, p.dead a, total a, less a, less' a);
    fresh = λ a h. omega (arith, p.fresh a, total a);
  }
