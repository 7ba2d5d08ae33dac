-- ===== src/Out/Manager/Registry/Removal.antt =====
-- `DeleteBackend` of out/outc_manager.go on a backend of either list, against the registry.
use wsbalancer.Prelude.{
  ℕ, ◌+◌, ◌≤◌, ◌≡◌, refl, sym, ◌≢◌, ◌∙◌, false, List, [], ◌∷◌, ◌++◌, Text, count, same, Bool-cases,
  inl, inr, same→eq, arith, if◌then◌else◌, Returns, returns,
}
use mathlib.Core.Path.{subst}
use wsbalancer.Out.Backend.{Backend}
use wsbalancer.Common.{success}
use wsbalancer.Out.Manager.{Manager, id_of, update, delete, delete_disabled, delete_enabled}
use wsbalancer.Out.Manager.Lookup.{Found, Found-index, Found-remove, Found-count}
use wsbalancer.Out.Manager.Invariant.{IsWellFormed}
use wsbalancer.Out.Manager.Coherence.{
  owned, IsCoherent, edit_lem, dropped, id_of-delete, delete_disabled-Keeps, delete_enabled-Keeps,
  Keeps,
}
use wsbalancer.Out.Manager.Registry.{Command, absent, enabled, disabled, standing}
use wsbalancer.Out.Manager.Registry.Standings.{has, by_lists, by_lists-absent, has-store, has-none}
use wsbalancer.Out.Manager.Registry.Moves.{has-left, gone_lem, standing-set, Moves, Moves-from}

module _ {C : Type 0} where
  delete_enabled-effect :
      (id : Text) (idx : ℕ) (m : Manager C) (f : Found m.store m.backends id idx)
      → IsCoherent m
      → 1 ≤ owned m f.found
      → delete_enabled idx m
        ≡ returns (
          success,
          record m {
            backends = f.before ++ f.behind;
            store = update m.store f.found (delete (m.store f.found));
            config = dropped m f.found;
            next_backend_idx = 0;
          },
        )
  unfolding delete_enabled
  delete_enabled-effect id idx m f k has_one = rw (
    Found-index m.backends id idx f,
    Found-remove m.backends id idx f,
    edit_lem m f.found k has_one,
  )

  delete_disabled-effect :
      (id : Text) (idx : ℕ) (m : Manager C) (f : Found m.store m.disabled_be id idx)
      → IsCoherent m
      → 1 ≤ owned m f.found
      → delete_disabled idx m
        ≡ returns (
          success,
          record m {
            disabled_be = f.before ++ f.behind;
            store = update m.store f.found (delete (m.store f.found));
            config = dropped m f.found;
          },
        )
  unfolding delete_disabled
  delete_disabled-effect id idx m f k has_one = rw (
    Found-index m.disabled_be id idx f,
    edit_lem m f.found k has_one,
    Found-remove m.disabled_be id idx f,
  )

  -- A list without an ID, as it is seen behind the deletion.
  not_at :
      (store : ℕ → Backend C) (be : List ℕ) (id o : Text)
      → has store be id ≡ false
      → has store be o ≡ (if same id o then false else has store be o)
  not_at store be id o h = elim (Bool-cases (same id o)) [
    | inl hit ↦ rw (hit) (rw (same→eq id o hit) at h)
    | inr miss ↦ rw (miss) refl
  ]

  -- What stands in the other list has another ID.
  other_list :
      (m : Manager C) (be : List ℕ) (id : Text) (r : ℕ)
      → IsCoherent m
      → id_of m.store r ≡ id
      → 1 ≤ owned m r
      → ((a : ℕ) → 1 ≤ count a be → (1 ≤ owned m a) × (a ≢ r))
      → has m.store be id ≡ false
  other_list m be id r k e h apart =
      has-none m.store be id
        (λ a among same_id. (apart a among).1 (k.own_id a r (apart a among).0 h (same_id ∙ sym e)))

  pub delete_enabled-Moves :
      (c : ℕ) (id : Text) (idx : ℕ) (m : Manager C)
      → Found m.store m.backends (c ∷ id) idx
      → standing m (c ∷ id) ≡ enabled
      → IsWellFormed m
      → IsCoherent m
      → Returns (Moves Command.delete (c ∷ id) m) (delete_enabled idx m)
  delete_enabled-Moves c id idx m f e w k =
      let effect = delete_enabled-effect (c ∷ id) idx m f k has_one in
      let kept =
        subst (Returns (Keeps (c ∷ id) m)) effect (delete_enabled-Keeps (c ∷ id) idx m f w k) in
      rw (effect) (
        Moves-from Command.delete (c ∷ id) m enabled _ e kept.0 kept.1.0 refl
          (standing-set m _ c id absent shown))
    where
      counted :
          (a : ℕ) → count a m.backends ≡ count a (f.before ++ f.behind) + count a (f.found ∷ [])
      counted = Found-count m.backends (c ∷ id) idx f

      has_one : 1 ≤ owned m f.found
      has_one = ground (arith, counted f.found)

      deleted : ℕ → Backend C
      deleted = update m.store f.found (delete (m.store f.found))

      shown :
          (o : Text)
          → by_lists (has deleted m.disabled_be o) (has deleted (f.before ++ f.behind) o) ≡ (
              if same (c ∷ id) o
              then absent
              else by_lists (has m.store m.disabled_be o) (has m.store m.backends o))
      shown o =
          by_lists-absent (same (c ∷ id) o) (has m.store m.disabled_be o) (has m.store m.backends o)
            (has deleted m.disabled_be o) (has deleted (f.before ++ f.behind) o)
            (has-store m.store deleted m.disabled_be o (id_of-delete m.store f.found)
              ∙ not_at m.store m.disabled_be (c ∷ id) o (
                  other_list m m.disabled_be (c ∷ id) f.found k f.has_id has_one
                    (λ a among. ground (arith, w.once a, counted a, among))))
            (has-store m.store deleted (f.before ++ f.behind) o (id_of-delete m.store f.found)
              ∙ has-left m.store m.backends (c ∷ id) idx f o
                  (gone_lem m m.backends (c ∷ id) idx f w k (λ a. omega arith)))

  pub delete_disabled-Moves :
      (c : ℕ) (id : Text) (idx : ℕ) (m : Manager C)
      → Found m.store m.disabled_be (c ∷ id) idx
      → standing m (c ∷ id) ≡ disabled
      → IsWellFormed m
      → IsCoherent m
      → Returns (Moves Command.delete (c ∷ id) m) (delete_disabled idx m)
  delete_disabled-Moves c id idx m f e w k =
      let effect = delete_disabled-effect (c ∷ id) idx m f k has_one in
      let kept =
        subst (Returns (Keeps (c ∷ id) m)) effect (delete_disabled-Keeps (c ∷ id) idx m f w k) in
      rw (effect) (
        Moves-from Command.delete (c ∷ id) m disabled _ e kept.0 kept.1.0 refl
          (standing-set m _ c id absent shown))
    where
      counted :
          (a : ℕ) → count a m.disabled_be ≡ count a (f.before ++ f.behind) + count a (f.found ∷ [])
      counted = Found-count m.disabled_be (c ∷ id) idx f

      has_one : 1 ≤ owned m f.found
      has_one = ground (arith, counted f.found)

      deleted : ℕ → Backend C
      deleted = update m.store f.found (delete (m.store f.found))

      shown :
          (o : Text)
          → by_lists (has deleted (f.before ++ f.behind) o) (has deleted m.backends o) ≡ (
              if same (c ∷ id) o
              then absent
              else by_lists (has m.store m.disabled_be o) (has m.store m.backends o))
      shown o =
          by_lists-absent (same (c ∷ id) o) (has m.store m.disabled_be o) (has m.store m.backends o)
            (has deleted (f.before ++ f.behind) o) (has deleted m.backends o)
            (has-store m.store deleted (f.before ++ f.behind) o (id_of-delete m.store f.found)
              ∙ has-left m.store m.disabled_be (c ∷ id) idx f o
                  (gone_lem m m.disabled_be (c ∷ id) idx f w k (λ a. omega arith)))
            (has-store m.store deleted m.backends o (id_of-delete m.store f.found)
              ∙ not_at m.store m.backends (c ∷ id) o (
                  other_list m m.backends (c ∷ id) f.found k f.has_id has_one
                    (λ a among. ground (arith, w.once a, counted a, among))))
