-- ===== src/Out/Manager/Registry/Moves.antt =====
-- The calls of out/outc_manager.go that disable, enable and delete a backend, against the registry.
use wsbalancer.Prelude.{
  ℕ, ◌+◌, ◌≤◌, ◌≡◌, refl, sym, ◌≢◌, ap, ◌∙◌, inl, inr, Bool, true, false, List, [], ◌∷◌, ◌++◌, Text,
  count, count-append, same, same→eq, Bool-cases, arith, if◌then◌else◌, Returns,
}
use wsbalancer.Out.Backend.{Backend}
use wsbalancer.Common.{Result}
use wsbalancer.Out.Manager.{Manager, id_of, update, disable_at, enable_at}
use wsbalancer.Out.Manager.Lookup.{Found, Found-count}
use wsbalancer.Out.Manager.Invariant.{
  IsWellFormed, disable_at-effect, enable_at-effect, disabled-IsPartition, enabled-IsPartition,
}
use wsbalancer.Out.Manager.Coherence.{owned, IsCoherent}
use wsbalancer.Out.Manager.Registry.{
  Standing, enabled, disabled, standing, Command, disable, enable, promise, set,
}
use wsbalancer.Out.Manager.Registry.Standings.{
  has, by_lists, by_lists-disabled, by_lists-enabled, standing_lem, standing-nil, has-append,
  has-store, has-none,
}

module _ {C : Type 0} where
  -- A list without the one object that has the ID.
  pub has-left :
      (store : ℕ → Backend C) (be : List ℕ) (id : Text) (idx : ℕ) (f : Found store be id idx)
      (o : Text)
      → has store (f.before ++ f.behind) id ≡ false
      → has store (f.before ++ f.behind) o ≡ (if same id o then false else has store be o)
  has-left store be id idx f o gone = elim (Bool-cases (same id o)) [
    | inl hit ↦ rw (hit) (ap (has store (f.before ++ f.behind)) (sym (same→eq id o hit)) ∙ gone)
    | inr miss ↦
        rw
          (
            miss,
            ap (λ l. has store l o) f.split,
            has-append store f.before f.behind o,
            has-append store f.before (f.found ∷ f.behind) o,
            f.has_id,
          )
          (rw (miss) refl)
  ]

  -- Objects that are the same but for their flags and counters, in the same two lists.
  pub kept-IsCoherent :
      (m m' : Manager C)
      → IsCoherent m
      → m'.config ≡ m.config
      → ((a : ℕ) → id_of m'.store a ≡ id_of m.store a)
      → ((a : ℕ) → owned m' a ≡ owned m a)
      → IsCoherent m'
  kept-IsCoherent m m' c ec ids same_owned = record {
    no_nil = rw ec c.no_nil;
    one_entry = λ a h. rw (ec, ids a) (c.one_entry a (rw (same_owned a) at h));
    own_id = λ a b h g e.
        c.own_id a b (rw (same_owned a) at h) (rw (same_owned b) at g) (sym (ids a) ∙ e ∙ ids b);
  }

  -- No other backend has the ID of one.
  pub gone_lem :
      (m : Manager C) (be : List ℕ) (id : Text) (idx : ℕ) (f : Found m.store be id idx)
      → IsWellFormed m
      → IsCoherent m
      → ((a : ℕ) → count a be ≤ owned m a)
      → has m.store (f.before ++ f.behind) id ≡ false
  gone_lem m be id idx f w k within = has-none m.store (f.before ++ f.behind) id other
    where
      counted : (a : ℕ) → count a be ≡ count a (f.before ++ f.behind) + count a (f.found ∷ [])
      counted = Found-count be id idx f

      other : (a : ℕ) → 1 ≤ count a (f.before ++ f.behind) → id_of m.store a ≢ id
      other a h e =
          let apart : a ≢ f.found = ground (arith, counted a, within a, w.once a) in
          apart (
            k.own_id a f.found (omega (arith, counted a, within a))
              (ground (arith, counted f.found, within f.found)) (e ∙ sym f.has_id))

  has-add :
      (store : ℕ → Backend C) (be : List ℕ) (r : ℕ) (o : Text)
      → has store (be ++ r ∷ []) o
        ≡ (if has store be o then true else if same (id_of store r) o then true else false)
  has-add store be r o = has-append store be (r ∷ []) o

  -- Standings that the lists show to differ at one ID only.
  pub standing-set :
      (m m' : Manager C) (c : ℕ) (id : Text) (s : Standing)
      → ((o : Text)
          → by_lists (has m'.store m'.disabled_be o) (has m'.store m'.backends o) ≡ (
              if same (c ∷ id) o
              then s
              else by_lists (has m.store m.disabled_be o) (has m.store m.backends o)))
      → (o : Text) → standing m' o ≡ set (c ∷ id) s (standing m) o
  unfolding same
  standing-set m m' c id s h [] = rw (standing-nil m', standing-nil m) refl
  standing-set m m' c id s h (d ∷ o) = rw (standing_lem m' d o, standing_lem m d o) (h (d ∷ o))

  -- The well-formed pools of which this is the result and the standing of every ID.
  abbrev pub Moves : Command → Text → Manager C → Result × Manager C → Type 0
  Moves c id m t =
      IsWellFormed t.1
      × IsCoherent t.1
      × (t.0 ≡ (promise c (standing m id)).0)
      × ((o : Text) → standing t.1 o ≡ set id (promise c (standing m id)).1 (standing m) o)

  -- A call that changes nothing.
  pub Moves-still :
      (c : Command) (id : Text) (m : Manager C) (result : Result)
      → IsWellFormed m
      → IsCoherent m
      → promise c (standing m id) ≡ (result, standing m id)
      → Moves c id m (result, m)
  Moves-still c id m result w k e = (w, k, ap (λ p. p.0) (sym e), still)
    where
      still : (o : Text) → standing m o ≡ set id (promise c (standing m id)).1 (standing m) o
      still o = elim (Bool-cases (same id o)) [
        | inl hit ↦ rw (hit, e, sym (same→eq id o hit)) refl
        | inr miss ↦ rw (miss) refl
      ]

  pub id_of-flag :
      (store : ℕ → Backend C) (b : Bool) (r a : ℕ)
      → id_of (update store r (record (store r) { enabled = b })) a ≡ id_of store a
  unfolding update
  id_of-flag store b r a = ground arith

  pub Moves-from :
      (c : Command) (id : Text) (m : Manager C) (s : Standing) (t : Result × Manager C)
      → standing m id ≡ s
      → IsWellFormed t.1
      → IsCoherent t.1
      → t.0 ≡ (promise c s).0
      → ((o : Text) → standing t.1 o ≡ set id (promise c s).1 (standing m) o)
      → Moves c id m t
  Moves-from c id m s t e w k result set_so = (
    w,
    k,
    result ∙ ap (λ x. (promise c x).0) (sym e),
    λ o. set_so o ∙ ap (λ x. set id (promise c x).1 (standing m) o) (sym e),
  )

  pub disable_at-Moves :
      (c : ℕ) (id : Text) (idx : ℕ) (m : Manager C)
      → Found m.store m.backends (c ∷ id) idx
      → standing m (c ∷ id) ≡ enabled
      → IsWellFormed m
      → IsCoherent m
      → Returns (Moves disable (c ∷ id) m) (disable_at idx m)
  disable_at-Moves c id idx m f e w k = rw (disable_at-effect (c ∷ id) idx m f) (
      Moves-from disable (c ∷ id) m enabled _ e
        (disabled-IsPartition m.backends m.disabled_be m.next_ref m.store (c ∷ id) idx f w)
        (kept-IsCoherent m _ k refl (id_of-flag m.store false f.found) (λ a. omega (
          arith,
          Found-count m.backends (c ∷ id) idx f a,
          count-append a m.disabled_be (f.found ∷ []),
        )))
        refl (standing-set m _ c id disabled shown))
    where
      flagged : ℕ → Backend C
      flagged = update m.store f.found (record (m.store f.found) { enabled = false })

      shown :
          (o : Text)
          → by_lists
              (has flagged (m.disabled_be ++ f.found ∷ []) o)
              (has flagged (f.before ++ f.behind) o)
            ≡ (if same (c ∷ id) o
                then disabled
                else by_lists (has m.store m.disabled_be o) (has m.store m.backends o))
      shown o =
          rw
            (
              has-store m.store flagged (m.disabled_be ++ f.found ∷ []) o
                  (id_of-flag m.store false f.found),
              has-store m.store flagged (f.before ++ f.behind) o (id_of-flag m.store false f.found),
              has-add m.store m.disabled_be f.found o,
              has-left m.store m.backends (c ∷ id) idx f o
                  (gone_lem m m.backends (c ∷ id) idx f w k (λ a. omega arith)),
              f.has_id,
            )
            (by_lists-disabled (same (c ∷ id) o) (has m.store m.disabled_be o)
              (has m.store m.backends o))

  pub enable_at-Moves :
      (c : ℕ) (id : Text) (idx : ℕ) (m : Manager C)
      → Found m.store m.disabled_be (c ∷ id) idx
      → standing m (c ∷ id) ≡ disabled
      → IsWellFormed m
      → IsCoherent m
      → Returns (Moves enable (c ∷ id) m) (enable_at idx m)
  enable_at-Moves c id idx m f e w k = rw (enable_at-effect (c ∷ id) idx m f) (
      Moves-from enable (c ∷ id) m disabled _ e
        (enabled-IsPartition m.backends m.disabled_be m.next_ref m.store (c ∷ id) idx f w)
        (kept-IsCoherent m _ k refl (id_of-flag m.store true f.found) (λ a. omega (
          arith,
          Found-count m.disabled_be (c ∷ id) idx f a,
          count-append a m.backends (f.found ∷ []),
        )))
        refl (standing-set m _ c id enabled shown))
    where
      flagged : ℕ → Backend C
      flagged = update m.store f.found (record (m.store f.found) { enabled = true })

      shown :
          (o : Text)
          → by_lists
              (has flagged (f.before ++ f.behind) o)
              (has flagged (m.backends ++ f.found ∷ []) o)
            ≡ (if same (c ∷ id) o
                then enabled
                else by_lists (has m.store m.disabled_be o) (has m.store m.backends o))
      shown o =
          rw
            (
              has-store m.store flagged (m.backends ++ f.found ∷ []) o
                  (id_of-flag m.store true f.found),
              has-store m.store flagged (f.before ++ f.behind) o (id_of-flag m.store true f.found),
              has-add m.store m.backends f.found o,
              has-left m.store m.disabled_be (c ∷ id) idx f o
                  (gone_lem m m.disabled_be (c ∷ id) idx f w k (λ a. omega arith)),
              f.has_id,
            )
            (by_lists-enabled (same (c ∷ id) o) (has m.store m.disabled_be o)
              (has m.store m.backends o))
