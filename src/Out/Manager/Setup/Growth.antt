-- ===== src/Out/Manager/Setup/Growth.antt =====
-- What `NewManager`, `AddBackend` and `ResetBackend` keep.
use wsbalancer.Prelude.{
  ℕ, suc, ◌+◌, ◌≤◌, ◌≡◌, refl, sym, ◌≢◌, inl, inr, List, [], ◌∷◌, ◌++◌, Option, none, some, Text, ℤ,
  same, same_iff, same_refl, count, count-append, Option-cases, Bool-cases, arith, ◌==◌,
  if◌then◌else◌, ◌∙◌, ap,
}
use wsbalancer.Out.Config.{BackendConfig, sanitize_backend, append_backend, or_normalized}
use wsbalancer.Out.Backend.{Circuit, Backend, new_backend, reset}
use wsbalancer.Out.Manager.{Manager, NewBackendDef, update, id_of}
use wsbalancer.Out.Manager.Invariant.{IsPartition, IsWellFormed}
use wsbalancer.Out.Manager.Deletion.{count_id, HasNoNil}
use wsbalancer.Out.Manager.Coherence.{IsCoherent, owned}
use wsbalancer.Out.Manager.Setup.{set_last, apply_def, add_def, add_checked, add_backend, url_known}

set_last-append :
    (bks : List (Option BackendConfig)) (x : Option BackendConfig) (bk : BackendConfig)
    → set_last (bks ++ x ∷ []) bk ≡ bks ++ some bk ∷ []
set_last-append [] x bk = refl
set_last-append (y ∷ []) x bk = refl
set_last-append (y ∷ z ∷ bks) x bk = ap (◌∷◌ y) (set_last-append (z ∷ bks) x bk)

count_id-append :
    (id : Text) (bks : List (Option BackendConfig)) (bk : BackendConfig)
    → count_id id (bks ++ some bk ∷ []) ≡ count_id id bks + (if same bk.id id then 1 else 0)
count_id-append id [] bk = omega arith
count_id-append id (none ∷ bks) bk = count_id-append id bks bk
count_id-append id (some b ∷ bks) bk = omega (arith, count_id-append id bks bk)

HasNoNil-append :
    (bks : List (Option BackendConfig)) (bk : BackendConfig)
    → HasNoNil bks
    → HasNoNil (bks ++ some bk ∷ [])
HasNoNil-append [] bk h = tt
HasNoNil-append (none ∷ bks) bk h = absurd h
HasNoNil-append (some b ∷ bks) bk h = HasNoNil-append bks bk h

module _ {C W : Type 0} (breaker : Circuit C W) where
  grown-IsPartition :
      (be dis : List ℕ) (next : ℕ) (store : ℕ → Backend C) (config : BackendConfig)
      → IsPartition be dis next store
      → IsPartition
          (be ++ next ∷ [])
          dis
          (suc next)
          (update store next (new_backend breaker config))
  unfolding update new_backend
  grown-IsPartition be dis next store config p = record {
    once = λ a. ground (arith, p.once a, p.fresh a, added a);
    alive = λ a h. ground (arith, p.alive a, added a);
    dead = λ a h. ground (arith, p.dead a, p.fresh a);
    fresh = λ a h. ground (arith, p.fresh a, added a);
  }
    where
      added : (a : ℕ) → count a (be ++ next ∷ []) ≡ count a be + count a (next ∷ [])
      added a = count-append a be (next ∷ [])

  grown-id :
      (store : ℕ → Backend C) (next a : ℕ) (bk : BackendConfig)
      → id_of (update store next (new_backend breaker bk)) a
        ≡ (if a == next then bk.id else id_of store a)
  unfolding update new_backend
  grown-id store next a bk = ground arith

  grown-IsCoherent :
      (m m' : Manager C) (bk : BackendConfig)
      → IsWellFormed m
      → IsCoherent m
      → count_id bk.id m.config.backends ≡ 0
      → m'.config.backends ≡ m.config.backends ++ some bk ∷ []
      → m'.store ≡ update m.store m.next_ref (new_backend breaker bk)
      → ((a : ℕ) → owned m' a ≡ owned m a + count a (m.next_ref ∷ []))
      → IsCoherent m'
  grown-IsCoherent m m' bk w c new ec es added = record {
    no_nil = rw ec (HasNoNil-append m.config.backends bk c.no_nil);
    one_entry = λ a p. rw (ec, es, grown-id) (entry a p);
    own_id = λ a b p q e. distinct a b p q (sym (named a) ∙ e ∙ named b);
  }
    where
      named : (a : ℕ) → id_of m'.store a ≡ (if a == m.next_ref then bk.id else id_of m.store a)
      named a = rw es (grown-id m.store m.next_ref a bk)

      unlike : (a : ℕ) → 1 ≤ owned m a → bk.id ≢ id_of m.store a
      unlike a p e =
          absurd (omega (arith, c.one_entry a p, new, ap (λ t. count_id t m.config.backends) e))

      entry :
          (a : ℕ)
          → 1 ≤ owned m' a
          → count_id
              (if a == m.next_ref then bk.id else id_of m.store a)
              (m.config.backends ++ some bk ∷ [])
            ≡ 1
      entry a p = elim (Bool-cases (a == m.next_ref)) [
        | inl hit ↦
            rw hit (count_id-append bk.id m.config.backends bk ∙ rw (new, same_refl bk.id) refl)
        | inr miss ↦ rw miss (
            ground (
              arith,
              count_id-append (id_of m.store a) m.config.backends bk,
              c.one_entry a,
              unlike a,
              same_iff bk.id (id_of m.store a),
              added a,
            ))
      ]

      distinct :
          (a b : ℕ)
          → 1 ≤ owned m' a
          → 1 ≤ owned m' b
          → (if a == m.next_ref then bk.id else id_of m.store a)
            ≡ (if b == m.next_ref then bk.id else id_of m.store b)
          → a ≡ b
      distinct a b p q e = ground (arith, added a, added b, unlike a, unlike b, c.own_id a b, sym e)

  module _ (unmarshal : List ℕ → Option NewBackendDef) (time_parse : Text → Option ℤ) where
    -- Adding a backend keeps the pool well formed, whatever the request.
    pub add_backend-IsWellFormed :
        (bytes : List ℕ) (m : Manager C)
        → IsWellFormed m
        → IsWellFormed (add_backend breaker unmarshal time_parse bytes m).1
    unfolding add_backend
    add_backend-IsWellFormed bytes m p = elim (Option-cases (unmarshal bytes)) [
      | inl e ↦ rw (e, add_backend) p
      | inr (d, e) ↦ rw (e, add_backend) (checked d d.url)
    ]
      where
        checked :
            (d : NewBackendDef) (url : Text)
            → IsWellFormed (add_checked breaker unmarshal time_parse d url m).1
        checked d [] = p
        checked d (c ∷ url) =
            elim (Bool-cases
              (url_known breaker unmarshal time_parse m.store (c ∷ url) m.backends)) [
                | inl known ↦ rw known p
                | inr new ↦
                    rw new (grown-IsPartition m.backends m.disabled_be m.next_ref m.store _ p)
              ]

    -- The entry that a request adds.
    abbrev added_config : NewBackendDef → Manager C → BackendConfig
    added_config d m =
        apply_def breaker unmarshal time_parse d (append_backend m.config d.url d.id).1

    added_id :
        (d : NewBackendDef) (m : Manager C) → (added_config d m).id ≡ or_normalized d.id d.url
    unfolding apply_def append_backend sanitize_backend
    added_id d m = ground arith

    add_def-IsCoherent :
        (d : NewBackendDef) (m : Manager C)
        → IsWellFormed m
        → IsCoherent m
        → count_id (or_normalized d.id d.url) m.config.backends ≡ 0
        → IsCoherent (add_def breaker unmarshal time_parse d m)
    unfolding add_def apply_def append_backend sanitize_backend
    add_def-IsCoherent d m w c new =
        grown-IsCoherent m _ (added_config d m) w c
          (ap (λ t. count_id t m.config.backends) (added_id d m) ∙ new)
          (set_last-append m.config.backends _ (added_config d m)) refl
          (λ a. omega (arith, count-append a m.backends (m.next_ref ∷ [])))

    -- On a well-formed pool where distinct backends have distinct IDs and one entry of the
    -- configuration each, a request that decodes, and whose ID, given or derived from the URL, no
    -- entry of the configuration has, keeps this.
    pub add_backend-IsCoherent :
        (bytes : List ℕ) (d : NewBackendDef) (m : Manager C)
        → IsWellFormed m
        → IsCoherent m
        → unmarshal bytes ≡ some d
        → count_id (or_normalized d.id d.url) m.config.backends ≡ 0
        → IsCoherent (add_backend breaker unmarshal time_parse bytes m).1
    unfolding add_backend
    add_backend-IsCoherent bytes d m w c e new = rw (e, add_backend) (checked d.url)
      where
        checked : (url : Text) → IsCoherent (add_checked breaker unmarshal time_parse d url m).1
        checked [] = c
        checked (h ∷ url) =
            elim (Bool-cases
              (url_known breaker unmarshal time_parse m.store (h ∷ url) m.backends)) [
                | inl known ↦ rw known c
                | inr fresh ↦ rw fresh (add_def-IsCoherent d m w c new)
              ]

  pub reset-IsPartition :
      (be dis : List ℕ) (next r : ℕ) (store : ℕ → Backend C) (w : W)
      → IsPartition be dis next store
      → IsPartition be dis next (update store r (reset breaker w (store r)))
  unfolding update reset
  reset-IsPartition be dis next r store w p = record {
    once = p.once;
    alive = λ a h. ground (arith, p.alive a);
    dead = λ a h. ground (arith, p.dead a);
    fresh = p.fresh;
  }
