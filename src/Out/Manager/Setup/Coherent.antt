-- ===== src/Out/Manager/Setup/Coherent.antt =====
-- The pool that `NewManager` of out/outc_manager.go makes of a configuration with distinct IDs.
use wsbalancer.Prelude.{
  ℕ, suc, ◌+◌, ◌≤◌, ◌<◌, ◌≡◌, ◌≢◌, refl, ap, sym, ◌∙◌, false, List, [], ◌∷◌, Option, none, some,
  Text, same, same_refl, same→eq, Bool-cases, ==_iff, true, All, count, Returns, Returns-bind,
  Returns-both, Returns-UnlessPanics, length, arith, ◌==◌, if◌then◌else◌, inl, inr,
}
use mathlib.Core.Path.{subst}
use wsbalancer.Out.Config.{BackendConfig, UpstreamConfig, sanitize}
use wsbalancer.Out.Config.Sanitized.{IsSane, IsGiven, IsMatched, sanitize-Sane}
use wsbalancer.Out.Config.Sanitized.Identified.{ids_of, final_ids, sanitize-ids}
use wsbalancer.Out.Backend.{Circuit, Backend, new_backend}
use wsbalancer.Out.Manager.{Manager, id_of, update}
use wsbalancer.Out.Manager.Deletion.{count_id, HasNoNil}
use wsbalancer.Out.Manager.Coherence.{IsCoherent, owned}
use wsbalancer.Out.Manager.Setup.{make_backends, start_with, new_manager}

-- How often the text is one of the list.
abbrev pub count_text : Text → List Text → ℕ
count_text id [] = 0
count_text id (x ∷ xs) = (if same x id then 1 else 0) + count_text id xs

abbrev pub AreDistinct : List Text → Type 0
AreDistinct [] = Unit
AreDistinct (id ∷ ids) = (count_text id ids ≡ 0) × AreDistinct ids

count_text-Distinct : (id : Text) (ids : List Text) → AreDistinct ids → count_text id ids ≤ 1
count_text-Distinct id [] h = omega arith
count_text-Distinct id (x ∷ ids) h =
    let rest = count_text-Distinct id ids h.1 in
    elim (Bool-cases (same x id)) [
      | inl e ↦
          let no_more : count_text id ids ≡ 0 =
            subst (λ y. count_text y ids ≡ 0) (same→eq x id e) h.0 in
          rw (e) (omega (arith, no_more))
      | inr e ↦ rw (e) (omega (arith, rest))
    ]

count_id-ids :
    (id : Text) (bks : List (Option BackendConfig)) → count_id id bks ≡ count_text id (ids_of bks)
count_id-ids id [] = refl
count_id-ids id (none ∷ bks) = count_id-ids id bks
count_id-ids id (some bk ∷ bks) =
    ap (λ k. (if same bk.id id then 1 else 0) + k) (count_id-ids id bks)

HasNoNil-Sane : (bks : List (Option BackendConfig)) → All IsSane bks → HasNoNil bks
HasNoNil-Sane [] h = tt
HasNoNil-Sane (none ∷ bks) h = absurd h.0
HasNoNil-Sane (some bk ∷ bks) h = HasNoNil-Sane bks h.1

module _ {C W : Type 0} (breaker : Circuit C W) where
  -- The IDs of the objects of a list.
  abbrev named : (ℕ → Backend C) → List ℕ → List Text
  named store [] = []
  named store (r ∷ refs) = id_of store r ∷ named store refs

  count_text-named :
      (store : ℕ → Backend C) (a : ℕ) (refs : List ℕ)
      → count a refs ≤ count_text (id_of store a) (named store refs)
  count_text-named store a [] = omega arith
  count_text-named store a (r ∷ refs) =
      let rest = count_text-named store a refs in
      elim (Bool-cases (r == a)) [
        | inl e ↦
            let its_own : same (id_of store r) (id_of store a) ≡ true =
              rw ((==_iff r a).0 e) (same_refl (id_of store a)) in
            rw (e, its_own) (omega (arith, rest))
        | inr e ↦ rw (e) (omega (arith, rest))
      ]

  -- Two objects of one ID are counted twice.
  count_text-pair :
      (store : ℕ → Backend C) (a b : ℕ) (refs : List ℕ)
      → a ≢ b
      → id_of store a ≡ id_of store b
      → count a refs + count b refs ≤ count_text (id_of store a) (named store refs)
  count_text-pair store a b [] apart e = omega arith
  count_text-pair store a b (r ∷ refs) apart e =
      let rest = count_text-pair store a b refs apart e in
      elim (Bool-cases (r == a)) [
        | inl at ↦
            let its_own : same (id_of store r) (id_of store a) ≡ true =
              rw ((==_iff r a).0 at) (same_refl (id_of store a)) in
            let other : (r == b) ≡ false = ground (arith, at, apart) in
            rw (at, other, its_own) (omega (arith, rest))
        | inr at ↦ elim (Bool-cases (r == b)) [
          | inl at' ↦
              let its_own : same (id_of store r) (id_of store a) ≡ true =
                rw ((==_iff r b).0 at', e) (same_refl (id_of store b)) in
              rw (at, at', its_own) (omega (arith, rest))
          | inr at' ↦ rw (at, at') (omega (arith, rest))
        ]
      ]

  update-here : (store : ℕ → Backend C) (a : ℕ) (bk : Backend C) → update store a bk a ≡ bk
  unfolding update
  update-here store a bk = rw ((==_iff a a).1 refl) refl

  update-apart :
      (store : ℕ → Backend C) (a b : ℕ) (bk : Backend C) → b < a → update store a bk b ≡ store b
  unfolding update
  update-apart store a b bk l = ground arith

  make_backends-named :
      (bks : List (Option BackendConfig)) (next : ℕ) (store : ℕ → Backend C)
      → All IsSane bks
      → Returns
          (λ t. (named t.1 t.0 ≡ ids_of bks) × ((a : ℕ) → a < next → t.1 a ≡ store a))
          (make_backends breaker bks next store)
  unfolding make_backends new_backend
  make_backends-named [] next store h = (refl, λ a l. refl)
  make_backends-named (none ∷ bks) next store h = absurd h.0
  make_backends-named (some bk ∷ bks) next store h =
      let store' = update store next (new_backend breaker bk) in
      Returns-bind (λ t. (named t.1 t.0 ≡ ids_of bks) × ((a : ℕ) → a < suc next → t.1 a ≡ store' a))
        (λ t. (named t.1 t.0 ≡ ids_of (some bk ∷ bks)) × ((a : ℕ) → a < next → t.1 a ≡ store a))
        (make_backends breaker bks (suc next) store') _
        (make_backends-named bks (suc next) store' h.1)
        (λ t s. (
          rw
              (ap (λ (b : Backend C). b.config.id)
                (s.1 next (omega arith) ∙ update-here store next (new_backend breaker bk)))
              (ap (λ ids. bk.id ∷ ids) s.0),
          λ a l. s.1 a (omega arith) ∙ update-apart store next a (new_backend breaker bk) l,
        ))

  abbrev pub CoherentIfAny : Option (Manager C) → Type 0
  CoherentIfAny none = Unit
  CoherentIfAny (some m) = IsCoherent m

  -- A pool over distinct objects with the IDs of the entries, which are distinct.
  named-IsCoherent :
      (m : Manager C)
      → HasNoNil m.config.backends
      → m.disabled_be ≡ []
      → named m.store m.backends ≡ ids_of m.config.backends
      → AreDistinct (ids_of m.config.backends)
      → IsCoherent m
  named-IsCoherent m no_nil empty e distinct = record {
    no_nil = no_nil;
    one_entry = λ a h.
        let listed = listed_one a h in
        let once = count_text-Distinct (id_of m.store a) (ids_of m.config.backends) distinct in
        let counted : count a m.backends ≤ count_text (id_of m.store a) (ids_of m.config.backends) =
          subst (λ ids. count a m.backends ≤ count_text (id_of m.store a) ids) e
            (count_text-named m.store a m.backends) in
        omega (arith, count_id-ids (id_of m.store a) m.config.backends);
    own_id = λ a b h h' same_id. elim (Bool-cases (a == b)) [
      | inl alike ↦ (==_iff a b).0 alike
      | inr alike ↦
          let apart : a ≢ b = ground (arith, alike) in
          let once = count_text-Distinct (id_of m.store a) (ids_of m.config.backends) distinct in
          let counted : count a m.backends + count b m.backends
              ≤ count_text (id_of m.store a) (ids_of m.config.backends) =
            subst
              (λ ids. count a m.backends + count b m.backends ≤ count_text (id_of m.store a) ids) e
              (count_text-pair m.store a b m.backends apart same_id) in
          let first = listed_one a h in let second = listed_one b h' in absurd (omega arith)
    ];
  }
    where
      listed_one : (a : ℕ) → 1 ≤ owned m a → 1 ≤ count a m.backends
      listed_one a h =
          let all : 1 ≤ count a m.backends + count a [] =
            subst (λ l. 1 ≤ count a m.backends + count a l) empty h in
          omega (arith, all)

  start_with-IsCoherent :
      (blank : Backend C) (config : UpstreamConfig) (bks : List (Option BackendConfig))
      → bks ≡ config.backends
      → All IsSane bks
      → AreDistinct (ids_of bks)
      → Returns CoherentIfAny (start_with breaker blank config bks)
  unfolding start_with
  start_with-IsCoherent blank config [] same_list h distinct = tt
  start_with-IsCoherent blank config (bk ∷ bks) same_list h distinct =
      Returns-bind (λ t. (named t.1 t.0 ≡ ids_of (bk ∷ bks)) × ((a : ℕ) → a < 0 → t.1 a ≡ blank))
        CoherentIfAny (make_backends breaker (bk ∷ bks) 0 (λ r. blank)) _
        (make_backends-named (bk ∷ bks) 0 (λ r. blank) h)
        (λ t s.
          named-IsCoherent _ (subst HasNoNil same_list (HasNoNil-Sane (bk ∷ bks) h)) refl
            (s.0 ∙ ap ids_of same_list) (subst (λ l. AreDistinct (ids_of l)) same_list distinct))

  pub new_manager-IsCoherent :
      (blank : Backend C) (uc : UpstreamConfig)
      → uc.sanitized ≡ false
      → All IsGiven uc.backends
      → IsMatched uc.urls uc.ids
      → AreDistinct (final_ids uc)
      → Returns CoherentIfAny (new_manager breaker blank uc)
  unfolding new_manager
  new_manager-IsCoherent blank uc fresh given matched distinct =
      let n = length uc.backends + length uc.urls in
      let IsFinal : UpstreamConfig → Type 0 = λ c. ids_of c.backends ≡ final_ids uc in
      let IsWhole : UpstreamConfig → Type 0 =
        λ c. All IsSane c.backends × (length c.backends ≡ n) in
      Returns-bind (λ c. IsWhole c × IsFinal c) CoherentIfAny (sanitize uc) _
        (Returns-both IsWhole IsFinal (sanitize uc) (sanitize-Sane uc fresh given matched)
          (Returns-UnlessPanics IsFinal (sanitize uc) (sanitize-ids uc fresh given matched)))
        (λ c s.
          start_with-IsCoherent blank c c.backends refl s.0.0
            (subst AreDistinct (sym s.1) distinct))
