-- ===== src/In/Sessions/Serving/Aborting.antt =====
-- Which clients `abortAllBackendConnections` of in/inc_manager.go tells to get another backend.
use wsbalancer.Prelude.{
  ◌⊎◌, All, ℕ, zero, suc, ◌+◌, ◌≡◌, refl, ap, ◌∙◌, Bool, true, false, List, [], ◌∷◌, ◌++◌, Option,
  none, some, Text, same, count, Returns, Returns-bind, Returns-both, Returns-mono, arith, ◌==◌,
  ==_iff, if◌then◌else◌, Bool-cases, inl, inr, sym, count-append,
}
use mathlib.Core.List.{append-nil, append_assoc}
use wsbalancer.In.Inc.{Socket, Valve, Inc, abort_backend}
use wsbalancer.In.Inc.Aborted.{IsSteady, abort_backend-done, abort_backend-Returns}
use wsbalancer.In.Sessions.{Backends, Manager, at_address, find, put_client}
use wsbalancer.In.Sessions.Keys.{Keyed}
use wsbalancer.Common.{Result, no_action_reqd, success}
use wsbalancer.In.Sessions.Serving.{
  some_of, abort_client, abort_each, matching_sessions, abort_all_backend_connections,
}

-- So many signals to get another backend.
abbrev signals : ℕ → List Bool
signals zero = []
signals (suc n) = true ∷ signals n

signals-add : (n m : ℕ) → signals (n + m) ≡ signals n ++ signals m
signals-add zero m = let same_number : (zero + m) ≡ m = omega arith in ap signals same_number
signals-add (suc n) m =
    let one_more : (suc n + m) ≡ suc (n + m) = omega arith in
    ap signals one_more ∙ ap (λ xs. true ∷ xs) (signals-add n m)

signals-none : (n : ℕ) → signals n ≡ [] → n ≡ 0
signals-none zero h = refl
signals-none (suc n) h = absurd (ground (arith, h))

at_address-done :
    {K : Type 0} (a : ℕ) (inc : Inc K) (store : ℕ → Inc K) (b : ℕ)
    → inc.done ≡ (store a).done ++ true ∷ []
    → (at_address a inc store b).done ≡ (store b).done ++ signals (count b (a ∷ []))
unfolding at_address
at_address-done a inc store b h = elim (Bool-cases (a == b)) [
  | inl e ↦ rw (sym ((==_iff a b).0 e), (==_iff a a).1 refl) h
  | inr e ↦
      let apart : (b == a) ≡ false = ground (arith, e) in
      rw (at_address, apart, e) (sym (append-nil (store b).done))
]

count-chosen :
    (p : Bool) (a b : ℕ) (xs : List ℕ)
    → (a == b) ≡ true
    → signals (count b xs) ≡ []
    → signals (count b (if p then a ∷ xs else xs)) ≡ (if p then true ∷ [] else [])
count-chosen true a b xs e h = rw (e) (signals-add 1 (count b xs) ∙ ap (λ rest. true ∷ rest) h)
count-chosen false a b xs e h = h

count-passed :
    (p : Bool) (a b : ℕ) (xs : List ℕ)
    → (a == b) ≡ false
    → signals (count b (if p then a ∷ xs else xs)) ≡ signals (count b xs)
count-passed true a b xs e = rw (e) (ap signals (omega arith))
count-passed false a b xs e = refl

module _ {K B W : Type 0} (ws : Socket K) (backends : Backends B K W) where
  open backends use {backend_id}

  -- The signals to a client with the backend.
  pub told_to : Text → Option B → List Bool
  told_to bid none = []
  told_to bid (some us) = if same (backend_id us) bid then true ∷ [] else []

  count-matching_sessions :
      (bid : Text) (clients : List (ℕ × B)) (b : ℕ)
      → Keyed clients
      → signals (count b (matching_sessions ws backends bid clients)) ≡ told_to bid (find b clients)
  unfolding matching_sessions Keyed told_to find
  count-matching_sessions bid [] b h = refl
  count-matching_sessions bid ((a, us) ∷ clients) b h =
      let rest = count-matching_sessions bid clients b h.1 in
      let taken = matching_sessions ws backends bid clients in
      elim (Bool-cases (a == b)) [
        | inl e ↦
            let gone : find b clients ≡ none = rw (sym ((==_iff a b).0 e)) h.0 in
            rw (e)
              (count-chosen (same (backend_id us) bid) a b taken e (rest ∙ ap (told_to bid) gone))
        | inr e ↦ rw (e) (count-passed (same (backend_id us) bid) a b taken e ∙ rest)
      ]

module _ {K B W : Type 0} (ws : Socket K) (backends : Backends B K W) (valves : ℕ → List (Valve W))
    (steady : (a : ℕ) → All IsSteady (valves a)) where
  -- The clients of a list, as often as they stand in it, got the signal.
  abbrev Signalled : List ℕ → Manager K B W → W × Manager K B W → Type 0
  Signalled sessions m t =
      (t.1.valves ≡ valves)
      × ((b : ℕ) → (t.1.store b).done ≡ (m.store b).done ++ signals (count b sessions))

  abort_client-Signalled :
      (a : ℕ) (w : W) (m : Manager K B W)
      → m.valves ≡ valves
      → Returns (Signalled (a ∷ []) m) (abort_client ws backends a w m)
  unfolding abort_client put_client
  abort_client-Signalled a w m e =
      let returned : Returns (λ t. Unit) (abort_backend (m.valves a) (m.store a) w) =
        abort_backend-Returns (m.valves a) (m.store a) w (rw (e) (steady a)) in
      Returns-bind (λ t. Unit × (t.0.done ≡ (m.store a).done ++ true ∷ [])) (Signalled (a ∷ []) m)
        (abort_backend (m.valves a) (m.store a) w) _
        (Returns-both (λ t. Unit) (λ t. t.0.done ≡ (m.store a).done ++ true ∷ [])
          (abort_backend (m.valves a) (m.store a) w) returned
          (abort_backend-done (m.valves a) (m.store a) w))
        (λ t h. (e, λ b. at_address-done a t.0 m.store b h.1))

  abort_each-Signalled :
      (sessions : List ℕ) (w : W) (m : Manager K B W)
      → m.valves ≡ valves
      → Returns (Signalled sessions m) (abort_each ws backends sessions w m)
  unfolding abort_each
  abort_each-Signalled [] w m e = (e, λ b. sym (append-nil (m.store b).done))
  abort_each-Signalled (a ∷ sessions) w m e =
      Returns-bind (Signalled (a ∷ []) m) (Signalled (a ∷ sessions) m)
        (abort_client ws backends a w m) _ (abort_client-Signalled a w m e)
        (λ t h.
          Returns-mono (abort_each ws backends sessions t.0 t.1)
            (λ t' h'. (
              h'.0,
              λ b.
                  h'.1 b
                  ∙ ap (λ xs. xs ++ signals (count b sessions)) (h.1 b)
                  ∙ append_assoc (m.store b).done (signals (count b (a ∷ [])))
                      (signals (count b sessions))
                  ∙ ap (λ xs. (m.store b).done ++ xs)
                      (sym (signals-add (count b (a ∷ [])) (count b sessions))
                        ∙ ap signals (sym (count-append b (a ∷ []) sessions))),
            ))
            (abort_each-Signalled sessions t.0 t.1 h.0))

module _ {K B W : Type 0} (ws : Socket K) (backends : Backends B K W) (bid : Text)
    (clients : List (ℕ × B)) where
  -- The result says whether there is a client with the backend.
  abbrev pub IsAnswered : Result → Type 0
  IsAnswered res =
      ((res ≡ no_action_reqd) × ((b : ℕ) → told_to ws backends bid (find b clients) ≡ []))
      ⊎ ((res ≡ success) × ((b : ℕ) × (told_to ws backends bid (find b clients) ≡ true ∷ [])))

  told_to-cases :
      (o : Option B) → (told_to ws backends bid o ≡ []) ⊎ (told_to ws backends bid o ≡ true ∷ [])
  unfolding told_to
  told_to-cases none = inl refl
  told_to-cases (some us) = ground arith

  some_of-IsAnswered :
      (sessions : List ℕ)
      → ((b : ℕ) → signals (count b sessions) ≡ told_to ws backends bid (find b clients))
      → IsAnswered (some_of ws backends sessions)
  unfolding some_of
  some_of-IsAnswered [] h = inl (refl, λ b. sym (h b))
  some_of-IsAnswered (a ∷ sessions) h = inr (
    refl,
    (
      a,
      elim (told_to-cases (find a clients)) [
        | inr e ↦ e
        | inl e ↦
            let no_signal = signals-none (count a (a ∷ sessions)) (h a ∙ e) in
            absurd (ground (arith, no_signal, (==_iff a a).1 refl))
      ],
    ),
  )

module _ {K B W : Type 0} (ws : Socket K) (backends : Backends B K W) where
  pub abort_all-told_to :
      (bid : Text) (w : W) (m : Manager K B W)
      → Keyed m.clients
      → ((a : ℕ) → All IsSteady (m.valves a))
      → Returns
          (λ t.
            IsAnswered ws backends bid m.clients t.0
            × ((b : ℕ)
                → (t.1.1.store b).done
                  ≡ (m.store b).done ++ told_to ws backends bid (find b m.clients)))
          (abort_all_backend_connections ws backends bid w m)
  unfolding abort_all_backend_connections
  abort_all-told_to bid w m keyed steady =
      let sessions = matching_sessions ws backends bid m.clients in
      let orders : (b : ℕ)
          → signals (count b sessions) ≡ told_to ws backends bid (find b m.clients) =
        λ b. count-matching_sessions ws backends bid m.clients b keyed in
      Returns-bind (Signalled ws backends m.valves steady sessions m)
        (λ t.
          IsAnswered ws backends bid m.clients t.0
          × ((b : ℕ)
              → (t.1.1.store b).done
                ≡ (m.store b).done ++ told_to ws backends bid (find b m.clients)))
        (abort_each ws backends sessions w m) _
        (abort_each-Signalled ws backends m.valves steady sessions w m refl)
        (λ t h. (
          some_of-IsAnswered ws backends bid m.clients sessions orders,
          λ b. h.1 b ∙ ap (λ xs. (m.store b).done ++ xs) (orders b),
        ))
