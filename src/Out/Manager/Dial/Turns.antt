-- ===== src/Out/Manager/Dial/Turns.antt =====
-- Which backend answers a dial of out/outc_manager.go, and when the pool answers itself.
use wsbalancer.Prelude.{
  ℕ, ◌+◌, ◌<◌, ◌≡◌, refl, sym, ap, ◌⊎◌, inl, inr, List, [], ◌∷◌, ◌++◌, codes, Returns, Returns-both,
  Returns-UnlessPanics, ◌^◌, ◌%◌, length,
}
use mathlib.Core.Path.{subst}
use wsbalancer.Common.{system_unavailable, connection_declined, new_system_unavailable_error}
use wsbalancer.Out.Backend.{
  Circuit, Backend, BackendDialContext, DialRequest, DialReply, DialResult, connected, refused,
  dial_backend,
}
use wsbalancer.Out.Manager.{Manager, update}
use wsbalancer.Out.Manager.Dial.{Upstream, choose, exhausted, stop_at, dial_each, dial_upstream}
use wsbalancer.Out.Manager.Dial.Outcome.{IsDialed, dial_upstream-IsDialed}
use wsbalancer.Out.Manager.Invariant.{IsWellFormed}
use wsbalancer.Out.Manager.RoundRobin.{turn, next_backend_list_lem}

-- A backend that is unavailable, and one that connects or declines.
abbrev pub IsUnavailable : {K : Type 0} → DialResult K → Type 0
IsUnavailable (connected oc) = ⊥
IsUnavailable (refused (connection_declined e)) = ⊥
IsUnavailable (refused (system_unavailable e)) = Unit

abbrev pub IsFinal : {K : Type 0} → DialResult K → Type 0
IsFinal (connected oc) = Unit
IsFinal (refused (connection_declined e)) = Unit
IsFinal (refused (system_unavailable e)) = ⊥

module _ {C K W : Type 0} (breaker : Circuit C W) (dial : DialRequest → W → DialReply K × W)
    (ctx : BackendDialContext K) where
  -- The backends of the list are dialled in turn, each of them is unavailable, and this is what they
  -- leave.
  abbrev pub Passed : List ℕ → (ℕ → Backend C) → W → (ℕ → Backend C) → W → Type 0
  Passed [] store w store' w' = (store' ≡ store) × (w' ≡ w)
  Passed (r ∷ rs) store w store' w' =
      let d = dial_backend breaker dial ctx (store r) w in
      IsUnavailable d.result × Passed rs (update store r d.backend) d.world store' w'

  -- The answer is that of the first backend of the list that is available.
  pub record AnsweredBy (rs : List ℕ) (store : ℕ → Backend C) (w : W) (result : DialResult K)
      : Type 0 where
    pub before : List ℕ
    pub backend : ℕ
    pub after : List ℕ
    pub order : rs ≡ before ++ backend ∷ after
    pub store' : ℕ → Backend C
    pub w' : W
    pub passed : Passed before store w store' w'
    pub answer : result ≡ (dial_backend breaker dial ctx (store' backend) w').result
    pub final : IsFinal result

  -- All are unavailable, and the answer is the pool's own.
  pub record AllUnavailable (rs : List ℕ) (store : ℕ → Backend C) (w : W) (result : DialResult K)
      : Type 0 where
    pub store' : ℕ → Backend C
    pub w' : W
    pub passed : Passed rs store w store' w'
    pub own :
        result
        ≡ refused (new_system_unavailable_error (codes "system") (codes "All backend exhausted!"))

  abbrev pub InTurn : List ℕ → (ℕ → Backend C) → W → DialResult K → Type 0
  InTurn rs store w result = AnsweredBy rs store w result ⊎ AllUnavailable rs store w result

  here_first :
      (r : ℕ) (rs : List ℕ) (store : ℕ → Backend C) (w : W)
      → let d = dial_backend breaker dial ctx (store r) w in
        IsFinal d.result → InTurn (r ∷ rs) store w d.result
  here_first r rs store w final = inl (record {
    before = [];
    backend = r;
    after = rs;
    order = refl;
    store' = store;
    w' = w;
    passed = (refl, refl);
    answer = refl;
    final = final;
  })

  passed_by :
      (r : ℕ) (rs : List ℕ) (store : ℕ → Backend C) (w : W) (result : DialResult K)
      → let d = dial_backend breaker dial ctx (store r) w in
        IsUnavailable d.result
        → InTurn rs (update store r d.backend) d.world result
        → InTurn (r ∷ rs) store w result
  passed_by r rs store w result gone (inl h) = inl (record {
    before = r ∷ h.before;
    backend = h.backend;
    after = h.after;
    order = ap (λ l. r ∷ l) h.order;
    store' = h.store';
    w' = h.w';
    passed = (gone, h.passed);
    answer = h.answer;
    final = h.final;
  })
  passed_by r rs store w result gone (inr h) =
      inr (record { store' = h.store'; w' = h.w'; passed = (gone, h.passed); own = h.own })

  choose-InTurn :
      (r : ℕ) (rs : List ℕ) (store : ℕ → Backend C) (w : W) (result : DialResult K)
      (rest : Upstream C K W)
      → let d = dial_backend breaker dial ctx (store r) w in
        d.result ≡ result
        → InTurn rs (update store r d.backend) d.world rest.result
        → InTurn (r ∷ rs) store w (choose result (stop_at breaker dial ctx store r d) rest).result
  unfolding choose stop_at
  choose-InTurn r rs store w (connected oc) rest e h =
      here_first r rs store w (subst IsFinal (sym e) tt)
  choose-InTurn r rs store w (refused (connection_declined x)) rest e h =
      here_first r rs store w (subst IsFinal (sym e) tt)
  choose-InTurn r rs store w (refused (system_unavailable x)) rest e h =
      passed_by r rs store w rest.result (subst IsUnavailable (sym e) tt) h

  dial_each-InTurn :
      (rs : List ℕ) (store : ℕ → Backend C) (w : W)
      → InTurn rs store w (dial_each breaker dial ctx rs store w).result
  unfolding dial_each exhausted
  dial_each-InTurn [] store w =
      inr (record { store' = store; w' = w; passed = (refl, refl); own = refl })
  dial_each-InTurn (r ∷ rs) store w =
      let d = dial_backend breaker dial ctx (store r) w in
      let rest = dial_each breaker dial ctx rs (update store r d.backend) d.world in
      choose-InTurn r rs store w d.result rest refl
        (dial_each-InTurn rs (update store r d.backend) d.world)

  -- The enabled backends, from the one whose turn it is.
  abbrev pub PoolInTurn : Manager C → W → DialResult K → Type 0
  PoolInTurn m w result =
      InTurn (turn ((m.next_backend_idx + 1) % length m.backends) m.backends) m.store w result

  in_turn :
      (m : Manager C) (w : W)
      → m.next_backend_idx + 1 + length m.backends < 2 ^ 63
      → Returns (λ t. PoolInTurn m w t.0.result) (dial_upstream breaker dial ctx m w)
  unfolding dial_upstream
  in_turn m w small =
      let picked = turn ((m.next_backend_idx + 1) % length m.backends) m.backends in
      rw (next_backend_list_lem m small) (dial_each-InTurn picked m.store w)

  -- On a well-formed pool, while the counter's next value and the number of the enabled backends add
  -- up to less than 2^63, a dial returns. The enabled backends are dialled in turn, from the one behind
  -- the counter, until one connects or declines, and the answer is that one's; or each of them was
  -- dialled and unavailable, and the answer is the pool's own. A new connection takes over exactly
  -- the unsent messages of the old one, and a refusal leaves that as it was; disabled backends are not
  -- touched, no configuration changes, the counter goes up by one, and the pool stays well formed.
  pub dial_upstream-InTurn :
      (m : Manager C) (w : W)
      → IsWellFormed m
      → m.next_backend_idx + 1 + length m.backends < 2 ^ 63
      → Returns
          (λ t. IsDialed breaker dial ctx m t.0 t.1 × PoolInTurn m w t.0.result)
          (dial_upstream breaker dial ctx m w)
  dial_upstream-InTurn m w p small =
      let up = dial_upstream breaker dial ctx m w in
      Returns-both (λ t. IsDialed breaker dial ctx m t.0 t.1) (λ t. PoolInTurn m w t.0.result) up
        (dial_upstream-IsDialed breaker dial ctx m w p small)
        (Returns-UnlessPanics (λ t. PoolInTurn m w t.0.result) up (in_turn m w small))
