-- ===== src/Out/Manager/Dial/Outcome.antt =====
-- What a dial over the backends does: to the pool, and to the messages of the connection that it
-- replaces.
use wsbalancer.Prelude.{
  ℕ, ◌+◌, ◌≤◌, ◌<◌, ◌≡◌, refl, ◌⊎◌, inl, inr, List, [], ◌∷◌, codes, count, Returns, arith, ◌∙◌, ◌^◌,
  ◌%◌, length, UnlessPanics, Exec-cases,
}
use mathlib.Core.Path.{subst}
use wsbalancer.Common.{system_unavailable, connection_declined, new_system_unavailable_error}
use wsbalancer.Out.Backend.{
  Circuit, Backend, BackendDialContext, DialRequest, DialReply, DialResult, connected, refused,
  Dialed, dial_backend,
}
use wsbalancer.Out.Backend.Accounting.{Handed, Named, IsAccounted, dial_backend-AccountedFor}
use wsbalancer.Out.Manager.{Manager, update, id_of, next_backend_list, pick_from}
use wsbalancer.Out.Manager.Dial.{Upstream, choose, exhausted, stop_at, dial_each, dial_upstream}
use wsbalancer.Out.Manager.Invariant.{IsPartition, IsWellFormed}
use wsbalancer.Out.Manager.RoundRobin.{turn, next_backend_list_lem}

pub choose_rule {ℓ} :
    {K A : Type 0} (P : A → Type ℓ) (result : DialResult K) {here rest : A}
    → P here
    → P rest
    → P (choose result here rest)
unfolding choose
choose_rule P (connected oc) h r = h
choose_rule P (refused (connection_declined e)) h r = h
choose_rule P (refused (system_unavailable e)) h r = r

module _ {C K W : Type 0} (breaker : Circuit C W) (dial : DialRequest → W → DialReply K × W)
    (ctx : BackendDialContext K) where
  -- One of the listed backends gave the answer, or none was left and it is the pool's own.
  abbrev pub Answered : List ℕ → (ℕ → Backend C) → DialResult K → Type 0
  Answered rs store result =
      ((r : ℕ) × (1 ≤ count r rs) × Named (id_of store r) result)
      ⊎ (result
          ≡ refused
              (new_system_unavailable_error (codes "system") (codes "All backend exhausted!")))

  -- Backends that are not listed are not touched; no dial changes a configuration or a flag.
  pub record IsUpstream (rs : List ℕ) (store : ℕ → Backend C) (up : Upstream C K W) : Type 0 where
    pub answered : Answered rs store up.result
    pub handed : Handed ctx.old_connection up.old_connection up.result
    pub others : (a : ℕ) → count a rs ≡ 0 → up.store a ≡ store a
    pub config : (a : ℕ) → (up.store a).config ≡ (store a).config
    pub enabled : (a : ℕ) → (up.store a).enabled ≡ (store a).enabled

  exhausted-IsUpstream :
      (store : ℕ → Backend C) (w : W) → IsUpstream [] store (exhausted breaker dial ctx store w)
  unfolding exhausted
  exhausted-IsUpstream store w = record {
    answered = inr refl;
    handed = refl;
    others = λ a h. refl;
    config = λ a. refl;
    enabled = λ a. refl;
  }

  stop_at-IsUpstream :
      (r : ℕ) (rs : List ℕ) (store : ℕ → Backend C) (d : Dialed C K W)
      → IsAccounted ctx.old_connection (store r) d.backend d.old_connection d.result
      → IsUpstream (r ∷ rs) store (stop_at breaker dial ctx store r d)
  unfolding stop_at update
  stop_at-IsUpstream r rs store d h = record {
    answered = inl (r, ground arith, h.named);
    handed = h.handed;
    others = λ a e. ground arith;
    config = λ a. ground (arith, h.config);
    enabled = λ a. ground (arith, h.enabled);
  }

  id_of-update :
      (r a : ℕ) (store : ℕ → Backend C) (bk : Backend C)
      → bk.config ≡ (store r).config
      → id_of (update store r bk) a ≡ id_of store a
  unfolding update
  id_of-update r a store bk e = ground arith

  skip-IsUpstream :
      (r : ℕ) (rs : List ℕ) (store : ℕ → Backend C) (d : Dialed C K W) (up : Upstream C K W)
      → IsAccounted ctx.old_connection (store r) d.backend d.old_connection d.result
      → IsUpstream rs (update store r d.backend) up
      → IsUpstream (r ∷ rs) store up
  unfolding update
  skip-IsUpstream r rs store d up h rest = record {
    answered = elim rest.answered [
      | inl (a, listed, name) ↦ inl (
        a,
        omega arith,
        subst (λ t. Named t up.result) (id_of-update r a store d.backend h.config) name,
      )
      | inr e ↦ inr e
    ];
    handed = rest.handed;
    others = λ a e. ground (arith, rest.others a);
    config = λ a. ground (arith, rest.config a, h.config);
    enabled = λ a. ground (arith, rest.enabled a, h.enabled);
  }

  dial_each-IsUpstream :
      (rs : List ℕ) (store : ℕ → Backend C) (w : W)
      → IsUpstream rs store (dial_each breaker dial ctx rs store w)
  unfolding dial_each
  dial_each-IsUpstream [] store w = exhausted-IsUpstream store w
  dial_each-IsUpstream (r ∷ rs) store w =
      let d = dial_backend breaker dial ctx (store r) w in
      let h = dial_backend-AccountedFor breaker dial ctx (store r) w in
      choose_rule (IsUpstream (r ∷ rs) store) d.result (stop_at-IsUpstream r rs store d h) (
        skip-IsUpstream r rs store d _ h
          (dial_each-IsUpstream rs (update store r d.backend) d.world))

  kept-IsPartition :
      (be dis : List ℕ) (next : ℕ) (store store' : ℕ → Backend C)
      → ((a : ℕ) → (store' a).enabled ≡ (store a).enabled)
      → IsPartition be dis next store
      → IsPartition be dis next store'
  kept-IsPartition be dis next store store' same_flag p = record {
    once = p.once;
    alive = λ a h. same_flag a ∙ p.alive a h;
    dead = λ a h. same_flag a ∙ p.dead a h;
    fresh = p.fresh;
  }

  -- What a dial over the pool returns and leaves.
  pub record IsDialed (m : Manager C) (up : Upstream C K W) (m' : Manager C) : Type 0 where
    pub upstream :
        IsUpstream (turn ((m.next_backend_idx + 1) % length m.backends) m.backends) m.store up
    pub left : m' ≡ record m { next_backend_idx = m.next_backend_idx + 1; store = up.store }
    pub partition : IsWellFormed m'

  -- On a well-formed pool, while the counter's next value and the number of the enabled backends add
  -- up to less than 2^63.
  pub dial_upstream-IsDialed :
      (m : Manager C) (w : W)
      → IsWellFormed m
      → m.next_backend_idx + 1 + length m.backends < 2 ^ 63
      → Returns (λ t. IsDialed m t.0 t.1) (dial_upstream breaker dial ctx m w)
  unfolding dial_upstream
  dial_upstream-IsDialed m w p small =
      let picked = turn ((m.next_backend_idx + 1) % length m.backends) m.backends in
      let u = dial_each-IsUpstream picked m.store w in
      rw (next_backend_list_lem m small) (record {
        upstream = u;
        left = refl;
        partition = kept-IsPartition m.backends m.disabled_be m.next_ref m.store _ u.enabled p;
      })

  -- What a dial over the pool changes, whatever the counter: the counter, and of the backends no
  -- configuration and no flag.
  pub record IsRefreshed (m m' : Manager C) : Type 0 where
    pub left : m' ≡ record m { next_backend_idx = m'.next_backend_idx; store = m'.store }
    pub config : (a : ℕ) → (m'.store a).config ≡ (m.store a).config
    pub enabled : (a : ℕ) → (m'.store a).enabled ≡ (m.store a).enabled

  pub dial_upstream-IsRefreshed :
      (m : Manager C) (w : W)
      → UnlessPanics (λ t. IsRefreshed m t.1) (dial_upstream breaker dial ctx m w)
  unfolding dial_upstream next_backend_list
  dial_upstream-IsRefreshed m w =
      elim (Exec-cases
        (pick_from m.backends ((m.next_backend_idx + 1) % 2 ^ 64) 0 (length m.backends))) [
          | inl e ↦ rw (dial_upstream, next_backend_list, e) tt
          | inr (picked, e) ↦
              let u = dial_each-IsUpstream picked m.store w in
              rw (dial_upstream, next_backend_list, e)
                (record { left = refl; config = u.config; enabled = u.enabled })
        ]
