-- ===== src/Out/Manager/Dial/Counts.antt =====
-- Which connection counters a dial over the backends changes.
use wsbalancer.Prelude.{
  ℕ, ◌+◌, ◌%◌, ◌^◌, ◌≤◌, ◌<◌, ◌≡◌, refl, ap, ◌≢◌, ◌∙◌, List, [], ◌∷◌, Option, count, length,
  Returns, arith,
}
use wsbalancer.Common.{system_unavailable, connection_declined}
use wsbalancer.Out.Connection.{Outc}
use wsbalancer.Out.Backend.{
  Circuit, Backend, BackendDialContext, DialRequest, DialReply, DialResult, connected, refused,
  Dialed, dial_backend, u32,
}
use wsbalancer.Out.Backend.Accounting.{IsAccounted, dial_backend-AccountedFor}
use wsbalancer.Out.Manager.{Manager, update, id_of}
use wsbalancer.Out.Manager.Dial.{Upstream, choose, exhausted, stop_at, dial_each, dial_upstream}
use wsbalancer.Out.Manager.RoundRobin.{turn, next_backend_list_lem, count-turn}

module _ {C : Type 0} where
  -- The backend has as many connections as before, now and in total.
  abbrev pub SameConnections : Backend C → Backend C → Type 0
  SameConnections bk bk' =
      (bk'.active_connections ≡ bk.active_connections)
      × (bk'.total_connections ≡ bk.total_connections)

  -- A new connection is counted once, at the listed backend that it names; a refusal is not.
  abbrev pub CountsOnce :
      {K : Type 0} → List ℕ → (ℕ → Backend C) → (ℕ → Backend C) → DialResult K → Type 0
  CountsOnce rs store store' (connected oc) =
      (r : ℕ) × (1 ≤ count r rs)
      × (oc.backend_id ≡ id_of store r)
      × ((store' r).active_connections ≡ u32 ((store r).active_connections + 1))
      × ((store' r).total_connections ≡ u32 ((store r).total_connections + 1))
      × ((a : ℕ) → a ≢ r → SameConnections (store a) (store' a))
  CountsOnce rs store store' (refused e) = (a : ℕ) → SameConnections (store a) (store' a)

module _ {C K W : Type 0} (breaker : Circuit C W) (dial : DialRequest → W → DialReply K × W)
    (ctx : BackendDialContext K) where
  same_after :
      (r : ℕ) (store : ℕ → Backend C) (bk : Backend C)
      → SameConnections (store r) bk
      → (a : ℕ) → SameConnections (store a) (update store r bk a)
  unfolding update
  same_after r store bk s a = ground (arith, s.0, s.1)

  same_id :
      (r : ℕ) (store : ℕ → Backend C) (bk : Backend C)
      → bk.config ≡ (store r).config
      → (a : ℕ) → id_of (update store r bk) a ≡ id_of store a
  unfolding update
  same_id r store bk c a = ground (arith, c)

  -- Where a backend was passed over, what the later ones count holds of all.
  passed_over :
      (r : ℕ) (rs : List ℕ) (store store' : ℕ → Backend C) (bk : Backend C) (result : DialResult K)
      → SameConnections (store r) bk
      → bk.config ≡ (store r).config
      → CountsOnce rs (update store r bk) store' result
      → CountsOnce (r ∷ rs) store store' result
  passed_over r rs store store' bk (connected oc) s c (q, listed, name, active, total, others) = (
    q,
    omega (arith, listed),
    name ∙ same_id r store bk c q,
    active ∙ ap (λ n. u32 (n + 1)) (same_after r store bk s q).0,
    total ∙ ap (λ n. u32 (n + 1)) (same_after r store bk s q).1,
    λ a ne. (
      (others a ne).0 ∙ (same_after r store bk s a).0,
      (others a ne).1 ∙ (same_after r store bk s a).1,
    ),
  )
  passed_over r rs store store' bk (refused e) s c h =
      λ a. ((h a).0 ∙ (same_after r store bk s a).0, (h a).1 ∙ (same_after r store bk s a).1)

  -- The loop at one backend, by what its dial gives.
  counts_by :
      (result : DialResult K) (r : ℕ) (rs : List ℕ) (store : ℕ → Backend C) (bk : Backend C)
      (old : Option (Outc K)) (w : W) (up : Upstream C K W)
      → IsAccounted ctx.old_connection (store r) bk old result
      → CountsOnce rs (update store r bk) up.store up.result
      → let d : Dialed C K W = record {
        result = result;
        backend = bk;
        old_connection = old;
        world = w;
      } in
        let t = choose result (stop_at breaker dial ctx store r d) up in
        CountsOnce (r ∷ rs) store t.store t.result
  unfolding choose stop_at update
  counts_by (connected oc) r rs store bk old w up h rest = (
    r,
    ground arith,
    h.named,
    ground (arith, h.counted.0),
    ground (arith, h.counted.1),
    λ a ne. ground (arith, ne),
  )
  counts_by (refused (connection_declined e)) r rs store bk old w up h rest =
      same_after r store bk (h.counted.0, h.counted.1)
  counts_by (refused (system_unavailable e)) r rs store bk old w up h rest =
      passed_over r rs store up.store bk up.result (h.counted.0, h.counted.1) h.config rest

  dial_each-CountsOnce :
      (rs : List ℕ) (store : ℕ → Backend C) (w : W)
      → let up = dial_each breaker dial ctx rs store w in CountsOnce rs store up.store up.result
  unfolding dial_each exhausted
  dial_each-CountsOnce [] store w = λ a. (refl, refl)
  dial_each-CountsOnce (r ∷ rs) store w =
      let d = dial_backend breaker dial ctx (store r) w in
      counts_by d.result r rs store d.backend d.old_connection d.world
        (dial_each breaker dial ctx rs (update store r d.backend) d.world)
        (dial_backend-AccountedFor breaker dial ctx (store r) w)
        (dial_each-CountsOnce rs (update store r d.backend) d.world)

  -- While the counter's next value and the number of the enabled backends add up to less than 2^63, a
  -- dial over the pool returns. A connection that it makes is counted once, as an active and as a
  -- total connection of one enabled backend, whose ID it has, and no other backend's connections
  -- change; a dial that is refused changes no backend's connections.
  pub dial_upstream-CountsOnce :
      (m : Manager C) (w : W)
      → m.next_backend_idx + 1 + length m.backends < 2 ^ 63
      → Returns
          (λ t. CountsOnce m.backends m.store t.0.store t.0.result)
          (dial_upstream breaker dial ctx m w)
  unfolding dial_upstream
  dial_upstream-CountsOnce m w small =
      let k = (m.next_backend_idx + 1) % length m.backends in
      let up = dial_each breaker dial ctx (turn k m.backends) m.store w in
      rw (next_backend_list_lem m small)
        (unturned k up.store up.result (dial_each-CountsOnce (turn k m.backends) m.store w))
    where
      unturned :
          (k : ℕ) (store' : ℕ → Backend C) (result : DialResult K)
          → CountsOnce (turn k m.backends) m.store store' result
          → CountsOnce m.backends m.store store' result
      unturned k store' (connected oc) (r, listed, name, active, total, others) =
          (r, omega (arith, listed, count-turn r k m.backends), name, active, total, others)
      unturned k store' (refused e) h = h
