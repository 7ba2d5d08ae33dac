-- ===== src/Cmd/Frontend/Redial.antt =====
-- The dial of a session that has lost its backend, through in/inc_manager.go, out/outc_manager.go,
-- out/backend.go and out/outc.go.
use wsbalancer.Prelude.{
  ℕ, sym, true, if◌then◌else◌, ◌+◌, ◌≤◌, ◌<◌, ◌^◌, ◌≡◌, refl, ap, ◌∙◌, ◌≢◌, false, List, [], Option,
  some, Text, Exec-cases, ◌⊎◌, inl, inr, length, count, ◌==◌, ==_iff, arith,
}
use wsbalancer.Common.{DialError}
use wsbalancer.Common.Header.{Header}
use wsbalancer.In.Request.{Request}
use wsbalancer.Out.Connection.{Outc}
use wsbalancer.Out.Connection.Loops.{Websocket}
use wsbalancer.Out.Backend.{
  Circuit, BackendDialContext, DialRequest, DialReply, DialResult, connected, refused,
}
use wsbalancer.Out
use wsbalancer.Out.Backend.Accounting.{Handed}
use wsbalancer.Out.Manager.{id_of}
use wsbalancer.Out.Manager.Invariant.{IsWellFormed}
use wsbalancer.Out.Manager.RoundRobin.{turn, count-turn}
use wsbalancer.Out.Manager.Dial.{dial_upstream}
use wsbalancer.Out.Manager.Dial.Outcome.{Answered, IsDialed}
use wsbalancer.Out.Manager.Dial.Turns.{PoolInTurn, dial_upstream-InTurn}
use wsbalancer.Out.Manager.Dial.Made.{dial_upstream-IsAnswered}
use wsbalancer.Out.Backend.Made.{IsMade, IsAnswered, GivesCon, AnswersWell, IsAnswered-IsMade}
use mathlib.Core.Path.{subst}
use wsbalancer.Cmd.Frontend.{
  Handle, Running, is_nil, put_at, answer, behind_dial, backend_connection,
}

module _ {K : Type 0} where
  put_here : (a : ℕ) (oc : Outc K) (f : ℕ → Outc K) → put_at a oc f a ≡ oc
  put_here a oc f = rw ((==_iff a a).1 refl) refl

  put_there : (a : ℕ) (oc : Outc K) (f : ℕ → Outc K) (b : ℕ) → b < a → put_at a oc f b ≡ f b
  put_there a oc f b h = let apart : (b == a) ≡ false = ground (arith, h) in rw (apart) refl

module _ {C K W : Type 0} where
  -- A world that runs, in which a handle belongs to a connection that was made.
  pub record IsRunning (us : Handle) (w : Running C K W) : Type 0 where
    pub running : w.panicked ≡ false
    pub pool : IsWellFormed w.pool
    pub made : us.address < w.next
    pub small : w.pool.next_backend_idx + 1 + length w.pool.backends < 2 ^ 63

  -- The new connection is one of an enabled backend, has what the old one could not send, and the old
  -- one has it no more.
  pub record TakesOver (us us' : Handle) (w w' : Running C K W) : Type 0 where
    pub backend : ℕ
    pub enabled : 1 ≤ count backend w.pool.backends
    pub named : us'.id ≡ id_of w.pool.store backend
    pub new : us'.address ≡ w.next
    pub cached : (w'.connections us'.address).cache ≡ (w.connections us.address).cache
    pub emptied : (w'.connections us.address).cache ≡ []

  -- What the dial of a session leaves.
  pub record IsRedialled (us : Handle) (w w' : Running C K W) : Type 0 where
    pub running : w'.panicked ≡ false
    pub pool : IsWellFormed w'.pool
    pub started : w'.started ≡ w.started
    pub others : (a : ℕ) → a < w.next → a ≢ us.address → w'.connections a ≡ w.connections a

module _ {C F K W : Type 0} (breaker : Circuit C W) (dial : DialRequest → W → DialReply K × W)
    (ws : Websocket K) (subprotocol : K → Text)
    (upgrade : Request → List Text → Header → W → Option F × W) (gives : GivesCon dial)
    (well : AnswersWell dial) where
  abbrev pub context : Text → Header → Handle → Running C K W → BackendDialContext K
  context uri hdr us w = record {
    request_uri = uri;
    dest_headers = hdr;
    old_connection = some (w.connections us.address);
  }

  -- The enabled backends were dialled in turn for the session, with this result.
  abbrev pub DialledInTurn : Text → Header → Handle → Running C K W → DialResult K → Type 0
  DialledInTurn uri hdr us w result =
      PoolInTurn breaker dial (context uri hdr us w) w.pool w.world result

  abbrev pub Redialled :
      Text → Header → Handle → Running C K W → (Handle ⊎ DialError) × Running C K W → Type 0
  Redialled uri hdr us w (inl us', w') =
      IsRedialled us w w'
      × TakesOver us us' w w'
      × DialledInTurn uri hdr us w (connected (w'.connections us'.address))
  Redialled uri hdr us w (inr err, w') =
      IsRedialled us w w'
      × (w'.connections us.address ≡ w.connections us.address)
      × DialledInTurn uri hdr us w (refused err)

  -- A connection is that of an enabled backend.
  abbrev FromEnabled : Running C K W → DialResult K → Type 0
  FromEnabled w (connected oc) =
      (r : ℕ) × (1 ≤ count r w.pool.backends) × (oc.backend_id ≡ id_of w.pool.store r)
  FromEnabled w (refused err) = Unit

  by_enabled :
      (ctx : BackendDialContext K) (k : ℕ) (us : Handle) (w : Running C K W) (result : DialResult K)
      → Answered breaker dial ctx (turn k w.pool.backends) w.pool.store result
      → FromEnabled w result
  by_enabled ctx k us w (connected oc) (inl (r, listed, named)) =
      (r, omega (arith, listed, count-turn r k w.pool.backends), named)
  by_enabled ctx k us w (connected oc) (inr e) = absurd (cc)
  by_enabled ctx k us w (refused err) h = tt

  answer-Redialled :
      (uri : Text) (hdr : Header) (us : Handle) (w : Running C K W) (pool : Out.Manager.Manager C)
      (world : W) (result : DialResult K) (old' : Option (Outc K))
      → IsRunning us w
      → IsWellFormed pool
      → Handed (some (w.connections us.address)) old' result
      → FromEnabled w result
      → IsMade result
      → DialledInTurn uri hdr us w result
      → Redialled uri hdr us w (
          answer breaker dial ws subprotocol upgrade
            (some us)
            (record w { pool = pool; world = world })
            result
            old')
  unfolding answer
  answer-Redialled uri hdr us w pool world (connected oc) old' h sound handed from (alive, (k, con))
        asked =
      let old : Outc K = record (w.connections us.address) { cache = [] } in
      let rest = put_at us.address old w.connections in
      rw (handed.1) (
        record {
          running = ap (λ c. if is_nil c then true else w.panicked) con ∙ h.running;
          pool = sound;
          started = refl;
          others = λ a below other. ground (arith, below, other);
        },
        record {
          backend = from.0;
          enabled = from.1;
          named = from.2;
          new = refl;
          cached = ap (λ o. o.cache) (put_here w.next oc rest) ∙ handed.0;
          emptied =
              ap (λ o. o.cache)
                (put_there w.next oc rest us.address h.made
                  ∙ put_here us.address old w.connections);
        },
        subst (λ o. DialledInTurn uri hdr us w (connected o)) (sym (put_here w.next oc rest)) asked,
      )
  answer-Redialled uri hdr us w pool world (refused err) old' h sound handed from made asked =
      rw (handed) (
        record {
          running = h.running;
          pool = sound;
          started = refl;
          others = λ a below other. ground (arith, below, other);
        },
        put_here us.address (w.connections us.address) w.connections,
        asked,
      )

  pub backend_connection-Redialled :
      (uri : Text) (hdr : Header) (us : Handle) (w : Running C K W)
      → IsRunning us w
      → Redialled uri hdr us w
          (backend_connection breaker dial ws subprotocol upgrade uri hdr (some us) w)
  unfolding backend_connection behind_dial
  backend_connection-Redialled uri hdr us w h =
      let ctx = context uri hdr us w in
      let dialed = dial_upstream-InTurn breaker dial ctx w.pool w.world h.pool h.small in
      let makes = dial_upstream-IsAnswered breaker dial ctx w.pool w.world in
      elim (Exec-cases (dial_upstream breaker dial ctx w.pool w.world)) [
        | inl e ↦ absurd (rw e at dialed)
        | inr (t, e) ↦
            rw (backend_connection, e)
              (let d : IsDialed breaker dial ctx w.pool t.0 t.1
                    × PoolInTurn breaker dial ctx w.pool w.world t.0.result =
                  rw e at dialed in
                let answered : IsAnswered dial t.0.result = rw e at makes in
                let made : IsMade t.0.result =
                  IsAnswered-IsMade dial gives well t.0.result answered in
                answer-Redialled uri hdr us w t.1 t.0.world t.0.result t.0.old_connection h
                  d.0.partition d.0.upstream.handed
                  (by_enabled ctx _ us w t.0.result d.0.upstream.answered) made d.1)
      ]
