-- ===== src/Out/Backend/Accounting.antt =====
-- What a dial does to the counters of the backend, to the messages of the connection that it
-- replaces, and to the world.
use wsbalancer.Prelude.{
  ◌+◌, ◌≤◌, ◌<◌, ◌≡◌, ◌⊎◌, Bool, true, false, List, [], Option, none, some, Text, arith,
}
use wsbalancer.Common.{WsMessage, system_unavailable, connection_declined, remote}
use wsbalancer.Out.Config.{BackendConfig}
use wsbalancer.Out.Connection.{Outc, new_outc}
use wsbalancer.Out.Backend.{
  Circuit, Backend, BackendDialContext, DialRequest, DialReply, DialResult, connected, refused,
  Dialed, u32, on_reply, connection, breaker_ready, dial_backend, attempt, request_for,
}

module _ {K : Type 0} where
  -- What an old connection has not sent, and the old connection without it.
  abbrev pub unsent : Option (Outc K) → List WsMessage
  unsent none = []
  unsent (some o) = o.cache

  abbrev pub emptied : Option (Outc K) → Option (Outc K)
  emptied none = none
  emptied (some o) = some (record o { cache = [] })

  -- The messages: a new connection has what the old one had not sent, and takes it from there.
  abbrev pub Handed : Option (Outc K) → Option (Outc K) → DialResult K → Type 0
  Handed old old' (connected oc) = (oc.cache ≡ unsent old) × (old' ≡ emptied old)
  Handed old old' (refused e) = old' ≡ old

  -- The backend that answered names itself.
  abbrev pub Named : Text → DialResult K → Type 0
  Named id (connected oc) = oc.backend_id ≡ id
  Named id (refused e) = (remote e).id ≡ id

  -- A refusal is a decline exactly where the status is in 300 to 499.
  abbrev Classified : DialResult K → Type 0
  Classified (connected oc) = Unit
  Classified (refused (connection_declined e)) = (300 ≤ e.code) × (e.code < 500)
  Classified (refused (system_unavailable e)) = (e.code < 300) ⊎ (500 ≤ e.code)

module _ {C K : Type 0} where
  -- The counters behind a dial: connections are counted on success, failures where the backend was
  -- unavailable and was asked at all, nothing where it declined.
  abbrev pub Counted : Backend C → Backend C → DialResult K → Type 0
  Counted bk bk' (connected oc) =
      (bk'.active_connections ≡ u32 (bk.active_connections + 1))
      × (bk'.total_connections ≡ u32 (bk.total_connections + 1))
      × (bk'.total_failures ≡ bk.total_failures)
  Counted bk bk' (refused (connection_declined e)) =
      (bk'.active_connections ≡ bk.active_connections)
      × (bk'.total_connections ≡ bk.total_connections)
      × (bk'.total_failures ≡ bk.total_failures)
  Counted bk bk' (refused (system_unavailable e)) =
      (bk'.active_connections ≡ bk.active_connections)
      × (bk'.total_connections ≡ bk.total_connections)
      × ((bk'.total_failures ≡ bk.total_failures)
          ⊎ (bk'.total_failures ≡ u32 (bk.total_failures + 1)))

  pub record IsAccounted (old : Option (Outc K)) (bk bk' : Backend C) (old' : Option (Outc K))
      (result : DialResult K) : Type 0 where
    pub config : bk'.config ≡ bk.config
    pub enabled : bk'.enabled ≡ bk.enabled
    pub con_done : bk'.con_done ≡ bk.con_done
    pub listening : bk'.listening ≡ bk.listening
    pub counted : Counted bk bk' result
    pub handed : Handed old old' result
    pub named : Named bk.config.id result
    pub classified : Classified result

connection_lem :
    {K : Type 0} (ctx : BackendDialContext K) (config : BackendConfig) (reply : DialReply K)
    → let (oc, old') = connection ctx config reply in
      (oc.cache ≡ unsent ctx.old_connection)
      × (old' ≡ emptied ctx.old_connection)
      × (oc.backend_id ≡ config.id)
unfolding connection new_outc
connection_lem ctx config reply = ground arith

module _ {C K W : Type 0} (breaker : Circuit C W) (dial : DialRequest → W → DialReply K × W)
    (ctx : BackendDialContext K) where
  abbrev pub AccountedFor : Backend C → Dialed C K W → Type 0
  AccountedFor bk d = IsAccounted ctx.old_connection bk d.backend d.old_connection d.result

  on_reply-AccountedFor :
      (bk : Backend C) (answer : DialReply K × W)
      → AccountedFor bk (on_reply breaker dial ctx bk answer)
  unfolding on_reply
  on_reply-AccountedFor bk (reply, w) = ground (arith, connection_lem ctx bk.config reply)

  attempt-AccountedFor :
      (ready : Bool) (bk : Backend C) (w : W)
      → AccountedFor bk (attempt breaker dial ready ctx bk w)
  unfolding attempt
  attempt-AccountedFor false bk w = ground arith
  attempt-AccountedFor true bk w = on_reply-AccountedFor bk (dial (request_for ctx bk.config) w)

  -- Every dial of a backend, whatever the world answers, is accounted for: the counters, the
  -- messages of the connection that is replaced, the name in the answer, and which status is taken
  -- for a decline.
  pub dial_backend-AccountedFor :
      (bk : Backend C) (w : W) → AccountedFor bk (dial_backend breaker dial ctx bk w)
  unfolding dial_backend
  dial_backend-AccountedFor bk w =
      let (ready, br) = breaker_ready breaker w bk.breaker in
      let h = attempt-AccountedFor ready (record bk { breaker = br }) w in
      record {
        config = h.config;
        enabled = h.enabled;
        con_done = h.con_done;
        listening = h.listening;
        counted = h.counted;
        handed = h.handed;
        named = h.named;
        classified = h.classified;
      }
