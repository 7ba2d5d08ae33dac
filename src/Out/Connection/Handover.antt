-- ===== src/Out/Connection/Handover.antt =====
-- The writing routine of out/outc.go, one access to its connection at a time, beside the routine of the
-- connection that replaces it. Both take from one channel, that of the client's messages. An `add` to the
-- cache is one step: the first routine adds one message at most, to an empty cache, so what it reads
-- of the cache before does not depend on the others.
pub mod Messages
pub mod Pieces
pub mod Conserved
pub mod Lost
use wsbalancer.Prelude.{
  ◌≡◌, Bool, true, false, List, [], ◌∷◌, ◌++◌, Option, none, some, Text, ℤ, Exec, returns, ◌>>=◌,
  ◌==◌,
}
use wsbalancer.Common.{WsMessage, remote_connection_normal_closure}
use wsbalancer.Common.Header.{Header}
use wsbalancer.Out.Connection.{Outc, clear_messages, new_outc}
use wsbalancer.Out.Connection.Loops.{
  Websocket, WriterEvent, incoming, tick, ending, add_cache, notify_frontend, close, write, ping,
}

-- Where the routine stands: before its start, in `clearCache` with what is not sent yet and its flag,
-- at `select`, with a message whose write failed and that is not cached yet, before the deferred
-- `Close`, or at its end.
pub data Stage : Type 0 where
  starting : Stage
  clearing : List WsMessage → Bool → Stage
  selecting : Stage
  storing : WsMessage → Stage
  leaving : Stage
  ended : Stage

pub record Writer (K : Type 0) : Type 0 where
  pub oc : Outc K
  pub stage : Stage

module _ {K : Type 0} (ws : Websocket K) where
  -- What the routine does by itself. A failed write of a cached message is cached before the frontend
  -- is told, and those behind it later.
  unfoldable pub advance : Stage → Outc K → Exec (Writer K)
  unfolding add_cache write
  advance starting oc =
      let (cached, kept) = clear_messages oc.cache in
      returns (record { oc = record oc { cache = kept }; stage = clearing cached false })
  advance (clearing [] true) oc = returns (record { oc = oc; stage = leaving })
  advance (clearing [] false) oc = returns (record { oc = oc; stage = selecting })
  advance (clearing (am ∷ cached) true) oc =
      returns (record { oc = add_cache am oc; stage = clearing cached true })
  advance (clearing (am ∷ cached) false) oc = do
    (wrr, oc') ← write ws am oc
    elim wrr [
      | none ↦ returns (record { oc = oc'; stage = clearing cached false })
      | some e ↦
          returns
            (record { oc = notify_frontend e (add_cache am oc'); stage = clearing cached true })
    ]
  advance selecting oc = returns (record { oc = oc; stage = selecting })
  advance (storing m) oc = returns (record { oc = add_cache m oc; stage = leaving })
  advance leaving oc = do oc' ← close ws oc; returns (record { oc = oc'; stage = ended })
  advance ended oc = returns (record { oc = oc; stage = ended })

  -- What it does with what it selects. A failed write is told to the frontend first.
  unfoldable pub select : WriterEvent → Outc K → Exec (Writer K)
  unfolding write ping
  select (incoming none) oc = returns (record { oc = oc; stage = leaving })
  select (incoming (some m)) oc = elim (m.message_type == remote_connection_normal_closure) [
    | true ↦ returns (record { oc = oc; stage = leaving })
    | false ↦ do
      (wrr, oc') ← write ws m oc
      elim wrr [
        | none ↦ returns (record { oc = oc'; stage = selecting })
        | some e ↦ returns (record { oc = notify_frontend e oc'; stage = storing m })
      ]
  ]
  select tick oc = do
    (err, oc') ← ping ws oc
    elim err [
      | none ↦ returns (record { oc = oc'; stage = selecting })
      | some e ↦ returns (record { oc = notify_frontend e oc'; stage = leaving })
    ]
  select ending oc = returns (record { oc = oc; stage = leaving })

  -- A step of one routine, with the channel before and behind it.
  pub data Move (w : Writer K) : List WsMessage → Writer K → List WsMessage → Type 0 where
    takes :
        {m : WsMessage} {ms : List WsMessage} {w' : Writer K}
        → w.stage ≡ selecting
        → select (incoming (some m)) w.oc ≡ returns w'
        → Move w (m ∷ ms) w' ms
    ticks :
        {ms : List WsMessage} {w' : Writer K}
        → w.stage ≡ selecting
        → select tick w.oc ≡ returns w'
        → Move w ms w' ms
    stops :
        {ms : List WsMessage} {w' : Writer K}
        → w.stage ≡ selecting
        → select ending w.oc ≡ returns w'
        → Move w ms w' ms
    advances :
        {ms : List WsMessage} {w' : Writer K} → advance w.stage w.oc ≡ returns w' → Move w ms w' ms

-- The channel and the two connections. `clear` of the old cache is two accesses: what is between them
-- has read the cache and not yet reset it. The second connection is there once the first is replaced.
pub record Handover (K : Type 0) : Type 0 where
  pub channel : List WsMessage
  pub first : Writer K
  pub taking : Option (List WsMessage)
  pub second : Option (Writer K)

module _ {K : Type 0} where
  or_else : Option (Outc K) → Outc K → Outc K
  or_else none oc = oc
  or_else (some oc') oc = oc'

  -- The dial for the client has a new socket, and `newOutc` reads the cache of the first connection.
  unfoldable pub read_cache : Handover K → Handover K
  read_cache h = record h { taking = some h.first.oc.cache }

  -- `newOutc` over the new socket, with the first connection as the old one and what was read of its
  -- cache; the cache is reset as it stands now.
  unfoldable pub replace : List WsMessage → K → ℤ → Text → Header → Handover K → Handover K
  unfolding or_else new_outc
  replace cached k ping_time id hdr h =
      let read = record h.first.oc { cache = cached } in
      let (oc, old) = new_outc (some k) ping_time id hdr (some read) in
      record h {
        first = record { oc = or_else old read; stage = h.first.stage };
        taking = none;
        second = some (record { oc = oc; stage = starting });
      }

module _ {K : Type 0} (ws : Websocket K) where
  -- The client's connection asks for another backend when it is told of an abnormal closure, or when
  -- its backend connection is aborted: at any time, as far as these routines know.
  pub data Step (h : Handover K) : Handover K → Type 0 where
    first_moves :
        {ms : List WsMessage} {w : Writer K}
        → Move ws h.first h.channel w ms
        → Step h (record h { channel = ms; first = w })
    second_moves :
        {ms : List WsMessage} {v w : Writer K}
        → h.second ≡ some v
        → Move ws v h.channel w ms
        → Step h (record h { channel = ms; second = some w })
    reads : h.second ≡ none → h.taking ≡ none → Step h (read_cache h)
    replaces :
        {cached : List WsMessage} (k : K) (ping_time : ℤ) (id : Text) (hdr : Header)
        → h.second ≡ none
        → h.taking ≡ some cached
        → ws.delivered k ≡ []
        → Step h (replace cached k ping_time id hdr h)

  -- With the messages that the client has sent since.
  pub data Reachable (start : Handover K) : List WsMessage → Handover K → Type 0 where
    here : Reachable start [] start
    sending :
        {sent : List WsMessage} {h : Handover K}
        → Reachable start sent h
        → (m : WsMessage)
        → Reachable start (sent ++ m ∷ []) (record h { channel = h.channel ++ m ∷ [] })
    onward :
        {sent : List WsMessage} {h h' : Handover K}
        → Reachable start sent h
        → Step h h'
        → Reachable start sent h'
