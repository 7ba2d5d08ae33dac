-- ===== src/Out/Connection/Handover/Lost.antt =====
-- A message that is lost between two connections of out/outc.go.
use wsbalancer.Prelude.{
  ◌≡◌, refl, ◌∙◌, false, List, [], ◌∷◌, ◌++◌, none, some, Text, ℤ, ◌==◌, returns,
}
use wsbalancer.Common.{WsMessage, remote_connection_normal_closure}
use wsbalancer.Common.Header.{Header}
use wsbalancer.Out.Connection.{Outc, clear_messages, new_outc}
use wsbalancer.Out.Connection.Loops.{
  WsError, Websocket, incoming, closure_message, add_cache, notify_frontend, close, write,
}
use wsbalancer.Out.Connection.Handover.{
  clearing, selecting, storing, leaving, ended, Writer, advance, select, takes, advances, Handover,
  read_cache, replace, first_moves, second_moves, reads, replaces, Reachable, here, onward,
}

module _ {K : Type 0} where
  -- An open connection over the socket `k`, with nothing cached, whose frontend knows of no failure.
  abbrev pub open_on : K → Outc K → Outc K
  open_on k oc = record oc { con = some k; cache = []; notified = false; closed = false }

  -- The message waits for this connection's routine.
  abbrev pub waiting : WsMessage → K → Outc K → Handover K
  waiting m k oc = record {
    channel = m ∷ [];
    first = record { oc = open_on k oc; stage = selecting };
    taking = none;
    second = none;
  }

module _ {K : Type 0} (ws : Websocket K) where
  -- The frontend is told of the error, and nothing of a replacement has begun.
  pub record IsTold (err : WsError) (oc : Outc K) (h : Handover K) : Type 0 where
    pub told : h.first.oc.send ≡ oc.send ++ closure_message err ∷ []
    pub untaken : h.taking ≡ none
    pub alone : h.second ≡ none

  -- The first routine is over, with this in its cache; the second one waits for messages with nothing
  -- in its cache and nothing in its channel, and neither peer was sent a message.
  pub record IsLost (left : List WsMessage) (k : K) (h : Handover K) : Type 0 where
    pub channel : h.channel ≡ []
    pub over : h.first.stage ≡ ended
    pub stuck : h.first.oc.cache ≡ left
    pub socket : K
    pub unsent : ws.delivered socket ≡ ws.delivered k
    pub broken : h.first.oc.con ≡ some socket
    pub next : Writer K
    pub second : h.second ≡ some next
    pub ready : next.stage ≡ selecting
    pub nothing : next.oc.cache ≡ []
    pub fresh : K
    pub connected : next.oc.con ≡ some fresh
    pub untouched : ws.delivered fresh ≡ []

  -- What can still come of a state.
  abbrev pub CanLose : List WsMessage → K → Handover K → Type 0
  CanLose left k h1 = (h : Handover K) × Reachable ws h1 [] h × IsLost left k h

  -- Behind the failed write: the frontend is told, the message is not cached yet.
  abbrev failed : WsMessage → K → WsError → Outc K → Handover K
  failed m k err oc =
      let oc1 =
        notify_frontend err (record (open_on k oc) { con = some (ws.write_message m k).1 }) in
      record {
        channel = [];
        first = record { oc = oc1; stage = storing m };
        taking = none;
        second = none;
      }

  module _ (m : WsMessage) (k k' : K) (err : WsError) (oc : Outc K) (ping_time : ℤ) (id : Text)
      (hdr : Header) (bad : (ws.write_message m k).0 ≡ some err)
      (fresh : ws.delivered k' ≡ []) where
    -- The message is cached behind the whole of the replacement.
    failed-CanLose : CanLose (m ∷ []) k (failed m k err oc)
    unfolding advance read_cache replace notify_frontend add_cache close clear_messages new_outc
    failed-CanLose =
        let oc1 = (failed m k err oc).first.oc in
        let oc2 = (new_outc (some k') ping_time id hdr (some oc1)).0 in
        let replaced =
          onward (onward here (reads refl refl)) (replaces k' ping_time id hdr refl refl fresh) in
        let started =
          second_moves refl (advances {w' = record { oc = oc2; stage = clearing [] false }} refl) in
        let selects =
          second_moves refl (advances {w' = record { oc = oc2; stage = selecting }} refl) in
        let stores = first_moves (
          advances {w' = record { oc = add_cache m (record oc1 { cache = [] }); stage = leaving }}
            refl) in
        (
          _,
          onward (onward (onward (onward replaced started) selects) stores)
              (first_moves (advances refl)),
          record {
            channel = refl;
            over = refl;
            stuck = refl;
            socket = ws.close (ws.write_message m k).1;
            unsent = ws.delivered-close (ws.write_message m k).1 ∙ ws.write_failed m k err bad;
            broken = refl;
            next = record { oc = oc2; stage = selecting };
            second = refl;
            ready = refl;
            nothing = refl;
            fresh = k';
            connected = refl;
            untouched = fresh;
          },
        )

    -- The message is cached between the read and the reset.
    failed-CanDrop : CanLose [] k (failed m k err oc)
    unfolding advance read_cache replace notify_frontend add_cache close clear_messages new_outc
    failed-CanDrop =
        let oc1 = (failed m k err oc).first.oc in
        let oc2 = (new_outc (some k') ping_time id hdr (some oc1)).0 in
        let stores =
          first_moves (advances {w' = record { oc = add_cache m oc1; stage = leaving }} refl) in
        let replaced =
          onward (onward (onward here (reads refl refl)) stores)
            (replaces k' ping_time id hdr refl refl fresh) in
        let started =
          second_moves refl (advances {w' = record { oc = oc2; stage = clearing [] false }} refl) in
        let selects =
          second_moves refl (advances {w' = record { oc = oc2; stage = selecting }} refl) in
        (
          _,
          onward (onward (onward replaced started) selects) (first_moves (advances refl)),
          record {
            channel = refl;
            over = refl;
            stuck = refl;
            socket = ws.close (ws.write_message m k).1;
            unsent = ws.delivered-close (ws.write_message m k).1 ∙ ws.write_failed m k err bad;
            broken = refl;
            next = record { oc = oc2; stage = selecting };
            second = refl;
            ready = refl;
            nothing = refl;
            fresh = k';
            connected = refl;
            untouched = fresh;
          },
        )

  -- For every message of the client whose write fails, and every new socket: there is a state in which
  -- the frontend is told of the failure and no replacement has begun, and behind which, with no more
  -- from the client, the replacement can end with the message at neither peer and neither in the
  -- channel nor in the cache of the new connection. It is then in the cache of the old one, whose
  -- routine is over, when it is cached behind the reset of that cache, or nowhere, when it is cached
  -- between the read and the reset.
  pub waiting-IsLost :
      (m : WsMessage) (k k' : K) (err : WsError) (oc : Outc K) (ping_time : ℤ) (id : Text)
      (hdr : Header)
      → (m.message_type == remote_connection_normal_closure) ≡ false
      → (ws.write_message m k).0 ≡ some err
      → ws.delivered k' ≡ []
      → (h1 : Handover K) × Reachable ws (waiting m k oc) [] h1
        × IsTold err oc h1
        × CanLose (m ∷ []) k h1
        × CanLose [] k h1
  unfolding select write notify_frontend
  waiting-IsLost m k k' err oc ping_time id hdr other bad fresh =
      let taken : select ws (incoming (some m)) (open_on k oc) ≡ returns (failed m k err oc).first =
        rw (select, other, bad) refl in
      (
        failed m k err oc,
        onward here (first_moves (takes refl taken)),
        record { told = refl; untaken = refl; alone = refl },
        failed-CanLose m k k' err oc ping_time id hdr bad fresh,
        failed-CanDrop m k k' err oc ping_time id hdr bad fresh,
      )
