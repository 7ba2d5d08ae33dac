-- ===== src/Out/Connection/Loops/Failover.antt =====
-- From one backend to the next: what the peers were sent over both connections.
use mathlib.Core.List.{append_assoc}
use wsbalancer.Prelude.{◌≡◌, refl, ◌∙◌, List, [], ◌++◌, some, Text, ℤ, Returns, Returns-mono}
use wsbalancer.Common.{WsMessage}
use wsbalancer.Common.Header.{Header}
use wsbalancer.Out.Connection.{Outc, new_outc}
use wsbalancer.Out.Connection.Loops.{Websocket, WriterEvent, Ran, start_writing}
use wsbalancer.Out.Connection.Loops.Delivery.{data_of, start_writing-Conserved}

joined :
    (sent cached left more : List WsMessage) {later after all : List WsMessage}
    → later ≡ left ++ more
    → sent ++ cached ++ left ≡ all
    → after ≡ cached ++ later
    → sent ++ after ≡ all ++ more
joined sent cached left more d first second = rw (second, d, ← first) (simp append_assoc)

module _ {K : Type 0} (ws : Websocket K) where
  -- Both peers together, the new cache and what is still in the channel.
  abbrev pub Relayed : List WsMessage → K → Ran K WriterEvent → Type 0
  Relayed all k1 u =
      (k2 : K) × (u.oc.con ≡ some k2)
      × (ws.delivered k1 ++ (ws.delivered k2 ++ u.oc.cache ++ data_of u.left) ≡ all)

  -- The writing routine of a connection with a socket returns, whatever its sockets answer. Where the
  -- connection is then replaced by one over a fresh socket, which takes over the cache, and whose
  -- events carry the messages left in the channel and then any further ones, the second routine
  -- returns too. The first peer's messages, the second's, what is cached and what is still in the
  -- channel are then all the messages there were, in order, none lost and none sent twice.
  pub failover-Relayed :
      (events : List WriterEvent) (k new : K) (oc : Outc K) (ping : ℤ) (id : Text) (hdr : Header)
      (later : List WriterEvent → List WriterEvent) (more : List WsMessage)
      → oc.con ≡ some k
      → ws.delivered new ≡ []
      → ((left : List WriterEvent) → data_of (later left) ≡ data_of left ++ more)
      → Returns
          (λ t.
            (k1 : K) × (t.oc.con ≡ some k1)
            × Returns
                (Relayed (ws.delivered k ++ oc.cache ++ data_of events ++ more) k1)
                (start_writing ws (later t.left) (new_outc (some new) ping id hdr (some t.oc)).0))
          (start_writing ws events oc)
  unfolding new_outc
  failover-Relayed events k new oc ping id hdr later more e fresh carries =
      Returns-mono (start_writing ws events oc)
        (λ t first. (
          first.0,
          first.1,
          Returns-mono
              (start_writing ws (later t.left) (new_outc (some new) ping id hdr (some t.oc)).0)
              (λ u second. (
                second.0,
                second.1,
                joined (ws.delivered first.0) t.oc.cache (data_of t.left) more (carries t.left)
                    first.2 (second.2 ∙ rw fresh),
              ))
              (start_writing-Conserved ws (later t.left) new
                (new_outc (some new) ping id hdr (some t.oc)).0 refl),
        ))
        (start_writing-Conserved ws events k oc e)
