-- ===== src/Out/Connection/Loops/Delivery.antt =====
-- Where the messages go that the writing routine of out/outc.go gets: to the peer, to the cache, or
-- nowhere yet.
use mathlib.Core.List.{append-nil, append_assoc}
use mathlib.Core.Path.{subst, subst₂}
use wsbalancer.Prelude.{
  ◌≡◌, refl, sym, ap, ◌∙◌, inl, inr, Bool, true, false, not, List, [], ◌∷◌, ◌++◌, none, some,
  returns, Returns, Exec-cases, Option-cases, Bool-cases, arith, ◌==◌, if◌then◌else◌,
}
use wsbalancer.Common.{WsMessage, remote_connection_normal_closure}
use wsbalancer.Out.Connection.{Outc, clear_messages}
use wsbalancer.Out.Connection.Loops.{
  WsError, Websocket, WriterEvent, incoming, tick, ending, Ran, add_cache, notify_frontend, close,
  clear_loop, clear_cache, end_writing, write_loop, start_writing,
}

-- The messages for the backend among the events.
abbrev pub data_of : List WriterEvent → List WsMessage
data_of [] = []
data_of (incoming none ∷ events) = data_of events
data_of (incoming (some m) ∷ events) =
    let rest = data_of events in
    if m.message_type == remote_connection_normal_closure then rest else m ∷ rest
data_of (tick ∷ events) = data_of events
data_of (ending ∷ events) = data_of events

module _ {K : Type 0} (ws : Websocket K) where
  -- The connection has a socket, and what that delivered and what is cached is the given list.
  pub record Carries (all : List WsMessage) (oc : Outc K) : Type 0 where
    pub socket : K
    pub is_set : oc.con ≡ some socket
    pub carried : ws.delivered socket ++ oc.cache ≡ all

  clear_loop_failed :
      (cached : List WsMessage) (oc : Outc K)
      → clear_loop ws cached true oc ≡ returns (true, record oc { cache = oc.cache ++ cached })
  unfolding clear_loop
  clear_loop_failed [] oc = rw append-nil
  clear_loop_failed (am ∷ cached) oc = clear_loop_failed cached (add_cache am oc) ∙ rw append_assoc

  notify_keeps :
      (e : WsError) (oc : Outc K)
      → ((notify_frontend e oc).con ≡ oc.con) × ((notify_frontend e oc).cache ≡ oc.cache)
  unfolding notify_frontend
  notify_keeps e oc = ground arith

  abbrev Cleared : List WsMessage → Bool × Outc K → Type 0
  Cleared all t = Carries all t.1 × (t.0 ≡ false → t.1.cache ≡ [])

  -- Over the cached messages, from an empty cache.
  clear_loop-Cleared :
      (cached : List WsMessage) (k : K) (oc : Outc K)
      → Returns
          (Cleared (ws.delivered k ++ cached))
          (clear_loop ws cached false (record oc { con = some k; cache = [] }))
  unfolding clear_loop
  clear_loop-Cleared [] k oc = (record { socket = k; is_set = refl; carried = refl }, λ e. refl)
  clear_loop-Cleared (am ∷ cached) k oc = elim (Option-cases (ws.write_message am k).0) [
    | inl e ↦ rw e (
        subst
          (λ l.
            Returns (Cleared l)
              (clear_loop ws cached false (record oc { con = some k'; cache = [] })))
          (ap (λ l. l ++ cached) (ws.write_ok am k e)
            ∙ append_assoc (ws.delivered k) (am ∷ []) cached)
          (clear_loop-Cleared cached k' oc))
    | inr (err, e) ↦
        rw (e, clear_loop_failed cached (notify_frontend err failed))
          (
            record {
              socket = k';
              is_set = (notify_keeps err failed).0;
              carried = rw (ws.write_failed am k err e, (notify_keeps err failed).1) refl;
            },
            λ h. cc,
          )
  ]
    where
      k' : K
      k' = (ws.write_message am k).1

      failed : Outc K
      failed = record oc { con = some k'; cache = am ∷ [] }

  -- What a routine leaves: everything is delivered, cached, or still in the channel.
  abbrev pub Conserved : List WsMessage → Ran K WriterEvent → Type 0
  Conserved all t =
      (k : K) × (t.oc.con ≡ some k) × (ws.delivered k ++ t.oc.cache ++ data_of t.left ≡ all)

  end_writing-Conserved :
      (left : List WriterEvent) (k : K) (oc : Outc K)
      → oc.con ≡ some k
      → Returns (Conserved (ws.delivered k ++ oc.cache ++ data_of left)) (end_writing ws left oc)
  unfolding end_writing close
  end_writing-Conserved left k oc e = elim (Bool-cases oc.closed) [
    | inl shut ↦ rw shut (k, e, refl)
    | inr live ↦ rw (live, e) (ws.close k, refl, rw (ws.delivered-close k) refl)
  ]

  end_with :
      (left : List WriterEvent) (k : K) (oc : Outc K) {all : List WsMessage}
      → oc.con ≡ some k
      → ws.delivered k ++ oc.cache ++ data_of left ≡ all
      → Returns (Conserved all) (end_writing ws left oc)
  end_with left k oc e p =
      subst (λ l. Returns (Conserved l) (end_writing ws left oc)) p
        (end_writing-Conserved left k oc e)

  -- Behind a write of `m` from an empty cache.
  after_failure :
      (m : WsMessage) (events : List WriterEvent) (k : K) (oc : Outc K) (err : WsError)
      → (ws.write_message m k).0 ≡ some err
      → Returns (Conserved (ws.delivered k ++ m ∷ data_of events)) (
          end_writing ws events (
            add_cache m (
              notify_frontend err (record oc { con = some (ws.write_message m k).1; cache = [] }))))
  unfolding add_cache
  after_failure m events k oc err e =
      let oc' = record oc { con = some (ws.write_message m k).1; cache = [] } in
      end_with events (ws.write_message m k).1 (add_cache m (notify_frontend err oc'))
        (notify_keeps err oc').0
        (rw (ws.write_failed m k err e, (notify_keeps err oc').1)
          (append_assoc (ws.delivered k) (m ∷ []) (data_of events)))

  delivered_one :
      (m : WsMessage) (k : K) (rest : List WsMessage)
      → (ws.write_message m k).0 ≡ none
      → ws.delivered (ws.write_message m k).1 ++ rest ≡ ws.delivered k ++ m ∷ rest
  delivered_one m k rest e =
      ap (λ l. l ++ rest) (ws.write_ok m k e) ∙ append_assoc (ws.delivered k) (m ∷ []) rest

  write_loop-Conserved :
      (events : List WriterEvent) (k : K) (oc : Outc K)
      → Returns
          (Conserved (ws.delivered k ++ data_of events))
          (write_loop ws events (record oc { con = some k; cache = [] }))
  unfolding write_loop
  write_loop-Conserved [] k oc = (k, refl, append-nil (ws.delivered k ++ []))
  write_loop-Conserved (incoming none ∷ events) k oc =
      end_with events k (record oc { con = some k; cache = [] }) refl (rw append-nil)
  write_loop-Conserved (incoming (some m) ∷ events) k oc =
      elim (Bool-cases (m.message_type == remote_connection_normal_closure)) [
        | inl over ↦
            rw (over, write_loop)
              (end_with events k (record oc { con = some k; cache = [] }) refl (rw append-nil))
        | inr more ↦ elim (Option-cases (ws.write_message m k).0) [
          | inl e ↦
              rw (more, write_loop, e)
                (subst
                  (λ l. Returns (Conserved l) (
                    write_loop ws events
                      (record oc { con = some (ws.write_message m k).1; cache = [] })))
                  (delivered_one m k (data_of events) e)
                  (write_loop-Conserved events (ws.write_message m k).1 oc))
          | inr (err, e) ↦ rw (more, write_loop, e) (after_failure m events k oc err e)
        ]
      ]
  write_loop-Conserved (tick ∷ events) k oc = elim (Option-cases (ws.write_ping k).0) [
    | inl e ↦ rw e (
        subst
          (λ l.
            Returns (Conserved l)
              (write_loop ws events (record oc { con = some (ws.write_ping k).1; cache = [] })))
          (ap (λ l. l ++ data_of events) (ws.delivered-ping k))
          (write_loop-Conserved events (ws.write_ping k).1 oc))
    | inr (err, e) ↦
        let oc' = record oc { con = some (ws.write_ping k).1; cache = [] } in
        rw e (
          end_with events (ws.write_ping k).1 (notify_frontend err oc') (notify_keeps err oc').0
            (rw (ws.delivered-ping k, (notify_keeps err oc').1) (rw append-nil)))
  ]
  write_loop-Conserved (ending ∷ events) k oc =
      end_with events k (record oc { con = some k; cache = [] }) refl (rw append-nil)

  -- A connection whose parts are known is the one that is built from them.
  opened :
      (oc : Outc K) (k : K) (c : List WsMessage)
      → oc.con ≡ some k
      → oc.cache ≡ c
      → record oc { con = some k; cache = c } ≡ oc
  opened oc k c e f = λ i. record oc { con = sym e i; cache = sym f i }

  -- The write loop behind a cleared cache, or the end behind one that failed.
  after_clearing :
      (all : List WsMessage) (events : List WriterEvent) (failed : Bool) (oc : Outc K)
      → Cleared all (failed, oc)
      → Returns
          (Conserved (all ++ data_of events))
          (elim (not failed) [ true ↦ write_loop ws events oc | false ↦ end_writing ws events oc ])
  after_clearing all events true oc (c, f) =
      end_with events c.socket oc c.is_set (ap (λ l. l ++ data_of events) c.carried)
  after_clearing all events false oc (c, f) =
      let empty = f refl in
      let all_sent : ws.delivered c.socket ≡ all =
        sym (append-nil (ws.delivered c.socket))
        ∙ ap (λ l. ws.delivered c.socket ++ l) (sym empty)
        ∙ c.carried in
      subst₂ (λ o l. Returns (Conserved (l ++ data_of events)) (write_loop ws events o))
        (opened oc c.socket [] c.is_set empty) all_sent (write_loop-Conserved events c.socket oc)

  start_opened :
      (events : List WriterEvent) (k : K) (c : List WsMessage) (oc : Outc K)
      → Returns
          (Conserved (ws.delivered k ++ c ++ data_of events))
          (start_writing ws events (record oc { con = some k; cache = c }))
  unfolding start_writing clear_cache clear_messages
  start_opened events k c oc =
      let h = clear_loop-Cleared c k oc in
      elim (Exec-cases (clear_loop ws c false (record oc { con = some k; cache = [] }))) [
        | inl e ↦ absurd (rw e at h)
        | inr (t, e) ↦ rw e (after_clearing (ws.delivered k ++ c) events t.0 t.1 (rw e at h))
      ]

  -- The writing routine of a connection with a socket returns, whatever the socket answers, and
  -- loses and reorders nothing: what the socket delivered, what is cached, and what the routine
  -- has not taken make up what was delivered, cached and sent to it before.
  pub start_writing-Conserved :
      (events : List WriterEvent) (k : K) (oc : Outc K)
      → oc.con ≡ some k
      → Returns
          (Conserved (ws.delivered k ++ oc.cache ++ data_of events))
          (start_writing ws events oc)
  start_writing-Conserved events k oc e =
      subst
        (λ o.
          Returns (Conserved (ws.delivered k ++ oc.cache ++ data_of events))
            (start_writing ws events o))
        (opened oc k oc.cache e refl) (start_opened events k oc.cache oc)
