-- ===== src/Out/Connection/Loops/Reading.antt =====
-- What the reading routine puts on the channel to the frontend.
use mathlib.Core.List.{append_assoc}
use mathlib.Core.Path.{subst}
use wsbalancer.Prelude.{
  deref, ◌>>=◌, sym, ap, ◌≡◌, refl, ◌∙◌, Bool, true, false, List, [], ◌∷◌, ◌++◌, map, some, Returns,
  Returns-mono, Bool-cases, inl, inr, if◌then◌else◌, arith,
}
use wsbalancer.Common.{WsMessage, is_control}
use wsbalancer.Out.Connection.{Outc}
use wsbalancer.Out.Connection.Loops.{
  WsError, Websocket, closure_message, ReaderEvent, arrived, read_error, Ran, notify_frontend,
  notify_backend, close, read_loop, start_reading,
}

-- The data messages.
abbrev pub data_only : List WsMessage → List WsMessage
data_only [] = []
data_only (m ∷ ms) = let rest = data_only ms in if is_control m then rest else m ∷ rest

module _ {K : Type 0} (ws : Websocket K) where
  -- A connection that works: it has a socket, and neither routine has closed it or complained.
  pub record IsOpen (oc : Outc K) : Type 0 where
    pub socket : K
    pub is_set : oc.con ≡ some socket
    pub running : oc.shutting_down ≡ false
    pub open_still : oc.closed ≡ false
    pub quiet : oc.notified ≡ false

  -- Behind a read error: the frontend has the messages and the closure, and all is shut.
  pub record IsReadOut (oc : Outc K) (msgs : List WsMessage) (rest : List ReaderEvent)
      (t : Bool × Ran K ReaderEvent) : Type 0 where
    pub sent : t.1.oc.send ≡ oc.send ++ msgs
    pub left : t.1.left ≡ rest
    pub ended : t.1.ended ≡ true
    pub signals : t.0 ≡ oc.bk_done
    pub shut : t.1.oc.closed ≡ true
    pub shutting : t.1.oc.shutting_down ≡ true
    pub no_signal : t.1.oc.bk_done ≡ false

  at_error :
      (e : WsError) (rest : List ReaderEvent) (oc : Outc K)
      → IsOpen oc
      → Returns (IsReadOut oc (closure_message e ∷ []) rest) (read_loop ws (read_error e ∷ rest) oc)
  unfolding read_loop notify_frontend notify_backend close
  at_error e rest oc o = rw (o.running, read_loop, o.quiet, o.open_still, o.is_set) (ground arith)

  taken :
      (m : WsMessage) (oc : Outc K) (ms : List WsMessage) (rest : List ReaderEvent)
      (t : Bool × Ran K ReaderEvent)
      → IsReadOut (record oc { send = oc.send ++ m ∷ [] }) ms rest t
      → IsReadOut oc (m ∷ ms) rest t
  taken m oc ms rest t r = record {
    sent = r.sent ∙ append_assoc oc.send (m ∷ []) ms;
    left = r.left;
    ended = r.ended;
    signals = r.signals;
    shut = r.shut;
    shutting = r.shutting;
    no_signal = r.no_signal;
  }

  read_one :
      (m : WsMessage) (events : List ReaderEvent) (oc : Outc K)
      → oc.shutting_down ≡ false
      → read_loop ws (arrived m ∷ events) oc
        ≡ read_loop ws events (if is_control m then oc else record oc { send = oc.send ++ m ∷ [] })
  unfolding read_loop
  read_one m events oc running = rw running refl

  read_loop-IsReadOut :
      (ms : List WsMessage) (e : WsError) (rest : List ReaderEvent) (oc : Outc K)
      → IsOpen oc
      → Returns
          (IsReadOut oc (data_only ms ++ closure_message e ∷ []) rest)
          (read_loop ws (map arrived ms ++ read_error e ∷ rest) oc)
  read_loop-IsReadOut [] e rest oc o = at_error e rest oc o
  read_loop-IsReadOut (m ∷ ms) e rest oc o = elim (Bool-cases (is_control m)) [
    | inl control ↦
        rw (read_one m (map arrived ms ++ read_error e ∷ rest) oc o.running, control)
          (read_loop-IsReadOut ms e rest oc o)
    | inr plain ↦
        rw (read_one m (map arrived ms ++ read_error e ∷ rest) oc o.running, plain)
          (Returns-mono
            (read_loop ws (map arrived ms ++ read_error e ∷ rest)
              (record oc { send = oc.send ++ m ∷ [] }))
            (taken m oc (data_only ms ++ closure_message e ∷ []) rest)
            (read_loop-IsReadOut ms e rest (record oc { send = oc.send ++ m ∷ [] })
              (record {
                socket = o.socket;
                is_set = o.is_set;
                running = o.running;
                open_still = o.open_still;
                quiet = o.quiet;
              })))
  ]

  -- An open connection reads until the first error, whatever arrived before it: the frontend gets
  -- the data messages in order, no control message, and behind them one message that says whether
  -- the closure is abnormal. The routine then ends: the connection is shut and the backend signalled
  -- once, if it has not been.
  pub start_reading-IsReadOut :
      (ms : List WsMessage) (e : WsError) (rest : List ReaderEvent) (oc : Outc K)
      → IsOpen oc
      → Returns
          (IsReadOut oc (data_only ms ++ closure_message e ∷ []) rest)
          (start_reading ws (map arrived ms ++ read_error e ∷ rest) oc)
  unfolding start_reading
  start_reading-IsReadOut ms e rest oc o =
      let events = map arrived ms ++ read_error e ∷ rest in
      let begins : start_reading ws events oc ≡ read_loop ws events oc =
        ap (λ c. deref c >>= (λ k. read_loop ws events oc)) o.is_set in
      subst (Returns (IsReadOut oc (data_only ms ++ closure_message e ∷ []) rest)) (sym begins)
        (read_loop-IsReadOut ms e rest oc o)
