-- ===== src/In/Inc/Passing/Order.antt =====
-- What the reading routine of a client puts on the channel to the backend.
use mathlib.Core.List.{append_assoc}
use wsbalancer.Prelude.{
  ℕ, ◌+◌, ◌%◌, ◌≡◌, refl, ◌∙◌, true, false, List, [], ◌∷◌, ◌++◌, map, none, Text, Returns,
  Returns-mono, returns, ltb, Bool-cases, inl, inr, arith,
}
use wsbalancer.Common.{WsMessage, is_control}
use wsbalancer.Out.Connection.Loops.Reading.{data_only}
use wsbalancer.In.Inc.{Socket, Inc, send_to_upstream, close, put_upstream}
use wsbalancer.In.Inc.Passing.{ReadEvent, read, read_error, HasRead, error_message, start_reading}

module _ {K : Type 0} where
  -- A connection that works, whose backend is not being replaced.
  pub record IsServing (inc : Inc K) : Type 0 where
    pub unlocked : inc.locked ≡ false
    pub open_still : inc.closed ≡ false
    pub active : inc.shutting_down ≡ false
    pub settled : inc.reinitializing ≡ false

  -- The connection behind a message that it counts and passes on.
  abbrev put_on : WsMessage → ℕ → Inc K → Inc K
  put_on m n inc = record inc { send = inc.send ++ m ∷ []; total_received = n }

  put_on-IsServing :
      (m : WsMessage) (n : ℕ) (inc : Inc K) → IsServing inc → IsServing (put_on m n inc)
  put_on-IsServing m n inc o = record {
    unlocked = o.unlocked;
    open_still = o.open_still;
    active = o.active;
    settled = o.settled;
  }

module _ {K S : Type 0} where
  -- Behind the last read.
  pub record IsForwarded (inc : Inc K) (s : S) (msgs : List WsMessage) (rest : List ReadEvent)
      (t : HasRead K S) : Type 0 where
    pub sent : t.inc.send ≡ inc.send ++ msgs
    pub unchanged : t.world ≡ s
    pub nothing_waits : t.waiting ≡ none
    pub left : t.left ≡ rest
    pub ended : t.ended ≡ true
    pub shut : t.inc.closed ≡ true
    pub inactive : t.inc.shutting_down ≡ true
    pub requested : t.inc.unregistered ≡ inc.unregistered + 1

  behind :
      (m : WsMessage) (n : ℕ) (inc : Inc K) (s : S) (ms : List WsMessage) (rest : List ReadEvent)
      (t : HasRead K S)
      → IsForwarded (put_on m n inc) s ms rest t
      → IsForwarded inc s (m ∷ ms) rest t
  behind m n inc s ms rest t f = record {
    sent = f.sent ∙ append_assoc inc.send (m ∷ []) ms;
    unchanged = f.unchanged;
    nothing_waits = f.nothing_waits;
    left = f.left;
    ended = f.ended;
    shut = f.shut;
    inactive = f.inactive;
    requested = f.requested;
  }

  -- One message without a valve, by whether its type is one of a peer's.
  send_one :
      (m : WsMessage) (inc : Inc K) (s : S)
      → IsServing inc
      → (n : ℕ) × (send_to_upstream [] m inc s ≡ returns (none, (put_on m n inc, s)))
  unfolding send_to_upstream put_upstream
  send_one m inc s o = elim (Bool-cases (ltb m.message_type 32)) [
    | inl peer ↦ (
      (inc.total_received + 1) % 18446744073709551616,
      rw (peer, o.unlocked, o.active) (ground arith),
    )
    | inr own ↦ (inc.total_received, rw (own, o.unlocked, o.active) (ground arith))
  ]

module _ {K S : Type 0} (ws : Socket K) where
  read_control :
      (m : WsMessage) (events : List ReadEvent) (inc : Inc K) (s : S)
      → is_control m ≡ true
      → start_reading ws [] (read m ∷ events) inc s ≡ start_reading ws [] events inc s
  unfolding start_reading
  read_control m events inc s e = rw (start_reading, e) refl

  read_data :
      (m : WsMessage) (n : ℕ) (events : List ReadEvent) (inc : Inc K) (s : S)
      → is_control m ≡ false
      → send_to_upstream [] m inc s ≡ returns (none, (put_on m n inc, s))
      → start_reading ws [] (read m ∷ events) inc s ≡ start_reading ws [] events (put_on m n inc) s
  unfolding start_reading
  read_data m n events inc s e f = rw (start_reading, e, f) refl

  at_error :
      (err : Text) (rest : List ReadEvent) (inc : Inc K) (s : S)
      → IsServing inc
      → Returns
          (IsForwarded inc s (error_message err ∷ []) rest)
          (start_reading ws [] (read_error err ∷ rest) inc s)
  unfolding start_reading close
  at_error err rest inc s o =
      let (n, e) = send_one (error_message err) inc s o in
      rw (e, o.open_still, o.settled)
        (record {
          sent = refl;
          unchanged = refl;
          nothing_waits = refl;
          left = refl;
          ended = refl;
          shut = refl;
          inactive = refl;
          requested = refl;
        })

  -- Where the client has no valves and its backend is not being replaced, the routine reads until
  -- the first error, whatever was read before it. The backend's channel gets the data messages in
  -- order, no control message, and behind them one message of a normal closure with the error's
  -- text; the connection is then closed, and one more request for unregistration is with the manager.
  pub start_reading-IsForwarded :
      (ms : List WsMessage) (err : Text) (rest : List ReadEvent) (inc : Inc K) (s : S)
      → IsServing inc
      → Returns
          (IsForwarded inc s (data_only ms ++ error_message err ∷ []) rest)
          (start_reading ws [] (map read ms ++ read_error err ∷ rest) inc s)
  start_reading-IsForwarded [] err rest inc s o = at_error err rest inc s o
  start_reading-IsForwarded (m ∷ ms) err rest inc s o =
      let events = map read ms ++ read_error err ∷ rest in
      elim (Bool-cases (is_control m)) [
        | inl control ↦
            rw (read_control m events inc s control, control)
              (start_reading-IsForwarded ms err rest inc s o)
        | inr plain ↦
            let (n, e) = send_one m inc s o in
            rw (read_data m n events inc s plain e, plain)
              (Returns-mono (start_reading ws [] events (put_on m n inc) s)
                (behind m n inc s (data_only ms ++ error_message err ∷ []) rest)
                (start_reading-IsForwarded ms err rest (put_on m n inc) s
                  (put_on-IsServing m n inc o)))
      ]
