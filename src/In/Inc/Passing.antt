-- ===== src/In/Inc/Passing.antt =====
-- The reading and writing routines of in/inc.go. What the socket and the channels give is the list
-- of the events that a routine gets; an empty list leaves it waiting.
pub mod Order
use wsbalancer.Prelude.{
  ℕ, ◌+◌, ◌≡◌, Bool, true, false, List, [], ◌∷◌, Option, none, some, Text, Exec, returns, ◌>>=◌,
  ◌==◌, if◌then◌else◌,
}
use wsbalancer.Common.{
  WsMessage, is_control, remote_connection_normal_closure, remote_connection_abnormal_closure,
}
use wsbalancer.In.Inc.{
  Socket, Valve, Inc, reinit_upstream, put_upstream, send_to_upstream, on_receive_from_upstream,
  close,
}

pub data ReadEvent : Type 0 where
  read : WsMessage → ReadEvent
  read_error : Text → ReadEvent

-- The connection and the world behind the reading routine, the message that waits for the lock,
-- what was not read, and whether the routine has ended.
pub record HasRead (K S : Type 0) : Type 0 where
  pub inc : Inc K
  pub world : S
  pub waiting : Option WsMessage
  pub left : List ReadEvent
  pub ended : Bool

-- What the writing routine selects: a message of the backend (nil once the channel is closed), or
-- what is on `done`.
pub data WriteEvent : Type 0 where
  received : Option WsMessage → WriteEvent
  signalled : Bool → WriteEvent

pub record HasWritten (K S : Type 0) : Type 0 where
  pub inc : Inc K
  pub world : S
  pub left : List WriteEvent
  pub ended : Bool

abbrev pub error_message : Text → WsMessage
error_message err = record { message_type = remote_connection_normal_closure; payload = err }

module _ {K S : Type 0} (ws : Socket K) (valves : List (Valve S)) where
  -- The deferred end of `startReading`.
  end_reading : List ReadEvent → Inc K → S → Exec (HasRead K S)
  end_reading events inc s = do
    inc' ← close ws inc
    returns (record {
      inc = record inc' { unregistered = inc'.unregistered + 1 };
      world = s;
      waiting = none;
      left = events;
      ended = true;
    })

  waits : WsMessage → List ReadEvent → Inc K → S → Exec (HasRead K S)
  waits m events inc s =
      returns (record { inc = inc; world = s; waiting = some m; left = events; ended = false })

  -- `startReading`
  unfoldable pub start_reading : List ReadEvent → Inc K → S → Exec (HasRead K S)
  unfolding end_reading waits
  start_reading [] inc s =
      returns (record { inc = inc; world = s; waiting = none; left = []; ended = false })
  start_reading (read_error err ∷ events) inc s = do
    (waiting, (inc', s')) ← send_to_upstream valves (error_message err) inc s
    elim waiting [ none ↦ end_reading events inc' s' | some m ↦ waits m events inc' s' ]
  start_reading (read m ∷ events) inc s = elim (is_control m) [
    | true ↦ start_reading events inc s
    | false ↦ do
      (waiting, (inc', s')) ← send_to_upstream valves m inc s
      elim waiting [ none ↦ start_reading events inc' s' | some m' ↦ waits m' events inc' s' ]
  ]

  -- The deferred end of `startWriting`, with its result `reInit`.
  end_writing : Bool → List WriteEvent → Inc K → S → Exec (HasWritten K S)
  end_writing re_init events inc s = do
    inc' ← elim re_init [ true ↦ returns (reinit_upstream inc) | false ↦ close ws inc ]
    returns (record { inc = inc'; world = s; left = events; ended = true })

  -- `startWriting`
  unfoldable pub start_writing : List WriteEvent → Inc K → S → Exec (HasWritten K S)
  unfolding end_writing
  start_writing [] inc s = returns (record { inc = inc; world = s; left = []; ended = false })
  start_writing (signalled re_init ∷ events) inc s = end_writing re_init events inc s
  start_writing (received none ∷ events) inc s = end_writing false events inc s
  start_writing (received (some m) ∷ events) inc s = do
    (msg, (inc', s')) ← on_receive_from_upstream valves m inc s
    elim msg [
      | none ↦ end_writing false events inc' s'
      | some m' ↦ elim (m'.message_type == remote_connection_normal_closure) [
        | true ↦ end_writing false events inc' s'
        | false ↦ elim (m'.message_type == remote_connection_abnormal_closure) [
          | true ↦ end_writing true events inc' s'
          | false ↦
              let (err, con) = ws.write_message m' inc'.con in
              elim err [
                | none ↦ start_writing events (record inc' { con = con }) s'
                | some e ↦ end_writing false events (record inc' { con = con }) s'
              ]
        ]
      ]
    ]
