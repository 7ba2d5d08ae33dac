-- ===== src/Out/Connection/Loops.antt =====
-- The reading and writing routines of out/outc.go. What the channels and the socket give is the
-- list of the events that a routine gets; an empty list leaves it waiting.
pub mod Delivery
pub mod Reading
pub mod Failover
use wsbalancer.Prelude.{
  ℕ, ◌+◌, ◌≡◌, Bool, true, false, not, ◌||◌, List, [], ◌∷◌, ◌++◌, Option, none, some, Text, Exec,
  returns, panics, ◌>>=◌, deref, ◌==◌, if◌then◌else◌,
}
use wsbalancer.Common.{
  WsMessage, is_control, remote_connection_normal_closure, remote_connection_abnormal_closure,
}
use wsbalancer.Out.Connection.{Outc, clear_messages}

-- An error of the websocket: the code, where it is a `CloseError`, and the text.
pub record WsError : Type 0 where
  pub close_code : Option ℕ
  pub text : Text

-- github.com/gorilla/websocket: what the balancer calls on a connection. `delivered` is what the
-- peer was sent: a write adds its message where it returns no error, and nothing otherwise. `close`
-- writes a close message and closes.
pub record Websocket (K : Type 0) : Type 0 where
  pub write_message : WsMessage → K → Option WsError × K
  pub write_ping : K → Option WsError × K
  pub close : K → K
  pub delivered : K → List WsMessage
  pub write_ok :
      (m : WsMessage) (k : K)
      → (write_message m k).0 ≡ none
      → delivered (write_message m k).1 ≡ delivered k ++ m ∷ []
  pub write_failed :
      (m : WsMessage) (k : K) (e : WsError)
      → (write_message m k).0 ≡ some e
      → delivered (write_message m k).1 ≡ delivered k
  pub delivered-ping : (k : K) → delivered (write_ping k).1 ≡ delivered k
  pub delivered-close : (k : K) → delivered (close k) ≡ delivered k

-- The codes of `_notifyFrontend`: abnormal closure, going away, internal error, no status
-- received, try again later.
abbrev is_abnormal_code : ℕ → Bool
is_abnormal_code c = (c == 1006) || ((c == 1001) || ((c == 1011) || ((c == 1005) || (c == 1013))))

-- What is no `CloseError` is abnormal too.
unfoldable pub is_abnormal : WsError → Bool
is_abnormal e = elim e.close_code [ none ↦ true | some c ↦ is_abnormal_code c ]

unfoldable pub closure_message : WsError → WsMessage
closure_message e = record {
  message_type =
      if is_abnormal e
      then remote_connection_abnormal_closure
      else remote_connection_normal_closure;
  payload = e.text;
}

-- What the writing routine selects: a message of the frontend (nil once the channel is closed), the
-- ticker, or the end.
pub data WriterEvent : Type 0 where
  incoming : Option WsMessage → WriterEvent
  tick : WriterEvent
  ending : WriterEvent

pub data ReaderEvent : Type 0 where
  arrived : WsMessage → ReaderEvent
  read_error : WsError → ReaderEvent

-- The connection behind a routine, what it has not taken, and whether it has ended.
pub record Ran (K E : Type 0) : Type 0 where
  pub oc : Outc K
  pub left : List E
  pub ended : Bool

module _ {K : Type 0} where
  -- `messageCache.add`
  unfoldable pub add_cache : WsMessage → Outc K → Outc K
  add_cache m oc = record oc { cache = oc.cache ++ m ∷ [] }

  -- Through `notifyFEOnce`.
  unfoldable pub notify_frontend : WsError → Outc K → Outc K
  notify_frontend e oc =
      if oc.notified
      then oc
      else record oc { notified = true; send = oc.send ++ closure_message e ∷ [] }

  -- `notifyBackend`: whether the backend is signalled. The channel is set to nil behind it.
  unfoldable pub notify_backend : Outc K → Bool × Outc K
  notify_backend oc = if oc.bk_done then (true, record oc { bk_done = false }) else (false, oc)

module _ {K : Type 0} (ws : Websocket K) where
  -- `Close`, through `closeOnce`: a nil connection panics.
  unfoldable pub close : Outc K → Exec (Outc K)
  close oc = elim oc.closed [
    | true ↦ returns oc
    | false ↦ do
      k ← deref oc.con
      returns (record oc {
        closed = true;
        shutting_down = true;
        con = some (ws.close k);
        done = oc.done + 1;
      })
  ]

  -- `oc.con.WriteMessage`
  unfoldable pub write : WsMessage → Outc K → Exec (Option WsError × Outc K)
  write m oc = do
    k ← deref oc.con
    returns ((ws.write_message m k).0, record oc { con = some (ws.write_message m k).1 })

  unfoldable pub ping : Outc K → Exec (Option WsError × Outc K)
  ping oc = do
    k ← deref oc.con
    returns ((ws.write_ping k).0, record oc { con = some (ws.write_ping k).1 })

  -- The loop of `clearCache`; the flag is `cacheClearError`.
  unfoldable pub clear_loop : List WsMessage → Bool → Outc K → Exec (Bool × Outc K)
  unfolding add_cache write
  clear_loop [] failed oc = returns (failed, oc)
  clear_loop (am ∷ cached) true oc = clear_loop cached true (add_cache am oc)
  clear_loop (am ∷ cached) false oc = do
    (wrr, oc') ← write am oc
    elim wrr [
      | none ↦ clear_loop cached false oc'
      | some e ↦ clear_loop cached true (notify_frontend e (add_cache am oc'))
    ]

  -- `clearCache`: whether all was sent.
  unfoldable pub clear_cache : Outc K → Exec (Bool × Outc K)
  unfolding clear_loop
  clear_cache oc = do
    let (cached, kept) = clear_messages oc.cache
    (failed, oc') ← clear_loop cached false (record oc { cache = kept })
    returns (not failed, oc')

  -- The end of the writing routine, with its deferred `Close`.
  unfoldable pub end_writing : List WriterEvent → Outc K → Exec (Ran K WriterEvent)
  end_writing left oc = do oc' ← close oc; returns (record { oc = oc'; left = left; ended = true })

  -- The loop of `startWriting`.
  unfoldable pub write_loop : List WriterEvent → Outc K → Exec (Ran K WriterEvent)
  unfolding end_writing add_cache write ping
  write_loop [] oc = returns (record { oc = oc; left = []; ended = false })
  write_loop (incoming none ∷ events) oc = end_writing events oc
  write_loop (incoming (some m) ∷ events) oc =
      elim (m.message_type == remote_connection_normal_closure) [
        | true ↦ end_writing events oc
        | false ↦ do
          (wrr, oc') ← write m oc
          elim wrr [
            | none ↦ write_loop events oc'
            | some e ↦ end_writing events (add_cache m (notify_frontend e oc'))
          ]
      ]
  write_loop (tick ∷ events) oc = do
    (err, oc') ← ping oc
    elim err [ none ↦ write_loop events oc' | some e ↦ end_writing events (notify_frontend e oc') ]
  write_loop (ending ∷ events) oc = end_writing events oc

  -- `startWriting`: the cache first, and the loop if all of it was sent.
  unfoldable pub start_writing : List WriterEvent → Outc K → Exec (Ran K WriterEvent)
  unfolding write_loop
  start_writing events oc = do
    (sent, oc') ← clear_cache oc
    elim sent [ true ↦ write_loop events oc' | false ↦ end_writing events oc' ]

  -- The end of the reading routine: `Close` and `notifyBackend`, and whether that signals.
  end_reading : List ReaderEvent → Outc K → Exec (Bool × Ran K ReaderEvent)
  end_reading left oc = do
    oc' ← close oc
    let (signalled, oc'') = notify_backend oc'
    returns (signalled, record { oc = oc''; left = left; ended = true })

  -- The loop of `startReading`; what arrives while the connection shuts down is dropped.
  read_loop : List ReaderEvent → Outc K → Exec (Bool × Ran K ReaderEvent)
  unfolding end_reading
  read_loop [] oc = returns (false, record { oc = oc; left = []; ended = false })
  read_loop (arrived m ∷ events) oc = elim oc.shutting_down [
    | true ↦ end_reading events oc
    | false ↦ read_loop events (if is_control m then oc else record oc { send = oc.send ++ m ∷ [] })
  ]
  read_loop (read_error e ∷ events) oc = elim oc.shutting_down [
    | true ↦ end_reading events oc
    | false ↦ end_reading events (notify_frontend e oc)
  ]

  -- `startReading`: the first read is of the connection, which may be nil.
  unfoldable pub start_reading : List ReaderEvent → Outc K → Exec (Bool × Ran K ReaderEvent)
  unfolding read_loop
  start_reading events oc = do k ← deref oc.con; read_loop events oc
