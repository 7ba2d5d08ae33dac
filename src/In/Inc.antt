-- ===== src/In/Inc.antt =====
-- in/inc.go: the connection of a client. `send` is the channel to the backend as the list of the
-- messages put on it, `done` the channel of that name, and `unregistered` counts the requests to the
-- manager. `locked` says that `bkConnectionLock` is held for writing, `closed` that `closeOnce` has
-- run; the counters are bit patterns of 64 bits. `Start` has run: the channel `done` is made.
pub mod Lock
pub mod Passing
pub mod Aborted
use wsbalancer.Prelude.{
  ℕ, ◌+◌, ◌%◌, ◌≡◌, Bool, true, false, not, List, [], ◌∷◌, ◌++◌, Option, none, some, Text, codes,
  Exec, returns, panics, ◌>>=◌, ltb, ◌==◌, if◌then◌else◌,
}
use wsbalancer.Common.{
  WsMessage, is_control, remote_connection_normal_closure, remote_connection_abnormal_closure,
}
use wsbalancer.Common.Header.{Header}

-- github.com/gorilla/websocket, as far as this file calls it: `WriteMessage` with its error,
-- `WriteControl` with a close message, and `Close`.
pub record Socket (K : Type 0) : Type 0 where
  pub write_message : WsMessage → K → Option Text × K
  pub write_close : K → K
  pub close : K → K

-- What a valve answers: a message, nil for one that is discarded, or an error.
pub data Verdict : Type 0 where
  passed : Option WsMessage → Verdict
  failed : Text → Verdict

-- `MessageValve`: code of others, which works on a world `S` and may panic. A nil valve is one whose
-- calls panic.
pub record Valve (S : Type 0) : Type 0 where
  pub before_transmit : Option WsMessage → S → Exec (Verdict × S)
  pub after_receive : Option WsMessage → S → Exec (Verdict × S)

pub record Inc (K : Type 0) : Type 0 where
  pub con : K
  pub header : Header
  pub request_uri : Text
  pub send : List WsMessage
  pub done : List Bool
  pub unregistered : ℕ
  pub frontend_id : Text
  pub id : Text
  pub total_received : ℕ
  pub total_sent : ℕ
  pub total_reconnects : ℕ
  pub reinitializing : Bool
  pub locked : Bool
  pub closed : Bool
  pub shutting_down : Bool

abbrev u64 : ℕ → ℕ
u64 n = n % 18446744073709551616

-- The text of the pointer, of which `newInc` makes the id, is its last argument here.
unfoldable pub new_inc : {K : Type 0} → K → Header → Text → Text → Text → Inc K
new_inc con hdr fid request_uri id = record {
  con = con;
  header = hdr;
  request_uri = request_uri;
  send = [];
  done = [];
  unregistered = 0;
  frontend_id = fid;
  id = id;
  total_received = 0;
  total_sent = 0;
  total_reconnects = 0;
  reinitializing = false;
  locked = false;
  closed = false;
  shutting_down = false;
}

-- The loop of `sendToUpstream`, from the first valve to the last.
transmit : {S : Type 0} → List (Valve S) → Option WsMessage → S → Exec (Verdict × S)
transmit [] msg s = returns (passed msg, s)
transmit (vl ∷ valves) msg s = do
  (verdict, s') ← vl.before_transmit msg s
  elim verdict [ passed msg' ↦ transmit valves msg' s' | failed err ↦ returns (failed err, s') ]

-- The loop of `onReceiveFromUpstream`, from the last valve to the first.
unfoldable pub receive : {S : Type 0} → List (Valve S) → Option WsMessage → S → Exec (Verdict × S)
receive [] msg s = returns (passed msg, s)
receive (vl ∷ valves) msg s = do
  (verdict, s') ← receive valves msg s
  elim verdict [ passed msg' ↦ vl.after_receive msg' s' | failed err ↦ returns (failed err, s') ]

-- The types below the balancer's own.
is_peer_message : WsMessage → Bool
is_peer_message m = ltb m.message_type remote_connection_normal_closure

module _ {K : Type 0} where
  unfoldable pub is_client_active : Inc K → Bool
  is_client_active inc = not inc.shutting_down

  -- To unlock what is not locked is fatal.
  unlock : Inc K → Exec (Inc K)
  unlock inc = if inc.locked then returns (record inc { locked = false }) else panics

  -- The set flag ends it. Otherwise `Lock` finds the lock free, as it is held only under the flag.
  unfoldable pub reinit_upstream : Inc K → Inc K
  reinit_upstream inc =
      if inc.reinitializing
      then inc
      else record inc { reinitializing = true; locked = true; unregistered = inc.unregistered + 1 }

  unfoldable pub resume : Inc K → Exec (Inc K)
  unfolding unlock
  resume inc = unlock (record inc {
    total_reconnects = u64 (inc.total_reconnects + 1);
    done = [];
    reinitializing = false;
  })

  -- The end of `sendToUpstream`: the message that waits for the lock, if it has to.
  unfoldable pub put_upstream : WsMessage → Inc K → Option WsMessage × Inc K
  put_upstream m inc =
      if is_control m
      then (none, record inc { send = inc.send ++ m ∷ [] })
      else if inc.locked
      then (some m, inc)
      else if inc.shutting_down
      then (none, inc)
      else (none, record inc { send = inc.send ++ m ∷ [] })

  count_received : WsMessage → Inc K → Inc K
  unfolding is_peer_message
  count_received m inc =
      if is_peer_message m
      then record inc { total_received = u64 (inc.total_received + 1) }
      else inc

  count_sent : WsMessage → Inc K → Inc K
  unfolding is_peer_message
  count_sent m inc =
      if is_peer_message m then record inc { total_sent = u64 (inc.total_sent + 1) } else inc

  after_valves : Verdict → Inc K → Option WsMessage × Inc K
  unfolding put_upstream
  after_valves (failed err) inc = (none, inc)
  after_valves (passed none) inc = (none, inc)
  after_valves (passed (some m)) inc = put_upstream m inc

module _ {K S : Type 0} (valves : List (Valve S)) where
  unfoldable pub send_to_upstream : WsMessage → Inc K → S → Exec (Option WsMessage × (Inc K × S))
  unfolding transmit after_valves count_received
  send_to_upstream m inc s = do
    (verdict, s') ← transmit valves (some m) s
    let (waiting, inc') = after_valves verdict (count_received m inc)
    returns (waiting, (inc', s'))

  -- `abortBackend`
  unfoldable pub abort_backend : Inc K → S → Exec (Inc K × S)
  abort_backend inc s = do
    (waiting, (inc', s')) ←
        send_to_upstream
          (record {
            message_type = remote_connection_normal_closure;
            payload = codes "Administratively aborted";
          })
          (record inc { done = inc.done ++ true ∷ [] }) s
    returns (inc', s')

  -- The message for the client, or nil where a valve fails. A message that the valves discard is
  -- dereferenced.
  unfoldable pub on_receive_from_upstream :
      WsMessage → Inc K → S → Exec (Option WsMessage × (Inc K × S))
  unfolding receive count_sent
  on_receive_from_upstream m inc s = do
    (verdict, s') ← receive valves (some m) s
    elim verdict [
      | failed err ↦ returns (none, (inc, s'))
      | passed none ↦ panics
      | passed (some m') ↦ returns (some m', (count_sent m' inc, s'))
    ]

module _ {K : Type 0} (ws : Socket K) where
  -- `Close`, through `closeOnce`.
  unfoldable pub close : Inc K → Exec (Inc K)
  unfolding unlock
  close inc = elim inc.closed [
    | true ↦ returns inc
    | false ↦
        let inc' = record inc {
          closed = true;
          shutting_down = true;
          done = inc.done ++ false ∷ [];
          con = ws.close (ws.write_close inc.con);
        } in
        elim inc.reinitializing [ true ↦ unlock inc' | false ↦ returns inc' ]
  ]
