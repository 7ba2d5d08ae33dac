-- ===== src/Out/Connection.antt =====
-- out/outc.go: the connection to a backend, and the cache of what it could not send. `con` is the
-- websocket of the library, `none` a nil pointer; `send` is the channel to the frontend, as the list
-- of the messages put on it; `done` and `bk_done` count the signals in the channel `done` and say
-- whether the channel to the backend is still set. `Loops` has the reading and writing.
pub mod Loops
pub mod Handover
use wsbalancer.Prelude.{
  ℕ, zero, suc, ◌≡◌, refl, Bool, true, false, List, [], ◌∷◌, ◌++◌, Option, none, some, Text,
  if◌then◌else◌, ◌||◌, ◌==◌,
}
use wsbalancer.Common.{
  WsMessage, is_control, remote_connection_normal_closure, remote_connection_abnormal_closure,
}
use wsbalancer.Common.Header.{Header}
use wsbalancer.Prelude.{ℤ}

pub record Outc (K : Type 0) : Type 0 where
  pub con : Option K
  pub ping_wait : ℤ
  pub shutting_down : Bool
  pub backend_id : Text
  pub done : ℕ
  pub bk_done : Bool
  pub pass_headers : Header
  pub closed : Bool
  pub cache : List WsMessage
  pub notified : Bool
  pub send : List WsMessage

-- `messageCache.clear`: what was cached, and the cache that is left.
unfoldable pub clear_messages : List WsMessage → List WsMessage × List WsMessage
clear_messages cache = (cache, [])

-- `newMessageCache`: the new cache, and what is left of the old one.
unfoldable pub new_message_cache :
    Option (List WsMessage) → List WsMessage × Option (List WsMessage)
unfolding clear_messages
new_message_cache none = ([], none)
new_message_cache (some old) = let (moved, left) = clear_messages old in (moved, some left)

module _ {K : Type 0} where
  cache_of : Option (Outc K) → Option (List WsMessage)
  cache_of none = none
  cache_of (some o) = some o.cache

  put_cache : Option (Outc K) → Option (List WsMessage) → Option (Outc K)
  put_cache none c = none
  put_cache (some o) none = some o
  put_cache (some o) (some c) = some (record o { cache = c })

  -- `newOutc`: the new connection takes over what the old one could not send.
  unfoldable pub new_outc :
      Option K → ℤ → Text → Header → Option (Outc K) → Outc K × Option (Outc K)
  unfolding new_message_cache cache_of put_cache
  new_outc con ping_time bk_id pass_headers old = (
    record {
      con = con;
      ping_wait = ping_time;
      shutting_down = false;
      backend_id = bk_id;
      done = 0;
      bk_done = true;
      pass_headers = pass_headers;
      closed = false;
      cache = (new_message_cache (cache_of old)).0;
      notified = false;
      send = [];
    },
    put_cache old (new_message_cache (cache_of old)).1,
  )
