-- ===== src/Tests/Connections.antt =====
-- A socket that takes a number of writes and then fails, and connections over it.
use wsbalancer.Prelude.{
  ℕ, zero, suc, ◌≡◌, refl, true, false, List, [], ◌∷◌, ◌++◌, map, Option, none, some, Text, codes,
  pos, Returns, arith,
}
use wsbalancer.Common.{WsMessage}
use wsbalancer.Out.Connection.{Outc, new_outc}
use wsbalancer.Out.Connection.Loops.{
  WsError, Websocket, WriterEvent, incoming, tick, ending, arrived, read_error, closure_message,
  start_writing, start_reading,
}
use wsbalancer.Out.Connection.Loops.Delivery.{data_of, Conserved, start_writing-Conserved}
use wsbalancer.Out.Connection.Loops.Failover.{Relayed, failover-Relayed}
use wsbalancer.Out.Connection.Loops.Reading.{data_only, IsReadOut, start_reading-IsReadOut}

-- What was delivered, and how many writes are left.
abbrev pub Wire : Type 0
Wire = List WsMessage × ℕ

abbrev pub gone_away : WsError
gone_away = record { close_code = some 1001; text = codes "gone" }

abbrev pub write_wire : WsMessage → Wire → Option WsError × Wire
write_wire m (sent, zero) = (some gone_away, (sent, zero))
write_wire m (sent, suc n) = (none, (sent ++ m ∷ [], n))

abbrev pub delivered_by : Wire → List WsMessage
delivered_by k = k.0

pub write_wire_ok :
    (m : WsMessage) (k : Wire)
    → (write_wire m k).0 ≡ none
    → delivered_by (write_wire m k).1 ≡ delivered_by k ++ m ∷ []
write_wire_ok m (sent, zero) e = ground (arith, e)
write_wire_ok m (sent, suc n) e = refl

pub write_wire_failed :
    (m : WsMessage) (k : Wire) (e : WsError)
    → (write_wire m k).0 ≡ some e
    → delivered_by (write_wire m k).1 ≡ delivered_by k
write_wire_failed m (sent, zero) e h = refl
write_wire_failed m (sent, suc n) e h = ground (arith, h)

abbrev pub wire : Websocket Wire
wire = record {
  write_message = write_wire;
  write_ping = λ k. (none, k);
  close = λ k. k;
  delivered = delivered_by;
  write_ok = write_wire_ok;
  write_failed = write_wire_failed;
  delivered-ping = λ k. refl;
  delivered-close = λ k. refl;
}

abbrev pub text : Text → WsMessage
text s = record { message_type = 1; payload = s }

abbrev short : Wire
short = ([], 2)

abbrev pub long : Wire
long = ([], 9)

-- Open, over a socket with two writes left, with one message cached.
abbrev pub open_outc : Outc Wire
open_outc = record {
  con = some short;
  ping_wait = pos 30;
  shutting_down = false;
  backend_id = codes "one";
  done = 0;
  bk_done = true;
  pass_headers = [];
  closed = false;
  cache = text (codes "a") ∷ [];
  notified = false;
  send = [];
}

abbrev pub traffic : List WriterEvent
traffic =
    incoming (some (text (codes "b")))
    ∷ tick
    ∷ incoming (some (text (codes "c")))
    ∷ incoming (some (text (codes "d")))
    ∷ ending
    ∷ []

writing_example :
    Returns
      (Conserved wire (delivered_by short ++ open_outc.cache ++ data_of traffic))
      (start_writing wire traffic open_outc)
writing_example = start_writing-Conserved wire traffic short open_outc refl

-- What the next connection gets: what is left, and one message more.
abbrev one_more : List WriterEvent → List WriterEvent
one_more [] = incoming (some (text (codes "e"))) ∷ []
one_more (event ∷ left) = event ∷ one_more left

one_more_lem :
    (left : List WriterEvent) → data_of (one_more left) ≡ data_of left ++ text (codes "e") ∷ []
one_more_lem [] = refl
one_more_lem (incoming none ∷ left) = one_more_lem left
one_more_lem (incoming (some m) ∷ left) = ground (arith, one_more_lem left)
one_more_lem (tick ∷ left) = one_more_lem left
one_more_lem (ending ∷ left) = one_more_lem left

failover_example :
    Returns
      (λ t.
        (k1 : Wire) × (t.oc.con ≡ some k1)
        × Returns
            (Relayed wire
              (delivered_by short ++ open_outc.cache ++ data_of traffic ++ text (codes "e") ∷ [])
              k1)
            (start_writing wire
              (one_more t.left)
              (new_outc (some long) (pos 30) (codes "two") [] (some t.oc)).0))
      (start_writing wire traffic open_outc)
failover_example =
    failover-Relayed wire traffic short long open_outc (pos 30) (codes "two") [] one_more
      (text (codes "e") ∷ []) refl refl one_more_lem

-- Two data messages and a control message between them.
abbrev heard : List WsMessage
heard = text (codes "x") ∷ record { message_type = 9; payload = [] } ∷ text (codes "y") ∷ []

reading_example :
    Returns
      (IsReadOut wire open_outc (data_only heard ++ closure_message gone_away ∷ []) [])
      (start_reading wire (map arrived heard ++ read_error gone_away ∷ []) open_outc)
reading_example =
    start_reading-IsReadOut wire heard gone_away [] open_outc
      (record { socket = short; is_set = refl; running = refl; open_still = refl; quiet = refl })
