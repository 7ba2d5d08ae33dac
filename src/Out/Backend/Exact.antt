-- ===== src/Out/Backend/Exact.antt =====
-- Which replies to a dial of out/backend.go are counted and named how, and what the breaker is told.
use wsbalancer.Prelude.{
  ℕ, ◌+◌, ◌≤◌, ◌<◌, ◌≡◌, refl, ◌⊎◌, inl, inr, Bool, true, false, Option, none, some, Text, codes,
  arith, Bool-cases, ◌&&◌, leb, ltb,
}
use wsbalancer.Common.{
  system_unavailable, connection_declined, new_system_unavailable_error_with_code,
}
use wsbalancer.Out.Backend.{
  Circuit, Backend, BackendDialContext, DialRequest, DialReply, DialResult, Response, connected,
  refused, Dialed, u32, on_circuit, on_reply, breaker_ready, dial_backend, attempt, request_for,
  is_success, circuit_tripped, error, status_of, text_of,
}
use wsbalancer.Out.Backend.Accounting.{AccountedFor, dial_backend-AccountedFor}

module _ {C K W : Type 0} (breaker : Circuit C W) (dial : DialRequest → W → DialReply K × W)
    (ctx : BackendDialContext K) where
  -- The status of a reply lies between the bounds.
  abbrev InRange : ℕ → ℕ → DialReply K → Type 0
  InRange low high reply =
      (res : Response) × (reply.res ≡ some res) × (low ≤ res.status_code) × (res.status_code < high)

  -- No reply, or one with none of the statuses above.
  abbrev IsDown : Option Response → Type 0
  IsDown none = Unit
  IsDown (some res) = (res.status_code < 100) ⊎ (500 ≤ res.status_code)

  -- Behind a reply: who is connected, declined and unavailable, and what is counted and told.
  abbrev Matches : Backend C → DialReply K → W → DialResult K → Backend C → Type 0
  Matches bk reply w (connected oc) bk' =
      InRange 100 300 reply
      × (bk'.total_failures ≡ bk.total_failures)
      × (bk'.breaker ≡ on_circuit breaker (breaker.success w) bk.breaker)
  Matches bk reply w (refused (connection_declined e)) bk' =
      InRange 300 500 reply × (e.code ≡ status_of reply.res) × (bk' ≡ bk)
  Matches bk reply w (refused (system_unavailable e)) bk' =
      IsDown reply.res
      × (e.code ≡ status_of reply.res)
      × (bk'.total_failures ≡ u32 (bk.total_failures + 1))
      × (bk'.breaker ≡ on_circuit breaker (breaker.fail w) bk.breaker)

  -- A backend whose breaker is not ready is not asked.
  abbrev pub Follows : Bool → Backend C → W → Dialed C K W → Type 0
  Follows false bk w d =
      (d.result
        ≡ refused (new_system_unavailable_error_with_code bk.config.id (codes "CircuitTripped") 0))
      × (d.backend ≡ bk)
      × (d.world ≡ w)
  Follows true bk w d =
      let (reply, w') = dial (request_for ctx bk.config) w in
      Matches bk reply w' d.result d.backend × (d.world ≡ w')

  success_lem :
      (res : Response)
      → is_success (some res) ≡ true
      → (100 ≤ res.status_code) × (res.status_code < 300)
  unfolding is_success
  success_lem res good = ground (arith, good)

  unavailable :
      (res : Response)
      → is_success (some res) ≡ false
      → (leb 300 res.status_code && ltb res.status_code 500) ≡ false
      → (res.status_code < 100) ⊎ (500 ≤ res.status_code)
  unfolding is_success
  unavailable res bad down = ground (arith, bad, down)

  on_reply-Matches :
      (bk : Backend C) (con : Option K) (res : Option Response) (er : Option Text) (w : W)
      → let reply : DialReply K = record { con = con; res = res; er = er } in
        let d = on_reply breaker dial ctx bk (reply, w) in Matches bk reply w d.result d.backend
  unfolding on_reply error is_success status_of text_of
  on_reply-Matches bk con none er w = (tt, refl, refl, refl)
  on_reply-Matches bk con (some res) er w =
      let c = res.status_code in
      elim (Bool-cases (is_success (some res))) [
        | inl good ↦
            let bounds = success_lem res good in
            rw (Matches, on_reply, good) ((res, refl, bounds.0, bounds.1), refl, refl)
        | inr bad ↦ elim (Bool-cases (leb 300 c && ltb c 500)) [
          | inl declined ↦
              rw (Matches, on_reply, bad, error, declined)
                ((res, refl, ground (arith, declined), ground (arith, declined)), refl, refl)
          | inr down ↦
              rw (Matches, on_reply, bad, error, down) (unavailable res bad down, refl, refl, refl)
        ]
      ]

  on_reply-world :
      (bk : Backend C) (t : DialReply K × W) → (on_reply breaker dial ctx bk t).world ≡ t.1
  unfolding on_reply
  on_reply-world bk (reply, w) = elim (Bool-cases (is_success reply.res)) [
    | inl good ↦ rw (on_reply, good) refl
    | inr bad ↦ rw (on_reply, bad) refl
  ]

  attempt-Follows :
      (ready : Bool) (bk : Backend C) (w : W)
      → Follows ready bk w (attempt breaker dial ready ctx bk w)
  unfolding attempt circuit_tripped on_reply error is_success
  attempt-Follows false bk w = (refl, refl, refl)
  attempt-Follows true bk w =
      let (reply, w') = dial (request_for ctx bk.config) w in
      (on_reply-Matches bk reply.con reply.res reply.er w', on_reply-world bk (reply, w'))

  -- Every dial of a backend. One whose breaker is not ready is not asked: the answer says so, and
  -- nothing is counted. Another one is asked once: a reply with a status from 100 to 299 makes a
  -- connection, and the breaker is told of a success; one from 300 to 499 declines, with this status,
  -- and nothing changes; and any other one, or no reply, is an unavailable backend, with the status of
  -- the reply or 0: one more failure is counted, in 32 bits, and the breaker is told. And whatever the
  -- answer, connections are counted where one is made and only there, the configuration, the flag and
  -- the management are as before, the backend names itself in the answer, and a new connection takes over
  -- exactly the messages that the old one has not sent, which a refusal leaves as they were.
  pub dial_backend-IsExact :
      (bk : Backend C) (w : W)
      → let (ready, br) = breaker_ready breaker w bk.breaker in
        Follows ready (record bk { breaker = br }) w (dial_backend breaker dial ctx bk w)
        × AccountedFor breaker dial ctx bk (dial_backend breaker dial ctx bk w)
  unfolding dial_backend
  dial_backend-IsExact bk w =
      let (ready, br) = breaker_ready breaker w bk.breaker in
      (
        attempt-Follows ready (record bk { breaker = br }) w,
        dial_backend-AccountedFor breaker dial ctx bk w,
      )
