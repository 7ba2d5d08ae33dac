-- ===== src/Cmd/Frontend/Opens.antt =====
-- The connections that a dial of a request opens and a failed upgrade closes, through in/inc_manager.go,
-- out/outc_manager.go, out/backend.go and out/outc.go, and what panics on the way.
use wsbalancer.Prelude.{
  ℕ, zero, suc, ◌+◌, ◌≤◌, ◌≡◌, refl, sym, ap, ◌∙◌, Bool, not, true, false, panics, Exec,
  if◌then◌else◌, List, Option, none, some, Text, returns, Exec-cases, ◌⊎◌, inl, inr, ◌==◌, ==_iff,
  arith,
}
use mathlib.Core.Path.{subst}
use wsbalancer.Common.{DialError}
use wsbalancer.Common.Header.{Header}
use wsbalancer.In.Request.{Request}
use wsbalancer.In.Sessions.Serving.Opened.{one_if_dialled}
use wsbalancer.Out.Connection.{Outc}
use wsbalancer.Out.Connection.Loops.{Websocket, close}
use wsbalancer.Out.Backend.{
  Circuit, BackendDialContext, DialRequest, DialReply, DialResult, connected, refused,
}
use wsbalancer.Out
use wsbalancer.Out.Manager.Dial.{dial_upstream}
use wsbalancer.Out.Manager.Dial.Made.{dial_upstream-IsAnswered}
use wsbalancer.Out.Backend.Made.{IsAnswered, BadReply}
use wsbalancer.Cmd.Frontend.{
  Handle, Running, is_nil, put_at, handle_of, answer, behind_dial, backend_connection, closed_at,
  upgraded_by,
}

abbrev one_if_open : Bool → ℕ
one_if_open false = 1
one_if_open true = 0

module _ {K : Type 0} where
  -- How many of the first connections are open.
  pub open_below : (ℕ → Outc K) → ℕ → ℕ
  open_below f zero = 0
  open_below f (suc n) = open_below f n + one_if_open (f n).closed

  open_below-put_at :
      (f : ℕ → Outc K) (oc : Outc K) (a n : ℕ)
      → n ≤ a
      → open_below (put_at a oc f) n ≡ open_below f n
  unfolding open_below
  open_below-put_at f oc a zero h = refl
  open_below-put_at f oc a (suc n) h =
      let apart : (n == a) ≡ false = ground (arith, h) in
      rw (apart) (ap (λ k. k + one_if_open (f n).closed) (open_below-put_at f oc a n (omega arith)))

  open_below-last :
      (f : ℕ → Outc K) (oc : Outc K) (n : ℕ)
      → open_below (put_at n oc f) (suc n) ≡ open_below f n + one_if_open oc.closed
  unfolding open_below
  open_below-last f oc n =
      rw ((==_iff n n).1 refl)
        (ap (λ k. k + one_if_open oc.closed) (open_below-put_at f oc n n (omega arith)))

module _ {C K W : Type 0} where
  -- The open connections of a world.
  unfoldable pub opened : Running C K W → ℕ
  unfolding open_below
  opened w = open_below w.connections w.next

module _ {C K W : Type 0} where
  -- No call has panicked.
  unfoldable pub fine : Running C K W → Bool
  fine w = not w.panicked

module _ {C F K W : Type 0} (breaker : Circuit C W) (dial : DialRequest → W → DialReply K × W)
    (ws : Websocket K) (subprotocol : K → Text)
    (upgrade : Request → List Text → Header → W → Option F × W) where
  -- A dial panics, or gives a success without a connection.
  abbrev pub WhyPanics : Text → Header → Running C K W → Type 0
  WhyPanics uri hdr w =
      let ctx : BackendDialContext K = record {
        request_uri = uri;
        dest_headers = hdr;
        old_connection = none;
      } in
      (dial_upstream breaker dial ctx w.pool w.world ≡ panics) ⊎ BadReply dial

  -- What a dial without an old connection leaves: a new open connection, or all as before. What has
  -- panicked on the way is known.
  pub Opens : Type 0 → Running C K W → (Handle ⊎ DialError) × Running C K W → Type 0
  Opens Why w (inl us, w') =
      (oc : Outc K) × (oc.closed ≡ false)
      × ((((k : K) × (oc.con ≡ some k)) × (w'.panicked ≡ w.panicked))
          ⊎ ((w'.panicked ≡ true) × Why))
      × (us.address ≡ w.next)
      × (w'.connections ≡ put_at w.next oc w.connections)
      × (w'.next ≡ suc w.next)
  Opens Why w (inr err, w') =
      (w'.connections ≡ w.connections)
      × (w'.next ≡ w.next)
      × ((w'.panicked ≡ w.panicked) ⊎ ((w'.panicked ≡ true) × Why))

  answer-Opens :
      (Why : Type 0) (w : Running C K W) (pool : Out.Manager.Manager C) (world : W)
      (result : DialResult K) (old' : Option (Outc K))
      → (BadReply dial → Why)
      → IsAnswered dial result
      → Opens Why w (
          answer breaker dial ws subprotocol upgrade none
            (record w { pool = pool; world = world })
            result
            old')
  unfolding answer handle_of Opens
  answer-Opens Why w pool world (connected oc) old' why (alive, inl (k, con)) = (
    oc,
    alive,
    inl ((k, con), ap (λ c. if is_nil c then true else w.panicked) con),
    refl,
    refl,
    refl,
  )
  answer-Opens Why w pool world (connected oc) old' why (alive, inr (nil, bad)) = (
    oc,
    alive,
    inr (ap (λ c. if is_nil c then true else w.panicked) nil, why bad),
    refl,
    refl,
    refl,
  )
  answer-Opens Why w pool world (refused err) old' why made = (refl, refl, inl refl)

  pub backend_connection-Opens :
      (uri : Text) (hdr : Header) (w : Running C K W)
      → Opens
          (WhyPanics uri hdr w)
          w
          (backend_connection breaker dial ws subprotocol upgrade uri hdr none w)
  unfolding backend_connection behind_dial Opens
  backend_connection-Opens uri hdr w =
      let ctx : BackendDialContext K = record {
        request_uri = uri;
        dest_headers = hdr;
        old_connection = none;
      } in
      let answered = dial_upstream-IsAnswered breaker dial ctx w.pool w.world in
      elim (Exec-cases (dial_upstream breaker dial ctx w.pool w.world)) [
        | inl e ↦
            subst
              (λ x.
                Opens (WhyPanics uri hdr w) w
                  (behind_dial breaker dial ws subprotocol upgrade none w x))
              (sym e) (refl, refl, inr (refl, inl e))
        | inr (t, e) ↦
            let m : IsAnswered dial t.0.result = rw e at answered in
            subst
              (λ x.
                Opens (WhyPanics uri hdr w) w
                  (behind_dial breaker dial ws subprotocol upgrade none w x))
              (sym e)
              (answer-Opens (WhyPanics uri hdr w) w t.1 t.0.world t.0.result t.0.old_connection
                (λ bad. inr bad) m)
      ]

  pub opened-Opens :
      (Why : Type 0) (w : Running C K W) (t : (Handle ⊎ DialError) × Running C K W)
      → Opens Why w t
      → opened t.1 ≡ opened w + one_if_dialled t.0
  unfolding Opens opened
  opened-Opens Why w (inl us, w') (oc, alive, con, at, conns, next) =
      rw (opened, conns, next) (open_below-last w.connections oc w.next ∙ rw (alive) refl)
  opened-Opens Why w (inr err, w') (conns, next, why) = rw (opened, conns, next) (omega arith)

  -- Where a dial has panicked, it is known why.
  pub panicked-Opens :
      (Why : Type 0) (w : Running C K W) (t : (Handle ⊎ DialError) × Running C K W)
      → Opens Why w t
      → fine w ≡ true
      → fine t.1 ≡ false
      → Why
  unfolding Opens fine
  panicked-Opens Why w (inl us, w') (oc, alive, inl (con, same), at, conns, next) good broken =
      absurd cc
  panicked-Opens Why w (inl us, w') (oc, alive, inr (gone, why), at, conns, next) good broken = why
  panicked-Opens Why w (inr err, w') (conns, next, inl same) good broken = absurd cc
  panicked-Opens Why w (inr err, w') (conns, next, inr (gone, why)) good broken = why

  close_lem :
      (oc : Outc K) (k : K)
      → oc.closed ≡ false
      → oc.con ≡ some k
      → (oc' : Outc K) × (close ws oc ≡ returns oc') × (oc'.closed ≡ true)
  unfolding close
  close_lem oc k alive con = (
    record oc { closed = true; shutting_down = true; con = some (ws.close k); done = oc.done + 1 },
    rw (close, alive, con) refl,
    refl,
  )

  open_below-closing :
      (f : ℕ → Outc K) (oc oc' : Outc K) (n : ℕ)
      → oc.closed ≡ false
      → oc'.closed ≡ true
      → open_below (put_at n oc' (put_at n oc f)) (suc n) + 1 ≡ open_below (put_at n oc f) (suc n)
  open_below-closing f oc oc' n alive shut =
      let before = open_below-last f oc n in
      let after = open_below-last (put_at n oc f) oc' n in
      let under = open_below-put_at f oc n n (omega arith) in
      let one : one_if_open oc.closed ≡ 1 = ap one_if_open alive in
      let nothing : one_if_open oc'.closed ≡ 0 = ap one_if_open shut in
      omega (arith, before, after, under, one, nothing)

  -- The connection that a dial has made is the one that its closure closes.
  pub opened-closed_at :
      (Why : Type 0) (w w' : Running C K W) (us : Handle)
      → Opens Why w (inl us, w')
      → fine w' ≡ true
      → let shut =
          closed_at breaker dial ws subprotocol upgrade us.address w'
            (close ws (w'.connections us.address)) in
        (opened shut + 1 ≡ opened w') × (fine shut ≡ true)
  unfolding Opens opened closed_at fine
  opened-closed_at Why w w' us (oc, alive, inr (gone, why), at, conns, next) good = absurd cc
  opened-closed_at Why w w' us (oc, alive, inl ((k, con), same), at, conns, next) good =
      let here : put_at w.next oc w.connections w.next ≡ oc =
        rw ((==_iff w.next w.next).1 refl) refl in
      let its_own : w'.connections us.address ≡ oc = rw (at, conns) here in
      let (oc', e, shut) = close_lem oc k alive con in
      let closes : close ws (w'.connections us.address) ≡ returns oc' = rw (its_own) e in
      (
        rw (closes, closed_at, opened, at, conns, next)
            (open_below-closing w.connections oc oc' w.next alive shut),
        rw (closes, closed_at, fine) good,
      )

  pub closed_at-stays :
      (a : ℕ) (w : Running C K W) (closing : Exec (Outc K))
      → fine w ≡ false
      → fine (closed_at breaker dial ws subprotocol upgrade a w closing) ≡ false
  unfolding closed_at fine
  closed_at-stays a w (returns oc) broken = broken
  closed_at-stays a w panics broken = refl

  pub Opens-at :
      (Why : Type 0) (w : Running C K W) (t : (Handle ⊎ DialError) × Running C K W) (us : Handle)
      → t.0 ≡ inl us
      → Opens Why w t
      → Opens Why w (inl us, t.1)
  Opens-at Why w t us e o = subst (λ dialled. Opens Why w (dialled, t.1)) e o

  pub Opens-upgraded_by :
      (Why : Type 0) (w w' : Running C K W) (us : Handle) (t : Option F × W)
      → Opens Why w (inl us, w')
      → Opens Why w (inl us, (upgraded_by breaker dial ws subprotocol upgrade w' t).1)
  unfolding Opens upgraded_by
  Opens-upgraded_by Why w w' us t o = o
