-- ===== src/Out/Backend/Made.antt =====
-- What a connection is that a dial of out/backend.go makes.
use wsbalancer.Prelude.{
  ◌≡◌, refl, Bool, true, false, some, none, Bool-cases, inl, inr, Option-cases, ◌⊎◌, sym, ◌∙◌,
}
use wsbalancer.Out.Connection.{new_outc}
use wsbalancer.Out.Backend.{
  Circuit, Backend, BackendDialContext, DialRequest, DialReply, DialResult, connected, refused,
  is_success, connection, on_reply, attempt, breaker_ready, dial_backend, request_for,
  circuit_tripped,
}

-- A new connection is open, and over a socket.
abbrev pub IsMade : {K : Type 0} → DialResult K → Type 0
IsMade {K} (connected oc) = (oc.closed ≡ false) × ((k : K) × (oc.con ≡ some k))
IsMade (refused err) = Unit

-- A reply that the balancer takes for a success, without a connection.
pub record BadReply {K W : Type 0} (dial : DialRequest → W → DialReply K × W) : Type 0 where
  pub request : DialRequest
  pub world : W
  pub success : is_success (dial request world).0.res ≡ true
  pub missing : (dial request world).0.con ≡ none

-- A new connection is open, and over a socket, unless the reply has none.
abbrev pub IsAnswered : {K W : Type 0} → (DialRequest → W → DialReply K × W) → DialResult K → Type 0
IsAnswered {K} dial (connected oc) =
    (oc.closed ≡ false) × (((k : K) × (oc.con ≡ some k)) ⊎ ((oc.con ≡ none) × BadReply dial))
IsAnswered dial (refused err) = Unit

-- The dialer gives a connection where it gives no error, as its documentation says.
abbrev pub GivesCon : {K W : Type 0} → (DialRequest → W → DialReply K × W) → Type 0
GivesCon {K} {W} dial =
    (r : DialRequest) (w : W) → (dial r w).0.er ≡ none → (k : K) × ((dial r w).0.con ≡ some k)

-- No backend answers a handshake with a status from 100 to 299 that the dialer takes for an error, as
-- it does with every one but 101: the balancer would take the reply for a success, and go on with the
-- nil connection of the error.
abbrev pub AnswersWell : {K W : Type 0} → (DialRequest → W → DialReply K × W) → Type 0
AnswersWell {K} {W} dial =
    (r : DialRequest) (w : W) → is_success (dial r w).0.res ≡ true → (dial r w).0.er ≡ none

module _ {C K W : Type 0} (breaker : Circuit C W) (dial : DialRequest → W → DialReply K × W)
    (ctx : BackendDialContext K) where
  attempt-IsAnswered :
      (ready : Bool) (bk : Backend C) (w : W)
      → IsAnswered dial (attempt breaker dial ready ctx bk w).result
  unfolding attempt on_reply connection new_outc circuit_tripped
  attempt-IsAnswered false bk w = tt
  attempt-IsAnswered true bk w =
      let request = request_for ctx bk.config in
      elim (Bool-cases (is_success (dial request w).0.res)) [
        | inl good ↦ elim (Option-cases (dial request w).0.con) [
          | inl e ↦
              let bad : BadReply dial = record {
                request = request;
                world = w;
                success = good;
                missing = e;
              } in
              rw (attempt, on_reply, good) (refl, inr (e, bad))
          | inr (k, e) ↦ rw (attempt, on_reply, good) (refl, inl (k, e))
        ]
        | inr bad ↦ rw (attempt, on_reply, bad) tt
      ]

  pub dial_backend-IsAnswered :
      (bk : Backend C) (w : W) → IsAnswered dial (dial_backend breaker dial ctx bk w).result
  unfolding dial_backend
  dial_backend-IsAnswered bk w =
      let (ready, br) = breaker_ready breaker w bk.breaker in
      attempt-IsAnswered ready (record bk { breaker = br }) w

module _ {K W : Type 0} (dial : DialRequest → W → DialReply K × W) (gives : GivesCon dial)
    (well : AnswersWell dial) where
  no_BadReply : BadReply dial → ⊥
  no_BadReply bad =
      let (k, e) = gives bad.request bad.world (well bad.request bad.world bad.success) in
      let none_is : none ≡ some k = sym bad.missing ∙ e in cc

  pub IsAnswered-IsMade : (result : DialResult K) → IsAnswered dial result → IsMade result
  IsAnswered-IsMade (connected oc) (alive, inl con) = (alive, con)
  IsAnswered-IsMade (connected oc) (alive, inr (e, bad)) = absurd (no_BadReply bad)
  IsAnswered-IsMade (refused err) h = tt
