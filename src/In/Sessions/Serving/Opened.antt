-- ===== src/In/Sessions/Serving/Opened.antt =====
-- The backend connections that `ServeWs` of in/inc_manager.go opens.
use wsbalancer.Prelude.{
  ℕ, ◌+◌, ◌≡◌, refl, ap, true, false, ◌∙◌, Bool, not, List, [], ◌∷◌, ◌++◌, Option, none, some, Text,
  arith, ◌⊎◌, inl, inr, Sum-cases, Bool-cases, if-both, List-cases,
}
use wsbalancer.Common.{DialError}
use wsbalancer.Common.Header.{Header}
use wsbalancer.In.Inc.{Socket, new_inc}
use wsbalancer.In.Request.{Request, is_websocket_request, get_upstream_headers}
use wsbalancer.In.Sessions.{
  Backends, Manager, Answer, http_error, not_upgraded, serving, put_client, add_valves,
}
use wsbalancer.In.Sessions.Serving.{upgraded, serve_ws}

abbrev pub one_if_dialled : {B : Type 0} → B ⊎ DialError → ℕ
one_if_dialled (inl us) = 1
one_if_dialled (inr err) = 0

-- A count of the open connections to the backends, as the calls of the pool change it, and whether no
-- call has panicked.
pub record CountsOpen {K B W : Type 0} (backends : Backends B K W) (opened : W → ℕ)
    (fine : W → Bool) : Type 0 where
  pub dials :
      (uri : Text) (hdr : Header) (w : W)
      → opened (backends.dial_upstream uri hdr none w).1
        ≡ opened w + one_if_dialled (backends.dial_upstream uri hdr none w).0
  pub upgrades :
      (r : Request) (protos : List Text) (hdr : Header) (w : W)
      → (opened (backends.upgrade r protos hdr w).1 ≡ opened w)
        × (fine (backends.upgrade r protos hdr w).1 ≡ fine w)
  pub starts :
      (us : B) (w : W)
      → (opened (backends.start us w) ≡ opened w) × (fine (backends.start us w) ≡ fine w)
  pub stays : (us : B) (w : W) → fine w ≡ false → fine (backends.close_backend us w) ≡ false
  -- The closure of a connection that was dialled for a request whose upgrade came behind it.
  pub closes :
      (uri : Text) (hdr : Header) (r : Request) (protos : List Text) (hdr' : Header) (w : W)
      (us : B)
      → (backends.dial_upstream uri hdr none w).0 ≡ inl us
      → fine w ≡ true
      → fine (backends.dial_upstream uri hdr none w).1 ≡ true
      → let w' = (backends.upgrade r protos hdr' (backends.dial_upstream uri hdr none w).1).1 in
        (opened (backends.close_backend us w') + 1 ≡ opened w')
        × (fine (backends.close_backend us w') ≡ true)

abbrev pub is_serving : Answer → Bool
is_serving (http_error code) = false
is_serving not_upgraded = false
is_serving (serving a) = true

module _ {K B W : Type 0} (opened : W → ℕ) (a : ℕ) (w : W) (m : Manager K B W) where
  -- Either a session waits with a connection that was opened, or all is as before.
  abbrev pub IsSettled : Answer × (W × Manager K B W) → Type 0
  IsSettled t =
      ((us : B) × (t.0 ≡ serving a)
        × (t.1.1.register ≡ m.register ++ (a, us) ∷ [])
        × (opened t.1.0 ≡ opened w + 1))
      ⊎ ((is_serving t.0 ≡ false) × (t.1.1 ≡ m) × (opened t.1.0 ≡ opened w))

module _ {K B W : Type 0} (opened : W → ℕ) (fine : W → Bool) (a : ℕ) (w : W)
    (m : Manager K B W) where
  -- Settled, and nothing has panicked; or the dial has.
  abbrev pub Settles : W → Answer × (W × Manager K B W) → Type 0
  Settles dialled t =
      ((fine t.1.0 ≡ true) × IsSettled opened a w m t)
      ⊎ ((fine t.1.0 ≡ false) × (fine dialled ≡ false))

module _ {K B W : Type 0} (ws : Socket K) (backends : Backends B K W) (opened : W → ℕ)
    (fine : W → Bool) (counts : CountsOpen backends opened fine) where
  register-add_valves :
      (a : ℕ) (us : B) (m : Manager K B W) → (add_valves a us m).register ≡ m.register
  unfolding add_valves
  register-add_valves a us m = elim (List-cases m.valve_provider) [
    | inl e ↦ rw (e, add_valves) refl
    | inr (vp, providers, e) ↦ rw (e, add_valves) refl
  ]

  -- Behind a dial that succeeded.
  upgraded-IsSettled :
      (r : Request) (hdr : Header) (us : B) (a : ℕ) (id : Text) (con : Option K) (w w' : W)
      (m : Manager K B W)
      → opened w' ≡ opened w + 1
      → fine w' ≡ true
      → (opened (backends.close_backend us w') + 1 ≡ opened w')
        × (fine (backends.close_backend us w') ≡ true)
      → let t = upgraded ws backends r hdr us a id con w' m in
        (fine t.1.0 ≡ true) × IsSettled opened a w m t
  unfolding upgraded put_client
  upgraded-IsSettled r hdr us a id none w w' m one well shut =
      (shut.1, inr (refl, refl, omega (arith, shut.0, one)))
  upgraded-IsSettled r hdr us a id (some con) w w' m one well shut =
      let m' = put_client a (new_inc con hdr m.id r.request_uri id) m in
      (
        (counts.starts us w').1 ∙ well,
        inl (
          us,
          refl,
          ap (λ waiting. waiting ++ (a, us) ∷ []) (register-add_valves a us m'),
          (counts.starts us w').0 ∙ one,
        ),
      )

  upgraded-broken :
      (r : Request) (hdr : Header) (us : B) (a : ℕ) (id : Text) (con : Option K) (w' : W)
      (m : Manager K B W)
      → fine w' ≡ false
      → fine (upgraded ws backends r hdr us a id con w' m).1.0 ≡ false
  unfolding upgraded
  upgraded-broken r hdr us a id none w' m broken = counts.stays us w' broken
  upgraded-broken r hdr us a id (some con) w' m broken = (counts.starts us w').1 ∙ broken

  -- Where dials, upgrades, starts and closures change the count of the open connections to the backends
  -- as they promise, and nothing has panicked before: either a request is served, one connection is
  -- opened for it, and the session over this connection waits to be registered; or it is refused, the
  -- manager is as before, and no connection stays open for it, also where the upgrade fails behind the
  -- dial; or the dial has panicked.
  pub serve_ws_lem :
      (r : Request) (a : ℕ) (id : Text) (w : W) (m : Manager K B W)
      → fine w ≡ true
      → Settles opened fine a w m
          (backends.dial_upstream r.request_uri (get_upstream_headers m.config r) none w).1
          (serve_ws ws backends r a id w m)
  unfolding serve_ws
  serve_ws_lem r a id w m well =
      let hdr = get_upstream_headers m.config r in
      let d = backends.dial_upstream r.request_uri hdr none w in
      let settled : Answer × (W × Manager K B W) → Type 0 = Settles opened fine a w m d.1 in
      let dialled = counts.dials r.request_uri hdr w in
      if-both settled m.paused (inl (well, inr (refl, refl, refl))) (
        if-both settled (not (is_websocket_request r)) (inl (well, inr (refl, refl, refl)))
          (elim (Sum-cases d.0) [
            | inr (err, e) ↦ rw (e) (
                let none_opened : opened d.1 ≡ opened w + 0 =
                  dialled ∙ ap (λ x. opened w + one_if_dialled x) e in
                elim (Bool-cases (fine d.1)) [
                  | inl good ↦ inl (good, inr (refl, refl, omega (arith, none_opened)))
                  | inr broken ↦ inr (broken, broken)
                ])
            | inl (us, e) ↦ rw (e) (elim (Bool-cases (fine d.1)) [
              | inl good ↦ inl (
                  upgraded-IsSettled r hdr us a id _ w _ m
                    ((counts.upgrades r _ _ _).0
                      ∙ dialled
                      ∙ ap (λ x. opened w + one_if_dialled x) e)
                    ((counts.upgrades r _ _ _).1 ∙ good)
                    (counts.closes r.request_uri hdr r _ _ w us e well good))
              | inr broken ↦ inr (
                upgraded-broken r hdr us a id _ _ m ((counts.upgrades r _ _ _).1 ∙ broken),
                broken,
              )
            ])
          ]))
