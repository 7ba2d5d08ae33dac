-- ===== src/In/Sessions/Overtaking.antt =====
-- The two orders in which the loop of `Start` in in/inc_manager.go may take the registration and the
-- unregistration of one client, which wait in two channels.
use wsbalancer.Prelude.{
  ℕ, ◌≡◌, refl, ap, true, false, List, [], ◌∷◌, none, some, returns, Returns, arith, ==_iff,
}
use wsbalancer.In.Inc.{Socket, Inc, is_client_active, close}
use wsbalancer.In.Sessions.{
  Backends, Manager, find, put_key, drop_key, put_client, client_exists, add_client, remove_client,
  take_session,
}
use wsbalancer.In.Sessions.Serving.{handle_unregistration, end_session, close_client}

module _ {A : Type 0} where
  pub find-put_key : (a : ℕ) (x : A) (xs : List (ℕ × A)) → find a (put_key a x xs) ≡ some x
  unfolding find put_key
  find-put_key a x [] = ground (arith, ==_iff a a)
  find-put_key a x ((b, y) ∷ xs) = ground (arith, find-put_key a x xs)

  find-drop_key :
      (a : ℕ) (x : A) (xs : List (ℕ × A))
      → find a xs ≡ none
      → find a (drop_key a (put_key a x xs)) ≡ none
  unfolding find put_key drop_key
  find-drop_key a x [] h = ground (arith, ==_iff a a)
  find-drop_key a x ((b, y) ∷ xs) h = ground (arith, find-drop_key a x xs, h)

module _ {K B W : Type 0} where
  -- A client whose connection was closed, and whose session waits to be registered first.
  pub record IsWaiting (a : ℕ) (us : B) (rest : List (ℕ × B)) (m : Manager K B W) : Type 0 where
    pub unknown : find a m.clients ≡ none
    pub waits : m.register ≡ (a, us) ∷ rest
    pub closed : (m.store a).closed ≡ true
    pub shutting_down : (m.store a).shutting_down ≡ true

  registered :
      (a : ℕ) (us : B) (rest : List (ℕ × B)) (m : Manager K B W)
      → m.register ≡ (a, us) ∷ rest
      → take_session m ≡ add_client a us (record m { register = rest })
  unfolding take_session
  registered a us rest m e = rw (e, take_session) refl

  pub exists_some :
      (a : ℕ) (us : B) (m : Manager K B W) → find a m.clients ≡ some us → client_exists a m ≡ true
  unfolding client_exists
  exists_some a us m e = rw (e, client_exists) refl

  pub exists_none :
      (a : ℕ) (m : Manager K B W) → find a m.clients ≡ none → client_exists a m ≡ false
  unfolding client_exists
  exists_none a m e = rw (e, client_exists) refl

  pub removed :
      (a : ℕ) (us : B) (m : Manager K B W)
      → find a m.clients ≡ some us
      → (remove_client a m).clients ≡ drop_key a m.clients
  unfolding remove_client
  removed a us m e = rw (e, remove_client) refl

  taken_clients :
      (a : ℕ) (us : B) (rest : List (ℕ × B)) (m : Manager K B W)
      → IsWaiting a us rest m
      → find a (take_session m).clients ≡ some us
  unfolding add_client
  taken_clients a us rest m h = rw (registered a us rest m h.waits) (find-put_key a us m.clients)

  taken_store :
      (a : ℕ) (us : B) (rest : List (ℕ × B)) (m : Manager K B W)
      → IsWaiting a us rest m
      → (take_session m).store a ≡ m.store a
  unfolding add_client
  taken_store a us rest m h = rw (registered a us rest m h.waits) refl

  module _ (ws : Socket K) (backends : Backends B K W) where
    close_again : (inc : Inc K) → inc.closed ≡ true → close ws inc ≡ returns inc
    unfolding close
    close_again inc e = rw (e, close) (ap (λ b. returns (record inc { closed = b })) e)

    not_known :
        (a : ℕ) (w : W) (m : Manager K B W)
        → client_exists a m ≡ false
        → handle_unregistration ws backends a w m ≡ returns (w, m)
    unfolding handle_unregistration
    not_known a w m e = rw (e, handle_unregistration) refl

    -- The end of a session whose client was closed before.
    ended :
        (a : ℕ) (w : W) (m : Manager K B W)
        → client_exists a m ≡ true
        → is_client_active (m.store a) ≡ false
        → (m.store a).closed ≡ true
        → handle_unregistration ws backends a w m
          ≡ returns (w, remove_client a (put_client a (m.store a) m))
    unfolding handle_unregistration end_session close_client
    ended a w m e n c = rw (e, handle_unregistration, n, close_again (m.store a) c) refl

    gone :
        (a : ℕ) (us : B) (m : Manager K B W) (inc : Inc K) (xs : List (ℕ × B))
        → m.clients ≡ put_key a us xs
        → find a xs ≡ none
        → client_exists a (remove_client a (put_client a inc m)) ≡ false
    unfolding put_client
    gone a us m inc xs e n =
        let m' = put_client a inc m in
        let there : find a m'.clients ≡ some us = rw (e) (find-put_key a us xs) in
        exists_none a (remove_client a m') (rw (removed a us m' there, e) (find-drop_key a us xs n))

    -- Where the client's connection was closed before its session is registered: if the loop takes the
    -- registration first, the unregistration returns and the client is gone. If it takes the
    -- unregistration first, that changes nothing, and the registration then leaves the client in the
    -- map, although it is not active any more.
    pub orders_lem :
        (a : ℕ) (us : B) (rest : List (ℕ × B)) (w : W) (m : Manager K B W)
        → IsWaiting a us rest m
        → Returns
            (λ t. client_exists a t.1 ≡ false)
            (handle_unregistration ws backends a w (take_session m))
          × (handle_unregistration ws backends a w m ≡ returns (w, m))
          × (client_exists a (take_session m) ≡ true)
          × (is_client_active ((take_session m).store a) ≡ false)
    unfolding add_client is_client_active
    orders_lem a us rest w m h =
        let known = exists_some a us (take_session m) (taken_clients a us rest m h) in
        let inc = (take_session m).store a in
        let stored = taken_store a us rest m h in
        let inactive : is_client_active inc ≡ false = rw (stored, h.shutting_down) refl in
        (
          rw (ended a w (take_session m) known inactive (rw (stored) h.closed)) (
              gone a us (take_session m) inc m.clients (rw (registered a us rest m h.waits) refl)
                h.unknown),
          not_known a w m (exists_none a m h.unknown),
          known,
          inactive,
        )
