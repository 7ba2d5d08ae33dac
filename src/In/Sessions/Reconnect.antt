-- ===== src/In/Sessions/Reconnect.antt =====
-- What `handleUnregistration` of in/inc_manager.go does for each answer of the dial.
use wsbalancer.Prelude.{
  ℕ, ◌≡◌, refl, sym, ap, ◌∙◌, true, false, some, codes, Returns, Returns-bind, ==_iff, ◌⊎◌, inl,
  inr, Option-cases,
}
use mathlib.Core.Path.{subst}
use wsbalancer.Common.{DialError}
use wsbalancer.Common.Header.{Header, put}
use wsbalancer.In.Inc.{Socket, Inc, is_client_active, resume, close}
use wsbalancer.In.Inc.Lock.{IsLockHeld, resume-Back, close-Shut}
use wsbalancer.In.Sessions.{
  Backends, Manager, find, put_client, client_exists, add_client, remove_client,
}
use wsbalancer.In.Sessions.Serving.{handle_unregistration, end_session, resumed, close_client}
use wsbalancer.In.Sessions.Keys.{Keyed, drop_key-gone}
use wsbalancer.In.Sessions.Overtaking.{find-put_key, exists_some, exists_none, removed}

module _ {K B W : Type 0} where
  -- A client of the manager that is active and has asked for another backend.
  pub record HasAsked (a : ℕ) (us : B) (m : Manager K B W) : Type 0 where
    pub keyed : Keyed m.clients
    pub known : find a m.clients ≡ some us
    pub lock : IsLockHeld (m.store a)
    pub active : is_client_active (m.store a) ≡ true
    pub asked : (m.store a).reinitializing ≡ true

  -- The session goes on over a connection, which is started, with nothing held back.
  pub record GoesOn (a : ℕ) (us : B) (m : Manager K B W) : Type 0 where
    pub over : find a m.clients ≡ some us
    pub active : is_client_active (m.store a) ≡ true
    pub unlocked : (m.store a).locked ≡ false
    pub settled : (m.store a).reinitializing ≡ false

  -- The session is over.
  pub record HasEnded (a : ℕ) (m : Manager K B W) : Type 0 where
    pub gone : client_exists a m ≡ false
    pub closed : (m.store a).closed ≡ true

  store-put_client : (a : ℕ) (inc : Inc K) (m : Manager K B W) → (put_client a inc m).store a ≡ inc
  unfolding put_client
  store-put_client a inc m = rw ((==_iff a a).1 refl) refl

  store-remove_client : (a : ℕ) (m : Manager K B W) → (remove_client a m).store ≡ m.store
  unfolding remove_client
  store-remove_client a m = elim (Option-cases (find a m.clients)) [
    | inl e ↦ rw (remove_client, e) refl
    | inr (us, e) ↦ rw (remove_client, e) refl
  ]

  module _ (ws : Socket K) (backends : Backends B K W) where
    end_session-HasEnded :
        (a : ℕ) (us : B) (w : W) (m : Manager K B W)
        → HasAsked a us m
        → Returns (λ t. (t.0 ≡ w) × HasEnded a t.1) (end_session ws backends a w m)
    unfolding end_session close_client put_client
    end_session-HasEnded a us w m h =
        Returns-bind (λ m'. (m'.clients ≡ m.clients) × ((m'.store a).closed ≡ true))
          (λ t. (t.0 ≡ w) × HasEnded a t.1) (close_client ws backends a m) _
          (Returns-bind _ (λ m'. (m'.clients ≡ m.clients) × ((m'.store a).closed ≡ true))
            (close ws (m.store a)) _ (close-Shut ws (m.store a) h.lock)
            (λ inc g. (refl, ap (λ i. i.closed) (store-put_client a inc m) ∙ g.0)))
          (λ m' g.
            let still_known : find a m'.clients ≡ some us = rw (g.0) h.known in
            (
              refl,
              record {
                gone =
                    exists_none a (remove_client a m')
                      (rw (removed a us m' still_known, g.0) (drop_key-gone a m.clients h.keyed));
                closed = ap (λ st. (st a).closed) (store-remove_client a m') ∙ g.1;
              },
            ))

    resumed-GoesOn :
        (a : ℕ) (us us' : B) (w : W) (m : Manager K B W)
        → HasAsked a us m
        → Returns
            (λ t. (t.0 ≡ backends.start us' w) × GoesOn a us' t.1)
            (resumed ws backends a (inl us') w m)
    unfolding resumed add_client put_client
    resumed-GoesOn a us us' w m h =
        let m' = add_client a us' m in
        Returns-bind _ (λ t. (t.0 ≡ backends.start us' w) × GoesOn a us' t.1) (resume (m.store a)) _
          (resume-Back ws (m.store a) h.lock h.active h.asked)
          (λ inc g.
            let back = store-put_client a inc m' in
            (
              refl,
              record {
                over = find-put_key a us' m.clients;
                active = ap is_client_active back ∙ g.0;
                unlocked = ap (λ i. i.locked) back ∙ g.1;
                settled = ap (λ i. i.reinitializing) back ∙ g.2;
              },
            ))

    -- What the unregistration leaves for the answer of the dial.
    unfoldable pub Unregistered : ℕ → B ⊎ DialError → W → W × Manager K B W → Type 0
    Unregistered a (inl us') w t = (t.0 ≡ backends.start us' w) × GoesOn a us' t.1
    Unregistered a (inr err) w t = (t.0 ≡ w) × HasEnded a t.1

    resumed-Unregistered :
        (a : ℕ) (us : B) (d : B ⊎ DialError) (w : W) (m : Manager K B W)
        → HasAsked a us m
        → Returns (Unregistered a d w) (resumed ws backends a d w m)
    unfolding Unregistered resumed
    resumed-Unregistered a us (inl us') w m h = resumed-GoesOn a us us' w m h
    resumed-Unregistered a us (inr err) w m h = end_session-HasEnded a us w m h

    -- The client with the headers for the dial has asked as well.
    put_client-HasAsked :
        (a : ℕ) (us : B) (hdr : Header) (m : Manager K B W)
        → HasAsked a us m
        → HasAsked a us (put_client a (record (m.store a) { header = hdr }) m)
    unfolding put_client is_client_active
    put_client-HasAsked a us hdr m h =
        let inc = record (m.store a) { header = hdr } in
        let same_inc = sym (store-put_client a inc m) in
        record {
          keyed = h.keyed;
          known = h.known;
          lock =
              subst IsLockHeld same_inc
                (record { flagged = h.lock.flagged; held = h.lock.held; agrees = h.lock.agrees });
          active = subst (λ i. is_client_active i ≡ true) same_inc h.active;
          asked = subst (λ i. i.reinitializing ≡ true) same_inc h.asked;
        }

    -- The dial of the unregistration, for a client over the connection `us`.
    abbrev pub redial : ℕ → B → W → Manager K B W → (B ⊎ DialError) × W
    redial a us w m =
        let inc = m.store a in
        backends.dial_upstream inc.request_uri
          (put inc.header m.config.reconnect_header (codes "1")) (some us) w

    pub handle_unregistration-Unregistered :
        (a : ℕ) (us : B) (w : W) (m : Manager K B W)
        → HasAsked a us m
        → Returns
            (Unregistered a (redial a us w m).0 (redial a us w m).1)
            (handle_unregistration ws backends a w m)
    unfolding handle_unregistration
    handle_unregistration-Unregistered a us w m h =
        let hdr = put (m.store a).header m.config.reconnect_header (codes "1") in
        let m' = put_client a (record (m.store a) { header = hdr }) m in
        let d = redial a us w m in
        rw (exists_some a us m h.known, h.active, h.known, handle_unregistration)
          (resumed-Unregistered a us d.0 d.1 m' (put_client-HasAsked a us hdr m h))
