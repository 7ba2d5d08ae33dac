-- ===== src/In/Sessions/Gauge.antt =====
-- The gauge of the active sessions under the calls of in/inc_manager.go.
use wsbalancer.Prelude.{
  ℕ, ◌+◌, ◌≡◌, refl, sym, ap, ◌∙◌, Bool, true, [], ◌∷◌, Option, none, some, codes, Returns, count,
  ==_iff, arith, ◌⊎◌, inl, inr, Option-cases, Bool-cases, Exec-cases,
}
use wsbalancer.Common.{DialError}
use wsbalancer.Common.Header.{put}
use wsbalancer.In.Inc.{Socket, Inc, is_client_active, resume, close}
use wsbalancer.In.Inc.Lock.{IsLockHeld, close-IsLockHeld, resume-IsLockHeld}
use wsbalancer.In.Sessions.{
  Backends, Manager, find, creation, termination, put_client, client_exists, add_client,
  remove_client, take_session,
}
use wsbalancer.In.Sessions.Serving.{handle_unregistration, end_session, resumed, close_client}
use mathlib.Core.Path.{subst}
use wsbalancer.In.Sessions.Listeners.{
  one_if_any, increments, decrements, sessions, increments-append, decrements-append, times,
  times_if_any, increments-creation, decrements-creation, increments-termination,
  decrements-termination, sessions-put_key, sessions-drop_key,
}

module _ {B : Type 0} (p : B → Bool) where
  times_none : (us : B) → times p us 0 ≡ 0
  times_none us = ground arith

  times_if_any-none : (old : Option B) → times_if_any p old 0 ≡ 0
  times_if_any-none none = refl
  times_if_any-none (some us) = times_none us

module _ {K B W : Type 0} (p : B → Bool) (l : ℕ) where
  -- The listener is registered once, and its gauge is the number of the sessions.
  pub record IsGauged (m : Manager K B W) : Type 0 where
    pub once : count l m.session_listeners ≡ 1
    pub balanced : increments p l m.told ≡ decrements p l m.told + sessions p m.clients

  -- The gauge has moved as the number of the sessions has.
  abbrev pub MovedAlike : Manager K B W → Manager K B W → Type 0
  MovedAlike m m' =
      increments p l m'.told + decrements p l m.told + sessions p m.clients
      ≡ increments p l m.told + decrements p l m'.told + sessions p m'.clients

  pub add_client-MovedAlike :
      (a : ℕ) (us : B) (m : Manager K B W)
      → count l m.session_listeners ≡ 1
      → MovedAlike m (add_client a us m)
  unfolding add_client
  add_client-MovedAlike a us m once =
      let old = find a m.clients in
      let ls = m.session_listeners in
      omega (
        arith,
        increments-append p l m.told (creation a old us ls),
        decrements-append p l m.told (creation a old us ls),
        increments-creation p l a old us ls ∙ ap (times p us) once,
        decrements-creation p l a old us ls ∙ ap (times_if_any p old) once ∙ at_once old,
        sessions-put_key p a us m.clients,
      )
    where
      at_once : (old : Option B) → times_if_any p old 1 ≡ one_if_any p old
      at_once none = refl
      at_once (some o) = refl

  pub remove_client-MovedAlike :
      (a : ℕ) (m : Manager K B W)
      → count l m.session_listeners ≡ 1
      → MovedAlike m (remove_client a m)
  unfolding remove_client
  remove_client-MovedAlike a m once = elim (Option-cases (find a m.clients)) [
    | inl e ↦ rw (remove_client, e) (omega arith)
    | inr (us, e) ↦
        let ls = m.session_listeners in
        rw (remove_client, e)
          (omega (
            arith,
            increments-append p l m.told (termination a us ls),
            decrements-append p l m.told (termination a us ls),
            increments-termination p l a us ls,
            decrements-termination p l a us ls ∙ ap (times p us) once,
            sessions-drop_key p a m.clients,
            ap (one_if_any p) e,
          ))
  ]

  pub add_client-listeners :
      (a : ℕ) (us : B) (m : Manager K B W)
      → (add_client a us m).session_listeners ≡ m.session_listeners
  unfolding add_client
  add_client-listeners a us m = refl

  pub remove_client-listeners :
      (a : ℕ) (m : Manager K B W) → (remove_client a m).session_listeners ≡ m.session_listeners
  unfolding remove_client
  remove_client-listeners a m = elim (Option-cases (find a m.clients)) [
    | inl e ↦ rw (remove_client, e) refl
    | inr (us, e) ↦ rw (remove_client, e) refl
  ]

  pub add_client-IsGauged :
      (a : ℕ) (us : B) (m : Manager K B W) → IsGauged m → IsGauged (add_client a us m)
  add_client-IsGauged a us m g = record {
    once = rw (add_client-listeners a us m) g.once;
    balanced = omega (arith, add_client-MovedAlike a us m g.once, g.balanced);
  }

  pub remove_client-IsGauged :
      (a : ℕ) (m : Manager K B W) → IsGauged m → IsGauged (remove_client a m)
  remove_client-IsGauged a m g = record {
    once = rw (remove_client-listeners a m) g.once;
    balanced = omega (arith, remove_client-MovedAlike a m g.once, g.balanced);
  }

  -- The listener is registered once, and its gauge misses `n` sessions.
  pub record IsOff (n : ℕ) (m : Manager K B W) : Type 0 where
    pub once : count l m.session_listeners ≡ 1
    pub off_by : increments p l m.told + n ≡ decrements p l m.told + sessions p m.clients

  pub add_client-IsOff :
      (n a : ℕ) (us : B) (m : Manager K B W) → IsOff n m → IsOff n (add_client a us m)
  add_client-IsOff n a us m g = record {
    once = rw (add_client-listeners a us m) g.once;
    off_by = omega (arith, add_client-MovedAlike a us m g.once, g.off_by);
  }

  pub remove_client-IsOff : (n a : ℕ) (m : Manager K B W) → IsOff n m → IsOff n (remove_client a m)
  remove_client-IsOff n a m g = record {
    once = rw (remove_client-listeners a m) g.once;
    off_by = omega (arith, remove_client-MovedAlike a m g.once, g.off_by);
  }

  -- The listener is not registered, and was told nothing.
  pub record IsUntold (m : Manager K B W) : Type 0 where
    pub absent : count l m.session_listeners ≡ 0
    pub no_increments : increments p l m.told ≡ 0
    pub no_decrements : decrements p l m.told ≡ 0

  pub add_client-IsUntold :
      (a : ℕ) (us : B) (m : Manager K B W) → IsUntold m → IsUntold (add_client a us m)
  unfolding add_client
  add_client-IsUntold a us m g =
      let old = find a m.clients in
      let ls = m.session_listeners in
      record {
        absent = g.absent;
        no_increments = omega (
          arith,
          increments-append p l m.told (creation a old us ls),
          increments-creation p l a old us ls ∙ ap (times p us) g.absent ∙ times_none p us,
          g.no_increments,
        );
        no_decrements = omega (
          arith,
          decrements-append p l m.told (creation a old us ls),
          decrements-creation p l a old us ls
              ∙ ap (times_if_any p old) g.absent
              ∙ times_if_any-none p old,
          g.no_decrements,
        );
      }

  pub remove_client-IsUntold :
      (a : ℕ) (m : Manager K B W) → IsUntold m → IsUntold (remove_client a m)
  unfolding remove_client
  remove_client-IsUntold a m g = elim (Option-cases (find a m.clients)) [
    | inl e ↦
        rw (remove_client, e)
          (record {
            absent = g.absent;
            no_increments = g.no_increments;
            no_decrements = g.no_decrements;
          })
    | inr (us, e) ↦
        let ls = m.session_listeners in
        rw (remove_client, e)
          (record {
            absent = g.absent;
            no_increments = omega (
              arith,
              increments-append p l m.told (termination a us ls),
              increments-termination p l a us ls,
              g.no_increments,
            );
            no_decrements = omega (
              arith,
              decrements-append p l m.told (termination a us ls),
              decrements-termination p l a us ls ∙ ap (times p us) g.absent ∙ times_none p us,
              g.no_decrements,
            );
          })
  ]

  -- A listener that is registered once, and whose gauge for the backend connections of a label is
  -- the number of the sessions over such connections, is right again behind the registration of the
  -- next session, a new one or one whose client is known.
  pub take_session-IsGauged : (m : Manager K B W) → IsGauged m → IsGauged (take_session m)
  unfolding take_session
  take_session-IsGauged m g =
      elim m.register
        as (λ r. IsGauged (elim r [
          | [] ↦ m
          | (a, us) ∷ waiting ↦ add_client a us (record m { register = waiting })
        ])) [
          | [] ↦ g
          | (a, us) ∷ waiting ↦
              add_client-IsGauged a us (record m { register = waiting })
                (record { once = g.once; balanced = g.balanced })
        ]

  pub put_client-IsGauged :
      (a : ℕ) (inc : Inc K) (m : Manager K B W) → IsGauged m → IsGauged (put_client a inc m)
  unfolding put_client
  put_client-IsGauged a inc m g = record { once = g.once; balanced = g.balanced }

  store-put_client : (a : ℕ) (inc : Inc K) (m : Manager K B W) → (put_client a inc m).store a ≡ inc
  unfolding put_client
  store-put_client a inc m = rw ((==_iff a a).1 refl) refl

  module _ (ws : Socket K) (backends : Backends B K W) where
    end_session-IsGauged :
        (a : ℕ) (w : W) (m : Manager K B W)
        → IsGauged m
        → IsLockHeld (m.store a)
        → Returns (λ t. IsGauged t.1) (end_session ws backends a w m)
    unfolding end_session close_client
    end_session-IsGauged a w m g h =
        let shut = close-IsLockHeld ws (m.store a) h in
        elim (Exec-cases (close ws (m.store a))) [
          | inl e ↦ absurd (rw e at shut)
          | inr (inc, e) ↦
              rw e (remove_client-IsGauged a (put_client a inc m) (put_client-IsGauged a inc m g))
        ]

    resumed-IsGauged :
        (a : ℕ) (d : B ⊎ DialError) (w : W) (m : Manager K B W)
        → IsGauged m
        → IsLockHeld (m.store a)
        → is_client_active (m.store a) ≡ true
        → (m.store a).reinitializing ≡ true
        → Returns (λ t. IsGauged t.1) (resumed ws backends a d w m)
    unfolding resumed add_client
    resumed-IsGauged a (inr err) w m g h active asked = end_session-IsGauged a w m g h
    resumed-IsGauged a (inl us) w m g h active asked =
        let back = resume-IsLockHeld ws (m.store a) h active asked in
        elim (Exec-cases (resume (m.store a))) [
          | inl e ↦ absurd (rw e at back)
          | inr (inc, e) ↦
              rw e (put_client-IsGauged a inc (add_client a us m) (add_client-IsGauged a us m g))
        ]

    -- If a listener is registered once and its gauge for the backend connections of a label is the
    -- number of the sessions over such connections, if the client's lock is in order, and if the
    -- client, where it is active, has asked for a backend, then the handling of its unregistration
    -- returns, and the gauge is right again: the session has ended, goes on with another backend, or
    -- has found none.
    pub handle_unregistration-IsGauged :
        (a : ℕ) (w : W) (m : Manager K B W)
        → IsGauged m
        → IsLockHeld (m.store a)
        → (is_client_active (m.store a) ≡ true → (m.store a).reinitializing ≡ true)
        → Returns (λ t. IsGauged t.1) (handle_unregistration ws backends a w m)
    unfolding handle_unregistration is_client_active
    handle_unregistration-IsGauged a w m g h asked = elim (Bool-cases (client_exists a m)) [
      | inr gone ↦ rw (handle_unregistration, gone) g
      | inl here ↦ elim (Bool-cases (is_client_active (m.store a))) [
        | inr inactive ↦ rw (handle_unregistration, here, inactive) (end_session-IsGauged a w m g h)
        | inl active ↦
            let inc = m.store a in
            let hdr = put inc.header m.config.reconnect_header (codes "1") in
            let inc' = record inc { header = hdr } in
            let m' = put_client a inc' m in
            let (d, w') = backends.dial_upstream inc.request_uri hdr (find a m.clients) w in
            let same_inc = sym (store-put_client a inc' m) in
            rw (handle_unregistration, here, active)
              (resumed-IsGauged a d w' m' (put_client-IsGauged a inc' m g)
                (subst IsLockHeld same_inc
                  (record { flagged = h.flagged; held = h.held; agrees = h.agrees }))
                (subst (λ i. is_client_active i ≡ true) same_inc active)
                (subst (λ i. i.reinitializing ≡ true) same_inc (asked active)))
      ]
    ]
