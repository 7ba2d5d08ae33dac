-- ===== src/In/Inc/Lock.antt =====
-- The lock that keeps a client's messages back while its backend is replaced.
use wsbalancer.Prelude.{
  ◌≡◌, refl, ◌∙◌, true, false, Text, returns, panics, Returns, Bool-cases, inl, inr, arith,
}
use wsbalancer.Common.{WsMessage}
use wsbalancer.Common.Header.{Header}
use wsbalancer.In.Inc.{
  Socket, Inc, new_inc, is_client_active, reinit_upstream, resume, put_upstream, close,
}

module _ {K : Type 0} where
  -- The lock is held only under the flag, and under the flag until the connection is closed.
  pub record IsLockHeld (inc : Inc K) : Type 0 where
    pub flagged : inc.locked ≡ true → inc.reinitializing ≡ true
    pub held : inc.closed ≡ false → inc.reinitializing ≡ true → inc.locked ≡ true
    pub agrees : inc.shutting_down ≡ inc.closed

  module _ (ws : Socket K) where
    -- What the routines and the manager do with one connection, step by step. The manager resumes
    -- a connection that it finds active and that asked for another backend.
    pub data Step : Inc K → Inc K → Type 0 where
      sending : {inc : Inc K} (m : WsMessage) → Step inc (put_upstream m inc).1
      requesting : {inc : Inc K} → Step inc (reinit_upstream inc)
      closing : {inc inc' : Inc K} → close ws inc ≡ returns inc' → Step inc inc'
      resuming :
          {inc inc' : Inc K}
          → is_client_active inc ≡ true
          → inc.reinitializing ≡ true
          → resume inc ≡ returns inc'
          → Step inc inc'

    pub data Reachable : Inc K → Inc K → Type 0 where
      here : {inc : Inc K} → Reachable inc inc
      onward : {inc inc' inc'' : Inc K} → Reachable inc inc' → Step inc' inc'' → Reachable inc inc''

    put_upstream-IsLockHeld :
        (m : WsMessage) (inc : Inc K) → IsLockHeld inc → IsLockHeld (put_upstream m inc).1
    unfolding put_upstream
    put_upstream-IsLockHeld m inc h = record {
      flagged = ground (arith, h.flagged);
      held = ground (arith, h.held);
      agrees = ground (arith, h.agrees);
    }

    reinit-IsLockHeld : (inc : Inc K) → IsLockHeld inc → IsLockHeld (reinit_upstream inc)
    unfolding reinit_upstream
    reinit-IsLockHeld inc h = record {
      flagged = ground (arith, h.flagged);
      held = ground (arith, h.held);
      agrees = ground (arith, h.agrees);
    }

    pub close-IsLockHeld : (inc : Inc K) → IsLockHeld inc → Returns IsLockHeld (close ws inc)
    unfolding close
    close-IsLockHeld inc h = elim (Bool-cases inc.closed) [
      | inl shut ↦
          rw shut
            (record { flagged = h.flagged; held = λ e f. ground arith; agrees = h.agrees ∙ shut })
      | inr live ↦ elim (Bool-cases inc.reinitializing) [
        | inl flag ↦
            rw (live, flag, h.held live flag)
              (record { flagged = λ e. ground arith; held = λ e f. ground arith; agrees = refl })
        | inr free ↦
            rw (live, free)
              (record {
                flagged = ground (arith, h.flagged, free);
                held = λ e f. ground arith;
                agrees = refl;
              })
      ]
    ]

    pub resume-IsLockHeld :
        (inc : Inc K)
        → IsLockHeld inc
        → is_client_active inc ≡ true
        → inc.reinitializing ≡ true
        → Returns IsLockHeld (resume inc)
    unfolding resume is_client_active
    resume-IsLockHeld inc h active flag =
        let live : inc.closed ≡ false = ground (arith, active, h.agrees) in
        rw (h.held live flag)
          (record { flagged = λ e. ground arith; held = λ e f. ground arith; agrees = h.agrees })

    Step-IsLockHeld : {inc inc' : Inc K} → Step inc inc' → IsLockHeld inc → IsLockHeld inc'
    Step-IsLockHeld (sending {inc} m) h = put_upstream-IsLockHeld m inc h
    Step-IsLockHeld (requesting {inc}) h = reinit-IsLockHeld inc h
    Step-IsLockHeld (closing {inc} e) h = rw e at (close-IsLockHeld inc h)
    Step-IsLockHeld (resuming {inc} active flag e) h = rw e at (resume-IsLockHeld inc h active flag)

    Reachable-IsLockHeld :
        {inc inc' : Inc K} → Reachable inc inc' → IsLockHeld inc → IsLockHeld inc'
    Reachable-IsLockHeld here h = h
    Reachable-IsLockHeld (onward r s) h = Step-IsLockHeld s (Reachable-IsLockHeld r h)

    fresh : (con : K) (hdr : Header) (fid uri id : Text) → IsLockHeld (new_inc con hdr fid uri id)
    unfolding new_inc
    fresh con hdr fid uri id = record { flagged = λ e. e; held = λ e f. f; agrees = refl }

    pub resume-Back :
        (inc : Inc K)
        → IsLockHeld inc
        → is_client_active inc ≡ true
        → inc.reinitializing ≡ true
        → Returns
            (λ back.
              (is_client_active back ≡ true)
              × (back.locked ≡ false)
              × (back.reinitializing ≡ false))
            (resume inc)
    unfolding resume is_client_active
    resume-Back inc h active flag =
        rw (h.held (ground (arith, active, h.agrees)) flag) (active, refl, refl)

    pub close-Shut :
        (inc : Inc K)
        → IsLockHeld inc
        → Returns (λ shut. (shut.closed ≡ true) × (is_client_active shut ≡ false)) (close ws inc)
    unfolding close is_client_active
    close-Shut inc h = elim (Bool-cases inc.closed) [
      | inl shut ↦ rw shut (refl, rw (h.agrees, shut) refl)
      | inr live ↦ elim (Bool-cases inc.reinitializing) [
        | inl flag ↦ rw (live, flag, h.held live flag) (refl, refl)
        | inr free ↦ rw (live, free) (refl, refl)
      ]
    ]

    -- On every connection that messages, requests for a backend, `Close` and `resume` make from a new
    -- one in any order, where only a connection that is active and has asked for a backend is resumed,
    -- `Close` returns and leaves it closed and inactive.
    pub Reachable-CanClose :
        (con : K) (hdr : Header) (fid uri id : Text) (inc : Inc K)
        → Reachable (new_inc con hdr fid uri id) inc
        → Returns (λ shut. (shut.closed ≡ true) × (is_client_active shut ≡ false)) (close ws inc)
    Reachable-CanClose con hdr fid uri id inc r =
        close-Shut inc (Reachable-IsLockHeld r (fresh con hdr fid uri id))

    -- On every connection that messages, requests for a backend, `Close` and `resume` make from a new
    -- one in any order, where only a connection that is active and has asked for a backend is resumed:
    -- if it is active and has asked for a backend, `resume` returns and leaves it active, with the lock
    -- and the flag released.
    pub Reachable-CanResume :
        (con : K) (hdr : Header) (fid uri id : Text) (inc : Inc K)
        → Reachable (new_inc con hdr fid uri id) inc
        → is_client_active inc ≡ true
        → inc.reinitializing ≡ true
        → Returns
            (λ back.
              (is_client_active back ≡ true)
              × (back.locked ≡ false)
              × (back.reinitializing ≡ false))
            (resume inc)
    Reachable-CanResume con hdr fid uri id inc r active flag =
        resume-Back inc (Reachable-IsLockHeld r (fresh con hdr fid uri id)) active flag

    -- A client that leaves while its next backend is dialled brings the program down: for every
    -- connection that the steps of a client make from a new one, if it is active and does not wait
    -- for a backend, the request for one leaves it active, `Close` behind it returns, and the `resume`
    -- that ends the dial panics.
    pub resume-close-Panics :
        (con : K) (hdr : Header) (fid uri id : Text) (inc : Inc K)
        → Reachable (new_inc con hdr fid uri id) inc
        → is_client_active inc ≡ true
        → inc.reinitializing ≡ false
        → (is_client_active (reinit_upstream inc) ≡ true)
          × Returns (λ shut. resume shut ≡ panics) (close ws (reinit_upstream inc))
    unfolding close resume is_client_active reinit_upstream
    resume-close-Panics con hdr fid uri id inc r active free =
        let h = Reachable-IsLockHeld r (fresh con hdr fid uri id) in
        let live : inc.closed ≡ false = ground (arith, active, h.agrees) in
        rw (free, live) (active, refl)
