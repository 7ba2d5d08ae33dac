-- ===== src/In/Sessions/History.antt =====
-- Histories of the manager of in/inc_manager.go: what the loop of `Start`, the requests, the routines
-- of the clients and the administration do with it, in any order.
pub mod Aborts
use wsbalancer.Prelude.{
  ℕ, ◌≡◌, refl, [], ◌∷◌, Bool, Text, Exec, returns, ◌⊎◌, inl, inr, Bool-cases, UnlessPanics,
  UnlessPanics-bind, UnlessPanics-any, of_return,
}
use wsbalancer.Common.{DialError, Result}
use wsbalancer.In.Inc.{Socket, Inc, is_client_active, resume}
use wsbalancer.In.Request.{Request}
use wsbalancer.In.Sessions.{
  Backends, Manager, put_client, take_session, pause_frontend, resume_frontend, client_exists,
  add_client, remove_client,
}
use wsbalancer.In.Sessions.Serving.{
  serve_ws, handle_unregistration, abort_all_backend_connections, abort_frontend_connection,
  abort_backend_connection, end_session, close_client, resumed,
}
use wsbalancer.In.Sessions.Gauge.{
  IsOff, IsUntold, add_client-IsOff, remove_client-IsOff, add_client-IsUntold,
  remove_client-IsUntold, IsGauged, add_client-IsGauged, remove_client-IsGauged,
}
use wsbalancer.In.Sessions.Keys.{Keyed, add_client-Keyed, remove_client-Keyed}
use wsbalancer.In.Sessions.Serving.Kept.{
  SameSessions, put_client-SameSessions, serve_ws-SameSessions, close_client-SameSessions,
  abort_all-SameSessions, abort_frontend-SameSessions, abort_session-SameSessions,
  pause_frontend-SameSessions, resume_frontend-SameSessions,
}

module _ {K B W : Type 0} (ws : Socket K) (backends : Backends B K W) where
  -- A client's own routines change it at its address only.
  pub data Step : Manager K B W → Manager K B W → Type 0 where
    serving :
        {m : Manager K B W} (r : Request) (a : ℕ) (id : Text) (w : W)
        → Step m (serve_ws ws backends r a id w m).1.1
    registering : {m : Manager K B W} → Step m (take_session m)
    unregistering :
        {m m' : Manager K B W} (a : ℕ) (w w' : W)
        → handle_unregistration ws backends a w m ≡ returns (w', m')
        → Step m m'
    running : {m : Manager K B W} (a : ℕ) (inc : Inc K) → Step m (put_client a inc m)
    aborting_backend :
        {m m' : Manager K B W} (bid : Text) (res : Result) (w w' : W)
        → abort_all_backend_connections ws backends bid w m ≡ returns (res, (w', m'))
        → Step m m'
    aborting_frontend :
        {m m' : Manager K B W} (sid : Text) (res : Result)
        → abort_frontend_connection ws backends sid m ≡ returns (res, m')
        → Step m m'
    aborting_session :
        {m m' : Manager K B W} (sid : Text) (res : Result) (w w' : W)
        → abort_backend_connection ws backends sid w m ≡ returns (res, (w', m'))
        → Step m m'
    pausing : {m : Manager K B W} (fid : Text) → Step m (pause_frontend fid m).1
    resuming : {m : Manager K B W} (fid : Text) → Step m (resume_frontend fid m).1

  pub data Reachable (start : Manager K B W) : Manager K B W → Type 0 where
    here : Reachable start start
    onward : {m m' : Manager K B W} → Reachable start m → Step m m' → Reachable start m'

-- What holds of a manager as long as it depends on its sessions and on what was told of them only.
pub record IsKept {K B W : Type 0} (P : Manager K B W → Type 0) : Type 0 where
  pub same : (m m' : Manager K B W) → SameSessions m m' → P m → P m'
  pub added : (a : ℕ) (us : B) (m : Manager K B W) → P m → P (add_client a us m)
  pub removed : (a : ℕ) (m : Manager K B W) → P m → P (remove_client a m)

module _ {K B W : Type 0} (ws : Socket K) (backends : Backends B K W) where
  module _ (P : Manager K B W → Type 0) (kept : IsKept P) where
    put_client-kept : (a : ℕ) (inc : Inc K) (m : Manager K B W) → P m → P (put_client a inc m)
    put_client-kept a inc m g = kept.same m (put_client a inc m) (put_client-SameSessions a inc m) g

    take_session-kept : (m : Manager K B W) → P m → P (take_session m)
    unfolding take_session
    take_session-kept m g =
        elim m.register
          as (λ r. P (elim r [
            | [] ↦ m
            | (a, us) ∷ waiting ↦ add_client a us (record m { register = waiting })
          ])) [
            | [] ↦ g
            | (a, us) ∷ waiting ↦
                let m' = record m { register = waiting } in
                kept.added a us m' (
                  kept.same m m' (record { clients = refl; session_listeners = refl; told = refl })
                    g)
          ]

    end_session-UnlessPanics :
        (a : ℕ) (w : W) (m : Manager K B W)
        → P m
        → UnlessPanics (λ t. P t.1) (end_session ws backends a w m)
    unfolding end_session
    end_session-UnlessPanics a w m g =
        UnlessPanics-bind (SameSessions m) (λ t. P t.1) (close_client ws backends a m) _
          (close_client-SameSessions ws backends a m)
          (λ m' h. kept.removed a m' (kept.same m m' h g))

    resumed-UnlessPanics :
        (a : ℕ) (d : B ⊎ DialError) (w : W) (m : Manager K B W)
        → P m
        → UnlessPanics (λ t. P t.1) (resumed ws backends a d w m)
    unfolding resumed
    resumed-UnlessPanics a (inr err) w m g = end_session-UnlessPanics a w m g
    resumed-UnlessPanics a (inl us) w m g =
        let m' = add_client a us m in
        UnlessPanics-bind (λ inc. Unit) (λ t. P t.1) (resume (m'.store a)) _
          (UnlessPanics-any (resume (m'.store a)))
          (λ inc u. put_client-kept a inc m' (kept.added a us m g))

    unregistration-UnlessPanics :
        (a : ℕ) (w : W) (m : Manager K B W)
        → P m
        → UnlessPanics (λ t. P t.1) (handle_unregistration ws backends a w m)
    unfolding handle_unregistration
    unregistration-UnlessPanics a w m g = elim (Bool-cases (client_exists a m)) [
      | inr gone ↦ rw (handle_unregistration, gone) g
      | inl known ↦ elim (Bool-cases (is_client_active (m.store a))) [
        | inr inactive ↦
            rw (handle_unregistration, known, inactive) (end_session-UnlessPanics a w m g)
        | inl active ↦
            rw (handle_unregistration, known, active)
              (resumed-UnlessPanics a _ _ _ (put_client-kept a _ m g))
      ]
    ]

    Step-kept : (m m' : Manager K B W) → Step ws backends m m' → P m → P m'
    Step-kept m _ (serving r a id w) g =
        kept.same m _ (serve_ws-SameSessions ws backends r a id w m) g
    Step-kept m _ registering g = take_session-kept m g
    Step-kept m m' (unregistering a w w' e) g =
        of_return (λ t. P t.1) _ (w', m') (unregistration-UnlessPanics a w m g) e
    Step-kept m _ (running a inc) g = put_client-kept a inc m g
    Step-kept m m' (aborting_backend bid res w w' e) g =
        kept.same m m'
          (of_return (λ t. SameSessions m t.1.1) _ (res, (w', m'))
            (abort_all-SameSessions ws backends bid w m) e)
          g
    Step-kept m m' (aborting_frontend sid res e) g =
        kept.same m m'
          (of_return (λ t. SameSessions m t.1) _ (res, m')
            (abort_frontend-SameSessions ws backends sid m) e)
          g
    Step-kept m m' (aborting_session sid res w w' e) g =
        kept.same m m'
          (of_return (λ t. SameSessions m t.1.1) _ (res, (w', m'))
            (abort_session-SameSessions ws backends sid w m) e)
          g
    Step-kept m _ (pausing fid) g = kept.same m _ (pause_frontend-SameSessions fid m) g
    Step-kept m _ (resuming fid) g = kept.same m _ (resume_frontend-SameSessions fid m) g

    -- Along every history.
    Reachable-kept : (start m : Manager K B W) → P start → Reachable ws backends start m → P m
    Reachable-kept start _ g here = g
    Reachable-kept start m g (onward {m = m'} r step) =
        Step-kept m' m step (Reachable-kept start m' g r)

  pub Reachable-IsGauged :
      (p : B → Bool) (l : ℕ) (start m : Manager K B W)
      → IsGauged p l start
      → Reachable ws backends start m
      → IsGauged p l m
  Reachable-IsGauged p l start m =
      Reachable-kept (IsGauged p l)
        (record {
          same = λ m m' h g. record {
            once = rw (h.session_listeners) g.once;
            balanced = rw (h.told, h.clients) g.balanced;
          };
          added = add_client-IsGauged p l;
          removed = remove_client-IsGauged p l;
        })
        start m

  pub Reachable-IsOff :
      (p : B → Bool) (l n : ℕ) (start m : Manager K B W)
      → IsOff p l n start
      → Reachable ws backends start m
      → IsOff p l n m
  Reachable-IsOff p l n start m =
      Reachable-kept (IsOff p l n)
        (record {
          same = λ m m' h g. record {
            once = rw (h.session_listeners) g.once;
            off_by = rw (h.told, h.clients) g.off_by;
          };
          added = add_client-IsOff p l n;
          removed = remove_client-IsOff p l n;
        })
        start m

  pub Reachable-IsUntold :
      (p : B → Bool) (l : ℕ) (start m : Manager K B W)
      → IsUntold p l start
      → Reachable ws backends start m
      → IsUntold p l m
  Reachable-IsUntold p l start m =
      Reachable-kept (IsUntold p l)
        (record {
          same = λ m m' h g. record {
            absent = rw (h.session_listeners) g.absent;
            no_increments = rw (h.told) g.no_increments;
            no_decrements = rw (h.told) g.no_decrements;
          };
          added = add_client-IsUntold p l;
          removed = remove_client-IsUntold p l;
        })
        start m

  pub Reachable-Keyed :
      (start m : Manager K B W)
      → Keyed start.clients
      → Reachable ws backends start m
      → Keyed m.clients
  Reachable-Keyed start m =
      Reachable-kept (λ m'. Keyed m'.clients)
        (record {
          same = λ m m' h g. rw (h.clients) g;
          added = add_client-Keyed;
          removed = remove_client-Keyed;
        })
        start m
