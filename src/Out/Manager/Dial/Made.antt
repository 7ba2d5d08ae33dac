-- ===== src/Out/Manager/Dial/Made.antt =====
-- What a connection is that a dial of out/outc_manager.go makes.
use wsbalancer.Prelude.{ℕ, List, [], ◌∷◌, UnlessPanics, UnlessPanics-bind, UnlessPanics-any}
use wsbalancer.Out.Backend.{
  Circuit, Backend, BackendDialContext, DialRequest, DialReply, dial_backend,
}
use wsbalancer.Out.Backend.Made.{IsAnswered, dial_backend-IsAnswered}
use wsbalancer.Out.Manager.{Manager, update, next_backend_list}
use wsbalancer.Out.Manager.Dial.{Upstream, exhausted, stop_at, dial_each, dial_upstream}
use wsbalancer.Out.Manager.Dial.Outcome.{choose_rule}

module _ {C K W : Type 0} (breaker : Circuit C W) (dial : DialRequest → W → DialReply K × W)
    (ctx : BackendDialContext K) where
  dial_each-IsAnswered :
      (rs : List ℕ) (store : ℕ → Backend C) (w : W)
      → IsAnswered dial (dial_each breaker dial ctx rs store w).result
  unfolding dial_each stop_at exhausted
  dial_each-IsAnswered [] store w = tt
  dial_each-IsAnswered (r ∷ rs) store w =
      let d = dial_backend breaker dial ctx (store r) w in
      choose_rule (λ (up : Upstream C K W). IsAnswered dial up.result) d.result
        (dial_backend-IsAnswered breaker dial ctx (store r) w)
        (dial_each-IsAnswered rs (update store r d.backend) d.world)

  pub dial_upstream-IsAnswered :
      (m : Manager C) (w : W)
      → UnlessPanics (λ t. IsAnswered dial t.0.result) (dial_upstream breaker dial ctx m w)
  unfolding dial_upstream
  dial_upstream-IsAnswered m w =
      UnlessPanics-bind (λ t. Unit) (λ t. IsAnswered dial t.0.result) (next_backend_list m) _
        (UnlessPanics-any (next_backend_list m)) (λ t u. dial_each-IsAnswered t.0 t.1.store w)
