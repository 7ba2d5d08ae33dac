-- ===== src/Tests/Dials.antt =====
-- Dials over the pool; the outside world is a clock, and answers by it.
use wsbalancer.Prelude.{
  ℕ, ◌+◌, Bool, true, false, ◌≡◌, refl, [], ◌∷◌, none, some, codes, pos, Returns, arith, ◌==◌,
}
use wsbalancer.Out.Connection.{Outc}
use wsbalancer.Out.Backend.{
  BackendDialContext, DialRequest, DialReply, dial_backend, is_success, breaker_ready,
}
use wsbalancer.Out.Backend.Exact.{Follows, dial_backend-IsExact}
use wsbalancer.Out.Backend.Accounting.{AccountedFor}
use wsbalancer.Out.Backend.Made.{GivesCon, AnswersWell}
use wsbalancer.Out.Manager.Dial.{dial_upstream}
use wsbalancer.Tests.Pool.{brittle, pool, first_id, pool-IsWellFormed}
use wsbalancer.Out.Manager.Dial.Counts.{CountsOnce, dial_upstream-CountsOnce}
use wsbalancer.Out.Manager.Dial.Outcome.{IsDialed}
use wsbalancer.Out.Manager.Dial.Turns.{PoolInTurn, dial_upstream-InTurn}

-- A connection with a message that it could not send.
abbrev pub broken : Outc Unit
broken = record {
  con = some tt;
  ping_wait = pos 30;
  shutting_down = true;
  backend_id = first_id;
  done = 1;
  bk_done = false;
  pass_headers = [];
  closed = true;
  cache = record { message_type = 1; payload = codes "late" } ∷ [];
  notified = true;
  send = [];
}

abbrev pub replacing : BackendDialContext Unit
replacing = record { request_uri = codes "/chat"; dest_headers = []; old_connection = some broken }

-- The second backend is down, and the first one switches protocols.
abbrev reply_for : Bool → DialReply Unit
reply_for true = record { con = none; res = none; er = some (codes "dial error") }
reply_for false = record {
  con = some tt;
  res = some (record { status_code = 101; header = [] });
  er = none;
}

abbrev pub dial : DialRequest → ℕ → DialReply Unit × ℕ
dial r w = (reply_for (w == 0), w + 1)

dial_backend_example :
    let (ready, br) = breaker_ready brittle 1 (pool.store 0).breaker in
    Follows brittle dial replacing ready
      (record (pool.store 0) { breaker = br })
      1
      (dial_backend brittle dial replacing (pool.store 0) 1)
    × AccountedFor brittle dial replacing
        (pool.store 0)
        (dial_backend brittle dial replacing (pool.store 0) 1)
dial_backend_example = dial_backend-IsExact brittle dial replacing (pool.store 0) 1

dial_upstream_example :
    Returns
      (λ t.
        IsDialed brittle dial replacing pool t.0 t.1
        × PoolInTurn brittle dial replacing pool 0 t.0.result)
      (dial_upstream brittle dial replacing pool 0)
dial_upstream_example =
    dial_upstream-InTurn brittle dial replacing pool 0 pool-IsWellFormed (omega arith)

dial_counts_example :
    Returns
      (λ t. CountsOnce pool.backends pool.store t.0.store t.0.result)
      (dial_upstream brittle dial replacing pool 0)
dial_counts_example = dial_upstream-CountsOnce brittle dial replacing pool 0 (omega arith)

reply_for-con : (b : Bool) → (reply_for b).er ≡ none → (k : Unit {0}) × ((reply_for b).con ≡ some k)
reply_for-con true good = absurd cc
reply_for-con false good = (tt, refl)

reply_for-success : (b : Bool) → is_success (reply_for b).res ≡ true → (reply_for b).er ≡ none
unfolding is_success
reply_for-success true good = absurd cc
reply_for-success false good = refl

pub dial-GivesCon : GivesCon dial
dial-GivesCon r w good = reply_for-con (w == 0) good

pub dial-AnswersWell : AnswersWell dial
dial-AnswersWell r w good = reply_for-success (w == 0) good
