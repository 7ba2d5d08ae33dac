-- ===== src/Tests/Lifecycle.antt =====
-- A backend that is deleted, its connections, and a balancer that is started.
use wsbalancer.Prelude.{
  ℕ, false, none, some, inl, ◌+◌, ◌≤◌, ◌≡◌, refl, Bool, List, [], ◌∷◌, codes, Returns, arith,
  length, count, if◌then◌else◌, ltb,
}
use wsbalancer.In.Inc.{Inc, new_inc}
use wsbalancer.Out.Backend.{Backend, new_backend, dial_backend}
use wsbalancer.Out.Backend.Lifecycle.{
  ManagementEvent, con_done, deleted, breaker_event, start_management_listener, drain,
}
use wsbalancer.Out.Backend.Lifecycle.Counting.{
  signals, behind_deleted, is_deleted, counted_down, start_management_listener_lem,
}
use wsbalancer.Out.Backend.Lifecycle.Deletion.{reading, WaitsForClose, drain-WaitsForClose}
use wsbalancer.Out.Backend.Lifecycle.Census.{Census, opened}
use wsbalancer.Out.Manager.RoundRobin.Fairness.{firsts, firsts-IsFair}
use wsbalancer.Cmd.Compose.{Config, start}
use wsbalancer.Cmd.Main.{Environment, configuration, main}
use wsbalancer.Cmd.Main.Runs.{IsRun, main-IsRun}
use wsbalancer.Cmd.Compose.Gauging.{IsInstrumented, start-IsInstrumented}
use wsbalancer.Tests.Pool.{brittle, pool, given, blank_backend}
use wsbalancer.Tests.Dials.{dial, replacing}
use wsbalancer.Tests.Clients.{socket, numbered, server, silent}

-- Two connections are open.
abbrev busy : Backend Bool
busy = record (pool.store 0) { active_connections = 2 }

abbrev events : List ManagementEvent
events = con_done ∷ breaker_event ∷ con_done ∷ deleted ∷ con_done ∷ []

listener_example : start_management_listener events busy ≡ record {
  backend = counted_down (signals events) (is_deleted events) busy;
  left = behind_deleted events;
}
listener_example = start_management_listener_lem events busy (omega arith) (omega arith)

-- One of them closes before the third poll, the other one before the sixth.
abbrev taken : ℕ → List ManagementEvent
taken i = if ltb i 2 then [] else if ltb i 5 then con_done ∷ [] else con_done ∷ con_done ∷ []

few_signals : (i : ℕ) → signals (taken i) ≤ 2
few_signals i = ground arith

drain_example : WaitsForClose busy taken (drain (reading busy taken))
drain_example = drain-WaitsForClose busy taken (omega arith) few_signals

-- A backend that was dialled once.
abbrev dialled : Census Bool
dialled = record {
  backend =
      (dial_backend brittle dial replacing (new_backend brittle blank_backend.config) 1).backend;
  live =
      0
      + opened
          (dial_backend brittle dial replacing (new_backend brittle blank_backend.config) 1).result;
  leaked = 0;
}

fair_example :
    Returns
      (λ t.
        ((a : ℕ) → count a t.0 ≡ count a pool.backends)
        × (t.1 ≡ record pool { next_backend_idx = pool.next_backend_idx + length pool.backends }))
      (firsts (length pool.backends) pool)
fair_example = firsts-IsFair pool (omega arith) (omega arith)

abbrev config : Config
config = record { server = server; upstream = given }

abbrev no_client : ℕ → Inc Unit
no_client a = new_inc tt [] (codes "-8080") (codes "/") (codes "c")

balancer_example :
    Returns
      (IsInstrumented numbered silent brittle socket 3
        (length given.backends + length given.urls)
        config)
      (start numbered silent brittle blank_backend no_client 3 config)
balancer_example =
    start-IsInstrumented numbered silent brittle socket blank_backend no_client 3 config refl refl
      (tt, (tt, tt)) tt

-- Without a file the configuration is not read.
abbrev environment : Environment
environment = record {
  read_config = λ file. (config, none);
  read_env = (config, some (codes "no backend"));
  get_description = inl (codes "Environment variables:");
  print_defaults = codes "  -help";
  name = codes "wsbalancer";
}

main_example :
    Returns
      (IsRun numbered silent brittle environment blank_backend no_client 3
        (record { help = false; config_file = codes "b.yml" }))
      (main numbered silent brittle environment blank_backend no_client 3
        (record { help = false; config_file = codes "b.yml" }))
unfolding configuration
main_example =
    main-IsRun numbered silent brittle environment blank_backend no_client 3
      (record { help = false; config_file = codes "b.yml" }) refl (tt, (tt, tt)) tt
