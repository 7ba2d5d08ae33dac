-- ===== src/Tests/Pool.antt =====
-- A pool of two backends, and the calls that change it.
use wsbalancer.Prelude.{
  All, length, ◌+◌, ℕ, ◌≤◌, ◌≡◌, refl, sym, ◌∙◌, ◌⊎◌, inl, inr, Bool, true, false, not, List, [],
  ◌∷◌, Option, some, Text, codes, same, same_ne, pos, Returns, arith, ==_iff, ◌==◌, if◌then◌else◌,
  ℤ, returns,
}
use wsbalancer.Common.{success}
use wsbalancer.Out.Config.{BackendConfig, UpstreamConfig, sanitize}
use wsbalancer.Out.Config.Sanitized.{IsSane, sanitize-Sane}
use wsbalancer.Out.Backend.{Circuit, Backend, circuit_breaker}
use wsbalancer.Out.Manager.{
  Manager, NewBackendDef, id_of, delete_backend, next_backend_list, find_index,
}
use wsbalancer.Out.Manager.Invariant.{IsWellFormed}
use wsbalancer.Out.Manager.Coherence.{owned, IsCoherent, Deletes, delete_backend-Keeps}
use wsbalancer.Out.Manager.SharedId.{PanicsNext, delete_shared_id}
use wsbalancer.Out.Manager.RoundRobin.{turn, next_backend_list_lem}
use wsbalancer.Out.Manager.Deletion.{count_id}
use wsbalancer.Out.Manager.Setup.{reset_backend}
use wsbalancer.Out.Manager.Setup.Reset.{Resets, reset_backend-Resets}

-- A breaker that opens at the first failure.
abbrev pub brittle : Circuit Bool ℕ
brittle = record {
  new_consecutive_breaker = λ n. false;
  tripped = λ c. c;
  ready = λ w c. (not c, c);
  reset = λ w c. false;
  success = λ w c. false;
  fail = λ w c. true;
  tripped-reset = λ w c. refl;
}

abbrev entry : Text → Text → BackendConfig
entry url id = record {
  url = url;
  id = id;
  ping_time = pos 30;
  read_buffer_size = pos 1024;
  write_buffer_size = pos 1024;
  breaker_threshold = pos 1;
  handshake_timeout = pos 45;
  pass_headers = codes "X-Node" ∷ [];
  abnormal_close_codes = [];
}

abbrev first_url : Text
first_url = codes "ws://one"

abbrev second_url : Text
second_url = codes "ws://two"

abbrev pub first_id : Text
first_id = codes "one"

abbrev pub second_id : Text
second_id = codes "two"

abbrev upstream : List (Option BackendConfig) → UpstreamConfig
upstream backends = record {
  urls = [];
  ids = [];
  ping_time = pos 30;
  read_buffer_size = pos 1024;
  write_buffer_size = pos 1024;
  breaker_threshold = pos 1;
  handshake_timeout = pos 45;
  pass_headers = [];
  abnormal_close_codes = [];
  backends = backends;
  sanitized = false;
}

abbrev both : List (Option BackendConfig)
both = some (entry first_url first_id) ∷ some (entry second_url second_id) ∷ []

abbrev backend : BackendConfig → Backend Bool
backend config = record {
  config = config;
  total_connections = 0;
  active_connections = 0;
  total_failures = 0;
  enabled = true;
  con_done = 0;
  listening = true;
  breaker = circuit_breaker false;
}

abbrev pub blank_backend : Backend Bool
blank_backend = backend (entry first_url first_id)

abbrev pub pool : Manager Bool
pool = record {
  backends = 0 ∷ 1 ∷ [];
  disabled_be = [];
  next_backend_idx = 0;
  config = upstream both;
  store = λ r.
      if r == 0 then backend (entry first_url first_id) else backend (entry second_url second_id);
  next_ref = 2;
}

pool_members : (a : ℕ) → 1 ≤ owned pool a → (a ≡ 0) ⊎ (a ≡ 1)
pool_members a h = ground (arith, ==_iff 0 a, ==_iff 1 a)

pub pool-IsWellFormed : IsWellFormed pool
pool-IsWellFormed = record {
  once = λ a. ground (arith, ==_iff 0 a, ==_iff 1 a);
  alive = λ a h. ground (arith, ==_iff a 0);
  dead = λ a h. ground (arith, h);
  fresh = λ a h. ground (arith, ==_iff 0 a, ==_iff 1 a);
}

-- The ID of each of the two, by its address.
pool_id : (a : ℕ) → 1 ≤ owned pool a → count_id (id_of pool.store a) both ≡ 1
unfolding same
pool_id a h = elim (pool_members a h) [ inl e ↦ rw e refl | inr e ↦ rw e refl ]

pool_own_id :
    (a b : ℕ)
    → 1 ≤ owned pool a
    → 1 ≤ owned pool b
    → id_of pool.store a ≡ id_of pool.store b
    → a ≡ b
unfolding same
pool_own_id a b ha hb e = elim (pool_members a ha) [
  | inl x ↦ elim (pool_members b hb) [
    | inl y ↦ x ∙ sym y
    | inr y ↦ absurd (same_ne first_id second_id refl (rw (x, y) at e))
  ]
  | inr x ↦ elim (pool_members b hb) [
    | inl y ↦ absurd (same_ne second_id first_id refl (rw (x, y) at e))
    | inr y ↦ x ∙ sym y
  ]
]

pub pool-IsCoherent : IsCoherent pool
pool-IsCoherent = record { no_nil = tt; one_entry = pool_id; own_id = pool_own_id }

delete_example :
    Returns
      (λ t. IsWellFormed t.1 × (IsCoherent t.1 × Deletes second_id pool t))
      (delete_backend second_id pool)
delete_example = delete_backend-Keeps second_id pool pool-IsWellFormed pool-IsCoherent

turn_example :
    next_backend_list pool ≡ returns (turn 1 pool.backends, record pool { next_backend_idx = 1 })
turn_example = next_backend_list_lem pool (omega arith)

-- Two entries of one ID, as two requests with URLs of one host make them.
abbrev shared : Manager Bool
shared = record pool {
  config = upstream (some (entry first_url first_id) ∷ some (entry second_url first_id) ∷ []);
  store = λ r.
      if r == 0 then backend (entry first_url first_id) else backend (entry second_url first_id);
}

shared_example : Returns (λ t. (t.0 ≡ success) × PanicsNext t) (delete_backend first_id shared)
unfolding find_index same
shared_example = delete_shared_id first_id 0 0 shared refl refl tt refl

-- A request for a third backend.
abbrev pub third : NewBackendDef
third = record {
  url = codes "ws://three";
  id = codes "three";
  ping_time = codes "5s";
  read_buffer_size = pos 0;
  write_buffer_size = pos 2048;
  breaker_threshold = pos 0;
  handshake_timeout = [];
  pass_headers = [];
  abnormal_close_codes = [];
}

abbrev pub decode_def : List ℕ → Option NewBackendDef
decode_def bytes = some third

abbrev pub seconds : Text → Option ℤ
seconds s = some (pos 5)

-- The first backend, behind a failure.
abbrev tripped_pool : Manager Bool
tripped_pool = record pool {
  store = λ r.
      if r == 0
      then record (backend (entry first_url first_id)) { breaker = circuit_breaker true }
      else backend (entry second_url second_id);
}

reset_example :
    Returns (Resets brittle 7 first_id tripped_pool) (reset_backend brittle 7 first_id tripped_pool)
reset_example = reset_backend-Resets brittle 7 first_id tripped_pool

-- The two backends, and a URL of the environment.
abbrev pub given : UpstreamConfig
given = record (upstream both) { urls = codes "ws://three" ∷ [] }

sanitize_example :
    Returns
      (λ c. All IsSane c.backends × (length c.backends ≡ length given.backends + length given.urls))
      (sanitize given)
sanitize_example = sanitize-Sane given refl (tt, (tt, tt)) tt
