-- ===== src/Out/Manager.antt =====
-- out/outc_manager.go: the pool of backends, its lists, indices and administrative calls; `Setup` has
-- the calls that make backends, `Dial` the dials. Backends are objects behind pointers: `store` holds
-- them, and the two lists hold their addresses. Each call is atomic.
pub mod Setup
pub mod Lookup
pub mod Invariant
pub mod Deletion
pub mod Coherence
pub mod SharedId
pub mod RoundRobin
pub mod Registry
pub mod Dial
pub mod Listing
pub mod History
use wsbalancer.Prelude.{
  ℕ, zero, suc, ◌+◌, ◌-◌, ◌%◌, ◌^◌, ◌≡◌, refl, Bool, true, false, not, List, [], ◌∷◌, ◌++◌, Option,
  none, some, Text, codes, same, ℤ, is_zero, is_pos, length, take, drop, get_elem?, Exec, returns,
  panics, ◌>>=◌, index, deref, ltb, ◌==◌, if◌then◌else◌,
}
use wsbalancer.Common.{
  Result, success, no_action_reqd, failed, DialError, system_unavailable, connection_declined,
  new_system_unavailable_error,
}
use wsbalancer.Out.Config.{BackendConfig, UpstreamConfig, sanitize, append_backend}
use wsbalancer.Out.Connection.{Outc}
use wsbalancer.Out.Backend.{
  Circuit, Backend, BackendDialContext, DialRequest, DialReply, DialResult, connected, refused,
  Dialed, new_backend, is_tripped, reset, dial_backend,
}

pub record Manager (C : Type 0) : Type 0 where
  pub backends : List ℕ
  pub disabled_be : List ℕ
  pub next_backend_idx : ℕ
  pub config : UpstreamConfig
  pub store : ℕ → Backend C
  pub next_ref : ℕ

-- The JSON object of an `AddBackend` request.
pub record NewBackendDef : Type 0 where
  pub url : Text
  pub id : Text
  pub ping_time : Text
  pub read_buffer_size : ℤ
  pub write_buffer_size : ℤ
  pub breaker_threshold : ℤ
  pub handshake_timeout : Text
  pub pass_headers : List Text
  pub abnormal_close_codes : List ℤ

-- The four answers of `AddBackend`.
pub data AddResult : Type 0 where
  add_success add_failed no_url url_exists : AddResult

module _ {ℓ} {A : Type ℓ} where
  unfoldable pub update : (ℕ → A) → ℕ → A → ℕ → A
  update f r a k = if k == r then a else f k

-- `removeFromIndex`, with its panic out of range.
unfoldable pub remove_from_index : List ℕ → ℕ → Exec (List ℕ)
remove_from_index be idx =
    if ltb idx (length be) then returns (take idx be ++ drop (suc idx) be) else panics

-- The Go `x % n` of an int, given as a bit pattern, used as an index: a negative one panics.
unfoldable pub int_index : ℕ → ℕ → Exec ℕ
int_index x n =
    if ltb x (2 ^ 63) then returns (x % n) else if (2 ^ 64 - x) % n == 0 then returns 0 else panics

-- The loop of `deleteBackendConfig`: `room` is what is left of the new slice. A slot that is not
-- written stays nil.
pub keep_configs : Text → ℕ → List (Option BackendConfig) → Exec (List (Option BackendConfig))
keep_configs id zero [] = returns []
keep_configs id (suc room) [] = do rest ← keep_configs id room []; returns (none ∷ rest)
keep_configs id room (none ∷ bks) = panics
keep_configs id zero (some bk ∷ bks) = elim (same bk.id id) [
  | true ↦ keep_configs id zero bks
  | false ↦ panics
]
keep_configs id (suc room) (some bk ∷ bks) = elim (same bk.id id) [
  | true ↦ keep_configs id (suc room) bks
  | false ↦ do rest ← keep_configs id room bks; returns (some bk ∷ rest)
]

-- `make` with a negative length panics.
room_for : List (Option BackendConfig) → Exec ℕ
room_for [] = panics
room_for (bk ∷ bks) = returns (length bks)

pub delete_backend_config : Text → UpstreamConfig → Exec UpstreamConfig
unfolding keep_configs room_for
delete_backend_config id config = do
  room ← room_for config.backends
  kept ← keep_configs id room config.backends
  returns (record config { backends = kept })

-- The loop of `nextBackendList`, with `n` rounds left: `mgr.backends[(nextBackendIdx+i)%len]`.
pick_from : List ℕ → ℕ → ℕ → ℕ → Exec (List ℕ)
pick_from be next i zero = returns []
pick_from be next i (suc n) = do
  k ← int_index ((next + i) % 2 ^ 64) (length be)
  r ← index be k
  rest ← pick_from be next (suc i) n
  returns (r ∷ rest)

module _ {C : Type 0} where
  -- The ID of a backend.
  abbrev pub id_of : (ℕ → Backend C) → ℕ → Text
  id_of store r = (store r).config.id

  find_id : (ℕ → Backend C) → Text → List ℕ → Option ℕ
  find_id store id [] = none
  find_id store id (r ∷ be) =
      let rest = find_id store id be in
      if same (id_of store r) id then some 0 else elim rest [ none ↦ none | some i ↦ some (suc i) ]

  -- `findIndex`: `none` is -1, which the empty ID always gives.
  unfoldable pub find_index : (ℕ → Backend C) → List ℕ → Text → Option ℕ
  unfolding find_id
  find_index store be [] = none
  find_index store be (c ∷ id) = find_id store (c ∷ id) be

  set_enabled : Bool → Backend C → Backend C
  set_enabled b bk = record bk { enabled = b }

  -- `backend.delete`, up to the goroutine that waits for the connections to drain.
  unfoldable pub delete : Backend C → Backend C
  unfolding set_enabled
  delete bk = set_enabled false bk

  -- `mgr.f(be[idx])` on the object itself.
  abbrev modify : (Backend C → Backend C) → ℕ → Manager C → Manager C
  modify f r m = record m { store = update m.store r (f (m.store r)) }

  pub disable_at : ℕ → Manager C → Exec (Result × Manager C)
  unfolding set_enabled
  disable_at idx m = do
    r ← index m.backends idx
    rest ← remove_from_index m.backends idx
    returns (
      success,
      record (modify (set_enabled false) r m) {
        disabled_be = m.disabled_be ++ r ∷ [];
        backends = rest;
        next_backend_idx = 0;
      },
    )

  unfoldable pub disable_backend : Text → Manager C → Exec (Result × Manager C)
  unfolding disable_at
  disable_backend id m = elim (find_index m.store m.disabled_be id) [
    | some i ↦ returns (no_action_reqd, m)
    | none ↦ elim (find_index m.store m.backends id) [
      | none ↦ returns (no_action_reqd, m)
      | some idx ↦ disable_at idx m
    ]
  ]

  pub enable_at : ℕ → Manager C → Exec (Result × Manager C)
  unfolding set_enabled
  enable_at idx m = do
    r ← index m.disabled_be idx
    rest ← remove_from_index m.disabled_be idx
    returns (
      success,
      record (modify (set_enabled true) r m) {
        backends = m.backends ++ r ∷ [];
        disabled_be = rest;
      },
    )

  unfoldable pub enable_backend : Text → Manager C → Exec (Result × Manager C)
  unfolding enable_at
  enable_backend id m = elim (find_index m.store m.backends id) [
    | some i ↦ returns (no_action_reqd, m)
    | none ↦ elim (find_index m.store m.disabled_be id) [
      | none ↦ returns (failed, m)
      | some idx ↦ enable_at idx m
    ]
  ]

  pub delete_disabled : ℕ → Manager C → Exec (Result × Manager C)
  unfolding delete_backend_config
  delete_disabled idx m = do
    r ← index m.disabled_be idx
    config ← delete_backend_config (id_of m.store r) m.config
    rest ← remove_from_index m.disabled_be idx
    returns (success, record (modify delete r m) { config = config; disabled_be = rest })

  pub delete_enabled : ℕ → Manager C → Exec (Result × Manager C)
  unfolding delete_backend_config
  delete_enabled idx m = do
    r ← index m.backends idx
    rest ← remove_from_index m.backends idx
    config ← delete_backend_config (id_of m.store r) m.config
    returns (
      success,
      record (modify delete r m) { backends = rest; config = config; next_backend_idx = 0 },
    )

  unfoldable pub delete_backend : Text → Manager C → Exec (Result × Manager C)
  unfolding delete_disabled delete_enabled
  delete_backend id m = elim (find_index m.store m.disabled_be id) [
    | some idx ↦ delete_disabled idx m
    | none ↦ elim (find_index m.store m.backends id) [
      | none ↦ returns (no_action_reqd, m)
      | some idx ↦ delete_enabled idx m
    ]
  ]

  -- `Stop`: both lists are emptied and every backend is deleted.
  delete_all : (ℕ → Backend C) → List ℕ → ℕ → Backend C
  delete_all store [] = store
  delete_all store (r ∷ rs) = delete_all (update store r (delete (store r))) rs

  unfoldable pub stop : Manager C → Manager C
  unfolding delete_all
  stop m = record m {
    backends = [];
    disabled_be = [];
    store = delete_all m.store (m.backends ++ m.disabled_be);
  }

  unfoldable pub next_backend_list : Manager C → Exec (List ℕ × Manager C)
  unfolding pick_from
  next_backend_list m = do
    let next = (m.next_backend_idx + 1) % 2 ^ 64
    picked ← pick_from m.backends next 0 (length m.backends)
    returns (picked, record m { next_backend_idx = next })
