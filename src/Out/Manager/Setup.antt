-- ===== src/Out/Manager/Setup.antt =====
-- `NewManager`, `AddBackend` and `ResetBackend` of out/outc_manager.go. The JSON decoder and
-- `time.ParseDuration` are parameters: `none` is an error.
pub mod Growth
pub mod Reset
pub mod Start
pub mod Started
pub mod Coherent
use wsbalancer.Prelude.{
  ℕ, zero, suc, ◌+◌, Bool, true, false, List, [], ◌∷◌, ◌++◌, Option, none, some, Text, same, ℤ,
  is_zero, is_pos, Exec, returns, panics, ◌>>=◌, index, if◌then◌else◌,
}
use wsbalancer.Common.{Result, success, no_action_reqd, failed}
use wsbalancer.Out.Config.{BackendConfig, UpstreamConfig, sanitize, append_backend}
use wsbalancer.Out.Backend.{Circuit, Backend, new_backend, is_tripped, reset}
use wsbalancer.Out.Manager.{
  Manager, NewBackendDef, AddResult, add_success, add_failed, no_url, url_exists, update,
  find_index, modify,
}

-- The last backend of the configuration, through the pointer that `appendBackend` returned.
abbrev set_last : List (Option BackendConfig) → BackendConfig → List (Option BackendConfig)
set_last [] bk = []
set_last (x ∷ []) bk = some bk ∷ []
set_last (x ∷ y ∷ xs) bk = x ∷ set_last (y ∷ xs) bk

-- `if len(new) > 0 { old = new }`
abbrev if_any {ℓ} : {A : Type ℓ} → List A → List A → List A
if_any [] old = old
if_any (x ∷ xs) old = x ∷ xs

module _ {C W : Type 0} (breaker : Circuit C W) where
  -- The loop of `NewManager`: the backends, their store, and the first free address.
  pub make_backends :
      List (Option BackendConfig) → ℕ → (ℕ → Backend C) → Exec (List ℕ × (ℕ → Backend C) × ℕ)
  make_backends [] next store = returns ([], store, next)
  make_backends (none ∷ bks) next store = panics
  make_backends (some bk ∷ bks) next store = do
    (refs, store', next') ←
        make_backends bks (suc next) (update store next (new_backend breaker bk))
    returns (next ∷ refs, store', next')

  -- The pool over a list of entries; `none` is the error of a list with no backend.
  pub start_with :
      Backend C → UpstreamConfig → List (Option BackendConfig) → Exec (Option (Manager C))
  unfolding make_backends
  start_with blank config [] = returns none
  start_with blank config (bk ∷ bks) = do
    (refs, store, next) ← make_backends (bk ∷ bks) 0 (λ r. blank)
    returns (
        some (record {
          backends = refs;
          disabled_be = [];
          next_backend_idx = 0;
          config = config;
          store = store;
          next_ref = next;
        }))

  -- `blank` is what the free addresses hold.
  unfoldable pub new_manager : Backend C → UpstreamConfig → Exec (Option (Manager C))
  unfolding start_with
  new_manager blank uc = do config ← sanitize uc; start_with blank config config.backends

  module _ (unmarshal : List ℕ → Option NewBackendDef) (time_parse : Text → Option ℤ) where
    -- `parseDuration`
    parse_duration : Text → ℤ → ℤ
    parse_duration [] fallback = fallback
    parse_duration (c ∷ s) fallback = elim (time_parse (c ∷ s)) [ none ↦ fallback | some d ↦ d ]

    -- Some enabled backend has the URL.
    url_known : (ℕ → Backend C) → Text → List ℕ → Bool
    url_known store url [] = false
    url_known store url (r ∷ be) =
        let rest = url_known store url be in if same (store r).config.url url then true else rest

    -- What a request changes of a backend that `appendBackend` has made.
    apply_def : NewBackendDef → BackendConfig → BackendConfig
    unfolding parse_duration
    apply_def d bk = record bk {
      ping_time = parse_duration d.ping_time bk.ping_time;
      handshake_timeout = parse_duration d.handshake_timeout bk.handshake_timeout;
      read_buffer_size =
          if is_pos d.read_buffer_size then d.read_buffer_size else bk.read_buffer_size;
      write_buffer_size =
          if is_pos d.write_buffer_size then d.write_buffer_size else bk.write_buffer_size;
      breaker_threshold =
          if is_zero d.breaker_threshold then bk.breaker_threshold else d.breaker_threshold;
      pass_headers = if_any d.pass_headers bk.pass_headers;
      abnormal_close_codes = if_any d.abnormal_close_codes bk.abnormal_close_codes;
    }

    -- The end of `AddBackend`, for a request that passed its checks.
    add_def : NewBackendDef → Manager C → Manager C
    unfolding apply_def
    add_def d m =
        let (config, bk) = append_backend m.config d.url d.id in
        let nbk = apply_def d bk in
        record m {
          backends = m.backends ++ m.next_ref ∷ [];
          config = record config { backends = set_last config.backends nbk };
          store = update m.store m.next_ref (new_backend breaker nbk);
          next_ref = suc m.next_ref;
        }

    add_checked : NewBackendDef → Text → Manager C → AddResult × Manager C
    unfolding add_def url_known
    add_checked d [] m = (no_url, m)
    add_checked d (c ∷ url) m =
        if url_known m.store (c ∷ url) m.backends
        then (url_exists, m)
        else (add_success, add_def d m)

    unfoldable pub add_backend : List ℕ → Manager C → AddResult × Manager C
    unfolding add_checked
    add_backend bytes m = elim (unmarshal bytes) [
      | none ↦ (add_failed, m)
      | some d ↦ add_checked d d.url m
    ]

  -- The second half of `ResetBackend`, over the enabled backends.
  reset_enabled : W → Text → Manager C → Exec (Result × Manager C)
  reset_enabled w id m = elim (find_index m.store m.backends id) [
    | none ↦ returns (failed, m)
    | some idx ↦ do
      r ← index m.backends idx
      returns (
          if is_tripped breaker (m.store r)
          then (success, modify (reset breaker w) r m)
          else (no_action_reqd, m))
  ]

  -- A disabled backend that is not tripped is passed over.
  reset_found : W → Text → Manager C → ℕ → Exec (Result × Manager C)
  unfolding reset_enabled
  reset_found w id m idx = do
    r ← index m.disabled_be idx
    (if is_tripped breaker (m.store r)
        then returns (success, modify (reset breaker w) r m)
        else reset_enabled w id m)

  unfoldable pub reset_backend : W → Text → Manager C → Exec (Result × Manager C)
  unfolding reset_found
  reset_backend w id m = elim (find_index m.store m.disabled_be id) [
    | some idx ↦ reset_found w id m idx
    | none ↦ reset_enabled w id m
  ]
