-- ===== src/Out/Manager/Listing.antt =====
-- What out/outc_manager.go shows of the pool: the list of the backends, with `toJSON` of
-- out/backend.go, the configuration of one, and the text that answers an addition. The last are what
-- `BackendAdministrator` of common/contract.go is given.
use wsbalancer.Prelude.{
  ℕ, ◌^◌, Bool, true, false, List, [], ◌∷◌, ◌++◌, Option, none, some, Text, codes, Exec, returns,
  index, ◌>>=◌, ℤ, signed, decimal, Option-cases, inl, inr, Returns, Returns-bind,
}
use wsbalancer.Common.{Result}
use wsbalancer.In.Admin.{BackendAdministrator}
use wsbalancer.Out.Config.{BackendConfig}
use wsbalancer.Out.Backend.{Circuit, Backend, is_tripped}
use wsbalancer.Out.Manager.{
  Manager, NewBackendDef, AddResult, add_success, add_failed, no_url, url_exists, find_index,
  disable_backend, enable_backend, delete_backend,
}
use wsbalancer.Out.Manager.Lookup.{find_index-Found, Found-index}
use wsbalancer.Out.Manager.Setup.{add_backend, reset_backend}

abbrev add_text : AddResult → Text
add_text add_success = codes "{\"result\":\"success\"}"
add_text add_failed = codes "{\"result\":\"failed\"}"
add_text no_url = codes "{\"result\":\"failed\",\"reason\":\"no url present in request\"}"
add_text url_exists = codes "{\"result\":\"failed\",\"reason\":\"url already exists\"}"

abbrev bool_text : Bool → Text
bool_text true = codes "true"
bool_text false = codes "false"

module _ {C W : Type 0} (breaker : Circuit C W) where
  -- The URL and the ID go into the object as they are.
  unfoldable pub to_json : Backend C → Text
  to_json bk =
      codes "{\"url\":\""
      ++ bk.config.url
      ++ codes "\",\"id\":\""
      ++ bk.config.id
      ++ codes "\",\"activeConnections\":"
      ++ signed (2 ^ 31) bk.active_connections
      ++ codes ",\"enabled\":"
      ++ bool_text bk.enabled
      ++ codes ",\"tripped\":"
      ++ bool_text (is_tripped breaker bk)
      ++ codes ",\"totalConnections\":"
      ++ decimal bk.total_connections
      ++ codes ",\"totalFailures\":"
      ++ decimal bk.total_failures
      ++ codes "}"

  -- The loop of `ListBackends`.
  list_each : (ℕ → Backend C) → List ℕ → Text
  list_each store [] = []
  list_each store (r ∷ []) = to_json (store r)
  list_each store (r ∷ s ∷ rs) = to_json (store r) ++ codes "," ++ list_each store (s ∷ rs)

  unfoldable pub list_backends : Manager C → Text
  unfolding list_each
  list_backends m = codes "[" ++ list_each m.store (m.backends ++ m.disabled_be) ++ codes "]"

-- The definition that `BackendConfig` hands to `json.Marshal`.
as_def : (ℤ → Text) → BackendConfig → NewBackendDef
as_def duration_text config = record {
  url = config.url;
  id = config.id;
  ping_time = duration_text config.ping_time;
  read_buffer_size = config.read_buffer_size;
  write_buffer_size = config.write_buffer_size;
  breaker_threshold = config.breaker_threshold;
  handshake_timeout = duration_text config.handshake_timeout;
  pass_headers = config.pass_headers;
  abnormal_close_codes = config.abnormal_close_codes;
}

module _ {C : Type 0} where
  -- The backend with an ID, of the disabled ones first.
  backend_with : Text → Manager C → Exec (Option ℕ)
  backend_with id m = elim (find_index m.store m.disabled_be id) [
    | some idx ↦ do r ← index m.disabled_be idx; returns (some r)
    | none ↦ elim (find_index m.store m.backends id) [
      | some idx ↦ do r ← index m.backends idx; returns (some r)
      | none ↦ returns none
    ]
  ]

  backend_with-Returns : (id : Text) (m : Manager C) → Returns (λ r. Unit) (backend_with id m)
  unfolding backend_with
  backend_with-Returns id m = elim (Option-cases (find_index m.store m.disabled_be id)) [
    | inr (i, e) ↦
        let f = find_index-Found m.store m.disabled_be id i e in
        rw (e, backend_with, Found-index m.disabled_be id i f) tt
    | inl e ↦ elim (Option-cases (find_index m.store m.backends id)) [
      | inr (i, n) ↦
          let f = find_index-Found m.store m.backends id i n in
          rw (e, n, backend_with, Found-index m.backends id i f) tt
      | inl n ↦ rw (e, n, backend_with) tt
    ]
  ]

module _ {C : Type 0} (marshal : NewBackendDef → Text) (duration_text : ℤ → Text) where
  unfoldable pub backend_config : Text → Manager C → Exec Text
  unfolding backend_with as_def
  backend_config id m = do
    found ← backend_with id m
    returns (elim found [
      | none ↦ codes "{}"
      | some r ↦ marshal (as_def duration_text (m.store r).config)
    ])

  -- The call returns on every pool: what is found can be read.
  pub backend_config-Returns :
      (id : Text) (m : Manager C) → Returns (λ text. Unit) (backend_config id m)
  unfolding backend_config
  backend_config-Returns id m =
      Returns-bind (λ r. Unit) (λ text. Unit) (backend_with id m) _ (backend_with-Returns id m)
        (λ r u. tt)

module _ {C W : Type 0} (breaker : Circuit C W) (unmarshal : List ℕ → Option NewBackendDef)
    (time_parse : Text → Option ℤ) (marshal : NewBackendDef → Text) (duration_text : ℤ → Text) where
  -- A call that has no error.
  abbrev without_error :
      (Manager C → Exec (Result × Manager C))
      → W × Manager C
      → Exec ((Result × Option Text) × (W × Manager C))
  without_error call (w, m) = do (res, m') ← call m; returns ((res, none), (w, m'))

  -- The pool as a `BackendAdministrator`, in the world that its circuit breakers read.
  unfoldable pub administrator : BackendAdministrator (W × Manager C)
  administrator = record {
    list_backends = λ s. list_backends breaker s.1;
    add_backend = λ bytes s.
        let (res, m) = add_backend breaker unmarshal time_parse bytes s.1 in
        returns (add_text res, (s.0, m));
    backend_config = λ id s. backend_config marshal duration_text id s.1;
    disable_backend = λ id. without_error (disable_backend id);
    enable_backend = λ id. without_error (enable_backend id);
    delete_backend = λ id. without_error (delete_backend id);
    reset_backend = λ id s. without_error (reset_backend breaker s.0 id) s;
  }
