-- ===== src/Out/Config.antt =====
-- out/config.go: the configuration of the backends, and what `sanitize` makes of it.
-- A nil slice and an empty one are the same list. Durations and ints are signed.
pub mod Sanitized
use wsbalancer.Prelude.{
  Bool, true, false, List, [], ◌∷◌, ◌++◌, Option, none, some, Text, ℤ, pos, is_zero, Exec, returns,
  panics, ◌>>=◌, length, ◌==◌, if◌then◌else◌,
}
use wsbalancer.In.Names.{normalize_for_id}

-- 10 minutes and 10 seconds, in nanoseconds.
abbrev pub cfg_default_ping_time : ℤ
cfg_default_ping_time = pos 600_000_000_000

abbrev pub cfg_default_handshake_timeout : ℤ
cfg_default_handshake_timeout = pos 10_000_000_000

abbrev pub cfg_default_buffer_size : ℤ
cfg_default_buffer_size = pos 1024

abbrev pub cfg_default_breaker_threshold : ℤ
cfg_default_breaker_threshold = pos 10

-- Abnormal closure, going away, internal error, no status received, try again later.
abbrev pub cfg_default_abnormal_close_codes : List ℤ
cfg_default_abnormal_close_codes = pos 1006 ∷ pos 1001 ∷ pos 1011 ∷ pos 1005 ∷ pos 1013 ∷ []

pub record BackendConfig : Type 0 where
  pub url : Text
  pub id : Text
  pub ping_time : ℤ
  pub read_buffer_size : ℤ
  pub write_buffer_size : ℤ
  pub breaker_threshold : ℤ
  pub handshake_timeout : ℤ
  pub pass_headers : List Text
  pub abnormal_close_codes : List ℤ

-- `none` among the backends is a nil pointer.
pub record UpstreamConfig : Type 0 where
  pub urls : List Text
  pub ids : List Text
  pub ping_time : ℤ
  pub read_buffer_size : ℤ
  pub write_buffer_size : ℤ
  pub breaker_threshold : ℤ
  pub handshake_timeout : ℤ
  pub pass_headers : List Text
  pub abnormal_close_codes : List ℤ
  pub backends : List (Option BackendConfig)
  pub sanitized : Bool

add_pass_headers : UpstreamConfig → BackendConfig → BackendConfig
add_pass_headers uc bk = elim uc.pass_headers [
  | [] ↦ bk
  | h ∷ hs ↦ record bk { pass_headers = bk.pass_headers ++ h ∷ hs }
]

abbrev codes_to_use : List ℤ → List ℤ
codes_to_use [] = cfg_default_abnormal_close_codes
codes_to_use (c ∷ cs) = c ∷ cs

update_abnormal_close_codes : BackendConfig → BackendConfig
update_abnormal_close_codes bk = record bk {
  abnormal_close_codes = bk.abnormal_close_codes ++ codes_to_use bk.abnormal_close_codes;
}

-- The environment's value where it is set, else the backend's own, else the default.
abbrev override : ℤ → ℤ → ℤ → ℤ
override env own default = if is_zero env then (if is_zero own then default else own) else env

update_backend_values : UpstreamConfig → BackendConfig → BackendConfig
update_backend_values uc bk = record bk {
  ping_time = override uc.ping_time bk.ping_time cfg_default_ping_time;
  handshake_timeout =
      override uc.handshake_timeout bk.handshake_timeout cfg_default_handshake_timeout;
  breaker_threshold =
      override uc.breaker_threshold bk.breaker_threshold cfg_default_breaker_threshold;
  read_buffer_size = override uc.read_buffer_size bk.read_buffer_size cfg_default_buffer_size;
  write_buffer_size = override uc.write_buffer_size bk.write_buffer_size cfg_default_buffer_size;
}

unfoldable pub sanitize_backend : UpstreamConfig → BackendConfig → BackendConfig
unfolding add_pass_headers update_abnormal_close_codes update_backend_values
sanitize_backend uc bk =
    update_backend_values uc (update_abnormal_close_codes (add_pass_headers uc bk))

-- A backend of the given URL and ID and nothing else.
abbrev blank_backend : Text → Text → BackendConfig
blank_backend url id = record {
  url = url;
  id = id;
  ping_time = pos 0;
  read_buffer_size = pos 0;
  write_buffer_size = pos 0;
  breaker_threshold = pos 0;
  handshake_timeout = pos 0;
  pass_headers = [];
  abnormal_close_codes = [];
}

-- The loop of `sanitize` over the backends.
sanitize_all : UpstreamConfig → List (Option BackendConfig) → Exec (List (Option BackendConfig))
sanitize_all uc [] = returns []
sanitize_all uc (none ∷ bks) = panics
sanitize_all uc (some bk ∷ bks) = do
  rest ← sanitize_all uc bks
  returns (some (sanitize_backend uc bk) ∷ rest)

abbrev pub or_normalized : Text → Text → Text
or_normalized [] url = normalize_for_id url
or_normalized (c ∷ id) url = c ∷ id

-- The new backend is the last of the list; the caller holds a pointer to it.
unfoldable pub append_backend : UpstreamConfig → Text → Text → UpstreamConfig × BackendConfig
append_backend uc url id =
    let bk = sanitize_backend uc (blank_backend url (or_normalized id url)) in
    (record uc { backends = uc.backends ++ some bk ∷ [] }, bk)

-- The first loop of `addEnvBackends`.
name_backends : List (Option BackendConfig) → Exec (List (Option BackendConfig))
name_backends [] = returns []
name_backends (none ∷ bks) = panics
name_backends (some bk ∷ bks) = do
  rest ← name_backends bks
  returns (some (record bk { id = or_normalized bk.id bk.url }) ∷ rest)

-- The loop over the URLs; the list of IDs is empty where the IDs are not used.
append_urls : UpstreamConfig → List Text → List Text → UpstreamConfig
append_urls uc [] ids = uc
append_urls uc (url ∷ urls) [] = append_urls (append_backend uc url []).0 urls []
append_urls uc (url ∷ urls) (id ∷ ids) = append_urls (append_backend uc url id).0 urls ids

-- The mismatch in the counts of URLs and IDs is a panic of the program's own.
add_urls : UpstreamConfig → List Text → List Text → Exec UpstreamConfig
unfolding append_urls
add_urls uc [] ids = returns uc
add_urls uc (url ∷ urls) [] = returns (append_urls uc (url ∷ urls) [])
add_urls uc (url ∷ urls) (id ∷ ids) =
    if length (url ∷ urls) == length (id ∷ ids)
    then returns (append_urls uc (url ∷ urls) (id ∷ ids))
    else panics

add_env_backends : UpstreamConfig → Exec UpstreamConfig
unfolding name_backends add_urls
add_env_backends uc = do
  bks ← name_backends uc.backends
  add_urls (record uc { backends = bks }) uc.urls uc.ids

unfoldable pub sanitize : UpstreamConfig → Exec UpstreamConfig
unfolding sanitize_all add_env_backends
sanitize uc = elim uc.sanitized [
  | true ↦ returns uc
  | false ↦ do bks ← sanitize_all uc uc.backends; add_env_backends (record uc { backends = bks })
]
