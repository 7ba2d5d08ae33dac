-- ===== src/Out/Config/Sanitized.antt =====
-- What `sanitize` of out/config.go makes of a configuration.
pub mod Identified
use wsbalancer.Prelude.{
  ℕ, ◌+◌, ◌≡◌, refl, false, List, [], ◌∷◌, Option, none, some, Text, is_zero, returns, Returns,
  Returns-bind, Returns-mono, All, All-append, length, length-append, ==_iff, arith, ◌>>=◌,
}
use wsbalancer.Out.Config.{
  BackendConfig, UpstreamConfig, or_normalized, sanitize_backend, sanitize_all, append_backend,
  name_backends, append_urls, add_urls, add_env_backends, sanitize,
}

-- A backend whose times, sizes and threshold are all set.
abbrev pub IsSane : Option BackendConfig → Type 0
IsSane none = ⊥
IsSane (some bk) =
    (is_zero bk.ping_time ≡ false)
    × (is_zero bk.handshake_timeout ≡ false)
    × (is_zero bk.breaker_threshold ≡ false)
    × (is_zero bk.read_buffer_size ≡ false)
    × (is_zero bk.write_buffer_size ≡ false)

abbrev pub IsGiven : Option BackendConfig → Type 0
IsGiven none = ⊥
IsGiven (some bk) = Unit

abbrev Sane : ℕ → List (Option BackendConfig) → Type 0
Sane n bks = All IsSane bks × (length bks ≡ n)

sanitize_backend-IsSane :
    (uc : UpstreamConfig) (bk : BackendConfig) → IsSane (some (sanitize_backend uc bk))
unfolding sanitize_backend
sanitize_backend-IsSane uc bk = ground arith

sanitize_all-Sane :
    (uc : UpstreamConfig) (bks : List (Option BackendConfig))
    → All IsGiven bks
    → Returns (Sane (length bks)) (sanitize_all uc bks)
unfolding sanitize_all
sanitize_all-Sane uc [] h = (tt, refl)
sanitize_all-Sane uc (none ∷ bks) h = absurd h.0
sanitize_all-Sane uc (some bk ∷ bks) h =
    Returns-bind (Sane (length bks)) (Sane (length (some bk ∷ bks))) (sanitize_all uc bks)
      (λ rest. returns (some (sanitize_backend uc bk) ∷ rest)) (sanitize_all-Sane uc bks h.1)
      (λ rest s. ((sanitize_backend-IsSane uc bk, s.0), omega (arith, s.1)))

name_backends-Sane :
    (bks : List (Option BackendConfig))
    → All IsSane bks
    → Returns (Sane (length bks)) (name_backends bks)
unfolding name_backends
name_backends-Sane [] h = (tt, refl)
name_backends-Sane (none ∷ bks) h = absurd h.0
name_backends-Sane (some bk ∷ bks) h =
    Returns-bind (Sane (length bks)) (Sane (length (some bk ∷ bks))) (name_backends bks)
      (λ rest. returns (some (record bk { id = or_normalized bk.id bk.url }) ∷ rest))
      (name_backends-Sane bks h.1) (λ rest s. ((h.0, s.0), omega (arith, s.1)))

append_one :
    (uc : UpstreamConfig) (url id : Text)
    → All IsSane uc.backends
    → Sane (length uc.backends + 1) (append_backend uc url id).0.backends
unfolding append_backend
append_one uc url id h = (
  All-append IsSane uc.backends _ h (sanitize_backend-IsSane uc _, tt),
  length-append uc.backends _,
)

append_urls-Sane :
    (uc : UpstreamConfig) (urls ids : List Text)
    → All IsSane uc.backends
    → Sane (length uc.backends + length urls) (append_urls uc urls ids).backends
unfolding append_urls
append_urls-Sane uc [] ids h = (h, omega arith)
append_urls-Sane uc (url ∷ urls) [] h =
    let one = append_one uc url [] h in
    let all = append_urls-Sane (append_backend uc url []).0 urls [] one.0 in
    (all.0, omega (arith, all.1, one.1))
append_urls-Sane uc (url ∷ urls) (id ∷ ids) h =
    let one = append_one uc url id h in
    let all = append_urls-Sane (append_backend uc url id).0 urls ids one.0 in
    (all.0, omega (arith, all.1, one.1))

-- The IDs of the environment go with the URLs one by one, or there are none.
abbrev pub IsMatched : List Text → List Text → Type 0
IsMatched urls [] = Unit
IsMatched urls (id ∷ ids) = length urls ≡ length (id ∷ ids)

add_urls-Sane :
    (uc : UpstreamConfig) (urls ids : List Text)
    → All IsSane uc.backends
    → IsMatched urls ids
    → Returns (λ c. Sane (length uc.backends + length urls) c.backends) (add_urls uc urls ids)
unfolding add_urls
add_urls-Sane uc [] ids h e = (h, omega arith)
add_urls-Sane uc (url ∷ urls) [] h e = append_urls-Sane uc (url ∷ urls) [] h
add_urls-Sane uc (url ∷ urls) (id ∷ ids) h e =
    rw ((==_iff (length (url ∷ urls)) (length (id ∷ ids))).1 e)
      (append_urls-Sane uc (url ∷ urls) (id ∷ ids) h)

unsanitized :
    (uc : UpstreamConfig)
    → uc.sanitized ≡ false
    → sanitize uc
      ≡ sanitize_all uc uc.backends >>= (λ bks. add_env_backends (record uc { backends = bks }))
unfolding sanitize
unsanitized uc fresh = rw fresh refl

-- A configuration that was not sanitized before, has no nil backend, and gives either no IDs or as
-- many as URLs is sanitized without a panic. It then has its backends and one for each URL, and
-- every one of them has nonzero times, buffer sizes and threshold.
pub sanitize-Sane :
    (uc : UpstreamConfig)
    → uc.sanitized ≡ false
    → All IsGiven uc.backends
    → IsMatched uc.urls uc.ids
    → Returns
        (λ c. All IsSane c.backends × (length c.backends ≡ length uc.backends + length uc.urls))
        (sanitize uc)
unfolding add_env_backends
sanitize-Sane uc fresh h e =
    let all = length uc.backends in
    let result : UpstreamConfig → Type 0 = λ c. Sane (all + length uc.urls) c.backends in
    rw (unsanitized uc fresh) (
      Returns-bind (Sane all) result (sanitize_all uc uc.backends)
        (λ bks. add_env_backends (record uc { backends = bks }))
        (sanitize_all-Sane uc uc.backends h)
        (λ bks s.
          Returns-bind (Sane (length bks)) result (name_backends bks)
            (λ named. add_urls (record uc { backends = named }) uc.urls uc.ids)
            (name_backends-Sane bks s.0)
            (λ named t.
              Returns-mono (add_urls (record uc { backends = named }) uc.urls uc.ids)
                (λ c u. (u.0, omega (arith, u.1, t.1, s.1)))
                (add_urls-Sane (record uc { backends = named }) uc.urls uc.ids t.0 e))))
