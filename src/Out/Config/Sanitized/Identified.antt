-- ===== src/Out/Config/Sanitized/Identified.antt =====
-- The IDs that `sanitize` of out/config.go gives to the backends.
use wsbalancer.Prelude.{
  ◌≡◌, refl, ap, ◌∙◌, sym, false, List, [], ◌∷◌, ◌++◌, Option, none, some, Text, returns,
  List-cases, inl, inr, Returns, Returns-bind, Returns-mono, All, length, ==_iff,
}
use mathlib.Core.List.{append-nil, append_assoc}
use wsbalancer.Out.Config.{
  BackendConfig, UpstreamConfig, or_normalized, sanitize_backend, sanitize_all, append_backend,
  name_backends, append_urls, add_urls, add_pass_headers, update_backend_values,
  update_abnormal_close_codes, add_env_backends, sanitize,
}
use wsbalancer.Out.Config.Sanitized.{IsGiven, IsMatched, unsanitized}

-- The IDs of the entries.
abbrev pub ids_of : List (Option BackendConfig) → List Text
ids_of [] = []
ids_of (none ∷ bks) = ids_of bks
ids_of (some bk ∷ bks) = bk.id ∷ ids_of bks

-- The IDs that entries are to have, and that backends for URLs are to have.
abbrev pub given_ids : List (Option BackendConfig) → List Text
given_ids [] = []
given_ids (none ∷ bks) = given_ids bks
given_ids (some bk ∷ bks) = or_normalized bk.id bk.url ∷ given_ids bks

abbrev pub url_ids : List Text → List Text → List Text
url_ids [] ids = []
url_ids (url ∷ urls) [] = or_normalized [] url ∷ url_ids urls []
url_ids (url ∷ urls) (id ∷ ids) = or_normalized id url ∷ url_ids urls ids

ids_of-append : (xs ys : List (Option BackendConfig)) → ids_of (xs ++ ys) ≡ ids_of xs ++ ids_of ys
ids_of-append [] ys = refl
ids_of-append (none ∷ xs) ys = ids_of-append xs ys
ids_of-append (some bk ∷ xs) ys = ap (λ ids. bk.id ∷ ids) (ids_of-append xs ys)

add_pass_headers-ids :
    (uc : UpstreamConfig) (bk : BackendConfig)
    → ((add_pass_headers uc bk).id ≡ bk.id) × ((add_pass_headers uc bk).url ≡ bk.url)
unfolding add_pass_headers
add_pass_headers-ids uc bk = elim (List-cases uc.pass_headers) [
  | inl e ↦ rw (e, add_pass_headers) (refl, refl)
  | inr (h, hs, e) ↦ rw (e, add_pass_headers) (refl, refl)
]

sanitize_backend-ids :
    (uc : UpstreamConfig) (bk : BackendConfig)
    → ((sanitize_backend uc bk).id ≡ bk.id) × ((sanitize_backend uc bk).url ≡ bk.url)
unfolding sanitize_backend update_backend_values update_abnormal_close_codes
sanitize_backend-ids uc bk = add_pass_headers-ids uc bk

sanitize_all-ids :
    (uc : UpstreamConfig) (bks : List (Option BackendConfig))
    → All IsGiven bks
    → Returns (λ rest. (given_ids rest ≡ given_ids bks) × All IsGiven rest) (sanitize_all uc bks)
unfolding sanitize_all
sanitize_all-ids uc [] h = (refl, tt)
sanitize_all-ids uc (none ∷ bks) h = absurd h.0
sanitize_all-ids uc (some bk ∷ bks) h =
    Returns-bind (λ rest. (given_ids rest ≡ given_ids bks) × All IsGiven rest)
      (λ rest. (given_ids rest ≡ given_ids (some bk ∷ bks)) × All IsGiven rest)
      (sanitize_all uc bks) (λ rest. returns (some (sanitize_backend uc bk) ∷ rest))
      (sanitize_all-ids uc bks h.1)
      (λ rest s.
        (rw ((sanitize_backend-ids uc bk).0, (sanitize_backend-ids uc bk).1, s.0) refl, (tt, s.1)))

name_backends-ids :
    (bks : List (Option BackendConfig))
    → All IsGiven bks
    → Returns (λ named. ids_of named ≡ given_ids bks) (name_backends bks)
unfolding name_backends
name_backends-ids [] h = refl
name_backends-ids (none ∷ bks) h = absurd h.0
name_backends-ids (some bk ∷ bks) h =
    Returns-bind (λ named. ids_of named ≡ given_ids bks)
      (λ named. ids_of named ≡ given_ids (some bk ∷ bks)) (name_backends bks)
      (λ rest. returns (some (record bk { id = or_normalized bk.id bk.url }) ∷ rest))
      (name_backends-ids bks h.1) (λ rest s. ap (λ ids. or_normalized bk.id bk.url ∷ ids) s)

append_backend-ids :
    (uc : UpstreamConfig) (url id : Text)
    → ids_of (append_backend uc url id).0.backends ≡ ids_of uc.backends ++ or_normalized id url ∷ []
unfolding append_backend
append_backend-ids uc url id =
    ids_of-append uc.backends _
    ∙ ap (λ own. ids_of uc.backends ++ own ∷ []) (sanitize_backend-ids uc _).0

append_urls-ids :
    (uc : UpstreamConfig) (urls ids : List Text)
    → ids_of (append_urls uc urls ids).backends ≡ ids_of uc.backends ++ url_ids urls ids
unfolding append_urls
append_urls-ids uc [] ids = sym (append-nil (ids_of uc.backends))
append_urls-ids uc (url ∷ urls) [] =
    append_urls-ids (append_backend uc url []).0 urls []
    ∙ ap (λ l. l ++ url_ids urls []) (append_backend-ids uc url [])
    ∙ append_assoc (ids_of uc.backends) _ _
append_urls-ids uc (url ∷ urls) (id ∷ ids) =
    append_urls-ids (append_backend uc url id).0 urls ids
    ∙ ap (λ l. l ++ url_ids urls ids) (append_backend-ids uc url id)
    ∙ append_assoc (ids_of uc.backends) _ _

add_urls-ids :
    (uc : UpstreamConfig) (urls ids : List Text)
    → IsMatched urls ids
    → Returns
        (λ c. ids_of c.backends ≡ ids_of uc.backends ++ url_ids urls ids)
        (add_urls uc urls ids)
unfolding add_urls
add_urls-ids uc [] ids e = sym (append-nil (ids_of uc.backends))
add_urls-ids uc (url ∷ urls) [] e = append_urls-ids uc (url ∷ urls) []
add_urls-ids uc (url ∷ urls) (id ∷ ids) e =
    rw ((==_iff (length (url ∷ urls)) (length (id ∷ ids))).1 e)
      (append_urls-ids uc (url ∷ urls) (id ∷ ids))

-- The IDs of a sanitized configuration: those of its backends, or else what their URLs give, and then
-- one for each URL of the environment.
abbrev pub final_ids : UpstreamConfig → List Text
final_ids uc = given_ids uc.backends ++ url_ids uc.urls uc.ids

pub sanitize-ids :
    (uc : UpstreamConfig)
    → uc.sanitized ≡ false
    → All IsGiven uc.backends
    → IsMatched uc.urls uc.ids
    → Returns (λ c. ids_of c.backends ≡ final_ids uc) (sanitize uc)
unfolding add_env_backends
sanitize-ids uc fresh h e =
    let result : UpstreamConfig → Type 0 = λ c. ids_of c.backends ≡ final_ids uc in
    rw (unsanitized uc fresh) (
      Returns-bind (λ bks. (given_ids bks ≡ given_ids uc.backends) × All IsGiven bks) result
        (sanitize_all uc uc.backends) (λ bks. add_env_backends (record uc { backends = bks }))
        (sanitize_all-ids uc uc.backends h)
        (λ bks s.
          Returns-bind (λ named. ids_of named ≡ given_ids bks) result (name_backends bks)
            (λ named. add_urls (record uc { backends = named }) uc.urls uc.ids)
            (name_backends-ids bks s.1)
            (λ named t.
              Returns-mono (add_urls (record uc { backends = named }) uc.urls uc.ids)
                (λ c u. u ∙ ap (λ l. l ++ url_ids uc.urls uc.ids) (t ∙ s.0))
                (add_urls-ids (record uc { backends = named }) uc.urls uc.ids e))))
