-- ===== src/Out/Manager/Deletion.antt =====
-- `DeleteBackend` and the configuration that it edits: what becomes of the entries, when it panics,
-- and what it keeps.
use wsbalancer.Prelude.{
  ℕ, zero, suc, ◌+◌, ◌≤◌, ◌≡◌, refl, ◌≢◌, List, [], ◌∷◌, ◌++◌, Option, none, some, Text, same,
  same_iff, ◌-◌, length, returns, panics, Bool-cases, inl, inr, arith, if◌then◌else◌,
}
use wsbalancer.Out.Config.{UpstreamConfig, BackendConfig}
use wsbalancer.Out.Manager.{keep_configs, room_for, delete_backend_config}

-- How many entries have the ID.
abbrev pub count_id : Text → List (Option BackendConfig) → ℕ
count_id id [] = 0
count_id id (none ∷ bks) = count_id id bks
count_id id (some bk ∷ bks) = (if same bk.id id then 1 else 0) + count_id id bks

-- The entries without the ID.
abbrev pub without : Text → List (Option BackendConfig) → List (Option BackendConfig)
without id [] = []
without id (none ∷ bks) = none ∷ without id bks
without id (some bk ∷ bks) =
    let rest = without id bks in if same bk.id id then rest else some bk ∷ rest

-- No entry is a nil pointer.
abbrev pub HasNoNil : List (Option BackendConfig) → Type 0
HasNoNil [] = Unit
HasNoNil (none ∷ bks) = ⊥
HasNoNil (some bk ∷ bks) = HasNoNil bks

abbrev pub nils : ℕ → List (Option BackendConfig)
nils zero = []
nils (suc k) = none ∷ nils k

count_id-le : (id : Text) (bks : List (Option BackendConfig)) → count_id id bks ≤ length bks
count_id-le id [] = omega arith
count_id-le id (none ∷ bks) = omega (arith, count_id-le id bks)
count_id-le id (some bk ∷ bks) = ground (arith, count_id-le id bks)

keep_configs_end : (id : Text) (k : ℕ) → keep_configs id k [] ≡ returns (nils k)
unfolding keep_configs
keep_configs_end id zero = refl
keep_configs_end id (suc k) = rw (keep_configs_end id k)

-- With room for all that is kept and `k` more, `k` slots stay nil.
keep_configs-without :
    (id : Text) (room k : ℕ) (bks : List (Option BackendConfig))
    → HasNoNil bks
    → room + count_id id bks ≡ length bks + k
    → keep_configs id room bks ≡ returns (without id bks ++ nils k)
unfolding keep_configs
keep_configs-without id room k [] h e =
    let same_k : room ≡ k = omega arith in rw same_k (keep_configs_end id k)
keep_configs-without id room k (none ∷ bks) h e = absurd h
keep_configs-without id zero k (some bk ∷ bks) h e = elim (Bool-cases (same bk.id id)) [
  | inl hit ↦ rw (hit, keep_configs) (keep_configs-without id zero k bks h (ground arith))
  | inr miss ↦ absurd (ground (arith, count_id-le id bks))
]
keep_configs-without id (suc room) k (some bk ∷ bks) h e = elim (Bool-cases (same bk.id id)) [
  | inl hit ↦ rw (hit, keep_configs) (keep_configs-without id (suc room) k bks h (ground arith))
  | inr miss ↦ rw (miss, keep_configs) (rw (keep_configs-without id room k bks h (ground arith)))
]

room_for_lem :
    (bks : List (Option BackendConfig)) → 1 ≤ length bks → room_for bks ≡ returns (length bks - 1)
unfolding room_for
room_for_lem [] h = absurd (omega arith)
room_for_lem (bk ∷ bks) h = ground arith

-- A configuration of which `k + 1` entries have the ID keeps the others, and gains `k` nil entries.
pub delete_backend_config_lem :
    (id : Text) (config : UpstreamConfig) (k : ℕ)
    → HasNoNil config.backends
    → count_id id config.backends ≡ suc k
    → delete_backend_config id config
      ≡ returns (record config { backends = without id config.backends ++ nils k })
unfolding delete_backend_config
delete_backend_config_lem id config k h e =
    rw (room_for_lem config.backends (positive config.backends (omega arith)))
      (rw (keep_configs-without id (length config.backends - 1) k config.backends h counted))
  where
    positive : (bks : List (Option BackendConfig)) → 1 ≤ count_id id bks → 1 ≤ length bks
    positive bks p = omega (arith, count_id-le id bks)

    counted : length config.backends - 1 + count_id id config.backends ≡ length config.backends + k
    counted = omega (arith, positive config.backends)

-- A nil entry makes the edit panic, wherever it stands.
pub keep_configs_nil :
    (id : Text) (room : ℕ) (xs ys : List (Option BackendConfig))
    → keep_configs id room (xs ++ none ∷ ys) ≡ panics
unfolding keep_configs
keep_configs_nil id zero [] ys = refl
keep_configs_nil id (suc room) [] ys = refl
keep_configs_nil id zero (none ∷ xs) ys = refl
keep_configs_nil id (suc room) (none ∷ xs) ys = refl
keep_configs_nil id zero (some bk ∷ xs) ys = ground (arith, keep_configs_nil id zero xs ys)
keep_configs_nil id (suc room) (some bk ∷ xs) ys =
    ground (arith, keep_configs_nil id (suc room) xs ys, keep_configs_nil id room xs ys)

pub HasNoNil-without :
    (id : Text) (bks : List (Option BackendConfig)) → HasNoNil bks → HasNoNil (without id bks)
HasNoNil-without id [] h = tt
HasNoNil-without id (none ∷ bks) h = absurd h
HasNoNil-without id (some bk ∷ bks) h = ground (arith, HasNoNil-without id bks h)

pub count_id-without :
    (id other : Text) (bks : List (Option BackendConfig))
    → id ≢ other
    → count_id other (without id bks) ≡ count_id other bks
count_id-without id other [] h = refl
count_id-without id other (none ∷ bks) h = count_id-without id other bks h
count_id-without id other (some bk ∷ bks) h =
    ground (arith, same_iff bk.id id, same_iff bk.id other, count_id-without id other bks h)

pub count_id-without_same :
    (id : Text) (bks : List (Option BackendConfig)) → count_id id (without id bks) ≡ 0
count_id-without_same id [] = refl
count_id-without_same id (none ∷ bks) = count_id-without_same id bks
count_id-without_same id (some bk ∷ bks) =
    ground (arith, same_iff bk.id id, count_id-without_same id bks)
