-- ===== src/Out/Manager/Registry.antt =====
-- The pool of out/outc_manager.go seen as a registry, which holds for each ID whether there is such a
-- backend and whether it is enabled.
pub mod Standings
pub mod Moves
pub mod Removal
pub mod Refinement
use wsbalancer.Prelude.{
  ℕ, ◌≡◌, List, [], ◌∷◌, Option, none, some, Text, same, Exec, returns, ◌>>=◌, if◌then◌else◌,
}
use wsbalancer.Common.{Result, success, no_action_reqd, failed}
use wsbalancer.Out.Manager.{Manager, find_index, disable_backend, enable_backend, delete_backend}

pub data Standing : Type 0 where
  absent enabled disabled : Standing

-- How a manager holds an ID. The empty ID is never found.
unfoldable pub standing : {C : Type 0} → Manager C → Text → Standing
standing m id = elim (find_index m.store m.disabled_be id) [
  | some i ↦ disabled
  | none ↦ elim (find_index m.store m.backends id) [ some i ↦ enabled | none ↦ absent ]
]

pub data Command : Type 0 where
  disable enable delete : Command

-- What a command promises of its ID: the result, and how the ID is held behind it.
abbrev pub promise : Command → Standing → Result × Standing
promise disable absent = (no_action_reqd, absent)
promise disable enabled = (success, disabled)
promise disable disabled = (no_action_reqd, disabled)
promise enable absent = (failed, absent)
promise enable enabled = (no_action_reqd, enabled)
promise enable disabled = (success, enabled)
promise delete absent = (no_action_reqd, absent)
promise delete enabled = (success, absent)
promise delete disabled = (success, absent)

-- A registry changed at one ID.
abbrev pub set : Text → Standing → (Text → Standing) → Text → Standing
set id s registry o = if same id o then s else registry o

-- A sequence of commands on a registry: the results, and the registry behind them.
abbrev pub replay : List (Command × Text) → (Text → Standing) → List Result × (Text → Standing)
replay [] registry = ([], registry)
replay ((c, id) ∷ calls) registry =
    let now = promise c (registry id) in
    let rest = replay calls (set id now.1 registry) in (now.0 ∷ rest.0, rest.1)

module _ {C : Type 0} where
  -- The command on the manager.
  unfoldable pub call : Command → Text → Manager C → Exec (Result × Manager C)
  call disable id m = disable_backend id m
  call enable id m = enable_backend id m
  call delete id m = delete_backend id m

  unfoldable pub call_all : List (Command × Text) → Manager C → Exec (List Result × Manager C)
  call_all [] m = returns ([], m)
  call_all ((c, id) ∷ calls) m = do
    (result, m') ← call c id m
    (results, m'') ← call_all calls m'
    returns (result ∷ results, m'')
