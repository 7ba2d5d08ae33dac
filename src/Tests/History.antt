-- ===== src/Tests/History.antt =====
-- A history of the small pool.
use wsbalancer.Prelude.{same, length, ◌+◌, Bool, ◌≡◌, refl, [], some, Text, Returns}
use mathlib.Core.Path.{subst}
use wsbalancer.In.Names.{is_alphanumeric, normalize_for_id}
use wsbalancer.Out.Config.{or_normalized}
use wsbalancer.Out.Config.Sanitized.Identified.{final_ids}
use wsbalancer.Out.Manager.Setup.Coherent.{AreDistinct}
use wsbalancer.Out.Manager.History.Started.{IsLasting, new_manager-IsLasting}
use wsbalancer.Out.Manager.{Manager, NewBackendDef}
use wsbalancer.Out.Manager.Deletion.{count_id}
use wsbalancer.Out.Manager.Registry.{Command, call}
use wsbalancer.Out.Manager.Registry.Moves.{Moves}
use wsbalancer.Out.Manager.History.{IsSound, here, onward, adding, Reachable-IsSound}
use wsbalancer.Out.Manager.Setup.{add_backend, new_manager}
use wsbalancer.Tests.Pool.{
  brittle, given, blank_backend, decode_def, seconds, pool, third, pool-IsWellFormed,
  pool-IsCoherent,
}
use wsbalancer.Tests.Dials.{dial}

new_id :
    (d : NewBackendDef)
    → decode_def [] ≡ some d
    → count_id (or_normalized d.id d.url) pool.config.backends ≡ 0
unfolding same
new_id d e =
    let it : third ≡ d = cc in
    subst (λ x. count_id (or_normalized x.id x.url) pool.config.backends ≡ 0) it refl

-- With a third backend.
abbrev grown : Manager Bool
grown = (add_backend brittle decode_def seconds [] pool).1

history_example :
    IsSound brittle dial decode_def seconds grown
    × ((c : Command) (id : Text) → Returns (Moves c id grown) (call c id grown))
history_example =
    Reachable-IsSound brittle dial decode_def seconds pool grown
      (pool-IsWellFormed, pool-IsCoherent) (onward here (adding [] new_id))

given-AreDistinct : AreDistinct (final_ids given)
unfolding same normalize_for_id is_alphanumeric
given-AreDistinct = (refl, (refl, (refl, tt)))

pool_example :
    Returns
      (IsLasting brittle dial decode_def seconds (length given.backends + length given.urls))
      (new_manager brittle blank_backend given)
pool_example =
    new_manager-IsLasting brittle dial decode_def seconds blank_backend given refl (tt, (tt, tt)) tt
      given-AreDistinct
