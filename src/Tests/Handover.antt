-- ===== src/Tests/Handover.antt =====
-- A connection whose next write fails, and the connection that replaces it.
use wsbalancer.Prelude.{refl, [], ◌∷◌, zero, codes, pos, ◌++◌}
use wsbalancer.Out.Connection.Handover.{
  Handover, Reachable, sending, onward, reads, replaces, read_cache, replace,
}
use wsbalancer.Out.Connection.Handover.Conserved.{IsRelayed, Reachable-IsRelayed}
use wsbalancer.Out.Connection.Handover.Lost.{waiting, IsTold, CanLose, waiting-IsLost}
use wsbalancer.Tests.Connections.{Wire, gone_away, wire, text, long, open_outc}

abbrev spent : Wire
spent = ([], zero)

abbrev start : Handover Wire
start = waiting (text (codes "a")) spent open_outc

lost_example :
    (h1 : Handover Wire) × Reachable wire start [] h1
    × IsTold wire gone_away open_outc h1
    × CanLose wire (text (codes "a") ∷ []) spent h1
    × CanLose wire [] spent h1
lost_example =
    waiting-IsLost wire (text (codes "a")) spent long gone_away open_outc (pos 30) (codes "two") []
      refl refl refl

-- Behind the failed write the connection is replaced, and the client sends one message more.
abbrev told :
    (h1 : Handover Wire) × Reachable wire start [] h1
    × IsTold wire gone_away open_outc h1
    × CanLose wire (text (codes "a") ∷ []) spent h1
    × CanLose wire [] spent h1
told =
    waiting-IsLost wire (text (codes "a")) spent long gone_away open_outc (pos 30) (codes "two") []
      refl refl refl

abbrev replaced : Handover Wire
replaced = replace told.0.first.oc.cache long (pos 30) (codes "two") [] (read_cache told.0)

abbrev behind : Handover Wire
behind = record replaced { channel = replaced.channel ++ text (codes "b") ∷ [] }

interleaving_example : IsRelayed wire start (text (codes "b") ∷ []) behind
unfolding read_cache
interleaving_example =
    Reachable-IsRelayed wire start behind (text (codes "b") ∷ []) refl refl refl (
      sending
        (onward (onward told.1 (reads told.2.alone told.2.untaken))
          (replaces long (pos 30) (codes "two") [] told.2.alone refl refl))
        (text (codes "b")))
