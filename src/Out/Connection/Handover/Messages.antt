-- ===== src/Out/Connection/Handover/Messages.antt =====
-- The messages that a writing routine of out/outc.go holds, and how they are counted.
use wsbalancer.Prelude.{
  ℕ, ◌+◌, ◌≤◌, ◌≡◌, refl, Bool, List, [], ◌∷◌, ◌++◌, ◌==◌, if◌then◌else◌, length, arith,
}
use wsbalancer.Common.{WsMessage, remote_connection_normal_closure}
use wsbalancer.Out.Connection.Handover.{
  Stage, starting, clearing, selecting, storing, leaving, ended,
}

-- How many messages of a list a test picks.
abbrev pub times : (WsMessage → Bool) → List WsMessage → ℕ
times p [] = 0
times p (m ∷ ms) = (if p m then 1 else 0) + times p ms

pub times-append :
    (p : WsMessage → Bool) (xs ys : List WsMessage) → times p (xs ++ ys) ≡ times p xs + times p ys
times-append p [] ys = omega arith
times-append p (m ∷ xs) ys = omega (arith, times-append p xs ys)

-- The messages for a backend, without the closure.
abbrev pub data_messages : List WsMessage → List WsMessage
data_messages [] = []
data_messages (m ∷ ms) =
    let rest = data_messages ms in
    if m.message_type == remote_connection_normal_closure then rest else m ∷ rest

pub data_messages-append :
    (xs ys : List WsMessage) → data_messages (xs ++ ys) ≡ data_messages xs ++ data_messages ys
data_messages-append [] ys = refl
data_messages-append (m ∷ xs) ys = ground (arith, data_messages-append xs ys)

-- What a routine holds that is not in a cache.
abbrev pub held : Stage → List WsMessage
held starting = []
held (clearing cached failed) = cached
held selecting = []
held (storing m) = m ∷ []
held leaving = []
held ended = []

-- How many messages a routine behind its `clearCache` may have cached.
abbrev pub Spare : Stage → ℕ → Type 0
Spare starting n = 1 ≤ 0
Spare (clearing cached failed) n = 1 ≤ 0
Spare selecting n = n ≡ 0
Spare (storing m) n = n ≡ 0
Spare leaving n = n ≤ 1
Spare ended n = n ≤ 1

pub Spare-fewer : (stage : Stage) (n k : ℕ) → k ≤ n → Spare stage n → Spare stage k
Spare-fewer starting n k less h = h
Spare-fewer (clearing cached failed) n k less h = h
Spare-fewer selecting n k less h = omega (arith, less, h)
Spare-fewer (storing m) n k less h = omega (arith, less, h)
Spare-fewer leaving n k less h = omega (arith, less, h)
Spare-fewer ended n k less h = omega (arith, less, h)

pub held-Spare : (stage : Stage) (n : ℕ) → Spare stage n → n + length (held stage) ≤ 1
held-Spare starting n h = absurd (omega (arith, h))
held-Spare (clearing cached failed) n h = absurd (omega (arith, h))
held-Spare selecting n h = omega (arith, h)
held-Spare (storing m) n h = omega (arith, h)
held-Spare leaving n h = omega (arith, h)
held-Spare ended n h = omega (arith, h)

pub length_append : (xs ys : List WsMessage) → length (xs ++ ys) ≡ length xs + length ys
length_append [] ys = omega arith
length_append (m ∷ xs) ys = omega (arith, length_append xs ys)

-- The second list has what the first one has, and more behind it.
pub record IsLonger (c c' : List WsMessage) : Type 0 where
  pub added : List WsMessage
  pub longer : c' ≡ c ++ added
