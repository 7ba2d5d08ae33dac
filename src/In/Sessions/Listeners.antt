-- ===== src/In/Sessions/Listeners.antt =====
-- What the listeners are told of the sessions, as a gauge of inst/prometheus.go counts it.
use wsbalancer.Prelude.{
  ℕ, ◌+◌, ◌≡◌, refl, Bool, List, [], ◌∷◌, ◌++◌, Option, none, some, count, ◌==◌, ==_iff,
  if◌then◌else◌, arith,
}
use wsbalancer.In.Sessions.{
  Notice, session_created, session_terminated, find, put_key, drop_key, creation, termination,
}

module _ {B : Type 0} (p : B → Bool) where
  -- One for each backend connection that the label is on.
  abbrev pub one : B → ℕ
  one us = if p us then 1 else 0

  abbrev pub one_if_any : Option B → ℕ
  one_if_any none = 0
  one_if_any (some us) = one us

  -- The calls of `Inc` on the gauge of the label that the listener `l` makes.
  abbrev pub increments : ℕ → List (ℕ × Notice B) → ℕ
  increments l [] = 0
  increments l ((k, session_created a us) ∷ told) =
      (if k == l then one us else 0) + increments l told
  increments l ((k, session_terminated a us) ∷ told) = increments l told

  -- Those of `Dec`.
  abbrev pub decrements : ℕ → List (ℕ × Notice B) → ℕ
  decrements l [] = 0
  decrements l ((k, session_created a us) ∷ told) = decrements l told
  decrements l ((k, session_terminated a us) ∷ told) =
      (if k == l then one us else 0) + decrements l told

  -- The sessions over such a connection.
  abbrev pub sessions : List (ℕ × B) → ℕ
  sessions [] = 0
  sessions ((a, us) ∷ clients) = one us + sessions clients

  pub increments-append :
      (l : ℕ) (xs ys : List (ℕ × Notice B))
      → increments l (xs ++ ys) ≡ increments l xs + increments l ys
  increments-append l [] ys = omega arith
  increments-append l ((k, session_created a us) ∷ xs) ys = omega (arith, increments-append l xs ys)
  increments-append l ((k, session_terminated a us) ∷ xs) ys = increments-append l xs ys

  pub decrements-append :
      (l : ℕ) (xs ys : List (ℕ × Notice B))
      → decrements l (xs ++ ys) ≡ decrements l xs + decrements l ys
  decrements-append l [] ys = omega arith
  decrements-append l ((k, session_created a us) ∷ xs) ys = decrements-append l xs ys
  decrements-append l ((k, session_terminated a us) ∷ xs) ys =
      omega (arith, decrements-append l xs ys)

  abbrev pub times : B → ℕ → ℕ
  times us n = if p us then n else 0

  abbrev pub times_if_any : Option B → ℕ → ℕ
  times_if_any none n = 0
  times_if_any (some us) n = times us n

  pub increments-creation :
      (l a : ℕ) (old : Option B) (us : B) (ls : List ℕ)
      → increments l (creation a old us ls) ≡ times us (count l ls)
  unfolding creation
  increments-creation l a old us [] = ground arith
  increments-creation l a none us (k ∷ ls) =
      ground (arith, increments-creation l a none us ls, ==_iff k l)
  increments-creation l a (some o) us (k ∷ ls) =
      ground (arith, increments-creation l a (some o) us ls, ==_iff k l)

  pub decrements-creation :
      (l a : ℕ) (old : Option B) (us : B) (ls : List ℕ)
      → decrements l (creation a old us ls) ≡ times_if_any old (count l ls)
  unfolding creation
  decrements-creation l a none us [] = refl
  decrements-creation l a (some o) us [] = ground arith
  decrements-creation l a none us (k ∷ ls) = decrements-creation l a none us ls
  decrements-creation l a (some o) us (k ∷ ls) =
      ground (arith, decrements-creation l a (some o) us ls, ==_iff k l)

  pub increments-termination :
      (l a : ℕ) (us : B) (ls : List ℕ) → increments l (termination a us ls) ≡ 0
  unfolding termination
  increments-termination l a us [] = refl
  increments-termination l a us (k ∷ ls) = increments-termination l a us ls

  pub decrements-termination :
      (l a : ℕ) (us : B) (ls : List ℕ) → decrements l (termination a us ls) ≡ times us (count l ls)
  unfolding termination
  decrements-termination l a us [] = ground arith
  decrements-termination l a us (k ∷ ls) =
      ground (arith, decrements-termination l a us ls, ==_iff k l)

  pub sessions-put_key :
      (a : ℕ) (us : B) (xs : List (ℕ × B))
      → sessions (put_key a us xs) + one_if_any (find a xs) ≡ sessions xs + one us
  unfolding put_key find
  sessions-put_key a us [] = ground arith
  sessions-put_key a us ((b, y) ∷ xs) = ground (arith, sessions-put_key a us xs)

  pub sessions-drop_key :
      (a : ℕ) (xs : List (ℕ × B)) → sessions (drop_key a xs) + one_if_any (find a xs) ≡ sessions xs
  unfolding drop_key find
  sessions-drop_key a [] = refl
  sessions-drop_key a ((b, y) ∷ xs) = ground (arith, sessions-drop_key a xs)
