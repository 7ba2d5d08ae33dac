-- ===== src/Prelude/Panics.antt =====
-- Calls that may panic, as in Go: a nil dereference, an index out of range, or `panic` itself.
use mathlib.Core.Path.{◌≡◌, refl, subst}
use mathlib.Core.Logic.{◌⊎◌, inl, inr}
use mathlib.Core.List.{List}
use mathlib.Core.Option.{Option, none, some}
use Prim.Native.Nat.{ℕ}
use wsbalancer.Prelude.Lists.{get_elem?}

pub data Exec {ℓ} (A : Type ℓ) : Type ℓ where
  returns : A → Exec A
  panics : Exec A

infixl 5 ◌>>=◌
abbrev pub ◌>>=◌ {ℓ κ} : {A : Type ℓ} {B : Type κ} → Exec A → (A → Exec B) → Exec B
returns a >>= f = f a
panics >>= f = panics

-- A nil pointer is `none`.
abbrev pub deref {ℓ} : {A : Type ℓ} → Option A → Exec A
deref none = panics
deref (some a) = returns a

-- `xs[i]`
abbrev pub index {ℓ} : {A : Type ℓ} → List A → ℕ → Exec A
index xs i = deref (get_elem? xs i)

-- The call returns, and its value satisfies `P`.
abbrev pub Returns {ℓ} : {A : Type ℓ} → (A → Type 0) → Exec A → Type 0
Returns P (returns a) = P a
Returns P panics = ⊥

-- If the call returns, its value satisfies `P`.
abbrev pub UnlessPanics {ℓ} : {A : Type ℓ} → (A → Type 0) → Exec A → Type 0
UnlessPanics P (returns a) = P a
UnlessPanics P panics = Unit

pub Exec-cases {ℓ} : {A : Type ℓ} (e : Exec A) → (e ≡ panics) ⊎ ((a : A) × (e ≡ returns a))
Exec-cases (returns a) = inr (a, refl)
Exec-cases panics = inl refl

pub Returns-mono {ℓ} :
    {A : Type ℓ} {P Q : A → Type 0} (e : Exec A) → ((a : A) → P a → Q a) → Returns P e → Returns Q e
Returns-mono (returns a) f h = f a h
Returns-mono panics f h = h

pub Returns-bind {ℓ κ} :
    {A : Type ℓ} {B : Type κ} (P : A → Type 0) (Q : B → Type 0) (e : Exec A) (f : A → Exec B)
    → Returns P e
    → ((a : A) → P a → Returns Q (f a))
    → Returns Q (e >>= f)
Returns-bind P Q (returns a) f h g = g a h
Returns-bind P Q panics f h g = absurd h

-- The value that a call returns.
pub Returns-value {ℓ} :
    {A : Type ℓ} (P : A → Type 0) (e : Exec A) → Returns P e → (a : A) × (e ≡ returns a) × P a
Returns-value P (returns a) h = (a, refl, h)
Returns-value P panics h = absurd h

pub UnlessPanics-bind {ℓ κ} :
    {A : Type ℓ} {B : Type κ} (P : A → Type 0) (Q : B → Type 0) (e : Exec A) (f : A → Exec B)
    → UnlessPanics P e
    → ((a : A) → P a → UnlessPanics Q (f a))
    → UnlessPanics Q (e >>= f)
UnlessPanics-bind P Q (returns a) f h g = g a h
UnlessPanics-bind P Q panics f h g = tt

pub UnlessPanics-any {ℓ} : {A : Type ℓ} (e : Exec A) → UnlessPanics (λ a. Unit) e
UnlessPanics-any (returns a) = tt
UnlessPanics-any panics = tt

pub UnlessPanics-mono {ℓ} :
    {A : Type ℓ} {P Q : A → Type 0} (e : Exec A)
    → ((a : A) → P a → Q a)
    → UnlessPanics P e
    → UnlessPanics Q e
UnlessPanics-mono (returns a) f h = f a h
UnlessPanics-mono panics f h = tt

pub Returns-both {ℓ} :
    {A : Type ℓ} (P Q : A → Type 0) (e : Exec A)
    → Returns P e
    → UnlessPanics Q e
    → Returns (λ a. P a × Q a) e
Returns-both P Q (returns a) h g = (h, g)
Returns-both P Q panics h g = h

-- What holds unless a call panics holds of the value that it returns.
pub of_return {ℓ} :
    {A : Type ℓ} (P : A → Type 0) (e : Exec A) (a : A) → UnlessPanics P e → e ≡ returns a → P a
of_return P e a h eq = subst (UnlessPanics P) eq h

pub Returns-UnlessPanics {ℓ} :
    {A : Type ℓ} (P : A → Type 0) (e : Exec A) → Returns P e → UnlessPanics P e
Returns-UnlessPanics P (returns a) h = h
Returns-UnlessPanics P panics h = absurd h
