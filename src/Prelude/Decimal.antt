-- ===== src/Prelude/Decimal.antt =====
-- Numbers in decimal, as `fmt` prints them with `%v`. Twenty digits are enough for 64 bits.
use Prim.Native.Nat.{ℕ, zero, suc, ◌+◌, ◌-◌, ◌*◌, ◌/◌, ◌%◌, ◌^◌, ◌<◌}
use mathlib.Core.Path.{◌≡◌, refl, ap, ◌∙◌}
use mathlib.Core.List.{[], ◌∷◌}
use native.Mathlib.Omega.{arith}
use wsbalancer.Prelude.Tests.{ltb, if◌then◌else◌, Bool-cases}
use mathlib.Core.Logic.{inl, inr}
use mathlib.Core.Bool.{true, false}
use wsbalancer.Prelude.Texts.{Text}

digits : ℕ → ℕ → Text → Text
digits zero n tail = tail
digits (suc fuel) n tail =
    let longer = (b'0' + n % 10) ∷ tail in
    let rest = digits fuel (n / 10) longer in if ltb n 10 then longer else rest

unfoldable pub decimal : ℕ → Text
unfolding digits
decimal n = digits 20 n []

-- A signed number, given as its bit pattern, in a type whose numbers below `half` are not negative.
unfoldable pub signed : ℕ → ℕ → Text
unfolding decimal
signed half n = if ltb n half then decimal n else b'-' ∷ decimal (2 * half - n)

-- The value of the digits behind those of `v`.
abbrev pub number : ℕ → Text → ℕ
number v [] = v
number v (c ∷ s) = number (v * 10 + (c - b'0')) s

digits-one :
    (fuel n : ℕ) (tail : Text) → ltb n 10 ≡ true → digits (suc fuel) n tail ≡ (b'0' + n) ∷ tail
unfolding digits
digits-one fuel n tail h = ground arith

digits-more :
    (fuel n : ℕ) (tail : Text)
    → ltb n 10 ≡ false
    → digits (suc fuel) n tail ≡ digits fuel (n / 10) ((b'0' + n % 10) ∷ tail)
unfolding digits
digits-more fuel n tail h = rw (h) refl

number-digits :
    (fuel n : ℕ) (tail : Text)
    → n < 10 ^ suc fuel
    → number 0 (digits (suc fuel) n tail) ≡ number n tail
number-digits zero n tail h =
    rw (digits-one 0 n tail (ground arith)) (ap (λ v. number v tail) (omega arith))
number-digits (suc fuel) n tail h = elim (Bool-cases (ltb n 10)) [
  | inl one ↦ rw (digits-one (suc fuel) n tail one) (ap (λ v. number v tail) (omega arith))
  | inr more ↦ rw (digits-more (suc fuel) n tail more) (
      number-digits fuel (n / 10) ((b'0' + n % 10) ∷ tail) (ground arith)
      ∙ ap (λ v. number v tail) (omega arith))
]

-- Twenty digits are enough.
pub number-decimal : (n : ℕ) → n < 10 ^ 20 → number 0 (decimal n) ≡ n
unfolding decimal
number-decimal n h = number-digits 19 n [] h
