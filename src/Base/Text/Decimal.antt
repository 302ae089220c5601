-- ===== src/Base/Text/Decimal.antt =====
-- The digits of a number give the number back, and are digits.
use Prim.Native.Nat.{ℕ, zero, suc, ◌+◌, ◌-◌, ◌*◌, ◌/◌, ◌%◌, ◌≤◌, ◌<◌}
use mathlib.Core.Path.{◌≡◌, refl, sym, ap, ◌∙◌}
use mathlib.Core.Logic.{inl, inr}
use mathlib.Core.Bool.{false}
use mathlib.Core.List.{[], ◌∷◌}
use native.Mathlib.Omega.{arith}
use dockform.Base.Tests.{ltb, nat_eq, Bool-cases}
use dockform.Base.Lists.{All, contains}
use dockform.Base.Text.{Text, decimal, decimal_loop}

number : ℕ → Text → ℕ
number v [] = v
number v (c ∷ s) = number (v * 10 + (c - 48)) s

number-decimal_loop :
    (fuel n : ℕ) (acc : Text) → n < fuel → number 0 (decimal_loop fuel n acc) ≡ number n acc
unfolding decimal_loop number
number-decimal_loop zero n acc h = absurd (omega arith)
number-decimal_loop (suc fuel) n acc h = elim (Bool-cases (ltb n 10)) [
  | inl last ↦ rw last (ap (λ k. number k acc) (omega arith))
  | inr more ↦ rw more (
      number-decimal_loop fuel (n / 10) ((48 + n % 10) ∷ acc) (ground arith)
      ∙ ap (λ k. number k acc) (omega arith))
]

-- Different numbers have different digits.
pub decimal_injective : (m n : ℕ) → decimal m ≡ decimal n → m ≡ n
unfolding decimal number
decimal_injective m n h =
    sym (number-decimal_loop (suc m) m [] (omega arith))
    ∙ ap (number 0) h
    ∙ number-decimal_loop (suc n) n [] (omega arith)

abbrev Digit : ℕ → Type 0
Digit c = (48 ≤ c) × (c ≤ 57)

decimal_loop-Digit :
    (fuel n : ℕ) (acc : Text) → n < fuel → All Digit acc → All Digit (decimal_loop fuel n acc)
unfolding decimal_loop
decimal_loop-Digit zero n acc h a = a
decimal_loop-Digit (suc fuel) n acc h a = elim (Bool-cases (ltb n 10)) [
  | inl last ↦ rw last (ground arith, a)
  | inr more ↦
      rw more
        (decimal_loop-Digit fuel (n / 10) ((48 + n % 10) ∷ acc) (ground arith) (omega arith, a))
]

Digit-contains : (s : Text) → All Digit s → contains s 0 ≡ false
Digit-contains [] a = refl
Digit-contains (c ∷ s) a = ground (arith, Digit-contains s a.1)

-- No digit is a NUL.
pub contains-decimal : (n : ℕ) → contains (decimal n) 0 ≡ false
unfolding decimal
contains-decimal n = Digit-contains (decimal n) (decimal_loop-Digit (suc n) n [] (omega arith) tt)
