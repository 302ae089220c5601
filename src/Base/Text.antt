-- ===== src/Base/Text.antt =====
-- Go's strings: lists of bytes, compared and ordered byte by byte. A literal is written
-- `codes "…"`, which gives its bytes when it is ASCII.
pub mod Decimal
use Prim.Native.Nat.{ℕ, zero, suc, ◌+◌, ◌/◌, ◌%◌}
use Prim.Native.Char.{code}
use Prim.Native.String.{String}
use mathlib.Core.Path.{◌≡◌, refl}
use mathlib.Core.Logic.{◌↔◌}
use mathlib.Core.Bool.{Bool, true, false, ◌&&◌}
use mathlib.Core.List.{List, [], ◌∷◌}
use native.Mathlib.Omega.{arith}
use dockform.Base.Tests.{Eq, ltb, nat_beq, if◌then◌else◌}

abbrev pub Text : Type 0
Text = List ℕ

abbrev pub codes : String → Text
codes String.[] = []
codes (String.◌∷◌ c s) = code c ∷ codes s

unfoldable pub text_beq : Text → Text → Bool
text_beq [] [] = true
text_beq [] (_ ∷ _) = false
text_beq (_ ∷ _) [] = false
text_beq (a ∷ s) (b ∷ t) = nat_beq a b && text_beq s t

pub text_beq_iff : (s t : Text) → (text_beq s t ≡ true) ↔ (s ≡ t)
unfolding text_beq
text_beq_iff [] [] = (λ _. refl, λ _. refl)
text_beq_iff [] (b ∷ t) = ground arith
text_beq_iff (a ∷ s) [] = ground arith
text_beq_iff (a ∷ s) (b ∷ t) = ground (arith, text_beq_iff s t)

instance abbrev pub text_eq : Eq Text
text_eq = record { same = text_beq; same_iff = text_beq_iff }

-- `s < t`
unfoldable pub text_ltb : Text → Text → Bool
text_ltb s [] = false
text_ltb [] (_ ∷ _) = true
text_ltb (a ∷ s) (b ∷ t) = if ltb a b then true else if ltb b a then false else text_ltb s t

pub text_ltb_irrefl : (s : Text) → text_ltb s s ≡ false
unfolding text_ltb
text_ltb_irrefl [] = refl
text_ltb_irrefl (a ∷ s) = ground (arith, text_ltb_irrefl s)

pub text_ltb_asymm : (s t : Text) → text_ltb s t ≡ true → text_ltb t s ≡ false
unfolding text_ltb
text_ltb_asymm s [] h = ground arith
text_ltb_asymm [] (b ∷ t) h = refl
text_ltb_asymm (a ∷ s) (b ∷ t) h = ground (arith, text_ltb_asymm s t)

pub text_ltb_trans :
    (s t u : Text) → text_ltb s t ≡ true → text_ltb t u ≡ true → text_ltb s u ≡ true
unfolding text_ltb
text_ltb_trans s t [] h k = ground arith
text_ltb_trans s [] (c ∷ u) h k = ground arith
text_ltb_trans [] (b ∷ t) (c ∷ u) h k = refl
text_ltb_trans (a ∷ s) (b ∷ t) (c ∷ u) h k = ground (arith, text_ltb_trans s t u)

-- Neither is before the other only if they are one text.
pub text_ltb_connex : (s t : Text) → text_ltb s t ≡ false → text_ltb t s ≡ false → s ≡ t
unfolding text_ltb
text_ltb_connex [] [] h k = refl
text_ltb_connex [] (b ∷ t) h k = ground arith
text_ltb_connex (a ∷ s) [] h k = ground arith
text_ltb_connex (a ∷ s) (b ∷ t) h k = ground (arith, text_ltb_connex s t)

-- The decimal digits of a number, as `%d` writes them, on fuel above the number.
pub decimal_loop : ℕ → ℕ → Text → Text
decimal_loop zero n acc = acc
decimal_loop (suc fuel) n acc =
    let rest = decimal_loop fuel (n / 10) ((48 + n % 10) ∷ acc) in
    if ltb n 10 then (48 + n) ∷ acc else rest

unfoldable pub decimal : ℕ → Text
unfolding decimal_loop
decimal n = decimal_loop (suc n) n []
