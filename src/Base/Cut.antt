-- ===== src/Base/Cut.antt =====
-- A text cut at the first of a byte.
use Prim.Native.Nat.{ℕ}
use mathlib.Core.Path.{◌≡◌}
use mathlib.Core.Logic.{inl, inr}
use mathlib.Core.Bool.{false}
use mathlib.Core.Option.{Option, none, some}
use mathlib.Core.List.{[], ◌∷◌, ◌++◌}
use native.Mathlib.Omega.{arith}
use dockform.Base.Tests.{nat_beq, nat_eq, if◌then◌else◌, Option-cases}
use dockform.Base.Lists.{contains}
use dockform.Base.Text.{Text}

-- `strings.SplitN(s, sep, 2)` for a separator of one byte: the two parts, or none for one part.
unfoldable pub cut : ℕ → Text → Option (Text × Text)
cut sep [] = none
cut sep (c ∷ s) =
    if nat_beq c sep
    then some ([], s)
    else elim (cut sep s) [ none ↦ none | some (before, after) ↦ some (c ∷ before, after) ]

pub cut-append :
    (sep : ℕ) (before after : Text)
    → contains before sep ≡ false
    → cut sep (before ++ (sep ∷ after)) ≡ some (before, after)
unfolding cut
cut-append sep [] after h = ground arith
cut-append sep (c ∷ before) after h = ground (arith, cut-append sep before after)

pub append-cut :
    (sep : ℕ) (s before after : Text)
    → cut sep s ≡ some (before, after)
    → (before ++ (sep ∷ after) ≡ s) × (contains before sep ≡ false)
unfolding cut
append-cut sep [] before after h = ground arith
append-cut sep (c ∷ s) before after h = elim (Option-cases (cut sep s)) [
  | inl absent ↦ ground arith
  | inr ((b, a), found) ↦ ground (arith, append-cut sep s b a found)
]
