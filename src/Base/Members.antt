-- ===== src/Base/Members.antt =====
-- Tests on lists of texts with the same members.
use mathlib.Core.Path.{◌≡◌, refl, sym, ◌∙◌}
use mathlib.Core.Bool.{Bool, true}
use mathlib.Core.Logic.{inl, inr}
use mathlib.Core.List.{List, [], ◌∷◌}
use native.Mathlib.Omega.{arith}
use dockform.Base.Tests.{Bool-cases}
use dockform.Base.Lists.{contains, any_of}
use dockform.Base.Text.{Text, text_eq, text_beq_iff}

pub any_of-same :
    (p q : Text → Bool) (xs : List Text)
    → ((x : Text) → contains xs x ≡ true → p x ≡ q x)
    → any_of p xs ≡ any_of q xs
any_of-same p q [] same = refl
any_of-same p q (x ∷ xs) same = ground (
  arith,
  same x (ground (arith, text_beq_iff x x)),
  any_of-same p q xs (λ y there. same y (ground (arith, there))),
)

any_of-contains :
    (p : Text → Bool) (xs : List Text) (x : Text)
    → contains xs x ≡ true
    → p x ≡ true
    → any_of p xs ≡ true
any_of-contains p [] x h k = ground (arith, h)
any_of-contains p (y ∷ xs) x h k = ground (arith, h, k, text_beq_iff y x, any_of-contains p xs x)

any_of-within :
    (p : Text → Bool) (xs ys : List Text)
    → ((x : Text) → contains xs x ≡ true → contains ys x ≡ true)
    → any_of p xs ≡ true
    → any_of p ys ≡ true
any_of-within p [] ys within h = absurd (ground (arith, h))
any_of-within p (x ∷ xs) ys within h = elim (Bool-cases (p x)) [
  | inl here ↦ any_of-contains p ys x (within x (ground (arith, text_beq_iff x x))) here
  | inr later ↦
      any_of-within p xs ys (λ y there. within y (ground (arith, there))) (ground (arith, h, later))
]

-- Lists with the same members agree on every test.
pub any_of-members :
    (p : Text → Bool) (xs ys : List Text)
    → ((x : Text) → contains xs x ≡ contains ys x)
    → any_of p xs ≡ any_of p ys
any_of-members p xs ys same = ground (
  arith,
  any_of-within p xs ys (λ x h. sym (same x) ∙ h),
  any_of-within p ys xs (λ x h. same x ∙ h),
)
