-- ===== src/Base/Lists.antt =====
-- Lists measured by native numbers, membership tests, and predicates by recursion.
use Prim.Native.Nat.{ℕ, suc, ◌+◌}
use mathlib.Core.Path.{◌≡◌, refl}
use mathlib.Core.Bool.{Bool, true, false, ◌&&◌, ◌||◌}
use mathlib.Core.List.{List, [], ◌∷◌, ◌++◌}
use mathlib.Core.List.{Mem, mem-cons_self, mem-cons_of_mem}
use native.Mathlib.Omega.{arith}
use dockform.Base.Tests.{Eq, ◌==◌, if◌then◌else◌}

module _ {ℓ} {A : Type ℓ} where
  abbrev pub length : List A → ℕ
  length [] = 0
  length (x ∷ xs) = suc (length xs)

  length-append : (xs ys : List A) → length (xs ++ ys) ≡ length xs + length ys
  length-append [] ys = omega arith
  length-append (x ∷ xs) ys = omega (arith, length-append xs ys)

  abbrev pub is_empty : List A → Bool
  is_empty [] = true
  is_empty (x ∷ xs) = false

  -- The members that pass a test, in order.
  abbrev pub select : (A → Bool) → List A → List A
  select p [] = []
  select p (x ∷ xs) = let rest = select p xs in if p x then x ∷ rest else rest

  abbrev pub any_of : (A → Bool) → List A → Bool
  any_of p [] = false
  any_of p (x ∷ xs) = p x || any_of p xs

  abbrev pub All {κ} : (A → Type κ) → List A → Type κ
  All P [] = Unit
  All P (x ∷ xs) = P x × All P xs

module _ {ℓ} {A : Type ℓ} where
  select-append : (p : A → Bool) (xs ys : List A) → select p (xs ++ ys) ≡ select p xs ++ select p ys
  select-append p [] ys = refl
  select-append p (x ∷ xs) ys = ground (arith, select-append p xs ys)

  pub All-append {κ} : (P : A → Type κ) (xs ys : List A) → All P xs → All P ys → All P (xs ++ ys)
  All-append P [] ys hx hy = hy
  All-append P (x ∷ xs) ys hx hy = (hx.0, All-append P xs ys hx.1 hy)

  pub All_of_mem {κ} : (P : A → Type κ) (xs : List A) → ((x : A) → Mem x xs → P x) → All P xs
  All_of_mem P [] f = tt
  All_of_mem P (x ∷ xs) f = (f x mem-cons_self, All_of_mem P xs (λ y m. f y (mem-cons_of_mem x m)))

  pub All-map {κ μ} :
      (P : A → Type κ) (Q : A → Type μ)
      → ((a : A) → P a → Q a)
      → (xs : List A) → All P xs
      → All Q xs
  All-map P Q f [] h = tt
  All-map P Q f (x ∷ xs) h = (f x h.0, All-map P Q f xs h.1)

module _ {ℓ} {A : Type ℓ} ⦃e : Eq A⦄ where
  abbrev pub contains : List A → A → Bool
  contains [] a = false
  contains (x ∷ xs) a = x == a || contains xs a

  -- No member stands twice.
  abbrev pub Distinct : List A → Type 0
  Distinct [] = Unit
  Distinct (x ∷ xs) = (contains xs x ≡ false) × Distinct xs

  pub contains-append :
      (xs ys : List A) (a : A) → contains (xs ++ ys) a ≡ (contains xs a || contains ys a)
  contains-append [] ys a = refl
  contains-append (x ∷ xs) ys a = ground (arith, contains-append xs ys a)

  contains-select :
      (p : A → Bool) (xs : List A) (a : A) → contains (select p xs) a ≡ (contains xs a && p a)
  contains-select p [] a = refl
  contains-select p (x ∷ xs) a = ground (arith, contains-select p xs a, e.same_iff x a)

  -- The keys of a map that is filled from a list: each member once.
  unfoldable pub set_of : List A → List A → List A
  set_of [] seen = seen
  set_of (x ∷ xs) seen = set_of xs (if contains seen x then seen else seen ++ (x ∷ []))

  pub contains-set_of :
      (xs seen : List A) (a : A) → contains (set_of xs seen) a ≡ (contains xs a || contains seen a)
  unfolding set_of
  contains-set_of [] seen a = refl
  contains-set_of (x ∷ xs) seen a = ground (
    arith,
    contains-set_of xs seen a,
    contains-set_of xs (seen ++ (x ∷ [])) a,
    contains-append seen (x ∷ []) a,
    e.same_iff x a,
  )
