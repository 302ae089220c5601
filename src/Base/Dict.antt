-- ===== src/Base/Dict.antt =====
-- Go's maps as association lists. The order of the entries is the order in which `range` visits
-- them, which the program may not rely on: no theorem fixes it.
use mathlib.Core.Path.{◌≡◌, refl}
use mathlib.Core.Bool.{Bool, not, ◌&&◌, ◌||◌}
use mathlib.Core.Option.{Option, none, some}
use mathlib.Core.List.{List, [], ◌∷◌}
use native.Mathlib.Omega.{arith}
use dockform.Base.Tests.{Eq, ◌==◌, is_some, if◌then◌else◌}
use dockform.Base.Lists.{contains, Distinct}

abbrev pub Dict {ℓ κ} : Type ℓ → Type κ → Type (ℓ ⊔ κ)
Dict K V = List (K × V)

abbrev pub keys {ℓ κ} : {K : Type ℓ} {V : Type κ} → Dict K V → List K
keys [] = []
keys ((k, v) ∷ d) = k ∷ keys d

module _ {ℓ κ} {K : Type ℓ} {V : Type κ} ⦃e : Eq K⦄ where
  -- `v, ok := d[k]`
  abbrev pub lookup : K → Dict K V → Option V
  lookup k [] = none
  lookup k ((j, v) ∷ d) = if j == k then some v else lookup k d

  -- `_, ok := d[k]`
  abbrev pub has : K → Dict K V → Bool
  has k d = is_some (lookup k d)

  -- `d[k] = v`
  abbrev pub insert : K → V → Dict K V → Dict K V
  insert k v [] = (k, v) ∷ []
  insert k v ((j, w) ∷ d) = if j == k then (k, v) ∷ d else (j, w) ∷ insert k v d

  -- `delete(d, k)`
  abbrev pub erase : K → Dict K V → Dict K V
  erase k [] = []
  erase k ((j, w) ∷ d) = let rest = erase k d in if j == k then rest else (j, w) ∷ rest

  pub lookup-insert :
      (k j : K) (v : V) (d : Dict K V)
      → lookup j (insert k v d) ≡ (if k == j then some v else lookup j d)
  lookup-insert k j v [] = refl
  lookup-insert k j v ((i, w) ∷ d) =
      ground (arith, e.same_iff k j, e.same_iff i k, e.same_iff i j, lookup-insert k j v d)

  pub lookup-erase :
      (k j : K) (d : Dict K V) → lookup j (erase k d) ≡ (if k == j then none else lookup j d)
  lookup-erase k j [] = ground arith
  lookup-erase k j ((i, w) ∷ d) =
      ground (arith, e.same_iff k j, e.same_iff i k, e.same_iff i j, lookup-erase k j d)

  pub has-keys : (k : K) (d : Dict K V) → has k d ≡ contains (keys d) k
  has-keys k [] = refl
  has-keys k ((j, v) ∷ d) = ground (arith, has-keys k d)

  contains-insert :
      (k j : K) (v : V) (d : Dict K V)
      → contains (keys (insert k v d)) j ≡ (k == j || contains (keys d) j)
  contains-insert k j v [] = refl
  contains-insert k j v ((i, w) ∷ d) =
      ground (arith, e.same_iff k j, e.same_iff i k, e.same_iff i j, contains-insert k j v d)

  pub insert-Distinct :
      (k : K) (v : V) (d : Dict K V) → Distinct (keys d) → Distinct (keys (insert k v d))
  insert-Distinct k v [] u = (refl, tt)
  insert-Distinct k v ((i, w) ∷ d) u =
      ground
        (arith, insert-Distinct k v d u.1, contains-insert k i v d, e.same_iff i k, e.same_iff k i)

  pub contains-erase :
      (k j : K) (d : Dict K V)
      → contains (keys (erase k d)) j ≡ (not (k == j) && contains (keys d) j)
  contains-erase k j [] = ground arith
  contains-erase k j ((i, w) ∷ d) =
      ground (arith, e.same_iff k j, e.same_iff i k, e.same_iff i j, contains-erase k j d)

  pub erase-Distinct : (k : K) (d : Dict K V) → Distinct (keys d) → Distinct (keys (erase k d))
  erase-Distinct k [] u = tt
  erase-Distinct k ((i, w) ∷ d) u = ground (arith, erase-Distinct k d u.1, contains-erase k i d)
