-- ===== src/Base/Maps.antt =====
-- Go's maps in another order: sorted by their keys, or as their entries arrive on a channel.
use mathlib.Core.Path.{◌≡◌, refl, sym, ◌∙◌, subst}
use mathlib.Core.Bool.{Bool, false, ◌||◌}
use mathlib.Core.Option.{some}
use mathlib.Core.List.{[], ◌∷◌}
use mathlib.Core.Logic.{inl, inr}
use native.Mathlib.Omega.{arith}
use dockform.Base.Tests.{◌==◌, if◌then◌else◌, Bool-cases}
use dockform.Base.Lists.{contains, Distinct, any_of, All, All-map}
use dockform.Base.Text.{Text, text_eq, text_beq_iff, text_ltb}
use dockform.Base.Dict.{Dict, lookup, has-keys, keys}
use dockform.Base.Sort.{sort_by, place}

-- The same entries, each name once, in some order.
pub record SameMap {ℓ} {V : Type ℓ} (a b : Dict Text V) : Type ℓ where
  pub once : Distinct (keys a)
  pub same : (k : Text) → lookup k a ≡ lookup k b

module _ {ℓ} {V : Type ℓ} where
  abbrev key_of : Text × V → Text
  key_of e = e.0

  contains-place :
      (k : Text) (x : Text × V) (d : Dict Text V)
      → contains (keys (place key_of x d)) k ≡ (x.0 == k || contains (keys d) k)
  unfolding place
  contains-place k x [] = refl
  contains-place k x (y ∷ d) = ground (arith, contains-place k x d)

  contains-sorted :
      (k : Text) (d : Dict Text V) → contains (keys (sort_by key_of d)) k ≡ contains (keys d) k
  unfolding sort_by
  contains-sorted k [] = refl
  contains-sorted k (x ∷ d) =
      ground (arith, contains-place k x (sort_by key_of d), contains-sorted k d)

  place-Distinct :
      (x : Text × V) (d : Dict Text V)
      → contains (keys d) x.0 ≡ false
      → Distinct (keys d)
      → Distinct (keys (place key_of x d))
  unfolding place
  place-Distinct x [] h u = (refl, tt)
  place-Distinct x (y ∷ d) h u = elim (Bool-cases (text_ltb y.0 x.0)) [
    | inl later ↦ rw later (
      ground (arith, contains-place y.0 x d, text_beq_iff x.0 y.0, text_beq_iff y.0 x.0),
      place-Distinct x d (ground arith) u.1,
    )
    | inr here ↦ rw here (h, u)
  ]

  pub sorted-Distinct : (d : Dict Text V) → Distinct (keys d) → Distinct (keys (sort_by key_of d))
  unfolding sort_by
  sorted-Distinct [] u = tt
  sorted-Distinct (x ∷ d) u =
      place-Distinct x (sort_by key_of d) (ground (arith, contains-sorted x.0 d))
        (sorted-Distinct d u.1)

  lookup-place :
      (k : Text) (x : Text × V) (d : Dict Text V)
      → contains (keys d) x.0 ≡ false
      → lookup k (place key_of x d) ≡ (if x.0 == k then some x.1 else lookup k d)
  unfolding place
  lookup-place k x [] h = refl
  lookup-place k x (y ∷ d) h =
      ground
        (arith, lookup-place k x d, text_beq_iff x.0 k, text_beq_iff y.0 k, text_beq_iff y.0 x.0)

  lookup-sorted :
      (k : Text) (d : Dict Text V) → Distinct (keys d) → lookup k (sort_by key_of d) ≡ lookup k d
  unfolding sort_by
  lookup-sorted k [] u = refl
  lookup-sorted k (x ∷ d) u = ground (
    arith,
    lookup-place k x (sort_by key_of d) (ground (arith, contains-sorted x.0 d)),
    lookup-sorted k d u.1,
  )

  pub sorted-SameMap : (d : Dict Text V) → Distinct (keys d) → SameMap (sort_by key_of d) d
  sorted-SameMap d u = record { once = sorted-Distinct d u; same = λ k. lookup-sorted k d u }

  -- Where each name stands once, every entry is found under its name.
  pub entries-lookup :
      (d : Dict Text V) → Distinct (keys d) → All (λ (e : Text × V). lookup e.0 d ≡ some e.1) d
  entries-lookup [] u = tt
  entries-lookup ((k, v) ∷ d) u = (
    ground (arith, text_beq_iff k k),
    All-map (λ e. lookup e.0 d ≡ some e.1) (λ e. lookup e.0 ((k, v) ∷ d) ≡ some e.1)
        (λ e found. ground (arith, has-keys k d, text_beq_iff k e.0, found)) d
        (entries-lookup d u.1),
  )

  -- What a test of the values denies of every entry, it denies of what is found.
  pub lookup-any_of :
      (test : V → Bool) (k : Text) (v : V) (d : Dict Text V)
      → any_of (λ e. test e.1) d ≡ false
      → lookup k d ≡ some v
      → test v ≡ false
  lookup-any_of test k v [] none_does found = cc
  lookup-any_of test k v ((j, w) ∷ d) none_does found = ground (arith, lookup-any_of test k v d)

  -- What holds of every entry holds of what is found.
  pub All-lookup {κ} :
      (P : Text × V → Type κ) (k : Text) (v : V) (d : Dict Text V)
      → All P d
      → lookup k d ≡ some v
      → P (k, v)
  All-lookup P k v [] all found = cc
  All-lookup P k v ((j, w) ∷ d) all found = elim (Bool-cases (j == k)) [
    | inl same ↦
        let e : (j, w) ≡ (k, v) = ground (arith, text_beq_iff j k, found, same) in subst P e all.0
    | inr other ↦ All-lookup P k v d all.1 (ground (arith, found, other))
  ]

  -- What holds of every entry holds of every entry in another order.
  pub All-SameMap {κ} :
      (P : Text × V → Type κ) (a b : Dict Text V)
      → ((k : Text) → lookup k b ≡ lookup k a)
      → Distinct (keys b)
      → All P a
      → All P b
  All-SameMap P a b same u all =
      All-map (λ e. lookup e.0 b ≡ some e.1) P
        (λ e found. All-lookup P e.0 e.1 a all (sym (same e.0) ∙ found)) b (entries-lookup b u)
