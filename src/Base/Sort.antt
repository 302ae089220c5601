-- ===== src/Base/Sort.antt =====
-- `sort.Strings`, and `sort.Slice` by a text key. The code relies on the result being a sorted
-- permutation; entries of equal keys keep their order here.
use mathlib.Core.Path.{◌≡◌, refl, sym, ◌∙◌}
use mathlib.Core.Bool.{Bool, false, ◌||◌}
use mathlib.Core.List.{List, [], ◌∷◌, Perm}
use mathlib.Core.List.Perm
use native.Mathlib.Omega.{arith}
use mathlib.Core.Logic.{inl, inr}
use dockform.Base.Tests.{Eq, ◌==◌, Bool-cases, if◌then◌else◌}
use dockform.Base.Lists.{contains, any_of, All, All-map}
use dockform.Base.Text.{Text, text_eq, text_ltb, text_ltb_asymm, text_ltb_trans, text_ltb_connex}

module _ {ℓ} {A : Type ℓ} (key : A → Text) where
  unfoldable pub place : A → List A → List A
  place x [] = x ∷ []
  place x (y ∷ ys) =
      let rest = place x ys in if text_ltb (key y) (key x) then y ∷ rest else x ∷ y ∷ ys

  unfoldable pub sort_by : List A → List A
  unfolding place
  sort_by [] = []
  sort_by (x ∷ xs) = place x (sort_by xs)

  -- No later key is before an earlier one.
  abbrev IsSortedBy : List A → Type 0
  IsSortedBy [] = Unit
  IsSortedBy (x ∷ xs) = All (λ y. text_ltb (key y) (key x) ≡ false) xs × IsSortedBy xs

text_geb_trans : (s t u : Text) → text_ltb s t ≡ false → text_ltb t u ≡ false → text_ltb s u ≡ false
text_geb_trans s t u h k = elim (Bool-cases (text_ltb s u)) [
  | inr fine ↦ fine
  | inl before ↦ elim (Bool-cases (text_ltb u t)) [
    | inl above ↦ cc (text_ltb_trans s u t before above)
    | inr level ↦ cc (text_ltb_connex t u k level)
  ]
]

module _ {ℓ} {A : Type ℓ} (key : A → Text) where
  pub any_of-place :
      (p : A → Bool) (x : A) (xs : List A) → any_of p (place key x xs) ≡ (p x || any_of p xs)
  unfolding place
  any_of-place p x [] = refl
  any_of-place p x (y ∷ ys) = ground (arith, any_of-place p x ys)

  -- The members stay the same, for every test.
  pub any_of-sort_by : (p : A → Bool) (xs : List A) → any_of p (sort_by key xs) ≡ any_of p xs
  unfolding sort_by
  any_of-sort_by p [] = refl
  any_of-sort_by p (x ∷ xs) = ground (arith, any_of-place p x (sort_by key xs), any_of-sort_by p xs)

  place-perm : (x : A) (xs : List A) → Perm (place key x xs) (x ∷ xs)
  unfolding place
  place-perm x [] = Perm.refl (x ∷ [])
  place-perm x (y ∷ ys) = elim (Bool-cases (text_ltb (key y) (key x))) [
    | inl later ↦ rw later (Perm.trans (Perm.cons y (place-perm x ys)) (Perm.swap x y ys))
    | inr here ↦ rw here (Perm.refl (x ∷ y ∷ ys))
  ]

  sort_by-perm : (xs : List A) → Perm (sort_by key xs) xs
  unfolding sort_by
  sort_by-perm [] = Perm.refl []
  sort_by-perm (x ∷ xs) = Perm.trans (place-perm x (sort_by key xs)) (Perm.cons x (sort_by-perm xs))

  All-place : (P : A → Type 0) (x : A) (xs : List A) → P x → All P xs → All P (place key x xs)
  unfolding place
  All-place P x [] px h = (px, tt)
  All-place P x (y ∷ ys) px h = elim (Bool-cases (text_ltb (key y) (key x))) [
    | inl later ↦ rw later (h.0, All-place P x ys px h.1)
    | inr here ↦ rw here (px, h)
  ]

  place-IsSortedBy : (x : A) (xs : List A) → IsSortedBy key xs → IsSortedBy key (place key x xs)
  unfolding place
  place-IsSortedBy x [] h = (tt, tt)
  place-IsSortedBy x (y ∷ ys) h = elim (Bool-cases (text_ltb (key y) (key x))) [
    | inl later ↦ rw later (
      All-place (λ z. text_ltb (key z) (key y) ≡ false) x ys (text_ltb_asymm (key y) (key x) later)
          h.0,
      place-IsSortedBy x ys h.1,
    )
    | inr here ↦ rw here (
      (
        here,
        All-map (λ z. text_ltb (key z) (key y) ≡ false) (λ z. text_ltb (key z) (key x) ≡ false)
            (λ z later. text_geb_trans (key z) (key y) (key x) later here) ys h.0,
      ),
      h,
    )
  ]

  sort_by-IsSortedBy : (xs : List A) → IsSortedBy key (sort_by key xs)
  unfolding sort_by
  sort_by-IsSortedBy [] = tt
  sort_by-IsSortedBy (x ∷ xs) = place-IsSortedBy x (sort_by key xs) (sort_by-IsSortedBy xs)

contains-any_of {ℓ} :
    {A : Type ℓ} ⦃e : Eq A⦄ (xs : List A) (a : A) → contains xs a ≡ any_of (λ x. x == a) xs
contains-any_of [] a = refl
contains-any_of (x ∷ xs) a = ground (arith, contains-any_of xs a)

pub contains-sort_by :
    (xs : List Text) (a : Text) → contains (sort_by (λ x. x) xs) a ≡ contains xs a
contains-sort_by xs a =
    contains-any_of (sort_by (λ x. x) xs) a
    ∙ any_of-sort_by (λ x. x) (λ x. x == a) xs
    ∙ sym (contains-any_of xs a)

module _ {ℓ} {A : Type ℓ} (key : A → Text) (P : A → Type 0) where
  -- What holds of every entry holds of every entry of the sorted list.
  pub sort_by-All : (xs : List A) → All P xs → All P (sort_by key xs)
  unfolding sort_by
  sort_by-All [] h = tt
  sort_by-All (x ∷ xs) h = All-place key P x (sort_by key xs) h.0 (sort_by-All xs h.1)
