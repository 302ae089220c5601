-- ===== src/Base/Trim.antt =====
-- Go's strings.TrimSpace and strings.ToLower.
use Prim.Native.Nat.{ℕ, zero, suc, ◌+◌}
use mathlib.Core.Bool.{Bool, true, false, ◌&&◌}
use mathlib.Core.Path.{◌≡◌, refl, sym, ap, ◌∙◌, subst}
use mathlib.Core.Logic.{◌⊎◌, inl, inr}
use native.Mathlib.Omega.{arith}
use mathlib.Core.List.{List, [], ◌∷◌, ◌++◌, map, reverse, reverse-append, reverse-reverse}
use dockform.Base.Tests.{Bool-cases, if◌then◌else◌, leb, nat_beq, nat_eq}
use dockform.Base.Lists.{length}
use dockform.Base.Text.{Text}

-- The white space of `unicode.IsSpace`, in UTF-8.
abbrev white_space : List Text
white_space =
    (9 ∷ [])
    ∷ (10 ∷ [])
    ∷ (11 ∷ [])
    ∷ (12 ∷ [])
    ∷ (13 ∷ [])
    ∷ (32 ∷ [])
    ∷ (194 ∷ 133 ∷ [])
    ∷ (194 ∷ 160 ∷ [])
    ∷ (225 ∷ 154 ∷ 128 ∷ [])
    ∷ (226 ∷ 128 ∷ 128 ∷ [])
    ∷ (226 ∷ 128 ∷ 129 ∷ [])
    ∷ (226 ∷ 128 ∷ 130 ∷ [])
    ∷ (226 ∷ 128 ∷ 131 ∷ [])
    ∷ (226 ∷ 128 ∷ 132 ∷ [])
    ∷ (226 ∷ 128 ∷ 133 ∷ [])
    ∷ (226 ∷ 128 ∷ 134 ∷ [])
    ∷ (226 ∷ 128 ∷ 135 ∷ [])
    ∷ (226 ∷ 128 ∷ 136 ∷ [])
    ∷ (226 ∷ 128 ∷ 137 ∷ [])
    ∷ (226 ∷ 128 ∷ 138 ∷ [])
    ∷ (226 ∷ 128 ∷ 168 ∷ [])
    ∷ (226 ∷ 128 ∷ 169 ∷ [])
    ∷ (226 ∷ 128 ∷ 175 ∷ [])
    ∷ (226 ∷ 129 ∷ 159 ∷ [])
    ∷ (227 ∷ 128 ∷ 128 ∷ [])
    ∷ []

abbrev begins : Text → Text → Bool
begins [] s = true
begins (c ∷ pre) [] = false
begins (c ∷ pre) (d ∷ s) = nat_beq c d && begins pre s

-- How many bytes the first of some words has with which a text begins.
unfoldable space_at : List Text → Text → ℕ
space_at [] s = 0
space_at (w ∷ ws) s = let rest = space_at ws s in if begins w s then length w else rest

-- The text without `n` bytes and without the words with which it then begins, again and again.
unfoldable skip_spaces : List Text → ℕ → Text → Text
unfolding space_at
skip_spaces ws n [] = []
skip_spaces ws (suc n) (c ∷ s) = skip_spaces ws n s
skip_spaces ws zero (c ∷ s) = elim (space_at ws (c ∷ s)) [
  | zero ↦ c ∷ s
  | suc n ↦ skip_spaces ws n s
]

unfoldable trim_left : Text → Text
unfolding skip_spaces
trim_left s = skip_spaces white_space 0 s

unfoldable trim_right : Text → Text
unfolding skip_spaces
trim_right s = reverse (skip_spaces (map reverse white_space) 0 (reverse s))

unfoldable pub trim_space : Text → Text
unfolding trim_left trim_right
trim_space s = trim_left (trim_right s)

ℕ-cases : (n : ℕ) → (n ≡ 0) ⊎ ((m : ℕ) × (n ≡ suc m))
ℕ-cases zero = inl refl
ℕ-cases (suc m) = inr (m, refl)

begins-append : (w r x : Text) → begins w r ≡ true → begins w (r ++ x) ≡ true
begins-append [] r x h = refl
begins-append (c ∷ w) [] x h = absurd (ground (arith, h))
begins-append (c ∷ w) (d ∷ r) x h = ground (arith, h, begins-append w r x)

no_word : (w r : Text) → begins w r ≡ false → length w ≡ 0 → ⊥
no_word [] r h e = ground (arith, h)
no_word (c ∷ w) r h e = ground (arith, e)

-- What does not begin with a word does not when it is cut off.
space_at-append : (ws : List Text) (r x : Text) → space_at ws (r ++ x) ≡ 0 → space_at ws r ≡ 0
unfolding space_at
space_at-append [] r x h = refl
space_at-append (w ∷ ws) r x h = elim (Bool-cases (begins w r)) [
  | inl there ↦ ground (arith, there, begins-append w r x there, h)
  | inr other ↦ elim (Bool-cases (begins w (r ++ x))) [
    | inr still ↦ ground (arith, other, space_at-append ws r x, still, h)
    | inl longer ↦ absurd (no_word w r other (ground (arith, longer, h)))
  ]
]

module _ (ws : List Text) where
  -- What is left begins with none of the words.
  space_at-skip_spaces :
      (n : ℕ) (s : Text) → space_at ws [] ≡ 0 → space_at ws (skip_spaces ws n s) ≡ 0
  unfolding skip_spaces
  space_at-skip_spaces n [] h = h
  space_at-skip_spaces (suc n) (c ∷ s) h = space_at-skip_spaces n s h
  space_at-skip_spaces zero (c ∷ s) h = elim (ℕ-cases (space_at ws (c ∷ s))) [
    | inl none ↦ rw (none, skip_spaces) none
    | inr (n, some) ↦ rw (some, skip_spaces) (space_at-skip_spaces n s h)
  ]

  skip_spaces-none : (s : Text) → space_at ws s ≡ 0 → skip_spaces ws 0 s ≡ s
  unfolding skip_spaces
  skip_spaces-none [] h = refl
  skip_spaces-none (c ∷ s) h = rw (h, skip_spaces) refl

  -- What is left is the end of the text.
  skip_spaces-end : (n : ℕ) (s : Text) → (p : Text) × (s ≡ p ++ skip_spaces ws n s)
  unfolding skip_spaces
  skip_spaces-end n [] = ([], refl)
  skip_spaces-end (suc n) (c ∷ s) = let (p, e) = skip_spaces-end n s in (c ∷ p, ap (λ t. c ∷ t) e)
  skip_spaces-end zero (c ∷ s) = elim (ℕ-cases (space_at ws (c ∷ s))) [
    | inl none ↦ ([], rw (none, skip_spaces) refl)
    | inr (n, some) ↦
        let (p, e) = skip_spaces-end n s in (c ∷ p, rw (some, skip_spaces) (ap (λ t. c ∷ t) e))
  ]

nothing : space_at (map reverse white_space) [] ≡ 0
unfolding space_at
nothing = refl

trim_left-end : (s : Text) → (p : Text) × (s ≡ p ++ trim_left s)
unfolding trim_left
trim_left-end s = skip_spaces-end white_space 0 s

-- White space stands neither at the beginning nor at the end.
abbrev LeftClean : Text → Type 0
LeftClean s = space_at white_space s ≡ 0

abbrev RightClean : Text → Type 0
RightClean s = space_at (map reverse white_space) (reverse s) ≡ 0

trim_left-LeftClean : (s : Text) → LeftClean (trim_left s)
unfolding trim_left space_at
trim_left-LeftClean s = space_at-skip_spaces white_space 0 s refl

trim_right-RightClean : (s : Text) → RightClean (trim_right s)
unfolding trim_right
trim_right-RightClean s =
    let r = skip_spaces (map reverse white_space) 0 (reverse s) in
    subst (λ t. space_at (map reverse white_space) t ≡ 0) (sym (reverse-reverse r))
      (space_at-skip_spaces (map reverse white_space) 0 (reverse s) nothing)

LeftClean-trim_left : (s : Text) → LeftClean s → trim_left s ≡ s
unfolding trim_left
LeftClean-trim_left s h = skip_spaces-none white_space s h

RightClean-trim_right : (s : Text) → RightClean s → trim_right s ≡ s
unfolding trim_right
RightClean-trim_right s h =
    ap reverse (skip_spaces-none (map reverse white_space) (reverse s) h) ∙ reverse-reverse s

-- What is cut off on the left leaves the end as it is.
trim_left-RightClean : (s : Text) → RightClean s → RightClean (trim_left s)
trim_left-RightClean s h =
    let (p, e) = trim_left-end s in
    space_at-append (map reverse white_space) (reverse (trim_left s)) (reverse p) (
      subst (λ t. space_at (map reverse white_space) t ≡ 0)
        (ap reverse e ∙ reverse-append p (trim_left s)) h)

-- White space is cut off once.
pub trim_space-trim_space : (s : Text) → trim_space (trim_space s) ≡ trim_space s
unfolding trim_space
trim_space-trim_space s =
    let t = trim_right s in
    ap trim_left
      (RightClean-trim_right (trim_left t) (trim_left-RightClean t (trim_right-RightClean s)))
    ∙ LeftClean-trim_left (trim_left t) (trim_left-LeftClean t)

abbrev lower_code : ℕ → ℕ
lower_code c = if leb b'A' c && leb c b'Z' then c + 32 else c

abbrev tail : Text → Text
tail [] = []
tail (c ∷ s) = s

-- Beyond ASCII `unicode.ToLower` gives an ASCII letter for the Kelvin sign U+212A and the dotted
-- capital I, U+0130, alone. The other capitals beyond ASCII stay here as they are: they become other
-- code points beyond ASCII, which no test on a lowered text tells from what they were. `lowered` is
-- the lowered text after the first byte, in which the later bytes of a code point stand unchanged.
abbrev lower_first : ℕ → Text → Text → Text
lower_first c s lowered =
    if begins (226 ∷ 132 ∷ 170 ∷ []) (c ∷ s)
    then b'k' ∷ tail (tail lowered)
    else if begins (196 ∷ 176 ∷ []) (c ∷ s)
    then b'i' ∷ tail lowered
    else lower_code c ∷ lowered

unfoldable pub to_lower : Text → Text
to_lower [] = []
to_lower (c ∷ s) = lower_first c s (to_lower s)
