-- ===== src/Manifest/Interpolate/Pieces.antt =====
-- A manifest written in pieces, and what the interpolation makes of it.
use dockform.Base.{
  zero, suc, ◌≡◌, refl, ap, ◌∙◌, Bool, true, false, not, ◌&&◌, ◌||◌, Option, none, some, List, [],
  ◌∷◌, ◌++◌, ◌==◌, nat_eq, arith, length, contains, set_of, contains-set_of, is_some, inl, inr,
  Option-cases,
}
use dockform.Base.Sort.{contains-sort_by}
use dockform.Base.Text.{Text, text_eq, text_beq_iff}
use dockform.Manifest.Validate.{all_of}
use dockform.Manifest.Interpolate.{
  env_start, env_code, closed_name, placeholder, replacement, replace_placeholders,
  interpolate_env_placeholders,
}

pub data Piece : Type 0 where
  literal variable : Text → Piece

abbrev pub pieces_text : List Piece → Text
pieces_text [] = []
pieces_text (literal s ∷ ps) = s ++ pieces_text ps
pieces_text (variable name ∷ ps) = b'$' ∷ b'{' ∷ (name ++ (b'}' ∷ pieces_text ps))

-- A name of a variable.
abbrev is_env_name : Text → Bool
is_env_name [] = false
is_env_name (c ∷ s) = env_start c && all_of env_code s

-- No placeholder begins within the first text.
abbrev no_placeholder : Text → Text → Bool
no_placeholder [] rest = true
no_placeholder (c ∷ s) rest = not (is_some (placeholder (c ∷ (s ++ rest)))) && no_placeholder s rest

-- The literals have no placeholder, and the variables have names.
abbrev pub pieces_fine : List Piece → Bool
pieces_fine [] = true
pieces_fine (literal s ∷ ps) = no_placeholder s (pieces_text ps) && pieces_fine ps
pieces_fine (variable name ∷ ps) = is_env_name name && pieces_fine ps

abbrev value_or_nothing : Option Text → Text
value_or_nothing none = []
value_or_nothing (some value) = value

module _ (lookup_env : Text → Option Text) where
  abbrev filled_piece : Piece → Text
  filled_piece (literal s) = s
  filled_piece (variable name) = value_or_nothing (lookup_env name)

  abbrev pub filled : List Piece → Text
  filled [] = []
  filled (p ∷ ps) = filled_piece p ++ filled ps

abbrev names_variable : Piece → Text → Bool
names_variable (literal s) name = false
names_variable (variable x) name = x == name

abbrev pub any_names : List Piece → Text → Bool
any_names [] name = false
any_names (p ∷ ps) name = names_variable p name || any_names ps name

closed_name-append :
    (name s : Text) → all_of env_code name ≡ true → closed_name (name ++ (b'}' ∷ s)) ≡ some name
unfolding closed_name
closed_name-append [] s h = refl
closed_name-append (c ∷ name) s h = ground (arith, h, closed_name-append name s)

placeholder-variable :
    (name s : Text)
    → is_env_name name ≡ true
    → placeholder (b'$' ∷ b'{' ∷ (name ++ (b'}' ∷ s))) ≡ some name
unfolding placeholder
placeholder-variable [] s h = absurd (ground (arith, h))
placeholder-variable (c ∷ name) s h = ground (arith, h, closed_name-append (c ∷ name) s)

module _ (lookup_env : Text → Option Text) where
  skip-name :
      (name s : Text)
      → replace_placeholders lookup_env (suc (length name)) (name ++ (b'}' ∷ s))
        ≡ replace_placeholders lookup_env zero s
  unfolding replace_placeholders
  skip-name [] s = refl
  skip-name (c ∷ name) s = skip-name name s

  replace_placeholders-variable :
      (name s : Text)
      → is_env_name name ≡ true
      → replace_placeholders lookup_env zero (b'$' ∷ b'{' ∷ (name ++ (b'}' ∷ s)))
        ≡ replacement lookup_env name (lookup_env name) (replace_placeholders lookup_env zero s)
  unfolding replace_placeholders
  replace_placeholders-variable name s h =
      rw (placeholder-variable name s h, replace_placeholders)
        (ap (replacement lookup_env name (lookup_env name)) (skip-name name s))

  replace_placeholders-literal :
      (text s : Text)
      → no_placeholder text s ≡ true
      → replace_placeholders lookup_env zero (text ++ s) ≡ (
        text ++ (replace_placeholders lookup_env zero s).0,
        (replace_placeholders lookup_env zero s).1,
      )
  unfolding replace_placeholders
  replace_placeholders-literal [] s h = refl
  replace_placeholders-literal (c ∷ text) s h =
      let plain : placeholder (c ∷ (text ++ s)) ≡ none = ground (arith, h) in
      rw (plain, replace_placeholders)
        (ap (λ (r : Text × List Text). (c ∷ r.0, r.1))
          (replace_placeholders-literal text s (ground (arith, h))))

  -- The set of the missing holds the names that the pieces have and the environment has not.
  missing_names :
      (ps : List Piece) (name : Text)
      → pieces_fine ps ≡ true
      → contains (replace_placeholders lookup_env zero (pieces_text ps)).1 name
        ≡ (any_names ps name && not (is_some (lookup_env name)))
  unfolding replace_placeholders
  missing_names [] name h = refl
  missing_names (literal s ∷ ps) name h =
      ap (λ (r : Text × List Text). contains r.1 name)
        (replace_placeholders-literal s (pieces_text ps) (ground (arith, h)))
      ∙ missing_names ps name (ground (arith, h))
  missing_names (variable x ∷ ps) name h =
      ap (λ (r : Text × List Text). contains r.1 name)
        (replace_placeholders-variable x (pieces_text ps) (ground (arith, h)))
      ∙ elim (Option-cases (lookup_env x)) [
        | inl unset ↦
            ground (arith, unset, missing_names ps name (ground (arith, h)), text_beq_iff x name)
        | inr (value, set) ↦
            ground (arith, set, missing_names ps name (ground (arith, h)), text_beq_iff x name)
      ]

  filled_pieces :
      (ps : List Piece)
      → pieces_fine ps ≡ true
      → (replace_placeholders lookup_env zero (pieces_text ps)).0 ≡ filled lookup_env ps
  unfolding replace_placeholders
  filled_pieces [] h = refl
  filled_pieces (literal s ∷ ps) h =
      ap (λ (r : Text × List Text). r.0)
        (replace_placeholders-literal s (pieces_text ps) (ground (arith, h)))
      ∙ ap (λ t. s ++ t) (filled_pieces ps (ground (arith, h)))
  filled_pieces (variable x ∷ ps) h =
      ap (λ (r : Text × List Text). r.0)
        (replace_placeholders-variable x (pieces_text ps) (ground (arith, h)))
      ∙ elim (Option-cases (lookup_env x)) [
        | inl unset ↦ ground (arith, unset, filled_pieces ps (ground (arith, h)))
        | inr (value, set) ↦ ground (arith, set, filled_pieces ps (ground (arith, h)))
      ]

  -- In a text made of literals, in which no placeholder begins, and of variables, each variable is replaced
  -- by its value, which is not read again, or by nothing where it is not set; and the names
  -- reported as missing are those of the text that are not set, for every name.
  pub interpolate_env_placeholders-pieces_text :
      (ps : List Piece) (name : Text)
      → pieces_fine ps ≡ true
      → ((interpolate_env_placeholders lookup_env (pieces_text ps)).0 ≡ filled lookup_env ps)
        × (contains (interpolate_env_placeholders lookup_env (pieces_text ps)).1 name
            ≡ (any_names ps name && not (is_some (lookup_env name))))
  unfolding interpolate_env_placeholders
  interpolate_env_placeholders-pieces_text ps name h =
      let found = (replace_placeholders lookup_env zero (pieces_text ps)).1 in
      (
        filled_pieces ps h,
        contains-sort_by (set_of found []) name
            ∙ ground (arith, contains-set_of found [] name, missing_names ps name h),
      )
