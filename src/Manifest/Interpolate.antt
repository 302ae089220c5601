-- ===== src/Manifest/Interpolate.antt =====
-- internal/manifest/loader.go: `${NAME}` in the text of the manifest. The environment is a
-- parameter.
pub mod Pieces
mod Tests
use dockform.Base.{
  ℕ, zero, suc, ◌+◌, Bool, true, false, ◌&&◌, ◌||◌, Option, none, some, List, [], ◌∷◌, ◌++◌, ◌==◌,
  leb, nat_eq, if◌then◌else◌, length, set_of,
}
use dockform.Base.Sort.{sort_by}
use dockform.Base.Text.{Text, text_eq}

-- `[A-Za-z_]`
abbrev pub env_start : ℕ → Bool
env_start c = (leb b'A' c && leb c b'Z') || ((leb b'a' c && leb c b'z') || c == b'_')

-- `[A-Za-z0-9_]`
abbrev pub env_code : ℕ → Bool
env_code c = env_start c || (leb b'0' c && leb c b'9')

-- `[A-Za-z0-9_]*\}`: the name that a brace closes.
unfoldable pub closed_name : Text → Option Text
closed_name [] = none
closed_name (c ∷ s) =
    let rest : Option Text = elim (closed_name s) [ none ↦ none | some name ↦ some (c ∷ name) ] in
    if c == b'}' then some [] else if env_code c then rest else none

-- `[A-Za-z_][A-Za-z0-9_]*\}`
abbrev pub name_here : Text → Option Text
name_here [] = none
name_here (c ∷ s) = if env_start c then closed_name (c ∷ s) else none

-- `\$\{([A-Za-z_][A-Za-z0-9_]*)\}` at the start of a text: the name of the match.
unfoldable pub placeholder : Text → Option Text
unfolding closed_name
placeholder (c ∷ d ∷ s) = if (c == b'$') && (d == b'{') then name_here s else none
placeholder _ = none

module _ (lookup_env : Text → Option Text) where
  -- What stands for a match: the value, or nothing and the name in the set of the missing.
  abbrev pub replacement : Text → Option Text → Text × List Text → Text × List Text
  replacement name (some value) (out, missing) = (value ++ out, missing)
  replacement name none (out, missing) = (out, name ∷ missing)

  -- `ReplaceAllStringFunc`, where the first characters are part of a match and passed over.
  unfoldable pub replace_placeholders : ℕ → Text → Text × List Text
  unfolding placeholder
  replace_placeholders skip [] = ([], [])
  replace_placeholders (suc skip) (c ∷ s) = replace_placeholders skip s
  replace_placeholders zero (c ∷ s) = elim (placeholder (c ∷ s)) [
    | some name ↦
        replacement name (lookup_env name) (replace_placeholders (suc (suc (length name))) s)
    | none ↦ let (out, missing) = replace_placeholders zero s in (c ∷ out, missing)
  ]

  unfoldable pub interpolate_env_placeholders : Text → Text × List Text
  unfolding replace_placeholders
  interpolate_env_placeholders text =
      let (out, missing) = replace_placeholders zero text in
      (out, sort_by (λ name. name) (set_of missing []))
