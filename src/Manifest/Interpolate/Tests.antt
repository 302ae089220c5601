-- ===== src/Manifest/Interpolate/Tests.antt =====
-- Texts with placeholders, inline variables, and the theorems at them.
use dockform.Base.{
  ◌≡◌, refl, true, not, ◌&&◌, Option, none, some, List, [], ◌∷◌, ◌==◌, if◌then◌else◌, contains,
  is_some, length, ltb, set_of,
}
use dockform.Base.Text.{Text, codes, text_eq, text_beq, text_ltb}
use dockform.Base.Cut.{cut}
use dockform.Base.Sort.{sort_by}
use dockform.Manifest.Inline.{inline_key, dedup_inline, last_of_each, dedup_inline-last_of_each}
use dockform.Manifest.Interpolate.{placeholder, interpolate_env_placeholders}
use dockform.Manifest.Interpolate.Pieces.{
  Piece, literal, variable, pieces_text, pieces_fine, filled, any_names,
  interpolate_env_placeholders-pieces_text,
}

abbrev env : Text → Option Text
env name = if name == codes "A" then some (codes "${B}") else none

interpolate_run :
    interpolate_env_placeholders env (codes "$${A}-${B} ${9} ${A_1 }${A_1}")
    ≡ (codes "$${B}- ${9} ${A_1 }", codes "A_1" ∷ codes "B" ∷ [])
unfolding interpolate_env_placeholders set_of sort_by text_beq text_ltb
interpolate_run = refl

abbrev pieces : List Piece
pieces = literal (codes "x: $ ") ∷ variable (codes "A") ∷ variable (codes "B") ∷ []

pieces_run : pieces_fine pieces ≡ true
unfolding placeholder
pieces_run = refl

interpolate_env_placeholders-pieces_text_example :
    ((interpolate_env_placeholders env (pieces_text pieces)).0 ≡ filled env pieces)
    × (contains (interpolate_env_placeholders env (pieces_text pieces)).1 (codes "B")
        ≡ (any_names pieces (codes "B") && not (is_some (env (codes "B")))))
interpolate_env_placeholders-pieces_text_example =
    interpolate_env_placeholders-pieces_text env pieces (codes "B") pieces_run

abbrev inline : List Text
inline = codes "A=1" ∷ codes "B=2" ∷ codes "=3" ∷ [] ∷ codes "A=4" ∷ codes "C" ∷ []

dedup_run : dedup_inline inline ≡ codes "B=2" ∷ codes "A=4" ∷ codes "C" ∷ []
unfolding dedup_inline inline_key cut text_beq
dedup_run = refl

dedup_inline-last_of_each_example :
    dedup_inline inline ≡ (if ltb 1 (length inline) then last_of_each inline else inline)
dedup_inline-last_of_each_example = dedup_inline-last_of_each inline
