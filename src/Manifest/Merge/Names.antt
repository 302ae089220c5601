-- ===== src/Manifest/Merge/Names.antt =====
-- The names in the merged maps.
use dockform.Base.{[], ◌∷◌, ◌==◌, Distinct, Bool-cases, inl, inr}
use dockform.Base.Text.{Text, text_eq}
use dockform.Base.Dict.{Dict, keys, insert, insert-Distinct}
use dockform.Base.Result.{Result, ok, err}
use dockform.Manifest.Key.{KeyError, parse_stack_key}
use dockform.Manifest.Types.{Stack, FilesetSpec, Config}
use dockform.Manifest.Merge.{
  get_all_stacks, get_all_filesets, collect_stack, stacks_of, filesets_of, get_stacks_for_context,
  get_filesets_for_context,
}

collect_stack-Distinct :
    (context : Text) (stack : Stack) (r : Result KeyError (Text × Text)) (d : Dict Text Stack)
    → Distinct (keys d)
    → Distinct (keys (collect_stack context stack r d))
collect_stack-Distinct context stack (err e) d u = u
collect_stack-Distinct context stack (ok (c, name)) d u = elim (Bool-cases (c == context)) [
  | inl same ↦ rw same (insert-Distinct name stack d u)
  | inr other ↦ rw other u
]

stacks_of-Distinct :
    (context : Text) (d result : Dict Text Stack)
    → Distinct (keys result)
    → Distinct (keys (stacks_of context d result))
unfolding stacks_of
stacks_of-Distinct context [] result u = u
stacks_of-Distinct context ((key, stack) ∷ d) result u =
    stacks_of-Distinct context d (collect_stack context stack (parse_stack_key key) result)
      (collect_stack-Distinct context stack (parse_stack_key key) result u)

-- Each stack of a context, and each fileset, has its name once.
pub get_stacks_for_context-Distinct :
    (cfg : Config) (context : Text) → Distinct (keys (get_stacks_for_context cfg context))
unfolding get_stacks_for_context
get_stacks_for_context-Distinct cfg context = stacks_of-Distinct context (get_all_stacks cfg) [] tt

filesets_of-Distinct :
    (context : Text) (d result : Dict Text FilesetSpec)
    → Distinct (keys result)
    → Distinct (keys (filesets_of context d result))
unfolding filesets_of
filesets_of-Distinct context [] result u = u
filesets_of-Distinct context ((key, fs) ∷ d) result u = elim (Bool-cases (fs.context == context)) [
  | inl same ↦
      rw same
        (filesets_of-Distinct context d (insert key fs result) (insert-Distinct key fs result u))
  | inr other ↦ rw other (filesets_of-Distinct context d result u)
]

pub get_filesets_for_context-Distinct :
    (cfg : Config) (context : Text) → Distinct (keys (get_filesets_for_context cfg context))
unfolding get_filesets_for_context
get_filesets_for_context-Distinct cfg context =
    filesets_of-Distinct context (get_all_filesets cfg) [] tt
