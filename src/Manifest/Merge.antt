-- ===== src/Manifest/Merge.antt =====
-- internal/manifest/types.go: `GetAllStacks`, `GetStacksForContext` and their like.
pub mod Laws
pub mod Ignored
pub mod Names
use dockform.Base.{
  Bool, true, false, Option, none, some, List, [], ◌∷◌, ◌==◌, is_empty, if◌then◌else◌,
}
use dockform.Base.{contains, ◌++◌}
use dockform.Base.Text.{Text, text_eq}
use dockform.Base.Dict.{Dict, lookup, insert}
use dockform.Base.Result.{Result, ok, err}
use dockform.Manifest.Key.{KeyError, parse_stack_key}
use dockform.Manifest.Types.{Stack, FilesetSpec, Config}

-- `if v != nil { merged.F = v }`
abbrev pub override {ℓ} : {A : Type ℓ} → Option A → Option A → Option A
override (some v) old = some v
override none old = old

-- `if len(v) > 0 { merged.F = v }`
abbrev pub override_list {ℓ} : {A : Type ℓ} → List A → List A → List A
override_list (x ∷ xs) old = x ∷ xs
override_list [] old = old

-- The augmentation of a discovered stack: its root, files and env files stay.
unfoldable pub augment : Stack → Stack → Stack
augment existing v = record existing {
  profiles = override_list v.profiles existing.profiles;
  environment = override v.environment existing.environment;
  secrets = override v.secrets existing.secrets;
  project = override v.project existing.project;
}

abbrev pub merge_found : Option Stack → Text → Stack → Dict Text Stack → Dict Text Stack
merge_found (some existing) k v result = insert k (augment existing v) result
merge_found none k v result = insert k v result

abbrev pub merge_one : Text → Stack → Dict Text Stack → Dict Text Stack
merge_one k v result = merge_found (lookup k result) k v result

-- The loop over the explicit stacks.
unfoldable pub merge_explicit : Dict Text Stack → Dict Text Stack → Dict Text Stack
merge_explicit [] result = result
merge_explicit ((k, v) ∷ stacks) result = merge_explicit stacks (merge_one k v result)

-- The copy of a map into an empty one.
unfoldable pub copy_all {ℓ} : {V : Type ℓ} → Dict Text V → Dict Text V → Dict Text V
copy_all [] result = result
copy_all ((k, v) ∷ d) result = copy_all d (insert k v result)

unfoldable pub get_all_stacks : Config → Dict Text Stack
unfolding merge_explicit copy_all
get_all_stacks c = merge_explicit c.stacks (copy_all c.discovered_stacks [])

unfoldable pub get_all_filesets : Config → Dict Text FilesetSpec
get_all_filesets c = c.discovered_filesets

abbrev pub collect_stack :
    Text → Stack → Result KeyError (Text × Text) → Dict Text Stack → Dict Text Stack
collect_stack context_name stack (err e) result = result
collect_stack context_name stack (ok (context, stack_name)) result =
    if context == context_name then insert stack_name stack result else result

unfoldable pub stacks_of : Text → Dict Text Stack → Dict Text Stack → Dict Text Stack
stacks_of context_name [] result = result
stacks_of context_name ((key, stack) ∷ d) result =
    stacks_of context_name d (collect_stack context_name stack (parse_stack_key key) result)

unfoldable pub get_stacks_for_context : Config → Text → Dict Text Stack
unfolding stacks_of
get_stacks_for_context c context_name = stacks_of context_name (get_all_stacks c) []

unfoldable pub filesets_of :
    Text → Dict Text FilesetSpec → Dict Text FilesetSpec → Dict Text FilesetSpec
filesets_of context_name [] result = result
filesets_of context_name ((key, fileset) ∷ d) result =
    filesets_of context_name d
      (if fileset.context == context_name then insert key fileset result else result)

unfoldable pub get_filesets_for_context : Config → Text → Dict Text FilesetSpec
unfolding filesets_of
get_filesets_for_context c context_name = filesets_of context_name (get_all_filesets c) []

-- The inner loop over the secret paths of one stack: what is new is appended.
unfoldable add_new : List Text → List Text → List Text
add_new [] result = result
add_new (path ∷ paths) result =
    add_new paths (if contains result path then result else result ++ (path ∷ []))

unfoldable sops_secrets_of : Dict Text Stack → List Text → List Text
unfolding add_new
sops_secrets_of [] result = result
sops_secrets_of ((k, stack) ∷ d) result = sops_secrets_of d (add_new stack.sops_secrets result)

unfoldable get_all_sops_secrets : Config → List Text
unfolding sops_secrets_of
get_all_sops_secrets c = sops_secrets_of (get_all_stacks c) []
