-- ===== src/Manifest/Normalize.antt =====
-- internal/manifest/validation.go: `normalizeAndValidate`. An error leaves nothing of the
-- configuration, which its caller drops.
pub mod Checks
pub mod Stacks
pub mod Accepted
pub mod Settled
pub mod Valid
pub mod Seen
use dockform.Base.{
  Bool, true, false, not, ◌||◌, Option, none, some, List, [], ◌∷◌, ◌++◌, ◌==◌, is_empty,
  if◌then◌else◌,
}
use dockform.Base.Trim.{trim_space}
use dockform.Base.Text.{Text, codes, text_eq}
use dockform.Base.Dict.{Dict, lookup, insert}
use dockform.Base.Result.{Result, ok, err, ◌>>=◌}
use dockform.Apperr.{Err}
use dockform.Manifest.Machine.{Machine}
use dockform.Manifest.Key.{KeyError, slash, parse_stack_key}
use dockform.Manifest.Types.{Stack, FilesetSpec, RestartTargets, SopsConfig, ContextConfig, Config}
use dockform.Manifest.Merge.{get_all_stacks}
use dockform.Manifest.Validate.{invalid, validate_filesets, validate_sops}
use dockform.Manifest.Normalize.Checks.{Done, check_contexts, check_deployments, check_stacks}
use dockform.Manifest.Normalize.Stacks.{normalize_stacks}

abbrev set_text : Text → Text → Text
set_text [] old = old
set_text (c ∷ s) old = c ∷ s

abbrev list_or : List Text → List Text → List Text
list_or [] old = old
list_or (x ∷ xs) old = x ∷ xs

abbrev some_or {ℓ} : {A : Type ℓ} → Option A → Option A → Option A
some_or none old = old
some_or (some a) old = some a

abbrev restart_or : RestartTargets → RestartTargets → RestartTargets
restart_or r old = if r.attached || not (is_empty r.services) then r else old

-- What an explicit fileset says takes the place of what was found.
unfoldable pub overridden : FilesetSpec → FilesetSpec → FilesetSpec
overridden existing fs = record existing {
  source = set_text fs.source existing.source;
  target_volume = set_text fs.target_volume existing.target_volume;
  target_path = set_text fs.target_path existing.target_path;
  apply_mode = set_text fs.apply_mode existing.apply_mode;
  exclude = list_or fs.exclude existing.exclude;
  ownership = some_or fs.ownership existing.ownership;
  restart_services = restart_or fs.restart_services existing.restart_services;
}

abbrev merged_fileset : Text → Text → Option FilesetSpec → FilesetSpec → FilesetSpec
merged_fileset context key (some existing) fs = overridden existing fs
merged_fileset context key none fs = record fs { context = context; stack = key }

unfoldable merge_filesets_of :
    Text → Text → Dict Text FilesetSpec → Dict Text FilesetSpec → Dict Text FilesetSpec
unfolding overridden
merge_filesets_of context key [] found = found
merge_filesets_of context key ((name, fs) ∷ d) found =
    let full = key ++ (slash ∷ name) in
    merge_filesets_of context key d
      (insert full (merged_fileset context key (lookup full found) fs) found)

abbrev merge_stack_filesets :
    Text → Stack → Result KeyError (Text × Text) → Dict Text FilesetSpec → Dict Text FilesetSpec
merge_stack_filesets key stack (err e) found = found
merge_stack_filesets key stack (ok (context, name)) found =
    merge_filesets_of context key stack.filesets found

-- The explicit filesets of the merged stacks.
unfoldable pub merge_filesets : Dict Text Stack → Dict Text FilesetSpec → Dict Text FilesetSpec
unfolding merge_filesets_of
merge_filesets [] found = found
merge_filesets ((key, stack) ∷ d) found =
    merge_filesets d (merge_stack_filesets key stack (parse_stack_key key) found)

abbrev pub check_identifier : Text → Result Err Done
check_identifier identifier =
    if trim_space identifier == []
    then err (invalid (codes "identifier is required at the top level of the manifest"))
    else ok tt

abbrev pub check_any_context : Dict Text ContextConfig → Result Err Done
check_any_context [] =
    err (invalid (codes "at least one context must be defined under 'contexts:'"))
check_any_context (e ∷ d) = ok tt

abbrev pub sops_checked : Option SopsConfig → Result Err (Option SopsConfig)
sops_checked none = ok none
sops_checked (some sops) = validate_sops sops >>= λ sops'. ok (some sops')

module _ (H : Machine) (base_dir : Text) where
  abbrev pub resolved : Text → Text → Text
  resolved base path = H.clean (H.join base path)

  -- The configuration with the maps of stacks that the loop leaves, and the filesets found.
  abbrev pub with_maps : Config → Dict Text Stack × Dict Text Stack → Config
  with_maps c (explicit, discovered) = record c {
    stacks = explicit;
    discovered_stacks = discovered;
  }

  unfoldable pub normalize_and_validate : Config → Result Err Config
  unfolding check_contexts check_deployments check_stacks normalize_stacks merge_filesets
  normalize_and_validate c = check_identifier c.identifier >>= λ _.
      check_any_context c.contexts >>= λ _. check_contexts H c.contexts >>= λ _.
      check_deployments H c.contexts c.deployments >>= λ _.
      check_stacks H c.contexts c.stacks >>= λ explicit.
      let c₁ = record c { stacks = explicit } in
      normalize_stacks H base_dir (get_all_stacks c₁) (explicit, c.discovered_stacks) >>= λ maps.
      let c₂ = with_maps c₁ maps in
      let filesets = merge_filesets (get_all_stacks c₂) c.discovered_filesets in
      sops_checked c.sops >>= λ sops.
      validate_filesets H.is_abs resolved base_dir filesets >>= λ filesets'.
      ok (record c₂ { sops = sops; discovered_filesets = filesets' })
