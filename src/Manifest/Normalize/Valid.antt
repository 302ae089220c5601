-- ===== src/Manifest/Normalize/Valid.antt =====
-- The configuration that the validation accepts, as a whole.
use dockform.Base.{◌≡◌, ◌≢◌, sym, true, false, [], ◌∷◌, ◌==◌, All, arith}
use mathlib.Core.Path.{subst}
use dockform.Base.Trim.{trim_space}
use dockform.Base.Text.{Text, text_eq}
use dockform.Base.Dict.{Dict}
use dockform.Base.Result.{ok, >>=-eq-ok}
use dockform.Manifest.Machine.{Machine}
use dockform.Manifest.Types.{Stack, FilesetSpec, ContextConfig, Config}
use dockform.Manifest.Merge.{get_all_stacks}
use dockform.Manifest.Validate.{validate_filesets}
use dockform.Manifest.Validate.Valid.{IsValid, validate_filesets-IsValid}
use dockform.Manifest.Normalize.Checks.{check_contexts, check_deployments, check_stacks}
use dockform.Manifest.Normalize.Stacks.{normalize_stacks}
use dockform.Manifest.Normalize.Accepted.{
  context_fine, Refers, StackKeyFine, check_contexts-fine, check_deployments-Refers,
  check_stacks-StackKeyFine,
}
use dockform.Manifest.Normalize.{
  merge_filesets, check_identifier, check_any_context, sops_checked, resolved, with_maps,
  normalize_and_validate,
}

-- The steps of a run that succeeds.
pub record Steps (H : Machine) (base_dir : Text) (c c' : Config) : Type 0 where
  pub explicit : Dict Text Stack
  pub maps : Dict Text Stack × Dict Text Stack
  pub filesets : Dict Text FilesetSpec
  pub identified : check_identifier c.identifier ≡ ok tt
  pub some_context : check_any_context c.contexts ≡ ok tt
  pub contexts_checked : check_contexts H c.contexts ≡ ok tt
  pub deployments_checked : check_deployments H c.contexts c.deployments ≡ ok tt
  pub stacks_checked : check_stacks H c.contexts c.stacks ≡ ok explicit
  pub stacks_normalized :
      normalize_stacks H base_dir
        (get_all_stacks (record c { stacks = explicit }))
        (explicit, c.discovered_stacks)
      ≡ ok maps
  pub filesets_valid :
      validate_filesets H.is_abs (resolved H base_dir) base_dir (
        merge_filesets
          (get_all_stacks (with_maps H base_dir (record c { stacks = explicit }) maps))
          c.discovered_filesets)
      ≡ ok filesets
  pub result_stacks : c'.stacks ≡ maps.0
  pub result_discovered : c'.discovered_stacks ≡ maps.1
  pub result_filesets : c'.discovered_filesets ≡ filesets
  pub result_contexts : c'.contexts ≡ c.contexts
  pub result_discovery : c'.discovery ≡ c.discovery
  pub result_base_dir : c'.base_dir ≡ c.base_dir

pub steps :
    (H : Machine) (base_dir : Text) (c c' : Config)
    → normalize_and_validate H base_dir c ≡ ok c'
    → Steps H base_dir c c'
unfolding normalize_and_validate
steps H base_dir c c' h =
    let (u₁, e₁, h₁) = >>=-eq-ok (check_identifier c.identifier) _ h in
    let (u₂, e₂, h₂) = >>=-eq-ok (check_any_context c.contexts) _ h₁ in
    let (u₃, e₃, h₃) = >>=-eq-ok (check_contexts H c.contexts) _ h₂ in
    let (u₄, e₄, h₄) = >>=-eq-ok (check_deployments H c.contexts c.deployments) _ h₃ in
    let (explicit, e₅, h₅) = >>=-eq-ok (check_stacks H c.contexts c.stacks) _ h₄ in
    let c₁ : Config = record c { stacks = explicit } in
    let (maps, e₆, h₆) =
      >>=-eq-ok (normalize_stacks H base_dir (get_all_stacks c₁) (explicit, c.discovered_stacks)) _
        h₅ in
    let (sops, e₇, h₇) = >>=-eq-ok (sops_checked c.sops) _ h₆ in
    let found =
      merge_filesets (get_all_stacks (with_maps H base_dir c₁ maps)) c.discovered_filesets in
    let (filesets, e₈, h₈) =
      >>=-eq-ok (validate_filesets H.is_abs (resolved H base_dir) base_dir found) _ h₇ in
    record {
      explicit = explicit;
      maps = maps;
      filesets = filesets;
      identified = e₁;
      some_context = e₂;
      contexts_checked = e₃;
      deployments_checked = e₄;
      stacks_checked = e₅;
      stacks_normalized = e₆;
      filesets_valid = e₈;
      result_stacks = ground (arith, h₈);
      result_discovered = ground (arith, h₈);
      result_filesets = ground (arith, h₈);
      result_contexts = ground (arith, h₈);
      result_discovery = ground (arith, h₈);
      result_base_dir = ground (arith, h₈);
    }

-- The manifest is named, it declares a context, each context has a key of the right characters and
-- no blank host, deployments refer to declared contexts and to keys of stacks within them, and the
-- explicit stacks have such keys, with names of the right characters.
abbrev pub Accepted : Config → Type 0
Accepted c =
    ((trim_space c.identifier == []) ≡ false)
    × (c.contexts ≢ [])
    × All (λ e. context_fine e ≡ true) c.contexts
    × All (λ e. Refers c.contexts e.1) c.deployments
    × All (StackKeyFine c.contexts) c.stacks

any_context : (d : Dict Text ContextConfig) → check_any_context d ≡ ok tt → d ≢ []
any_context [] h = λ e. ground (arith, h)
any_context (x ∷ d) h = λ e. ground (arith, e)

-- A configuration that is accepted has a name, a context and only good keys of contexts, refers
-- only to contexts that it declares, and comes out with filesets that each have a source and a
-- volume, an absolute target path, a known mode, a good ownership and a resolved source.
pub normalize_and_validate-Accepted :
    (H : Machine) (base_dir : Text) (c c' : Config)
    → normalize_and_validate H base_dir c ≡ ok c'
    → Accepted c
      × All (λ e. IsValid H.is_abs (resolved H base_dir) base_dir e.1) c'.discovered_filesets
normalize_and_validate-Accepted H base_dir c c' h =
    let s = steps H base_dir c c' h in
    let (same, valid) =
      validate_filesets-IsValid H.is_abs (resolved H base_dir) base_dir _ s.filesets
        s.filesets_valid in
    (
      (
        ground (arith, s.identified),
        any_context c.contexts s.some_context,
        check_contexts-fine H c.contexts s.contexts_checked,
        check_deployments-Refers H c.contexts c.deployments s.deployments_checked,
        check_stacks-StackKeyFine H c.contexts c.stacks s.explicit s.stacks_checked,
      ),
      subst (λ d. All (λ e. IsValid H.is_abs (resolved H base_dir) base_dir e.1) d)
          (sym s.result_filesets) valid,
    )
