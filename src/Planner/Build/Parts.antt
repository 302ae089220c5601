-- ===== src/Planner/Build/Parts.antt =====
-- internal/planner/build_plan.go: the parts of a context's plan that succeeds.
use dockform.Base.{
  ◌≡◌, refl, sym, ◌∙◌, ap, Bool, true, false, List, [], arith, any_of, set_of, if◌then◌else◌, All,
  Distinct, Bool-cases, inl, inr,
}
use mathlib.Core.Path.{subst}
use dockform.Base.Text.{Text, text_eq}
use dockform.Base.Dict.{Dict, lookup, keys}
use dockform.Base.Maps.{SameMap, sorted-SameMap, All-SameMap}
use dockform.Base.Sort.{sort_by}
use dockform.Base.Result.{Result, ok, err, >>=-eq-ok}
use dockform.Apperr.{Err, aggregate}
use dockform.Manifest.Types.{Stack, FilesetSpec, Config}
use dockform.Manifest.Merge.{get_stacks_for_context, get_filesets_for_context}
use dockform.Manifest.Merge.Names.{
  get_stacks_for_context-Distinct, get_filesets_for_context-Distinct,
}
use dockform.Filesets.Local.{Disk}
use dockform.Planner.Client.{PsBrief, Daemon}
use dockform.Planner.ServiceState.{Host}
use dockform.Planner.Resource.{Resource}
use dockform.Planner.Prune.{desired_networks}
use dockform.Planner.Build.Stacks.{Building, build_each, build_sequential, collect_desired_services}
use dockform.Planner.Build.Shown.{
  SameRest, SameRest-trans, build_each-SameRest, build_each-StackShown, StackShown,
}
use dockform.Planner.Build.Arrivals.{parallel-each}
use dockform.Planner.Build.Compared.{FilesetShown}
use dockform.Planner.Build.Indexed.{build_filesets-FilesetShown}
use dockform.Planner.Build.Wanted.{constructive, constructive-add_deletions}
use dockform.Planner.Build.Context.{
  Schedule, get_existing, network_orphans, first_building, build_stacks, show_orphans,
  show_deletions, services_to_delete, resources_of, build_context_plan,
}

else_of {ℓ} :
    {A : Type ℓ} (test : Bool) (x y z : A) → test ≡ false → (if test then x else y) ≡ z → y ≡ z
else_of true x y z h e = cc
else_of false x y z h e = e

-- Both listings succeed, and become sets.
pub record Listed (vols nets : Result Err (List Text)) (volumes networks : List Text) : Type 0 where
  pub all_volumes : List Text
  pub all_networks : List Text
  pub volumes_ok : vols ≡ ok all_volumes
  pub networks_ok : nets ≡ ok all_networks
  pub volume_set : volumes ≡ set_of all_volumes []
  pub network_set : networks ≡ set_of all_networks []

get_existing-Listed :
    (first : Bool) (vols nets : Result Err (List Text)) (volumes networks : List Text)
    → get_existing first vols nets ≡ ok (volumes, networks)
    → Listed vols nets volumes networks
unfolding get_existing aggregate
get_existing-Listed true (ok vs) (ok ns) volumes networks e = record {
  all_volumes = vs;
  all_networks = ns;
  volumes_ok = refl;
  networks_ok = refl;
  volume_set = cc;
  network_set = cc;
}
get_existing-Listed false (ok vs) (ok ns) volumes networks e = record {
  all_volumes = vs;
  all_networks = ns;
  volumes_ok = refl;
  networks_ok = refl;
  volume_set = cc;
  network_set = cc;
}
get_existing-Listed true (ok vs) (err x) volumes networks e = cc
get_existing-Listed false (ok vs) (err x) volumes networks e = cc
get_existing-Listed true (err x) (ok ns) volumes networks e = cc
get_existing-Listed false (err x) (ok ns) volumes networks e = cc
get_existing-Listed true (err x) (err y) volumes networks e = cc
get_existing-Listed false (err x) (err y) volumes networks e = cc

-- The orphans add removals to the stacks, and nothing else.
pub record OrphansShown (a b : Building) : Type 0 where
  pub rest : SameRest a b
  pub data' : a.exec.stacks ≡ b.exec.stacks
  pub asked :
      (k : Text)
      → any_of constructive (resources_of (lookup k a.plan.stacks))
        ≡ any_of constructive (resources_of (lookup k b.plan.stacks))

show_deletions-OrphansShown :
    (desired : List Text) (all : Result Err (List PsBrief)) (b : Building)
    → OrphansShown (show_deletions desired all b) b
show_deletions-OrphansShown desired (err e) b = record {
  rest = record { volumes = refl; networks = refl; existing_networks = refl };
  data' = refl;
  asked = λ k. refl;
}
show_deletions-OrphansShown desired (ok all) b = record {
  rest = record { volumes = refl; networks = refl; existing_networks = refl };
  data' = refl;
  asked = λ k. constructive-add_deletions k (services_to_delete desired all []) b.plan.stacks;
}

unchanged : (b : Building) → OrphansShown b b
unchanged b = record {
  rest = record { volumes = refl; networks = refl; existing_networks = refl };
  data' = refl;
  asked = λ k. refl;
}

module _ (D : Daemon) (H : Host) (disk : Disk) (parallel : Bool) (run : Schedule) (cfg : Config)
    (context : Text) (s : D.State) where
  show_orphans-OrphansShown :
      (b b' : Building)
      → show_orphans D H disk parallel run cfg context s b ≡ ok b'
      → OrphansShown b' b
  unfolding show_orphans
  show_orphans-OrphansShown b b' e = elim (Bool-cases cfg.targeted) [
    | inl targeted ↦
        let same : b ≡ b' = ground (arith, e, targeted) in
        subst (λ x. OrphansShown x b) same (unchanged b)
    | inr every ↦
        let stacks = get_stacks_for_context cfg context in
        let (desired, d, last) =
          >>=-eq-ok (collect_desired_services D H cfg.sops stacks s) _
            (else_of cfg.targeted (ok b) _ (ok b') every e) in
        let same : show_deletions desired (D.list_compose_containers_all s) b ≡ b' = cc in
        subst (λ x. OrphansShown x b) same
          (show_deletions-OrphansShown desired (D.list_compose_containers_all s) b)
  ]

  -- The stacks, one by one or in parallel, in some order in which each stands once.
  build_stacks-each :
      ((d : Dict Text Stack) → Distinct (keys d) → SameMap (run.stack_arrivals d) d)
      → (b b' : Building) → build_stacks D H disk parallel run cfg context s b ≡ ok b'
      → (d : Dict Text Stack) × SameMap d (get_stacks_for_context cfg context)
        × (build_each D H cfg.sops cfg.identifier context run.service_order d s b ≡ ok b')
  unfolding build_stacks build_sequential
  build_stacks-each arrive b b' e =
      let stacks = get_stacks_for_context cfg context in
      let u = get_stacks_for_context-Distinct cfg context in
      elim (Bool-cases parallel) [
        | inl at_once ↦ (
          run.stack_arrivals stacks,
          arrive stacks u,
          parallel-each D H cfg.sops cfg.identifier context run.service_order s
              (run.stack_arrivals stacks) b b' (rw at_once at e),
        )
        | inr in_turn ↦ (sort_by (λ e. e.0) stacks, sorted-SameMap stacks u, rw in_turn at e)
      ]

  -- What a plan of the context consists of.
  pub record PlanParts (b : Building) : Type 0 where
    pub volumes : List Text
    pub networks : List Text
    pub orphans : List Resource
    pub listed : Listed (D.list_volumes s) (D.list_networks s) volumes networks
    pub built : Building
    pub rest : SameRest b (first_building cfg.targeted cfg context volumes networks orphans)
    pub data' : b.exec.stacks ≡ built.exec.stacks
    pub asked :
        (k : Text)
        → any_of constructive (resources_of (lookup k b.plan.stacks))
          ≡ any_of constructive (resources_of (lookup k built.plan.stacks))
    pub stacks_shown :
        All
          (λ (e : Text × Stack).
            StackShown D H cfg.sops cfg.identifier context run.service_order s built e.0 e.1)
          (get_stacks_for_context cfg context)
    pub filesets_shown :
        All (λ (e : Text × FilesetSpec). FilesetShown b e.0) (get_filesets_for_context cfg context)

  pub build_context_plan-PlanParts :
      (b : Building)
      → ((d : Dict Text Stack) → Distinct (keys d) → SameMap (run.stack_arrivals d) d)
      → ((d : Dict Text FilesetSpec) → Distinct (keys d) → SameMap (run.fileset_arrivals d) d)
      → build_context_plan D H disk parallel run cfg context s ≡ ok b
      → PlanParts b
  unfolding build_context_plan
  build_context_plan-PlanParts b arrive arrive' e =
      let stacks = get_stacks_for_context cfg context in
      let specs = get_filesets_for_context cfg context in
      let (existing, g, rest₁) =
        >>=-eq-ok (get_existing run.networks_first (D.list_volumes s) (D.list_networks s)) _ e in
      let (orphans, o, rest₂) =
        >>=-eq-ok (network_orphans D cfg.targeted existing.1 (desired_networks cfg context) s) _
          rest₁ in
      let first = first_building cfg.targeted cfg context existing.0 existing.1 orphans in
      let (b₁, st, rest₃) =
        >>=-eq-ok (build_stacks D H disk parallel run cfg context s first) _ rest₂ in
      let (b₂, so, last) =
        >>=-eq-ok (show_orphans D H disk parallel run cfg context s b₁) _ rest₃ in
      let (d, m, each) = build_stacks-each arrive first b₁ st in
      let shown = show_orphans-OrphansShown b₁ b₂ so in
      let (files, untouched) =
        build_filesets-FilesetShown D disk (run.fileset_arrivals specs) specs existing.0 s b₂ b
          (arrive' specs (get_filesets_for_context-Distinct cfg context))
          (get_filesets_for_context-Distinct cfg context) last in
      record {
        volumes = existing.0;
        networks = existing.1;
        orphans = orphans;
        listed = get_existing-Listed run.networks_first _ _ existing.0 existing.1 g;
        built = b₁;
        rest = SameRest-trans untouched.rest (
            SameRest-trans shown.rest (
              build_each-SameRest D H cfg.sops cfg.identifier context run.service_order s d first b₁
                each));
        data' = untouched.data' ∙ shown.data';
        asked = λ k.
            ap (λ m. any_of constructive (resources_of (lookup k m))) untouched.stacks
            ∙ shown.asked k;
        stacks_shown =
            All-SameMap
              (λ (e : Text × Stack).
                StackShown D H cfg.sops cfg.identifier context run.service_order s b₁ e.0 e.1)
              d stacks (λ k. sym (m.same k)) (get_stacks_for_context-Distinct cfg context)
              (build_each-StackShown D H cfg.sops cfg.identifier context run.service_order s d first
                b₁ m.once (λ k _. refl) each);
        filesets_shown = files;
      }
