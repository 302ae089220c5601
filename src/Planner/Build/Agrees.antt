-- ===== src/Planner/Build/Agrees.antt =====
-- internal/planner/build_plan.go, apply.go: an apply of a plan that asks for nothing.
use dockform.Base.{
  ℕ, ◌≡◌, refl, sym, ◌∙◌, ap, Bool, true, false, none, some, List, [], ◌∷◌, ◌==◌, arith, any_of,
  contains, contains-set_of, set_of, is_empty, All, All-map, Distinct, Bool-cases, Option-cases,
  inl, inr,
}
use mathlib.Core.Path.{subst}
use dockform.Base.Text.{Text, text_eq}
use dockform.Base.Dict.{Dict, lookup, keys}
use dockform.Base.Maps.{SameMap, lookup-any_of}
use dockform.Base.Result.{Result, ok, err, >>=-eq-ok}
use dockform.Apperr.{Err}
use dockform.Manifest.Types.{Stack, FilesetSpec, Config}
use dockform.Manifest.Merge.{get_stacks_for_context, get_filesets_for_context}
use dockform.Filesets.Local.{Disk}
use dockform.Planner.Client.{Daemon, World}
use dockform.Planner.ServiceState.{Host, build_inline_env, needs_apply}
use dockform.Planner.ServiceState.Detect.{detect_all_services_state}
use dockform.Planner.ServiceState.Parallel.{detect_all_services_state-none}
use dockform.Planner.Resource.{Resource, network}
use dockform.Planner.Resource.Tally.{pending}
use dockform.Planner.Prune.{
  StackExecutionData, ContextExecutionContext, desired_volumes, desired_networks,
}
use dockform.Planner.Run.{return, ask, given, wrapping, ◌>>=◌}
use dockform.Planner.Apply.{apply_context}
use dockform.Planner.Apply.Quiet.{SettledStack, SettledFileset, apply_context-Settled}
use dockform.Planner.Build.Stacks.{Building, wrapped, analyse_stack, sequential_op}
use dockform.Planner.Build.Shown.{kept, analysed, StackShown}
use dockform.Planner.Build.Filesets.{file_resources}
use dockform.Planner.Build.Compared.{FilesetShown, pending-file_resources}
use dockform.Planner.Build.Wanted.{
  asks, constructive, constructive-needs_apply, any_of-append_left, plan_wanted-exist,
  plan_volumes-exist,
}
use dockform.Planner.Build.Parts.{build_context_plan-PlanParts}
use dockform.Planner.Build.Context.{Schedule, plan_wanted, resources_of, build_context_plan}

-- What an analysis that succeeds consists of.
pub record Analysis (D : Daemon) (H : Host) (cfg : Config) (order : Text → List ℕ) (s : D.State)
    (name : Text) (stack : Stack) (x : StackExecutionData) : Type 0 where
  pub inline_ok : build_inline_env H stack cfg.sops ≡ ok x.inline_env
  pub services_ok :
      detect_all_services_state D H (some (order name)) name stack cfg.identifier cfg.sops s
      ≡ ok x.services
  pub decided : x.needs_apply ≡ needs_apply x.services

unwrapped :
    {A : Type 0} (op msg : Text) (r : Result Err A) (a : A) → wrapped op msg r ≡ ok a → r ≡ ok a
unwrapped op msg (ok x) a e = e
unwrapped op msg (err x) a e = cc

module _ (D : Daemon) (H : Host) (cfg : Config) (context : Text) (order : Text → List ℕ)
    (s : D.State) where
  analysed-Analysis :
      (name : Text) (stack : Stack) (x : StackExecutionData)
      → analysed D H cfg.sops cfg.identifier context order s name stack ≡ ok x
      → Analysis D H cfg order s name stack x
  unfolding analyse_stack
  analysed-Analysis name stack x e =
      let (inline, i, rest) =
        >>=-eq-ok (wrapped sequential_op _ (build_inline_env H stack cfg.sops)) _ e in
      let (services, d, last) =
        >>=-eq-ok
          (wrapped sequential_op _ (
            detect_all_services_state D H (some (order name)) name stack cfg.identifier cfg.sops s))
          _ rest in
      let made : StackExecutionData = record {
        services = services;
        inline_env = inline;
        needs_apply = needs_apply services;
      } in
      let same : made ≡ x = cc in
      subst (λ y. Analysis D H cfg order s name stack y) same
        (record {
          inline_ok = unwrapped sequential_op _ (build_inline_env H stack cfg.sops) inline i;
          services_ok = unwrapped sequential_op _ _ services d;
          decided = refl;
        })

module _ (D : Daemon) (H : Host) (disk : Disk) (cfg : Config) (context : Text)
    (order order' : Text → List ℕ) (w : World D) where
  -- A stack of which the plan asks nothing is settled, whatever the order of its services.
  quiet-SettledStack :
      (exec : ContextExecutionContext) (built : Building) (name : Text) (stack : Stack)
      → exec.stacks ≡ built.exec.stacks
      → any_of constructive (resources_of (lookup name built.plan.stacks)) ≡ false
      → StackShown D H cfg.sops cfg.identifier context order w.state built name stack
      → SettledStack {D = D} H disk order' cfg context (some exec) w (name, stack)
  unfolding return ask given wrapping ◌>>=◌
  quiet-SettledStack exec built name stack same quiet sh =
      let x = sh.data' in
      let parts = analysed-Analysis D H cfg context order w.state name stack x sh.analysis in
      let found : lookup name exec.stacks ≡ kept x = ap (lookup name) same ∙ sh.in_exec in
      elim (Bool-cases (is_empty x.services)) [
        | inl bare ↦
            let absent : lookup name exec.stacks ≡ none = found ∙ rw bare refl in
            let nothing =
              detect_all_services_state-none D H (order name) (order' name) name stack
                cfg.identifier cfg.sops w.state x.services parts.services_ok bare in
            (
              record { services = []; inline_env = x.inline_env; needs_apply = needs_apply [] },
              rw (absent, nothing, parts.inline_ok) refl,
              refl,
            )
        | inr full ↦
            let there : lookup name exec.stacks ≡ some x = found ∙ rw full refl in
            let idle : x.needs_apply ≡ false =
              parts.decided
              ∙ sym (constructive-needs_apply x.services)
              ∙ ground (arith, quiet, sh.in_plan, full) in
            (x, rw there refl, ground (arith, idle))
      ]

  quiet-SettledFileset :
      (b : Building) (vols : List Text) (name : Text) (fs : FilesetSpec)
      → any_of (λ e. any_of pending e.1) b.plan.filesets ≡ false
      → (fs.source_abs == []) ≡ false
      → FilesetShown b name
      → SettledFileset {D = D} H disk order' cfg context (some b.exec) w vols (name, fs)
  unfolding return
  quiet-SettledFileset b vols name fs quiet set sh =
      let d = sh.data' in
      let idle =
        lookup-any_of (any_of pending) name (file_resources d) b.plan.filesets quiet sh.in_plan in
      (
        record { local = d.local_index; remote = d.remote_index; diff = d.diff },
        rw sh.in_exec refl,
        set,
        ground (arith, pending-file_resources d, idle),
      )

All-both {ℓ κ μ ν} :
    {A : Type ℓ} (P : A → Type κ) (Q : A → Type μ) (R : A → Type ν)
    → ((a : A) → P a → Q a → R a)
    → (xs : List A) → All P xs
    → All Q xs
    → All R xs
All-both P Q R f [] ps qs = tt
All-both P Q R f (x ∷ xs) ps qs = (f x ps.0 qs.0, All-both P Q R f xs ps.1 qs.1)

quiet_at :
    (k : Text) (m : Dict Text (List Resource))
    → any_of (λ e. any_of constructive e.1) m ≡ false
    → any_of constructive (resources_of (lookup k m)) ≡ false
quiet_at k m quiet = elim (Option-cases (lookup k m)) [
  | inl absent ↦ ground (arith, absent)
  | inr (rs, there) ↦ ground (arith, there, lookup-any_of (any_of constructive) k rs m quiet there)
]

module _ (D : Daemon) (H : Host) (disk : Disk) (parallel : Bool) (run : Schedule) (cfg : Config)
    (context : Text) (order : Text → List ℕ) (w : World D) where
  -- What the plan does not ask for, an apply does not do. Let the plan of a context succeed, on the
  -- daemon as it stands, with each stack and each fileset arriving once on its channel, and let the
  -- plan create and update no volume, no network and no service and change no file. Then an apply
  -- of the context with the data of the plan, in which each fileset has a source, succeeds and
  -- makes no call, whatever the order in which the services are detected.
  pub build_context_plan-apply_context :
      (b : Building)
      → ((d : Dict Text Stack) → Distinct (keys d) → SameMap (run.stack_arrivals d) d)
      → ((d : Dict Text FilesetSpec) → Distinct (keys d) → SameMap (run.fileset_arrivals d) d)
      → All
          (λ (e : Text × FilesetSpec). (e.1.source_abs == []) ≡ false)
          (get_filesets_for_context cfg context)
      → build_context_plan D H disk parallel run cfg context w.state ≡ ok b
      → asks b.plan ≡ false
      → apply_context H disk order cfg context (some b.exec) w ≡ (ok tt, w)
  unfolding return
  build_context_plan-apply_context b arrive arrive' sources planned quiet =
      let p =
        build_context_plan-PlanParts D H disk parallel run cfg context w.state b arrive arrive'
          planned in
      let wanted_volumes : (n : Text)
          → contains (desired_volumes cfg context) n ≡ true
          → contains p.listed.all_volumes n ≡ true =
        λ n there. ground (
          arith,
          plan_volumes-exist cfg.targeted p.volumes (desired_volumes cfg context)
              (ap (any_of constructive) (sym p.rest.volumes) ∙ ground (arith, quiet)) n there,
          p.listed.volume_set,
          contains-set_of p.listed.all_volumes [] n,
        ) in
      let wanted_networks : (n : Text)
          → contains (desired_networks cfg context) n ≡ true
          → contains b.exec.existing_networks n ≡ true =
        λ n there.
          ap (λ l. contains l n) p.rest.existing_networks
          ∙ plan_wanted-exist network p.networks (desired_networks cfg context)
              (any_of-append_left constructive
                (plan_wanted network p.networks (desired_networks cfg context)) p.orphans
                (ap (any_of constructive) (sym p.rest.networks) ∙ ground (arith, quiet)))
              n there in
      let stacks_quiet : any_of (λ e. any_of constructive e.1) b.plan.stacks ≡ false =
        ground (arith, quiet) in
      let filesets_quiet : any_of (λ e. any_of pending e.1) b.plan.filesets ≡ false =
        ground (arith, quiet) in
      apply_context-Settled H disk order cfg context (some b.exec) w p.listed.all_volumes
        b.exec.existing_networks p.listed.volumes_ok wanted_volumes refl wanted_networks
        (All-both (λ (e : Text × FilesetSpec). (e.1.source_abs == []) ≡ false)
          (λ (e : Text × FilesetSpec). FilesetShown b e.0)
          (SettledFileset {D = D} H disk order cfg context (some b.exec) w
            (set_of p.listed.all_volumes []))
          (λ e set shown.
            quiet-SettledFileset D H disk cfg context run.service_order order w b
              (set_of p.listed.all_volumes []) e.0 e.1 filesets_quiet set shown)
          (get_filesets_for_context cfg context) sources p.filesets_shown)
        (All-map
          (λ (e : Text × Stack).
            StackShown D H cfg.sops cfg.identifier context run.service_order w.state p.built e.0
              e.1)
          (SettledStack {D = D} H disk order cfg context (some b.exec) w)
          (λ e shown.
            quiet-SettledStack D H disk cfg context run.service_order order w b.exec p.built e.0 e.1
              p.data' (sym (p.asked e.0) ∙ quiet_at e.0 b.plan.stacks stacks_quiet) shown)
          (get_stacks_for_context cfg context) p.stacks_shown)
