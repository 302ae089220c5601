-- ===== src/Planner/Contexts/Tests.antt =====
-- Two contexts whose daemons are as they are wanted, and the theorems at them.
use dockform.Base.Trim.{trim_space}
use dockform.Base.{
  Option, ◌≡◌, refl, inl, inr, Bool, true, false, none, some, [], ◌∷◌, ◌==◌, if◌then◌else◌,
  contains, Distinct, All, any_of, is_some, set_of, arith, Bool-cases,
}
use dockform.Base.Text.{Text, codes, text_eq, text_beq, text_ltb, decimal}
use dockform.Base.Dict.{keys}
use dockform.Base.Sort.{sort_by}
use dockform.Base.Cut.{cut}
use dockform.Base.Result.{Result, ok, err}
use dockform.Apperr.{Err, plain, aggregate}
use dockform.Manifest.Types.{Config, FilesetSpec}
use dockform.Manifest.Key.{parse_stack_key}
use dockform.Manifest.Merge.{
  get_filesets_for_context, filesets_of, get_all_filesets, copy_all, stacks_of, get_all_stacks,
  merge_explicit, get_stacks_for_context,
}
use dockform.Planner.Tests.{host, prod}
use dockform.Planner.Build.{Plan, ContextPlan, empty_plan, build_plan}
use dockform.Planner.Build.Tests.{yard, disk, one_stack, schedule, calm}
use dockform.Filesets.Local.{build_local_index, parse_index_json}
use dockform.Planner.Prune.{CleanupOptions, desired_volumes, desired_networks}
use dockform.Planner.Resource.{service_states_to_resources}
use dockform.Planner.ServiceState.{build_inline_env, get_planned_services, get_running_services}
use dockform.Planner.ServiceState.Detect.{
  detect_all_services_state, place_values, detect_all_parallel, detect_service_state_fast,
}
use dockform.Planner.Build.Stacks.{build_parallel, collect_desired_services}
use dockform.Planner.Build.Filesets.{build_filesets}
use dockform.Planner.Build.Context.{plan_volumes}
use dockform.Planner.Build.Wanted.{asks}
use dockform.Planner.Orchestrate.{run_to_completion}
use dockform.Planner.Contexts.{
  Worlds, execute_across, apply_run, apply_with_plan, destroy_with_options,
}
use dockform.Planner.Contexts.Safe.{targeted_scope, destroy_with_options-Scoped}
use dockform.Planner.Destroy.{new_destroy_scope}
use dockform.Planner.Destroy.Scope.{Scoped}
use dockform.Planner.Client.{World}
use dockform.Planner.Contexts.Alone.{alone, fails}
use dockform.Planner.Contexts.Completed.{execute_across-alone}
use dockform.Planner.Contexts.Quiet.{build_plan-apply_with_plan}

abbrev lab : Text
lab = codes "lab"

abbrev calm_worlds : Worlds yard
calm_worlds _ = calm

-- What a cancelled operation might do: fail.
abbrev killed : Text → World yard → Option Err × World yard
killed context w = (some (plain (codes "signal: killed")), w)

abbrev plan_or_empty : Result Err Plan → Plan
plan_or_empty (ok p) = p
plan_or_empty (err e) = empty_plan

abbrev calm_plan : Plan
calm_plan = plan_or_empty (build_plan yard host disk true (λ _. schedule) one_stack (λ _. tt))

planned : build_plan yard host disk true (λ _. schedule) one_stack (λ _. tt) ≡ ok calm_plan
unfolding build_plan get_filesets_for_context filesets_of get_all_filesets copy_all stacks_of
    get_all_stacks merge_explicit get_stacks_for_context cut parse_stack_key text_beq text_ltb
    sort_by aggregate build_parallel build_inline_env detect_all_services_state get_planned_services
    collect_desired_services build_filesets build_local_index set_of parse_index_json place_values
    detect_all_parallel trim_space
planned = refl

calm_asks_nothing :
    All (λ (e : Text × ContextPlan). asks e.1.resources ≡ false) calm_plan.by_context
unfolding build_plan get_filesets_for_context filesets_of get_all_filesets copy_all stacks_of
    get_all_stacks merge_explicit get_stacks_for_context cut parse_stack_key text_beq text_ltb
    sort_by aggregate build_parallel build_inline_env detect_all_services_state get_planned_services
    collect_desired_services build_filesets build_local_index set_of parse_index_json place_values
    detect_all_parallel plan_volumes desired_volumes desired_networks service_states_to_resources
    detect_service_state_fast get_running_services decimal trim_space
calm_asks_nothing = (refl, (refl, tt))

sources :
    (k : Text)
    → contains (keys one_stack.contexts) k ≡ true
    → All
        (λ (e : Text × FilesetSpec). (e.1.source_abs == []) ≡ false)
        (get_filesets_for_context one_stack k)
unfolding get_filesets_for_context filesets_of get_all_filesets copy_all text_beq
sources k h = elim (Bool-cases (prod == k)) [
  | inl here ↦ rw here (refl, tt)
  | inr other ↦ rw other tt
]

once : Distinct (lab ∷ prod ∷ [])
unfolding text_beq
once = (refl, (refl, tt))

same : (k : Text) → contains (lab ∷ prod ∷ []) k ≡ contains (keys one_stack.contexts) k
same k = ground arith

build_plan-apply_with_plan_example :
    (is_some
        (apply_with_plan killed
          (λ _. none)
          (λ _. true)
          host
          disk
          (λ _. [])
          one_stack
          (some calm_plan)
          true
          (lab ∷ prod ∷ [])
          calm_worlds).0
      ≡ false)
    × ((apply_with_plan killed
            (λ _. none)
            (λ _. true)
            host
            disk
            (λ _. [])
            one_stack
            (some calm_plan)
            true
            (lab ∷ prod ∷ [])
            calm_worlds).1
          prod
        ≡ calm)
build_plan-apply_with_plan_example =
    build_plan-apply_with_plan host disk true (λ _. schedule) one_stack (λ _. []) calm_worlds
      calm_plan (λ k d u. record { once = u; same = λ k. refl })
      (λ k d u. record { once = u; same = λ k. refl }) sources planned calm_asks_nothing killed
      (λ _. none) (λ _. true) (lab ∷ prod ∷ []) prod refl once same (λ k h. refl)

-- Without a client for one context, the other one is applied all the same.
abbrev only_prod : Text → Bool
only_prod name = name == prod

abbrev prod_run : Bool → Text → World yard → Option Err × World yard
prod_run = apply_run killed host disk (λ _. []) one_stack none

execute_across-alone_example :
    (is_some
        (execute_across
          (λ _. none)
          only_prod
          (codes "planner.Apply")
          prod_run
          one_stack
          run_to_completion
          true
          (lab ∷ prod ∷ [])
          calm_worlds).0
      ≡ any_of (λ k. fails only_prod prod_run k calm) (keys one_stack.contexts))
    × ((execute_across
            (λ _. none)
            only_prod
            (codes "planner.Apply")
            prod_run
            one_stack
            run_to_completion
            true
            (lab ∷ prod ∷ [])
            calm_worlds).1
          prod
        ≡ (if contains (keys one_stack.contexts) prod
            then alone only_prod prod_run prod calm
            else calm))
execute_across-alone_example =
    execute_across-alone (λ _. none) only_prod (codes "planner.Apply") prod_run one_stack
      calm_worlds (lab ∷ prod ∷ []) prod refl once same

abbrev strict : CleanupOptions
strict = record { strict = true; verbose_errors = false }

abbrev narrowed : Config
narrowed = record one_stack { targeted = true }

destroy_with_options-Scoped_example :
    All
      (Scoped yard prod narrowed (new_destroy_scope narrowed) (targeted_scope narrowed refl))
      ((destroy_with_options killed
          (λ _. none)
          (λ _. true)
          true
          narrowed
          strict
          true
          (lab ∷ prod ∷ [])
          calm_worlds).1
        prod).calls
destroy_with_options-Scoped_example =
    destroy_with_options-Scoped killed (λ _. none) (λ _. true) true narrowed strict calm_worlds
      (lab ∷ prod ∷ []) prod refl refl once same tt
