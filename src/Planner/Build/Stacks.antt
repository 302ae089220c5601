-- ===== src/Planner/Build/Stacks.antt =====
-- internal/planner/build_plan_stacks.go: the stacks of a context's plan, one by one or in parallel,
-- with a client that is not nil. The parallel results come in the order of `arrivals`, the entries of
-- the stacks in the order in which the channel has them.
use dockform.Base.{ℕ, Option, none, some, List, [], ◌∷◌, ◌++◌, if◌then◌else◌, is_empty}
use dockform.Base.Text.{Text, codes, text_eq}
use dockform.Base.Dict.{Dict, insert}
use dockform.Base.Sort.{sort_by}
use dockform.Base.Result.{Result, ok, err, ◌>>=◌}
use dockform.Apperr.{Err, external, wrap, aggregate}
use dockform.Manifest.Types.{Stack, SopsConfig}
use dockform.Planner.Client.{Daemon}
use dockform.Planner.ServiceState.{
  Host, ServiceInfo, build_inline_env, get_planned_services, needs_apply,
}
use dockform.Planner.ServiceState.Detect.{detect_all_services_state}
use dockform.Planner.Resource.{
  Resource, service, noop, new_resource, service_states_to_resources, ResourcePlan,
}
use dockform.Planner.Prune.{StackExecutionData, ContextExecutionContext}

-- The plan of a context as it is built, with the data for the later steps.
pub record Building : Type 0 where
  pub plan : ResourcePlan
  pub exec : ContextExecutionContext

abbrev pub wrapped : {A : Type 0} → Text → Text → Result Err A → Result Err A
wrapped op msg (ok a) = ok a
wrapped op msg (err e) = err (wrap op external e msg)

abbrev pub fallback_stack_resource : List Resource
fallback_stack_resource =
    new_resource service (codes "services") noop (codes "planned (services diff TBD)") ∷ []

abbrev pub show_stack : Text → List Resource → Building → Building
show_stack name rs b = record b { plan = record b.plan { stacks = insert name rs b.plan.stacks } }

abbrev pub keep_stack : Text → StackExecutionData → Building → Building
keep_stack name d b = record b { exec = record b.exec { stacks = insert name d b.exec.stacks } }

-- A stack without services has no data for the later steps.
unfoldable pub add_stack_data : Text → StackExecutionData → Building → Building
add_stack_data name d b =
    if is_empty d.services
    then show_stack name fallback_stack_resource b
    else show_stack name (service_states_to_resources d.services) (keep_stack name d b)

abbrev pub sequential_op : Text
sequential_op = codes "planner.buildStackResourcesSequentialForContext"

abbrev pub parallel_op : Text
parallel_op = codes "planner.buildStackResourcesParallelForContext"

abbrev pub Collected : Type 0
Collected = Building × List (Option Err)

-- What a goroutine sends; `exec_data` is nil for a stack without services.
pub record StackResult : Type 0 where
  pub resources : List Resource
  pub exec_data : Option StackExecutionData
  pub err : Option Err

abbrev pub keep_data : Text → Option StackExecutionData → Building → Building
keep_data name none b = b
keep_data name (some d) b = keep_stack name d b

abbrev pub collect_err : Option Err → List (Option Err) → List (Option Err)
collect_err none errs = errs
collect_err (some e) errs = errs ++ (some e ∷ [])

unfoldable pub collect_result : Text → StackResult → Collected → Collected
collect_result name result (b, errs) = (
  keep_data name result.exec_data (show_stack name result.resources b),
  collect_err result.err errs,
)

abbrev pub failed_analysis : Err → Text → StackResult
failed_analysis e msg = record {
  resources = fallback_stack_resource;
  exec_data = none;
  err = some (wrap parallel_op external e msg);
}

abbrev pub finish_results : Collected → Result Err Building
finish_results (b, errs) =
    elim (aggregate parallel_op external (codes "one or more stack analyses failed") errs) [
      | none ↦ ok b
      | some e ↦ err e
    ]

module _ (D : Daemon) (H : Host) (sops : Option SopsConfig) (identifier context : Text)
    (order : Text → List ℕ) where
  abbrev pub stack_message : Text → Text → Text
  stack_message msg name = msg ++ (codes " for stack " ++ (context ++ (codes "/" ++ name)))

  -- One turn of the sequential loop, up to the writes into the plan.
  unfoldable pub analyse_stack : Text → Stack → D.State → Result Err StackExecutionData
  analyse_stack name stack s =
      wrapped sequential_op (stack_message (codes "build inline env") name)
        (build_inline_env H stack sops)
      >>= λ inline.
          wrapped sequential_op (stack_message (codes "detect service state") name)
            (detect_all_services_state D H (some (order name)) name stack identifier sops s)
          >>= λ services. ok (record {
            services = services;
            inline_env = inline;
            needs_apply = needs_apply services;
          })

  abbrev pub services_detected : Text → List Text → Result Err (List ServiceInfo) → StackResult
  services_detected name inline (err e) =
      failed_analysis e (stack_message (codes "detect service state") name)
  services_detected name inline (ok services) =
      if is_empty services
      then record { resources = fallback_stack_resource; exec_data = none; err = none }
      else record {
        resources = service_states_to_resources services;
        exec_data = some (record {
          services = services;
          inline_env = inline;
          needs_apply = needs_apply services;
        });
        err = none;
      }

  abbrev pub inline_built : Text → Stack → D.State → Result Err (List Text) → StackResult
  inline_built name stack s (err e) =
      failed_analysis e (stack_message (codes "build inline env") name)
  inline_built name stack s (ok inline) =
      services_detected name inline
        (detect_all_services_state D H (some (order name)) name stack identifier sops s)

  -- The body of the goroutine of one stack.
  unfoldable pub stack_result : Text → Stack → D.State → StackResult
  stack_result name stack s = inline_built name stack s (build_inline_env H stack sops)

  unfoldable pub build_each : Dict Text Stack → D.State → Building → Result Err Building
  unfolding analyse_stack add_stack_data
  build_each [] s b = ok b
  build_each ((name, stack) ∷ d) s b =
      analyse_stack name stack s >>= λ data'. build_each d s (add_stack_data name data' b)

  -- In the order of the names; the first error ends it.
  unfoldable pub build_sequential : Dict Text Stack → D.State → Building → Result Err Building
  unfolding build_each
  build_sequential stacks s b = build_each (sort_by (λ e. e.0) stacks) s b

  unfoldable pub collect_results : Dict Text Stack → D.State → Collected → Collected
  unfolding stack_result collect_result
  collect_results [] s c = c
  collect_results ((name, stack) ∷ d) s c =
      collect_results d s (collect_result name (stack_result name stack s) c)

  unfoldable pub build_parallel : Dict Text Stack → D.State → Building → Result Err Building
  unfolding collect_results
  build_parallel arrivals s b = finish_results (collect_results arrivals s (b, []))

module _ (D : Daemon) (H : Host) (sops : Option SopsConfig) where
  -- The services of the stacks, or the first error.
  unfoldable pub collect_desired_services : Dict Text Stack → D.State → Result Err (List Text)
  collect_desired_services [] s = ok []
  collect_desired_services ((k, stack) ∷ d) s = build_inline_env H stack sops >>= λ inline.
      wrapped (codes "planner.collectDesiredServicesForContext")
        (codes "list planned services for stack " ++ stack.root)
        (get_planned_services D stack inline s)
      >>= λ names. collect_desired_services d s >>= λ rest. ok (names ++ rest)
