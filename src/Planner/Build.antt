-- ===== src/Planner/Build.antt =====
-- internal/planner/build_plan.go: `BuildPlan`, the plan of every context, with clients that are not
-- nil. Each context has a daemon of its own, in the state that `states` gives.
-- `aggregateContextPlan` of build_plan_filesets.go, the types of types.go.
pub mod Stacks
pub mod Filesets
pub mod Context
pub mod Shown
pub mod Arrivals
pub mod Sent
pub mod Compared
pub mod Indexed
pub mod Wanted
pub mod Parts
pub mod Agrees
pub mod Tests
use dockform.Base.{
  Bool, Option, none, some, List, [], ◌∷◌, ◌++◌, ◌&&◌, if◌then◌else◌, is_empty, not,
}
use dockform.Base.Text.{Text, codes, text_eq}
use dockform.Base.Dict.{Dict, lookup, insert, keys}
use dockform.Base.Sort.{sort_by}
use dockform.Base.Result.{Result, ok, err, ◌>>=◌}
use dockform.Apperr.{Err}
use dockform.Manifest.Types.{Config}
use dockform.Manifest.Key.{make_stack_key}
use dockform.Filesets.Local.{Disk}
use dockform.Planner.Client.{Daemon}
use dockform.Planner.ServiceState.{Host}
use dockform.Planner.Resource.{Resource, noop, volume, new_resource, ResourcePlan}
use dockform.Planner.Prune.{ContextExecutionContext}
use dockform.Planner.Build.Stacks.{Building}
use dockform.Planner.Build.Context.{Schedule, no_plan, build_context_plan}

pub record ContextPlan : Type 0 where
  pub context_name : Text
  pub identifier : Text
  pub resources : ResourcePlan

-- `ExecutionContext` holds the execution contexts by the names of the contexts.
pub record Plan : Type 0 where
  pub by_context : Dict Text ContextPlan
  pub resources : ResourcePlan
  pub execution_context : Dict Text ContextExecutionContext

unfoldable pub get_context_execution_context : Plan → Text → Option ContextExecutionContext
get_context_execution_context p context = lookup context p.execution_context

unfoldable pub get_context_names : Plan → List Text
get_context_names p = sort_by (λ k. k) (keys p.by_context)

-- The stacks of a context under their full keys; a later entry of a key wins.
unfoldable pub put_stacks :
    Text → Dict Text (List Resource) → Dict Text (List Resource) → Dict Text (List Resource)
put_stacks context [] m = m
put_stacks context ((name, rs) ∷ d) m =
    put_stacks context d (insert (make_stack_key context name) rs m)

unfoldable pub put_filesets :
    Dict Text (List Resource) → Dict Text (List Resource) → Dict Text (List Resource)
put_filesets [] m = m
put_filesets ((name, rs) ∷ d) m = put_filesets d (insert name rs m)

unfoldable pub aggregate_context_plan : ResourcePlan → ContextPlan → ResourcePlan
unfolding put_stacks put_filesets
aggregate_context_plan all c =
    let dp = c.resources in
    record {
      volumes = all.volumes ++ dp.volumes;
      networks = all.networks ++ dp.networks;
      stacks = put_stacks c.context_name dp.stacks all.stacks;
      filesets = put_filesets dp.filesets all.filesets;
      containers = all.containers ++ dp.containers;
    }

abbrev has_no_resources : ResourcePlan → Bool
has_no_resources p =
    is_empty p.volumes
    && is_empty p.networks
    && is_empty p.stacks
    && is_empty p.filesets
    && is_empty p.containers

abbrev nothing_to_do : ResourcePlan → ResourcePlan
nothing_to_do p =
    if has_no_resources p
    then record p {
      volumes =
          p.volumes
          ++ (new_resource volume (codes "nothing to do") noop (codes "nothing to do") ∷ []);
    }
    else p

abbrev pub empty_plan : Plan
empty_plan = record { by_context = []; resources = no_plan; execution_context = [] }

abbrev pub add_context : Config → Text → Building → Plan → Plan
add_context cfg context b p =
    let c : ContextPlan = record {
      context_name = context;
      identifier = cfg.identifier;
      resources = b.plan;
    } in
    record {
      by_context = insert context c p.by_context;
      resources = aggregate_context_plan p.resources c;
      execution_context = insert context b.exec p.execution_context;
    }

module _ (D : Daemon) (H : Host) (disk : Disk) (parallel : Bool) (run : Text → Schedule)
    (cfg : Config) (states : Text → D.State) where
  -- The first error ends it.
  unfoldable pub plan_contexts : List Text → Plan → Result Err Plan
  unfolding build_context_plan aggregate_context_plan
  plan_contexts [] p = ok p
  plan_contexts (context ∷ contexts) p =
      build_context_plan D H disk parallel (run context) cfg context (states context) >>= λ b.
      plan_contexts contexts (add_context cfg context b p)

  unfoldable pub build_plan : Result Err Plan
  unfolding plan_contexts
  build_plan = plan_contexts (sort_by (λ k. k) (keys cfg.contexts)) empty_plan >>= λ p.
      ok (record p { resources = nothing_to_do p.resources })
