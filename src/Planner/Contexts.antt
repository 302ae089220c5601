-- ===== src/Planner/Contexts.antt =====
-- internal/planner/orchestrate.go: `ExecuteAcrossContextsMode`, and what runs in it to completion: `ApplyWithPlan` of apply.go (`Apply` has no plan),
-- `PruneWithPlanOptions` of prune.go and `DestroyWithOptions` of destroy.go. Each context has a
-- daemon of its own, so that goroutines which run at once are as ones that run one after another,
-- in the order in which they finish.
pub mod Alone
pub mod Completed
pub mod Quiet
pub mod Safe
mod Tests
use dockform.Base.{
  ℕ, Bool, true, false, not, ◌||◌, Option, none, some, List, [], ◌∷◌, ◌++◌, ◌==◌, if◌then◌else◌,
  length, nat_beq,
}
use dockform.Base.Text.{Text, codes, text_eq}
use dockform.Base.Sort.{sort_by}
use dockform.Base.Dict.{keys}
use dockform.Base.Result.{Result, ok, err}
use dockform.Apperr.{Err, new, precondition}
use dockform.Manifest.Types.{Config}
use dockform.Manifest.Merge.{get_all_filesets}
use dockform.Filesets.Local.{Disk}
use dockform.Planner.Client.{Daemon, World}
use dockform.Planner.ServiceState.{Host}
use dockform.Planner.Prune.{
  ContextExecutionContext, CleanupOptions, handle_cleanup_error, prune_context,
}
use dockform.Planner.Destroy.{volume_to_fileset, new_destroy_scope, destroy_context}
use dockform.Planner.Apply.{apply_context}
use dockform.Planner.Build.{Plan, get_context_execution_context}
use dockform.Planner.Orchestrate.{
  ContextResult, ExecutionMode, fail_fast, run_to_completion, execute_sequential, execute_parallel,
}

-- The daemon of each context, with the calls made on it.
abbrev pub Worlds : Daemon → Type 0
Worlds D = Text → World D

abbrev pub exec_of : Option Plan → Text → Option ContextExecutionContext
exec_of none context = none
exec_of (some p) context = get_context_execution_context p context

abbrev pub error_of : Result Err (Unit {0}) → Option Err
error_of (ok _) = none
error_of (err e) = some e

module _ {D : Daemon} where
  abbrev pub put_world : Text → World D → Worlds D → Worlds D
  put_world context w ws name = if name == context then w else ws name

-- `cancelled` is what the context of the caller says, `available` whether there is a client, `code`
-- the name in the error where there is none. `run` is what is done on one context, given whether the
-- run context is cancelled before it ends: what is then left of it is a parameter of what runs.
module _ {D : Daemon} (cancelled : Worlds D → Option Err) (available : Text → Bool) (code : Text)
    (run : Bool → Text → World D → Option Err × World D) where
  abbrev ran : Text → Option Err × World D → Worlds D → Option Err × Worlds D
  ran context (e, w) ws = (e, put_world context w ws)

  -- One context.
  unfoldable pub on_context : Bool → Text → Worlds D → Option Err × Worlds D
  on_context interrupted context ws =
      if not (available context)
      then (
        some (new code precondition (codes "docker client not available for context " ++ context)),
        ws,
      )
      else ran context (run interrupted context (ws context)) ws

  abbrev pub reported : Text → Option Err → List ContextResult → List ContextResult
  reported context none rs = rs
  reported context (some e) rs = record { context_name = context; err = e } ∷ rs

  -- Whether the run context is cancelled once a child has ended: its own failure does so, if the mode
  -- is to fail fast.
  abbrev pub cancels : ExecutionMode → Option Err → Bool → Bool
  cancels run_to_completion e interrupted = interrupted
  cancels fail_fast none interrupted = interrupted
  cancels fail_fast (some e) interrupted = true

  -- Every context runs, in the order in which they finish; the failures are those reported. After
  -- the failure that cancels the run context every later child is one that was interrupted.
  unfoldable pub run_each :
      ExecutionMode → Bool → List Text → Worlds D → List ContextResult × Worlds D
  unfolding on_context
  run_each mode interrupted [] ws = ([], ws)
  run_each mode interrupted (context ∷ contexts) ws =
      let (e, ws₁) = on_context interrupted context ws in
      let (rs, ws₂) = run_each mode (cancels mode e interrupted) contexts ws₁ in
      (reported context e rs, ws₂)

  -- The caller's context stays alive while the children run.
  abbrev pub in_parallel : ExecutionMode → List Text → Worlds D → Option Err × Worlds D
  in_parallel mode finished ws =
      let (rs, ws') = run_each mode false finished ws in (execute_parallel mode true rs, ws')

  abbrev pub across :
      ExecutionMode → Bool → List Text → List Text → Worlds D → Option Err × Worlds D
  across mode parallel finished [] ws = (none, ws)
  across mode parallel finished (name ∷ names) ws =
      if not parallel || nat_beq (length (name ∷ names)) 1
      then execute_sequential cancelled (on_context false) (name ∷ names) ws
      else in_parallel mode finished ws

  -- `finished`: the contexts in the order in which their goroutines finish.
  unfoldable pub execute_across :
      Config → ExecutionMode → Bool → List Text → Worlds D → Option Err × Worlds D
  unfolding run_each execute_sequential execute_parallel
  execute_across cfg mode parallel finished ws =
      across mode parallel finished (sort_by (λ k. k) (keys cfg.contexts)) ws

-- `interrupted` is what an operation does on the daemon of a context when the run context is cancelled
-- in the middle of it.
module _ {D : Daemon} (interrupted : Text → World D → Option Err × World D) where
  abbrev pub unless_cancelled :
      (Text → World D → Option Err × World D) → Bool → Text → World D → Option Err × World D
  unless_cancelled run true = interrupted
  unless_cancelled run false = run

  abbrev outcome_of : Result Err (Unit {0}) × World D → Option Err × World D
  outcome_of (r, w) = (error_of r, w)

  unfoldable pub apply_run :
      Host
      → Disk
      → (Text → List ℕ)
      → Config
      → Option Plan
      → Bool
      → Text
      → World D
      → Option Err × World D
  unfolding apply_context get_context_execution_context
  apply_run H disk order cfg plan =
      unless_cancelled
        (λ context w. outcome_of (apply_context H disk order cfg context (exec_of plan context) w))

  unfoldable pub apply_with_plan :
      (Worlds D → Option Err)
      → (Text → Bool)
      → Host
      → Disk
      → (Text → List ℕ)
      → Config
      → Option Plan
      → Bool
      → List Text
      → Worlds D
      → Option Err × Worlds D
  unfolding apply_run execute_across
  apply_with_plan cancelled available H disk order cfg plan =
      execute_across cancelled available (codes "planner.Apply") (apply_run H disk order cfg plan)
        cfg run_to_completion

  abbrev handled : CleanupOptions → Option Err × Worlds D → Option Err × Worlds D
  handled opts (e, ws) = (handle_cleanup_error e opts, ws)

  abbrev unconfigured : Text → Worlds D → Option Err × Worlds D
  unconfigured code ws = (some (new code precondition (codes "docker client not configured")), ws)

  -- `configured`: the planner has a client, or a factory of clients. A targeted configuration shows
  -- only a part of what is desired, so that nothing is pruned.
  unfoldable pub prune_with_plan_options :
      (Worlds D → Option Err)
      → (Text → Bool)
      → Bool
      → Host
      → Config
      → Option Plan
      → CleanupOptions
      → Bool
      → List Text
      → Worlds D
      → Option Err × Worlds D
  unfolding prune_context get_context_execution_context handle_cleanup_error execute_across
  prune_with_plan_options cancelled available configured H cfg plan opts parallel finished ws =
      if cfg.targeted
      then (none, ws)
      else if not configured
      then unconfigured (codes "planner.Prune") ws
      else handled opts (
          execute_across cancelled available (codes "planner.Prune")
            (unless_cancelled (λ context w. prune_context D H cfg context (exec_of plan context) w))
            cfg run_to_completion parallel finished ws)

  unfoldable pub destroy_with_options :
      (Worlds D → Option Err)
      → (Text → Bool)
      → Bool
      → Config
      → CleanupOptions
      → Bool
      → List Text
      → Worlds D
      → Option Err × Worlds D
  unfolding destroy_context new_destroy_scope volume_to_fileset handle_cleanup_error execute_across
  destroy_with_options cancelled available configured cfg opts parallel finished ws =
      if not configured
      then unconfigured (codes "planner.Destroy") ws
      else handled opts (
          execute_across cancelled available (codes "planner.Destroy")
            (unless_cancelled (λ context w.
              destroy_context D context (volume_to_fileset (get_all_filesets cfg) [])
                (new_destroy_scope cfg) w))
            cfg run_to_completion parallel finished ws)
