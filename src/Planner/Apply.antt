-- ===== src/Planner/Apply.antt =====
-- internal/planner/apply.go: `applyContext`. The progress estimator does nothing in the code either.
pub mod Ownership
pub mod Resources
pub mod Restart
pub mod Volume
pub mod Sync
pub mod Stacks
pub mod Keeps
pub mod Cold
pub mod Ensured
pub mod Quiet
pub mod Interrupted
pub mod Hot
mod Tests
pub mod Constructive
use dockform.Base.{ℕ, Option, none, some, List, [], ◌∷◌, ◌++◌, ◌==◌, if◌then◌else◌, set_of}
use dockform.Base.Text.{Text, codes, text_eq}
use dockform.Base.Dict.{Dict}
use dockform.Manifest.Types.{Config}
use dockform.Manifest.Merge.{get_stacks_for_context}
use dockform.Filesets.Local.{Disk}
use dockform.Planner.Client.{Daemon}
use dockform.Planner.ServiceState.{Host, identifier_key}
use dockform.Planner.Prune.{ContextExecutionContext}
use dockform.Planner.Run.{Run, return, ◌>>=◌, ◌>>◌, ask, wrapping}
use dockform.Planner.Apply.Resources.{ensure_volumes, ensure_networks}
use dockform.Planner.Apply.Restart.{restart_pending_services}
use dockform.Planner.Apply.Sync.{sync_filesets}
use dockform.Planner.Apply.Stacks.{apply_error, apply_stack_changes}

abbrev pub labels_for : Text → Dict Text Text
labels_for identifier = if identifier == [] then [] else (identifier_key, identifier) ∷ []

module _ {D : Daemon} (H : Host) (disk : Disk) (order : Text → List ℕ) where
  -- The networks of the plan, or else of the daemon.
  abbrev pub existing_networks : Option ContextExecutionContext → Text → Run D (List Text)
  existing_networks (some x) context = return x.existing_networks
  existing_networks none context = do
    nets ←
        wrapping (apply_error (codes "list existing networks for context " ++ context))
          (ask D.list_networks)
    return (set_of nets [])

  unfoldable pub apply_context : Config → Text → Option ContextExecutionContext → Run D (Unit {0})
  apply_context cfg context exec = do
    volumes ← ensure_volumes (labels_for cfg.identifier) cfg context
    networks ← existing_networks exec context
    ensure_networks (labels_for cfg.identifier) cfg context networks
    pending ← sync_filesets disk cfg context volumes exec
    apply_stack_changes H cfg.sops cfg.identifier context order exec
        (get_stacks_for_context cfg context)
    restart_pending_services pending
