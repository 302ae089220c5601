-- ===== src/Planner/Apply/Restart.antt =====
-- internal/planner/targets.go and apply_restarts.go: the services that a fileset restarts, and their
-- restart.
use dockform.Base.{
  not, ◌&&◌, Option, none, some, List, [], ◌∷◌, ◌++◌, ◌==◌, if◌then◌else◌, contains,
}
use dockform.Base.Text.{Text, codes, text_eq}
use dockform.Base.Sort.{sort_by}
use dockform.Base.Result.{Result, ok, err}
use dockform.Apperr.{Err, external, wrap}
use dockform.Manifest.Types.{FilesetSpec}
use dockform.Planner.Client.{PsBrief, restart_container, Daemon}
use dockform.Planner.Run.{Run, return, ◌>>=◌, ◌>>◌, ask, call, wrapping}

-- The explicit services, each once and none empty.
unfoldable pub explicit_services : List Text → List Text → List Text
explicit_services [] out = out
explicit_services (s ∷ ss) out =
    explicit_services ss (if s == [] then out else if contains out s then out else out ++ (s ∷ []))

-- The services of the containers that use the volume, each once and none empty.
unfoldable pub attached_services : List Text → List PsBrief → List Text → List Text
attached_services names [] out = out
attached_services names (it ∷ items) out = attached_services names items (
    if contains names it.name && not (it.service == [])
    then if contains out it.service then out else out ++ (it.service ∷ [])
    else out)

abbrev targets_op : Text
targets_op = codes "planner.resolveTargetServices"

-- The inner loop over the listed containers, for one pending service.
abbrev pub first_container : List PsBrief → Text → Option Text
first_container [] service = none
first_container (it ∷ items) service =
    if it.service == service then some it.name else first_container items service

abbrev pub or_none : Result Err (List PsBrief) → List PsBrief
or_none (ok items) = items
or_none (err e) = []

module _ {D : Daemon} where
  abbrev pub attached_targets : Text → List Text → Run D (List Text)
  attached_targets volume [] = return []
  attached_targets volume (n ∷ names) = do
    items ←
        wrapping
          (λ e. wrap targets_op external e (codes "list compose containers for volume " ++ volume))
          (ask D.list_compose_containers_all)
    return (sort_by (λ s. s) (attached_services (n ∷ names) items []))

  unfoldable pub resolve_target_services : FilesetSpec → Run D (List Text)
  unfolding explicit_services attached_services
  resolve_target_services fs =
      if not fs.restart_services.attached
      then return (explicit_services fs.restart_services.services [])
      else do
        names ←
            wrapping
              (λ e.
                wrap targets_op external e
                  (codes "list containers using volume " ++ fs.target_volume))
              (ask (D.list_containers_using_volume fs.target_volume))
        attached_targets fs.target_volume names

  -- A service that has no container is passed over with a warning.
  abbrev pub restart_found : Text → Option Text → Run D (Unit {0})
  restart_found service none = return tt
  restart_found service (some name) =
      wrapping
        (λ e.
          wrap (codes "restartmanager.RestartPendingServices") external e
            (codes "restart service " ++ service))
        (call (restart_container name))

  unfoldable pub restart_each : List PsBrief → List Text → Run D (Unit {0})
  restart_each items [] = return tt
  restart_each items (s ∷ ss) = do restart_found s (first_container items s); restart_each items ss

  -- A failed listing counts as empty.
  unfoldable pub restart_pending_services : List Text → Run D (Unit {0})
  unfolding restart_each
  restart_pending_services [] = return tt
  restart_pending_services (s ∷ ss) = do
    items ← ask (λ st. ok (or_none (D.list_compose_containers_all st)))
    restart_each items (s ∷ ss)
