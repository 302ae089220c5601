-- ===== src/Planner/Destroy/Tests.antt =====
-- A targeted destroy of a small daemon, and the theorems at it.
use dockform.Base.{◌+◌, ◌≡◌, refl, true, [], ◌∷◌, ◌++◌, nat_eq, select, map}
use dockform.Base.Text.{Text, codes, text_eq, text_beq}
use dockform.Base.Dict.{Dict}
use dockform.Manifest.Types.{Config}
use dockform.Manifest.Merge.{get_all_filesets}
use dockform.Manifest.Tests.{config}
use dockform.Planner.Client.{PsBrief, remove_container, remove_volume, do_call}
use dockform.Planner.Tests.{lab, owning, progress, prod}
use dockform.Planner.Prune.{sweep}
use dockform.Planner.Destroy.{
  DestroyScope, allows_stack, destroy_volumes, destroy_networks, destroy_containers, first_pass,
  remove_groups, remove_services, destroy_context,
}
use dockform.Planner.Destroy.Calls.{removals, in_scope, removals-destroy_context}
use dockform.Planner.Destroy.Scope.{is_target, volumes, destroy_volumes_calls}

abbrev narrowed : Config
narrowed = record config { targeted = true }

abbrev scope : DestroyScope
scope = record { targeted = true; projects = codes "prod/web" ∷ [] }

abbrev app : PsBrief
app = record { project = codes "web"; service = codes "app"; name = codes "web-app-1" }

abbrev fileset_volumes : Dict Text Text
fileset_volumes = (codes "site", codes "prod/web/site") ∷ (codes "own", codes "prod/web/own") ∷ []

destroy_run :
    (destroy_context lab prod fileset_volumes scope owning).1.calls
    ≡ remove_container (codes "web-app-1") true ∷ remove_volume (codes "site") ∷ []
unfolding destroy_context destroy_containers first_pass remove_groups remove_services
    destroy_networks destroy_volumes allows_stack sweep do_call text_beq
destroy_run = refl

removals-destroy_context_example :
    removals (codes "web-app-1") (destroy_context lab prod fileset_volumes scope owning).1.calls
    ≡ 0 + in_scope lab prod fileset_volumes scope (codes "web-app-1") (app ∷ [])
removals-destroy_context_example =
    removals-destroy_context lab prod fileset_volumes scope (codes "web-app-1") (app ∷ []) owning
      refl

destroy_volumes_calls_example :
    (destroy_volumes lab prod
      (volumes lab prod narrowed scope refl)
      scope
      (progress owning)).world.calls
    ≡ []
      ++ map remove_volume
          (select (is_target (get_all_filesets narrowed)) (codes "site" ∷ codes "junk" ∷ []))
destroy_volumes_calls_example =
    destroy_volumes_calls lab prod narrowed scope refl (codes "site" ∷ codes "junk" ∷ [])
      (progress owning) refl
