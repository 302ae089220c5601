-- ===== src/Planner/Destroy.antt =====
-- internal/planner/destroy.go: the scope of a targeted destroy, and `destroyContext`.
pub mod Calls
mod Tests
pub mod Scope
use dockform.Base.{
  Bool, true, false, not, ◌&&◌, Option, none, some, List, [], ◌∷◌, ◌++◌, ◌==◌, if◌then◌else◌,
  contains,
}
use dockform.Base.Text.{Text, codes, text_eq}
use dockform.Base.Dict.{Dict, lookup, insert, has}
use dockform.Base.Result.{Result, ok, err}
use dockform.Apperr.{Err, external, wrap, aggregate}
use dockform.Manifest.Key.{KeyError, parse_stack_key, make_stack_key}
use dockform.Manifest.Types.{Project, Stack, FilesetSpec, Config}
use dockform.Manifest.Merge.{get_all_stacks, get_all_filesets}
use dockform.Planner.Client.{
  PsBrief, Call, remove_container, remove_volume, remove_network, Daemon, World, do_call,
}
use dockform.Planner.Prune.{Progress, note, fail_with, sweep}

-- `projects`: the keys "context/project" of the targeted stacks.
pub record DestroyScope : Type 0 where
  pub targeted : Bool
  pub projects : List Text

unfoldable pub allows_stack : DestroyScope → Text → Text → Bool
allows_stack s context project =
    if not s.targeted
    then true
    else if project == []
    then false
    else contains s.projects (make_stack_key context project)

abbrev pub named_project : Option Project → Text → Text
named_project none stack_name = stack_name
named_project (some p) stack_name = if not (p.name == []) then p.name else stack_name

abbrev pub scope_keys : Result KeyError (Text × Text) → Stack → List Text
scope_keys (err e) stack = []
scope_keys (ok (context, stack_name)) stack =
    make_stack_key context (named_project stack.project stack_name) ∷ []

-- The loop over the stacks.
unfoldable pub scope_projects : Dict Text Stack → List Text
scope_projects [] = []
scope_projects ((key, stack) ∷ d) = scope_keys (parse_stack_key key) stack ++ scope_projects d

unfoldable pub new_destroy_scope : Config → DestroyScope
unfolding scope_projects
new_destroy_scope cfg =
    if not cfg.targeted
    then record { targeted = false; projects = [] }
    else record { targeted = true; projects = scope_projects (get_all_stacks cfg) }

-- The loop `volumeToFileset[fs.TargetVolume] = fsName`.
unfoldable pub volume_to_fileset : Dict Text FilesetSpec → Dict Text Text → Dict Text Text
volume_to_fileset [] m = m
volume_to_fileset ((name, fs) ∷ d) m = volume_to_fileset d (insert fs.target_volume name m)

-- Container names by service, and these by project.
abbrev pub Services : Type 0
Services = Dict Text (List Text)

abbrev pub services_at : Option Services → Services
services_at none = []
services_at (some m) = m

abbrev names_at : Option (List Text) → List Text
names_at none = []
names_at (some names) = names

abbrev pub add_name : Text → Text → Services → Services
add_name service name m = insert service (names_at (lookup service m) ++ (name ∷ [])) m

abbrev add_container : PsBrief → Dict Text Services → Dict Text Services
add_container it groups =
    insert it.project (add_name it.service it.name (services_at (lookup it.project groups))) groups

module _ (D : Daemon) (context : Text) (volumes : Dict Text Text) (scope : DestroyScope) where
  abbrev pub failed : Text → Err → Option Err
  failed msg e = some (
      wrap (codes "planner.destroyContext") external e
        (codes "context " ++ (context ++ (codes ": " ++ msg))))

  abbrev pub remove_names : List Text → Progress D → Progress D
  remove_names names p =
      sweep (λ _. false) (λ n. remove_container n true)
        (λ n. failed (codes "remove container " ++ n)) names p

  -- What the first loop carries.
  pub record Sorting : Type 0 where
    pub progress : Progress D
    pub groups : Dict Text Services

  -- Orphaned containers are removed at once, the others are grouped.
  abbrev pub sort_out : PsBrief → Sorting → Sorting
  sort_out it t =
      if not (allows_stack scope context it.project)
      then t
      else if it.project == []
      then record { progress = remove_names (it.name ∷ []) t.progress; groups = t.groups }
      else record { progress = t.progress; groups = add_container it t.groups }

  unfoldable pub first_pass : List PsBrief → Sorting → Sorting
  first_pass [] t = t
  first_pass (it ∷ items) t = first_pass items (sort_out it t)

  unfoldable pub remove_services : Services → Progress D → Progress D
  remove_services [] p = p
  remove_services ((service, names) ∷ d) p = remove_services d (remove_names names p)

  unfoldable pub remove_groups : Dict Text Services → Progress D → Progress D
  unfolding remove_services
  remove_groups [] p = p
  remove_groups ((project, services) ∷ d) p = remove_groups d (remove_services services p)

  abbrev second_pass : Sorting → Progress D
  second_pass t = remove_groups t.groups t.progress

  -- After a failed listing there are no containers, and the destruction goes on.
  abbrev pub destroy_listed : Result Err (List PsBrief) → Progress D → Progress D
  destroy_listed (err e) p = fail_with p (failed (codes "list containers") e)
  destroy_listed (ok items) p =
      second_pass (first_pass items (record { progress = p; groups = [] }))

  unfoldable pub destroy_containers : Progress D → Progress D
  unfolding first_pass remove_groups
  destroy_containers p = destroy_listed (D.list_compose_containers_all p.world.state) p

  abbrev pub networks_listed : Result Err (List Text) → Progress D → Progress D
  networks_listed (err e) p = fail_with p (failed (codes "list networks") e)
  networks_listed (ok nets) p =
      sweep (λ _. false) remove_network (λ n. failed (codes "remove network " ++ n)) nets p

  unfoldable pub destroy_networks : Progress D → Progress D
  destroy_networks p =
      if not scope.targeted then networks_listed (D.list_networks p.world.state) p else p

  abbrev pub volumes_listed : Result Err (List Text) → Progress D → Progress D
  volumes_listed (err e) p = fail_with p (failed (codes "list volumes") e)
  volumes_listed (ok vols) p =
      sweep (λ v. scope.targeted && not (has v volumes)) remove_volume
        (λ v. failed (codes "remove volume " ++ v)) vols p

  unfoldable pub destroy_volumes : Progress D → Progress D
  destroy_volumes p = volumes_listed (D.list_volumes p.world.state) p

  unfoldable pub destroy_context : World D → Option Err × World D
  unfolding destroy_containers destroy_networks destroy_volumes
  destroy_context w =
      let p =
        destroy_volumes (destroy_networks (destroy_containers (record { world = w; errs = [] }))) in
      (
        aggregate (codes "planner.destroyContext") external
            (codes "destroy for context " ++ (context ++ codes " failed for one or more resources"))
            p.errs,
        p.world,
      )
