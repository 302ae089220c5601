-- ===== src/Planner/Build/Context.antt =====
-- internal/planner/build_plan.go: `buildContextPlan`, with a client that is not nil, and
-- `getExistingResourcesForClient` of build_plan_filesets.go.
use dockform.Base.{
  ℕ, Bool, not, Option, none, some, List, [], ◌∷◌, ◌++◌, if◌then◌else◌, contains, set_of, map,
  select,
}
use dockform.Base.Text.{Text, codes, text_eq}
use dockform.Base.Dict.{Dict, lookup, insert}
use dockform.Base.Sort.{sort_by}
use dockform.Base.Result.{Result, ok, err, ◌>>=◌}
use dockform.Apperr.{Err, external, wrap, aggregate}
use dockform.Manifest.Types.{Stack, FilesetSpec, Config}
use dockform.Manifest.Merge.{get_stacks_for_context, get_filesets_for_context}
use dockform.Filesets.Local.{Disk}
use dockform.Planner.Client.{PsBrief, Daemon}
use dockform.Planner.ServiceState.{Host}
use dockform.Planner.Resource.{
  create, delete, noop, Resource, ResourceType, volume, network, service, new_resource,
  ResourcePlan,
}
use dockform.Planner.Prune.{orphan_networks, desired_volumes, desired_networks}
use dockform.Planner.Build.Stacks.{
  Building, wrapped, build_sequential, build_parallel, collect_desired_services,
}
use dockform.Planner.Build.Filesets.{build_filesets}

-- How the goroutines of a plan run: which of the two listings fails first, the orders in which the
-- stacks and the filesets arrive, and the order of a stack's services.
pub record Schedule : Type 0 where
  pub networks_first : Bool
  pub stack_arrivals : Dict Text Stack → Dict Text Stack
  pub fileset_arrivals : Dict Text FilesetSpec → Dict Text FilesetSpec
  pub service_order : Text → List ℕ

abbrev pub existing_op : Text
existing_op = codes "planner.getExistingResourcesForClient"

abbrev pub noted : Text → Result Err (List Text) → List (Option Err)
noted msg (ok names) = []
noted msg (err e) = some (wrap existing_op external e msg) ∷ []

abbrev pub names_or_none : Result Err (List Text) → List Text
names_or_none (ok names) = set_of names []
names_or_none (err e) = []

abbrev pub finish_existing : Option Err → List Text → List Text → Result Err (List Text × List Text)
finish_existing none volumes networks = ok (volumes, networks)
finish_existing (some e) volumes networks = err e

-- The two listings at once.
unfoldable pub get_existing :
    Bool → Result Err (List Text) → Result Err (List Text) → Result Err (List Text × List Text)
get_existing networks_first vols nets =
    let of_volumes = noted (codes "list existing volumes") vols in
    let of_networks = noted (codes "list existing networks") nets in
    finish_existing
      (aggregate existing_op external (codes "failed to discover existing docker resources")
        (if networks_first then of_networks ++ of_volumes else of_volumes ++ of_networks))
      (names_or_none vols) (names_or_none nets)

abbrev pub ensure_resource : ResourceType → List Text → Text → Resource
ensure_resource kind existing name =
    if contains existing name
    then new_resource kind name noop (codes "exists")
    else new_resource kind name create []

abbrev pub removal : ResourceType → Text → Resource
removal kind name = new_resource kind name delete []

-- The wanted ones in the order of their names.
unfoldable pub plan_wanted : ResourceType → List Text → List Text → List Resource
plan_wanted kind existing desired =
    map (ensure_resource kind existing) (sort_by (λ x. x) (set_of desired []))

unfoldable pub plan_volumes : Bool → List Text → List Text → List Resource
unfolding plan_wanted
plan_volumes targeted existing desired =
    plan_wanted volume existing desired
    ++ (if targeted
        then []
        else map (removal volume) (select (λ n. not (contains desired n)) existing))

abbrev plan_orphans : List Text → List Text → List Text → List Resource
plan_orphans existing desired owned = map (removal network) (orphan_networks existing desired owned)

-- The services of each project that no stack wants.
abbrev list_of : Option (List Text) → List Text
list_of (some l) = l
list_of none = []

abbrev add_once : Text → List Text → List Text
add_once x l = if contains l x then l else l ++ (x ∷ [])

unfoldable pub services_to_delete :
    List Text → List PsBrief → Dict Text (List Text) → Dict Text (List Text)
services_to_delete desired [] d = d
services_to_delete desired (it ∷ items) d = services_to_delete desired items (
    if contains desired it.service
    then d
    else insert it.project (add_once it.service (list_of (lookup it.project d))) d)

abbrev pub resources_of : Option (List Resource) → List Resource
resources_of (some l) = l
resources_of none = []

unfoldable pub add_deletions :
    Dict Text (List Text) → Dict Text (List Resource) → Dict Text (List Resource)
add_deletions [] m = m
add_deletions ((project, services) ∷ d) m =
    add_deletions d
      (insert project (resources_of (lookup project m) ++ map (removal service) services) m)

abbrev pub show_deletions : List Text → Result Err (List PsBrief) → Building → Building
show_deletions desired (err e) b = b
show_deletions desired (ok all) b = record b {
  plan = record b.plan { stacks = add_deletions (services_to_delete desired all []) b.plan.stacks };
}

abbrev pub no_plan : ResourcePlan
no_plan = record { volumes = []; networks = []; stacks = []; filesets = []; containers = [] }

abbrev pub first_building : Bool → Config → Text → List Text → List Text → List Resource → Building
first_building targeted cfg context vols nets orphans = record {
  plan = record no_plan {
    volumes = plan_volumes targeted vols (desired_volumes cfg context);
    networks = plan_wanted network nets (desired_networks cfg context) ++ orphans;
  };
  exec = record {
    context_name = context;
    identifier = cfg.identifier;
    stacks = [];
    filesets = [];
    existing_volumes = vols;
    existing_networks = nets;
  };
}

module _ (D : Daemon) where
  abbrev pub owned_networks : D.State → Result Err (List Text)
  owned_networks s =
      wrapped (codes "planner.getComposeOwnedNetworks") (codes "list compose-owned networks")
        (D.list_compose_networks s)

  -- Unless stacks are targeted.
  unfoldable pub network_orphans :
      Bool → List Text → List Text → D.State → Result Err (List Resource)
  unfolding orphan_networks
  network_orphans targeted existing desired s =
      if targeted
      then ok []
      else owned_networks s >>= λ owned. ok (plan_orphans existing desired owned)

module _ (D : Daemon) (H : Host) (disk : Disk) (parallel : Bool) (run : Schedule) (cfg : Config)
    (context : Text) (s : D.State) where
  unfoldable pub build_stacks : Building → Result Err Building
  build_stacks b =
      let stacks = get_stacks_for_context cfg context in
      if parallel
      then build_parallel D H cfg.sops cfg.identifier context run.service_order
          (run.stack_arrivals stacks) s b
      else build_sequential D H cfg.sops cfg.identifier context run.service_order stacks s b

  -- Unless stacks are targeted. A listing that fails shows no deletion.
  unfoldable pub show_orphans : Building → Result Err Building
  unfolding services_to_delete add_deletions
  show_orphans b =
      if cfg.targeted
      then ok b
      else collect_desired_services D H cfg.sops (get_stacks_for_context cfg context) s
        >>= λ desired. ok (show_deletions desired (D.list_compose_containers_all s) b)

  abbrev pub planned_filesets : List Text → Building → Result Err Building
  planned_filesets vols b =
      let specs = get_filesets_for_context cfg context in
      build_filesets D disk (run.fileset_arrivals specs) specs vols s b

  abbrev pub build_existing : List Text × List Text → Result Err Building
  build_existing (vols, nets) =
      network_orphans D cfg.targeted nets (desired_networks cfg context) s >>= λ orphans.
      build_stacks (first_building cfg.targeted cfg context vols nets orphans) >>= λ b.
      show_orphans b >>= λ b'. planned_filesets vols b'

  -- The plan of the context, and the data for the later steps.
  unfoldable pub build_context_plan : Result Err Building
  unfolding get_existing network_orphans build_stacks show_orphans
  build_context_plan =
      get_existing run.networks_first (D.list_volumes s) (D.list_networks s) >>= build_existing
