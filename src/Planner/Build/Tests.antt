-- ===== src/Planner/Build/Tests.antt =====
-- A daemon on which everything is as it is wanted, its plan, and the theorems at it.
use dockform.Base.Trim.{trim_space}
use dockform.Base.{◌≡◌, refl, true, false, none, [], ◌∷◌, All, length, set_of, arith, ◌==◌}
use dockform.Base.Text.{Text, codes, text_eq, text_beq, text_beq_iff, decimal}
use dockform.Base.Dict.{Dict}
use dockform.Base.Maps.{SameMap}
use dockform.Base.Sort.{sort_by}
use dockform.Base.Cut.{cut}
use dockform.Base.Result.{Result, ok, err}
use dockform.Apperr.{Err, aggregate}
use dockform.Manifest.Types.{Stack, FilesetSpec, Config}
use dockform.Manifest.Key.{parse_stack_key}
use dockform.Manifest.Tests.{config, fileset_at, stack_at}
use dockform.Manifest.Merge.{
  get_filesets_for_context, filesets_of, get_all_filesets, copy_all, stacks_of, get_all_stacks,
  merge_explicit, get_stacks_for_context,
}
use dockform.Filesets.Index.{Index}
use dockform.Filesets.Local.{
  Disk, regular, no_nodes, more_nodes, build_local_index, parse_index_json,
}
use dockform.Planner.Client.{ComposePsItem, Daemon, World}
use dockform.Planner.Tests.{host, prod}
use dockform.Planner.Prune.{desired_volumes, desired_networks}
use dockform.Planner.Resource.{service_states_to_resources}
use dockform.Planner.ServiceState.{build_inline_env, get_planned_services, get_running_services}
use dockform.Planner.ServiceState.Detect.{
  detect_all_services_state, place_values, detect_all_parallel, detect_service_state_fast,
}
use dockform.Planner.Build.Stacks.{
  Building, build_parallel, build_sequential, collect_desired_services,
}
use dockform.Planner.Build.Filesets.{build_filesets}
use dockform.Planner.Build.Wanted.{asks}
use dockform.Planner.Build.Arrivals.{SameOutcome, build_parallel-build_sequential}
use dockform.Planner.Build.Context.{Schedule, no_plan, plan_volumes, build_context_plan}

abbrev pub app_item : ComposePsItem
app_item = record { name = codes "web-app-1"; service = codes "app" }

abbrev pub label_pairs : Dict Text Text
label_pairs =
    (codes "com.docker.compose.config-hash", codes "h1")
    ∷ (codes "io.dockform.identifier", codes "demo")
    ∷ []

abbrev pub yard : Daemon
yard = record {
  State = Unit {0};
  act = λ _ s. (none, s);
  list_volumes = λ _. ok (codes "site" ∷ codes "junk" ∷ []);
  list_networks = λ _. ok (codes "edge" ∷ []);
  list_compose_networks = λ _. ok [];
  list_compose_containers_all = λ _. ok [];
  list_containers_using_volume = λ _ _. ok [];
  read_file_from_volume = λ _ _ _ _. ok [];
  inspect_labels = λ _ _ _. ok label_pairs;
  read_index_files_from_volumes = λ _ _ _. ok ((codes "site", codes "{}") ∷ []);
  inspect_many_labels = λ _ _ _. ok none;
  compose_config_full = λ _ _ _. ok [];
  compose_config_services = λ _ _ _. ok (codes "app" ∷ []);
  compose_config_hash = λ _ _ _ _ _ _. ok (codes "h1");
  compose_config_hashes = λ _ _ _ _ _ _. ok [];
  compose_ps = λ _ _ _ _. ok (app_item ∷ []);
}

abbrev pub index : Index
index = record {
  version = codes "v1";
  target = codes "/";
  created_at = codes "now";
  exclude = [];
  uid = 0;
  gid = 0;
  files = record { path = codes "a"; size = 1; sha256 = codes "11" } ∷ [];
  tree_hash = codes "7";
}

abbrev pub disk : Disk
disk = record {
  clean = λ p. p;
  walk = λ _. ok (more_nodes (codes "a") (regular 1 (ok (codes "11"))) no_nodes);
  now = codes "now";
  sha256_hex = λ t. decimal (length t);
  path_match = λ _ _. false;
  marshal = λ _. ok (codes "{}");
  unmarshal = λ _. ok index;
  tar_files = λ _ _. none;
}

abbrev pub one_stack : Config
one_stack = record config {
  stacks = [];
  discovered_stacks = (codes "prod/web", stack_at (codes "prod/web") []) ∷ [];
  discovered_filesets = (codes "prod/web/site", fileset_at prod (codes "web") (codes "site")) ∷ [];
}

abbrev pub schedule : Schedule
schedule = record {
  networks_first = false;
  stack_arrivals = λ d. d;
  fileset_arrivals = λ d. d;
  service_order = λ _. 0 ∷ [];
}

abbrev pub calm : World yard
calm = record { state = tt; calls = [] }

abbrev pub no_building : Building
no_building = record {
  plan = no_plan;
  exec = record {
    context_name = [];
    identifier = [];
    stacks = [];
    filesets = [];
    existing_volumes = [];
    existing_networks = [];
  };
}

abbrev pub got : Result Err Building → Building
got (ok b) = b
got (err e) = no_building

abbrev calm_plan : Building
calm_plan = got (build_context_plan yard host disk true schedule one_stack prod tt)

calm_planned : build_context_plan yard host disk true schedule one_stack prod tt ≡ ok calm_plan
unfolding build_context_plan get_filesets_for_context filesets_of get_all_filesets copy_all
    stacks_of get_all_stacks merge_explicit get_stacks_for_context cut parse_stack_key text_beq
    sort_by aggregate build_parallel build_inline_env detect_all_services_state get_planned_services
    collect_desired_services build_filesets build_local_index set_of parse_index_json place_values
    detect_all_parallel trim_space
calm_planned = refl

calm_asks_nothing : asks calm_plan.plan ≡ false
unfolding build_context_plan get_filesets_for_context filesets_of get_all_filesets copy_all
    stacks_of get_all_stacks merge_explicit get_stacks_for_context cut parse_stack_key text_beq
    sort_by aggregate build_parallel build_inline_env detect_all_services_state get_planned_services
    collect_desired_services build_filesets build_local_index set_of parse_index_json place_values
    detect_all_parallel plan_volumes desired_volumes desired_networks service_states_to_resources
    detect_service_state_fast get_running_services decimal trim_space
calm_asks_nothing = refl

one_source :
    All
      (λ (e : Text × FilesetSpec). (e.1.source_abs == []) ≡ false)
      (get_filesets_for_context one_stack prod)
unfolding get_filesets_for_context filesets_of get_all_filesets copy_all text_beq
one_source = (refl, tt)

-- Two stacks that arrive against the order of their names.
abbrev two_stacks : Dict Text Stack
two_stacks =
    (codes "api", stack_at (codes "prod/api") [])
    ∷ (codes "web", stack_at (codes "prod/web") [])
    ∷ []

abbrev two_arrivals : Dict Text Stack
two_arrivals =
    (codes "web", stack_at (codes "prod/web") [])
    ∷ (codes "api", stack_at (codes "prod/api") [])
    ∷ []

two_same : SameMap two_arrivals two_stacks
unfolding text_beq
two_same = record {
  once = (refl, (refl, tt));
  same = λ k. ground (arith, text_beq_iff (codes "api") k, text_beq_iff (codes "web") k);
}

build_parallel-build_sequential_example :
    SameOutcome no_building
      (build_parallel yard host none (codes "demo") prod (λ _. 0 ∷ []) two_arrivals tt no_building)
      (build_sequential yard host none (codes "demo") prod (λ _. 0 ∷ []) two_stacks tt no_building)
unfolding text_beq
build_parallel-build_sequential_example =
    build_parallel-build_sequential yard host none (codes "demo") prod (λ _. 0 ∷ []) tt two_stacks
      two_arrivals no_building (refl, (refl, tt)) two_same refl
