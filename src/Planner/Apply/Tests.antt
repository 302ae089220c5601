-- ===== src/Planner/Apply/Tests.antt =====
-- A small daemon that keeps the index of a volume, a disk with one file, and the theorems at them.
use dockform.Base.Trim.{trim_space}
use dockform.Base.{
  ℕ, ◌≡◌, refl, true, false, ◌&&◌, Option, none, some, List, [], ◌∷◌, ◌++◌, All, length, set_of,
}
use dockform.Base.Text.{Text, codes, text_eq, text_beq, decimal}
use dockform.Base.Result.{ok, err}
use dockform.Apperr.{Err}
use dockform.Manifest.Types.{FilesetSpec, Ownership, Config}
use dockform.Manifest.Tests.{config, fileset_at, stack_at}
use dockform.Manifest.Merge.{
  get_filesets_for_context, filesets_of, get_all_filesets, copy_all, stacks_of, get_all_stacks,
  merge_explicit, get_stacks_for_context,
}
use dockform.Manifest.Key.{parse_stack_key}
use dockform.Base.Cut.{cut}
use dockform.Base.Sort.{sort_by}
use dockform.Planner.Prune.{
  desired_volumes, desired_networks, ContextExecutionContext, FilesetExecutionData,
  StackExecutionData,
}
use dockform.Filesets.Index.{Index}
use dockform.Filesets.Local.{
  Disk, regular, no_nodes, more_nodes, walk_node, walk_nodes, normalize_exclude_patterns,
  collect_patterns, tree_text, build_local_index, parse_index_json,
}
use dockform.Planner.Client.{
  PsBrief, Call, create_volume, write_file, start_containers, stop_containers, extract_tar, Daemon,
  World, do_call,
}
use dockform.Planner.Tests.{host, prod}
use dockform.Planner.Run.{◌>>=◌, return, wrapping, ask, call, given}
use dockform.Planner.Apply.{labels_for, apply_context}
use dockform.Planner.Apply.Resources.{ensure_volumes}
use dockform.Planner.Apply.Restart.{
  resolve_target_services, explicit_services, restart_pending_services,
}
use dockform.Planner.Apply.Sync.{containers_to_stop, stop_targets, sync_changed, sync_fileset}
use dockform.Planner.Apply.Volume.{Compared, write_volume, sync_fileset_files, delete_fileset_files}
use dockform.Planner.Apply.Constructive.{Constructive, apply_context-Constructive}
use dockform.Planner.Apply.Cold.{succeeded, sync_changed-start_containers}
use dockform.Planner.Apply.Ensured.{Ensured, ensure_volumes-Ensured}
use dockform.Planner.Apply.Hot.{Restarts, restart_pending_services-containers_to_stop}
use dockform.Planner.Apply.Quiet.{SettledFileset, SettledStack}
use dockform.Planner.Apply.Interrupted.{refusal, index_written, write_volume-sync_fileset}

pub record Shelf : Type 0 where
  pub volumes : List Text
  pub containers : List PsBrief
  pub stored : Text

abbrev shelf_act : Call → Shelf → Option Err × Shelf
shelf_act (create_volume v labels) s = (none, record s { volumes = s.volumes ++ (v ∷ []) })
shelf_act (write_file v path name t) s = (none, record s { stored = t })
shelf_act _ s = (none, s)

abbrev shelf : Daemon
shelf = record {
  State = Shelf;
  act = shelf_act;
  list_volumes = λ s. ok s.volumes;
  list_networks = λ _. ok (codes "edge" ∷ []);
  list_compose_networks = λ _. ok [];
  list_compose_containers_all = λ s. ok s.containers;
  list_containers_using_volume = λ _ _. ok [];
  read_file_from_volume = λ _ _ _ s. ok s.stored;
  inspect_labels = λ _ _ _. ok [];
  read_index_files_from_volumes = λ _ _ _. ok [];
  inspect_many_labels = λ _ _ _. ok none;
  compose_config_full = λ _ _ _. ok [];
  compose_config_services = λ _ _ _. ok [];
  compose_config_hash = λ _ _ _ _ _ _. ok [];
  compose_config_hashes = λ _ _ _ _ _ _. ok [];
  compose_ps = λ _ _ _ _. ok [];
}

abbrev index : Index
index = record {
  version = codes "v1";
  target = codes "/";
  created_at = codes "now";
  exclude = [];
  uid = 0;
  gid = 0;
  files = record { path = codes "a"; size = 1; sha256 = codes "11" } ∷ [];
  tree_hash = codes "7";
}

abbrev disk : Disk
disk = record {
  clean = λ p. p;
  walk = λ _. ok (more_nodes (codes "a") (regular 1 (ok (codes "11"))) no_nodes);
  now = codes "now";
  sha256_hex = λ t. decimal (length t);
  path_match = λ _ _. false;
  marshal = λ _. ok (codes "{}");
  unmarshal = λ _. ok index;
  tar_files = λ _ _. none;
}

abbrev order : Text → List ℕ
order _ = []

abbrev empty_shelf : World shelf
empty_shelf = record {
  state = record {
    volumes = codes "site" ∷ [];
    containers =
        record { project = codes "other"; service = codes "app"; name = codes "other-app-1" }
        ∷ record { project = codes "web"; service = codes "app"; name = codes "web-app-1" }
        ∷ [];
    stored = [];
  };
  calls = [];
}

apply_context-Constructive_example :
    All
      (Constructive config prod)
      (apply_context host disk order config prod none empty_shelf).1.calls
apply_context-Constructive_example =
    apply_context-Constructive config prod host disk order none empty_shelf tt

ensure_volumes-Ensured_example :
    Ensured {D = shelf}
      (labels_for (codes "demo"))
      config
      prod
      (codes "site" ∷ [])
      []
      (ensure_volumes (labels_for (codes "demo")) config prod empty_shelf)
ensure_volumes-Ensured_example =
    ensure_volumes-Ensured (labels_for (codes "demo")) config prod (codes "site" ∷ []) empty_shelf
      refl

restart_pending_services-containers_to_stop_example :
    Restarts shelf
      (containers_to_stop empty_shelf.state.containers (codes "app" ∷ []))
      []
      (restart_pending_services (codes "app" ∷ []) empty_shelf)
unfolding text_beq
restart_pending_services-containers_to_stop_example =
    restart_pending_services-containers_to_stop empty_shelf.state.containers (codes "app" ∷ [])
      empty_shelf refl refl

-- The container of another project is the one that is found.
other_found :
    containers_to_stop empty_shelf.state.containers (codes "app" ∷ []) ≡ codes "other-app-1" ∷ []
unfolding containers_to_stop text_beq
other_found = refl

abbrev cold : FilesetSpec
cold = record (fileset_at prod (codes "web") (codes "site")) {
  apply_mode = codes "cold";
  restart_services = record { attached = false; services = codes "app" ∷ [] };
}

abbrev compared : Compared
compared = record {
  local = index;
  remote = record index { tree_hash = [] };
  diff = record { to_create = index.files; to_update = []; to_delete = [] };
}

resolve_run : resolve_target_services cold empty_shelf ≡ (ok (codes "app" ∷ []), empty_shelf)
unfolding resolve_target_services explicit_services return text_beq
resolve_run = refl

abbrev stopped : World shelf
stopped = record empty_shelf { calls = stop_containers (codes "other-app-1" ∷ []) ∷ [] }

stop_run :
    stop_targets disk (codes "f") cold (codes "app" ∷ []) empty_shelf
    ≡ (ok (codes "other-app-1" ∷ []), stopped)
unfolding stop_targets containers_to_stop return wrapping ask call do_call ◌>>=◌ text_beq
stop_run = refl

sync_changed-start_containers_example :
    ((sync_changed disk (codes "f") cold compared [] empty_shelf).1
      ≡ (do_call
          (start_containers (codes "other-app-1" ∷ []))
          (write_volume disk (codes "f") cold compared stopped).1).1)
    × (succeeded (sync_changed disk (codes "f") cold compared [] empty_shelf).0
        ≡ (succeeded (write_volume disk (codes "f") cold compared stopped).0 && true))
unfolding do_call
sync_changed-start_containers_example =
    sync_changed-start_containers disk (codes "f") (codes "other-app-1") [] cold compared []
      (codes "app" ∷ []) empty_shelf empty_shelf stopped resolve_run stop_run

abbrev owner : Ownership
owner = record {
  user = codes "www";
  group = [];
  file_mode = [];
  dir_mode = [];
  preserve_existing = false;
}

-- A fileset with the default target path.
abbrev owned : FilesetSpec
owned = record (fileset_at prod (codes "web") (codes "site")) {
  target_path = codes "/";
  ownership = some owner;
}

owned_built : build_local_index disk owned.source_abs owned.target_path owned.exclude ≡ ok index
unfolding build_local_index walk_node walk_nodes normalize_exclude_patterns collect_patterns
    tree_text decimal text_beq sort_by
owned_built = refl

owned_parsed : parse_index_json disk (codes "{}") ≡ ok index
unfolding parse_index_json text_beq trim_space
owned_parsed = refl

abbrev sent : World shelf
sent = record empty_shelf {
  calls = extract_tar (codes "site") (codes "/") (codes "/srv") (codes "a" ∷ []) ∷ [];
}

owned_sent : sync_fileset_files disk (codes "f") owned compared.diff empty_shelf ≡ (ok tt, sent)
unfolding sync_fileset_files return wrapping call do_call given ◌>>=◌ sort_by
owned_sent = refl

owned_kept : delete_fileset_files disk (codes "f") owned compared.diff sent ≡ (ok tt, sent)
unfolding delete_fileset_files return
owned_kept = refl

write_volume-sync_fileset_example :
    (write_volume disk (codes "f") owned compared empty_shelf ≡ (
      err (refusal (codes "f")),
      index_written disk (codes "f") owned compared (codes "{}") sent,
    ))
    × (sync_fileset disk none
          (codes "site" ∷ [])
          (codes "f")
          owned
          []
          (index_written disk (codes "f") owned compared (codes "{}") sent)
        ≡ (ok [], index_written disk (codes "f") owned compared (codes "{}") sent))
unfolding text_beq
write_volume-sync_fileset_example =
    write_volume-sync_fileset disk (codes "f") owned compared owner (codes "{}") (codes "site" ∷ [])
      [] empty_shelf sent sent refl refl refl refl refl owned_built refl owned_parsed owned_sent
      owned_kept refl (λ t s. refl)

-- A context that is as it is wanted, as its plan says.
abbrev one_stack : Config
one_stack = record config {
  stacks = [];
  deployments = [];
  discovered_stacks = (codes "prod/web", stack_at (codes "prod/web") []) ∷ [];
  discovered_filesets = (codes "prod/web/site", fileset_at prod (codes "web") (codes "site")) ∷ [];
}

abbrev synced : FilesetExecutionData
synced = record {
  local_index = index;
  remote_index = index;
  diff = record { to_create = []; to_update = []; to_delete = [] };
}

abbrev up : StackExecutionData
up = record { services = []; inline_env = []; needs_apply = false }

abbrev plan : ContextExecutionContext
plan = record {
  context_name = prod;
  identifier = codes "demo";
  stacks = (codes "web", up) ∷ [];
  filesets = (codes "prod/web/site", synced) ∷ [];
  existing_volumes = codes "site" ∷ [];
  existing_networks = codes "edge" ∷ [];
}

one_fileset :
    get_filesets_for_context one_stack prod
    ≡ (codes "prod/web/site", fileset_at prod (codes "web") (codes "site")) ∷ []
unfolding get_filesets_for_context filesets_of get_all_filesets copy_all text_beq
one_fileset = refl

stack_found :
    get_stacks_for_context one_stack prod ≡ (codes "web", stack_at (codes "prod/web") []) ∷ []
unfolding get_stacks_for_context stacks_of get_all_stacks merge_explicit copy_all cut text_beq
    parse_stack_key
stack_found = refl

one_volume : desired_volumes one_stack prod ≡ codes "site" ∷ []
unfolding desired_volumes get_filesets_for_context filesets_of get_all_filesets copy_all text_beq
one_volume = refl

one_network : desired_networks one_stack prod ≡ codes "edge" ∷ []
unfolding desired_networks text_beq
one_network = refl

settled_filesets :
    All
      (SettledFileset host disk order one_stack prod
        (some plan)
        empty_shelf
        (set_of (codes "site" ∷ []) []))
      (get_filesets_for_context one_stack prod)
unfolding return text_beq set_of
settled_filesets =
    rw one_fileset
      ((record { local = index; remote = index; diff = synced.diff }, refl, refl, refl), tt)

settled_stacks :
    All
      (SettledStack host disk order one_stack prod (some plan) empty_shelf)
      (get_stacks_for_context one_stack prod)
unfolding return text_beq
settled_stacks = rw stack_found ((up, refl, refl), tt)
