-- ===== src/Manifest/Discover.antt =====
-- internal/manifest/loader.go: the stacks and filesets that are found in the directories of the
-- contexts. The file system is a parameter. The contexts are taken in the order of the list, and
-- an error leaves nothing of the maps, which the caller drops.
pub mod Spec
pub mod Compose
pub mod Found
pub mod Volumes
pub mod Once
use dockform.Base.{Bool, true, false, Option, none, some, List, [], ◌∷◌, ◌++◌, ◌==◌, if◌then◌else◌}
use dockform.Base.Text.{Text, codes, text_eq}
use dockform.Base.Dict.{Dict, insert}
use dockform.Base.Result.{Result, ok, err, ◌>>=◌}
use dockform.Apperr.{Err, wrap, internal}
use dockform.Manifest.Machine.{Stat, directory, file, not_exist, failed, exists, DirEntry, Machine}
use dockform.Manifest.Key.{make_stack_key}
use dockform.Manifest.Types.{
  Stack, FilesetSpec, ContextConfig, DiscoveryConfig, Config, get_compose_files, get_secrets_file,
  get_environment_file, get_volumes_dir,
}

-- The two maps that the discovery fills.
pub record Discovered : Type 0 where
  pub stacks : Dict Text Stack
  pub filesets : Dict Text FilesetSpec

-- `context/stack/volume`
abbrev pub fileset_key : Text → Text → Text → Text
fileset_key context stack volume = make_stack_key context (make_stack_key stack volume)

abbrev pub fileset_found : Text → Text → Text → Text → FilesetSpec
fileset_found context stack volume source_dir = record {
  source = source_dir;
  target_volume = stack ++ (b'_' ∷ volume);
  target_path = codes "/";
  restart_services = record { attached = true; services = [] };
  apply_mode = codes "hot";
  exclude = [];
  ownership = none;
  source_abs = source_dir;
  context = context;
  stack = stack;
}

module _ (H : Machine) (discovery : DiscoveryConfig) where
  unfoldable pub find_compose_file : Text → List Text → Text
  find_compose_file dir [] = []
  find_compose_file dir (name ∷ names) =
      let rest = find_compose_file dir names in
      let path = H.join dir name in if exists (H.stat path) then path else rest

  -- `findSecretsFile`, and `findEnvFile`, which is the same.
  abbrev find_file : Text → Text → Text
  find_file dir name = let path = H.join dir name in if exists (H.stat path) then path else []

  unfoldable pub fileset_entries :
      Text → Text → Text → List DirEntry → Dict Text FilesetSpec → Dict Text FilesetSpec
  fileset_entries context stack volumes_dir [] d = d
  fileset_entries context stack volumes_dir (e ∷ es) d =
      fileset_entries context stack volumes_dir es (
        if e.is_dir
        then insert (fileset_key context stack e.name)
            (fileset_found context stack e.name (H.join volumes_dir e.name)) d
        else d)

  abbrev filesets_in :
      Text → Text → Text → Stat → Dict Text FilesetSpec → Result Err (Dict Text FilesetSpec)
  filesets_in context stack dir directory d = elim (H.read_dir dir) [
    | ok entries ↦ ok (fileset_entries context stack dir entries d)
    | err e ↦
        err (wrap (codes "manifest.discoverFilesets") internal e (codes "read volumes dir " ++ dir))
  ]
  filesets_in context stack dir file d = ok d
  filesets_in context stack dir (not_exist e) d = ok d
  filesets_in context stack dir (failed e) d =
      err (wrap (codes "manifest.discoverFilesets") internal e (codes "stat volumes dir " ++ dir))

  unfoldable pub discover_filesets :
      Text → Text → Text → Dict Text FilesetSpec → Result Err (Dict Text FilesetSpec)
  unfolding fileset_entries get_volumes_dir
  discover_filesets context stack stack_dir d =
      let dir = H.join stack_dir (get_volumes_dir discovery) in
      filesets_in context stack dir (H.stat dir) d

  abbrev rebased : Text → Text → List Text
  rebased stack_dir [] = []
  rebased stack_dir (c ∷ s) = elim (H.rel stack_dir (c ∷ s)) [
    | ok path ↦ path ∷ []
    | err e ↦ (c ∷ s) ∷ []
  ]

  abbrev base_of : Text → List Text
  base_of [] = []
  base_of (c ∷ s) = H.base (c ∷ s) ∷ []

  -- The entry of a stack: the secrets of the context before those of the stack.
  unfoldable pub stack_found : Text → Text → Text → Text → Stack
  unfolding get_secrets_file get_environment_file
  stack_found context stack_dir compose_file context_secrets = record {
    root = stack_dir;
    files = compose_file ∷ [];
    env_file = base_of (find_file stack_dir (get_environment_file discovery));
    profiles = [];
    environment = none;
    secrets = none;
    project = none;
    filesets = [];
    context = context;
    env_inline = [];
    sops_secrets =
        rebased stack_dir context_secrets
        ++ base_of (find_file stack_dir (get_secrets_file discovery));
    root_abs = [];
  }

  -- One entry of a context's directory, which is a stack where it has a compose file.
  abbrev add_found : Text → Text → Text → Text → Text → Discovered → Result Err Discovered
  add_found context name stack_dir context_secrets [] d = ok d
  add_found context name stack_dir context_secrets (c ∷ s) d =
      discover_filesets context name stack_dir d.filesets >>= λ filesets. ok (record {
        stacks =
            insert (make_stack_key context name)
              (stack_found context stack_dir (c ∷ s) context_secrets) d.stacks;
        filesets = filesets;
      })

  unfoldable pub stack_entries :
      Text → Text → Text → List DirEntry → Discovered → Result Err Discovered
  unfolding find_compose_file discover_filesets stack_found get_compose_files
  stack_entries context dir context_secrets [] d = ok d
  stack_entries context dir context_secrets (e ∷ es) d =
      let stack_dir = H.join dir e.name in
      (if e.is_dir
        then add_found context e.name stack_dir context_secrets
            (find_compose_file stack_dir (get_compose_files discovery)) d
        else ok d)
      >>= stack_entries context dir context_secrets es

  abbrev stacks_in : Text → Text → Stat → Discovered → Result Err Discovered
  stacks_in context dir directory d = elim (H.read_dir dir) [
    | ok entries ↦ stack_entries context dir (find_file dir (get_secrets_file discovery)) entries d
    | err e ↦
        err
          (wrap (codes "manifest.discoverResources") internal e (codes "read context dir " ++ dir))
  ]
  stacks_in context dir file d = ok d
  stacks_in context dir (not_exist e) d = ok d
  stacks_in context dir (failed e) d =
      err (wrap (codes "manifest.discoverResources") internal e (codes "stat context dir " ++ dir))

  unfoldable pub discover_contexts :
      Text → Dict Text ContextConfig → Discovered → Result Err Discovered
  unfolding stack_entries
  discover_contexts base_dir [] d = ok d
  discover_contexts base_dir ((context, cfg) ∷ contexts) d =
      let dir = H.join base_dir context in
      stacks_in context dir (H.stat dir) d >>= discover_contexts base_dir contexts

unfoldable pub discover_resources : Machine → Text → Config → Result Err Config
unfolding discover_contexts
discover_resources H base_dir c =
    discover_contexts H c.discovery base_dir c.contexts
      (record { stacks = c.discovered_stacks; filesets = c.discovered_filesets })
    >>= λ d. ok (record c { discovered_stacks = d.stacks; discovered_filesets = d.filesets })
