-- ===== src/Manifest/Tests.antt =====
-- A concrete configuration with two contexts, and the theorems at it.
use dockform.Base.{◌≡◌, refl, true, false, none, some, List, [], ◌∷◌, nat_eq}
use dockform.Base.Text.{Text, codes, text_eq, text_beq}
use dockform.Base.Dict.{lookup, has}
use dockform.Manifest.Merge.Ignored.{with_filesets, get_all_stacks-with_filesets}
use dockform.Base.Result.{ok}
use dockform.Base.Cut.{cut}
use dockform.Manifest.Key.{parse_stack_key}
use dockform.Manifest.Types.{Stack, FilesetSpec, ContextConfig, Config}
use dockform.Manifest.Merge.{get_all_stacks, merge_explicit, copy_all, augment}
use dockform.Manifest.Merge.Laws.{IsMerged, get_all_stacks-IsMerged}

abbrev pub stack_at : Text → List Text → Stack
stack_at root profiles = record {
  root = root;
  files = codes "compose.yaml" ∷ [];
  env_file = [];
  profiles = profiles;
  environment = none;
  secrets = none;
  project = none;
  filesets = [];
  context = codes "prod";
  env_inline = [];
  sops_secrets = [];
  root_abs = root;
}

abbrev pub fileset_at : Text → Text → Text → FilesetSpec
fileset_at context stack volume = record {
  source = codes "volumes/";
  target_volume = volume;
  target_path = codes "/data";
  restart_services = record { attached = true; services = [] };
  apply_mode = codes "hot";
  exclude = [];
  ownership = none;
  source_abs = codes "/srv";
  context = context;
  stack = stack;
}

abbrev context_config : ContextConfig
context_config = record {
  host = [];
  volumes = [];
  networks =
      (
        codes "edge",
        record {
          driver = [];
          options = [];
          internal = false;
          attachable = false;
          ipv6 = false;
          subnet = [];
          gateway = [];
          ip_range = [];
          aux_addresses = [];
        },
      )
      ∷ [];
}

abbrev pub config : Config
config = record {
  identifier = codes "demo";
  sops = none;
  discovery = record {
    compose_files = [];
    secrets_file = [];
    environment_file = [];
    volumes_dir = [];
  };
  contexts = (codes "prod", context_config) ∷ (codes "lab", context_config) ∷ [];
  deployments =
      (codes "all", record { description = []; contexts = codes "prod" ∷ []; stacks = [] }) ∷ [];
  stacks =
      (codes "prod/web", stack_at (codes "x") (codes "blue" ∷ []))
      ∷ (codes "lab/db", stack_at (codes "lab/db") [])
      ∷ [];
  base_dir = codes "/srv";
  targeted = false;
  discovered_stacks =
      (codes "prod/web", stack_at (codes "prod/web") [])
      ∷ (codes "prod/api", stack_at (codes "prod/api") [])
      ∷ [];
  discovered_filesets =
      (codes "prod/web/site", fileset_at (codes "prod") (codes "web") (codes "site"))
      ∷ (codes "prod/web/own", fileset_at (codes "prod") (codes "prod/web") (codes "own"))
      ∷ [];
}

merge_run :
    lookup (codes "prod/web") (get_all_stacks config)
    ≡ some (stack_at (codes "prod/web") (codes "blue" ∷ []))
unfolding get_all_stacks merge_explicit copy_all augment text_beq
merge_run = refl

parse_run : parse_stack_key (codes "prod/a/b") ≡ ok (codes "prod", codes "a/b")
unfolding parse_stack_key cut text_beq
parse_run = refl

abbrev prod : Text
prod = codes "prod"

abbrev web : Text
web = codes "web"

parsed_run : parse_stack_key (codes "prod/web") ≡ ok (prod, web)
unfolding parse_stack_key cut text_beq
parsed_run = refl

get_all_stacks-IsMerged_example :
    IsMerged
      (lookup (codes "prod/web") config.stacks)
      (lookup (codes "prod/web") config.discovered_stacks)
      (lookup (codes "prod/web") (get_all_stacks config))
unfolding text_beq
get_all_stacks-IsMerged_example =
    get_all_stacks-IsMerged config (codes "prod/web") (refl, (refl, tt)) (refl, (refl, tt))

web_discovered : has (codes "prod/web") config.discovered_stacks ≡ true
unfolding text_beq
web_discovered = refl

get_all_stacks-with_filesets_example :
    get_all_stacks (record config {
      stacks =
          with_filesets
            (codes "prod/web")
            ((codes "site", fileset_at (codes "prod") (codes "web") (codes "other")) ∷ [])
            config.stacks;
    })
    ≡ get_all_stacks config
get_all_stacks-with_filesets_example =
    get_all_stacks-with_filesets config (codes "prod/web")
      ((codes "site", fileset_at (codes "prod") (codes "web") (codes "other")) ∷ []) web_discovered
