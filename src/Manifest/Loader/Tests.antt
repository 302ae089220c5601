-- ===== src/Manifest/Loader/Tests.antt =====
-- A manifest with one context beside a small directory tree, loaded, and the theorems at it.
use dockform.Base.{
  ◌≡◌, refl, ap, set_of, Bool, true, false, Option, none, some, List, [], ◌∷◌, ◌++◌, ◌==◌,
  if◌then◌else◌, All, Distinct, contains, nat_eq, arith,
}
use mathlib.Core.Path.{subst}
use dockform.Base.Text.{Text, codes, text_eq, text_beq}
use dockform.Base.Dict.{Dict, lookup, has, keys}
use dockform.Base.Result.{Result, ok, err}
use dockform.Base.Trim.{to_lower, trim_space}
use dockform.Base.Cut.{cut}
use dockform.Base.Sort.{sort_by}
use dockform.Apperr.{Err, plain}
use dockform.Manifest.Machine.{Stat, directory, file, not_exist, exists, DirEntry, Machine}
use dockform.Manifest.Key.{slash, parse_stack_key, make_stack_key}
use dockform.Manifest.Types.{Stack, FilesetSpec, Config}
use dockform.Manifest.Merge.{get_all_stacks}
use dockform.Base.Maps.{All-lookup}
use dockform.Manifest.BindMounts.{validate_bind_mounts_in_compose_file}
use dockform.Manifest.Inline.{dedup_inline}
use dockform.Manifest.Validate.{is_absolute, validate_filesets}
use dockform.Manifest.Validate.Valid.{IsValid}
use dockform.Manifest.Discover.{fileset_key, discover_resources}
use dockform.Manifest.Discover.Spec.{is_stack, PlainNames, fileset_of}
use dockform.Manifest.Discover.Volumes.{discover_resources-fileset_of}
use dockform.Manifest.Normalize.{resolved, normalize_and_validate}
use dockform.Manifest.Normalize.Settled.{Settled}
use dockform.Manifest.Normalize.Valid.{Accepted, normalize_and_validate-Accepted}
use dockform.Manifest.Loader.{read_manifest, load_with_warnings}
use dockform.Manifest.Loader.Loaded.{Fresh, load_with_warnings-Settled, load_with_warnings-is_stack}

abbrev entry : Text → Bool → DirEntry
entry name is_dir = record { name = name; is_dir = is_dir }

abbrev gone : Err
gone = plain (codes "no such file or directory")

abbrev tree : Dict Text Stat
tree =
    (codes "/srv/dockform.yaml", file)
    ∷ (codes "/srv/prod", directory)
    ∷ (codes "/srv/prod/web/compose.yml", file)
    ∷ (codes "/srv/prod/web/secrets.env", file)
    ∷ (codes "/srv/prod/web/volumes", directory)
    ∷ []

abbrev listings : Dict Text (List DirEntry)
listings =
    (codes "/srv/prod", entry (codes "notes") true ∷ entry (codes "web") true ∷ [])
    ∷ (codes "/srv/prod/web/volumes", entry (codes "site") true ∷ [])
    ∷ []

abbrev stat_or : Option Stat → Stat
stat_or none = not_exist gone
stat_or (some s) = s

abbrev listing_or : Option (List DirEntry) → Result Err (List DirEntry)
listing_or none = err gone
listing_or (some es) = ok es

abbrev content : Text
content = codes "identifier: ${NAME}${SUFFIX}"

abbrev join : Text → Text → Text
join a b = a ++ (slash ∷ b)

abbrev srv : Text
srv = codes "/srv"

abbrev machine : Machine
machine = record {
  stat = λ path. stat_or (lookup path tree);
  read_dir = λ path. listing_or (lookup path listings);
  read_file = λ path. ok content;
  getwd = ok srv;
  is_abs = is_absolute;
  abs = λ path. ok path;
  join = join;
  clean = λ path. path;
  rel = λ from path. ok path;
  base = λ path. codes "secrets.env";
  dir = λ path. srv;
  go_quote = λ text. text;
}

abbrev env : Text → Option Text
env name = if name == codes "NAME" then some (codes "demo") else none

abbrev prod : Text
prod = codes "prod"

abbrev web : Text
web = codes "web"

abbrev site : Text
site = codes "site"

abbrev given_config : Config
given_config = record {
  identifier = codes "demo";
  sops = none;
  discovery = record {
    compose_files = [];
    secrets_file = [];
    environment_file = [];
    volumes_dir = [];
  };
  contexts = (prod, record { host = []; volumes = []; networks = [] }) ∷ [];
  deployments =
      (
        codes "all",
        record { description = []; contexts = prod ∷ []; stacks = codes "prod/web" ∷ [] },
      )
      ∷ [];
  stacks = [];
  base_dir = [];
  targeted = false;
  discovered_stacks = [];
  discovered_filesets = [];
}

abbrev decode : Text → Result Text Config
decode text = ok given_config

abbrev based : Config
based = record given_config { base_dir = srv }

abbrev web_found : Stack
web_found = record {
  root = codes "/srv/prod/web";
  files = codes "/srv/prod/web/compose.yml" ∷ [];
  env_file = [];
  profiles = [];
  environment = none;
  secrets = none;
  project = none;
  filesets = [];
  context = prod;
  env_inline = [];
  sops_secrets = codes "secrets.env" ∷ [];
  root_abs = [];
}

abbrev web_settled : Stack
web_settled = record web_found {
  sops_secrets = codes "/srv/prod/web/secrets.env" ∷ [];
  root_abs = codes "/srv/prod/web";
}

abbrev site_found : FilesetSpec
site_found = record {
  source = codes "/srv/prod/web/volumes/site";
  target_volume = codes "web_site";
  target_path = codes "/";
  restart_services = record { attached = true; services = [] };
  apply_mode = codes "hot";
  exclude = [];
  ownership = none;
  source_abs = codes "/srv/prod/web/volumes/site";
  context = prod;
  stack = web;
}

abbrev found : Config
found = record based {
  discovered_stacks = (codes "prod/web", web_found) ∷ [];
  discovered_filesets = (codes "prod/web/site", site_found) ∷ [];
}

abbrev settled : Config
settled = record found { discovered_stacks = (codes "prod/web", web_settled) ∷ [] }

discover_run : discover_resources machine srv based ≡ ok found
unfolding discover_resources text_beq
discover_run = refl

normalize_run : normalize_and_validate machine srv found ≡ ok settled
unfolding normalize_and_validate text_beq parse_stack_key get_all_stacks
    validate_bind_mounts_in_compose_file set_of validate_filesets dedup_inline to_lower trim_space
normalize_run = refl

load_run : load_with_warnings machine env decode [] ≡ ok (settled, codes "SUFFIX" ∷ [])
unfolding load_with_warnings text_beq parse_stack_key get_all_stacks
    validate_bind_mounts_in_compose_file set_of validate_filesets dedup_inline sort_by to_lower
    trim_space
load_run = refl

decode-Fresh : Fresh decode
decode-Fresh text c e =
    let same : given_config ≡ c = cc in
    subst (λ (c : Config). (c.discovered_stacks ≡ []) × Distinct (keys c.stacks)) same (refl, tt)

listed : (o : Option (List DirEntry)) (es : List DirEntry) → listing_or o ≡ ok es → o ≡ some es
listed none es h = absurd (ground (arith, h))
listed (some x) es h = ap some cc

machine-PlainNames : PlainNames machine
machine-PlainNames dir es h =
    All-lookup (λ x. All (λ e. contains e.name slash ≡ false) x.1) dir es listings
      ((refl, (refl, tt)), ((refl, tt), tt)) (listed (lookup dir listings) es h)

parsed_run : parse_stack_key (codes "prod/web") ≡ ok (prod, web)
unfolding parse_stack_key cut text_beq
parsed_run = refl

stack_run : lookup (codes "prod/web") (get_all_stacks settled) ≡ some web_settled
unfolding get_all_stacks text_beq
stack_run = refl

load_with_warnings-Settled_example : Settled machine web_settled
load_with_warnings-Settled_example =
    load_with_warnings-Settled machine env decode decode-Fresh [] settled (codes "SUFFIX" ∷ [])
      load_run (codes "prod/web") prod web web_settled parsed_run stack_run

no_name : exists (machine.stat []) ≡ false
unfolding text_beq
no_name = refl

load_with_warnings-is_stack_example :
    (file_path content : Text) × (read_manifest machine (codes "manifest.Load") []
      ≡ ok (file_path, content))
    × (has (make_stack_key prod web) settled.discovered_stacks
        ≡ is_stack machine settled.discovery (machine.dir file_path) settled.contexts prod web)
load_with_warnings-is_stack_example =
    load_with_warnings-is_stack machine env decode decode-Fresh [] settled (codes "SUFFIX" ∷ [])
      load_run no_name prod web refl

normalize_and_validate-Accepted_example :
    Accepted found
    × All
        (λ (e : Text × FilesetSpec). IsValid is_absolute (resolved machine srv) srv e.1)
        settled.discovered_filesets
normalize_and_validate-Accepted_example =
    normalize_and_validate-Accepted machine srv found settled normalize_run

discover_resources-fileset_of_example :
    lookup (fileset_key prod web site) found.discovered_filesets
    ≡ fileset_of machine based.discovery srv based.contexts prod web site
discover_resources-fileset_of_example =
    discover_resources-fileset_of machine srv based found prod web site refl refl machine-PlainNames
      (refl, tt) refl discover_run
