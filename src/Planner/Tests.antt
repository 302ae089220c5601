-- ===== src/Planner/Tests.antt =====
-- A small daemon with two networks, a container and two volumes, and the theorems at it.
use dockform.Base.{
  ℕ, zero, suc, ◌<◌, ◌≡◌, ◌↔◌, refl, true, not, ◌&&◌, Option, none, List, [], ◌∷◌, ◌++◌, ◌==◌,
  arith, contains, nat_eq, select, set_of, map, length,
}
use dockform.Base.Text.{Text, codes, text_eq, text_beq}
use dockform.Base.Result.{Result, ok, err}
use dockform.Apperr.{wrap, external, Err, plain}
use dockform.Manifest.Types.{Stack}
use dockform.Manifest.Tests.{config, stack_at}
use dockform.Planner.Client.{PsBrief, Call, remove_volume, remove_network, Daemon, World, do_call}
use dockform.Planner.ServiceState.{
  running, missing, Host, build_inline_env, append_secrets, get_planned_services,
}
use dockform.Planner.ServiceState.Detect.{
  Facts, detect_service_state_fast, detect_all_sequential, detect_all_parallel, place_values, judge,
  desired_hash_of, labels_of,
}
use dockform.Planner.ServiceState.Laws.{UpToDate, detect_service_state_fast-UpToDate}
use dockform.Planner.ServiceState.Parallel.{detect_all_parallel-sequential}
use dockform.Planner.Prune.{
  Progress, Desired, desired_networks, desired_services, prune_containers, prune_networks,
  services_for_stack,
}
use dockform.Planner.Prune.Networks.{
  prune_networks_calls, prune_networks_unowned, prune_containers_unknown,
}

pub record Lab : Type 0 where
  pub volumes : List Text
  pub networks : List Text
  pub owned : Result Err (List Text)
  pub containers : List PsBrief

abbrev lab_act : Call → Lab → Option Err × Lab
lab_act (remove_volume v) l = (none, record l { volumes = select (λ x. not (x == v)) l.volumes })
lab_act (remove_network n) l = (none, record l { networks = select (λ x. not (x == n)) l.networks })
lab_act _ l = (none, l)

abbrev pub lab : Daemon
lab = record {
  State = Lab;
  act = lab_act;
  list_volumes = λ l. ok l.volumes;
  list_networks = λ l. ok l.networks;
  list_compose_networks = λ l. l.owned;
  list_compose_containers_all = λ l. ok l.containers;
  list_containers_using_volume = λ _ _. ok [];
  read_file_from_volume = λ _ _ _ _. err (plain (codes "no file"));
  inspect_labels = λ _ _ _. ok ((codes "com.docker.compose.config-hash", codes "h1") ∷ []);
  read_index_files_from_volumes = λ _ _ _. ok [];
  inspect_many_labels = λ _ _ _. ok none;
  compose_config_full = λ _ _ _. err (plain (codes "no compose"));
  compose_config_services = λ _ _ _. err (plain (codes "no compose"));
  compose_config_hash = λ _ _ _ _ _ _. ok (codes "h1");
  compose_config_hashes = λ _ _ _ _ _ _. ok [];
  compose_ps = λ _ _ _ _. ok [];
}

abbrev pub host : Host
host = record { is_abs = λ _. true; join = λ a b. a ++ b; decrypt_and_parse = λ _ _. ok [] }

abbrev pub start : Result Err (List Text) → World lab
start owned = record {
  state = record {
    volumes = codes "site" ∷ codes "junk" ∷ [];
    networks = codes "edge" ∷ codes "web_default" ∷ [];
    owned = owned;
    containers =
        record { project = codes "web"; service = codes "app"; name = codes "web-app-1" } ∷ [];
  };
  calls = [];
}

abbrev pub prod : Text
prod = codes "prod"

abbrev pub owning : World lab
owning = start (ok (codes "web_default" ∷ []))

abbrev failing : World lab
failing = start (err (plain (codes "daemon busy")))

abbrev pub progress : World lab → Progress lab
progress w = record { world = w; errs = [] }

networks_run :
    (prune_networks lab host config prod (progress failing)).world.calls
    ≡ remove_network (codes "web_default") ∷ []
unfolding prune_networks desired_networks set_of text_beq do_call
networks_run = refl

prune_networks_calls_example :
    (prune_networks lab host config prod (progress owning)).world.calls
    ≡ []
      ++ map remove_network (
          select
            (λ n.
              not (contains (desired_networks config prod) n)
              && not (contains (codes "web_default" ∷ []) n))
            (set_of (codes "edge" ∷ codes "web_default" ∷ []) []))
prune_networks_calls_example =
    prune_networks_calls lab host config prod (progress owning)
      (codes "edge" ∷ codes "web_default" ∷ []) refl (codes "web_default" ∷ []) refl

prune_networks_unowned_example :
    (prune_networks lab host config prod (progress failing)).world.calls
    ≡ []
      ++ map remove_network (
          select
            (λ n. not (contains (desired_networks config prod) n))
            (set_of (codes "edge" ∷ codes "web_default" ∷ []) []))
prune_networks_unowned_example =
    prune_networks_unowned lab host config prod (progress failing)
      (codes "edge" ∷ codes "web_default" ∷ []) refl (plain (codes "daemon busy")) refl

abbrev web_stack : Stack
web_stack = stack_at (codes "prod/web") []

abbrev none_yet : Desired lab host config prod
none_yet = record { services = []; can_prune = true; errs = [] }

abbrev unlisted : Err
unlisted =
    wrap (codes "planner.collectDesiredServicesForStack") external (plain (codes "no compose"))
      (codes "list planned services for stack prod/web")

web_unlisted : services_for_stack lab host config prod web_stack owning.state ≡ err unlisted
unfolding services_for_stack build_inline_env append_secrets get_planned_services
web_unlisted = refl

prune_containers_unknown_example :
    (prune_containers lab host config prod
      (desired_services lab host config prod none
        ([] ++ ((codes "web", web_stack) ∷ []))
        owning.state
        none_yet)
      (progress owning)).world.calls
    ≡ []
prune_containers_unknown_example =
    prune_containers_unknown lab host config prod none (codes "web") web_stack [] [] none_yet
      (progress owning) unlisted refl web_unlisted

abbrev app_facts : Facts
app_facts = record {
  stack_name = codes "web";
  stack = web_stack;
  identifier = [];
  inline = [];
  running = (codes "app", record { name = codes "web-app-1"; service = codes "app" }) ∷ [];
  desired_hashes = (codes "app", codes "h1") ∷ [];
  labels_by_container = [];
}

app_up : (detect_service_state_fast lab app_facts (codes "app") owning.state).state ≡ running
unfolding detect_service_state_fast desired_hash_of labels_of judge text_beq
app_up = refl

db_missing : (detect_service_state_fast lab app_facts (codes "db") owning.state).state ≡ missing
unfolding detect_service_state_fast text_beq
db_missing = refl

detect_service_state_fast-UpToDate_example :
    ((detect_service_state_fast lab app_facts (codes "app") owning.state).state ≡ running)
    ↔ UpToDate lab app_facts (codes "app") owning.state
detect_service_state_fast-UpToDate_example =
    detect_service_state_fast-UpToDate lab app_facts (codes "app") owning.state

abbrev two_services : List Text
two_services = codes "app" ∷ codes "db" ∷ []

every_place : (i : ℕ) → i < length two_services → contains (1 ∷ 0 ∷ []) i ≡ true
every_place zero h = refl
every_place (suc zero) h = refl
every_place (suc (suc i)) h = absurd (omega arith)

detect_all_parallel-sequential_example :
    place_values (detect_all_parallel lab app_facts two_services (1 ∷ 0 ∷ []) owning.state)
    ≡ detect_all_sequential lab app_facts two_services owning.state
detect_all_parallel-sequential_example =
    detect_all_parallel-sequential lab app_facts two_services owning.state (1 ∷ 0 ∷ []) every_place
