-- ===== src/Planner/ServiceState/Detect.antt =====
-- internal/planner/service_state.go: the detection of one service and of all services of a stack.
use dockform.Base.{
  ℕ, zero, suc, Bool, false, not, ◌||◌, ◌&&◌, Option, none, some, List, [], ◌∷◌, ◌++◌, ◌==◌,
  is_empty, if◌then◌else◌,
}
use dockform.Base.Text.{Text, codes, text_eq}
use dockform.Base.Dict.{Dict, lookup}
use dockform.Base.Result.{Result, ok, err, ◌>>=◌}
use dockform.Apperr.{Err, external, wrap}
use dockform.Manifest.Types.{Stack, SopsConfig}
use dockform.Planner.Client.{ComposePsItem, Daemon}
use dockform.Planner.ServiceState.{
  ServiceState, missing, running, drifted, identifier_mismatch, ServiceInfo, Host, hash_key,
  identifier_key, label_keys, project_name, if_ok, build_inline_env, get_planned_services,
  get_running_services,
}

abbrev pub text_or : Option Text → Text
text_or (some t) = t
text_or none = []

-- What is known of the services before they are looked at one by one.
pub record Facts : Type 0 where
  pub stack_name : Text
  pub stack : Stack
  pub identifier : Text
  pub inline : List Text
  pub running : Dict Text ComposePsItem
  pub desired_hashes : Dict Text Text
  pub labels_by_container : Dict Text (Dict Text Text)

-- `v, ok := labels[key]; ok && v == value`
abbrev pub lookup_is : Text → Text → Dict Text Text → Bool
lookup_is key value labels = elim (lookup key labels) [ some v ↦ v == value | none ↦ false ]

-- The checks of a running service, from its labels: the identifier, then the hash.
unfoldable pub judge : Text → Text → Dict Text Text → ServiceInfo → ServiceInfo
judge identifier desired labels info =
    let found = text_or (lookup hash_key labels) in
    if not (identifier == []) && not (lookup_is identifier_key identifier labels)
    then record info { state = identifier_mismatch }
    else if not (desired == [])
    then if found == [] || not (found == desired)
      then record info { running_hash = found; state = drifted }
      else record info { running_hash = found }
    else info

-- `results[result.order] = result` for each arrival; nothing has arrived in an empty place.
unfoldable pub fill : ℕ → ServiceInfo → List (Option ServiceInfo) → List (Option ServiceInfo)
fill i info [] = []
fill zero info (r ∷ rs) = some info ∷ rs
fill (suc i) info (r ∷ rs) = r ∷ fill i info rs

unfoldable pub service_at : ℕ → List Text → Text
service_at i [] = []
service_at zero (x ∷ xs) = x
service_at (suc i) (x ∷ xs) = service_at i xs

unfoldable pub empty_places : List Text → List (Option ServiceInfo)
empty_places [] = []
empty_places (x ∷ xs) = none ∷ empty_places xs

module _ (D : Daemon) (f : Facts) where
  unfoldable pub desired_hash_of : Text → D.State → Text
  desired_hash_of service s =
      let known = text_or (lookup service f.desired_hashes) in
      if known == []
      then if_ok
          (D.compose_config_hash f.stack (project_name f.stack) service f.identifier f.inline s)
          (λ h. h) []
      else known

  unfoldable pub labels_of : ComposePsItem → D.State → Result Err (Dict Text Text)
  labels_of container s = elim (lookup container.name f.labels_by_container) [
    | some labels ↦ ok labels
    | none ↦ D.inspect_labels container.name (label_keys f.identifier) s
  ]

  -- Labels that cannot be read count as drift.
  abbrev pub judge_labels : Result Err (Dict Text Text) → Text → ServiceInfo → ServiceInfo
  judge_labels (ok labels) desired info = judge f.identifier desired labels info
  judge_labels (err e) desired info = record info { state = drifted }

  abbrev pub fresh_info : Text → Text → ServiceState → Option ComposePsItem → ServiceInfo
  fresh_info service desired state container = record {
    name = service;
    app_name = f.stack_name;
    state = state;
    desired_hash = desired;
    running_hash = [];
    container = container;
  }

  abbrev pub detect_found : Option ComposePsItem → Text → D.State → ServiceInfo
  detect_found none service s = fresh_info service (desired_hash_of service s) missing none
  detect_found (some container) service s =
      let desired = desired_hash_of service s in
      judge_labels (labels_of container s) desired
        (fresh_info service desired running (some container))

  unfoldable pub detect_service_state_fast : Text → D.State → ServiceInfo
  unfolding desired_hash_of labels_of judge
  detect_service_state_fast service s = detect_found (lookup service f.running) service s

  unfoldable pub detect_all_sequential : List Text → D.State → List ServiceInfo
  detect_all_sequential [] s = []
  detect_all_sequential (service ∷ services) s =
      detect_service_state_fast service s ∷ detect_all_sequential services s

  unfoldable pub collect_arrivals :
      List Text → List ℕ → D.State → List (Option ServiceInfo) → List (Option ServiceInfo)
  unfolding fill service_at
  collect_arrivals services [] s results = results
  collect_arrivals services (i ∷ arrivals) s results =
      collect_arrivals services arrivals s
        (fill i (detect_service_state_fast (service_at i services) s) results)

  -- The goroutines finish in the order of `arrivals`, a list of positions.
  unfoldable pub detect_all_parallel : List Text → List ℕ → D.State → List (Option ServiceInfo)
  unfolding collect_arrivals empty_places
  detect_all_parallel services arrivals s =
      collect_arrivals services arrivals s (empty_places services)

abbrev pub wrap_err : Text → Result Err (List Text) → Result Err (List Text)
wrap_err msg (ok names) = ok names
wrap_err msg (err e) = err (wrap (codes "servicestate.DetectAllServicesState") external e msg)

abbrev zero_info : ServiceInfo
zero_info = record {
  name = [];
  app_name = [];
  state = missing;
  desired_hash = [];
  running_hash = [];
  container = none;
}

-- A place that no goroutine wrote holds the zero value.
unfoldable pub place_values : List (Option ServiceInfo) → List ServiceInfo
place_values [] = []
place_values (none ∷ rs) = zero_info ∷ place_values rs
place_values (some info ∷ rs) = info ∷ place_values rs

abbrev container_names : Dict Text ComposePsItem → List Text
container_names [] = []
container_names ((k, it) ∷ d) = it.name ∷ container_names d

module _ (D : Daemon) where
  -- The hashes and labels that are read in one batch; a failed batch counts as empty.
  unfoldable pub gather_facts : Text → Stack → Text → List Text → List Text → D.State → Facts
  gather_facts stack_name stack identifier inline planned s =
      let up = get_running_services D stack inline s in
      record {
        stack_name = stack_name;
        stack = stack;
        identifier = identifier;
        inline = inline;
        running = up;
        desired_hashes =
            if_ok (D.compose_config_hashes stack (project_name stack) planned identifier inline s)
              (λ hashes. hashes) [];
        labels_by_container =
            if is_empty up
            then []
            else if_ok (D.inspect_many_labels (container_names up) (label_keys identifier) s)
                (λ got. elim got [ some labels ↦ labels | none ↦ [] ]) [];
      }

  -- The end of the detection: in parallel, with the order in which goroutines finish, or one by
  -- one.
  abbrev pub run_detection : Option (List ℕ) → Facts → List Text → D.State → List ServiceInfo
  run_detection none f planned s = detect_all_sequential D f planned s
  run_detection (some arrivals) f planned s =
      place_values (detect_all_parallel D f planned arrivals s)

  abbrev pub detect_planned :
      Option (List ℕ) → Text → Stack → Text → List Text → List Text → D.State → List ServiceInfo
  detect_planned parallel stack_name stack identifier inline [] s = []
  detect_planned parallel stack_name stack identifier inline planned s =
      run_detection parallel (gather_facts stack_name stack identifier inline planned s) planned s

  unfoldable pub detect_all_services_state :
      Host
      → Option (List ℕ)
      → Text
      → Stack
      → Text
      → Option SopsConfig
      → D.State
      → Result Err (List ServiceInfo)
  unfolding gather_facts
  detect_all_services_state H parallel stack_name stack identifier sops s = do
    inline ← build_inline_env H stack sops
    planned ←
        wrap_err (codes "failed to get planned services for stack " ++ stack_name)
          (get_planned_services D stack inline s)
    ok (detect_planned parallel stack_name stack identifier inline planned s)
