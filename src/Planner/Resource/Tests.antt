-- ===== src/Planner/Resource/Tests.antt =====
-- Two small plans, and the theorems at them.
use dockform.Base.{none, List, [], ◌∷◌, nat_eq}
use dockform.Base.Text.{Text, codes, text_eq}
use dockform.Planner.ServiceState.{ServiceState, running, drifted, ServiceInfo}
use dockform.Planner.Resource.{
  ResourcePlan, ResourceType, create, file, new_resource, service_states_to_resources,
}

abbrev info : Text → ServiceState → ServiceInfo
info name state = record {
  name = name;
  app_name = codes "web";
  state = state;
  desired_hash = codes "h1";
  running_hash = [];
  container = none;
}

abbrev two_infos : List ServiceInfo
two_infos = info (codes "app") running ∷ info (codes "db") drifted ∷ []

abbrev plan_of : Text → ResourcePlan
plan_of name = record {
  volumes = new_resource ResourceType.volume name create [] ∷ [];
  networks = [];
  stacks = (codes "web", service_states_to_resources two_infos) ∷ [];
  filesets = (codes "site", new_resource file (codes "index.html") create [] ∷ []) ∷ [];
  containers = [];
}
