-- ===== src/Planner/Resource.antt =====
-- internal/planner/resource.go: resources with their actions, the plan of resources, and its counts;
-- serviceStatesToResources of build_plan_stacks.go, mergeResourcePlan of destroy.go. An `Action`
-- holds one of its five constants. Rendering to text is not modelled.
pub mod Tally
pub mod Merge
mod Tests
use dockform.Base.{
  ℕ, zero, suc, ◌+◌, Bool, true, false, not, ◌&&◌, ◌||◌, Option, none, some, List, [], ◌∷◌, ◌++◌,
  ◌==◌, if◌then◌else◌, length, nat_beq,
}
use dockform.Base.Text.{Text, codes, text_eq}
use dockform.Base.Dict.{Dict, lookup, insert}
use dockform.Manifest.Key.{make_stack_key}
use dockform.Planner.ServiceState.{
  ServiceState, missing, running, drifted, identifier_mismatch, ServiceInfo,
}

pub data Action : Type 0 where
  create update delete reconcile noop : Action

pub data ChangeType : Type 0 where
  add change remove no_change info : ChangeType

pub data ResourceType : Type 0 where
  volume network service container fileset file : ResourceType

pub record Resource : Type 0 where
  pub kind : ResourceType
  pub name : Text
  pub action : Action
  pub details : Text
  pub parent : Text
  pub change_type : ChangeType

pub record ResourcePlan : Type 0 where
  pub volumes : List Resource
  pub networks : List Resource
  pub stacks : Dict Text (List Resource)
  pub filesets : Dict Text (List Resource)
  pub containers : List Resource

abbrev action_to_change_type : Action → ChangeType
action_to_change_type create = add
action_to_change_type update = change
action_to_change_type delete = remove
action_to_change_type reconcile = change
action_to_change_type noop = no_change

abbrev pub new_resource : ResourceType → Text → Action → Text → Resource
new_resource kind name action details = record {
  kind = kind;
  name = name;
  action = action;
  details = details;
  parent = [];
  change_type = action_to_change_type action;
}

-- The text after a resource's name.
unfoldable format_action : Resource → Text
format_action r = elim r.action [
  | create ↦ codes "will be created"
  | update ↦ codes "will be updated"
  | delete ↦ codes "will be deleted"
  | reconcile ↦
      if not (r.details == [])
      then codes "will be reconciled (" ++ (r.details ++ codes ")")
      else codes "will be reconciled"
  | noop ↦ if not (r.details == []) then r.details else codes "up-to-date"
]

abbrev state_resource : ServiceInfo → ServiceState → Resource
state_resource i missing = new_resource service i.name create []
state_resource i identifier_mismatch =
    new_resource service i.name reconcile (codes "identifier mismatch")
state_resource i drifted = new_resource service i.name update (codes "config drift")
state_resource i running =
    if not (i.desired_hash == [])
    then new_resource service i.name noop (codes "up-to-date")
    else new_resource service i.name noop (codes "running")

unfoldable pub service_states_to_resources : List ServiceInfo → List Resource
service_states_to_resources [] = []
service_states_to_resources (i ∷ is) = state_resource i i.state ∷ service_states_to_resources is

-- create, update, delete
pub record Counts : Type 0 where
  pub creates : ℕ
  pub updates : ℕ
  pub deletes : ℕ

abbrev pub count_resource : Action → Counts → Counts
count_resource create n = record n { creates = n.creates + 1 }
count_resource update n = record n { updates = n.updates + 1 }
count_resource reconcile n = record n { updates = n.updates + 1 }
count_resource delete n = record n { deletes = n.deletes + 1 }
count_resource noop n = n

unfoldable pub count_list : List Resource → Counts → Counts
count_list [] n = n
count_list (r ∷ rs) n = count_list rs (count_resource r.action n)

unfoldable pub count_map : Dict Text (List Resource) → Counts → Counts
unfolding count_list
count_map [] n = n
count_map ((k, rs) ∷ d) n = count_map d (count_list rs n)

abbrev pub is_noop : Action → Bool
is_noop noop = true
is_noop _ = false

-- Of a fileset only the file operations count, not the status messages.
unfoldable pub count_files : List Resource → Counts → Counts
count_files [] n = n
count_files (r ∷ rs) n =
    count_files rs
      (if not (r.name == []) && not (is_noop r.action) then count_resource r.action n else n)

unfoldable pub count_filesets : Dict Text (List Resource) → Counts → Counts
unfolding count_files
count_filesets [] n = n
count_filesets ((k, rs) ∷ d) n = count_filesets d (count_files rs n)

abbrev pub no_counts : Counts
no_counts = record { creates = 0; updates = 0; deletes = 0 }

unfoldable pub count_actions : ResourcePlan → Counts
unfolding count_list count_map count_filesets
count_actions rp = count_list rp.containers (
    count_filesets rp.filesets
      (count_map rp.stacks (count_list rp.networks (count_list rp.volumes no_counts))))

-- `Plan.IsEmpty`
unfoldable is_empty_plan : ResourcePlan → Bool
unfolding count_actions
is_empty_plan rp =
    let n = count_actions rp in nat_beq n.creates 0 && nat_beq n.updates 0 && nat_beq n.deletes 0

unfoldable pub count_noop : List Resource → ℕ
count_noop [] = 0
count_noop (r ∷ rs) = if is_noop r.action then suc (count_noop rs) else count_noop rs

unfoldable service_units : Dict Text (List Resource) → ℕ
service_units [] = 0
service_units ((k, rs) ∷ d) = length rs + service_units d

-- The resources that a plan tracks; a fileset is one unit.
unfoldable total_units : ResourcePlan → ℕ
unfolding service_units
total_units rp =
    length rp.volumes
    + length rp.networks
    + length rp.containers
    + length rp.filesets
    + service_units rp.stacks

abbrev list_at : Option (List Resource) → List Resource
list_at (some rs) = rs
list_at none = []

-- `for k, v := range src { dst[k] = append(dst[k], v...) }`
unfoldable pub append_map :
    Dict Text (List Resource) → Dict Text (List Resource) → Dict Text (List Resource)
append_map [] dst = dst
append_map ((k, v) ∷ src) dst = append_map src (insert k (list_at (lookup k dst) ++ v) dst)

unfoldable pub merge_resource_plan : ResourcePlan → ResourcePlan → ResourcePlan
unfolding append_map
merge_resource_plan dst src = record {
  volumes = dst.volumes ++ src.volumes;
  networks = dst.networks ++ src.networks;
  stacks = append_map src.stacks dst.stacks;
  filesets = append_map src.filesets dst.filesets;
  containers = dst.containers ++ src.containers;
}
