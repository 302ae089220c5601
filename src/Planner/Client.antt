-- ===== src/Planner/Client.antt =====
-- internal/planner/interfaces.go: `DockerClient`. The daemon behind it is not part of the program,
-- so it is a parameter: a state, queries that read it, and calls that change it and may fail. The
-- world of a run is the daemon's state with the calls made so far.
use dockform.Base.{Bool, Option, List, [], ◌∷◌, ◌++◌}
use dockform.Base.Text.{Text}
use dockform.Base.Dict.{Dict}
use dockform.Base.Result.{Result}
use dockform.Apperr.{Err}
use dockform.Manifest.Types.{Stack}

pub record PsBrief : Type 0 where
  pub project : Text
  pub service : Text
  pub name : Text

-- Of a `ComposePsItem` the planner reads these.
pub record ComposePsItem : Type 0 where
  pub name : Text
  pub service : Text

-- The calls that change the daemon.
pub data Call : Type 0 where
  create_volume create_network : Text → Dict Text Text → Call
  remove_volume remove_network : Text → Call
  remove_container : Text → Bool → Call
  restart_container : Text → Call
  stop_containers start_containers : List Text → Call
  extract_tar : Text → Text → Text → List Text → Call
  remove_paths : Text → Text → List Text → Call
  write_file : Text → Text → Text → Text → Call
  run_script : Text → Text → Text → Call
  update_labels : Text → Dict Text Text → Call
  compose_up : Stack → Text → List Text → Call

pub record Daemon : Type 1 where
  pub State : Type 0
  pub act : Call → State → Option Err × State
  pub list_volumes : State → Result Err (List Text)
  pub list_networks : State → Result Err (List Text)
  pub list_compose_networks : State → Result Err (List Text)
  pub list_compose_containers_all : State → Result Err (List PsBrief)
  pub list_containers_using_volume : Text → State → Result Err (List Text)
  pub read_file_from_volume : Text → Text → Text → State → Result Err Text
  pub read_index_files_from_volumes : List Text → Text → State → Result Err (Dict Text Text)
  pub inspect_labels : Text → List Text → State → Result Err (Dict Text Text)
  pub inspect_many_labels :
      List Text → List Text → State → Result Err (Option (Dict Text (Dict Text Text)))
  pub compose_config_full : Stack → List Text → State → Result Err (List Text)
  pub compose_config_services : Stack → List Text → State → Result Err (List Text)
  pub compose_config_hash : Stack → Text → Text → Text → List Text → State → Result Err Text
  pub compose_config_hashes :
      Stack → Text → List Text → Text → List Text → State → Result Err (Dict Text Text)
  pub compose_ps : Stack → Text → List Text → State → Result Err (List ComposePsItem)

module _ (D : Daemon) where
  pub record World : Type 0 where
    pub state : D.State
    pub calls : List Call

module _ {D : Daemon} where
  unfoldable pub do_call : Call → World D → Option Err × World D
  do_call c w =
      let (e, s) = D.act c w.state in (e, record { state = s; calls = w.calls ++ (c ∷ []) })
