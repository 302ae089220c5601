-- ===== src/Planner/Apply/Sync.antt =====
-- internal/planner/apply_filesets.go: the synchronisation of filesets into their volumes.
use dockform.Base.{
  Bool, not, ◌&&◌, Option, none, some, List, [], ◌∷◌, ◌++◌, ◌==◌, if◌then◌else◌, is_empty, contains,
}
use dockform.Base.Text.{Text, codes, text_eq}
use dockform.Base.Dict.{Dict, lookup}
use dockform.Base.Sort.{sort_by}
use dockform.Base.Result.{Result, ok, err}
use dockform.Apperr.{Err, Kind, external, internal, invalid_input, wrap, new, aggregate}
use dockform.Manifest.Types.{FilesetSpec, Config}
use dockform.Manifest.Merge.{get_filesets_for_context}
use dockform.Filesets.Diff.{diff_indexes}
use dockform.Filesets.Local.{Disk, build_local_index, parse_index_json}
use dockform.Planner.Client.{PsBrief, stop_containers, start_containers, Daemon, World}
use dockform.Planner.Prune.{FilesetExecutionData, ContextExecutionContext}
use dockform.Planner.Run.{Run, return, fail, ◌>>=◌, ◌>>◌, ask, given, call, wrapping}
use dockform.Planner.Apply.Volume.{index_file_name, Compared, write_volume}
use dockform.Planner.Apply.Restart.{resolve_target_services}

abbrev sync_op : Text
sync_op = codes "filesetmanager.SyncFilesetsForContext"

abbrev sync_error : Kind → Text → Text → Err → Err
sync_error kind msg name e = wrap sync_op kind e (msg ++ name)

abbrev pub is_cold : FilesetSpec → Bool
is_cold fs = fs.apply_mode == codes "cold"

-- The inner loop over the listed containers, for one target service.
unfoldable pub container_to_stop : List PsBrief → Text → Option Text
container_to_stop [] svc = none
container_to_stop (it ∷ items) svc =
    let rest = container_to_stop items svc in if it.service == svc then some it.name else rest

-- The first container of each target service.
unfoldable pub containers_to_stop : List PsBrief → List Text → List Text
unfolding container_to_stop
containers_to_stop items [] = []
containers_to_stop items (s ∷ ss) = elim (container_to_stop items s) [
  | none ↦ containers_to_stop items ss
  | some name ↦ if s == [] then containers_to_stop items ss else name ∷ containers_to_stop items ss
]

-- `restartPending[svc] = struct{}{}` for each service that is not empty.
unfoldable pub queue_services : List Text → List Text → List Text
queue_services [] pending = pending
queue_services (s ∷ ss) pending =
    queue_services ss
      (if s == [] then pending else if contains pending s then pending else pending ++ (s ∷ []))

abbrev pub start_error : Text → Err → Err
start_error name e = sync_error external (codes "restart cold-mode containers for fileset ") name e

abbrev first_err : Option Err → Err → Err
first_err none e = e
first_err (some e') e = e'

abbrev pub cached_fileset : Option ContextExecutionContext → Text → Option FilesetExecutionData
cached_fileset none name = none
cached_fileset (some x) name = lookup name x.filesets

module _ {D : Daemon} (disk : Disk) where
  -- The index of the volume, which is read only if the volume exists.
  abbrev pub read_index : Text → FilesetSpec → List Text → Run D Text
  read_index name fs existing =
      if contains existing fs.target_volume
      then wrapping (sync_error external (codes "read index file for fileset ") name)
          (ask (D.read_file_from_volume fs.target_volume fs.target_path index_file_name))
      else return []

  abbrev pub compare_fresh : Text → FilesetSpec → List Text → Run D Compared
  compare_fresh name fs existing = do
    local ←
        wrapping (sync_error internal (codes "index local filesets for ") name)
          (given (build_local_index disk fs.source_abs fs.target_path fs.exclude))
    raw ← read_index name fs existing
    remote ←
        wrapping (sync_error external (codes "parse remote index for fileset ") name)
          (given (parse_index_json disk raw))
    return (record { local = local; remote = remote; diff = diff_indexes local remote })

  -- The indexes of the plan, where it has them.
  abbrev pub compare : Option FilesetExecutionData → Text → FilesetSpec → List Text → Run D Compared
  compare (some d) name fs existing =
      return (record { local = d.local_index; remote = d.remote_index; diff = d.diff })
  compare none name fs existing = compare_fresh name fs existing

  abbrev pub stop_all : Text → List Text → Run D (List Text)
  stop_all name [] = return []
  stop_all name (c ∷ cs) = do
    wrapping (sync_error external (codes "stop cold-mode containers for fileset ") name)
        (call (stop_containers (c ∷ cs)))
    return (c ∷ cs)

  -- The containers that are stopped: in cold mode only.
  unfoldable pub stop_targets : Text → FilesetSpec → List Text → Run D (List Text)
  unfolding containers_to_stop
  stop_targets name fs services =
      if not (is_cold fs && not (is_empty services)) then return [] else do
        items ←
            wrapping (sync_error external (codes "list compose containers for cold fileset ") name)
              (ask D.list_compose_containers_all)
        stop_all name (containers_to_stop items services)

  -- The error of a failed restart is put with the error before it.
  abbrev pub after_restart :
      Text → Err → Result Err (Unit {0}) × World D → Result Err (Unit {0}) × World D
  after_restart name base (ok _, w) = (err base, w)
  after_restart name base (err e, w) = (
    err (
        first_err
          (aggregate sync_op external
            (codes "fileset sync failed and cold-mode service restart also failed")
            (some base ∷ some (start_error name e) ∷ []))
          base),
    w,
  )

  -- `restartColdContainersOnFailure`
  unfoldable pub restart_cold_on_failure : Text → List Text → Err → Run D (Unit {0})
  restart_cold_on_failure name [] base w = fail base w
  restart_cold_on_failure name (c ∷ cs) base w =
      after_restart name base (call (start_containers (c ∷ cs)) w)

  abbrev pub recover :
      (Err → Run D (Unit {0})) → Result Err (Unit {0}) × World D → Result Err (Unit {0}) × World D
  recover handler (ok _, w) = (ok tt, w)
  recover handler (err e, w) = handler e w

  unfoldable pub on_failure : Run D (Unit {0}) → (Err → Run D (Unit {0})) → Run D (Unit {0})
  on_failure m handler w = recover handler (m w)

  unfoldable pub start_stopped : Text → List Text → Run D (Unit {0})
  start_stopped name [] = return tt
  start_stopped name (c ∷ cs) = wrapping (start_error name) (call (start_containers (c ∷ cs)))

  -- The synchronisation between the stop and the start of the containers.
  unfoldable pub sync_stopped : Text → FilesetSpec → Compared → List Text → Run D (Unit {0})
  unfolding write_volume restart_cold_on_failure start_stopped on_failure
  sync_stopped name fs c stopped = do
    on_failure (write_volume disk name fs c) (restart_cold_on_failure name stopped)
    start_stopped name stopped

  abbrev pub sync_changed : Text → FilesetSpec → Compared → List Text → Run D (List Text)
  sync_changed name fs c pending = do
    services ←
        wrapping (sync_error external (codes "resolve target services for fileset ") name)
          (resolve_target_services fs)
    stopped ← stop_targets name fs services
    sync_stopped name fs c stopped
    return (if is_cold fs then pending else queue_services services pending)

  -- An equal tree needs nothing.
  abbrev pub sync_compared : Text → FilesetSpec → List Text → Compared → Run D (List Text)
  sync_compared name fs pending c =
      if c.local.tree_hash == c.remote.tree_hash
      then return pending
      else sync_changed name fs c pending

  unfoldable pub sync_fileset :
      Option FilesetExecutionData → List Text → Text → FilesetSpec → List Text → Run D (List Text)
  unfolding stop_targets sync_stopped queue_services
  sync_fileset cached existing name fs pending =
      if fs.source_abs == []
      then fail (
          new sync_op invalid_input
            (codes "fileset " ++ (name ++ codes ": resolved source path is empty")))
      else do c ← compare cached name fs existing; sync_compared name fs pending c

  unfoldable pub sync_each :
      Option ContextExecutionContext
      → List Text
      → Dict Text FilesetSpec
      → List Text
      → Run D (List Text)
  unfolding sync_fileset
  sync_each exec existing [] pending = return pending
  sync_each exec existing ((name, fs) ∷ d) pending = do
    pending' ← sync_fileset (cached_fileset exec name) existing name fs pending
    sync_each exec existing d pending'

  -- In the order of the names; the services to restart afterwards.
  unfoldable pub sync_filesets :
      Config → Text → List Text → Option ContextExecutionContext → Run D (List Text)
  unfolding sync_each
  sync_filesets cfg context existing exec =
      sync_each exec existing (sort_by (λ e. e.0) (get_filesets_for_context cfg context)) []
