-- ===== src/Planner/Apply/Keeps/Sync.antt =====
-- The calls of the synchronisation of a fileset.
use dockform.Base.{Option, none, some, List, [], ◌∷◌, All, nat_eq}
use dockform.Base.Text.{Text, text_eq}
use dockform.Base.Result.{Result, ok, err}
use dockform.Apperr.{Err}
use dockform.Manifest.Types.{FilesetSpec, Ownership}
use dockform.Filesets.Index.{Index}
use dockform.Filesets.Diff.{Diff}
use dockform.Filesets.Local.{Disk}
use dockform.Planner.Client.{
  Call, restart_container, stop_containers, start_containers, extract_tar, remove_paths, write_file,
  run_script, Daemon, World,
}
use dockform.Planner.Prune.{FilesetExecutionData}
use dockform.Planner.Run.{Run, call, Keeps, keeping, >>=-Keeps, call-Keeps, fail-Keeps}
use dockform.Planner.Apply.Sync.{
  compare, stop_all, stop_targets, after_restart, restart_cold_on_failure, recover, on_failure,
  start_stopped, sync_stopped, sync_changed, sync_fileset,
}
use dockform.Planner.Apply.Volume.{
  Compared, sync_fileset_files, delete_fileset_files, write_fileset_index, own, apply_ownership,
  index_file_name, write_volume,
}
use dockform.Planner.Apply.Keeps.{resolve_target_services-Keeps}

after_restart-calls :
    {D : Daemon} (P : Call → Type 0) (disk : Disk) (name : Text) (base : Err)
    (r : Result Err (Unit {0}) × World D)
    → All P r.1.calls
    → All P (after_restart {D = D} disk name base r).1.calls
after_restart-calls P disk name base (ok _, w) h = h
after_restart-calls P disk name base (err e, w) h = h

module _ {D : Daemon} {P : Call → Type 0} where
  -- What a synchronisation of a fileset may call.
  module _ (disk : Disk) (restarts : (n : Text) → P (restart_container n))
      (stops : (ns : List Text) → P (stop_containers ns))
      (starts : (ns : List Text) → P (start_containers ns)) (fs : FilesetSpec)
      (extracts : (ps : List Text)
        → P (extract_tar fs.target_volume fs.target_path fs.source_abs ps))
      (removes : (ps : List Text) → P (remove_paths fs.target_volume fs.target_path ps))
      (writes : (t : Text) → P (write_file fs.target_volume fs.target_path index_file_name t))
      (runs : (t : Text) → P (run_script fs.target_volume fs.target_path t)) where
    sync_fileset_files-Keeps :
        (name : Text) (d : Diff) → Keeps P (sync_fileset_files {D = D} disk name fs d)
    unfolding sync_fileset_files
    sync_fileset_files-Keeps name d = search (keeping, extracts)

    delete_fileset_files-Keeps :
        (name : Text) (d : Diff) → Keeps P (delete_fileset_files {D = D} disk name fs d)
    unfolding delete_fileset_files
    delete_fileset_files-Keeps name d = search (keeping, removes)

    write_fileset_index-Keeps :
        (name : Text) (i : Index) → Keeps P (write_fileset_index {D = D} disk name fs i)
    unfolding write_fileset_index
    write_fileset_index-Keeps name i = search (keeping, writes)

    own-Keeps :
        (o : Option Ownership) (name : Text) (d : Diff) → Keeps P (own {D = D} disk o name fs d)
    own-Keeps none name d = search keeping
    own-Keeps (some o) name d = search (keeping, runs)

    apply_ownership-Keeps :
        (name : Text) (d : Diff) → Keeps P (apply_ownership {D = D} disk name fs d)
    unfolding apply_ownership
    apply_ownership-Keeps name d = own-Keeps fs.ownership name d

    write_volume-Keeps :
        (name : Text) (c : Compared) → Keeps P (write_volume {D = D} disk name fs c)
    unfolding write_volume
    write_volume-Keeps name c = search (
      keeping, sync_fileset_files-Keeps, delete_fileset_files-Keeps, write_fileset_index-Keeps,
      apply_ownership-Keeps,
    )

    restart_cold_on_failure-Keeps :
        (name : Text) (cs : List Text) (e : Err)
        → Keeps P (restart_cold_on_failure {D = D} disk name cs e)
    unfolding restart_cold_on_failure
    restart_cold_on_failure-Keeps name [] e = record { kept = (fail-Keeps _ e).kept }
    restart_cold_on_failure-Keeps name (c ∷ cs) e = record {
      kept = λ w h.
          after_restart-calls P disk name e (call (start_containers (c ∷ cs)) w)
            ((call-Keeps _ (starts (c ∷ cs))).kept w h);
    }

    recover-calls :
        (handler : Err → Run D (Unit {0})) (r : Result Err (Unit {0}) × World D)
        → ((e : Err) → Keeps P (handler e))
        → All P r.1.calls
        → All P (recover {D = D} disk handler r).1.calls
    recover-calls handler (ok _, w) k h = h
    recover-calls handler (err e, w) k h = (k e).kept w h

    on_failure-Keeps :
        (m : Run D (Unit {0})) (handler : Err → Run D (Unit {0}))
        → Keeps P m
        → ((e : Err) → Keeps P (handler e))
        → Keeps P (on_failure {D = D} disk m handler)
    unfolding on_failure
    on_failure-Keeps m handler h k = record {
      kept = λ w a. recover-calls handler (m w) k (h.kept w a);
    }

    start_stopped-Keeps :
        (name : Text) (cs : List Text) → Keeps P (start_stopped {D = D} disk name cs)
    unfolding start_stopped
    start_stopped-Keeps name [] = search keeping
    start_stopped-Keeps name (c ∷ cs) = search (keeping, starts)

    sync_stopped-Keeps :
        (name : Text) (c : Compared) (cs : List Text)
        → Keeps P (sync_stopped {D = D} disk name fs c cs)
    unfolding sync_stopped
    sync_stopped-Keeps name c cs =
        >>=-Keeps
          (on_failure-Keeps _ _ (write_volume-Keeps name c) (restart_cold_on_failure-Keeps name cs))
          (λ _. start_stopped-Keeps name cs)

    stop_all-Keeps : (name : Text) (cs : List Text) → Keeps P (stop_all {D = D} disk name cs)
    stop_all-Keeps name [] = search keeping
    stop_all-Keeps name (c ∷ cs) = search (keeping, stops)

    stop_targets-Keeps :
        (name : Text) (ss : List Text) → Keeps P (stop_targets {D = D} disk name fs ss)
    unfolding stop_targets
    stop_targets-Keeps name ss = search (keeping, stop_all-Keeps)

    sync_changed-Keeps :
        (name : Text) (c : Compared) (ps : List Text)
        → Keeps P (sync_changed {D = D} disk name fs c ps)
    sync_changed-Keeps name c ps =
        search (keeping, resolve_target_services-Keeps, stop_targets-Keeps, sync_stopped-Keeps)

    compare-Keeps :
        (o : Option FilesetExecutionData) (name : Text) (vols : List Text)
        → Keeps P (compare {D = D} disk o name fs vols)
    compare-Keeps none name vols = search keeping
    compare-Keeps (some d) name vols = search keeping

    pub sync_fileset-Keeps :
        (o : Option FilesetExecutionData) (vols : List Text) (name : Text) (ps : List Text)
        → Keeps P (sync_fileset {D = D} disk o vols name fs ps)
    unfolding sync_fileset
    sync_fileset-Keeps o vols name ps = search (keeping, compare-Keeps, sync_changed-Keeps)
