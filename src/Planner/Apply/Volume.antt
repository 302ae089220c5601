-- ===== src/Planner/Apply/Volume.antt =====
-- internal/planner/apply_filesets.go and apply_ownership.go: the work of a synchronisation on a volume.
use dockform.Base.{Bool, ◌&&◌, Option, none, some, List, [], ◌++◌, ◌==◌, if◌then◌else◌, is_empty}
use dockform.Base.Text.{Text, codes, text_eq}
use dockform.Base.Sort.{sort_by}
use dockform.Base.Result.{ok, err}
use dockform.Apperr.{external, internal, wrap}
use dockform.Manifest.Types.{FilesetSpec, Ownership}
use dockform.Filesets.Index.{Index, paths}
use dockform.Filesets.Diff.{Diff}
use dockform.Filesets.Local.{Disk, to_json}
use dockform.Planner.Client.{extract_tar, remove_paths, write_file, run_script, Daemon}
use dockform.Planner.Run.{Run, return, ◌>>=◌, ◌>>◌, given, call, wrapping}
use dockform.Planner.Apply.Ownership.{build_ownership_script}

abbrev pub index_file_name : Text
index_file_name = codes ".dockform-index.json"

abbrev pub has_no_mode : Ownership → Bool
has_no_mode o = o.user == [] && o.group == [] && o.file_mode == [] && o.dir_mode == []

pub record Compared : Type 0 where
  pub local : Index
  pub remote : Index
  pub diff : Diff

abbrev pub changed_paths : Diff → List Text
changed_paths diff = sort_by (λ p. p) (paths (diff.to_create ++ diff.to_update))

module _ {D : Daemon} (disk : Disk) where
  abbrev build_tar : Text → Text → List Text → Run D (Unit {0})
  build_tar name source ps =
      wrapping
        (λ e.
          wrap (codes "filesetmanager.syncFilesetFiles") internal e
            (codes "build tar for fileset " ++ name))
        (given (elim (disk.tar_files source ps) [ none ↦ ok tt | some e ↦ err e ]))

  unfoldable pub sync_fileset_files : Text → FilesetSpec → Diff → Run D (Unit {0})
  sync_fileset_files name fs diff = if is_empty (changed_paths diff) then return tt else do
    build_tar name fs.source_abs (changed_paths diff)
    wrapping
        (λ e.
          wrap (codes "filesetmanager.syncFilesetFiles") external e
            (codes "extract tar for fileset " ++ name))
        (call (extract_tar fs.target_volume fs.target_path fs.source_abs (changed_paths diff)))

  unfoldable pub delete_fileset_files : Text → FilesetSpec → Diff → Run D (Unit {0})
  delete_fileset_files name fs diff =
      if is_empty diff.to_delete
      then return tt
      else wrapping
          (λ e.
            wrap (codes "filesetmanager.deleteFilesetFiles") external e
              (codes "delete files for fileset " ++ name))
          (call (remove_paths fs.target_volume fs.target_path diff.to_delete))

  unfoldable pub write_fileset_index : Text → FilesetSpec → Index → Run D (Unit {0})
  write_fileset_index name fs index = do
    json ←
        wrapping
          (λ e.
            wrap (codes "filesetmanager.writeFilesetIndex") internal e
              (codes "encode index for " ++ name))
          (given (to_json disk index))
    wrapping
        (λ e.
          wrap (codes "filesetmanager.writeFilesetIndex") external e
            (codes "write index for fileset " ++ name))
        (call (write_file fs.target_volume fs.target_path index_file_name json))

  abbrev pub run_ownership : Text → FilesetSpec → Ownership → Diff → Run D (Unit {0})
  run_ownership name fs o diff = do
    script ←
        wrapping
          (λ e.
            wrap (codes "filesetmanager.applyOwnership") internal e
              (codes "build ownership script for " ++ name))
          (given (build_ownership_script fs.target_path o diff))
    wrapping
        (λ e.
          wrap (codes "filesetmanager.applyOwnership") external e
            (codes "apply ownership for fileset " ++ name))
        (call (run_script fs.target_volume fs.target_path script))

  abbrev pub own : Option Ownership → Text → FilesetSpec → Diff → Run D (Unit {0})
  own none name fs diff = return tt
  own (some o) name fs diff = if has_no_mode o then return tt else run_ownership name fs o diff

  unfoldable pub apply_ownership : Text → FilesetSpec → Diff → Run D (Unit {0})
  apply_ownership name fs diff = own fs.ownership name fs diff

  -- The four steps on a volume, in their order.
  unfoldable pub write_volume : Text → FilesetSpec → Compared → Run D (Unit {0})
  unfolding sync_fileset_files delete_fileset_files write_fileset_index apply_ownership
  write_volume name fs c = do
    sync_fileset_files name fs c.diff
    delete_fileset_files name fs c.diff
    write_fileset_index name fs c.local
    apply_ownership name fs c.diff
