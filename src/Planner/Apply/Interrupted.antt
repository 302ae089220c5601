-- ===== src/Planner/Apply/Interrupted.antt =====
-- internal/planner/apply_filesets.go: a synchronisation that fails after it has written the index.
use dockform.Base.{◌≡◌, refl, true, false, none, some, List, [], ◌++◌, ◌==◌, arith, contains}
use dockform.Base.Text.{Text, codes, text_eq, text_beq, text_beq_iff}
use dockform.Base.Result.{ok, err}
use dockform.Apperr.{Err, wrap, internal}
use dockform.Manifest.Types.{FilesetSpec, Ownership}
use dockform.Filesets.Diff.{Diff}
use dockform.Filesets.Local.{Disk, build_local_index, parse_index_json}
use dockform.Planner.Client.{write_file, Daemon, World, do_call}
use dockform.Planner.Run.{◌>>=◌, wrapping, return, ask, given, call}
use dockform.Util.Path.{clean, elements, render}
use dockform.Planner.Apply.Ownership.{build_ownership_script, refuse}
use dockform.Planner.Apply.Sync.{sync_fileset}
use dockform.Planner.Apply.Volume.{
  Compared, sync_fileset_files, delete_fileset_files, write_fileset_index, apply_ownership,
  has_no_mode, write_volume, index_file_name,
}

root_refused :
    (o : Ownership) (d : Diff)
    → build_ownership_script (codes "/") o d
      ≡ err (refuse (codes "unsafe target path: ") (codes "/"))
unfolding build_ownership_script clean elements render text_beq
root_refused o d = refl

-- The error of a fileset whose target path is `/`.
abbrev pub refusal : Text → Err
refusal name =
    wrap (codes "filesetmanager.applyOwnership") internal
      (refuse (codes "unsafe target path: ") (codes "/"))
      (codes "build ownership script for " ++ name)

text_refl : (t : Text) → (t == t) ≡ true
text_refl t = ground (arith, text_beq_iff t t)

module _ {D : Daemon} (disk : Disk) (name : Text) (fs : FilesetSpec) (c : Compared) where
  abbrev pub index_written : Text → World D → World D
  index_written json w =
      (do_call (write_file fs.target_volume fs.target_path index_file_name json) w).1

  write_volume_root :
      (o : Ownership) (json : Text) (w w₁ w₂ : World D)
      → fs.target_path ≡ codes "/"
      → fs.ownership ≡ some o
      → has_no_mode o ≡ false
      → disk.marshal c.local ≡ ok json
      → sync_fileset_files disk name fs c.diff w ≡ (ok tt, w₁)
      → delete_fileset_files disk name fs c.diff w₁ ≡ (ok tt, w₂)
      → (D.act (write_file fs.target_volume fs.target_path index_file_name json) w₂.state).0 ≡ none
      → write_volume disk name fs c w ≡ (err (refusal name), index_written json w₂)
  unfolding write_volume write_fileset_index apply_ownership ◌>>=◌ wrapping given call do_call
  write_volume_root o json w w₁ w₂ root owned modes printed synced deleted written =
      rw (synced, deleted, printed, written, owned, modes, root, root_refused o c.diff) refl

  read_back :
      (json : Text) (vols pending : List Text) (w : World D)
      → (fs.source_abs == []) ≡ false
      → contains vols fs.target_volume ≡ true
      → build_local_index disk fs.source_abs fs.target_path fs.exclude ≡ ok c.local
      → parse_index_json disk json ≡ ok c.local
      → D.read_file_from_volume fs.target_volume fs.target_path index_file_name w.state ≡ ok json
      → sync_fileset disk none vols name fs pending w ≡ (ok pending, w)
  unfolding sync_fileset ◌>>=◌ wrapping given ask return
  read_back json vols pending w set there built parsed stored =
      rw (set, built, there, stored, parsed, text_refl c.local.tree_hash) refl

  -- Let a fileset have a source, the default target path `/`, and an owner or a mode, and a volume
  -- that is among those given. Let its local index be the one that is built from the source, and let
  -- its files be sent and removed and its index be written without an error, on a daemon that reads
  -- back what it has written to the volume, with an index that parses back from its JSON. Then the
  -- work on the volume fails, since no script for the ownership is made for `/`, with no call after
  -- the write of the index. The next synchronisation without a plan succeeds and makes no call: the
  -- ownership is not set, and the failure is not seen again.
  pub write_volume-sync_fileset :
      (o : Ownership) (json : Text) (vols pending : List Text) (w w₁ w₂ : World D)
      → (fs.source_abs == []) ≡ false
      → fs.target_path ≡ codes "/"
      → fs.ownership ≡ some o
      → has_no_mode o ≡ false
      → contains vols fs.target_volume ≡ true
      → build_local_index disk fs.source_abs fs.target_path fs.exclude ≡ ok c.local
      → disk.marshal c.local ≡ ok json
      → parse_index_json disk json ≡ ok c.local
      → sync_fileset_files disk name fs c.diff w ≡ (ok tt, w₁)
      → delete_fileset_files disk name fs c.diff w₁ ≡ (ok tt, w₂)
      → (D.act (write_file fs.target_volume fs.target_path index_file_name json) w₂.state).0 ≡ none
      → ((t : Text) (s : D.State)
          → D.read_file_from_volume fs.target_volume fs.target_path index_file_name
              (D.act (write_file fs.target_volume fs.target_path index_file_name t) s).1
            ≡ ok t)
      → (write_volume disk name fs c w ≡ (err (refusal name), index_written json w₂))
        × (sync_fileset disk none vols name fs pending (index_written json w₂)
            ≡ (ok pending, index_written json w₂))
  unfolding do_call
  write_volume-sync_fileset o json vols pending w w₁ w₂ set root owned modes there built printed
        parsed synced deleted written stores =
      (
        write_volume_root o json w w₁ w₂ root owned modes printed synced deleted written,
        read_back json vols pending (index_written json w₂) set there built parsed
            (stores json w₂.state),
      )
