-- ===== src/Filesets/Diff.antt =====
-- internal/filesets/index.go: `DiffIndexes`.
pub mod Parts
pub mod Sync
use dockform.Base.{Bool, true, false, not, ◌&&◌, ◌||◌, Option, none, some, List, [], ◌∷◌, ◌++◌}
use dockform.Base.{◌==◌, nat_beq, if◌then◌else◌}
use dockform.Base.Text.{Text, text_eq}
use dockform.Base.Dict.{Dict, lookup, has}
use dockform.Base.Sort.{sort_by}
use dockform.Filesets.Index.{FileEntry, Index, by_path}

pub record Diff : Type 0 where
  pub to_create : List FileEntry
  pub to_update : List FileEntry
  pub to_delete : List Text

abbrev pub no_diff : Diff
no_diff = record { to_create = []; to_update = []; to_delete = [] }

-- What the first loop does with one local file.
abbrev pub place_file : Option FileEntry → FileEntry → Diff → Diff
place_file none lf d = record d { to_create = d.to_create ++ (lf ∷ []) }
place_file (some rf) lf d =
    if not (rf.sha256 == lf.sha256) || not (nat_beq rf.size lf.size)
    then record d { to_update = d.to_update ++ (lf ∷ []) }
    else d

-- The loop over the local files.
classify : Dict Text FileEntry → List FileEntry → Diff → Diff
classify remote [] d = d
classify remote (lf ∷ fs) d = classify remote fs (place_file (lookup lf.path remote) lf d)

-- The loop over the remote files.
mark_removed : Dict Text FileEntry → List FileEntry → Diff → Diff
mark_removed local [] d = d
mark_removed local (rf ∷ fs) d =
    mark_removed local fs
      (if has rf.path local then d else record d { to_delete = d.to_delete ++ (rf.path ∷ []) })

sorted_diff : Diff → Diff
sorted_diff d = record {
  to_create = sort_by (λ f. f.path) d.to_create;
  to_update = sort_by (λ f. f.path) d.to_update;
  to_delete = sort_by (λ p. p) d.to_delete;
}

-- The path of the code behind the early return.
pub compare_files : List FileEntry → List FileEntry → Diff
unfolding classify mark_removed sorted_diff
compare_files local remote =
    sorted_diff
      (mark_removed (by_path local []) remote (classify (by_path remote []) local no_diff))

unfoldable pub diff_indexes : Index → Index → Diff
unfolding compare_files
diff_indexes local remote =
    if not (local.tree_hash == []) && local.tree_hash == remote.tree_hash
    then no_diff
    else compare_files local.files remote.files
