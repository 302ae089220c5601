-- ===== src/Filesets/Diff/Parts.antt =====
-- The three lists of a difference, as selections of the two file lists.
use mathlib.Core.List.{append-nil, append_assoc}
use dockform.Base.{◌≡◌, Bool, false, not, ◌||◌, Option, none, some, List, [], ◌∷◌, ◌++◌, arith}
use dockform.Base.{◌==◌, nat_beq, select}
use dockform.Base.Text.{Text, text_eq}
use dockform.Base.Dict.{Dict, lookup, has}
use dockform.Base.Sort.{sort_by}
use dockform.Filesets.Index.{FileEntry, by_path, paths}
use dockform.Filesets.Diff.{Diff, no_diff, classify, mark_removed, compare_files, place_file}

abbrev pub is_changed : Option FileEntry → FileEntry → Bool
is_changed none lf = false
is_changed (some rf) lf = not (rf.sha256 == lf.sha256) || not (nat_beq rf.size lf.size)

abbrev pub created : Dict Text FileEntry → List FileEntry → List FileEntry
created remote = select (λ lf. not (has lf.path remote))

abbrev pub updated : Dict Text FileEntry → List FileEntry → List FileEntry
updated remote = select (λ lf. is_changed (lookup lf.path remote) lf)

abbrev pub removed : Dict Text FileEntry → List FileEntry → List Text
removed local fs = paths (select (λ rf. not (has rf.path local)) fs)

classify_lem :
    (remote : Dict Text FileEntry) (fs : List FileEntry) (d : Diff)
    → classify remote fs d ≡ record d {
      to_create = d.to_create ++ created remote fs;
      to_update = d.to_update ++ updated remote fs;
    }
unfolding classify
classify_lem remote [] d = simp append-nil
classify_lem remote (lf ∷ fs) d = ground (
  arith,
  classify_lem remote fs (place_file (lookup lf.path remote) lf d),
  append_assoc d.to_create (lf ∷ []) (created remote fs),
  append_assoc d.to_update (lf ∷ []) (updated remote fs),
)

mark_removed_lem :
    (local : Dict Text FileEntry) (fs : List FileEntry) (d : Diff)
    → mark_removed local fs d ≡ record d { to_delete = d.to_delete ++ removed local fs }
unfolding mark_removed
mark_removed_lem local [] d = simp append-nil
mark_removed_lem local (rf ∷ fs) d = ground (
  arith,
  mark_removed_lem local fs d,
  mark_removed_lem local fs (record d { to_delete = d.to_delete ++ (rf.path ∷ []) }),
  append_assoc d.to_delete (rf.path ∷ []) (removed local fs),
)

pub compare_files_lem :
    (local remote : List FileEntry)
    → compare_files local remote ≡ record {
      to_create = sort_by (λ f. f.path) (created (by_path remote []) local);
      to_update = sort_by (λ f. f.path) (updated (by_path remote []) local);
      to_delete = sort_by (λ p. p) (removed (by_path local []) remote);
    }
unfolding compare_files
compare_files_lem local remote =
    rw (classify_lem (by_path remote []) local no_diff, mark_removed_lem)
