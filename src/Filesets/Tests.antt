-- ===== src/Filesets/Tests.antt =====
-- Concrete indexes, and the theorems at them.
use dockform.Base.{◌≡◌, refl, List, [], ◌∷◌, arith}
use dockform.Base.Text.{Text, codes, text_eq, text_beq}
use dockform.Base.Dict.{lookup}
use dockform.Base.Sort.{sort_by}
use dockform.Filesets.Index.{FileEntry, Index, by_path}
use dockform.Filesets.Diff.{diff_indexes}
use dockform.Filesets.Diff.Sync.{apply_diff, apply_diff-diff_indexes}

abbrev entry : Text → Text → FileEntry
entry path sum = record { path = path; size = 3; sha256 = sum }

abbrev index : List FileEntry → Text → Index
index files hash = record {
  version = codes "v1";
  target = codes "/";
  created_at = [];
  exclude = [];
  uid = 0;
  gid = 0;
  files = files;
  tree_hash = hash;
}

abbrev local : Index
local =
    index
      (entry (codes "b") (codes "22")
        ∷ entry (codes "a") (codes "11")
        ∷ entry (codes "c") (codes "33")
        ∷ [])
      (codes "new")

abbrev remote : Index
remote =
    index
      (entry (codes "b") (codes "2x")
        ∷ entry (codes "c") (codes "33")
        ∷ entry (codes "z") (codes "99")
        ∷ [])
      (codes "old")

diff_run : diff_indexes local remote ≡ record {
  to_create = entry (codes "a") (codes "11") ∷ [];
  to_update = entry (codes "b") (codes "22") ∷ [];
  to_delete = codes "z" ∷ [];
}
unfolding diff_indexes by_path sort_by text_beq
diff_run = refl

apply_diff-diff_indexes_example :
    lookup (codes "b") (apply_diff (diff_indexes local remote) (by_path remote.files []))
    ≡ lookup (codes "b") (by_path local.files [])
unfolding text_beq
apply_diff-diff_indexes_example =
    apply_diff-diff_indexes local remote (refl, (refl, (refl, tt)))
      (λ full e. absurd (ground (arith, e))) (codes "b")
