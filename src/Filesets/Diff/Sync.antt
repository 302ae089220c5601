-- ===== src/Filesets/Diff/Sync.antt =====
-- What a difference does to the files of a volume: the created and updated files are written, and
-- then the deleted ones are removed.
use dockform.Base.{
  ◌≡◌, ◌≢◌, refl, Bool, false, not, ◌&&◌, Option, none, some, List, [], ◌∷◌, ◌++◌, arith,
}
use dockform.Base.{
  ◌==◌, nat_beq_iff, select, contains, Distinct, if◌then◌else◌, Bool-cases, is_some, inl, inr,
}
use dockform.Base.Text.{Text, text_eq, text_beq_iff, text_ltb_irrefl}
use dockform.Base.Dict.{Dict, lookup, has, erase, lookup-erase}
use dockform.Base.Sort.{sort_by, place, contains-sort_by}
use dockform.Filesets.Index.{
  FileEntry, Index, by_path, paths, entry_at, or_entry, lookup-by_path, entry_at-path,
  entry_at-append, contains-paths,
}
use dockform.Filesets.Diff.{Diff, compare_files, diff_indexes}
use dockform.Filesets.Diff.Parts.{created, updated, removed, is_changed, compare_files_lem}

erase_all : List Text → Dict Text FileEntry → Dict Text FileEntry
erase_all [] m = m
erase_all (k ∷ ks) m = erase_all ks (erase k m)

pub apply_diff : Diff → Dict Text FileEntry → Dict Text FileEntry
unfolding erase_all
apply_diff d m = erase_all d.to_delete (by_path (d.to_create ++ d.to_update) m)

lookup-erase_all :
    (k : Text) (ks : List Text) (m : Dict Text FileEntry)
    → lookup k (erase_all ks m) ≡ (if contains ks k then none else lookup k m)
unfolding erase_all
lookup-erase_all k [] m = refl
lookup-erase_all k (j ∷ ks) m =
    ground (arith, lookup-erase_all k ks (erase j m), lookup-erase j k m)

entry_at-place :
    (k : Text) (f : FileEntry) (fs : List FileEntry)
    → entry_at k (place (λ g. g.path) f fs) ≡ entry_at k (f ∷ fs)
unfolding place
entry_at-place k f [] = refl
entry_at-place k f (g ∷ fs) =
    ground (
      arith,
      entry_at-place k f fs,
      text_beq_iff f.path k,
      text_beq_iff g.path k,
      text_ltb_irrefl k,
    )

entry_at-sort_by :
    (k : Text) (fs : List FileEntry) → entry_at k (sort_by (λ g. g.path) fs) ≡ entry_at k fs
unfolding sort_by
entry_at-sort_by k [] = refl
entry_at-sort_by k (f ∷ fs) =
    ground (arith, entry_at-place k f (sort_by (λ g. g.path) fs), entry_at-sort_by k fs)

abbrev kept : (FileEntry → Bool) → Option FileEntry → Option FileEntry
kept p none = none
kept p (some f) = if p f then some f else none

entry_at-select :
    (p : FileEntry → Bool) (k : Text) (fs : List FileEntry)
    → Distinct (paths fs)
    → entry_at k (select p fs) ≡ kept p (entry_at k fs)
entry_at-select p k [] u = refl
entry_at-select p k (f ∷ fs) u =
    ground (arith, entry_at-select p k fs u.1, text_beq_iff f.path k, contains-paths k fs)

contains-removed :
    (local : Dict Text FileEntry) (k : Text) (fs : List FileEntry)
    → contains (removed local fs) k ≡ (is_some (entry_at k fs) && not (has k local))
contains-removed local k [] = refl
contains-removed local k (f ∷ fs) =
    ground (arith, contains-removed local k fs, text_beq_iff f.path k)

-- An entry that is neither new nor changed is the remote one.
same_entry : (rf lf : FileEntry) → rf.path ≡ lf.path → is_changed (some rf) lf ≡ false → rf ≡ lf
same_entry rf lf same h =
    ground (arith, text_beq_iff rf.sha256 lf.sha256, nat_beq_iff rf.size lf.size)

by_path-path :
    (k : Text) (fs : List FileEntry) (f : FileEntry)
    → lookup k (by_path fs []) ≡ some f
    → f.path ≡ k
by_path-path k fs f h = ground (arith, lookup-by_path k fs [], entry_at-path k fs f)

module _ (remote : List FileEntry) (k : Text) where
  abbrev before : Dict Text FileEntry
  before = by_path remote []

  -- What `k` holds once the new and changed files are written, from its local entry.
  abbrev written : Option FileEntry → Option FileEntry
  written o =
      or_entry
        (or_entry (kept (λ f. is_changed (lookup f.path before) f) o)
          (kept (λ f. not (has f.path before)) o))
        (lookup k before)

  written_lem :
      (o r : Option FileEntry)
      → ((f : FileEntry) → o ≡ some f → f.path ≡ k)
      → lookup k before ≡ r
      → written o ≡ or_entry o r
  written_lem none r at h = ground arith
  written_lem (some f) none at h = rw (at f refl, h)
  written_lem (some f) (some g) at h =
      rw (at f refl, h) (ground (arith, at f refl, by_path-path k remote g h, same_entry g f))

module _ (local remote : List FileEntry) (u : Distinct (paths local)) where
  -- Writing and removing what the comparison lists turns the remote files into the local ones.
  apply_diff-compare_files :
      (k : Text)
      → lookup k (apply_diff (compare_files local remote) (by_path remote []))
        ≡ lookup k (by_path local [])
  unfolding apply_diff
  apply_diff-compare_files k =
      let rem = by_path remote [] in
      rw
        (
          compare_files_lem,
          lookup-erase_all,
          contains-sort_by,
          contains-removed,
          lookup-by_path k
              (sort_by (λ f. f.path) (created rem local)
                ++ sort_by (λ f. f.path) (updated rem local))
              rem,
          entry_at-append,
          entry_at-sort_by k (created rem local),
          entry_at-sort_by k (updated rem local),
          entry_at-select (λ f. is_changed (lookup f.path rem) f) k local u,
          entry_at-select (λ f. not (has f.path rem)) k local u,
          written_lem remote k (entry_at k local) (lookup k rem) (entry_at-path k local) refl,
        )
        (ground (arith, lookup-by_path k local [], lookup-by_path k remote []))

-- Applying the difference of two indexes to the files of the remote index gives, at every path,
-- the entry of the local index. The local paths are distinct, and indexes of one non-empty tree
-- hash have the same file at every path.
pub apply_diff-diff_indexes :
    (local remote : Index)
    → Distinct (paths local.files)
    → (local.tree_hash ≢ []
        → local.tree_hash ≡ remote.tree_hash
        → (k : Text) → lookup k (by_path remote.files []) ≡ lookup k (by_path local.files []))
    → (k : Text)
    → lookup k (apply_diff (diff_indexes local remote) (by_path remote.files []))
      ≡ lookup k (by_path local.files [])
unfolding diff_indexes apply_diff by_path
apply_diff-diff_indexes local remote u same k =
    elim (Bool-cases (not (local.tree_hash == []) && local.tree_hash == remote.tree_hash)) [
      | inl equal ↦ rw equal (
          same (ground (arith, text_beq_iff local.tree_hash []))
            (ground (arith, text_beq_iff local.tree_hash remote.tree_hash)) k)
      | inr differ ↦ rw differ (apply_diff-compare_files local.files remote.files u k)
    ]
