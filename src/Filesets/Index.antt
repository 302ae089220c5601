-- ===== src/Filesets/Index.antt =====
-- internal/filesets/index.go: the file entries, the index, and files by path.
use dockform.Base.{ℕ, ◌≡◌, refl, Bool, Option, none, some, List, [], ◌∷◌, ◌++◌, arith, ◌==◌}
use dockform.Base.{contains, if◌then◌else◌}
use dockform.Base.Text.{Text, text_eq, text_beq_iff}
use dockform.Base.Dict.{Dict, lookup, insert, lookup-insert}

pub record FileEntry : Type 0 where
  pub path : Text
  pub size : ℕ
  pub sha256 : Text

pub record Index : Type 0 where
  pub version : Text
  pub target : Text
  pub created_at : Text
  pub exclude : List Text
  pub uid : ℕ
  pub gid : ℕ
  pub files : List FileEntry
  pub tree_hash : Text

abbrev pub paths : List FileEntry → List Text
paths [] = []
paths (f ∷ fs) = f.path ∷ paths fs

-- The loop `for _, f := range files { m[f.Path] = f }`: a later file of a path wins.
unfoldable pub by_path : List FileEntry → Dict Text FileEntry → Dict Text FileEntry
by_path [] m = m
by_path (f ∷ fs) m = by_path fs (insert f.path f m)

-- The last entry of a path.
abbrev pub entry_at : Text → List FileEntry → Option FileEntry
entry_at k [] = none
entry_at k (f ∷ fs) = elim (entry_at k fs) [
  | some g ↦ some g
  | none ↦ if f.path == k then some f else none
]

abbrev pub or_entry : Option FileEntry → Option FileEntry → Option FileEntry
or_entry (some f) old = some f
or_entry none old = old

pub lookup-by_path :
    (k : Text) (fs : List FileEntry) (m : Dict Text FileEntry)
    → lookup k (by_path fs m) ≡ or_entry (entry_at k fs) (lookup k m)
unfolding by_path
lookup-by_path k [] m = refl
lookup-by_path k (f ∷ fs) m =
    ground (arith, lookup-by_path k fs (insert f.path f m), lookup-insert f.path k f m)

pub entry_at-path :
    (k : Text) (fs : List FileEntry) (f : FileEntry) → entry_at k fs ≡ some f → f.path ≡ k
entry_at-path k [] f h = ground arith
entry_at-path k (g ∷ fs) f h = ground (arith, entry_at-path k fs f, text_beq_iff g.path k)

pub entry_at-append :
    (k : Text) (xs ys : List FileEntry)
    → entry_at k (xs ++ ys) ≡ or_entry (entry_at k ys) (entry_at k xs)
entry_at-append k [] ys = ground arith
entry_at-append k (x ∷ xs) ys = ground (arith, entry_at-append k xs ys)

pub contains-paths :
    (k : Text) (fs : List FileEntry)
    → contains (paths fs) k ≡ elim (entry_at k fs) [ none ↦ Bool.false | some _ ↦ Bool.true ]
contains-paths k [] = refl
contains-paths k (f ∷ fs) = ground (arith, contains-paths k fs)
