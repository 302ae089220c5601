-- ===== src/Filesets/Local.antt =====
-- internal/filesets/index.go: `BuildLocalIndex`, the exclude patterns, and an index as JSON. What
-- the operating system, SHA-256, JSON and the package doublestar do is the record `Disk`.
pub mod Hash
mod Tests
use dockform.Base.{
  ℕ, Bool, true, false, not, ◌&&◌, ◌||◌, Option, none, some, List, [], ◌∷◌, ◌++◌, ◌==◌,
  if◌then◌else◌, is_empty, contains, any_of, nat_eq,
}
use dockform.Base.Text.{Text, codes, text_eq, decimal}
use dockform.Base.Trim.{trim_space}
use dockform.Base.Sort.{sort_by}
use dockform.Base.Result.{Result, ok, err, ◌>>=◌}
use dockform.Apperr.{Err, plain}
use dockform.Filesets.Index.{FileEntry, Index}

-- The entries of a directory, in the order in which WalkDir visits them. A regular file has its
-- size, and what hashing it gives.
mutual
  pub data Node : Type 0 where
    regular : ℕ → Result Err Text → Node
    symlink special : Node
    directory : Nodes → Node

  pub data Nodes : Type 0 where
    no_nodes : Nodes
    more_nodes : Text → Node → Nodes → Nodes

pub record Disk : Type 0 where
  pub clean : Text → Text
  pub walk : Text → Result Err Nodes
  pub now : Text
  pub sha256_hex : Text → Text
  pub path_match : Text → Text → Bool
  pub marshal : Index → Result Err Text
  pub unmarshal : Text → Result Err Index
  pub tar_files : Text → List Text → Option Err

abbrev ends_slash : Text → Bool
ends_slash [] = false
ends_slash (c ∷ []) = c == b'/'
ends_slash (c ∷ d ∷ s) = ends_slash (d ∷ s)

abbrev expand_dir : Text → Text
expand_dir p = if ends_slash p then p ++ codes "**" else p

-- The loop over the patterns: what is empty, or there already, is passed over.
unfoldable pub collect_patterns : List Text → List Text → List Text
collect_patterns [] out = out
collect_patterns (raw ∷ raws) out =
    let p = trim_space raw in
    collect_patterns raws (
      if p == []
      then out
      else if contains out (expand_dir p)
      then out
      else out ++ (expand_dir p ∷ []))

unfoldable pub normalize_exclude_patterns : List Text → List Text
unfolding collect_patterns
normalize_exclude_patterns patterns = sort_by (λ p. p) (collect_patterns patterns [])

abbrev starts_dots : Text → Bool
starts_dots (a ∷ b ∷ s) = a == b'.' && b == b'.'
starts_dots _ = false

abbrev pub under : Text → Text → Text
under parent name = if parent == [] then name else parent ++ (b'/' ∷ name)

-- The line of one file in the text that is hashed.
abbrev pub entry_text : FileEntry → Text
entry_text f = f.path ++ (0 ∷ (decimal f.size ++ (0 ∷ (f.sha256 ++ (10 ∷ [])))))

unfoldable pub tree_text : List FileEntry → Text
tree_text [] = []
tree_text (f ∷ fs) = entry_text f ++ tree_text fs

-- `fs.ErrInvalid`
abbrev err_invalid : Err
err_invalid = plain (codes "invalid argument")

module _ (disk : Disk) where
  abbrev is_excluded : List Text → Text → Bool
  is_excluded patterns path = any_of (λ pat. disk.path_match pat path) patterns

  abbrev add_file : List FileEntry → Text → ℕ → Result Err Text → Result Err (List FileEntry)
  add_file files path size (err e) = err e
  add_file files path size (ok sum) =
      ok (files ++ (record { path = path; size = size; sha256 = sum } ∷ []))

  -- The walk: the files so far are passed on, and an error ends it.
  unfoldable mutual
    pub walk_node : List Text → Text → Node → List FileEntry → Result Err (List FileEntry)
    walk_node patterns path (directory nodes) files = elim (is_excluded patterns path) [
      | true ↦ ok files
      | false ↦ walk_nodes patterns path nodes files
    ]
    walk_node patterns path symlink files = ok files
    walk_node patterns path special files = ok files
    walk_node patterns path (regular size sum) files =
        if is_excluded patterns path then ok files else add_file files path size sum

    pub walk_nodes : List Text → Text → Nodes → List FileEntry → Result Err (List FileEntry)
    walk_nodes patterns parent no_nodes files = ok files
    walk_nodes patterns parent (more_nodes name node nodes) files =
        elim (starts_dots (under parent name)) [
          | true ↦ err err_invalid
          | false ↦ walk_node patterns (under parent name) node files >>= λ files'.
              walk_nodes patterns parent nodes files'
        ]

  abbrev pub finish_index : Text → List Text → List FileEntry → Index
  finish_index target patterns files =
      let sorted = sort_by (λ f. f.path) files in
      record {
        version = codes "v1";
        target = target;
        created_at = disk.now;
        exclude = patterns;
        uid = 0;
        gid = 0;
        files = sorted;
        tree_hash = disk.sha256_hex (tree_text sorted);
      }

  unfoldable pub build_local_index : Text → Text → List Text → Result Err Index
  unfolding walk_node normalize_exclude_patterns tree_text
  build_local_index source target excludes =
      let patterns = normalize_exclude_patterns excludes in
      disk.walk (disk.clean source) >>= λ nodes.
      walk_nodes patterns [] nodes [] >>= λ files. ok (finish_index target patterns files)

  abbrev no_index : Index
  no_index = record {
    version = codes "v1";
    target = [];
    created_at = [];
    exclude = [];
    uid = 0;
    gid = 0;
    files = [];
    tree_hash = [];
  }

  unfoldable pub parse_index_json : Text → Result Err Index
  parse_index_json s = if trim_space s == [] then ok no_index else disk.unmarshal s

  abbrev pub to_json : Index → Result Err Text
  to_json index = disk.marshal index
