-- ===== src/Filesets/Local/Tests.antt =====
-- Two directories, their indexes, and the theorem at them.
use dockform.Base.{◌≡◌, ◌≢◌, ◌==◌, refl, none, List, [], ◌∷◌, length, nat_eq, arith}
use dockform.Base.Text.{Text, codes, text_eq, text_beq, text_ltb, decimal}
use dockform.Base.Dict.{lookup}
use dockform.Base.Sort.{sort_by}
use dockform.Base.Result.{ok, err}
use dockform.Apperr.{plain}
use dockform.Filesets.Index.{FileEntry, Index, by_path}
use dockform.Filesets.Diff.{diff_indexes}
use dockform.Filesets.Diff.Sync.{apply_diff}
use dockform.Filesets.Local.{
  Disk, Nodes, regular, symlink, directory, no_nodes, more_nodes, build_local_index, walk_node,
  walk_nodes, normalize_exclude_patterns, collect_patterns, tree_text,
}
use dockform.Filesets.Local.Hash.{apply_diff-build_local_index}

abbrev disk : Nodes → Disk
disk tree = record {
  clean = λ p. p;
  walk = λ _. ok tree;
  now = codes "now";
  sha256_hex = λ t. decimal (length t);
  path_match = λ pattern path. pattern == path;
  marshal = λ _. ok (codes "{}");
  unmarshal = λ _. err (plain (codes "not read"));
  tar_files = λ _ _. none;
}

abbrev here : Disk
here = disk (
    more_nodes (codes "b")
      (directory (
        more_nodes (codes "c") (regular 12 (ok (codes "22")))
          (more_nodes (codes "l") symlink no_nodes)))
      (more_nodes (codes "a") (regular 1 (ok (codes "11"))) no_nodes))

abbrev there : Disk
there = disk (more_nodes (codes "a") (regular 1 (ok (codes "99"))) no_nodes)

abbrev files : List FileEntry
files =
    record { path = codes "a"; size = 1; sha256 = codes "11" }
    ∷ record { path = codes "b/c"; size = 12; sha256 = codes "22" }
    ∷ []

abbrev old_files : List FileEntry
old_files = record { path = codes "a"; size = 1; sha256 = codes "99" } ∷ []

abbrev index : List FileEntry → Text → Index
index fs hash = record {
  version = codes "v1";
  target = codes "/";
  created_at = codes "now";
  exclude = [];
  uid = 0;
  gid = 0;
  files = fs;
  tree_hash = hash;
}

here_built : build_local_index here (codes "s") (codes "/") [] ≡ ok (index files (codes "17"))
unfolding build_local_index walk_node walk_nodes normalize_exclude_patterns collect_patterns
    tree_text decimal text_beq sort_by text_ltb
here_built = refl

there_built : build_local_index there (codes "s") (codes "/") [] ≡ ok (index old_files (codes "7"))
unfolding build_local_index walk_node walk_nodes normalize_exclude_patterns collect_patterns
    tree_text decimal text_beq sort_by text_ltb
there_built = refl

hashes_differ : here.sha256_hex (tree_text files) ≢ there.sha256_hex (tree_text old_files)
unfolding tree_text decimal
hashes_differ h = ground (arith, h)

apply_diff-build_local_index_example :
    lookup (codes "b/c") (
      apply_diff
        (diff_indexes (index files (codes "17")) (index old_files (codes "7")))
        (by_path old_files []))
    ≡ lookup (codes "b/c") (by_path files [])
unfolding text_beq
apply_diff-build_local_index_example =
    apply_diff-build_local_index here there (codes "s") (codes "s") (codes "/") (codes "/") [] []
      (index files (codes "17")) (index old_files (codes "7")) here_built there_built
      (refl, (refl, tt)) ((refl, refl), ((refl, refl), tt)) ((refl, refl), tt)
      (λ h. absurd (hashes_differ h)) (codes "b/c")
