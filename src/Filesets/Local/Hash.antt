-- ===== src/Filesets/Local/Hash.antt =====
-- The text that is hashed determines the files.
use mathlib.Core.List.{append_assoc}
use dockform.Base.{
  ℕ, ◌≡◌, ◌≢◌, refl, sym, ap, ◌∙◌, false, Option, some, List, [], ◌∷◌, ◌++◌, nat_eq, contains, All,
  Distinct, arith,
}
use dockform.Base.Text.{Text, text_eq, decimal}
use dockform.Base.Text.Decimal.{decimal_injective, contains-decimal}
use dockform.Base.Cut.{cut, cut-append}
use dockform.Base.Dict.{lookup}
use dockform.Base.Result.{ok, >>=-eq-ok}
use dockform.Filesets.Index.{FileEntry, Index, paths, by_path}
use dockform.Filesets.Diff.{diff_indexes}
use dockform.Filesets.Diff.Sync.{apply_diff, apply_diff-diff_indexes}
use dockform.Filesets.Local.{
  Disk, entry_text, tree_text, walk_nodes, normalize_exclude_patterns, finish_index,
  build_local_index,
}

-- Paths of files hold no NUL, and hexadecimal digests no line feed.
abbrev Plain : FileEntry → Type 0
Plain f = (contains f.path 0 ≡ false) × (contains f.sha256 10 ≡ false)

split_at :
    (sep : ℕ) (a b a' b' : Text)
    → contains a sep ≡ false
    → contains a' sep ≡ false
    → a ++ (sep ∷ b) ≡ a' ++ (sep ∷ b')
    → (a ≡ a') × (b ≡ b')
split_at sep a b a' b' h h' e =
    let one : ◌≡◌ {A = Option (Text × Text)} (some (a, b)) (some (a', b')) =
      sym (cut-append sep a b h) ∙ ap (cut sep) e ∙ cut-append sep a' b' h' in
    (cc, cc)

line : FileEntry → Text → Text
line f rest = f.path ++ (0 ∷ (decimal f.size ++ (0 ∷ (f.sha256 ++ (10 ∷ rest)))))

entry_text-append : (f : FileEntry) (rest : Text) → entry_text f ++ rest ≡ line f rest
unfolding line
entry_text-append f rest = simp append_assoc

line_injective :
    (f g : FileEntry) (r s : Text) → Plain f → Plain g → line f r ≡ line g s → (f ≡ g) × (r ≡ s)
unfolding line
line_injective f g r s p q h =
    let (path, h1) = split_at 0 f.path _ g.path _ p.0 q.0 h in
    let (size, h2) =
      split_at 0 (decimal f.size) _ (decimal g.size) _ (contains-decimal f.size)
        (contains-decimal g.size) h1 in
    let (sum, h3) = split_at 10 f.sha256 _ g.sha256 _ p.1 q.1 h2 in
    (ground (arith, decimal_injective f.size g.size), h3)

append-ne-nil : (s : Text) (c : ℕ) (t : Text) → s ++ (c ∷ t) ≢ []
append-ne-nil [] c t h = cc
append-ne-nil (d ∷ s) c t h = cc

tree_text-injective :
    (fs gs : List FileEntry) → All Plain fs → All Plain gs → tree_text fs ≡ tree_text gs → fs ≡ gs
unfolding tree_text line
tree_text-injective [] [] p q h = refl
tree_text-injective [] (g ∷ gs) p q h =
    absurd (append-ne-nil g.path 0 _ (sym (h ∙ entry_text-append g (tree_text gs))))
tree_text-injective (f ∷ fs) [] p q h =
    absurd (append-ne-nil f.path 0 _ (sym (entry_text-append f (tree_text fs)) ∙ h))
tree_text-injective (f ∷ fs) (g ∷ gs) p q h =
    let (same, rest) =
      line_injective f g (tree_text fs) (tree_text gs) p.0 q.0
        (sym (entry_text-append f (tree_text fs)) ∙ h ∙ entry_text-append g (tree_text gs)) in
    let more : fs ≡ gs = tree_text-injective fs gs p.1 q.1 rest in cc

-- What an index that was built holds.
built :
    (disk : Disk) (source target : Text) (excludes : List Text) (index : Index)
    → build_local_index disk source target excludes ≡ ok index
    → index.tree_hash ≡ disk.sha256_hex (tree_text index.files)
unfolding build_local_index
built disk source target excludes index h =
    let patterns = normalize_exclude_patterns excludes in
    let (nodes, walked, h1) = >>=-eq-ok (disk.walk (disk.clean source)) _ h in
    let (files, found, h2) =
      >>=-eq-ok (walk_nodes disk patterns [] nodes [])
        (λ fs. ok (finish_index disk target patterns fs)) h1 in
    ground (arith, h2)

-- The difference of two indexes that were built, each from its tree and on its machine, turns the
-- files of the one into those of the other, if no two different texts that were hashed have the
-- same digest. The local paths are distinct, paths hold no NUL and digests no line feed.
pub apply_diff-build_local_index :
    (here there : Disk) (source source' target target' : Text) (excludes excludes' : List Text)
    (local remote : Index)
    → build_local_index here source target excludes ≡ ok local
    → build_local_index there source' target' excludes' ≡ ok remote
    → Distinct (paths local.files)
    → All Plain local.files
    → All Plain remote.files
    → (here.sha256_hex (tree_text local.files) ≡ there.sha256_hex (tree_text remote.files)
        → tree_text local.files ≡ tree_text remote.files)
    → (k : Text)
    → lookup k (apply_diff (diff_indexes local remote) (by_path remote.files []))
      ≡ lookup k (by_path local.files [])
apply_diff-build_local_index here there source source' target target' excludes excludes' local
      remote h h' u p q apart =
    apply_diff-diff_indexes local remote u (λ full same j.
      ap (λ fs. lookup j (by_path fs []))
        (sym (
          tree_text-injective local.files remote.files p q (
            apart (
              sym (built here source target excludes local h)
              ∙ same
              ∙ built there source' target' excludes' remote h')))))
