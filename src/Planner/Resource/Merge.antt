-- ===== src/Planner/Resource/Merge.antt =====
-- The counts of merged plans.
use dockform.Base.{
  ◌≡◌, refl, sym, ap, ◌∙◌, not, ◌&&◌, List, [], ◌∷◌, ◌++◌, ◌==◌, if◌then◌else◌, arith,
}
use dockform.Base.Text.{Text, text_eq}
use dockform.Base.Dict.{Dict, lookup, insert}
use dockform.Planner.Resource.{
  Resource, ResourcePlan, Counts, count_resource, count_list, count_map, is_noop, count_files,
  count_filesets, no_counts, count_actions, list_at, append_map, merge_resource_plan,
}
use dockform.Planner.Resource.Tally.{plus, count_resource-plus, count_list-plus}

count_list-append :
    (xs ys : List Resource) (n : Counts) → count_list (xs ++ ys) n ≡ count_list ys (count_list xs n)
unfolding count_list
count_list-append [] ys n = refl
count_list-append (x ∷ xs) ys n = count_list-append xs ys (count_resource x.action n)

count_map-plus :
    (d : Dict Text (List Resource)) (n : Counts) → count_map d n ≡ plus n (count_map d no_counts)
unfolding count_map
count_map-plus [] n = ground arith
count_map-plus ((k, rs) ∷ d) n = ground (
  arith,
  count_map-plus d (count_list rs n),
  count_map-plus d (count_list rs no_counts),
  count_list-plus rs n,
)

count_map-insert :
    (k : Text) (v : List Resource) (d : Dict Text (List Resource))
    → count_map (insert k (list_at (lookup k d) ++ v) d) no_counts
      ≡ plus (count_map d no_counts) (count_list v no_counts)
unfolding count_map
count_map-insert k v [] = ground arith
count_map-insert k v ((j, rs) ∷ d) = ground (
  arith,
  count_map-insert k v d,
  count_map-plus d (count_list rs no_counts),
  count_map-plus d (count_list (rs ++ v) no_counts),
  count_map-plus (insert k (list_at (lookup k d) ++ v) d) (count_list rs no_counts),
  count_list-append rs v no_counts,
  count_list-plus v (count_list rs no_counts),
)

plus-no_counts : (n : Counts) → plus n no_counts ≡ n
plus-no_counts n = ground arith

plus_assoc : (a b c : Counts) → plus (plus a b) c ≡ plus a (plus b c)
plus_assoc a b c = ground arith

count_map-append_map :
    (src dst : Dict Text (List Resource))
    → count_map (append_map src dst) no_counts
      ≡ plus (count_map dst no_counts) (count_map src no_counts)
unfolding append_map count_map
count_map-append_map [] dst = sym (plus-no_counts (count_map dst no_counts))
count_map-append_map ((k, v) ∷ src) dst =
    count_map-append_map src (insert k (list_at (lookup k dst) ++ v) dst)
    ∙ ap (λ n. plus n (count_map src no_counts)) (count_map-insert k v dst)
    ∙ plus_assoc (count_map dst no_counts) (count_list v no_counts) (count_map src no_counts)
    ∙ ap (λ n. plus (count_map dst no_counts) n) (sym (count_map-plus src (count_list v no_counts)))

count_files-plus :
    (rs : List Resource) (n : Counts) → count_files rs n ≡ plus n (count_files rs no_counts)
unfolding count_files
count_files-plus [] n = ground arith
count_files-plus (r ∷ rs) n = ground (
  arith,
  count_files-plus rs n,
  count_files-plus rs (count_resource r.action n),
  count_files-plus rs (count_resource r.action no_counts),
  count_resource-plus r.action n,
)

count_files-append :
    (xs ys : List Resource) (n : Counts)
    → count_files (xs ++ ys) n ≡ count_files ys (count_files xs n)
unfolding count_files
count_files-append [] ys n = refl
count_files-append (x ∷ xs) ys n =
    count_files-append xs ys
      (if not (x.name == []) && not (is_noop x.action) then count_resource x.action n else n)

count_filesets-plus :
    (d : Dict Text (List Resource)) (n : Counts)
    → count_filesets d n ≡ plus n (count_filesets d no_counts)
unfolding count_filesets
count_filesets-plus [] n = ground arith
count_filesets-plus ((k, rs) ∷ d) n = ground (
  arith,
  count_filesets-plus d (count_files rs n),
  count_filesets-plus d (count_files rs no_counts),
  count_files-plus rs n,
)

count_filesets-insert :
    (k : Text) (v : List Resource) (d : Dict Text (List Resource))
    → count_filesets (insert k (list_at (lookup k d) ++ v) d) no_counts
      ≡ plus (count_filesets d no_counts) (count_files v no_counts)
unfolding count_filesets
count_filesets-insert k v [] = ground arith
count_filesets-insert k v ((j, rs) ∷ d) = ground (
  arith,
  count_filesets-insert k v d,
  count_filesets-plus d (count_files rs no_counts),
  count_filesets-plus d (count_files (rs ++ v) no_counts),
  count_filesets-plus (insert k (list_at (lookup k d) ++ v) d) (count_files rs no_counts),
  count_files-append rs v no_counts,
  count_files-plus v (count_files rs no_counts),
)

count_filesets-append_map :
    (src dst : Dict Text (List Resource))
    → count_filesets (append_map src dst) no_counts
      ≡ plus (count_filesets dst no_counts) (count_filesets src no_counts)
unfolding append_map count_filesets
count_filesets-append_map [] dst = sym (plus-no_counts (count_filesets dst no_counts))
count_filesets-append_map ((k, v) ∷ src) dst =
    count_filesets-append_map src (insert k (list_at (lookup k dst) ++ v) dst)
    ∙ ap (λ n. plus n (count_filesets src no_counts)) (count_filesets-insert k v dst)
    ∙ plus_assoc (count_filesets dst no_counts) (count_files v no_counts)
        (count_filesets src no_counts)
    ∙ ap (λ n. plus (count_filesets dst no_counts) n)
        (sym (count_filesets-plus src (count_files v no_counts)))

-- The five parts of a plan, counted apart.
count_actions-parts :
    (rp : ResourcePlan)
    → count_actions rp
      ≡ plus
          (plus
            (plus
              (plus (count_list rp.volumes no_counts) (count_list rp.networks no_counts))
              (count_map rp.stacks no_counts))
            (count_filesets rp.filesets no_counts))
          (count_list rp.containers no_counts)
unfolding count_actions
count_actions-parts rp =
    let a = count_list rp.volumes no_counts in
    let b = count_list rp.networks a in
    let c = count_map rp.stacks b in
    let d = count_filesets rp.filesets c in
    ground (
      arith,
      count_list-plus rp.networks a,
      count_map-plus rp.stacks b,
      count_filesets-plus rp.filesets c,
      count_list-plus rp.containers d,
    )

-- The actions of a merged plan are those of the two plans together, whichever keys they share.
pub count_actions-merge_resource_plan :
    (dst src : ResourcePlan)
    → count_actions (merge_resource_plan dst src) ≡ plus (count_actions dst) (count_actions src)
unfolding merge_resource_plan
count_actions-merge_resource_plan dst src =
    rw
      (
        count_actions-parts dst,
        count_actions-parts src,
        count_actions-parts (merge_resource_plan dst src),
        count_list-append dst.volumes src.volumes,
        count_list-append dst.networks src.networks,
        count_list-append dst.containers src.containers,
        count_map-append_map src.stacks dst.stacks,
        count_filesets-append_map src.filesets dst.filesets,
        count_list-plus src.volumes (count_list dst.volumes no_counts),
        count_list-plus src.networks (count_list dst.networks no_counts),
        count_list-plus src.containers (count_list dst.containers no_counts),
      )
      (ground arith)
