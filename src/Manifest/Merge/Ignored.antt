-- ===== src/Manifest/Merge/Ignored.antt =====
-- The filesets that a manifest declares for a stack that is also discovered.
use dockform.Base.{
  ◌≡◌, refl, ap, ◌∙◌, inl, inr, true, [], ◌∷◌, ◌==◌, if◌then◌else◌, arith, Bool-cases, Option-cases,
}
use dockform.Base.Text.{Text, text_eq, text_beq_iff}
use dockform.Base.Dict.{Dict, lookup, has, insert, lookup-insert}
use dockform.Manifest.Types.{Stack, FilesetSpec, Config}
use dockform.Manifest.Merge.{augment, merge_one, merge_explicit, copy_all, get_all_stacks}

-- The stacks, where those of a key have other filesets.
abbrev pub with_filesets : Text → Dict Text FilesetSpec → Dict Text Stack → Dict Text Stack
with_filesets key filesets [] = []
with_filesets key filesets ((k, v) ∷ d) =
    let rest = with_filesets key filesets d in
    if k == key then (k, record v { filesets = filesets }) ∷ rest else (k, v) ∷ rest

merge_one-filesets :
    (key : Text) (filesets : Dict Text FilesetSpec) (v : Stack) (result : Dict Text Stack)
    → has key result ≡ true
    → merge_one key (record v { filesets = filesets }) result ≡ merge_one key v result
unfolding augment
merge_one-filesets key filesets v result there = elim (Option-cases (lookup key result)) [
  | inl absent ↦ absurd (ground (arith, there, absent))
  | inr (old, found) ↦ rw found refl
]

has-merge_one :
    (key k : Text) (v : Stack) (result : Dict Text Stack)
    → has key result ≡ true
    → has key (merge_one k v result) ≡ true
has-merge_one key k v result there = elim (Option-cases (lookup k result)) [
  | inl absent ↦ ground (arith, absent, there, lookup-insert k key v result)
  | inr (old, found) ↦ ground (arith, found, there, lookup-insert k key (augment old v) result)
]

merge_explicit-filesets :
    (key : Text) (filesets : Dict Text FilesetSpec) (d result : Dict Text Stack)
    → has key result ≡ true
    → merge_explicit (with_filesets key filesets d) result ≡ merge_explicit d result
unfolding merge_explicit
merge_explicit-filesets key filesets [] result there = refl
merge_explicit-filesets key filesets ((k, v) ∷ d) result there = elim (Bool-cases (k == key)) [
  | inl same ↦
      let v' : Stack = record v { filesets = filesets } in
      let there' : has k result ≡ true = ground (arith, there, text_beq_iff k key, same) in
      rw (same, merge_explicit)
        (merge_explicit-filesets key filesets d (merge_one k v' result)
            (has-merge_one key k v' result there)
          ∙ ap (merge_explicit d) (merge_one-filesets k filesets v result there'))
  | inr other ↦
      rw (other, merge_explicit)
        (merge_explicit-filesets key filesets d (merge_one k v result)
          (has-merge_one key k v result there))
]

has-copy_all :
    (key : Text) (d result : Dict Text Stack)
    → has key result ≡ true
    → has key (copy_all d result) ≡ true
unfolding copy_all
has-copy_all key [] result there = there
has-copy_all key ((k, v) ∷ d) result there =
    has-copy_all key d (insert k v result) (ground (arith, there, lookup-insert k key v result))

copy_all-has :
    (key : Text) (d result : Dict Text Stack)
    → has key d ≡ true
    → has key (copy_all d result) ≡ true
unfolding copy_all
copy_all-has key [] result there = absurd (ground (arith, there))
copy_all-has key ((k, v) ∷ d) result there = elim (Bool-cases (k == key)) [
  | inl same ↦
      has-copy_all key d (insert k v result) (ground (arith, same, lookup-insert k key v result))
  | inr other ↦ copy_all-has key d (insert k v result) (ground (arith, other, there))
]

-- For a stack that is discovered, whatever filesets the manifest declares, the merged stacks are
-- the same.
pub get_all_stacks-with_filesets :
    (c : Config) (key : Text) (filesets : Dict Text FilesetSpec)
    → has key c.discovered_stacks ≡ true
    → get_all_stacks (record c { stacks = with_filesets key filesets c.stacks }) ≡ get_all_stacks c
unfolding get_all_stacks
get_all_stacks-with_filesets c key filesets there =
    merge_explicit-filesets key filesets c.stacks (copy_all c.discovered_stacks [])
      (copy_all-has key c.discovered_stacks [] there)
