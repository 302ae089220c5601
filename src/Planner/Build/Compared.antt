-- ===== src/Planner/Build/Compared.antt =====
-- internal/planner/build_plan_filesets.go: what a plan that succeeds holds of each fileset.
use dockform.Base.{
  ◌≡◌, refl, sym, ◌∙◌, ap, true, none, some, List, [], ◌∷◌, ◌==◌, arith, not, All, All-append, map,
  Bool-cases, Option-cases, inl, inr, any_of,
}
use mathlib.Core.Path.{subst}
use dockform.Base.Text.{Text, text_eq, text_beq_iff}
use dockform.Base.Dict.{Dict, lookup, has, lookup-insert}
use dockform.Base.Result.{Result, ok, err}
use dockform.Apperr.{Err, non_nil}
use dockform.Manifest.Types.{FilesetSpec}
use dockform.Filesets.Index.{Index}
use dockform.Filesets.Local.{Disk, parse_index_json}
use dockform.Planner.Resource.{Resource, create, update, delete, file, new_resource}
use dockform.Filesets.Diff.{Diff}
use dockform.Planner.Resource.Tally.{pending}
use dockform.Planner.Prune.{FilesetExecutionData}
use dockform.Planner.Build.Stacks.{Building}
use dockform.Planner.Build.Sent.{non_nil-append_some}
use dockform.Planner.Build.Filesets.{
  entry_resource, diff_resources, or_unknown, file_resources, Noted, raw_index, fileset_data,
  add_compared, compare_each,
}

map-pending {ℓ} :
    {A : Type ℓ} (f : A → Resource)
    → ((a : A) → pending (f a) ≡ true)
    → (xs : List A) → All (λ r. pending r ≡ true) (map f xs)
map-pending f h [] = tt
map-pending f h (x ∷ xs) = (h x, map-pending f h xs)

diff_resources-pending : (d : Diff) → All (λ r. pending r ≡ true) (diff_resources d)
diff_resources-pending d =
    let P : Resource → Type 0 = λ r. pending r ≡ true in
    All-append P (map (entry_resource create) d.to_create) _
      (map-pending (entry_resource create) (λ f. refl) d.to_create)
      (All-append P (map (entry_resource update) d.to_update) _
        (map-pending (entry_resource update) (λ f. refl) d.to_update)
        (map-pending (λ p. new_resource file p delete []) (λ p. refl) d.to_delete))

or_unknown-pending :
    (rs : List Resource) → All (λ r. pending r ≡ true) rs → any_of pending (or_unknown rs) ≡ true
or_unknown-pending [] all = refl
or_unknown-pending (r ∷ rs) all = ground (arith, all.0)

-- A fileset's plan asks for nothing exactly when the hashes of its trees Agree.
pub pending-file_resources :
    (d : FilesetExecutionData)
    → any_of pending (file_resources d) ≡ not (d.local_index.tree_hash == d.remote_index.tree_hash)
unfolding file_resources
pending-file_resources d =
    ground (arith, or_unknown-pending (diff_resources d.diff) (diff_resources-pending d.diff))

-- The plan shows what the data for the apply says.
pub record FilesetShown (b : Building) (name : Text) : Type 0 where
  pub data' : FilesetExecutionData
  pub in_exec : lookup name b.exec.filesets ≡ some data'
  pub in_plan : lookup name b.plan.filesets ≡ some (file_resources data')

abbrev pub Clean : Noted → Type 0
Clean n = non_nil n.errs ≡ []

-- A step that is clean shows its fileset, and what was shown before.
add_compared-Clean :
    (name : Text) (local : Index) (r : Result Err Index) (n : Noted)
    → Clean (add_compared name local r n)
    → Clean n × FilesetShown (add_compared name local r n).built name
add_compared-Clean name local (err e) n h = absurd (non_nil-append_some n.errs _ h)
add_compared-Clean name local (ok remote) n h =
    let d = fileset_data local remote in
    (
      h,
      record {
        data' = d;
        in_exec =
            ground (arith, text_beq_iff name name, lookup-insert name name d n.built.exec.filesets);
        in_plan = ground (
          arith,
          text_beq_iff name name,
          lookup-insert name name (file_resources d) n.built.plan.filesets,
        );
      },
    )

add_compared-FilesetShown :
    (k name : Text) (local : Index) (r : Result Err Index) (n : Noted)
    → Clean (add_compared name local r n)
    → FilesetShown n.built k
    → FilesetShown (add_compared name local r n).built k
add_compared-FilesetShown k name local (err e) n h shown = absurd (non_nil-append_some n.errs _ h)
add_compared-FilesetShown k name local (ok remote) n h shown =
    let d = fileset_data local remote in
    elim (Bool-cases (name == k)) [
      | inl same ↦ record {
        data' = d;
        in_exec = ground (arith, same, lookup-insert name k d n.built.exec.filesets);
        in_plan =
            ground (arith, same, lookup-insert name k (file_resources d) n.built.plan.filesets);
      }
      | inr other ↦ record {
        data' = shown.data';
        in_exec = lookup-insert name k d n.built.exec.filesets ∙ rw other shown.in_exec;
        in_plan =
            lookup-insert name k (file_resources d) n.built.plan.filesets ∙ rw other shown.in_plan;
      }
    ]

module _ (disk : Disk) (locals : Dict Text Index) (remotes : Dict Text Text)
    (existing : List Text) where
  abbrev compared : Dict Text FilesetSpec → Noted → Noted
  compared d n = compare_each disk locals remotes existing d n

  abbrev pub remote_of : FilesetSpec → Result Err Index
  remote_of fs = parse_index_json disk (raw_index remotes existing fs)

  -- One step of the loop.
  pub compare_step :
      (name : Text) (fs : FilesetSpec) (d : Dict Text FilesetSpec) (n : Noted) (local : Index)
      → lookup name locals ≡ some local
      → compared ((name, fs) ∷ d) n ≡ compared d (add_compared name local (remote_of fs) n)
  unfolding compare_each
  compare_step name fs d n local found = rw found refl

  pub compare_skip :
      (name : Text) (fs : FilesetSpec) (d : Dict Text FilesetSpec) (n : Noted)
      → lookup name locals ≡ none
      → compared ((name, fs) ∷ d) n ≡ compared d n
  unfolding compare_each
  compare_skip name fs d n found = rw found refl

  pub compared-was-Clean : (d : Dict Text FilesetSpec) (n : Noted) → Clean (compared d n) → Clean n
  unfolding compare_each
  compared-was-Clean [] n h = h
  compared-was-Clean ((name, fs) ∷ d) n h = elim (Option-cases (lookup name locals)) [
    | inl absent ↦
        let step = compare_skip name fs d n absent in
        compared-was-Clean d n (ap (λ x. non_nil x.errs) (sym step) ∙ h)
    | inr (local, found) ↦
        let step = compare_step name fs d n local found in
        let h' =
          compared-was-Clean d (add_compared name local (remote_of fs) n)
            (ap (λ x. non_nil x.errs) (sym step) ∙ h) in
        (add_compared-Clean name local (remote_of fs) n h').0
  ]

  pub compared-Clean :
      (d : Dict Text FilesetSpec) (n : Noted)
      → All (λ (e : Text × FilesetSpec). has e.0 locals ≡ true) d
      → Clean (compared d n)
      → Clean n
        × ((k : Text) → FilesetShown n.built k → FilesetShown (compared d n).built k)
        × All (λ (e : Text × FilesetSpec). FilesetShown (compared d n).built e.0) d
  unfolding compare_each
  compared-Clean [] n all h = (h, λ k shown. shown, tt)
  compared-Clean ((name, fs) ∷ d) n (here, all) h = elim (Option-cases (lookup name locals)) [
    | inl absent ↦ cc
    | inr (local, found) ↦
        let n' = add_compared name local (remote_of fs) n in
        let step = compare_step name fs d n local found in
        let (h', keeps, rest) = compared-Clean d n' all (ap (λ x. non_nil x.errs) (sym step) ∙ h) in
        let (h'', new) = add_compared-Clean name local (remote_of fs) n h' in
        (
          h'',
          λ k shown.
              subst (λ x. FilesetShown x.built k) (sym step)
                (keeps k (add_compared-FilesetShown k name local (remote_of fs) n h' shown)),
          subst (λ x. All (λ (e : Text × FilesetSpec). FilesetShown x.built e.0) ((name, fs) ∷ d))
              (sym step) (keeps name new, rest),
        )
  ]
