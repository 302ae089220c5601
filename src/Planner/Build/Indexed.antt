-- ===== src/Planner/Build/Indexed.antt =====
-- internal/planner/build_plan_filesets.go: the local indexes, and the phases together.
use dockform.Base.{
  ◌≡◌, refl, sym, ◌∙◌, ap, true, List, [], ◌∷◌, arith, All, Distinct, Option-cases, inl, inr,
}
use mathlib.Core.Path.{subst}
use dockform.Base.Text.{Text, codes, text_eq, text_beq_iff}
use dockform.Base.Dict.{Dict, keys, lookup, has, lookup-insert}
use dockform.Base.Maps.{SameMap, sorted-SameMap, All-SameMap}
use dockform.Base.Sort.{sort_by}
use dockform.Base.Result.{Result, ok, err, Result-cases}
use dockform.Apperr.{Err, external, non_nil, aggregate}
use dockform.Apperr.Chain.{aggregate_lem}
use dockform.Manifest.Types.{FilesetSpec}
use dockform.Filesets.Index.{Index}
use dockform.Filesets.Local.{Disk, build_local_index}
use dockform.Planner.Client.{Daemon}
use dockform.Planner.Resource.{Resource}
use dockform.Planner.Build.Stacks.{Building}
use dockform.Planner.Build.Shown.{SameRest, SameRest-trans}
use dockform.Planner.Build.Sent.{non_nil-append_some}
use dockform.Planner.Build.Filesets.{
  filesets_op, show_fileset, Noted, Indexed, add_local, volumes_to_read, add_compared,
  finish_filesets, index_locals, compare_each, read_remotes, compare_read, build_filesets,
}
use dockform.Planner.Build.Compared.{
  Clean, FilesetShown, compare_skip, compare_step, compared-Clean, compared-was-Clean, remote_of,
}

-- The files of a plan change, and the rest does not.
pub record Untouched (a b : Building) : Type 0 where
  pub rest : SameRest a b
  pub stacks : a.plan.stacks ≡ b.plan.stacks
  pub data' : a.exec.stacks ≡ b.exec.stacks

untouched : (b : Building) → Untouched b b
untouched b = record {
  rest = record { volumes = refl; networks = refl; existing_networks = refl };
  stacks = refl;
  data' = refl;
}

Untouched-trans : {a b c : Building} → Untouched a b → Untouched b c → Untouched a c
Untouched-trans h k = record {
  rest = SameRest-trans h.rest k.rest;
  stacks = h.stacks ∙ k.stacks;
  data' = h.data' ∙ k.data';
}

show_fileset-Untouched :
    (name : Text) (rs : List Resource) (b : Building) → Untouched (show_fileset name rs b) b
show_fileset-Untouched name rs b = record {
  rest = record { volumes = refl; networks = refl; existing_networks = refl };
  stacks = refl;
  data' = refl;
}

add_compared-Untouched :
    (name : Text) (local : Index) (r : Result Err Index) (n : Noted)
    → Untouched (add_compared name local r n).built n.built
add_compared-Untouched name local (err e) n = show_fileset-Untouched name _ n.built
add_compared-Untouched name local (ok remote) n = record {
  rest = record { volumes = refl; networks = refl; existing_networks = refl };
  stacks = refl;
  data' = refl;
}

module _ (disk : Disk) where
  compared-Untouched :
      (locals : Dict Text Index) (remotes : Dict Text Text) (existing : List Text)
      (d : Dict Text FilesetSpec) (n : Noted)
      → Untouched (compare_each disk locals remotes existing d n).built n.built
  unfolding compare_each
  compared-Untouched locals remotes existing [] n = untouched n.built
  compared-Untouched locals remotes existing ((name, fs) ∷ d) n =
      elim (Option-cases (lookup name locals)) [
        | inl absent ↦
            subst (λ x. Untouched x.built n.built)
              (sym (compare_skip disk locals remotes existing name fs d n absent))
              (compared-Untouched locals remotes existing d n)
        | inr (local, found) ↦
            let r = remote_of disk locals remotes existing fs in
            let n' = add_compared name local r n in
            subst (λ x. Untouched x.built n.built)
              (sym (compare_step disk locals remotes existing name fs d n local found))
              (Untouched-trans (compared-Untouched locals remotes existing d n')
                (add_compared-Untouched name local r n))
      ]

  abbrev indexed : Dict Text FilesetSpec → Indexed → Indexed
  indexed d x = index_locals disk d x

  abbrev local_of : FilesetSpec → Result Err Index
  local_of fs = build_local_index disk fs.source_abs fs.target_path fs.exclude

  index_step :
      (name : Text) (fs : FilesetSpec) (d : Dict Text FilesetSpec) (x : Indexed)
      (r : Result Err Index)
      → local_of fs ≡ r
      → indexed ((name, fs) ∷ d) x ≡ indexed d (add_local name r x)
  unfolding index_locals
  index_step name fs d x r e = ap (λ r. indexed d (add_local name r x)) e

  -- A first phase that is clean has an index of each fileset, and shows nothing yet.
  indexed-Clean :
      (d : Dict Text FilesetSpec) (x : Indexed)
      → Clean (indexed d x).noted
      → Clean x.noted
        × ((k : Text) → has k x.locals ≡ true → has k (indexed d x).locals ≡ true)
        × All (λ (e : Text × FilesetSpec). has e.0 (indexed d x).locals ≡ true) d
        × ((indexed d x).noted.built ≡ x.noted.built)
  unfolding index_locals
  indexed-Clean [] x h = (h, λ k there. there, tt, refl)
  indexed-Clean ((name, fs) ∷ d) x h = elim (Result-cases (local_of fs)) [
    | inl (local, fine) ↦
        let step = index_step name fs d x (ok local) fine in
        let x' : Indexed = add_local name (ok local) x in
        let (h', keeps, rest, same) =
          indexed-Clean d x' (ap (λ y. non_nil y.noted.errs) (sym step) ∙ h) in
        subst
          (λ y.
            Clean x.noted
            × ((k : Text) → has k x.locals ≡ true → has k y.locals ≡ true)
            × All (λ (e : Text × FilesetSpec). has e.0 y.locals ≡ true) ((name, fs) ∷ d)
            × (y.noted.built ≡ x.noted.built))
          (sym step)
          (
            h',
            λ k there. keeps k (ground (arith, lookup-insert name k local x.locals, there)),
            (
              keeps name
                  (ground (arith, lookup-insert name name local x.locals, text_beq_iff name name)),
              rest,
            ),
            same,
          )
    | inr (e, bad) ↦
        let step = index_step name fs d x (err e) bad in
        let after =
          indexed-Clean d (add_local name (err e) x)
            (ap (λ y. non_nil y.noted.errs) (sym step) ∙ h) in
        absurd (non_nil-append_some x.noted.errs _ after.0)
  ]

finish_filesets-Clean :
    (n : Noted) (b : Building) → finish_filesets n ≡ ok b → Clean n × (n.built ≡ b)
finish_filesets-Clean n b e =
    let msg = codes "one or more fileset analyses failed" in
    elim (Option-cases (aggregate filesets_op external msg n.errs)) [
      | inl none_there ↦ (
        (aggregate_lem filesets_op external msg n.errs).0.0 none_there,
        ground (arith, e, none_there),
      )
      | inr (x, there) ↦ absurd (ground (arith, e, there))
    ]

module _ (D : Daemon) (disk : Disk) (arrivals specs : Dict Text FilesetSpec) (existing : List Text)
    (s : D.State) (b b' : Building) where
  compare_read-Clean :
      (x : Indexed) (r : Result Err (Dict Text Text))
      → All (λ (e : Text × FilesetSpec). has e.0 x.locals ≡ true) (sort_by (λ e. e.0) specs)
      → Clean (compare_read D disk x existing (sort_by (λ e. e.0) specs) r)
      → All
          (λ (e : Text × FilesetSpec).
            FilesetShown (compare_read D disk x existing (sort_by (λ e. e.0) specs) r).built e.0)
          (sort_by (λ e. e.0) specs)
        × Untouched
            (compare_read D disk x existing (sort_by (λ e. e.0) specs) r).built
            x.noted.built
  compare_read-Clean x (err e) all h = absurd (non_nil-append_some x.noted.errs _ h)
  compare_read-Clean x (ok remotes) all h =
      let (h', keeps, shown) =
        compared-Clean disk x.locals remotes existing (sort_by (λ e. e.0) specs) x.noted all h in
      (shown, compared-Untouched disk x.locals remotes existing _ x.noted)

  compare_read-was-Clean :
      (x : Indexed) (r : Result Err (Dict Text Text))
      → Clean (compare_read D disk x existing (sort_by (λ e. e.0) specs) r)
      → Clean x.noted
  compare_read-was-Clean x (err e) h = absurd (non_nil-append_some x.noted.errs _ h)
  compare_read-was-Clean x (ok remotes) h =
      compared-was-Clean disk x.locals remotes existing (sort_by (λ e. e.0) specs) x.noted h

  -- After a success each fileset is shown, and only the files of the plan have changed.
  pub build_filesets-FilesetShown :
      SameMap arrivals specs
      → Distinct (keys specs)
      → build_filesets D disk arrivals specs existing s b ≡ ok b'
      → All (λ (e : Text × FilesetSpec). FilesetShown b' e.0) specs × Untouched b' b
  unfolding build_filesets
  build_filesets-FilesetShown arrived named e =
      let sorted = sort_by (λ e. e.0) specs in
      let start : Indexed = record { noted = record { built = b; errs = [] }; locals = [] } in
      let x = indexed disk arrivals start in
      let r = read_remotes D (volumes_to_read x.locals existing sorted []) s in
      let n = compare_read D disk x existing sorted r in
      let HasLocal : Text × FilesetSpec → Type 0 = λ e. has e.0 x.locals ≡ true in
      let (h, built) = finish_filesets-Clean n b' e in
      let (_, _, have, same) = indexed-Clean disk arrivals start (compare_read-was-Clean x r h) in
      let m = sorted-SameMap specs named in
      let have' =
        All-SameMap HasLocal arrivals sorted (λ k. m.same k ∙ sym (arrived.same k)) m.once have in
      let (shown, rest) = compare_read-Clean x r have' h in
      (
        All-SameMap (λ (e : Text × FilesetSpec). FilesetShown b' e.0) sorted specs
            (λ k. sym (m.same k)) named
            (subst (λ y. All (λ (e : Text × FilesetSpec). FilesetShown y e.0) sorted) built shown),
        subst (λ y. Untouched y b) built (subst (λ y. Untouched n.built y) same rest),
      )
