-- ===== src/Planner/Build/Arrivals.antt =====
-- internal/planner/build_plan_stacks.go: the stacks in parallel, against the stacks one by one.
use dockform.Base.{
  ℕ, ◌≡◌, refl, sym, ◌∙◌, ap, Option, some, List, [], arith, Distinct, All-map, inl, inr,
  Option-cases,
}
use mathlib.Core.Path.{subst}
use dockform.Base.Text.{Text, codes, text_eq}
use dockform.Base.Dict.{Dict, lookup, keys, has-keys}
use dockform.Base.Maps.{SameMap, sorted-SameMap, All-lookup, All-SameMap}
use dockform.Base.Sort.{sort_by}
use dockform.Base.Result.{Result, ok, err}
use dockform.Apperr.{Err, external, non_nil, aggregate}
use dockform.Apperr.Chain.{aggregate_lem}
use dockform.Manifest.Types.{Stack, SopsConfig}
use dockform.Planner.Client.{Daemon}
use dockform.Planner.ServiceState.{Host}
use dockform.Planner.Prune.{StackExecutionData}
use dockform.Planner.Build.Stacks.{
  Building, parallel_op, build_each, build_sequential, Collected, finish_results, build_parallel,
}
use dockform.Planner.Build.Shown.{
  SameStack, SameBeside, kept, shown, build_each_other, build_each-SameBeside,
  build_each-StackShown, StackShown,
}
use dockform.Planner.Build.Sent.{
  analyse, collected, collected-clean, Analysed, Analysed-collected, build_each-Analysed,
}

-- The same entries under every name, and beside the stacks both are as they were.
abbrev pub Agree : Building → Building → Building → Type 0
Agree start a b = ((k : Text) → SameStack k a b) × (SameBeside a start × SameBeside b start)

-- Both fail, or both succeed and agree.
abbrev pub SameOutcome : Building → Result Err Building → Result Err Building → Type 0
SameOutcome start (ok a) (ok b) = Agree start a b
SameOutcome start (err e) (err e') = Unit
SameOutcome start (ok a) (err e) = ⊥
SameOutcome start (err e) (ok b) = ⊥

SameOutcome-of :
    (start : Building) (p q : Result Err Building)
    → ((a : Building) → p ≡ ok a → (b : Building) × (q ≡ ok b) × Agree start a b)
    → ((b : Building) → q ≡ ok b → (a : Building) × (p ≡ ok a) × Agree start a b)
    → SameOutcome start p q
SameOutcome-of start (ok a) (ok b) forth back =
    let (b', e, same) = forth a refl in
    let equal : b' ≡ b = cc in subst (λ x. Agree start a x) equal same
SameOutcome-of start (err e) (err e') forth back = tt
SameOutcome-of start (ok a) (err e) forth back = let (b', wrong, same) = forth a refl in cc
SameOutcome-of start (err e) (ok b) forth back = let (a', wrong, same) = back b refl in cc

module _ (D : Daemon) (H : Host) (sops : Option SopsConfig) (identifier context : Text)
    (order : Text → List ℕ) (s : D.State) where
  abbrev sent : Dict Text Stack → Collected → Collected
  sent d c = collected D H sops identifier context order s d c

  shown_at :
      (d : Dict Text Stack) (b b' : Building)
      → Distinct (keys d)
      → b.exec.stacks ≡ []
      → build_each D H sops identifier context order d s b ≡ ok b'
      → (k : Text) (stack : Stack) → lookup k d ≡ some stack
      → StackShown D H sops identifier context order s b' k stack
  shown_at d b b' u fresh e k stack found =
      All-lookup (λ (e : Text × Stack). StackShown D H sops identifier context order s b' e.0 e.1) k
        stack d
        (build_each-StackShown D H sops identifier context order s d b b' u
          (λ j _. ap (λ m. lookup j m) fresh) e)
        found

  -- Two loops over the same stacks show the same.
  same_shown :
      (d₁ d₂ stacks : Dict Text Stack) (b b₁ b₂ : Building)
      → SameMap d₁ stacks
      → SameMap d₂ stacks
      → b.exec.stacks ≡ []
      → build_each D H sops identifier context order d₁ s b ≡ ok b₁
      → build_each D H sops identifier context order d₂ s b ≡ ok b₂
      → Agree b b₁ b₂
  same_shown d₁ d₂ stacks b b₁ b₂ m₁ m₂ fresh e₁ e₂ = (
    λ k. elim (Option-cases (lookup k stacks)) [
      | inr (stack, found) ↦
          let one = shown_at d₁ b b₁ m₁.once fresh e₁ k stack (m₁.same k ∙ found) in
          let two = shown_at d₂ b b₂ m₂.once fresh e₂ k stack (m₂.same k ∙ found) in
          let equal : one.data' ≡ two.data' = ground (arith, one.analysis, two.analysis) in
          (
            one.in_exec ∙ ap kept equal ∙ sym two.in_exec,
            one.in_plan ∙ ap (λ x. some (shown x)) equal ∙ sym two.in_plan,
          )
      | inl absent ↦
          let one =
            build_each_other D H sops identifier context order s k d₁ b b₁
              (ground (arith, has-keys k d₁, m₁.same k, absent)) e₁ in
          let two =
            build_each_other D H sops identifier context order s k d₂ b b₂
              (ground (arith, has-keys k d₂, m₂.same k, absent)) e₂ in
          (one.0 ∙ sym two.0, one.1 ∙ sym two.1)
    ],
    (
      build_each-SameBeside D H sops identifier context order s d₁ b b₁ e₁,
      build_each-SameBeside D H sops identifier context order s d₂ b b₂ e₂,
    ),
  )

  abbrev parallel_run : Dict Text Stack → Building → Result Err Building
  parallel_run arrivals b = build_parallel D H sops identifier context order arrivals s b

  abbrev sequential_run : Dict Text Stack → Building → Result Err Building
  sequential_run stacks b = build_sequential D H sops identifier context order stacks s b

  finish_results-clean :
      (c : Collected) (b : Building) → finish_results c ≡ ok b → (non_nil c.1 ≡ []) × (c.0 ≡ b)
  finish_results-clean (b', errs) b e =
      let msg = codes "one or more stack analyses failed" in
      elim (Option-cases (aggregate parallel_op external msg errs)) [
        | inl none_there ↦ (
          (aggregate_lem parallel_op external msg errs).0.0 none_there,
          ground (arith, e, none_there),
        )
        | inr (x, there) ↦ absurd (ground (arith, e, there))
      ]

  clean-finish_results : (c : Collected) → non_nil c.1 ≡ [] → finish_results c ≡ ok c.0
  clean-finish_results (b, errs) clean = ground (
    arith,
    (aggregate_lem parallel_op external (codes "one or more stack analyses failed") errs).0.1 clean,
  )

  pub parallel-each :
      (arrivals : Dict Text Stack) (b b' : Building)
      → parallel_run arrivals b ≡ ok b'
      → build_each D H sops identifier context order arrivals s b ≡ ok b'
  unfolding build_parallel
  parallel-each arrivals b b' e =
      let fine = finish_results-clean (sent arrivals (b, [])) b' e in
      (collected-clean D H sops identifier context order s arrivals (b, []) fine.0).1 ∙ ap ok fine.1

  shown-Analysed :
      (d : Dict Text Stack) (b b' : Building)
      → Distinct (keys d)
      → b.exec.stacks ≡ []
      → build_each D H sops identifier context order d s b ≡ ok b'
      → Analysed D H sops identifier context order s d
  shown-Analysed d b b' u fresh e =
      All-map (λ (e : Text × Stack). StackShown D H sops identifier context order s b' e.0 e.1)
        (λ (e : Text × Stack).
          (x : StackExecutionData) × (analyse D H sops identifier context order s e.0 e.1 ≡ ok x))
        (λ e h. (h.data', h.analysis)) d
        (build_each-StackShown D H sops identifier context order s d b b' u
          (λ j _. ap (λ m. lookup j m) fresh) e)

  module _ (stacks arrivals : Dict Text Stack) (b : Building) (named : Distinct (keys stacks))
      (arrived : SameMap arrivals stacks) (fresh : b.exec.stacks ≡ []) where
    moved :
        (d e : Dict Text Stack)
        → Distinct (keys e)
        → ((k : Text) → lookup k e ≡ lookup k d)
        → Analysed D H sops identifier context order s d
        → Analysed D H sops identifier context order s e
    moved d e u same all =
        All-SameMap
          (λ (e : Text × Stack).
            (x : StackExecutionData) × (analyse D H sops identifier context order s e.0 e.1 ≡ ok x))
          d e same u all

    parallel_iff_sequential :
        ((b₁ : Building)
          → parallel_run arrivals b ≡ ok b₁
          → (b₂ : Building) × (sequential_run stacks b ≡ ok b₂) × Agree b b₁ b₂)
        × ((b₂ : Building)
            → sequential_run stacks b ≡ ok b₂
            → (b₁ : Building) × (parallel_run arrivals b ≡ ok b₁) × Agree b b₁ b₂)
    unfolding build_sequential build_parallel
    parallel_iff_sequential =
        let sorted = sort_by (λ e. e.0) stacks in
        let m = sorted-SameMap stacks named in
        (
          λ b₁ e.
              let each = parallel-each arrivals b b₁ e in
              let (b₂, e₂) = build_each-Analysed D H sops identifier context order s sorted b (
                moved arrivals sorted m.once (λ k. m.same k ∙ sym (arrived.same k))
                  (shown-Analysed arrivals b b₁ arrived.once fresh each)) in
              (b₂, e₂, same_shown arrivals sorted stacks b b₁ b₂ arrived m fresh each e₂),
          λ b₂ e.
              let all =
                moved sorted arrivals arrived.once (λ k. arrived.same k ∙ sym (m.same k))
                  (shown-Analysed sorted b b₂ m.once fresh e) in
              let clean =
                Analysed-collected D H sops identifier context order s arrivals (b, []) all refl in
              let done = clean-finish_results (sent arrivals (b, [])) clean in
              let b₁ = (sent arrivals (b, [])).0 in
              (
                b₁,
                done,
                same_shown arrivals sorted stacks b b₁ b₂ arrived m fresh
                    (parallel-each arrivals b b₁ done) e,
              ),
        )

    -- In whatever order the goroutines report, once for each stack, the stacks of a new plan are
    -- built in parallel if and only if they are built one by one, and then the plans and the data
    -- for the apply agree: the same entries under every name, and beside the stacks
    -- everything as it was.
    pub build_parallel-build_sequential :
        SameOutcome b (parallel_run arrivals b) (sequential_run stacks b)
    build_parallel-build_sequential =
        SameOutcome-of b (parallel_run arrivals b) (sequential_run stacks b)
          parallel_iff_sequential.0 parallel_iff_sequential.1
