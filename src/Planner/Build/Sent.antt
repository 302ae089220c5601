-- ===== src/Planner/Build/Sent.antt =====
-- internal/planner/build_plan_stacks.go: what the goroutines of the stacks send, against the turns of
-- the sequential loop.
use dockform.Base.{
  ℕ, ◌≡◌, ◌≢◌, refl, sym, ◌∙◌, ap, Option, none, some, List, [], ◌∷◌, ◌++◌, All, inl, inr,
  Bool-cases, is_empty,
}
use mathlib.Core.Path.{subst}
use dockform.Base.Text.{Text, text_eq}
use dockform.Base.Dict.{Dict}
use dockform.Base.Result.{Result, ok, err, ◌>>=◌, Result-cases}
use dockform.Apperr.{Err, non_nil}
use dockform.Manifest.Types.{Stack, SopsConfig}
use dockform.Planner.Client.{Daemon}
use dockform.Planner.ServiceState.{Host, build_inline_env}
use dockform.Planner.ServiceState.Detect.{detect_all_services_state}
use dockform.Planner.Prune.{StackExecutionData}
use dockform.Planner.Build.Stacks.{
  Building, fallback_stack_resource, show_stack, add_stack_data, analyse_stack, StackResult,
  stack_result, build_each, Collected, collect_result, collect_results,
}

pub non_nil-append_some :
    (errs : List (Option Err)) (e : Err) → non_nil (errs ++ (some e ∷ [])) ≢ []
non_nil-append_some [] e h = cc
non_nil-append_some (none ∷ errs) e h = non_nil-append_some errs e h
non_nil-append_some (some d ∷ errs) e h = cc

module _ (D : Daemon) (H : Host) (sops : Option SopsConfig) (identifier context : Text)
    (order : Text → List ℕ) (s : D.State) where
  abbrev pub analyse : Text → Stack → Result Err StackExecutionData
  analyse name stack = analyse_stack D H sops identifier context order name stack s

  abbrev arrived : Text → Stack → StackResult
  arrived name stack = stack_result D H sops identifier context order name stack s

  abbrev pub collected : Dict Text Stack → Collected → Collected
  collected d c = collect_results D H sops identifier context order d s c

  -- What a goroutine sends does in the plan what the turn of the sequential loop does, or brings an
  -- error where that turn fails.
  abbrev Matches :
      Text → Building → List (Option Err) → Collected → Result Err StackExecutionData → Type 0
  Matches name b errs c (ok x) = c ≡ (add_stack_data name x b, errs)
  Matches name b errs c (err e) =
      (e' : Err) × (c ≡ (show_stack name fallback_stack_resource b, errs ++ (some e' ∷ [])))

  collect_result-Matches :
      (name : Text) (stack : Stack) (b : Building) (errs : List (Option Err))
      → Matches name b errs
          (collect_result name (arrived name stack) (b, errs))
          (analyse name stack)
  unfolding analyse_stack stack_result collect_result add_stack_data
  collect_result-Matches name stack b errs = elim (Result-cases (build_inline_env H stack sops)) [
    | inr (e, bad) ↦ rw bad (_, refl)
    | inl (inline, fine) ↦
        elim (Result-cases
          (detect_all_services_state D H (some (order name)) name stack identifier sops s)) [
            | inr (e, bad) ↦ rw (fine, bad) (_, refl)
            | inl (services, good) ↦ elim (Bool-cases (is_empty services)) [
              | inl bare ↦ rw (fine, good, bare) refl
              | inr full ↦ rw (fine, good, full) refl
            ]
          ]
  ]

  collect_ok :
      (name : Text) (stack : Stack) (d : Dict Text Stack) (b : Building) (errs : List (Option Err))
      (x : StackExecutionData)
      → analyse name stack ≡ ok x
      → collected ((name, stack) ∷ d) (b, errs) ≡ collected d (add_stack_data name x b, errs)
  unfolding collect_results
  collect_ok name stack d b errs x e = ap (collected d) (
      subst (Matches name b errs (collect_result name (arrived name stack) (b, errs))) e
        (collect_result-Matches name stack b errs))

  collect_err_step :
      (name : Text) (stack : Stack) (d : Dict Text Stack) (b : Building) (errs : List (Option Err))
      (e : Err)
      → analyse name stack ≡ err e
      → (e' : Err) × (collected ((name, stack) ∷ d) (b, errs)
          ≡ collected d (show_stack name fallback_stack_resource b, errs ++ (some e' ∷ [])))
  unfolding collect_results
  collect_err_step name stack d b errs e bad =
      let (e', step) =
        subst (Matches name b errs (collect_result name (arrived name stack) (b, errs))) bad
          (collect_result-Matches name stack b errs) in
      (e', ap (collected d) step)

  build_step :
      (name : Text) (stack : Stack) (d : Dict Text Stack) (b : Building) (x : StackExecutionData)
      → analyse name stack ≡ ok x
      → build_each D H sops identifier context order ((name, stack) ∷ d) s b
        ≡ build_each D H sops identifier context order d s (add_stack_data name x b)
  unfolding build_each
  build_step name stack d b x e =
      ap
        (λ r. r >>= λ y. build_each D H sops identifier context order d s (add_stack_data name y b))
        e

  pub collected-clean :
      (d : Dict Text Stack) (c : Collected)
      → non_nil (collected d c).1 ≡ []
      → (non_nil c.1 ≡ [])
        × (build_each D H sops identifier context order d s c.0 ≡ ok (collected d c).0)
  unfolding collect_results build_each
  collected-clean [] c clean = (clean, refl)
  collected-clean ((name, stack) ∷ d) (b, errs) clean = elim (Result-cases (analyse name stack)) [
    | inl (x, fine) ↦
        let e = collect_ok name stack d b errs x fine in
        let rest =
          collected-clean d (add_stack_data name x b, errs)
            (ap (λ c. non_nil c.1) (sym e) ∙ clean) in
        (rest.0, build_step name stack d b x fine ∙ rest.1 ∙ ap (λ c. ok c.0) (sym e))
    | inr (bad, e) ↦
        let (e', step) = collect_err_step name stack d b errs bad e in
        let c' : Collected = (show_stack name fallback_stack_resource b, errs ++ (some e' ∷ [])) in
        absurd (
          non_nil-append_some errs e'
            (collected-clean d c' (ap (λ c. non_nil c.1) (sym step) ∙ clean)).0)
  ]

  -- Every analysis succeeds.
  abbrev pub Analysed : Dict Text Stack → Type 0
  Analysed = All (λ (e : Text × Stack). (x : StackExecutionData) × (analyse e.0 e.1 ≡ ok x))

  pub Analysed-collected :
      (d : Dict Text Stack) (c : Collected)
      → Analysed d
      → non_nil c.1 ≡ []
      → non_nil (collected d c).1 ≡ []
  unfolding collect_results
  Analysed-collected [] c all clean = clean
  Analysed-collected ((name, stack) ∷ d) (b, errs) ((x, fine), all) clean =
      ap (λ c. non_nil c.1) (collect_ok name stack d b errs x fine)
      ∙ Analysed-collected d (add_stack_data name x b, errs) all clean

  pub build_each-Analysed :
      (d : Dict Text Stack) (b : Building)
      → Analysed d
      → (b' : Building) × (build_each D H sops identifier context order d s b ≡ ok b')
  unfolding build_each
  build_each-Analysed [] b all = (b, refl)
  build_each-Analysed ((name, stack) ∷ d) b ((x, fine), all) =
      rw fine (build_each-Analysed d (add_stack_data name x b) all)
