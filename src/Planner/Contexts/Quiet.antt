-- ===== src/Planner/Contexts/Quiet.antt =====
-- internal/planner/build_plan.go, apply.go: a plan of every context that asks for nothing, applied.
use dockform.Base.{
  ℕ, ◌≡◌, refl, sym, ap, ◌∙◌, ◌⊎◌, inl, inr, Bool, true, false, Option, none, some, List, [], ◌∷◌,
  ◌==◌, contains, Distinct, All, any_of, is_some, arith, Bool-cases,
}
use mathlib.Core.Path.{subst}
use dockform.Base.Sort.{sort_by, contains-sort_by}
use dockform.Base.Text.{Text, codes, text_eq, text_beq_iff}
use dockform.Base.Dict.{Dict, keys, lookup, lookup-insert}
use dockform.Base.Maps.{SameMap, All-lookup}
use dockform.Base.Result.{Result, ok, >>=-eq-ok}
use dockform.Apperr.{Err}
use dockform.Manifest.Types.{Stack, FilesetSpec, Config}
use dockform.Manifest.Merge.{get_filesets_for_context}
use dockform.Filesets.Local.{Disk}
use dockform.Planner.Client.{Daemon, World}
use dockform.Planner.ServiceState.{Host}
use dockform.Planner.Apply.{apply_context}
use dockform.Planner.Build.{
  Plan, ContextPlan, get_context_execution_context, add_context, empty_plan, plan_contexts,
  build_plan,
}
use dockform.Planner.Build.Stacks.{Building}
use dockform.Planner.Build.Context.{Schedule, build_context_plan}
use dockform.Planner.Build.Wanted.{asks}
use dockform.Planner.Build.Agrees.{build_context_plan-apply_context}
use dockform.Planner.Contexts.{Worlds, exec_of, error_of, apply_run, apply_with_plan}
use dockform.Planner.Contexts.Alone.{fails}
use dockform.Base.Members.{any_of-same}
use dockform.Planner.Contexts.Completed.{execute_across-alone}

module _ (D : Daemon) (H : Host) (disk : Disk) (parallel : Bool) (run : Text → Schedule)
    (cfg : Config) (states : Text → D.State) where
  -- The plan has for a context what its own plan has.
  record Planned (p : Plan) (c : Text) : Type 0 where
    built : Building
    shown : ContextPlan
    build_ok : build_context_plan D H disk parallel (run c) cfg c (states c) ≡ ok built
    exec_found : lookup c p.execution_context ≡ some built.exec
    plan_found : lookup c p.by_context ≡ some shown
    same_plan : shown.resources ≡ built.plan

  add_context-here :
      (c : Text) (b : Building) (p : Plan)
      → build_context_plan D H disk parallel (run c) cfg c (states c) ≡ ok b
      → Planned (add_context cfg c b p) c
  add_context-here c b p h =
      let shown : ContextPlan = record {
        context_name = c;
        identifier = cfg.identifier;
        resources = b.plan;
      } in
      record {
        built = b;
        shown = shown;
        build_ok = h;
        exec_found = ground (arith, lookup-insert c c b.exec p.execution_context, text_beq_iff c c);
        plan_found = ground (arith, lookup-insert c c shown p.by_context, text_beq_iff c c);
        same_plan = refl;
      }

  add_context-other :
      (x c : Text) (b : Building) (p : Plan)
      → (x == c) ≡ false
      → Planned p c
      → Planned (add_context cfg x b p) c
  add_context-other x c b p other q =
      let shown : ContextPlan = record {
        context_name = x;
        identifier = cfg.identifier;
        resources = b.plan;
      } in
      record {
        built = q.built;
        shown = q.shown;
        build_ok = q.build_ok;
        exec_found = lookup-insert x c b.exec p.execution_context ∙ rw other q.exec_found;
        plan_found = lookup-insert x c shown p.by_context ∙ rw other q.plan_found;
        same_plan = q.same_plan;
      }

  plan_contexts-Planned :
      (names : List Text) (c : Text) (p p' : Plan)
      → plan_contexts D H disk parallel run cfg states names p ≡ ok p'
      → (contains names c ≡ true) ⊎ Planned p c
      → Planned p' c
  unfolding plan_contexts
  plan_contexts-Planned [] c p p' h (inl there) = absurd (ground (arith, there))
  plan_contexts-Planned [] c p p' h (inr q) =
      let same : p ≡ p' = cc in subst (λ x. Planned x c) same q
  plan_contexts-Planned (x ∷ names) c p p' h start =
      let (b, first, rest) =
        >>=-eq-ok (build_context_plan D H disk parallel (run x) cfg x (states x))
          (λ b. plan_contexts D H disk parallel run cfg states names (add_context cfg x b p)) h in
      elim (Bool-cases (x == c)) [
        | inl here ↦
            let e : x ≡ c = (text_beq_iff x c).0 here in
            let there : Planned (add_context cfg x b p) c =
              subst (λ y. Planned (add_context cfg x b p) y) e (add_context-here x b p first) in
            plan_contexts-Planned names c (add_context cfg x b p) p' rest (inr there)
        | inr other ↦ plan_contexts-Planned names c (add_context cfg x b p) p' rest (elim start [
          | inl there ↦ inl (ground (arith, there, other))
          | inr q ↦ inr (add_context-other x c b p other q)
        ])
      ]

  build_plan-Planned :
      (p : Plan) (c : Text)
      → build_plan D H disk parallel run cfg states ≡ ok p
      → contains (keys cfg.contexts) c ≡ true
      → Planned p c
  unfolding build_plan
  build_plan-Planned p c h there =
      let names = sort_by (λ k. k) (keys cfg.contexts) in
      let (p₁, planned, h₁) =
        >>=-eq-ok (plan_contexts D H disk parallel run cfg states names empty_plan) _ h in
      let q =
        plan_contexts-Planned names c empty_plan p₁ planned
          (inl (contains-sort_by (keys cfg.contexts) c ∙ there)) in
      let execs : p₁.execution_context ≡ p.execution_context = ground (arith, h₁) in
      let plans : p₁.by_context ≡ p.by_context = ground (arith, h₁) in
      record {
        built = q.built;
        shown = q.shown;
        build_ok = q.build_ok;
        exec_found = ap (lookup c) (sym execs) ∙ q.exec_found;
        plan_found = ap (lookup c) (sym plans) ∙ q.plan_found;
        same_plan = q.same_plan;
      }

any_of-never : (xs : List Text) → any_of (λ _. false) xs ≡ false
any_of-never [] = refl
any_of-never (x ∷ xs) = any_of-never xs

module _ {D : Daemon} (H : Host) (disk : Disk) (parallel : Bool) (run : Text → Schedule)
    (cfg : Config) (order : Text → List ℕ) (ws : Worlds D) (p : Plan)
    (stacks_once : (k : Text) (d : Dict Text Stack)
      → Distinct (keys d)
      → SameMap ((run k).stack_arrivals d) d)
    (filesets_once : (k : Text) (d : Dict Text FilesetSpec)
      → Distinct (keys d)
      → SameMap ((run k).fileset_arrivals d) d)
    (sources : (k : Text)
      → contains (keys cfg.contexts) k ≡ true
      → All
          (λ (e : Text × FilesetSpec). (e.1.source_abs == []) ≡ false)
          (get_filesets_for_context cfg k))
    (planned : build_plan D H disk parallel run cfg (λ k. (ws k).state) ≡ ok p)
    (quiet : All (λ (e : Text × ContextPlan). asks e.1.resources ≡ false) p.by_context) where
  quiet_context :
      (k : Text)
      → contains (keys cfg.contexts) k ≡ true
      → apply_context H disk order cfg k (exec_of (some p) k) (ws k) ≡ (ok tt, ws k)
  unfolding get_context_execution_context
  quiet_context k there =
      let q = build_plan-Planned D H disk parallel run cfg (λ k. (ws k).state) p k planned there in
      let calm : asks q.shown.resources ≡ false =
        All-lookup (λ (e : Text × ContextPlan). asks e.1.resources ≡ false) k q.shown p.by_context
          quiet q.plan_found in
      ap (λ x. apply_context H disk order cfg k x (ws k)) q.exec_found
      ∙ build_context_plan-apply_context D H disk parallel (run k) cfg k order (ws k) q.built
          (stacks_once k) (filesets_once k) (sources k there) q.build_ok
          (ap asks (sym q.same_plan) ∙ calm)

  -- If the plan of every context succeeds, with each stack and fileset arriving once, and asks for
  -- nothing, then a parallel apply of it, on the same daemons, each with a client, with a source
  -- for each fileset and in whatever order the contexts finish, succeeds and makes no call on any.
  pub build_plan-apply_with_plan :
      (interrupted : Text → World D → Option Err × World D) (cancelled : Worlds D → Option Err)
      (available : Text → Bool) (finished : List Text) (c : Text)
      → cancelled ws ≡ none
      → Distinct finished
      → ((k : Text) → contains finished k ≡ contains (keys cfg.contexts) k)
      → ((k : Text) → contains (keys cfg.contexts) k ≡ true → available k ≡ true)
      → (is_some
            (apply_with_plan interrupted cancelled available H disk order cfg
              (some p)
              true
              finished
              ws).0
          ≡ false)
        × ((apply_with_plan interrupted cancelled available H disk order cfg
                (some p)
                true
                finished
                ws).1
              c
            ≡ ws c)
  unfolding apply_with_plan apply_run
  build_plan-apply_with_plan interrupted cancelled available finished c alive u same clients =
      let run = apply_run interrupted H disk order cfg (some p) in
      let (failing, world) =
        execute_across-alone cancelled available (codes "planner.Apply") run cfg ws finished c alive
          u same in
      let calm : (k : Text)
          → contains (keys cfg.contexts) k ≡ true
          → fails available run k (ws k) ≡ false =
        λ k there. rw (clients k there) (
          ap (λ (r : Result Err (Unit {0}) × World D). is_some (error_of r.0))
            (quiet_context k there)) in
      (
        failing
            ∙ any_of-same (λ k. fails available run k (ws k)) (λ _. false) (keys cfg.contexts) calm
            ∙ any_of-never (keys cfg.contexts),
        world ∙ elim (Bool-cases (contains (keys cfg.contexts) c)) [
          | inr other ↦ rw other refl
          | inl there ↦
              rw (there, clients c there)
                (ap (λ (r : Result Err (Unit {0}) × World D). r.1) (quiet_context c there))
        ],
      )
