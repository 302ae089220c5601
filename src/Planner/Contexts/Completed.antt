-- ===== src/Planner/Contexts/Completed.antt =====
-- A failure on one context leaves the others alone.
use dockform.Base.{
  ◌≡◌, refl, sym, ap, ◌∙◌, Bool, true, false, not, Option, none, some, List, [], ◌∷◌, if◌then◌else◌,
  nat_beq, length, is_some, is_empty, any_of, contains, Distinct, arith, Option-cases, inl, inr,
}
use dockform.Base.Text.{Text, text_eq, text_beq_iff}
use dockform.Apperr.{Err}
use dockform.Manifest.Types.{Config}
use dockform.Planner.Client.{Daemon, World}
use mathlib.Core.Path.{subst}
use dockform.Base.Dict.{keys}
use dockform.Base.Members.{any_of-members}
use dockform.Base.Sort.{sort_by, any_of-sort_by, contains-sort_by}
use dockform.Planner.Orchestrate.{
  execute_sequential, ContextResult, run_to_completion, combine, parallel_errors, execute_parallel,
}
use dockform.Planner.Contexts.{Worlds, on_context, run_each, in_parallel, across, execute_across}
use dockform.Planner.Contexts.Alone.{
  alone, fails, on_context-alone, on_context-fails, run_each-alone, run_each-fails,
}

-- More than the failures themselves are not needed to see whether there is one.
combine-any : (rs : List ContextResult) → is_some (combine rs) ≡ not (is_empty rs)
combine-any [] = refl
combine-any (r ∷ []) = refl
combine-any (r ∷ s ∷ rs) = refl

is_empty-any {ℓ} : {A : Type ℓ} (xs : List A) → is_empty xs ≡ not (any_of (λ _. true) xs)
is_empty-any [] = refl
is_empty-any (x ∷ xs) = refl

execute_parallel-any :
    (rs : List ContextResult)
    → is_some (execute_parallel run_to_completion true rs) ≡ not (is_empty rs)
unfolding execute_parallel parallel_errors
execute_parallel-any rs =
    combine-any (sort_by (λ r. r.context_name) rs)
    ∙ ap not (
        is_empty-any (sort_by (λ r. r.context_name) rs)
        ∙ ap not (any_of-sort_by (λ (r : ContextResult). r.context_name) (λ _. true) rs)
        ∙ sym (is_empty-any rs))

sequential_one :
    {W : Type 0} (cancelled : W → Option Err) (fn : Text → W → Option Err × W) (name : Text) (w : W)
    → cancelled w ≡ none
    → execute_sequential cancelled fn (name ∷ []) w ≡ fn name w
unfolding execute_sequential
sequential_one {W} cancelled fn name w alive =
    let last : Option Err → W → Option Err × W =
      λ o w'. elim o [ some e ↦ (some e, w') | none ↦ (none, w') ] in
    let same : (o : Option Err) (w' : W) → last o w' ≡ (o, w') = λ o w'. elim (Option-cases o) [
      | inl fine ↦ rw fine refl
      | inr (e, failed) ↦ rw failed refl
    ] in
    rw (alive, execute_sequential) (same (fn name w).0 (fn name w).1)

module _ {D : Daemon} (cancelled : Worlds D → Option Err) (available : Text → Bool) (code : Text)
    (run : Bool → Text → World D → Option Err × World D) (ws : Worlds D)
    (alive : cancelled ws ≡ none) where
  abbrev any_fails : List Text → Bool
  any_fails names = any_of (λ n. fails available run n (ws n)) names

  abbrev alone_or : Bool → Text → World D
  alone_or b c = if b then alone available run c (ws c) else ws c

  -- A run over some contexts that fails if one of them fails, and does to each what it does alone.
  abbrev Completes : List Text → Option Err × Worlds D → Type 0
  Completes names r =
      (is_some r.0 ≡ any_fails names) × ((c : Text) → r.1 c ≡ alone_or (contains names c) c)

  sequential_one-Completes :
      (name : Text) → Completes (name ∷ []) (on_context cancelled available code run false name ws)
  sequential_one-Completes name = (
    ground (arith, on_context-fails cancelled available code run name ws),
    λ c.
        on_context-alone cancelled available code run name c ws
        ∙ ground (arith, text_beq_iff c name, text_beq_iff name c),
  )

  in_parallel-Completes :
      (finished : List Text)
      → Distinct finished
      → Completes finished (in_parallel cancelled available code run run_to_completion finished ws)
  in_parallel-Completes finished u =
      let rs = (run_each cancelled available code run run_to_completion false finished ws).0 in
      (
        execute_parallel-any rs
            ∙ ground (arith, run_each-fails cancelled available code run finished ws u),
        λ c. run_each-alone cancelled available code run finished c ws u,
      )

  across-Completes :
      (names finished : List Text)
      → Distinct finished
      → ((c : Text) → contains finished c ≡ contains names c)
      → Completes names
          (across cancelled available code run run_to_completion true finished names ws)
  across-Completes [] finished u same = (refl, λ c. refl)
  across-Completes (x ∷ []) finished u same =
      subst (Completes (x ∷ []))
        (sym (sequential_one cancelled (on_context cancelled available code run false) x ws alive))
        (sequential_one-Completes x)
  across-Completes (x ∷ y ∷ names) finished u same =
      let many : nat_beq (length (x ∷ y ∷ names)) 1 ≡ false = ground arith in
      let (failing, each_world) = in_parallel-Completes finished u in
      rw many (
        failing ∙ any_of-members (λ n. fails available run n (ws n)) finished (x ∷ y ∷ names) same,
        λ c. each_world c ∙ ap (λ b. alone_or b c) (same c),
      )

-- A parallel run to completion of an operation, in which each declared context finishes once and which
-- is not cancelled before it starts, fails exactly if some declared context has no client or the
-- operation, not interrupted, fails there, and leaves the daemon of each declared context as the
-- operation on that context alone, not interrupted, leaves it, whatever the order, whichever others
-- fail and whatever an interrupted operation would do, and any other daemon as it was.
pub execute_across-alone :
    {D : Daemon} (cancelled : Worlds D → Option Err) (available : Text → Bool) (code : Text)
    (run : Bool → Text → World D → Option Err × World D) (cfg : Config) (ws : Worlds D)
    (finished : List Text) (c : Text)
    → cancelled ws ≡ none
    → Distinct finished
    → ((k : Text) → contains finished k ≡ contains (keys cfg.contexts) k)
    → (is_some
          (execute_across cancelled available code run cfg run_to_completion true finished ws).0
        ≡ any_of (λ k. fails available run k (ws k)) (keys cfg.contexts))
      × ((execute_across cancelled available code run cfg run_to_completion true finished ws).1 c
          ≡ (if contains (keys cfg.contexts) c then alone available run c (ws c) else ws c))
unfolding execute_across
execute_across-alone cancelled available code run cfg ws finished c alive u same =
    let names = sort_by (λ k. k) (keys cfg.contexts) in
    let sorted : (k : Text) → contains names k ≡ contains (keys cfg.contexts) k =
      λ k. contains-sort_by (keys cfg.contexts) k in
    let (failing, each_world) =
      across-Completes cancelled available code run ws alive names finished u
        (λ k. same k ∙ sym (sorted k)) in
    (
      failing ∙ any_of-sort_by (λ k. k) (λ n. fails available run n (ws n)) (keys cfg.contexts),
      each_world c ∙ ap (λ b. if b then alone available run c (ws c) else ws c) (sorted c),
    )
