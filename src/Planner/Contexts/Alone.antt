-- ===== src/Planner/Contexts/Alone.antt =====
-- What a run over contexts does on each of them.
use dockform.Base.{
  ◌≡◌, refl, ap, ◌∙◌, Bool, false, not, ◌||◌, Option, none, some, List, [], ◌∷◌, ◌==◌,
  if◌then◌else◌, ◌&&◌, is_some, is_empty, any_of, contains, Distinct, arith, Bool-cases, inl, inr,
}
use dockform.Base.Text.{Text, text_eq, text_beq_iff}
use dockform.Apperr.{Err}
use dockform.Planner.Client.{Daemon, World}
use dockform.Base.Members.{any_of-same}
use dockform.Planner.Orchestrate.{ContextResult, run_to_completion}
use dockform.Planner.Contexts.{Worlds, on_context, reported, run_each}

-- What an operation that is not interrupted makes of the daemon of one context, and whether it fails
-- there.
module _ {D : Daemon} (available : Text → Bool)
    (run : Bool → Text → World D → Option Err × World D) where
  abbrev pub alone : Text → World D → World D
  alone context w = if available context then (run false context w).1 else w

  abbrev pub fails : Text → World D → Bool
  fails context w = not (available context) || is_some (run false context w).0

module _ {D : Daemon} (cancelled : Worlds D → Option Err) (available : Text → Bool) (code : Text)
    (run : Bool → Text → World D → Option Err × World D) where
  abbrev one : Text → Worlds D → Option Err × Worlds D
  one = on_context cancelled available code run false

  pub on_context-alone :
      (context c : Text) (ws : Worlds D)
      → (one context ws).1 c
        ≡ (if c == context then alone available run context (ws context) else ws c)
  unfolding on_context
  on_context-alone context c ws = elim (Bool-cases (available context)) [
    | inl there ↦ rw there refl
    | inr nowhere ↦ rw nowhere (ground (arith, text_beq_iff c context))
  ]

  pub on_context-fails :
      (context : Text) (ws : Worlds D)
      → is_some (one context ws).0 ≡ fails available run context (ws context)
  unfolding on_context
  on_context-fails context ws = elim (Bool-cases (available context)) [
    | inl there ↦ rw there refl
    | inr nowhere ↦ rw nowhere refl
  ]

  abbrev each : List Text → Worlds D → List ContextResult × Worlds D
  each = run_each cancelled available code run run_to_completion false

  pub run_each-alone :
      (finished : List Text) (c : Text) (ws : Worlds D)
      → Distinct finished
      → (each finished ws).1 c
        ≡ (if contains finished c then alone available run c (ws c) else ws c)
  unfolding run_each
  run_each-alone [] c ws u = refl
  run_each-alone (x ∷ xs) c ws u =
      run_each-alone xs c (one x ws).1 u.1
      ∙ rw (on_context-alone x c ws) (ground (arith, text_beq_iff x c, text_beq_iff c x, u.0))

  reported-any :
      (context : Text) (e : Option Err) (rs : List ContextResult)
      → is_empty (reported cancelled available code run context e rs)
        ≡ (not (is_some e) && is_empty rs)
  reported-any context none rs = refl
  reported-any context (some e) rs = refl

  pub run_each-fails :
      (finished : List Text) (ws : Worlds D)
      → Distinct finished
      → is_empty (each finished ws).0 ≡ not (any_of (λ c. fails available run c (ws c)) finished)
  unfolding run_each
  run_each-fails [] ws u = refl
  run_each-fails (x ∷ xs) ws u =
      let later : any_of (λ c. fails available run c ((one x ws).1 c)) xs
          ≡ any_of (λ c. fails available run c (ws c)) xs =
        any_of-same (λ c. fails available run c ((one x ws).1 c))
          (λ c. fails available run c (ws c)) xs
          (λ c there. ap (fails available run c) (
            on_context-alone x c ws
            ∙ ground (arith, text_beq_iff x c, text_beq_iff c x, u.0, there))) in
      reported-any x (one x ws).0 (each xs (one x ws).1).0
      ∙ ground (arith, on_context-fails x ws, run_each-fails xs (one x ws).1 u.1, later)
