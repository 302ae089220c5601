-- ===== src/Planner/Contexts/Safe.antt =====
-- internal/planner/prune.go, destroy.go: what a prune and a targeted destroy of all contexts may
-- remove.
use dockform.Base.{
  ◌≡◌, sym, inl, inr, Bool, true, false, not, Option, none, List, [], if◌then◌else◌, contains,
  Distinct, All, arith, Bool-cases,
}
use mathlib.Core.Path.{subst}
use dockform.Base.Text.{Text, codes, text_eq}
use dockform.Base.Dict.{keys}
use dockform.Apperr.{Err}
use dockform.Manifest.Types.{Config}
use dockform.Manifest.Merge.{get_all_filesets}
use dockform.Planner.Client.{Call, Daemon, World}
use dockform.Planner.Prune.{CleanupOptions}
use dockform.Planner.Destroy.{volume_to_fileset, new_destroy_scope, destroy_context}
use dockform.Planner.Destroy.Scope.{Scoped, destroy_context-Scoped}
use dockform.Planner.Orchestrate.{run_to_completion}
use dockform.Planner.Contexts.{Worlds, unless_cancelled, execute_across, destroy_with_options}
use dockform.Planner.Contexts.Completed.{execute_across-alone}

-- The calls on a daemon keep a property, if the operation on its context keeps it.
execute_across-calls :
    {D : Daemon} (cancelled : Worlds D → Option Err) (available : Text → Bool) (code : Text)
    (run : Bool → Text → World D → Option Err × World D) (cfg : Config) (ws : Worlds D)
    (finished : List Text) (c : Text) (P : Call → Type 0)
    → cancelled ws ≡ none
    → Distinct finished
    → ((k : Text) → contains finished k ≡ contains (keys cfg.contexts) k)
    → All P (ws c).calls
    → All P (run false c (ws c)).1.calls
    → All P
        ((execute_across cancelled available code run cfg run_to_completion true finished ws).1
          c).calls
execute_across-calls cancelled available code run cfg ws finished c P alive u same before after =
    let (failing, world) =
      execute_across-alone cancelled available code run cfg ws finished c alive u same in
    subst (λ w. All P w.calls) (sym world)
      (elim (Bool-cases (contains (keys cfg.contexts) c)) [
        | inr other ↦ rw other before
        | inl there ↦ elim (Bool-cases (available c)) [
          | inl has ↦ rw (there, has) after
          | inr nowhere ↦ rw (there, nowhere) before
        ]
      ])

-- The choice of a run by a test.
chosen-All :
    {D : Daemon} (b : Bool) (x y : Option Err × Worlds D) (c : Text) (P : Call → Type 0)
    → All P (x.1 c).calls
    → All P (y.1 c).calls
    → All P ((if b then x else y).1 c).calls
chosen-All true x y c P h k = h
chosen-All false x y c P h k = k

pub targeted_scope : (cfg : Config) → cfg.targeted ≡ true → (new_destroy_scope cfg).targeted ≡ true
unfolding new_destroy_scope
targeted_scope cfg narrow = ground (arith, narrow)

-- Whatever the daemons answer, a parallel targeted destroy removes on no daemon a network, or a
-- volume that is not the target of a fileset of the configuration, if the calls before it are of
-- this kind; each context finishes once, and the destroy is not cancelled before it starts.
pub destroy_with_options-Scoped :
    {D : Daemon} (interrupted : Text → World D → Option Err × World D)
    (cancelled : Worlds D → Option Err) (available : Text → Bool) (configured : Bool) (cfg : Config)
    (opts : CleanupOptions) (ws : Worlds D) (finished : List Text) (c : Text)
    (narrow : cfg.targeted ≡ true)
    → cancelled ws ≡ none
    → Distinct finished
    → ((k : Text) → contains finished k ≡ contains (keys cfg.contexts) k)
    → All (Scoped D c cfg (new_destroy_scope cfg) (targeted_scope cfg narrow)) (ws c).calls
    → All
        (Scoped D c cfg (new_destroy_scope cfg) (targeted_scope cfg narrow))
        ((destroy_with_options interrupted cancelled available configured cfg opts true finished
            ws).1
          c).calls
unfolding destroy_with_options
destroy_with_options-Scoped {D} interrupted cancelled available configured cfg opts ws finished c
      narrow alive u same before =
    let scope = new_destroy_scope cfg in
    let targeted = targeted_scope cfg narrow in
    let P = Scoped D c cfg scope targeted in
    chosen-All (not configured) _ _ c P before (
      execute_across-calls cancelled available (codes "planner.Destroy")
        (unless_cancelled interrupted (λ context w.
          destroy_context D context (volume_to_fileset (get_all_filesets cfg) []) scope w))
        cfg ws finished c P alive u same before
        (destroy_context-Scoped D c cfg scope targeted (ws c) before))
