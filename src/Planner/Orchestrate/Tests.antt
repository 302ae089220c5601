-- ===== src/Planner/Orchestrate/Tests.antt =====
-- The outcomes of two contexts, and the theorems at them.
use dockform.Base.{◌≡◌, refl, true, Option, none, some, [], ◌∷◌, ◌==◌, nat_eq, if◌then◌else◌}
use dockform.Base.Text.{Text, codes, text_eq, text_beq}
use dockform.Apperr.{Err, plain, is_aborted}
use dockform.Planner.Orchestrate.{ContextResult, fail_fast, failure_count, parallel_errors}
use dockform.Planner.Orchestrate.Aborted.{failure_count-parallel_errors}

abbrev failure : Text → ContextResult
failure name = record { context_name = name; err = plain (codes "boom") }

failure_count-parallel_errors_example :
    failure_count (parallel_errors fail_fast true (failure (codes "b") ∷ failure (codes "a") ∷ []))
    ≡ 1
unfolding text_beq is_aborted
failure_count-parallel_errors_example =
    failure_count-parallel_errors (failure (codes "b")) (failure (codes "a") ∷ [])
      (refl, (refl, tt)) refl

abbrev outcome : Text → Option Err
outcome name = if name == codes "b" then none else some (plain name)
