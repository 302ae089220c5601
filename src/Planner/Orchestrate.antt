-- ===== src/Planner/Orchestrate.antt =====
-- internal/planner/orchestrate.go: one operation on every context, one after another or at once.
pub mod Aborted
pub mod Order
mod Tests
use dockform.Base.{
  ℕ, zero, suc, ◌+◌, ◌-◌, Bool, true, false, not, ◌||◌, ◌&&◌, Option, none, some, List, [], ◌∷◌,
  ◌++◌, ◌==◌, is_empty, if◌then◌else◌, length, map, nat_beq,
}
use dockform.Base.Text.{Text, codes, text_eq, decimal}
use dockform.Base.Sort.{sort_by}
use dockform.Base.Dict.{Dict, keys}
use dockform.Apperr.{
  Err, Errs, app, external, cause, context_error, aborted_error, multi_error, errs_of, is_aborted,
  message,
}

pub record ContextResult : Type 0 where
  pub context_name : Text
  pub err : Err

pub data ExecutionMode : Type 0 where
  fail_fast run_to_completion : ExecutionMode

module _ {W : Type 0} (cancelled : W → Option Err) (fn : Text → W → Option Err × W) where
  -- One after another: the first error, or a cancelled context, ends the loop. The recursion waits
  -- in the cases.
  unfoldable pub execute_sequential : List Text → W → Option Err × W
  execute_sequential [] w = (none, w)
  execute_sequential (name ∷ names) w = elim (cancelled w) [
    | some e ↦ (some e, w)
    | none ↦
        let (e, w') = fn name w in
        elim e [ some e' ↦ (some e', w') | none ↦ execute_sequential names w' ]
  ]

-- Only the child that cancelled the others keeps its error as it is.
abbrev classify_one : Text → ContextResult → ContextResult
classify_one first r =
    if r.context_name == first
    then r
    else record { context_name = r.context_name; err = aborted_error r.context_name (cause r.err) }

unfoldable pub classify_aborted : List ContextResult → Text → List ContextResult
classify_aborted [] first = []
classify_aborted (r ∷ rs) first = classify_one first r ∷ classify_aborted rs first

abbrev child_message : ContextResult → Text
child_message r =
    codes "context "
    ++ (r.context_name
        ++ (if is_aborted r.err
            then codes ": aborted: another context failed"
            else codes ": " ++ message r.err))

abbrev pub wrapped : List ContextResult → List Err
wrapped = map (λ r. context_error r.context_name (cause r.err))

unfoldable pub failure_count : List ContextResult → ℕ
failure_count [] = 0
failure_count (r ∷ rs) = if is_aborted r.err then failure_count rs else suc (failure_count rs)

abbrev join_lines : List Text → Text
join_lines [] = []
join_lines (t ∷ []) = t
join_lines (t ∷ u ∷ ts) = t ++ (codes "\n  " ++ join_lines (u ∷ ts))

unfoldable pub summary : List ContextResult → Text
unfolding failure_count
summary errs =
    let failures = failure_count errs in
    let head = decimal failures ++ codes " context(s) failed" in
    if nat_beq failures (length errs)
    then head
    else head
      ++ (codes " ("
          ++ (decimal (length errs - failures) ++ codes " aborted after a sibling failure)"))

-- A single error is returned as it is, more are put together.
abbrev pub combine : List ContextResult → Option Err
combine [] = none
combine (r ∷ []) = some r.err
combine (r ∷ rs) = some (
    app (codes "planner.ExecuteAcrossContexts") external
      (cause (multi_error (errs_of (wrapped (r ∷ rs)))))
      (summary (r ∷ rs) ++ (codes ":\n  " ++ join_lines (map child_message (r ∷ rs)))))

abbrev first_name : List ContextResult → Text
first_name [] = []
first_name (r ∷ rs) = r.context_name

-- The failures in the order in which the children report them, as the mutex makes them; the first
-- of them cancels the run context. `parent_alive`: the parent context is not cancelled.
abbrev settle : ExecutionMode → Bool → Text → List ContextResult → List ContextResult
settle run_to_completion parent_alive first errs = errs
settle fail_fast parent_alive first errs =
    if parent_alive then classify_aborted errs first else errs

unfoldable pub parallel_errors : ExecutionMode → Bool → List ContextResult → List ContextResult
unfolding classify_aborted
parallel_errors mode parent_alive reported =
    settle mode parent_alive (first_name reported) (sort_by (λ r. r.context_name) reported)

unfoldable pub execute_parallel : ExecutionMode → Bool → List ContextResult → Option Err
unfolding parallel_errors summary
execute_parallel mode parent_alive reported = combine (parallel_errors mode parent_alive reported)
