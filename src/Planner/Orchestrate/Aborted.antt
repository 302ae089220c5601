-- ===== src/Planner/Orchestrate/Aborted.antt =====
-- What an aborted sibling may and may not hide.
use dockform.Base.{
  ◌≡◌, refl, ◌∙◌, Bool, true, false, not, List, [], ◌∷◌, ◌==◌, if◌then◌else◌, map, arith, any_of,
  Bool-cases, inl, inr,
}
use dockform.Base.Text.{Text, text_eq, text_beq_iff, text_ltb, text_ltb_irrefl}
use dockform.Base.Sort.{sort_by, place, any_of-place, any_of-sort_by}
use dockform.Apperr.{is_aborted}
use dockform.Planner.Orchestrate.{
  ContextResult, fail_fast, run_to_completion, classify_aborted, failure_count, parallel_errors,
}

abbrev names : List ContextResult → List Text
names = map (λ r. r.context_name)

-- The results of one context.
abbrev named : Text → ContextResult → Bool
named name r = r.context_name == name

failure_count-classify_absent :
    (first : Text) (rs : List ContextResult)
    → any_of (named first) rs ≡ false
    → failure_count (classify_aborted rs first) ≡ 0
unfolding failure_count classify_aborted is_aborted
failure_count-classify_absent first [] h = refl
failure_count-classify_absent first (r ∷ rs) h =
    ground (arith, failure_count-classify_absent first rs)

-- Distinct contexts, among which one is the first failure.
abbrev Apart : List ContextResult → Type 0
Apart [] = Unit
Apart (r ∷ rs) = (any_of (named r.context_name) rs ≡ false) × Apart rs

-- Whether the error of the named context is a genuine failure.
abbrev genuine : Text → List ContextResult → Bool
genuine first [] = false
genuine first (r ∷ rs) = if named first r then not (is_aborted r.err) else genuine first rs

failure_count-classify_aborted :
    (first : Text) (rs : List ContextResult)
    → Apart rs
    → genuine first rs ≡ true
    → failure_count (classify_aborted rs first) ≡ 1
unfolding failure_count classify_aborted is_aborted
failure_count-classify_aborted first [] u h = cc
failure_count-classify_aborted first (r ∷ rs) u h = elim (Bool-cases (r.context_name == first)) [
  | inl same ↦
      ground (arith, failure_count-classify_absent first rs, text_beq_iff r.context_name first)
  | inr other ↦ ground (arith, failure_count-classify_aborted first rs u.1)
]

place-Apart :
    (r : ContextResult) (rs : List ContextResult)
    → any_of (named r.context_name) rs ≡ false
    → Apart rs
    → Apart (place (λ x. x.context_name) r rs)
unfolding place
place-Apart r [] h u = (refl, tt)
place-Apart r (x ∷ rs) h u = elim (Bool-cases (text_ltb x.context_name r.context_name)) [
  | inl later ↦ rw later (
    ground (
      arith,
      any_of-place (λ y. y.context_name) (named x.context_name) r rs,
      text_beq_iff r.context_name x.context_name,
      text_beq_iff x.context_name r.context_name,
    ),
    place-Apart r rs (ground arith) u.1,
  )
  | inr here ↦ rw here (h, u)
]

genuine-place :
    (first : Text) (r : ContextResult) (rs : List ContextResult)
    → genuine first (place (λ x. x.context_name) r rs) ≡ genuine first (r ∷ rs)
unfolding place
genuine-place first r [] = refl
genuine-place first r (x ∷ rs) = ground (
  arith,
  genuine-place first r rs,
  text_beq_iff x.context_name first,
  text_beq_iff r.context_name first,
  text_ltb_irrefl first,
)

sort_by-Apart : (rs : List ContextResult) → Apart rs → Apart (sort_by (λ x. x.context_name) rs)
unfolding sort_by
sort_by-Apart [] u = tt
sort_by-Apart (r ∷ rs) u =
    place-Apart r (sort_by (λ x. x.context_name) rs) (rw any_of-sort_by u.0) (sort_by-Apart rs u.1)

genuine-sort_by :
    (first : Text) (rs : List ContextResult)
    → genuine first (sort_by (λ x. x.context_name) rs) ≡ genuine first rs
unfolding sort_by
genuine-sort_by first [] = refl
genuine-sort_by first (r ∷ rs) =
    ground
      (arith, genuine-place first r (sort_by (λ x. x.context_name) rs), genuine-sort_by first rs)

-- When the children fail fast under a live parent, and the first failure is not itself an aborted
-- error, exactly one context counts as failed, however many others report an error. The contexts
-- are distinct.
pub failure_count-parallel_errors :
    (r : ContextResult) (rs : List ContextResult)
    → Apart (r ∷ rs)
    → is_aborted r.err ≡ false
    → failure_count (parallel_errors fail_fast true (r ∷ rs)) ≡ 1
unfolding parallel_errors
failure_count-parallel_errors r rs u h =
    failure_count-classify_aborted r.context_name (sort_by (λ x. x.context_name) (r ∷ rs))
      (sort_by-Apart (r ∷ rs) u)
      (genuine-sort_by r.context_name (r ∷ rs)
        ∙ ground (arith, text_beq_iff r.context_name r.context_name))

-- A cancelled parent aborts no one: every error stays as it was reported.
parallel_errors-cancelled :
    (r : ContextResult) (rs : List ContextResult)
    → parallel_errors fail_fast false (r ∷ rs) ≡ parallel_errors run_to_completion true (r ∷ rs)
unfolding parallel_errors
parallel_errors-cancelled r rs = refl
