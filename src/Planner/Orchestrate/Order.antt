-- ===== src/Planner/Orchestrate/Order.antt =====
-- The order in which the children finish does not show when every one runs to completion.
use mathlib.Core.List.{Permᴰ}
use dockform.Base.{
  ◌≡◌, ◌≢◌, refl, ap, ◌∙◌, Bool, Option, none, some, List, [], ◌∷◌, ◌==◌, arith, Bool-cases, inl,
  inr,
}
use dockform.Base.Text.{
  Text, text_eq, text_beq_iff, text_ltb_asymm, text_ltb_trans, text_ltb_connex,
}
use dockform.Base.Sort.{sort_by, place}
use dockform.Apperr.{Err}
use dockform.Planner.Orchestrate.{ContextResult, run_to_completion, combine, execute_parallel}

-- The failures that the children report, in the order in which they finish.
abbrev report : Text → Option Err → List ContextResult → List ContextResult
report name none rest = rest
report name (some e) rest = record { context_name = name; err = e } ∷ rest

unfoldable pub failures : (Text → Option Err) → List Text → List ContextResult
failures outcome [] = []
failures outcome (name ∷ names) = report name (outcome name) (failures outcome names)

abbrev by_name : ContextResult → Text
by_name r = r.context_name

place_comm :
    (x y : ContextResult) (rs : List ContextResult)
    → x.context_name ≢ y.context_name
    → place by_name x (place by_name y rs) ≡ place by_name y (place by_name x rs)
unfolding place
place_comm x y [] h = ground (
  arith,
  text_ltb_asymm x.context_name y.context_name,
  text_ltb_connex x.context_name y.context_name,
)
place_comm x y (r ∷ rs) h = ground (
  arith,
  place_comm x y rs h,
  text_ltb_asymm x.context_name y.context_name,
  text_ltb_connex x.context_name y.context_name,
  text_ltb_trans r.context_name x.context_name y.context_name,
  text_ltb_trans r.context_name y.context_name x.context_name,
  text_ltb_asymm r.context_name x.context_name,
  text_ltb_asymm r.context_name y.context_name,
  text_ltb_connex r.context_name x.context_name,
  text_ltb_connex r.context_name y.context_name,
)

abbrev add : Text → Option Err → List ContextResult → List ContextResult
add name none sorted = sorted
add name (some e) sorted = place by_name (record { context_name = name; err = e }) sorted

sort_by-report :
    (name : Text) (o : Option Err) (rest : List ContextResult)
    → sort_by by_name (report name o rest) ≡ add name o (sort_by by_name rest)
unfolding sort_by
sort_by-report name none rest = refl
sort_by-report name (some e) rest = refl

add_comm :
    (m n : Text) (o o' : Option Err) (rs : List ContextResult)
    → m ≢ n
    → add m o (add n o' rs) ≡ add n o' (add m o rs)
add_comm m n none o' rs h = refl
add_comm m n (some e) none rs h = refl
add_comm m n (some e) (some e') rs h =
    place_comm (record { context_name = m; err = e }) (record { context_name = n; err = e' }) rs h

module _ (outcome : Text → Option Err) where
  sorted : List Text → List ContextResult
  sorted ns = sort_by by_name (failures outcome ns)

  sorted-cons : (n : Text) (ns : List Text) → sorted (n ∷ ns) ≡ add n (outcome n) (sorted ns)
  unfolding sorted failures
  sorted-cons n ns = sort_by-report n (outcome n) (failures outcome ns)

  sorted-swap : (m n : Text) (ns : List Text) → sorted (m ∷ n ∷ ns) ≡ sorted (n ∷ m ∷ ns)
  sorted-swap m n ns = elim (Bool-cases (m == n)) [
    | inl same ↦ rw ((text_beq_iff m n).0 same)
    | inr other ↦
        rw (sorted-cons m (n ∷ ns), sorted-cons n (m ∷ ns), sorted-cons n ns, sorted-cons m ns)
          (add_comm m n (outcome m) (outcome n) (sorted ns)
            (λ e. ground (arith, (text_beq_iff m n).1 e)))
  ]

  sorted-perm : {ms ns : List Text} → Permᴰ ms ns → sorted ms ≡ sorted ns
  sorted-perm Permᴰ.nil = refl
  sorted-perm (Permᴰ.cons {a = m} {b = n} {l₁ = ms} {l₂ = ns} p d) =
      rw (p, sorted-cons n ms, sorted-cons n ns) (ap (add n (outcome n)) (sorted-perm d))
  sorted-perm (Permᴰ.swap {a = a} {b = b} {l = l} p q) = rw (← p, ← q) (sorted-swap a b l)
  sorted-perm (Permᴰ.trans d d') = sorted-perm d ∙ sorted-perm d'

  -- When every child runs to completion, the error of the whole is the same for every order in
  -- which the children finish.
  pub execute_parallel-perm :
      (alive : Bool) (ms ns : List Text)
      → Permᴰ ms ns
      → execute_parallel run_to_completion alive (failures outcome ms)
        ≡ execute_parallel run_to_completion alive (failures outcome ns)
  unfolding execute_parallel sorted
  execute_parallel-perm alive ms ns d = ap combine (sorted-perm d)
