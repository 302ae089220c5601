-- ===== src/Apperr/Chain.antt =====
-- What chains of errors keep: kinds, aborted marks, and the deepest message.
use dockform.Base.{
  ℕ, zero, suc, ◌<◌, ◌≡◌, ◌↔◌, refl, ◌∙◌, Bool, false, Option, none, some, List, [], ◌∷◌, ◌==◌,
  if◌then◌else◌, arith, any_of, Option-cases, inl, inr,
}
use dockform.Base.Text.{Text, text_eq}
use dockform.Apperr.{
  Kind, Err, Cause, Errs, plain, app, context_error, aborted_error, multi_error, no_cause, cause,
  no_errs, more_errs, wrap, App, as_app, as_app_cause, as_app_errs, is_aborted, is_aborted_errs,
  deepest_loop, size, size_cause, size_errs, errs_of, non_nil, aggregate_some, aggregate,
}

-- What is found is a part: its cause is smaller than what was searched.
mutual
  unfolding as_app size

  as_app-size : (e : Err) (a : App) → as_app e ≡ some a → size_cause a.err < size e
  as_app-size (plain m) a h = ground arith
  as_app-size (app op kind c m) a h = ground arith
  as_app-size (context_error name c) a h = ground (arith, as_app_cause-size c a)
  as_app-size (aborted_error name c) a h = ground (arith, as_app_cause-size c a)
  as_app-size (multi_error es) a h = ground (arith, as_app_errs-size es a)

  as_app_cause-size :
      (c : Cause) (a : App) → as_app_cause c ≡ some a → size_cause a.err < size_cause c
  as_app_cause-size no_cause a h = ground arith
  as_app_cause-size (cause e) a h = as_app-size e a h

  as_app_errs-size :
      (es : Errs) (a : App) → as_app_errs es ≡ some a → size_cause a.err < size_errs es
  as_app_errs-size no_errs a h = ground arith
  as_app_errs-size (more_errs e es) a h = ground (arith, as_app-size e a, as_app_errs-size es a)

deepest_loop-same :
    (f g : ℕ) (c : Cause) (last : Text)
    → size_cause c < f
    → size_cause c < g
    → deepest_loop f c last ≡ deepest_loop g c last
unfolding deepest_loop
deepest_loop-same zero g c last h k = absurd (omega arith)
deepest_loop-same (suc f) zero c last h k = absurd (omega arith)
deepest_loop-same (suc f) (suc g) c last h k = elim (Option-cases (as_app_cause c)) [
  | inl ended ↦ ground arith
  | inr (a, found) ↦ ground (
    arith,
    as_app_cause-size c a found,
    deepest_loop-same f g a.err (if a.msg == [] then last else a.msg),
  )
]

deepest_loop-ends :
    (f : ℕ) (c : Cause) (last : Text)
    → size_cause c < f
    → (t : Text) × (deepest_loop f c last ≡ some t)
unfolding deepest_loop
deepest_loop-ends zero c last h = absurd (omega arith)
deepest_loop-ends (suc f) c last h = elim (Option-cases (as_app_cause c)) [
  | inl ended ↦ (last, rw (ended, deepest_loop) refl)
  | inr (a, found) ↦
      let smaller = as_app_cause-size c a found in
      rw (found, deepest_loop)
        (deepest_loop-ends f a.err (if a.msg == [] then last else a.msg) (omega arith))
]

-- With any fuel above the size of the chain the loop comes to its own end, with one text that does not
-- depend on the fuel.
pub deepest_loop_fuel :
    (c : Cause) (last : Text)
    → (t : Text) × ((fuel : ℕ) → size_cause c < fuel → deepest_loop fuel c last ≡ some t)
deepest_loop_fuel c last =
    let (t, e) = deepest_loop-ends (suc (size_cause c)) c last (omega arith) in
    (t, λ fuel h. deepest_loop-same fuel (suc (size_cause c)) c last h (omega arith) ∙ e)

-- Wrappers from the outermost in, and the last message among them that is not empty.
abbrev pub Wrapper : Type 0
Wrapper = Text × Kind × Text

abbrev pub wrap_all : List Wrapper → Err → Err
wrap_all [] root = root
wrap_all ((op, kind, msg) ∷ ws) root = wrap op kind (wrap_all ws root) msg

abbrev pub last_msg : Text → List Wrapper → Text
last_msg last [] = last
last_msg last ((op, kind, msg) ∷ ws) = last_msg (if msg == [] then last else msg) ws

is_aborted_errs-errs_of : (es : List Err) → is_aborted_errs (errs_of es) ≡ any_of is_aborted es
unfolding is_aborted
is_aborted_errs-errs_of [] = refl
is_aborted_errs-errs_of (e ∷ es) = ground (arith, is_aborted_errs-errs_of es)

abbrev pub has_aborted : Option Err → Bool
has_aborted none = false
has_aborted (some e) = is_aborted e

any_of-non_nil :
    (errs : List (Option Err)) → any_of is_aborted (non_nil errs) ≡ any_of has_aborted errs
any_of-non_nil [] = refl
any_of-non_nil (none ∷ errs) = any_of-non_nil errs
any_of-non_nil (some e ∷ errs) = ground (arith, any_of-non_nil errs)

aggregate_some_lem :
    (op : Text) (kind : Kind) (msg : Text) (es : List Err)
    → ((aggregate_some op kind msg es ≡ none) ↔ (es ≡ []))
      × (has_aborted (aggregate_some op kind msg es) ≡ any_of is_aborted es)
unfolding is_aborted
aggregate_some_lem op kind msg [] = ((λ _. refl, λ _. refl), refl)
aggregate_some_lem op kind msg (e ∷ []) = ground arith
aggregate_some_lem op kind msg (e ∷ f ∷ es) =
    ((λ h. cc, λ h. cc), ground (arith, is_aborted_errs-errs_of (e ∷ f ∷ es)))

-- An aggregate is nil exactly when every error given is nil, and it counts as aborted exactly when
-- one of them does.
pub aggregate_lem :
    (op : Text) (kind : Kind) (msg : Text) (errs : List (Option Err))
    → ((aggregate op kind msg errs ≡ none) ↔ (non_nil errs ≡ []))
      × (has_aborted (aggregate op kind msg errs) ≡ any_of has_aborted errs)
unfolding aggregate
aggregate_lem op kind msg errs =
    let (nil_iff, marks) = aggregate_some_lem op kind msg (non_nil errs) in
    (nil_iff, marks ∙ any_of-non_nil errs)
