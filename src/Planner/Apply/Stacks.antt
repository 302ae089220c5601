-- ===== src/Planner/Apply/Stacks.antt =====
-- internal/planner/apply.go: `applyStackChangesForContext`.
use dockform.Base.{
  ℕ, not, ◌||◌, Option, none, some, List, [], ◌∷◌, ◌++◌, ◌==◌, if◌then◌else◌, is_empty,
}
use dockform.Base.Text.{Text, codes, text_eq}
use dockform.Base.Dict.{Dict, lookup}
use dockform.Base.Sort.{sort_by}
use dockform.Base.Result.{Result, ok, err}
use dockform.Apperr.{Err, external, wrap, aggregate}
use dockform.Manifest.Types.{Stack, SopsConfig}
use dockform.Planner.Client.{ComposePsItem, compose_up, update_labels, Daemon, World, do_call}
use dockform.Planner.ServiceState.{
  Host, identifier_key, project_name, build_inline_env, needs_apply,
}
use dockform.Planner.ServiceState.Detect.{detect_all_services_state, lookup_is}
use dockform.Planner.Prune.{StackExecutionData, ContextExecutionContext}
use dockform.Planner.Run.{Run, return, ◌>>=◌, ◌>>◌, ask, given, call, wrapping, outcome}

abbrev pub apply_error : Text → Err → Err
apply_error msg e = wrap (codes "planner.Apply") external e msg

abbrev pub cached_stack : Option ContextExecutionContext → Text → Option StackExecutionData
cached_stack none name = none
cached_stack (some x) name = lookup name x.stacks

abbrev pub report : Text → Option Err → List (Option Err)
report msg none = []
report msg (some e) = some (apply_error msg e) ∷ []

abbrev full_name : Text → Text → Text
full_name context name = context ++ (codes "/" ++ name)

-- The errors of the labels, and the world.
abbrev pub Labelled : Daemon → Type 0
Labelled D = List (Option Err) × World D

module _ {D : Daemon} (identifier : Text) where
  abbrev pub set_label : ComposePsItem → List (Option Err) → World D → Labelled D
  set_label it errs w =
      let (e, w') = do_call (update_labels it.name ((identifier_key, identifier) ∷ [])) w in
      (errs ++ report (codes "update identifier label for container " ++ it.name) e, w')

  abbrev pub label_found :
      Result Err (Dict Text Text) → ComposePsItem → List (Option Err) → World D → Labelled D
  label_found (err e) it errs w = (
    errs
        ++ (some (apply_error (codes "inspect identifier label for container " ++ it.name) e) ∷ []),
    w,
  )
  label_found (ok labels) it errs w =
      if lookup_is identifier_key identifier labels then (errs, w) else set_label it errs w

  abbrev pub label_one : ComposePsItem → Labelled D → Labelled D
  label_one it (errs, w) =
      label_found (D.inspect_labels it.name (identifier_key ∷ []) w.state) it errs w

  unfoldable pub label_all : List ComposePsItem → Labelled D → Labelled D
  label_all [] r = r
  label_all (it ∷ items) r = label_all items (label_one it r)

  abbrev pub finish_labels : Labelled D → Result Err (Unit {0}) × World D
  finish_labels (errs, w) = (
    outcome (
        aggregate (codes "planner.Apply") external
          (codes "failed to apply identifier labels to one or more containers") errs),
    w,
  )

  unfoldable pub ensure_labels : Text → Stack → List Text → Run D (Unit {0})
  unfolding label_all
  ensure_labels name stack inline = if identifier == [] then return tt else do
    items ←
        wrapping (apply_error (codes "list compose containers for stack " ++ name))
          (ask (D.compose_ps stack (project_name stack) inline))
    λ w. finish_labels (label_all items ([], w))

module _ {D : Daemon} (H : Host) (sops : Option SopsConfig) (identifier context : Text)
    (order : Text → List ℕ) where
  abbrev pub detect_fresh : Text → Stack → Run D StackExecutionData
  detect_fresh name stack = do
    services ←
        wrapping
          (apply_error
            (codes "failed to detect service states for stack " ++ full_name context name))
          (ask (detect_all_services_state D H (some (order name)) name stack identifier sops))
    inline ←
        wrapping
          (apply_error (codes "failed to build inline env for stack " ++ full_name context name))
          (given (build_inline_env H stack sops))
    return (record { services = services; inline_env = inline; needs_apply = needs_apply services })

  abbrev pub stack_data : Option StackExecutionData → Text → Stack → Run D StackExecutionData
  stack_data (some d) name stack = return d
  stack_data none name stack = detect_fresh name stack

  abbrev pub bring_up : Text → Stack → StackExecutionData → Run D (Unit {0})
  bring_up name stack d = do
    wrapping (apply_error (codes "compose up " ++ full_name context name))
        (call (compose_up stack (project_name stack) d.inline_env))
    ensure_labels identifier (full_name context name) stack d.inline_env

  unfoldable pub apply_stack : Option StackExecutionData → Text → Stack → Run D (Unit {0})
  unfolding ensure_labels
  apply_stack cached name stack = do
    d ← stack_data cached name stack
    if is_empty d.services || not d.needs_apply then return tt else bring_up name stack d

  unfoldable pub apply_each : Option ContextExecutionContext → Dict Text Stack → Run D (Unit {0})
  unfolding apply_stack
  apply_each exec [] = return tt
  apply_each exec ((name, stack) ∷ d) = do
    apply_stack (cached_stack exec name) name stack
    apply_each exec d

  -- In the order of the names.
  unfoldable pub apply_stack_changes :
      Option ContextExecutionContext → Dict Text Stack → Run D (Unit {0})
  unfolding apply_each
  apply_stack_changes exec stacks = apply_each exec (sort_by (λ e. e.0) stacks)
