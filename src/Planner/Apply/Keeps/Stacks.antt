-- ===== src/Planner/Apply/Keeps/Stacks.antt =====
-- The calls of the apply of a stack.
use dockform.Base.{
  ℕ, Option, none, some, List, [], ◌∷◌, All, All-append, Bool-cases, inl, inr, nat_eq,
}
use dockform.Base.Text.{Text, text_eq}
use dockform.Base.Dict.{Dict}
use dockform.Base.Result.{Result, ok, err}
use dockform.Apperr.{Err}
use dockform.Manifest.Types.{Stack, SopsConfig}
use dockform.Planner.Client.{ComposePsItem, Call, update_labels, compose_up, Daemon, World, do_call}
use dockform.Planner.ServiceState.{Host, identifier_key, project_name}
use dockform.Planner.ServiceState.Detect.{lookup_is}
use dockform.Planner.Prune.{StackExecutionData}
use dockform.Planner.Run.{Keeps, keeping, >>=-Keeps, return-Keeps, if-Keeps}
use dockform.Planner.Apply.Stacks.{
  Labelled, set_label, label_found, label_all, finish_labels, ensure_labels, stack_data, bring_up,
  apply_stack,
}

module _ {D : Daemon} (P : Call → Type 0) (identifier : Text)
    (updates : (n : Text) → P (update_labels n ((identifier_key, identifier) ∷ []))) where
  set_label-calls :
      (it : ComposePsItem) (errs : List (Option Err)) (w : World D)
      → All P w.calls
      → All P (set_label {D = D} identifier it errs w).1.calls
  unfolding do_call
  set_label-calls it errs w h = All-append P w.calls _ h (updates it.name, tt)

  label_found-calls :
      (r : Result Err (Dict Text Text)) (it : ComposePsItem) (errs : List (Option Err))
      (w : World D)
      → All P w.calls
      → All P (label_found {D = D} identifier r it errs w).1.calls
  label_found-calls (err e) it errs w h = h
  label_found-calls (ok labels) it errs w h =
      elim (Bool-cases (lookup_is identifier_key identifier labels)) [
        | inl same ↦ rw same h
        | inr other ↦ rw other (set_label-calls it errs w h)
      ]

  label_all-calls :
      (items : List ComposePsItem) (r : Labelled D)
      → All P r.1.calls
      → All P (label_all {D = D} identifier items r).1.calls
  unfolding label_all
  label_all-calls [] r h = h
  label_all-calls (it ∷ items) (errs, w) h =
      label_all-calls items _ (label_found-calls _ it errs w h)

  ensure_labels-Keeps :
      (name : Text) (stack : Stack) (inline : List Text)
      → Keeps P (ensure_labels {D = D} identifier name stack inline)
  unfolding ensure_labels
  ensure_labels-Keeps name stack inline = search (keeping, labelled)
    where
      labelled :
          (items : List ComposePsItem)
          → Keeps P
              (λ w. finish_labels {D = D} identifier (label_all {D = D} identifier items ([], w)))
      labelled items = record { kept = λ w h. label_all-calls items ([], w) h }

  bring_up-Keeps :
      (H : Host) (sops : Option SopsConfig) (context : Text) (order : Text → List ℕ) (name : Text)
      (stack : Stack) (d : StackExecutionData)
      → P (compose_up stack (project_name stack) d.inline_env)
      → Keeps P (bring_up {D = D} H sops identifier context order name stack d)
  bring_up-Keeps H sops context order name stack d up = search (keeping, up, ensure_labels-Keeps)

  stack_data-Keeps :
      (H : Host) (sops : Option SopsConfig) (context : Text) (order : Text → List ℕ)
      (o : Option StackExecutionData) (name : Text) (stack : Stack)
      → Keeps P (stack_data {D = D} H sops identifier context order o name stack)
  stack_data-Keeps H sops context order none name stack = search keeping
  stack_data-Keeps H sops context order (some d) name stack = search keeping

  pub apply_stack-Keeps :
      (H : Host) (sops : Option SopsConfig) (context : Text) (order : Text → List ℕ)
      (o : Option StackExecutionData) (name : Text) (stack : Stack)
      → ((env : List Text) → P (compose_up stack (project_name stack) env))
      → Keeps P (apply_stack {D = D} H sops identifier context order o name stack)
  unfolding apply_stack
  apply_stack-Keeps H sops context order o name stack up =
      >>=-Keeps (stack_data-Keeps H sops context order o name stack) (λ d.
        if-Keeps _ _ _ (return-Keeps tt)
          (bring_up-Keeps H sops context order name stack d (up d.inline_env)))
