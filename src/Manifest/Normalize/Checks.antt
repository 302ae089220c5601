-- ===== src/Manifest/Normalize/Checks.antt =====
-- internal/manifest/validation.go: the contexts, the deployments and the keys of the stacks.
use dockform.Base.{ℕ, Bool, not, ◌&&◌, ◌||◌, List, [], ◌∷◌, ◌++◌, ◌==◌, if◌then◌else◌, leb, nat_eq}
use dockform.Base.Trim.{trim_space}
use dockform.Base.Text.{Text, codes, text_eq}
use dockform.Base.Dict.{Dict, has}
use dockform.Base.Result.{Result, ok, err, ◌>>=◌}
use dockform.Apperr.{Err, new, wrap, invalid_input}
use dockform.Manifest.Machine.{Machine}
use dockform.Manifest.Key.{KeyError, not_two_parts, empty_context, empty_stack, parse_stack_key}
use dockform.Manifest.Types.{Stack, ContextConfig, DeploymentConfig}
use dockform.Manifest.Validate.{digit, all_of, invalid}

abbrev pub Done : Type 0
Done = Unit {0}

abbrev pub context_code : ℕ → Bool
context_code c = (leb b'a' c && leb c b'z') || (digit c || (c == b'_' || c == b'-'))

abbrev stack_code : ℕ → Bool
stack_code c = context_code c || c == b'.'

-- `^[a-z0-9_-]+$`
abbrev pub is_context_key : Text → Bool
is_context_key s = not (s == []) && all_of context_code s

-- `^[a-z0-9_.-]+$`
abbrev pub is_app_key : Text → Bool
is_app_key s = not (s == []) && all_of stack_code s

abbrev key_text : KeyError → Text
key_text (not_two_parts key) = codes "stack key must be in 'context/stack' format: " ++ key
key_text (empty_context key) = codes "stack key has empty context name: " ++ key
key_text (empty_stack key) = codes "stack key has empty stack name: " ++ key

-- The error of `ParseStackKey`.
abbrev key_err : KeyError → Err
key_err e = new (codes "manifest.ParseStackKey") invalid_input (key_text e)

abbrev invalid_key : Text → KeyError → Err
invalid_key text e = wrap (codes "manifest.normalizeAndValidate") invalid_input (key_err e) text

module _ (H : Machine) where
  abbrev pub check_context : Text → ContextConfig → Result Err Done
  check_context name cfg =
      if not (is_context_key name)
      then err (
          invalid (
            codes "invalid context key "
            ++ (H.go_quote name ++ codes ": must match ^[a-z0-9_-]+$")))
      else if not (cfg.host == []) && trim_space cfg.host == []
      then err (
          invalid
            (codes "context " ++ (H.go_quote name ++ codes ": host cannot be whitespace-only")))
      else ok tt

  unfoldable pub check_contexts : Dict Text ContextConfig → Result Err Done
  check_contexts [] = ok tt
  check_contexts ((name, cfg) ∷ d) = check_context name cfg >>= λ _. check_contexts d

module _ (H : Machine) (contexts : Dict Text ContextConfig) where
  unfoldable pub check_deployment_contexts : Text → List Text → Result Err Done
  check_deployment_contexts name [] = ok tt
  check_deployment_contexts name (context ∷ cs) =
      let rest = check_deployment_contexts name cs in
      if not (has context contexts)
      then err (
          invalid (
            codes "deployment "
            ++ (name ++ (codes ": references unknown context " ++ H.go_quote context))))
      else rest

  abbrev pub check_deployment_stack : Text → Text → Result KeyError (Text × Text) → Result Err Done
  check_deployment_stack name key (err e) =
      err (invalid_key (codes "deployment " ++ (name ++ codes ": invalid stack reference")) e)
  check_deployment_stack name key (ok (context, stack)) =
      if not (has context contexts)
      then err (
          invalid (
            codes "deployment "
            ++ (name
                ++ (codes ": stack "
                    ++ (H.go_quote key
                        ++ (codes " references unknown context " ++ H.go_quote context))))))
      else ok tt

  unfoldable pub check_deployment_stacks : Text → List Text → Result Err Done
  check_deployment_stacks name [] = ok tt
  check_deployment_stacks name (key ∷ keys) =
      check_deployment_stack name key (parse_stack_key key) >>= λ _.
      check_deployment_stacks name keys

  unfoldable pub check_deployments : Dict Text DeploymentConfig → Result Err Done
  unfolding check_deployment_contexts check_deployment_stacks
  check_deployments [] = ok tt
  check_deployments ((name, deploy) ∷ d) = check_deployment_contexts name deploy.contexts >>= λ _.
      check_deployment_stacks name deploy.stacks >>= λ _. check_deployments d

  abbrev pub check_stack : Text → Stack → Result KeyError (Text × Text) → Result Err Stack
  check_stack key stack (err e) = err (invalid_key (codes "invalid stack key") e)
  check_stack key stack (ok (context, name)) =
      if not (has context contexts)
      then err (
          invalid (
            codes "stack "
            ++ (key ++ (codes ": references unknown context " ++ H.go_quote context))))
      else if not (is_app_key name)
      then err (
          invalid (
            codes "invalid stack name "
            ++ (H.go_quote name
                ++ (codes " in key " ++ (H.go_quote key ++ codes ": must match ^[a-z0-9_.-]+$")))))
      else ok (record stack { context = context })

  -- The explicit stacks, each with its context.
  unfoldable pub check_stacks : Dict Text Stack → Result Err (Dict Text Stack)
  check_stacks [] = ok []
  check_stacks ((key, stack) ∷ d) = check_stack key stack (parse_stack_key key) >>= λ stack'.
      check_stacks d >>= λ d'. ok ((key, stack') ∷ d')
