-- ===== src/Manifest/Normalize/Accepted.antt =====
-- What a configuration is that the validation accepts.
use dockform.Base.{◌≡◌, Bool, true, false, not, ◌&&◌, ◌||◌, List, [], ◌∷◌, ◌==◌, All, arith}
use dockform.Base.Trim.{trim_space}
use dockform.Base.Text.{Text, text_eq}
use dockform.Base.Dict.{Dict, has}
use dockform.Base.Result.{Result, ok, err, >>=-eq-ok}
use dockform.Manifest.Machine.{Machine}
use dockform.Manifest.Key.{KeyError, parse_stack_key}
use dockform.Manifest.Types.{Stack, ContextConfig, DeploymentConfig}
use dockform.Manifest.Normalize.Checks.{
  is_context_key, is_app_key, check_context, check_contexts, check_deployment_contexts,
  check_deployment_stack, check_deployment_stacks, check_deployments, check_stack, check_stacks,
}

abbrev pub context_fine : Text × ContextConfig → Bool
context_fine (name, cfg) =
    is_context_key name && (cfg.host == [] || not (trim_space cfg.host == []))

module _ (contexts : Dict Text ContextConfig) where
  abbrev parts_known : Result KeyError (Text × Text) → Bool
  parts_known (err e) = false
  parts_known (ok (context, stack)) = has context contexts

  -- A key that has two parts, of which the first one is a declared context.
  abbrev pub key_known : Text → Bool
  key_known key = parts_known (parse_stack_key key)

  abbrev name_fine : Result KeyError (Text × Text) → Bool
  name_fine (err e) = false
  name_fine (ok (context, stack)) = is_app_key stack

  abbrev pub Refers : DeploymentConfig → Type 0
  Refers deploy =
      All (λ c. has c contexts ≡ true) deploy.contexts × All (λ k. key_known k ≡ true) deploy.stacks

  abbrev pub StackKeyFine : Text × Stack → Type 0
  StackKeyFine e = (key_known e.0 ≡ true) × (name_fine (parse_stack_key e.0) ≡ true)

pub check_contexts-fine :
    (H : Machine) (d : Dict Text ContextConfig)
    → check_contexts H d ≡ ok tt
    → All (λ e. context_fine e ≡ true) d
unfolding check_contexts
check_contexts-fine H [] h = tt
check_contexts-fine H ((name, cfg) ∷ d) h =
    let (u, first, rest) = >>=-eq-ok (check_context H name cfg) (λ _. check_contexts H d) h in
    (ground (arith, first), check_contexts-fine H d rest)

module _ (H : Machine) (contexts : Dict Text ContextConfig) where
  check_deployment_contexts-known :
      (name : Text) (cs : List Text)
      → check_deployment_contexts H contexts name cs ≡ ok tt
      → All (λ c. has c contexts ≡ true) cs
  unfolding check_deployment_contexts
  check_deployment_contexts-known name [] h = tt
  check_deployment_contexts-known name (c ∷ cs) h =
      (ground (arith, h), check_deployment_contexts-known name cs (ground (arith, h)))

  check_deployment_stack-known :
      (name key : Text) (r : Result KeyError (Text × Text))
      → check_deployment_stack H contexts name key r ≡ ok tt
      → parts_known contexts r ≡ true
  check_deployment_stack-known name key (err e) h = ground (arith, h)
  check_deployment_stack-known name key (ok (context, stack)) h = ground (arith, h)

  check_deployment_stacks-known :
      (name : Text) (keys : List Text)
      → check_deployment_stacks H contexts name keys ≡ ok tt
      → All (λ k. key_known contexts k ≡ true) keys
  unfolding check_deployment_stacks
  check_deployment_stacks-known name [] h = tt
  check_deployment_stacks-known name (key ∷ keys) h =
      let (u, first, rest) =
        >>=-eq-ok (check_deployment_stack H contexts name key (parse_stack_key key))
          (λ _. check_deployment_stacks H contexts name keys) h in
      (
        check_deployment_stack-known name key (parse_stack_key key) first,
        check_deployment_stacks-known name keys rest,
      )

  pub check_deployments-Refers :
      (d : Dict Text DeploymentConfig)
      → check_deployments H contexts d ≡ ok tt
      → All (λ e. Refers contexts e.1) d
  unfolding check_deployments
  check_deployments-Refers [] h = tt
  check_deployments-Refers ((name, deploy) ∷ d) h =
      let (u, first, h₁) =
        >>=-eq-ok (check_deployment_contexts H contexts name deploy.contexts) _ h in
      let (v, second, rest) =
        >>=-eq-ok (check_deployment_stacks H contexts name deploy.stacks)
          (λ _. check_deployments H contexts d) h₁ in
      (
        (
          check_deployment_contexts-known name deploy.contexts first,
          check_deployment_stacks-known name deploy.stacks second,
        ),
        check_deployments-Refers d rest,
      )

  check_stack-fine :
      (key : Text) (stack stack' : Stack) (r : Result KeyError (Text × Text))
      → check_stack H contexts key stack r ≡ ok stack'
      → (parts_known contexts r ≡ true) × (name_fine contexts r ≡ true)
  check_stack-fine key stack stack' (err e) h = ground (arith, h)
  check_stack-fine key stack stack' (ok (context, name)) h = (ground (arith, h), ground (arith, h))

  pub check_stacks-StackKeyFine :
      (d d' : Dict Text Stack) → check_stacks H contexts d ≡ ok d' → All (StackKeyFine contexts) d
  unfolding check_stacks
  check_stacks-StackKeyFine [] d' h = tt
  check_stacks-StackKeyFine ((key, stack) ∷ d) d' h =
      let (s, first, h₁) = >>=-eq-ok (check_stack H contexts key stack (parse_stack_key key)) _ h in
      let (d₁, rest, h₂) = >>=-eq-ok (check_stacks H contexts d) (λ x. ok ((key, s) ∷ x)) h₁ in
      (
        check_stack-fine key stack s (parse_stack_key key) first,
        check_stacks-StackKeyFine d d₁ rest,
      )
