-- ===== src/Planner/Prune/Networks.antt =====
-- The networks and the containers of a prune, call by call.
use dockform.Base.{
  ◌≡◌, refl, ap, ◌∙◌, Bool, true, false, not, ◌&&◌, Option, none, some, List, [], ◌∷◌, ◌++◌,
  contains, select, set_of, map, arith,
}
use dockform.Base.Text.{Text, text_eq}
use dockform.Base.Dict.{Dict}
use dockform.Base.Result.{ok, err}
use dockform.Apperr.{Err}
use dockform.Manifest.Types.{Stack, Config}
use dockform.Planner.Client.{remove_network, Daemon}
use dockform.Planner.ServiceState.{Host}
use dockform.Planner.Prune.{
  ContextExecutionContext, Progress, desired_networks, Desired, services_for_stack,
  desired_services, add_stack, planned_names, prune_containers, prune_networks,
}
use dockform.Planner.Prune.Safe.{sweep_calls}

select-true {ℓ} : {A : Type ℓ} (xs : List A) → select (λ _. true) xs ≡ xs
select-true [] = refl
select-true (x ∷ xs) = ap (λ l. x ∷ l) (select-true xs)

nothing_owned :
    (want : Text → Bool) (xs : List Text)
    → select (λ n. want n && not (contains [] n)) xs ≡ select want xs
nothing_owned want [] = refl
nothing_owned want (x ∷ xs) = ground (arith, nothing_owned want xs)

module _ (D : Daemon) (H : Host) (cfg : Config) (context : Text) (p : Progress D) (nets : List Text)
    (listed : D.list_networks p.world.state ≡ ok nets) where
  -- If the networks and the compose-owned ones can be listed, the prune removes, each once, those
  -- that are neither desired nor owned by a compose stack, and it makes no other call.
  pub prune_networks_calls :
      (owned : List Text)
      → D.list_compose_networks p.world.state ≡ ok owned
      → (prune_networks D H cfg context p).world.calls
        ≡ p.world.calls
          ++ map remove_network (
              select
                (λ n. not (contains (desired_networks cfg context) n) && not (contains owned n))
                (set_of nets []))
  unfolding prune_networks
  prune_networks_calls owned e =
      rw (listed, e, sweep_calls)
        (ap (λ ns. p.world.calls ++ map remove_network ns) (select-true _))

  -- If the compose-owned networks cannot be listed, every listed network that is not desired is
  -- removed, whether or not a compose stack owns it.
  pub prune_networks_unowned :
      (e : Err)
      → D.list_compose_networks p.world.state ≡ err e
      → (prune_networks D H cfg context p).world.calls
        ≡ p.world.calls
          ++ map remove_network
              (select (λ n. not (contains (desired_networks cfg context) n)) (set_of nets []))
  unfolding prune_networks
  prune_networks_unowned e failed =
      rw (listed, failed, sweep_calls)
        (ap (λ ns. p.world.calls ++ map remove_network ns)
          (select-true _
            ∙ nothing_owned (λ n. not (contains (desired_networks cfg context) n))
                (set_of nets [])))

module _ (D : Daemon) (H : Host) (cfg : Config) (context : Text) where
  -- A set of services that is not known in full stays so.
  desired_services_unknown :
      (plan : Option ContextExecutionContext) (stacks : Dict Text Stack) (s : D.State)
      (d : Desired D H cfg context)
      → d.can_prune ≡ false
      → (desired_services D H cfg context plan stacks s d).can_prune ≡ false
  unfolding desired_services
  desired_services_unknown plan [] s d h = h
  desired_services_unknown plan ((name, stack) ∷ stacks) s d h =
      desired_services_unknown plan stacks s _
        (add_stack_unknown (planned_names D H cfg context plan name) stack s d h)
    where
      add_stack_unknown :
          (o : Option (List Text)) (stack : Stack) (s : D.State) (d : Desired D H cfg context)
          → d.can_prune ≡ false
          → (add_stack D H cfg context o stack s d).can_prune ≡ false
      add_stack_unknown (some names) stack s d h = h
      add_stack_unknown none stack s d h = ground arith

  add_stack_failed :
      (o : Option (List Text)) (stack : Stack) (s : D.State) (d : Desired D H cfg context) (e : Err)
      → o ≡ none
      → services_for_stack D H cfg context stack s ≡ err e
      → (add_stack D H cfg context o stack s d).can_prune ≡ false
  add_stack_failed none stack s d e p q = rw q
  add_stack_failed (some names) stack s d e p q = cc

  desired_services_failed :
      (plan : Option ContextExecutionContext) (name : Text) (stack : Stack)
      (before after : Dict Text Stack) (s : D.State) (d : Desired D H cfg context) (e : Err)
      → planned_names D H cfg context plan name ≡ none
      → services_for_stack D H cfg context stack s ≡ err e
      → (desired_services D H cfg context plan (before ++ ((name, stack) ∷ after)) s d).can_prune
        ≡ false
  unfolding desired_services
  desired_services_failed plan name stack [] after s d e unplanned failed =
      desired_services_unknown plan after s _
        (add_stack_failed (planned_names D H cfg context plan name) stack s d e unplanned failed)
  desired_services_failed plan name stack ((other, first) ∷ before) after s d e unplanned failed =
      desired_services_failed plan name stack before after s _ e unplanned failed

  -- If the services of one stack, without planned services, cannot be listed, no container is
  -- removed: the step makes no call.
  pub prune_containers_unknown :
      (plan : Option ContextExecutionContext) (name : Text) (stack : Stack)
      (before after : Dict Text Stack) (d : Desired D H cfg context) (p : Progress D) (e : Err)
      → planned_names D H cfg context plan name ≡ none
      → services_for_stack D H cfg context stack p.world.state ≡ err e
      → (prune_containers D H cfg context
          (desired_services D H cfg context plan
            (before ++ ((name, stack) ∷ after))
            p.world.state
            d)
          p).world.calls
        ≡ p.world.calls
  unfolding prune_containers
  prune_containers_unknown plan name stack before after d p e unplanned failed =
      rw (desired_services_failed plan name stack before after p.world.state d e unplanned failed)
