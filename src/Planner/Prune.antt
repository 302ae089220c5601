-- ===== src/Planner/Prune.antt =====
-- internal/planner/prune.go: `pruneContext`, with `orphanNetworks` and `getComposeOwnedNetworks` of
-- build_plan_filesets.go and `handleCleanupError` of cleanup_options.go.
pub mod Safe
pub mod Networks
use dockform.Base.{
  ℕ, Bool, true, false, not, ◌||◌, ◌&&◌, Option, none, some, List, [], ◌∷◌, ◌++◌, ◌==◌, is_empty,
  if◌then◌else◌, contains, select, set_of,
}
use dockform.Base.Text.{Text, codes, text_eq}
use dockform.Base.Dict.{Dict, lookup, insert, keys}
use dockform.Base.Result.{Result, ok, err, ◌>>=◌}
use dockform.Apperr.{Err, external, wrap, aggregate}
use dockform.Manifest.Types.{Stack, FilesetSpec, ContextConfig, SopsConfig, Config}
use dockform.Manifest.Merge.{get_stacks_for_context, get_filesets_for_context}
use dockform.Filesets.Index.{Index}
use dockform.Filesets.Diff.{Diff}
use dockform.Planner.Client.{
  PsBrief, Call, remove_container, remove_volume, remove_network, Daemon, World, do_call,
}
use dockform.Planner.ServiceState.{Host, ServiceInfo, build_inline_env, get_planned_services}

pub record CleanupOptions : Type 0 where
  pub strict : Bool
  pub verbose_errors : Bool

-- A cleanup error counts only in strict mode; otherwise it is logged.
unfoldable pub handle_cleanup_error : Option Err → CleanupOptions → Option Err
handle_cleanup_error none opts = none
handle_cleanup_error (some e) opts = if opts.strict then some e else none

-- What the plan keeps of a stack for the later steps.
pub record StackExecutionData : Type 0 where
  pub services : List ServiceInfo
  pub inline_env : List Text
  pub needs_apply : Bool

pub record FilesetExecutionData : Type 0 where
  pub local_index : Index
  pub remote_index : Index
  pub diff : Diff

pub record ContextExecutionContext : Type 0 where
  pub context_name : Text
  pub identifier : Text
  pub stacks : Dict Text StackExecutionData
  pub filesets : Dict Text FilesetExecutionData
  pub existing_volumes : List Text
  pub existing_networks : List Text

abbrev op : Text
op = codes "planner.pruneContext"

abbrev failed : Text → Err → Option Err
failed msg e = some (wrap op external e msg)

abbrev stack_err : Text → Stack → Result Err (List Text) → Result Err (List Text)
stack_err msg stack (ok names) = ok names
stack_err msg stack (err e) =
    err (wrap (codes "planner.collectDesiredServicesForStack") external e (msg ++ stack.root))

-- The networks that are labelled, not desired, and not owned by a compose stack.
unfoldable pub orphan_networks : List Text → List Text → List Text → List Text
orphan_networks existing desired compose_owned =
    select (λ name. not (contains desired name) && not (contains compose_owned name)) existing

abbrev pub target_volumes : Dict Text FilesetSpec → List Text
target_volumes [] = []
target_volumes ((k, fs) ∷ d) = fs.target_volume ∷ target_volumes d

abbrev context_volumes : Option ContextConfig → List Text
context_volumes none = []
context_volumes (some c) = keys c.volumes

abbrev context_networks : Option ContextConfig → List Text
context_networks none = []
context_networks (some c) = keys c.networks

-- The volumes of the context's filesets and those that its configuration names.
unfoldable pub desired_volumes : Config → Text → List Text
desired_volumes cfg context =
    target_volumes (get_filesets_for_context cfg context)
    ++ context_volumes (lookup context cfg.contexts)

unfoldable pub desired_networks : Config → Text → List Text
desired_networks cfg context = context_networks (lookup context cfg.contexts)

module _ (D : Daemon) where
  -- The world, with the errors collected so far.
  pub record Progress : Type 0 where
    pub world : World D
    pub errs : List (Option Err)

module _ {D : Daemon} where
  abbrev pub note : (Err → Option Err) → Option Err × World D → List (Option Err) → Progress D
  note report (none, w) errs = record { world = w; errs = errs }
  note report (some e, w) errs = record { world = w; errs = errs ++ (report e ∷ []) }

  -- A loop that makes a call for each item that is not wanted, and goes on after an error.
  unfoldable pub sweep {ℓ} :
      {X : Type ℓ}
      → (X → Bool)
      → (X → Call)
      → (X → Err → Option Err)
      → List X
      → Progress D
      → Progress D
  sweep want call report [] p = p
  sweep want call report (x ∷ xs) p =
      sweep want call report xs
        (if want x then p else note (report x) (do_call (call x) p.world) p.errs)

  abbrev pub fail_with : Progress D → Option Err → Progress D
  fail_with p e = record p { errs = p.errs ++ (e ∷ []) }

module _ (D : Daemon) (H : Host) (cfg : Config) (context : Text) where
  -- The services of one stack, or an error that names the stack's root.
  unfoldable pub services_for_stack : Stack → D.State → Result Err (List Text)
  services_for_stack stack s =
      stack_err (codes "build inline env for stack ") stack (build_inline_env H stack cfg.sops)
      >>= λ inline.
          stack_err (codes "list planned services for stack ") stack
            (get_planned_services D stack inline s)

  -- What the loop over the stacks collects.
  pub record Desired : Type 0 where
    pub services : List Text
    pub can_prune : Bool
    pub errs : List (Option Err)

  abbrev add_services : Result Err (List Text) → Desired → Desired
  add_services (ok names) d = record d { services = d.services ++ names }
  add_services (err e) d = record d { can_prune = false; errs = d.errs ++ (some e ∷ []) }

  abbrev names_of : List ServiceInfo → List Text
  names_of [] = []
  names_of (i ∷ is) = i.name ∷ names_of is

  -- The plan's services of a stack, where the plan has some: a nil slice is the empty list.
  abbrev pub planned_names : Option ContextExecutionContext → Text → Option (List Text)
  planned_names none name = none
  planned_names (some c) name = elim (lookup name c.stacks) [
    | none ↦ none
    | some d ↦ if is_empty d.services then none else some (names_of d.services)
  ]

  abbrev pub add_stack : Option (List Text) → Stack → D.State → Desired → Desired
  add_stack (some names) stack s d = record d { services = d.services ++ names }
  add_stack none stack s d = add_services (services_for_stack stack s) d

  unfoldable pub desired_services :
      Option ContextExecutionContext → Dict Text Stack → D.State → Desired → Desired
  unfolding services_for_stack
  desired_services plan [] s d = d
  desired_services plan ((name, stack) ∷ stacks) s d =
      desired_services plan stacks s (add_stack (planned_names plan name) stack s d)

  abbrev pub prune_listed : Desired → Result Err (List PsBrief) → Progress D → Progress D
  prune_listed d (err e) p =
      fail_with p (failed (codes "list managed containers for context " ++ context) e)
  prune_listed d (ok all) p =
      sweep (λ it. contains d.services it.service) (λ it. remove_container it.name true)
        (λ it.
          failed
            (codes "remove unmanaged container " ++ (it.name ++ (codes " in context " ++ context))))
        all p

  unfoldable pub prune_containers : Desired → Progress D → Progress D
  unfolding sweep
  prune_containers d p =
      if d.can_prune then prune_listed d (D.list_compose_containers_all p.world.state) p else p

  abbrev pub volumes_listed : Result Err (List Text) → Progress D → Progress D
  volumes_listed (err e) p =
      fail_with p (failed (codes "list managed volumes for context " ++ context) e)
  volumes_listed (ok vols) p =
      sweep (λ v. contains (desired_volumes cfg context) v) remove_volume
        (λ v. failed (codes "remove unmanaged volume " ++ (v ++ (codes " in context " ++ context))))
        vols p

  unfoldable pub prune_volumes : Progress D → Progress D
  unfolding sweep desired_volumes
  prune_volumes p = volumes_listed (D.list_volumes p.world.state) p

  -- After a failure the set of owned networks is nil, and the loop goes on.
  abbrev pub remove_orphans : List Text → Result Err (List Text) → Progress D → Progress D
  remove_orphans nets (ok owned) p =
      sweep (λ _. false) remove_network
        (λ n.
          failed (codes "remove unmanaged network " ++ (n ++ (codes " in context " ++ context))))
        (orphan_networks (set_of nets []) (desired_networks cfg context) owned) p
  remove_orphans nets (err e) p =
      sweep (λ _. false) remove_network
        (λ n.
          failed (codes "remove unmanaged network " ++ (n ++ (codes " in context " ++ context))))
        (orphan_networks (set_of nets []) (desired_networks cfg context) [])
        (fail_with p (
          some (
            wrap (codes "planner.getComposeOwnedNetworks") external e
              (codes "list compose-owned networks"))))

  abbrev pub networks_listed : Result Err (List Text) → Progress D → Progress D
  networks_listed (err e) p =
      fail_with p (failed (codes "list managed networks for context " ++ context) e)
  networks_listed (ok nets) p = remove_orphans nets (D.list_compose_networks p.world.state) p

  unfoldable pub prune_networks : Progress D → Progress D
  unfolding sweep orphan_networks desired_networks
  prune_networks p = networks_listed (D.list_networks p.world.state) p

  unfoldable pub prune_context : Option ContextExecutionContext → World D → Option Err × World D
  unfolding desired_services prune_containers prune_volumes prune_networks
  prune_context plan w =
      let d =
        desired_services plan (get_stacks_for_context cfg context) w.state
          (record { services = []; can_prune = true; errs = [] }) in
      let p =
        prune_networks (prune_volumes (prune_containers d (record { world = w; errs = d.errs }))) in
      (
        aggregate op external
            (codes "prune for context " ++ (context ++ codes " failed for one or more resources"))
            p.errs,
        p.world,
      )
