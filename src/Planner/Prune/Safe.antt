-- ===== src/Planner/Prune/Safe.antt =====
-- What a prune removes, whatever the daemon answers.
use mathlib.Core.List.{append-nil, append_assoc}
use dockform.Base.{
  ◌≡◌, refl, sym, ap, ◌∙◌, Bool, true, false, not, ◌&&◌, Option, none, some, List, [], ◌∷◌, ◌++◌,
  contains, select, set_of, map, Mem, mem-cons_self, mem-cons_of_mem, All, All-append, arith,
  Bool-cases, inl, inr,
}
use dockform.Base.Text.{Text, text_eq}
use dockform.Base.Result.{Result, ok, err}
use dockform.Apperr.{Err}
use dockform.Manifest.Types.{Config}
use dockform.Manifest.Merge.{get_stacks_for_context}
use dockform.Planner.Client.{
  PsBrief, Call, remove_container, remove_volume, remove_network, Daemon, World, do_call,
}
use dockform.Planner.ServiceState.{Host}
use dockform.Planner.Prune.{
  ContextExecutionContext, Progress, note, sweep, orphan_networks, desired_volumes,
  desired_networks, Desired, desired_services, prune_containers, prune_listed, prune_volumes,
  volumes_listed, networks_listed, remove_orphans, prune_context,
}

All-map-select {ℓ} :
    {X : Type ℓ} (P : Call → Type 0) (want : X → Bool) (call : X → Call) (xs : List X)
    → ((x : X) → Mem x xs → want x ≡ false → P (call x))
    → All P (map call (select (λ x. not (want x)) xs))
All-map-select P want call [] each = tt
All-map-select P want call (x ∷ xs) each =
    let later : (y : _) → Mem y xs → want y ≡ false → P (call y) =
      λ y there out. each y (mem-cons_of_mem x there) out in
    elim (Bool-cases (want x)) [
      | inl wanted ↦ rw wanted (All-map-select P want call xs later)
      | inr unwanted ↦
          rw unwanted (each x mem-cons_self unwanted, All-map-select P want call xs later)
    ]

module _ {D : Daemon} where
  note_calls :
      (report : Err → Option Err) (r : Option Err × World D) (errs : List (Option Err))
      → (note report r errs).world ≡ r.1
  note_calls report (none, w) errs = refl
  note_calls report (some e, w) errs = refl

  -- A sweep makes its call for every item that is not wanted, in order, failures or not.
  pub sweep_calls {ℓ} :
      {X : Type ℓ} (want : X → Bool) (call : X → Call) (report : X → Err → Option Err) (xs : List X)
      (p : Progress D)
      → (sweep want call report xs p).world.calls
        ≡ p.world.calls ++ map call (select (λ x. not (want x)) xs)
  unfolding sweep do_call
  sweep_calls want call report [] p = sym (append-nil p.world.calls)
  sweep_calls want call report (x ∷ xs) p = elim (Bool-cases (want x)) [
    | inl wanted ↦ rw (wanted, sweep) (sweep_calls want call report xs p)
    | inr unwanted ↦
        let q = note (report x) (do_call (call x) p.world) p.errs in
        rw (unwanted, sweep)
          (sweep_calls want call report xs q
            ∙ ap (λ (w : World D). w.calls ++ map call (select (λ y. not (want y)) xs))
                (note_calls (report x) (do_call (call x) p.world) p.errs)
            ∙ append_assoc p.world.calls (call x ∷ []) (map call (select (λ y. not (want y)) xs)))
  ]

  -- A predicate on calls that the calls of a sweep have.
  pub sweep-All {ℓ} :
      {X : Type ℓ} (P : Call → Type 0) (want : X → Bool) (call : X → Call)
      (report : X → Err → Option Err) (xs : List X) (p : Progress D)
      → ((x : X) → Mem x xs → want x ≡ false → P (call x))
      → All P p.world.calls
      → All P (sweep want call report xs p).world.calls
  sweep-All P want call report xs p each h =
      rw sweep_calls (All-append P p.world.calls _ h (All-map-select P want call xs each))

module _ (D : Daemon) (H : Host) (cfg : Config) (context : Text) where
  -- What a prune may remove: a container that the daemon lists in the state given, of a service that
  -- is not among those given, a volume that is not desired, and a network that is not desired.
  abbrev pub Prunable : D.State → List Text → Call → Type 0
  Prunable s services (remove_container name force) =
      (all : List PsBrief) × (D.list_compose_containers_all s ≡ ok all)
      × (it : PsBrief) × Mem it all
      × (it.name ≡ name)
      × (contains services it.service ≡ false)
  Prunable s services (remove_volume v) = contains (desired_volumes cfg context) v ≡ false
  Prunable s services (remove_network n) = contains (desired_networks cfg context) n ≡ false
  Prunable s services _ = ⊥

  prune_listed-Prunable :
      (s : D.State) (d : Desired D H cfg context) (r : Result Err (List PsBrief)) (p : Progress D)
      → D.list_compose_containers_all s ≡ r
      → All (Prunable s d.services) p.world.calls
      → All (Prunable s d.services) (prune_listed D H cfg context d r p).world.calls
  prune_listed-Prunable s d (err e) p listed h = h
  prune_listed-Prunable s d (ok all) p listed h =
      sweep-All (Prunable s d.services) (λ it. contains d.services it.service)
        (λ it. remove_container it.name true) _ all p
        (λ it there out. (all, listed, it, there, refl, out)) h

  prune_containers-Prunable :
      (d : Desired D H cfg context) (p : Progress D)
      → All (Prunable p.world.state d.services) p.world.calls
      → All (Prunable p.world.state d.services) (prune_containers D H cfg context d p).world.calls
  unfolding prune_containers
  prune_containers-Prunable d p h = elim (Bool-cases d.can_prune) [
    | inl known ↦ rw known (
        prune_listed-Prunable p.world.state d (D.list_compose_containers_all p.world.state) p refl
          h)
    | inr unknown ↦ rw unknown h
  ]

  volumes_listed-Prunable :
      (s : D.State) (services : List Text) (r : Result Err (List Text)) (p : Progress D)
      → All (Prunable s services) p.world.calls
      → All (Prunable s services) (volumes_listed D H cfg context r p).world.calls
  volumes_listed-Prunable s services (err e) p h = h
  volumes_listed-Prunable s services (ok vols) p h =
      sweep-All (Prunable s services) (λ v. contains (desired_volumes cfg context) v) remove_volume
        _ vols p (λ v there out. out) h

  undesired :
      (owned : List Text) (xs : List Text)
      → All
          (λ n. contains (desired_networks cfg context) n ≡ false)
          (orphan_networks xs (desired_networks cfg context) owned)
  unfolding orphan_networks
  undesired owned [] = tt
  undesired owned (x ∷ xs) =
      elim (Bool-cases
        (not (contains (desired_networks cfg context) x) && not (contains owned x))) [
          | inl orphan ↦ rw orphan (ground arith, undesired owned xs)
          | inr other ↦ rw other (undesired owned xs)
        ]

  All-calls :
      (s : D.State) (services : List Text) (ns : List Text)
      → All (λ n. contains (desired_networks cfg context) n ≡ false) ns
      → All (Prunable s services) (map remove_network (select (λ _. true) ns))
  All-calls s services [] h = tt
  All-calls s services (n ∷ ns) h = (h.0, All-calls s services ns h.1)

  remove_orphans-Prunable :
      (s : D.State) (services nets : List Text) (r : Result Err (List Text)) (p : Progress D)
      → All (Prunable s services) p.world.calls
      → All (Prunable s services) (remove_orphans D H cfg context nets r p).world.calls
  remove_orphans-Prunable s services nets (ok owned) p h = rw sweep_calls (
      All-append (Prunable s services) p.world.calls _ h
        (All-calls s services _ (undesired owned (set_of nets []))))
  remove_orphans-Prunable s services nets (err e) p h = rw sweep_calls (
      All-append (Prunable s services) p.world.calls _ h
        (All-calls s services _ (undesired [] (set_of nets []))))

  networks_listed-Prunable :
      (s : D.State) (services : List Text) (r : Result Err (List Text)) (p : Progress D)
      → All (Prunable s services) p.world.calls
      → All (Prunable s services) (networks_listed D H cfg context r p).world.calls
  networks_listed-Prunable s services (err e) p h = h
  networks_listed-Prunable s services (ok nets) p h =
      remove_orphans-Prunable s services nets (D.list_compose_networks p.world.state) p h

  -- The desired services that a prune starts from.
  abbrev pub wanted_services : Option ContextExecutionContext → D.State → Desired D H cfg context
  wanted_services plan s =
      desired_services D H cfg context plan (get_stacks_for_context cfg context) s
        (record { services = []; can_prune = true; errs = [] })

  -- Whatever the daemon answers, each call of a prune removes a container that the daemon lists before
  -- the prune, of a service that is not desired, a volume that neither a fileset nor the context's configuration wants, or a network
  -- that the context's configuration does not want, if the calls before it are of this kind.
  pub prune_context-Prunable :
      (plan : Option ContextExecutionContext) (w : World D)
      → All (Prunable w.state (wanted_services plan w.state).services) w.calls
      → All
          (Prunable w.state (wanted_services plan w.state).services)
          (prune_context D H cfg context plan w).1.calls
  unfolding prune_context
  prune_context-Prunable plan w h =
      let d = wanted_services plan w.state in
      let p = prune_containers D H cfg context d (record { world = w; errs = d.errs }) in
      let q = prune_volumes D H cfg context p in
      networks_listed-Prunable w.state d.services (D.list_networks q.world.state) q (
        volumes_listed-Prunable w.state d.services (D.list_volumes p.world.state) p
          (prune_containers-Prunable d (record { world = w; errs = d.errs }) h))
