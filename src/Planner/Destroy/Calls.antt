-- ===== src/Planner/Destroy/Calls.antt =====
-- The calls of a destroy: which containers it removes and how often, and which volumes.
use dockform.Base.{
  ℕ, ◌+◌, ◌≡◌, refl, ap, ◌∙◌, Bool, true, not, ◌&&◌, List, [], ◌∷◌, ◌++◌, ◌==◌, if◌then◌else◌,
  select, map, arith, Bool-cases, inl, inr,
}
use dockform.Base.Text.{Text, text_eq}
use dockform.Base.Dict.{Dict, lookup, insert, has}
use dockform.Base.Result.{Result, ok, err}
use dockform.Apperr.{Err}
use dockform.Planner.Client.{
  PsBrief, Call, remove_container, remove_volume, remove_network, Daemon, World,
}
use dockform.Planner.Prune.{Progress}
use dockform.Planner.Prune.Safe.{sweep_calls}
use dockform.Planner.Destroy.{
  DestroyScope, allows_stack, Services, services_at, add_name, remove_names, Sorting, sort_out,
  first_pass, remove_services, remove_groups, destroy_containers, networks_listed, destroy_networks,
  volumes_listed, destroy_volumes, destroy_context,
}

-- How often a name stands in a list, and how often the calls remove a container.
abbrev one : Text → Text → ℕ
one m n = if m == n then 1 else 0

abbrev occurrences : Text → List Text → ℕ
occurrences n [] = 0
occurrences n (m ∷ ms) = one m n + occurrences n ms

abbrev removes : Text → Call → ℕ
removes n (remove_container m force) = one m n
removes n _ = 0

abbrev pub removals : Text → List Call → ℕ
removals n [] = 0
removals n (c ∷ cs) = removes n c + removals n cs

removals-append :
    (n : Text) (xs ys : List Call) → removals n (xs ++ ys) ≡ removals n xs + removals n ys
removals-append n [] ys = omega arith
removals-append n (x ∷ xs) ys = omega (arith, removals-append n xs ys)

removals-remove_container :
    (n : Text) (names : List Text)
    → removals n (map (λ m. remove_container m true) (select (λ _. true) names))
      ≡ occurrences n names
removals-remove_container n [] = refl
removals-remove_container n (m ∷ ms) = ap (λ k. one m n + k) (removals-remove_container n ms)

-- Calls that remove no container.
removals-other :
    (n : Text) (call : Text → Call) (want : Text → Bool) (xs : List Text)
    → ((x : Text) → removes n (call x) ≡ 0)
    → removals n (map call (select want xs)) ≡ 0
removals-other n call want [] none_of = refl
removals-other n call want (x ∷ xs) none_of = elim (Bool-cases (want x)) [
  | inl wanted ↦ rw (wanted, none_of x) (omega (arith, removals-other n call want xs none_of))
  | inr unwanted ↦ rw unwanted (removals-other n call want xs none_of)
]

abbrev services_count : Text → Services → ℕ
services_count n [] = 0
services_count n ((s, names) ∷ d) = occurrences n names + services_count n d

abbrev groups_count : Text → Dict Text Services → ℕ
groups_count n [] = 0
groups_count n ((p, services) ∷ d) = services_count n services + groups_count n d

occurrences-append :
    (n m : Text) (names : List Text)
    → occurrences n (names ++ (m ∷ [])) ≡ occurrences n names + one m n
occurrences-append n m [] = omega arith
occurrences-append n m (x ∷ names) = omega (arith, occurrences-append n m names)

services_count-add_name :
    (n service m : Text) (d : Services)
    → services_count n (add_name service m d) ≡ services_count n d + one m n
services_count-add_name n service m [] = ground arith
services_count-add_name n service m ((s, names) ∷ d) =
    ground (arith, services_count-add_name n service m d, occurrences-append n m names)

groups_count-insert :
    (n project service m : Text) (g : Dict Text Services)
    → groups_count n (insert project (add_name service m (services_at (lookup project g))) g)
      ≡ groups_count n g + one m n
groups_count-insert n project service m [] = ground arith
groups_count-insert n project service m ((p, services) ∷ g) =
    ground (
      arith,
      groups_count-insert n project service m g,
      services_count-add_name n service m services,
    )

module _ (D : Daemon) (context : Text) (volumes : Dict Text Text) (scope : DestroyScope) where
  removals-remove_names :
      (n : Text) (names : List Text) (p : Progress D)
      → removals n (remove_names D context volumes scope names p).world.calls
        ≡ removals n p.world.calls + occurrences n names
  removals-remove_names n names p =
      rw (sweep_calls, removals-append)
        (ap (λ k. removals n p.world.calls + k) (removals-remove_container n names))

  removals-remove_services :
      (n : Text) (d : Services) (p : Progress D)
      → removals n (remove_services D context volumes scope d p).world.calls
        ≡ removals n p.world.calls + services_count n d
  unfolding remove_services
  removals-remove_services n [] p = omega arith
  removals-remove_services n ((s, names) ∷ d) p = omega (
    arith,
    removals-remove_services n d (remove_names D context volumes scope names p),
    removals-remove_names n names p,
  )

  removals-remove_groups :
      (n : Text) (g : Dict Text Services) (p : Progress D)
      → removals n (remove_groups D context volumes scope g p).world.calls
        ≡ removals n p.world.calls + groups_count n g
  unfolding remove_groups
  removals-remove_groups n [] p = omega arith
  removals-remove_groups n ((project, services) ∷ g) p = omega (
    arith,
    removals-remove_groups n g (remove_services D context volumes scope services p),
    removals-remove_services n services p,
  )

  -- How many of the listed containers in scope have a name.
  abbrev pub in_scope : Text → List PsBrief → ℕ
  in_scope n [] = 0
  in_scope n (it ∷ items) =
      (if allows_stack scope context it.project then one it.name n else 0) + in_scope n items

  abbrev pending : Text → Sorting D context volumes scope → ℕ
  pending n t = removals n t.progress.world.calls + groups_count n t.groups

  pending-sort_out :
      (n : Text) (it : PsBrief) (t : Sorting D context volumes scope)
      → pending n (sort_out D context volumes scope it t)
        ≡ pending n t + (if allows_stack scope context it.project then one it.name n else 0)
  pending-sort_out n it t = elim (Bool-cases (allows_stack scope context it.project)) [
    | inr out ↦ rw out (omega arith)
    | inl allowed ↦ elim (Bool-cases (it.project == [])) [
      | inl orphan ↦
          rw (allowed, orphan) (omega (arith, removals-remove_names n (it.name ∷ []) t.progress))
      | inr owned ↦
          rw (allowed, owned)
            (omega (arith, groups_count-insert n it.project it.service it.name t.groups))
    ]
  ]

  pending-first_pass :
      (n : Text) (items : List PsBrief) (t : Sorting D context volumes scope)
      → pending n (first_pass D context volumes scope items t) ≡ pending n t + in_scope n items
  unfolding first_pass
  pending-first_pass n [] t = omega arith
  pending-first_pass n (it ∷ items) t = omega (
    arith,
    pending-first_pass n items (sort_out D context volumes scope it t),
    pending-sort_out n it t,
  )

  removals-destroy_containers :
      (n : Text) (items : List PsBrief) (p : Progress D)
      → D.list_compose_containers_all p.world.state ≡ ok items
      → removals n (destroy_containers D context volumes scope p).world.calls
        ≡ removals n p.world.calls + in_scope n items
  unfolding destroy_containers
  removals-destroy_containers n items p listed =
      let t = first_pass D context volumes scope items (record { progress = p; groups = [] }) in
      rw listed (
        removals-remove_groups n t.groups t.progress
        ∙ pending-first_pass n items (record { progress = p; groups = [] })
        ∙ omega arith)

  removals-destroy_networks :
      (n : Text) (p : Progress D)
      → removals n (destroy_networks D context volumes scope p).world.calls
        ≡ removals n p.world.calls
  unfolding destroy_networks
  removals-destroy_networks n p = elim (Bool-cases scope.targeted) [
    | inl targeted ↦ rw targeted
    | inr full ↦ rw full (listed (D.list_networks p.world.state))
  ]
    where
      listed :
          (r : Result Err (List Text))
          → removals n (networks_listed D context volumes scope r p).world.calls
            ≡ removals n p.world.calls
      listed (err e) = refl
      listed (ok nets) =
          rw (sweep_calls, removals-append)
            (omega (arith, removals-other n remove_network (λ _. true) nets (λ x. refl)))

  removals-destroy_volumes :
      (n : Text) (p : Progress D)
      → removals n (destroy_volumes D context volumes scope p).world.calls
        ≡ removals n p.world.calls
  unfolding destroy_volumes
  removals-destroy_volumes n p = listed (D.list_volumes p.world.state)
    where
      listed :
          (r : Result Err (List Text))
          → removals n (volumes_listed D context volumes scope r p).world.calls
            ≡ removals n p.world.calls
      listed (err e) = refl
      listed (ok vols) =
          rw (sweep_calls, removals-append)
            (omega (
              arith,
              removals-other n remove_volume (λ v. not (scope.targeted && not (has v volumes))) vols
                  (λ x. refl),
            ))

  -- If the containers can be listed, a destroy calls for the removal of a container as often as it
  -- is listed in a project in scope, whichever calls fail.
  pub removals-destroy_context :
      (n : Text) (items : List PsBrief) (w : World D)
      → D.list_compose_containers_all w.state ≡ ok items
      → removals n (destroy_context D context volumes scope w).1.calls
        ≡ removals n w.calls + in_scope n items
  unfolding destroy_context
  removals-destroy_context n items w listed =
      let p = destroy_containers D context volumes scope (record { world = w; errs = [] }) in
      removals-destroy_volumes n (destroy_networks D context volumes scope p)
      ∙ removals-destroy_networks n p
      ∙ removals-destroy_containers n items (record { world = w; errs = [] }) listed
