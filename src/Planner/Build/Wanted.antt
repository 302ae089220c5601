-- ===== src/Planner/Build/Wanted.antt =====
-- internal/planner/build_plan.go: what the plan of volumes, networks and removals asks of an apply.
use dockform.Base.{
  ◌≡◌, refl, ◌∙◌, ap, Bool, true, false, ◌||◌, some, List, [], ◌∷◌, ◌++◌, ◌==◌, arith, contains,
  map, any_of, set_of, contains-set_of, Bool-cases, inl, inr,
}
use dockform.Base.Text.{Text, text_eq, text_beq_iff}
use dockform.Base.Dict.{Dict, lookup, insert, lookup-insert}
use dockform.Base.Sort.{sort_by, contains-sort_by}
use dockform.Planner.ServiceState.{ServiceInfo, needs_apply}
use dockform.Planner.Resource.{
  Action, create, update, reconcile, Resource, ResourceType, volume, service, ResourcePlan,
  service_states_to_resources,
}
use dockform.Planner.Resource.Tally.{pending}
use dockform.Planner.Build.Context.{
  ensure_resource, plan_wanted, plan_volumes, add_deletions, resources_of, removal,
}

-- An apply removes nothing outside the filesets: what it does is create and update.
abbrev pub builds : Action → Bool
builds create = true
builds update = true
builds reconcile = true
builds _ = false

abbrev pub constructive : Resource → Bool
constructive r = builds r.action

-- A plan asks something of an apply. In a fileset, a removal is one more change of files.
abbrev pub asks : ResourcePlan → Bool
asks p =
    any_of constructive p.volumes
    || any_of constructive p.networks
    || any_of (λ e. any_of constructive e.1) p.stacks
    || any_of (λ e. any_of pending e.1) p.filesets

pub any_of-append {ℓ} :
    {A : Type ℓ} (p : A → Bool) (xs ys : List A)
    → any_of p (xs ++ ys) ≡ (any_of p xs || any_of p ys)
any_of-append p [] ys = refl
any_of-append p (x ∷ xs) ys = ground (arith, any_of-append p xs ys)

pub any_of-append_left {ℓ} :
    {A : Type ℓ} (p : A → Bool) (xs ys : List A) → any_of p (xs ++ ys) ≡ false → any_of p xs ≡ false
any_of-append_left p xs ys h = ground (arith, any_of-append p xs ys, h)

pub constructive-needs_apply :
    (services : List ServiceInfo)
    → any_of constructive (service_states_to_resources services) ≡ needs_apply services
unfolding needs_apply service_states_to_resources
constructive-needs_apply [] = refl
constructive-needs_apply (i ∷ is) = ground (arith, constructive-needs_apply is)

ensured_exist :
    (kind : ResourceType) (existing names : List Text)
    → any_of constructive (map (ensure_resource kind existing) names) ≡ false
    → (n : Text) → contains names n ≡ true
    → contains existing n ≡ true
ensured_exist kind existing [] h n there = cc
ensured_exist kind existing (m ∷ names) h n there =
    ground
      (arith, ensured_exist kind existing names (ground (arith, h)) n, text_beq_iff m n, h, there)

-- Where the plan creates nothing of a kind, all that is wanted of it exists.
pub plan_wanted-exist :
    (kind : ResourceType) (existing desired : List Text)
    → any_of constructive (plan_wanted kind existing desired) ≡ false
    → (n : Text) → contains desired n ≡ true
    → contains existing n ≡ true
unfolding plan_wanted
plan_wanted-exist kind existing desired h n there =
    ensured_exist kind existing (sort_by (λ x. x) (set_of desired [])) h n
      (contains-sort_by (set_of desired []) n ∙ ground (arith, contains-set_of desired [] n, there))

pub plan_volumes-exist :
    (targeted : Bool) (existing desired : List Text)
    → any_of constructive (plan_volumes targeted existing desired) ≡ false
    → (n : Text) → contains desired n ≡ true
    → contains existing n ≡ true
unfolding plan_volumes
plan_volumes-exist targeted existing desired h =
    plan_wanted-exist volume existing desired
      (any_of-append_left constructive (plan_wanted volume existing desired) _ h)

removals_quiet :
    (kind : ResourceType) (names : List Text)
    → any_of constructive (map (removal kind) names) ≡ false
removals_quiet kind [] = refl
removals_quiet kind (n ∷ names) = removals_quiet kind names

-- The orphans only add removals.
pub constructive-add_deletions :
    (k : Text) (d : Dict Text (List Text)) (m : Dict Text (List Resource))
    → any_of constructive (resources_of (lookup k (add_deletions d m)))
      ≡ any_of constructive (resources_of (lookup k m))
unfolding add_deletions
constructive-add_deletions k [] m = refl
constructive-add_deletions k ((project, services) ∷ d) m =
    let old = resources_of (lookup project m) in
    let new = old ++ map (removal service) services in
    constructive-add_deletions k d (insert project new m) ∙ elim (Bool-cases (project == k)) [
      | inl same ↦
          let e : project ≡ k = ground (arith, text_beq_iff project k, same) in
          let found : lookup k (insert project new m) ≡ some new =
            lookup-insert project k new m ∙ rw same refl in
          ap (λ o. any_of constructive (resources_of o)) found
          ∙ any_of-append constructive old (map (removal service) services)
          ∙ ground (arith, removals_quiet service services)
          ∙ ap (λ n. any_of constructive (resources_of (lookup n m))) e
      | inr other ↦
          let found : lookup k (insert project new m) ≡ lookup k m =
            lookup-insert project k new m ∙ rw other refl in
          ap (λ o. any_of constructive (resources_of o)) found
    ]
