-- ===== src/Planner/Resource/Tally.antt =====
-- The counts of a plan, and how the plan and the decision to apply agree.
use dockform.Base.{ℕ, ◌+◌, ◌≡◌, refl, Bool, not, List, [], ◌∷◌, length, arith, any_of}
use dockform.Base.Text.{text_eq}
use dockform.Planner.ServiceState.{ServiceInfo, needs_apply}
use dockform.Planner.Resource.{
  Action, create, update, delete, reconcile, noop, Resource, service_states_to_resources, Counts,
  count_resource, count_list, is_noop, no_counts, count_noop,
}

abbrev pub pending : Resource → Bool
pending r = not (is_noop r.action)

-- A stack is brought up exactly when its plan shows a service with a pending action.
pub needs_apply-pending :
    (services : List ServiceInfo)
    → needs_apply services ≡ any_of pending (service_states_to_resources services)
unfolding needs_apply service_states_to_resources
needs_apply-pending [] = refl
needs_apply-pending (i ∷ is) = ground (arith, needs_apply-pending is)

-- Counts add up.
abbrev pub plus : Counts → Counts → Counts
plus a b = record {
  creates = a.creates + b.creates;
  updates = a.updates + b.updates;
  deletes = a.deletes + b.deletes;
}

abbrev pub total : Counts → ℕ
total n = n.creates + n.updates + n.deletes

pub count_resource-plus :
    (a : Action) (n : Counts) → count_resource a n ≡ plus n (count_resource a no_counts)
count_resource-plus create n = ground arith
count_resource-plus update n = ground arith
count_resource-plus delete n = ground arith
count_resource-plus reconcile n = ground arith
count_resource-plus noop n = ground arith

pub count_list-plus :
    (rs : List Resource) (n : Counts) → count_list rs n ≡ plus n (count_list rs no_counts)
unfolding count_list
count_list-plus [] n = ground arith
count_list-plus (r ∷ rs) n = ground (
  arith,
  count_list-plus rs (count_resource r.action n),
  count_list-plus rs (count_resource r.action no_counts),
  count_resource-plus r.action n,
)

-- Every resource of a list is counted as one action, or stays as it is.
pub count_list-total :
    (rs : List Resource) → total (count_list rs no_counts) + count_noop rs ≡ length rs
unfolding count_list count_noop
count_list-total [] = refl
count_list-total (r ∷ rs) =
    ground (arith, count_list-total rs, count_list-plus rs (count_resource r.action no_counts))
