-- ===== src/Planner/Build/Shown.antt =====
-- internal/planner/build_plan_stacks.go: what a plan that succeeds holds of each stack, one by one
-- or in parallel.
use dockform.Base.{
  ℕ, ◌≡◌, refl, sym, ◌∙◌, ap, true, false, Option, none, some, List, [], ◌∷◌, ◌==◌, arith,
  if◌then◌else◌, is_empty, contains, Distinct, All, Bool-cases, inl, inr,
}
use dockform.Base.Text.{Text, text_eq, text_beq_iff}
use dockform.Base.Dict.{Dict, lookup, keys, lookup-insert}
use dockform.Base.Result.{Result, ok, >>=-eq-ok}
use dockform.Apperr.{Err}
use dockform.Manifest.Types.{Stack, SopsConfig}
use dockform.Planner.Client.{Daemon}
use dockform.Planner.ServiceState.{Host}
use dockform.Planner.Resource.{Resource, service_states_to_resources}
use dockform.Planner.Prune.{StackExecutionData}
use dockform.Planner.Build.Stacks.{
  Building, fallback_stack_resource, add_stack_data, analyse_stack, build_each,
}

-- What is kept and shown of a stack: one without services is shown by the fallback alone.
abbrev pub kept : StackExecutionData → Option StackExecutionData
kept d = if is_empty d.services then none else some d

abbrev pub shown : StackExecutionData → List Resource
shown d =
    if is_empty d.services then fallback_stack_resource else service_states_to_resources d.services

abbrev pub SameStack : Text → Building → Building → Type 0
SameStack k a b =
    (lookup k a.exec.stacks ≡ lookup k b.exec.stacks)
    × (lookup k a.plan.stacks ≡ lookup k b.plan.stacks)

add_stack_data_other :
    (k name : Text) (d : StackExecutionData) (b : Building)
    → (name == k) ≡ false
    → SameStack k (add_stack_data name d b) b
unfolding add_stack_data
add_stack_data_other k name d b h = elim (Bool-cases (is_empty d.services)) [
  | inl bare ↦
      rw bare (refl, ground (arith, h, lookup-insert name k fallback_stack_resource b.plan.stacks))
  | inr full ↦ rw full (
    ground (arith, h, lookup-insert name k d b.exec.stacks),
    ground (arith, h, lookup-insert name k (service_states_to_resources d.services) b.plan.stacks),
  )
]

add_stack_data_self :
    (name : Text) (d : StackExecutionData) (b : Building)
    → lookup name b.exec.stacks ≡ none
    → (lookup name (add_stack_data name d b).exec.stacks ≡ kept d)
      × (lookup name (add_stack_data name d b).plan.stacks ≡ some (shown d))
unfolding add_stack_data
add_stack_data_self name d b fresh = elim (Bool-cases (is_empty d.services)) [
  | inl bare ↦ rw bare (
    fresh,
    ground (
      arith,
      text_beq_iff name name,
      lookup-insert name name fallback_stack_resource b.plan.stacks,
    ),
  )
  | inr full ↦ rw full (
    ground (arith, text_beq_iff name name, lookup-insert name name d b.exec.stacks),
    ground (
      arith,
      text_beq_iff name name,
      lookup-insert name name (service_states_to_resources d.services) b.plan.stacks,
    ),
  )
]

-- The volumes and the networks of a plan and of its data do not change.
pub record SameRest (a b : Building) : Type 0 where
  pub volumes : a.plan.volumes ≡ b.plan.volumes
  pub networks : a.plan.networks ≡ b.plan.networks
  pub existing_networks : a.exec.existing_networks ≡ b.exec.existing_networks

add_stack_data-SameRest :
    (name : Text) (d : StackExecutionData) (b : Building) → SameRest (add_stack_data name d b) b
unfolding add_stack_data
add_stack_data-SameRest name d b = elim (Bool-cases (is_empty d.services)) [
  | inl bare ↦ rw bare (record { volumes = refl; networks = refl; existing_networks = refl })
  | inr full ↦ rw full (record { volumes = refl; networks = refl; existing_networks = refl })
]

-- A building without its stacks, and two that differ in their stacks alone.
abbrev pub no_stacks : Building → Building
no_stacks b = record b {
  plan = record b.plan { stacks = [] };
  exec = record b.exec { stacks = [] };
}

abbrev pub SameBeside : Building → Building → Type 0
SameBeside a b = no_stacks a ≡ no_stacks b

add_stack_data-SameBeside :
    (name : Text) (d : StackExecutionData) (b : Building) → SameBeside (add_stack_data name d b) b
unfolding add_stack_data
add_stack_data-SameBeside name d b = elim (Bool-cases (is_empty d.services)) [
  | inl bare ↦ rw bare refl
  | inr full ↦ rw full refl
]

pub SameRest-trans : {a b c : Building} → SameRest a b → SameRest b c → SameRest a c
SameRest-trans h k = record {
  volumes = h.volumes ∙ k.volumes;
  networks = h.networks ∙ k.networks;
  existing_networks = h.existing_networks ∙ k.existing_networks;
}

module _ (D : Daemon) (H : Host) (sops : Option SopsConfig) (identifier context : Text)
    (order : Text → List ℕ) (s : D.State) where
  abbrev pub analysed : Text → Stack → Result Err StackExecutionData
  analysed name stack = analyse_stack D H sops identifier context order name stack s

  -- The plan and its data hold of the stack what its analysis says.
  pub record StackShown (b : Building) (name : Text) (stack : Stack) : Type 0 where
    pub data' : StackExecutionData
    pub analysis : analysed name stack ≡ ok data'
    pub in_exec : lookup name b.exec.stacks ≡ kept data'
    pub in_plan : lookup name b.plan.stacks ≡ some (shown data')

  abbrev built_each : Dict Text Stack → Building → Result Err Building
  built_each d b = build_each D H sops identifier context order d s b

  pub build_each_other :
      (k : Text) (d : Dict Text Stack) (b b' : Building)
      → contains (keys d) k ≡ false
      → built_each d b ≡ ok b'
      → SameStack k b' b
  unfolding build_each
  build_each_other k [] b b' h e =
      let same : b ≡ b' = cc in
      (ap (λ x. lookup k x.exec.stacks) (sym same), ap (λ x. lookup k x.plan.stacks) (sym same))
  build_each_other k ((name, stack) ∷ d) b b' h e =
      let (x, got, rest) =
        >>=-eq-ok (analysed name stack) (λ x. built_each d (add_stack_data name x b)) e in
      let later = build_each_other k d (add_stack_data name x b) b' (ground arith) rest in
      let here = add_stack_data_other k name x b (ground arith) in
      (later.0 ∙ here.0, later.1 ∙ here.1)

  pub build_each-SameRest :
      (d : Dict Text Stack) (b b' : Building) → built_each d b ≡ ok b' → SameRest b' b
  unfolding build_each
  build_each-SameRest [] b b' e =
      let same : b ≡ b' = cc in
      record {
        volumes = ap (λ x. x.plan.volumes) (sym same);
        networks = ap (λ x. x.plan.networks) (sym same);
        existing_networks = ap (λ x. x.exec.existing_networks) (sym same);
      }
  build_each-SameRest ((name, stack) ∷ d) b b' e =
      let (x, got, rest) =
        >>=-eq-ok (analysed name stack) (λ x. built_each d (add_stack_data name x b)) e in
      SameRest-trans (build_each-SameRest d (add_stack_data name x b) b' rest)
        (add_stack_data-SameRest name x b)

  -- Beside the stacks the loop changes nothing.
  pub build_each-SameBeside :
      (d : Dict Text Stack) (b b' : Building) → built_each d b ≡ ok b' → SameBeside b' b
  unfolding build_each
  build_each-SameBeside [] b b' e = let same : b ≡ b' = cc in ap no_stacks (sym same)
  build_each-SameBeside ((name, stack) ∷ d) b b' e =
      let (x, got, rest) =
        >>=-eq-ok (analysed name stack) (λ x. built_each d (add_stack_data name x b)) e in
      build_each-SameBeside d (add_stack_data name x b) b' rest ∙ add_stack_data-SameBeside name x b

  -- After a success every stack is shown.
  pub build_each-StackShown :
      (d : Dict Text Stack) (b b' : Building)
      → Distinct (keys d)
      → ((k : Text) → contains (keys d) k ≡ true → lookup k b.exec.stacks ≡ none)
      → built_each d b ≡ ok b'
      → All (λ (e : Text × Stack). StackShown b' e.0 e.1) d
  unfolding build_each
  build_each-StackShown [] b b' u fresh e = tt
  build_each-StackShown ((name, stack) ∷ d) b b' u fresh e =
      let (x, got, rest) =
        >>=-eq-ok (analysed name stack) (λ x. built_each d (add_stack_data name x b)) e in
      let here =
        add_stack_data_self name x b (fresh name (ground (arith, text_beq_iff name name))) in
      let later = build_each_other name d (add_stack_data name x b) b' u.0 rest in
      (
        record {
          data' = x;
          analysis = got;
          in_exec = later.0 ∙ here.0;
          in_plan = later.1 ∙ here.1;
        },
        build_each-StackShown d (add_stack_data name x b) b' u.1
            (λ k present.
              (add_stack_data_other k name x b (ground (arith, text_beq_iff name k))).0
              ∙ fresh k (ground arith))
            rest,
      )
