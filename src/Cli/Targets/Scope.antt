-- ===== src/Cli/Targets/Scope.antt =====
-- The targeted configuration, map by map, in terms of the flags.
use dockform.Base.{
  ◌≡◌, refl, fun_ext, Bool, true, false, ◌&&◌, ◌||◌, Option, none, some, [], arith, if◌then◌else◌,
}
use dockform.Base.{is_empty, contains, Distinct, Bool-cases, inl, inr, nat_eq}
use dockform.Base.Text.{Text, text_eq}
use dockform.Base.Dict.{keys, lookup}
use dockform.Base.Result.{Result, ok, err, >>=-eq-ok}
use dockform.Manifest.Key.{KeyError, parse_stack_key, make_stack_key}
use dockform.Manifest.Types.{FilesetSpec, Config}
use dockform.Cli.Targets.{
  TargetOptions, Allowed, no_targets, expand_deployment, stack_allowed, context_allowed,
  fileset_allowed, filter_config, resolve_allowed, resolve_targets,
}
use dockform.Cli.Targets.Laws.{kept, some_in, resolve_allowed_lem, lookup-copy_if_nil}

abbrev context_named : TargetOptions → Result KeyError (Text × Text) → Bool
context_named o (err e) = false
context_named o (ok (context, _)) = contains o.contexts context

-- A stack is in scope if it is named, or if no stack is named and its context is.
abbrev pub in_scope : TargetOptions → Text → Bool
in_scope o k = contains o.stacks k || (is_empty o.stacks && context_named o (parse_stack_key k))

-- A context is in scope if it is named, or if a named stack lies in it.
abbrev pub context_in_scope : TargetOptions → Text → Bool
context_in_scope o c = contains o.contexts c || some_in c o.stacks

context_allowed_lem :
    (cfg : Config) (o : TargetOptions) (a : Allowed) (r : Result KeyError (Text × Text))
    → resolve_allowed cfg o ≡ ok a
    → is_empty o.stacks ≡ true
    → context_allowed a r ≡ context_named o r
context_allowed_lem cfg o a (err e) h only = refl
context_allowed_lem cfg o a (ok (c, s)) h only = ground (arith, resolve_allowed_lem cfg o a c [] h)

stack_allowed_lem :
    (cfg : Config) (o : TargetOptions) (a : Allowed) (k : Text)
    → resolve_allowed cfg o ≡ ok a
    → stack_allowed a (is_empty o.stacks) k ≡ in_scope o k
unfolding stack_allowed
stack_allowed_lem cfg o a k h =
    rw ((resolve_allowed_lem cfg o a [] k h).1) (elim (Bool-cases (contains o.stacks k)) [
      | inl named ↦ rw named
      | inr unnamed ↦ elim (Bool-cases (is_empty o.stacks)) [
        | inl only ↦ rw (unnamed, only, context_allowed_lem cfg o a (parse_stack_key k) h only)
        | inr both ↦ rw (unnamed, both)
      ]
    ])

kept-const {ℓ} : {V : Type ℓ} (b : Bool) (x : Option V) → kept (λ _. b) x ≡ (if b then x else none)
kept-const b none = ground arith
kept-const b (some v) = refl

abbrev pub fileset_in_scope : TargetOptions → FilesetSpec → Bool
fileset_in_scope o fs =
    context_in_scope o fs.context
    && (is_empty o.stacks || contains o.stacks (make_stack_key fs.context fs.stack))

fileset_allowed_lem :
    (cfg : Config) (o : TargetOptions) (a : Allowed) (fs : FilesetSpec)
    → resolve_allowed cfg o ≡ ok a
    → fileset_allowed a (is_empty o.stacks) fs ≡ fileset_in_scope o fs
unfolding fileset_allowed
fileset_allowed_lem cfg o a fs h =
    let key = make_stack_key fs.context fs.stack in
    rw ((resolve_allowed_lem cfg o a fs.context [] h).0, stack_allowed_lem cfg o a key h)
      (ground arith)

-- The steps of an accepted call that has targets.
resolve_targets_steps :
    (cfg cfg' : Config) (opts o : TargetOptions)
    → no_targets opts ≡ false
    → expand_deployment cfg opts ≡ ok o
    → resolve_targets cfg opts ≡ ok cfg'
    → (a : Allowed) × (resolve_allowed cfg o ≡ ok a)
      × (cfg' ≡ filter_config cfg a (is_empty o.stacks))
unfolding resolve_targets
resolve_targets_steps cfg cfg' opts o some_target e h =
    let (a, allowed, rest) =
      >>=-eq-ok (resolve_allowed cfg o) (λ x. ok (filter_config cfg x (is_empty o.stacks)))
        (rw (some_target, e) at h) in
    (a, allowed, ground (arith, rest))

module _ (cfg cfg' : Config) (opts o : TargetOptions) (targeted : no_targets opts ≡ false)
    (expanded : expand_deployment cfg opts ≡ ok o) (done : resolve_targets cfg opts ≡ ok cfg') where
  -- When targets are given and accepted, the explicit and discovered stacks kept are those in scope,
  -- unchanged. The keys of the two maps are distinct.
  pub lookup-resolve_targets :
      (k : Text)
      → Distinct (keys cfg.stacks)
      → Distinct (keys cfg.discovered_stacks)
      → (lookup k cfg'.stacks ≡ (if in_scope o k then lookup k cfg.stacks else none))
        × (lookup k cfg'.discovered_stacks
            ≡ (if in_scope o k then lookup k cfg.discovered_stacks else none))
  lookup-resolve_targets k u v =
      let (a, allowed, e) = resolve_targets_steps cfg cfg' opts o targeted expanded done in
      unfold filter_config in
      rw
        (
          e,
          lookup-copy_if_nil (λ j _. stack_allowed a (is_empty o.stacks) j) k cfg.stacks u,
          lookup-copy_if_nil (λ j _. stack_allowed a (is_empty o.stacks) j) k cfg.discovered_stacks
              v,
          stack_allowed_lem cfg o a k allowed,
          kept-const (in_scope o k) (lookup k cfg.stacks),
          kept-const (in_scope o k) (lookup k cfg.discovered_stacks),
        )
        (refl, refl)

  -- When targets are given and accepted, the contexts kept are those named and those of the named
  -- stacks, unchanged. The names of the contexts are distinct.
  pub context-resolve_targets :
      (c : Text)
      → Distinct (keys cfg.contexts)
      → lookup c cfg'.contexts ≡ (if context_in_scope o c then lookup c cfg.contexts else none)
  context-resolve_targets c u =
      let (a, allowed, e) = resolve_targets_steps cfg cfg' opts o targeted expanded done in
      unfold filter_config in
      rw (
        e,
        lookup-copy_if_nil (λ j _. contains a.contexts j) c cfg.contexts u,
        (resolve_allowed_lem cfg o a c [] allowed).0,
        kept-const (context_in_scope o c) (lookup c cfg.contexts),
      )

  -- When targets are given and accepted, a fileset in a context in scope is kept if no stack is
  -- named, or if the key made of its context and its stack is a named stack; no other is. The keys
  -- of the filesets are distinct.
  pub fileset-resolve_targets :
      (k : Text)
      → Distinct (keys cfg.discovered_filesets)
      → lookup k cfg'.discovered_filesets
        ≡ kept (fileset_in_scope o) (lookup k cfg.discovered_filesets)
  fileset-resolve_targets k u =
      let (a, allowed, e) = resolve_targets_steps cfg cfg' opts o targeted expanded done in
      unfold filter_config in
      rw (
        e,
        lookup-copy_if_nil (λ _ f. fileset_allowed a (is_empty o.stacks) f) k
            cfg.discovered_filesets u,
        fun_ext (λ f. fileset_allowed_lem cfg o a f allowed),
      )
