-- ===== src/Cli/Targets.antt =====
-- internal/cli/common/targets.go: the filter of the flags --context, --stack and --deployment.
pub mod Laws
pub mod Scope
use dockform.Base.{
  Bool, true, false, not, ◌&&◌, ◌||◌, Option, none, some, List, [], ◌∷◌, ◌++◌, ◌==◌, is_empty,
  contains, if◌then◌else◌,
}
use dockform.Base.Text.{Text, text_eq}
use dockform.Base.Dict.{Dict, lookup, insert, has}
use dockform.Base.Result.{Result, ok, err, ◌>>=◌}
use dockform.Manifest.Key.{KeyError, parse_stack_key, make_stack_key}
use dockform.Manifest.Types.{Stack, FilesetSpec, ContextConfig, DeploymentConfig, Config}

pub record TargetOptions : Type 0 where
  pub contexts : List Text
  pub stacks : List Text
  pub deployment : Text

-- The four refusals, with what their messages name.
pub data TargetError : Type 0 where
  unknown_deployment unknown_context : Text → TargetError
  invalid_stack_target : KeyError → TargetError
  unknown_stack_context : Text → Text → TargetError

unfoldable pub no_targets : TargetOptions → Bool
no_targets t = is_empty t.contexts && is_empty t.stacks && t.deployment == []

abbrev merge_deployment : TargetOptions → Option DeploymentConfig → Result TargetError TargetOptions
merge_deployment opts none = err (unknown_deployment opts.deployment)
merge_deployment opts (some deploy) = ok (record {
  contexts = opts.contexts ++ deploy.contexts;
  stacks = opts.stacks ++ deploy.stacks;
  deployment = [];
})

-- The deployment becomes explicit contexts and stacks.
unfoldable pub expand_deployment : Config → TargetOptions → Result TargetError TargetOptions
expand_deployment cfg opts =
    if opts.deployment == []
    then ok opts
    else merge_deployment opts (lookup opts.deployment cfg.deployments)

-- What the two loops collect: the allowed contexts and stacks, as sets.
pub record Allowed : Type 0 where
  pub contexts : List Text
  pub stacks : List Text

unfoldable pub allow_contexts : Config → List Text → Allowed → Result TargetError Allowed
allow_contexts cfg [] a = ok a
allow_contexts cfg (c ∷ cs) a =
    let rest = allow_contexts cfg cs (record a { contexts = c ∷ a.contexts }) in
    if has c cfg.contexts then rest else err (unknown_context c)

abbrev pub check_stack_target :
    Config → Text → Result KeyError (Text × Text) → Allowed → Result TargetError Allowed
check_stack_target cfg s (err e) a = err (invalid_stack_target e)
check_stack_target cfg s (ok (context, _)) a =
    if has context cfg.contexts
    then ok (record { contexts = context ∷ a.contexts; stacks = s ∷ a.stacks })
    else err (unknown_stack_context s context)

unfoldable pub allow_stacks : Config → List Text → Allowed → Result TargetError Allowed
allow_stacks cfg [] a = ok a
allow_stacks cfg (s ∷ ss) a =
    check_stack_target cfg s (parse_stack_key s) a >>= λ a'. allow_stacks cfg ss a'

abbrev pub context_allowed : Allowed → Result KeyError (Text × Text) → Bool
context_allowed a (err e) = false
context_allowed a (ok (context, _)) = contains a.contexts context

unfoldable pub stack_allowed : Allowed → Bool → Text → Bool
stack_allowed a context_only key =
    if contains a.stacks key
    then true
    else if context_only
    then context_allowed a (parse_stack_key key)
    else false

-- The three loops that copy the entries of a map that pass a test into a new map.
unfoldable pub copy_if {ℓ} :
    {V : Type ℓ} → (Text → V → Bool) → Dict Text V → Dict Text V → Dict Text V
copy_if p [] result = result
copy_if p ((k, v) ∷ d) result = copy_if p d (if p k v then insert k v result else result)

unfoldable pub fileset_allowed : Allowed → Bool → FilesetSpec → Bool
fileset_allowed a context_only fs =
    if contains a.contexts fs.context
    then context_only || stack_allowed a context_only (make_stack_key fs.context fs.stack)
    else false

unfoldable pub filter_config : Config → Allowed → Bool → Config
filter_config cfg a context_only = record cfg {
  targeted = true;
  contexts = copy_if (λ name _. contains a.contexts name) cfg.contexts [];
  stacks = copy_if (λ key _. stack_allowed a context_only key) cfg.stacks [];
  discovered_stacks = copy_if (λ key _. stack_allowed a context_only key) cfg.discovered_stacks [];
  discovered_filesets =
      copy_if (λ _ fileset. fileset_allowed a context_only fileset) cfg.discovered_filesets [];
}

-- The sets that the options allow, once the deployment is expanded.
unfoldable pub resolve_allowed : Config → TargetOptions → Result TargetError Allowed
unfolding allow_contexts allow_stacks
resolve_allowed cfg opts =
    allow_contexts cfg opts.contexts (record { contexts = []; stacks = [] }) >>= λ a.
    allow_stacks cfg opts.stacks a

unfoldable pub resolve_targets : Config → TargetOptions → Result TargetError Config
unfolding no_targets expand_deployment resolve_allowed filter_config
resolve_targets cfg opts =
    if no_targets opts
    then ok cfg
    else (expand_deployment cfg opts >>= λ o.
        resolve_allowed cfg o >>= λ a. ok (filter_config cfg a (is_empty o.stacks)))
