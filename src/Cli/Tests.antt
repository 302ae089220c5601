-- ===== src/Cli/Tests.antt =====
-- The flag --stack at a concrete configuration, and the theorems at it.
use dockform.Base.{◌≡◌, refl, false, none, [], ◌∷◌, if◌then◌else◌}
use dockform.Base.Text.{Text, codes, text_eq, text_beq}
use dockform.Base.Dict.{lookup}
use dockform.Base.Result.{ok, err}
use dockform.Base.Cut.{cut}
use dockform.Manifest.Key.{parse_stack_key}
use dockform.Manifest.Types.{Config}
use dockform.Manifest.Tests.{config}
use dockform.Cli.Targets.{
  TargetOptions, unknown_context, no_targets, expand_deployment, allow_contexts, allow_stacks,
  filter_config, resolve_allowed, resolve_targets,
}
use dockform.Cli.Targets.Laws.{kept}
use dockform.Cli.Targets.Scope.{
  in_scope, fileset_in_scope, lookup-resolve_targets, fileset-resolve_targets,
}

abbrev web_key : Text
web_key = codes "prod/web"

abbrev only_web : TargetOptions
only_web = record { contexts = []; stacks = web_key ∷ []; deployment = [] }

abbrev targeted_config : Config
targeted_config =
    filter_config config (record { contexts = codes "prod" ∷ []; stacks = web_key ∷ [] }) false

only_web_done : resolve_targets config only_web ≡ ok targeted_config
unfolding resolve_targets no_targets expand_deployment resolve_allowed allow_contexts allow_stacks
    parse_stack_key cut text_beq
only_web_done = refl

only_web_targeted : no_targets only_web ≡ false
unfolding no_targets
only_web_targeted = refl

only_web_expanded : expand_deployment config only_web ≡ ok only_web
unfolding expand_deployment text_beq
only_web_expanded = refl

refusal_run :
    resolve_targets config
      (record { contexts = codes "nowhere" ∷ []; stacks = []; deployment = [] })
    ≡ err (unknown_context (codes "nowhere"))
unfolding resolve_targets no_targets expand_deployment resolve_allowed allow_contexts text_beq
refusal_run = refl

lookup-resolve_targets_example :
    (lookup web_key targeted_config.stacks
      ≡ (if in_scope only_web web_key then lookup web_key config.stacks else none))
    × (lookup web_key targeted_config.discovered_stacks
        ≡ (if in_scope only_web web_key then lookup web_key config.discovered_stacks else none))
unfolding text_beq
lookup-resolve_targets_example =
    lookup-resolve_targets config targeted_config only_web only_web only_web_targeted
      only_web_expanded only_web_done web_key (refl, (refl, tt)) (refl, (refl, tt))

fileset-resolve_targets_example :
    lookup (codes "prod/web/site") targeted_config.discovered_filesets
    ≡ kept (fileset_in_scope only_web) (lookup (codes "prod/web/site") config.discovered_filesets)
unfolding text_beq
fileset-resolve_targets_example =
    fileset-resolve_targets config targeted_config only_web only_web only_web_targeted
      only_web_expanded only_web_done (codes "prod/web/site") (refl, (refl, tt))
