-- ===== src/Manifest/Types.antt =====
-- internal/manifest/types.go: the types of the manifest. A nil pointer is `none`, and a map that is
-- nil is an empty one, which Go reads alike.
use dockform.Base.{Bool, Option, List, [], ◌∷◌, ◌==◌, if◌then◌else◌}
use dockform.Base.Text.{Text, codes, text_eq}
use dockform.Base.Dict.{Dict}

pub record Project : Type 0 where
  pub name : Text

pub record Environment : Type 0 where
  pub files : List Text
  pub inline : List Text

pub record Secrets : Type 0 where
  pub sops : List Text

pub record SopsAgeConfig : Type 0 where
  pub key_file : Text
  pub recipients : List Text

pub record SopsPgpConfig : Type 0 where
  pub keyring_dir : Text
  pub use_agent : Bool
  pub pinentry_mode : Text
  pub recipients : List Text
  pub passphrase : Text

pub record SopsConfig : Type 0 where
  pub age : Option SopsAgeConfig
  pub recipients : List Text
  pub pgp : Option SopsPgpConfig

pub record NetworkSpec : Type 0 where
  pub driver : Text
  pub options : Dict Text Text
  pub internal : Bool
  pub attachable : Bool
  pub ipv6 : Bool
  pub subnet : Text
  pub gateway : Text
  pub ip_range : Text
  pub aux_addresses : Dict Text Text

-- `TopLevelResourceSpec` has no field.
pub data TopLevelResourceSpec : Type 0 where
  marker : TopLevelResourceSpec

pub record Ownership : Type 0 where
  pub user : Text
  pub group : Text
  pub file_mode : Text
  pub dir_mode : Text
  pub preserve_existing : Bool

pub record RestartTargets : Type 0 where
  pub attached : Bool
  pub services : List Text

pub record FilesetSpec : Type 0 where
  pub source : Text
  pub target_volume : Text
  pub target_path : Text
  pub restart_services : RestartTargets
  pub apply_mode : Text
  pub exclude : List Text
  pub ownership : Option Ownership
  pub source_abs : Text
  pub context : Text
  pub stack : Text

pub record Stack : Type 0 where
  pub root : Text
  pub files : List Text
  pub env_file : List Text
  pub profiles : List Text
  pub environment : Option Environment
  pub secrets : Option Secrets
  pub project : Option Project
  pub filesets : Dict Text FilesetSpec
  pub context : Text
  pub env_inline : List Text
  pub sops_secrets : List Text
  pub root_abs : Text

pub record ContextConfig : Type 0 where
  pub host : Text
  pub volumes : Dict Text TopLevelResourceSpec
  pub networks : Dict Text NetworkSpec

pub record DeploymentConfig : Type 0 where
  pub description : Text
  pub contexts : List Text
  pub stacks : List Text

pub record DiscoveryConfig : Type 0 where
  pub compose_files : List Text
  pub secrets_file : Text
  pub environment_file : Text
  pub volumes_dir : Text

pub record Config : Type 0 where
  pub identifier : Text
  pub sops : Option SopsConfig
  pub discovery : DiscoveryConfig
  pub contexts : Dict Text ContextConfig
  pub deployments : Dict Text DeploymentConfig
  pub stacks : Dict Text Stack
  pub base_dir : Text
  pub targeted : Bool
  pub discovered_stacks : Dict Text Stack
  pub discovered_filesets : Dict Text FilesetSpec

abbrev pub default_compose_files : List Text
default_compose_files =
    codes "compose.yaml"
    ∷ codes "compose.yml"
    ∷ codes "docker-compose.yaml"
    ∷ codes "docker-compose.yml"
    ∷ []

unfoldable pub get_compose_files : DiscoveryConfig → List Text
get_compose_files d = elim d.compose_files [ [] ↦ default_compose_files | x ∷ xs ↦ x ∷ xs ]

abbrev or_default : Text → Text → Text
or_default value default = if value == [] then default else value

unfoldable pub get_secrets_file : DiscoveryConfig → Text
get_secrets_file d = or_default d.secrets_file (codes "secrets.env")

unfoldable pub get_environment_file : DiscoveryConfig → Text
get_environment_file d = or_default d.environment_file (codes "environment.env")

unfoldable pub get_volumes_dir : DiscoveryConfig → Text
get_volumes_dir d = or_default d.volumes_dir (codes "volumes")
