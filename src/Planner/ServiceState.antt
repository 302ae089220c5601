-- ===== src/Planner/ServiceState.antt =====
-- internal/planner/service_state.go: the state of a service against its desired configuration. The
-- detector has a client: the planner's operations refuse a nil one before they make a detector.
pub mod Detect
pub mod Laws
pub mod Parallel
use dockform.Base.{
  ℕ, Bool, true, false, not, ◌||◌, ◌&&◌, Option, none, some, List, [], ◌∷◌, ◌++◌, ◌==◌, is_empty,
  if◌then◌else◌, map,
}
use dockform.Base.Text.{Text, codes, text_eq}
use dockform.Base.Dict.{Dict, lookup, insert}
use dockform.Base.Sort.{sort_by}
use dockform.Base.Result.{Result, ok, err, ◌>>=◌}
use dockform.Apperr.{Err, external, wrap}
use dockform.Manifest.Types.{Stack, SopsConfig, SopsAgeConfig, SopsPgpConfig}
use dockform.Planner.Client.{ComposePsItem, Daemon}

pub data ServiceState : Type 0 where
  missing running drifted identifier_mismatch : ServiceState

pub record ServiceInfo : Type 0 where
  pub name : Text
  pub app_name : Text
  pub state : ServiceState
  pub desired_hash : Text
  pub running_hash : Text
  pub container : Option ComposePsItem

-- What decryption is given: the fields of `secrets.SopsOptions` that the detector sets.
pub record SopsOptions : Type 0 where
  pub age_key_file : Text
  pub pgp_keyring_dir : Text
  pub pgp_use_agent : Bool
  pub pgp_pinentry_mode : Text
  pub pgp_passphrase : Text

-- The machine that dockform runs on: its path functions, and the secret files, which `sops` reads.
pub record Host : Type 0 where
  pub is_abs : Text → Bool
  pub join : Text → Text → Text
  pub decrypt_and_parse : Text → SopsOptions → Result Err (List Text)

abbrev pub hash_key : Text
hash_key = codes "com.docker.compose.config-hash"

abbrev pub identifier_key : Text
identifier_key = codes "io.dockform.identifier"

abbrev pub label_keys : Text → List Text
label_keys identifier =
    if not (identifier == []) then hash_key ∷ identifier_key ∷ [] else hash_key ∷ []

abbrev pub project_name : Stack → Text
project_name stack = elim stack.project [ some p ↦ p.name | none ↦ [] ]

abbrev age_options : Option SopsAgeConfig → SopsOptions → SopsOptions
age_options none o = o
age_options (some age) o = record o { age_key_file = age.key_file }

abbrev pgp_options : Option SopsPgpConfig → SopsOptions → SopsOptions
pgp_options none o = o
pgp_options (some pgp) o = record o {
  pgp_keyring_dir = pgp.keyring_dir;
  pgp_use_agent = pgp.use_agent;
  pgp_pinentry_mode = pgp.pinentry_mode;
  pgp_passphrase = pgp.passphrase;
}

abbrev no_options : SopsOptions
no_options = record {
  age_key_file = [];
  pgp_keyring_dir = [];
  pgp_use_agent = false;
  pgp_pinentry_mode = [];
  pgp_passphrase = [];
}

abbrev sops_options : Option SopsConfig → SopsOptions
sops_options none = no_options
sops_options (some c) = pgp_options c.pgp (age_options c.age no_options)

abbrev pub if_ok {ℓ κ} : {A : Type ℓ} {B : Type κ} → Result Err A → (A → B) → B → B
if_ok (ok a) f d = f a
if_ok (err e) f d = d

module _ (H : Host) where
  abbrev secret_path : Stack → Text → Text
  secret_path stack path =
      if not (path == []) && not (H.is_abs path) then H.join stack.root path else path

  unfoldable pub append_secrets :
      SopsOptions → Stack → List Text → List Text → Result Err (List Text)
  append_secrets o stack [] inline = ok inline
  append_secrets o stack (path ∷ paths) inline =
      elim (H.decrypt_and_parse (secret_path stack path) o) [
        | ok pairs ↦ append_secrets o stack paths (inline ++ pairs)
        | err e ↦ err (
            wrap (codes "servicestate.BuildInlineEnv") external e
              (codes "decrypt sops secret " ++ secret_path stack path))
      ]

  unfoldable pub build_inline_env : Stack → Option SopsConfig → Result Err (List Text)
  unfolding append_secrets
  build_inline_env stack sops =
      append_secrets (sops_options sops) stack stack.sops_secrets stack.env_inline

module _ (D : Daemon) where
  -- The cheap listing first; if it fails or lists nothing, the parsed configuration.
  abbrev or_full : Result Err (List Text) → Result Err (List Text) → Result Err (List Text)
  or_full (ok (x ∷ xs)) full = ok (sort_by (λ s. s) (x ∷ xs))
  or_full (ok []) full = full >>= λ names. ok (sort_by (λ s. s) names)
  or_full (err e) full = full >>= λ names. ok (sort_by (λ s. s) names)

  unfoldable pub get_planned_services : Stack → List Text → D.State → Result Err (List Text)
  get_planned_services stack inline s =
      or_full (D.compose_config_services stack inline s) (D.compose_config_full stack inline s)

  unfoldable by_service : List ComposePsItem → Dict Text ComposePsItem → Dict Text ComposePsItem
  by_service [] m = m
  by_service (it ∷ items) m = by_service items (insert it.service it m)

  -- A failure of `compose ps` means that nothing runs.
  unfoldable pub get_running_services : Stack → List Text → D.State → Dict Text ComposePsItem
  unfolding by_service
  get_running_services stack inline s =
      if_ok (D.compose_ps stack (project_name stack) inline s) (λ items. by_service items []) []

unfoldable pub needs_apply : List ServiceInfo → Bool
needs_apply [] = false
needs_apply (i ∷ is) = elim i.state [ running ↦ needs_apply is | _ ↦ true ]

unfoldable get_service_names : List ServiceInfo → List Text
get_service_names = map (λ i. i.name)
