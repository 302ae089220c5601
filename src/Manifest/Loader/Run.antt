-- ===== src/Manifest/Loader/Run.antt =====
-- The run of a load that succeeds, from the file to the configuration, and what discovery leaves.
use dockform.Base.{◌≡◌, refl, sym, ap, Option, List, [], Distinct, nat_eq, arith}
use mathlib.Core.Path.{subst}
use dockform.Base.Text.{Text, codes, text_eq}
use dockform.Base.Dict.{keys}
use dockform.Base.Result.{Result, ok, err, >>=-eq-ok}
use dockform.Apperr.{Err}
use dockform.Manifest.Machine.{Machine}
use dockform.Manifest.Types.{Config}
use dockform.Manifest.Interpolate.{interpolate_env_placeholders}
use dockform.Manifest.Discover.{Discovered, discover_contexts, discover_resources}
use dockform.Manifest.Discover.Once.{discover_contexts-Once}
use dockform.Manifest.Normalize.{normalize_and_validate}
use dockform.Manifest.Loader.{
  read_manifest, decoded, load_config, with_missing, load_text, load_with_warnings,
}

-- The run of a load that succeeds.
pub record Run (H : Machine) (decode : Text → Result Text Config) (path : Text) (c' : Config)
    : Type 0 where
  pub file_path : Text
  pub content : Text
  pub read_ok : read_manifest H (codes "manifest.Load") path ≡ ok (file_path, content)
  pub text : Text
  pub base : Text
  pub beside : base ≡ H.dir file_path
  pub read : Config
  pub found : Config
  pub decoded_ok : decode text ≡ ok read
  pub discovered : discover_resources H base (record read { base_dir = base }) ≡ ok found
  pub normal : normalize_and_validate H base found ≡ ok c'

decoded-ok :
    (H : Machine) (env : Text → Option Text) (decode : Text → Result Text Config)
    (r : Result Text Config) (c : Config)
    → decoded H env decode r ≡ ok c
    → r ≡ ok c
decoded-ok H env decode (ok x) c h = ap ok cc
decoded-ok H env decode (err e) c h = absurd (ground (arith, h))

module _ (H : Machine) (env : Text → Option Text) (decode : Text → Result Text Config) where
  with_missing-ok :
      (m missing : List Text) (r : Result Err Config) (c : Config)
      → with_missing H env decode m r ≡ ok (c, missing)
      → r ≡ ok c
  with_missing-ok m missing (ok x) c h = ap ok cc
  with_missing-ok m missing (err e) c h = absurd (ground (arith, h))

  config_run :
      (path file_path content text : Text) (c' : Config)
      → read_manifest H (codes "manifest.Load") path ≡ ok (file_path, content)
      → load_config H env decode (H.dir file_path) text ≡ ok c'
      → Run H decode path c'
  unfolding load_config
  config_run path file_path content text c' reading h =
      let base = H.dir file_path in
      let (c₀, e₀, h₀) = >>=-eq-ok (decoded H env decode (decode text)) _ h in
      let (c₁, e₁, h₁) =
        >>=-eq-ok (discover_resources H base (record c₀ { base_dir = base }))
          (λ x. normalize_and_validate H base x) h₀ in
      record {
        file_path = file_path;
        content = content;
        read_ok = reading;
        text = text;
        base = base;
        beside = refl;
        read = c₀;
        found = c₁;
        decoded_ok = decoded-ok H env decode (decode text) c₀ e₀;
        discovered = e₁;
        normal = h₁;
      }

  text_run :
      (path : Text) (r : Result Err (Text × Text)) (c' : Config) (missing : List Text)
      → read_manifest H (codes "manifest.Load") path ≡ r
      → load_text H env decode r ≡ ok (c', missing)
      → Run H decode path c'
  text_run path (err e) c' missing reading h = absurd (ground (arith, h))
  text_run path (ok (file_path, content)) c' missing reading h =
      let (text, m) = interpolate_env_placeholders env content in
      config_run path file_path content text c' reading
        (with_missing-ok m missing (load_config H env decode (H.dir file_path) text) c' h)

  pub load_run :
      (path : Text) (c' : Config) (missing : List Text)
      → load_with_warnings H env decode path ≡ ok (c', missing)
      → Run H decode path c'
  unfolding load_with_warnings
  load_run path c' missing h =
      text_run path (read_manifest H (codes "manifest.Load") path) c' missing refl h

-- What the discovery leaves and what it finds.
pub record Left (c c' : Config) : Type 0 where
  pub same_contexts : c'.contexts ≡ c.contexts
  pub same_discovery : c'.discovery ≡ c.discovery
  pub same_base_dir : c'.base_dir ≡ c.base_dir
  pub same_stacks : c'.stacks ≡ c.stacks
  pub once : Distinct (keys c'.discovered_stacks)

pub discover_resources-Left :
    (H : Machine) (base : Text) (c c' : Config)
    → c.discovered_stacks ≡ []
    → discover_resources H base c ≡ ok c'
    → Left c c'
unfolding discover_resources
discover_resources-Left H base c c' none_yet h =
    let before : Discovered = record {
      stacks = c.discovered_stacks;
      filesets = c.discovered_filesets;
    } in
    let (d, found, h₁) = >>=-eq-ok (discover_contexts H c.discovery base c.contexts before) _ h in
    let once : Distinct (keys d.stacks) =
      discover_contexts-Once H c.discovery base c.contexts before d
        (subst (λ x. Distinct (keys x)) (sym none_yet) tt) found in
    let same : d.stacks ≡ c'.discovered_stacks = ground (arith, h₁) in
    record {
      same_contexts = ground (arith, h₁);
      same_discovery = ground (arith, h₁);
      same_base_dir = ground (arith, h₁);
      same_stacks = ground (arith, h₁);
      once = subst (λ x. Distinct (keys x)) same once;
    }
