-- ===== src/Manifest/Loader.antt =====
-- internal/manifest/loader.go: the file of a manifest, its loading and its rendering. Decoding YAML
-- is a parameter; it fails with a text.
pub mod Loaded
mod Run
mod Tests
use dockform.Base.{Option, List, [], ◌∷◌, ◌++◌, ◌==◌, map}
use dockform.Base.Text.{Text, codes, text_eq}
use dockform.Base.Result.{Result, ok, err, ◌>>=◌}
use dockform.Apperr.{Err, new, wrap, invalid_input, not_found, internal}
use dockform.Manifest.Machine.{Stat, directory, file, not_exist, failed, Machine}
use dockform.Manifest.Types.{Config}
use dockform.Manifest.Interpolate.{interpolate_env_placeholders}
use dockform.Manifest.Discover.{discover_resources}
use dockform.Manifest.Normalize.{normalize_and_validate}

abbrev config_names : List Text
config_names =
    codes "dockform.yml" ∷ codes "dockform.yaml" ∷ codes "Dockform.yml" ∷ codes "Dockform.yaml" ∷ []

abbrev resolve_op : Text
resolve_op = codes "manifest.resolveConfigPath"

abbrev looked_for : Text
looked_for = codes "(looked for dockform.yml, dockform.yaml, Dockform.yml, Dockform.yaml)"

-- `warning: environment variable … is not set; …` on the standard error.
abbrev warning : Text → Text
warning name =
    codes "warning: environment variable "
    ++ (name ++ codes " is not set; replacing with empty string\n")

module _ (H : Machine) where
  abbrev candidate_found : Text → Stat → Result Err Text → Result Err Text
  candidate_found candidate directory rest = ok candidate
  candidate_found candidate file rest = ok candidate
  candidate_found candidate (not_exist e) rest = rest
  candidate_found candidate (failed e) rest =
      err (wrap resolve_op internal e (codes "stat " ++ candidate))

  -- The candidates in a directory, of which the first one that exists is taken.
  unfoldable pub first_config : Text → Err → List Text → Result Err Text
  first_config dir otherwise [] = err otherwise
  first_config dir otherwise (name ∷ names) =
      let candidate = H.join dir name in
      candidate_found candidate (H.stat candidate) (first_config dir otherwise names)

  abbrev path_given : Text → Stat → Result Err Text
  path_given path directory =
      first_config path
        (new resolve_op not_found
          (codes "no config file found in " ++ (path ++ (codes " " ++ looked_for))))
        config_names
  path_given path file = ok path
  path_given path (not_exist e) = ok path
  path_given path (failed e) = ok path

  abbrev path_missing : Result Err Text → Result Err Text
  path_missing (err e) = err (wrap resolve_op internal e (codes "getwd"))
  path_missing (ok cwd) =
      first_config cwd (new resolve_op not_found (codes "no config file found " ++ looked_for))
        config_names

  unfoldable pub resolve_config_path : Text → Result Err Text
  unfolding first_config
  resolve_config_path [] = path_missing H.getwd
  resolve_config_path (c ∷ path) = path_given (c ∷ path) (H.stat (c ∷ path))

  abbrev absolute : Text → Result Err Text → Result Err Text
  absolute op (ok path) = ok path
  absolute op (err e) = err (wrap op invalid_input e (codes "abs path"))

  abbrev content_of : Text → Result Err Text → Result Err Text
  content_of op (ok content) = ok content
  content_of op (err e) = err (wrap op not_found e (codes "read config"))

  -- The absolute path of the manifest, and its text.
  abbrev pub read_manifest : Text → Text → Result Err (Text × Text)
  read_manifest op path = resolve_config_path path >>= λ guessed.
      absolute op (H.abs guessed) >>= λ guessed_abs.
      content_of op (H.read_file guessed_abs) >>= λ content. ok (guessed_abs, content)

  module _ (lookup_env : Text → Option Text) where
    unfoldable pub render_with_warnings : Text → Result Err (Text × List Text)
    unfolding resolve_config_path interpolate_env_placeholders
    render_with_warnings path =
        read_manifest (codes "manifest.Render") path >>= λ (guessed_abs, content).
        ok (interpolate_env_placeholders lookup_env content)

    abbrev relative_to : Text → Result Err Text → Text
    relative_to guessed_abs (err e) = H.base guessed_abs
    relative_to guessed_abs (ok cwd) = elim (H.rel cwd guessed_abs) [
      | ok path ↦ path
      | err e ↦ H.base guessed_abs
    ]

    -- The text, the path and the names that are missing.
    unfoldable pub render_with_warnings_and_path : Text → Result Err (Text × (Text × List Text))
    unfolding resolve_config_path interpolate_env_placeholders
    render_with_warnings_and_path path =
        read_manifest (codes "manifest.Render") path >>= λ (guessed_abs, content).
        let (text, missing) = interpolate_env_placeholders lookup_env content in
        ok (text, (relative_to guessed_abs H.getwd, missing))

    -- The text, and what is written to the standard error.
    unfoldable pub render : Text → Result Err (Text × List Text)
    unfolding render_with_warnings
    render path = render_with_warnings path >>= λ (text, missing). ok (text, map warning missing)

    module _ (decode : Text → Result Text Config) where
      abbrev pub decoded : Result Text Config → Result Err Config
      decoded (ok c) = ok c
      decoded (err text) =
          err (new (codes "manifest.Load") invalid_input (codes "parse yaml: " ++ text))

      -- From the interpolated text to the configuration.
      unfoldable pub load_config : Text → Text → Result Err Config
      unfolding discover_resources normalize_and_validate
      load_config base_dir text = decoded (decode text) >>= λ c.
          discover_resources H base_dir (record c { base_dir = base_dir }) >>= λ c'.
          normalize_and_validate H base_dir c'

      -- The names that are missing, which an error returns as well once the file is read.
      abbrev pub with_missing :
          List Text → Result Err Config → Result (List Text × Err) (Config × List Text)
      with_missing missing (ok c) = ok (c, missing)
      with_missing missing (err e) = err (missing, e)

      abbrev pub load_text :
          Result Err (Text × Text) → Result (List Text × Err) (Config × List Text)
      load_text (err e) = err ([], e)
      load_text (ok (guessed_abs, content)) =
          let (text, missing) = interpolate_env_placeholders lookup_env content in
          with_missing missing (load_config (H.dir guessed_abs) text)

      unfoldable pub load_with_warnings : Text → Result (List Text × Err) (Config × List Text)
      unfolding resolve_config_path load_config interpolate_env_placeholders
      load_with_warnings path = load_text (read_manifest (codes "manifest.Load") path)

      -- The configuration, and what is written to the standard error.
      unfoldable pub load : Text → Result Err (Config × List Text)
      unfolding load_with_warnings
      load path = elim (load_with_warnings path) [
        | ok (c, missing) ↦ ok (c, map warning missing)
        | err (missing, e) ↦ err e
      ]
