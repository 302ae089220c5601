-- ===== src/Manifest/Normalize/Stacks.antt =====
-- internal/manifest/validation.go: the normalisation of the stacks that are merged from the
-- discovered and the explicit ones.
use dockform.Base.{
  Bool, false, not, ◌&&◌, ◌||◌, Option, none, some, List, [], ◌∷◌, ◌++◌, ◌==◌, map, if◌then◌else◌,
  nat_eq, is_empty,
}
use dockform.Base.Trim.{to_lower}
use dockform.Base.Text.{Text, codes, text_eq}
use dockform.Base.Dict.{Dict, has, insert}
use dockform.Base.Result.{Result, ok, err, ◌>>=◌}
use dockform.Apperr.{Err}
use dockform.Manifest.Machine.{Machine, exists}
use dockform.Manifest.Key.{KeyError, parse_stack_key}
use dockform.Manifest.Types.{Stack, Environment, Secrets, default_compose_files}
use dockform.Manifest.Validate.{invalid}
use dockform.Manifest.BindMounts.{validate_bind_mounts_in_compose_file}
use dockform.Manifest.Inline.{dedup_inline}
use dockform.Manifest.Normalize.Checks.{Done}

-- The explicit and the discovered stacks, which the loop changes.
abbrev pub Maps : Type 0
Maps = Dict Text Stack × Dict Text Stack

-- `strings.HasSuffix(s, ".env")`
abbrev pub ends_env : Text → Bool
ends_env [] = false
ends_env (c ∷ s) = (c ∷ s) == codes ".env" || ends_env s

abbrev inline_of : Option Environment → List Text
inline_of none = []
inline_of (some e) = e.inline

abbrev sops_of : Option Secrets → List Text
sops_of none = []
sops_of (some s) = s.sops

unfoldable pub check_secrets : Text → List Text → Result Err Done
check_secrets key [] = ok tt
check_secrets key (path ∷ paths) =
    let rest = check_secrets key paths in
    if not (ends_env (to_lower path))
    then err (
        invalid (
          codes "stack "
          ++ (key ++ (codes ": secrets file " ++ (path ++ codes " must have .env extension")))))
    else rest

module _ (H : Machine) (base_dir : Text) where
  abbrev first_existing : Text → List Text → Text → Text
  first_existing dir [] default = default
  first_existing dir (name ∷ names) default =
      let rest = first_existing dir names default in
      let path = H.join dir name in if exists (H.stat path) then path else rest

  unfoldable pub find_default_compose_file : Text → Text
  find_default_compose_file dir =
      first_existing dir default_compose_files (H.join dir (codes "compose.yaml"))

  abbrev context_or : Text → Text → Text
  context_or context own = if own == [] then context else own

  abbrev root_of : Text → Text
  root_of root =
      if not (root == []) && not (H.is_abs root) then H.clean (H.join base_dir root) else root

  abbrev compose_files_of : Text → List Text → List Text
  compose_files_of root files =
      if is_empty files && not (root == []) then find_default_compose_file root ∷ [] else files

  -- A relative path of a secret lies under the root, or else under the manifest's directory.
  abbrev resolved_secret : Text → Text → Text
  resolved_secret root path =
      if not (path == []) && not (H.is_abs path)
      then H.clean (H.join (if not (root == []) then root else base_dir) path)
      else path

  abbrev pub normalized : Text → Stack → Stack
  normalized context stack =
      let root = root_of stack.root in
      record stack {
        context = context_or context stack.context;
        root = root;
        root_abs = root;
        files = compose_files_of root stack.files;
        env_inline = dedup_inline (inline_of stack.environment);
        sops_secrets = map (resolved_secret root) (stack.sops_secrets ++ sops_of stack.secrets);
      }

  -- One stack, with its checks.
  unfoldable pub normalize_stack : Text → Text → Stack → Result Err Stack
  unfolding check_secrets find_default_compose_file
  normalize_stack key context stack =
      let stack' = normalized context stack in
      check_secrets key stack'.sops_secrets >>= λ _.
      validate_bind_mounts_in_compose_file H key stack' >>= λ _. ok stack'

  abbrev pub put_stack : Text → Stack → Maps → Maps
  put_stack key stack (explicit, discovered) =
      if has key discovered
      then (explicit, insert key stack discovered)
      else (insert key stack explicit, discovered)

  -- A key that does not parse is passed over.
  abbrev pub normalize_one : Text → Stack → Result KeyError (Text × Text) → Maps → Result Err Maps
  normalize_one key stack (err e) maps = ok maps
  normalize_one key stack (ok (context, name)) maps =
      normalize_stack key context stack >>= λ stack'. ok (put_stack key stack' maps)

  unfoldable pub normalize_stacks : Dict Text Stack → Maps → Result Err Maps
  unfolding normalize_stack
  normalize_stacks [] maps = ok maps
  normalize_stacks ((key, stack) ∷ d) maps =
      normalize_one key stack (parse_stack_key key) maps >>= λ maps'. normalize_stacks d maps'
