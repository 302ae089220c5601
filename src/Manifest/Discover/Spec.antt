-- ===== src/Manifest/Discover/Spec.antt =====
-- The stacks and filesets that a file system has, described without the loops that find them.
use dockform.Base.{
  ◌≡◌, Bool, true, false, not, ◌&&◌, Option, none, some, List, [], ◌==◌, if◌then◌else◌, contains,
  any_of, All, nat_eq,
}
use dockform.Base.Text.{Text, text_eq}
use dockform.Base.Dict.{Dict, has}
use dockform.Base.Result.{Result, ok, err}
use dockform.Apperr.{Err}
use dockform.Manifest.Key.{slash}
use dockform.Manifest.Types.{
  Stack, FilesetSpec, ContextConfig, DiscoveryConfig, get_compose_files, get_secrets_file,
  get_volumes_dir,
}
use dockform.Manifest.Machine.{Stat, directory, file, not_exist, failed, exists, DirEntry, Machine}
use dockform.Manifest.Discover.{find_compose_file, find_file, fileset_found, stack_found}

-- A directory of this name is among the entries.
abbrev pub has_dir : Text → List DirEntry → Bool
has_dir name es = any_of (λ e. e.is_dir && e.name == name) es

abbrev pub some_if {ℓ} : {A : Type ℓ} → Bool → A → Option A → Option A
some_if b a rest = if b then some a else rest

abbrev pub or_else {ℓ} : {A : Type ℓ} → Option A → Option A → Option A
or_else (some a) rest = some a
or_else none rest = rest

module _ (H : Machine) (discovery : DiscoveryConfig) where
  abbrev pub compose_of : Text → Text
  compose_of dir = find_compose_file H discovery dir (get_compose_files discovery)

  abbrev pub stack_in : Text → Text → Text → Text → Stack
  stack_in context dir secrets name =
      stack_found H discovery context (H.join dir name) (compose_of (H.join dir name)) secrets

  abbrev pub has_stack : Text → Text → List DirEntry → Bool
  has_stack dir name es = has_dir name es && not (compose_of (H.join dir name) == [])

  -- What is a stack in the directory of a context.
  abbrev pub listed_stack : Text → Text → Text → Result Err (List DirEntry) → Option Stack
  listed_stack context dir name (err e) = none
  listed_stack context dir name (ok es) =
      if has_stack dir name es
      then some (stack_in context dir (find_file H discovery dir (get_secrets_file discovery)) name)
      else none

  abbrev pub stack_under : Text → Text → Text → Stat → Option Stack
  stack_under context dir name directory = listed_stack context dir name (H.read_dir dir)
  stack_under context dir name file = none
  stack_under context dir name (not_exist e) = none
  stack_under context dir name (failed e) = none

  -- The stack that the file system has for a context and a name.
  abbrev pub stack_of : Text → Dict Text ContextConfig → Text → Text → Option Stack
  stack_of base_dir contexts context name =
      let dir = H.join base_dir context in
      if has context contexts then stack_under context dir name (H.stat dir) else none

abbrev pub is_directory : Stat → Bool
is_directory directory = true
is_directory file = false
is_directory (not_exist e) = false
is_directory (failed e) = false

abbrev pub lists_dir : Text → Result Err (List DirEntry) → Bool
lists_dir name (err e) = false
lists_dir name (ok es) = has_dir name es

module _ (H : Machine) (discovery : DiscoveryConfig) where
  -- One of the names of compose files exists in a directory.
  abbrev pub has_compose : Text → Bool
  has_compose dir = any_of (λ name. exists (H.stat (H.join dir name))) (get_compose_files discovery)

  -- What makes a stack: a declared context with a directory, in it a directory of the name, and in
  -- that a compose file.
  abbrev pub is_stack : Text → Dict Text ContextConfig → Text → Text → Bool
  is_stack base_dir contexts context name =
      let dir = H.join base_dir context in
      has context contexts
      && (is_directory (H.stat dir)
          && (lists_dir name (H.read_dir dir) && has_compose (H.join dir name)))

-- The names in a directory have no slash.
abbrev pub PlainNames : Machine → Type 0
PlainNames H =
    (dir : Text) (es : List DirEntry)
    → H.read_dir dir ≡ ok es
    → All (λ e. contains e.name slash ≡ false) es

module _ (H : Machine) (discovery : DiscoveryConfig) where
  abbrev pub listed_fileset :
      Text → Text → Text → Text → Result Err (List DirEntry) → Option FilesetSpec
  listed_fileset context stack dir volume (err e) = none
  listed_fileset context stack dir volume (ok es) =
      if has_dir volume es
      then some (fileset_found context stack volume (H.join dir volume))
      else none

  abbrev pub fileset_under : Text → Text → Text → Text → Stat → Option FilesetSpec
  fileset_under context stack dir volume directory =
      listed_fileset context stack dir volume (H.read_dir dir)
  fileset_under context stack dir volume file = none
  fileset_under context stack dir volume (not_exist e) = none
  fileset_under context stack dir volume (failed e) = none

  -- A fileset in the directory of a stack.
  abbrev pub volume_in : Text → Text → Text → Text → Option FilesetSpec
  volume_in context stack stack_dir volume =
      let dir = H.join stack_dir (get_volumes_dir discovery) in
      fileset_under context stack dir volume (H.stat dir)

  -- In the directory of a context: the fileset of a stack that has a compose file.
  abbrev pub listed_volume :
      Text → Text → Text → Text → Result Err (List DirEntry) → Option FilesetSpec
  listed_volume context dir stack volume (err e) = none
  listed_volume context dir stack volume (ok es) =
      if has_stack H discovery dir stack es
      then volume_in context stack (H.join dir stack) volume
      else none

  abbrev pub volume_under : Text → Text → Text → Text → Stat → Option FilesetSpec
  volume_under context dir stack volume directory =
      listed_volume context dir stack volume (H.read_dir dir)
  volume_under context dir stack volume file = none
  volume_under context dir stack volume (not_exist e) = none
  volume_under context dir stack volume (failed e) = none

  -- The fileset that the file system has for a context, a stack and a volume.
  abbrev pub fileset_of : Text → Dict Text ContextConfig → Text → Text → Text → Option FilesetSpec
  fileset_of base_dir contexts context stack volume =
      let dir = H.join base_dir context in
      if has context contexts then volume_under context dir stack volume (H.stat dir) else none
