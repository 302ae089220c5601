-- ===== src/Manifest/BindMounts.antt =====
-- internal/manifest/bind_mount_validator.go: relative bind mounts in the compose files, which are
-- found by a regular expression on the text.
pub mod Detected
pub mod Refused
mod Tests
use dockform.Base.{
  ℕ, Bool, true, false, not, ◌&&◌, ◌||◌, Option, none, some, List, [], ◌∷◌, ◌++◌, ◌==◌, map, nat_eq,
  contains, if◌then◌else◌, set_of,
}
use dockform.Base.Trim.{trim_space}
use dockform.Base.Text.{Text, codes, text_eq}
use dockform.Base.Result.{Result, ok, err}
use dockform.Apperr.{Err, new, invalid_input}
use dockform.Manifest.Machine.{Machine}
use dockform.Manifest.Key.{KeyError, parse_stack_key}
use dockform.Manifest.Types.{Stack}

-- `\s` of the regular expression: not the vertical tab.
abbrev pub re_space : ℕ → Bool
re_space c = contains (9 ∷ 10 ∷ 12 ∷ 13 ∷ 32 ∷ []) c

abbrev pub skip_space : Text → Text
skip_space [] = []
skip_space (c ∷ s) = let rest = skip_space s in if re_space c then rest else c ∷ s

-- `[^:\s]*:`: what stands before the colon.
unfoldable pub until_colon : Text → Option Text
until_colon [] = none
until_colon (c ∷ s) =
    let rest : Option Text = elim (until_colon s) [ none ↦ none | some t ↦ some (c ∷ t) ] in
    if c == b':' then some [] else if re_space c then none else rest

-- `[^:\s]+:`, behind a prefix.
abbrev pub behind : Text → Option Text → Option Text
behind prefix none = none
behind prefix (some []) = none
behind prefix (some (c ∷ t)) = some (prefix ++ (c ∷ t))

-- `/[^:\s]+:`, behind a prefix.
abbrev pub behind_slash : Text → Text → Option Text
behind_slash prefix [] = none
behind_slash prefix (c ∷ s) =
    if c == b'/' then behind (prefix ++ (c ∷ [])) (until_colon s) else none

abbrev behind_dot : Text → Option Text
behind_dot [] = none
behind_dot (c ∷ s) =
    if c == b'.' then behind_slash (codes "..") s else behind_slash (codes ".") (c ∷ s)

-- `(\.{1,2}/[^:\s]+|~/[^:\s]+):` at the start of a text: the group.
abbrev pub mount_here : Text → Option Text
mount_here [] = none
mount_here (c ∷ s) =
    if c == b'.' then behind_dot s else if c == b'~' then behind_slash (codes "~") s else none

-- `\s+`, and then the mount.
abbrev pub after_dash : Text → Option Text
after_dash [] = none
after_dash (c ∷ s) = if re_space c then mount_here (skip_space s) else none

abbrev dash : Text → Option Text
dash [] = none
dash (c ∷ s) = if c == b'-' then after_dash s else none

-- `\s*-\s+(…):` at the start of a line, which matches in one way at most.
unfoldable pub match_line : Text → Option Text
unfolding until_colon
match_line s = dash (skip_space s)

abbrev pub put_found : Option Text → List Text → List Text
put_found none found = found
put_found (some m) found = m ∷ found

-- The matches at the starts of lines, in order. Two that overlap have their dash in common, so
-- that the second one repeats the first.
unfoldable pub matches_from : Bool → Text → List Text
unfolding match_line
matches_from starts [] = []
matches_from starts (c ∷ s) =
    let rest = matches_from (c == b'\n') s in
    if starts then put_found (match_line (c ∷ s)) rest else rest

unfoldable pub detect_bind_mounts : Text → List Text
unfolding matches_from
detect_bind_mounts content = set_of (map trim_space (matches_from true content)) []

abbrev parts_of : Result KeyError (Text × Text) → Text × Text
parts_of (ok parts) = parts
parts_of (err e) = ([], [])

abbrev mount_lines : List Text → Text
mount_lines [] = []
mount_lines (m ∷ ms) = codes "  - " ++ (m ++ (codes "\n" ++ mount_lines ms))

module _ (H : Machine) where
  abbrev pub compose_path : Text → Text → Text
  compose_path root path = if not (H.is_abs path) then H.join root path else path

  -- A file that cannot be read is passed over.
  abbrev pub add_mounts : Result Err Text → List Text → List Text
  add_mounts (err e) seen = seen
  add_mounts (ok content) seen = set_of (detect_bind_mounts content) seen

  -- The loop over the files of a stack, from its root.
  unfoldable pub mounts_in : Text → List Text → List Text → List Text
  unfolding detect_bind_mounts
  mounts_in root [] seen = seen
  mounts_in root (path ∷ paths) seen =
      mounts_in root paths (add_mounts (H.read_file (compose_path root path)) seen)

  -- The arrow of the text in UTF-8.
  abbrev arrow : Text
  arrow = 226 ∷ 134 ∷ 146 ∷ []

  abbrev mounts_text : Text → Text × Text → List Text → Text
  mounts_text stack_key (context, name) mounts =
      codes "stack "
      ++ (stack_key
          ++ (codes
                " contains bind mounts with relative paths which will not work correctly with remote Docker contexts.\n\nBind mounts found:\n"
              ++ (mount_lines mounts
                  ++ (codes
                        "\nBind mounts reference paths on the Docker daemon's filesystem, not your local machine.\nWhen using remote Docker contexts, these paths would be resolved on the remote server.\n\nSolution: Use Dockform filesets for syncing local files to remote volumes.\n\nMigration steps:\n  1. Create a 'volumes/' directory in your stack: "
                      ++ (context
                          ++ (codes "/"
                              ++ (name
                                  ++ (codes
                                        "/volumes/\n  2. Move your bind mount directories into volumes/\n     Example: ./config "
                                      ++ (arrow
                                          ++ (codes " "
                                              ++ (context
                                                  ++ (codes "/"
                                                      ++ (name
                                                          ++ (codes
                                                            "/volumes/config/\n  3. Change compose volumes to use named volumes:\n     - Old: ./config:/app/config\n     - New: "
                                                            ++ (name
                                                            ++ (codes
                                                            "_config:/app/config\n  4. Declare the volume in dockform.yaml:\n     contexts:\n       "
                                                            ++ (context
                                                            ++ (codes
                                                            ":\n         volumes:\n           "
                                                            ++ (name
                                                            ++ codes
                                                            "_config: {}\n\nDockform will auto-discover the fileset and sync files correctly to the remote server.\nSee: https://github.com/gcstr/dockform#filesets for more information.")))))))))))))))))))

  abbrev pub refuse_mounts : Text → List Text → Result Err (Unit {0})
  refuse_mounts stack_key [] = ok tt
  refuse_mounts stack_key (m ∷ ms) = err (
      new (codes "manifest.validateBindMounts") invalid_input
        (mounts_text stack_key (parts_of (parse_stack_key stack_key)) (m ∷ ms)))

  unfoldable pub validate_bind_mounts_in_compose_file : Text → Stack → Result Err (Unit {0})
  unfolding mounts_in
  validate_bind_mounts_in_compose_file stack_key stack =
      refuse_mounts stack_key (mounts_in stack.root stack.files [])
