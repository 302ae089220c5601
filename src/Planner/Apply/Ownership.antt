-- ===== src/Planner/Apply/Ownership.antt =====
-- internal/planner/apply_ownership.go: the script that sets owners and modes. Target paths are
-- absolute, as the validation of a manifest requires. The set of updated directories is a list in
-- the order in which they are found; Go visits them in some order.
use dockform.Base.{
  ℕ, Bool, true, false, not, ◌&&◌, ◌||◌, List, [], ◌∷◌, ◌++◌, ◌==◌, if◌then◌else◌, is_empty,
  contains, leb, nat_eq, any_of,
}
use dockform.Base.Text.{Text, codes, text_eq}
use dockform.Base.Result.{Result, ok, err}
use dockform.Apperr.{Err, new, invalid_input}
use dockform.Filesets.Index.{FileEntry}
use dockform.Filesets.Diff.{Diff}
use dockform.Manifest.Types.{Ownership}
use dockform.Util.Shell.{shell_escape, quoted}
use dockform.Util.Path.{elements, clean, join, render}

abbrev is_digit : ℕ → Bool
is_digit c = leb b'0' c && leb c b'9'

abbrev is_numeric : Text → Bool
is_numeric [] = false
is_numeric (c ∷ s) = not (any_of (λ d. not (is_digit d)) (c ∷ s))

-- Whether a text holds two dots in a row.
unfoldable has_dots : Text → Bool
has_dots [] = false
has_dots (a ∷ []) = false
has_dots (a ∷ b ∷ s) = (a == b'.' && b == b'.') || has_dots (b ∷ s)

abbrev pub lf : Text
lf = 10 ∷ []

unfoldable concat_text : List Text → Text
concat_text [] = []
concat_text (t ∷ ts) = t ++ concat_text ts

-- The lines that find out the number of a user or a group: `var` is UID_VAL or GID_VAL, `database`
-- is passwd or group.
unfoldable resolve_lines : Text → Text → Text → Text → Text
unfolding concat_text
resolve_lines comment var database name =
    if name == []
    then []
    else comment
      ++ (if is_numeric name
          then concat_text (var ∷ codes "=" ∷ quoted name ∷ lf ∷ [])
          else concat_text (
              codes "if getent "
              ∷ database
              ∷ codes " "
              ∷ quoted name
              ∷ codes " >/dev/null 2>&1; then\n"
              ∷ codes "  "
              ∷ var
              ∷ codes "=$(getent "
              ∷ database
              ∷ codes " "
              ∷ quoted name
              ∷ codes " | cut -d: -f3)\nelse\n"
              ∷ codes "  echo 'WARNING: "
              ∷ (if database == codes "passwd" then codes "user" else codes "group")
              ∷ codes " \""
              ∷ shell_escape name
              ∷ codes "\" not found in helper image; skipping chown'\n  "
              ∷ var
              ∷ codes "=''\nfi\n"
              ∷ []))

-- The directories above a file, up to the root path, `/mnt` or `/`: the elements of the directory,
-- the last one first.
unfoldable parent_dirs : List Text → List Text → List Text → List Text
unfolding render
parent_dirs root [] dirs = dirs
parent_dirs root (e ∷ es) dirs =
    let more = parent_dirs root es (
      if contains dirs (render true (e ∷ es)) then dirs else dirs ++ (render true (e ∷ es) ∷ [])) in
    if render true (e ∷ es) == render true root
    then dirs
    else if render true (e ∷ es) == codes "/mnt"
    then dirs
    else more

abbrev tail_of : List Text → List Text
tail_of [] = []
tail_of (e ∷ es) = es

-- The updated files, and the set of the directories above them.
pub record Updated : Type 0 where
  pub files : List Text
  pub dirs : List Text

unfoldable collect_updated : Text → List FileEntry → Updated → Updated
unfolding parent_dirs
collect_updated root [] u = u
collect_updated root (f ∷ fs) u =
    let full = join root f.path in
    collect_updated root fs (record {
      files = u.files ++ (full ∷ []);
      dirs = parent_dirs (elements root) (tail_of (elements full)) u.dirs;
    })

unfoldable chmod_lines : Text → Text → List Text → Text
unfolding concat_text
chmod_lines test mode [] = []
chmod_lines test mode (p ∷ ps) =
    concat_text (
      codes "[ "
      ∷ test
      ∷ codes " "
      ∷ quoted p
      ∷ codes " ] && chmod "
      ∷ quoted mode
      ∷ codes " "
      ∷ quoted p
      ∷ codes " 2>/dev/null || true\n"
      ∷ [])
    ++ chmod_lines test mode ps

unfoldable chown_lines : Text → List Text → Text
unfolding concat_text
chown_lines owner [] = []
chown_lines owner (p ∷ ps) =
    concat_text (
      codes "  [ -e "
      ∷ quoted p
      ∷ codes " ] && chown "
      ∷ owner
      ∷ codes " "
      ∷ quoted p
      ∷ codes " 2>/dev/null || true\n"
      ∷ [])
    ++ chown_lines owner ps

abbrev both_set : Text
both_set = codes "if [ -n \"${UID_VAL:-}\" ] && [ -n \"${GID_VAL:-}\" ]; then\n"

abbrev pub user_set : Text
user_set = codes "elif [ -n \"${UID_VAL:-}\" ]; then\n"

abbrev group_set : Text
group_set = codes "elif [ -n \"${GID_VAL:-}\" ]; then\n"

-- The three branches on the numbers that were found.
abbrev by_owner : (Text → Text) → Text
by_owner lines =
    both_set
    ++ (lines (codes "\"$UID_VAL:$GID_VAL\"")
        ++ (user_set
            ++ (lines (codes "\"$UID_VAL\"")
                ++ (group_set ++ (lines (codes "\":$GID_VAL\"") ++ codes "fi\n")))))

abbrev has_owner : Ownership → Bool
has_owner o = not (o.user == []) || not (o.group == [])

abbrev section : Bool → Text → Text
section wanted text = if wanted then text else []

unfoldable preserve_existing_script : Text → Ownership → Diff → Text
unfolding collect_updated chmod_lines chown_lines
preserve_existing_script root o diff =
    let u =
      collect_updated root diff.to_update
        (collect_updated root diff.to_create (record { files = []; dirs = [] })) in
    section (not (o.dir_mode == []) && not (is_empty u.dirs)) (
      codes "# Apply directory mode to updated directories\n"
      ++ chmod_lines (codes "-d") o.dir_mode u.dirs)
    ++ (section (not (o.file_mode == []) && not (is_empty u.files)) (
          codes "# Apply file mode to updated files\n"
          ++ chmod_lines (codes "-f") o.file_mode u.files)
        ++ section (has_owner o) (
            codes "# Apply ownership to updated paths\n"
            ++ by_owner (λ owner. chown_lines owner (u.files ++ u.dirs))))

abbrev find_line : Text → Text → Text → Text
find_line kind mode root = concat_text (
    codes "find "
    ∷ quoted root
    ∷ codes " -type "
    ∷ kind
    ∷ codes " -exec chmod "
    ∷ quoted mode
    ∷ codes " {} + 2>/dev/null || true\n"
    ∷ [])

abbrev chown_root : Text → Text → Text
chown_root root owner =
    concat_text
      (codes "  chown -R " ∷ owner ∷ codes " " ∷ quoted root ∷ codes " 2>/dev/null || true\n" ∷ [])

unfoldable recursive_script : Text → Ownership → Text
unfolding concat_text
recursive_script root o =
    codes "# Apply to entire subtree\n"
    ++ (section (not (o.dir_mode == [])) (find_line (codes "d") o.dir_mode root)
        ++ (section (not (o.file_mode == [])) (find_line (codes "f") o.file_mode root)
            ++ section (has_owner o) (by_owner (chown_root root))))

abbrev script_for : Text → Ownership → Diff → Text
script_for root o diff =
    codes "set -e\n"
    ++ (resolve_lines (codes "# Resolve user ID\n") (codes "UID_VAL") (codes "passwd") o.user
        ++ (resolve_lines (codes "# Resolve group ID\n") (codes "GID_VAL") (codes "group") o.group
            ++ ((if o.preserve_existing
                  then preserve_existing_script root o diff
                  else recursive_script root o)
                ++ codes "echo 'Ownership applied successfully'\n")))

abbrev pub refuse : Text → Text → Err
refuse msg target = new (codes "planner.buildOwnershipScript") invalid_input (msg ++ target)

unfoldable pub build_ownership_script : Text → Ownership → Diff → Result Err Text
unfolding resolve_lines preserve_existing_script recursive_script has_dots
build_ownership_script target o diff =
    let root = clean target in
    if root == codes "/" || root == codes "."
    then err (refuse (codes "unsafe target path: ") target)
    else if has_dots root
    then err (refuse (codes "target path contains ..: ") target)
    else ok (script_for root o diff)
