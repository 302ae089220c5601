-- ===== src/Images/Upgrade.antt =====
-- internal/images/upgrade.go: new tags in the compose files. The file system is a parameter.
pub mod Rewrite
use dockform.Base.{
  ℕ, zero, suc, ◌-◌, Bool, true, false, not, ◌||◌, Option, none, some, List, [], ◌∷◌, ◌++◌, ◌==◌,
  nat_eq, is_empty, if◌then◌else◌, length,
}
use dockform.Base.Text.{Text, codes, text_eq}
use dockform.Base.Dict.{Dict, lookup}
use dockform.Base.Result.{Result, ok, err}
use dockform.Apperr.{Err, plain, message}
use dockform.Registry.{cut_last}
use dockform.Images.{ImageStatus}

pub record FileChange : Type 0 where
  pub stack_key : Text
  pub service : Text
  pub file : Text
  pub image : Text
  pub old_tag : Text
  pub new_tag : Text

-- `strings.HasPrefix(s, p)`
abbrev pub has_prefix : Text → Text → Bool
has_prefix [] s = true
has_prefix (c ∷ p) [] = false
has_prefix (c ∷ p) (d ∷ s) = if c == d then has_prefix p s else false

-- The text with `old` replaced, where the first characters are part of a match and passed over.
unfoldable pub replace_from : Text → Text → ℕ → Text → Text
replace_from old new skip [] = []
replace_from old new (suc skip) (c ∷ s) = replace_from old new skip s
replace_from old new zero (c ∷ s) = elim (has_prefix old (c ∷ s)) [
  | true ↦ new ++ replace_from old new (length old - 1) s
  | false ↦ c ∷ replace_from old new zero s
]

abbrev between : Text → Text → Text
between new [] = new
between new (c ∷ s) = new ++ (c ∷ between new s)

-- `strings.ReplaceAll`; an empty text stands between all characters.
unfoldable pub replace_all : Text → Text → Text → Text
unfolding replace_from
replace_all [] new s = between new s
replace_all (c ∷ old) new s = replace_from (c ∷ old) new zero s

pub record FileSystem : Type 1 where
  pub Files : Type 0
  pub read_file : Text → Files → Result Err Text
  pub write_file : Text → Text → Files → Option Err × Files

-- The image without its tag.
abbrev name_part : Text → Option (Text × Text) → Text
name_part image (some (before, after)) = before
name_part image none = image

abbrev pub image_name : Text → Text
image_name image = name_part image (cut_last b':' image)

module _ (F : FileSystem) where
  abbrev pub written : Option Err × F.Files → Result Err Bool × F.Files
  written (none, w) = (ok true, w)
  written (some e, w) = (err e, w)

  abbrev pub rewrite_content :
      Text → Text → Text → Result Err Text → F.Files → Result Err Bool × F.Files
  rewrite_content path old new (err e) w = (err e, w)
  rewrite_content path old new (ok content) w =
      let changed = replace_all old new content in
      if changed == content then (ok false, w) else written (F.write_file path changed w)

  unfoldable pub rewrite_image_in_file : Text → Text → Text → F.Files → Result Err Bool × F.Files
  unfolding replace_all
  rewrite_image_in_file path old new w = rewrite_content path old new (F.read_file path w) w

  abbrev change_of : ImageStatus → Text → Text → FileChange
  change_of r tag path = record {
    stack_key = r.stack;
    service = r.service;
    file = path;
    image = image_name r.image;
    old_tag = r.current_tag;
    new_tag = tag;
  }

  abbrev noted : Bool → FileChange → List FileChange → List FileChange
  noted true c changes = changes ++ (c ∷ [])
  noted false c changes = changes

  -- An error of fmt by its text.
  abbrev rewrite_error : Text → Err → Err
  rewrite_error path e = plain (codes "upgrade: rewriting " ++ (path ++ (codes ": " ++ message e)))

  -- The files of one result; the first error ends it.
  unfoldable upgrade_files :
      ImageStatus
      → Text
      → List Text
      → List FileChange
      → F.Files
      → Result Err (List FileChange) × F.Files
  unfolding rewrite_image_in_file
  upgrade_files r tag [] changes w = (ok changes, w)
  upgrade_files r tag (path ∷ paths) changes w =
      let (done, w') = rewrite_image_in_file path r.image (image_name r.image ++ (b':' ∷ tag)) w in
      elim done [
        | err e ↦ (err (rewrite_error path e), w')
        | ok changed ↦ upgrade_files r tag paths (noted changed (change_of r tag path) changes) w'
      ]

  abbrev files_of : Option (List Text) → List Text
  files_of (some files) = files
  files_of none = []

  -- A result with an error, or without a newer tag, is passed over.
  abbrev upgrade_result :
      ImageStatus
      → List Text
      → Dict Text (List Text)
      → List FileChange
      → F.Files
      → Result Err (List FileChange) × F.Files
  upgrade_result r [] stack_files changes w = (ok changes, w)
  upgrade_result r (tag ∷ tags) stack_files changes w =
      if not (r.error == [])
      then (ok changes, w)
      else upgrade_files r tag (files_of (lookup r.stack stack_files)) changes w

  unfoldable upgrade_each :
      List ImageStatus
      → Dict Text (List Text)
      → List FileChange
      → F.Files
      → Result Err (List FileChange) × F.Files
  unfolding upgrade_files
  upgrade_each [] stack_files changes w = (ok changes, w)
  upgrade_each (r ∷ results) stack_files changes w =
      let (done, w') = upgrade_result r r.newer_tags stack_files changes w in
      elim done [ err e ↦ (err e, w') | ok changes' ↦ upgrade_each results stack_files changes' w' ]

  unfoldable upgrade :
      List ImageStatus → Dict Text (List Text) → F.Files → Result Err (List FileChange) × F.Files
  unfolding upgrade_each
  upgrade results stack_files w = upgrade_each results stack_files [] w
