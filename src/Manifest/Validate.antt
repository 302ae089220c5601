-- ===== src/Manifest/Validate.antt =====
-- internal/manifest/validation.go: the checks on ownership and on filesets. `is_abs`
-- and `resolve` are filepath.IsAbs and the clean join of a
-- base directory and a path.
pub mod Valid
mod Tests
use dockform.Base.{
  ℕ, ◌+◌, ◌-◌, ◌*◌, Bool, true, false, not, ◌&&◌, ◌||◌, Option, none, some, List, [], ◌∷◌, ◌++◌,
  ◌==◌, if◌then◌else◌, leb, ltb, nat_eq, any_of, length, is_empty,
}
use dockform.Base.Trim.{trim_space, to_lower}
use dockform.Base.Text.{Text, codes, text_eq}
use dockform.Base.Dict.{Dict}
use dockform.Base.Result.{Result, ok, err, ◌>>=◌}
use dockform.Apperr.{Err, new, wrap, invalid_input}
use dockform.Manifest.Types.{Ownership, FilesetSpec, SopsConfig, SopsPgpConfig, SopsAgeConfig}

abbrev pub digit : ℕ → Bool
digit c = leb b'0' c && leb c b'9'

abbrev pub all_of : (ℕ → Bool) → Text → Bool
all_of p s = not (any_of (λ c. not (p c)) s)

-- `^\d+$`
abbrev pub is_numeric_id : Text → Bool
is_numeric_id s = not (s == []) && all_of digit s

abbrev name_start : ℕ → Bool
name_start c = (leb b'a' c && leb c b'z') || c == b'_'

abbrev name_code : ℕ → Bool
name_code c = name_start c || (digit c || c == b'-')

-- `[a-z0-9_-]*\$?$`
abbrev name_rest : Text → Bool
name_rest [] = true
name_rest (c ∷ s) = name_code c && name_rest s || (c == b'$' && s == [])

-- `^[a-z_][a-z0-9_-]*\$?$`
abbrev pub is_posix_name : Text → Bool
is_posix_name [] = false
is_posix_name (c ∷ s) = name_start c && name_rest s

abbrev user_op : Text
user_op = codes "manifest.validateUserOrGroup"

-- Whether the user or group is a number.
unfoldable pub validate_user_or_group : Text → Result Err Bool
validate_user_or_group text =
    let s = trim_space text in
    if s == []
    then err (new user_op invalid_input (codes "user or group cannot be empty"))
    else if is_numeric_id s
    then ok true
    else if is_posix_name (to_lower s)
    then ok false
    else err (new user_op invalid_input (codes "must be numeric or valid POSIX name: " ++ s))

abbrev mode_op : Text
mode_op = codes "manifest.parseOctalMode"

abbrev pub octal_digit : ℕ → Bool
octal_digit c = leb b'0' c && leb c b'7'

abbrev pub trim_zero : Text → Text
trim_zero [] = []
trim_zero (c ∷ s) = if c == b'0' then s else c ∷ s

-- `strconv.ParseUint` in base 8 on at most four octal digits.
unfoldable pub octal_value : ℕ → Text → ℕ
octal_value acc [] = acc
octal_value acc (c ∷ s) = octal_value (8 * acc + (c - b'0')) s

-- `len` counts bytes: a character outside ASCII is refused in either way.
unfoldable pub parse_octal_mode : Text → Result Err ℕ
unfolding octal_value
parse_octal_mode text =
    let s = trim_space text in
    if s == []
    then err (new mode_op invalid_input (codes "mode cannot be empty"))
    else if ltb (length s) 3 || ltb 4 (length s)
    then err (new mode_op invalid_input (codes "mode must be 3-4 octal digits: " ++ s))
    else if not (all_of octal_digit s)
    then err (new mode_op invalid_input (codes "mode must contain only octal digits (0-7): " ++ s))
    else ok (octal_value 0 (trim_zero s))

abbrev fileset_text : Text → Text → Text
fileset_text name text = codes "fileset " ++ (name ++ (codes ": " ++ text))

abbrev ownership_op : Text
ownership_op = codes "manifest.validateOwnership"

abbrev pub checked : {A : Type 0} → Text → Text → Text → Result Err A → Result Err Text
checked name label trimmed (ok a) = ok trimmed
checked name label trimmed (err e) =
    err (wrap ownership_op invalid_input e (fileset_text name (codes "invalid " ++ label)))

-- One of the four fields: an empty one is left, another is trimmed and checked.
unfoldable pub validate_field :
    {A : Type 0} → (Text → Result Err A) → Text → Text → Text → Result Err Text
validate_field check name label value =
    let trimmed = trim_space value in
    if value == []
    then ok []
    else if trimmed == []
    then err (
        new ownership_op invalid_input
          (fileset_text name (label ++ codes " cannot be empty or whitespace only")))
    else checked name label trimmed (check trimmed)

unfoldable pub validate_owner : Text → Ownership → Result Err Ownership
unfolding validate_field validate_user_or_group parse_octal_mode
validate_owner name o = validate_field validate_user_or_group name (codes "user") o.user >>= λ user.
    validate_field validate_user_or_group name (codes "group") o.group >>= λ group.
    validate_field parse_octal_mode name (codes "file_mode") o.file_mode >>= λ file_mode.
    validate_field parse_octal_mode name (codes "dir_mode") o.dir_mode >>= λ dir_mode. ok (record {
      user = user;
      group = group;
      file_mode = file_mode;
      dir_mode = dir_mode;
      preserve_existing = o.preserve_existing;
    })

abbrev pub with_owner : FilesetSpec → Ownership → FilesetSpec
with_owner fs o = record fs { ownership = some o }

unfoldable pub validate_ownership : Text → FilesetSpec → Result Err FilesetSpec
unfolding validate_owner
validate_ownership name fs = elim fs.ownership [
  | none ↦ ok fs
  | some o ↦ validate_owner name o >>= λ o'. ok (with_owner fs o')
]

abbrev normalize_op : Text
normalize_op = codes "manifest.normalizeAndValidate"

abbrev pub invalid : Text → Err
invalid text = new normalize_op invalid_input text

abbrev pub is_absolute : Text → Bool
is_absolute [] = false
is_absolute (c ∷ s) = c == b'/'

abbrev pub target_path_of : FilesetSpec → Text
target_path_of fs = if fs.target_path == [] then codes "/" else fs.target_path

abbrev hot_by_default : Text → Text
hot_by_default mode = if mode == [] then codes "hot" else mode

abbrev pub apply_mode_of : FilesetSpec → Text
apply_mode_of fs = hot_by_default (to_lower (trim_space fs.apply_mode))

module _ (is_abs : Text → Bool) (resolve : Text → Text → Text) (base_dir : Text) where
  abbrev pub with_source : FilesetSpec → FilesetSpec
  with_source fs = record fs {
    source_abs = if not (is_abs fs.source) then resolve base_dir fs.source else fs.source;
  }

  unfoldable pub validate_fileset : Text → FilesetSpec → Result Err FilesetSpec
  unfolding validate_ownership
  validate_fileset name fs =
      if trim_space fs.source == []
      then err (invalid (fileset_text name (codes "source path is required")))
      else if fs.target_volume == []
      then err (invalid (fileset_text name (codes "target_volume is required")))
      else if not (is_absolute (target_path_of fs))
      then err (invalid (fileset_text name (codes "target_path must be an absolute path")))
      else if not (apply_mode_of fs == codes "hot") && not (apply_mode_of fs == codes "cold")
      then err (invalid (fileset_text name (codes "apply_mode must be 'hot' or 'cold'")))
      else validate_ownership name
          (record fs { target_path = target_path_of fs; apply_mode = apply_mode_of fs })
        >>= λ fs'. ok (with_source fs')

  -- The loop over the filesets, which ends at the first error.
  unfoldable pub validate_filesets : Dict Text FilesetSpec → Result Err (Dict Text FilesetSpec)
  unfolding validate_fileset
  validate_filesets [] = ok []
  validate_filesets ((name, fs) ∷ d) =
      validate_fileset name fs >>= λ fs'. validate_filesets d >>= λ d'. ok ((name, fs') ∷ d')

-- The recipients of age: empty ones are passed over.
abbrev starts_age : Text → Bool
starts_age (a ∷ b ∷ c ∷ d ∷ s) = a == b'a' && (b == b'g' && (c == b'e' && d == b'1'))
starts_age _ = false

unfoldable pub validate_recipients : List Text → Result Err (Unit {0})
validate_recipients [] = ok tt
validate_recipients (r ∷ rs) =
    let rest = validate_recipients rs in
    if trim_space r == []
    then rest
    else if not (starts_age (trim_space r))
    then err (invalid (codes "sops.age.recipients: invalid age recipient format: " ++ r))
    else rest

abbrev pinentry_mode_of : SopsPgpConfig → Text
pinentry_mode_of pgp =
    let mode = trim_space (to_lower pgp.pinentry_mode) in
    if mode == [] then codes "default" else mode

unfoldable pub validate_age : Option SopsAgeConfig → Result Err (Unit {0})
unfolding validate_recipients
validate_age none = ok tt
validate_age (some age) = validate_recipients age.recipients

unfoldable pub validate_pgp : Option SopsPgpConfig → Result Err (Option SopsPgpConfig)
validate_pgp none = ok none
validate_pgp (some pgp) =
    if not (pinentry_mode_of pgp == codes "default")
      && not (pinentry_mode_of pgp == codes "loopback")
    then err (invalid (codes "sops.pgp.pinentry_mode must be 'default' or 'loopback'"))
    else ok (some (record pgp { pinentry_mode = pinentry_mode_of pgp }))

unfoldable pub validate_sops : SopsConfig → Result Err SopsConfig
unfolding validate_age validate_pgp
validate_sops sops =
    if not (is_empty sops.recipients)
    then err (
        invalid (
          codes
            "sops.recipients is no longer supported; move entries under sops.age.recipients or sops.pgp.recipients"))
    else validate_age sops.age >>= λ _.
        validate_pgp sops.pgp >>= λ pgp. ok (record sops { pgp = pgp })
