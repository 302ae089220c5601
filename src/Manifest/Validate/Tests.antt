-- ===== src/Manifest/Validate/Tests.antt =====
-- A fileset that validation accepts, some that it refuses, and the theorem at the first.
use dockform.Base.{◌≡◌, refl, true, false, none, some, [], ◌∷◌, ◌++◌}
use dockform.Base.Trim.{to_lower, trim_space}
use dockform.Base.Text.{Text, codes, text_eq, text_beq}
use dockform.Base.Result.{ok, err}
use dockform.Apperr.{new, invalid_input}
use dockform.Manifest.Types.{FilesetSpec}
use dockform.Manifest.Validate.{
  validate_field, validate_user_or_group, parse_octal_mode, octal_value, validate_owner,
  validate_ownership, validate_fileset, validate_filesets, is_absolute, validate_sops, validate_age,
  validate_recipients, validate_pgp, invalid,
}

abbrev rough : FilesetSpec
rough = record {
  source = codes "volumes/site";
  target_volume = codes "site";
  target_path = [];
  restart_services = record { attached = true; services = [] };
  apply_mode = codes " Cold";
  exclude = [];
  ownership = some (record {
    user = codes " www ";
    group = codes "33";
    file_mode = codes "0644";
    dir_mode = [];
    preserve_existing = false;
  });
  source_abs = [];
  context = codes "prod";
  stack = codes "web";
}

abbrev smooth : FilesetSpec
smooth = record rough {
  target_path = codes "/";
  apply_mode = codes "cold";
  ownership = some (record {
    user = codes "www";
    group = codes "33";
    file_mode = codes "0644";
    dir_mode = [];
    preserve_existing = false;
  });
  source_abs = codes "/srv/volumes/site";
}

-- The Kelvin sign is an owner: in lower case it is a `k`.
abbrev kelvin : Text
kelvin = 226 ∷ 132 ∷ 170 ∷ []

kelvin_accepted : validate_user_or_group kelvin ≡ ok false
unfolding validate_user_or_group to_lower text_beq trim_space
kelvin_accepted = refl

abbrev under_base : Text → Text → Text
under_base base p = base ++ (codes "/" ++ p)

rough_accepted :
    validate_filesets is_absolute under_base (codes "/srv") ((codes "site", rough) ∷ [])
    ≡ ok ((codes "site", smooth) ∷ [])
unfolding validate_filesets validate_fileset validate_ownership validate_owner validate_field
    validate_user_or_group parse_octal_mode octal_value text_beq to_lower trim_space
rough_accepted = refl

mode_value : parse_octal_mode (codes " 4755") ≡ ok 2541
unfolding parse_octal_mode octal_value text_beq trim_space
mode_value = refl

mode_refused :
    parse_octal_mode (codes "0648")
    ≡ err (
        new
          (codes "manifest.parseOctalMode")
          invalid_input
          (codes "mode must contain only octal digits (0-7): 0648"))
unfolding parse_octal_mode text_beq trim_space
mode_refused = refl

recipient_refused :
    validate_sops (record {
      age = some (record { key_file = []; recipients = codes "AGE1x" ∷ [] });
      recipients = [];
      pgp = none;
    })
    ≡ err (invalid (codes "sops.age.recipients: invalid age recipient format: AGE1x"))
unfolding validate_sops validate_age validate_recipients validate_pgp text_beq trim_space
recipient_refused = refl
