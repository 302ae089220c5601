-- ===== src/Manifest/BindMounts/Tests.antt =====
-- A compose file with two bind mounts, and the theorem at its second line.
use dockform.Base.Trim.{trim_space}
use dockform.Base.{◌≡◌, refl, true, none, [], ◌∷◌, ◌++◌, set_of, contains}
use dockform.Base.Text.{Text, codes, text_eq, text_beq}
use dockform.Base.Result.{ok, err}
use dockform.Apperr.{Err, plain}
use dockform.Manifest.Machine.{not_exist, Machine}
use dockform.Manifest.Types.{Stack}
use dockform.Manifest.Validate.{is_absolute}
use dockform.Manifest.BindMounts.{detect_bind_mounts, validate_bind_mounts_in_compose_file}
use dockform.Manifest.BindMounts.Detected.{here, bind_line}
use dockform.Manifest.BindMounts.Refused.{validate_bind_mounts_in_compose_file-bind_line}

abbrev head : Text
head = codes "volumes:\n  - ../up:/up\n  - data:/d\n"

abbrev second : Text
second =
    bind_line (codes "  ") b' ' (codes " ") here b'c' (codes "onf") (codes "/etc\n  - ../up:/x")

detect_run : detect_bind_mounts (head ++ second) ≡ codes "../up" ∷ codes "./conf" ∷ []
unfolding detect_bind_mounts set_of text_beq trim_space
detect_run = refl

abbrev machine : Machine
machine = record {
  stat = λ path. not_exist (plain path);
  read_dir = λ path. ok [];
  read_file = λ path. ok (head ++ second);
  getwd = ok [];
  is_abs = is_absolute;
  abs = λ path. ok path;
  join = λ a b. a ++ (b'/' ∷ b);
  clean = λ path. path;
  rel = λ from path. ok path;
  base = λ path. path;
  dir = λ path. path;
  go_quote = λ text. text;
}

abbrev stack : Stack
stack = record {
  root = codes "/srv/prod/web";
  files = codes "compose.yaml" ∷ [];
  env_file = [];
  profiles = [];
  environment = none;
  secrets = none;
  project = none;
  filesets = [];
  context = codes "prod";
  env_inline = [];
  sops_secrets = [];
  root_abs = codes "/srv/prod/web";
}

same_file : contains stack.files (codes "compose.yaml") ≡ true
unfolding text_beq
same_file = refl

validate_bind_mounts_in_compose_file-bind_line_example :
    (e : Err) × (validate_bind_mounts_in_compose_file machine (codes "prod/web") stack ≡ err e)
validate_bind_mounts_in_compose_file-bind_line_example =
    validate_bind_mounts_in_compose_file-bind_line machine (codes "prod/web") stack
      (codes "compose.yaml") head (codes "  ") b' ' (codes " ") here b'c' (codes "onf")
      (codes "/etc\n  - ../up:/x") same_file refl refl refl
