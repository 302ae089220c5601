-- ===== src/Registry/Tests.antt =====
-- References of images at concrete texts.
use dockform.Base.Trim.{trim_space}
use dockform.Base.{◌≡◌, refl, []}
use dockform.Base.Text.{codes, text_eq, text_beq}
use dockform.Base.Result.{ok}
use dockform.Registry.{
  ImageRef, default_registry, string, full_name, split_tag, cut_last, split, looks_like_registry,
  parse_image_ref,
}
use dockform.Registry.RoundTrip.{IsValid, parse_image_ref-string}

abbrev nginx : ImageRef
nginx = record {
  registry = default_registry;
  namespace = codes "library";
  name = codes "nginx";
  tag = codes "1.25";
}

abbrev with_port : ImageRef
with_port = record {
  registry = codes "r.io:5000";
  namespace = [];
  name = codes "foo";
  tag = codes "1.0";
}

short_name : parse_image_ref (codes "nginx:1.25") ≡ ok nginx
unfolding parse_image_ref split_tag cut_last split text_beq trim_space
short_name = refl

port_name : parse_image_ref (codes " r.io:5000/foo:1.0 ") ≡ ok with_port
unfolding parse_image_ref split_tag cut_last split text_beq looks_like_registry trim_space
port_name = refl

-- A reference by digest is cut at the colon of the digest.
digest_name :
    parse_image_ref (codes "nginx@sha256:ab")
    ≡ ok (record nginx { name = codes "nginx@sha256"; tag = codes "ab" })
unfolding parse_image_ref split_tag cut_last split text_beq trim_space
digest_name = refl

with_port-IsValid : IsValid with_port
unfolding text_beq looks_like_registry string full_name trim_space
with_port-IsValid = record {
  registry_slash = refl;
  registry_host = λ _. refl;
  name_given = refl;
  name_slash = refl;
  tag_given = refl;
  tag_slash = refl;
  tag_colon = refl;
  trimmed = refl;
}

parse_image_ref-string_example : parse_image_ref (string with_port) ≡ ok with_port
parse_image_ref-string_example = parse_image_ref-string with_port with_port-IsValid
