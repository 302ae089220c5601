-- ===== src/Registry.antt =====
-- internal/registry/registry.go: references of images. The HTTP client of a registry is not part of
-- the model.
pub mod RoundTrip
mod Tests
use dockform.Base.{
  ℕ, Bool, ◌||◌, Option, none, some, List, [], ◌∷◌, ◌++◌, ◌==◌, nat_eq, if◌then◌else◌, contains,
}
use dockform.Base.Text.{Text, codes, text_eq}
use dockform.Base.Trim.{trim_space}
use dockform.Base.Result.{Result, ok, err, ◌>>=◌}
use dockform.Apperr.{Err, invalid_input, new}

pub record ImageRef : Type 0 where
  pub registry : Text
  pub namespace : Text
  pub name : Text
  pub tag : Text

abbrev pub default_registry : Text
default_registry = codes "registry-1.docker.io"

unfoldable pub full_name : ImageRef → Text
full_name r = if r.namespace == [] then r.name else r.namespace ++ (b'/' ∷ r.name)

-- `ImageRef.String`
unfoldable pub string : ImageRef → Text
unfolding full_name
string r =
    let s = r.registry ++ (b'/' ∷ full_name r) in if r.tag == [] then s else s ++ (b':' ∷ r.tag)

-- `strings.LastIndex(s, sep)` for a separator of one byte: what is before it and after it.
unfoldable pub cut_last : ℕ → Text → Option (Text × Text)
cut_last sep [] = none
cut_last sep (c ∷ s) = elim (cut_last sep s) [
  | some (before, after) ↦ some (c ∷ before, after)
  | none ↦ if c == sep then some ([], s) else none
]

-- What the last slash leaves before it, and after it the name with the tag.
abbrev pub name_and_tag : Text → Option (Text × Text) → Text × Text
name_and_tag raw (some (before, after)) = (before ++ (b'/' ∷ []), after)
name_and_tag raw none = ([], raw)

abbrev pub tag_or_latest : Text → Text → Option (Text × Text) → Text × Text
tag_or_latest raw path (some (before, tag)) = (path ++ before, tag)
tag_or_latest raw path none = (raw, codes "latest")

-- The reference without its tag, and the tag.
unfoldable pub split_tag : Text → Text × Text
unfolding cut_last
split_tag raw =
    let (path, last) = name_and_tag raw (cut_last b'/' raw) in
    tag_or_latest raw path (cut_last b':' last)

abbrev pub add_to_first : ℕ → List Text → List Text
add_to_first c [] = (c ∷ []) ∷ []
add_to_first c (p ∷ ps) = (c ∷ p) ∷ ps

-- `strings.Split` at a separator of one byte
unfoldable pub split : ℕ → Text → List Text
split sep [] = [] ∷ []
split sep (c ∷ s) = let rest = split sep s in if c == sep then [] ∷ rest else add_to_first c rest

-- `strings.Join(parts[:len(parts)-1], "/")`, and the last part.
abbrev pub join_init : Text → List Text → Text × Text
join_init p [] = ([], p)
join_init p (q ∷ []) = (p, q)
join_init p (q ∷ r ∷ ps) = let (n, last) = join_init q (r ∷ ps) in (p ++ (b'/' ∷ n), last)

unfoldable pub looks_like_registry : Text → Bool
looks_like_registry s = contains s b'.' || contains s b':'

abbrev pub at_default : Text → Text → Text → ImageRef
at_default namespace name tag = record {
  registry = default_registry;
  namespace = namespace;
  name = name;
  tag = tag;
}

abbrev pub deep_ref : Text → Text × Text → Text → ImageRef
deep_ref registry (namespace, name) tag = record {
  registry = registry;
  namespace = namespace;
  name = name;
  tag = tag;
}

abbrev parse_op : Text
parse_op = codes "registry.ParseImageRef"

abbrev invalid : Text → Result Err ImageRef
invalid msg = err (new parse_op invalid_input msg)

abbrev pub ref_of : Text → List Text → Text → Result Err ImageRef
ref_of raw [] tag = invalid (codes "cannot parse image reference: " ++ raw)
ref_of raw (p ∷ []) tag = ok (at_default (codes "library") p tag)
ref_of raw (p ∷ q ∷ []) tag =
    if looks_like_registry p
    then ok (record { registry = p; namespace = []; name = q; tag = tag })
    else ok (at_default p q tag)
ref_of raw (p ∷ q ∷ r ∷ ps) tag = ok (deep_ref p (join_init q (r ∷ ps)) tag)

abbrev pub named : ImageRef → Result Err ImageRef
named r = if r.name == [] then invalid (codes "image name cannot be empty") else ok r

abbrev pub parse_tagged : Text × Text → Result Err ImageRef
parse_tagged (path, tag) =
    if tag == []
    then invalid (codes "image tag cannot be empty")
    else ref_of path (split b'/' path) tag >>= named

abbrev pub parse_trimmed : Text → Result Err ImageRef
parse_trimmed trimmed =
    if trimmed == []
    then invalid (codes "image reference cannot be empty")
    else parse_tagged (split_tag trimmed)

unfoldable pub parse_image_ref : Text → Result Err ImageRef
unfolding split_tag split looks_like_registry
parse_image_ref raw = parse_trimmed (trim_space raw)

abbrev has_prefix : Text → Text → Bool
has_prefix [] s = Bool.true
has_prefix (c ∷ p) [] = Bool.false
has_prefix (c ∷ p) (d ∷ s) = if c == d then has_prefix p s else Bool.false

-- `strings.TrimRight(s, "/")`
abbrev trim_slashes : Text → Text
trim_slashes [] = []
trim_slashes (c ∷ s) = elim (trim_slashes s) [
  | [] ↦ if c == b'/' then [] else c ∷ []
  | d ∷ rest ↦ c ∷ d ∷ rest
]

unfoldable registry_url : Text → Text
registry_url registry =
    if has_prefix (codes "http://") registry || has_prefix (codes "https://") registry
    then trim_slashes registry
    else if registry == default_registry
    then codes "https://registry-1.docker.io"
    else codes "https://" ++ registry
