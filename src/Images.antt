-- ===== src/Images.antt =====
-- internal/images/check.go, types.go: images against their registry. The registry, the digests of
-- the daemon, the semantic versions and the regular expressions are parameters.
pub mod Newest
pub mod Upgrade
mod Tests
use dockform.Base.{
  Bool, true, false, not, ◌&&◌, Option, none, some, List, [], ◌∷◌, ◌++◌, ◌==◌, if◌then◌else◌, map,
}
use dockform.Base.Text.{Text, codes, text_eq}
use dockform.Base.Dict.{Dict, lookup}
use dockform.Base.Sort.{sort_by}
use dockform.Base.Result.{Result, ok, err}
use dockform.Apperr.{Err, message}
use dockform.Registry.{ImageRef, parse_image_ref}

pub record ImageStatus : Type 0 where
  pub stack : Text
  pub service : Text
  pub image : Text
  pub current_tag : Text
  pub digest_stale : Bool
  pub newer_tags : List Text
  pub has_tag_pattern : Bool
  pub error : Text

pub record ServiceSpec : Type 0 where
  pub image : Text
  pub tag_pattern : Text

pub record CheckInput : Type 0 where
  pub stack_key : Text
  pub services : Dict Text ServiceSpec

-- The interface `Registry`, and `LocalDigestFunc`.
pub record Images : Type 0 where
  pub list_tags : ImageRef → Result Err (List Text)
  pub get_remote_digest : ImageRef → Text → Result Err Text
  pub local_digest : Text → Text → Text → Result Err Text

-- What the packages semver and regexp do.
pub record Versions : Type 1 where
  pub Version : Type 0
  pub new_version : Text → Option Version
  pub greater_than : Version → Version → Bool
  pub compile : Text → Result Err (Text → Bool)

module _ (V : Versions) where
  abbrev pub Tagged : Type 0
  Tagged = Text × V.Version

  abbrev pub add_newer : Text → V.Version → Option V.Version → List Tagged → List Tagged
  add_newer t current none rest = rest
  add_newer t current (some v) rest = if V.greater_than v current then (t, v) ∷ rest else rest

  -- The tags that match and are newer.
  unfoldable pub candidates : (Text → Bool) → V.Version → List Text → List Tagged
  candidates matches current [] = []
  candidates matches current (t ∷ ts) =
      let rest = candidates matches current ts in
      if matches t then add_newer t current (V.new_version t) rest else rest

  unfoldable pub place_newest : Tagged → List Tagged → List Tagged
  place_newest x [] = x ∷ []
  place_newest x (y ∷ ys) =
      let rest = place_newest x ys in if V.greater_than y.1 x.1 then y ∷ rest else x ∷ y ∷ ys

  -- `sort.Slice` by `GreaterThan`
  unfoldable pub newest_first : List Tagged → List Tagged
  unfolding place_newest
  newest_first [] = []
  newest_first (x ∷ xs) = place_newest x (newest_first xs)

  abbrev pub tags_of : List Tagged → List Text
  tags_of = map (λ x. x.0)

  abbrev pub choose :
      V.Version → Result Err (Text → Bool) → Result Err (List Text) → Result Err (List Text)
  choose current (err e) tags = err e
  choose current (ok matches) (err e) = err e
  choose current (ok matches) (ok tags) =
      ok (tags_of (newest_first (candidates matches current tags)))

  module _ (I : Images) where
    -- A tag that is no version is not compared.
    abbrev pub newer_than : Option V.Version → ImageRef → Text → Result Err (List Text)
    newer_than none ref pattern = ok []
    newer_than (some current) ref pattern = choose current (V.compile pattern) (I.list_tags ref)

    unfoldable pub find_newer_tags : ImageRef → Text → Result Err (List Text)
    unfolding candidates newest_first
    find_newer_tags ref pattern = newer_than (V.new_version ref.tag) ref pattern

    abbrev failed : Err → ImageStatus → ImageStatus
    failed e st = record st { error = message e }

    abbrev with_tags : Result Err (List Text) → ImageStatus → ImageStatus
    with_tags (err e) st = failed e st
    with_tags (ok tags) st = record st { newer_tags = tags }

    abbrev compare_tags : ImageRef → Text → ImageStatus → ImageStatus
    compare_tags ref pattern st =
        if pattern == [] then st else with_tags (find_newer_tags ref pattern) st

    abbrev compare_digests :
        ImageRef → Text → Result Err Text → Result Err Text → ImageStatus → ImageStatus
    compare_digests ref pattern (err e) here st = failed e st
    compare_digests ref pattern (ok remote) (err e) st = failed e st
    compare_digests ref pattern (ok remote) (ok here) st =
        compare_tags ref pattern (record st { digest_stale = not (remote == here) })

    abbrev check_parsed : Result Err ImageRef → Text → ImageStatus → ImageStatus
    check_parsed (err e) pattern st = failed e st
    check_parsed (ok ref) pattern st =
        compare_digests ref pattern (I.get_remote_digest ref ref.tag)
          (I.local_digest st.stack st.service st.image) (record st { current_tag = ref.tag })

    unfoldable pub check_image : Text → Text → Text → Text → ImageStatus
    unfolding find_newer_tags
    check_image stack_key service image pattern =
        check_parsed (parse_image_ref image) pattern (record {
          stack = stack_key;
          service = service;
          image = image;
          current_tag = [];
          digest_stale = false;
          newer_tags = [];
          has_tag_pattern = not (pattern == []);
          error = [];
        })

    unfoldable check_services : Text → Dict Text ServiceSpec → List ImageStatus
    unfolding check_image
    check_services stack_key [] = []
    check_services stack_key ((name, spec) ∷ d) =
        check_image stack_key name spec.image spec.tag_pattern ∷ check_services stack_key d

    -- The stacks in their order, the services of each by name. Each goroutine writes its own place
    -- of the results and reads no other, so that their order does not show.
    unfoldable check : List CheckInput → List ImageStatus
    unfolding check_services
    check [] = []
    check (input ∷ inputs) =
        check_services input.stack_key (sort_by (λ e. e.0) input.services) ++ check inputs
