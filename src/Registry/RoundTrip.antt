-- ===== src/Registry/RoundTrip.antt =====
-- A reference of an image that is written out and parsed again.
use dockform.Base.{
  ℕ, ◌≡◌, refl, sym, ◌∙◌, ap, Bool, true, false, none, some, List, [], ◌∷◌, ◌++◌, ◌==◌, nat_eq,
  arith, if◌then◌else◌, contains, contains-append, Bool-cases, nat_beq_iff, inl, inr,
}
use mathlib.Core.List.{append_assoc}
use dockform.Base.Text.{Text, text_eq, text_beq, text_beq_iff}
use dockform.Base.Trim.{trim_space}
use dockform.Base.Result.{ok, ◌>>=◌}
use dockform.Registry.{
  ImageRef, full_name, string, cut_last, name_and_tag, tag_or_latest, split_tag, split, join_init,
  looks_like_registry, ref_of, named, parse_tagged, parse_trimmed, parse_image_ref, deep_ref,
}

cut_last-absent : (sep : ℕ) (s : Text) → contains s sep ≡ false → cut_last sep s ≡ none
unfolding cut_last
cut_last-absent sep [] h = refl
cut_last-absent sep (c ∷ s) h = ground (arith, cut_last-absent sep s)

-- A separator that does not stand in the second text cuts before it.
cut_last-append :
    (sep : ℕ) (before after : Text)
    → contains after sep ≡ false
    → cut_last sep (before ++ (sep ∷ after)) ≡ some (before, after)
unfolding cut_last
cut_last-append sep [] after h = ground (arith, cut_last-absent sep after h)
cut_last-append sep (c ∷ before) after h = ground (arith, cut_last-append sep before after h)

split-absent : (sep : ℕ) (s : Text) → contains s sep ≡ false → split sep s ≡ s ∷ []
unfolding split
split-absent sep [] h = refl
split-absent sep (c ∷ s) h = ground (arith, split-absent sep s)

split-append :
    (sep : ℕ) (before after : Text)
    → contains before sep ≡ false
    → split sep (before ++ (sep ∷ after)) ≡ before ∷ split sep after
unfolding split
split-append sep [] after h = ground arith
split-append sep (c ∷ before) after h = ground (arith, split-append sep before after)

join_init-cons :
    (c : ℕ) (p x : Text) (ps : List Text) (n last : Text)
    → join_init p (x ∷ ps) ≡ (n, last)
    → join_init (c ∷ p) (x ∷ ps) ≡ (c ∷ n, last)
join_init-cons c p x [] n last h = cc
join_init-cons c p x (y ∷ ps) n last h = ap (λ x. (c ∷ x.0, x.1)) h

-- A path with a last part: at least two parts, which give it back.
split-join_init :
    (before name : Text)
    → contains name b'/' ≡ false
    → (q : Text) × (r : Text) × (ps : List Text) × (split b'/' (before ++ (b'/' ∷ name))
        ≡ q ∷ r ∷ ps)
      × (join_init q (r ∷ ps) ≡ (before, name))
unfolding split
split-join_init [] name h = ([], name, [], ground (arith, split-absent b'/' name h), refl)
split-join_init (c ∷ before) name h =
    let (q, r, ps, parts, joined) = split-join_init before name h in
    elim (Bool-cases (c == b'/')) [
      | inl slash ↦ (
        [],
        q,
        r ∷ ps,
        rw (slash, parts) refl,
        (ap (λ (x : Text × Text). (b'/' ∷ x.0, x.1)) joined
            ∙ ap (λ d. (d ∷ before, name)) (sym ((nat_beq_iff c b'/').0 slash))),
      )
      | inr other ↦
          (c ∷ q, r, ps, rw (other, parts) refl, join_init-cons c q r ps before name joined)
    ]

-- A reference that is written out as it is parsed: its parts stand where they are looked for.
pub record IsValid (r : ImageRef) : Type 0 where
  pub registry_slash : contains r.registry b'/' ≡ false
  pub registry_host : (r.namespace == []) ≡ true → looks_like_registry r.registry ≡ true
  pub name_given : (r.name == []) ≡ false
  pub name_slash : contains r.name b'/' ≡ false
  pub tag_given : (r.tag == []) ≡ false
  pub tag_slash : contains r.tag b'/' ≡ false
  pub tag_colon : contains r.tag b':' ≡ false
  pub trimmed : trim_space (string r) ≡ string r

-- The tag after the last colon behind the last slash.
split_tag-append :
    (before name tag : Text)
    → contains name b'/' ≡ false
    → contains tag b'/' ≡ false
    → contains tag b':' ≡ false
    → split_tag (before ++ (b'/' ∷ (name ++ (b':' ∷ tag)))) ≡ ((before ++ (b'/' ∷ [])) ++ name, tag)
unfolding split_tag
split_tag-append before name tag n s c =
    let last =
      cut_last-append b'/' before (name ++ (b':' ∷ tag))
        (contains-append name (b':' ∷ tag) b'/' ∙ ground (arith, n, s)) in
    let raw = before ++ (b'/' ∷ (name ++ (b':' ∷ tag))) in
    ap (λ o. tag_or_latest raw (name_and_tag raw o).0 (cut_last b':' (name_and_tag raw o).1)) last
    ∙ ap (tag_or_latest raw (before ++ (b'/' ∷ []))) (cut_last-append b':' name tag c)

append-given : (s : Text) (c : ℕ) (t : Text) → ((s ++ (c ∷ t)) == []) ≡ false
unfolding text_beq
append-given [] c t = refl
append-given (d ∷ s) c t = refl

else_of {ℓ} : {A : Type ℓ} (test : Bool) (x y : A) → test ≡ false → (if test then x else y) ≡ y
else_of test x y h = rw h refl

then_of {ℓ} : {A : Type ℓ} (test : Bool) (x y : A) → test ≡ true → (if test then x else y) ≡ x
then_of test x y h = rw h refl

module _ (r : ImageRef) (v : IsValid r) where
  -- What stands before the last slash.
  abbrev before_name : Text
  before_name = if r.namespace == [] then r.registry else r.registry ++ (b'/' ∷ r.namespace)

  full_name-bare : (r.namespace == []) ≡ true → full_name r ≡ r.name
  unfolding full_name
  full_name-bare bare = ground (arith, bare)

  full_name-deep : (r.namespace == []) ≡ false → full_name r ≡ r.namespace ++ (b'/' ∷ r.name)
  unfolding full_name
  full_name-deep deep = ground (arith, deep)

  string-tagged : string r ≡ (r.registry ++ (b'/' ∷ full_name r)) ++ (b':' ∷ r.tag)
  unfolding string
  string-tagged = ground (arith, v.tag_given)

  before_name-full_name : before_name ++ (b'/' ∷ r.name) ≡ r.registry ++ (b'/' ∷ full_name r)
  before_name-full_name = elim (Bool-cases (r.namespace == [])) [
    | inl bare ↦ rw (bare, full_name-bare bare) refl
    | inr deep ↦
        rw (deep, full_name-deep deep)
          (append_assoc r.registry (b'/' ∷ r.namespace) (b'/' ∷ r.name))
  ]

  string_parts : string r ≡ before_name ++ (b'/' ∷ (r.name ++ (b':' ∷ r.tag)))
  string_parts =
      string-tagged
      ∙ ap (λ t. t ++ (b':' ∷ r.tag)) (sym before_name-full_name)
      ∙ append_assoc before_name (b'/' ∷ r.name) (b':' ∷ r.tag)

  path_parts : (before_name ++ (b'/' ∷ [])) ++ r.name ≡ r.registry ++ (b'/' ∷ full_name r)
  path_parts = append_assoc before_name (b'/' ∷ []) r.name ∙ before_name-full_name

  split_name :
      (raw : Text) → ref_of raw (split b'/' (r.registry ++ (b'/' ∷ full_name r))) r.tag ≡ ok r
  split_name raw =
      let first = split-append b'/' r.registry (full_name r) v.registry_slash in
      elim (Bool-cases (r.namespace == [])) [
        | inl bare ↦
            let parts : split b'/' (r.registry ++ (b'/' ∷ full_name r)) ≡ r.registry ∷ r.name ∷ [] =
              first
              ∙ ap (λ n. r.registry ∷ split b'/' n) (full_name-bare bare)
              ∙ ap (λ l. r.registry ∷ l) (split-absent b'/' r.name v.name_slash) in
            let empty : r.namespace ≡ [] = (text_beq_iff r.namespace []).0 bare in
            ap (λ l. ref_of raw l r.tag) parts
            ∙ then_of (looks_like_registry r.registry) _ _ (v.registry_host bare)
            ∙ ap (λ n. ok (record r { namespace = n })) (sym empty)
        | inr deep ↦
            let (q, x, ps, parts, joined) = split-join_init r.namespace r.name v.name_slash in
            ap (λ l. ref_of raw l r.tag)
              (first
                ∙ ap (λ n. r.registry ∷ split b'/' n) (full_name-deep deep)
                ∙ ap (λ l. r.registry ∷ l) parts)
            ∙ ap (λ n. ok (deep_ref r.registry n r.tag)) joined
      ]

-- A valid reference that is written out is parsed back. Its registry and its name hold no slash,
-- its tag neither slash nor colon, name and tag are not empty, no white space stands around it, and
-- a registry with no namespace below it has a dot or a colon.
pub parse_image_ref-string : (r : ImageRef) → IsValid r → parse_image_ref (string r) ≡ ok r
unfolding parse_image_ref
parse_image_ref-string r v =
    let path = (before_name r v ++ (b'/' ∷ [])) ++ r.name in
    let parts =
      ap split_tag (string_parts r v)
      ∙ split_tag-append (before_name r v) r.name r.tag v.name_slash v.tag_slash v.tag_colon in
    let given : (string r == []) ≡ false =
      ap (λ t. t == []) (string_parts r v) ∙ append-given (before_name r v) b'/' _ in
    ap parse_trimmed v.trimmed
    ∙ else_of (string r == []) _ (parse_tagged (split_tag (string r))) given
    ∙ ap parse_tagged parts
    ∙ else_of (r.tag == []) _ (ref_of path (split b'/' path) r.tag >>= named) v.tag_given
    ∙ ap (λ x. x >>= named)
        (ap (λ t. ref_of path (split b'/' t) r.tag) (path_parts r v) ∙ split_name r v path)
    ∙ else_of (r.name == []) _ (ok r) v.name_given
