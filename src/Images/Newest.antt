-- ===== src/Images/Newest.antt =====
-- internal/images/check.go: the first of the newer tags.
use dockform.Base.{
  ◌≡◌, refl, sym, ◌∙◌, ap, Bool, true, false, Option, none, some, List, [], ◌∷◌, ◌==◌, arith, All,
  All-map, contains, if◌then◌else◌, Bool-cases, Option-cases, inl, inr,
}
use mathlib.Core.Path.{subst}
use dockform.Base.Text.{Text, text_eq, text_beq_iff}
use dockform.Base.Result.{Result, ok, err}
use dockform.Apperr.{Err}
use dockform.Registry.{ImageRef}
use dockform.Images.{
  Versions, Images, Tagged, add_newer, candidates, place_newest, newest_first, tags_of, choose,
  newer_than, find_newer_tags,
}

-- The comparison of versions is a strict weak order.
pub record IsOrdered (V : Versions) : Type 0 where
  pub asymm : (a b : V.Version) → V.greater_than a b ≡ true → V.greater_than b a ≡ false
  pub level :
      (a b c : V.Version)
      → V.greater_than a b ≡ false
      → V.greater_than b c ≡ false
      → V.greater_than a c ≡ false

-- What it means that a tag is the newest of its kind.
pub record IsNewest (V : Versions) (I : Images) (ref : ImageRef) (pattern t : Text) : Type 0 where
  pub current : V.Version
  pub matches : Text → Bool
  pub tags : List Text
  pub version : V.Version
  pub is_current : V.new_version ref.tag ≡ some current
  pub compiled : V.compile pattern ≡ ok matches
  pub listed : I.list_tags ref ≡ ok tags
  pub is_listed : contains tags t ≡ true
  pub is_matching : matches t ≡ true
  pub is_version : V.new_version t ≡ some version
  pub is_newer : V.greater_than version current ≡ true
  pub is_newest :
      (u : Text) (v : V.Version)
      → contains tags u ≡ true
      → matches u ≡ true
      → V.new_version u ≡ some v
      → V.greater_than v version ≡ false

module _ (V : Versions) (ordered : IsOrdered V) where
  abbrev Below : Tagged V → Tagged V → Type 0
  Below y x = V.greater_than x.1 y.1 ≡ false

  irrefl : (a : V.Version) → V.greater_than a a ≡ false
  irrefl a = elim (Bool-cases (V.greater_than a a)) [
    | inl above ↦ ordered.asymm a a above
    | inr level ↦ level
  ]

  -- What is the head after one more place is taken: none is greater, and what holds of all holds
  -- of it.
  place_newest-head :
      (P : Tagged V → Type 0) (x y : Tagged V) (xs r ys : List (Tagged V))
      → ((z : Tagged V) (zs : List (Tagged V)) → r ≡ z ∷ zs → P z × All (Below z) xs)
      → (r ≡ [] → xs ≡ [])
      → place_newest V x r ≡ y ∷ ys
      → P x
      → P y × All (Below y) (x ∷ xs)
  unfolding place_newest
  place_newest-head P x y xs [] ys ih bare e px =
      let same : x ≡ y = ground (arith, e) in
      subst (λ t. P t × All (Below t) (x ∷ xs)) same
        (px, (irrefl x.1, subst (λ l. All (Below x) l) (sym (bare refl)) tt))
  place_newest-head P x y xs (z ∷ zs) ys ih bare e px =
      let (pz, below) = ih z zs refl in
      elim (Bool-cases (V.greater_than z.1 x.1)) [
        | inl later ↦
            let same : z ≡ y = ground (arith, e, later) in
            subst (λ t. P t × All (Below t) (x ∷ xs)) same
              (pz, (ordered.asymm z.1 x.1 later, below))
        | inr here ↦
            let same : x ≡ y = ground (arith, e, here) in
            subst (λ t. P t × All (Below t) (x ∷ xs)) same
              (
                px,
                (
                  irrefl x.1,
                  All-map (Below z) (Below x) (λ u h. ordered.level u.1 z.1 x.1 h here) xs below,
                ),
              )
      ]

  place_newest-given : (x : Tagged V) (r : List (Tagged V)) → place_newest V x r ≡ [] → ⊥
  unfolding place_newest
  place_newest-given x [] e = cc
  place_newest-given x (z ∷ zs) e = elim (Bool-cases (V.greater_than z.1 x.1)) [
    | inl later ↦ ground (arith, e, later)
    | inr here ↦ ground (arith, e, here)
  ]

  newest_first-bare : (xs : List (Tagged V)) → newest_first V xs ≡ [] → xs ≡ []
  unfolding newest_first
  newest_first-bare [] e = refl
  newest_first-bare (x ∷ xs) e = absurd (place_newest-given x (newest_first V xs) e)

  newest_first-head :
      (P : Tagged V → Type 0) (xs ys : List (Tagged V)) (y : Tagged V)
      → newest_first V xs ≡ y ∷ ys
      → All P xs
      → P y × All (Below y) xs
  unfolding newest_first
  newest_first-head P [] ys y e all = cc
  newest_first-head P (x ∷ xs) ys y e all =
      place_newest-head P x y xs (newest_first V xs) ys
        (λ z zs e'. newest_first-head P xs zs z e' all.1) (newest_first-bare xs) e all.0

  module _ (matches : Text → Bool) (current : V.Version) where
    -- What every candidate is.
    pub record IsCandidate (tags : List Text) (x : Tagged V) : Type 0 where
      pub there : contains tags x.0 ≡ true
      pub fits : matches x.0 ≡ true
      pub parsed : V.new_version x.0 ≡ some x.1
      pub newer : V.greater_than x.1 current ≡ true

    later_tag :
        (t : Text) (ts : List Text) (x : Tagged V) → IsCandidate ts x → IsCandidate (t ∷ ts) x
    later_tag t ts x c = record {
      there = ground (arith, c.there);
      fits = c.fits;
      parsed = c.parsed;
      newer = c.newer;
    }

    candidates-IsCandidate :
        (ts : List Text) → All (IsCandidate ts) (candidates V matches current ts)
    unfolding candidates
    candidates-IsCandidate [] = tt
    candidates-IsCandidate (t ∷ ts) =
        let rest =
          All-map (IsCandidate ts) (IsCandidate (t ∷ ts)) (later_tag t ts)
            (candidates V matches current ts) (candidates-IsCandidate ts) in
        elim (Bool-cases (matches t)) [
          | inr other ↦ rw other rest
          | inl fits ↦ elim (Option-cases (V.new_version t)) [
            | inl none' ↦ rw (fits, none') rest
            | inr (v, parsed) ↦ elim (Bool-cases (V.greater_than v current)) [
              | inr old ↦ rw (fits, parsed, old) rest
              | inl newer ↦
                  rw (fits, parsed, newer)
                    (
                      record {
                        there = ground (arith, text_beq_iff t t);
                        fits = fits;
                        parsed = parsed;
                        newer = newer;
                      },
                      rest,
                    )
            ]
          ]
        ]

    All-older :
        (P : Tagged V → Type 0) (t : Text) (fits : Bool) (o : Option V.Version)
        (rest : List (Tagged V))
        → All P (if fits then add_newer V t current o rest else rest)
        → All P rest
    All-older P t false o rest all = all
    All-older P t true none rest all = all
    All-older P t true (some v) rest all = elim (Bool-cases (V.greater_than v current)) [
      | inl newer ↦
          let e : add_newer V t current (some v) rest ≡ (t, v) ∷ rest = rw newer refl in
          (subst (λ l. All P l) e all).1
      | inr old ↦
          let e : add_newer V t current (some v) rest ≡ rest = rw old refl in
          subst (λ l. All P l) e all
    ]

    candidate_here :
        (t : Text) (v : V.Version) (ts : List Text)
        → matches t ≡ true
        → V.new_version t ≡ some v
        → V.greater_than v current ≡ true
        → candidates V matches current (t ∷ ts) ≡ (t, v) ∷ candidates V matches current ts
    unfolding candidates
    candidate_here t v ts fits parsed newer = rw (fits, parsed, newer) refl

    -- Every newer tag that matches is a candidate.
    All-candidates :
        (P : Tagged V → Type 0) (u : Text) (v : V.Version) (ts : List Text)
        → All P (candidates V matches current ts)
        → contains ts u ≡ true
        → matches u ≡ true
        → V.new_version u ≡ some v
        → V.greater_than v current ≡ true
        → P (u, v)
    unfolding candidates
    All-candidates P u v [] all there fits parsed newer = cc
    All-candidates P u v (t ∷ ts) all there fits parsed newer = elim (Bool-cases (t == u)) [
      | inl same ↦
          let e : t ≡ u = (text_beq_iff t u).0 same in
          let here =
            candidate_here t v ts (ap matches e ∙ fits) (ap V.new_version e ∙ parsed) newer in
          subst (λ x. P (x, v)) e (subst (λ l. All P l) here all).0
      | inr other ↦
          All-candidates P u v ts
            (All-older P t (matches t) (V.new_version t) (candidates V matches current ts) all)
            (ground (arith, there, other)) fits parsed newer
    ]

tags_head :
    (V : Versions) (xs : List (Tagged V)) (t : Text) (ts : List Text)
    → tags_of V xs ≡ t ∷ ts
    → (y : Tagged V) × (ys : List (Tagged V)) × (xs ≡ y ∷ ys) × (y.0 ≡ t)
tags_head V [] t ts e = cc
tags_head V (y ∷ ys) t ts e = (y, ys, refl, ground (arith, e))

module _ (V : Versions) (ordered : IsOrdered V) (I : Images) (ref : ImageRef) (pattern t : Text)
    (ts : List Text) where
  choose-IsNewest :
      (current : V.Version) (compiled : Result Err (Text → Bool)) (listed : Result Err (List Text))
      → V.new_version ref.tag ≡ some current
      → V.compile pattern ≡ compiled
      → I.list_tags ref ≡ listed
      → choose V current compiled listed ≡ ok (t ∷ ts)
      → IsNewest V I ref pattern t
  choose-IsNewest current (err e) listed c m l h = cc
  choose-IsNewest current (ok matches) (err e) c m l h = cc
  choose-IsNewest current (ok matches) (ok tags) c m l h =
      let all = candidates V matches current tags in
      let out : tags_of V (newest_first V all) ≡ t ∷ ts = cc in
      let (y, ys, e, same) = tags_head V (newest_first V all) t ts out in
      let (is, below) =
        newest_first-head V ordered (IsCandidate V ordered matches current tags) all ys y e
          (candidates-IsCandidate V ordered matches current tags) in
      subst (λ x. IsNewest V I ref pattern x) same
        (record {
          current = current;
          matches = matches;
          tags = tags;
          version = y.1;
          is_current = c;
          compiled = m;
          listed = l;
          is_listed = is.there;
          is_matching = is.fits;
          is_version = is.parsed;
          is_newer = is.newer;
          is_newest = λ u v there fits parsed. elim (Bool-cases (V.greater_than v current)) [
            | inl newer ↦
                All-candidates V ordered matches current (λ x. V.greater_than x.1 y.1 ≡ false) u v
                  tags below there fits parsed newer
            | inr old ↦ ordered.level v current y.1 old (ordered.asymm y.1 current is.newer)
          ];
        })

  newer_than-IsNewest :
      (o : Option V.Version)
      → V.new_version ref.tag ≡ o
      → newer_than V I o ref pattern ≡ ok (t ∷ ts)
      → IsNewest V I ref pattern t
  newer_than-IsNewest none c h = cc
  newer_than-IsNewest (some current) c h =
      choose-IsNewest current (V.compile pattern) (I.list_tags ref) c refl refl h

  -- Where the comparison of versions is a strict weak order, the first of the newer tags, the one
  -- that an upgrade takes, is a listed tag that matches the pattern and is a version above the
  -- current one, and no listed tag that matches is above it.
  pub find_newer_tags-IsNewest :
      find_newer_tags V I ref pattern ≡ ok (t ∷ ts) → IsNewest V I ref pattern t
  unfolding find_newer_tags
  find_newer_tags-IsNewest h = newer_than-IsNewest (V.new_version ref.tag) refl h
