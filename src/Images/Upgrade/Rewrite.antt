-- ===== src/Images/Upgrade/Rewrite.antt =====
-- internal/images/upgrade.go: what a rewrite does to an image that only begins like the old one.
use dockform.Base.{
  zero, ◌-◌, ◌≡◌, refl, ◌∙◌, ap, Bool, true, false, not, ◌&&◌, [], ◌∷◌, ◌++◌, ◌==◌, nat_eq, nat_beq,
  nat_beq_iff, arith, length, if◌then◌else◌,
}
use dockform.Base.Text.{Text, text_eq, text_beq_iff}
use dockform.Base.Result.{ok}
use dockform.Images.Upgrade.{
  has_prefix, replace_from, replace_all, FileSystem, written, rewrite_content,
  rewrite_image_in_file,
}

has_prefix-append : (p s : Text) → has_prefix p (p ++ s) ≡ true
has_prefix-append [] s = refl
has_prefix-append (c ∷ p) s = ground (arith, has_prefix-append p s, nat_beq_iff c c)

replace_from-append :
    (old new p s : Text) → replace_from old new (length p) (p ++ s) ≡ replace_from old new zero s
unfolding replace_from
replace_from-append old new [] s = refl
replace_from-append old new (c ∷ p) s = replace_from-append old new p s

-- An occurrence at the start is replaced, whatever follows it.
replace_all-append :
    (old new s : Text)
    → (old == []) ≡ false
    → replace_all old new (old ++ s) ≡ new ++ replace_all old new s
unfolding replace_all
replace_all-append [] new s given = absurd (ground (arith, given, text_beq_iff [] []))
replace_all-append (c ∷ old) new s given =
    let rest : length (c ∷ old) - 1 ≡ length old = omega arith in
    let first : nat_beq c c ≡ true = (nat_beq_iff c c).1 refl in
    rw (first, has_prefix-append old s, rest, replace_from)
      (ap (λ t. new ++ t) (replace_from-append (c ∷ old) new old s))

-- The old image begins nowhere within the first text.
abbrev pub begins_later : Text → Text → Text → Bool
begins_later old [] rest = true
begins_later old (c ∷ before) rest =
    not (has_prefix old (c ∷ (before ++ rest))) && begins_later old before rest

replace_from-before :
    (old new before rest : Text)
    → begins_later old before rest ≡ true
    → replace_from old new zero (before ++ rest) ≡ before ++ replace_from old new zero rest
unfolding replace_from
replace_from-before old new [] rest h = refl
replace_from-before old new (c ∷ before) rest h =
    let here : has_prefix old (c ∷ (before ++ rest)) ≡ false = ground (arith, h) in
    rw (here, replace_from)
      (ap (λ t. c ∷ t) (replace_from-before old new before rest (ground (arith, h))))

replace_all-before :
    (old new before rest : Text)
    → (old == []) ≡ false
    → begins_later old before rest ≡ true
    → replace_all old new (before ++ rest) ≡ before ++ replace_all old new rest
unfolding replace_all
replace_all-before [] new before rest given h = absurd (ground (arith, given, text_beq_iff [] []))
replace_all-before (c ∷ old) new before rest given h =
    replace_from-before (c ∷ old) new before rest h

-- In a file whose text holds the old image, which begins nowhere before, with any text after it,
-- be it more of a longer tag, the rewrite that changes something puts the new image in its place
-- and leaves what follows to the next occurrences.
pub rewrite_image_in_file-replace_all :
    (F : FileSystem) (path old new before after : Text) (w : F.Files)
    → (old == []) ≡ false
    → begins_later old before (old ++ after) ≡ true
    → F.read_file path w ≡ ok (before ++ (old ++ after))
    → ((before ++ (new ++ replace_all old new after)) == (before ++ (old ++ after))) ≡ false
    → rewrite_image_in_file F path old new w
      ≡ written F (F.write_file path (before ++ (new ++ replace_all old new after)) w)
unfolding rewrite_image_in_file
rewrite_image_in_file-replace_all F path old new before after w given later read changed =
    let e =
      replace_all-before old new before (old ++ after) given later
      ∙ ap (λ t. before ++ t) (replace_all-append old new after given) in
    ap (λ r. rewrite_content F path old new r w) read
    ∙ ap
        (λ t.
          if t == (before ++ (old ++ after))
          then (ok false, w)
          else written F (F.write_file path t w))
        e
    ∙ rw changed refl
