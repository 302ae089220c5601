-- ===== src/Manifest/Validate/Valid.antt =====
-- What a fileset is after its validation.
use dockform.Base.{
  ℕ, ◌≡◌, ◌<◌, refl, ap, ◌⊎◌, inl, inr, Bool, true, false, not, ◌&&◌, ◌||◌, Option, none, some, [],
  ◌∷◌, ◌==◌, if◌then◌else◌, arith, length, leb, Bool-cases, All, nat_eq,
}
use mathlib.Core.Path.{subst}
use dockform.Base.Trim.{trim_space, to_lower, trim_space-trim_space}
use dockform.Base.Text.{Text, codes, text_eq, text_beq, text_beq_iff}
use dockform.Base.Dict.{Dict, keys}
use dockform.Base.Result.{Result, ok, err, >>=-eq-ok}
use dockform.Apperr.{Err}
use dockform.Manifest.Types.{Ownership, FilesetSpec}
use dockform.Manifest.Validate.{
  is_numeric_id, is_posix_name, validate_user_or_group, octal_digit, all_of, trim_zero, octal_value,
  parse_octal_mode, checked, validate_field, validate_owner, validate_ownership, is_absolute,
  target_path_of, apply_mode_of, with_source, with_owner, validate_fileset, validate_filesets,
}

octal_bound :
    (s : Text) → all_of octal_digit s ≡ true → leb (length s) 4 ≡ true → octal_value 0 s < 4096
unfolding octal_value
octal_bound [] h l = ground arith
octal_bound (a ∷ []) h l = ground (arith, h)
octal_bound (a ∷ b ∷ []) h l = ground (arith, h)
octal_bound (a ∷ b ∷ c ∷ []) h l = ground (arith, h)
octal_bound (a ∷ b ∷ c ∷ d ∷ []) h l = ground (arith, h)
octal_bound (a ∷ b ∷ c ∷ d ∷ e ∷ s) h l = ground (arith, l)

-- An owner that is empty, a number, or a POSIX name in any case.
abbrev IsName : Text → Type 0
IsName s = ((s == []) || (is_numeric_id s || is_posix_name (to_lower s))) ≡ true

-- A mode that is empty, or a number below octal 10000.
abbrev IsMode : Text → Type 0
IsMode s = (s ≡ []) ⊎ ((v : ℕ) × (parse_octal_mode s ≡ ok v) × (v < 4096))

abbrev IsOwner : Ownership → Type 0
IsOwner o = IsName o.user × IsName o.group × IsMode o.file_mode × IsMode o.dir_mode

abbrev HasOwner : Option Ownership → Type 0
HasOwner none = Unit
HasOwner (some o) = IsOwner o

validate_user_or_group-IsName :
    (s : Text) (b : Bool) → validate_user_or_group s ≡ ok b → IsName (trim_space s)
unfolding validate_user_or_group
validate_user_or_group-IsName s b h = ground (arith, h)

trim_zero_octal :
    (s : Text)
    → all_of octal_digit s ≡ true
    → leb (length s) 4 ≡ true
    → (all_of octal_digit (trim_zero s) ≡ true) × (leb (length (trim_zero s)) 4 ≡ true)
trim_zero_octal [] h l = (h, l)
trim_zero_octal (c ∷ s) h l = elim (Bool-cases (c == b'0')) [
  | inl e ↦ rw e (ground (arith, h), ground (arith, l))
  | inr e ↦ rw e (h, l)
]

parse_octal_mode_lem :
    (s : Text) (v : ℕ)
    → parse_octal_mode s ≡ ok v
    → (all_of octal_digit (trim_space s) ≡ true)
      × (leb (length (trim_space s)) 4 ≡ true)
      × (v ≡ octal_value 0 (trim_zero (trim_space s)))
unfolding parse_octal_mode
parse_octal_mode_lem s v h = (ground (arith, h), ground (arith, h), ground (arith, h))

parse_octal_mode_bound : (s : Text) (v : ℕ) → parse_octal_mode s ≡ ok v → v < 4096
parse_octal_mode_bound s v h =
    let (digits, short, value) = parse_octal_mode_lem s v h in
    let (digits', short') = trim_zero_octal (trim_space s) digits short in
    let bound = octal_bound (trim_zero (trim_space s)) digits' short' in rw value bound

parse_octal_mode_trimmed : (s : Text) → parse_octal_mode (trim_space s) ≡ parse_octal_mode s
unfolding parse_octal_mode
parse_octal_mode_trimmed s = rw (trim_space-trim_space s) refl

checked_lem :
    {A : Type 0} (name label trimmed t : Text) (r : Result Err A)
    → checked name label trimmed r ≡ ok t
    → (a : A) × (t ≡ trimmed) × (r ≡ ok a)
checked_lem name label trimmed t (ok a) h = (a, cc, refl)
checked_lem name label trimmed t (err e) h = cc

-- A field that is accepted is empty or the trimmed value, which is checked.
validate_field_lem :
    {A : Type 0} (check : Text → Result Err A) (name label value t : Text)
    → validate_field check name label value ≡ ok t
    → (t ≡ []) ⊎ ((a : A) × (t ≡ trim_space value) × (check (trim_space value) ≡ ok a))
unfolding validate_field
validate_field_lem check name label value t h = elim (Bool-cases (value == [])) [
  | inl e ↦ inl (ground (arith, h, e))
  | inr e ↦ elim (Bool-cases (trim_space value == [])) [
    | inl e' ↦ ground (arith, h, e, e')
    | inr e' ↦
        inr
          (checked_lem name label (trim_space value) t (check (trim_space value)) (rw (e, e') at h))
  ]
]

transfer {ℓ} :
    {A : Type 0} (P : A → Type ℓ) (a b : A) → Path (Result Err A) (ok a) (ok b) → P a → P b
transfer P a b h p = let e : a ≡ b = cc in subst P e p

named :
    (name label value t : Text)
    → validate_field validate_user_or_group name label value ≡ ok t
    → IsName t
unfolding text_beq
named name label value t h = elim (validate_field_lem validate_user_or_group name label value t h) [
  | inl empty ↦ rw empty refl
  | inr (a, e, found) ↦ rw e (
      coe_name (trim_space-trim_space value)
        (validate_user_or_group-IsName (trim_space value) a found))
]
  where
    coe_name : {s s' : Text} → s ≡ s' → IsName s → IsName s'
    coe_name e h = rw (← e) h

moded :
    (name label value t : Text) → validate_field parse_octal_mode name label value ≡ ok t → IsMode t
moded name label value t h = elim (validate_field_lem parse_octal_mode name label value t h) [
  | inl empty ↦ inl empty
  | inr (v, e, found) ↦ inr (v, rw e found, parse_octal_mode_bound (trim_space value) v found)
]

validate_owner-IsOwner :
    (name : Text) (o o' : Ownership) → validate_owner name o ≡ ok o' → IsOwner o'
unfolding validate_owner
validate_owner-IsOwner name o o' h =
    let (user, h₁, k₁) =
      >>=-eq-ok (validate_field validate_user_or_group name (codes "user") o.user) _ h in
    let (group, h₂, k₂) =
      >>=-eq-ok (validate_field validate_user_or_group name (codes "group") o.group) _ k₁ in
    let (file_mode, h₃, k₃) =
      >>=-eq-ok (validate_field parse_octal_mode name (codes "file_mode") o.file_mode) _ k₂ in
    let (dir_mode, h₄, k₄) =
      >>=-eq-ok (validate_field parse_octal_mode name (codes "dir_mode") o.dir_mode) _ k₃ in
    transfer IsOwner _ o' k₄ (
      named name (codes "user") o.user user h₁,
      named name (codes "group") o.group group h₂,
      moded name (codes "file_mode") o.file_mode file_mode h₃,
      moded name (codes "dir_mode") o.dir_mode dir_mode h₄,
    )

-- What a fileset must be, with the source it is read from.
module _ (is_abs : Text → Bool) (resolve : Text → Text → Text) (base_dir : Text) where
  abbrev pub IsValid : FilesetSpec → Type 0
  IsValid fs =
      ((trim_space fs.source == []) ≡ false)
      × ((fs.target_volume == []) ≡ false)
      × (is_absolute fs.target_path ≡ true)
      × ((fs.apply_mode ≡ codes "hot") ⊎ (fs.apply_mode ≡ codes "cold"))
      × HasOwner fs.ownership
      × (fs.source_abs ≡ (if not (is_abs fs.source) then resolve base_dir fs.source else fs.source))

  -- What the check of an ownership keeps of a fileset, and what it adds.
  abbrev Owned : FilesetSpec → FilesetSpec → Type 0
  Owned fs fs' =
      HasOwner fs'.ownership
      × (fs'.source ≡ fs.source)
      × (fs'.target_volume ≡ fs.target_volume)
      × (fs'.target_path ≡ fs.target_path)
      × (fs'.apply_mode ≡ fs.apply_mode)

  validate_ownership-Owned :
      (name : Text) (o : Option Ownership) (fs fs' : FilesetSpec)
      → fs.ownership ≡ o
      → validate_ownership name fs ≡ ok fs'
      → Owned fs fs'
  unfolding validate_ownership
  validate_ownership-Owned name none fs fs' e h =
      transfer (Owned fs) (record fs { ownership = none }) fs' (rw e at h)
        (tt, refl, refl, refl, refl)
  validate_ownership-Owned name (some o) fs fs' e h =
      let (o', found, k) =
        >>=-eq-ok (validate_owner name o) (λ o'. ok (with_owner fs o')) (rw e at h) in
      transfer (Owned fs) (with_owner fs o') fs' k
        (validate_owner-IsOwner name o o' found, refl, refl, refl, refl)

  is_mode :
      (b c : Bool) (mode : Text)
      → (mode == codes "hot") ≡ b
      → (mode == codes "cold") ≡ c
      → (not b && not c) ≡ false
      → (mode ≡ codes "hot") ⊎ (mode ≡ codes "cold")
  is_mode true c mode h k e = inl (ground (arith, h, text_beq_iff mode (codes "hot")))
  is_mode false true mode h k e = inr (ground (arith, k, text_beq_iff mode (codes "cold")))
  is_mode false false mode h k e = ground (arith, e)

  validate_fileset-IsValid :
      (name : Text) (fs fs' : FilesetSpec)
      → validate_fileset is_abs resolve base_dir name fs ≡ ok fs'
      → IsValid fs'
  unfolding validate_fileset
  validate_fileset-IsValid name fs fs' h =
      let set : (trim_space fs.source == []) ≡ false = ground (arith, h) in
      let volume : (fs.target_volume == []) ≡ false = ground (arith, h) in
      let path : is_absolute (target_path_of fs) ≡ true = ground (arith, h) in
      let mode : (not (apply_mode_of fs == codes "hot") && not (apply_mode_of fs == codes "cold"))
          ≡ false =
        ground (arith, h) in
      let plain = record fs { target_path = target_path_of fs; apply_mode = apply_mode_of fs } in
      let (fs₁, owned, k) =
        >>=-eq-ok (validate_ownership name plain) (λ f. ok (with_source is_abs resolve base_dir f))
          (rw (set, volume, path, mode) at h) in
      let (owner, same_source, same_volume, same_path, same_mode) =
        validate_ownership-Owned name fs.ownership plain fs₁ refl owned in
      transfer IsValid (with_source is_abs resolve base_dir fs₁) fs' k (
        rw same_source set,
        rw same_volume volume,
        rw same_path path,
        rw same_mode (is_mode _ _ (apply_mode_of fs) refl refl mode),
        owner,
        refl,
      )

  -- The filesets that validation accepts keep their names, in their order. Each has a source and a
  -- volume, an absolute target path, the mode hot or cold, and an ownership whose user and group
  -- are empty, numbers or POSIX names and whose modes are empty or numbers below octal 10000; and its
  -- source is resolved.
  pub validate_filesets-IsValid :
      (d d' : Dict Text FilesetSpec)
      → validate_filesets is_abs resolve base_dir d ≡ ok d'
      → (keys d' ≡ keys d) × All (λ e. IsValid e.1) d'
  unfolding validate_filesets
  validate_filesets-IsValid [] d' h =
      transfer (λ x. (keys x ≡ []) × All (λ e. IsValid e.1) x) [] d' h (refl, tt)
  validate_filesets-IsValid ((name, fs) ∷ d) d' h =
      let (fs', found, h₁) = >>=-eq-ok (validate_fileset is_abs resolve base_dir name fs) _ h in
      let (d₁, rest, h₂) =
        >>=-eq-ok (validate_filesets is_abs resolve base_dir d) (λ x. ok ((name, fs') ∷ x)) h₁ in
      let (same, valid) = validate_filesets-IsValid d d₁ rest in
      transfer (λ x. (keys x ≡ name ∷ keys d) × All (λ e. IsValid e.1) x) ((name, fs') ∷ d₁) d' h₂
        (ap (λ ks. name ∷ ks) same, (validate_fileset-IsValid name fs fs' found, valid))
