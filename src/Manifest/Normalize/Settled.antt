-- ===== src/Manifest/Normalize/Settled.antt =====
-- The stacks that an accepted configuration has.
use dockform.Base.{
  ◌≡◌, refl, sym, ap, ◌∙◌, ◌⊎◌, inl, inr, true, false, Option, none, some, List, [], ◌∷◌, ◌==◌,
  if◌then◌else◌, All, arith, Bool-cases,
}
use mathlib.Core.Path.{subst}
use dockform.Base.Trim.{to_lower}
use dockform.Base.Text.{Text, text_eq, text_beq_iff}
use dockform.Base.Dict.{Dict, has, lookup, lookup-insert}
use dockform.Base.Result.{Result, ok, err, >>=-eq-ok}
use dockform.Manifest.Machine.{Machine}
use dockform.Manifest.Key.{KeyError, parse_stack_key}
use dockform.Manifest.Types.{Stack}
use dockform.Manifest.BindMounts.{mounts_in, refuse_mounts, validate_bind_mounts_in_compose_file}
use dockform.Manifest.Normalize.Stacks.{
  Maps, ends_env, check_secrets, normalized, normalize_stack, put_stack, normalize_one,
  normalize_stacks,
}

-- A stack whose computed root is its root, whose secrets are files `.env`, and whose compose files
-- have no bind mount.
abbrev pub Settled : Machine → Stack → Type 0
Settled H s =
    (s.root_abs ≡ s.root)
    × All (λ path. ends_env (to_lower path) ≡ true) s.sops_secrets
    × (mounts_in H s.root s.files [] ≡ [])

abbrev pub first_of {ℓ} : {A : Type ℓ} → Option A → Option A → Option A
first_of (some a) rest = some a
first_of none rest = rest

-- What the maps have for a key, the discovered one before the explicit one.
abbrev pub view : Text → Maps → Option Stack
view key maps = first_of (lookup key maps.1) (lookup key maps.0)

check_secrets-All :
    (key : Text) (paths : List Text)
    → check_secrets key paths ≡ ok tt
    → All (λ path. ends_env (to_lower path) ≡ true) paths
unfolding check_secrets
check_secrets-All key [] h = tt
check_secrets-All key (path ∷ paths) h =
    (ground (arith, h), check_secrets-All key paths (ground (arith, h)))

refuse_mounts-nil :
    (H : Machine) (key : Text) (mounts : List Text)
    → refuse_mounts H key mounts ≡ ok tt
    → mounts ≡ []
refuse_mounts-nil H key [] h = refl
refuse_mounts-nil H key (m ∷ ms) h = absurd (ground (arith, h))

module _ (H : Machine) (base_dir : Text) where
  normalize_stack-Settled :
      (key context : Text) (stack stack' : Stack)
      → normalize_stack H base_dir key context stack ≡ ok stack'
      → Settled H stack'
  unfolding normalize_stack validate_bind_mounts_in_compose_file
  normalize_stack-Settled key context stack stack' h =
      let s = normalized H base_dir context stack in
      let (u, secrets, h₁) = >>=-eq-ok (check_secrets key s.sops_secrets) _ h in
      let (v, mounts, h₂) =
        >>=-eq-ok (validate_bind_mounts_in_compose_file H key s) (λ _. ok s) h₁ in
      let same : s ≡ stack' = cc in
      subst (Settled H) same (
        refl,
        check_secrets-All key s.sops_secrets secrets,
        refuse_mounts-nil H key (mounts_in H s.root s.files []) mounts,
      )

  view-put_stack :
      (key k : Text) (s : Stack) (maps : Maps)
      → view key (put_stack H base_dir k s maps) ≡ (if k == key then some s else view key maps)
  view-put_stack key k s (explicit, discovered) = elim (Bool-cases (has k discovered)) [
    | inl found ↦ ground (arith, found, lookup-insert k key s discovered, text_beq_iff k key)
    | inr absent ↦ ground (arith, absent, lookup-insert k key s explicit, text_beq_iff k key)
  ]

  abbrev pub AllSettled : Text → Maps → Type 0
  AllSettled key maps = (s : Stack) → view key maps ≡ some s → Settled H s

  normalize_one-other :
      (key k : Text) (stack : Stack) (r : Result KeyError (Text × Text)) (maps maps' : Maps)
      → normalize_one H base_dir k stack r maps ≡ ok maps'
      → (k == key) ≡ false
      → view key maps' ≡ view key maps
  normalize_one-other key k stack (err e) maps maps' h other =
      let same : maps ≡ maps' = cc in ap (view key) (sym same)
  normalize_one-other key k stack (ok (context, name)) maps maps' h other =
      let (s, normal, h₁) = >>=-eq-ok (normalize_stack H base_dir k context stack) _ h in
      let same : put_stack H base_dir k s maps ≡ maps' = cc in
      ap (view key) (sym same) ∙ view-put_stack key k s maps ∙ rw other refl

  normalize_one-Settled :
      (key k : Text) (stack : Stack) (context name : Text) (maps maps' : Maps)
      → normalize_one H base_dir k stack (ok (context, name)) maps ≡ ok maps'
      → (k == key) ≡ true
      → AllSettled key maps'
  normalize_one-Settled key k stack context name maps maps' h here s found =
      let (t, normal, h₁) = >>=-eq-ok (normalize_stack H base_dir k context stack) _ h in
      let same : put_stack H base_dir k t maps ≡ maps' = cc in
      let now : view key maps' ≡ some t =
        ap (view key) (sym same) ∙ view-put_stack key k t maps ∙ rw here refl in
      let e : t ≡ s = cc in subst (Settled H) e (normalize_stack-Settled k context stack t normal)

  pub normalize_stacks-other :
      (key : Text) (d : Dict Text Stack) (maps maps' : Maps)
      → normalize_stacks H base_dir d maps ≡ ok maps'
      → has key d ≡ false
      → view key maps' ≡ view key maps
  unfolding normalize_stacks
  normalize_stacks-other key [] maps maps' h absent =
      let same : maps ≡ maps' = cc in ap (view key) (sym same)
  normalize_stacks-other key ((k, stack) ∷ d) maps maps' h absent =
      let (maps₁, first, rest) =
        >>=-eq-ok (normalize_one H base_dir k stack (parse_stack_key k) maps)
          (λ m. normalize_stacks H base_dir d m) h in
      normalize_stacks-other key d maps₁ maps' rest (ground (arith, absent))
      ∙ normalize_one-other key k stack (parse_stack_key k) maps maps₁ first
          (ground (arith, absent))

  pub normalize_stacks-Settled :
      (key context name : Text) (d : Dict Text Stack) (maps maps' : Maps)
      → parse_stack_key key ≡ ok (context, name)
      → normalize_stacks H base_dir d maps ≡ ok maps'
      → (has key d ≡ true) ⊎ AllSettled key maps
      → AllSettled key maps'
  unfolding normalize_stacks
  normalize_stacks-Settled key context name [] maps maps' parsed h (inl known) =
      absurd (ground (arith, known))
  normalize_stacks-Settled key context name [] maps maps' parsed h (inr settled) =
      let same : maps ≡ maps' = cc in subst (AllSettled key) same settled
  normalize_stacks-Settled key context name ((k, stack) ∷ d) maps maps' parsed h start =
      let (maps₁, first, rest) =
        >>=-eq-ok (normalize_one H base_dir k stack (parse_stack_key k) maps)
          (λ m. normalize_stacks H base_dir d m) h in
      elim (Bool-cases (k == key)) [
        | inl here ↦
            let e : parse_stack_key k ≡ ok (context, name) = ground (arith, text_beq_iff k key) in
            let first' : normalize_one H base_dir k stack (ok (context, name)) maps ≡ ok maps₁ =
              ap (λ r. normalize_one H base_dir k stack r maps) (sym e) ∙ first in
            normalize_stacks-Settled key context name d maps₁ maps' parsed rest
              (inr (normalize_one-Settled key k stack context name maps maps₁ first' here))
        | inr other ↦
            let same = normalize_one-other key k stack (parse_stack_key k) maps maps₁ first other in
            normalize_stacks-Settled key context name d maps₁ maps' parsed rest (elim start [
              | inl known ↦ inl (ground (arith, known, other))
              | inr settled ↦ inr (λ s found. settled s (sym same ∙ found))
            ])
      ]
