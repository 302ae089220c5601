-- ===== src/Cli/Targets/Laws.antt =====
-- What a targeted configuration keeps.
use dockform.Base.{
  ◌≡◌, refl, Bool, false, ◌||◌, Option, none, some, List, [], ◌∷◌, arith, ◌==◌, if◌then◌else◌,
}
use dockform.Base.{contains, Distinct, Option-cases, inl, inr, nat_eq}
use dockform.Base.Text.{Text, text_eq, text_beq_iff}
use dockform.Base.Dict.{Dict, keys, lookup, insert, lookup-insert, has-keys}
use dockform.Base.Result.{Result, ok, err, >>=-eq-ok}
use dockform.Manifest.Key.{KeyError, parse_stack_key}
use dockform.Manifest.Types.{Config}
use dockform.Cli.Targets.{
  TargetOptions, Allowed, allow_contexts, check_stack_target, allow_stacks, copy_if,
  resolve_allowed,
}

abbrev pub kept {ℓ} : {V : Type ℓ} → (V → Bool) → Option V → Option V
kept p none = none
kept p (some v) = if p v then some v else none

abbrev or_else {ℓ} : {V : Type ℓ} → Option V → Option V → Option V
or_else (some v) old = some v
or_else none old = old

lookup-copy_if {ℓ} :
    {V : Type ℓ} (p : Text → V → Bool) (k : Text) (d result : Dict Text V)
    → Distinct (keys d)
    → lookup k (copy_if p d result) ≡ or_else (kept (p k) (lookup k d)) (lookup k result)
unfolding copy_if
lookup-copy_if p k [] result u = refl
lookup-copy_if p k ((j, v) ∷ d) result u = ground (
  arith,
  lookup-copy_if p k d result u.1,
  lookup-copy_if p k d (insert j v result) u.1,
  lookup-insert j k v result,
  text_beq_iff j k,
  has-keys k d,
)

-- The contexts that an accepted loop collects.
allow_contexts_lem :
    (cfg : Config) (cs : List Text) (a b : Allowed) (c : Text)
    → allow_contexts cfg cs a ≡ ok b
    → (contains b.contexts c ≡ (contains cs c || contains a.contexts c)) × (b.stacks ≡ a.stacks)
unfolding allow_contexts
allow_contexts_lem cfg [] a b c h = ground arith
allow_contexts_lem cfg (x ∷ cs) a b c h =
    ground (arith, allow_contexts_lem cfg cs (record a { contexts = x ∷ a.contexts }) b c)

-- Whether some stack of the list has the context.
abbrev names_context : Text → Result KeyError (Text × Text) → Bool
names_context c (err e) = false
names_context c (ok (context, _)) = context == c

abbrev pub some_in : Text → List Text → Bool
some_in c [] = false
some_in c (s ∷ ss) = names_context c (parse_stack_key s) || some_in c ss

check_stack_target_lem :
    (cfg : Config) (s : Text) (r : Result KeyError (Text × Text)) (a b : Allowed) (c k : Text)
    → check_stack_target cfg s r a ≡ ok b
    → (contains b.contexts c ≡ (names_context c r || contains a.contexts c))
      × (contains b.stacks k ≡ (s == k || contains a.stacks k))
check_stack_target_lem cfg s (err e) a b c k h = ground arith
check_stack_target_lem cfg s (ok (context, stack)) a b c k h = ground arith

allow_stacks_lem :
    (cfg : Config) (ss : List Text) (a b : Allowed) (c k : Text)
    → allow_stacks cfg ss a ≡ ok b
    → (contains b.contexts c ≡ (some_in c ss || contains a.contexts c))
      × (contains b.stacks k ≡ (contains ss k || contains a.stacks k))
unfolding allow_stacks
allow_stacks_lem cfg [] a b c k h = ground arith
allow_stacks_lem cfg (s ∷ ss) a b c k h =
    let (a', first, rest) =
      >>=-eq-ok (check_stack_target cfg s (parse_stack_key s) a) (λ x. allow_stacks cfg ss x) h in
    let one = check_stack_target_lem cfg s (parse_stack_key s) a a' c k first in
    let more = allow_stacks_lem cfg ss a' b c k rest in ground (arith, one, more)

-- The contexts and the stacks that a request allows, in terms of what it names.
pub resolve_allowed_lem :
    (cfg : Config) (o : TargetOptions) (b : Allowed) (c k : Text)
    → resolve_allowed cfg o ≡ ok b
    → (contains b.contexts c ≡ (contains o.contexts c || some_in c o.stacks))
      × (contains b.stacks k ≡ contains o.stacks k)
unfolding resolve_allowed
resolve_allowed_lem cfg o b c k h =
    let start : Allowed = record { contexts = []; stacks = [] } in
    let (a, first, rest) =
      >>=-eq-ok (allow_contexts cfg o.contexts start) (λ x. allow_stacks cfg o.stacks x) h in
    ground (
      arith,
      allow_contexts_lem cfg o.contexts start a c first,
      allow_stacks_lem cfg o.stacks a b c k rest,
    )

pub lookup-copy_if_nil {ℓ} :
    {V : Type ℓ} (p : Text → V → Bool) (k : Text) (d : Dict Text V)
    → Distinct (keys d)
    → lookup k (copy_if p d []) ≡ kept (p k) (lookup k d)
lookup-copy_if_nil p k d u = elim (Option-cases (kept (p k) (lookup k d))) [
  | inl gone ↦ rw (lookup-copy_if p k d [] u, gone)
  | inr (v, there) ↦ rw (lookup-copy_if p k d [] u, there)
]
