-- ===== src/Manifest/Merge/Laws.antt =====
-- Lookups in the merged maps.
use dockform.Base.{
  ◌≡◌, ◌≢◌, refl, sym, false, Option, none, some, List, [], ◌∷◌, is_empty, arith, ◌==◌,
  if◌then◌else◌,
}
use dockform.Base.{nat_eq, contains, Distinct, Option-cases, inl, inr}
use mathlib.Core.Path.{subst}
use dockform.Base.Text.{Text, text_eq, text_beq_iff}
use dockform.Base.Dict.{Dict, keys, lookup, insert, lookup-insert, has-keys, insert-Distinct}
use dockform.Base.Result.{Result, ok, err}
use dockform.Manifest.Key.{
  KeyError, slash, parse_stack_key, make_stack_key, parse_stack_key-make_stack_key,
  make_stack_key-parse_stack_key,
}
use dockform.Manifest.Types.{Stack, Config}
use dockform.Manifest.Merge.{
  override, override_list, augment, merge_one, merge_found, merge_explicit, copy_all,
  get_all_stacks, collect_stack, stacks_of, get_stacks_for_context,
}

abbrev pub or_else {ℓ} : {A : Type ℓ} → Option A → Option A → Option A
or_else (some v) old = some v
or_else none old = old

lookup-copy_all {ℓ} :
    {V : Type ℓ} (k : Text) (d result : Dict Text V)
    → Distinct (keys d)
    → lookup k (copy_all d result) ≡ or_else (lookup k d) (lookup k result)
unfolding copy_all
lookup-copy_all k [] result u = refl
lookup-copy_all k ((j, v) ∷ d) result u = ground (
  arith,
  lookup-copy_all k d (insert j v result) u.1,
  lookup-insert j k v result,
  text_beq_iff j k,
  has-keys k d,
)

abbrev pub merged : Option Stack → Option Stack → Option Stack
merged none old = old
merged (some v) none = some v
merged (some v) (some existing) = some (augment existing v)

lookup-merge_one :
    (k j : Text) (v : Stack) (result : Dict Text Stack)
    → lookup k (merge_one j v result)
      ≡ (if j == k then merged (some v) (lookup j result) else lookup k result)
lookup-merge_one k j v result = elim (Option-cases (lookup j result)) [
  | inl absent ↦ ground (arith, lookup-insert j k v result)
  | inr (old, found) ↦ ground (arith, lookup-insert j k (augment old v) result)
]

lookup-merge_explicit :
    (k : Text) (stacks result : Dict Text Stack)
    → Distinct (keys stacks)
    → lookup k (merge_explicit stacks result) ≡ merged (lookup k stacks) (lookup k result)
unfolding merge_explicit
lookup-merge_explicit k [] result u = refl
lookup-merge_explicit k ((j, v) ∷ d) result u = ground (
  arith,
  lookup-merge_explicit k d (merge_one j v result) u.1,
  lookup-merge_one k j v result,
  text_beq_iff j k,
  has-keys k d,
)

-- In the merged map a stack that is both discovered and explicit is the discovered one, augmented,
-- and any other is the one that is there. The keys of the two maps are distinct.
pub lookup-get_all_stacks :
    (c : Config) (k : Text)
    → Distinct (keys c.stacks)
    → Distinct (keys c.discovered_stacks)
    → lookup k (get_all_stacks c) ≡ merged (lookup k c.stacks) (lookup k c.discovered_stacks)
unfolding get_all_stacks
lookup-get_all_stacks c k u v = ground (
  arith,
  lookup-merge_explicit k c.stacks (copy_all c.discovered_stacks []) u,
  lookup-copy_all k c.discovered_stacks [] v,
)

-- A stack that is an explicit one put over a discovered one, field by field: of the explicit one its
-- profiles, where it has some, and the environment, the secrets and the project, where they are set;
-- of the discovered one everything else.
pub record Augments (explicit found s : Stack) : Type 0 where
  pub root : s.root ≡ found.root
  pub files : s.files ≡ found.files
  pub env_file : s.env_file ≡ found.env_file
  pub profiles :
      s.profiles ≡ (if is_empty explicit.profiles then found.profiles else explicit.profiles)
  pub environment : s.environment ≡ or_else explicit.environment found.environment
  pub secrets : s.secrets ≡ or_else explicit.secrets found.secrets
  pub project : s.project ≡ or_else explicit.project found.project
  pub filesets : s.filesets ≡ found.filesets
  pub context : s.context ≡ found.context
  pub env_inline : s.env_inline ≡ found.env_inline
  pub sops_secrets : s.sops_secrets ≡ found.sops_secrets
  pub root_abs : s.root_abs ≡ found.root_abs

override-or_else {ℓ} : {A : Type ℓ} (v old : Option A) → override v old ≡ or_else v old
override-or_else none old = refl
override-or_else (some x) old = refl

override_list-if {ℓ} :
    {A : Type ℓ} (v old : List A) → override_list v old ≡ (if is_empty v then old else v)
override_list-if [] old = refl
override_list-if (x ∷ xs) old = refl

augment-Augments : (explicit found : Stack) → Augments explicit found (augment found explicit)
unfolding augment
augment-Augments explicit found = record {
  root = refl;
  files = refl;
  env_file = refl;
  profiles = override_list-if explicit.profiles found.profiles;
  environment = override-or_else explicit.environment found.environment;
  secrets = override-or_else explicit.secrets found.secrets;
  project = override-or_else explicit.project found.project;
  filesets = refl;
  context = refl;
  env_inline = refl;
  sops_secrets = refl;
  root_abs = refl;
}

-- What there is under a key of the merged map, of an explicit and a discovered stack.
abbrev pub IsMerged : Option Stack → Option Stack → Option Stack → Type 0
IsMerged none found o = o ≡ found
IsMerged (some explicit) none o = o ≡ some explicit
IsMerged (some explicit) (some found) o = (s : Stack) × (o ≡ some s) × Augments explicit found s

merged-IsMerged : (explicit found : Option Stack) → IsMerged explicit found (merged explicit found)
merged-IsMerged none found = refl
merged-IsMerged (some v) none = refl
merged-IsMerged (some v) (some found) = (augment found v, refl, augment-Augments v found)

-- In the merged map a stack that is only explicit or only discovered is as it is; one that is both
-- has the explicit one's profiles, if there are some, and its environment, secrets and project, where
-- they are set, and every other field of the discovered one. The keys of the two maps are distinct.
pub get_all_stacks-IsMerged :
    (c : Config) (k : Text)
    → Distinct (keys c.stacks)
    → Distinct (keys c.discovered_stacks)
    → IsMerged (lookup k c.stacks) (lookup k c.discovered_stacks) (lookup k (get_all_stacks c))
get_all_stacks-IsMerged c k u v =
    subst (IsMerged (lookup k c.stacks) (lookup k c.discovered_stacks))
      (sym (lookup-get_all_stacks c k u v))
      (merged-IsMerged (lookup k c.stacks) (lookup k c.discovered_stacks))

copy_all-Distinct :
    (d result : Dict Text Stack) → Distinct (keys result) → Distinct (keys (copy_all d result))
unfolding copy_all
copy_all-Distinct [] result u = u
copy_all-Distinct ((k, v) ∷ d) result u =
    copy_all-Distinct d (insert k v result) (insert-Distinct k v result u)

merge_found-Distinct :
    (o : Option Stack) (k : Text) (v : Stack) (result : Dict Text Stack)
    → Distinct (keys result)
    → Distinct (keys (merge_found o k v result))
merge_found-Distinct none k v result u = insert-Distinct k v result u
merge_found-Distinct (some old) k v result u = insert-Distinct k (augment old v) result u

merge_explicit-Distinct :
    (d result : Dict Text Stack)
    → Distinct (keys result)
    → Distinct (keys (merge_explicit d result))
unfolding merge_explicit
merge_explicit-Distinct [] result u = u
merge_explicit-Distinct ((k, v) ∷ d) result u =
    merge_explicit-Distinct d (merge_one k v result)
      (merge_found-Distinct (lookup k result) k v result u)

get_all_stacks-Distinct : (c : Config) → Distinct (keys (get_all_stacks c))
unfolding get_all_stacks
get_all_stacks-Distinct c =
    merge_explicit-Distinct c.stacks (copy_all c.discovered_stacks [])
      (copy_all-Distinct c.discovered_stacks [] tt)

module _ (context name : Text) (plain : contains context slash ≡ false) (c : context ≢ [])
    (n : name ≢ []) where
  lookup-collect_stack :
      (key : Text) (stack : Stack) (result : Dict Text Stack)
      (parsed : Result KeyError (Text × Text))
      → parse_stack_key key ≡ parsed
      → lookup name (collect_stack context stack parsed result)
        ≡ (if key == make_stack_key context name then some stack else lookup name result)
  lookup-collect_stack key stack result (err e) p = ground (
    arith,
    text_beq_iff key (make_stack_key context name),
    parse_stack_key-make_stack_key context name plain c n,
  )
  lookup-collect_stack key stack result (ok (context', name')) p = ground (
    arith,
    text_beq_iff key (make_stack_key context name),
    text_beq_iff context' context,
    text_beq_iff name' name,
    lookup-insert name' name stack result,
    parse_stack_key-make_stack_key context name plain c n,
    make_stack_key-parse_stack_key key context' name' p,
  )

  lookup-stacks_of :
      (d result : Dict Text Stack)
      → Distinct (keys d)
      → lookup name (stacks_of context d result)
        ≡ or_else (lookup (make_stack_key context name) d) (lookup name result)
  unfolding stacks_of
  lookup-stacks_of [] result u = refl
  lookup-stacks_of ((key, stack) ∷ d) result u =
      let key' = make_stack_key context name in
      let parsed = parse_stack_key key in
      ground (
        arith,
        lookup-stacks_of d (collect_stack context stack parsed result) u.1,
        lookup-collect_stack key stack result parsed refl,
        text_beq_iff key key',
        has-keys key' d,
      )

  -- The stacks of a context are the stacks of the whole configuration whose key names it: the
  -- context has no slash, and neither name is empty.
  pub lookup-get_stacks_for_context :
      (cfg : Config)
      → lookup name (get_stacks_for_context cfg context)
        ≡ lookup (make_stack_key context name) (get_all_stacks cfg)
  unfolding get_stacks_for_context
  lookup-get_stacks_for_context cfg =
      ground (arith, lookup-stacks_of (get_all_stacks cfg) [] (get_all_stacks-Distinct cfg))
