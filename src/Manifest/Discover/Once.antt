-- ===== src/Manifest/Discover/Once.antt =====
-- The stacks that are found have their keys once.
use dockform.Base.{◌≡◌, inl, inr, List, [], ◌∷◌, if◌then◌else◌, Distinct, arith, Bool-cases}
use mathlib.Core.Path.{subst}
use dockform.Base.Text.{Text, text_eq}
use dockform.Base.Dict.{Dict, keys, insert, insert-Distinct}
use dockform.Base.Result.{ok, >>=-eq-ok, Result-cases}
use dockform.Manifest.Machine.{Stat, directory, file, not_exist, failed, DirEntry, Machine}
use dockform.Manifest.Key.{make_stack_key}
use dockform.Manifest.Types.{ContextConfig, DiscoveryConfig, get_compose_files, get_secrets_file}
use dockform.Manifest.Discover.{
  Discovered, find_compose_file, find_file, discover_filesets, stack_found, add_found,
  stack_entries, stacks_in, discover_contexts,
}

module _ (H : Machine) (discovery : DiscoveryConfig) where
  abbrev Once : Discovered → Type 0
  Once d = Distinct (keys d.stacks)

  add_found-Once :
      (c n dir secrets compose : Text) (d d' : Discovered)
      → Once d
      → add_found H discovery c n dir secrets compose d ≡ ok d'
      → Once d'
  add_found-Once c n dir secrets [] d d' once h = let e : d ≡ d' = cc in subst Once e once
  add_found-Once c n dir secrets (x ∷ compose) d d' once h =
      let (filesets, found, h₁) =
        >>=-eq-ok (discover_filesets H discovery c n dir d.filesets) _ h in
      let stack = stack_found H discovery c dir (x ∷ compose) secrets in
      let now : Discovered = record {
        stacks = insert (make_stack_key c n) stack d.stacks;
        filesets = filesets;
      } in
      let e : now ≡ d' = cc in
      subst Once e (insert-Distinct (make_stack_key c n) stack d.stacks once)

  stack_entries-Once :
      (c dir secrets : Text) (es : List DirEntry) (d d' : Discovered)
      → Once d
      → stack_entries H discovery c dir secrets es d ≡ ok d'
      → Once d'
  unfolding stack_entries
  stack_entries-Once c dir secrets [] d d' once h = let e : d ≡ d' = cc in subst Once e once
  stack_entries-Once c dir secrets (e ∷ es) d d' once h =
      let sub = H.join dir e.name in
      let compose = find_compose_file H discovery sub (get_compose_files discovery) in
      let (d₁, first, rest) =
        >>=-eq-ok (if e.is_dir then add_found H discovery c e.name sub secrets compose d else ok d)
          _ h in
      let once₁ : Once d₁ = elim (Bool-cases e.is_dir) [
        | inl is_dir ↦
            add_found-Once c e.name sub secrets compose d d₁ once (ground (arith, first, is_dir))
        | inr other ↦ let same : d ≡ d₁ = ground (arith, first, other) in subst Once same once
      ] in
      stack_entries-Once c dir secrets es d₁ d' once₁ rest

  stacks_in-Once :
      (c dir : Text) (st : Stat) (d d' : Discovered)
      → Once d
      → stacks_in H discovery c dir st d ≡ ok d'
      → Once d'
  stacks_in-Once c dir directory d d' once h = elim (Result-cases (H.read_dir dir)) [
    | inr (e, unread) ↦ absurd (ground (arith, h, unread))
    | inl (es, read) ↦
        let secrets = find_file H discovery dir (get_secrets_file discovery) in
        stack_entries-Once c dir secrets es d d' once (ground (arith, h, read))
  ]
  stacks_in-Once c dir file d d' once h = let e : d ≡ d' = cc in subst Once e once
  stacks_in-Once c dir (not_exist x) d d' once h = let e : d ≡ d' = cc in subst Once e once
  stacks_in-Once c dir (failed x) d d' once h = absurd (ground (arith, h))

  pub discover_contexts-Once :
      (base_dir : Text) (contexts : Dict Text ContextConfig) (d d' : Discovered)
      → Once d
      → discover_contexts H discovery base_dir contexts d ≡ ok d'
      → Once d'
  unfolding discover_contexts
  discover_contexts-Once base_dir [] d d' once h = let e : d ≡ d' = cc in subst Once e once
  discover_contexts-Once base_dir ((c, cfg) ∷ contexts) d d' once h =
      let dir = H.join base_dir c in
      let (d₁, first, rest) = >>=-eq-ok (stacks_in H discovery c dir (H.stat dir) d) _ h in
      discover_contexts-Once base_dir contexts d₁ d'
        (stacks_in-Once c dir (H.stat dir) d d₁ once first) rest
