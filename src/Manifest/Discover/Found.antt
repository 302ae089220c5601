-- ===== src/Manifest/Discover/Found.antt =====
-- Which stacks are found: those of the directories with a compose file.
use dockform.Base.{
  ◌≡◌, inl, inr, false, not, ◌&&◌, List, [], ◌∷◌, ◌==◌, if◌then◌else◌, contains, All, nat_eq, arith,
  Bool-cases,
}
use dockform.Base.Text.{Text, text_eq, text_beq_iff}
use dockform.Base.Dict.{Dict, lookup, lookup-insert}
use dockform.Base.Result.{ok, >>=-eq-ok, Result-cases}
use dockform.Manifest.Key.{slash, make_stack_key, make_stack_key-eq}
use dockform.Manifest.Types.{ContextConfig, DiscoveryConfig, Config, get_secrets_file}
use dockform.Manifest.Machine.{Stat, directory, file, not_exist, failed, DirEntry, Machine}
use dockform.Manifest.Discover.Spec.{
  some_if, or_else, compose_of, stack_in, has_stack, stack_under, stack_of,
}
use dockform.Manifest.Discover.{
  Discovered, find_file, discover_filesets, stack_found, add_found, stack_entries, stacks_in,
  discover_contexts, discover_resources,
}

module _ (H : Machine) (discovery : DiscoveryConfig) (context name : Text)
    (plain : contains context slash ≡ false) where
  abbrev key : Text
  key = make_stack_key context name

  add_found-lookup :
      (c n dir secrets compose : Text) (d d' : Discovered)
      → contains c slash ≡ false
      → add_found H discovery c n dir secrets compose d ≡ ok d'
      → lookup key d'.stacks
        ≡ some_if
            (c == context && (n == name && not (compose == [])))
            (stack_found H discovery c dir compose secrets)
            (lookup key d.stacks)
  add_found-lookup c n dir secrets [] d d' plain' h = ground (arith, h, text_beq_iff [] [])
  add_found-lookup c n dir secrets (x ∷ compose) d d' plain' h =
      let (filesets, found, h₁) =
        >>=-eq-ok (discover_filesets H discovery c n dir d.filesets) _ h in
      ground (
        arith,
        h₁,
        text_beq_iff (x ∷ compose) [],
        make_stack_key-eq c n context name plain' plain,
        lookup-insert (make_stack_key c n) key (stack_found H discovery c dir (x ∷ compose) secrets)
            d.stacks,
      )

  -- One entry of the directory.
  entry-lookup :
      (c dir secrets : Text) (e : DirEntry) (d d' : Discovered)
      → contains c slash ≡ false
      → (if e.is_dir
          then add_found H discovery c e.name
              (H.join dir e.name)
              secrets
              (compose_of H discovery (H.join dir e.name))
              d
          else ok d)
        ≡ ok d'
      → lookup key d'.stacks
        ≡ some_if
            (c == context
              && ((e.is_dir && e.name == name)
                  && not (compose_of H discovery (H.join dir name) == [])))
            (stack_in H discovery c dir secrets name)
            (lookup key d.stacks)
  entry-lookup c dir secrets e d d' plain' h = elim (Bool-cases e.is_dir) [
    | inr other ↦ ground (arith, h, other)
    | inl is_dir ↦
        let added : add_found H discovery c e.name (H.join dir e.name) secrets
              (compose_of H discovery (H.join dir e.name)) d
            ≡ ok d' =
          ground (arith, h, is_dir) in
        ground (
          arith,
          is_dir,
          text_beq_iff e.name name,
          add_found-lookup c e.name (H.join dir e.name) secrets
              (compose_of H discovery (H.join dir e.name)) d d' plain' added,
        )
  ]

  stack_entries-lookup :
      (c dir secrets : Text) (es : List DirEntry) (d d' : Discovered)
      → contains c slash ≡ false
      → stack_entries H discovery c dir secrets es d ≡ ok d'
      → lookup key d'.stacks
        ≡ some_if
            (c == context && has_stack H discovery dir name es)
            (stack_in H discovery c dir secrets name)
            (lookup key d.stacks)
  unfolding stack_entries
  stack_entries-lookup c dir secrets [] d d' plain' h = ground (arith, h)
  stack_entries-lookup c dir secrets (e ∷ es) d d' plain' h =
      let (d₁, first, rest) =
        >>=-eq-ok
          (if e.is_dir
            then add_found H discovery c e.name (H.join dir e.name) secrets
                (compose_of H discovery (H.join dir e.name)) d
            else ok d)
          _ h in
      ground (
        arith,
        entry-lookup c dir secrets e d d₁ plain' first,
        stack_entries-lookup c dir secrets es d₁ d' plain' rest,
      )

  stacks_in-lookup :
      (c dir : Text) (st : Stat) (d d' : Discovered)
      → contains c slash ≡ false
      → stacks_in H discovery c dir st d ≡ ok d'
      → lookup key d'.stacks ≡ (
          if c == context
          then or_else (stack_under H discovery c dir name st) (lookup key d.stacks)
          else lookup key d.stacks)
  stacks_in-lookup c dir directory d d' plain' h = elim (Result-cases (H.read_dir dir)) [
    | inr (e, unread) ↦ ground (arith, h, unread)
    | inl (es, read) ↦
        let secrets = find_file H discovery dir (get_secrets_file discovery) in
        let found : stack_entries H discovery c dir secrets es d ≡ ok d' =
          ground (arith, h, read) in
        ground (arith, read, stack_entries-lookup c dir secrets es d d' plain' found)
  ]
  stacks_in-lookup c dir file d d' plain' h = ground (arith, h)
  stacks_in-lookup c dir (not_exist e) d d' plain' h = ground (arith, h)
  stacks_in-lookup c dir (failed e) d d' plain' h = ground (arith, h)

  discover_contexts-lookup :
      (base_dir : Text) (contexts : Dict Text ContextConfig) (d d' : Discovered)
      → All (λ e. contains e.0 slash ≡ false) contexts
      → discover_contexts H discovery base_dir contexts d ≡ ok d'
      → lookup key d'.stacks
        ≡ or_else (stack_of H discovery base_dir contexts context name) (lookup key d.stacks)
  unfolding discover_contexts
  discover_contexts-lookup base_dir [] d d' plains h = ground (arith, h)
  discover_contexts-lookup base_dir ((c, cfg) ∷ contexts) d d' plains h =
      let dir = H.join base_dir c in
      let (d₁, first, rest) = >>=-eq-ok (stacks_in H discovery c dir (H.stat dir) d) _ h in
      ground (
        arith,
        text_beq_iff c context,
        stacks_in-lookup c dir (H.stat dir) d d₁ plains.0 first,
        discover_contexts-lookup base_dir contexts d₁ d' plains.1 rest,
      )

-- Of contexts without a slash in their names, into no stacks, a discovery that succeeds has found
-- for every context and name what the file system has there: a stack where the context is
-- declared, its directory is one, and in that one there is a directory of the name with a compose
-- file; and nothing else.
pub discover_resources-stack_of :
    (H : Machine) (base_dir : Text) (c c' : Config) (context name : Text)
    → contains context slash ≡ false
    → All (λ e. contains e.0 slash ≡ false) c.contexts
    → c.discovered_stacks ≡ []
    → discover_resources H base_dir c ≡ ok c'
    → lookup (make_stack_key context name) c'.discovered_stacks
      ≡ stack_of H c.discovery base_dir c.contexts context name
unfolding discover_resources
discover_resources-stack_of H base_dir c c' context name plain plains start h =
    let before : Discovered = record {
      stacks = c.discovered_stacks;
      filesets = c.discovered_filesets;
    } in
    let (d, found, h₁) =
      >>=-eq-ok (discover_contexts H c.discovery base_dir c.contexts before) _ h in
    ground (
      arith,
      h₁,
      start,
      discover_contexts-lookup H c.discovery context name plain base_dir c.contexts before d plains
          found,
    )
