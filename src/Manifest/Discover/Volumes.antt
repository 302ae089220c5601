-- ===== src/Manifest/Discover/Volumes.antt =====
-- Which filesets are found: the directories in the volumes directory of each stack.
use dockform.Base.{
  ◌≡◌, inl, inr, false, not, ◌&&◌, List, [], ◌∷◌, ◌==◌, if◌then◌else◌, contains, All, nat_eq, arith,
  Bool-cases,
}
use dockform.Base.Text.{Text, text_eq, text_beq_iff}
use dockform.Base.Dict.{Dict, lookup, insert, lookup-insert}
use dockform.Base.Result.{ok, >>=-eq-ok, Result-cases}
use dockform.Manifest.Key.{slash, make_stack_key, make_stack_key-eq}
use dockform.Manifest.Types.{
  FilesetSpec, ContextConfig, DiscoveryConfig, Config, get_secrets_file, get_volumes_dir,
}
use dockform.Manifest.Machine.{Stat, directory, file, not_exist, failed, DirEntry, Machine}
use dockform.Manifest.Discover.{
  Discovered, find_file, fileset_key, fileset_found, fileset_entries, filesets_in,
  discover_filesets, add_found, stack_entries, stacks_in, discover_contexts, discover_resources,
}
use dockform.Manifest.Discover.Spec.{
  PlainNames, has_dir, some_if, or_else, compose_of, has_stack, fileset_under, volume_in,
  volume_under, fileset_of,
}

fileset_key-eq :
    (c s v c' s' v' : Text)
    → contains c slash ≡ false
    → contains c' slash ≡ false
    → contains s slash ≡ false
    → contains s' slash ≡ false
    → (fileset_key c s v == fileset_key c' s' v') ≡ (c == c' && (s == s' && v == v'))
fileset_key-eq c s v c' s' v' hc hc' hs hs' = ground (
  arith,
  make_stack_key-eq c (make_stack_key s v) c' (make_stack_key s' v') hc hc',
  make_stack_key-eq s v s' v' hs hs',
)

module _ (H : Machine) (discovery : DiscoveryConfig) (context stack volume : Text)
    (plain_context : contains context slash ≡ false) (plain_stack : contains stack slash ≡ false)
    (plain_names : PlainNames H) where
  abbrev key : Text
  key = fileset_key context stack volume

  fileset_entries-lookup :
      (c s dir : Text) (es : List DirEntry) (d : Dict Text FilesetSpec)
      → contains c slash ≡ false
      → contains s slash ≡ false
      → lookup key (fileset_entries H discovery c s dir es d)
        ≡ some_if
            (c == context && (s == stack && has_dir volume es))
            (fileset_found c s volume (H.join dir volume))
            (lookup key d)
  unfolding fileset_entries
  fileset_entries-lookup c s dir [] d pc ps = ground arith
  fileset_entries-lookup c s dir (e ∷ es) d pc ps = elim (Bool-cases e.is_dir) [
    | inr other ↦ ground (arith, other, fileset_entries-lookup c s dir es d pc ps)
    | inl is_dir ↦
        let fs = fileset_found c s e.name (H.join dir e.name) in
        ground (
          arith,
          is_dir,
          text_beq_iff e.name volume,
          fileset_entries-lookup c s dir es (insert (fileset_key c s e.name) fs d) pc ps,
          fileset_key-eq c s e.name context stack volume pc plain_context ps plain_stack,
          lookup-insert (fileset_key c s e.name) key fs d,
        )
  ]

  filesets_in-lookup :
      (c s dir : Text) (st : Stat) (d d' : Dict Text FilesetSpec)
      → contains c slash ≡ false
      → contains s slash ≡ false
      → filesets_in H discovery c s dir st d ≡ ok d'
      → lookup key d' ≡ (
          if c == context && s == stack
          then or_else (fileset_under H discovery c s dir volume st) (lookup key d)
          else lookup key d)
  filesets_in-lookup c s dir directory d d' pc ps h = elim (Result-cases (H.read_dir dir)) [
    | inr (e, unread) ↦ ground (arith, h, unread)
    | inl (es, read) ↦ ground (arith, h, read, fileset_entries-lookup c s dir es d pc ps)
  ]
  filesets_in-lookup c s dir file d d' pc ps h = ground (arith, h)
  filesets_in-lookup c s dir (not_exist e) d d' pc ps h = ground (arith, h)
  filesets_in-lookup c s dir (failed e) d d' pc ps h = ground (arith, h)

  added-lookup :
      (c n dir secrets compose : Text) (d d' : Discovered)
      → contains c slash ≡ false
      → contains n slash ≡ false
      → add_found H discovery c n dir secrets compose d ≡ ok d'
      → lookup key d'.filesets ≡ (
          if c == context && (n == stack && not (compose == []))
          then or_else (volume_in H discovery c n dir volume) (lookup key d.filesets)
          else lookup key d.filesets)
  unfolding discover_filesets
  added-lookup c n dir secrets [] d d' pc pn h = ground (arith, h, text_beq_iff [] [])
  added-lookup c n dir secrets (x ∷ compose) d d' pc pn h =
      let (filesets, found, h₁) =
        >>=-eq-ok (discover_filesets H discovery c n dir d.filesets) _ h in
      let inner = H.join dir (get_volumes_dir discovery) in
      ground (
        arith,
        h₁,
        text_beq_iff (x ∷ compose) [],
        filesets_in-lookup c n inner (H.stat inner) d.filesets filesets pc pn found,
      )

  entry-volume :
      (c dir secrets : Text) (e : DirEntry) (d d' : Discovered)
      → contains c slash ≡ false
      → contains e.name slash ≡ false
      → (if e.is_dir
          then add_found H discovery c e.name
              (H.join dir e.name)
              secrets
              (compose_of H discovery (H.join dir e.name))
              d
          else ok d)
        ≡ ok d'
      → lookup key d'.filesets ≡ (
          if c == context
            && ((e.is_dir && e.name == stack)
                && not (compose_of H discovery (H.join dir stack) == []))
          then or_else
              (volume_in H discovery c stack (H.join dir stack) volume)
              (lookup key d.filesets)
          else lookup key d.filesets)
  entry-volume c dir secrets e d d' pc pn h = elim (Bool-cases e.is_dir) [
    | inr other ↦ ground (arith, h, other)
    | inl is_dir ↦
        let added : add_found H discovery c e.name (H.join dir e.name) secrets
              (compose_of H discovery (H.join dir e.name)) d
            ≡ ok d' =
          ground (arith, h, is_dir) in
        ground (
          arith,
          is_dir,
          text_beq_iff e.name stack,
          added-lookup c e.name (H.join dir e.name) secrets
              (compose_of H discovery (H.join dir e.name)) d d' pc pn added,
        )
  ]

  stack_entries-volume :
      (c dir secrets : Text) (es : List DirEntry) (d d' : Discovered)
      → contains c slash ≡ false
      → All (λ e. contains e.name slash ≡ false) es
      → stack_entries H discovery c dir secrets es d ≡ ok d'
      → lookup key d'.filesets ≡ (
          if c == context && has_stack H discovery dir stack es
          then or_else
              (volume_in H discovery c stack (H.join dir stack) volume)
              (lookup key d.filesets)
          else lookup key d.filesets)
  unfolding stack_entries
  stack_entries-volume c dir secrets [] d d' pc pn h = ground (arith, h)
  stack_entries-volume c dir secrets (e ∷ es) d d' pc pn h =
      let (d₁, first, rest) =
        >>=-eq-ok
          (if e.is_dir
            then add_found H discovery c e.name (H.join dir e.name) secrets
                (compose_of H discovery (H.join dir e.name)) d
            else ok d)
          _ h in
      ground (
        arith,
        entry-volume c dir secrets e d d₁ pc pn.0 first,
        stack_entries-volume c dir secrets es d₁ d' pc pn.1 rest,
      )

  stacks_in-volume :
      (c dir : Text) (st : Stat) (d d' : Discovered)
      → contains c slash ≡ false
      → stacks_in H discovery c dir st d ≡ ok d'
      → lookup key d'.filesets ≡ (
          if c == context
          then or_else (volume_under H discovery c dir stack volume st) (lookup key d.filesets)
          else lookup key d.filesets)
  stacks_in-volume c dir directory d d' pc h = elim (Result-cases (H.read_dir dir)) [
    | inr (e, unread) ↦ ground (arith, h, unread)
    | inl (es, read) ↦
        let secrets = find_file H discovery dir (get_secrets_file discovery) in
        let found : stack_entries H discovery c dir secrets es d ≡ ok d' =
          ground (arith, h, read) in
        ground (
          arith,
          read,
          stack_entries-volume c dir secrets es d d' pc (plain_names dir es read) found,
        )
  ]
  stacks_in-volume c dir file d d' pc h = ground (arith, h)
  stacks_in-volume c dir (not_exist e) d d' pc h = ground (arith, h)
  stacks_in-volume c dir (failed e) d d' pc h = ground (arith, h)

  discover_contexts-volume :
      (base_dir : Text) (contexts : Dict Text ContextConfig) (d d' : Discovered)
      → All (λ e. contains e.0 slash ≡ false) contexts
      → discover_contexts H discovery base_dir contexts d ≡ ok d'
      → lookup key d'.filesets
        ≡ or_else
            (fileset_of H discovery base_dir contexts context stack volume)
            (lookup key d.filesets)
  unfolding discover_contexts
  discover_contexts-volume base_dir [] d d' plains h = ground (arith, h)
  discover_contexts-volume base_dir ((c, cfg) ∷ contexts) d d' plains h =
      let dir = H.join base_dir c in
      let (d₁, first, rest) = >>=-eq-ok (stacks_in H discovery c dir (H.stat dir) d) _ h in
      ground (
        arith,
        text_beq_iff c context,
        stacks_in-volume c dir (H.stat dir) d d₁ plains.0 first,
        discover_contexts-volume base_dir contexts d₁ d' plains.1 rest,
      )

-- Of contexts without a slash in their names, on a file system whose directories list names
-- without one, into no filesets, a discovery that succeeds has found for every context, stack and
-- volume what the file system has there: a fileset where there is a stack and, in its volumes
-- directory, a directory of the name; and nothing else.
pub discover_resources-fileset_of :
    (H : Machine) (base_dir : Text) (c c' : Config) (context stack volume : Text)
    → contains context slash ≡ false
    → contains stack slash ≡ false
    → PlainNames H
    → All (λ e. contains e.0 slash ≡ false) c.contexts
    → c.discovered_filesets ≡ []
    → discover_resources H base_dir c ≡ ok c'
    → lookup (fileset_key context stack volume) c'.discovered_filesets
      ≡ fileset_of H c.discovery base_dir c.contexts context stack volume
unfolding discover_resources
discover_resources-fileset_of H base_dir c c' context stack volume pc ps plain_names plains start
      h =
    let before : Discovered = record {
      stacks = c.discovered_stacks;
      filesets = c.discovered_filesets;
    } in
    let (d, found, h₁) =
      >>=-eq-ok (discover_contexts H c.discovery base_dir c.contexts before) _ h in
    ground (
      arith,
      h₁,
      start,
      discover_contexts-volume H c.discovery context stack volume pc ps plain_names base_dir
          c.contexts before d plains found,
    )
