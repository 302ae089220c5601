-- ===== src/Manifest/Loader/Loaded.antt =====
-- The configuration that loading gives: discovery, normalisation and validation together.
use dockform.Base.{
  ◌≡◌, refl, sym, ap, ◌∙◌, true, false, Option, some, List, [], ◌∷◌, All, All-map, Distinct,
  contains, is_some, nat_eq, arith,
}
use mathlib.Core.Path.{subst}
use dockform.Base.Text.{Text, codes, text_eq}
use dockform.Base.Dict.{keys, has, lookup}
use dockform.Base.Result.{Result, ok}
use dockform.Manifest.Machine.{exists, Machine}
use dockform.Manifest.Key.{slash, parse_stack_key, make_stack_key}
use dockform.Manifest.Types.{Stack, ContextConfig, Config}
use dockform.Manifest.Merge.{get_all_stacks}
use dockform.Manifest.Validate.{all_of}
use dockform.Manifest.Discover.Spec.{stack_of, is_stack}
use dockform.Manifest.Discover.Compose.{stack_of-is_stack}
use dockform.Manifest.Discover.Found.{discover_resources-stack_of}
use dockform.Manifest.Normalize.Checks.{context_code}
use dockform.Manifest.Normalize.Accepted.{context_fine}
use dockform.Manifest.Normalize.Settled.{Settled}
use dockform.Manifest.Normalize.Valid.{steps, normalize_and_validate-Accepted}
use dockform.Manifest.Normalize.Seen.{normalize_stacks-has, normalize_and_validate-Settled}
use dockform.Manifest.Loader.{read_manifest, load_with_warnings}
use dockform.Manifest.Loader.Run.{load_run, discover_resources-Left}

-- What YAML gives: no computed field is set, and each explicit stack has its key once.
abbrev pub Fresh : (Text → Result Text Config) → Type 0
Fresh decode =
    (text : Text) (c : Config)
    → decode text ≡ ok c
    → (c.discovered_stacks ≡ []) × Distinct (keys c.stacks)

code_plain : (s : Text) → all_of context_code s ≡ true → contains s slash ≡ false
code_plain [] h = refl
code_plain (c ∷ s) h = ground (arith, h, code_plain s)

context_plain : (e : Text × ContextConfig) → context_fine e ≡ true → contains e.0 slash ≡ false
context_plain e h = code_plain e.0 (ground (arith, h))

module _ (H : Machine) (env : Text → Option Text) (decode : Text → Result Text Config)
    (fresh : Fresh decode) (path : Text) (c' : Config) (missing : List Text)
    (loaded : load_with_warnings H env decode path ≡ ok (c', missing)) where
  -- Where YAML sets no computed field: every stack that a loaded manifest gives for a key with two
  -- parts has its root computed, only secrets in files `.env`, and no bind mount in the compose
  -- files that can be read.
  pub load_with_warnings-Settled :
      (key context name : Text) (s : Stack)
      → parse_stack_key key ≡ ok (context, name)
      → lookup key (get_all_stacks c') ≡ some s
      → Settled H s
  load_with_warnings-Settled key context name s parsed found =
      let r = load_run H env decode path c' missing loaded in
      let (none_yet, once) = fresh r.text r.read r.decoded_ok in
      let start : Config = record r.read { base_dir = r.base } in
      let l = discover_resources-Left H r.base start r.found none_yet r.discovered in
      normalize_and_validate-Settled H r.base r.found c' key context name s
        (subst (λ d. Distinct (keys d)) (sym l.same_stacks) once) l.once parsed r.normal found

  found_stack_of :
      (context name : Text)
      → contains context slash ≡ false
      → has (make_stack_key context name) c'.discovered_stacks
        ≡ is_some (stack_of H c'.discovery c'.base_dir c'.contexts context name)
  found_stack_of context name plain =
      let r = load_run H env decode path c' missing loaded in
      let (none_yet, once) = fresh r.text r.read r.decoded_ok in
      let start : Config = record r.read { base_dir = r.base } in
      let l = discover_resources-Left H r.base start r.found none_yet r.discovered in
      let st = steps H r.base r.found c' r.normal in
      let (accepted, valid) = normalize_and_validate-Accepted H r.base r.found c' r.normal in
      let plains : All (λ (e : Text × ContextConfig). contains e.0 slash ≡ false) r.read.contexts =
        subst (λ d. All (λ (e : Text × ContextConfig). contains e.0 slash ≡ false) d)
          l.same_contexts
          (All-map (λ e. context_fine e ≡ true) (λ e. contains e.0 slash ≡ false) context_plain
            r.found.contexts accepted.2) in
      let key = make_stack_key context name in
      let there =
        discover_resources-stack_of H r.base start r.found context name plain plains none_yet
          r.discovered in
      let kept =
        normalize_stacks-has H r.base key (get_all_stacks (record r.found { stacks = st.explicit }))
          (st.explicit, r.found.discovered_stacks) st.maps st.stacks_normalized in
      ap (has key) st.result_discovered
      ∙ kept
      ∙ ap is_some there
      ∙ ap (λ b. is_some (stack_of H r.read.discovery b r.read.contexts context name))
          (sym (st.result_base_dir ∙ l.same_base_dir))
      ∙ ap (λ b. is_some (stack_of H b c'.base_dir r.read.contexts context name))
          (sym (st.result_discovery ∙ l.same_discovery))
      ∙ ap (λ b. is_some (stack_of H c'.discovery c'.base_dir b context name))
          (sym (st.result_contexts ∙ l.same_contexts))

  -- Where YAML sets no computed field and no file has the empty path: a manifest that is loaded was
  -- read from a file, and it has a discovered stack for a context, whose name has no slash, and a name,
  -- exactly if the context is declared, its directory beside that file is a directory that lists a
  -- directory of that name, and one of the names of compose files exists in there.
  pub load_with_warnings-is_stack :
      exists (H.stat []) ≡ false
      → (context name : Text) → contains context slash ≡ false
      → (file_path content : Text) × (read_manifest H (codes "manifest.Load") path
          ≡ ok (file_path, content))
        × (has (make_stack_key context name) c'.discovered_stacks
            ≡ is_stack H c'.discovery (H.dir file_path) c'.contexts context name)
  load_with_warnings-is_stack no_name context name plain =
      let r = load_run H env decode path c' missing loaded in
      let start : Config = record r.read { base_dir = r.base } in
      let l =
        discover_resources-Left H r.base start r.found (fresh r.text r.read r.decoded_ok).0
          r.discovered in
      let st = steps H r.base r.found c' r.normal in
      let beside : c'.base_dir ≡ H.dir r.file_path =
        st.result_base_dir ∙ l.same_base_dir ∙ r.beside in
      (
        r.file_path,
        r.content,
        r.read_ok,
        found_stack_of context name plain
            ∙ ap (λ b. is_some (stack_of H c'.discovery b c'.contexts context name)) beside
            ∙ stack_of-is_stack H c'.discovery no_name (H.dir r.file_path) c'.contexts context name,
      )
