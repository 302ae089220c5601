-- ===== src/Manifest/Discover/Compose.antt =====
-- A stack is where a compose file is.
use dockform.Base.{
  ◌≡◌, refl, sym, ap, ◌∙◌, inl, inr, true, false, not, ◌&&◌, List, [], ◌∷◌, ◌==◌, is_some, any_of,
  arith, Bool-cases,
}
use dockform.Base.Text.{Text, text_eq, text_beq_iff}
use dockform.Base.Dict.{Dict, has}
use dockform.Base.Result.{Result, ok, err}
use dockform.Apperr.{Err}
use dockform.Manifest.Types.{ContextConfig, DiscoveryConfig, get_compose_files}
use dockform.Manifest.Machine.{Stat, directory, file, not_exist, failed, exists, DirEntry, Machine}
use dockform.Manifest.Discover.{find_compose_file}
use dockform.Manifest.Discover.Spec.{
  stack_under, listed_stack, stack_of, is_directory, lists_dir, has_compose, is_stack,
}

module _ (H : Machine) (discovery : DiscoveryConfig) (no_name : exists (H.stat []) ≡ false) where
  find_compose_file-exists :
      (dir : Text) (names : List Text)
      → not (find_compose_file H discovery dir names == [])
        ≡ any_of (λ name. exists (H.stat (H.join dir name))) names
  unfolding find_compose_file
  find_compose_file-exists dir [] = ground (arith, text_beq_iff [] [])
  find_compose_file-exists dir (name ∷ names) =
      let path = H.join dir name in
      elim (Bool-cases (exists (H.stat path))) [
        | inr absent ↦ rw (absent, find_compose_file) (find_compose_file-exists dir names)
        | inl there ↦ elim (Bool-cases (path == [])) [
          | inr named ↦ rw (there, find_compose_file) (ap not named)
          | inl empty ↦
              let same : exists (H.stat []) ≡ true =
                ap (λ p. exists (H.stat p)) (sym ((text_beq_iff path []).0 empty)) ∙ there in
              absurd (ground (arith, same, no_name))
        ]
      ]

  listed_stack-has_compose :
      (context dir name : Text) (r : Result Err (List DirEntry))
      → is_some (listed_stack H discovery context dir name r)
        ≡ (lists_dir name r && has_compose H discovery (H.join dir name))
  listed_stack-has_compose context dir name (err e) = refl
  listed_stack-has_compose context dir name (ok es) =
      ground (arith, find_compose_file-exists (H.join dir name) (get_compose_files discovery))

  stack_under-has_compose :
      (context dir name : Text) (s : Stat)
      → is_some (stack_under H discovery context dir name s) ≡ (
          is_directory s
          && (lists_dir name (H.read_dir dir) && has_compose H discovery (H.join dir name)))
  stack_under-has_compose context dir name directory =
      listed_stack-has_compose context dir name (H.read_dir dir)
  stack_under-has_compose context dir name file = refl
  stack_under-has_compose context dir name (not_exist e) = refl
  stack_under-has_compose context dir name (failed e) = refl

  -- Where no file has the empty path, the file system has a stack exactly where a declared context has
  -- a directory with a directory of that name, in which a compose file exists.
  pub stack_of-is_stack :
      (base_dir : Text) (contexts : Dict Text ContextConfig) (context name : Text)
      → is_some (stack_of H discovery base_dir contexts context name)
        ≡ is_stack H discovery base_dir contexts context name
  stack_of-is_stack base_dir contexts context name =
      let dir = H.join base_dir context in
      elim (Bool-cases (has context contexts)) [
        | inr other ↦ rw other refl
        | inl there ↦ rw there (stack_under-has_compose context dir name (H.stat dir))
      ]
