-- ===== src/Manifest/BindMounts/Refused.antt =====
-- A stack is refused for a bind mount in one of its files.
use dockform.Base.{
  ℕ, ◌≡◌, refl, inl, inr, true, List, [], ◌∷◌, ◌++◌, ◌==◌, map, contains, contains-set_of, arith,
  Bool-cases,
}
use dockform.Base.Text.{Text, text_eq, text_beq_iff}
use dockform.Base.Trim.{trim_space}
use dockform.Base.Result.{Result, ok, err}
use dockform.Apperr.{Err}
use dockform.Manifest.Machine.{Machine}
use dockform.Manifest.Types.{Stack}
use dockform.Manifest.BindMounts.{
  matches_from, detect_bind_mounts, compose_path, add_mounts, mounts_in, refuse_mounts,
  validate_bind_mounts_in_compose_file,
}
use dockform.Manifest.BindMounts.Detected.{
  Prefix, prefix_text, bind_line, bind_line_fine, match_line-bind_line, line_after,
  matches_from-append, matches_from-match_line, contains-map,
}

detect_bind_mounts-bind_line :
    (before indent : Text) (g : ℕ) (gap : Text) (p : Prefix) (c : ℕ) (path rest : Text)
    → line_after true before ≡ true
    → bind_line_fine indent g gap c path ≡ true
    → contains
        (detect_bind_mounts (before ++ bind_line indent g gap p c path rest))
        (trim_space (prefix_text p ++ (c ∷ path)))
      ≡ true
unfolding detect_bind_mounts
detect_bind_mounts-bind_line before indent g gap p c path rest starts fine =
    let line = bind_line indent g gap p c path rest in
    let mount = prefix_text p ++ (c ∷ path) in
    let found = matches_from true (before ++ line) in
    let here =
      matches_from-match_line line mount (match_line-bind_line indent g gap p c path rest fine) in
    let there = matches_from-append true before line mount starts here in
    ground (
      arith,
      contains-set_of (map trim_space found) [] (trim_space mount),
      contains-map trim_space found mount there,
    )

module _ (H : Machine) (root : Text) where
  add_mounts-keeps :
      (r : Result Err Text) (seen : List Text) (m : Text)
      → contains seen m ≡ true
      → contains (add_mounts H r seen) m ≡ true
  add_mounts-keeps (err e) seen m h = h
  add_mounts-keeps (ok content) seen m h =
      ground (arith, contains-set_of (detect_bind_mounts content) seen m, h)

  mounts_in-keeps :
      (paths seen : List Text) (m : Text)
      → contains seen m ≡ true
      → contains (mounts_in H root paths seen) m ≡ true
  unfolding mounts_in
  mounts_in-keeps [] seen m h = h
  mounts_in-keeps (path ∷ paths) seen m h =
      let read = H.read_file (compose_path H root path) in
      mounts_in-keeps paths (add_mounts H read seen) m (add_mounts-keeps read seen m h)

  mounts_in-file :
      (paths seen : List Text) (path content m : Text)
      → contains paths path ≡ true
      → H.read_file (compose_path H root path) ≡ ok content
      → contains (detect_bind_mounts content) m ≡ true
      → contains (mounts_in H root paths seen) m ≡ true
  unfolding mounts_in
  mounts_in-file [] seen path content m h read found = absurd (ground (arith, h))
  mounts_in-file (x ∷ paths) seen path content m h read found =
      let first = H.read_file (compose_path H root x) in
      elim (Bool-cases (x == path)) [
        | inl same ↦
            let there : contains (add_mounts H first seen) m ≡ true = ground (
              arith,
              read,
              found,
              text_beq_iff x path,
              contains-set_of (detect_bind_mounts content) seen m,
            ) in
            mounts_in-keeps paths (add_mounts H first seen) m there
        | inr other ↦
            mounts_in-file paths (add_mounts H first seen) path content m (ground (arith, h, other))
              read found
      ]

refuse_mounts-err :
    (H : Machine) (key : Text) (mounts : List Text) (m : Text)
    → contains mounts m ≡ true
    → (e : Err) × (refuse_mounts H key mounts ≡ err e)
refuse_mounts-err H key [] m h = absurd (ground (arith, h))
refuse_mounts-err H key (x ∷ mounts) m h = (_, refl)

-- A stack with a compose file that can be read and that has, at the start of the text or of any
-- of its lines, white space, a dash, white space and then a path that begins with `./`, `../` or
-- `~/` and goes on to a colon, is refused.
pub validate_bind_mounts_in_compose_file-bind_line :
    (H : Machine) (key : Text) (stack : Stack) (file before indent : Text) (g : ℕ) (gap : Text)
    (p : Prefix) (c : ℕ) (path rest : Text)
    → contains stack.files file ≡ true
    → H.read_file (compose_path H stack.root file)
      ≡ ok (before ++ bind_line indent g gap p c path rest)
    → line_after true before ≡ true
    → bind_line_fine indent g gap c path ≡ true
    → (e : Err) × (validate_bind_mounts_in_compose_file H key stack ≡ err e)
unfolding validate_bind_mounts_in_compose_file
validate_bind_mounts_in_compose_file-bind_line H key stack file before indent g gap p c path rest
      has read starts fine =
    let mount = trim_space (prefix_text p ++ (c ∷ path)) in
    let content = before ++ bind_line indent g gap p c path rest in
    let found = detect_bind_mounts-bind_line before indent g gap p c path rest starts fine in
    refuse_mounts-err H key (mounts_in H stack.root stack.files []) mount
      (mounts_in-file H stack.root stack.files [] file content mount has read found)
