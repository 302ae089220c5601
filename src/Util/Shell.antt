-- ===== src/Util/Shell.antt =====
-- internal/util/strings.go: `ShellEscape`, against the rules by which a POSIX shell reads a word.
mod Tests
use mathlib.Core.List.{append_assoc}
use dockform.Base.{
  ℕ, ◌≡◌, refl, ◌∙◌, ap, Bool, true, false, ◌||◌, Option, none, some, List, [], ◌∷◌, ◌++◌, ◌==◌,
  nat_beq, nat_beq_iff, nat_eq, if◌then◌else◌, contains, arith,
}
use dockform.Base.Text.{Text, codes}

abbrev quote : ℕ
quote = b'\''

abbrev backslash : ℕ
backslash = b'\\'

-- `strings.ReplaceAll(s, "'", "'\\''")`
unfoldable pub shell_escape : Text → Text
shell_escape [] = []
shell_escape (c ∷ s) =
    (if nat_beq c quote then quote ∷ backslash ∷ quote ∷ quote ∷ [] else c ∷ []) ++ shell_escape s

-- `'` + ShellEscape(s) + `'`, as the scripts hold it.
abbrev pub quoted : Text → Text
quoted s = quote ∷ (shell_escape s ++ (quote ∷ []))

-- How the shell reads: outside quotes, inside single quotes, behind a backslash.
pub data Mode : Type 0 where
  plain in_quotes escaped : Mode

abbrev pub blank : ℕ → Bool
blank c = contains (codes " \t\n") c

abbrev pub push : ℕ → Option (Text × Text) → Option (Text × Text)
push c none = none
push c (some (word, rest)) = some (c ∷ word, rest)

abbrev push_all : Text → Option (Text × Text) → Option (Text × Text)
push_all [] r = r
push_all (c ∷ s) r = push c (push_all s r)

-- What the shell gives a meaning to outside quotes.
abbrev pub special : ℕ → Bool
special c = contains (codes "$`\"|&;<>()*?[#~=%{}!") c

-- The word that the shell reads, and what follows it; none, where a quote is not closed or a
-- character outside quotes is special.
unfoldable read_word : Mode → Text → Option (Text × Text)
read_word plain [] = some ([], [])
read_word in_quotes [] = none
read_word escaped [] = none
read_word in_quotes (c ∷ s) =
    let close = read_word plain s in
    let more = read_word in_quotes s in if nat_beq c quote then close else push c more
read_word escaped (c ∷ s) = push c (read_word plain s)
read_word plain (c ∷ s) =
    let open_quote = read_word in_quotes s in
    let literal = read_word escaped s in
    let more = read_word plain s in
    if blank c
    then some ([], c ∷ s)
    else if nat_beq c quote
    then open_quote
    else if nat_beq c backslash
    then literal
    else if special c
    then none
    else push c more

unfoldable pub shell_word : Text → Option (Text × Text)
unfolding read_word
shell_word = read_word plain

read_word-shell_escape :
    (s rest : Text)
    → read_word in_quotes (shell_escape s ++ (quote ∷ rest)) ≡ push_all s (read_word plain rest)
unfolding read_word shell_escape
read_word-shell_escape [] rest = refl
read_word-shell_escape (c ∷ s) rest =
    ground (arith, read_word-shell_escape s rest, nat_beq_iff c quote)

abbrev ends_word : Text → Bool
ends_word [] = true
ends_word (c ∷ s) = blank c

push_all_lem : (s rest : Text) → push_all s (some ([], rest)) ≡ some (s, rest)
push_all_lem [] rest = refl
push_all_lem (c ∷ s) rest = ap (push c) (push_all_lem s rest)

read_word-end : (rest : Text) → ends_word rest ≡ true → read_word plain rest ≡ some ([], rest)
unfolding read_word
read_word-end [] h = refl
read_word-end (c ∷ s) h = ground arith

append-quote :
    (s rest : Text) → (shell_escape s ++ (quote ∷ [])) ++ rest ≡ shell_escape s ++ (quote ∷ rest)
append-quote s rest = append_assoc (shell_escape s) (quote ∷ []) rest

-- Whatever a text holds, the shell reads its escaped form between single quotes as one word, the
-- text itself, if the end of the script or a blank follows.
pub shell_word-shell_escape :
    (s rest : Text) → ends_word rest ≡ true → shell_word (quoted s ++ rest) ≡ some (s, rest)
unfolding shell_word
shell_word-shell_escape s rest h =
    rw (append-quote s rest)
      (read_word-shell_escape s rest ∙ ap (push_all s) (read_word-end rest h) ∙ push_all_lem s rest)
