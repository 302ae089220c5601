-- ===== src/Util/Shell/Tests.antt =====
-- Escaped texts, read back.
use dockform.Base.{◌≡◌, refl, some, ◌++◌}
use dockform.Base.Text.{codes}
use dockform.Util.Shell.{shell_escape, quoted, shell_word, shell_word-shell_escape}

mixed : shell_word (quoted (codes "a'b; rm") ++ codes " x") ≡ some (codes "a'b; rm", codes " x")
unfolding shell_word shell_escape
mixed = refl

shell_word-shell_escape_example :
    shell_word (quoted (codes "it's") ++ codes " x") ≡ some (codes "it's", codes " x")
shell_word-shell_escape_example = shell_word-shell_escape (codes "it's") (codes " x") refl
