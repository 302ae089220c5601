-- ===== src/Util/Path/Tests.antt =====
-- Cleaned and joined paths.
use dockform.Base.{◌≡◌, refl, []}
use dockform.Base.Text.{codes, text_beq}
use dockform.Util.Path.{clean, join}

cleaned :
    (clean (codes "/a//b/./c/..") ≡ codes "/a/b")
    × (clean (codes "/..") ≡ codes "/")
    × (clean (codes "a/../..") ≡ codes "..")
    × (clean [] ≡ codes ".")
unfolding clean text_beq
cleaned = (refl, refl, refl, refl)

joined : join (codes "/data") (codes "x/y") ≡ codes "/data/x/y"
unfolding join text_beq
joined = refl
