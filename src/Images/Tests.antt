-- ===== src/Images/Tests.antt =====
-- Versions that are numbers, a file with one image, and the theorems at them.
use dockform.Base.{ℕ, ◌≡◌, refl, true, Option, none, some, [], ◌∷◌, ltb, arith}
use dockform.Base.Text.{Text, codes, text_eq, text_beq}
use dockform.Base.Result.{ok}
use dockform.Registry.{ImageRef}
use dockform.Images.{Versions, Images, find_newer_tags, candidates, newest_first, place_newest}
use dockform.Images.Newest.{IsOrdered, IsNewest, find_newer_tags-IsNewest}
use dockform.Images.Upgrade.{FileSystem, rewrite_image_in_file, replace_all, replace_from}
use dockform.Images.Upgrade.Rewrite.{rewrite_image_in_file-replace_all}

-- A version is one digit.
abbrev digit_version : Text → Option ℕ
digit_version (c ∷ []) = some c
digit_version _ = none

abbrev digits : Versions
digits = record {
  Version = ℕ;
  new_version = digit_version;
  greater_than = λ a b. ltb b a;
  compile = λ _. ok (λ _. true);
}

digits-IsOrdered : IsOrdered digits
digits-IsOrdered = record {
  asymm = λ a b h. ground (arith, h);
  level = λ a b c h k. ground (arith, h, k);
}

abbrev hub : Images
hub = record {
  list_tags = λ _. ok (codes "3" ∷ codes "9" ∷ codes "latest" ∷ codes "7" ∷ []);
  get_remote_digest = λ _ _. ok (codes "d1");
  local_digest = λ _ _ _. ok (codes "d0");
}

abbrev app : ImageRef
app = record { registry = codes "r.io"; namespace = []; name = codes "app"; tag = codes "5" }

newer_run : find_newer_tags digits hub app (codes ".*") ≡ ok (codes "9" ∷ codes "7" ∷ [])
unfolding find_newer_tags candidates newest_first place_newest
newer_run = refl

find_newer_tags-IsNewest_example : IsNewest digits hub app (codes ".*") (codes "9")
find_newer_tags-IsNewest_example =
    find_newer_tags-IsNewest digits digits-IsOrdered hub app (codes ".*") (codes "9")
      (codes "7" ∷ []) newer_run

-- One file, of which the text is the state.
abbrev one_file : FileSystem
one_file = record { Files = Text; read_file = λ _ t. ok t; write_file = λ _ t _. (none, t) }

-- The image of another service has a longer tag.
rewrite_image_in_file-replace_all_example :
    rewrite_image_in_file one_file
      (codes "f")
      (codes "redis:7")
      (codes "redis:8")
      (codes "image: redis:7.2")
    ≡ (ok true, codes "image: redis:8.2")
unfolding replace_all replace_from text_beq
rewrite_image_in_file-replace_all_example =
    rewrite_image_in_file-replace_all one_file (codes "f") (codes "redis:7") (codes "redis:8")
      (codes "image: ") (codes ".2") (codes "image: redis:7.2") refl refl refl refl
