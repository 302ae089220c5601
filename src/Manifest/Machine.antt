-- ===== src/Manifest/Machine.antt =====
-- What the loading of the manifest asks of os, path/filepath and strconv, as a parameter. Files do
-- not change while a manifest is loaded.
use dockform.Base.{Bool, true, false, List}
use dockform.Base.Text.{Text}
use dockform.Base.Result.{Result}
use dockform.Apperr.{Err}

-- What `os.Stat` says of a path.
pub data Stat : Type 0 where
  directory file : Stat
  not_exist failed : Err → Stat

abbrev pub exists : Stat → Bool
exists directory = true
exists file = true
exists (not_exist e) = false
exists (failed e) = false

pub record DirEntry : Type 0 where
  pub name : Text
  pub is_dir : Bool

-- `base` is filepath.Base, `dir` is filepath.Dir, and `go_quote` writes a text as `%q` does.
pub record Machine : Type 0 where
  pub stat : Text → Stat
  pub read_dir : Text → Result Err (List DirEntry)
  pub read_file : Text → Result Err Text
  pub getwd : Result Err Text
  pub is_abs : Text → Bool
  pub abs : Text → Result Err Text
  pub join : Text → Text → Text
  pub clean : Text → Text
  pub rel : Text → Text → Result Err Text
  pub base : Text → Text
  pub dir : Text → Text
  pub go_quote : Text → Text
