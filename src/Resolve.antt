-- ===== src/Resolve.antt =====
-- src/queuer/pathresolve.py: only the program of a command is resolved, every other word is left as
-- it was typed. The functions of `os.path` and `shutil.which` are the parameter `Paths`.
use custom_queuer.Prelude.{Bool, List, Option, [], exists, if◌then◌else◌, none, some, ◌==◌, ◌∷◌}
use custom_queuer.Tables.{Text}

pub record Paths : Type 0 where
  -- os.path.abspath, os.path.join, Path(cwd) / token, Path.exists, shutil.which with a PATH
  pub abspath : Text → Text
  pub join : Text → Text → Text
  pub below : Text → Text → Text
  pub path_exists : Text → Bool
  pub which : Text → Option Text → Option Text
  -- os.path.isdir, and os.path.isfile with os.access(..., X_OK)
  pub is_dir : Text → Bool
  pub is_executable : Text → Bool

module _ (paths : Paths) where
  open paths use {abspath, join, below, path_exists, which}

  abbrev found_program : Text → Option Text → Text
  found_program token none = token
  found_program token (some path) = abspath path

  -- _resolve_program
  unfoldable pub resolve_program : Text → Text → Option Text → Text
  unfolding exists
  resolve_program [] cwd path_env = []
  resolve_program (a ∷ as_) cwd path_env =
      if exists (λ c. c == b'/') (a ∷ as_)
      then abspath (join cwd (a ∷ as_))
      else if path_exists (below cwd (a ∷ as_))
      then abspath (below cwd (a ∷ as_))
      else found_program (a ∷ as_) (which (a ∷ as_) path_env)

  unfoldable pub resolve_command : List Text → Text → Option Text → List Text
  unfolding resolve_program
  resolve_command [] cwd path_env = []
  resolve_command (program ∷ words) cwd path_env = resolve_program program cwd path_env ∷ words
