-- ===== src/Commands/Prepare.antt =====
-- The commands and the environment of the jobs of an `add` (src/queuer/daemon.py): each program is
-- resolved and must be there, and the layers of variables are put together.
use custom_queuer.Prelude.{
  Bool, List, Option, [], codes, exists, if◌then◌else◌, is_some, map, none, not, select, some, ℕ,
  ◌++◌, ◌||◌, ◌∷◌,
}
use custom_queuer.Tables.{
  Result, Text, argv_arg, bad_arg, no_such_directory, not_executable, nul_byte, ok, raise,
  raw_argv_arg,
}
use custom_queuer.Args.{Json, natural, text_list, truthy, ◌>>=◌}
use custom_queuer.JobEnv.{Env, env_get, env_set, env_update, has_nul, passthrough_key}
use custom_queuer.Resolve.{Paths, resolve_command}
use custom_queuer.Commands.Specs.{Spec}

-- `(raw argv, resolved argv, index)`
pub record Prepared : Type 0 where
  pub raw_cmd : List Text
  pub resolved_cmd : List Text
  pub index : Option ℕ

abbrev raw_of : Json → List Text → Option (List Text)
raw_of raw argv = if truthy raw then text_list raw else some argv

abbrev program_of : List Text → Text
program_of [] = []
program_of (p ∷ ws) = p

abbrev pub any_nul : List Text → Bool
any_nul words = exists (λ w. has_nul w) words

-- One job of the loop that resolves the commands; the cache of an array only saves work.
abbrev prepare_words :
    Paths → Text → Option Text → Bool → Option ℕ → List Text → Option (List Text) → Result Prepared
prepare_words paths cwd client_path env_nul index argv none = raise (bad_arg raw_argv_arg)
prepare_words paths cwd client_path env_nul index argv (some raw) =
    let resolved = resolve_command paths argv cwd client_path in
    if any_nul argv || any_nul raw || has_nul cwd
    then raise nul_byte
    else if env_nul
    then raise nul_byte
    else if not (paths.is_dir cwd)
    then raise no_such_directory
    else if not (paths.is_executable (program_of resolved))
    then raise not_executable
    else ok (record { raw_cmd = raw; resolved_cmd = resolved; index = index })

abbrev prepare_one : Paths → Text → Option Text → Bool → Spec → Option (List Text) → Result Prepared
prepare_one paths cwd client_path env_nul s none = raise (bad_arg argv_arg)
prepare_one paths cwd client_path env_nul s (some argv) =
    prepare_words paths cwd client_path env_nul (natural s.index) argv (raw_of s.raw_argv argv)

unfoldable pub prepare : Paths → Text → Option Text → Bool → List Spec → Result (List Prepared)
unfolding exists resolve_command
prepare paths cwd client_path env_nul [] = ok []
prepare paths cwd client_path env_nul (s ∷ ss) = do
  p ← prepare_one paths cwd client_path env_nul s (text_list s.argv)
  ps ← prepare paths cwd client_path env_nul ss
  ok (p ∷ ps)

abbrev set_some : Text → Option Text → Env → Env
set_some name none env = env
set_some name (some v) env = env_set name v env

-- ",".join(names)
unfoldable pub join_commas : List Text → Text
join_commas [] = []
join_commas (n ∷ []) = n
join_commas (n ∷ m ∷ ns) = n ++ b',' ∷ join_commas (m ∷ ns)

abbrev mark_passed : List Text → Env → Env
mark_passed [] env = env
mark_passed (n ∷ ns) env = env_set passthrough_key (join_commas (n ∷ ns)) env

-- The layers of the environment; `passed` are the copied names that `--env` does not set.
unfoldable pub layered_env :
    (List Text → List Text)
    → (env_pass env_explicit : Env) → (path venv python_path : Option Text) → Env
unfolding env_set env_update select env_get join_commas
layered_env sort_names env_pass env_explicit path venv python_path =
    let passed =
      sort_names
        (map (λ (k, v). k) (select (λ (k, v). not (is_some (env_get k env_explicit))) env_pass)) in
    mark_passed passed (
      env_update env_explicit (
        set_some (codes "PYTHONPATH") python_path
          (set_some (codes "VIRTUAL_ENV") venv (set_some (codes "PATH") path env_pass))))
