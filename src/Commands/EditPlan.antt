-- ===== src/Commands/EditPlan.antt =====
-- The first half of `_cmd_edit` (src/queuer/daemon.py): from the job and the arguments that are
-- there, what to change. An absent argument is none, one that is null is `some null`.
use custom_queuer.Prelude.{
  Bool, List, Option, [], codes, exists, false, if◌then◌else◌, is_nil, is_some, length, none, not,
  select, some, true, ℕ, ◌&&◌, ◌++◌, ◌==◌, ◌||◌, ◌∷◌,
}
use custom_queuer.Tables.{
  ArgName, OnFail, Result, Text, argv_arg, bad_arg, continue, cwd_arg, not_executable, nul_byte, ok,
  other_on_fail, path_arg, pause, raise, raw_argv_arg, text_eq,
}
use custom_queuer.EditJob.{Update}
use custom_queuer.Args.{Json, guard, is_null, text_list, text_of, value_or, ◌>>=◌, ◌>>◌}
use custom_queuer.JobEnv.{Env, env_get, env_pop, env_set, has_nul, passthrough_key}
use custom_queuer.Resolve.{Paths, resolve_command}
use custom_queuer.Commands.Prepare.{any_nul, join_commas}

pub record EditArgs : Type 0 where
  pub argv : Option Json
  pub raw_argv : Json
  pub path : Json
  pub virtual_env : Json
  pub python_path : Json
  pub cwd : Option Json
  pub env : Option Json
  pub timeout_secs : Option Json
  pub max_retries : Option Json
  pub on_fail : Option Json
  pub on_finish : Option Json
  pub on_error : Option Json
  pub stop_signal : Option Json
  pub stop_grace : Option Json
  pub not_before : Option Json
  pub clear_deps : Json
  pub depends_on : Option Json
  pub after_any : Option Json
  pub channel : Option Json

-- The words of `changed`.
pub data Change : Type 0 where
  cwd_changed command_changed env_changed timeout_changed retries_changed : Change
  on_fail_changed on_finish_changed on_error_changed signal_changed grace_changed : Change
  time_changed deps_changed channel_changed : Change

-- `updates` and `changed`.
pub record Edit : Type 0 where
  pub updates : List Update
  pub changed : List Change

abbrev pub put_change : Bool → List Update → Change → Edit → Edit
put_change false us change edit = edit
put_change true us change edit = record {
  updates = edit.updates ++ us;
  changed = edit.changed ++ change ∷ [];
}

abbrev pub same_option : {A : Type 0} → (A → A → Bool) → Option A → Option A → Bool
same_option same none none = true
same_option same none (some b) = false
same_option same (some a) none = false
same_option same (some a) (some b) = same a b

abbrev pub same_number : ℕ → ℕ → Bool
same_number a b = a == b

abbrev pub same_on_fail : OnFail → OnFail → Bool
same_on_fail continue continue = true
same_on_fail pause pause = true
same_on_fail (other_on_fail s) (other_on_fail t) = text_eq s t
same_on_fail _ _ = false

-- Dictionaries are equal whatever their order.
unfoldable pub env_within : Env → Env → Bool
unfolding env_get
env_within [] other = true
env_within ((k, v) ∷ env) other =
    same_option text_eq (some v) (env_get k other) && env_within env other

abbrev pub same_env : Env → Env → Bool
same_env a b = length a == length b && env_within a b

-- The directory of the command, and whether it is another one.
abbrev found_cwd : Option Text → Result Text
found_cwd none = raise (bad_arg cwd_arg)
found_cwd (some []) = raise (bad_arg cwd_arg)
found_cwd (some (c ∷ s)) = if has_nul (c ∷ s) then raise (bad_arg cwd_arg) else ok (c ∷ s)

abbrev pub new_cwd : Text → Option Json → Result Text
new_cwd old none = ok old
new_cwd old (some v) = found_cwd (text_of v)

-- _checked_argv
abbrev some_words : ArgName → Option (List Text) → Result (List Text)
some_words key none = raise (bad_arg key)
some_words key (some []) = raise (bad_arg key)
some_words key (some (w ∷ ws)) = ok (w ∷ ws)

-- None, or a string without NUL.
abbrev clean_found : Option Text → Result (Option Text)
clean_found none = raise (bad_arg path_arg)
clean_found (some s) = if has_nul s then raise (bad_arg path_arg) else ok (nonempty s)
  where
    nonempty : Text → Option Text
    nonempty [] = none
    nonempty (c ∷ s) = some (c ∷ s)

abbrev clean_text : Json → Result (Option Text)
clean_text v = if is_null v then ok none else clean_found (text_of v)

abbrev first_word : List Text → Text
first_word [] = []
first_word (w ∷ ws) = w

pub record NewCommand : Type 0 where
  pub raw_words : List Text
  pub resolved : List Text
  pub new_path : Option Text
  pub new_venv : Option Text
  pub new_python_path : Option Text

unfoldable pub checked_argv : Paths → EditArgs → Json → Text → Result NewCommand
unfolding resolve_command exists
checked_argv paths args argv cwd = do
  words ← some_words argv_arg (text_list argv)
  raw_words ← some_words raw_argv_arg (text_list (value_or args.raw_argv argv))
  guard (not (any_nul words || any_nul raw_words)) nul_byte
  path ← clean_text args.path
  venv ← clean_text args.virtual_env
  python_path ← clean_text args.python_path
  let resolved = resolve_command paths words cwd path
  guard (paths.is_executable (first_word resolved)) not_executable
  ok (record {
    raw_words = raw_words;
    resolved = resolved;
    new_path = path;
    new_venv = venv;
    new_python_path = python_path;
  })

-- The editing shell's variable replaces the job's, or removes it.
abbrev replace_var : Text → Option Text → Env → Env
replace_var name none env = env_pop name env
replace_var name (some value) env = env_set name value env

unfoldable pub command_env : NewCommand → Env → Env
unfolding env_set env_pop
command_env c env =
    replace_var (codes "PYTHONPATH") c.new_python_path
      (replace_var (codes "VIRTUAL_ENV") c.new_venv (replace_var (codes "PATH") c.new_path env))

-- The loop over `explicit`: the index of a sweep is not editable.
abbrev pub index_key : Text
index_key = codes "QUR_INDEX"

unfoldable pub merge_env : Env → Env → Env
unfolding env_set env_get text_eq
merge_env [] env = env
merge_env ((name, value) ∷ explicit) env = merge_env explicit (
    if not (text_eq name index_key) || not (is_some (env_get index_key env))
    then env_set name value env
    else env)

-- `text.split(",")`, the words that are not empty.
unfoldable pub split_commas : Text → Text → List Text
split_commas [] word = word_or_none word
  where
    word_or_none : Text → List Text
    word_or_none [] = []
    word_or_none (c ∷ s) = (c ∷ s) ∷ []
split_commas (c ∷ cs) word =
    if c == b','
    then (if is_nil word then split_commas cs [] else word ∷ split_commas cs [])
    else split_commas cs (word ++ c ∷ [])

abbrev pub put_names : List Text → Env → Env
put_names [] env = env_pop passthrough_key env
put_names (n ∷ ns) env = env_set passthrough_key (join_commas (n ∷ ns)) env

abbrev pub drop_passed : Env → Option Text → Env → Env
drop_passed explicit none env = env
drop_passed explicit (some names) env =
    put_names (select (λ n. not (is_some (env_get n explicit))) (split_commas names [])) env

unfoldable pub edited_env : Env → Env → Env
unfolding merge_env split_commas env_get env_pop env_set join_commas select
edited_env explicit env =
    drop_passed explicit (env_get passthrough_key (merge_env explicit env)) (merge_env explicit env)
