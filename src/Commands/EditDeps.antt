-- ===== src/Commands/EditDeps.antt =====
-- The rest of what `_cmd_edit` (src/queuer/daemon.py) works out before it writes: the columns one by
-- one, the dependencies, and the channel.
use custom_queuer.Prelude.{
  Bool, List, Option, [], false, if◌then◌else◌, is_some, length, none, not, pos, select, some, true,
  ℕ, ◌&&◌, ◌++◌, ◌==◌, ◌||◌, ◌∷◌,
}
use custom_queuer.Tables.{
  Job, Mode, Result, Text, any, bad_arg, cannot_combine, clear_deps_arg, cwd_needs_command,
  depends_on_arg, no_such_directory, ok, other_mode, raise, success, text_eq,
}
use custom_queuer.Checks.{
  Python, Value, check_hook, check_stop_grace, check_stop_signal, int_value, none_value, str_value,
}
use custom_queuer.Deps.{DepInfo}
use custom_queuer.EditJob.{Update}
use custom_queuer.Args.{
  IsoTime, Json, boolean, check_channel, check_retries, check_timeout, dep_args, guard, is_null,
  object, parse_not_before, put_dep, put_deps, text_of, truthy, value_or, ◌>>=◌, ◌>>◌,
}
use custom_queuer.Args.Ranges.{dep_mode}
use custom_queuer.JobEnv.{Env, check_env}
use custom_queuer.Resolve.{Paths}
use custom_queuer.Commands.Specs.{null}
use custom_queuer.Commands.Plan.{System, on_fail_of, value_of}
use custom_queuer.Commands.EditPlan.{
  Edit, EditArgs, checked_argv, command_changed, command_env, cwd_changed, edited_env, env_changed,
  env_within, grace_changed, new_cwd, on_error_changed, on_fail_changed, on_finish_changed,
  put_change, retries_changed, same_env, same_number, same_on_fail, same_option, signal_changed,
  time_changed, timeout_changed,
}

abbrev shown_env : Option Env → Env
shown_env none = []
shown_env (some env) = env

abbrev kept_env : Env → Option Env
kept_env [] = none
kept_env (kv ∷ env) = some (kv ∷ env)

abbrev edit_command :
    Paths → EditArgs → Text → Bool → Env → Edit → Option Json → Result (Edit × Env)
edit_command paths args new_dir moved old_env edit none =
    if moved then raise cwd_needs_command else ok (edit, old_env)
edit_command paths args new_dir moved old_env edit (some argv) =
    checked_argv paths args argv new_dir >>= λ c. ok (
      put_change true (Update.raw_cmd c.raw_words ∷ Update.resolved_cmd c.resolved ∷ [])
          command_changed edit,
      command_env c old_env,
    )

abbrev edit_env : Env → Option Json → Result Env
edit_env env none = ok env
edit_env env (some v) =
    check_env (value_or v (object [])) >>= λ explicit. ok (edited_env explicit env)

-- A command that changed the variables is not reported as a change of the environment.
abbrev put_env : Bool → Bool → Env → Edit → Edit
put_env same given env edit = if same then edit else record {
  updates = edit.updates ++ Update.env_extra (kept_env env) ∷ [];
  changed = if given then edit.changed ++ env_changed ∷ [] else edit.changed;
}

-- 0 is no timeout.
abbrev seconds_or_none : Json → Result (Option ℕ)
seconds_or_none v =
    if is_null v then ok none else (check_timeout v >>= λ n. ok (if n == 0 then none else some n))

abbrev edit_timeout : Job → Edit → Option Json → Result Edit
edit_timeout job edit none = ok edit
edit_timeout job edit (some v) = seconds_or_none v >>= λ secs. ok (
    put_change (not (same_option same_number secs job.settings.timeout_secs))
      (Update.timeout_secs secs ∷ []) timeout_changed edit)

-- A delay without retries makes no sense.
abbrev drop_delay : Bool → List Update
drop_delay true = Update.retry_delay_secs none ∷ Update.retry_backoff false ∷ []
drop_delay false = []

abbrev edit_retries : Job → Edit → Option Json → Result Edit
edit_retries job edit none = ok edit
edit_retries job edit (some v) = check_retries v >>= λ n. ok (
    put_change (not (n == job.settings.max_retries))
      (Update.max_retries n ∷ drop_delay (n == 0 && is_some job.settings.retry_delay_secs))
      retries_changed edit)

abbrev edit_on_fail : Job → Edit → Option Json → Result Edit
edit_on_fail job edit none = ok edit
edit_on_fail job edit (some v) = on_fail_of (text_of v) >>= λ mode. ok (
    put_change (not (same_on_fail mode job.settings.on_fail)) (Update.on_fail mode ∷ [])
      on_fail_changed edit)

abbrev pub hook_value : Option Text → Value
hook_value none = none_value
hook_value (some s) = str_value s

abbrev pub secs_value : Option ℕ → Value
secs_value none = none_value
secs_value (some n) = int_value (pos n)

module _ (python : Python) where
  abbrev edit_finish : Job → Edit → Option Json → Result Edit
  edit_finish job edit none = ok edit
  edit_finish job edit (some v) = check_hook python (value_of v) >>= λ hook. ok (
      put_change (not (same_option text_eq hook job.settings.on_finish_cmd))
        (Update.on_finish_cmd (hook_value hook) ∷ []) on_finish_changed edit)

  abbrev edit_error : Job → Edit → Option Json → Result Edit
  edit_error job edit none = ok edit
  edit_error job edit (some v) = check_hook python (value_of v) >>= λ hook. ok (
      put_change (not (same_option text_eq hook job.settings.on_error_cmd))
        (Update.on_error_cmd (hook_value hook) ∷ []) on_error_changed edit)

  abbrev edit_signal : Job → Edit → Option Json → Result Edit
  edit_signal job edit none = ok edit
  edit_signal job edit (some v) = check_stop_signal python (value_of v) >>= λ signal. ok (
      put_change (not (same_option text_eq signal job.settings.stop_signal))
        (Update.stop_signal (hook_value signal) ∷ []) signal_changed edit)

  abbrev edit_grace : Job → Edit → Option Json → Result Edit
  edit_grace job edit none = ok edit
  edit_grace job edit (some v) = check_stop_grace python (value_of v) >>= λ grace. ok (
      put_change (not (same_option same_number grace job.settings.stop_grace_secs))
        (Update.stop_grace_secs (secs_value grace) ∷ []) grace_changed edit)

abbrev edit_time : (Text → IsoTime) → Job → Edit → Option Json → Result Edit
edit_time parse_iso job edit none = ok edit
edit_time parse_iso job edit (some v) = parse_not_before parse_iso v >>= λ time. ok (
    put_change (not (same_option same_number time job.settings.not_before))
      (Update.not_before time ∷ []) time_changed edit)

-- The columns, one after the other.
unfoldable pub edit_columns : System → Job → EditArgs → Result Edit
unfolding checked_argv command_env check_env edited_env env_within text_eq check_timeout
    check_retries parse_not_before
edit_columns system job args = do
  new_dir ← new_cwd job.settings.cwd args.cwd
  let moved = not (text_eq new_dir job.settings.cwd)
  guard (system.paths.is_dir new_dir) no_such_directory
  let old_env = shown_env job.settings.env_extra
  (edit, env) ←
      edit_command system.paths args new_dir moved old_env
        (put_change moved (Update.cwd new_dir ∷ []) cwd_changed
          (record { updates = []; changed = [] }))
        args.argv
  new_env ← edit_env env args.env
  with_timeout ←
      edit_timeout job (put_env (same_env new_env old_env) (is_some args.env) new_env edit)
        args.timeout_secs
  with_retries ← edit_retries job with_timeout args.max_retries
  with_mode ← edit_on_fail job with_retries args.on_fail
  with_finish ← edit_finish system.python job with_mode args.on_finish
  with_error ← edit_error system.python job with_finish args.on_error
  with_signal ← edit_signal system.python job with_error args.stop_signal
  with_grace ← edit_grace system.python job with_signal args.stop_grace
  edit_time system.parse_iso job with_grace args.not_before

-- `current`: what the job depends on.
abbrev pub current_deps : DepInfo → List (ℕ × Mode)
current_deps info = put_deps info.depends_on success (put_deps info.after_any any [])

-- A dependency of a kind that the request does not name is kept.
abbrev is_kept : Bool → Bool → ℕ × Mode → Bool
is_kept names_success names_any (i, success) = not names_success
is_kept names_success names_any (i, any) = not names_any
is_kept names_success names_any (i, other_mode s) = true

abbrev pub is_success_mode : Option Mode → Bool
is_success_mode none = false
is_success_mode (some success) = true
is_success_mode (some any) = false
is_success_mode (some (other_mode s)) = false

-- `{**keep, **given}`, and the stricter mode for an id that was kept with it.
unfoldable pub merge_deps : List (ℕ × Mode) → List (ℕ × Mode) → List (ℕ × Mode) → List (ℕ × Mode)
unfolding put_dep dep_mode
merge_deps kept [] deps = deps
merge_deps kept ((i, mode) ∷ given) deps =
    merge_deps kept given
      (put_dep i (if is_success_mode (dep_mode i kept) then success else mode) deps)

unfoldable pub deps_within : List (ℕ × Mode) → List (ℕ × Mode) → Bool
unfolding dep_mode
deps_within [] other = true
deps_within ((i, mode) ∷ deps) other = same_mode mode (dep_mode i other) && deps_within deps other
  where
    same_mode : Mode → Option Mode → Bool
    same_mode a none = false
    same_mode success (some m) = is_success_mode (some m)
    same_mode any (some any) = true
    same_mode any (some success) = false
    same_mode any (some (other_mode s)) = false
    same_mode (other_mode s) (some m) = false

abbrev same_deps : List (ℕ × Mode) → List (ℕ × Mode) → Bool
same_deps a b = length a == length b && deps_within a b

abbrev json_or_null : Option Json → Json
json_or_null none = null
json_or_null (some v) = v

abbrev if_changed : List (ℕ × Mode) → List (ℕ × Mode) → Option (List (ℕ × Mode))
if_changed deps current = if same_deps deps current then none else some deps

abbrev given_deps : DepInfo → EditArgs → Result (Option (List (ℕ × Mode)))
given_deps info args =
    let current = current_deps info in
    let kept = select (is_kept (is_some args.depends_on) (is_some args.after_any)) current in
    dep_args (json_or_null args.depends_on) (json_or_null args.after_any) >>= λ given.
    ok (if_changed (merge_deps kept given kept) current)

-- The new dependencies, if they are others.
unfoldable pub edit_deps : DepInfo → EditArgs → Result (Option (List (ℕ × Mode)))
unfolding merge_deps deps_within put_deps select dep_args
edit_deps info args =
    let given = is_some args.depends_on || is_some args.after_any in
    if not (is_null args.clear_deps) && not (is_some (boolean args.clear_deps))
    then raise (bad_arg clear_deps_arg)
    else if truthy args.clear_deps && given
    then raise (cannot_combine clear_deps_arg depends_on_arg)
    else if truthy args.clear_deps
    then ok (if_changed [] (current_deps info))
    else if given
    then given_deps info args
    else ok none

unfoldable pub edit_channel : Job → Option Json → Result (Option ℕ)
unfolding check_channel
edit_channel job none = ok none
edit_channel job (some v) =
    check_channel v >>= λ channel. ok (if channel == job.channel then none else some channel)
