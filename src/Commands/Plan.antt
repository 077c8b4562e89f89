-- ===== src/Commands/Plan.antt =====
-- The checks of `_cmd_add` (src/queuer/daemon.py), all made before a row is written: they read the
-- tables and the file system, and return what to insert.
use custom_queuer.Prelude.{
  Bool, List, Option, [], codes, false, if◌then◌else◌, is_nil, is_some, leb, length, ltb, negsuc,
  none, not, pos, some, ℕ, ℤ, ◌&&◌, ◌==◌, ◌||◌, ◌∷◌,
}
use custom_queuer.Tables.{
  ArgName, Db, Error, Job, Mode, OnFail, Result, Text, after_arg, argv_arg, backoff_needs_delay,
  bad_arg, bad_on_fail, bad_retry_delay, before_arg, cannot_combine, continue, cwd_arg,
  depends_on_arg, does_not_exist, dry_run_arg, empty_command, get_job, jobs_arg, missing_arg,
  not_before_arg, now_arg, ok, path_arg, pause, raise, rerun_of_arg, retry_backoff_arg,
  retry_delay_arg, run_key_arg, text_eq,
}
use custom_queuer.Checks.{
  Python, Value, bool_value, check_hook, check_job_dir, check_label, check_run_key,
  check_stop_grace, check_stop_signal, int_value, max_retry_delay_secs, other_value, str_value,
}
use custom_queuer.History.{find_by_run_key}
use custom_queuer.Args.{
  IsoTime, Json, boolean, check_channel, check_retries, check_timeout, dep_args, guard, integer,
  is_null, list, natural, object, parse_not_before, scalar, text_list, text_of, truthy, value_or,
  ◌>>=◌, ◌>>◌,
}
use custom_queuer.JobEnv.{Env, check_env, has_nul}
use custom_queuer.Resolve.{Paths}
use custom_queuer.Commands.Specs.{AddArgs, Spec, specs_of}
use custom_queuer.Commands.Prepare.{Prepared, layered_env, prepare}

-- What the handler reads of the system: paths, ISO timestamps, and the environment's own strings.
pub record System : Type 0 where
  pub python : Python
  pub paths : Paths
  pub parse_iso : Text → IsoTime
  pub sort_names : List Text → List Text

-- The arguments that every job of the sweep shares.
pub record AddPlan : Type 0 where
  pub prepared : List Prepared
  pub cwd : Text
  pub channel : ℕ
  pub now : Bool
  pub max_retries : ℕ
  pub timeout_secs : Option ℕ
  pub before : Option ℕ
  pub after : Option ℕ
  pub on_fail : OnFail
  pub on_finish_cmd : Option Text
  pub on_error_cmd : Option Text
  pub stop_signal : Option Text
  pub stop_grace_secs : Option ℕ
  pub run_key : Option Text
  pub job_dir : Option Text
  pub submitted_from : Option Text
  pub rerun_of : Option ℕ
  pub deps : List (ℕ × Mode)
  pub not_before : Option ℕ
  pub retry_delay_secs : Option ℕ
  pub retry_backoff : Bool
  pub dry_run : Bool
  pub env_extra : Env

-- An `add` with the run key of an earlier one answers with that job.
pub data AddCheck : Type 0 where
  existing : Job → AddCheck
  plan : AddPlan → AddCheck

abbrev pub value_of : Json → Value
value_of (scalar v) = v
value_of (list vs) = other_value (not (is_nil vs))
value_of (object fs) = other_value (not (is_nil fs))

abbrev with_text : {A : Type 0} → Error → (Text → Result A) → Option Text → Result A
with_text e k none = raise e
with_text e k (some s) = k s

-- An argument that must be there.
abbrev required : ArgName → Option Json → Result Json
required key none = raise (missing_arg key)
required key (some v) = ok v

-- The loop that validates `argv` and `cwd` of every job.
unfoldable pub check_specs : Json → List Spec → Result (Unit {0})
check_specs cwd [] = ok tt
check_specs cwd (s ∷ ss) =
    let later = check_specs cwd ss in
    if not (truthy s.argv)
    then raise empty_command
    else if is_some (text_list s.argv) && is_some (text_of cwd)
    then later
    else raise (bad_arg argv_arg)

-- `before` and `after`: null or an int. A negative id names no job, as 0 does.
abbrev id_or_zero : ℤ → ℕ
id_or_zero (pos n) = n
id_or_zero (negsuc n) = 0

abbrev found_id : ArgName → Option ℤ → Result (Option ℕ)
found_id key none = raise (bad_arg key)
found_id key (some n) = ok (some (id_or_zero n))

abbrev pub check_id : ArgName → Json → Result (Option ℕ)
check_id key value = if is_null value then ok none else found_id key (integer value)

abbrev optional_timeout : Json → Result (Option ℕ)
optional_timeout value =
    if is_null value then ok none else (check_timeout value >>= λ n. ok (some n))

-- `on_fail in ON_FAIL_MODES`
abbrev pub on_fail_of : Option Text → Result OnFail
on_fail_of none = raise bad_on_fail
on_fail_of (some s) =
    if text_eq s (codes "continue")
    then ok continue
    else if text_eq s (codes "pause")
    then ok pause
    else raise bad_on_fail

abbrev check_rerun : Db → Option ℕ → Result (Option ℕ)
check_rerun db none = ok none
check_rerun db (some job_id) =
    if is_some (get_job db job_id) then ok (some job_id) else raise (does_not_exist job_id)

abbrev delay_in_range : Option ℕ → Result (Option ℕ)
delay_in_range none = raise (bad_arg retry_delay_arg)
delay_in_range (some n) =
    if ltb 0 n && leb n max_retry_delay_secs then ok (some n) else raise (bad_arg retry_delay_arg)

abbrev pub check_delay : Json → Result (Option ℕ)
check_delay value = if is_null value then ok none else delay_in_range (natural value)

abbrev found_bool : ArgName → Option Bool → Result Bool
found_bool key none = raise (bad_arg key)
found_bool key (some b) = ok b

-- A null `dry_run` is false; any other value must be a bool.
abbrev strict_bool : Json → Result Bool
strict_bool value = if is_null value then ok false else found_bool dry_run_arg (boolean value)

-- Null or a string.
abbrev optional_text : Json → Result (Option Text)
optional_text value =
    if is_null value
    then ok none
    else with_text (bad_arg path_arg) (λ s. ok (some s)) (text_of value)

-- `value or None`
abbrev nonempty : Option Text → Option Text
nonempty none = none
nonempty (some []) = none
nonempty (some (c ∷ cs)) = some (c ∷ cs)

abbrev option_nul : Option Text → Bool
option_nul none = false
option_nul (some s) = has_nul s

module _ (system : System) where
  open system use {python, paths, parse_iso, sort_names}

  -- What follows the checks of the run key.
  unfoldable pub plan_rest : Db → AddArgs → AddPlan → List Spec → Result AddCheck
  unfolding prepare layered_env dep_args parse_not_before check_env
  plan_rest db args p specs = do
    deps ← dep_args args.depends_on args.after_any
    guard (not (p.now && not (is_nil deps))) (cannot_combine now_arg depends_on_arg)
    not_before ← parse_not_before parse_iso args.not_before
    guard (not (p.now && is_some not_before)) (cannot_combine now_arg not_before_arg)
    retry_delay_secs ← check_delay args.retry_delay_secs
    retry_backoff ←
        found_bool retry_backoff_arg
          (boolean (value_or args.retry_backoff (scalar (bool_value false))))
    guard (not (retry_backoff && not (is_some retry_delay_secs))) backoff_needs_delay
    guard (not (is_some retry_delay_secs && p.max_retries == 0)) bad_retry_delay
    dry_run ← strict_bool args.dry_run
    path ← optional_text args.path
    venv ← optional_text args.virtual_env
    python_path ← optional_text args.python_path
    prepared ←
        prepare paths p.cwd (nonempty path)
          (option_nul path || option_nul venv || option_nul python_path) specs
    env_pass ← check_env (value_or args.env_pass (object []))
    env_explicit ← check_env (value_or args.env (object []))
    ok (
        plan (record p {
          prepared = prepared;
          deps = deps;
          not_before = not_before;
          retry_delay_secs = retry_delay_secs;
          retry_backoff = retry_backoff;
          dry_run = dry_run;
          env_extra =
              layered_env sort_names env_pass env_explicit (nonempty path) (nonempty venv)
                (nonempty python_path);
        }))

  abbrev answer_existing : Db → AddArgs → AddPlan → List Spec → Option Job → Result AddCheck
  answer_existing db args p specs none = plan_rest db args p specs
  answer_existing db args p specs (some j) = ok (existing j)

  abbrev by_run_key : Db → AddArgs → AddPlan → List Spec → Option Text → Result AddCheck
  by_run_key db args p specs none = plan_rest db args p specs
  by_run_key db args p specs (some key) =
      if not (length specs == 1)
      then raise (cannot_combine run_key_arg jobs_arg)
      else answer_existing db args p specs (find_by_run_key db key)

  unfoldable pub check_add : Db → AddArgs → Result AddCheck
  unfolding plan_rest specs_of check_specs check_channel check_timeout check_retries get_job
  check_add db args = do
    specs ← specs_of args
    cwd ← required cwd_arg args.cwd
    check_specs cwd specs
    channel ← check_channel (value_or args.channel (scalar (int_value (pos 1))))
    timeout_secs ← optional_timeout args.timeout_secs
    before ← check_id before_arg args.before
    after ← check_id after_arg args.after
    max_retries ← check_retries (value_or args.max_retries (scalar (int_value (pos 0))))
    let now = truthy args.now
    guard (not (now && (is_some before || is_some after))) (cannot_combine now_arg before_arg)
    on_fail ← on_fail_of (text_of (value_or args.on_fail (scalar (str_value (codes "continue")))))
    on_finish_cmd ← check_hook python (value_of args.on_finish)
    on_error_cmd ← check_hook python (value_of args.on_error)
    stop_signal ← check_stop_signal python (value_of args.stop_signal)
    stop_grace_secs ← check_stop_grace python (value_of args.stop_grace)
    run_key ← check_run_key python (value_of args.run_key)
    job_dir ← check_job_dir python (value_of args.job_dir)
    submitted_from ← check_label python (value_of args.submitted_from)
    rerun_id ← check_id rerun_of_arg args.rerun_of
    rerun_of ← check_rerun db rerun_id
    cwd_text ← with_text (bad_arg argv_arg) (λ s. ok s) (text_of cwd)
    by_run_key db args
        (record {
          prepared = [];
          cwd = cwd_text;
          channel = channel;
          now = now;
          max_retries = max_retries;
          timeout_secs = timeout_secs;
          before = before;
          after = after;
          on_fail = on_fail;
          on_finish_cmd = on_finish_cmd;
          on_error_cmd = on_error_cmd;
          stop_signal = stop_signal;
          stop_grace_secs = stop_grace_secs;
          run_key = run_key;
          job_dir = job_dir;
          submitted_from = submitted_from;
          rerun_of = rerun_of;
          deps = [];
          not_before = none;
          retry_delay_secs = none;
          retry_backoff = false;
          dry_run = false;
          env_extra = [];
        })
        specs run_key
