-- ===== src/Samples/Handlers.antt =====
-- The request handlers run on the samples, and their theorems at inputs where the hypotheses hold.
use mathlib.Core.Option
use custom_queuer.Prelude.{
  All, List, [], arith, codes, elem, exists, false, find, if◌then◌else◌, none, pos, refl, select,
  some, take, true, ℕ, ◌∷◌, ◌≡◌, ◌≤◌,
}
use custom_queuer.Tables.{
  Conn, any, continue, find_job, get_job, ok, register_channel, stopped, success, text_eq,
}
use custom_queuer.Checks.{
  Value, bool_value, check_stop_grace, check_stop_signal, int_value, str_value,
}
use custom_queuer.Request.{check_request}
use custom_queuer.Queue.{get_queue_ids, next_position}
use custom_queuer.Deadlock.{find_deadlock}
use custom_queuer.Enqueue.{
  check_behind, enqueue, finish_insert, insert_deps, insert_job, insert_request, is_queued_in,
  new_row, place, run_key_taken,
}
use custom_queuer.Backlog.{newest_first}
use custom_queuer.Lifecycle.{get_paused, get_running, get_stopped}
use custom_queuer.Deps.{dep_info, dep_verdict, ready}
use custom_queuer.History.{
  HistoryFilter, all_names, dep_info_bulk, get_history, get_states, grep_matches, history_row,
  state_row,
}
use custom_queuer.History.Limit.{get_history-take}
use custom_queuer.History.Bulk.{dep_info_bulk-dep_info, find_info}
use custom_queuer.History.States.{HasDistinctIds, find_state, get_states-get_job}
use custom_queuer.Lane.{Lane, cancel_frozen, cancel_job}
use custom_queuer.Args.{
  Json, channel_arg_of, check_channel, check_retries, dep_args, id_list, int_arg, list, max_channel,
  max_sweep, not_iso, object, parse_not_before, put_dep, put_deps, scalar, value_or,
}
use custom_queuer.Args.Ranges.{check_channel_bounds, dep_args_modes, dep_mode}
use custom_queuer.JobEnv.{
  Env, add_base, base_environment, check_env, env_get, env_pop, env_set, env_update,
  job_environment, passthrough_key, process_environment,
}
use custom_queuer.JobEnv.Layers.{
  IsGoodItem, check_env-IsGoodItem, inherited, or_value, process_environment_layers,
}
use custom_queuer.Resolve.{Paths, resolve_command}
use custom_queuer.Commands.Specs.{AddArgs, Spec, array_specs, null, specs_of, specs_of_bounds}
use custom_queuer.Commands.Prepare.{Prepared, layered_env, prepare}
use custom_queuer.Commands.Plan.{AddPlan, System, check_add, check_specs, plan, plan_rest}
use custom_queuer.Commands.Add.{
  AddReply, add_jobs, cmd_add, dry_jobs, dry_run, dry_run_report, insert_plan, insert_sweep,
  job_request, set_log_paths,
}
use custom_queuer.Commands.Atomic.{IsAllOrNothing, add_jobs-IsAllOrNothing, cmd_add-dry_run}
use custom_queuer.Commands.Cancel.{Cancelled, cancel_running, cmd_cancel, stop_settings}
use custom_queuer.Commands.Simple.{cmd_rm}
use custom_queuer.Commands.Reads.{cmd_states}
use custom_queuer.Commands.Target.{IsTarget, cmd_cancel-IsTarget}
use custom_queuer.Commands.EditPlan.{edited_env, index_key}
use custom_queuer.Commands.EditDeps.{merge_deps}
use custom_queuer.Commands.Edited.{edited_env-index, edited_env-or_value, merge_deps_stricter}
use custom_queuer.Samples.{config, conn, db, python, row}

abbrev history_filter : HistoryFilter
history_filter = record { statuses = []; channel = none; since = none; grep = none; limit = 1 }

handlers : Unit {0}
unfolding cmd_add check_add specs_of plan_rest check_specs prepare insert_plan insert_sweep
    job_request dry_run_report dry_jobs cmd_cancel cmd_rm cmd_states get_states check_env dep_args
    put_deps put_dep process_environment job_environment base_environment check_channel get_history
    array_specs enqueue check_request insert_request insert_job new_row register_channel place
    next_position finish_insert insert_deps find_deadlock get_queue_ids is_queued_in dep_verdict
    run_key_taken int_arg cancel_frozen cancel_job cancel_running stop_settings channel_arg_of
    layered_env check_behind check_retries resolve_command parse_not_before add_jobs set_log_paths
handlers = tt

-- os.path and the file system of this sample: everything is there, and the program is /ls.
abbrev paths : Paths
paths = record {
  abspath = λ path. path;
  join = λ cwd path. path;
  below = λ cwd path. path;
  path_exists = λ path. false;
  which = λ token path_env. some (b'/' ∷ token);
  is_dir = λ path. true;
  is_executable = λ path. true;
}

abbrev system : System
system = record {
  python = python;
  paths = paths;
  parse_iso = λ s. not_iso;
  sort_names = λ names. names;
}

abbrev word : Value
word = str_value (b'l' ∷ b's' ∷ [])

-- A dry run of three jobs, with the indices 1 to 3.
abbrev add_args : AddArgs
add_args = record {
  jobs = none;
  array = list (int_value (pos 1) ∷ int_value (pos 3) ∷ []);
  argv = some (list (word ∷ []));
  raw_argv = null;
  cwd = some (scalar (str_value (b'/' ∷ [])));
  channel = null;
  now = null;
  max_retries = null;
  timeout_secs = null;
  before = null;
  after = null;
  on_fail = null;
  on_finish = null;
  on_error = null;
  stop_signal = null;
  stop_grace = null;
  run_key = null;
  job_dir = null;
  submitted_from = null;
  rerun_of = null;
  depends_on = null;
  after_any = null;
  not_before = null;
  retry_delay_secs = null;
  retry_backoff = null;
  dry_run = scalar (bool_value true);
  path = null;
  virtual_env = null;
  python_path = null;
  env_pass = null;
  env = null;
}

abbrev lane : Lane
lane = record {
  current_job = some 3;
  current_proc = some 33;
  frozen = none;
  priority_task = false;
  stopping = false;
  cancelled = [];
  halted = [];
}

abbrev checked_prepared : ℕ → Prepared
checked_prepared n = record {
  raw_cmd = (b'l' ∷ b's' ∷ []) ∷ [];
  resolved_cmd = (b'/' ∷ b'l' ∷ b's' ∷ []) ∷ [];
  index = some n;
}

abbrev add_plan : AddPlan
add_plan = record {
  prepared = checked_prepared 1 ∷ checked_prepared 2 ∷ checked_prepared 3 ∷ [];
  cwd = b'/' ∷ [];
  channel = 1;
  now = false;
  max_retries = 0;
  timeout_secs = none;
  before = none;
  after = none;
  on_fail = continue;
  on_finish_cmd = none;
  on_error_cmd = none;
  stop_signal = none;
  stop_grace_secs = none;
  run_key = none;
  job_dir = none;
  submitted_from = none;
  rerun_of = none;
  deps = [];
  not_before = none;
  retry_delay_secs = none;
  retry_backoff = false;
  dry_run = true;
  env_extra = [];
}

checked_ok : check_add system db add_args ≡ ok (plan add_plan)
unfolding handlers
checked_ok = refl

inserted_ids : (insert_sweep python 7 add_plan none add_plan.prepared conn).0 ≡ ok (6 ∷ 7 ∷ 8 ∷ [])
unfolding handlers
inserted_ids = refl

abbrev dry_reply : AddReply
dry_reply = dry_run (record {
  queued_before = 2;
  running_id = some 3;
  frozen_id = none;
  paused = false;
  env = [];
  jobs =
      record {
        index = some 1;
        raw_argv = (checked_prepared 1).raw_cmd;
        argv = (checked_prepared 1).resolved_cmd;
        position = 3;
        verdict = ready;
      }
      ∷ record {
        index = some 2;
        raw_argv = (checked_prepared 1).raw_cmd;
        argv = (checked_prepared 1).resolved_cmd;
        position = 4;
        verdict = ready;
      }
      ∷ record {
        index = some 3;
        raw_argv = (checked_prepared 1).raw_cmd;
        argv = (checked_prepared 1).resolved_cmd;
        position = 5;
        verdict = ready;
      }
      ∷ [];
})

dry_ok : cmd_add system config 7 false lane add_args conn ≡ (ok (dry_reply, lane), conn)
unfolding handlers get_running get_stopped get_paused
dry_ok = refl

cmd_add-dry_run_example : (conn ≡ conn) × (lane ≡ lane)
cmd_add-dry_run_example =
    cmd_add-dry_run system config 7 false lane lane add_args add_plan dry_reply conn conn refl
      checked_ok refl dry_ok

add_jobs-IsAllOrNothing_example : IsAllOrNothing conn (add_jobs python config 7 add_plan conn)
add_jobs-IsAllOrNothing_example = add_jobs-IsAllOrNothing python config 7 add_plan conn

specs_of_bounds_example : (1 ≤ 3) × (3 ≤ max_sweep)
unfolding handlers
specs_of_bounds_example = specs_of_bounds add_args (spec 1 ∷ spec 2 ∷ spec 3 ∷ []) refl
  where
    spec : ℕ → Spec
    spec n = record { argv = list (word ∷ []); raw_argv = null; index = scalar (int_value (pos n)) }

-- Job 3 is frozen, and job 9 runs in the priority lane.
abbrev frozen_lane : Lane
frozen_lane = record lane {
  current_job = some 9;
  current_proc = some 99;
  frozen = some (3, 33);
  halted = 33 ∷ [];
}

abbrev frozen_conn : Conn
frozen_conn =
    let rows = record db { jobs = row 3 stopped none ∷ [] } in
    record { tables = rows; committed = rows }

abbrev job_three : Json
job_three = scalar (int_value (pos 3))

abbrev cancelled_three : Cancelled
cancelled_three = record {
  job_id = 3;
  channel = 1;
  killed = some (record { proc = 33; stop_signal = codes "SIGTERM"; grace_secs = 5 });
  lane = record frozen_lane { frozen = none; cancelled = 3 ∷ []; halted = [] };
}

cancels_three :
    cmd_cancel config 9 (λ j. false) python (λ k. frozen_lane) job_three null null null frozen_conn
    ≡ (ok cancelled_three, frozen_conn)
unfolding handlers get_job select check_stop_signal check_stop_grace
cancels_three = refl

cmd_cancel-IsTarget_example :
    IsTarget frozen_lane cancelled_three
      (some (record { proc = 33; stop_signal = codes "SIGTERM"; grace_secs = 5 }))
cmd_cancel-IsTarget_example =
    cmd_cancel-IsTarget config 9 (λ j. false) python (λ k. frozen_lane) job_three null null null
      cancelled_three frozen_conn frozen_conn cancels_three

get_history-take_example :
    get_history (λ s. s) db history_filter
    ≡ ok (
        take 1 (
          select
            (grep_matches (λ s. s) none)
            (newest_first (select (history_row history_filter) db.jobs))))
unfolding all_names
get_history-take_example = get_history-take (λ s. s) db history_filter refl (omega arith)

get_states-get_job_example :
    find_state 2 (get_states db (2 ∷ 9 ∷ []))
    ≡ (if elem 2 (2 ∷ 9 ∷ []) then Option.map state_row (get_job db 2) else none)
unfolding find_job find
get_states-get_job_example = get_states-get_job db (2 ∷ 9 ∷ []) 2 distinct
  where
    distinct : HasDistinctIds db.jobs
    distinct = (refl, (refl, (refl, (refl, (refl, tt)))))

dep_info_bulk-dep_info_example :
    find_info 2 (dep_info_bulk db (1 ∷ 2 ∷ []))
    ≡ (if elem 2 (1 ∷ 2 ∷ []) then some (dep_info db 2) else none)
dep_info_bulk-dep_info_example = dep_info_bulk-dep_info db (1 ∷ 2 ∷ []) 2

check_channel_bounds_example :
    (1 ≤ 7) × (7 ≤ max_channel) × (scalar (int_value (pos 7)) ≡ scalar (int_value (pos 7)))
unfolding check_channel
check_channel_bounds_example = check_channel_bounds (scalar (int_value (pos 7))) 7 refl

abbrev both_lists : Json
both_lists = list (int_value (pos 4) ∷ [])

dep_args_modes_example :
    (success_ids : List ℕ) × (any_ids : List ℕ) × (id_list (value_or both_lists (list []))
      ≡ some success_ids)
    × (id_list (value_or both_lists (list [])) ≡ some any_ids)
    × (dep_mode 4 ((4, success) ∷ [])
        ≡ (if elem 4 success_ids then some success else if elem 4 any_ids then some any else none))
unfolding dep_args put_deps put_dep
dep_args_modes_example = dep_args_modes both_lists both_lists ((4, success) ∷ []) 4 refl

abbrev own_env : Env
own_env = (codes "A", codes "1") ∷ []

abbrev daemon_env : Env
daemon_env = (codes "USER", codes "root") ∷ (codes "SECRET", codes "1") ∷ []

-- A variable of the daemon that is not one of the six does not reach a job.
secret_stays : env_get (codes "SECRET") (process_environment daemon_env own_env) ≡ none
unfolding handlers env_get env_update env_pop env_set add_base select exists text_eq
secret_stays = refl

process_environment_layers_example :
    env_get (codes "USER") (process_environment daemon_env own_env)
    ≡ or_value
        (if text_eq passthrough_key (codes "USER") then none else env_get (codes "USER") own_env)
        (or_value
          (if text_eq (codes "PYTHONUNBUFFERED") (codes "USER") then some (codes "1") else none)
          (inherited daemon_env (codes "USER")))
unfolding env_get
process_environment_layers_example =
    process_environment_layers daemon_env own_env (codes "USER") (refl, tt)

check_env-IsGoodItem_example : All IsGoodItem own_env
unfolding check_env
check_env-IsGoodItem_example =
    check_env-IsGoodItem (object ((codes "A", str_value (codes "1")) ∷ [])) own_env refl

-- The third job of a sweep, with a variable of its own.
abbrev sweep_env : Env
sweep_env = (index_key, codes "3") ∷ own_env

edited_env-index_example :
    env_get index_key (edited_env ((index_key, codes "9") ∷ []) sweep_env)
    ≡ env_get index_key sweep_env
unfolding env_get text_eq
edited_env-index_example = edited_env-index ((index_key, codes "9") ∷ []) sweep_env refl

edited_env-or_value_example :
    env_get (codes "A") (edited_env ((codes "A", codes "2") ∷ []) sweep_env)
    ≡ or_value (env_get (codes "A") ((codes "A", codes "2") ∷ [])) (env_get (codes "A") sweep_env)
unfolding env_get text_eq
edited_env-or_value_example =
    edited_env-or_value ((codes "A", codes "2") ∷ []) sweep_env (codes "A") (refl, tt) refl refl

merge_deps_stricter_example :
    dep_mode 4 (merge_deps ((4, success) ∷ []) ((4, any) ∷ []) ((4, success) ∷ [])) ≡ some success
unfolding dep_mode
merge_deps_stricter_example = merge_deps_stricter 4 ((4, success) ∷ []) ((4, any) ∷ []) refl
