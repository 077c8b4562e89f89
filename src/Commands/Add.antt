-- ===== src/Commands/Add.antt =====
-- `_cmd_add` (src/queuer/daemon.py) after its checks: the jobs of the sweep are inserted in one
-- transaction, and committed or, for a dry run, described and rolled back.
use mathlib.Core.Option
use custom_queuer.Prelude.{
  Bool, List, Option, [], codes, false, if◌then◌else◌, is_nil, length, none, pos, some, suc, ℕ, ◌-◌,
  ◌==◌, ◌∷◌,
}
use custom_queuer.Tables.{
  Db, Exec, Job, Note, Origin, Result, Text, commit, get_job, get_tables, key_error, lift, ok, pure,
  raise, throw, type_error, update, update_job, ◌>>=◌, ◌>>◌,
}
use custom_queuer.Checks.{Python, Value, int_value, none_value, str_value}
use custom_queuer.Request.{Request}
use custom_queuer.Queue.{get_queue_ids}
use custom_queuer.Enqueue.{enqueue}
use custom_queuer.Lifecycle.{get_paused, get_running, get_stopped}
use custom_queuer.Deps.{Verdict, dep_verdict, failed_dep, ready, removed_dep, waiting}
use custom_queuer.Daemon.{Config, set_log_path, skip_blocked}
use custom_queuer.Lane.{Lane, ensure_priority_worker, freeze_current_if_normal}
use custom_queuer.JobEnv.{Env, env_set}
use custom_queuer.Commands.Specs.{AddArgs}
use custom_queuer.Commands.Prepare.{Prepared}
use custom_queuer.Commands.Plan.{AddCheck, AddPlan, System, check_add, existing, plan}

-- `str | None` and `int | None` as the values that `enqueue` validates.
abbrev text_value : Option Text → Value
text_value none = none_value
text_value (some s) = str_value s

abbrev int_value_of : Option ℕ → Value
int_value_of none = none_value
int_value_of (some n) = int_value (pos n)

abbrev rerun_origin : Option ℕ → Option Origin
rerun_origin none = none
rerun_origin (some job_id) = some Origin.rerun

-- `after`: behind the job inserted before, if the request names one.
abbrev after_of : Option ℕ → Option ℕ → Option ℕ
after_of last none = none
after_of none (some after) = some after
after_of (some last) (some after) = some last

abbrev with_index : Python → Option ℕ → Env → Env
with_index python none env = env
with_index python (some n) env = env_set (codes "QUR_INDEX") (python.str_of_int (pos n)) env

-- The arguments of `enqueue` for one job; the deadlock search is made for the last one.
unfoldable pub job_request : Python → AddPlan → Option ℕ → Bool → Prepared → Request
unfolding env_set
job_request python p last is_last x = record {
  raw_cmd = x.raw_cmd;
  resolved_cmd = x.resolved_cmd;
  cwd = p.cwd;
  log_path = codes "pending";
  channel = p.channel;
  env_extra = some (with_index python x.index p.env_extra);
  timeout_secs = p.timeout_secs;
  before = p.before;
  after = after_of last p.after;
  is_priority = p.now;
  max_retries = p.max_retries;
  attempt = 0;
  parent_id = p.rerun_of;
  origin = rerun_origin p.rerun_of;
  deps = p.deps;
  not_before = p.not_before;
  on_fail = p.on_fail;
  retry_delay_secs = Option.map pos p.retry_delay_secs;
  retry_backoff = p.retry_backoff;
  on_finish_cmd = text_value p.on_finish_cmd;
  on_error_cmd = text_value p.on_error_cmd;
  stop_signal = text_value p.stop_signal;
  stop_grace_secs = int_value_of p.stop_grace_secs;
  run_key = text_value p.run_key;
  job_dir = text_value p.job_dir;
  submitted_from = text_value p.submitted_from;
  do_commit = false;
  check_deadlock = is_last;
}

-- The loop over `prepared`; `last` is `new_ids[-1]`, if there is one.
unfoldable pub insert_sweep : Python → ℕ → AddPlan → Option ℕ → List Prepared → Exec (List ℕ)
insert_sweep python now p last [] = pure []
insert_sweep python now p last (x ∷ xs) = do
  job_id ← enqueue python now (job_request python p last (is_nil xs) x)
  new_ids ← insert_sweep python now p (some job_id) xs
  pure (job_id ∷ new_ids)

-- What the dry run says of one job.
pub record DryJob : Type 0 where
  pub index : Option ℕ
  pub raw_argv : List Text
  pub argv : List Text
  pub position : ℕ
  pub verdict : Verdict

pub record DryRun : Type 0 where
  pub queued_before : ℕ
  pub running_id : Option ℕ
  pub frozen_id : Option ℕ
  pub paused : Bool
  pub env : Env
  pub jobs : List DryJob

-- lane.index(new_id) + 1
unfoldable place_in : ℕ → List ℕ → Option ℕ
place_in job_id [] = none
place_in job_id (k ∷ ks) = if k == job_id then some 1 else Option.map suc (place_in job_id ks)

abbrev dry_job : Db → AddPlan → ℕ → Prepared → Option ℕ → Result DryJob
dry_job db p job_id x none = raise key_error
dry_job db p job_id x (some position) = ok (record {
  index = x.index;
  raw_argv = x.raw_cmd;
  argv = x.resolved_cmd;
  position = position;
  verdict = if is_nil p.deps then ready else dep_verdict db job_id;
})

-- zip(new_ids, prepared, strict=True)
unfoldable pub dry_jobs : Db → AddPlan → List ℕ → List ℕ → List Prepared → Exec (List DryJob)
unfolding place_in dep_verdict
dry_jobs db p lane [] [] = pure []
dry_jobs db p lane [] (x ∷ xs) = throw type_error
dry_jobs db p lane (job_id ∷ ids) [] = throw type_error
dry_jobs db p lane (job_id ∷ ids) (x ∷ xs) = do
  j ← lift (dry_job db p job_id x (place_in job_id lane))
  js ← dry_jobs db p lane ids xs
  pure (j ∷ js)

-- _dry_run_report
unfoldable pub dry_run_report : AddPlan → List ℕ → Exec DryRun
unfolding dry_jobs get_queue_ids get_running get_stopped get_paused
dry_run_report p new_ids = do
  db ← get_tables
  let lane = get_queue_ids db p.channel p.now
  js ← dry_jobs db p lane new_ids p.prepared
  pure (record {
    queued_before = length lane - length new_ids;
    running_id = Option.map (λ j. j.id) (get_running db p.channel);
    frozen_id = Option.map (λ j. j.id) (get_stopped db p.channel);
    paused = get_paused db p.channel;
    env = p.env_extra;
    jobs = js;
  })

-- `try: body` with `finally: conn.rollback()`.
abbrev pub finally_rollback : {A : Type 0} → Exec A → Exec A
finally_rollback body c = let (r, c') = body c in (r, record c' { tables = c'.committed })

-- The executemany that patches the log paths.
unfoldable pub set_log_paths : (ℕ → Text) → List ℕ → Exec (Unit {0})
set_log_paths log_path_of [] = pure tt
set_log_paths log_path_of (job_id ∷ ids) = do
  update (update_job (set_log_path (log_path_of job_id)) job_id)
  set_log_paths log_path_of ids

-- The jobs of a real add, up to its commit.
unfoldable pub add_jobs : Python → Config → ℕ → AddPlan → Exec (List ℕ)
unfolding insert_sweep set_log_paths
add_jobs python config now p = do
  new_ids ← insert_sweep python now p none p.prepared
  set_log_paths config.log_path_of new_ids
  commit
  pure new_ids

abbrev skipped_note : Option Job → Option Note
skipped_note none = none
skipped_note (some j) = j.outcome.note

-- The last skipped job's note, if a job was skipped.
abbrev skip_now :
    Config → ℕ → ℕ → Verdict → Option ℕ → Option (Option Note) → Exec (Option (Option Note))
skip_now config now job_id verdict none noted = pure noted
skip_now config now job_id verdict (some dep_id) noted = do
  _ ← skip_blocked config now job_id verdict dep_id
  db ← get_tables
  pure (some (skipped_note (get_job db job_id)))

-- The dependency that ended badly or is gone.
abbrev pub blocker : Verdict → Option ℕ
blocker ready = none
blocker (waiting dep_id) = none
blocker (failed_dep dep_id) = some dep_id
blocker (removed_dep dep_id) = some dep_id

unfoldable pub skip_new : Config → ℕ → List ℕ → Option (Option Note) → Exec (Option (Option Note))
unfolding dep_verdict skip_blocked get_job
skip_new config now [] noted = pure noted
skip_new config now (job_id ∷ ids) noted = do
  db ← get_tables
  let verdict = dep_verdict db job_id
  noted' ← skip_now config now job_id verdict (blocker verdict) noted
  skip_new config now ids noted'

pub data AddReply : Type 0 where
  existing_job : (job_id channel : ℕ) → AddReply
  dry_run : DryRun → AddReply
  added : (new_ids : List ℕ) (channel : ℕ) (skip_reason : Option (Option Note)) → AddReply

-- `--now` makes room for the job; `gone` is the ProcessLookupError of SIGSTOP.
abbrev make_room : Bool → Bool → Lane → Exec Lane
make_room now gone lane =
    if now
    then (freeze_current_if_normal gone lane >>= λ lane'. pure (ensure_priority_worker lane'))
    else pure lane

unfoldable pub insert_plan : Python → Config → ℕ → Bool → Lane → AddPlan → Exec (AddReply × Lane)
unfolding add_jobs skip_new freeze_current_if_normal ensure_priority_worker insert_sweep
    dry_run_report
insert_plan python config now gone lane p =
    if p.dry_run
    then (do
      new_ids ← insert_sweep python now p none p.prepared
      report ← finally_rollback (dry_run_report p new_ids)
      pure (dry_run report, lane))
    else (do
      new_ids ← add_jobs python config now p
      noted ← if is_nil p.deps then pure none else skip_new config now new_ids none
      lane' ← make_room p.now gone lane
      pure (added new_ids p.channel noted, lane'))

module _ (system : System) (config : Config) where
  abbrev pub run_checked : ℕ → Bool → Lane → AddCheck → Exec (AddReply × Lane)
  run_checked now gone lane (existing j) = pure (existing_job j.id j.channel, lane)
  run_checked now gone lane (plan p) = insert_plan system.python config now gone lane p

  -- `lane` is the lane of the job's channel. Times are those of the call.
  unfoldable pub cmd_add : ℕ → Bool → Lane → AddArgs → Exec (AddReply × Lane)
  unfolding check_add
  cmd_add now gone lane args = do
    db ← get_tables
    checked ← lift (check_add system db args)
    run_checked now gone lane checked
