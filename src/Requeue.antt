-- ===== src/Requeue.antt =====
-- `requeue` of src/queuer/db.py: a finished job enqueued again, by hand or by the daemon's retry.
pub mod Delay
use custom_queuer.Prelude.{
  Bool, List, Option, [], false, if◌then◌else◌, leb, ltb, min, none, pos, some, suc, true, ℕ, ℤ,
  ◌&&◌, ◌*◌, ◌+◌, ◌==◌, ◌^◌, ◌∷◌,
}
use custom_queuer.Tables.{
  Db, Exec, Job, Origin, Result, Text, does_not_exist, get_job, get_tables, is_terminal, lift,
  not_terminal, ok, raise, ◌>>=◌, ◌>>◌,
}
use custom_queuer.Checks.{Python, Value, int_value, max_retry_delay_secs, none_value, str_value}
use custom_queuer.Request.{Request}
use custom_queuer.Enqueue.{enqueue}
use custom_queuer.EditLock.{seconds}

-- `delay * 2 ** min(attempt, 40)` with backoff, and at most MAX_RETRY_DELAY_SECS.
unfoldable pub retry_delay : ℕ → Bool → ℕ → ℕ
retry_delay delay backoff attempt =
    min (if backoff then delay * 2 ^ min attempt 40 else delay) max_retry_delay_secs

-- `if auto and delay`: no delay, and a delay of 0, start no waiting.
abbrev delayed_until : ℕ → Bool → Bool → ℕ → Option ℕ → Option ℕ
delayed_until now auto backoff attempt none = none
delayed_until now auto backoff attempt (some delay) =
    if auto && ltb 0 delay then some (now + seconds (retry_delay delay backoff attempt)) else none

unfoldable pub not_before_of : ℕ → Bool → Job → Option ℕ
unfolding retry_delay
not_before_of now auto j =
    delayed_until now auto j.settings.retry_backoff j.source.attempt j.settings.retry_delay_secs

abbrev optional_text : Option Text → Value
optional_text none = none_value
optional_text (some text) = str_value text

abbrev optional_int : Option ℕ → Value
optional_int none = none_value
optional_int (some n) = int_value (pos n)

abbrev optional_pos : Option ℕ → Option ℤ
optional_pos none = none
optional_pos (some n) = some (pos n)

-- The call of `enqueue`, with the defaults of the arguments that it leaves out.
unfoldable pub requeue_request : ℕ → Text → Bool → Job → Request
unfolding not_before_of
requeue_request now log_path auto j = record {
  raw_cmd = settings.raw_cmd;
  resolved_cmd = settings.resolved_cmd;
  cwd = settings.cwd;
  log_path = log_path;
  channel = j.channel;
  env_extra = settings.env_extra;
  timeout_secs = settings.timeout_secs;
  before = none;
  after = none;
  is_priority = false;
  max_retries = settings.max_retries;
  attempt = if auto then suc source.attempt else 0;
  parent_id = some j.id;
  origin = some (if auto then Origin.retry else Origin.requeue);
  deps = [];
  not_before = not_before_of now auto j;
  on_fail = settings.on_fail;
  retry_delay_secs = optional_pos settings.retry_delay_secs;
  retry_backoff = settings.retry_backoff;
  on_finish_cmd = optional_text settings.on_finish_cmd;
  on_error_cmd = optional_text settings.on_error_cmd;
  stop_signal = optional_text settings.stop_signal;
  stop_grace_secs = optional_int settings.stop_grace_secs;
  run_key = none_value;
  job_dir = optional_text source.job_dir;
  submitted_from = optional_text source.submitted_from;
  do_commit = true;
  check_deadlock = true;
}
  where
    open j use {settings, source}

abbrev finished_row : ℕ → Option Job → Result Job
finished_row job_id none = raise (does_not_exist job_id)
finished_row job_id (some j) = if is_terminal j.status then ok j else raise (not_terminal job_id)

module _ (python : Python) where
  unfoldable pub requeue : ℕ → ℕ → Text → Bool → Exec ℕ
  unfolding get_job requeue_request enqueue
  requeue now job_id log_path auto = do
    db ← get_tables
    job ← lift (finished_row job_id (get_job db job_id))
    enqueue python now (requeue_request now log_path auto job)

-- The newest manual requeue of a job, if it is recent.
abbrev is_manual : Option Origin → Bool
is_manual (some Origin.requeue) = true
is_manual _ = false

abbrev is_parent : ℕ → Option ℕ → Bool
is_parent job_id none = false
is_parent job_id (some p) = p == job_id

unfoldable pub last_row : (Job → Bool) → List Job → Option Job
last_row p [] = none
last_row p (j ∷ js) = elim (last_row p js) [ none ↦ if p j then some j else none | some k ↦ some k ]

abbrev recent_id : ℕ → ℕ → Option Job → Option ℕ
recent_id now within none = none
recent_id now within (some j) = if leb now (j.enqueued_at + within) then some j.id else none

unfoldable pub recent_requeue : ℕ → Db → ℕ → ℕ → Option ℕ
unfolding last_row
recent_requeue now db job_id within =
    recent_id now within
      (last_row (λ j. is_parent job_id j.source.parent_id && is_manual j.source.origin) db.jobs)
