-- ===== src/Commands/Simple.antt =====
-- The short handlers of src/queuer/daemon.py: they check their arguments, call one function of
-- src/queuer/db.py, and wake a worker. An absent argument is null; waking writes nothing.
use custom_queuer.Prelude.{Bool, Option, false, if◌then◌else◌, none, not, some, true, ℕ}
use custom_queuer.Tables.{
  Db, Exec, Job, Result, commit, get_tables, guard, job_starting, lift, missing_arg, ok, pid_arg,
  pure, raise, update, update_job, ◌>>=◌, ◌>>◌,
}
use custom_queuer.Checks.{Python}
use custom_queuer.Backlog.{clear_backlog}
use custom_queuer.Lifecycle.{set_paused}
use custom_queuer.Deps.{remove_from_queue}
use custom_queuer.EditLock.{World, edit_lock_secs, editable_job, release_edit_lock, take_edit_lock}
use custom_queuer.Requeue.{requeue}
use custom_queuer.Daemon.{Config, set_log_path}
use custom_queuer.Args.{Json, channel_arg_of, check_pid, id_argument}

abbrev pid_argument : Option ℕ → Result ℕ
pid_argument none = raise (missing_arg pid_arg)
pid_argument (some pid) = ok pid

-- `channel or DEFAULT_CHANNEL`
abbrev channel_or_default : Option ℕ → ℕ
channel_or_default none = 1
channel_or_default (some channel) = channel

unfoldable pub cmd_pause : Json → Exec ℕ
unfolding channel_arg_of set_paused
cmd_pause value = do
  channel ← lift (channel_arg_of value)
  set_paused true (channel_or_default channel)
  pure (channel_or_default channel)

unfoldable pub cmd_resume : Json → Exec ℕ
unfolding channel_arg_of set_paused
cmd_resume value = do
  channel ← lift (channel_arg_of value)
  set_paused false (channel_or_default channel)
  pure (channel_or_default channel)

unfoldable pub cmd_clear : Json → Exec ℕ
unfolding channel_arg_of clear_backlog
cmd_clear value = do channel ← lift (channel_arg_of value); clear_backlog channel

-- What a running daemon knows of the jobs whose processes it is creating: `_starting`.
module _ (job_starting_now : ℕ → Bool) where
  unfoldable pub cmd_rm : Json → Exec ℕ
  unfolding id_argument remove_from_queue
  cmd_rm value = do
    job_id ← lift (id_argument value)
    guard (not (job_starting_now job_id)) (job_starting job_id)
    remove_from_queue job_id
    pure job_id

  -- _editable
  unfoldable pub editable : Db → ℕ → Result Job
  unfolding editable_job
  editable db job_id =
      if job_starting_now job_id then raise (job_starting job_id) else editable_job db job_id

  unfoldable pub cmd_edit_lock : World → (id pid : Json) → Exec Job
  unfolding editable id_argument check_pid take_edit_lock
  cmd_edit_lock w id pid_value = do
    job_id ← lift (id_argument id)
    pid ← lift (check_pid true pid_value)
    holder ← lift (pid_argument pid)
    db ← get_tables
    job ← lift (editable db job_id)
    _ ← take_edit_lock w job_id holder edit_lock_secs
    pure job

unfoldable pub cmd_edit_unlock : (id pid : Json) → Exec Bool
unfolding id_argument check_pid release_edit_lock
cmd_edit_unlock id pid_value = do
  job_id ← lift (id_argument id)
  pid ← lift (check_pid true pid_value)
  holder ← lift (pid_argument pid)
  release_edit_lock job_id (some holder)

-- _requeue_job
unfoldable pub requeue_job : Python → Config → ℕ → ℕ → Exec ℕ
unfolding requeue
requeue_job python config now job_id = do
  new_id ← requeue python now job_id config.pending false
  update (update_job (set_log_path (config.log_path_of new_id)) new_id)
  commit
  pure new_id

unfoldable pub cmd_requeue : Python → Config → ℕ → Json → Exec ℕ
unfolding id_argument requeue_job
cmd_requeue python config now value = do
  job_id ← lift (id_argument value)
  requeue_job python config now job_id
