-- ===== src/Lifecycle.antt =====
-- The life of a job in src/queuer/db.py: queued, running, frozen and running again, finished.
pub mod Steps
use custom_queuer.Prelude.{
  Bool, List, Option, exists, false, find, is_some, none, not, select, some, ℕ, ℤ, ◌&&◌, ◌==◌, ◌||◌,
  ◌∷◌,
}
use custom_queuer.Tables.{
  Db, Exec, Job, Note, Status, cancelled, cancelled_while_queued, commit, does_not_exist, get_job,
  get_tables, guard, invalid_status, is_queued, is_running, is_stopped, is_terminal, not_queued,
  not_running, not_stopped, running, set_position, skipped, stopped, throw, unlock, update,
  update_job, ◌>>=◌, ◌>>◌,
}
use custom_queuer.Backlog.{prune_backlog}

unfoldable pub get_running : Db → ℕ → Option Job
unfolding find
get_running db channel = find (λ j. is_running j.status && j.channel == channel) db.jobs

unfoldable pub get_stopped : Db → ℕ → Option Job
unfolding find
get_stopped db channel = find (λ j. is_stopped j.status && j.channel == channel) db.jobs

unfoldable pub list_active : Db → List Job
unfolding select
list_active db = select (λ j. is_running j.status || is_stopped j.status) db.jobs

-- `job is None or job["status"] != ...`
abbrev pub status_is : (Status → Bool) → Option Job → Bool
status_is p none = false
status_is p (some j) = p j.status

abbrev pub run_row : ℕ → ℕ → ℕ → Job → Job
run_row now pid pgid j = record j {
  status = running;
  position = none;
  outcome = record j.outcome { pid = some pid; pgid = some pgid; started_at = some now };
}

unfoldable pub mark_running : ℕ → ℕ → ℕ → ℕ → Exec (Unit {0})
mark_running now job_id pid pgid = do
  db ← get_tables
  guard (status_is is_queued (get_job db job_id)) (not_queued job_id)
  update (update_job (run_row now pid pgid) job_id)
  update (unlock job_id)
  commit

abbrev pub set_status : Status → Job → Job
set_status status j = record j { status = status }

unfoldable pub mark_stopped : ℕ → Exec (Unit {0})
mark_stopped job_id = do
  db ← get_tables
  guard (status_is is_running (get_job db job_id)) (not_running job_id)
  update (update_job (set_status stopped) job_id)
  commit

unfoldable pub mark_resumed : ℕ → Exec (Unit {0})
mark_resumed job_id = do
  db ← get_tables
  guard (status_is is_stopped (get_job db job_id)) (not_stopped job_id)
  update (update_job (set_status running) job_id)
  commit

-- The keyword arguments of `mark_finished`.
pub record Ending : Type 0 where
  pub status : Status
  pub exit_code : Option ℤ
  pub note : Option Note
  pub max_rss_kb : Option ℕ
  pub cpu_user_secs : Option ℕ
  pub cpu_sys_secs : Option ℕ

abbrev pub finish_row : ℕ → Ending → Job → Job
finish_row now ending j = record j {
  status = ending.status;
  outcome = record j.outcome {
    exit_code = ending.exit_code;
    note = ending.note;
    finished_at = some now;
    max_rss_kb = ending.max_rss_kb;
    cpu_user_secs = ending.cpu_user_secs;
    cpu_sys_secs = ending.cpu_sys_secs;
  };
}

-- RETURNING channel: no row is no job.
abbrev pub prune_after : ℕ → ℕ → Option Job → Exec (Unit {0})
prune_after job_id keep_backlog none = throw (does_not_exist job_id)
prune_after job_id keep_backlog (some j) = do commit; prune_backlog j.channel keep_backlog

unfoldable pub mark_finished : ℕ → ℕ → Ending → ℕ → Exec (Unit {0})
mark_finished now job_id ending keep_backlog = do
  guard (is_terminal ending.status) invalid_status
  update (update_job (finish_row now ending) job_id)
  db ← get_tables
  prune_after job_id keep_backlog (get_job db job_id)

abbrev pub ended : Status → Note → Ending
ended status note = record {
  status = status;
  exit_code = none;
  note = some note;
  max_rss_kb = none;
  cpu_user_secs = none;
  cpu_sys_secs = none;
}

-- _end_queued: a job that has not started goes straight to a terminal state.
unfoldable pub end_queued : ℕ → ℕ → Status → Note → ℕ → Exec (Unit {0})
end_queued now job_id status note keep_backlog = do
  db ← get_tables
  guard (is_some (get_job db job_id)) (does_not_exist job_id)
  guard (status_is is_queued (get_job db job_id)) (not_queued job_id)
  update (set_position job_id none)
  update (unlock job_id)
  commit
  mark_finished now job_id (ended status note) keep_backlog

unfoldable pub cancel_queued : ℕ → ℕ → ℕ → Exec (Unit {0})
unfolding end_queued
cancel_queued now job_id keep_backlog =
    end_queued now job_id cancelled cancelled_while_queued keep_backlog

unfoldable pub skip_queued : ℕ → ℕ → Note → ℕ → Exec (Unit {0})
unfolding end_queued
skip_queued now job_id note keep_backlog = end_queued now job_id skipped note keep_backlog

-- get_paused, set_paused: the `paused:N` keys.
unfoldable pub get_paused : Db → ℕ → Bool
unfolding exists
get_paused db channel = exists (λ (c, on). c == channel && on) db.paused

unfoldable pub set_paused : Bool → ℕ → Exec (Unit {0})
unfolding select
set_paused on channel = do
  update
      (λ db. record db { paused = (channel, on) ∷ select (λ (c, _). not (c == channel)) db.paused })
  commit
