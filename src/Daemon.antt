-- ===== src/Daemon.antt =====
-- What the daemon (src/queuer/daemon.py) writes to the database when a job ends and when it starts
-- up. Messages, hooks and the waking of workers are left out: they write no row.
pub mod Retries
use custom_queuer.Prelude.{
  Bool, List, Option, [], false, if◌then◌else◌, ltb, map, none, not, some, suc, true, ℕ, ◌&&◌, ◌==◌,
  ◌∷◌,
}
use custom_queuer.Tables.{
  Db, Exec, Job, Note, OnFail, Status, Text, auto_retry, auto_retry_after, commit,
  dependency_failed, dependency_removed, failed, get_job, get_tables, interrupted, pause, pure,
  stop_note, update, update_job, ◌>>=◌, ◌>>◌,
}
use custom_queuer.Checks.{Python}
use custom_queuer.Lifecycle.{
  Ending, ended, get_running, get_stopped, mark_finished, set_paused, skip_queued,
}
use custom_queuer.Deps.{Verdict, removed_dep, skip_dependants, sort_ids}
use custom_queuer.EditLock.{clear_edit_locks}
use custom_queuer.Requeue.{requeue}

-- What the daemon was started with: how many finished jobs it keeps, and the log file of a job.
pub record Config : Type 0 where
  pub keep : ℕ
  pub log_path_of : ℕ → Text
  pub pending : Text

-- _settle_dependants: the channels whose workers are woken.
unfoldable pub settle_dependants : Config → ℕ → ℕ → Exec (List ℕ)
settle_dependants config now job_id = do
  (_, channels) ← skip_dependants now config.keep job_id
  pure channels

abbrev pub skip_note : Verdict → ℕ → Note
skip_note (removed_dep _) dep_id = dependency_removed dep_id
skip_note _ dep_id = dependency_failed dep_id

-- _skip_blocked
unfoldable pub skip_blocked : Config → ℕ → ℕ → Verdict → ℕ → Exec (List ℕ)
skip_blocked config now job_id verdict dep_id = do
  skip_queued now job_id (skip_note verdict dep_id) config.keep
  settle_dependants config now job_id

abbrev pub is_failed : Status → Bool
is_failed failed = true
is_failed _ = false

-- A failed job with retries left.
abbrev pub wants_retry : Job → Bool
wants_retry j = is_failed j.status && ltb j.source.attempt j.settings.max_retries

abbrev retry_note : Option Note → ℕ → ℕ → ℕ → Note
retry_note none attempt max_retries new_id = auto_retry attempt max_retries new_id
retry_note (some note) attempt max_retries new_id = auto_retry_after note attempt max_retries new_id

abbrev pub set_log_path : Text → Job → Job
set_log_path log_path j = record j { source = record j.source { log_path = log_path } }

abbrev set_note : Note → Job → Job
set_note note j = record j { outcome = record j.outcome { note = some note } }

abbrev retry_row : Python → Config → ℕ → Option Job → Exec Bool
retry_row python config now none = pure false
retry_row python config now (some j) = if not (wants_retry j) then pure false else (do
  new_id ← requeue python now j.id config.pending true
  update (update_job (set_log_path (config.log_path_of new_id)) new_id)
  update (
      update_job
        (set_note (retry_note j.outcome.note (suc j.source.attempt) j.settings.max_retries new_id))
        j.id)
  commit
  pure true)

-- _maybe_auto_retry
unfoldable pub maybe_auto_retry : Python → Config → ℕ → ℕ → Exec Bool
maybe_auto_retry python config now job_id = do
  db ← get_tables
  retry_row python config now (get_job db job_id)

abbrev pub pauses : OnFail → Bool
pauses pause = true
pauses _ = false

abbrev pause_row : Option Job → Exec (Unit {0})
pause_row none = pure tt
pause_row (some j) =
    if is_failed j.status && pauses j.settings.on_fail then set_paused true j.channel else pure tt

-- _pause_if_asked
unfoldable pub pause_if_asked : ℕ → Exec (Unit {0})
pause_if_asked job_id = do db ← get_tables; pause_row (get_job db job_id)

-- _after_finish
unfoldable pub after_finish : Python → Config → ℕ → ℕ → Exec (List ℕ)
after_finish python config now job_id = do
  channels ← settle_dependants config now job_id
  retried ← maybe_auto_retry python config now job_id
  (if retried then pure tt else pause_if_asked job_id)
  pure channels

-- _release: the slot is cleared only if it still points at this job.
unfoldable pub release : ℕ → Option ℕ → Option ℕ
release job_id none = none
release job_id (some current) = if current == job_id then none else some current

-- _recover_on_startup: what a previous daemon left running or frozen was interrupted.
abbrev interrupted_ending : Ending
interrupted_ending = ended interrupted stop_note

abbrev recover_job : Config → ℕ → Option Job → Exec (Unit {0})
recover_job config now none = pure tt
recover_job config now (some j) = do
  mark_finished now j.id interrupted_ending config.keep
  _ ← settle_dependants config now j.id
  pure tt

unfoldable pub recover_channels : Config → ℕ → List ℕ → Exec (Unit {0})
recover_channels config now [] = pure tt
recover_channels config now (channel ∷ rest) = do
  db ← get_tables
  recover_job config now (get_running db channel)
  recover_job config now (get_stopped db channel)
  recover_channels config now rest

-- list_channels: ORDER BY id
unfoldable pub list_channels : Db → List ℕ
list_channels db = sort_ids (map (λ r. r.id) db.channels)

unfoldable pub recover_on_startup : Config → ℕ → Exec (Unit {0})
recover_on_startup config now = do
  _ ← clear_edit_locks
  db ← get_tables
  recover_channels config now (list_channels db)
