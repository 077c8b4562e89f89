-- ===== src/Worker.antt =====
-- The normal worker of one channel in src/queuer/daemon.py: one look at the queue decides whether
-- to run the head, skip it, or sleep. Running a job is the daemon's business with the system.
pub mod Fifo
use custom_queuer.Prelude.{
  Bool, Option, false, if◌then◌else◌, is_some, min, none, not, some, true, ℕ, ◌-◌, ◌==◌, ◌||◌,
}
use custom_queuer.Tables.{
  Db, Exec, Job, Lock, Note, dependency_failed, dependency_removed, get_tables, pure, ◌>>=◌, ◌>>◌,
}
use custom_queuer.Queue.{get_queue_head}
use custom_queuer.Lifecycle.{get_paused}
use custom_queuer.Deps.{Verdict, dep_verdict, failed_dep, ready, removed_dep, waiting}
use custom_queuer.EditLock.{World, live_edit_lock, seconds}

-- Seconds are counted in microseconds, like the times.
abbrev pub idle_poll : ℕ
idle_poll = seconds 30

abbrev pub edit_lock_recheck : ℕ
edit_lock_recheck = seconds 5

-- What the daemon holds in memory about a channel: the job in the foreground, and whether the task
-- of the priority lane runs; and whether the daemon is stopping.
pub record Slot : Type 0 where
  pub current_job_id : Option ℕ
  pub priority_task : Bool
  pub stopping : Bool

-- What one step does: it runs a job, records a head that cannot run as skipped, or sleeps.
pub data Step : Type 0 where
  run_job : Job → Step
  skip_blocked : ℕ → Note → Step
  sleep : ℕ → Step

-- The time left until `not_before`; 0 where it has passed or none is set.
unfoldable pub until : ℕ → Option ℕ → ℕ
until now none = 0
until now (some not_before) = not_before - now

-- `_lane_busy`, which starts the task of a priority lane that has jobs and no task.
unfoldable pub lane_busy : Db → ℕ → Slot → Bool × Slot
unfolding get_queue_head
lane_busy db channel slot =
    if is_some slot.current_job_id || slot.priority_task
    then (true, slot)
    else if is_some (get_queue_head db channel true)
    then (true, record slot { priority_task = not slot.stopping })
    else (false, slot)

abbrev edit_or_run : Job → Option Lock → Step
edit_or_run head none = run_job head
edit_or_run head (some lock) = sleep edit_lock_recheck

-- A head whose dependencies are met.
abbrev ready_step : World → Job → Exec Step
ready_step w head =
    let remaining = until w.now head.settings.not_before in
    if remaining == 0
    then (do held ← live_edit_lock w head.id; pure (edit_or_run head held))
    else pure (sleep (min remaining idle_poll))

abbrev head_step : World → Job → Verdict → Exec Step
head_step w head ready = ready_step w head
head_step w head (waiting dep_id) = pure (sleep idle_poll)
head_step w head (failed_dep dep_id) = pure (skip_blocked head.id (dependency_failed dep_id))
head_step w head (removed_dep dep_id) = pure (skip_blocked head.id (dependency_removed dep_id))

abbrev free_step : World → Db → Option Job → Exec Step
free_step w db none = pure (sleep idle_poll)
free_step w db (some head) = head_step w head (dep_verdict db head.id)

-- `head is not None and self._lane_busy(channel)`: the lane is looked at only if there is a head.
abbrev queue_step : World → Db → ℕ → Slot → Option Job → Exec (Step × Slot)
queue_step w db channel slot none = pure (sleep idle_poll, slot)
queue_step w db channel slot (some head) =
    let (busy, slot') = lane_busy db channel slot in
    if busy
    then pure (sleep idle_poll, slot')
    else (do s ← free_step w db (some head); pure (s, slot'))

unfoldable pub worker_step : World → ℕ → Slot → Exec (Step × Slot)
worker_step w channel slot = do
  db ← get_tables
  if get_paused db channel
      then pure (sleep idle_poll, slot)
      else queue_step w db channel slot (get_queue_head db channel false)
