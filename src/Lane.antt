-- ===== src/Lane.antt =====
-- The two lanes of a channel in src/queuer/daemon.py: `add --now` freezes the normal job that runs
-- (SIGSTOP), the priority lane runs its jobs, and the frozen job goes on (SIGCONT).
pub mod Rows
pub mod Steps
pub mod Alone
pub mod Handover
pub mod Tasks
pub mod AddNow
pub mod Exclusive
pub mod Race
use custom_queuer.Prelude.{
  Bool, List, Option, if◌then◌else◌, is_some, none, not, select, some, true, ℕ, ◌==◌, ◌||◌, ◌∷◌,
}
use custom_queuer.Tables.{Db, Exec, Job, get_job, get_tables, key_error, pure, throw, ◌>>=◌, ◌>>◌}
use custom_queuer.Lifecycle.{mark_resumed, mark_stopped}
use custom_queuer.Worker.{Slot}

-- What the daemon holds in memory about one channel, and `halted`, the process groups that the
-- system keeps stopped. A process group is the pid of its leader.
pub record Lane : Type 0 where
  pub current_job : Option ℕ
  pub current_proc : Option ℕ
  pub frozen : Option (ℕ × ℕ)
  pub priority_task : Bool
  pub stopping : Bool
  pub cancelled : List ℕ
  pub halted : List ℕ

-- The part that `_worker_step` reads.
abbrev pub slot_of : Lane → Slot
slot_of lane = record {
  current_job_id = lane.current_job;
  priority_task = lane.priority_task;
  stopping = lane.stopping;
}

abbrev pub remove : ℕ → List ℕ → List ℕ
remove a xs = select (λ x. not (x == a)) xs

abbrev pub target_row : ℕ → ℕ → Option Job → Option (ℕ × ℕ)
target_row job_id proc none = none
target_row job_id proc (some j) = if j.is_priority then none else some (job_id, proc)

abbrev pub target_slot : Db → Option ℕ → Option ℕ → Option (ℕ × ℕ)
target_slot db none proc = none
target_slot db (some job_id) none = none
target_slot db (some job_id) (some proc) = target_row job_id proc (get_job db job_id)

-- The job and process group that `_freeze_current_if_normal` sends SIGSTOP to, if any.
unfoldable pub freeze_target : Db → Lane → Option (ℕ × ℕ)
freeze_target db lane =
    if is_some lane.frozen || lane.stopping
    then none
    else target_slot db lane.current_job lane.current_proc

abbrev pub freeze_group : Bool → Lane → Option (ℕ × ℕ) → Exec Lane
freeze_group gone lane none = pure lane
freeze_group gone lane (some (job_id, proc)) = if gone then pure lane else (do
  mark_stopped job_id
  pure (record lane { frozen = some (job_id, proc); halted = proc ∷ lane.halted }))

-- _freeze_current_if_normal; `gone` is the ProcessLookupError of SIGSTOP.
unfoldable pub freeze_current_if_normal : Bool → Lane → Exec Lane
unfolding freeze_target
freeze_current_if_normal gone lane = do
  db ← get_tables
  freeze_group gone lane (freeze_target db lane)

abbrev pub resume_group : Bool → Lane → Option (ℕ × ℕ) → Exec Lane
resume_group gone lane none = throw key_error
resume_group gone lane (some (job_id, proc)) =
    if gone then pure (record lane { frozen = none }) else (do
      mark_resumed job_id
      pure (record lane {
        frozen = none;
        current_job = some job_id;
        current_proc = some proc;
        halted = remove proc lane.halted;
      }))

-- _resume_frozen; `gone` is the ProcessLookupError of SIGCONT.
unfoldable pub resume_frozen : Bool → Lane → Exec Lane
resume_frozen gone lane = resume_group gone lane lane.frozen

-- _ensure_priority_worker
unfoldable pub ensure_priority_worker : Lane → Lane
ensure_priority_worker lane = if lane.stopping then lane else record lane { priority_task = true }

-- The slot after the process was created and the row says running.
unfoldable pub take_slot : ℕ → ℕ → Lane → Lane
take_slot job_id proc lane = record lane { current_job = some job_id; current_proc = some proc }

abbrev release_slot : ℕ → Lane → Option ℕ → Lane
release_slot job_id lane none = lane
release_slot job_id lane (some current) =
    if current == job_id then record lane { current_job = none; current_proc = none } else lane

-- `_release`, with the job taken from `_cancelled` as `_run_job` does before it.
unfoldable pub release_lane : ℕ → Lane → Lane
release_lane job_id lane =
    release_slot job_id (record lane { cancelled = remove job_id lane.cancelled }) lane.current_job

-- _cmd_cancel on a job in the foreground, and on the frozen one: it leaves the frozen slot, and
-- SIGCONT lets it die.
unfoldable pub cancel_job : ℕ → Lane → Lane
cancel_job job_id lane = record lane { cancelled = job_id ∷ lane.cancelled }

unfoldable pub cancel_frozen : ℕ → ℕ → Lane → Lane
unfolding cancel_job
cancel_frozen job_id proc lane = record (cancel_job job_id lane) {
  frozen = none;
  halted = remove proc lane.halted;
}

abbrev continue_frozen : Option (ℕ × ℕ) → List ℕ → List ℕ
continue_frozen none halted = halted
continue_frozen (some (job_id, proc)) halted = remove proc halted

-- `_shutdown` before its first await: a frozen group gets SIGCONT, since it does not act on SIGTERM
-- while it is stopped, and it stays in the frozen slot.
unfoldable pub stop_lane : Lane → Lane
stop_lane lane = record lane { stopping = true; halted = continue_frozen lane.frozen lane.halted }
