-- ===== src/EditJob/Refused.antt =====
-- When `edit_job` (src/queuer/db.py) is refused.
use custom_queuer.Prelude.{List, Option, arith, none, some, true, ℕ, ◌≡◌}
use custom_queuer.Tables.{Conn, Job, Lock, Mode, Result, get_job, is_queued, ok}
use custom_queuer.Lifecycle.{status_is}
use custom_queuer.Checks.{Python}
use custom_queuer.EditLock.{World, editable_job, live_edit_lock}
use custom_queuer.EditJob.{Update, all_updates, edit_job, is_editable}

-- The process that holds the lock, where a look at the lock returns one.
abbrev pub holder_of : Result (Option Lock) → Option ℕ
holder_of (ok (some lock)) = some lock.holder_pid
holder_of _ = none

-- An edit that names its editor is accepted only while that process holds the job's live lock, for a
-- job that is queued, and with columns that may be edited.
pub edit_job-holder :
    (python : Python) (w : World) (job_id pid : ℕ) (updates : List Update)
    (deps : Option (List (ℕ × Mode))) (channel : Option ℕ) (job : Job) (c c' : Conn)
    → edit_job python w job_id updates deps channel (some pid) c ≡ (ok job, c')
    → (holder_of (live_edit_lock w job_id c).0 ≡ some pid)
      × (status_is is_queued (get_job c.tables job_id) ≡ true)
      × (all_updates is_editable updates ≡ true)
unfolding edit_job editable_job
edit_job-holder python w job_id pid updates deps channel job c c' e = ground arith
