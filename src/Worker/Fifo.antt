-- ===== src/Worker/Fifo.antt =====
-- When `_worker_step` (src/queuer/daemon.py) starts a job.
use custom_queuer.Prelude.{arith, false, none, some, ℕ, ◌≡◌}
use custom_queuer.Tables.{Conn, Job, ok}
use custom_queuer.Queue.{get_queue_head}
use custom_queuer.Lifecycle.{get_paused}
use custom_queuer.Deps.{dep_verdict, ready}
use custom_queuer.EditLock.{World, live_edit_lock}
use custom_queuer.Worker.{Slot, lane_busy, run_job, until, worker_step}

-- What holds of a job that is started: it is the head of its lane on a channel that is neither
-- paused nor busy, its dependencies are met, its start time has passed and nobody edits it.
pub record MayRun (w : World) (channel : ℕ) (slot : Slot) (c : Conn) (j : Job) : Type 0 where
  pub not_paused : get_paused c.tables channel ≡ false
  pub is_head : get_queue_head c.tables channel false ≡ some j
  pub not_busy : (lane_busy c.tables channel slot).0 ≡ false
  pub deps_met : dep_verdict c.tables j.id ≡ ready
  pub time_passed : until w.now j.settings.not_before ≡ 0
  pub not_locked : (live_edit_lock w j.id c).0 ≡ ok none

module _ (w : World) (channel : ℕ) (slot : Slot) (c : Conn) (j : Job) (slot' : Slot)
    (c' : Conn) where
  pub worker_step-MayRun :
      worker_step w channel slot c ≡ (ok (run_job j, slot'), c') → MayRun w channel slot c j
  unfolding worker_step
  worker_step-MayRun e = ground arith
