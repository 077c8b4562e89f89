-- ===== src/Lifecycle/Steps.antt =====
-- Which changes of status the functions of src/queuer/db.py make.
use mathlib.Core.Option
use custom_queuer.Prelude.{if◌then◌else◌, refl, subst, true, ℕ, ◌==◌, ◌∙◌, ◌≡◌}
use custom_queuer.Tables.{
  Conn, Job, Result, get_job, get_job-unlock, get_job-update_job, guard-eq-ok, is_queued, ok,
}
use custom_queuer.Lifecycle.{mark_running, run_row, status_is}

-- A job is started only from the queue, and the other jobs are as they were.
pub mark_running_lem :
    (now job_id pid pgid other : ℕ) (c c' : Conn)
    → mark_running now job_id pid pgid c ≡ (ok tt, c')
    → (status_is is_queued (get_job c.tables job_id) ≡ true)
      × (get_job c'.tables other ≡ (
          if other == job_id
          then Option.map (run_row now pid pgid) (get_job c.tables other)
          else get_job c.tables other))
unfolding mark_running
mark_running_lem now job_id pid pgid other c c' e =
    let (status, h) = guard-eq-ok (status_is is_queued (get_job c.tables job_id)) _ _ c e in
    (
      status,
      subst
          (λ (x : Result (Unit {0}) × Conn). get_job x.1.tables other ≡ (
            if other == job_id
            then Option.map {A = Job} (run_row now pid pgid) (get_job c.tables other)
            else get_job c.tables other))
          h
          (get_job-unlock job_id other _ ∙ get_job-update_job _ job_id other c.tables (λ j. refl)),
    )
