-- ===== src/Daemon/Retries.antt =====
-- When a job is retried, and what a failure does to its channel (src/queuer/daemon.py).
use custom_queuer.Prelude.{arith, some, true, ℕ, ◌<◌, ◌≡◌}
use custom_queuer.Tables.{Conn, Job, failed, get_job, ok}
use custom_queuer.Checks.{Python}
use custom_queuer.Daemon.{Config, maybe_auto_retry}

-- Only a failed job with retries left is retried.
pub maybe_auto_retry-wants_retry :
    (python : Python) (config : Config) (now job_id : ℕ) (j : Job) (c c' : Conn)
    → get_job c.tables job_id ≡ some j
    → maybe_auto_retry python config now job_id c ≡ (ok true, c')
    → (j.status ≡ failed) × (j.source.attempt < j.settings.max_retries)
unfolding maybe_auto_retry
maybe_auto_retry-wants_retry python config now job_id j c c' found e = ground arith
