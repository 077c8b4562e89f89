-- ===== src/Reorder.antt =====
-- `_reorder`: moving a queued job within its lane, in src/queuer/db.py.
pub mod Accepted
use custom_queuer.Prelude.{
  Bool, List, Option, elem, false, if◌then◌else◌, map, none, not, some, true, ℕ, ◌==◌,
}
use custom_queuer.Tables.{
  Exec, Job, commit, deadlock, does_not_exist, get_job, get_tables, guard, key_error, not_queued,
  out_of_fuel, pure, reorder_self, set_position, throw, try_rollback, update, ◌>>=◌, ◌>>◌,
}
use custom_queuer.Queue.{position_beside, queued_ids_ordered}
use custom_queuer.Deadlock.{Answer, find_deadlock, loop, no_fuel, no_loop, no_parent}

-- `set(_queued_ids_ordered(...))`
abbrev in_ids : ℕ → List ℕ → Bool
in_ids job_id ids = elem job_id ids

abbrev require_job : ℕ → Option Job → Exec Job
require_job job_id none = throw (does_not_exist job_id)
require_job job_id (some j) = pure j

-- `if loop: conn.rollback(); raise`
abbrev pub undo_loop : Answer → Exec (Unit {0})
undo_loop no_loop = pure tt
undo_loop no_fuel = throw out_of_fuel
undo_loop no_parent = throw key_error
undo_loop (loop l) = try_rollback (throw (deadlock (map (λ x. x.0) l)))

unfoldable pub reorder : ℕ → ℕ → Bool → Exec (Unit {0})
unfolding get_job queued_ids_ordered position_beside set_position find_deadlock elem
reorder job_id target_id after = do
  guard (not (job_id == target_id)) reorder_self
  db ← get_tables
  job ← require_job job_id (get_job db job_id)
  let ids = queued_ids_ordered db job.channel job.is_priority
  guard (in_ids job_id ids) (not_queued job_id)
  guard (in_ids target_id ids) (not_queued target_id)
  new_position ← position_beside target_id job.channel job.is_priority after (some job_id)
  update (set_position job_id (some new_position))
  db' ← get_tables
  (if job.is_priority then pure tt else undo_loop (find_deadlock db' job_id))
  commit

unfoldable pub reorder_before : ℕ → ℕ → Exec (Unit {0})
unfolding reorder
reorder_before job_id before_id = reorder job_id before_id false

unfoldable pub reorder_after : ℕ → ℕ → Exec (Unit {0})
unfolding reorder
reorder_after job_id after_id = reorder job_id after_id true
