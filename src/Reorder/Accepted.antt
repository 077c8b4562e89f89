-- ===== src/Reorder/Accepted.antt =====
-- What a move that `_reorder` (src/queuer/db.py) accepts leaves.
use custom_queuer.Prelude.{Bool, List, [], arith, false, some, ℕ, ◌≡◌, ◌≢◌}
use custom_queuer.Tables.{Conn, Job, get_job, ok}
use custom_queuer.Deadlock.{Why, find_deadlock, no_loop}
use custom_queuer.Deadlock.Sound.{IsWalk, walk_end}
use custom_queuer.Deadlock.Complete.{find_deadlock_complete}
use custom_queuer.Reorder.{reorder}

reordered :
    (job_id target_id : ℕ) (after : Bool) (c c' : Conn) (job : Job)
    → reorder job_id target_id after c ≡ (ok tt, c')
    → get_job c.tables job_id ≡ some job
    → job.is_priority ≡ false
    → (find_deadlock c'.tables job_id ≡ no_loop) × (c'.committed ≡ c'.tables)
unfolding reorder
reordered job_id target_id after c c' job e found normal = ground arith

-- After a move that is accepted in the normal lane, the new order is committed and no nonempty walk
-- of the "waits for" graph leads from the moved job back to it.
pub reorder_acyclic :
    (job_id target_id : ℕ) (after : Bool) (c c' : Conn) (job : Job)
    → reorder job_id target_id after c ≡ (ok tt, c')
    → get_job c.tables job_id ≡ some job
    → job.is_priority ≡ false
    → (c'.committed ≡ c'.tables)
      × ((l : List (ℕ × Why)) → IsWalk c'.tables job_id l → l ≢ [] → walk_end job_id l ≢ job_id)
reorder_acyclic job_id target_id after c c' job e found normal =
    let (acyclic, same) = reordered job_id target_id after c c' job e found normal in
    (same, λ l w ne. find_deadlock_complete c'.tables job_id l acyclic w ne)
