-- ===== src/EditLock/Held.antt =====
-- What the edit locks of src/queuer/db.py promise.
use custom_queuer.Prelude.{arith, false, some, ℕ, ◌≡◌}
use custom_queuer.Tables.{Conn, Lock, ok}
use custom_queuer.EditLock.{World, find_lock, is_stale, live_edit_lock, take_edit_lock}

-- A lock that counts has not expired, its holder is alive, and it is the one in the table.
pub live_edit_lock-counts :
    (w : World) (job_id : ℕ) (lock : Lock) (c c' : Conn)
    → live_edit_lock w job_id c ≡ (ok (some lock), c')
    → (is_stale w lock ≡ false) × (find_lock job_id c.tables.edit_locks ≡ some lock) × (c' ≡ c)
unfolding live_edit_lock
live_edit_lock-counts w job_id lock c c' e = ground arith

live_edit_lock_live :
    (w : World) (job_id : ℕ) (lock : Lock) (c : Conn)
    → find_lock job_id c.tables.edit_locks ≡ some lock
    → is_stale w lock ≡ false
    → live_edit_lock w job_id c ≡ (ok (some lock), c)
unfolding live_edit_lock
live_edit_lock_live w job_id lock c e live = ground arith

-- While a process holds the lock of a job, no other process can take it.
pub take_edit_lock_exclusive :
    (w : World) (job_id holder_pid secs : ℕ) (lock taken : Lock) (c c' : Conn)
    → find_lock job_id c.tables.edit_locks ≡ some lock
    → is_stale w lock ≡ false
    → take_edit_lock w job_id holder_pid secs c ≡ (ok taken, c')
    → holder_pid ≡ lock.holder_pid
unfolding take_edit_lock
take_edit_lock_exclusive w job_id holder_pid secs lock taken c c' e live t =
    ground (arith, live_edit_lock_live w job_id lock c e live)
