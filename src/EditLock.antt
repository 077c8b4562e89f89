-- ===== src/EditLock.antt =====
-- The edit lock of src/queuer/db.py: while `qur edit` holds a queued job's lock the daemon does not
-- start it. A lock that has expired, or whose holder is gone, does not count.
pub mod Held
use custom_queuer.Prelude.{
  Bool, List, Option, [], exists, false, find, if◌then◌else◌, leb, length, none, not, select, some,
  true, ℕ, ◌&&◌, ◌*◌, ◌++◌, ◌+◌, ◌==◌, ◌||◌, ◌∷◌,
}
use custom_queuer.Tables.{
  Db, Exec, Job, Lock, Result, being_edited, commit, does_not_exist, get_job, get_tables, guard,
  is_queued, lift, lock_failed, not_editable, ok, priority_not_editable, pure, raise, throw, unlock,
  update, ◌>>=◌, ◌>>◌,
}

-- The clock, and `_pid_alive`: whether the system knows the process.
pub record World : Type 0 where
  pub now : ℕ
  pub pid_alive : ℕ → Bool

abbrev pub edit_lock_secs : ℕ
edit_lock_secs = 30 * 60

-- Times count microseconds.
abbrev pub seconds : ℕ → ℕ
seconds n = n * 1000000

unfoldable pub find_lock : ℕ → List Lock → Option Lock
unfolding find
find_lock job_id locks = find (λ l. l.job_id == job_id) locks

abbrev pub is_stale : World → Lock → Bool
is_stale w lock = leb lock.expires_at w.now || not (w.pid_alive lock.holder_pid)

abbrev checked_lock : World → ℕ → Option Lock → Exec (Option Lock)
checked_lock w job_id none = pure none
checked_lock w job_id (some lock) =
    if is_stale w lock then (do update (unlock job_id); commit; pure none) else pure (some lock)

unfoldable pub live_edit_lock : World → ℕ → Exec (Option Lock)
live_edit_lock w job_id = do db ← get_tables; checked_lock w job_id (find_lock job_id db.edit_locks)

unfoldable pub clear_edit_locks : Exec ℕ
clear_edit_locks = do
  db ← get_tables
  update (λ t. record t { edit_locks = [] })
  commit
  pure (length db.edit_locks)

abbrev pub editable_row : ℕ → Option Job → Result Job
editable_row job_id none = raise (does_not_exist job_id)
editable_row job_id (some j) =
    if not (is_queued j.status)
    then raise (not_editable job_id)
    else if j.is_priority
    then raise (priority_not_editable job_id)
    else ok j

unfoldable pub editable_job : Db → ℕ → Result Job
unfolding get_job
editable_job db job_id = editable_row job_id (get_job db job_id)

abbrev held_by_other : ℕ → Option Lock → Bool
held_by_other holder_pid none = false
held_by_other holder_pid (some lock) = not (lock.holder_pid == holder_pid)

-- INSERT OR REPLACE
abbrev put_lock : Lock → Db → Db
put_lock lock db = record db {
  edit_locks = select (λ l. not (l.job_id == lock.job_id)) db.edit_locks ++ lock ∷ [];
}

abbrev or_not_locked : ℕ → Option Lock → Exec Lock
or_not_locked job_id none = throw (lock_failed job_id)
or_not_locked job_id (some lock) = pure lock

unfoldable pub take_edit_lock : World → ℕ → ℕ → ℕ → Exec Lock
unfolding select
take_edit_lock w job_id holder_pid secs = do
  db ← get_tables
  lift (editable_job db job_id)
  held ← live_edit_lock w job_id
  guard (not (held_by_other holder_pid held)) (being_edited job_id)
  update (
      put_lock (record {
        job_id = job_id;
        holder_pid = holder_pid;
        taken_at = w.now;
        expires_at = w.now + seconds secs;
      }))
  commit
  lock ← live_edit_lock w job_id
  or_not_locked job_id lock

abbrev is_holder : Option ℕ → Lock → Bool
is_holder none l = true
is_holder (some holder_pid) l = l.holder_pid == holder_pid

abbrev releases : ℕ → Option ℕ → Lock → Bool
releases job_id holder_pid l = l.job_id == job_id && is_holder holder_pid l

unfoldable pub release_edit_lock : ℕ → Option ℕ → Exec Bool
unfolding select exists
release_edit_lock job_id holder_pid = do
  db ← get_tables
  update
      (λ t. record t { edit_locks = select (λ l. not (releases job_id holder_pid l)) t.edit_locks })
  commit
  pure (exists (releases job_id holder_pid) db.edit_locks)
