-- ===== src/Samples/Tests.antt =====
-- The definitions run on the samples.
use custom_queuer.Prelude.{
  List, [], false, half, inl, none, pos, refl, some, true, ◌+ℤ◌, ◌+◌, ◌-ℤ◌, ◌∷◌, ◌≡◌,
}
use custom_queuer.Tables.{
  Conn, Job, Lock, Text, get_job, is_awaited, ok, queued, queued_behind, raise, register_channel,
  set_position, unlock, update_job,
}
use custom_queuer.LogClean.{plan}
use custom_queuer.Checks.{
  check_retry_delay, check_signal_text, check_stop_signal, is_stop_signal, starts_with_sig,
  str_value,
}
use custom_queuer.Request.{check_request}
use custom_queuer.Queue.{get_queue_head, next_position, position_beside, queued_ids_ordered}
use custom_queuer.Deadlock.{
  active_deps, dependency, find_deadlock, loop, no_loop, pred, queue_order, steps,
}
use custom_queuer.Enqueue.{
  check_behind, enqueue, finish_insert, insert_deps, insert_job, insert_request, is_queued_in,
  new_row, place, run_key_taken,
}
use custom_queuer.Backlog.{delete_jobs, drop_orphan_deps, prune_backlog, stale_ids}
use custom_queuer.Lifecycle.{
  end_queued, get_paused, get_running, get_stopped, mark_finished, mark_running,
}
use custom_queuer.Deps.{cascade, dep_verdict, ready, skip_dependants, sort_ids}
use custom_queuer.EditLock.{
  clear_edit_locks, editable_job, find_lock, live_edit_lock, seconds, take_edit_lock,
}
use custom_queuer.Reorder.{reorder}
use custom_queuer.Requeue.{not_before_of, requeue, requeue_request, retry_delay}
use custom_queuer.Worker.{edit_lock_recheck, lane_busy, run_job, sleep, until, worker_step}
use custom_queuer.Daemon.{
  list_channels, maybe_auto_retry, recover_channels, recover_on_startup, settle_dependants,
}
use custom_queuer.EditJob.{
  Update, check_each, check_new_deps, edit_job, max_retries, set_column, set_columns, write_edit,
}
use custom_queuer.Samples.{
  append_request, blocked_request, config, conn, db, locked_conn, log_files, python, request, row,
  settings, slot, stuck_db, world,
}
use custom_queuer.Deadlock.Sound.{IsWalk}

program : Unit {0}
unfolding enqueue find_deadlock dep_verdict worker_step ◌+ℤ◌ ◌-ℤ◌ half queued_ids_ordered cascade
    skip_dependants mark_finished mark_running take_edit_lock live_edit_lock get_paused
    get_queue_head lane_busy until check_request place next_position is_queued_in position_beside
    insert_job new_row run_key_taken insert_request finish_insert register_channel check_behind
    insert_deps find_lock unlock plan editable_job reorder stale_ids delete_jobs drop_orphan_deps
    is_awaited prune_backlog end_queued get_job update_job set_position
program = tt

-- The lane is renumbered, and the new job 6 stands between jobs 1 and 2.
enqueue_after_first : (enqueue python 7 request conn).0 ≡ ok 6
unfolding program
enqueue_after_first = refl

order_after_enqueue :
    queued_ids_ordered (enqueue python 7 request conn).1.tables 1 false ≡ 1 ∷ 6 ∷ 2 ∷ []
unfolding program
order_after_enqueue = refl

enqueue_blocked : (enqueue python 7 blocked_request conn).0 ≡ raise (queued_behind 2)
unfolding program
enqueue_blocked = refl

pub stuck_loop : find_deadlock stuck_db 1 ≡ loop ((2, dependency) ∷ (1, queue_order) ∷ [])
unfolding program
stuck_loop = refl

dep_verdict_sample : dep_verdict db 2 ≡ ready
unfolding program
dep_verdict_sample = refl

pub blocked_result : enqueue python 7 blocked_request conn ≡ (raise (queued_behind 2), conn)
unfolding program
blocked_result = refl

-- The head of the lane is started, unless somebody edits it.
pub worker_runs_head :
    worker_step world 1 slot conn ≡ (ok (run_job (row 1 queued (some (pos 0))), slot), conn)
unfolding program
worker_runs_head = refl

worker_waits_for_edit :
    (worker_step world 1 slot locked_conn).0 ≡ ok (sleep edit_lock_recheck, slot)
unfolding program
worker_waits_for_edit = refl

pub appended : Conn
appended = (enqueue python 7 append_request conn).1

pub appended_ok : enqueue python 7 append_request conn ≡ (ok 6, appended)
unfolding program appended
appended_ok = refl

order_appended : queued_ids_ordered appended.tables 1 false ≡ 1 ∷ 2 ∷ 6 ∷ []
unfolding program appended
order_appended = refl

-- Job 5 has failed, so the job that depends on it is skipped.
skips_dependant : (skip_dependants 9 10 5 (enqueue python 7 request conn).1).0 ≡ ok (6 ∷ [], 1 ∷ [])
unfolding program
skips_dependant = refl

pub started : Conn
started = (mark_running 8 1 77 77 conn).1

pub started_ok : mark_running 8 1 77 77 conn ≡ (ok tt, started)
unfolding program started
started_ok = refl

abbrev pub retaken_lock : Lock
retaken_lock = record { job_id = 1; holder_pid = 42; taken_at = 100; expires_at = 100 + seconds 5 }

pub retaken_conn : Conn
retaken_conn = (take_edit_lock world 1 42 5 locked_conn).1

pub retaken_ok : take_edit_lock world 1 42 5 locked_conn ≡ (ok retaken_lock, retaken_conn)
unfolding program retaken_conn
retaken_ok = refl

abbrev pub sigint : Text
sigint = b'S' ∷ b'I' ∷ b'G' ∷ b'I' ∷ b'N' ∷ b'T' ∷ []

abbrev pub short_int : Text
short_int = b'I' ∷ b'N' ∷ b'T' ∷ []

pub accepts_int : check_stop_signal python (str_value short_int) ≡ ok (some sigint)
unfolding check_stop_signal check_signal_text starts_with_sig is_stop_signal
accepts_int = refl

-- Job 2 waits for job 1 ahead of it, and nothing leads back to it.
pub no_loop_sample : find_deadlock db 2 ≡ no_loop
unfolding program
no_loop_sample = refl

pub step_sample : IsWalk db 2 ((1, queue_order) ∷ [])
unfolding steps active_deps pred program
step_sample = (inl refl, tt)

pub retried : Conn
retried = (maybe_auto_retry python config 7 5 conn).1

pub retried_ok : maybe_auto_retry python config 7 5 conn ≡ (ok true, retried)
unfolding maybe_auto_retry requeue program requeue_request not_before_of retry_delay retried
    check_retry_delay
retried_ok = refl

abbrev pub edits : List Update
edits = max_retries 9 ∷ []

pub edited : Conn
edited = (edit_job python world 1 edits none none (some 42) locked_conn).1

abbrev pub edited_job : Job
edited_job = record (row 1 queued (some (pos 0))) { settings = record settings { max_retries = 9 } }

pub edited_ok :
    edit_job python world 1 edits none none (some 42) locked_conn ≡ (ok edited_job, edited)
unfolding edit_job program write_edit set_columns set_column check_each check_new_deps edited
edited_ok = refl

-- What a previous daemon left running is interrupted.
recovered : get_running (recover_on_startup config 9 conn).1.tables 1 ≡ none
unfolding recover_on_startup recover_channels list_channels settle_dependants clear_edit_locks
    get_running get_stopped program sort_ids
recovered = refl

pub moved_conn : Conn
moved_conn = (reorder 2 1 false conn).1

pub moved_ok : reorder 2 1 false conn ≡ (ok tt, moved_conn)
unfolding program moved_conn
moved_ok = refl

pub two_found : get_job conn.tables 2 ≡ some (row 2 queued (some (pos 1)))
unfolding get_job
two_found = refl

-- The limit is not reached by age, and job 1 keeps its log.
plan_sample :
    plan db log_files none (some 10) 100 ≡ record { ts = 2; path = b'9' ∷ []; size = 20 } ∷ []
unfolding program
plan_sample = refl
