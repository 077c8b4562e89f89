-- ===== src/Samples/Examples.antt =====
-- Each theorem at an input where its hypotheses hold.
use mathlib.Core.Option
use mathlib.Core.List.{cons≢nil}
use custom_queuer.Prelude.{
  All, List, [], exists, false, if◌then◌else◌, length, map, min, negsuc, none, not, pos, refl, some,
  suc, true, ℕ, ℤ, ◌&&◌, ◌*◌, ◌++◌, ◌+ℤ◌, ◌+◌, ◌<◌, ◌==◌, ◌^◌, ◌∷◌, ◌≡◌, ◌≢◌, ◌≤◌, ◌⊎◌,
}
use custom_queuer.Tables.{
  Conn, Status, Text, failed, get_job, is_awaited, is_queued, ok, queued, queued_behind,
}
use custom_queuer.LogClean.{counted_files, deletable_files, plan, total_left}
use custom_queuer.LogClean.Safe.{MayGo, plan-MayGo}
use custom_queuer.LogClean.Limit.{plan_limit}
use custom_queuer.Reorder.Accepted.{reorder_acyclic}
use custom_queuer.Checks.{check_hook, is_stop_signal, max_hook_len, max_retry_delay_secs, str_value}
use custom_queuer.Queue.{find_position, position_beside, queued_ids_ordered}
use custom_queuer.Deadlock.{Why, dependency, find_deadlock, loop, no_loop, queue_order}
use custom_queuer.Backlog.{prune_backlog}
use custom_queuer.Lifecycle.{run_row, status_is}
use custom_queuer.Deps.{dep_verdict}
use custom_queuer.EditLock.{find_lock, is_stale, live_edit_lock, seconds}
use custom_queuer.Requeue.{not_before_of, retry_delay}
use custom_queuer.EditJob.{all_updates, is_editable}
use custom_queuer.Samples.{
  append_request, blocked_request, config, conn, db, lock, locked_conn, locked_db, log_files,
  python, row, slot, stuck_db, world,
}
use custom_queuer.Samples.Tests.{
  accepts_int, appended, appended_ok, blocked_result, edited, edited_job, edited_ok, edits,
  moved_conn, moved_ok, no_loop_sample, retaken_conn, retaken_lock, retaken_ok, retried, retried_ok,
  short_int, sigint, started, started_ok, step_sample, stuck_loop, two_found, worker_runs_head,
}
use custom_queuer.Queue.Free.{IsPlaced, position_beside-succeeds}
use custom_queuer.Queue.Beside.{IsNotBetween, find_position-IsNotBetween}
use custom_queuer.Deadlock.Sound.{IsWalk, find_deadlock-IsWalk, walk_end}
use custom_queuer.Enqueue.Atomic.{enqueue_rejected_unchanged}
use custom_queuer.Checks.Accepted.{check_hook-stored, check_stop_signal-is_stop_signal}
use custom_queuer.Deadlock.Complete.{find_deadlock_complete}
use custom_queuer.Deadlock.Total.{find_deadlock-IsAnswer}
use custom_queuer.Daemon.Retries.{maybe_auto_retry-wants_retry}
use custom_queuer.EditJob.Refused.{edit_job-holder, holder_of}
use custom_queuer.Deps.Ready.{
  dep_verdict-never, dep_verdict-ready, is_blocked, is_never, is_ready, is_satisfied,
}
use custom_queuer.Worker.Fifo.{MayRun, worker_step-MayRun}
use custom_queuer.Requeue.Delay.{not_before_of_bounds, retry_delay_lem}
use custom_queuer.Backlog.Kept.{get_job-prune_backlog}
use custom_queuer.Lifecycle.Steps.{mark_running_lem}
use custom_queuer.EditLock.Held.{live_edit_lock-counts, take_edit_lock_exclusive}
use custom_queuer.Enqueue.Appended.{enqueue_append_order}

position_beside-succeeds_example :
    (p : ℤ) × (c' : Conn) × (position_beside 1 1 false true none conn ≡ (ok p, c'))
    × IsPlaced c' 1 1 false true none p
unfolding get_job
position_beside-succeeds_example =
    position_beside-succeeds 1 1 false true none conn (row 1 queued (some (pos 0))) (pos 0) refl
      refl refl

abbrev stuck_walk : List (ℕ × Why)
stuck_walk = (2, dependency) ∷ (1, queue_order) ∷ []

find_deadlock-IsWalk_example :
    IsWalk stuck_db 1 stuck_walk × (walk_end 1 stuck_walk ≡ 1) × (stuck_walk ≢ [])
find_deadlock-IsWalk_example = find_deadlock-IsWalk stuck_db 1 stuck_walk stuck_loop

enqueue_rejected_unchanged_example : conn ≡ conn
enqueue_rejected_unchanged_example =
    enqueue_rejected_unchanged python 7 blocked_request conn conn (queued_behind 2) refl
      blocked_result

find_position-IsNotBetween_example : IsNotBetween true (pos 0) (pos 1024) (negsuc 4)
unfolding find_position get_job ◌+ℤ◌
find_position-IsNotBetween_example =
    find_position-IsNotBetween
      (record db { jobs = row 1 queued (some (pos 0)) ∷ row 2 queued (some (negsuc 4)) ∷ [] }) 1
      false (pos 0) none true (pos 1024) (negsuc 4) (row 2 queued (some (negsuc 4))) refl refl refl
      refl refl

abbrev hook : Text
hook = b'x' ∷ []

check_hook-stored_example :
    (str_value hook ≡ str_value hook)
    × (exists (λ c. c == 0) hook ≡ false)
    × (length hook ≤ max_hook_len)
unfolding check_hook
check_hook-stored_example = check_hook-stored python (str_value hook) hook refl

check_stop_signal-is_stop_signal_example : is_stop_signal sigint ≡ true
check_stop_signal-is_stop_signal_example =
    check_stop_signal-is_stop_signal python (str_value short_int) sigint accepts_int

dep_verdict-ready_example :
    is_ready (dep_verdict db 2)
    ≡ not (exists (λ d. d.job_id == 2 && not (is_satisfied db d)) db.job_deps)
dep_verdict-ready_example = dep_verdict-ready db 2

dep_verdict-never_example :
    is_never (dep_verdict db 2) ≡ exists (λ d. d.job_id == 2 && is_blocked db d) db.job_deps
dep_verdict-never_example = dep_verdict-never db 2

worker_step-MayRun_example : MayRun world 1 slot conn (row 1 queued (some (pos 0)))
worker_step-MayRun_example =
    worker_step-MayRun world 1 slot conn (row 1 queued (some (pos 0))) slot conn worker_runs_head

get_job-prune_backlog_example : get_job (prune_backlog 1 0 conn).1.tables 4 ≡ get_job db 4
unfolding is_awaited exists
get_job-prune_backlog_example = get_job-prune_backlog 1 0 4 conn refl

retry_delay_lem_example :
    retry_delay 60 true 50 ≡ min (if true then 60 * 2 ^ 50 else 60) max_retry_delay_secs
retry_delay_lem_example = retry_delay_lem 60 true 50

not_before_of_bounds_example :
    (true ≡ true) × (7 ≤ 7 + seconds 120) × (7 + seconds 120 ≤ 7 + seconds max_retry_delay_secs)
unfolding not_before_of
not_before_of_bounds_example =
    not_before_of_bounds 7 (7 + seconds 120) true (row 5 failed none) refl

live_edit_lock-counts_example :
    (is_stale world lock ≡ false)
    × (find_lock 1 locked_conn.tables.edit_locks ≡ some lock)
    × (locked_conn ≡ locked_conn)
unfolding live_edit_lock find_lock
live_edit_lock-counts_example = live_edit_lock-counts world 1 lock locked_conn locked_conn refl

take_edit_lock_exclusive_example : ◌≡◌ {A = ℕ} 42 42
unfolding find_lock
take_edit_lock_exclusive_example =
    take_edit_lock_exclusive world 1 42 5 lock retaken_lock locked_conn retaken_conn refl refl
      retaken_ok

mark_running_lem_example :
    (status_is is_queued (get_job db 1) ≡ true)
    × (get_job started.tables 2
        ≡ (if 2 == 1 then Option.map (run_row 8 77 77) (get_job db 2) else get_job db 2))
mark_running_lem_example = mark_running_lem 8 1 77 77 2 conn started started_ok

enqueue_append_order_example :
    (6 ≡ suc db.last_id)
    × (queued_ids_ordered appended.tables 1 false ≡ queued_ids_ordered db 1 false ++ 6 ∷ [])
enqueue_append_order_example =
    enqueue_append_order python 7 append_request conn appended 6 refl refl appended_ok

find_deadlock_complete_example : ◌≢◌ {A = ℕ} 1 2
find_deadlock_complete_example =
    find_deadlock_complete db 2 ((1, queue_order) ∷ []) no_loop_sample step_sample cons≢nil

find_deadlock-IsAnswer_example :
    (find_deadlock stuck_db 1 ≡ no_loop)
    ⊎ ((l : List (ℕ × Why)) × (find_deadlock stuck_db 1 ≡ loop l))
find_deadlock-IsAnswer_example = find_deadlock-IsAnswer stuck_db 1

maybe_auto_retry-wants_retry_example : (◌≡◌ {A = Status} failed failed) × (1 < 2)
unfolding get_job
maybe_auto_retry-wants_retry_example =
    maybe_auto_retry-wants_retry python config 7 5 (row 5 failed none) conn retried refl retried_ok

edit_job-holder_example :
    (holder_of (live_edit_lock world 1 locked_conn).0 ≡ some 42)
    × (status_is is_queued (get_job locked_db 1) ≡ true)
    × (all_updates is_editable edits ≡ true)
edit_job-holder_example =
    edit_job-holder python world 1 42 edits none none edited_job locked_conn edited edited_ok

reorder_acyclic_example :
    (moved_conn.committed ≡ moved_conn.tables)
    × ((l : List (ℕ × Why)) → IsWalk moved_conn.tables 2 l → l ≢ [] → walk_end 2 l ≢ 2)
reorder_acyclic_example =
    reorder_acyclic 2 1 false conn moved_conn (row 2 queued (some (pos 1))) moved_ok two_found refl

plan-MayGo_example : All (MayGo db log_files) (plan db log_files none (some 10) 100)
plan-MayGo_example = plan-MayGo db log_files none (some 10) 100

plan_limit_example :
    (total_left
        (map (λ c. c.path) (plan db log_files none (some 10) 100))
        (counted_files db log_files)
      ≤ 10)
    ⊎ (plan db log_files none (some 10) 100 ≡ deletable_files db log_files)
plan_limit_example = plan_limit db log_files none 10 100
