-- ===== src/Lib.antt =====
-- queuer: a serial background job queue. `queuerd` (src/queuer/daemon.py) runs jobs in order, one at
-- a time per channel, and keeps them in an SQLite database (src/queuer/db.py) that the clients see
-- through it. This library models the database layer, the request handlers, what the daemon starts
-- and writes, its two lanes of a channel, and the choice of the logs that may be deleted.
--
-- The parts, and how they correspond to the code:
--
-- Tables: the rows of the tables, the connection with its open transaction (`commit`, `rollback`),
--   the exceptions, and the queries that the other parts share. A function of db.py is an `Exec`: it
--   takes the connection and returns a result or an exception beside the connection that it leaves.
--   A JSON column holds the value that its text stands for. Times are numbers in the order of the
--   ISO strings, in microseconds; one call reads the clock once. Tables.Rows has the record types.
-- Queue: `_queued_ids_ordered`, `_next_position`, `_position_beside`, `_reindex_queue`,
--   `_is_queued_behind`, `get_queue_head`. Positions are integers that only order a lane.
-- Checks: the validators `check_hook` to `check_label`. What Python's `str`, `signal` and
--   `os.path` do with characters is the parameter `Python`.
-- Deadlock: `_find_deadlock`, a depth-first search for a cycle of the "waits for" graph. The fuel
--   is one more than the jobs and dependency rows together, since a job is pushed at most once.
-- Request and Enqueue: the arguments of `enqueue`, its checks, and its transaction.
-- Backlog: `get_backlog`, `_prune_backlog`, `clear_backlog`, `_drop_orphan_deps`, and the readers of
--   the history.
-- Lifecycle: `mark_running`, `mark_stopped`, `mark_resumed`, `mark_finished`, `_end_queued`, pause.
-- Deps: `dep_verdict`, `queued_dependants`, `skip_dependants`, `remove_from_queue`. The cascade has
--   two rounds more than there are jobs: each round but the first and the last belongs to a job that
--   the cascade itself has just ended.
-- EditLock, EditJob, Reorder, Requeue: the edit lock, `edit_job` (its asserts raise a type error),
--   `_reorder`, and `requeue`. The parameter `World` is the clock and whether a process is alive.
-- Worker: `_worker_step` of daemon.py and `_lane_busy`, over what the daemon holds in memory.
-- Daemon: `_settle_dependants`, `_skip_blocked`, `_maybe_auto_retry`, `_pause_if_asked`,
--   `_after_finish`, `_release` and `_recover_on_startup` of daemon.py, on the database. Their
--   notifications, hooks and wakeups are left out.
-- LogClean: `plan` of src/queuer/logclean.py, over a listing of the log directory.
-- History: `get_history`, `get_export`, `get_states`, `get_channel_counts`, `dep_info_bulk`,
--   `jobs_sharing_dir`, `find_by_run_key`. Lowercasing is a parameter.
-- Lane: the two lanes of a channel in daemon.py: `_freeze_current_if_normal`, `_resume_frozen`,
--   `_ensure_priority_worker`, `_release`. Lane.Steps is a step relation: a step is what one task
--   does between two points where it awaits, any task may be the next, and other requests write the
--   database in between. It assumes that they keep the lane and the status of a row whose job a task
--   has begun. The step `stops` is the beginning of `_shutdown`. A process group is the pid of its
--   leader, and the groups that SIGSTOP halted are a list. A frozen job that is cancelled gets
--   SIGCONT and goes on for its grace, beside the job that froze it; so do all when the daemon stops.
-- Args: the JSON values of a request, and `_int_arg`, `_check_channel`, `_check_timeout`,
--   `_check_retries`, `_pid_arg`, `_dep_args`, `_parse_not_before`. A float is the value
--   `other_value` with its truth, and `datetime.fromisoformat` is a parameter.
-- JobEnv: src/queuer/jobenv.py; fnmatch is a parameter. Resolve: src/queuer/pathresolve.py; os.path
--   and shutil.which are the parameter `Paths`.
-- Commands: the request handlers of daemon.py. Specs, Prepare, Plan and Add are `_cmd_add`: the jobs
--   that it asks for, its checks, and what it writes. EditPlan, EditDeps and Edit are `_cmd_edit`,
--   and Cancel, Simple, Reads and Lists the others. A handler gets the arguments that are not there
--   as null, the lane of the channel, and the job ids that are being started; a negative job id names
--   no job, as 0 does. Waking a worker and telling the user are left out, since they write no row.
-- Callback: the buttons of src/queuer/notify.py and the text that a press sends back. Python's int,
--   str and isdecimal are the parameter `Decimal`; IsFaithful states what the code relies on.
-- Samples: small inputs, tests by evaluation, and each theorem at an input.
--
-- Not modelled: the migrations and file permissions of db.py, processes, sockets and the event loop
-- of the daemon, the dispatch of requests, the event feed, the command line, the remote workers, the
-- notifications but for their buttons, and the installer. 64-bit overflow of a position in SQLite is
-- not modelled.
pub mod Prelude
pub mod Tables
pub mod Queue
pub mod Checks
pub mod Deadlock
pub mod Request
pub mod Enqueue
pub mod Backlog
pub mod Lifecycle
pub mod Deps
pub mod History
pub mod EditLock
pub mod Reorder
pub mod Requeue
pub mod Worker
pub mod Daemon
pub mod Lane
pub mod EditJob
pub mod LogClean
pub mod Args
pub mod JobEnv
pub mod Resolve
pub mod Commands
pub mod Samples
pub mod Callback
