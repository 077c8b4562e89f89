-- ===== src/Samples/Tasks.antt =====
-- The tasks of a channel on the samples.
use custom_queuer.Prelude.{[], elem, false, none, pos, refl, some, true, ◌∷◌, ◌≡◌}
use custom_queuer.Tables.{Conn, Job, get_job, ok, queued, unlock, update_job}
use custom_queuer.Queue.{get_queue_head}
use custom_queuer.Lifecycle.{mark_running}
use custom_queuer.Lane.{Lane, take_slot}
use custom_queuer.Lane.Steps.{
  Reach, State, absent, here, looking, next, normal_picks, normal_starts, running_job, starting,
}
use custom_queuer.Lane.Exclusive.{Runs, RunsOn, at_most_one-Runs}
use custom_queuer.Lane.Race.{both_run}
use custom_queuer.Samples.{conn, db, row, slot, world}
use custom_queuer.Samples.Tests.{started, started_ok, worker_runs_head}

abbrev idle_lane : Lane
idle_lane = record {
  current_job = none;
  current_proc = none;
  frozen = none;
  priority_task = false;
  stopping = false;
  cancelled = [];
  halted = [];
}

-- A daemon that has just started.
abbrev fresh_state : State
fresh_state = record {
  conn = conn;
  lane = idle_lane;
  normal = looking;
  priority = absent;
  dead = [];
  raced = false;
}

head_row : get_job db 1 ≡ some (row 1 queued (some (pos 0)))
unfolding get_job
head_row = refl

abbrev picked_state : State
picked_state = record fresh_state { normal = starting 1 }

-- The normal worker takes job 1.
picked : Reach 1 fresh_state picked_state
picked = next here (
    normal_picks world (row 1 queued (some (pos 0))) slot conn refl refl worker_runs_head head_row
      tt)

abbrev started_state : State
started_state = record picked_state {
  conn = started;
  lane = take_slot 1 77 idle_lane;
  normal = running_job 1 77;
}

-- Its process was created, and runs; no task is in the priority lane.
job_runs : Reach 1 fresh_state started_state
job_runs = next picked (normal_starts 8 1 77 started refl started_ok)

job_one-Runs : Runs started_state started_state.normal
unfolding elem take_slot
job_one-Runs = (refl, refl)

at_most_one-Runs_example : ¬ Runs started_state absent
unfolding take_slot elem
at_most_one-Runs_example =
    at_most_one-Runs 1 fresh_state started_state
      (record { normal_looks = refl; no_priority = refl; no_flag = refl; no_frozen = refl })
      job_runs refl refl refl job_one-Runs

-- A job of the priority lane is queued while job 1 is being started.
abbrev priority_row : Job
priority_row = record (row 6 queued (some (pos 0))) { is_priority = true }

abbrev two_lanes : Conn
two_lanes =
    let rows = record db { jobs = row 1 queued (some (pos 0)) ∷ priority_row ∷ [] } in
    record { tables = rows; committed = rows }

abbrev creating : State
creating = record picked_state { conn = two_lanes }

normal_started : Conn
normal_started = (mark_running 8 1 77 77 two_lanes).1

both_started : Conn
both_started = (mark_running 8 6 88 88 normal_started).1

normal_ok : mark_running 8 1 77 77 two_lanes ≡ (ok tt, normal_started)
unfolding mark_running get_job update_job unlock normal_started
normal_ok = refl

both_ok : mark_running 8 6 88 88 normal_started ≡ (ok tt, both_started)
unfolding mark_running get_job update_job unlock normal_started both_started
both_ok = refl

both_run_example :
    (t : State) × Reach 1 creating t
    × (t.lane.stopping ≡ false)
    × RunsOn t t.normal
    × RunsOn t t.priority
unfolding get_queue_head get_job elem
both_run_example =
    both_run 1 8 1 77 88 creating priority_row normal_started both_started
      (record { normal_starting = refl; no_priority = refl; going = refl; no_current = refl }) refl
      refl normal_ok both_ok refl refl
