-- ===== src/Lane/Steps.antt =====
-- The tasks of one channel of src/queuer/daemon.py as a step relation: a step is what one task does
-- between two points where it awaits, and any task may be the next.
use custom_queuer.Prelude.{
  Bool, List, Option, elem, false, none, some, true, ℕ, ◌||◌, ◌∷◌, ◌≡◌, ◌⊎◌,
}
use custom_queuer.Tables.{Conn, Error, Job, get_job, ok, raise}
use custom_queuer.Queue.{get_queue_head}
use custom_queuer.Lifecycle.{mark_running}
use custom_queuer.EditLock.{World}
use custom_queuer.Worker.{Slot, run_job, worker_step}
use custom_queuer.Lane.{
  Lane, cancel_frozen, cancel_job, ensure_priority_worker, freeze_current_if_normal, freeze_target,
  release_lane, remove, resume_frozen, slot_of, stop_lane, take_slot,
}
use custom_queuer.Lane.Rows.{row_state}

-- Where a task stands: it looks at its lane, awaits the creation of a job's process, or awaits the
-- end of a job's process. The priority lane's task may be absent.
pub data Task : Type 0 where
  absent looking : Task
  starting : ℕ → Task
  running_job : (job_id proc : ℕ) → Task

-- `dead` holds the processes of jobs that have ended; each led its process group. `raced` records that
-- `add --now` came while the process of a normal job was being created.
pub record State : Type 0 where
  pub conn : Conn
  pub lane : Lane
  pub normal : Task
  pub priority : Task
  pub dead : List ℕ
  pub raced : Bool

abbrev pub is_starting : Task → Bool
is_starting (starting job_id) = true
is_starting _ = false

abbrev pub or_looking : Bool → Task → Task
or_looking true task = task
or_looking false absent = looking
or_looking false task = task

-- The job that a task has begun or runs.
abbrev pub job_of_task : Task → Option ℕ
job_of_task absent = none
job_of_task looking = none
job_of_task (starting job_id) = some job_id
job_of_task (running_job job_id proc) = some job_id

-- The row of a job that a task has begun is not deleted, and keeps its lane and its status.
abbrev pub KeepsRow : Conn → Conn → Option ℕ → Type 0
KeepsRow c c' none = Unit {0}
KeepsRow c c' (some job_id) =
    row_state (get_job c'.tables job_id) ≡ row_state (get_job c.tables job_id)

-- What the rest of the program writes meanwhile.
pub record Writes (s : State) (c : Conn) : Type 0 where
  pub normal_row : KeepsRow s.conn c (job_of_task s.normal)
  pub priority_row : KeepsRow s.conn c (job_of_task s.priority)

module _ (channel : ℕ) where
  pub data TaskStep (s : State) : State → Type 0 where
    -- the normal worker finds its head ready
    normal_picks :
        (w : World) (j : Job) (slot : Slot) (c : Conn)
        → s.normal ≡ looking
        → s.lane.stopping ≡ false
        → worker_step w channel (slot_of s.lane) s.conn ≡ (ok (run_job j, slot), c)
        → get_job c.tables j.id ≡ some j
        → KeepsRow s.conn c (job_of_task s.priority)
        → TaskStep s (record s { conn = c; normal = starting j.id })
    priority_picks :
        (j : Job)
        → s.priority ≡ looking
        → s.lane.stopping ≡ false
        → get_queue_head s.conn.tables channel true ≡ some j
        → get_job s.conn.tables j.id ≡ some j
        → TaskStep s (record s { priority = starting j.id })
    -- the process was created
    normal_starts :
        (now job_id proc : ℕ) (c : Conn)
        → s.normal ≡ starting job_id
        → mark_running now job_id proc proc s.conn ≡ (ok tt, c)
        → TaskStep s (record s {
          conn = c;
          lane = take_slot job_id proc s.lane;
          normal = running_job job_id proc;
        })
    priority_starts :
        (now job_id proc : ℕ) (c : Conn)
        → s.priority ≡ starting job_id
        → mark_running now job_id proc proc s.conn ≡ (ok tt, c)
        → TaskStep s (record s {
          conn = c;
          lane = take_slot job_id proc s.lane;
          priority = running_job job_id proc;
        })
    -- it could not be created, or the row was gone
    normal_fails :
        (job_id : ℕ) (c : Conn)
        → s.normal ≡ starting job_id
        → KeepsRow s.conn c (job_of_task s.priority)
        → TaskStep s (record s { conn = c; normal = looking })
    priority_fails :
        (job_id : ℕ) (c : Conn)
        → s.priority ≡ starting job_id
        → KeepsRow s.conn c (job_of_task s.normal)
        → TaskStep s (record s { conn = c; priority = looking })
    -- a process ends, and later its task reads that
    exits : (proc : ℕ) → TaskStep s (record s { dead = proc ∷ s.dead })
    normal_ends :
        (job_id proc : ℕ) (c : Conn)
        → s.normal ≡ running_job job_id proc
        → elem proc s.dead ≡ true
        → KeepsRow s.conn c (job_of_task s.priority)
        → TaskStep s (record s { conn = c; lane = release_lane job_id s.lane; normal = looking })
    priority_ends :
        (job_id proc : ℕ) (c : Conn)
        → s.priority ≡ running_job job_id proc
        → elem proc s.dead ≡ true
        → KeepsRow s.conn c (job_of_task s.normal)
        → TaskStep s (record s { conn = c; lane = release_lane job_id s.lane; priority = looking })
    -- `add --now`, after its rows were committed; SIGSTOP fails only on a group with no process left
    add_now :
        (gone : Bool) (c₁ c : Conn) (lane : Lane)
        → Writes s c₁
        → ((job_id proc : ℕ)
            → freeze_target c₁.tables s.lane ≡ some (job_id, proc)
            → gone ≡ true
            → elem proc s.dead ≡ true)
        → freeze_current_if_normal gone s.lane c₁ ≡ (ok lane, c)
        → TaskStep s (record s {
          conn = c;
          lane = ensure_priority_worker lane;
          priority = or_looking s.lane.stopping s.priority;
          raced = s.raced || is_starting s.normal;
        })
    -- `mark_stopped` raised, with the group already stopped
    add_now_raises :
        (c₁ c : Conn) (job_id proc : ℕ) (e : Error)
        → Writes s c₁
        → freeze_target c₁.tables s.lane ≡ some (job_id, proc)
        → freeze_current_if_normal false s.lane c₁ ≡ (raise e, c)
        → TaskStep s (record s { conn = c; lane = record s.lane { halted = proc ∷ s.lane.halted } })
    -- the normal worker finds priority rows with no task
    lane_wakes :
        s.normal ≡ looking
        → TaskStep s (record s {
          lane = ensure_priority_worker s.lane;
          priority = or_looking s.lane.stopping s.priority;
        })
    -- the priority lane is empty, or the daemon stops
    priority_done :
        s.priority ≡ looking
        → (s.lane.stopping ≡ true) ⊎ (s.lane.frozen ≡ none)
        → TaskStep s
            (record s { lane = record s.lane { priority_task = false }; priority = absent })
    priority_resumes :
        (gone : Bool) (job_id proc : ℕ) (c : Conn) (lane : Lane)
        → s.priority ≡ looking
        → s.lane.stopping ≡ false
        → s.lane.frozen ≡ some (job_id, proc)
        → (gone ≡ true → elem proc s.dead ≡ true)
        → resume_frozen gone s.lane s.conn ≡ (ok lane, c)
        → TaskStep s
            (record s { conn = c; lane = record lane { priority_task = false }; priority = absent })
    -- `mark_resumed` raised, with SIGCONT already sent
    priority_resume_raises :
        (job_id proc : ℕ) (c : Conn) (e : Error)
        → s.priority ≡ looking
        → s.lane.stopping ≡ false
        → s.lane.frozen ≡ some (job_id, proc)
        → resume_frozen false s.lane s.conn ≡ (raise e, c)
        → TaskStep s (record s {
          conn = c;
          lane = record s.lane {
            frozen = none;
            halted = remove proc s.lane.halted;
            priority_task = false;
          };
          priority = absent;
        })
    cancels : (job_id : ℕ) → TaskStep s (record s { lane = cancel_job job_id s.lane })
    cancels_frozen :
        (job_id proc : ℕ)
        → s.lane.frozen ≡ some (job_id, proc)
        → TaskStep s (record s { lane = cancel_frozen job_id proc s.lane })
    writes : (c : Conn) → Writes s c → TaskStep s (record s { conn = c })
    -- the daemon stops: the frozen group is continued, and all groups are killed
    stops : TaskStep s (record s { lane = stop_lane s.lane })

  pub data Reach (s : State) : State → Type 0 where
    here : Reach s s
    next : {t u : State} → Reach s t → TaskStep t u → Reach s u
