-- ===== src/Lane/Race.antt =====
-- `add --now` during the creation of a normal job's process (src/queuer/daemon.py).
use custom_queuer.Prelude.{
  Option, arith, elem, false, false≢true, none, refl, some, true, ℕ, ◌||◌, ◌≡◌,
}
use custom_queuer.Tables.{Conn, Job, get_job, ok}
use custom_queuer.Queue.{get_queue_head}
use custom_queuer.Lifecycle.{mark_running}
use custom_queuer.Lane.{Lane, ensure_priority_worker, freeze_current_if_normal, take_slot}
use custom_queuer.Lane.Steps.{
  KeepsRow, Reach, State, TaskStep, absent, add_now, here, is_starting, job_of_task, next,
  normal_starts, or_looking, priority_picks, priority_starts, running_job, starting,
}
use custom_queuer.Lane.Exclusive.{RunsOn}

-- The normal worker awaits the creation of a job's process, so the slot is empty.
pub record IsCreating (s : State) (job_id : ℕ) : Type 0 where
  pub normal_starting : s.normal ≡ starting job_id
  pub no_priority : s.priority ≡ absent
  pub going : s.lane.stopping ≡ false
  pub no_current : s.lane.current_job ≡ none

KeepsRow_refl : (c : Conn) (o : Option ℕ) → KeepsRow c c o
KeepsRow_refl c none = tt
KeepsRow_refl c (some job_id) = refl

freeze_nothing :
    (lane : Lane) (c : Conn)
    → lane.current_job ≡ none
    → freeze_current_if_normal false lane c ≡ (ok lane, c)
unfolding freeze_current_if_normal
freeze_nothing lane c h = ground arith

-- While the process of a normal job is being created, `add --now` freezes nothing and starts the
-- priority lane; once both processes exist, both run, and none of them is being killed.
pub both_run :
    (channel now job_id proc other_proc : ℕ) (s : State) (k : Job) (c c' : Conn)
    → IsCreating s job_id
    → get_queue_head s.conn.tables channel true ≡ some k
    → get_job s.conn.tables k.id ≡ some k
    → mark_running now job_id proc proc s.conn ≡ (ok tt, c)
    → mark_running now k.id other_proc other_proc c ≡ (ok tt, c')
    → elem proc s.dead || elem proc s.lane.halted || elem job_id s.lane.cancelled ≡ false
    → elem other_proc s.dead || elem other_proc s.lane.halted || elem k.id s.lane.cancelled ≡ false
    → (t : State) × Reach channel s t
      × (t.lane.stopping ≡ false)
      × RunsOn t t.normal
      × RunsOn t t.priority
unfolding ensure_priority_worker take_slot
both_run channel now job_id proc other_proc s k c c' h head found starts others fresh fresh' = (
  _,
  next (next (next (next here added) picked) started) ran,
  ground arith,
  ground arith,
  ground arith,
)
  where
    s₁ : State
    s₁ = record s {
      lane = ensure_priority_worker s.lane;
      priority = or_looking s.lane.stopping s.priority;
      raced = s.raced || is_starting s.normal;
    }

    added : TaskStep channel s s₁
    added =
        add_now false s.conn s.conn s.lane
          (record {
            normal_row = KeepsRow_refl s.conn (job_of_task s.normal);
            priority_row = KeepsRow_refl s.conn (job_of_task s.priority);
          })
          (λ i p target gone. absurd (false≢true gone)) (freeze_nothing s.lane s.conn h.no_current)

    picked : TaskStep channel s₁ (record s₁ { priority = starting k.id })
    picked =
        priority_picks k (ground (arith, h.no_priority, h.going)) (ground (arith, h.going)) head
          found

    s₂ : State
    s₂ = record s₁ { priority = starting k.id }

    s₃ : State
    s₃ = record s₂ {
      conn = c;
      lane = take_slot job_id proc s₂.lane;
      normal = running_job job_id proc;
    }

    started : TaskStep channel s₂ s₃
    started = normal_starts now job_id proc c h.normal_starting starts

    ran : TaskStep channel s₃ (record s₃ {
      conn = c';
      lane = take_slot k.id other_proc s₃.lane;
      priority = running_job k.id other_proc;
    })
    ran = priority_starts now k.id other_proc c' refl others
