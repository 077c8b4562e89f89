-- ===== src/Lane/Exclusive.antt =====
-- Which processes of a channel run at the same time (src/queuer/daemon.py), for any order of the
-- tasks' steps.
use custom_queuer.Prelude.{Bool, arith, elem, false, inl, inr, none, refl, subst, sym, ℕ, ◌||◌, ◌≡◌}
use custom_queuer.Tables.{Conn}
use custom_queuer.Lane.{Lane, ensure_priority_worker}
use custom_queuer.Lane.Steps.{
  Reach, State, Task, TaskStep, absent, add_now, add_now_raises, cancels, cancels_frozen, exits,
  here, is_starting, lane_wakes, looking, next, normal_ends, normal_fails, normal_picks,
  normal_starts, or_looking, priority_done, priority_ends, priority_fails, priority_picks,
  priority_resume_raises, priority_resumes, priority_starts, running_job, starting, stops, writes,
}
use custom_queuer.Lane.Alone.{
  Inv, NormalIs, Writes-Inv, cancels-Inv, cancels_frozen-Inv, exits-Inv, normal_ends-Inv,
  normal_fails-Inv, normal_picks-Inv, priority_fails-Inv, priority_picks-Inv, stops-Inv,
}
use custom_queuer.Lane.Handover.{freeze_cases}
use custom_queuer.Lane.Tasks.{
  lane_wakes-Inv, normal_starts-Inv, priority_done-Inv, priority_ends-Inv, priority_starts-Inv,
}
use custom_queuer.Lane.AddNow.{
  add_raises-Inv, frozen-Inv, resume_raises-Inv, resumed-Inv, spared-Inv,
}

-- The process of this task runs: it has not ended and is not stopped.
abbrev pub Runs : State → Task → Type 0
Runs s absent = ⊥
Runs s looking = ⊥
Runs s (starting job_id) = ⊥
Runs s (running_job job_id proc) = (elem proc s.dead ≡ false) × (elem proc s.lane.halted ≡ false)

-- The job of this task was cancelled, and its process is given its grace.
abbrev pub is_killed : State → Task → Bool
is_killed s absent = false
is_killed s looking = false
is_killed s (starting job_id) = elem job_id s.lane.cancelled
is_killed s (running_job job_id proc) = elem job_id s.lane.cancelled

-- It runs, and is not being killed.
abbrev pub RunsOn : State → Task → Type 0
RunsOn s task = Runs s task × (is_killed s task ≡ false)

-- A daemon that has just started: no process, and no task in the priority lane.
pub record IsFresh (s : State) : Type 0 where
  pub normal_looks : s.normal ≡ looking
  pub no_priority : s.priority ≡ absent
  pub no_flag : s.lane.priority_task ≡ false
  pub no_frozen : s.lane.frozen ≡ none

IsFresh-Inv : (s : State) → IsFresh s → Inv s
IsFresh-Inv s f = record {
  normal_is = rw (f.normal_looks) tt;
  normal_row = rw (f.normal_looks) tt;
  priority_row = rw (f.no_priority) tt;
  flag = let a = f.no_priority in let b = f.no_flag in ground arith;
  free = λ a. inr f.no_frozen;
}

module _ (channel : ℕ) where
  TaskStep-Inv : (s t : State) → TaskStep channel s t → t.raced ≡ false → Inv s → Inv t
  TaskStep-Inv s t (normal_picks w j slot c at going step found keeps) calm h =
      normal_picks-Inv s channel w j slot c going step found keeps h
  TaskStep-Inv s t (priority_picks j at going head found) calm h =
      priority_picks-Inv s channel j at head found h
  TaskStep-Inv s t (normal_starts now job_id proc c at e) calm h =
      normal_starts-Inv s now job_id proc c at e h
  TaskStep-Inv s t (priority_starts now job_id proc c at e) calm h =
      priority_starts-Inv s now job_id proc c at e h
  TaskStep-Inv s t (normal_fails job_id c at keeps) calm h = normal_fails-Inv s job_id c keeps h
  TaskStep-Inv s t (priority_fails job_id c at keeps) calm h =
      priority_fails-Inv s job_id c at keeps h
  TaskStep-Inv s t (exits proc) calm h = exits-Inv s proc h
  TaskStep-Inv s t (normal_ends job_id proc c at dead keeps) calm h =
      normal_ends-Inv s job_id c keeps h
  TaskStep-Inv s t (priority_ends job_id proc c at dead keeps) calm h =
      priority_ends-Inv s job_id proc c at keeps h
  TaskStep-Inv s t (add_now gone c₁ c lane w gone_ended e) calm h =
      let h₁ = Writes-Inv s c₁ w h in
      let calm' : is_starting s.normal ≡ false = ground arith in
      elim (freeze_cases gone s.lane lane c₁ c e) [
        | inl (same, conn, why) ↦
            let spared_is = spared-Inv (record s { conn = c₁ }) gone gone_ended why calm' h₁ in
            let with_lane = λ (l : Lane) (k : Conn). record s {
              conn = k;
              lane = ensure_priority_worker l;
              priority = or_looking s.lane.stopping s.priority;
              raced = s.raced || is_starting s.normal;
            } in
            subst (λ l. Inv (with_lane l c)) (sym same)
              (subst (λ k. Inv (with_lane s.lane k)) (sym conn) spared_is)
        | inr (j, p, f) ↦ frozen-Inv (record s { conn = c₁ }) c lane j p f calm' h₁
      ]
  TaskStep-Inv s t (add_now_raises c₁ c job_id proc e w target raised) calm h =
      add_raises-Inv (record s { conn = c₁ }) c job_id proc e target raised (Writes-Inv s c₁ w h)
  TaskStep-Inv s t (lane_wakes at) calm h = lane_wakes-Inv s at h
  TaskStep-Inv s t (priority_done at over) calm h = priority_done-Inv s at over h
  TaskStep-Inv s t (priority_resumes gone job_id proc c lane at going frozen gone_ended e) calm h =
      resumed-Inv s gone job_id proc c lane at frozen gone_ended e h
  TaskStep-Inv s t (priority_resume_raises job_id proc c e at going frozen raised) calm h =
      resume_raises-Inv s job_id proc c e at frozen raised h
  TaskStep-Inv s t (cancels job_id) calm h = cancels-Inv s job_id h
  TaskStep-Inv s t (cancels_frozen job_id proc at) calm h = cancels_frozen-Inv s job_id proc at h
  TaskStep-Inv s t (writes c w) calm h = Writes-Inv s c w h
  TaskStep-Inv s t stops calm h = stops-Inv s h

  -- A race stays recorded.
  TaskStep-raced : (s t : State) → TaskStep channel s t → t.raced ≡ false → s.raced ≡ false
  TaskStep-raced s t (add_now gone c₁ c lane w gone_ended e) calm = ground arith
  TaskStep-raced s t (normal_picks w j slot c at going step found keeps) calm = calm
  TaskStep-raced s t (priority_picks j at going head found) calm = calm
  TaskStep-raced s t (normal_starts now job_id proc c at e) calm = calm
  TaskStep-raced s t (priority_starts now job_id proc c at e) calm = calm
  TaskStep-raced s t (normal_fails job_id c at keeps) calm = calm
  TaskStep-raced s t (priority_fails job_id c at keeps) calm = calm
  TaskStep-raced s t (exits proc) calm = calm
  TaskStep-raced s t (normal_ends job_id proc c at dead keeps) calm = calm
  TaskStep-raced s t (priority_ends job_id proc c at dead keeps) calm = calm
  TaskStep-raced s t (add_now_raises c₁ c job_id proc e w target raised) calm = calm
  TaskStep-raced s t (lane_wakes at) calm = calm
  TaskStep-raced s t (priority_done at over) calm = calm
  TaskStep-raced s t (priority_resumes gone job_id proc c lane at going frozen gone_ended e) calm =
      calm
  TaskStep-raced s t (priority_resume_raises job_id proc c e at going frozen raised) calm = calm
  TaskStep-raced s t (cancels job_id) calm = calm
  TaskStep-raced s t (cancels_frozen job_id proc at) calm = calm
  TaskStep-raced s t (writes c w) calm = calm
  TaskStep-raced s t (stops) calm = calm

  Reach-Inv : {s t : State} → Inv s → Reach channel s t → t.raced ≡ false → Inv t
  Reach-Inv h here calm = h
  Reach-Inv h (next {t = t} {u = u} r st) calm =
      TaskStep-Inv t u st calm (Reach-Inv h r (TaskStep-raced t u st calm))

  -- From a fresh daemon, in every state that the tasks reach with no `add --now` during the creation
  -- of a normal job's process, and in which the daemon is not stopping: a normal job that was not
  -- cancelled does not run beside a job of the priority lane.
  pub at_most_one-Runs :
      (s t : State)
      → IsFresh s
      → Reach channel s t
      → t.raced ≡ false
      → t.lane.stopping ≡ false
      → is_killed t t.normal ≡ false
      → Runs t t.normal
      → ¬ Runs t t.priority
  at_most_one-Runs s t fresh r calm going spared n p =
      both t.normal t.priority refl (Reach-Inv (IsFresh-Inv s fresh) r calm).normal_is spared n p
    where
      both :
          (a b : Task)
          → t.priority ≡ b
          → NormalIs t a
          → is_killed t a ≡ false
          → Runs t a
          → Runs t b
          → ⊥
      both absent b at k spared n p = n
      both looking b at k spared n p = n
      both (starting i) b at k spared n p = n
      both (running_job i q) absent at k spared n p = p
      both (running_job i q) looking at k spared n p = p
      both (running_job i q) (starting j) at k spared n p = p
      both (running_job i q) (running_job j o) at (inl over) spared n p = ground arith
      both (running_job i q) (running_job j o) at (inr (inl alone)) spared n p = ground arith
      both (running_job i q) (running_job j o) at (inr (inr frozen)) spared n p = ground arith
