-- ===== src/Lane/AddNow.antt =====
-- The invariant of the lanes, and the steps of `add --now` and of the resumption
-- (src/queuer/daemon.py).
use custom_queuer.Prelude.{
  Bool, Bool-cases, arith, elem, false, false≢true, inl, inr, none, refl, some, sym, true, ℕ, ≡→==,
  ◌||◌, ◌∙◌, ◌∷◌, ◌≡◌, ◌⊎◌,
}
use custom_queuer.Tables.{Conn, Error, get_job, ok, raise}
use custom_queuer.Lane.{
  Lane, ensure_priority_worker, freeze_current_if_normal, freeze_target, remove, resume_frozen,
}
use custom_queuer.Lane.Steps.{
  State, Task, absent, is_starting, job_of_task, looking, or_looking, running_job, starting,
}
use custom_queuer.Lane.Rows.{mark_resumed-raises, mark_stopped-row_state, row_state}
use custom_queuer.Lane.Alone.{Inv, IsFrozen, IsOver, NormalIs, RowIs, is_absent}
use custom_queuer.Lane.Handover.{
  Freezes, RowIs-resumed, RowIs-stopped, freeze_raise, freeze_target-some, freeze_target_lem,
  lane_stopped, looking_present, looking_row, resume_cases, resume_raise,
}

module _ (s : State) where
  -- The state after `add --now`, where SIGSTOP was not sent or found no process.
  abbrev spared : State
  spared = record s {
    lane = ensure_priority_worker s.lane;
    priority = or_looking s.lane.stopping s.priority;
    raced = s.raced || is_starting s.normal;
  }

  spared-NormalIs :
      (gone : Bool)
      → ((job_id proc : ℕ)
          → freeze_target s.conn.tables s.lane ≡ some (job_id, proc)
          → gone ≡ true
          → elem proc s.dead ≡ true)
      → (freeze_target s.conn.tables s.lane ≡ none) ⊎ (gone ≡ true)
      → (t : Task) → is_starting t ≡ false
      → RowIs s.conn false (job_of_task t)
      → (is_absent s.priority ≡ true → (s.lane.stopping ≡ true) ⊎ (s.lane.frozen ≡ none))
      → NormalIs s t
      → NormalIs spared t
  unfolding ensure_priority_worker
  spared-NormalIs gone gone_ended why absent calm row free k = tt
  spared-NormalIs gone gone_ended why looking calm row free k = tt
  spared-NormalIs gone gone_ended why (starting i) calm row free k = absurd (cc)
  spared-NormalIs gone gone_ended why (running_job i p) calm row free (inl over) =
      inl (ground arith)
  spared-NormalIs gone gone_ended why (running_job i p) calm row free (inr (inr frozen)) =
      inr (inr (ground arith))
  spared-NormalIs gone gone_ended why (running_job i p) calm row free
        (inr (inl (alone, inl stop))) =
      inr (inl (rw stop (alone, inl refl)))
  spared-NormalIs gone gone_ended why (running_job i p) calm row free
        (inr (inl (alone, inr slot))) =
      elim (free alone) [
        | inl stop ↦ inr (inl (rw stop (alone, inl refl)))
        | inr unfrozen ↦ elim (Bool-cases s.lane.stopping) [
          | inl stop ↦ inr (inl (rw stop (alone, inl refl)))
          | inr going ↦
              let target = freeze_target_lem s.conn s.lane i p unfrozen going slot.0 slot.1 row in
              elim why [
                | inl no_target ↦ absurd (ground arith)
                | inr is_gone ↦ let dead = gone_ended i p target is_gone in inl (ground arith)
              ]
        ]
      ]

  pub spared-Inv :
      (gone : Bool)
      → ((job_id proc : ℕ)
          → freeze_target s.conn.tables s.lane ≡ some (job_id, proc)
          → gone ≡ true
          → elem proc s.dead ≡ true)
      → (freeze_target s.conn.tables s.lane ≡ none) ⊎ (gone ≡ true)
      → is_starting s.normal ≡ false
      → Inv s
      → Inv spared
  unfolding ensure_priority_worker
  spared-Inv gone gone_ended why calm h = record {
    normal_is = spared-NormalIs gone gone_ended why s.normal calm h.normal_row h.free h.normal_is;
    normal_row = h.normal_row;
    priority_row = looking_row s.conn s.lane.stopping s.priority h.priority_row;
    flag = elim (Bool-cases s.lane.stopping) [
      | inl stop ↦ rw stop h.flag
      | inr go ↦ let present = looking_present s.lane.stopping s.priority go in ground arith
    ];
    free = λ a. elim (Bool-cases s.lane.stopping) [
      | inl stop ↦ inl (ground arith)
      | inr go ↦ absurd (false≢true (sym (looking_present s.lane.stopping s.priority go) ∙ a))
    ];
  }

  pub frozen-Inv :
      (c : Conn) (lane : Lane) (j p : ℕ)
      → Freezes s.lane lane s.conn c j p
      → is_starting s.normal ≡ false
      → Inv s
      → Inv (record s {
        conn = c;
        lane = ensure_priority_worker lane;
        priority = or_looking s.lane.stopping s.priority;
        raced = s.raced || is_starting s.normal;
      })
  unfolding ensure_priority_worker elem
  frozen-Inv c lane j p f calm h =
      let (unfrozen, going, job, proc) = freeze_target-some s.conn.tables s.lane j p f.target in
      let present = looking_present s.lane.stopping s.priority going in
      let lane_is = f.lane_is in
      record {
        normal_is = go s.normal calm h.normal_row h.normal_is;
        normal_row = RowIs-stopped j s.conn c false _ f.stops h.normal_row;
        priority_row =
            RowIs-stopped j s.conn c true _ f.stops
              (looking_row s.conn s.lane.stopping s.priority h.priority_row);
        flag = ground arith;
        free = λ a. absurd (false≢true (sym present ∙ a));
      }
    where
      go :
          (t : Task)
          → is_starting t ≡ false
          → RowIs s.conn false (job_of_task t)
          → NormalIs s t
          → NormalIs
              (record s {
                conn = c;
                lane = ensure_priority_worker lane;
                priority = or_looking s.lane.stopping s.priority;
                raced = s.raced || is_starting s.normal;
              })
              t
      go absent calm row k = tt
      go looking calm row k = tt
      go (starting i) calm row k = absurd (cc)
      go (running_job i q) calm row (inl over) = let lane_is = f.lane_is in inl (ground arith)
      go (running_job i q) calm row (inr (inr frozen)) =
          let (unfrozen, going, job, proc) = freeze_target-some s.conn.tables s.lane j p f.target in
          absurd (ground arith)
      go (running_job i q) calm row (inr (inl (alone, inl stop))) =
          let (unfrozen, going, job, proc) = freeze_target-some s.conn.tables s.lane j p f.target in
          absurd (ground arith)
      go (running_job i q) calm row (inr (inl (alone, inr slot))) =
          let (unfrozen, going, job, proc) = freeze_target-some s.conn.tables s.lane j p f.target in
          let lane_is = f.lane_is in
          let stopped_row = mark_stopped-row_state j i s.conn c f.stops in
          let was = lane_stopped (row_state (get_job s.conn.tables i)) row in
          let same = ≡→== i j in inr (inr (ground arith, ground arith, ground arith))

  -- The priority task ends: a frozen job is over, or has its slot back.
  resumed-NormalIs :
      (c : Conn) (lane : Lane)
      → is_absent s.priority ≡ false
      → lane.cancelled ≡ s.lane.cancelled
      → lane.stopping ≡ s.lane.stopping
      → ((i p : ℕ)
          → IsFrozen s i p
          → IsOver s i p ⊎ ((lane.current_job ≡ some i) × (lane.current_proc ≡ some p)))
      → (t : Task) → NormalIs s t
      → NormalIs (record s { conn = c; lane = lane; priority = absent }) t
  resumed-NormalIs c lane present same going back absent k = tt
  resumed-NormalIs c lane present same going back looking k = tt
  resumed-NormalIs c lane present same going back (starting i) k = refl
  resumed-NormalIs c lane present same going back (running_job i p) (inl over) = inl (ground arith)
  resumed-NormalIs c lane present same going back (running_job i p) (inr (inl alone)) =
      absurd (false≢true (sym present ∙ alone.0))
  resumed-NormalIs c lane present same going back (running_job i p) (inr (inr frozen)) =
      elim (back i p frozen) [
        | inl over ↦ inl (ground arith)
        | inr slot ↦ inr (inl (refl, inr slot))
      ]

  pub resumed-Inv :
      (gone : Bool) (job_id proc : ℕ) (c : Conn) (lane : Lane)
      → s.priority ≡ looking
      → s.lane.frozen ≡ some (job_id, proc)
      → (gone ≡ true → elem proc s.dead ≡ true)
      → resume_frozen gone s.lane s.conn ≡ (ok lane, c)
      → Inv s
      → Inv (record s { conn = c; lane = record lane { priority_task = false }; priority = absent })
  unfolding resume_frozen
  resumed-Inv gone job_id proc c lane at frozen gone_ended e h =
      elim (resume_cases gone s.lane lane s.conn c job_id proc frozen e) [
        | inl (is_gone, lane_is, conn) ↦
            let dead = gone_ended is_gone in
            record {
              normal_is =
                  resumed-NormalIs c (record lane { priority_task = false }) (ground arith)
                    (ground arith) (ground arith) (λ i p f. inl (ground arith)) s.normal
                    h.normal_is;
              normal_row = rw conn h.normal_row;
              priority_row = tt;
              flag = refl;
              free = λ a. inr (ground arith);
            }
        | inr (lane_is, resumes) ↦ record {
          normal_is =
              resumed-NormalIs c (record lane { priority_task = false }) (ground arith)
                (ground arith) (ground arith) (λ i p f. inr (ground arith, ground arith)) s.normal
                h.normal_is;
          normal_row = RowIs-resumed job_id s.conn c false _ resumes h.normal_row;
          priority_row = tt;
          flag = refl;
          free = λ a. inr (ground arith);
        }
      ]

  pub resume_raises-Inv :
      (job_id proc : ℕ) (c : Conn) (e : Error)
      → s.priority ≡ looking
      → s.lane.frozen ≡ some (job_id, proc)
      → resume_frozen false s.lane s.conn ≡ (raise e, c)
      → Inv s
      → Inv (record s {
        conn = c;
        lane = record s.lane {
          frozen = none;
          halted = remove proc s.lane.halted;
          priority_task = false;
        };
        priority = absent;
      })
  unfolding resume_frozen
  resume_raises-Inv job_id proc c e at frozen raised h =
      let raises = resume_raise s.lane s.conn c job_id proc e frozen raised in
      let (conn, active) = mark_resumed-raises job_id false s.conn c e raises in
      record {
        normal_is =
            resumed-NormalIs c
              (record s.lane {
                frozen = none;
                halted = remove proc s.lane.halted;
                priority_task = false;
              })
              (ground arith) refl refl (λ i p f. absurd (ground arith)) s.normal h.normal_is;
        normal_row = rw conn h.normal_row;
        priority_row = tt;
        flag = refl;
        free = λ a. inr refl;
      }

  pub add_raises-Inv :
      (c : Conn) (job_id proc : ℕ) (e : Error)
      → freeze_target s.conn.tables s.lane ≡ some (job_id, proc)
      → freeze_current_if_normal false s.lane s.conn ≡ (raise e, c)
      → Inv s
      → Inv (record s { conn = c; lane = record s.lane { halted = proc ∷ s.lane.halted } })
  unfolding freeze_current_if_normal elem
  add_raises-Inv c job_id proc e target raised h =
      let conn = freeze_raise s.lane s.conn c job_id proc e target raised in
      record {
        normal_is = go conn s.normal h.normal_is;
        normal_row = rw conn h.normal_row;
        priority_row = rw conn h.priority_row;
        flag = h.flag;
        free = h.free;
      }
    where
      go :
          c ≡ s.conn
          → (t : Task) → NormalIs s t
          → NormalIs
              (record s { conn = c; lane = record s.lane { halted = proc ∷ s.lane.halted } })
              t
      go same absent k = tt
      go same looking k = tt
      go same (starting i) k = k
      go same (running_job i p) k = ground arith
