-- ===== src/Lane/Tasks.antt =====
-- The invariant of the lanes, and the steps in which the tasks start and end a job
-- (src/queuer/daemon.py).
use custom_queuer.Prelude.{
  Bool-cases, arith, false, false≢true, inl, inr, none, refl, some, subst, sym, true, ℕ, ◌∙◌, ◌≡◌,
  ◌⊎◌,
}
use custom_queuer.Tables.{Conn, ok}
use custom_queuer.Lifecycle.{mark_running}
use custom_queuer.Lane.{ensure_priority_worker, release_lane, take_slot}
use custom_queuer.Lane.Steps.{
  KeepsRow, State, Task, absent, job_of_task, looking, or_looking, running_job, starting,
}
use custom_queuer.Lane.Rows.{mark_running-row_state}
use custom_queuer.Lane.Alone.{Inv, NormalIs, RowIs, RowIs-KeepsRow}
use custom_queuer.Lane.Handover.{
  RowIs-running, elem-remove, ids_differ, looking_present, looking_row,
}

module _ (s : State) where
  pub normal_starts-Inv :
      (now job_id proc : ℕ) (c : Conn)
      → s.normal ≡ starting job_id
      → mark_running now job_id proc proc s.conn ≡ (ok tt, c)
      → Inv s
      → Inv (record s {
        conn = c;
        lane = take_slot job_id proc s.lane;
        normal = running_job job_id proc;
      })
  unfolding take_slot
  normal_starts-Inv now job_id proc c at e h =
      let begun = subst (NormalIs s) at h.normal_is in
      let row = subst (λ t. RowIs s.conn false (job_of_task t)) at h.normal_row in
      record {
        normal_is = inr (inl (begun, inr (refl, refl)));
        normal_row = RowIs-running now job_id proc s.conn c false (some job_id) e row;
        priority_row = RowIs-running now job_id proc s.conn c true _ e h.priority_row;
        flag = h.flag;
        free = h.free;
      }

  pub priority_starts-Inv :
      (now job_id proc : ℕ) (c : Conn)
      → s.priority ≡ starting job_id
      → mark_running now job_id proc proc s.conn ≡ (ok tt, c)
      → Inv s
      → Inv (record s {
        conn = c;
        lane = take_slot job_id proc s.lane;
        priority = running_job job_id proc;
      })
  unfolding take_slot
  priority_starts-Inv now job_id proc c at e h =
      let row = subst (λ t. RowIs s.conn true (job_of_task t)) at h.priority_row in
      record {
        normal_is = go s.normal h.normal_row h.normal_is row;
        normal_row = RowIs-running now job_id proc s.conn c false _ e h.normal_row;
        priority_row = RowIs-running now job_id proc s.conn c true (some job_id) e row;
        flag = ground (arith, h.flag);
        free = λ a. absurd (cc);
      }
    where
      go :
          (t : Task)
          → RowIs s.conn false (job_of_task t)
          → NormalIs s t
          → RowIs s.conn true (some job_id)
          → NormalIs
              (record s {
                conn = c;
                lane = take_slot job_id proc s.lane;
                priority = running_job job_id proc;
              })
              t
      go absent r k row = tt
      go looking r k row = tt
      go (starting i) r k row = ground arith
      go (running_job i p) r k row =
          let other = ids_differ s.conn i job_id r row in
          let kept = mark_running-row_state now job_id proc proc i s.conn c e in ground arith

  pub priority_ends-Inv :
      (job_id proc : ℕ) (c : Conn)
      → s.priority ≡ running_job job_id proc
      → KeepsRow s.conn c (job_of_task s.normal)
      → Inv s
      → Inv (record s { conn = c; lane = release_lane job_id s.lane; priority = looking })
  unfolding release_lane
  priority_ends-Inv job_id proc c at keeps h =
      let row = subst (λ t. RowIs s.conn true (job_of_task t)) at h.priority_row in
      record {
        normal_is = go s.normal keeps h.normal_row h.normal_is row;
        normal_row = RowIs-KeepsRow s.conn c false _ keeps h.normal_row;
        priority_row = tt;
        flag = ground (arith, h.flag);
        free = λ a. absurd (cc);
      }
    where
      go :
          (t : Task)
          → KeepsRow s.conn c (job_of_task t)
          → RowIs s.conn false (job_of_task t)
          → NormalIs s t
          → RowIs s.conn true (some job_id)
          → NormalIs
              (record s { conn = c; lane = release_lane job_id s.lane; priority = looking })
              t
      go absent w r k row = tt
      go looking w r k row = tt
      go (starting i) w r k row = ground arith
      go (running_job i p) w r k row =
          let other = ids_differ s.conn i job_id r row in
          let stays = elem-remove i job_id s.lane.cancelled other in ground arith

  pub lane_wakes-Inv :
      s.normal ≡ looking
      → Inv s
      → Inv (record s {
        lane = ensure_priority_worker s.lane;
        priority = or_looking s.lane.stopping s.priority;
      })
  unfolding ensure_priority_worker
  lane_wakes-Inv at h = record {
    normal_is = rw at tt;
    normal_row = h.normal_row;
    priority_row = looking_row s.conn s.lane.stopping s.priority h.priority_row;
    flag = elim (Bool-cases s.lane.stopping) [
      | inl stop ↦ rw stop h.flag
      | inr go ↦ let present = looking_present s.lane.stopping s.priority go in ground arith
    ];
    free = λ a. elim (Bool-cases s.lane.stopping) [
      | inl stop ↦ inl (ground arith)
      | inr go ↦ absurd (false≢true (sym (looking_present s.lane.stopping s.priority go) ∙ a))
    ];
  }

  pub priority_done-Inv :
      s.priority ≡ looking
      → (s.lane.stopping ≡ true) ⊎ (s.lane.frozen ≡ none)
      → Inv s
      → Inv (record s { lane = record s.lane { priority_task = false }; priority = absent })
  priority_done-Inv at over h = record {
    normal_is = go s.normal h.normal_is;
    normal_row = h.normal_row;
    priority_row = tt;
    flag = refl;
    free = λ a. over;
  }
    where
      go :
          (t : Task)
          → NormalIs s t
          → NormalIs
              (record s { lane = record s.lane { priority_task = false }; priority = absent })
              t
      go absent k = tt
      go looking k = tt
      go (starting i) k = refl
      go (running_job i p) k = ground arith
