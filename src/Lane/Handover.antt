-- ===== src/Lane/Handover.antt =====
-- What freezing and resuming do to a lane and to the rows of its jobs (src/queuer/daemon.py).
use custom_queuer.Prelude.{
  ==→≡, Bool, Bool-cases, List, Option, [], arith, elem, false, false≢true, if◌then◌else◌, inl, inr,
  none, refl, select, some, subst, sym, true, ℕ, ◌==◌, ◌∙◌, ◌∷◌, ◌≡◌, ◌⊎◌,
}
use custom_queuer.Tables.{
  >>=-eq-ok, Conn, Db, Error, Job, Result, Status, bind_result, get_job, ok, pure, raise, running,
  stopped,
}
use custom_queuer.Lifecycle.{mark_resumed, mark_running, mark_stopped}
use custom_queuer.Lane.{
  Lane, freeze_current_if_normal, freeze_group, freeze_target, remove, resume_frozen, resume_group,
  target_row,
}
use custom_queuer.Lane.Steps.{Task, absent, job_of_task, looking, or_looking, running_job, starting}
use custom_queuer.Lane.Rows.{
  mark_resumed-row_state, mark_running-row_state, mark_stopped-row_state, row_state, with_status,
}
use custom_queuer.Lane.Alone.{IsLane, RowIs, is_absent}

pub ids_differ :
    (c : Conn) (a b : ℕ) → RowIs c false (some a) → RowIs c true (some b) → (a == b) ≡ false
ids_differ c a b h k = elim (Bool-cases (a == b)) [
  | inl same ↦
      let k' = subst (λ i. RowIs c true (some i)) (sym (==→≡ a b same)) k in
      absurd (both (row_state (get_job c.tables a)) h k')
  | inr other ↦ other
]
  where
    both : (o : Option (Bool × Status)) → IsLane false o → IsLane true o → ⊥
    both none h k = h
    both (some (lane, status)) h k = false≢true (sym h ∙ k)

pub elem-remove : (a b : ℕ) (xs : List ℕ) → (a == b) ≡ false → elem a (remove b xs) ≡ elem a xs
unfolding elem select
elem-remove a b [] h = refl
elem-remove a b (x ∷ xs) h = let rest = elem-remove a b xs h in ground arith

pub looking_row :
    (c : Conn) (b : Bool) (t : Task)
    → RowIs c true (job_of_task t)
    → RowIs c true (job_of_task (or_looking b t))
looking_row c true t h = h
looking_row c false absent h = tt
looking_row c false looking h = h
looking_row c false (starting j) h = h
looking_row c false (running_job j p) h = h

pub looking_present : (b : Bool) (t : Task) → b ≡ false → is_absent (or_looking b t) ≡ false
looking_present true t h = absurd (cc)
looking_present false absent h = refl
looking_present false looking h = refl
looking_present false (starting j) h = refl
looking_present false (running_job j p) h = refl

RowIs-with_status :
    (lane : Bool) (status : Status) (b : Bool) (o : Option (Bool × Status))
    → IsLane lane o
    → IsLane lane (if b then with_status status o else o)
RowIs-with_status lane status true none h = elim h [ ]
RowIs-with_status lane status true (some (b, old)) h = h
RowIs-with_status lane status false o h = h

pub RowIs-running :
    (now job_id proc : ℕ) (c c' : Conn) (lane : Bool) (o : Option ℕ)
    → mark_running now job_id proc proc c ≡ (ok tt, c')
    → RowIs c lane o
    → RowIs c' lane o
RowIs-running now job_id proc c c' lane none e h = tt
RowIs-running now job_id proc c c' lane (some other) e h =
    rw (mark_running-row_state now job_id proc proc other c c' e)
      (RowIs-with_status lane running (other == job_id) (row_state (get_job c.tables other)) h)

module _ (job_id : ℕ) (c c' : Conn) where
  pub RowIs-stopped :
      (lane : Bool) (o : Option ℕ)
      → mark_stopped job_id c ≡ (ok tt, c')
      → RowIs c lane o
      → RowIs c' lane o
  RowIs-stopped lane none e h = tt
  RowIs-stopped lane (some other) e h =
      rw (mark_stopped-row_state job_id other c c' e)
        (RowIs-with_status lane stopped (other == job_id) (row_state (get_job c.tables other)) h)

  pub RowIs-resumed :
      (lane : Bool) (o : Option ℕ)
      → mark_resumed job_id c ≡ (ok tt, c')
      → RowIs c lane o
      → RowIs c' lane o
  RowIs-resumed lane none e h = tt
  RowIs-resumed lane (some other) e h =
      rw (mark_resumed-row_state job_id other c c' e)
        (RowIs-with_status lane running (other == job_id) (row_state (get_job c.tables other)) h)

-- The two ways in which `_freeze_current_if_normal` returns.
pub record Freezes (lane lane' : Lane) (c c' : Conn) (job_id proc : ℕ) : Type 0 where
  pub target : freeze_target c.tables lane ≡ some (job_id, proc)
  pub lane_is : lane' ≡ record lane { frozen = some (job_id, proc); halted = proc ∷ lane.halted }
  pub stops : mark_stopped job_id c ≡ (ok tt, c')

pub freeze_cases :
    (gone : Bool) (lane lane' : Lane) (c c' : Conn)
    → freeze_current_if_normal gone lane c ≡ (ok lane', c')
    → ((lane' ≡ lane) × (c' ≡ c) × ((freeze_target c.tables lane ≡ none) ⊎ (gone ≡ true)))
      ⊎ ((job_id : ℕ) × (proc : ℕ) × Freezes lane lane' c c' job_id proc)
unfolding freeze_current_if_normal
freeze_cases gone lane lane' c c' e = go gone (freeze_target c.tables lane) refl e
  where
    go :
        (gone : Bool) (o : Option (ℕ × ℕ))
        → freeze_target c.tables lane ≡ o
        → freeze_group gone lane o c ≡ (ok lane', c')
        → ((lane' ≡ lane) × (c' ≡ c) × ((freeze_target c.tables lane ≡ none) ⊎ (gone ≡ true)))
          ⊎ ((job_id : ℕ) × (proc : ℕ) × Freezes lane lane' c c' job_id proc)
    go gone none at e = inl (ground arith, ground arith, inl at)
    go true (some (j, p)) at e = inl (ground arith, ground arith, inr refl)
    go false (some (j, p)) at e =
        let (u, c₁, stops, rest) = >>=-eq-ok (mark_stopped j) _ c e in
        inr (j, p, record { target = at; lane_is = ground arith; stops = ground arith })

pub lane_stopped :
    (o : Option (Bool × Status)) → IsLane false o → with_status stopped o ≡ some (false, stopped)
lane_stopped none h = elim h [ ]
lane_stopped (some (b, status)) h = rw h refl

pub freeze_target_lem :
    (c : Conn) (lane : Lane) (i p : ℕ)
    → lane.frozen ≡ none
    → lane.stopping ≡ false
    → lane.current_job ≡ some i
    → lane.current_proc ≡ some p
    → RowIs c false (some i)
    → freeze_target c.tables lane ≡ some (i, p)
unfolding freeze_target
freeze_target_lem c lane i p unfrozen going job proc row =
    rw (unfrozen, going, job, proc) (by_row (get_job c.tables i) row)
  where
    by_row : (o : Option Job) → IsLane false (row_state o) → target_row i p o ≡ some (i, p)
    by_row none h = elim h [ ]
    by_row (some j) h = rw h refl

pub freeze_target-some :
    (db : Db) (lane : Lane) (i p : ℕ)
    → freeze_target db lane ≡ some (i, p)
    → (lane.frozen ≡ none)
      × (lane.stopping ≡ false)
      × (lane.current_job ≡ some i)
      × (lane.current_proc ≡ some p)
unfolding freeze_target
freeze_target-some db lane i p e = ground arith

pub resume_cases :
    (gone : Bool) (lane lane' : Lane) (c c' : Conn) (job_id proc : ℕ)
    → lane.frozen ≡ some (job_id, proc)
    → resume_frozen gone lane c ≡ (ok lane', c')
    → ((gone ≡ true) × (lane' ≡ record lane { frozen = none }) × (c' ≡ c))
      ⊎ ((lane' ≡ record lane {
        frozen = none;
        current_job = some job_id;
        current_proc = some proc;
        halted = remove proc lane.halted;
      })
          × (mark_resumed job_id c ≡ (ok tt, c')))
unfolding resume_frozen
resume_cases gone lane lane' c c' job_id proc frozen e =
    go gone (subst (λ o. resume_group gone lane o c ≡ (ok lane', c')) frozen e)
  where
    go :
        (gone : Bool)
        → resume_group gone lane (some (job_id, proc)) c ≡ (ok lane', c')
        → ((gone ≡ true) × (lane' ≡ record lane { frozen = none }) × (c' ≡ c))
          ⊎ ((lane' ≡ record lane {
            frozen = none;
            current_job = some job_id;
            current_proc = some proc;
            halted = remove proc lane.halted;
          })
              × (mark_resumed job_id c ≡ (ok tt, c')))
    go true e = inl (refl, ground arith, ground arith)
    go false e =
        let (u, c₁, resumes, rest) = >>=-eq-ok (mark_resumed job_id) _ c e in
        inr (ground arith, ground arith)

pub freeze_raise :
    (lane : Lane) (c c' : Conn) (job_id proc : ℕ) (e : Error)
    → freeze_target c.tables lane ≡ some (job_id, proc)
    → freeze_current_if_normal false lane c ≡ (raise e, c')
    → c' ≡ c
unfolding freeze_current_if_normal mark_stopped
freeze_raise lane c c' job_id proc e target h = ground arith

pub resume_raise :
    (lane : Lane) (c c' : Conn) (job_id proc : ℕ) (e : Error)
    → lane.frozen ≡ some (job_id, proc)
    → resume_frozen false lane c ≡ (raise e, c')
    → mark_resumed job_id c ≡ (raise e, c')
unfolding resume_frozen
resume_raise lane c c' job_id proc e frozen h =
    go (subst (λ o. resume_group false lane o c ≡ (raise e, c')) frozen h)
  where
    go :
        resume_group false lane (some (job_id, proc)) c ≡ (raise e, c')
        → mark_resumed job_id c ≡ (raise e, c')
    go h = by_result (mark_resumed job_id c).0 (mark_resumed job_id c).1 refl h
      where
        by_result :
            (r : Result (Unit {0})) (c₁ : Conn)
            → mark_resumed job_id c ≡ (r, c₁)
            → bind_result r
                (λ _. pure (record lane {
                  frozen = none;
                  current_job = some job_id;
                  current_proc = some proc;
                  halted = remove proc lane.halted;
                }))
                c₁
              ≡ (raise e, c')
            → mark_resumed job_id c ≡ (raise e, c')
        by_result (ok u) c₁ at k = absurd (cc)
        by_result (raise x) c₁ at k = at ∙ ground (arith, k)
