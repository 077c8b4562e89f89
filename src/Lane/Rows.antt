-- ===== src/Lane/Rows.antt =====
-- What the status changes of src/queuer/db.py leave of the lane and the status of a row.
use mathlib.Core.Option
use custom_queuer.Prelude.{Bool, Option, arith, if◌then◌else◌, none, refl, some, ℕ, ◌==◌, ◌≡◌, ◌≢◌}
use custom_queuer.Tables.{
  Conn, Error, Job, Status, get_job, get_job-unlock, get_job-update_job, ok, raise, running,
  stopped, update_job,
}
use custom_queuer.Lifecycle.{mark_resumed, mark_running, mark_stopped, run_row, set_status}

-- The lane and the status of a job's row.
abbrev pub row_state : Option Job → Option (Bool × Status)
row_state none = none
row_state (some j) = some (j.is_priority, j.status)

abbrev pub with_status : Status → Option (Bool × Status) → Option (Bool × Status)
with_status status none = none
with_status status (some (lane, _)) = some (lane, status)

row_state-map :
    (f : Job → Job) (status : Status) (o : Option Job)
    → ((j : Job) → (f j).is_priority ≡ j.is_priority)
    → ((j : Job) → (f j).status ≡ status)
    → row_state (Option.map f o) ≡ with_status status (row_state o)
row_state-map f status none lane is_status = refl
row_state-map f status (some j) lane is_status = λ i. some (lane j i, is_status j i)

pub mark_running-row_state :
    (now job_id pid pgid other : ℕ) (c c' : Conn)
    → mark_running now job_id pid pgid c ≡ (ok tt, c')
    → row_state (get_job c'.tables other) ≡ (
        if other == job_id
        then with_status running (row_state (get_job c.tables other))
        else row_state (get_job c.tables other))
unfolding mark_running
mark_running-row_state now job_id pid pgid other c c' e =
    let changed = get_job-update_job (run_row now pid pgid) job_id other c.tables (λ j. refl) in
    let mapped =
      row_state-map (run_row now pid pgid) running (get_job c.tables other) (λ j. refl)
        (λ j. refl) in
    ground (
      arith,
      changed,
      mapped,
      get_job-unlock job_id other (update_job (run_row now pid pgid) job_id c.tables),
    )

pub mark_stopped-row_state :
    (job_id other : ℕ) (c c' : Conn)
    → mark_stopped job_id c ≡ (ok tt, c')
    → row_state (get_job c'.tables other) ≡ (
        if other == job_id
        then with_status stopped (row_state (get_job c.tables other))
        else row_state (get_job c.tables other))
unfolding mark_stopped
mark_stopped-row_state job_id other c c' e =
    let changed = get_job-update_job (set_status stopped) job_id other c.tables (λ j. refl) in
    let mapped =
      row_state-map (set_status stopped) stopped (get_job c.tables other) (λ j. refl) (λ j. refl) in
    ground (arith, changed, mapped)

pub mark_resumed-row_state :
    (job_id other : ℕ) (c c' : Conn)
    → mark_resumed job_id c ≡ (ok tt, c')
    → row_state (get_job c'.tables other) ≡ (
        if other == job_id
        then with_status running (row_state (get_job c.tables other))
        else row_state (get_job c.tables other))
unfolding mark_resumed
mark_resumed-row_state job_id other c c' e =
    let changed = get_job-update_job (set_status running) job_id other c.tables (λ j. refl) in
    let mapped =
      row_state-map (set_status running) running (get_job c.tables other) (λ j. refl) (λ j. refl) in
    ground (arith, changed, mapped)

pub mark_stopped-raises :
    (job_id : ℕ) (c c' : Conn) (e : Error) → mark_stopped job_id c ≡ (raise e, c') → c' ≡ c
unfolding mark_stopped
mark_stopped-raises job_id c c' e h = ground arith

pub mark_resumed-raises :
    (job_id : ℕ) (lane : Bool) (c c' : Conn) (e : Error)
    → mark_resumed job_id c ≡ (raise e, c')
    → (c' ≡ c) × (row_state (get_job c.tables job_id) ≢ some (lane, stopped))
unfolding mark_resumed
mark_resumed-raises job_id lane c c' e h = ground arith
