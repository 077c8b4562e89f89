-- ===== src/Commands/Target.antt =====
-- Whom a cancel of src/queuer/daemon.py kills.
use custom_queuer.Prelude.{
  Bool, Bool-cases, List, Option, [], ap, arith, elem, false, inl, inr, none, not, refl, select,
  some, subst, true, ℕ, ℤ, ◌==◌, ◌∙◌, ◌∷◌, ◌≡◌, ◌⊎◌,
}
use custom_queuer.Tables.{
  Conn, Db, Job, Result, Status, Text, bind_result, cancelled, done, failed, get_job, guard, id_arg,
  interrupted, job_starting, lift, ok, pure, queued, raise, running, skipped, stopped, ◌>>=◌, ◌>>◌,
}
use custom_queuer.Checks.{Python, check_stop_grace, check_stop_signal}
use custom_queuer.Lifecycle.{cancel_queued}
use custom_queuer.Daemon.{Config, settle_dependants}
use custom_queuer.Lane.{Lane, cancel_frozen, cancel_job, remove}
use custom_queuer.Args.{Json, channel_arg_of, int_arg, job_id_of}
use custom_queuer.Commands.Plan.{value_of}
use custom_queuer.Commands.Cancel.{
  Cancelled, Kill, cancel_by_status, cancel_current, cancel_foreground, cancel_row, cancel_running,
  cancel_stopped, cancel_target, cmd_cancel, is_in, other_channel,
}

-- What an accepted cancel did to its lane: it killed the job that runs there, or continued and
-- killed the frozen job and took it from the frozen slot, or there was nothing to kill.
abbrev pub IsTarget : Lane → Cancelled → Option Kill → Type 0
IsTarget lane x none = x.lane ≡ lane
IsTarget lane x (some kill) =
    (elem x.job_id x.lane.cancelled ≡ true)
    × (((lane.current_job ≡ some x.job_id) × (lane.current_proc ≡ some kill.proc))
        ⊎ ((lane.frozen ≡ some (x.job_id, kill.proc))
            × (x.lane.frozen ≡ none)
            × (elem kill.proc x.lane.halted ≡ false)))

abbrev Targets : (ℕ → Lane) → Result Cancelled × Conn → Type 0
Targets lanes (ok x, c) = IsTarget (lanes x.channel) x x.killed
Targets lanes (raise e, c) = Unit

elem-remove : (a : ℕ) (xs : List ℕ) → elem a (remove a xs) ≡ false
unfolding elem select
elem-remove a [] = refl
elem-remove a (x ∷ xs) = ground (arith, elem-remove a xs)

cancel_current-Targets :
    (db : Db) (lanes : ℕ → Lane) (channel : ℕ) (job proc : Option ℕ) (sig : Option Text)
    (grace : Option ℕ) (c : Conn)
    → (lanes channel).current_job ≡ job
    → (lanes channel).current_proc ≡ proc
    → Targets lanes (cancel_current db channel (lanes channel) job proc sig grace, c)
unfolding cancel_running cancel_job elem
cancel_current-Targets db lanes channel (some job_id) (some proc) sig grace c e f =
    (ground arith, inl (e, f))
cancel_current-Targets db lanes channel (some job_id) none sig grace c e f = tt
cancel_current-Targets db lanes channel none proc sig grace c e f = tt

is_in-eq : (o : Option ℕ) (job_id : ℕ) → is_in o job_id ≡ true → o ≡ some job_id
is_in-eq none job_id e = absurd (cc)
is_in-eq (some k) job_id e = ground arith

cancel_foreground-Targets :
    (db : Db) (lanes : ℕ → Lane) (j : Job) (proc : Option ℕ) (sig : Option Text) (grace : Option ℕ)
    (c : Conn)
    → (lanes j.channel).current_proc ≡ proc
    → Targets lanes (cancel_foreground db j (lanes j.channel) proc sig grace, c)
unfolding cancel_running cancel_job elem
cancel_foreground-Targets db lanes j none sig grace c f = tt
cancel_foreground-Targets db lanes j (some proc) sig grace c f =
    elim (Bool-cases (is_in (lanes j.channel).current_job j.id)) [
      | inl here_is ↦
          rw here_is (ground arith, inl (is_in-eq (lanes j.channel).current_job j.id here_is, f))
      | inr elsewhere ↦ rw elsewhere tt
    ]

cancel_stopped-Targets :
    (db : Db) (lanes : ℕ → Lane) (j : Job) (slot : Option (ℕ × ℕ)) (sig : Option Text)
    (grace : Option ℕ) (c : Conn)
    → (lanes j.channel).frozen ≡ slot
    → Targets lanes (cancel_stopped db j (lanes j.channel) slot sig grace, c)
unfolding cancel_running cancel_frozen cancel_job elem
cancel_stopped-Targets db lanes j none sig grace c f = tt
cancel_stopped-Targets db lanes j (some (job_id, proc)) sig grace c f =
    elim (Bool-cases (job_id == j.id)) [
      | inl same ↦ rw same (
        ground arith,
        inr (
          f ∙ ap (λ i. some (i, proc)) (ground arith),
          refl,
          elem-remove proc (lanes j.channel).halted,
        ),
      )
      | inr other ↦ rw other tt
    ]

module _ (config : Config) (now : ℕ) (job_starting_now : ℕ → Bool) where
  cancel_by_status-Targets :
      (db : Db) (lanes : ℕ → Lane) (j : Job) (sig : Option Text) (grace : Option ℕ) (s : Status)
      (c : Conn)
      → Targets lanes
          (cancel_by_status config now job_starting_now db j (lanes j.channel) sig grace s c)
  cancel_by_status-Targets db lanes j sig grace running c =
      cancel_foreground-Targets db lanes j (lanes j.channel).current_proc sig grace c refl
  cancel_by_status-Targets db lanes j sig grace stopped c =
      cancel_stopped-Targets db lanes j (lanes j.channel).frozen sig grace c refl
  cancel_by_status-Targets db lanes j sig grace done c = tt
  cancel_by_status-Targets db lanes j sig grace failed c = tt
  cancel_by_status-Targets db lanes j sig grace cancelled c = tt
  cancel_by_status-Targets db lanes j sig grace interrupted c = tt
  cancel_by_status-Targets db lanes j sig grace skipped c = tt
  cancel_by_status-Targets db lanes j sig grace queued c = by_guard (job_starting_now j.id) c
    where
      answer : Cancelled
      answer = record { job_id = j.id; channel = j.channel; killed = none; lane = lanes j.channel }

      by_settled :
          (x : Result (List ℕ) × Conn) → Targets lanes (bind_result x.0 (λ _. pure answer) x.1)
      by_settled (ok channels, c) = refl
      by_settled (raise e, c) = tt

      by_cancel :
          (x : Result (Unit {0}) × Conn)
          → Targets lanes
              (bind_result x.0 (λ _. settle_dependants config now j.id >>= λ _. pure answer) x.1)
      by_cancel (ok u, c) = by_settled (settle_dependants config now j.id c)
      by_cancel (raise e, c) = tt

      by_guard :
          (b : Bool) (c : Conn)
          → Targets lanes (
              (guard (not b) (job_starting j.id)
                  >> (cancel_queued now j.id config.keep
                      >> (settle_dependants config now j.id >>= λ _. pure answer)))
                c)
      by_guard true c = tt
      by_guard false c = by_cancel (cancel_queued now j.id config.keep c)

  cancel_row-Targets :
      (db : Db) (lanes : ℕ → Lane) (channel : Option ℕ) (sig : Option Text) (grace : Option ℕ)
      (job_id : ℕ) (o : Option Job) (c : Conn)
      → Targets lanes (cancel_row config now job_starting_now db lanes channel sig grace job_id o c)
  cancel_row-Targets db lanes channel sig grace job_id none c = tt
  cancel_row-Targets db lanes channel sig grace job_id (some j) c =
      elim (Bool-cases (other_channel config now job_starting_now channel j.channel)) [
        | inl other ↦ rw other tt
        | inr same ↦ rw same (cancel_by_status-Targets db lanes j sig grace j.status c)
      ]

  cancel_target-Targets :
      (db : Db) (lanes : ℕ → Lane) (id : Option ℤ) (channel : Option ℕ) (sig : Option Text)
      (grace : Option ℕ) (c : Conn)
      → Targets lanes (cancel_target config now job_starting_now db lanes id channel sig grace c)
  cancel_target-Targets db lanes none channel sig grace c =
      cancel_current-Targets db lanes _ _ _ sig grace c refl refl
  cancel_target-Targets db lanes (some n) channel sig grace c =
      cancel_row-Targets db lanes channel sig grace (job_id_of (some n))
        (get_job db (job_id_of (some n))) c

  -- An accepted cancel kills the job that runs on its channel, with the process of that channel,
  -- or the frozen job, whose process it first continues and which leaves the frozen slot, or it
  -- kills nothing and leaves the lane alone.
  pub cmd_cancel-IsTarget :
      (python : Python) (lanes : ℕ → Lane) (id channel signal grace : Json) (x : Cancelled)
      (c c' : Conn)
      → cmd_cancel config now job_starting_now python lanes id channel signal grace c ≡ (ok x, c')
      → IsTarget (lanes x.channel) x x.killed
  unfolding cmd_cancel
  cmd_cancel-IsTarget python lanes id channel signal grace x c c' e =
      subst (Targets lanes) e (by_id (int_arg id_arg false false id))
    where
      by_grace :
          (n : Option ℤ) (k : Option ℕ) (sig : Option Text) (r : Result (Option ℕ))
          → Targets lanes (
              (lift r >>= λ secs.
              cancel_target config now job_starting_now c.tables lanes n k sig secs)
                c)
      by_grace n k sig (ok secs) = cancel_target-Targets c.tables lanes n k sig secs c
      by_grace n k sig (raise x) = tt

      by_signal :
          (n : Option ℤ) (k : Option ℕ) (r : Result (Option Text))
          → Targets lanes (
              (lift r >>= λ sig. lift (check_stop_grace python (value_of grace)) >>= λ secs.
              cancel_target config now job_starting_now c.tables lanes n k sig secs)
                c)
      by_signal n k (ok sig) = by_grace n k sig (check_stop_grace python (value_of grace))
      by_signal n k (raise x) = tt

      by_channel :
          (n : Option ℤ) (r : Result (Option ℕ))
          → Targets lanes (
              (lift r >>= λ k. lift (check_stop_signal python (value_of signal)) >>= λ sig.
              lift (check_stop_grace python (value_of grace)) >>= λ secs.
              cancel_target config now job_starting_now c.tables lanes n k sig secs)
                c)
      by_channel n (ok k) = by_signal n k (check_stop_signal python (value_of signal))
      by_channel n (raise x) = tt

      by_id :
          (r : Result (Option ℤ))
          → Targets lanes (
              (lift r >>= λ n. lift (channel_arg_of channel) >>= λ k.
              lift (check_stop_signal python (value_of signal)) >>= λ sig.
              lift (check_stop_grace python (value_of grace)) >>= λ secs.
              cancel_target config now job_starting_now c.tables lanes n k sig secs)
                c)
      by_id (ok n) = by_channel n (channel_arg_of channel)
      by_id (raise x) = tt
