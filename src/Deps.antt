-- ===== src/Deps.antt =====
-- Dependencies between jobs in src/queuer/db.py: whether a job may run, what depends on it, and
-- what is skipped when it ends.
pub mod Ready
use custom_queuer.Prelude.{
  Bool, List, Option, [], elem, exists, false, if◌then◌else◌, is_nil, is_some, leb, length, map,
  none, not, select, some, suc, true, zero, ℕ, ◌&&◌, ◌++◌, ◌==◌, ◌||◌, ◌∷◌,
}
use custom_queuer.Tables.{
  Db, Dep, Exec, Job, Mode, Status, any, commit, dependency_failed, does_not_exist, get_job,
  get_tables, guard, has_dependants, is_done, is_queued, is_success, is_terminal, not_queued,
  out_of_fuel, pure, queued_in, throw, unlock, update, ◌>>=◌, ◌>>◌,
}
use custom_queuer.Backlog.{delete_job}
use custom_queuer.Lifecycle.{skip_queued, status_is}

-- ORDER BY on ids.
unfoldable pub insert_id : ℕ → List ℕ → List ℕ
insert_id a [] = a ∷ []
insert_id a (b ∷ bs) = let rest = insert_id a bs in if leb a b then a ∷ b ∷ bs else b ∷ rest

unfoldable pub sort_ids : List ℕ → List ℕ
unfolding insert_id
sort_ids [] = []
sort_ids (a ∷ as_) = insert_id a (sort_ids as_)

unfoldable pub queued_dependants : Db → ℕ → List ℕ
unfolding sort_ids select exists
queued_dependants db job_id = sort_ids (
    map (λ d. d.job_id)
      (select (λ d. d.dep_id == job_id && queued_in db.jobs d.job_id) db.job_deps))

unfoldable pub insert_dep : Dep → List Dep → List Dep
insert_dep d [] = d ∷ []
insert_dep d (e ∷ es) =
    let rest = insert_dep d es in if leb d.dep_id e.dep_id then d ∷ e ∷ es else e ∷ rest

unfoldable pub sort_deps : List Dep → List Dep
unfolding insert_dep
sort_deps [] = []
sort_deps (d ∷ ds) = insert_dep d (sort_deps ds)

-- The rows `WHERE d.job_id = ? ORDER BY d.dep_id`.
unfoldable pub dep_rows : Db → ℕ → List Dep
unfolding sort_deps select
dep_rows db job_id = sort_deps (select (λ d. d.job_id == job_id) db.job_deps)

-- The LEFT JOIN: the status of the dependency, if its row is there.
abbrev status_of_row : Option Job → Option Status
status_of_row none = none
status_of_row (some j) = some j.status

unfoldable pub dep_status : Db → ℕ → Option Status
unfolding get_job
dep_status db dep_id = status_of_row (get_job db dep_id)

pub record DepInfo : Type 0 where
  pub depends_on : List ℕ
  pub after_any : List ℕ
  pub waiting_on : List ℕ

abbrev pub is_any : Mode → Bool
is_any any = true
is_any _ = false

-- `dep_status in ACTIVE_STATUSES`, which NULL is not.
abbrev pub is_active_row : Option Status → Bool
is_active_row none = false
is_active_row (some status) = not (is_terminal status)

unfoldable pub dep_info : Db → ℕ → DepInfo
unfolding dep_rows dep_status select
dep_info db job_id =
    let rows = dep_rows db job_id in
    record {
      depends_on = map (λ d. d.dep_id) (select (λ d. is_success d.mode) rows);
      after_any = map (λ d. d.dep_id) (select (λ d. is_any d.mode) rows);
      waiting_on = map (λ d. d.dep_id) (select (λ d. is_active_row (dep_status db d.dep_id)) rows);
    }

pub data Verdict : Type 0 where
  ready : Verdict
  waiting failed_dep removed_dep : ℕ → Verdict

-- `if waiting is None: waiting = ...`: the first one is kept.
abbrev or_else : Option ℕ → ℕ → Option ℕ
or_else none a = some a
or_else (some b) a = some b

abbrev verdict_at_end : Option ℕ → Verdict
verdict_at_end none = ready
verdict_at_end (some a) = waiting a

-- The loop over the rows; `waiting_id` is the first dependency that has not ended.
unfoldable pub verdict_rows : Db → List Dep → Option ℕ → Verdict
unfolding dep_status
verdict_rows db [] waiting_id = verdict_at_end waiting_id
verdict_rows db (d ∷ ds) waiting_id =
    let next = λ (w : Option ℕ). verdict_rows db ds w in
    elim (dep_status db d.dep_id) [
      | none ↦ removed_dep d.dep_id
      | some st ↦
          if is_terminal st
          then (if is_success d.mode && not (is_done st)
              then failed_dep d.dep_id
              else next waiting_id)
          else next (or_else waiting_id d.dep_id)
    ]

unfoldable pub dep_verdict : Db → ℕ → Verdict
unfolding verdict_rows dep_rows
dep_verdict db job_id = verdict_rows db (dep_rows db job_id) none

-- remove_from_queue: a queued job that nothing queued depends on is deleted.
unfoldable pub remove_from_queue : ℕ → Exec (Unit {0})
unfolding get_job queued_dependants delete_job select unlock
remove_from_queue job_id = do
  db ← get_tables
  guard (is_some (get_job db job_id)) (does_not_exist job_id)
  guard (status_is is_queued (get_job db job_id)) (not_queued job_id)
  guard (is_nil (queued_dependants db job_id)) (has_dependants (queued_dependants db job_id))
  update (delete_job job_id)
  update (λ t. record t {
    job_deps = select (λ d. not (d.job_id == job_id || d.dep_id == job_id)) t.job_deps;
  })
  update (unlock job_id)
  commit

-- The lists that `skip_dependants` builds: the skipped jobs, the channels, and the stack.
pub record Cascade : Type 0 where
  pub skipped : List ℕ
  pub channels : List ℕ
  pub todo : List ℕ

abbrev add_channel : ℕ → List ℕ → List ℕ
add_channel channel channels = if elem channel channels then channels else channel ∷ channels

-- `SELECT job_id, mode FROM job_deps WHERE dep_id = ? ORDER BY job_id`
unfoldable pub insert_waiter : Dep → List Dep → List Dep
insert_waiter d [] = d ∷ []
insert_waiter d (e ∷ es) =
    let rest = insert_waiter d es in if leb d.job_id e.job_id then d ∷ e ∷ es else e ∷ rest

unfoldable pub sort_waiters : List Dep → List Dep
unfolding insert_waiter
sort_waiters [] = []
sort_waiters (d ∷ ds) = insert_waiter d (sort_waiters ds)

unfoldable pub waiter_rows : Db → ℕ → List Dep
unfolding sort_waiters select
waiter_rows db dep_id = sort_waiters (select (λ d. d.dep_id == dep_id) db.job_deps)

module _ (now keep_backlog : ℕ) where
  -- One row: `dep` is the row of `dep_id` as it was read before the loop over its waiters.
  unfoldable pub visit_waiter : Job → Dep → Cascade → Exec Cascade
  unfolding get_job skip_queued elem
  visit_waiter dep d s = do
    db ← get_tables
    elim (get_job db d.job_id) [
      | none ↦ pure s
      | some waiter ↦
          if not (is_queued waiter.status)
          then pure s
          else if is_success d.mode && not (is_done dep.status)
          then (do
            skip_queued now waiter.id (dependency_failed d.dep_id) keep_backlog
            pure (record {
              skipped = s.skipped ++ waiter.id ∷ [];
              channels = add_channel waiter.channel s.channels;
              todo = waiter.id ∷ s.todo;
            }))
          else pure (record s { channels = add_channel waiter.channel s.channels })
    ]

  unfoldable pub visit_waiters : Job → List Dep → Cascade → Exec Cascade
  unfolding visit_waiter
  visit_waiters dep [] s = pure s
  visit_waiters dep (d ∷ ds) s = do s' ← visit_waiter dep d s; visit_waiters dep ds s'

  abbrev waiters_of : Db → Option Job → Cascade → Exec Cascade
  waiters_of db none s = pure s
  waiters_of db (some dep) s = visit_waiters dep (waiter_rows db dep.id) s

  -- `while todo`, with the rounds left.
  unfoldable pub cascade : ℕ → Cascade → Exec Cascade
  unfolding visit_waiters waiter_rows get_job
  cascade zero s = throw out_of_fuel
  cascade (suc fuel) s = elim s.todo [
    | [] ↦ pure s
    | dep_id ∷ rest ↦ (do
      db ← get_tables
      s' ← waiters_of db (get_job db dep_id) (record s { todo = rest })
      cascade fuel s')
  ]

  -- Each round but the last ends a queued job, so one more round than there are jobs is enough.
  unfoldable pub skip_dependants : ℕ → Exec (List ℕ × List ℕ)
  unfolding cascade
  skip_dependants job_id = do
    db ← get_tables
    s ←
        cascade (suc (suc (length db.jobs)))
          (record { skipped = []; channels = []; todo = job_id ∷ [] })
    pure (s.skipped, s.channels)
