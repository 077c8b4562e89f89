-- ===== src/EditJob.antt =====
-- `edit_job` of src/queuer/db.py: a queued job is changed all at once, or not at all.
pub mod Refused
use custom_queuer.Prelude.{
  Bool, List, Option, [], exists, false, if◌then◌else◌, is_nil, is_some, none, not, select, some,
  true, ℕ, ℤ, ◌==◌, ◌||◌, ◌∷◌,
}
use custom_queuer.Tables.{
  Db, Exec, Job, Lock, Mode, OnFail, Result, Settings, Text, bad_mode, bad_on_fail, being_edited,
  cannot_edit, commit, get_job, get_tables, guard, lift, lock_lost, no_such_dependency, ok, pure,
  raise, register_channel, self_dependency, throw, try_rollback, type_error, unlock, update,
  update_job, ◌>>=◌, ◌>>◌,
}
use custom_queuer.Checks.{Python, Value, check_hook, check_stop_grace, check_stop_signal}
use custom_queuer.Request.{known_mode, known_on_fail}
use custom_queuer.Queue.{next_position, target_position}
use custom_queuer.Enqueue.{check_behind, insert_deps, refuse_deadlock}
use custom_queuer.EditLock.{World, editable_job, live_edit_lock}

-- An item of `updates`: the columns of _EDITABLE_COLUMNS, and any other name.
pub data Update : Type 0 where
  raw_cmd resolved_cmd : List Text → Update
  cwd : Text → Update
  env_extra : Option (List (Text × Text)) → Update
  timeout_secs : Option ℕ → Update
  max_retries : ℕ → Update
  on_fail : OnFail → Update
  not_before : Option ℕ → Update
  retry_delay_secs : Option ℕ → Update
  retry_backoff : Bool → Update
  on_finish_cmd on_error_cmd stop_signal stop_grace_secs : Value → Update
  unknown_column : Text → Update

abbrev pub is_editable : Update → Bool
is_editable (unknown_column _) = false
is_editable _ = true

abbrev pub good_on_fail : Update → Bool
good_on_fail (on_fail mode) = known_on_fail mode
good_on_fail _ = true

abbrev pub all_updates : (Update → Bool) → List Update → Bool
all_updates p us = not (exists (λ u. not (p u)) us)

abbrev pub or_none : {A : Type 0} → Result (Option A) → Option A
or_none (ok a) = a
or_none (raise e) = none

abbrev pub to_unit : {A : Type 0} → Result A → Result (Unit {0})
to_unit (ok a) = ok tt
to_unit (raise e) = raise e

module _ (python : Python) where
  -- The validators, in the order in which they are called.
  abbrev check_finish : Update → Result (Unit {0})
  check_finish (on_finish_cmd v) = to_unit (check_hook python v)
  check_finish _ = ok tt

  abbrev check_error : Update → Result (Unit {0})
  check_error (on_error_cmd v) = to_unit (check_hook python v)
  check_error _ = ok tt

  abbrev check_signal : Update → Result (Unit {0})
  check_signal (stop_signal v) = to_unit (check_stop_signal python v)
  check_signal _ = ok tt

  abbrev check_grace : Update → Result (Unit {0})
  check_grace (stop_grace_secs v) = to_unit (check_stop_grace python v)
  check_grace _ = ok tt

  -- UPDATE jobs SET {column} = ?, with the value that the validator returned.
  unfoldable pub set_column : Update → Settings → Settings
  set_column (raw_cmd v) s = record s { raw_cmd = v }
  set_column (resolved_cmd v) s = record s { resolved_cmd = v }
  set_column (cwd v) s = record s { cwd = v }
  set_column (env_extra v) s = record s { env_extra = v }
  set_column (timeout_secs v) s = record s { timeout_secs = v }
  set_column (max_retries v) s = record s { max_retries = v }
  set_column (on_fail v) s = record s { on_fail = v }
  set_column (not_before v) s = record s { not_before = v }
  set_column (retry_delay_secs v) s = record s { retry_delay_secs = v }
  set_column (retry_backoff v) s = record s { retry_backoff = v }
  set_column (on_finish_cmd v) s = record s { on_finish_cmd = or_none (check_hook python v) }
  set_column (on_error_cmd v) s = record s { on_error_cmd = or_none (check_hook python v) }
  set_column (stop_signal v) s = record s { stop_signal = or_none (check_stop_signal python v) }
  set_column (stop_grace_secs v) s = record s {
    stop_grace_secs = or_none (check_stop_grace python v);
  }
  set_column (unknown_column _) s = s

  unfoldable pub set_columns : ℕ → List Update → Db → Db
  set_columns job_id [] db = db
  set_columns job_id (u ∷ us) db =
      set_columns job_id us
        (update_job (λ j. record j { settings = set_column u j.settings }) job_id db)

unfoldable pub check_each : (Update → Result (Unit {0})) → List Update → Exec (Unit {0})
check_each check [] = pure tt
check_each check (u ∷ us) = do lift (check u); check_each check us

-- The holder of the lock, or nobody in particular.
abbrev pub check_holder : ℕ → Option ℕ → Option Lock → Result (Unit {0})
check_holder job_id none none = ok tt
check_holder job_id none (some held) = raise (being_edited job_id)
check_holder job_id (some pid) none = raise (lock_lost job_id)
check_holder job_id (some pid) (some held) =
    if held.holder_pid == pid then ok tt else raise (lock_lost job_id)

-- The loop over the new dependencies.
unfoldable pub check_new_deps : Db → ℕ → List (ℕ × Mode) → Result (Unit {0})
check_new_deps db job_id [] = ok tt
check_new_deps db job_id ((dep_id, mode) ∷ rest) =
    let later = check_new_deps db job_id rest in
    if not (known_mode mode)
    then raise bad_mode
    else if dep_id == job_id
    then raise self_dependency
    else if not (is_some (get_job db dep_id))
    then raise (no_such_dependency dep_id)
    else later

abbrev pub deps_or_nil : Option (List (ℕ × Mode)) → List (ℕ × Mode)
deps_or_nil none = []
deps_or_nil (some deps) = deps

abbrev move_to : ℕ → ℕ → Option ℕ → ℕ → Exec (Unit {0})
move_to now job_id none old_channel = pure tt
move_to now job_id (some channel) old_channel = if channel == old_channel then pure tt else (do
  update (register_channel now channel)
  db ← get_tables
  update (
      update_job
        (λ j. record j { channel = channel; position = some (next_position db channel false) })
        job_id))

abbrev replace_deps : ℕ → Option (List (ℕ × Mode)) → Exec (Unit {0})
replace_deps job_id none = pure tt
replace_deps job_id (some deps) = do
  update (λ t. record t { job_deps = select (λ d. not (d.job_id == job_id)) t.job_deps })
  insert_deps job_id deps

abbrev channel_or : Option ℕ → ℕ → ℕ
channel_or none old_channel = old_channel
channel_or (some channel) old_channel = channel

abbrev check_place : ℕ → ℕ → List (ℕ × Mode) → Option ℤ → Exec (Unit {0})
check_place job_id channel deps none = throw type_error
check_place job_id channel deps (some position) = do
  db ← get_tables
  lift (check_behind db channel false position deps)
  refuse_deadlock true job_id

abbrev pub or_missing_row : ℕ → Option Job → Result Job
or_missing_row job_id none = raise type_error
or_missing_row job_id (some j) = ok j

module _ (python : Python) where
  -- The body of the `try`.
  unfoldable pub write_edit :
      ℕ → ℕ → ℕ → List Update → Option (List (ℕ × Mode)) → Option ℕ → Exec (Unit {0})
  write_edit now job_id old_channel updates deps channel = do
    update (set_columns python job_id updates)
    move_to now job_id channel old_channel
    replace_deps job_id deps
    db ← get_tables
    (if not (is_nil (deps_or_nil deps)) || is_some channel
        then check_place job_id (channel_or channel old_channel) (deps_or_nil deps)
            (target_position db job_id)
        else pure tt)
    update (unlock job_id)

  unfoldable pub edit_job :
      World → ℕ → List Update → Option (List (ℕ × Mode)) → Option ℕ → Option ℕ → Exec Job
  edit_job w job_id updates deps channel holder_pid = do
    guard (all_updates is_editable updates) cannot_edit
    db ← get_tables
    job ← lift (editable_job db job_id)
    held ← live_edit_lock w job_id
    lift (check_holder job_id holder_pid held)
    guard (all_updates good_on_fail updates) bad_on_fail
    check_each (check_finish python) updates
    check_each (check_error python) updates
    check_each (check_signal python) updates
    check_each (check_grace python) updates
    lift (check_new_deps db job_id (deps_or_nil deps))
    try_rollback (write_edit w.now job_id job.channel updates deps channel)
    commit
    db' ← get_tables
    lift (or_missing_row job_id (get_job db' job_id))
