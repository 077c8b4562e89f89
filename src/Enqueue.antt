-- ===== src/Enqueue.antt =====
-- `enqueue` of src/queuer/db.py: its checks, and its transaction, which is rolled back when
-- anything in it raises.
pub mod Atomic
pub mod Appended
use custom_queuer.Prelude.{
  Bool, List, Option, [], exists, false, if◌then◌else◌, is_nil, is_some, map, none, not, some, suc,
  true, ℕ, ℤ, ◌&&◌, ◌++◌, ◌==◌, ◌||◌, ◌∷◌,
}
use custom_queuer.Tables.{
  Db, Exec, Job, Mode, Outcome, Result, Text, commit, deadlock, get_tables, guard, in_lane,
  integrity_error, key_error, lift, not_queued_here, ok, out_of_fuel, pure, queued, queued_behind,
  raise, register_channel, text_eq, throw, try_rollback, update, ◌>>=◌, ◌>>◌,
}
use custom_queuer.Checks.{Python}
use custom_queuer.Request.{Checked, Request, check_request}
use custom_queuer.Queue.{is_queued_behind, next_position, position_beside}
use custom_queuer.Deadlock.{Answer, find_deadlock, loop, no_fuel, no_loop, no_parent}

-- `before`, or else `after`.
abbrev pub target_of : Option ℕ → Option ℕ → Option ℕ
target_of none after = after
target_of (some before) after = some before

-- A target must be queued in the lane that the new job joins.
unfoldable pub is_queued_in : Db → ℕ → ℕ → Bool → Bool
unfolding exists
is_queued_in db target channel is_priority =
    exists (λ j. j.id == target && in_lane channel is_priority j) db.jobs

abbrev pub place_at : Option ℕ → Bool → ℕ → Bool → Exec ℤ
place_at none after channel is_priority = do
  db ← get_tables
  pure (next_position db channel is_priority)
place_at (some target) after channel is_priority = do
  db ← get_tables
  guard (is_queued_in db target channel is_priority) (not_queued_here target)
  position_beside target channel is_priority after none

unfoldable pub place : Request → Exec ℤ
place r = place_at (target_of r.before r.after) (not (is_some r.before)) r.channel r.is_priority

-- `json.dumps(env_extra) if env_extra else None`
abbrev stored_env : Option (List (Text × Text)) → Option (List (Text × Text))
stored_env none = none
stored_env (some []) = none
stored_env (some (kv ∷ env)) = some (kv ∷ env)

abbrev pub no_outcome : Outcome
no_outcome = record {
  pid = none;
  pgid = none;
  started_at = none;
  finished_at = none;
  exit_code = none;
  note = none;
  max_rss_kb = none;
  cpu_user_secs = none;
  cpu_sys_secs = none;
}

unfoldable pub new_row : ℕ → Request → Checked → ℤ → ℕ → Job
new_row now r checked position id = record {
  id = id;
  channel = r.channel;
  is_priority = r.is_priority;
  status = queued;
  position = some position;
  enqueued_at = now;
  settings = record {
    raw_cmd = r.raw_cmd;
    resolved_cmd = r.resolved_cmd;
    cwd = r.cwd;
    env_extra = stored_env r.env_extra;
    timeout_secs = r.timeout_secs;
    max_retries = r.max_retries;
    not_before = r.not_before;
    on_fail = r.on_fail;
    retry_delay_secs = checked.retry_delay_secs;
    retry_backoff = r.retry_backoff;
    on_finish_cmd = checked.on_finish_cmd;
    on_error_cmd = checked.on_error_cmd;
    stop_signal = checked.stop_signal;
    stop_grace_secs = checked.stop_grace_secs;
  };
  source = record {
    log_path = r.log_path;
    attempt = r.attempt;
    parent_id = r.parent_id;
    origin = r.origin;
    run_key = checked.run_key;
    job_dir = checked.job_dir;
    submitted_from = checked.submitted_from;
  };
  outcome = no_outcome;
}

-- The unique index on run_key: NULLs are distinct.
abbrev same_key : Option Text → Option Text → Bool
same_key none k = false
same_key (some a) none = false
same_key (some a) (some b) = text_eq a b

unfoldable pub run_key_taken : Db → Option Text → Bool
unfolding exists text_eq
run_key_taken db run_key = exists (λ j. same_key run_key j.source.run_key) db.jobs

abbrev pub add_row : Job → Db → Db
add_row j db = record db { jobs = db.jobs ++ j ∷ []; last_id = j.id }

-- INSERT INTO jobs: AUTOINCREMENT gives the id after the highest ever given.
unfoldable pub insert_job : ℕ → Request → Checked → ℤ → Exec ℕ
insert_job now r checked position = do
  db ← get_tables
  guard (not (run_key_taken db checked.run_key)) integrity_error
  update (add_row (new_row now r checked position (suc db.last_id)))
  pure (suc db.last_id)

-- `for dep_id in deps: if _is_queued_behind(...): raise`
unfoldable pub check_behind : Db → ℕ → Bool → ℤ → List (ℕ × Mode) → Result (Unit {0})
unfolding is_queued_behind
check_behind db channel is_priority position [] = ok tt
check_behind db channel is_priority position ((dep_id, mode) ∷ rest) =
    let later = check_behind db channel is_priority position rest in
    if is_queued_behind db dep_id channel is_priority position
    then raise (queued_behind dep_id)
    else later

-- The primary key of job_deps is the pair of ids.
unfoldable pub insert_deps : ℕ → List (ℕ × Mode) → Exec (Unit {0})
unfolding exists
insert_deps job_id [] = pure tt
insert_deps job_id ((dep_id, mode) ∷ rest) = do
  db ← get_tables
  guard (not (exists (λ d. d.job_id == job_id && d.dep_id == dep_id) db.job_deps)) integrity_error
  update (λ t. record t {
    job_deps = t.job_deps ++ record { job_id = job_id; dep_id = dep_id; mode = mode } ∷ [];
  })
  insert_deps job_id rest

-- `if loop: raise ValueError("this would deadlock: ...")`
abbrev pub refuse_loop : Answer → Exec (Unit {0})
refuse_loop no_loop = pure tt
refuse_loop no_fuel = throw out_of_fuel
refuse_loop no_parent = throw key_error
refuse_loop (loop l) = throw (deadlock (map (λ x. x.0) l))

abbrev pub refuse_deadlock : Bool → ℕ → Exec (Unit {0})
refuse_deadlock false job_id = pure tt
refuse_deadlock true job_id = do db ← get_tables; refuse_loop (find_deadlock db job_id)

-- What follows the INSERT of the row.
unfoldable pub finish_insert : Request → ℤ → ℕ → Exec ℕ
finish_insert r position new_id = do
  db ← get_tables
  lift (check_behind db r.channel r.is_priority position r.deps)
  insert_deps new_id r.deps
  refuse_deadlock (r.check_deadlock && (not (is_nil r.deps) || is_some r.before || is_some r.after))
      new_id
  pure new_id

-- The body of the `try`.
unfoldable pub insert_request : ℕ → Request → Checked → Exec ℕ
insert_request now r checked = do
  update (register_channel now r.channel)
  position ← place r
  new_id ← insert_job now r checked position
  finish_insert r position new_id

abbrev pub commit_if : Bool → Exec (Unit {0})
commit_if true = commit
commit_if false = pure tt

module _ (python : Python) where
  unfoldable pub enqueue : ℕ → Request → Exec ℕ
  enqueue now r = do
    db ← get_tables
    checked ← lift (check_request python db r)
    new_id ← try_rollback (insert_request now r checked)
    commit_if r.do_commit
    pure new_id
