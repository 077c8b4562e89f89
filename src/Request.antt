-- ===== src/Request.antt =====
-- The arguments of `enqueue` (src/queuer/db.py), and its checks of them before the transaction.
use custom_queuer.Prelude.{
  Bool, List, Option, [], false, if◌then◌else◌, is_nil, is_some, not, true, ℕ, ℤ, ◌&&◌, ◌||◌, ◌∷◌,
}
use custom_queuer.Tables.{
  Db, Error, Mode, OnFail, Origin, Result, Text, backoff_needs_delay, bad_mode, bad_on_fail,
  both_before_and_after, get_job, no_such_dependency, now_with_deps, ok, other_mode, other_on_fail,
  raise,
}
use custom_queuer.Checks.{
  Python, Value, check_hook, check_job_dir, check_label, check_retry_delay, check_run_key,
  check_stop_grace, check_stop_signal,
}

-- The keyword arguments. `deps` holds the items of the dictionary, in its order.
pub record Request : Type 0 where
  pub raw_cmd : List Text
  pub resolved_cmd : List Text
  pub cwd : Text
  pub log_path : Text
  pub channel : ℕ
  pub env_extra : Option (List (Text × Text))
  pub timeout_secs : Option ℕ
  pub before : Option ℕ
  pub after : Option ℕ
  pub is_priority : Bool
  pub max_retries : ℕ
  pub attempt : ℕ
  pub parent_id : Option ℕ
  pub origin : Option Origin
  pub deps : List (ℕ × Mode)
  pub not_before : Option ℕ
  pub on_fail : OnFail
  pub retry_delay_secs : Option ℤ
  pub retry_backoff : Bool
  pub on_finish_cmd : Value
  pub on_error_cmd : Value
  pub stop_signal : Value
  pub stop_grace_secs : Value
  pub run_key : Value
  pub job_dir : Value
  pub submitted_from : Value
  pub do_commit : Bool
  pub check_deadlock : Bool

abbrev pub known_on_fail : OnFail → Bool
known_on_fail (other_on_fail _) = false
known_on_fail _ = true

abbrev pub known_mode : Mode → Bool
known_mode (other_mode _) = false
known_mode _ = true

-- The loop over `deps.items()`.
unfoldable pub check_deps : Db → List (ℕ × Mode) → Result (Unit {0})
unfolding get_job
check_deps db [] = ok tt
check_deps db ((dep_id, mode) ∷ rest) =
    let later = check_deps db rest in
    if not (known_mode mode)
    then raise bad_mode
    else if not (is_some (get_job db dep_id))
    then raise (no_such_dependency dep_id)
    else later

-- The arguments that the checks return in the form that is stored.
pub record Checked : Type 0 where
  pub retry_delay_secs : Option ℕ
  pub on_finish_cmd : Option Text
  pub on_error_cmd : Option Text
  pub stop_signal : Option Text
  pub stop_grace_secs : Option ℕ
  pub run_key : Option Text
  pub job_dir : Option Text
  pub submitted_from : Option Text

-- These checks read the tables and write nothing: they return or raise.
infixl 5 ◌>>=◌ ◌>>◌
abbrev ◌>>=◌ : {A B : Type 0} → Result A → (A → Result B) → Result B
ok a >>= f = f a
raise e >>= f = raise e

abbrev ◌>>◌ : {A B : Type 0} → Result A → Result B → Result B
m >> n = m >>= λ _. n

abbrev guard : Bool → Error → Result (Unit {0})
guard true e = ok tt
guard false e = raise e

module _ (python : Python) where
  -- What stands before the `try`.
  unfoldable pub check_request : Db → Request → Result Checked
  unfolding check_retry_delay check_hook check_stop_signal check_stop_grace check_run_key
      check_job_dir check_label check_deps
  check_request db r = do
    guard (not (is_some r.before && is_some r.after)) both_before_and_after
    guard (known_on_fail r.on_fail) bad_on_fail
    retry_delay_secs ← (check_retry_delay r.retry_delay_secs)
    guard (not (r.retry_backoff && not (is_some retry_delay_secs))) backoff_needs_delay
    on_finish_cmd ← (check_hook python r.on_finish_cmd)
    on_error_cmd ← (check_hook python r.on_error_cmd)
    stop_signal ← (check_stop_signal python r.stop_signal)
    stop_grace_secs ← (check_stop_grace python r.stop_grace_secs)
    run_key ← (check_run_key python r.run_key)
    job_dir ← (check_job_dir python r.job_dir)
    submitted_from ← (check_label python r.submitted_from)
    guard (not (r.is_priority && (not (is_nil r.deps) || is_some r.not_before))) now_with_deps
    check_deps db r.deps
    ok (record {
      retry_delay_secs = retry_delay_secs;
      on_finish_cmd = on_finish_cmd;
      on_error_cmd = on_error_cmd;
      stop_signal = stop_signal;
      stop_grace_secs = stop_grace_secs;
      run_key = run_key;
      job_dir = job_dir;
      submitted_from = submitted_from;
    })
