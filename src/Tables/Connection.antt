-- ===== src/Tables/Connection.antt =====
-- A function of src/queuer/db.py: it reads and writes the tables, and may raise. What was written
-- before a raise stays in the open transaction, so the connection comes back beside the error too.
use custom_queuer.Prelude.{Bool, List, false, true, ℕ}
use custom_queuer.Tables.Rows.{Db, Text}

-- `tables` is what this connection sees, and `committed` what a rollback goes back to.
pub record Conn : Type 0 where
  pub tables : Db
  pub committed : Db

-- The names of the arguments of a request (src/queuer/daemon.py) that an error message can name.
pub data ArgName : Type 0 where
  id_arg channel_arg pid_arg limit_arg ids_arg timeout_arg retries_arg : ArgName
  argv_arg raw_argv_arg cwd_arg : ArgName
  jobs_arg array_arg index_arg before_arg after_arg rerun_of_arg on_fail_arg not_before_arg :
      ArgName
  retry_delay_arg retry_backoff_arg dry_run_arg path_arg env_arg depends_on_arg after_any_arg :
      ArgName
  clear_deps_arg run_key_arg now_arg statuses_arg since_arg grep_arg : ArgName

-- The ValueErrors, by their messages, and the other exceptions that the statements can raise.
pub data Error : Type 0 where
  not_queued not_running not_stopped does_not_exist not_terminal : ℕ → Error
  invalid_status bad_limit : Error
  no_free_position type_error integrity_error : Error
  both_before_and_after bad_on_fail bad_retry_delay backoff_needs_delay : Error
  bad_hook bad_stop_signal bad_stop_grace bad_run_key bad_job_dir bad_label : Error
  now_with_deps bad_mode self_dependency : Error
  no_such_dependency not_queued_here queued_behind : ℕ → Error
  deadlock : List ℕ → Error
  has_dependants : List ℕ → Error
  not_editable priority_not_editable being_edited lock_lost lock_failed : ℕ → Error
  reorder_self key_error cannot_edit : Error
  -- of the daemon's request handlers
  bad_arg missing_arg out_of_range too_many : ArgName → Error
  cannot_combine : ArgName → ArgName → Error
  nul_byte no_such_directory not_executable empty_command : Error
  bad_env_name reserved_env_name : Text → Error
  env_not_set : Text → Error
  job_starting job_not_running job_not_frozen job_already_ended wrong_channel : ℕ → Error
  nothing_running : ℕ → Error
  nothing_to_change cwd_needs_command : Error
  -- the model's own: a loop that ran out of the rounds that it was given
  out_of_fuel : Error

pub data Result {ℓ} (A : Type ℓ) : Type ℓ where
  ok : A → Result A
  raise : Error → Result A

abbrev pub Exec : Type 0 → Type 0
Exec A = Conn → Result A × Conn

abbrev pub bind_result : {A B : Type 0} → Result A → (A → Exec B) → Exec B
bind_result (ok a) f c = f a c
bind_result (raise e) f c = (raise e, c)

infixl 5 ◌>>=◌ ◌>>◌
abbrev pub ◌>>=◌ : {A B : Type 0} → Exec A → (A → Exec B) → Exec B
◌>>=◌ m f c = let (r, c') = m c in bind_result r f c'

abbrev pub ◌>>◌ : {A B : Type 0} → Exec A → Exec B → Exec B
m >> n = m >>= λ _. n

abbrev pub pure : {A : Type 0} → A → Exec A
pure a c = (ok a, c)

abbrev pub throw : {A : Type 0} → Error → Exec A
throw e c = (raise e, c)

abbrev pub lift : {A : Type 0} → Result A → Exec A
lift r c = (r, c)

abbrev pub get_tables : Exec Db
get_tables c = (ok c.tables, c)

abbrev pub guard : Bool → Error → Exec (Unit {0})
guard true e = pure tt
guard false e = throw e

-- An INSERT, UPDATE or DELETE, inside the open transaction.
abbrev pub update : (Db → Db) → Exec (Unit {0})
update f c = (ok tt, record c { tables = f c.tables })

-- conn.commit()
abbrev pub commit : Exec (Unit {0})
commit c = (ok tt, record c { committed = c.tables })

-- `try: body` with `except BaseException: conn.rollback(); raise`.
abbrev pub rollback_on_error : {A : Type 0} → Result A × Conn → Result A × Conn
rollback_on_error (ok a, c) = (ok a, c)
rollback_on_error (raise e, c) = (raise e, record c { tables = c.committed })

abbrev pub try_rollback : {A : Type 0} → Exec A → Exec A
try_rollback body c = rollback_on_error (body c)
