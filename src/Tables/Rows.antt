-- ===== src/Tables/Rows.antt =====
-- The rows of the tables of src/queuer/db.py. A row holds the value that its JSON columns stand
-- for. Times are numbers in the order of the ISO strings (UTC) that the program stores.
use custom_queuer.Prelude.{Bool, List, Option, [], false, true, ℕ, ℤ, ◌&&◌, ◌==◌, ◌∷◌}

-- A Python string: its code points.
abbrev pub Text : Type 0
Text = List ℕ

unfoldable pub text_eq : Text → Text → Bool
text_eq [] [] = true
text_eq (a ∷ s) (b ∷ t) = a == b && text_eq s t
text_eq _ _ = false

pub data Status : Type 0 where
  queued running stopped done failed cancelled interrupted skipped : Status

-- TERMINAL_STATUSES
abbrev pub is_terminal : Status → Bool
is_terminal queued = false
is_terminal running = false
is_terminal stopped = false
is_terminal _ = true

abbrev pub is_queued : Status → Bool
is_queued queued = true
is_queued _ = false

abbrev pub is_running : Status → Bool
is_running running = true
is_running _ = false

abbrev pub is_stopped : Status → Bool
is_stopped stopped = true
is_stopped _ = false

abbrev pub is_done : Status → Bool
is_done done = true
is_done _ = false

-- DEP_MODES; any other string is `other_mode`.
pub data Mode : Type 0 where
  success any : Mode
  other_mode : Text → Mode

abbrev pub is_success : Mode → Bool
is_success success = true
is_success _ = false

-- ON_FAIL_MODES; any other string is `other_on_fail`.
pub data OnFail : Type 0 where
  continue pause : OnFail
  other_on_fail : Text → OnFail

pub data Origin : Type 0 where
  retry requeue rerun : Origin

-- The columns that describe what to run, set by `enqueue` and `edit_job` only.
pub record Settings : Type 0 where
  pub raw_cmd : List Text
  pub resolved_cmd : List Text
  pub cwd : Text
  pub env_extra : Option (List (Text × Text))
  pub timeout_secs : Option ℕ
  pub max_retries : ℕ
  pub not_before : Option ℕ
  pub on_fail : OnFail
  pub retry_delay_secs : Option ℕ
  pub retry_backoff : Bool
  pub on_finish_cmd : Option Text
  pub on_error_cmd : Option Text
  pub stop_signal : Option Text
  pub stop_grace_secs : Option ℕ

-- Where a job came from, set by `enqueue` only.
pub record Source : Type 0 where
  pub log_path : Text
  pub attempt : ℕ
  pub parent_id : Option ℕ
  pub origin : Option Origin
  pub run_key : Option Text
  pub job_dir : Option Text
  pub submitted_from : Option Text

-- The notes that the program writes.
pub data Note : Type 0 where
  cancelled_while_queued stop_note : Note
  auto_retry : (attempt max_retries new_id : ℕ) → Note
  auto_retry_after : Note → (attempt max_retries new_id : ℕ) → Note
  dependency_failed dependency_removed : ℕ → Note
  other_note : Text → Note

-- What a run leaves in the row.
pub record Outcome : Type 0 where
  pub pid : Option ℕ
  pub pgid : Option ℕ
  pub started_at : Option ℕ
  pub finished_at : Option ℕ
  pub exit_code : Option ℤ
  pub note : Option Note
  pub max_rss_kb : Option ℕ
  pub cpu_user_secs : Option ℕ
  pub cpu_sys_secs : Option ℕ

pub record Job : Type 0 where
  pub id : ℕ
  pub channel : ℕ
  pub is_priority : Bool
  pub status : Status
  pub position : Option ℤ
  pub enqueued_at : ℕ
  pub settings : Settings
  pub source : Source
  pub outcome : Outcome

pub record Dep : Type 0 where
  pub job_id : ℕ
  pub dep_id : ℕ
  pub mode : Mode

pub record Lock : Type 0 where
  pub job_id : ℕ
  pub holder_pid : ℕ
  pub taken_at : ℕ
  pub expires_at : ℕ

pub record ChannelRow : Type 0 where
  pub id : ℕ
  pub first_seen_at : ℕ

-- `jobs` is in the order of the ids, the order in which SQLite's rowid table holds them.
-- `last_id` is the AUTOINCREMENT counter, and `paused` the `paused:N` keys of daemon_state.
pub record Db : Type 0 where
  pub jobs : List Job
  pub last_id : ℕ
  pub job_deps : List Dep
  pub channels : List ChannelRow
  pub edit_locks : List Lock
  pub paused : List (ℕ × Bool)
