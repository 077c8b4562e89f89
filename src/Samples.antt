-- ===== src/Samples.antt =====
-- Small inputs, and what the definitions do on them.
pub mod Examples
pub mod Tests
pub mod Handlers
pub mod Tasks
pub mod Buttons
use custom_queuer.Prelude.{
  List, Option, [], false, is_nil, leb, none, not, pos, some, true, ℕ, ℤ, ◌==◌, ◌∷◌,
}
use custom_queuer.Tables.{
  Conn, Db, Dep, Job, Lock, Settings, Source, Status, continue, done, failed, queued, running,
  success,
}
use custom_queuer.LogClean.{LogFile}
use custom_queuer.Checks.{Python, none_value}
use custom_queuer.Request.{Request}
use custom_queuer.Enqueue.{no_outcome}
use custom_queuer.EditLock.{World}
use custom_queuer.Worker.{Slot}
use custom_queuer.Daemon.{Config}
use custom_queuer.EditJob.{
  cwd, env_extra, max_retries, not_before, on_error_cmd, on_fail, on_finish_cmd, raw_cmd,
  resolved_cmd, retry_backoff, retry_delay_secs, stop_grace_secs, stop_signal, timeout_secs,
}

abbrev pub settings : Settings
settings = record {
  raw_cmd = (b'l' ∷ b's' ∷ []) ∷ [];
  resolved_cmd = (b'l' ∷ b's' ∷ []) ∷ [];
  cwd = b'/' ∷ [];
  env_extra = none;
  timeout_secs = none;
  max_retries = 2;
  not_before = none;
  on_fail = continue;
  retry_delay_secs = some 60;
  retry_backoff = true;
  on_finish_cmd = none;
  on_error_cmd = none;
  stop_signal = none;
  stop_grace_secs = none;
}

abbrev pub source : Source
source = record {
  log_path = b'l' ∷ [];
  attempt = 1;
  parent_id = none;
  origin = none;
  run_key = none;
  job_dir = none;
  submitted_from = none;
}

abbrev pub row : ℕ → Status → Option ℤ → Job
row id status position = record {
  id = id;
  channel = 1;
  is_priority = false;
  status = status;
  position = position;
  enqueued_at = 0;
  settings = settings;
  source = source;
  outcome = no_outcome;
}

abbrev pub dep : ℕ → ℕ → Dep
dep job_id dep_id = record { job_id = job_id; dep_id = dep_id; mode = success }

-- Two queued jobs with no free position between them, a running job, and two finished ones. Job 2
-- depends on job 4, which is done.
abbrev pub db : Db
db = record {
  jobs =
      row 1 queued (some (pos 0))
      ∷ row 2 queued (some (pos 1))
      ∷ row 3 running none
      ∷ row 4 done none
      ∷ row 5 failed none
      ∷ [];
  last_id = 5;
  job_deps = dep 2 4 ∷ [];
  channels = record { id = 1; first_seen_at = 0 } ∷ [];
  edit_locks = [];
  paused = [];
}

abbrev pub conn : Conn
conn = record { tables = db; committed = db }

-- A model of the functions of Python on ASCII text that these inputs need.
abbrev pub python : Python
python = record {
  strip = λ text. text;
  upper = λ text. text;
  is_digit = λ text. false;
  int_of = λ text. none;
  is_space = λ c. c == 32;
  is_printable = λ c. leb 32 c;
  is_abs = λ text. not (is_nil text);
  str_of_int = λ n. [];
  signal_name = λ n. none;
}

abbrev pub request : Request
request = record {
  raw_cmd = settings.raw_cmd;
  resolved_cmd = settings.resolved_cmd;
  cwd = settings.cwd;
  log_path = source.log_path;
  channel = 1;
  env_extra = none;
  timeout_secs = none;
  before = none;
  after = some 1;
  is_priority = false;
  max_retries = 0;
  attempt = 0;
  parent_id = none;
  origin = none;
  deps = (5, success) ∷ [];
  not_before = none;
  on_fail = continue;
  retry_delay_secs = none;
  retry_backoff = false;
  on_finish_cmd = none_value;
  on_error_cmd = none_value;
  stop_signal = none_value;
  stop_grace_secs = none_value;
  run_key = none_value;
  job_dir = none_value;
  submitted_from = none_value;
  do_commit = true;
  check_deadlock = true;
}

-- A request that depends on a job queued behind it.
abbrev pub blocked_request : Request
blocked_request = record request { deps = (2, success) ∷ [] }

-- Jobs 1 and 2, where job 1 depends on job 2 behind it.
abbrev pub stuck_db : Db
stuck_db = record db { job_deps = dep 1 2 ∷ [] }

abbrev pub world : World
world = record { now = 100; pid_alive = λ pid. pid == 42 }

abbrev pub slot : Slot
slot = record { current_job_id = none; priority_task = false; stopping = false }

abbrev pub lock : Lock
lock = record { job_id = 1; holder_pid = 42; taken_at = 90; expires_at = 200 }

abbrev pub locked_db : Db
locked_db = record db { edit_locks = lock ∷ [] }

abbrev pub locked_conn : Conn
locked_conn = record { tables = locked_db; committed = locked_db }

abbrev pub append_request : Request
append_request = record request { after = none; deps = [] }

abbrev pub config : Config
config = record { keep = 200; log_path_of = λ id. id ∷ []; pending = b'p' ∷ [] }

-- The log of a queued job, that of job 9 which is gone, and a file that is no job's.
abbrev pub log_files : List LogFile
log_files =
    record { path = b'1' ∷ []; stem = some (pos 1); stat = some (30, 1) }
    ∷ record { path = b'9' ∷ []; stem = some (pos 9); stat = some (20, 2) }
    ∷ record { path = b'x' ∷ []; stem = none; stat = some (5, 2) }
    ∷ []
