-- ===== src/Commands/Cancel.antt =====
-- `_cmd_cancel` (src/queuer/daemon.py): the running job of a channel, or a job wherever it is.
use custom_queuer.Prelude.{
  Bool, Option, [], codes, false, if◌then◌else◌, none, not, some, ℕ, ℤ, ◌==◌, ◌∷◌,
}
use custom_queuer.Tables.{
  Db, Exec, Job, Result, Status, Text, cancelled, does_not_exist, done, failed, get_job, get_tables,
  guard, id_arg, interrupted, job_already_ended, job_not_frozen, job_not_running, job_starting,
  lift, nothing_running, ok, pure, queued, raise, running, skipped, stopped, throw, wrong_channel,
  ◌>>=◌, ◌>>◌,
}
use custom_queuer.Checks.{Python, check_stop_grace, check_stop_signal}
use custom_queuer.Lifecycle.{cancel_queued}
use custom_queuer.Daemon.{Config, settle_dependants}
use custom_queuer.Lane.{Lane, cancel_frozen, cancel_job}
use custom_queuer.Args.{Json, channel_arg_of, int_arg, job_id_of}
use custom_queuer.Commands.Plan.{value_of}

-- _stop_settings: the signal and the seconds of grace; DEFAULT_GRACE_SECS is 5.
abbrev or_text : Option Text → Option Text → Option Text
or_text none b = b
or_text (some []) b = b
or_text (some (c ∷ s)) b = some (c ∷ s)

abbrev or_secs : Option ℕ → Option ℕ → Option ℕ
or_secs none b = b
or_secs (some a) b = some a

abbrev own_signal : Option Job → Option Text
own_signal none = none
own_signal (some j) = j.settings.stop_signal

abbrev own_grace : Option Job → Option ℕ
own_grace none = none
own_grace (some j) = j.settings.stop_grace_secs

abbrev default_text : Text → Option Text → Text
default_text d none = d
default_text d (some s) = s

abbrev default_secs : ℕ → Option ℕ → ℕ
default_secs d none = d
default_secs d (some n) = n

unfoldable pub stop_settings : Option Job → Option Text → Option ℕ → Text × ℕ
stop_settings job sig grace = (
  default_text (codes "SIGTERM") (or_text sig (or_text (own_signal job) none)),
  default_secs 5 (or_secs grace (own_grace job)),
)

-- What `_kill_process_group` is asked to end.
pub record Kill : Type 0 where
  pub proc : ℕ
  pub stop_signal : Text
  pub grace_secs : ℕ

-- `killed` is none for a job that had not started.
pub record Cancelled : Type 0 where
  pub job_id : ℕ
  pub channel : ℕ
  pub killed : Option Kill
  pub lane : Lane

abbrev kill_of : ℕ → Text × ℕ → Kill
kill_of proc (sig, grace) = record { proc = proc; stop_signal = sig; grace_secs = grace }

-- _cancel_running
unfoldable pub cancel_running : Db → ℕ → ℕ → ℕ → Lane → Option Text → Option ℕ → Cancelled
unfolding stop_settings
cancel_running db channel job_id proc lane sig grace = record {
  job_id = job_id;
  channel = channel;
  killed = some (kill_of proc (stop_settings (get_job db job_id) sig grace));
  lane = lane;
}

abbrev pub is_in : Option ℕ → ℕ → Bool
is_in none job_id = false
is_in (some k) job_id = k == job_id

abbrev pub cancel_current :
    Db → ℕ → Lane → Option ℕ → Option ℕ → Option Text → Option ℕ → Result Cancelled
cancel_current db channel lane (some job_id) (some proc) sig grace =
    ok (cancel_running db channel job_id proc (cancel_job job_id lane) sig grace)
cancel_current db channel lane (some job_id) none sig grace = raise (nothing_running channel)
cancel_current db channel lane none proc sig grace = raise (nothing_running channel)

abbrev pub cancel_foreground :
    Db → Job → Lane → Option ℕ → Option Text → Option ℕ → Result Cancelled
cancel_foreground db j lane none sig grace = raise (job_not_running j.id)
cancel_foreground db j lane (some proc) sig grace =
    if not (is_in lane.current_job j.id)
    then raise (job_not_running j.id)
    else ok (cancel_running db j.channel j.id proc (cancel_job j.id lane) sig grace)

-- SIGCONT first: a stopped group acts on no other signal.
abbrev pub cancel_stopped :
    Db → Job → Lane → Option (ℕ × ℕ) → Option Text → Option ℕ → Result Cancelled
cancel_stopped db j lane none sig grace = raise (job_not_frozen j.id)
cancel_stopped db j lane (some (job_id, proc)) sig grace =
    if not (job_id == j.id)
    then raise (job_not_frozen j.id)
    else ok (cancel_running db j.channel j.id proc (cancel_frozen j.id proc lane) sig grace)

module _ (config : Config) (now : ℕ) (job_starting_now : ℕ → Bool) where
  abbrev cancel_waiting : Job → Lane → Exec Cancelled
  cancel_waiting j lane = do
    guard (not (job_starting_now j.id)) (job_starting j.id)
    cancel_queued now j.id config.keep
    _ ← settle_dependants config now j.id
    pure (record { job_id = j.id; channel = j.channel; killed = none; lane = lane })

  abbrev pub cancel_by_status : Db → Job → Lane → Option Text → Option ℕ → Status → Exec Cancelled
  cancel_by_status db j lane sig grace queued = cancel_waiting j lane
  cancel_by_status db j lane sig grace running =
      lift (cancel_foreground db j lane lane.current_proc sig grace)
  cancel_by_status db j lane sig grace stopped =
      lift (cancel_stopped db j lane lane.frozen sig grace)
  cancel_by_status db j lane sig grace done = throw (job_already_ended j.id)
  cancel_by_status db j lane sig grace failed = throw (job_already_ended j.id)
  cancel_by_status db j lane sig grace cancelled = throw (job_already_ended j.id)
  cancel_by_status db j lane sig grace interrupted = throw (job_already_ended j.id)
  cancel_by_status db j lane sig grace skipped = throw (job_already_ended j.id)

  abbrev pub other_channel : Option ℕ → ℕ → Bool
  other_channel none channel = false
  other_channel (some c) channel = not (c == channel)

  abbrev pub cancel_row :
      Db → (ℕ → Lane) → Option ℕ → Option Text → Option ℕ → ℕ → Option Job → Exec Cancelled
  cancel_row db lanes channel sig grace job_id none = throw (does_not_exist job_id)
  cancel_row db lanes channel sig grace job_id (some j) =
      if other_channel channel j.channel
      then throw (wrong_channel j.id)
      else cancel_by_status db j (lanes j.channel) sig grace j.status

  abbrev pub default_channel : Option ℕ → ℕ
  default_channel none = 1
  default_channel (some c) = c

  abbrev pub cancel_target :
      Db → (ℕ → Lane) → Option ℤ → Option ℕ → Option Text → Option ℕ → Exec Cancelled
  cancel_target db lanes none channel sig grace =
      let lane = lanes (default_channel channel) in
      lift (
        cancel_current db (default_channel channel) lane lane.current_job lane.current_proc sig
          grace)
  cancel_target db lanes (some n) channel sig grace =
      cancel_row db lanes channel sig grace (job_id_of (some n)) (get_job db (job_id_of (some n)))

  unfoldable pub cmd_cancel :
      Python → (ℕ → Lane) → (id channel signal grace : Json) → Exec Cancelled
  unfolding channel_arg_of int_arg cancel_running cancel_job cancel_frozen cancel_queued
      settle_dependants get_job
  cmd_cancel python lanes id channel signal grace = do
    db ← get_tables
    job_id ← lift (int_arg id_arg false false id)
    in_channel ← lift (channel_arg_of channel)
    sig ← lift (check_stop_signal python (value_of signal))
    secs ← lift (check_stop_grace python (value_of grace))
    cancel_target db lanes job_id in_channel sig secs
