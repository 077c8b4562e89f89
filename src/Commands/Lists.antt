-- ===== src/Commands/Lists.antt =====
-- The handlers of src/queuer/daemon.py that show jobs: `_cmd_list`, `_cmd_show`, `_cmd_history`,
-- `_cmd_export`. Looking at a lock may delete it, so showing a queued job may write.
use custom_queuer.Prelude.{
  Bool, List, Option, [], codes, false, if◌then◌else◌, ltb, map, none, some, true, ℕ, ◌==◌, ◌∷◌,
}
use custom_queuer.Tables.{
  Db, Exec, Job, Lock, Result, Text, bad_arg, cancelled, does_not_exist, done, failed, get_job,
  get_tables, grep_arg, interrupted, is_queued, key_error, lift, limit_arg, ok, out_of_range, pure,
  queued, raise, running, since_arg, skipped, statuses_arg, stopped, text_eq, throw, ◌>>=◌,
}
use custom_queuer.Checks.{none_value, str_value}
use custom_queuer.Queue.{get_queue}
use custom_queuer.Backlog.{get_backlog}
use custom_queuer.Lifecycle.{get_paused, get_running, get_stopped}
use custom_queuer.Deps.{DepInfo, dep_info}
use custom_queuer.History.{
  StatusName, dep_info_bulk, get_export, get_history, jobs_sharing_dir, known_status,
  unknown_status,
}
use custom_queuer.EditLock.{World, live_edit_lock}
use custom_queuer.Daemon.{list_channels}
use custom_queuer.Args.{
  IsoTime, Json, channel_arg_of, id_argument, int_arg, is_null, iso_time, no_offset, not_iso,
  positive_int, scalar, text_list, text_of,
}

-- A job with its dependencies, and the lock of whoever edits it.
pub record Shown : Type 0 where
  pub job : Job
  pub deps : DepInfo
  pub editing : Option Lock

-- _with_deps
unfoldable pub with_deps : World → Job → DepInfo → Exec Shown
unfolding live_edit_lock
with_deps w j info =
    if is_queued j.status
    then (do lock ← live_edit_lock w j.id; pure (record { job = j; deps = info; editing = lock }))
    else pure (record { job = j; deps = info; editing = none })

-- `deps_by_id[j["id"]]`
unfoldable entry_of : ℕ → List (ℕ × DepInfo) → Option DepInfo
entry_of job_id [] = none
entry_of job_id ((k, info) ∷ rest) = if k == job_id then some info else entry_of job_id rest

abbrev known_entry : Option DepInfo → Result DepInfo
known_entry none = raise key_error
known_entry (some info) = ok info

unfoldable show_queue : World → List (ℕ × DepInfo) → List Job → Exec (List Shown)
unfolding entry_of with_deps
show_queue w infos [] = pure []
show_queue w infos (j ∷ js) = do
  info ← lift (known_entry (entry_of j.id infos))
  shown ← with_deps w j info
  rest ← show_queue w infos js
  pure (shown ∷ rest)

pub record ChannelView : Type 0 where
  pub channel : ℕ
  pub running_job : Option Job
  pub queue : List Shown
  pub priority_queue : List Job
  pub frozen_job : Option Job
  pub backlog : List Job
  pub paused : Bool

-- LIST_BACKLOG
abbrev shown_backlog : ℕ
shown_backlog = 10

unfoldable view_channel : World → ℕ → Exec ChannelView
unfolding get_queue get_backlog get_running get_stopped get_paused dep_info_bulk show_queue
view_channel w channel = do
  db ← get_tables
  let queue = get_queue db channel false
  shown ← show_queue w (dep_info_bulk db (map (λ j. j.id) queue)) queue
  db' ← get_tables
  pure (record {
    channel = channel;
    running_job = get_running db' channel;
    queue = shown;
    priority_queue = get_queue db' channel true;
    frozen_job = get_stopped db' channel;
    backlog = get_backlog db' channel shown_backlog;
    paused = get_paused db' channel;
  })

unfoldable pub view_channels : World → List ℕ → Exec (List ChannelView)
unfolding view_channel
view_channels w [] = pure []
view_channels w (channel ∷ channels) = do
  view ← view_channel w channel
  views ← view_channels w channels
  pure (view ∷ views)

unfoldable pub cmd_list : World → Exec (List ChannelView)
unfolding list_channels view_channels
cmd_list w = do db ← get_tables; view_channels w (list_channels db)

-- The reply to `show`: the job, and the other jobs of its directory, if it has one.
abbrev same_dir : Db → Job → Option Text → List ℕ
same_dir db j none = []
same_dir db j (some []) = []
same_dir db j (some (c ∷ dir)) = jobs_sharing_dir db j.id (c ∷ dir)

abbrev show_job : World → ℕ → Db → Option Job → Exec (Shown × List ℕ)
show_job w job_id db none = throw (does_not_exist job_id)
show_job w job_id db (some j) = do
  shown ← with_deps w j (dep_info db j.id)
  pure (shown, same_dir db j j.source.job_dir)

unfoldable pub cmd_show : World → Json → Exec (Shown × List ℕ)
unfolding id_argument with_deps dep_info jobs_sharing_dir get_job
cmd_show w value = do
  job_id ← lift (id_argument value)
  db ← get_tables
  show_job w job_id db (get_job db job_id)

-- The status that a name stands for.
abbrev status_name : Text → StatusName
status_name s =
    if text_eq s (codes "queued")
    then known_status queued
    else if text_eq s (codes "running")
    then known_status running
    else if text_eq s (codes "stopped")
    then known_status stopped
    else if text_eq s (codes "done")
    then known_status done
    else if text_eq s (codes "failed")
    then known_status failed
    else if text_eq s (codes "cancelled")
    then known_status cancelled
    else if text_eq s (codes "interrupted")
    then known_status interrupted
    else if text_eq s (codes "skipped")
    then known_status skipped
    else unknown_status s

-- Null or a list of strings.
abbrev names_found : Option (List Text) → Result (List StatusName)
names_found none = raise (bad_arg statuses_arg)
names_found (some names) = ok (map status_name names)

unfoldable pub status_names : Json → Result (List StatusName)
unfolding text_eq
status_names value = if is_null value then ok [] else names_found (text_list value)

unfoldable show_jobs : World → List Job → Exec (List Shown)
unfolding with_deps dep_info
show_jobs w [] = pure []
show_jobs w (j ∷ js) = do
  db ← get_tables
  shown ← with_deps w j (dep_info db j.id)
  rest ← show_jobs w js
  pure (shown ∷ rest)

unfoldable pub cmd_export : World → (statuses channel : Json) → Exec (List Shown)
unfolding status_names channel_arg_of get_export show_jobs
cmd_export w statuses channel_value = do
  names ← lift (status_names statuses)
  channel ← lift (channel_arg_of channel_value)
  db ← get_tables
  jobs ← lift (get_export db names channel)
  show_jobs w jobs

-- `limit`: 50 if it is null, and at most MAX_HISTORY.
abbrev max_history : ℕ
max_history = 10000

abbrev limit_found : Option ℕ → Result ℕ
limit_found none = ok 50
limit_found (some limit) =
    if ltb max_history limit then raise (out_of_range limit_arg) else ok limit

-- `since`: a timestamp with no offset is in UTC; `naive_utc` reads that.
abbrev since_time : IsoTime → Option ℕ → Result (Option ℕ)
since_time not_iso naive = raise (bad_arg since_arg)
since_time no_offset none = raise (bad_arg since_arg)
since_time no_offset (some t) = ok (some t)
since_time (iso_time t) naive = ok (some t)

abbrev since_found : (Text → IsoTime) → (Text → Option ℕ) → Option Text → Result (Option ℕ)
since_found parse_iso naive_utc none = raise (bad_arg since_arg)
since_found parse_iso naive_utc (some s) = since_time (parse_iso s) (naive_utc s)

abbrev pub grep_found : Json → Result (Option Text)
grep_found (scalar none_value) = ok none
grep_found (scalar (str_value [])) = ok none
grep_found (scalar (str_value (c ∷ s))) = ok (some (c ∷ s))
grep_found _ = raise (bad_arg grep_arg)

unfoldable pub cmd_history :
    (lower : Text → Text)
    → (Text → IsoTime)
    → (Text → Option ℕ)
    → (statuses channel limit since grep : Json) → Exec (List Job)
unfolding status_names channel_arg_of int_arg get_history
cmd_history lower parse_iso naive_utc statuses channel_value limit_value since grep = do
  names ← lift (status_names statuses)
  channel ← lift (channel_arg_of channel_value)
  given ← lift (int_arg limit_arg false true limit_value)
  limit ← lift (limit_found (positive_int given))
  time ← lift (if is_null since then ok none else since_found parse_iso naive_utc (text_of since))
  needle ← lift (grep_found grep)
  db ← get_tables
  lift (
      get_history lower db (record {
        statuses = names;
        channel = channel;
        since = time;
        grep = needle;
        limit = limit;
      }))
