-- ===== src/History.antt =====
-- The readers of src/queuer/db.py that a listing uses: `get_history`, `get_export`, `get_states`,
-- `get_channel_counts`, `dep_info_bulk`, `jobs_sharing_dir`, `find_by_run_key`.
pub mod Limit
pub mod Bulk
pub mod States
use custom_queuer.Prelude.{
  Bool, List, Option, [], drop, elem, exists, false, find, if◌then◌else◌, is_nil, leb, length, ltb,
  map, none, not, select, some, suc, take, true, zero, ℕ, ℤ, ◌&&◌, ◌++◌, ◌+◌, ◌-◌, ◌/◌, ◌==◌, ◌||◌,
  ◌∷◌,
}
use custom_queuer.Tables.{
  Db, Dep, Job, Note, Result, Status, Text, bad_limit, cancelled, done, failed, interrupted,
  invalid_status, is_queued, is_running, is_stopped, is_success, is_terminal, ok, queued, raise,
  running, skipped, stopped, text_eq,
}
use custom_queuer.Backlog.{newest_first, on_channel}
use custom_queuer.Deps.{DepInfo, dep_status, is_active_row, is_any}

-- A status in a filter: one of the program's, or any other string.
pub data StatusName : Type 0 where
  known_status : Status → StatusName
  unknown_status : Text → StatusName

abbrev pub same_status : Status → Status → Bool
same_status a b = status_code a == status_code b
  where
    status_code : Status → ℕ
    status_code queued = 0
    status_code running = 1
    status_code stopped = 2
    status_code done = 3
    status_code failed = 4
    status_code cancelled = 5
    status_code interrupted = 6
    status_code skipped = 7

-- `status in TERMINAL_STATUSES`, and `status in ACTIVE_STATUSES + TERMINAL_STATUSES`.
abbrev pub is_terminal_name : StatusName → Bool
is_terminal_name (known_status s) = is_terminal s
is_terminal_name (unknown_status _) = false

abbrev pub is_known_name : StatusName → Bool
is_known_name (known_status s) = true
is_known_name (unknown_status _) = false

abbrev pub names_status : Status → StatusName → Bool
names_status s (known_status t) = same_status s t
names_status s (unknown_status _) = false

-- `status IN (...)` with the given names.
unfoldable pub status_in : List StatusName → Status → Bool
unfolding exists
status_in names s = exists (names_status s) names

unfoldable pub all_names : (StatusName → Bool) → List StatusName → Bool
all_names p [] = true
all_names p (name ∷ names) = p name && all_names p names

-- `needle in hay`.
unfoldable pub starts_with : Text → Text → Bool
starts_with [] hay = true
starts_with (a ∷ needle) [] = false
starts_with (a ∷ needle) (b ∷ hay) = a == b && starts_with needle hay

unfoldable pub is_infix : Text → Text → Bool
unfolding starts_with
is_infix needle [] = is_nil needle
is_infix needle (c ∷ hay) = starts_with needle (c ∷ hay) || is_infix needle hay

-- " ".join(words)
unfoldable pub join_words : List Text → Text
join_words [] = []
join_words (w ∷ []) = w
join_words (w ∷ v ∷ ws) = w ++ b' ' ∷ join_words (v ∷ ws)

pub record HistoryFilter : Type 0 where
  pub statuses : List StatusName
  pub channel : Option ℕ
  pub since : Option ℕ
  pub grep : Option Text
  pub limit : ℕ

-- `if statuses`: no list, and an empty one, keep every finished job.
abbrev pub wanted_status : List StatusName → Status → Bool
wanted_status [] s = is_terminal s
wanted_status (n ∷ ns) s = status_in (n ∷ ns) s

abbrev pub finished_since : Option ℕ → Option ℕ → Bool
finished_since none finished_at = true
finished_since (some since) none = false
finished_since (some since) (some at) = leb since at

-- The WHERE clause.
abbrev pub history_row : HistoryFilter → Job → Bool
history_row f j =
    wanted_status f.statuses j.status
    && on_channel f.channel j
    && finished_since f.since j.outcome.finished_at

-- `if grep`: an empty string is no filter. `lower` is str.lower.
abbrev pub grep_matches : (Text → Text) → Option Text → Job → Bool
grep_matches lower none j = true
grep_matches lower (some []) j = true
grep_matches lower (some (c ∷ cs)) j =
    is_infix (lower (c ∷ cs)) (lower (join_words j.settings.raw_cmd))

-- The loop over the rows, with its `break`.
unfoldable pub history_loop : (Job → Bool) → ℕ → List Job → List Job → List Job
history_loop matches limit [] out = out
history_loop matches limit (j ∷ js) out =
    let out' = out ++ j ∷ [] in
    let more = history_loop matches limit js out' in
    let past = history_loop matches limit js out in
    if matches j then (if leb limit (length out') then out' else more) else past

unfoldable pub get_history : (Text → Text) → Db → HistoryFilter → Result (List Job)
unfolding all_names status_in is_infix join_words history_loop newest_first select
get_history lower db f =
    if not (all_names is_terminal_name f.statuses)
    then raise invalid_status
    else if ltb f.limit 1
    then raise bad_limit
    else ok (
        history_loop (grep_matches lower f.grep) f.limit
          (newest_first (select (history_row f) db.jobs)) [])

abbrev pub export_row : List StatusName → Option ℕ → Job → Bool
export_row statuses channel j =
    (is_nil statuses || status_in statuses j.status) && on_channel channel j

unfoldable pub get_export : Db → List StatusName → Option ℕ → Result (List Job)
unfolding all_names status_in select
get_export db statuses channel =
    if all_names is_known_name statuses
    then ok (select (export_row statuses channel) db.jobs)
    else raise invalid_status

-- STATE_COLUMNS
pub record StateRow : Type 0 where
  pub id : ℕ
  pub status : Status
  pub exit_code : Option ℤ
  pub note : Option Note
  pub attempt : ℕ
  pub max_retries : ℕ
  pub channel : ℕ

abbrev pub state_row : Job → StateRow
state_row j = record {
  id = j.id;
  status = j.status;
  exit_code = j.outcome.exit_code;
  note = j.outcome.note;
  attempt = j.source.attempt;
  max_retries = j.settings.max_retries;
  channel = j.channel;
}

-- `found[r["id"]] = ...` for the rows of one query.
unfoldable pub put_state : StateRow → List StateRow → List StateRow
put_state r [] = r ∷ []
put_state r (s ∷ ss) = if s.id == r.id then r ∷ ss else s ∷ put_state r ss

unfoldable pub put_states : List Job → List StateRow → List StateRow
unfolding put_state
put_states [] found = found
put_states (j ∷ js) found = put_states js (put_state (state_row j) found)

-- The queries of `size` ids each, with the number of those that are left.
unfoldable pub state_chunks : ℕ → ℕ → List Job → List ℕ → List StateRow → List StateRow
unfolding put_states select elem
state_chunks zero size jobs ids found = found
state_chunks (suc n) size jobs ids found =
    state_chunks n size jobs (drop size ids)
      (put_states (select (λ j. elem j.id (take size ids)) jobs) found)

abbrev pub state_chunk : ℕ
state_chunk = 500

-- The length of range(0, total, size).
abbrev pub chunk_count : ℕ → ℕ → ℕ
chunk_count size total = (total + size - 1) / size

unfoldable pub get_states : Db → List ℕ → List StateRow
unfolding state_chunks
get_states db ids = state_chunks (chunk_count state_chunk (length ids)) state_chunk db.jobs ids []

pub record Counts : Type 0 where
  pub running_count : ℕ
  pub frozen_count : ℕ
  pub queued_count : ℕ
  pub priority_count : ℕ

unfoldable pub count_rows : (Job → Bool) → List Job → ℕ
count_rows p [] = 0
count_rows p (j ∷ js) = (if p j then 1 else 0) + count_rows p js

unfoldable pub get_channel_counts : Db → ℕ → Counts
unfolding count_rows select
get_channel_counts db channel =
    let rows = select (λ j. j.channel == channel) db.jobs in
    record {
      running_count = count_rows (λ j. is_running j.status) rows;
      frozen_count = count_rows (λ j. is_stopped j.status) rows;
      queued_count = count_rows (λ j. is_queued j.status && not j.is_priority) rows;
      priority_count = count_rows (λ j. is_queued j.status && j.is_priority) rows;
    }

-- ORDER BY d.job_id, d.dep_id
abbrev pub pair_leb : Dep → Dep → Bool
pair_leb d e = ltb d.job_id e.job_id || (d.job_id == e.job_id && leb d.dep_id e.dep_id)

unfoldable pub insert_pair : Dep → List Dep → List Dep
insert_pair d [] = d ∷ []
insert_pair d (e ∷ es) =
    let rest = insert_pair d es in if pair_leb d e then d ∷ e ∷ es else e ∷ rest

unfoldable pub sort_pairs : List Dep → List Dep
unfolding insert_pair
sort_pairs [] = []
sort_pairs (d ∷ ds) = insert_pair d (sort_pairs ds)

abbrev pub no_deps : DepInfo
no_deps = record { depends_on = []; after_any = []; waiting_on = [] }

-- One row appended to the entry of its job.
abbrev pub add_dep : Db → Dep → DepInfo → DepInfo
add_dep db d info = record {
  depends_on = if is_success d.mode then info.depends_on ++ d.dep_id ∷ [] else info.depends_on;
  after_any =
      if is_success d.mode
      then info.after_any
      else if is_any d.mode
      then info.after_any ++ d.dep_id ∷ []
      else info.after_any;
  waiting_on =
      if is_active_row (dep_status db d.dep_id)
      then info.waiting_on ++ d.dep_id ∷ []
      else info.waiting_on;
}

-- `info = result[r["job_id"]]`, changed in place; a missing key does not occur.
unfoldable pub change_entry : (DepInfo → DepInfo) → ℕ → List (ℕ × DepInfo) → List (ℕ × DepInfo)
change_entry f job_id [] = []
change_entry f job_id ((k, info) ∷ rest) =
    (k, if k == job_id then f info else info) ∷ change_entry f job_id rest

unfoldable pub add_rows : Db → List Dep → List (ℕ × DepInfo) → List (ℕ × DepInfo)
unfolding change_entry
add_rows db [] result = result
add_rows db (d ∷ ds) result = add_rows db ds (change_entry (add_dep db d) d.job_id result)

unfoldable pub dep_info_bulk : Db → List ℕ → List (ℕ × DepInfo)
unfolding add_rows sort_pairs select elem dep_status
dep_info_bulk db job_ids =
    add_rows db (sort_pairs (select (λ d. elem d.job_id job_ids) db.job_deps))
      (map (λ job_id. (job_id, no_deps)) job_ids)

abbrev pub has_dir : Text → Option Text → Bool
has_dir dir none = false
has_dir dir (some d) = text_eq d dir

unfoldable pub jobs_sharing_dir : Db → ℕ → Text → List ℕ
unfolding select text_eq
jobs_sharing_dir db job_id dir =
    map (λ j. j.id) (select (λ j. has_dir dir j.source.job_dir && not (j.id == job_id)) db.jobs)

unfoldable pub find_by_run_key : Db → Text → Option Job
unfolding find text_eq
find_by_run_key db run_key = find (λ j. has_dir run_key j.source.run_key) db.jobs
