-- ===== src/Backlog.antt =====
-- The history of finished jobs in src/queuer/db.py: listing it, pruning it and clearing it. A
-- finished job that a queued job depends on is never deleted.
pub mod Kept
use custom_queuer.Prelude.{
  Bool, List, Option, [], drop, exists, false, if◌then◌else◌, leb, length, map, none, not, select,
  some, take, true, ℕ, ◌&&◌, ◌==◌, ◌||◌, ◌∷◌,
}
use custom_queuer.Tables.{
  Db, Exec, Job, commit, get_tables, is_awaited, is_terminal, pure, queued_in, update, ◌>>=◌, ◌>>◌,
}

-- ORDER BY finished_at DESC, id DESC; NULL is the least.
abbrev time_geb : Option ℕ → Option ℕ → Bool
time_geb (some a) (some b) = leb b a
time_geb p none = true
time_geb none (some b) = false

abbrev time_eq : Option ℕ → Option ℕ → Bool
time_eq none none = true
time_eq (some a) (some b) = a == b
time_eq _ _ = false

abbrev pub newer : Job → Job → Bool
newer j k =
    if time_eq j.outcome.finished_at k.outcome.finished_at
    then leb k.id j.id
    else time_geb j.outcome.finished_at k.outcome.finished_at

unfoldable pub insert_newest : Job → List Job → List Job
insert_newest j [] = j ∷ []
insert_newest j (k ∷ ks) =
    let rest = insert_newest j ks in if newer j k then j ∷ k ∷ ks else k ∷ rest

unfoldable pub newest_first : List Job → List Job
unfolding insert_newest
newest_first [] = []
newest_first (j ∷ js) = insert_newest j (newest_first js)

abbrev pub finished_on : ℕ → Job → Bool
finished_on channel j = is_terminal j.status && j.channel == channel

unfoldable pub get_backlog : Db → ℕ → ℕ → List Job
unfolding select newest_first
get_backlog db channel limit = take limit (newest_first (select (finished_on channel) db.jobs))

-- DELETE FROM jobs WHERE id = ?
unfoldable pub delete_job : ℕ → Db → Db
unfolding select
delete_job job_id db = record db { jobs = select (λ j. not (j.id == job_id)) db.jobs }

unfoldable pub delete_jobs : List ℕ → Db → Db
unfolding delete_job
delete_jobs [] db = db
delete_jobs (job_id ∷ ids) db = delete_jobs ids (delete_job job_id db)

abbrev pub has_row : List Job → ℕ → Bool
has_row jobs job_id = exists (λ j. j.id == job_id) jobs

unfoldable pub drop_orphan_deps : Db → Db
unfolding select exists
drop_orphan_deps db = record db {
  job_deps =
      select
        (λ d. has_row db.jobs d.job_id && (has_row db.jobs d.dep_id || queued_in db.jobs d.job_id))
        db.job_deps;
}

-- The finished jobs of a channel beyond the newest `keep`, but those a queued job waits for.
unfoldable pub stale_ids : Db → ℕ → ℕ → List ℕ
unfolding select newest_first
stale_ids db channel keep =
    map (λ j. j.id)
      (drop keep
        (newest_first (select (λ j. finished_on channel j && not (is_awaited db j.id)) db.jobs)))

abbrev pub prune_stale : List ℕ → Exec (Unit {0})
prune_stale [] = pure tt
prune_stale (job_id ∷ ids) = do update (delete_jobs (job_id ∷ ids)); update drop_orphan_deps; commit

unfoldable pub prune_backlog : ℕ → ℕ → Exec (Unit {0})
prune_backlog channel keep = do db ← get_tables; prune_stale (stale_ids db channel keep)

-- `channel=None` clears every channel.
abbrev pub on_channel : Option ℕ → Job → Bool
on_channel none j = true
on_channel (some channel) j = j.channel == channel

abbrev pub is_clearable : Db → Option ℕ → Job → Bool
is_clearable db channel j = is_terminal j.status && on_channel channel j && not (is_awaited db j.id)

unfoldable pub delete_finished : Option ℕ → Db → Db
unfolding select is_awaited
delete_finished channel db = record db {
  jobs = select (λ j. not (is_clearable db channel j)) db.jobs;
}

abbrev pub default_channel : ℕ
default_channel = 1

abbrev pub channel_stays : Db → ℕ → Bool
channel_stays db channel = channel == default_channel || exists (λ j. j.channel == channel) db.jobs

-- The registry rows, with their pause flags, of channels that have no job left.
unfoldable pub drop_empty_channels : Db → Db
unfolding select exists
drop_empty_channels db = record db {
  channels = select (λ r. channel_stays db r.id) db.channels;
  paused =
      select
        (λ (channel, _).
          not (exists (λ r. r.id == channel && not (channel_stays db r.id)) db.channels))
        db.paused;
}

-- The number of rows deleted.
unfoldable pub clear_backlog : Option ℕ → Exec ℕ
unfolding delete_finished drop_orphan_deps drop_empty_channels select
clear_backlog channel = do
  db ← get_tables
  update (delete_finished channel)
  update drop_orphan_deps
  update drop_empty_channels
  commit
  pure (length (select (is_clearable db channel) db.jobs))
