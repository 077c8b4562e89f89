-- ===== src/Tables/Queries.antt =====
-- The queries and single-statement updates of src/queuer/db.py that the other parts share.
use custom_queuer.Prelude.{
  Bool, List, Option, [], exists, false, find, if◌then◌else◌, not, select, true, ℕ, ℤ, ◌&&◌, ◌++◌,
  ◌==◌, ◌∷◌,
}
use custom_queuer.Tables.Rows.{Db, Job, is_queued}

-- SELECT * FROM jobs WHERE id = ?
unfoldable pub find_job : ℕ → List Job → Option Job
unfolding find
find_job job_id jobs = find (λ j. j.id == job_id) jobs

unfoldable pub get_job : Db → ℕ → Option Job
unfolding find_job
get_job db job_id = find_job job_id db.jobs

-- UPDATE jobs SET ... WHERE id = ?
unfoldable pub update_rows : (Job → Job) → ℕ → List Job → List Job
update_rows f job_id [] = []
update_rows f job_id (j ∷ js) = (if j.id == job_id then f j else j) ∷ update_rows f job_id js

unfoldable pub update_job : (Job → Job) → ℕ → Db → Db
unfolding update_rows
update_job f job_id db = record db { jobs = update_rows f job_id db.jobs }

-- UPDATE jobs SET position = ? WHERE id = ?
unfoldable pub set_position : ℕ → Option ℤ → Db → Db
unfolding update_job
set_position job_id p = update_job (λ j. record j { position = p }) job_id

unfoldable pub unlock : ℕ → Db → Db
unfolding select
unlock job_id db = record db { edit_locks = select (λ l. not (l.job_id == job_id)) db.edit_locks }

-- The jobs of one lane: `status = 'queued' AND channel = ? AND is_priority = ?`.
abbrev pub bool_eq : Bool → Bool → Bool
bool_eq true b = b
bool_eq false b = not b

abbrev pub in_lane : ℕ → Bool → Job → Bool
in_lane channel is_priority j =
    is_queued j.status && j.channel == channel && bool_eq j.is_priority is_priority

-- The queued jobs that some job waits for: `d.dep_id FROM job_deps d JOIN jobs w` with
-- `w.status = 'queued'`.
abbrev pub queued_in : List Job → ℕ → Bool
queued_in jobs job_id = exists (λ w. w.id == job_id && is_queued w.status) jobs

unfoldable pub is_awaited : Db → ℕ → Bool
unfolding exists
is_awaited db job_id = exists (λ d. d.dep_id == job_id && queued_in db.jobs d.job_id) db.job_deps

-- register_channel with `commit=False`: INSERT OR IGNORE.
unfoldable pub register_channel : ℕ → ℕ → Db → Db
unfolding exists
register_channel now channel db =
    if exists (λ r. r.id == channel) db.channels
    then db
    else record db { channels = db.channels ++ record { id = channel; first_seen_at = now } ∷ [] }
