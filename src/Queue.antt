-- ===== src/Queue.antt =====
-- The queue ordering helpers of src/queuer/db.py: a lane (channel and priority flag) is ordered by
-- `position`, spaced POSITION_STEP apart, and renumbered only where an insert finds no free number.
pub mod Positions
pub mod Beside
pub mod Gaps
pub mod Free
use custom_queuer.Prelude.{
  Bool, List, Option, [], exists, false, half, if◌then◌else◌, leb_ℤ, ltb_ℤ, map, none, not, pos,
  select, some, suc, true, zero, ℕ, ℤ, ◌&&◌, ◌*◌, ◌+ℤ◌, ◌-ℤ◌, ◌==◌, ◌∷◌,
}
use custom_queuer.Tables.{
  Db, Exec, Job, get_job, get_tables, in_lane, no_free_position, pure, set_position, throw,
  type_error, update, ◌>>=◌, ◌>>◌,
}

-- The rows of one lane.
unfoldable pub lane_rows : Db → ℕ → Bool → List Job
unfolding select
lane_rows db channel is_priority = select (in_lane channel is_priority) db.jobs

-- SQLite sorts NULL before every number.
abbrev pub position_leb : Option ℤ → Option ℤ → Bool
position_leb none q = true
position_leb (some p) none = false
position_leb (some p) (some q) = leb_ℤ p q

unfoldable pub insert_by_position : Job → List Job → List Job
insert_by_position j [] = j ∷ []
insert_by_position j (k ∷ ks) =
    let rest = insert_by_position j ks in
    if position_leb j.position k.position then j ∷ k ∷ ks else k ∷ rest

-- ORDER BY position ASC
unfoldable pub sort_by_position : List Job → List Job
unfolding insert_by_position
sort_by_position [] = []
sort_by_position (j ∷ js) = insert_by_position j (sort_by_position js)

-- get_queue
unfoldable pub get_queue : Db → ℕ → Bool → List Job
unfolding lane_rows sort_by_position
get_queue db channel is_priority = sort_by_position (lane_rows db channel is_priority)

unfoldable pub queued_ids_ordered : Db → ℕ → Bool → List ℕ
unfolding get_queue
queued_ids_ordered db channel is_priority = map (λ j. j.id) (get_queue db channel is_priority)

unfoldable pub get_queue_ids : Db → ℕ → Bool → List ℕ
unfolding get_queue
get_queue_ids db channel is_priority = map (λ j. j.id) (get_queue db channel is_priority)

abbrev pub first : List Job → Option Job
first [] = none
first (j ∷ js) = some j

unfoldable pub get_queue_head : Db → ℕ → Bool → Option Job
unfolding get_queue
get_queue_head db channel is_priority = first (get_queue db channel is_priority)

abbrev pub position_step : ℕ
position_step = 1024

unfoldable pub reindex_from : ℕ → List ℕ → Db → Db
unfolding set_position
reindex_from i [] db = db
reindex_from i (job_id ∷ ids) db =
    reindex_from (suc i) ids (set_position job_id (some (pos (i * position_step))) db)

unfoldable pub reindex_queue : List ℕ → Db → Db
unfolding reindex_from
reindex_queue ordered_ids = reindex_from 0 ordered_ids

-- MIN and MAX skip NULL, and are NULL over no rows.
abbrev pub min_of : Option ℤ → Option ℤ → Option ℤ
min_of none q = q
min_of (some p) none = some p
min_of (some p) (some q) = if leb_ℤ p q then some p else some q

abbrev pub max_of : Option ℤ → Option ℤ → Option ℤ
max_of none q = q
max_of (some p) none = some p
max_of (some p) (some q) = if leb_ℤ q p then some p else some q

unfoldable pub min_position : List Job → Option ℤ
min_position [] = none
min_position (j ∷ js) = min_of j.position (min_position js)

unfoldable pub max_position : List Job → Option ℤ
max_position [] = none
max_position (j ∷ js) = max_of j.position (max_position js)

abbrev pub after_last : Option ℤ → ℤ
after_last none = pos 0
after_last (some last) = last +ℤ pos position_step

unfoldable pub next_position : Db → ℕ → Bool → ℤ
unfolding max_position lane_rows ◌+ℤ◌
next_position db channel is_priority = after_last (max_position (lane_rows db channel is_priority))

-- `position > ?` and `position < ?` are false at NULL.
abbrev pub position_above : ℤ → Option ℤ → Bool
position_above target none = false
position_above target (some p) = ltb_ℤ target p

abbrev pub position_below : ℤ → Option ℤ → Bool
position_below target none = false
position_below target (some p) = ltb_ℤ p target

-- `id != ?`, where `exclude_id=None` is passed as -1.
abbrev pub is_excluded : Option ℕ → ℕ → Bool
is_excluded none job_id = false
is_excluded (some skip) job_id = job_id == skip

-- The lane's rows on the side of `target` that is looked at.
unfoldable pub beside_rows : Db → ℕ → Bool → ℤ → Bool → Option ℕ → List Job
unfolding lane_rows select
beside_rows db channel is_priority target after exclude_id =
    select
      (λ j.
        (if after then position_above target j.position else position_below target j.position)
        && not (is_excluded exclude_id j.id))
      (lane_rows db channel is_priority)

-- What one round of the loop finds: a position, or no free number.
unfoldable pub position_between : ℤ → ℤ → Option ℤ
position_between low high = if leb_ℤ (low +ℤ pos 2) high then some (half (low +ℤ high)) else none

abbrev pub position_near : ℤ → Bool → Option ℤ → Option ℤ
position_near target true none = some (target +ℤ pos position_step)
position_near target true (some near) = position_between target near
position_near target false none = some (target -ℤ pos position_step)
position_near target false (some near) = position_between near target

unfoldable pub find_position : Db → ℕ → Bool → ℤ → Bool → Option ℕ → Option ℤ
unfolding beside_rows min_position max_position position_between
find_position db channel is_priority target after exclude_id =
    let rows = beside_rows db channel is_priority target after exclude_id in
    position_near target after (if after then min_position rows else max_position rows)

-- The target's position: subscripting a missing row, or `int(None)`, is a TypeError.
unfoldable pub target_position : Db → ℕ → Option ℤ
unfolding get_job
target_position db target_id = elim (get_job db target_id) [ none ↦ none | some j ↦ j.position ]

abbrev pub with_target : Option ℤ → (ℤ → Exec ℤ) → Exec ℤ
with_target none k = throw type_error
with_target (some target) k = k target

abbrev pub position_or : Option ℤ → Exec ℤ → Exec ℤ
position_or none next_round = next_round
position_or (some p) next_round = pure p

-- `for _ in range(2)`: the rounds left.
unfoldable pub position_beside_rounds : ℕ → ℕ → ℕ → Bool → Bool → Option ℕ → Exec ℤ
unfolding find_position target_position reindex_queue queued_ids_ordered
position_beside_rounds zero target_id channel is_priority after exclude_id = throw no_free_position
position_beside_rounds (suc rounds) target_id channel is_priority after exclude_id = do
  db ← get_tables
  with_target (target_position db target_id) λ target.
      position_or (find_position db channel is_priority target after exclude_id) do
        update (reindex_queue (queued_ids_ordered db channel is_priority))
        position_beside_rounds rounds target_id channel is_priority after exclude_id

unfoldable pub position_beside : ℕ → ℕ → Bool → Bool → Option ℕ → Exec ℤ
unfolding position_beside_rounds
position_beside target_id channel is_priority after exclude_id =
    position_beside_rounds 2 target_id channel is_priority after exclude_id

-- `other_id` is queued in this lane after `position`.
unfoldable pub is_queued_behind : Db → ℕ → ℕ → Bool → ℤ → Bool
unfolding exists
is_queued_behind db other_id channel is_priority position =
    exists
      (λ j. j.id == other_id && in_lane channel is_priority j && position_above position j.position)
      db.jobs
