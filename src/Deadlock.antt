-- ===== src/Deadlock.antt =====
-- `_find_deadlock` of src/queuer/db.py: a search for a cycle in the "waits for" graph. A queued job
-- waits for each unfinished dependency, and for the job ahead of it in its channel's normal lane.
pub mod Sound
pub mod Complete
pub mod Parents
pub mod Targets
pub mod Total
use custom_queuer.Prelude.{
  Bool, List, Option, [], elem, exists, false, if◌then◌else◌, length, map, none, not, select, some,
  suc, true, zero, ℕ, ◌&&◌, ◌++◌, ◌+◌, ◌==◌, ◌∷◌,
}
use custom_queuer.Tables.{Db, Status, find_job, get_job, is_queued, is_terminal}
use custom_queuer.Queue.{queued_ids_ordered}

-- An unfinished job: `status IN ('queued', 'running', 'stopped')`.
abbrev pub is_active : Status → Bool
is_active status = not (is_terminal status)

-- The step into a job, with its reason: `dependency` or `queue order`.
pub data Why : Type 0 where
  dependency queue_order : Why

-- `pred`: the job ahead in the normal lane of the job's channel.
unfoldable pub ahead_of : ℕ → List ℕ → Option ℕ
ahead_of node [] = none
ahead_of node (a ∷ []) = none
ahead_of node (a ∷ b ∷ ids) =
    let rest = ahead_of node (b ∷ ids) in if b == node then some a else rest

unfoldable pub pred : Db → ℕ → Option ℕ
unfolding ahead_of find_job queued_ids_ordered
pred db node = elim (get_job db node) [
  | none ↦ none
  | some j ↦
      if is_queued j.status && not j.is_priority
      then ahead_of node (queued_ids_ordered db j.channel false)
      else none
]

-- `deps`: the unfinished dependencies of a job, by the join of job_deps with jobs.
unfoldable pub active_deps : Db → ℕ → List ℕ
unfolding select exists
active_deps db node =
    map (λ d. d.dep_id)
      (select
        (λ d. d.job_id == node && exists (λ j. j.id == d.dep_id && is_active j.status) db.jobs)
        db.job_deps)

abbrev pub option_list : Option ℕ → List (ℕ × Why)
option_list none = []
option_list (some a) = (a, queue_order) ∷ []

unfoldable pub steps : Db → ℕ → List (ℕ × Why)
unfolding active_deps pred
steps db node = map (λ d. (d, dependency)) (active_deps db node) ++ option_list (pred db node)

-- The dictionary `parent`, the set `seen`, and the stack `todo`, top first.
pub record Search : Type 0 where
  pub parent : List (ℕ × ℕ × Why)
  pub seen : List ℕ
  pub todo : List ℕ

-- What the steps of one job lead to: back to the start, with `parent` as it is then, or on.
pub data Scan : Type 0 where
  closes : Why → List (ℕ × ℕ × Why) → Scan
  goes_on : Search → Scan

unfoldable pub scan_steps : ℕ → ℕ → List (ℕ × Why) → Search → Scan
unfolding elem
scan_steps job_id node [] s = goes_on s
scan_steps job_id node ((nxt, why) ∷ rest) s =
    if nxt == job_id
    then closes why s.parent
    else scan_steps job_id node rest (
        if elem nxt s.seen then s else record {
          parent = (nxt, node, why) ∷ s.parent;
          seen = nxt ∷ s.seen;
          todo = nxt ∷ s.todo;
        })

unfoldable pub find_parent : ℕ → List (ℕ × ℕ × Why) → Option (ℕ × Why)
find_parent cur [] = none
find_parent cur ((n, prev, why) ∷ rest) =
    let later = find_parent cur rest in if n == cur then some (prev, why) else later

-- The answer: a cycle, none, and the two ways in which the model's search could get stuck.
pub data Answer : Type 0 where
  no_loop no_fuel no_parent : Answer
  loop : List (ℕ × Why) → Answer

-- `while cur != job_id`: `loop.append` and the final `loop.reverse` are a cons on the front.
unfoldable pub walk_back : ℕ → ℕ → List (ℕ × ℕ × Why) → ℕ → List (ℕ × Why) → Answer
unfolding find_parent
walk_back zero job_id parent cur steps_on = no_fuel
walk_back (suc fuel) job_id parent cur steps_on = elim (cur == job_id) [
  | true ↦ loop steps_on
  | false ↦ elim (find_parent cur parent) [
    | none ↦ no_parent
    | some (prev, why) ↦ walk_back fuel job_id parent prev ((cur, why) ∷ steps_on)
  ]
]

-- What one round does with the steps it scanned; `next` is the rest of the loop.
abbrev pub after_scan : ℕ → ℕ → (Search → Answer) → Scan → Answer
after_scan job_id node next (closes why parent) =
    walk_back (suc (length parent)) job_id parent node ((job_id, why) ∷ [])
after_scan job_id node next (goes_on s) = next s

-- `while todo: node = todo.pop()`
abbrev pub search_round : Db → ℕ → Search → (Search → Answer) → List ℕ → Answer
search_round db job_id s next [] = no_loop
search_round db job_id s next (node ∷ rest) =
    after_scan job_id node next (scan_steps job_id node (steps db node) (record s { todo = rest }))

unfoldable pub search_loop : ℕ → Db → ℕ → Search → Answer
unfolding scan_steps walk_back
search_loop zero db job_id s = no_fuel
search_loop (suc fuel) db job_id s = search_round db job_id s (search_loop fuel db job_id) s.todo

abbrev pub start_search : ℕ → Search
start_search job_id = record { parent = []; seen = job_id ∷ []; todo = job_id ∷ [] }

-- A job is put on the stack at most once, and only as a dependency or as a queued job.
abbrev pub search_fuel : Db → ℕ
search_fuel db = suc (suc (length db.job_deps + length db.jobs))

unfoldable pub find_deadlock : Db → ℕ → Answer
unfolding search_loop steps
find_deadlock db job_id = search_loop (search_fuel db) db job_id (start_search job_id)
