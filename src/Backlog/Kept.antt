-- ===== src/Backlog/Kept.antt =====
-- What pruning the history (src/queuer/db.py, `_prune_backlog`) leaves alone.
use custom_queuer.Prelude.{
  Bool, Bool-cases, List, [], arith, drop, elem, exists, false, inl, inr, map, not, refl, select,
  suc, zero, ℕ, ◌&&◌, ◌==◌, ◌||◌, ◌∙◌, ◌∷◌, ◌≡◌,
}
use custom_queuer.Tables.{Conn, Db, Job, find_job, get_job, is_awaited}
use custom_queuer.Backlog.{
  delete_job, delete_jobs, drop_orphan_deps, finished_on, insert_newest, newer, newest_first,
  prune_backlog, prune_stale, stale_ids,
}

-- A row that `_prune_backlog` may delete.
abbrev pub is_prunable : Db → ℕ → Job → Bool
is_prunable db channel j = finished_on channel j && not (is_awaited db j.id)

abbrev ids_of : List Job → List ℕ
ids_of js = map (λ j. j.id) js

elem-insert_newest :
    (a : ℕ) (j : Job) (ks : List Job)
    → elem a (ids_of (insert_newest j ks)) ≡ (a == j.id || elem a (ids_of ks))
unfolding elem insert_newest
elem-insert_newest a j [] = refl
elem-insert_newest a j (k ∷ ks) = elim (Bool-cases (newer j k)) [
  | inl t ↦ rw (t, insert_newest) refl
  | inr f ↦ rw (f, insert_newest) (ground (arith, elem-insert_newest a j ks))
]

elem-newest_first : (a : ℕ) (js : List Job) → elem a (ids_of (newest_first js)) ≡ elem a (ids_of js)
unfolding newest_first elem
elem-newest_first a [] = refl
elem-newest_first a (j ∷ js) =
    elem-insert_newest a j (newest_first js) ∙ rw (elem-newest_first a js) refl

elem-drop :
    (a n : ℕ) (js : List Job) → elem a (ids_of js) ≡ false → elem a (ids_of (drop n js)) ≡ false
unfolding elem
elem-drop a zero js h = h
elem-drop a (suc n) [] h = h
elem-drop a (suc n) (j ∷ js) h = elem-drop a n js (ground arith)

elem-select :
    (a : ℕ) (p : Job → Bool) (js : List Job)
    → elem a (ids_of (select p js)) ≡ exists (λ k. k.id == a && p k) js
unfolding elem select exists
elem-select a p [] = refl
elem-select a p (j ∷ js) = ground (arith, elem-select a p js)

-- An id that no prunable row has is not stale.
elem-stale_ids :
    (db : Db) (channel keep a : ℕ)
    → exists (λ k. k.id == a && is_prunable db channel k) db.jobs ≡ false
    → elem a (stale_ids db channel keep) ≡ false
unfolding stale_ids
elem-stale_ids db channel keep a h =
    elem-drop a keep _ (elem-newest_first a _ ∙ elem-select a (is_prunable db channel) db.jobs ∙ h)

find_job-delete :
    (a b : ℕ) (js : List Job)
    → a == b ≡ false
    → find_job a (select (λ j. not (j.id == b)) js) ≡ find_job a js
unfolding find_job select
find_job-delete a b [] h = refl
find_job-delete a b (j ∷ js) h = ground (arith, find_job-delete a b js)

exists-delete :
    (q : Job → Bool) (a b : ℕ) (js : List Job)
    → a == b ≡ false
    → exists (λ k. k.id == a && q k) (select (λ j. not (j.id == b)) js)
      ≡ exists (λ k. k.id == a && q k) js
unfolding exists select
exists-delete q a b [] h = refl
exists-delete q a b (j ∷ js) h = ground (arith, exists-delete q a b js)

-- Deleting other ids changes nothing that is asked of this one.
record SameRow (a : ℕ) (js ks : List Job) : Type 0 where
  found : find_job a js ≡ find_job a ks
  passes : (q : Job → Bool) → exists (λ k. k.id == a && q k) js ≡ exists (λ k. k.id == a && q k) ks

SameRow-delete_jobs :
    (a : ℕ) (ids : List ℕ) (db : Db)
    → elem a ids ≡ false
    → SameRow a (delete_jobs ids db).jobs db.jobs
unfolding elem delete_jobs delete_job
SameRow-delete_jobs a [] db h = record { found = refl; passes = λ q. refl }
SameRow-delete_jobs a (b ∷ ids) db h =
    let ne : a == b ≡ false = ground arith in
    let rest = SameRow-delete_jobs a ids (delete_job b db) (ground arith) in
    record {
      found = rest.found ∙ find_job-delete a b db.jobs ne;
      passes = λ q. rest.passes q ∙ exists-delete q a b db.jobs ne;
    }

job_deps-delete_jobs : (ids : List ℕ) (db : Db) → (delete_jobs ids db).job_deps ≡ db.job_deps
unfolding delete_jobs delete_job
job_deps-delete_jobs [] db = refl
job_deps-delete_jobs (b ∷ ids) db = job_deps-delete_jobs ids _

-- A job that is queued, running or frozen, or that a queued job waits for, is found after the
-- pruning as it was before, where no finished row that nothing waits for has its id.
pub get_job-prune_backlog :
    (channel keep job_id : ℕ) (c : Conn)
    → exists (λ k. k.id == job_id && is_prunable c.tables channel k) c.tables.jobs ≡ false
    → get_job (prune_backlog channel keep c).1.tables job_id ≡ get_job c.tables job_id
unfolding prune_backlog get_job drop_orphan_deps
get_job-prune_backlog channel keep job_id c h =
    by_ids (stale_ids c.tables channel keep) (elem-stale_ids c.tables channel keep job_id h)
  where
    by_ids :
        (ids : List ℕ)
        → elem job_id ids ≡ false
        → find_job job_id (prune_stale ids c).1.tables.jobs ≡ find_job job_id c.tables.jobs
    by_ids [] e = refl
    by_ids (a ∷ ids) e = (SameRow-delete_jobs job_id (a ∷ ids) c.tables e).found
