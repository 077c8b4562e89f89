-- ===== src/Deps/Ready.antt =====
-- What `dep_verdict` (src/queuer/db.py) answers, in terms of the statuses of the dependencies.
use custom_queuer.Prelude.{
  Bool, List, Option, [], ap, arith, exists, false, is_some, none, not, refl, select, some, true, ℕ,
  ◌&&◌, ◌==◌, ◌||◌, ◌∙◌, ◌∷◌, ◌≡◌,
}
use custom_queuer.Tables.{Db, Dep, Mode, Status, is_done, is_success, is_terminal}
use custom_queuer.Deps.{
  Verdict, dep_rows, dep_status, dep_verdict, failed_dep, insert_dep, ready, removed_dep, sort_deps,
  verdict_rows,
}

-- The dependency ended as its mode asks.
abbrev satisfied_by : Mode → Option Status → Bool
satisfied_by mode none = false
satisfied_by mode (some st) = is_terminal st && (not (is_success mode) || is_done st)

-- The dependency can never be satisfied: its row is gone, or it had to succeed and did not.
abbrev blocked_by : Mode → Option Status → Bool
blocked_by mode none = true
blocked_by mode (some st) = is_terminal st && (is_success mode && not (is_done st))

abbrev pub is_satisfied : Db → Dep → Bool
is_satisfied db d = satisfied_by d.mode (dep_status db d.dep_id)

abbrev pub is_blocked : Db → Dep → Bool
is_blocked db d = blocked_by d.mode (dep_status db d.dep_id)

abbrev pub is_ready : Verdict → Bool
is_ready ready = true
is_ready _ = false

abbrev pub is_never : Verdict → Bool
is_never (failed_dep _) = true
is_never (removed_dep _) = true
is_never _ = false

module _ (db : Db) where
  verdict_rows-ready :
      (ds : List Dep) (w : Option ℕ)
      → is_ready (verdict_rows db ds w)
        ≡ (not (is_some w) && not (exists (λ d. not (is_satisfied db d)) ds))
  unfolding verdict_rows exists
  verdict_rows-ready [] none = refl
  verdict_rows-ready [] (some a) = refl
  verdict_rows-ready (d ∷ ds) w =
      ground (arith, verdict_rows-ready ds w, verdict_rows-ready ds (some d.dep_id))

  verdict_rows-never :
      (ds : List Dep) (w : Option ℕ)
      → is_never (verdict_rows db ds w) ≡ exists (λ d. is_blocked db d) ds
  unfolding verdict_rows exists
  verdict_rows-never [] none = refl
  verdict_rows-never [] (some a) = refl
  verdict_rows-never (d ∷ ds) w =
      ground (arith, verdict_rows-never ds w, verdict_rows-never ds (some d.dep_id))

module _ (q : Dep → Bool) where
  exists-insert : (d : Dep) (ds : List Dep) → exists q (insert_dep d ds) ≡ (q d || exists q ds)
  unfolding exists insert_dep
  exists-insert d [] = refl
  exists-insert d (e ∷ es) = ground (arith, exists-insert d es)

  exists-sort : (ds : List Dep) → exists q (sort_deps ds) ≡ exists q ds
  unfolding exists sort_deps
  exists-sort [] = refl
  exists-sort (d ∷ ds) = rw (exists-insert d (sort_deps ds)) (rw (exists-sort ds) refl)

  exists-select :
      (p : Dep → Bool) (ds : List Dep) → exists q (select p ds) ≡ exists (λ d. p d && q d) ds
  unfolding exists select
  exists-select p [] = refl
  exists-select p (d ∷ ds) = ground (arith, exists-select p ds)

  exists-dep_rows :
      (db : Db) (job_id : ℕ)
      → exists q (dep_rows db job_id) ≡ exists (λ d. d.job_id == job_id && q d) db.job_deps
  unfolding dep_rows
  exists-dep_rows db job_id = exists-sort _ ∙ exists-select _ db.job_deps

-- A job is ready exactly when none of its dependencies is unsatisfied: each has ended, and each
-- that had to succeed is done.
pub dep_verdict-ready :
    (db : Db) (job_id : ℕ)
    → is_ready (dep_verdict db job_id)
      ≡ not (exists (λ d. d.job_id == job_id && not (is_satisfied db d)) db.job_deps)
unfolding dep_verdict
dep_verdict-ready db job_id =
    verdict_rows-ready db (dep_rows db job_id) none
    ∙ ap not (exists-dep_rows (λ d. not (is_satisfied db d)) db job_id)

-- A job is reported as failed or removed exactly when one of its dependencies can never be
-- satisfied, whatever the others are waiting for.
pub dep_verdict-never :
    (db : Db) (job_id : ℕ)
    → is_never (dep_verdict db job_id)
      ≡ exists (λ d. d.job_id == job_id && is_blocked db d) db.job_deps
unfolding dep_verdict
dep_verdict-never db job_id =
    verdict_rows-never db (dep_rows db job_id) none
    ∙ exists-dep_rows (λ d. is_blocked db d) db job_id
