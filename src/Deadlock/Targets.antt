-- ===== src/Deadlock/Targets.antt =====
-- How many jobs the search of `_find_deadlock` (src/queuer/db.py) can still come to see.
use custom_queuer.Prelude.{
  ==→≡, All, All-map, All-select, Bool, Bool-cases, List, Option, [], ap, arith, elem, elem-append,
  false, false≢true, if◌then◌else◌, inl, inr, length, map, none, not, refl, select, some,
  some-injective, subst, suc, sym, true, ℕ, ≡→==, ◌&&◌, ◌++◌, ◌+◌, ◌<◌, ◌==◌, ◌||◌, ◌∙◌, ◌∷◌, ◌≡◌,
  ◌≤◌,
}
use custom_queuer.Tables.{Db, Dep, Job, get_job, in_lane, is_queued}
use custom_queuer.Queue.{get_queue, lane_rows, queued_ids_ordered}
use custom_queuer.Queue.Gaps.{elem-sort}
use custom_queuer.Deadlock.{Why, active_deps, ahead_of, dependency, option_list, pred, steps}

-- The jobs that a step can lead to.
unfoldable pub targets : Db → List ℕ
targets db = map (λ d. d.dep_id) db.job_deps ++ map (λ j. j.id) db.jobs

-- How many of them are not seen yet.
unfoldable pub unseen : List ℕ → List ℕ → ℕ
unfolding select
unseen seen us = length (select (λ u. not (elem u seen)) us)

unseen-le : (x : ℕ) (seen us : List ℕ) → unseen (x ∷ seen) us ≤ unseen seen us
unfolding unseen elem
unseen-le x seen [] = omega arith
unseen-le x seen (u ∷ us) = ground (arith, unseen-le x seen us)

-- Seeing one more of them leaves fewer.
pub unseen-lt :
    (x : ℕ) (seen us : List ℕ)
    → elem x us ≡ true
    → elem x seen ≡ false
    → unseen (x ∷ seen) us < unseen seen us
unfolding unseen elem
unseen-lt x seen [] here new = absurd (false≢true here)
unseen-lt x seen (u ∷ us) here new = elim (Bool-cases (x == u)) [
  | inl t ↦
      subst (λ v. unseen (x ∷ seen) (v ∷ us) < unseen seen (v ∷ us)) (==→≡ x u t)
        (rw (≡→== x x refl, new) (omega (arith, unseen-le x seen us)))
  | inr f ↦ ground (arith, f, unseen-lt x seen us (ground (arith, f, here)))
]

pub unseen-le-length : (seen us : List ℕ) → unseen seen us ≤ length us
unfolding unseen
unseen-le-length seen [] = omega arith
unseen-le-length seen (u ∷ us) = ground (arith, unseen-le-length seen us)

elem-append_left : (a : ℕ) (xs ys : List ℕ) → elem a xs ≡ true → elem a (xs ++ ys) ≡ true
elem-append_left a xs ys h = rw (elem-append a xs ys, h)

elem-append_right : (a : ℕ) (xs ys : List ℕ) → elem a ys ≡ true → elem a (xs ++ ys) ≡ true
elem-append_right a xs ys h = elem-append a xs ys ∙ ground (arith, h)

ahead_of-elem : (node a : ℕ) (ids : List ℕ) → ahead_of node ids ≡ some a → elem a ids ≡ true
unfolding ahead_of elem
ahead_of-elem node a [] e = absurd (ground (arith, e))
ahead_of-elem node a (b ∷ []) e = absurd (ground (arith, e))
ahead_of-elem node a (b ∷ d ∷ ids) e = elim (Bool-cases (d == node)) [
  | inl t ↦ rw (≡→== a b (sym (some-injective _ _ (rw t at e))))
  | inr f ↦ ground (arith, ahead_of-elem node a (d ∷ ids) (rw f at e))
]

elem-ids_select :
    (a : ℕ) (p : Job → Bool) (js : List Job)
    → elem a (map (λ j. j.id) (select p js)) ≡ true
    → elem a (map (λ j. j.id) js) ≡ true
unfolding elem select
elem-ids_select a p [] h = h
elem-ids_select a p (j ∷ js) h = ground (arith, h, elem-ids_select a p js)

queued_id-elem :
    (db : Db) (channel : ℕ) (is_priority : Bool) (a : ℕ)
    → elem a (queued_ids_ordered db channel is_priority) ≡ true
    → elem a (map (λ j. j.id) db.jobs) ≡ true
unfolding queued_ids_ordered get_queue lane_rows
queued_id-elem db channel is_priority a h =
    elem-ids_select a (in_lane channel is_priority) db.jobs
      (sym (elem-sort a (select (in_lane channel is_priority) db.jobs)) ∙ h)

pred-elem : (db : Db) (node a : ℕ) → pred db node ≡ some a → elem a (map (λ j. j.id) db.jobs) ≡ true
unfolding pred
pred-elem db node a e = by_row (get_job db node) e
  where
    by_row :
        (o : Option Job)
        → (elim o [
          | none ↦ none
          | some j ↦
              if is_queued j.status && not j.is_priority
              then ahead_of node (queued_ids_ordered db j.channel false)
              else none
        ])
          ≡ some a
        → elem a (map (λ j. j.id) db.jobs) ≡ true
    by_row none h = absurd (ground (arith, h))
    by_row (some j) h =
        queued_id-elem db j.channel false a
          (ahead_of-elem node a (queued_ids_ordered db j.channel false) (ground (arith, h)))

abbrev pub IsTarget : Db → ℕ × Why → Type 0
IsTarget db x = elem x.0 (targets db) ≡ true

All-append :
    (P : ℕ × Why → Type 0) (xs ys : List (ℕ × Why)) → All P xs → All P ys → All P (xs ++ ys)
All-append P [] ys h k = k
All-append P (x ∷ xs) ys h k = (h.0, All-append P xs ys h.1 k)

own_dep_ids : (ds : List Dep) → All (λ d. elem d.dep_id (map (λ e. e.dep_id) ds) ≡ true) ds
unfolding elem
own_dep_ids [] = tt
own_dep_ids (d ∷ ds) = (
  rw (≡→== d.dep_id d.dep_id refl),
  All-map _ (λ e. (e.dep_id == d.dep_id || elem e.dep_id (map (λ e. e.dep_id) ds)) ≡ true) ds
      (λ e h. ground arith) (own_dep_ids ds),
)

All-dep_steps :
    (us : List ℕ) (ds : List Dep)
    → All (λ d. elem d.dep_id us ≡ true) ds
    → All
        (λ (x : ℕ × Why). elem x.0 us ≡ true)
        (map (λ (d : ℕ). (d, dependency)) (map (λ (d : Dep). d.dep_id) ds))
All-dep_steps us [] h = tt
All-dep_steps us (d ∷ ds) h = (h.0, All-dep_steps us ds h.1)

-- Every step leads to a dependency or to a job.
pub steps-IsTarget : (db : Db) (node : ℕ) → All (IsTarget db) (steps db node)
unfolding steps active_deps targets
steps-IsTarget db node =
    All-append (λ x. elem x.0 (targets db) ≡ true) _ (option_list (pred db node))
      (All-dep_steps (targets db) _ (
        All-map (λ d. elem d.dep_id (map (λ e. e.dep_id) db.job_deps) ≡ true)
          (λ d. elem d.dep_id (targets db) ≡ true) _
          (λ d h. elem-append_left d.dep_id _ (map (λ j. j.id) db.jobs) h)
          (All-select _ _ db.job_deps (own_dep_ids db.job_deps))))
      (by_pred (pred db node) refl)
  where
    by_pred :
        (o : Option ℕ) → pred db node ≡ o → All (λ x. elem x.0 (targets db) ≡ true) (option_list o)
    by_pred none e = tt
    by_pred (some a) e =
        (elem-append_right a (map (λ d. d.dep_id) db.job_deps) _ (pred-elem db node a e), tt)

pub length-targets : (db : Db) → length (targets db) ≡ length db.job_deps + length db.jobs
unfolding targets
length-targets db = go db.job_deps
  where
    length-ids : (js : List Job) → length (map (λ j. j.id) js) ≡ length js
    length-ids [] = refl
    length-ids (j ∷ js) = ap suc (length-ids js)

    go :
        (ds : List Dep)
        → length (map (λ (d : Dep). d.dep_id) ds ++ map (λ j. j.id) db.jobs)
          ≡ length ds + length db.jobs
    go [] = omega (arith, length-ids db.jobs)
    go (d ∷ ds) = omega (arith, go ds)
