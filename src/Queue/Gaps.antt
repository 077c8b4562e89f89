-- ===== src/Queue/Gaps.antt =====
-- Renumbering a lane leaves a free number beside every row of it, so the second round of
-- `_position_beside` (src/queuer/db.py) always succeeds.
use custom_queuer.Prelude.{
  ==_false→≢, ==→≡, All, All-map, All-select_inv, All-zip, Bool, Bool-cases, List, Option, [],
  arith, elem, false, false≢true, inl, inr, map, pos, refl, select, some, suc, true, ℕ, ℤ, ≡→==,
  ◌*◌, ◌==◌, ◌||◌, ◌∙◌, ◌∷◌, ◌≡◌, ◌⊎◌,
}
use custom_queuer.Tables.{Db, Job, in_lane, set_position, update_rows}
use custom_queuer.Queue.{
  get_queue, insert_by_position, lane_rows, position_step, queued_ids_ordered, reindex_from,
  reindex_queue, sort_by_position,
}

-- A position that `_reindex_queue` gives.
abbrev pub IsSpaced : Option ℤ → Type 0
IsSpaced o = (k : ℕ) × (o ≡ some (pos (k * position_step)))

abbrev pub move : Option ℤ → Job → Job
move p j = record j { position = p }

-- A predicate that setting one position keeps, and one that holds of the position set.
All-set_position :
    (P : Job → Type 0) (p : Option ℤ) (job_id : ℕ) (js : List Job)
    → ((j : Job) → P j → P (move p j))
    → All P js
    → All P (update_rows (move p) job_id js)
unfolding update_rows
All-set_position P p job_id [] f h = tt
All-set_position P p job_id (j ∷ js) f h = elim (Bool-cases (j.id == job_id)) [
  | inl t ↦ rw t (f j h.0, All-set_position P p job_id js f h.1)
  | inr n ↦ rw n (h.0, All-set_position P p job_id js f h.1)
]

-- The rows numbered so far, by `Q`, stay spaced, and the row numbered now becomes so.
IsSpaced-step :
    (Q : ℕ → Type 0) (i job_id : ℕ) (js : List Job)
    → All (λ j. Q j.id → IsSpaced j.position) js
    → All
        (λ j. Q j.id ⊎ (j.id ≡ job_id) → IsSpaced j.position)
        (update_rows (move (some (pos (i * position_step)))) job_id js)
unfolding update_rows
IsSpaced-step Q i job_id [] h = tt
IsSpaced-step Q i job_id (j ∷ js) h = elim (Bool-cases (j.id == job_id)) [
  | inl t ↦ rw t ((λ _. (i, refl)), IsSpaced-step Q i job_id js h.1)
  | inr f ↦ rw f (
    (λ q. elim q [ inl a ↦ h.0 a | inr b ↦ absurd (==_false→≢ j.id job_id f b) ]),
    IsSpaced-step Q i job_id js h.1,
  )
]

reindex_from-IsSpaced :
    (Q : ℕ → Type 0) (i : ℕ) (ids : List ℕ) (db : Db)
    → All (λ j. Q j.id → IsSpaced j.position) db.jobs
    → All (λ j. Q j.id ⊎ (elem j.id ids ≡ true) → IsSpaced j.position) (reindex_from i ids db).jobs
unfolding reindex_from set_position elem
reindex_from-IsSpaced Q i [] db h =
    All-map _ (λ j. Q j.id ⊎ (false ≡ true) → IsSpaced j.position) db.jobs
      (λ j f q. elim q [ inl a ↦ f a | inr b ↦ absurd (false≢true b) ]) h
reindex_from-IsSpaced Q i (a ∷ ids) db h =
    All-map (λ j. (Q j.id ⊎ (j.id ≡ a)) ⊎ (elem j.id ids ≡ true) → IsSpaced j.position)
      (λ j. Q j.id ⊎ ((j.id == a || elem j.id ids) ≡ true) → IsSpaced j.position)
      (reindex_from (suc i) ids (set_position a (some (pos (i * position_step))) db)).jobs
      (λ j f q. f (regroup j.id q))
      (reindex_from-IsSpaced (λ n. Q n ⊎ (n ≡ a)) (suc i) ids _ (IsSpaced-step Q i a db.jobs h))
  where
    regroup :
        (n : ℕ) → Q n ⊎ ((n == a || elem n ids) ≡ true) → (Q n ⊎ (n ≡ a)) ⊎ (elem n ids ≡ true)
    regroup n (inl q) = inl (inl q)
    regroup n (inr t) = elim (Bool-cases (n == a)) [
      | inl e ↦ inl (inr (==→≡ n a e))
      | inr f ↦ inr (rw f at t)
    ]

-- Renumbering changes no column but the position.
reindex_from-keeps :
    (P : Job → Type 0) (i : ℕ) (ids : List ℕ) (db : Db)
    → ((p : Option ℤ) (j : Job) → P j → P (move p j))
    → All P db.jobs
    → All P (reindex_from i ids db).jobs
unfolding reindex_from set_position
reindex_from-keeps P i [] db f h = h
reindex_from-keeps P i (a ∷ ids) db f h =
    reindex_from-keeps P (suc i) ids _ f (All-set_position P _ a db.jobs (f _) h)

-- A lane's id list names every row of the lane.
elem-insert :
    (a : ℕ) (j : Job) (ks : List Job)
    → elem a (map (λ k. k.id) (insert_by_position j ks))
      ≡ (a == j.id || elem a (map (λ k. k.id) ks))
unfolding elem insert_by_position
elem-insert a j [] = refl
elem-insert a j (k ∷ ks) = ground (arith, elem-insert a j ks)

pub elem-sort :
    (a : ℕ) (js : List Job)
    → elem a (map (λ k. k.id) (sort_by_position js)) ≡ elem a (map (λ k. k.id) js)
unfolding sort_by_position elem
elem-sort a [] = refl
elem-sort a (j ∷ js) = rw (elem-insert a j (sort_by_position js)) (rw (elem-sort a js) refl)

pub own_ids : (js : List Job) → All (λ j. elem j.id (map (λ k. k.id) js) ≡ true) js
unfolding elem
own_ids [] = tt
own_ids (j ∷ js) = (
  ground (arith, ≡→== j.id j.id refl),
  All-map _ (λ k. (k.id == j.id || elem k.id (map (λ k. k.id) js)) ≡ true) js (λ k h. ground arith)
      (own_ids js),
)

lane_named :
    (db : Db) (channel : ℕ) (is_priority : Bool)
    → All
        (λ j.
          in_lane channel is_priority j ≡ true
          → elem j.id (queued_ids_ordered db channel is_priority) ≡ true)
        db.jobs
unfolding queued_ids_ordered get_queue lane_rows
lane_named db channel is_priority =
    All-select_inv (λ j. elem j.id (queued_ids_ordered db channel is_priority) ≡ true) _ db.jobs
      (All-map _ _ (select (in_lane channel is_priority) db.jobs)
        (λ j h. elem-sort j.id (select (in_lane channel is_priority) db.jobs) ∙ h)
        (own_ids (select (in_lane channel is_priority) db.jobs)))

-- After a renumbering every row of the lane is spaced.
pub reindex_queue-IsSpaced :
    (db : Db) (channel : ℕ) (is_priority : Bool)
    → All
        (λ j. in_lane channel is_priority j ≡ true → IsSpaced j.position)
        (reindex_queue (queued_ids_ordered db channel is_priority) db).jobs
unfolding reindex_queue
reindex_queue-IsSpaced db channel is_priority =
    let ids = queued_ids_ordered db channel is_priority in
    let after = (reindex_from 0 ids db).jobs in
    let named =
      reindex_from-keeps (λ j. in_lane channel is_priority j ≡ true → elem j.id ids ≡ true) 0 ids db
        (λ p j h. h) (lane_named db channel is_priority) in
    let spaced =
      reindex_from-IsSpaced (λ _. ⊥) 0 ids db
        (All-map (λ _. Unit {0}) _ db.jobs (λ j _ b. absurd b) (All-unit db.jobs)) in
    All-map _ (λ j. in_lane channel is_priority j ≡ true → IsSpaced j.position) after
      (λ j h lane. h.1 (inr (h.0 lane))) (All-zip _ _ after named spaced)
  where
    All-unit : (js : List Job) → All (λ _. Unit {0}) js
    All-unit [] = tt
    All-unit (j ∷ js) = (tt, All-unit js)
