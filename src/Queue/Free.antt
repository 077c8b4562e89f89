-- ===== src/Queue/Free.antt =====
-- `_position_beside` of src/queuer/db.py as a whole: both rounds.
use custom_queuer.Prelude.{
  +ℤ_parts, All, All-find, All-map, All-select, All-select_of, Bool, Bool-cases, List, Option, [],
  arith, false, half, inl, inr, none, pos, refl, some, some-injective, suc, true, ℕ, ℤ, ≤→leb_ℤ,
  ◌*◌, ◌+ℤ◌, ◌-ℤ◌, ◌<ℤ◌, ◌==◌, ◌∙◌, ◌∷◌, ◌≡◌,
}
use custom_queuer.Tables.{Conn, Db, Job, Result, get_job, get_job-set_position, in_lane, ok}
use custom_queuer.Queue.{
  beside_rows, find_position, lane_rows, position_beside, position_beside_rounds, position_between,
  position_near, position_step, queued_ids_ordered, reindex_from, reindex_queue, target_position,
}
use custom_queuer.Queue.Positions.{OnSome, max_position_attained, min_position_attained}
use custom_queuer.Queue.Beside.{IsOnSide, above_attained, below_attained, find_position-IsOnSide}
use custom_queuer.Queue.Gaps.{IsSpaced, move, reindex_queue-IsSpaced}

between_spaced :
    (a b : ℕ)
    → pos (a * position_step) <ℤ pos (b * position_step)
    → (p : ℤ) × (position_between (pos (a * position_step)) (pos (b * position_step)) ≡ some p)
unfolding position_between
between_spaced a b h = (
  half (pos (a * 1024) +ℤ pos (b * 1024)),
  rw (
      ≤→leb_ℤ (pos (a * 1024) +ℤ pos 2) (pos (b * 1024))
        (omega (arith, h, +ℤ_parts (pos (a * 1024)) (pos 2)))),
)

near_spaced :
    (after : Bool) (k : ℕ) (near : Option ℤ)
    → OnSome (λ n. IsSpaced (some n)) near
    → OnSome (IsOnSide after (pos (k * position_step))) near
    → (p : ℤ) × (position_near (pos (k * position_step)) after near ≡ some p)
near_spaced true k none s h = (pos (k * position_step) +ℤ pos position_step, refl)
near_spaced false k none s h = (pos (k * position_step) -ℤ pos position_step, refl)
near_spaced true k (some n) (b, e) h =
    rw (some-injective _ _ e) (between_spaced k b (rw (some-injective _ _ e) at h))
near_spaced false k (some n) (b, e) h =
    rw (some-injective _ _ e) (between_spaced b k (rw (some-injective _ _ e) at h))

module _ (db : Db) (channel : ℕ) (is_priority : Bool) (exclude_id : Option ℕ) where
  IsSpaced-rows :
      (target : ℤ) (after : Bool)
      → All (λ j. in_lane channel is_priority j ≡ true → IsSpaced j.position) db.jobs
      → All
          (λ j. OnSome (λ n. IsSpaced (some n)) j.position)
          (beside_rows db channel is_priority target after exclude_id)
  unfolding beside_rows lane_rows
  IsSpaced-rows target after h =
      All-map (λ j. IsSpaced j.position) (λ j. OnSome (λ n. IsSpaced (some n)) j.position) _
        (λ j (k, e). rw e (k, refl))
        (All-select _ _ _ (All-select_of (λ j. IsSpaced j.position) _ db.jobs h))

  find_position-spaced :
      (k : ℕ) (after : Bool)
      → All (λ j. in_lane channel is_priority j ≡ true → IsSpaced j.position) db.jobs
      → (p : ℤ) × (find_position db channel is_priority (pos (k * position_step)) after exclude_id
          ≡ some p)
  unfolding find_position
  find_position-spaced k true h =
      near_spaced true k _
        (min_position_attained _ _ (IsSpaced-rows (pos (k * position_step)) true h))
        (above_attained db channel is_priority (pos (k * position_step)) exclude_id)
  find_position-spaced k false h =
      near_spaced false k _
        (max_position_attained _ _ (IsSpaced-rows (pos (k * position_step)) false h))
        (below_attained db channel is_priority (pos (k * position_step)) exclude_id)

-- Renumbering keeps a row of the lane in the lane.
lane_kept :
    (target_id : ℕ) (channel : ℕ) (is_priority : Bool) (i : ℕ) (ids : List ℕ) (db : Db) (t : Job)
    → get_job db target_id ≡ some t
    → in_lane channel is_priority t ≡ true
    → (t' : Job) × (get_job (reindex_from i ids db) target_id ≡ some t')
      × (in_lane channel is_priority t' ≡ true)
unfolding reindex_from
lane_kept target_id channel is_priority i [] db t e lane = (t, e, lane)
lane_kept target_id channel is_priority i (a ∷ ids) db t e lane =
    let p = some (pos (i * position_step)) in
    elim (Bool-cases (target_id == a)) [
      | inl same ↦
          lane_kept target_id channel is_priority (suc i) ids _ (move p t)
            (get_job-set_position a p db target_id ∙ rw (same, e) refl) lane
      | inr other ↦
          lane_kept target_id channel is_priority (suc i) ids _ t
            (get_job-set_position a p db target_id ∙ rw (other, e) refl) lane
    ]

target_position_found :
    (db : Db) (target_id : ℕ) {t : Job} {n : ℤ}
    → get_job db target_id ≡ some t
    → t.position ≡ some n
    → target_position db target_id ≡ some n
unfolding target_position
target_position_found db target_id e at = rw (e, target_position) at

-- What `_position_beside` promises: a number `p` on the asked side of the target's position, found
-- free in the tables `c` that it leaves.
pub record IsPlaced (c : Conn) (target_id channel : ℕ) (is_priority after : Bool)
    (exclude_id : Option ℕ) (p : ℤ) : Type 0 where
  pub target : ℤ
  pub at : target_position c.tables target_id ≡ some target
  pub chosen : find_position c.tables channel is_priority target after exclude_id ≡ some p
  pub on_side : IsOnSide after target p

module _ (target_id channel : ℕ) (is_priority after : Bool) (exclude_id : Option ℕ) where
  abbrev Places : Conn → Result ℤ × Conn → Type 0
  Places c r =
      (p : ℤ) × (c' : Conn) × (r ≡ (ok p, c'))
      × IsPlaced c' target_id channel is_priority after exclude_id p

  round_found :
      (rounds : ℕ) (c : Conn) (n p : ℤ)
      → target_position c.tables target_id ≡ some n
      → find_position c.tables channel is_priority n after exclude_id ≡ some p
      → Places c
          (position_beside_rounds (suc rounds) target_id channel is_priority after exclude_id c)
  unfolding position_beside_rounds
  round_found rounds c n p at chosen = (
    p,
    c,
    rw (at, chosen),
    record {
      target = n;
      at = at;
      chosen = chosen;
      on_side = find_position-IsOnSide c.tables channel is_priority n exclude_id after p chosen;
    },
  )

  -- Beside a queued job of the lane there is always a position: no error is raised.
  pub position_beside-succeeds :
      (c : Conn) (t : Job) (n : ℤ)
      → get_job c.tables target_id ≡ some t
      → in_lane channel is_priority t ≡ true
      → t.position ≡ some n
      → (p : ℤ) × (c' : Conn) × (position_beside target_id channel is_priority after exclude_id c
          ≡ (ok p, c'))
        × IsPlaced c' target_id channel is_priority after exclude_id p
  unfolding position_beside position_beside_rounds reindex_queue get_job
  position_beside-succeeds c t n e lane at =
      split (find_position c.tables channel is_priority n after exclude_id) refl
    where
      at_n : target_position c.tables target_id ≡ some n
      at_n = target_position_found c.tables target_id e at

      db' : Db
      db' = reindex_queue (queued_ids_ordered c.tables channel is_priority) c.tables

      spaced : All (λ j. in_lane channel is_priority j ≡ true → IsSpaced j.position) db'.jobs
      spaced = reindex_queue-IsSpaced c.tables channel is_priority

      kept :
          (t' : Job) × (get_job db' target_id ≡ some t') × (in_lane channel is_priority t' ≡ true)
      kept =
          lane_kept target_id channel is_priority 0
            (queued_ids_ordered c.tables channel is_priority) c.tables t e lane

      spaced_target :
          (t' : Job)
          → get_job db' target_id ≡ some t'
          → in_lane channel is_priority t' ≡ true
          → IsSpaced t'.position
      spaced_target t' e' = All-find _ (λ j. j.id == target_id) db'.jobs spaced e'

      split :
          (o : Option ℤ)
          → find_position c.tables channel is_priority n after exclude_id ≡ o
          → Places c (position_beside_rounds 2 target_id channel is_priority after exclude_id c)
      split (some p) chosen = round_found 1 c n p at_n chosen
      split none full =
          let (t', e', lane') = kept in
          let (k, at') = spaced_target t' e' lane' in
          let (p, chosen) =
            find_position-spaced db' channel is_priority exclude_id k after spaced in
          rw (at_n, full, position_beside_rounds)
            (round_found 0 (record c { tables = db' }) (pos (k * position_step)) p
              (target_position_found db' target_id e' at') chosen)
