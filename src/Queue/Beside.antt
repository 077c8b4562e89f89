-- ===== src/Queue/Beside.antt =====
-- A position that one round of `_position_beside` (src/queuer/db.py) finds is right beside the
-- target's: on the asked side of it, with no other row of the lane in between.
use custom_queuer.Prelude.{
  +ℤ_parts, -ℤ_parts, All, All-find, All-map, All-select_inv, Bool, Bool-cases, Option, arith,
  false, inl, inr, leb_ℤ, leb_ℤ→≤, ltb_ℤ, ltb_ℤ_false→≤, ltb_ℤ→<, midpoint_between, none, not, pos,
  select, select-passes, some, some-injective, subst, true, ℕ, ℤ, ◌&&◌, ◌+ℤ◌, ◌<ℤ◌, ◌==◌, ◌≡◌, ◌≤ℤ◌,
  ◌⊎◌,
}
use custom_queuer.Tables.{Db, Job, get_job, in_lane}
use custom_queuer.Queue.{
  beside_rows, find_position, is_excluded, lane_rows, max_position, min_position, position_above,
  position_below, position_between, position_near,
}
use custom_queuer.Queue.Positions.{
  AtLeast, AtMost, OnSome, le-max_position, max_position_attained, min_position-le,
  min_position_attained,
}

-- `p` is on the asked side of `target`.
abbrev pub IsOnSide : Bool → ℤ → ℤ → Type 0
IsOnSide true target p = target <ℤ p
IsOnSide false target p = p <ℤ target

-- `q` does not lie between `target` and `p`.
abbrev pub IsNotBetween : Bool → ℤ → ℤ → ℤ → Type 0
IsNotBetween true target p q = (q ≤ℤ target) ⊎ (p <ℤ q)
IsNotBetween false target p q = (target ≤ℤ q) ⊎ (q <ℤ p)

pub position_between_strict :
    (low high p : ℤ) → position_between low high ≡ some p → (low <ℤ p) × (p <ℤ high)
unfolding position_between
position_between_strict low high p e = elim (Bool-cases (leb_ℤ (low +ℤ pos 2) high)) [
  | inl t ↦
      subst (λ m. (low <ℤ m) × (m <ℤ high)) (some-injective _ _ (rw t at e))
        (midpoint_between low high (leb_ℤ→≤ (low +ℤ pos 2) high t))
  | inr f ↦ absurd (cc (rw f at e))
]

near-IsOnSide :
    (after : Bool) (target p : ℤ) (near : Option ℤ)
    → OnSome (IsOnSide after target) near
    → position_near target after near ≡ some p
    → IsOnSide after target p
near-IsOnSide true target p none h e =
    subst (λ m. target <ℤ m) (some-injective _ _ e) (omega (arith, +ℤ_parts target (pos 1024)))
near-IsOnSide true target p (some n) h e = (position_between_strict target n p e).0
near-IsOnSide false target p none h e =
    subst (λ m. m <ℤ target) (some-injective _ _ e) (omega (arith, -ℤ_parts target (pos 1024)))
near-IsOnSide false target p (some n) h e = (position_between_strict n target p e).1

IsNotBetween-above :
    (target p q : ℤ) (near : Option ℤ)
    → (ltb_ℤ target q ≡ true → AtLeast near (some q))
    → position_near target true near ≡ some p
    → IsNotBetween true target p q
IsNotBetween-above target p q none h e = elim (Bool-cases (ltb_ℤ target q)) [
  | inl t ↦ absurd (h t)
  | inr f ↦ inl (ltb_ℤ_false→≤ target q f)
]
IsNotBetween-above target p q (some n) h e = elim (Bool-cases (ltb_ℤ target q)) [
  | inl t ↦ inr (omega (arith, h t, position_between_strict target n p e))
  | inr f ↦ inl (ltb_ℤ_false→≤ target q f)
]

IsNotBetween-below :
    (target p q : ℤ) (near : Option ℤ)
    → (ltb_ℤ q target ≡ true → AtMost near (some q))
    → position_near target false near ≡ some p
    → IsNotBetween false target p q
IsNotBetween-below target p q none h e = elim (Bool-cases (ltb_ℤ q target)) [
  | inl t ↦ absurd (h t)
  | inr f ↦ inl (ltb_ℤ_false→≤ q target f)
]
IsNotBetween-below target p q (some n) h e = elim (Bool-cases (ltb_ℤ q target)) [
  | inl t ↦ inr (omega (arith, h t, position_between_strict n target p e))
  | inr f ↦ inl (ltb_ℤ_false→≤ q target f)
]

module _ (db : Db) (channel : ℕ) (is_priority : Bool) (target : ℤ) (exclude_id : Option ℕ) where
  -- The nearest position above the target bounds every position above it.
  after_rows :
      All
        (λ j.
          in_lane channel is_priority j ≡ true
          → position_above target j.position && not (is_excluded exclude_id j.id) ≡ true
          → AtLeast
              (min_position (beside_rows db channel is_priority target true exclude_id))
              j.position)
        db.jobs
  unfolding beside_rows lane_rows
  after_rows = All-select_inv _ (in_lane channel is_priority) db.jobs (
      All-select_inv _ _ (select (in_lane channel is_priority) db.jobs)
        (min_position-le (beside_rows db channel is_priority target true exclude_id)))

  before_rows :
      All
        (λ j.
          in_lane channel is_priority j ≡ true
          → position_below target j.position && not (is_excluded exclude_id j.id) ≡ true
          → AtMost
              (max_position (beside_rows db channel is_priority target false exclude_id))
              j.position)
        db.jobs
  unfolding beside_rows lane_rows
  before_rows = All-select_inv _ (in_lane channel is_priority) db.jobs (
      All-select_inv _ _ (select (in_lane channel is_priority) db.jobs)
        (le-max_position (beside_rows db channel is_priority target false exclude_id)))

  pub above_attained :
      OnSome
        (λ n. target <ℤ n)
        (min_position (beside_rows db channel is_priority target true exclude_id))
  unfolding beside_rows
  above_attained =
      min_position_attained (λ n. target <ℤ n) _
        (All-map _ (λ j. OnSome (λ n. target <ℤ n) j.position)
          (beside_rows db channel is_priority target true exclude_id)
          (λ j h. on_above j.position (not (is_excluded exclude_id j.id)) h)
          (select-passes _ (lane_rows db channel is_priority)))
    where
      on_above :
          (o : Option ℤ) (b : Bool)
          → position_above target o && b ≡ true
          → OnSome (λ n. target <ℤ n) o
      on_above none b h = tt
      on_above (some n) b h = ltb_ℤ→< target n (ground (arith, h))

  pub below_attained :
      OnSome
        (λ n. n <ℤ target)
        (max_position (beside_rows db channel is_priority target false exclude_id))
  unfolding beside_rows
  below_attained =
      max_position_attained (λ n. n <ℤ target) _
        (All-map _ (λ j. OnSome (λ n. n <ℤ target) j.position)
          (beside_rows db channel is_priority target false exclude_id)
          (λ j h. on_below j.position (not (is_excluded exclude_id j.id)) h)
          (select-passes _ (lane_rows db channel is_priority)))
    where
      on_below :
          (o : Option ℤ) (b : Bool)
          → position_below target o && b ≡ true
          → OnSome (λ n. n <ℤ target) o
      on_below none b h = tt
      on_below (some n) b h = ltb_ℤ→< n target (ground (arith, h))

  -- Whatever one round finds lies on the asked side of the target.
  pub find_position-IsOnSide :
      (after : Bool) (p : ℤ)
      → find_position db channel is_priority target after exclude_id ≡ some p
      → IsOnSide after target p
  unfolding find_position
  find_position-IsOnSide true p e = near-IsOnSide true target p _ above_attained e
  find_position-IsOnSide false p e = near-IsOnSide false target p _ below_attained e

  -- No row of the lane lies between the target and the position found.
  pub find_position-IsNotBetween :
      (after : Bool) (p q : ℤ) (j : Job)
      → find_position db channel is_priority target after exclude_id ≡ some p
      → get_job db j.id ≡ some j
      → in_lane channel is_priority j ≡ true
      → is_excluded exclude_id j.id ≡ false
      → j.position ≡ some q
      → IsNotBetween after target p q
  unfolding find_position get_job
  find_position-IsNotBetween true p q j e found lane other at =
      IsNotBetween-above target p q _
        (λ t. subst (AtLeast _) at (
          All-find _ (λ k. k.id == j.id) db.jobs after_rows found lane
            (rw (at, other) (ground (arith, t)))))
        e
  find_position-IsNotBetween false p q j e found lane other at =
      IsNotBetween-below target p q _
        (λ t. subst (AtMost _) at (
          All-find _ (λ k. k.id == j.id) db.jobs before_rows found lane
            (rw (at, other) (ground (arith, t)))))
        e
