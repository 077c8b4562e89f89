-- ===== src/Queue/Positions.antt =====
-- What `_position_beside` of src/queuer/db.py finds in one round: a free position next to the
-- target, with no other row of the lane in between.
use custom_queuer.Prelude.{
  All, All-map, Bool-cases, List, Option, [], arith, inl, inr, leb_ℤ, none, some, ℤ, ◌∷◌, ◌≤ℤ◌,
}
use custom_queuer.Tables.{Job}
use custom_queuer.Queue.{max_of, max_position, min_of, min_position}

-- `P` at a position that is there.
abbrev pub OnSome : (ℤ → Type 0) → Option ℤ → Type 0
OnSome P none = Unit
OnSome P (some p) = P p

abbrev pub AtLeast : Option ℤ → Option ℤ → Type 0
AtLeast none none = Unit
AtLeast none (some q) = ⊥
AtLeast (some m) none = Unit
AtLeast (some m) (some q) = m ≤ℤ q

abbrev pub AtMost : Option ℤ → Option ℤ → Type 0
AtMost none none = Unit
AtMost none (some q) = ⊥
AtMost (some m) none = Unit
AtMost (some m) (some q) = q ≤ℤ m

module _ (P : ℤ → Type 0) where
  OnSome-min_of : (a b : Option ℤ) → OnSome P a → OnSome P b → OnSome P (min_of a b)
  OnSome-min_of none b h k = k
  OnSome-min_of (some p) none h k = h
  OnSome-min_of (some p) (some q) h k = elim (Bool-cases (leb_ℤ p q)) [
    | inl e ↦ rw e h
    | inr e ↦ rw e k
  ]

  OnSome-max_of : (a b : Option ℤ) → OnSome P a → OnSome P b → OnSome P (max_of a b)
  OnSome-max_of none b h k = k
  OnSome-max_of (some p) none h k = h
  OnSome-max_of (some p) (some q) h k = elim (Bool-cases (leb_ℤ q p)) [
    | inl e ↦ rw e h
    | inr e ↦ rw e k
  ]

  pub min_position_attained :
      (rows : List Job) → All (λ j. OnSome P j.position) rows → OnSome P (min_position rows)
  unfolding min_position
  min_position_attained [] h = tt
  min_position_attained (j ∷ js) h =
      OnSome-min_of j.position (min_position js) h.0 (min_position_attained js h.1)

  pub max_position_attained :
      (rows : List Job) → All (λ j. OnSome P j.position) rows → OnSome P (max_position rows)
  unfolding max_position
  max_position_attained [] h = tt
  max_position_attained (j ∷ js) h =
      OnSome-max_of j.position (max_position js) h.0 (max_position_attained js h.1)

min_of-le_left : (a b : Option ℤ) → AtLeast (min_of a b) a
min_of-le_left a b = ground arith

min_of-le_right : (a b c : Option ℤ) → AtLeast b c → AtLeast (min_of a b) c
min_of-le_right a b c h = ground arith

le-max_of_left : (a b : Option ℤ) → AtMost (max_of a b) a
le-max_of_left a b = ground arith

le-max_of_right : (a b c : Option ℤ) → AtMost b c → AtMost (max_of a b) c
le-max_of_right a b c h = ground arith

pub min_position-le : (rows : List Job) → All (λ j. AtLeast (min_position rows) j.position) rows
unfolding min_position
min_position-le [] = tt
min_position-le (j ∷ js) = (
  min_of-le_left j.position (min_position js),
  All-map (λ k. AtLeast (min_position js) k.position)
      (λ k. AtLeast (min_of j.position (min_position js)) k.position) js
      (λ k. min_of-le_right j.position (min_position js) k.position) (min_position-le js),
)

pub le-max_position : (rows : List Job) → All (λ j. AtMost (max_position rows) j.position) rows
unfolding max_position
le-max_position [] = tt
le-max_position (j ∷ js) = (
  le-max_of_left j.position (max_position js),
  All-map (λ k. AtMost (max_position js) k.position)
      (λ k. AtMost (max_of j.position (max_position js)) k.position) js
      (λ k. le-max_of_right j.position (max_position js) k.position) (le-max_position js),
)
