-- ===== src/Deadlock/Parents.antt =====
-- The dictionary `parent` of `_find_deadlock` (src/queuer/db.py): following it from a job that the
-- search reached leads back to the start.
use custom_queuer.Prelude.{
  ==→≡, Bool-cases, List, [], arith, elem, false, false≢true, if◌then◌else◌, inl, inr, length, refl,
  some, subst, suc, sym, true, zero, ℕ, ≡→==, ◌<◌, ◌==◌, ◌∙◌, ◌∷◌, ◌≡◌, ◌≤◌, ◌⊎◌,
}
use custom_queuer.Deadlock.{Why, find_parent, loop, walk_back}

-- The jobs that have an entry.
unfoldable pub keys : List (ℕ × ℕ × Why) → List ℕ
keys [] = []
keys ((n, prev, why) ∷ rest) = n ∷ keys rest

-- The start, or a job that has an entry.
abbrev pub IsReached : ℕ → List (ℕ × ℕ × Why) → ℕ → Type 0
IsReached job_id parent n = (n ≡ job_id) ⊎ (elem n (keys parent) ≡ true)

-- Entries stand newest first: each has a new key, and a parent reached before it.
abbrev pub IsTree : ℕ → List (ℕ × ℕ × Why) → Type 0
IsTree job_id [] = Unit
IsTree job_id ((n, prev, why) ∷ rest) =
    (elem n (keys rest) ≡ false) × IsReached job_id rest prev × IsTree job_id rest

-- How many entries stand from a job's entry on.
rank : ℕ → List (ℕ × ℕ × Why) → ℕ
rank n [] = 0
rank n ((m, prev, why) ∷ rest) = if m == n then suc (length rest) else rank n rest

rank-le-length : (n : ℕ) (parent : List (ℕ × ℕ × Why)) → rank n parent ≤ length parent
unfolding rank
rank-le-length n [] = omega arith
rank-le-length n ((m, prev, why) ∷ rest) = ground (arith, rank-le-length n rest)

rank_pos : (n : ℕ) (parent : List (ℕ × ℕ × Why)) → elem n (keys parent) ≡ true → 0 < rank n parent
unfolding rank keys elem
rank_pos n [] h = absurd (false≢true h)
rank_pos n ((m, prev, why) ∷ rest) h = elim (Bool-cases (m == n)) [
  | inl t ↦ rw t (omega arith)
  | inr f ↦ rw f (rank_pos n rest (ground (arith, f, h)))
]

-- A job with an entry has a parent, which is the start or stands further on.
record HasParent (job_id cur : ℕ) (parent : List (ℕ × ℕ × Why)) : Type 0 where
  prev : ℕ
  why : Why
  found : find_parent cur parent ≡ some (prev, why)
  nearer : (prev ≡ job_id) ⊎ (elem prev (keys parent) ≡ true) × (rank prev parent < rank cur parent)

elem_ne : (n p : ℕ) (ns : List ℕ) → elem n ns ≡ false → elem p ns ≡ true → n == p ≡ false
elem_ne n p ns absent here = elim (Bool-cases (n == p)) [
  | inr f ↦ f
  | inl t ↦ absurd (false≢true (sym absent ∙ subst (λ m. elem m ns ≡ true) (sym (==→≡ n p t)) here))
]

has_parent :
    (job_id cur : ℕ) (parent : List (ℕ × ℕ × Why))
    → IsTree job_id parent
    → elem cur (keys parent) ≡ true
    → HasParent job_id cur parent
unfolding keys elem rank find_parent
has_parent job_id cur [] tree here = absurd (false≢true here)
has_parent job_id cur ((m, p, w) ∷ rest) (fresh, reached, tree) here =
    elim (Bool-cases (m == cur)) [
      | inl t ↦ record {
        prev = p;
        why = w;
        found = rw t;
        nearer = elim reached [
          | inl start ↦ inl start
          | inr old ↦ inr (
            ground (arith, old),
            rw (t, elem_ne m p (keys rest) fresh old) (omega (arith, rank-le-length p rest)),
          )
        ];
      }
      | inr f ↦
          let h = has_parent job_id cur rest tree (ground (arith, f, here)) in
          record {
            prev = h.prev;
            why = h.why;
            found = rw f h.found;
            nearer = elim h.nearer [
              | inl start ↦ inl start
              | inr old ↦
                  inr
                    (ground (arith, old.0), rw (f, elem_ne m h.prev (keys rest) fresh old.0) old.1)
            ];
          }
    ]

-- Enough rounds lead back to the start, with a loop.
walk_back-loop :
    (fuel job_id : ℕ) (parent : List (ℕ × ℕ × Why)) (cur : ℕ) (l : List (ℕ × Why))
    → IsTree job_id parent
    → (cur ≡ job_id) ⊎ (elem cur (keys parent) ≡ true) × (rank cur parent < fuel)
    → 0 < fuel
    → (l' : List (ℕ × Why)) × (walk_back fuel job_id parent cur l ≡ loop l')
unfolding walk_back
walk_back-loop zero job_id parent cur l tree at pos_fuel = absurd (omega arith)
walk_back-loop (suc fuel) job_id parent cur l tree (inl start) pos_fuel =
    (l, rw (≡→== cur job_id start, walk_back) refl)
walk_back-loop (suc fuel) job_id parent cur l tree (inr (here, below)) pos_fuel =
    elim (Bool-cases (cur == job_id)) [
      | inl t ↦ (l, rw (t, walk_back) refl)
      | inr f ↦
          let h = has_parent job_id cur parent tree here in
          let (l', e) =
            walk_back-loop fuel job_id parent h.prev ((cur, h.why) ∷ l) tree
              (elim h.nearer [
                | inl start ↦ inl start
                | inr old ↦ inr (old.0, omega (arith, old.1, below))
              ])
              (omega (arith, below, rank_pos cur parent here)) in
          (l', rw (f, h.found, walk_back) e)
    ]

pub walk_back-total :
    (job_id : ℕ) (parent : List (ℕ × ℕ × Why)) (node : ℕ) (l : List (ℕ × Why))
    → IsTree job_id parent
    → IsReached job_id parent node
    → (l' : List (ℕ × Why)) × (walk_back (suc (length parent)) job_id parent node l ≡ loop l')
walk_back-total job_id parent node l tree reached =
    walk_back-loop (suc (length parent)) job_id parent node l tree
      (elim reached [
        | inl start ↦ inl start
        | inr here ↦ inr (here, omega (arith, rank-le-length node parent))
      ])
      (omega arith)
