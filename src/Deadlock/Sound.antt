-- ===== src/Deadlock/Sound.antt =====
-- A loop that `_find_deadlock` (src/queuer/db.py) reports is a cycle of the "waits for" graph.
use mathlib.Core.List.{cons≢nil}
use custom_queuer.Prelude.{
  ==→≡, All, All-map, Bool-cases, List, Option, [], ap, arith, elem, inl, inr, length, none, refl,
  some, some-injective, subst, suc, zero, ℕ, ◌==◌, ◌∷◌, ◌≡◌, ◌≢◌, ◌⊎◌,
}
use custom_queuer.Tables.{Db}
use custom_queuer.Deadlock.{
  Answer, Scan, Search, Why, after_scan, closes, find_deadlock, find_parent, goes_on, loop,
  no_parent, scan_steps, search_fuel, search_loop, search_round, start_search, steps, walk_back,
}

abbrev pub In : ℕ × Why → List (ℕ × Why) → Type 0
In x [] = ⊥
In x (y ∷ ys) = (x ≡ y) ⊎ In x ys

-- Each entry is a job that the one before it (at first `node`) waits for, with the reason.
abbrev pub IsWalk : Db → ℕ → List (ℕ × Why) → Type 0
IsWalk db node [] = Unit
IsWalk db node ((nxt, why) ∷ rest) = In (nxt, why) (steps db node) × IsWalk db nxt rest

-- The job at the end of a walk.
abbrev pub walk_end : ℕ → List (ℕ × Why) → ℕ
walk_end node [] = node
walk_end node ((nxt, why) ∷ rest) = walk_end nxt rest

-- Each recorded parent is a step of the graph.
abbrev AreSteps : Db → List (ℕ × ℕ × Why) → Type 0
AreSteps db [] = Unit
AreSteps db ((n, prev, why) ∷ rest) = In (n, why) (steps db prev) × AreSteps db rest

All-In : (xs : List (ℕ × Why)) → All (λ x. In x xs) xs
All-In [] = tt
All-In (x ∷ xs) =
    (inl refl, All-map (λ y. In y xs) (λ y. In y (x ∷ xs)) xs (λ y h. inr h) (All-In xs))

module _ (db : Db) (job_id : ℕ) where
  abbrev ScanOk : ℕ → Scan → Type 0
  ScanOk node (closes why parent) = In (job_id, why) (steps db node) × AreSteps db parent
  ScanOk node (goes_on s) = AreSteps db s.parent

  abbrev AnswerOk : Answer → Type 0
  AnswerOk (loop l) = IsWalk db job_id l × (walk_end job_id l ≡ job_id) × (l ≢ [])
  AnswerOk _ = Unit

  -- `given` are the steps still to scan; each is a step of the node.
  scan_steps-ok :
      (node : ℕ) (given : List (ℕ × Why)) (s : Search)
      → All (λ x. In x (steps db node)) given
      → AreSteps db s.parent
      → ScanOk node (scan_steps job_id node given s)
  unfolding scan_steps
  scan_steps-ok node [] s sub h = h
  scan_steps-ok node ((nxt, why) ∷ rest) s sub h = elim (Bool-cases (nxt == job_id)) [
    | inl t ↦ rw t (subst (λ n. In (n, why) (steps db node)) (==→≡ nxt job_id t) sub.0, h)
    | inr f ↦ elim (Bool-cases (elem nxt s.seen)) [
      | inl old ↦ rw (f, old) (scan_steps-ok node rest s sub.1 h)
      | inr new ↦ rw (f, new) (scan_steps-ok node rest _ sub.1 (sub.0, h))
    ]
  ]

  find_parent-ok :
      (cur prev : ℕ) (why : Why) (parent : List (ℕ × ℕ × Why))
      → AreSteps db parent
      → find_parent cur parent ≡ some (prev, why)
      → In (cur, why) (steps db prev)
  unfolding find_parent
  find_parent-ok cur prev why [] h e = absurd (ground (arith, e))
  find_parent-ok cur prev why ((n, p, w) ∷ rest) h e = elim (Bool-cases (n == cur)) [
    | inl t ↦ found (==→≡ n cur t) (some-injective _ _ (rw t at e))
    | inr f ↦ find_parent-ok cur prev why rest h.1 (rw f at e)
  ]
    where
      found : n ≡ cur → ◌≡◌ {A = ℕ × Why} (p, w) (prev, why) → In (cur, why) (steps db prev)
      found same pair =
          rw (← same, ← ap (λ (x : ℕ × Why). x.0) pair, ← ap (λ (x : ℕ × Why). x.1) pair) h.0

  walk_back-ok :
      (fuel : ℕ) (parent : List (ℕ × ℕ × Why)) (cur : ℕ) (l : List (ℕ × Why))
      → AreSteps db parent
      → IsWalk db cur l
      → walk_end cur l ≡ job_id
      → l ≢ []
      → AnswerOk (walk_back fuel job_id parent cur l)
  unfolding walk_back
  walk_back-ok zero parent cur l h w en ne = tt
  walk_back-ok (suc fuel) parent cur l h w en ne = elim (Bool-cases (cur == job_id)) [
    | inl t ↦
        rw (t, AnswerOk)
          (subst (λ n. IsWalk db n l × (walk_end n l ≡ job_id) × (l ≢ [])) (==→≡ cur job_id t)
            (w, en, ne))
    | inr f ↦
        rw (f, AnswerOk)
          (back (find_parent cur parent) refl
            (λ prev why st. walk_back-ok fuel parent prev ((cur, why) ∷ l) h (st, w) en cons≢nil))
  ]
    where
      back :
          (o : Option (ℕ × Why))
          → find_parent cur parent ≡ o
          → ((prev : ℕ) (why : Why)
              → In (cur, why) (steps db prev)
              → AnswerOk (walk_back fuel job_id parent prev ((cur, why) ∷ l)))
          → AnswerOk (elim o [
            | none ↦ no_parent
            | some (prev, why) ↦ walk_back fuel job_id parent prev ((cur, why) ∷ l)
          ])
      back none e rec = tt
      back (some (prev, why)) e rec = rec prev why (find_parent-ok cur prev why parent h e)

  search_loop-ok :
      (fuel : ℕ) (s : Search) → AreSteps db s.parent → AnswerOk (search_loop fuel db job_id s)
  unfolding search_loop
  search_loop-ok zero s h = tt
  search_loop-ok (suc fuel) s h = by_todo s.todo (λ s' h'. search_loop-ok fuel s' h')
    where
      by_scan :
          (node : ℕ) (sc : Scan)
          → ScanOk node sc
          → ((s' : Search) → AreSteps db s'.parent → AnswerOk (search_loop fuel db job_id s'))
          → AnswerOk (after_scan job_id node (search_loop fuel db job_id) sc)
      by_scan node (closes why parent) st rec =
          walk_back-ok (suc (length parent)) parent node ((job_id, why) ∷ []) st.1 (st.0, tt) refl
            cons≢nil
      by_scan node (goes_on s') st rec = rec s' st

      by_todo :
          (todo : List ℕ)
          → ((s' : Search) → AreSteps db s'.parent → AnswerOk (search_loop fuel db job_id s'))
          → AnswerOk (search_round db job_id s (search_loop fuel db job_id) todo)
      by_todo [] rec = tt
      by_todo (node ∷ rest) rec =
          by_scan node _
            (scan_steps-ok node (steps db node) (record s { todo = rest }) (All-In (steps db node))
              h)
            rec

-- A reported loop starts and ends at the job, and each step of it is a job waiting for the next.
pub find_deadlock-IsWalk :
    (db : Db) (job_id : ℕ) (l : List (ℕ × Why))
    → find_deadlock db job_id ≡ loop l
    → IsWalk db job_id l × (walk_end job_id l ≡ job_id) × (l ≢ [])
unfolding find_deadlock
find_deadlock-IsWalk db job_id l e =
    subst (AnswerOk db job_id) e
      (search_loop-ok db job_id (search_fuel db) (start_search job_id) tt)
