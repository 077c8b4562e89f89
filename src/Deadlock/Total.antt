-- ===== src/Deadlock/Total.antt =====
-- `_find_deadlock` (src/queuer/db.py) ends: the rounds that the model gives the search are enough,
-- and every job on the way back has its entry in `parent`.
use custom_queuer.Prelude.{
  All, All-map, Bool-cases, List, [], ap, arith, elem, false, false≢true, inl, inr, length, refl,
  subst, suc, sym, true, zero, ℕ, ≡→==, ◌+◌, ◌<◌, ◌==◌, ◌∙◌, ◌∷◌, ◌≡◌, ◌≤◌, ◌⊎◌,
}
use custom_queuer.Tables.{Db}
use custom_queuer.Deadlock.Targets.{
  IsTarget, length-targets, steps-IsTarget, targets, unseen, unseen-le-length, unseen-lt,
}
use custom_queuer.Deadlock.{
  Answer, Scan, Search, Why, after_scan, closes, find_deadlock, goes_on, loop, no_fuel, no_loop,
  no_parent, scan_steps, search_fuel, search_loop, search_round, start_search, steps,
}
use custom_queuer.Deadlock.Parents.{IsReached, IsTree, keys, walk_back-total}

-- What holds between two rounds.
record IsSearching (job_id : ℕ) (s : Search) : Type 0 where
  tree : IsTree job_id s.parent
  keys_seen : (n : ℕ) → elem n (keys s.parent) ≡ true → elem n s.seen ≡ true
  todo_reached : All (IsReached job_id s.parent) s.todo

-- Jobs to look at, and jobs that may still be put on the stack.
abbrev rounds_left : Db → Search → ℕ
rounds_left db s = length s.todo + unseen s.seen (targets db)

-- What a scan gives: a loop closed from a tree in which the node is reached, or fewer rounds left.
abbrev ScanTotal : Db → ℕ → ℕ → Search → Scan → Type 0
ScanTotal db job_id node s (closes why parent) = IsTree job_id parent × IsReached job_id parent node
ScanTotal db job_id node s (goes_on s') =
    IsSearching job_id s' × (rounds_left db s' ≤ rounds_left db s)

IsReached-push :
    (job_id n prev : ℕ) (why : Why) (parent : List (ℕ × ℕ × Why)) (m : ℕ)
    → IsReached job_id parent m
    → IsReached job_id ((n, prev, why) ∷ parent) m
unfolding keys elem
IsReached-push job_id n prev why parent m (inl start) = inl start
IsReached-push job_id n prev why parent m (inr here) = inr (ground (arith, here))

keys_fresh :
    (n : ℕ) (s : Search)
    → ((m : ℕ) → elem m (keys s.parent) ≡ true → elem m s.seen ≡ true)
    → elem n s.seen ≡ false
    → elem n (keys s.parent) ≡ false
keys_fresh n s sub new = elim (Bool-cases (elem n (keys s.parent))) [
  | inl t ↦ absurd (false≢true (sym new ∙ sub n t))
  | inr f ↦ f
]

module _ (db : Db) (job_id node : ℕ) where
  abbrev pushed : ℕ → Why → Search → Search
  pushed nxt why s = record {
    parent = (nxt, node, why) ∷ s.parent;
    seen = nxt ∷ s.seen;
    todo = nxt ∷ s.todo;
  }

  pushed-IsSearching :
      (nxt : ℕ) (why : Why) (s : Search)
      → IsSearching job_id s
      → IsReached job_id s.parent node
      → elem nxt s.seen ≡ false
      → IsSearching job_id (pushed nxt why s)
  unfolding keys elem
  pushed-IsSearching nxt why s h reached new = record {
    tree = (keys_fresh nxt s h.keys_seen new, reached, h.tree);
    keys_seen = λ n k. ground (arith, k, h.keys_seen n);
    todo_reached = (
      inr (rw (≡→== nxt nxt refl)),
      All-map _ (IsReached job_id ((nxt, node, why) ∷ s.parent)) s.todo
          (λ m r. IsReached-push job_id nxt node why s.parent m r) h.todo_reached,
    );
  }

  rounds_left-pushed :
      (nxt : ℕ) (why : Why) (s : Search)
      → elem nxt (targets db) ≡ true
      → elem nxt s.seen ≡ false
      → rounds_left db (pushed nxt why s) ≤ rounds_left db s
  rounds_left-pushed nxt why s target new =
      omega (arith, unseen-lt nxt s.seen (targets db) target new)

  ScanTotal-mono :
      (s s₁ : Search) (sc : Scan)
      → rounds_left db s₁ ≤ rounds_left db s
      → ScanTotal db job_id node s₁ sc
      → ScanTotal db job_id node s sc
  ScanTotal-mono s s₁ (closes why parent) le h = h
  ScanTotal-mono s s₁ (goes_on s') le h = (h.0, omega (arith, h.1, le))

  scan_steps-total :
      (given : List (ℕ × Why)) (s : Search)
      → All (IsTarget db) given
      → IsSearching job_id s
      → IsReached job_id s.parent node
      → ScanTotal db job_id node s (scan_steps job_id node given s)
  unfolding scan_steps
  scan_steps-total [] s ts h reached = (h, omega arith)
  scan_steps-total ((nxt, why) ∷ rest) s ts h reached = elim (Bool-cases (nxt == job_id)) [
    | inl t ↦ rw t (h.tree, reached)
    | inr f ↦ elim (Bool-cases (elem nxt s.seen)) [
      | inl old ↦ rw (f, old) (scan_steps-total rest s ts.1 h reached)
      | inr new ↦
          rw (f, new)
            (ScanTotal-mono s (pushed nxt why s) _ (rounds_left-pushed nxt why s ts.0 new) (
              scan_steps-total rest (pushed nxt why s) ts.1
                (pushed-IsSearching nxt why s h reached new)
                (IsReached-push job_id nxt node why s.parent node reached)))
    ]
  ]

-- The search answers.
abbrev pub IsAnswer : Answer → Type 0
IsAnswer no_loop = Unit
IsAnswer (loop l) = Unit
IsAnswer no_fuel = ⊥
IsAnswer no_parent = ⊥

module _ (db : Db) (job_id : ℕ) where
  search_loop-IsAnswer :
      (fuel : ℕ) (s : Search)
      → IsSearching job_id s
      → rounds_left db s < fuel
      → IsAnswer (search_loop fuel db job_id s)
  unfolding search_loop
  search_loop-IsAnswer zero s h few = absurd (omega arith)
  search_loop-IsAnswer (suc fuel) s h few = by_todo s.todo refl (λ s'. search_loop-IsAnswer fuel s')
    where
      by_scan :
          (node : ℕ) (rest : List ℕ) (sc : Scan)
          → s.todo ≡ node ∷ rest
          → ScanTotal db job_id node (record s { todo = rest }) sc
          → ((s' : Search)
              → IsSearching job_id s'
              → rounds_left db s' < fuel
              → IsAnswer (search_loop fuel db job_id s'))
          → IsAnswer (after_scan job_id node (search_loop fuel db job_id) sc)
      by_scan node rest (closes why parent) top t rec =
          let (l', e) = walk_back-total job_id parent node ((job_id, why) ∷ []) t.0 t.1 in
          subst IsAnswer (sym e) tt
      by_scan node rest (goes_on s') top t rec =
          rec s' t.0 (omega (arith, t.1, few, ap (λ (l : List ℕ). length l) top))

      by_todo :
          (todo : List ℕ)
          → s.todo ≡ todo
          → ((s' : Search)
              → IsSearching job_id s'
              → rounds_left db s' < fuel
              → IsAnswer (search_loop fuel db job_id s'))
          → IsAnswer (search_round db job_id s (search_loop fuel db job_id) todo)
      by_todo [] top rec = tt
      by_todo (node ∷ rest) top rec =
          let reached = subst (All (IsReached job_id s.parent)) top h.todo_reached in
          by_scan node rest _ top
            (scan_steps-total db job_id node (steps db node) (record s { todo = rest })
              (steps-IsTarget db node)
              (record { tree = h.tree; keys_seen = h.keys_seen; todo_reached = reached.1 })
              reached.0)
            rec

-- The search always answers, with a loop or with none: the rounds given to it and to the way back
-- are enough, and no look into `parent` fails.
pub find_deadlock-IsAnswer :
    (db : Db) (job_id : ℕ)
    → (find_deadlock db job_id ≡ no_loop)
      ⊎ ((l : List (ℕ × Why)) × (find_deadlock db job_id ≡ loop l))
unfolding find_deadlock keys elem
find_deadlock-IsAnswer db job_id =
    by_answer (search_loop (search_fuel db) db job_id (start_search job_id)) refl (
      search_loop-IsAnswer db job_id (search_fuel db) (start_search job_id)
        (record {
          tree = tt;
          keys_seen = λ n h. absurd (false≢true h);
          todo_reached = (inl refl, tt);
        })
        (omega (arith, unseen-le-length (job_id ∷ []) (targets db), length-targets db)))
  where
    by_answer :
        (a : Answer)
        → search_loop (search_fuel db) db job_id (start_search job_id) ≡ a
        → IsAnswer a
        → (search_loop (search_fuel db) db job_id (start_search job_id) ≡ no_loop)
          ⊎ ((l : List (ℕ × Why)) × (search_loop (search_fuel db) db job_id (start_search job_id)
                ≡ loop l))
    by_answer no_loop e h = inl e
    by_answer (loop l) e h = inr (l, e)
    by_answer no_fuel e h = absurd h
    by_answer no_parent e h = absurd h
