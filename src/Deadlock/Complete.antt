-- ===== src/Deadlock/Complete.antt =====
-- Where `_find_deadlock` (src/queuer/db.py) finds no loop there is none.
use mathlib.Core.List.{cons≢nil}
use custom_queuer.Prelude.{
  ==_false→≢, ==→≡, Bool, Bool-cases, List, Option, [], ap, arith, elem, false, false≢true, inl,
  inr, length, none, refl, some, subst, suc, sym, true, zero, ℕ, ≡→==, ◌==◌, ◌∙◌, ◌∷◌, ◌≡◌, ◌≢◌,
  ◌⊎◌,
}
use custom_queuer.Tables.{Db}
use custom_queuer.Deadlock.{
  Scan, Search, Why, after_scan, closes, find_deadlock, find_parent, goes_on, loop, no_loop,
  no_parent, scan_steps, search_fuel, search_loop, search_round, start_search, steps, walk_back,
}
use custom_queuer.Deadlock.Sound.{In, IsWalk, walk_end}

elem_here : (n : ℕ) (ns : List ℕ) → elem n (n ∷ ns) ≡ true
unfolding elem
elem_here n ns = rw (≡→== n n refl)

elem_there : (n m : ℕ) (ns : List ℕ) → elem n ns ≡ true → elem n (m ∷ ns) ≡ true
unfolding elem
elem_there n m ns h = ground (arith, h)

elem_split :
    (n m : ℕ) (seen todo : List ℕ)
    → elem n (m ∷ seen) ≡ true
    → (elem n seen ≡ true) ⊎ (elem n (m ∷ todo) ≡ true)
unfolding elem
elem_split n m seen todo h = ground (arith, h)

-- The state that a scan goes on with.
abbrev scanned : Search → Scan → Search
scanned s (closes why parent) = s
scanned s (goes_on s') = s'

module _ (db : Db) (job_id : ℕ) where
  -- Each step of the job leads to a seen job, and not to the start.
  abbrev IsExplored : List ℕ → ℕ → Type 0
  IsExplored seen n =
      (x : ℕ) (w : Why) → In (x, w) (steps db n) → (x ≢ job_id) × (elem x seen ≡ true)

  -- A seen job still waits on the stack, or is explored.
  abbrev IsFrontier : Search → Type 0
  IsFrontier s = (n : ℕ) → elem n s.seen ≡ true → (elem n s.todo ≡ true) ⊎ IsExplored s.seen n

  -- What scanning the steps `given` of one job leaves, if none of them closes a loop.
  record Scanned (given : List (ℕ × Why)) (s s' : Search) : Type 0 where
    keeps_seen : (n : ℕ) → elem n s.seen ≡ true → elem n s'.seen ≡ true
    keeps_todo : (n : ℕ) → elem n s.todo ≡ true → elem n s'.todo ≡ true
    covers : (x : ℕ) (w : Why) → In (x, w) given → (x ≢ job_id) × (elem x s'.seen ≡ true)
    new_on_stack :
        (n : ℕ) → elem n s'.seen ≡ true → (elem n s.seen ≡ true) ⊎ (elem n s'.todo ≡ true)

  -- One more step in front of the scanned ones.
  Scanned-cons :
      (nxt : ℕ) (why : Why) (rest : List (ℕ × Why)) (s s₁ s' : Search)
      → nxt ≢ job_id
      → elem nxt s₁.seen ≡ true
      → ((n : ℕ) → elem n s.seen ≡ true → elem n s₁.seen ≡ true)
      → ((n : ℕ) → elem n s.todo ≡ true → elem n s₁.todo ≡ true)
      → ((n : ℕ) → elem n s₁.seen ≡ true → (elem n s.seen ≡ true) ⊎ (elem n s₁.todo ≡ true))
      → Scanned rest s₁ s'
      → Scanned ((nxt, why) ∷ rest) s s'
  Scanned-cons nxt why rest s s₁ s' ne here seen todo fresh r = record {
    keeps_seen = λ n h. r.keeps_seen n (seen n h);
    keeps_todo = λ n h. r.keeps_todo n (todo n h);
    covers = λ x w i. elim i [
      | inl same ↦
          let e : x ≡ nxt = ap (λ (p : ℕ × Why). p.0) same in
          (
            (λ bad. ne (sym e ∙ bad)),
            subst (λ n. elem n s'.seen ≡ true) (sym e) (r.keeps_seen nxt here),
          )
      | inr later ↦ r.covers x w later
    ];
    new_on_stack = λ n h. elim (r.new_on_stack n h) [
      | inl old ↦ elim (fresh n old) [ inl a ↦ inl a | inr b ↦ inr (r.keeps_todo n b) ]
      | inr b ↦ inr b
    ];
  }

  scan_steps-Scanned :
      (node : ℕ) (given : List (ℕ × Why)) (s s' : Search)
      → scan_steps job_id node given s ≡ goes_on s'
      → Scanned given s s'
  unfolding scan_steps elem
  scan_steps-Scanned node [] s s' e = subst (Scanned [] s) (ap (scanned s) e) (record {
    keeps_seen = λ n h. h;
    keeps_todo = λ n h. h;
    covers = λ x w i. absurd i;
    new_on_stack = λ n h. inl h;
  })
  scan_steps-Scanned node ((nxt, why) ∷ rest) s s' e = elim (Bool-cases (nxt == job_id)) [
    | inl t ↦ absurd (cc (rw t at e))
    | inr f ↦ elim (Bool-cases (elem nxt s.seen)) [
      | inl old ↦
          Scanned-cons nxt why rest s s s' (==_false→≢ nxt job_id f) old (λ n h. h) (λ n h. h)
            (λ n h. inl h) (scan_steps-Scanned node rest s s' (rw (f, old) at e))
      | inr new ↦
          let s₁ : Search = record {
            parent = (nxt, node, why) ∷ s.parent;
            seen = nxt ∷ s.seen;
            todo = nxt ∷ s.todo;
          } in
          Scanned-cons nxt why rest s s₁ s' (==_false→≢ nxt job_id f) (elem_here nxt s.seen)
            (λ n h. elem_there n nxt s.seen h) (λ n h. elem_there n nxt s.todo h)
            (λ n h. elem_split n nxt s.seen s.todo h)
            (scan_steps-Scanned node rest s₁ s' (rw (f, new) at e))
    ]
  ]

  -- One round keeps every seen job on the stack or explored.
  IsFrontier-round :
      (node : ℕ) (rest : List ℕ) (s s' : Search)
      → s.todo ≡ node ∷ rest
      → Scanned (steps db node) (record s { todo = rest }) s'
      → IsFrontier s
      → IsFrontier s'
  unfolding elem
  IsFrontier-round node rest s s' top r frontier n seen = elim (r.new_on_stack n seen) [
    | inr b ↦ inl b
    | inl old ↦ elim (frontier n old) [
      | inr explored ↦ inr (λ x w i. let (ne, h) = explored x w i in (ne, r.keeps_seen x h))
      | inl waits ↦ elim (Bool-cases (n == node)) [
        | inl t ↦
            inr (λ x w i. r.covers x w (subst (λ m. In (x, w) (steps db m)) (==→≡ n node t) i))
        | inr f ↦ inl (r.keeps_todo n (ground (arith, f, rw top at waits)))
      ]
    ]
  ]

  abbrev Explored : Type 0
  Explored =
      (seen : List ℕ) × (elem job_id seen ≡ true)
      × ((n : ℕ) → elem n seen ≡ true → IsExplored seen n)

  walk_back-ne-no_loop :
      (fuel : ℕ) (parent : List (ℕ × ℕ × Why)) (cur : ℕ) (l : List (ℕ × Why))
      → walk_back fuel job_id parent cur l ≢ no_loop
  unfolding walk_back
  walk_back-ne-no_loop zero parent cur l e = absurd (cc)
  walk_back-ne-no_loop (suc fuel) parent cur l e =
      by_test (cur == job_id) (find_parent cur parent)
        (λ prev why. walk_back-ne-no_loop fuel parent prev ((cur, why) ∷ l)) e
    where
      by_test :
          (b : Bool) (o : Option (ℕ × Why))
          → ((prev : ℕ) (why : Why) → walk_back fuel job_id parent prev ((cur, why) ∷ l) ≢ no_loop)
          → (elim b [
            | true ↦ loop l
            | false ↦ elim o [
              | none ↦ no_parent
              | some (prev, why) ↦ walk_back fuel job_id parent prev ((cur, why) ∷ l)
            ]
          ])
            ≢ no_loop
      by_test true o rec e' = absurd (cc)
      by_test false none rec e' = absurd (cc)
      by_test false (some (prev, why)) rec e' = rec prev why e'

  -- A search that ends without a loop has explored everything that it saw.
  search_loop-explored :
      (fuel : ℕ) (s : Search)
      → elem job_id s.seen ≡ true
      → IsFrontier s
      → search_loop fuel db job_id s ≡ no_loop
      → Explored
  unfolding search_loop elem
  search_loop-explored zero s start frontier e = absurd (cc)
  search_loop-explored (suc fuel) s start frontier e =
      by_todo s.todo refl e (λ s'. search_loop-explored fuel s')
    where
      by_scan :
          (node : ℕ) (rest : List ℕ) (sc : Scan)
          → s.todo ≡ node ∷ rest
          → scan_steps job_id node (steps db node) (record s { todo = rest }) ≡ sc
          → after_scan job_id node (search_loop fuel db job_id) sc ≡ no_loop
          → ((s' : Search)
              → elem job_id s'.seen ≡ true
              → IsFrontier s'
              → search_loop fuel db job_id s' ≡ no_loop
              → Explored)
          → Explored
      by_scan node rest (closes why parent) top es h rec =
          absurd (walk_back-ne-no_loop (suc (length parent)) parent node _ h)
      by_scan node rest (goes_on s') top es h rec =
          let r = scan_steps-Scanned node (steps db node) (record s { todo = rest }) s' es in
          rec s' (r.keeps_seen job_id start) (IsFrontier-round node rest s s' top r frontier) h

      by_todo :
          (todo : List ℕ)
          → s.todo ≡ todo
          → search_round db job_id s (search_loop fuel db job_id) todo ≡ no_loop
          → ((s' : Search)
              → elem job_id s'.seen ≡ true
              → IsFrontier s'
              → search_loop fuel db job_id s' ≡ no_loop
              → Explored)
          → Explored
      by_todo [] top h rec = (
        s.seen,
        start,
        λ n seen. elim (frontier n seen) [
          | inl waits ↦ absurd (false≢true (rw top at waits))
          | inr explored ↦ explored
        ],
      )
      by_todo (node ∷ rest) top h rec = by_scan node rest _ top refl h rec

  -- A walk from an explored job stays among the explored, and never comes back to the start.
  explored_walk :
      (seen : List ℕ)
      → ((n : ℕ) → elem n seen ≡ true → IsExplored seen n)
      → (node : ℕ) (l : List (ℕ × Why)) → elem node seen ≡ true
      → IsWalk db node l
      → l ≢ []
      → walk_end node l ≢ job_id
  explored_walk seen closed node [] h w ne = absurd (ne refl)
  explored_walk seen closed node ((nxt, why) ∷ []) h w ne = (closed node h nxt why w.0).0
  explored_walk seen closed node ((nxt, why) ∷ y ∷ rest) h w ne =
      explored_walk seen closed nxt (y ∷ rest) (closed node h nxt why w.0).1 w.1 cons≢nil

-- Where the search reports no loop, no walk of the graph leads from the job back to it.
pub find_deadlock_complete :
    (db : Db) (job_id : ℕ) (l : List (ℕ × Why))
    → find_deadlock db job_id ≡ no_loop
    → IsWalk db job_id l
    → l ≢ []
    → walk_end job_id l ≢ job_id
unfolding find_deadlock elem
find_deadlock_complete db job_id l e w ne =
    let (seen, start, closed) =
      search_loop-explored db job_id (search_fuel db) (start_search job_id) (elem_here job_id [])
        (λ n h. inl h) e in
    explored_walk db job_id seen closed job_id l start w ne
