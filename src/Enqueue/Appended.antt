-- ===== src/Enqueue/Appended.antt =====
-- `enqueue` (src/queuer/db.py) with neither `before` nor `after` appends: first in, first out.
use mathlib.Core.List.{map-append}
use mathlib.Core.Path.{ap₂}
use custom_queuer.Prelude.{
  +ℤ_parts, All, All-map, Bool, Bool-cases, List, Option, [], ap, arith, false, inl, inr, is_some,
  map, none, not, pos, refl, select, some, subst, suc, sym, true, ℕ, ℤ, ≡→==, ≤→leb_ℤ, ◌++◌, ◌+ℤ◌,
  ◌∙◌, ◌∷◌, ◌≡◌,
}
use custom_queuer.Tables.{
  >>=-eq-ok, Conn, Db, Fixes, Fixes-bind, Fixes-get_tables, Fixes-guard, Fixes-lift, Fixes-pure,
  Fixes-then, Fixes-throw, Fixes-update, Job, Mode, Result, bool_eq, get_tables, guard, guard-eq-ok,
  in_lane, integrity_error, job_rows, lift, ok, pure, raise, register_channel, rollback_on_error,
  try_rollback, update, ◌>>=◌, ◌>>◌,
}
use custom_queuer.Queue.{
  after_last, get_queue, insert_by_position, lane_rows, max_position, next_position, position_leb,
  queued_ids_ordered, sort_by_position,
}
use custom_queuer.Queue.Positions.{AtMost, le-max_position}
use custom_queuer.Deadlock.{Answer, find_deadlock, loop, no_fuel, no_loop, no_parent}
use custom_queuer.Checks.{Python}
use custom_queuer.Request.{Checked, Request, check_request}
use custom_queuer.Enqueue.{
  add_row, commit_if, enqueue, finish_insert, insert_deps, insert_job, insert_request, new_row,
  place, place_at, refuse_deadlock, refuse_loop, run_key_taken, target_of,
}

insert-append :
    (j n : Job) (ks : List Job)
    → position_leb j.position n.position ≡ true
    → insert_by_position j (ks ++ n ∷ []) ≡ insert_by_position j ks ++ n ∷ []
unfolding insert_by_position
insert-append j n [] h = rw h
insert-append j n (k ∷ ks) h = elim (Bool-cases (position_leb j.position k.position)) [
  | inl t ↦ rw t
  | inr f ↦ rw f (ap (λ l. k ∷ l) (insert-append j n ks h))
]

sort-append :
    (n : Job) (js : List Job)
    → All (λ j. position_leb j.position n.position ≡ true) js
    → sort_by_position (js ++ n ∷ []) ≡ sort_by_position js ++ n ∷ []
unfolding sort_by_position insert_by_position
sort-append n [] h = refl
sort-append n (j ∷ js) h =
    ap (insert_by_position j) (sort-append n js h.1) ∙ insert-append j n (sort_by_position js) h.0

select-append :
    (p : Job → Bool) (js ks : List Job) → select p (js ++ ks) ≡ select p js ++ select p ks
unfolding select
select-append p [] ks = refl
select-append p (j ∷ js) ks = elim (Bool-cases (p j)) [
  | inl t ↦ rw t (ap (λ l. j ∷ l) (select-append p js ks))
  | inr f ↦ rw f (select-append p js ks)
]

-- The next position is past every position of the lane.
next_position-past : (m q : Option ℤ) → AtMost m q → position_leb q (some (after_last m)) ≡ true
next_position-past m none h = refl
next_position-past none (some q) h = absurd h
next_position-past (some m) (some q) h =
    ≤→leb_ℤ q (m +ℤ pos 1024) (omega (arith, h, +ℤ_parts m (pos 1024)))

-- A row with the next position goes to the end of its lane.
pub queue_append :
    (db : Db) (j : Job) (channel : ℕ) (is_priority : Bool)
    → in_lane channel is_priority j ≡ true
    → j.position ≡ some (next_position db channel is_priority)
    → queued_ids_ordered (add_row j db) channel is_priority
      ≡ queued_ids_ordered db channel is_priority ++ j.id ∷ []
unfolding queued_ids_ordered get_queue next_position lane_rows select
queue_append db j channel is_priority lane at =
    let rows = select (in_lane channel is_priority) db.jobs in
    let past =
      All-map (λ k. AtMost (max_position rows) k.position)
        (λ k. position_leb k.position j.position ≡ true) rows
        (λ k h. rw at (next_position-past (max_position rows) k.position h))
        (le-max_position rows) in
    let one : select (in_lane channel is_priority) (j ∷ []) ≡ j ∷ [] = rw (select, lane) in
    ap (λ l. map (λ k. k.id) (sort_by_position l))
      (select-append (in_lane channel is_priority) db.jobs (j ∷ []) ∙ ap (λ l. rows ++ l) one)
    ∙ (ap (λ l. map (λ k. k.id) l) (sort-append j rows past)
        ∙ map-append (λ k. k.id) (sort_by_position rows) (j ∷ []))

-- The steps of `enqueue` behind the INSERT leave the rows of `jobs` alone.
jobs-insert_deps : (job_id : ℕ) (deps : List (ℕ × Mode)) → Fixes job_rows (insert_deps job_id deps)
unfolding insert_deps
jobs-insert_deps job_id [] = Fixes-pure job_rows tt
jobs-insert_deps job_id ((dep_id, mode) ∷ rest) =
    Fixes-bind job_rows get_tables _ (Fixes-get_tables job_rows) λ db.
      Fixes-then job_rows (guard _ _) _ (Fixes-guard job_rows _ _) (
        Fixes-then job_rows (update _) _ (Fixes-update job_rows _ (λ c. refl))
          (jobs-insert_deps job_id rest))

jobs-refuse_deadlock : (b : Bool) (job_id : ℕ) → Fixes job_rows (refuse_deadlock b job_id)
jobs-refuse_deadlock false job_id = Fixes-pure job_rows tt
jobs-refuse_deadlock true job_id =
    Fixes-bind job_rows get_tables _ (Fixes-get_tables job_rows)
      (λ db. by_answer (find_deadlock db job_id))
  where
    by_answer : (a : Answer) → Fixes job_rows (refuse_loop a)
    by_answer no_loop = Fixes-pure job_rows tt
    by_answer no_fuel = Fixes-throw job_rows _
    by_answer no_parent = Fixes-throw job_rows _
    by_answer (loop l) = Fixes-throw job_rows _

jobs-finish_insert :
    (r : Request) (position : ℤ) (new_id : ℕ) → Fixes job_rows (finish_insert r position new_id)
unfolding finish_insert
jobs-finish_insert r position new_id =
    Fixes-bind job_rows get_tables _ (Fixes-get_tables job_rows) λ db.
      Fixes-then job_rows (lift _) _ (Fixes-lift job_rows _) (
        Fixes-then job_rows (insert_deps new_id r.deps) _ (jobs-insert_deps new_id r.deps) (
          Fixes-then job_rows (refuse_deadlock _ new_id) _ (jobs-refuse_deadlock _ new_id)
            (Fixes-pure job_rows new_id)))

finish_insert-id :
    (r : Request) (position : ℤ) (new_id id : ℕ) (c c' : Conn)
    → finish_insert r position new_id c ≡ (ok id, c')
    → id ≡ new_id
unfolding finish_insert
finish_insert-id r position new_id id c c' e = ground arith

bool_eq_refl : (b : Bool) → bool_eq b b ≡ true
bool_eq_refl true = refl
bool_eq_refl false = refl

order_by_rows :
    (a b : Db) (channel : ℕ) (is_priority : Bool)
    → a.jobs ≡ b.jobs
    → queued_ids_ordered a channel is_priority ≡ queued_ids_ordered b channel is_priority
unfolding queued_ids_ordered get_queue lane_rows
order_by_rows a b channel is_priority e =
    ap (λ js. map (λ j. j.id) (sort_by_position (select (in_lane channel is_priority) js))) e

register_channel_keeps :
    (now channel : ℕ) (db : Db)
    → ((register_channel now channel db).jobs ≡ db.jobs)
      × ((register_channel now channel db).last_id ≡ db.last_id)
unfolding register_channel
register_channel_keeps now channel db = ground arith

-- A row inserted with the next position is the last of its lane.
new_row_last :
    (now : ℕ) (r : Request) (checked : Checked) (position : ℤ) (id : ℕ) (db : Db)
    → position ≡ next_position db r.channel r.is_priority
    → queued_ids_ordered (add_row (new_row now r checked position id) db) r.channel r.is_priority
      ≡ queued_ids_ordered db r.channel r.is_priority ++ id ∷ []
unfolding new_row
new_row_last now r checked position id db e =
    queue_append db (new_row now r checked position id) r.channel r.is_priority
      (rw (≡→== r.channel r.channel refl, bool_eq_refl r.is_priority)) (ap some e)

-- With no target the position is the next one, and the row goes in with the next id.
module _ (now : ℕ) (r : Request) (checked : Checked) where
  insert_job_lem :
      (position : ℤ) (id : ℕ) (c c' : Conn)
      → insert_job now r checked position c ≡ (ok id, c')
      → (id ≡ suc c.tables.last_id)
        × (c'.tables ≡ add_row (new_row now r checked position (suc c.tables.last_id)) c.tables)
  unfolding insert_job
  insert_job_lem position id c c' e =
      let (free, h) =
        guard-eq-ok (not (run_key_taken c.tables checked.run_key)) integrity_error _ c e in
      (ground (arith, h), sym (ap (λ (x : Result ℕ × Conn). x.1.tables) h))

  place_last :
      (position : ℤ) (c c' : Conn)
      → r.before ≡ none
      → r.after ≡ none
      → place r c ≡ (ok position, c')
      → (position ≡ next_position c.tables r.channel r.is_priority) × (c' ≡ c)
  unfolding place
  place_last position c c' b a e =
      let none_given : target_of r.before r.after ≡ none = ap₂ target_of b a in
      let h =
        subst
          (λ o. place_at o (not (is_some r.before)) r.channel r.is_priority c ≡ (ok position, c'))
          none_given e in
      (ground (arith, h), sym (ap (λ (x : Result ℤ × Conn). x.1) h))

  -- What an appending insert returns, and the order it leaves.
  insert_request_lem :
      (id : ℕ) (c c' : Conn)
      → r.before ≡ none
      → r.after ≡ none
      → insert_request now r checked c ≡ (ok id, c')
      → (id ≡ suc c.tables.last_id)
        × (queued_ids_ordered c'.tables r.channel r.is_priority
            ≡ queued_ids_ordered c.tables r.channel r.is_priority ++ id ∷ [])
  unfolding insert_request
  insert_request_lem id c c' b a e =
      let c₀ = record c { tables = register_channel now r.channel c.tables } in
      let (position, c₁, placed, e₁) =
        >>=-eq-ok (place r)
          (λ position. insert_job now r checked position >>= finish_insert r position) c₀ e in
      let (new_id, c₂, inserted, e₂) =
        >>=-eq-ok (insert_job now r checked position) (finish_insert r position) c₁ e₁ in
      let same_id = finish_insert-id r position new_id id c₂ c' e₂ in
      let rows = (jobs-finish_insert r position new_id).at c₂ in
      let last = place_last position c₀ c₁ b a placed in
      let new = insert_job_lem position new_id c₁ c₂ inserted in
      let (jobs_kept, last_kept) = register_channel_keeps now r.channel c.tables in
      let back : c₁ ≡ c₀ = last.1 in
      let id_is : id ≡ suc c₁.tables.last_id = same_id ∙ new.0 in
      let last_id : c₁.tables.last_id ≡ c.tables.last_id =
        ap (λ (x : Conn). x.tables.last_id) back ∙ last_kept in
      let rows' : c'.tables.jobs ≡ c₂.tables.jobs =
        ap (λ (x : Result ℕ × Conn). x.1.tables.jobs) (sym e₂) ∙ rows in
      let position_is : position ≡ next_position c₁.tables r.channel r.is_priority =
        last.0 ∙ ap (λ (x : Conn). next_position x.tables r.channel r.is_priority) (sym back) in
      (
        id_is ∙ ap suc last_id,
        order_by_rows c'.tables
              (add_row (new_row now r checked position (suc c₁.tables.last_id)) c₁.tables) r.channel
              r.is_priority (rows' ∙ ap (λ (x : Db). x.jobs) new.1)
            ∙ (new_row_last now r checked position (suc c₁.tables.last_id) c₁.tables position_is
                ∙ ap₂ (λ l (n : ℕ). l ++ n ∷ [])
                    (order_by_rows c₁.tables c.tables r.channel r.is_priority
                      (ap (λ (x : Conn). x.tables.jobs) back ∙ jobs_kept))
                    (sym id_is)),
      )

rollback-eq-ok :
    {A : Type 0} (m : Result A × Conn) {a : A} {c' : Conn}
    → rollback_on_error m ≡ (ok a, c')
    → m ≡ (ok a, c')
rollback-eq-ok (ok x, c) h = h
rollback-eq-ok (raise x, c) h = absurd (cc)

commit_if_lem :
    (b : Bool) (new_id id : ℕ) (c c' : Conn)
    → (commit_if b >> pure new_id) c ≡ (ok id, c')
    → (id ≡ new_id) × (c.tables ≡ c'.tables)
commit_if_lem true new_id id c c' h =
    (ground (arith, h), ap (λ (x : Result ℕ × Conn). x.1.tables) h)
commit_if_lem false new_id id c c' h =
    (ground (arith, h), ap (λ (x : Result ℕ × Conn). x.1.tables) h)

-- `enqueue` with neither `before` nor `after` returns an id that was never given before, and puts
-- the new job at the end of its lane, behind the others in their order.
pub enqueue_append_order :
    (python : Python) (now : ℕ) (r : Request) (c c' : Conn) (id : ℕ)
    → r.before ≡ none
    → r.after ≡ none
    → enqueue python now r c ≡ (ok id, c')
    → (id ≡ suc c.tables.last_id)
      × (queued_ids_ordered c'.tables r.channel r.is_priority
          ≡ queued_ids_ordered c.tables r.channel r.is_priority ++ id ∷ [])
unfolding enqueue
enqueue_append_order python now r c c' id b a e =
    let (checked, c₁, l, e₁) =
      >>=-eq-ok (lift (check_request python c.tables r))
        (λ checked. try_rollback (insert_request now r checked) >>= λ new_id.
          commit_if r.do_commit >> pure new_id)
        c e in
    let (new_id, c₂, t, e₂) =
      >>=-eq-ok (try_rollback (insert_request now r checked))
        (λ new_id. commit_if r.do_commit >> pure new_id) c₁ e₁ in
    let same : c₁ ≡ c = sym (ap (λ (x : Result Checked × Conn). x.1) l) in
    let (id_is, kept) = commit_if_lem r.do_commit new_id id c₂ c' e₂ in
    let (new_is, order) =
      insert_request_lem now r checked new_id c₁ c₂ b a
        (rollback-eq-ok (insert_request now r checked c₁) t) in
    (
      id_is ∙ (new_is ∙ ap (λ (x : Conn). suc x.tables.last_id) same),
      ap (λ (x : Db). queued_ids_ordered x r.channel r.is_priority) (sym kept)
          ∙ (order
              ∙ ap₂
                  (λ (x : Conn) (n : ℕ).
                    queued_ids_ordered x.tables r.channel r.is_priority ++ n ∷ [])
                  same (sym id_is)),
    )
