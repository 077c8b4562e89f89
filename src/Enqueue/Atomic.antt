-- ===== src/Enqueue/Atomic.antt =====
-- What `enqueue` (src/queuer/db.py) leaves when it raises.
use custom_queuer.Prelude.{
  Bool, List, Option, [], false, inl, inr, is_some, none, not, refl, some, subst, suc, sym, true,
  zero, ℕ, ℤ, ◌∙◌, ◌∷◌, ◌≡◌, ◌⊎◌,
}
use custom_queuer.Tables.{
  Conn, Db, Error, Exec, Fixes-bind, Fixes-get_tables, Fixes-guard, Fixes-lift, Fixes-pure,
  Fixes-then, Fixes-throw, Fixes-update, IsOpen, Mode, Result, bind_result, committed_db,
  get_tables, guard, lift, no_free_position, not_queued_here, ok, pure, raise, rollback_on_error,
  try_rollback, type_error, update, ◌>>=◌, ◌>>◌,
}
use custom_queuer.Queue.{
  find_position, next_position, position_beside, position_beside_rounds, position_or,
  target_position, with_target,
}
use custom_queuer.Deadlock.{Answer, find_deadlock, loop, no_fuel, no_loop, no_parent}
use custom_queuer.Checks.{Python}
use custom_queuer.Request.{Checked, Request, check_request}
use custom_queuer.Enqueue.{
  commit_if, enqueue, finish_insert, insert_deps, insert_job, insert_request, is_queued_in, place,
  place_at, refuse_deadlock, refuse_loop, target_of,
}

IsOpen-position_beside_rounds :
    (rounds target_id channel : ℕ) (is_priority after : Bool) (exclude_id : Option ℕ)
    → IsOpen (position_beside_rounds rounds target_id channel is_priority after exclude_id)
unfolding position_beside_rounds
IsOpen-position_beside_rounds zero target_id channel is_priority after exclude_id =
    Fixes-throw committed_db no_free_position
IsOpen-position_beside_rounds (suc rounds) target_id channel is_priority after exclude_id =
    Fixes-bind committed_db get_tables _ (Fixes-get_tables committed_db) λ db.
      with_target_open (target_position db target_id) _ λ target.
        position_or_open (find_position db channel is_priority target after exclude_id) _ (
          Fixes-then committed_db (update _) _ (Fixes-update committed_db _ (λ c. refl))
            (IsOpen-position_beside_rounds rounds target_id channel is_priority after exclude_id))
  where
    with_target_open :
        (o : Option ℤ) (k : ℤ → Exec ℤ) → ((t : ℤ) → IsOpen (k t)) → IsOpen (with_target o k)
    with_target_open none k h = Fixes-throw committed_db type_error
    with_target_open (some t) k h = h t

    position_or_open : (o : Option ℤ) (m : Exec ℤ) → IsOpen m → IsOpen (position_or o m)
    position_or_open none m h = h
    position_or_open (some p) m h = Fixes-pure committed_db p

IsOpen-place : (r : Request) → IsOpen (place r)
unfolding place position_beside
IsOpen-place r = by_target (target_of r.before r.after)
  where
    by_target :
        (o : Option ℕ) → IsOpen (place_at o (not (is_some r.before)) r.channel r.is_priority)
    by_target none =
        Fixes-bind committed_db get_tables _ (Fixes-get_tables committed_db)
          (λ db. Fixes-pure committed_db (next_position db r.channel r.is_priority))
    by_target (some t) = Fixes-bind committed_db get_tables _ (Fixes-get_tables committed_db) λ db.
        Fixes-then committed_db
          (guard (is_queued_in db t r.channel r.is_priority) (not_queued_here t)) _
          (Fixes-guard committed_db (is_queued_in db t r.channel r.is_priority) (not_queued_here t))
          (IsOpen-position_beside_rounds 2 t r.channel r.is_priority (not (is_some r.before)) none)

IsOpen-insert_job :
    (now : ℕ) (r : Request) (checked : Checked) (position : ℤ)
    → IsOpen (insert_job now r checked position)
unfolding insert_job
IsOpen-insert_job now r checked position =
    Fixes-bind committed_db get_tables _ (Fixes-get_tables committed_db) λ db.
      Fixes-then committed_db (guard _ _) _ (Fixes-guard committed_db _ _) (
        Fixes-then committed_db (update _) _ (Fixes-update committed_db _ (λ c. refl))
          (Fixes-pure committed_db _))

IsOpen-insert_deps : (job_id : ℕ) (deps : List (ℕ × Mode)) → IsOpen (insert_deps job_id deps)
unfolding insert_deps
IsOpen-insert_deps job_id [] = Fixes-pure committed_db tt
IsOpen-insert_deps job_id ((dep_id, mode) ∷ rest) =
    Fixes-bind committed_db get_tables _ (Fixes-get_tables committed_db) λ db.
      Fixes-then committed_db (guard _ _) _ (Fixes-guard committed_db _ _) (
        Fixes-then committed_db (update _) _ (Fixes-update committed_db _ (λ c. refl))
          (IsOpen-insert_deps job_id rest))

pub IsOpen-refuse_deadlock : (b : Bool) (job_id : ℕ) → IsOpen (refuse_deadlock b job_id)
IsOpen-refuse_deadlock false job_id = Fixes-pure committed_db tt
IsOpen-refuse_deadlock true job_id =
    Fixes-bind committed_db get_tables _ (Fixes-get_tables committed_db)
      (λ db. by_answer (find_deadlock db job_id))
  where
    by_answer : (a : Answer) → IsOpen (refuse_loop a)
    by_answer no_loop = Fixes-pure committed_db tt
    by_answer no_fuel = Fixes-throw committed_db _
    by_answer no_parent = Fixes-throw committed_db _
    by_answer (loop l) = Fixes-throw committed_db _

IsOpen-finish_insert :
    (r : Request) (position : ℤ) (new_id : ℕ) → IsOpen (finish_insert r position new_id)
unfolding finish_insert
IsOpen-finish_insert r position new_id =
    Fixes-bind committed_db get_tables _ (Fixes-get_tables committed_db) λ db.
      Fixes-then committed_db (lift _) _ (Fixes-lift committed_db _) (
        Fixes-then committed_db (insert_deps new_id r.deps) _ (IsOpen-insert_deps new_id r.deps) (
          Fixes-then committed_db (refuse_deadlock _ new_id) _ (IsOpen-refuse_deadlock _ new_id)
            (Fixes-pure committed_db new_id)))

pub IsOpen-insert_request :
    (now : ℕ) (r : Request) (checked : Checked) → IsOpen (insert_request now r checked)
unfolding insert_request
IsOpen-insert_request now r checked =
    Fixes-then committed_db (update _) _ (Fixes-update committed_db _ (λ c. refl)) (
      Fixes-bind committed_db (place r) _ (IsOpen-place r) λ position.
        Fixes-bind committed_db (insert_job now r checked position) _
          (IsOpen-insert_job now r checked position)
          (λ new_id. IsOpen-finish_insert r position new_id))

-- An error leaves the tables as they were, or as they were last committed.
abbrev Undone : {A : Type 0} → Conn → Result A × Conn → Type 0
Undone c (ok a, c') = Unit
Undone c (raise e, c') = (c' ≡ c) ⊎ (c' ≡ record c { tables = c.committed })

Undone-rollback :
    {A : Type 0} (c : Conn) (r : Result A) (c' : Conn)
    → c'.committed ≡ c.committed
    → Undone c (rollback_on_error (r, c'))
Undone-rollback c (ok a) c' e = tt
Undone-rollback c (raise x) c' e = inr (λ i. record { tables = e i; committed = e i })

Undone-commit : (b : Bool) (new_id : ℕ) (c c' : Conn) → Undone c ((commit_if b >> pure new_id) c')
Undone-commit true new_id c c' = tt
Undone-commit false new_id c c' = tt

enqueue-Undone :
    (python : Python) (now : ℕ) (r : Request) (c : Conn) → Undone c (enqueue python now r c)
unfolding enqueue
enqueue-Undone python now r c = by_check (check_request python c.tables r)
  where
    by_insert :
        (checked : Checked) (x : Result ℕ × Conn)
        → Undone c x
        → Undone c (bind_result x.0 (λ new_id. commit_if r.do_commit >> pure new_id) x.1)
    by_insert checked (ok new_id, c') h = Undone-commit r.do_commit new_id c c'
    by_insert checked (raise e, c') h = h

    by_check :
        (x : Result Checked)
        → Undone c (
            (lift x >>= λ checked. try_rollback (insert_request now r checked) >>= λ new_id.
            commit_if r.do_commit >> pure new_id)
              c)
    by_check (raise e) = inl refl
    by_check (ok checked) = by_insert checked _ (
        Undone-rollback c (insert_request now r checked c).0 (insert_request now r checked c).1
          ((IsOpen-insert_request now r checked).at c))

-- A rejected `enqueue` changes nothing: with no transaction open before it, the connection is the
-- one that it was given.
pub enqueue_rejected_unchanged :
    (python : Python) (now : ℕ) (r : Request) (c c' : Conn) (e : Error)
    → c.tables ≡ c.committed
    → enqueue python now r c ≡ (raise e, c')
    → c' ≡ c
enqueue_rejected_unchanged python now r c c' e clean h =
    elim (subst (Undone c) h (enqueue-Undone python now r c)) [
      | inl same ↦ same
      | inr back ↦ back ∙ (λ i. record { tables = sym clean i; committed = c.committed })
    ]

-- Without `commit`, an `enqueue` commits nothing.
pub IsOpen-enqueue :
    (python : Python) (now : ℕ) (r : Request) → r.do_commit ≡ false → IsOpen (enqueue python now r)
unfolding enqueue
IsOpen-enqueue python now r held =
    Fixes-bind committed_db get_tables _ (Fixes-get_tables committed_db) λ db.
      Fixes-bind committed_db (lift _) _ (Fixes-lift committed_db _) λ checked.
        Fixes-bind committed_db (try_rollback (insert_request now r checked)) _
          (IsOpen-try_rollback _ (IsOpen-insert_request now r checked))
          λ new_id.
            Fixes-then committed_db (commit_if r.do_commit) _
              (subst (λ b. IsOpen (commit_if b)) (sym held) (Fixes-pure committed_db tt))
              (Fixes-pure committed_db new_id)
  where
    IsOpen-try_rollback : {A : Type 0} (m : Exec A) → IsOpen m → IsOpen (try_rollback m)
    IsOpen-try_rollback {A} m h = record { at = λ c. back (m c) (h.at c) }
      where
        back :
            {k : Db} (x : Result A × Conn)
            → x.1.committed ≡ k
            → (rollback_on_error x).1.committed ≡ k
        back (ok a, c) e = e
        back (raise x, c) e = e
