-- ===== src/Commands/Atomic.antt =====
-- The transaction of a sweep of `add` (src/queuer/daemon.py).
use custom_queuer.Prelude.{
  Bool, List, Option, [], is_nil, none, refl, some, subst, sym, true, ℕ, ◌∙◌, ◌∷◌, ◌≡◌,
}
use custom_queuer.Tables.{
  Conn, Db, Fixes-bind, Fixes-get_tables, Fixes-lift, Fixes-pure, Fixes-then, Fixes-throw,
  Fixes-update, IsOpen, Result, Text, bind_result, commit, committed_db, get_tables, lift, ok, pure,
  raise, type_error, update, ◌>>=◌, ◌>>◌,
}
use custom_queuer.Checks.{Python}
use custom_queuer.Enqueue.{enqueue}
use custom_queuer.Daemon.{Config}
use custom_queuer.Lane.{Lane}
use custom_queuer.Enqueue.Atomic.{IsOpen-enqueue}
use custom_queuer.Commands.Specs.{AddArgs}
use custom_queuer.Commands.Prepare.{Prepared}
use custom_queuer.Commands.Plan.{AddPlan, System, check_add, plan}
use custom_queuer.Commands.Add.{
  AddReply, DryRun, add_jobs, cmd_add, dry_jobs, dry_run, dry_run_report, finally_rollback,
  insert_plan, insert_sweep, job_request, set_log_paths,
}

IsOpen-insert_sweep :
    (python : Python) (now : ℕ) (p : AddPlan) (last : Option ℕ) (xs : List Prepared)
    → IsOpen (insert_sweep python now p last xs)
unfolding insert_sweep job_request
IsOpen-insert_sweep python now p last [] = Fixes-pure committed_db []
IsOpen-insert_sweep python now p last (x ∷ xs) =
    Fixes-bind committed_db (enqueue python now (job_request python p last (is_nil xs) x)) _
      (IsOpen-enqueue python now (job_request python p last (is_nil xs) x) refl)
      λ job_id.
        Fixes-bind committed_db (insert_sweep python now p (some job_id) xs) _
          (IsOpen-insert_sweep python now p (some job_id) xs) (λ ids. Fixes-pure committed_db _)

IsOpen-set_log_paths :
    (log_path_of : ℕ → Text) (ids : List ℕ) → IsOpen (set_log_paths log_path_of ids)
unfolding set_log_paths
IsOpen-set_log_paths log_path_of [] = Fixes-pure committed_db tt
IsOpen-set_log_paths log_path_of (job_id ∷ ids) =
    Fixes-then committed_db (update _) _ (Fixes-update committed_db _ (λ c. refl))
      (IsOpen-set_log_paths log_path_of ids)

-- An error commits nothing, and a result all that was written.
abbrev pub IsAllOrNothing : {A : Type 0} → Conn → Result A × Conn → Type 0
IsAllOrNothing c (ok a, c') = c'.committed ≡ c'.tables
IsAllOrNothing c (raise e, c') = c'.committed ≡ c.committed

-- If the insertion of a sweep raises, nothing of it was committed; if it returns, all that it wrote
-- was.
pub add_jobs-IsAllOrNothing :
    (python : Python) (config : Config) (now : ℕ) (p : AddPlan) (c : Conn)
    → IsAllOrNothing c (add_jobs python config now p c)
unfolding add_jobs
add_jobs-IsAllOrNothing python config now p c =
    by_insert (insert_sweep python now p none p.prepared c)
      ((IsOpen-insert_sweep python now p none p.prepared).at c)
  where
    by_paths :
        (ids : List ℕ) (x : Result (Unit {0}) × Conn)
        → x.1.committed ≡ c.committed
        → IsAllOrNothing c (bind_result x.0 (λ _. commit >> pure ids) x.1)
    by_paths ids (ok u, c₂) e = refl
    by_paths ids (raise x, c₂) e = e

    by_insert :
        (x : Result (List ℕ) × Conn)
        → x.1.committed ≡ c.committed
        → IsAllOrNothing c (
            bind_result x.0
              (λ ids. set_log_paths config.log_path_of ids >> (commit >> pure ids))
              x.1)
    by_insert (ok ids, c₁) e =
        by_paths ids (set_log_paths config.log_path_of ids c₁)
          ((IsOpen-set_log_paths config.log_path_of ids).at c₁ ∙ e)
    by_insert (raise x, c₁) e = e

IsOpen-dry_jobs :
    (db : Db) (p : AddPlan) (lane ids : List ℕ) (xs : List Prepared)
    → IsOpen (dry_jobs db p lane ids xs)
unfolding dry_jobs
IsOpen-dry_jobs db p lane [] [] = Fixes-pure committed_db []
IsOpen-dry_jobs db p lane [] (x ∷ xs) = Fixes-throw committed_db type_error
IsOpen-dry_jobs db p lane (job_id ∷ ids) [] = Fixes-throw committed_db type_error
IsOpen-dry_jobs db p lane (job_id ∷ ids) (x ∷ xs) =
    Fixes-bind committed_db (lift _) _ (Fixes-lift committed_db _) λ j.
      Fixes-bind committed_db (dry_jobs db p lane ids xs) _ (IsOpen-dry_jobs db p lane ids xs)
        (λ js. Fixes-pure committed_db _)

IsOpen-dry_run_report : (p : AddPlan) (ids : List ℕ) → IsOpen (dry_run_report p ids)
unfolding dry_run_report
IsOpen-dry_run_report p ids =
    Fixes-bind committed_db get_tables _ (Fixes-get_tables committed_db) λ db.
      Fixes-bind committed_db (dry_jobs db p _ ids p.prepared) _
        (IsOpen-dry_jobs db p _ ids p.prepared) (λ js. Fixes-pure committed_db _)

-- What the dry run returns, if it returns.
abbrev Unchanged : Conn → Lane → Result (AddReply × Lane) × Conn → Type 0
Unchanged c lane (ok (reply, lane'), c') = (c' ≡ c) × (lane' ≡ lane)
Unchanged c lane (raise e, c') = Unit

dry_run-Unchanged :
    (python : Python) (now : ℕ) (lane : Lane) (p : AddPlan) (c : Conn)
    → c.tables ≡ c.committed
    → Unchanged c lane (
        (insert_sweep python now p none p.prepared >>= λ ids.
        finally_rollback (dry_run_report p ids) >>= λ report. pure (dry_run report, lane))
          c)
dry_run-Unchanged python now lane p c clean =
    by_insert (insert_sweep python now p none p.prepared c)
      ((IsOpen-insert_sweep python now p none p.prepared).at c)
  where
    back : (k : Db) → k ≡ c.committed → record c { tables = k; committed = k } ≡ c
    back k e i = record { tables = (e ∙ sym clean) i; committed = e i }

    by_report :
        (x : Result DryRun × Conn)
        → x.1.committed ≡ c.committed
        → Unchanged c lane (
            bind_result x.0
              (λ report. pure (dry_run report, lane))
              (record x.1 { tables = x.1.committed }))
    by_report (ok report, c₂) e = (back c₂.committed e, refl)
    by_report (raise x, c₂) e = tt

    by_insert :
        (x : Result (List ℕ) × Conn)
        → x.1.committed ≡ c.committed
        → Unchanged c lane (
            bind_result x.0
              (λ ids.
                finally_rollback (dry_run_report p ids) >>= λ report. pure (dry_run report, lane))
              x.1)
    by_insert (ok ids, c₁) e =
        by_report (dry_run_report p ids c₁) ((IsOpen-dry_run_report p ids).at c₁ ∙ e)
    by_insert (raise x, c₁) e = tt

-- With no transaction open, an `add --dry-run` that answers leaves the connection and the lane as
-- they were.
pub cmd_add-dry_run :
    (system : System) (config : Config) (now : ℕ) (gone : Bool) (lane lane' : Lane) (args : AddArgs)
    (p : AddPlan) (reply : AddReply) (c c' : Conn)
    → c.tables ≡ c.committed
    → check_add system c.tables args ≡ ok (plan p)
    → p.dry_run ≡ true
    → cmd_add system config now gone lane args c ≡ (ok (reply, lane'), c')
    → (c' ≡ c) × (lane' ≡ lane)
unfolding cmd_add insert_plan
cmd_add-dry_run system config now gone lane lane' args p reply c c' clean checked dry e =
    subst (Unchanged c lane) (planned ∙ e) (dry_run-Unchanged system.python now lane p c clean)
  where
    dry_plan :
        (insert_sweep system.python now p none p.prepared >>= λ ids.
        finally_rollback (dry_run_report p ids) >>= λ report. pure (dry_run report, lane))
          c
        ≡ insert_plan system.python config now gone lane p c
    dry_plan = rw dry refl

    planned :
        (insert_sweep system.python now p none p.prepared >>= λ ids.
        finally_rollback (dry_run_report p ids) >>= λ report. pure (dry_run report, lane))
          c
        ≡ cmd_add system config now gone lane args c
    planned = dry_plan ∙ rw checked refl
