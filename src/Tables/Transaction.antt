-- ===== src/Tables/Transaction.antt =====
-- What a function of src/queuer/db.py leaves as it was, whether it returns or raises.
use custom_queuer.Prelude.{Bool, List, false, refl, true, ◌∙◌, ◌≡◌}
use custom_queuer.Tables.Rows.{Db, Job}
use custom_queuer.Tables.Connection.{
  Conn, Error, Exec, Result, bind_result, get_tables, guard, lift, ok, pure, raise, throw, update,
  ◌>>=◌, ◌>>◌,
}

-- `m` does not change the view of the connection.
pub record Fixes {V A : Type 0} (view : Conn → V) (m : Exec A) : Type 0 where
  pub at : (c : Conn) → view (m c).1 ≡ view c

module _ {V : Type 0} (view : Conn → V) where
  pub Fixes-pure : {A : Type 0} (a : A) → Fixes view (pure a)
  Fixes-pure a = record { at = λ c. refl }

  pub Fixes-throw : {A : Type 0} (e : Error) → Fixes view (throw {A = A} e)
  Fixes-throw e = record { at = λ c. refl }

  pub Fixes-lift : {A : Type 0} (r : Result A) → Fixes view (lift r)
  Fixes-lift r = record { at = λ c. refl }

  pub Fixes-bind :
      {A B : Type 0} (m : Exec A) (f : A → Exec B)
      → Fixes view m
      → ((a : A) → Fixes view (f a))
      → Fixes view (m >>= f)
  Fixes-bind {A} m f om of = record { at = λ c. go (m c).0 (m c).1 (om.at c) }
    where
      go : (r : Result A) (c' : Conn) {k : V} → view c' ≡ k → view (bind_result r f c').1 ≡ k
      go (ok a) c' e = (of a).at c' ∙ e
      go (raise x) c' e = e

  pub Fixes-then :
      {A B : Type 0} (m : Exec A) (n : Exec B) → Fixes view m → Fixes view n → Fixes view (m >> n)
  Fixes-then m n om on = Fixes-bind m (λ _. n) om (λ _. on)

  pub Fixes-get_tables : Fixes view get_tables
  Fixes-get_tables = record { at = λ c. refl }

  pub Fixes-guard : (b : Bool) (e : Error) → Fixes view (guard b e)
  Fixes-guard true e = Fixes-pure tt
  Fixes-guard false e = Fixes-throw e

  pub Fixes-update :
      (f : Db → Db)
      → ((c : Conn) → view (record c { tables = f c.tables }) ≡ view c)
      → Fixes view (update f)
  Fixes-update f h = record { at = h }

-- What a rollback goes back to.
abbrev pub committed_db : Conn → Db
committed_db c = c.committed

-- `m` commits nothing.
abbrev pub IsOpen : {A : Type 0} → Exec A → Type 0
IsOpen m = Fixes committed_db m

abbrev pub job_rows : Conn → List Job
job_rows c = c.tables.jobs
