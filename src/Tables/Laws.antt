-- ===== src/Tables/Laws.antt =====
-- How the shared updates change what the shared queries find.
use mathlib.Core.Option
use custom_queuer.Prelude.{
  ==→≡, Bool, List, Option, [], arith, false, find-passes, if◌then◌else◌, refl, some, true, ℕ, ℤ,
  ◌==◌, ◌∷◌, ◌≡◌,
}
use custom_queuer.Tables.Rows.{Db, Job}
use custom_queuer.Tables.Connection.{
  Conn, Error, Exec, Result, bind_result, guard, ok, raise, ◌>>=◌, ◌>>◌,
}
use custom_queuer.Tables.Queries.{find_job, get_job, set_position, unlock, update_job, update_rows}

module _ (f : Job → Job) (keeps : (j : Job) → (f j).id ≡ j.id) where
  -- Updating one row by id changes that row and no other.
  pub find_job-update_rows :
      (job_id other : ℕ) (js : List Job)
      → find_job other (update_rows f job_id js)
        ≡ (if other == job_id then Option.map f (find_job other js) else find_job other js)
  unfolding find_job update_rows
  find_job-update_rows job_id other [] = ground arith
  find_job-update_rows job_id other (j ∷ js) =
      ground (arith, keeps j, find_job-update_rows job_id other js)

pub find_job-id :
    (job_id : ℕ) (js : List Job) (j : Job) → find_job job_id js ≡ some j → j.id ≡ job_id
unfolding find_job
find_job-id job_id js j h = ==→≡ _ _ (find-passes (λ j. j.id == job_id) js j h)

pub get_job-update_job :
    (f : Job → Job) (job_id other : ℕ) (db : Db)
    → ((j : Job) → (f j).id ≡ j.id)
    → get_job (update_job f job_id db) other
      ≡ (if other == job_id then Option.map f (get_job db other) else get_job db other)
unfolding get_job update_job
get_job-update_job f job_id other db keeps = find_job-update_rows f keeps job_id other db.jobs

pub get_job-set_position :
    (job_id : ℕ) (p : Option ℤ) (db : Db) (other : ℕ)
    → get_job (set_position job_id p db) other ≡ (
        if other == job_id
        then Option.map {A = Job} (λ j. record j { position = p }) (get_job db other)
        else get_job db other)
unfolding set_position
get_job-set_position job_id p db other = get_job-update_job _ job_id other db (λ j. refl)

pub get_job-id : (db : Db) (job_id : ℕ) (j : Job) → get_job db job_id ≡ some j → j.id ≡ job_id
unfolding get_job
get_job-id db job_id j h = find_job-id job_id db.jobs j h

pub get_job-unlock :
    (job_id other : ℕ) (db : Db) → get_job (unlock job_id db) other ≡ get_job db other
unfolding get_job unlock
get_job-unlock job_id other db = refl

-- A guard that was passed was true.
pub guard-eq-ok :
    {A : Type 0} (b : Bool) (e : Error) (m : Exec A) (c : Conn) {r : A} {c' : Conn}
    → (guard b e >> m) c ≡ (ok r, c')
    → (b ≡ true) × (m c ≡ (ok r, c'))
guard-eq-ok true e m c h = (refl, h)
guard-eq-ok false e m c h = absurd (cc)

-- A bind that returned: both parts did.
pub >>=-eq-ok :
    {A B : Type 0} (m : Exec A) (f : A → Exec B) (c : Conn) {b : B} {c' : Conn}
    → (m >>= f) c ≡ (ok b, c')
    → (a : A) × (c₁ : Conn) × (m c ≡ (ok a, c₁)) × (f a c₁ ≡ (ok b, c'))
>>=-eq-ok {A} {B} m f c {b} {c'} h = go (m c).0 (m c).1 refl h
  where
    go :
        (r : Result A) (c₁ : Conn)
        → m c ≡ (r, c₁)
        → bind_result r f c₁ ≡ (ok b, c')
        → (a : A) × (c₂ : Conn) × (m c ≡ (ok a, c₂)) × (f a c₂ ≡ (ok b, c'))
    go (ok a) c₁ e k = (a, c₁, e, k)
    go (raise x) c₁ e k = absurd (cc)
