-- ===== src/History/States.antt =====
-- What `get_states` (src/queuer/db.py) finds, whatever the size of a chunk.
use mathlib.Core.Option
use custom_queuer.Prelude.{
  ==→≡, Bool, Bool-cases, List, Option, [], arith, drop, elem, false, find, if◌then◌else◌, inl, inr,
  length, none, refl, select, some, subst, suc, take, true, zero, ℕ, ◌*◌, ◌+◌, ◌-◌, ◌/◌, ◌==◌, ◌||◌,
  ◌∙◌, ◌∷◌, ◌≡◌, ◌≤◌,
}
use custom_queuer.Tables.{Db, Job, find_job, get_job}
use custom_queuer.History.{StateRow, get_states, put_state, put_states, state_chunks, state_row}

-- No two rows have the same id: it is the primary key.
abbrev pub HasDistinctIds : List Job → Type 0
HasDistinctIds [] = Unit
HasDistinctIds (j ∷ js) = (find_job j.id js ≡ none) × HasDistinctIds js

-- found.get(job_id)
unfoldable pub find_state : ℕ → List StateRow → Option StateRow
unfolding find
find_state job_id found = find (λ s. s.id == job_id) found

find_state-put_state :
    (k : ℕ) (r : StateRow) (found : List StateRow)
    → find_state k (put_state r found) ≡ (if r.id == k then some r else find_state k found)
unfolding find_state find put_state
find_state-put_state k r [] = ground arith
find_state-put_state k r (s ∷ ss) = ground (arith, find_state-put_state k r ss)

abbrev row_or : Option Job → Option StateRow → Option StateRow
row_or none old = old
row_or (some j) old = some (state_row j)

find_state-put_states :
    (k : ℕ) (js : List Job) (found : List StateRow)
    → HasDistinctIds js
    → find_state k (put_states js found) ≡ row_or (find_job k js) (find_state k found)
unfolding put_states find_job find
find_state-put_states k [] found h = refl
find_state-put_states k (j ∷ js) found h =
    let put = find_state-put_state k (state_row j) found in
    let rest = find_state-put_states k js (put_state (state_row j) found) h.1 in
    elim (Bool-cases (j.id == k)) [
      | inl same ↦
          let none_left = subst (λ i. find_job i js ≡ none) (==→≡ j.id k same) h.0 in
          rw (same, rest, none_left, put, same) refl
      | inr other ↦ rw (other, rest, put, other) refl
    ]

find_job-select :
    (k : ℕ) (p : ℕ → Bool) (js : List Job)
    → find_job k (select (λ j. p j.id) js) ≡ (if p k then find_job k js else none)
unfolding find_job find select
find_job-select k p [] = ground arith
find_job-select k p (j ∷ js) = ground (arith, find_job-select k p js)

HasDistinctIds-select :
    (p : ℕ → Bool) (js : List Job) → HasDistinctIds js → HasDistinctIds (select (λ j. p j.id) js)
unfolding select
HasDistinctIds-select p [] h = tt
HasDistinctIds-select p (j ∷ js) h = elim (Bool-cases (p j.id)) [
  | inl hit ↦ rw hit (rw (find_job-select j.id p js, hit) h.0, HasDistinctIds-select p js h.1)
  | inr miss ↦ rw miss (HasDistinctIds-select p js h.1)
]

elem-take-drop :
    (k size : ℕ) (ids : List ℕ) → elem k ids ≡ (elem k (take size ids) || elem k (drop size ids))
unfolding elem
elem-take-drop k zero ids = refl
elem-take-drop k (suc size) [] = refl
elem-take-drop k (suc size) (a ∷ ids) = ground (arith, elem-take-drop k size ids)

length-drop : (size : ℕ) (ids : List ℕ) → length (drop size ids) ≡ length ids - size
length-drop zero ids = omega arith
length-drop (suc size) [] = omega arith
length-drop (suc size) (a ∷ ids) = omega (arith, length-drop size ids)

abbrev row_if : Bool → Option Job → Option StateRow → Option StateRow
row_if true row old = row_or row old
row_if false row old = old

row_if-row_or :
    (a b : Bool) (row : Option Job) (old : Option StateRow)
    → row_if b row (row_or (if a then row else none) old) ≡ row_if (a || b) row old
row_if-row_or true true none old = refl
row_if-row_or true true (some j) old = refl
row_if-row_or true false row old = refl
row_if-row_or false b row old = refl

nil_of_length : (ids : List ℕ) → length ids ≤ 0 → ids ≡ []
nil_of_length [] h = refl
nil_of_length (a ∷ ids) h = absurd (omega arith)

state_chunks_lem :
    (k n size : ℕ) (jobs : List Job) (ids : List ℕ) (found : List StateRow)
    → HasDistinctIds jobs
    → length ids ≤ n * size
    → find_state k (state_chunks n size jobs ids found)
      ≡ row_if (elem k ids) (find_job k jobs) (find_state k found)
unfolding state_chunks
state_chunks_lem k zero size jobs ids found h few = rw (nil_of_length ids (omega (arith, few))) refl
state_chunks_lem k (suc n) size jobs ids found h few =
    let chunk = λ (i : ℕ). elem i (take size ids) in
    let rows = select (λ j. chunk j.id) jobs in
    let rest =
      state_chunks_lem k n size jobs (drop size ids) (put_states rows found) h
        (omega (arith, few, length-drop size ids)) in
    let put = find_state-put_states k rows found (HasDistinctIds-select chunk jobs h) in
    let row = find_job-select k chunk jobs in
    let both = elem-take-drop k size ids in
    rw (rest, put, row, both)
      (row_if-row_or (elem k (take size ids)) (elem k (drop size ids)) (find_job k jobs)
        (find_state k found))

row_if-none :
    (a : Bool) (row : Option Job)
    → row_if a row none ≡ (if a then Option.map state_row row else none)
row_if-none true none = refl
row_if-none true (some j) = refl
row_if-none false row = refl

-- For ids without repetition in the table, the answer has exactly the rows of the ids asked for.
pub get_states-get_job :
    (db : Db) (ids : List ℕ) (k : ℕ)
    → HasDistinctIds db.jobs
    → find_state k (get_states db ids)
      ≡ (if elem k ids then Option.map state_row (get_job db k) else none)
unfolding get_states get_job find_job find_state find
get_states-get_job db ids k h =
    let all =
      state_chunks_lem k ((length ids + 500 - 1) / 500) 500 db.jobs ids [] h (omega arith) in
    all ∙ row_if-none (elem k ids) (find_job k db.jobs)
