-- ===== src/LogClean.antt =====
-- Which job logs may be deleted: `plan` of src/queuer/logclean.py. The directory listing with each
-- file's stat is an argument, and no path comes twice in it. Times are in microseconds.
pub mod Fits
pub mod Limit
pub mod Safe
use custom_queuer.Prelude.{
  Bool, List, Option, [], exists, false, if◌then◌else◌, leb, ltb, map, negsuc, none, pos, select,
  some, true, ℕ, ℤ, ◌&&◌, ◌+◌, ◌-◌, ◌==◌, ◌||◌, ◌∷◌,
}
use custom_queuer.Tables.{Db, Job, Text, find_job, is_terminal, text_eq}

-- A `*.log` file: `int(log_file.stem)` and `log_file.stat()`, where they do not raise.
pub record LogFile : Type 0 where
  pub path : Text
  pub stem : Option ℤ
  pub stat : Option (ℕ × ℕ)

-- A job log that is counted, and the key it is sorted by, where it may be deleted.
pub record Counted : Type 0 where
  pub path : Text
  pub size : ℕ
  pub age : Option ℕ

pub record Candidate : Type 0 where
  pub ts : ℕ
  pub path : Text
  pub size : ℕ

-- jobs.get(job_id)
abbrev pub job_of : Db → ℤ → Option Job
job_of db (pos n) = find_job n db.jobs
job_of db (negsuc n) = none

-- The timestamp of a log that may go.
abbrev pub deletable_since : Option Job → ℕ → Option ℕ
deletable_since none mtime = some mtime
deletable_since (some j) mtime = if is_terminal j.status then j.outcome.finished_at else none

-- `continue` where the name is no id or the file is gone.
abbrev pub count_parsed : Db → Text → Option ℤ → Option (ℕ × ℕ) → Option Counted
count_parsed db path none stat = none
count_parsed db path (some job_id) none = none
count_parsed db path (some job_id) (some (size, mtime)) =
    some record { path = path; size = size; age = deletable_since (job_of db job_id) mtime }

unfoldable pub count_file : Db → LogFile → Option Counted
unfolding find_job
count_file db f = count_parsed db f.path f.stem f.stat

-- The order of (ts, str(path)).
abbrev pub leb_text : Text → Text → Bool
leb_text [] ys = true
leb_text (x ∷ xs) [] = false
leb_text (x ∷ xs) (y ∷ ys) = let rest = leb_text xs ys in ltb x y || (x == y && rest)

abbrev pub leb_candidate : Candidate → Candidate → Bool
leb_candidate a b = ltb a.ts b.ts || (a.ts == b.ts && leb_text a.path b.path)

unfoldable pub insert_candidate : Candidate → List Candidate → List Candidate
insert_candidate a [] = a ∷ []
insert_candidate a (b ∷ bs) =
    let rest = insert_candidate a bs in if leb_candidate a b then a ∷ b ∷ bs else b ∷ rest

unfoldable pub sort_candidates : List Candidate → List Candidate
unfolding insert_candidate
sort_candidates [] = []
sort_candidates (a ∷ as_) = insert_candidate a (sort_candidates as_)

abbrev pub add_counted : Option Counted → List Counted → List Counted
add_counted none rest = rest
add_counted (some f) rest = f ∷ rest

unfoldable pub counted_files : Db → List LogFile → List Counted
unfolding count_file
counted_files db [] = []
counted_files db (f ∷ fs) = add_counted (count_file db f) (counted_files db fs)

abbrev pub add_candidate : Counted → Option ℕ → List Candidate → List Candidate
add_candidate f none rest = rest
add_candidate f (some ts) rest = record { ts = ts; path = f.path; size = f.size } ∷ rest

unfoldable pub candidates : List Counted → List Candidate
candidates [] = []
candidates (f ∷ fs) = add_candidate f f.age (candidates fs)

unfoldable pub is_chosen : List Text → Text → Bool
unfolding exists text_eq
is_chosen chosen path = exists (text_eq path) chosen

-- sum(size for f, size in sizes.items() if f not in chosen)
unfoldable pub total_left : List Text → List Counted → ℕ
unfolding is_chosen
total_left chosen [] = 0
total_left chosen (f ∷ fs) = (if is_chosen chosen f.path then 0 else f.size) + total_left chosen fs

-- The loop over `deletable`, up to its break. A difference below 0 would end it as 0 does.
unfoldable pub choose_more : ℕ → List Candidate → ℕ → List Text → List Text
unfolding is_chosen
choose_more max_bytes [] total chosen = chosen
choose_more max_bytes (f ∷ fs) total chosen =
    let kept = choose_more max_bytes fs total chosen in
    let more = choose_more max_bytes fs (total - f.size) (f.path ∷ chosen) in
    if leb total max_bytes then chosen else if is_chosen chosen f.path then kept else more

-- `ts < now - max_age`
abbrev pub is_old : ℕ → Option ℕ → Candidate → Bool
is_old now none f = false
is_old now (some max_age) f = ltb (f.ts + max_age) now

abbrev pub select_by_size :
    Option ℕ → List Counted → List Candidate → List Candidate → List Candidate
select_by_size none files deletable selected = selected
select_by_size (some max_bytes) files deletable selected =
    let paths = map (λ f. f.path) selected in
    let chosen = choose_more max_bytes deletable (total_left paths files) paths in
    select (λ f. is_chosen chosen f.path) deletable

unfoldable pub deletable_files : Db → List LogFile → List Candidate
unfolding counted_files candidates sort_candidates
deletable_files db files = sort_candidates (candidates (counted_files db files))

unfoldable pub plan : Db → List LogFile → Option ℕ → Option ℕ → ℕ → List Candidate
unfolding counted_files deletable_files total_left choose_more is_chosen select
plan db files max_age max_bytes now =
    let deletable = deletable_files db files in
    select_by_size max_bytes (counted_files db files) deletable
      (select (is_old now max_age) deletable)
