-- ===== src/LogClean/Safe.antt =====
-- What `plan` (src/queuer/logclean.py) may select.
use mathlib.Core.List.{Mem, mem-cons_of_mem, mem-cons_self}
use custom_queuer.Prelude.{
  All, All-select, Bool-cases, List, Option, [], false, inl, inr, none, refl, select, some, true, ℕ,
  ℤ, ◌∷◌, ◌≡◌, ◌⊎◌,
}
use custom_queuer.Tables.{Db, Job, is_terminal}
use custom_queuer.LogClean.{
  Candidate, Counted, LogFile, add_candidate, add_counted, candidates, count_file, count_parsed,
  counted_files, deletable_files, deletable_since, insert_candidate, is_old, job_of, leb_candidate,
  plan, select_by_size, sort_candidates,
}

-- A job that is gone, or that has ended.
abbrev HasEnded : Option Job → Type 0
HasEnded none = Unit
HasEnded (some j) = is_terminal j.status ≡ true

-- The candidate is a listed `<job id>.log` whose job is gone or has ended.
pub record MayGo (db : Db) (files : List LogFile) (c : Candidate) : Type 0 where
  pub file : LogFile
  pub job_id : ℤ
  pub listed : Mem file files
  pub same_path : file.path ≡ c.path
  pub is_job_log : file.stem ≡ some job_id
  pub job_ended : HasEnded (job_of db job_id)

All-insert_candidate :
    (P : Candidate → Type 0) (a : Candidate) (bs : List Candidate)
    → P a
    → All P bs
    → All P (insert_candidate a bs)
unfolding insert_candidate
All-insert_candidate P a [] h hs = (h, tt)
All-insert_candidate P a (b ∷ bs) h hs = elim (Bool-cases (leb_candidate a b)) [
  | inl t ↦ rw t (h, hs)
  | inr f ↦ rw f (hs.0, All-insert_candidate P a bs h hs.1)
]

pub All-sort_candidates :
    (P : Candidate → Type 0) (cs : List Candidate) → All P cs → All P (sort_candidates cs)
unfolding sort_candidates
All-sort_candidates P [] h = tt
All-sort_candidates P (c ∷ cs) h =
    All-insert_candidate P c (sort_candidates cs) h.0 (All-sort_candidates P cs h.1)

module _ (db : Db) (files : List LogFile) where
  by_file :
      (f : LogFile) (o : Option ℤ) (st : Option (ℕ × ℕ)) (rest : List Counted)
      → Mem f files
      → f.stem ≡ o
      → All (MayGo db files) (candidates rest)
      → All (MayGo db files) (candidates (add_counted (count_parsed db f.path o st) rest))
  unfolding candidates
  by_file f none st rest here stem h = h
  by_file f (some n) none rest here stem h = h
  by_file f (some n) (some (size, mtime)) rest here stem h = by_job (job_of db n) refl
    where
      by_job :
          (o : Option Job)
          → job_of db n ≡ o
          → All (MayGo db files) (
              add_candidate
                (record { path = f.path; size = size; age = deletable_since o mtime })
                (deletable_since o mtime)
                (candidates rest))
      by_job none e = (
        record {
          file = f;
          job_id = n;
          listed = here;
          same_path = refl;
          is_job_log = stem;
          job_ended = rw e tt;
        },
        h,
      )
      by_job (some j) e = by_end (Bool-cases (is_terminal j.status))
        where
          by_end :
              (is_terminal j.status ≡ true) ⊎ (is_terminal j.status ≡ false)
              → All (MayGo db files) (
                  add_candidate
                    (record { path = f.path; size = size; age = deletable_since (some j) mtime })
                    (deletable_since (some j) mtime)
                    (candidates rest))
          by_end (inr active) = rw active h
          by_end (inl ended) = rw ended (by_time j.outcome.finished_at)
            where
              by_time :
                  (o : Option ℕ)
                  → All (MayGo db files) (
                      add_candidate
                        (record { path = f.path; size = size; age = o })
                        o
                        (candidates rest))
              by_time none = h
              by_time (some ts) = (
                record {
                  file = f;
                  job_id = n;
                  listed = here;
                  same_path = refl;
                  is_job_log = stem;
                  job_ended = rw e ended;
                },
                h,
              )

  candidates-MayGo :
      (fs : List LogFile)
      → ((f : LogFile) → Mem f fs → Mem f files)
      → All (MayGo db files) (candidates (counted_files db fs))
  unfolding counted_files count_file candidates
  candidates-MayGo [] sub = tt
  candidates-MayGo (f ∷ fs) sub =
      by_file f f.stem f.stat (counted_files db fs) (sub f (mem-cons_self)) refl
        (candidates-MayGo fs (λ g m. sub g (mem-cons_of_mem f m)))

  -- Only the log of a job that is gone or has ended is ever selected.
  pub plan-MayGo :
      (max_age max_bytes : Option ℕ) (now : ℕ)
      → All (MayGo db files) (plan db files max_age max_bytes now)
  unfolding plan deletable_files
  plan-MayGo max_age max_bytes now = by_size max_bytes
    where
      deletable : All (MayGo db files) (deletable_files db files)
      deletable = All-sort_candidates _ _ (candidates-MayGo files (λ f m. m))

      by_size :
          (o : Option ℕ)
          → All (MayGo db files) (
              select_by_size o
                (counted_files db files)
                (deletable_files db files)
                (select (is_old now max_age) (deletable_files db files)))
      by_size none = All-select (MayGo db files) _ _ deletable
      by_size (some max_bytes) = All-select (MayGo db files) _ _ deletable
