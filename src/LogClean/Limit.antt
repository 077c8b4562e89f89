-- ===== src/LogClean/Limit.antt =====
-- What `plan` (src/queuer/logclean.py) leaves in the directory under a size limit.
use custom_queuer.Prelude.{
  All, All-map, Bool, Bool-cases, List, Option, [], arith, exists, inl, inr, map, none, refl,
  select, some, subst, true, ℕ, ≡→==, ◌-◌, ◌||◌, ◌∷◌, ◌≡◌, ◌≤◌, ◌⊎◌,
}
use custom_queuer.Tables.{Db, Text, text_eq}
use custom_queuer.LogClean.{
  Candidate, Counted, LogFile, add_candidate, candidates, choose_more, counted_files,
  deletable_files, is_chosen, is_old, plan, total_left,
}
use custom_queuer.LogClean.Fits.{IsCounted, choose_more-Fits, text_eq_refl, text_eq→≡}
use custom_queuer.LogClean.Safe.{All-sort_candidates}

abbrev paths_of : List Candidate → List Text
paths_of cs = map (λ c. c.path) cs

total_left_mono :
    (a b : List Text) (fs : List Counted)
    → ((p : Text) → is_chosen a p ≡ true → is_chosen b p ≡ true)
    → total_left b fs ≤ total_left a fs
unfolding total_left
total_left_mono a b [] h = ground arith
total_left_mono a b (f ∷ fs) h =
    let rest = total_left_mono a b fs h in let here = h f.path in ground arith

candidates-IsCounted : (fs : List Counted) → All (IsCounted fs) (candidates fs)
unfolding candidates exists
candidates-IsCounted [] = tt
candidates-IsCounted (f ∷ fs) =
    by_age f.age (All-map _ _ (candidates fs) (λ c h. ground arith) (candidates-IsCounted fs))
  where
    by_age :
        (o : Option ℕ)
        → All (IsCounted (f ∷ fs)) (candidates fs)
        → All (IsCounted (f ∷ fs)) (add_candidate f o (candidates fs))
    by_age none rest = rest
    by_age (some ts) rest =
        let same = text_eq_refl f.path in let size = ≡→== f.size f.size refl in (ground arith, rest)

choose_more-from :
    (m : ℕ) (cs : List Candidate) (total : ℕ) (chosen : List Text) (p : Text)
    → is_chosen (choose_more m cs total chosen) p ≡ true
    → (is_chosen chosen p || is_chosen (paths_of cs) p) ≡ true
unfolding choose_more is_chosen exists
choose_more-from m [] total chosen p h = ground arith
choose_more-from m (c ∷ cs) total chosen p h =
    let kept = choose_more-from m cs total chosen p in
    let more = choose_more-from m cs (total - c.size) (c.path ∷ chosen) p in ground arith

is_chosen-select :
    (q : Candidate → Bool) (cs : List Candidate) (p : Text)
    → is_chosen (paths_of (select q cs)) p ≡ true
    → is_chosen (paths_of cs) p ≡ true
unfolding is_chosen exists select
is_chosen-select q [] p h = h
is_chosen-select q (c ∷ cs) p h = let rest = is_chosen-select q cs p in ground arith

select-is_chosen :
    (chosen : List Text) (cs : List Candidate) (p : Text)
    → is_chosen chosen p ≡ true
    → is_chosen (paths_of cs) p ≡ true
    → is_chosen (paths_of (select (λ c. is_chosen chosen c.path) cs)) p ≡ true
unfolding is_chosen exists select
select-is_chosen chosen [] p h among = among
select-is_chosen chosen (c ∷ cs) p h among = elim (Bool-cases (text_eq p c.path)) [
  | inl same ↦
      let here = subst (λ s. is_chosen chosen s ≡ true) (text_eq→≡ p c.path same) h in ground arith
  | inr other ↦ let rest = select-is_chosen chosen cs p h in ground arith
]

select-All :
    (q : Candidate → Bool) (cs : List Candidate) → All (λ c. q c ≡ true) cs → select q cs ≡ cs
unfolding select
select-All q [] h = refl
select-All q (c ∷ cs) h = let rest = select-All q cs h.1 in let here = h.0 in rw (here, rest) refl

-- With a size limit, either the counted logs that are not selected add up to at most the limit, or
-- every log that may be deleted is selected.
pub plan_limit :
    (db : Db) (files : List LogFile) (max_age : Option ℕ) (max_bytes now : ℕ)
    → (total_left
          (map (λ c. c.path) (plan db files max_age (some max_bytes) now))
          (counted_files db files)
        ≤ max_bytes)
      ⊎ (plan db files max_age (some max_bytes) now ≡ deletable_files db files)
unfolding plan deletable_files
plan_limit db files max_age max_bytes now =
    elim (choose_more-Fits max_bytes counted deletable (total_left old counted) old all_counted
      (ground arith)) [
        | inl fits ↦ inl (let less = total_left_mono chosen _ counted selected in ground arith)
        | inr all ↦ inr (select-All _ deletable all)
      ]
  where
    counted : List Counted
    counted = counted_files db files

    deletable : List Candidate
    deletable = deletable_files db files

    old : List Text
    old = paths_of (select (is_old now max_age) deletable)

    chosen : List Text
    chosen = choose_more max_bytes deletable (total_left old counted) old

    all_counted : All (IsCounted counted) deletable
    all_counted = All-sort_candidates _ _ (candidates-IsCounted counted)

    selected :
        (p : Text)
        → is_chosen chosen p ≡ true
        → is_chosen (paths_of (select (λ c. is_chosen chosen c.path) deletable)) p ≡ true
    selected p h =
        let from = choose_more-from max_bytes deletable (total_left old counted) old p h in
        let was_old = is_chosen-select (is_old now max_age) deletable p in
        select-is_chosen chosen deletable p h (ground arith)
