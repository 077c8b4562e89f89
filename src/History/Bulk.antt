-- ===== src/History/Bulk.antt =====
-- `dep_info_bulk` (src/queuer/db.py) beside `dep_info`.
use mathlib.Core.Option
use mathlib.Core.List.{append-nil, append_assoc}
use custom_queuer.Prelude.{
  ==→≡, All, All-map, All-select_of, Bool, Bool-cases, List, Option, [], ap, arith, elem, false,
  if◌then◌else◌, inl, inr, leb, map, none, refl, select, some, subst, sym, true, ℕ, ◌++◌, ◌==◌, ◌∙◌,
  ◌∷◌, ◌≡◌,
}
use custom_queuer.Tables.{Db, Dep, Mode, any, is_success, other_mode, success}
use custom_queuer.Deps.{
  DepInfo, dep_info, dep_rows, dep_status, insert_dep, is_active_row, is_any, sort_deps,
}
use custom_queuer.History.{
  add_dep, add_rows, change_entry, dep_info_bulk, insert_pair, no_deps, pair_leb, sort_pairs,
}

-- result.get(job_id)
unfoldable pub find_info : ℕ → List (ℕ × DepInfo) → Option DepInfo
find_info job_id [] = none
find_info job_id ((k, info) ∷ rest) = if k == job_id then some info else find_info job_id rest

find_info-change_entry :
    (f : DepInfo → DepInfo) (k job_id : ℕ) (result : List (ℕ × DepInfo))
    → find_info job_id (change_entry f k result)
      ≡ (if k == job_id then Option.map f (find_info job_id result) else find_info job_id result)
unfolding find_info change_entry
find_info-change_entry f k job_id [] = ground arith
find_info-change_entry f k job_id ((i, info) ∷ rest) =
    ground (arith, find_info-change_entry f k job_id rest)

unfoldable add_all : Db → List Dep → DepInfo → DepInfo
add_all db [] info = info
add_all db (d ∷ ds) info = add_all db ds (add_dep db d info)

abbrev of_job : ℕ → Dep → Bool
of_job job_id d = d.job_id == job_id

map_id : (o : Option DepInfo) → Option.map (λ (x : DepInfo). x) o ≡ o
map_id none = refl
map_id (some a) = refl

map_twice :
    (f g : DepInfo → DepInfo) (o : Option DepInfo)
    → Option.map f (Option.map g o) ≡ Option.map (λ (x : DepInfo). f (g x)) o
map_twice f g none = refl
map_twice f g (some a) = refl

find_info-add_rows :
    (db : Db) (job_id : ℕ) (ds : List Dep) (result : List (ℕ × DepInfo))
    → find_info job_id (add_rows db ds result)
      ≡ Option.map (add_all db (select (of_job job_id) ds)) (find_info job_id result)
unfolding add_rows add_all select
find_info-add_rows db job_id [] result = sym (map_id (find_info job_id result))
find_info-add_rows db job_id (d ∷ ds) result =
    let rest = find_info-add_rows db job_id ds (change_entry (add_dep db d) d.job_id result) in
    let entry = find_info-change_entry (add_dep db d) d.job_id job_id result in
    elim (Bool-cases (d.job_id == job_id)) [
      | inl same ↦
          rw (same, rest, entry, same)
            (map_twice (add_all db (select (of_job job_id) ds)) (add_dep db d)
              (find_info job_id result))
      | inr other ↦ rw (other, rest, entry, other) refl
    ]

-- Sorted by the pair of ids.
abbrev IsSorted : List Dep → Type 0
IsSorted [] = Unit
IsSorted (d ∷ ds) = All (λ e. pair_leb d e ≡ true) ds × IsSorted ds

All-insert_pair :
    (P : Dep → Type 0) (d : Dep) (es : List Dep) → P d → All P es → All P (insert_pair d es)
unfolding insert_pair
All-insert_pair P d [] h hs = (h, tt)
All-insert_pair P d (e ∷ es) h hs = elim (Bool-cases (pair_leb d e)) [
  | inl t ↦ rw t (h, hs)
  | inr f ↦ rw f (hs.0, All-insert_pair P d es h hs.1)
]

pair_leb_trans : (a b c : Dep) → pair_leb a b ≡ true → pair_leb b c ≡ true → pair_leb a c ≡ true
pair_leb_trans a b c h k = ground arith

pair_leb_total : (a b : Dep) → pair_leb a b ≡ false → pair_leb b a ≡ true
pair_leb_total a b h = ground arith

IsSorted-insert_pair : (d : Dep) (es : List Dep) → IsSorted es → IsSorted (insert_pair d es)
unfolding insert_pair
IsSorted-insert_pair d [] h = (tt, tt)
IsSorted-insert_pair d (e ∷ es) h = elim (Bool-cases (pair_leb d e)) [
  | inl t ↦ rw t ((t, All-map _ _ es (λ x k. pair_leb_trans d e x t k) h.0), h)
  | inr f ↦ rw f (
    All-insert_pair (λ x. pair_leb e x ≡ true) d es (pair_leb_total d e f) h.0,
    IsSorted-insert_pair d es h.1,
  )
]

IsSorted-sort_pairs : (ds : List Dep) → IsSorted (sort_pairs ds)
unfolding sort_pairs
IsSorted-sort_pairs [] = tt
IsSorted-sort_pairs (d ∷ ds) = IsSorted-insert_pair d (sort_pairs ds) (IsSorted-sort_pairs ds)

insert_dep_first :
    (d : Dep) (es : List Dep)
    → All (λ e. leb d.dep_id e.dep_id ≡ true) es
    → insert_dep d es ≡ d ∷ es
unfolding insert_dep
insert_dep_first d [] h = refl
insert_dep_first d (e ∷ es) h = rw (h.0) refl

first_of_job :
    (job_id : ℕ) (d : Dep) (es : List Dep)
    → of_job job_id d ≡ true
    → All (λ e. pair_leb d e ≡ true) es
    → All (λ e. leb d.dep_id e.dep_id ≡ true) (select (of_job job_id) es)
first_of_job job_id d es mine h =
    All-select_of (λ e. leb d.dep_id e.dep_id ≡ true) (of_job job_id) es
      (All-map (λ e. pair_leb d e ≡ true) _ es (λ e le same. ground arith) h)

select-insert_pair :
    (job_id : ℕ) (d : Dep) (es : List Dep)
    → IsSorted es
    → select (of_job job_id) (insert_pair d es) ≡ (
        if of_job job_id d
        then insert_dep d (select (of_job job_id) es)
        else select (of_job job_id) es)
unfolding insert_pair select insert_dep
select-insert_pair job_id d [] h = ground arith
select-insert_pair job_id d (e ∷ es) h = elim (Bool-cases (pair_leb d e)) [
  | inl le ↦ elim (Bool-cases (of_job job_id d)) [
    | inl mine ↦
        let first = insert_dep_first d (select (of_job job_id) (e ∷ es)) (
          first_of_job job_id d (e ∷ es) mine
            (le, All-map _ _ es (λ x k. pair_leb_trans d e x le k) h.0)) in
        rw (le, mine) (sym first)
    | inr other ↦ rw (le, other) refl
  ]
  | inr gt ↦
      let rest = select-insert_pair job_id d es h.1 in
      elim (Bool-cases (of_job job_id e)) [
        | inl mine ↦ elim (Bool-cases (of_job job_id d)) [
          | inl also ↦
              let gt' : leb d.dep_id e.dep_id ≡ false = ground arith in
              rw (gt, mine, also, rest, also, gt') refl
          | inr other ↦ rw (gt, mine, other, rest, other) refl
        ]
        | inr other ↦ rw (gt, other, rest) refl
      ]
]

select-sort_pairs :
    (job_id : ℕ) (ds : List Dep)
    → select (of_job job_id) (sort_pairs ds) ≡ sort_deps (select (of_job job_id) ds)
unfolding sort_pairs sort_deps select
select-sort_pairs job_id [] = refl
select-sort_pairs job_id (d ∷ ds) =
    let inserted = select-insert_pair job_id d (sort_pairs ds) (IsSorted-sort_pairs ds) in
    let rest = select-sort_pairs job_id ds in
    elim (Bool-cases (of_job job_id d)) [
      | inl mine ↦ rw (mine, inserted, mine, rest) refl
      | inr other ↦ rw (other, inserted, other, rest) refl
    ]

select-select :
    (job_id : ℕ) (ids : List ℕ) (ds : List Dep)
    → elem job_id ids ≡ true
    → select (of_job job_id) (select (λ d. elem d.job_id ids) ds) ≡ select (of_job job_id) ds
unfolding select
select-select job_id ids [] h = refl
select-select job_id ids (d ∷ ds) h =
    let rest = select-select job_id ids ds h in
    elim (Bool-cases (of_job job_id d)) [
      | inl mine ↦
          let kept = subst (λ i. elem i ids ≡ true) (sym (==→≡ d.job_id job_id mine)) h in
          rw (kept, mine, rest) refl
      | inr other ↦ elim (Bool-cases (elem d.job_id ids)) [
        | inl kept ↦ rw (kept, other, rest) refl
        | inr left ↦ rw (left, other, rest) refl
      ]
    ]

info_of : Db → List Dep → DepInfo → DepInfo
info_of db ds info = record {
  depends_on = info.depends_on ++ map (λ d. d.dep_id) (select (λ d. is_success d.mode) ds);
  after_any = info.after_any ++ map (λ d. d.dep_id) (select (λ d. is_any d.mode) ds);
  waiting_on =
      info.waiting_on
      ++ map (λ d. d.dep_id) (select (λ d. is_active_row (dep_status db d.dep_id)) ds);
}

add_ids :
    (b : Bool) (d : Dep) (ids : List ℕ) (ds : List Dep)
    → (if b then ids ++ d.dep_id ∷ [] else ids) ++ map (λ x. x.dep_id) ds
      ≡ ids ++ map (λ x. x.dep_id) (if b then d ∷ ds else ds)
add_ids true d ids ds = append_assoc ids (d.dep_id ∷ []) _
add_ids false d ids ds = refl

add_any :
    (m : Mode) (d : Dep) (ids : List ℕ) (ds : List Dep)
    → (if is_success m then ids else if is_any m then ids ++ d.dep_id ∷ [] else ids)
        ++ map (λ x. x.dep_id) ds
      ≡ ids ++ map (λ x. x.dep_id) (if is_any m then d ∷ ds else ds)
add_any success d ids ds = refl
add_any any d ids ds = append_assoc ids (d.dep_id ∷ []) _
add_any (other_mode _) d ids ds = refl

add_all_lem : (db : Db) (ds : List Dep) (info : DepInfo) → add_all db ds info ≡ info_of db ds info
unfolding add_all info_of select
add_all_lem db [] info = λ i. record {
  depends_on = sym (append-nil info.depends_on) i;
  after_any = sym (append-nil info.after_any) i;
  waiting_on = sym (append-nil info.waiting_on) i;
}
add_all_lem db (d ∷ ds) info = add_all_lem db ds (add_dep db d info) ∙ (λ i. record {
  depends_on = add_ids (is_success d.mode) d info.depends_on (select (λ x. is_success x.mode) ds) i;
  after_any = add_any d.mode d info.after_any (select (λ x. is_any x.mode) ds) i;
  waiting_on =
      add_ids (is_active_row (dep_status db d.dep_id)) d info.waiting_on
        (select (λ x. is_active_row (dep_status db x.dep_id)) ds) i;
})

find_info-map :
    (job_id : ℕ) (ids : List ℕ)
    → find_info job_id (map (λ i. (i, no_deps)) ids)
      ≡ (if elem job_id ids then some no_deps else none)
unfolding find_info elem
find_info-map job_id [] = refl
find_info-map job_id (i ∷ ids) = ground (arith, find_info-map job_id ids)

-- Every job asked for has the entry that `dep_info` gives for it alone, and no other job has one.
pub dep_info_bulk-dep_info :
    (db : Db) (job_ids : List ℕ) (job_id : ℕ)
    → find_info job_id (dep_info_bulk db job_ids)
      ≡ (if elem job_id job_ids then some (dep_info db job_id) else none)
unfolding dep_info_bulk dep_info dep_rows info_of
dep_info_bulk-dep_info db job_ids job_id =
    let rows =
      find_info-add_rows db job_id (sort_pairs (select (λ d. elem d.job_id job_ids) db.job_deps))
        (map (λ i. (i, no_deps)) job_ids) in
    let entry = find_info-map job_id job_ids in
    elim (Bool-cases (elem job_id job_ids)) [
      | inl asked ↦
          let mine = select-sort_pairs job_id (select (λ d. elem d.job_id job_ids) db.job_deps) in
          let whole = select-select job_id job_ids db.job_deps asked in
          let info = add_all_lem db (dep_rows db job_id) no_deps in
          rw (rows, entry, asked, mine, whole) (ap some info)
      | inr not_asked ↦ rw (rows, entry, not_asked) refl
    ]
