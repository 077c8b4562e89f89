-- ===== src/Commands/Specs.antt =====
-- The jobs that an `add` request of src/queuer/daemon.py asks for: one, one for each entry of `jobs`
-- (`--each`), or one for each number of `array`.
use mathlib.Core.Option
use custom_queuer.Prelude.{
  Bool, Bool-cases, List, Option, [], ap, arith, exists, false, if◌then◌else◌, inl, inr, leb,
  length, ltb, none, not, pos, refl, some, subst, suc, true, zero, ℕ, ◌&&◌, ◌+◌, ◌-◌, ◌∷◌, ◌≡◌, ◌≤◌,
}
use custom_queuer.Tables.{
  Result, argv_arg, array_arg, bad_arg, cannot_combine, index_arg, jobs_arg, missing_arg, ok, raise,
  too_many,
}
use custom_queuer.Checks.{int_value, none_value}
use custom_queuer.Queue.{first}
use custom_queuer.Args.{Json, is_null, list, max_index, max_sweep, ok-injective, scalar}

-- `argv`, `raw_argv` and `index` of one job, by `get`.
pub record Spec : Type 0 where
  pub argv : Json
  pub raw_argv : Json
  pub index : Json

-- `jobs`: a list, with `none` for an entry that is no object, or any other value.
pub data JobsArg : Type 0 where
  not_a_list : JobsArg
  job_list : List (Option Spec) → JobsArg

-- The arguments of `add`, by `get`: an absent one is null. `argv` and `cwd` are looked up by `in`,
-- and `jobs` is `none` where it is null.
pub record AddArgs : Type 0 where
  pub jobs : Option JobsArg
  pub array : Json
  pub argv : Option Json
  pub raw_argv : Json
  pub cwd : Option Json
  pub channel : Json
  pub now : Json
  pub max_retries : Json
  pub timeout_secs : Json
  pub before : Json
  pub after : Json
  pub on_fail : Json
  pub on_finish : Json
  pub on_error : Json
  pub stop_signal : Json
  pub stop_grace : Json
  pub run_key : Json
  pub job_dir : Json
  pub submitted_from : Json
  pub rerun_of : Json
  pub depends_on : Json
  pub after_any : Json
  pub not_before : Json
  pub retry_delay_secs : Json
  pub retry_backoff : Json
  pub dry_run : Json
  pub path : Json
  pub virtual_env : Json
  pub python_path : Json
  pub env_pass : Json
  pub env : Json

abbrev pub null : Json
null = scalar none_value

-- `[first, last]`, both in 0..MAX_INDEX and in this order.
abbrev pub array_bounds : Json → Option (ℕ × ℕ)
array_bounds (list (int_value (pos first) ∷ int_value (pos last) ∷ [])) =
    if leb first max_index && leb last max_index && leb first last then some (first, last) else none
array_bounds _ = none

-- `for n in range(first, last + 1)`, with the numbers left.
unfoldable pub array_specs : Json → Json → ℕ → ℕ → List Spec
array_specs argv raw_argv n zero = []
array_specs argv raw_argv n (suc left) =
    record { argv = argv; raw_argv = raw_argv; index = scalar (int_value (pos n)) }
    ∷ array_specs argv raw_argv (suc n) left

abbrev or_null : Option Json → Json
or_null none = null
or_null (some v) = v

abbrev pub specs_of_array : AddArgs → Option (ℕ × ℕ) → Result (List Spec)
specs_of_array args none = raise (bad_arg array_arg)
specs_of_array args (some (first, last)) =
    if ltb max_sweep (last - first + 1)
    then raise (too_many jobs_arg)
    else ok (array_specs (or_null args.argv) args.raw_argv first (last - first + 1))

abbrev pub spec_of_argv : AddArgs → Option Json → Result (List Spec)
spec_of_argv args none = raise (missing_arg argv_arg)
spec_of_argv args (some argv) =
    ok (record { argv = argv; raw_argv = args.raw_argv; index = null } ∷ [])

-- Every entry an object.
abbrev pub all_specs : List (Option Spec) → Option (List Spec)
all_specs [] = some []
all_specs (none ∷ js) = none
all_specs (some s ∷ js) = Option.map (◌∷◌ s) (all_specs js)

abbrev pub good_index : Json → Bool
good_index (scalar none_value) = true
good_index (scalar (int_value (pos n))) = leb n max_index
good_index _ = false

abbrev pub checked_specs : Option (List Spec) → Result (List Spec)
checked_specs none = raise (bad_arg jobs_arg)
checked_specs (some []) = raise (bad_arg jobs_arg)
checked_specs (some (s ∷ ss)) =
    if ltb max_sweep (length (s ∷ ss))
    then raise (too_many jobs_arg)
    else if exists (λ t. not (good_index t.index)) (s ∷ ss)
    then raise (bad_arg index_arg)
    else ok (s ∷ ss)

abbrev pub specs_of_jobs : JobsArg → Result (List Spec)
specs_of_jobs not_a_list = raise (bad_arg jobs_arg)
specs_of_jobs (job_list js) = checked_specs (all_specs js)

abbrev pub specs_by : AddArgs → Option JobsArg → Result (List Spec)
specs_by args none =
    if is_null args.array
    then spec_of_argv args args.argv
    else specs_of_array args (array_bounds args.array)
specs_by args (some js) =
    if is_null args.array then specs_of_jobs js else raise (cannot_combine jobs_arg array_arg)

unfoldable pub specs_of : AddArgs → Result (List Spec)
unfolding array_specs exists
specs_of args = specs_by args args.jobs

length-array_specs :
    (argv raw_argv : Json) (n left : ℕ) → length (array_specs argv raw_argv n left) ≡ left
unfolding array_specs
length-array_specs argv raw_argv n zero = refl
length-array_specs argv raw_argv n (suc left) =
    ap suc (length-array_specs argv raw_argv (suc n) left)

-- An accepted request asks for between 1 and MAX_SWEEP jobs.
pub specs_of_bounds :
    (args : AddArgs) (specs : List Spec)
    → specs_of args ≡ ok specs
    → (1 ≤ length specs) × (length specs ≤ max_sweep)
unfolding specs_of
specs_of_bounds args specs e = by_jobs args.jobs e
  where
    by_array :
        (o : Option (ℕ × ℕ))
        → specs_of_array args o ≡ ok specs
        → (1 ≤ length specs) × (length specs ≤ max_sweep)
    by_array none e = absurd (cc)
    by_array (some (first, last)) e =
        let len = length-array_specs (or_null args.argv) args.raw_argv first (last - first + 1) in
        elim (Bool-cases (ltb max_sweep (last - first + 1))) [
          | inl many ↦ absurd (ground arith)
          | inr few ↦
              subst (λ ss. (1 ≤ length ss) × (length ss ≤ max_sweep)) (ok-injective (rw few at e))
                (ground arith)
        ]

    by_specs :
        (o : Option (List Spec))
        → checked_specs o ≡ ok specs
        → (1 ≤ length specs) × (length specs ≤ max_sweep)
    by_specs none e = absurd (cc)
    by_specs (some []) e = absurd (cc)
    by_specs (some (s ∷ ss)) e = elim (Bool-cases (ltb max_sweep (length (s ∷ ss)))) [
      | inl many ↦ absurd (cc (rw many at e))
      | inr few ↦ elim (Bool-cases (exists (λ t. not (good_index t.index)) (s ∷ ss))) [
        | inl bad ↦ absurd (cc (rw (few, bad) at e))
        | inr good ↦
            subst (λ ss. (1 ≤ length ss) × (length ss ≤ max_sweep))
              (ok-injective (rw (few, good) at e)) (ground arith)
      ]
    ]

    by_argv :
        (o : Option Json)
        → spec_of_argv args o ≡ ok specs
        → (1 ≤ length specs) × (length specs ≤ max_sweep)
    by_argv none e = absurd (cc)
    by_argv (some argv) e =
        subst (λ ss. (1 ≤ length ss) × (length ss ≤ max_sweep)) (ok-injective e) (ground arith)

    by_jobs :
        (o : Option JobsArg)
        → specs_by args o ≡ ok specs
        → (1 ≤ length specs) × (length specs ≤ max_sweep)
    by_jobs none e = elim (Bool-cases (is_null args.array)) [
      | inl no_array ↦ by_argv args.argv (rw no_array at e)
      | inr has_array ↦ by_array (array_bounds args.array) (rw has_array at e)
    ]
    by_jobs (some not_a_list) e = ground arith
    by_jobs (some (job_list js)) e = elim (Bool-cases (is_null args.array)) [
      | inl no_array ↦ by_specs (all_specs js) (rw no_array at e)
      | inr has_array ↦ absurd (cc (rw has_array at e))
    ]
