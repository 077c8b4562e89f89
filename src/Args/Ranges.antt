-- ===== src/Args/Ranges.antt =====
-- What the checks of a request's arguments accept (src/queuer/daemon.py).
use custom_queuer.Prelude.{
  List, Option, [], ap, arith, elem, if◌then◌else◌, length, none, pos, refl, some, sym, ℕ, ◌==◌,
  ◌∙◌, ◌∷◌, ◌≡◌, ◌≤◌,
}
use custom_queuer.Tables.{ArgName, Mode, Result, after_any_arg, any, depends_on_arg, ok, success}
use custom_queuer.Checks.{int_value}
use custom_queuer.Args.{
  Json, bind-eq-ok, bounded_ids, check_channel, dep_args, id_list, list, max_channel, max_sweep,
  ok-injective, put_dep, put_deps, scalar, value_or, ◌>>=◌,
}

-- A channel that is accepted is the number that was sent, and lies between 1 and MAX_CHANNEL.
pub check_channel_bounds :
    (value : Json) (n : ℕ)
    → check_channel value ≡ ok n
    → (1 ≤ n) × (n ≤ max_channel) × (value ≡ scalar (int_value (pos n)))
unfolding check_channel
check_channel_bounds value n e = ground arith

-- deps.get(i)
unfoldable pub dep_mode : ℕ → List (ℕ × Mode) → Option Mode
dep_mode i [] = none
dep_mode i ((k, m) ∷ rest) = if k == i then some m else dep_mode i rest

pub dep_mode-put_dep :
    (i k : ℕ) (mode : Mode) (deps : List (ℕ × Mode))
    → dep_mode i (put_dep k mode deps) ≡ (if k == i then some mode else dep_mode i deps)
unfolding dep_mode put_dep
dep_mode-put_dep i k mode [] = ground arith
dep_mode-put_dep i k mode ((j, m) ∷ rest) = ground (arith, dep_mode-put_dep i k mode rest)

dep_mode-put_deps :
    (i : ℕ) (ids : List ℕ) (mode : Mode) (deps : List (ℕ × Mode))
    → dep_mode i (put_deps ids mode deps) ≡ (if elem i ids then some mode else dep_mode i deps)
unfolding put_deps elem
dep_mode-put_deps i [] mode deps = ground arith
dep_mode-put_deps i (k ∷ ids) mode deps =
    ground
      (arith, dep_mode-put_deps i ids mode (put_dep k mode deps), dep_mode-put_dep i k mode deps)

bounded_ids-some :
    (key : ArgName) (o : Option (List ℕ)) (ids : List ℕ)
    → bounded_ids key o ≡ ok ids
    → (o ≡ some ids) × (length ids ≤ max_sweep)
bounded_ids-some key none ids e = absurd (cc)
bounded_ids-some key (some js) ids e = ground arith

-- The dependencies that a request names: an id of `depends_on` has the mode `success` even if it
-- stands in `after_any` too, an id of `after_any` alone has the mode `any`, and no other id is there.
pub dep_args_modes :
    (depends_on after_any : Json) (deps : List (ℕ × Mode)) (i : ℕ)
    → dep_args depends_on after_any ≡ ok deps
    → (success_ids : List ℕ) × (any_ids : List ℕ) × (id_list (value_or depends_on (list []))
        ≡ some success_ids)
      × (id_list (value_or after_any (list [])) ≡ some any_ids)
      × (dep_mode i deps ≡ (
          if elem i success_ids then some success else if elem i any_ids then some any else none))
unfolding dep_args dep_mode
dep_args_modes depends_on after_any deps i e =
    let any_list = id_list (value_or after_any (list [])) in
    let success_list = id_list (value_or depends_on (list [])) in
    let second : List ℕ → Result (List (ℕ × Mode)) = λ any_ids.
      bounded_ids depends_on_arg success_list >>= λ success_ids.
      ok (put_deps success_ids success (put_deps any_ids any [])) in
    let (any_ids, any_ok, more) = bind-eq-ok (bounded_ids after_any_arg any_list) second e in
    let third : List ℕ → Result (List (ℕ × Mode)) =
      λ success_ids. ok (put_deps success_ids success (put_deps any_ids any [])) in
    let (success_ids, success_ok, whole) =
      bind-eq-ok (bounded_ids depends_on_arg success_list) third more in
    let same : put_deps success_ids success (put_deps any_ids any []) ≡ deps = ok-injective whole in
    (
      success_ids,
      any_ids,
      (bounded_ids-some depends_on_arg success_list success_ids success_ok).0,
      (bounded_ids-some after_any_arg any_list any_ids any_ok).0,
      sym (ap (dep_mode i) same)
          ∙ (dep_mode-put_deps i success_ids success (put_deps any_ids any [])
              ∙ rw (dep_mode-put_deps i any_ids any []) refl),
    )
