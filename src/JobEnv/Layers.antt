-- ===== src/JobEnv/Layers.antt =====
-- Which value of a variable a job sees (src/queuer/jobenv.py).
use custom_queuer.Prelude.{
  All, Bool, Bool-cases, List, Option, [], ap, arith, codes, exists, false, false≢true,
  if◌then◌else◌, inl, inr, none, refl, select, some, subst, sym, true, ◌||◌, ◌∙◌, ◌∷◌, ◌≡◌,
}
use custom_queuer.Tables.{Text, ok, text_eq}
use custom_queuer.Checks.{Value}
use custom_queuer.Args.{Json, bind-eq-ok, list, object, ok-injective, scalar, text_of}
use custom_queuer.JobEnv.{
  Env, add_base, base_env_names, base_environment, base_value, check_env, check_items, check_name,
  checked_item, env_get, env_pop, env_set, env_update, get_or_empty, has_nul, is_name,
  job_environment, passthrough_key, process_environment,
}

-- Texts are compared by `text_eq`, which decides equality.
pub text_eq→≡ : (s t : Text) → text_eq s t ≡ true → s ≡ t
unfolding text_eq
text_eq→≡ [] [] h = refl
text_eq→≡ [] (b ∷ t) h = absurd (false≢true h)
text_eq→≡ (a ∷ s) [] h = absurd (false≢true h)
text_eq→≡ (a ∷ s) (b ∷ t) h = let rest = text_eq→≡ s t in ground (arith, h, rest)

pub text_eq_refl : (s : Text) → text_eq s s ≡ true
unfolding text_eq
text_eq_refl [] = refl
text_eq_refl (a ∷ s) = let rest = text_eq_refl s in ground arith

pub text_eq_sym : (s t : Text) → text_eq s t ≡ text_eq t s
unfolding text_eq
text_eq_sym [] [] = refl
text_eq_sym [] (b ∷ t) = refl
text_eq_sym (a ∷ s) [] = refl
text_eq_sym (a ∷ s) (b ∷ t) = let rest = text_eq_sym s t in ground arith

-- Two keys that equal one key are equal.
text_eq_both : (k a b : Text) → text_eq k a ≡ true → text_eq k b ≡ text_eq a b
text_eq_both k a b h = rw (text_eq→≡ k a h) refl

pub env_get-env_set :
    (name key value : Text) (env : Env)
    → env_get name (env_set key value env)
      ≡ (if text_eq key name then some value else env_get name env)
unfolding env_get env_set
env_get-env_set name key value [] = refl
env_get-env_set name key value ((k, v) ∷ env) =
    let rest = env_get-env_set name key value env in
    elim (Bool-cases (text_eq k key)) [
      | inl same ↦
          let both = text_eq_both k key name same in
          elim (Bool-cases (text_eq key name)) [
            | inl hit ↦ rw (same, both, hit) refl
            | inr miss ↦ rw (same, both, miss) refl
          ]
      | inr differs ↦ elim (Bool-cases (text_eq k name)) [
        | inl hit ↦
            let miss : text_eq key name ≡ false =
              text_eq_sym key name ∙ (sym (text_eq_both k name key hit) ∙ differs) in
            rw (differs, hit, miss) refl
        | inr miss ↦ rw (differs, miss) rest
      ]
    ]

-- A dictionary has no key twice.
abbrev pub HasDistinctKeys : Env → Type 0
HasDistinctKeys [] = Unit
HasDistinctKeys ((k, v) ∷ env) = (env_get k env ≡ none) × HasDistinctKeys env

abbrev pub or_value : Option Text → Option Text → Option Text
or_value none old = old
or_value (some v) old = some v

pub env_get-env_update :
    (name : Text) (other env : Env)
    → HasDistinctKeys other
    → env_get name (env_update other env) ≡ or_value (env_get name other) (env_get name env)
unfolding env_get env_update
env_get-env_update name [] env h = refl
env_get-env_update name ((k, v) ∷ other) env h =
    let rest = env_get-env_update name other (env_set k v env) h.1 in
    let set = env_get-env_set name k v env in
    elim (Bool-cases (text_eq k name)) [
      | inl same ↦
          let none_left = subst (λ n. env_get n other ≡ none) (text_eq→≡ k name same) h.0 in
          rw (rest, none_left, set, same) refl
      | inr differs ↦ rw (rest, set, differs) refl
    ]

pub env_get-env_pop :
    (name key : Text) (env : Env)
    → env_get name (env_pop key env) ≡ (if text_eq key name then none else env_get name env)
unfolding env_get env_pop select
env_get-env_pop name key [] = ground arith
env_get-env_pop name key ((k, v) ∷ env) =
    let rest = env_get-env_pop name key env in
    elim (Bool-cases (text_eq k key)) [
      | inl same ↦
          let both = text_eq_both k key name same in
          elim (Bool-cases (text_eq key name)) [
            | inl hit ↦ rw (same, hit) (rw hit at rest)
            | inr miss ↦ rw (same, both, miss) (rw miss at rest)
          ]
      | inr differs ↦ elim (Bool-cases (text_eq k name)) [
        | inl hit ↦
            let miss : text_eq key name ≡ false =
              text_eq_sym key name ∙ (sym (text_eq_both k name key hit) ∙ differs) in
            rw (differs, hit, miss) refl
        | inr miss ↦ rw (differs, miss) rest
      ]
    ]

HasDistinctKeys-env_pop :
    (key : Text) (env : Env) → HasDistinctKeys env → HasDistinctKeys (env_pop key env)
unfolding env_pop select
HasDistinctKeys-env_pop key [] h = tt
HasDistinctKeys-env_pop key ((k, v) ∷ env) h = elim (Bool-cases (text_eq k key)) [
  | inl same ↦ rw same (HasDistinctKeys-env_pop key env h.1)
  | inr differs ↦
      let gone = env_get-env_pop k key env in
      rw differs (gone ∙ (rw (text_eq_sym key k, differs) h.0), HasDistinctKeys-env_pop key env h.1)
]

HasDistinctKeys-env_set :
    (key value : Text) (env : Env) → HasDistinctKeys env → HasDistinctKeys (env_set key value env)
unfolding env_set env_get
HasDistinctKeys-env_set key value [] h = (refl, tt)
HasDistinctKeys-env_set key value ((k, v) ∷ env) h = elim (Bool-cases (text_eq k key)) [
  | inl same ↦ rw same h
  | inr differs ↦
      let kept = env_get-env_set k key value env in
      let flip = text_eq_sym key k in
      rw differs (ground (arith, h.0), HasDistinctKeys-env_set key value env h.1)
]

HasDistinctKeys-env_update :
    (other env : Env) → HasDistinctKeys env → HasDistinctKeys (env_update other env)
unfolding env_update
HasDistinctKeys-env_update [] env h = h
HasDistinctKeys-env_update ((k, v) ∷ other) env h =
    HasDistinctKeys-env_update other (env_set k v env) (HasDistinctKeys-env_set k v env h)

or_value_assoc : (a b c : Option Text) → or_value (or_value a b) c ≡ or_value a (or_value b c)
or_value_assoc none b c = refl
or_value_assoc (some v) b c = refl

-- What a job inherits of the daemon's environment: PATH and HOME, empty if they are unset, and four
-- more names if they are set to a text without NUL.
abbrev pub is_always : Text → Bool
is_always name = text_eq (codes "PATH") name || text_eq (codes "HOME") name

abbrev pub is_optional : Text → Bool
is_optional name =
    text_eq (codes "USER") name
    || text_eq (codes "LOGNAME") name
    || text_eq (codes "SHELL") name
    || text_eq (codes "TMPDIR") name

abbrev pub clean_value : Option Text → Option Text
clean_value none = none
clean_value (some v) = if has_nul v then none else some v

abbrev pub inherited : Env → Text → Option Text
inherited environ name =
    if is_always name
    then some (get_or_empty (env_get name environ))
    else if is_optional name
    then clean_value (env_get name environ)
    else none

env_get-base_value :
    (name key : Text) (o : Option Text) (env : Env)
    → env_get name (base_value key o env)
      ≡ (if text_eq key name then or_value (clean_value o) (env_get name env) else env_get name env)
env_get-base_value name key none env = ground arith
env_get-base_value name key (some v) env = elim (Bool-cases (has_nul v)) [
  | inl nul ↦ rw nul (ground arith)
  | inr clean ↦ rw clean (env_get-env_set name key v env)
]

or_value_twice : (o p : Option Text) → or_value o (or_value o p) ≡ or_value o p
or_value_twice none p = refl
or_value_twice (some v) p = refl

or_value-none : (o : Option Text) → or_value o none ≡ o
or_value-none none = refl
or_value-none (some v) = refl

env_get-add_base :
    (name : Text) (environ : Env) (names : List Text) (env : Env)
    → env_get name (add_base environ names env) ≡ (
        if exists (λ key. text_eq key name) names
        then or_value (clean_value (env_get name environ)) (env_get name env)
        else env_get name env)
unfolding add_base exists
env_get-add_base name environ [] env = refl
env_get-add_base name environ (key ∷ names) env =
    let rest = env_get-add_base name environ names (base_value key (env_get key environ) env) in
    let first = env_get-base_value name key (env_get key environ) env in
    elim (Bool-cases (text_eq key name)) [
      | inl same ↦
          let found = ap (λ k. env_get k environ) (text_eq→≡ key name same) in
          let twice = or_value_twice (clean_value (env_get name environ)) (env_get name env) in
          rw (rest, first, same, found) (ground (arith, twice))
      | inr other ↦ rw (rest, first, other) refl
    ]

or_lem : (a b c d : Bool) → (a || (b || (c || (d || false)))) ≡ (a || b || c || d)
or_lem a b c d = ground arith

base_env_names-is_optional :
    (name : Text) → exists (λ key. text_eq key name) base_env_names ≡ is_optional name
unfolding exists
base_env_names-is_optional name =
    or_lem (text_eq (codes "USER") name) (text_eq (codes "LOGNAME") name)
      (text_eq (codes "SHELL") name) (text_eq (codes "TMPDIR") name)

env_get-base_environment :
    (environ : Env) (name : Text) → env_get name (base_environment environ) ≡ inherited environ name
unfolding base_environment env_get exists text_eq
env_get-base_environment environ name = elim (Bool-cases (text_eq (codes "PATH") name)) [
  | inl path ↦ subst AtName (text_eq→≡ (codes "PATH") name path) (added (codes "PATH"))
  | inr no_path ↦ elim (Bool-cases (text_eq (codes "HOME") name)) [
    | inl home ↦ subst AtName (text_eq→≡ (codes "HOME") name home) (added (codes "HOME"))
    | inr no_home ↦
        added name
        ∙ rw
            (
              no_path,
              no_home,
              or_value-none (clean_value (env_get name environ)),
              base_env_names-is_optional name,
            )
            refl
  ]
]
  where
    AtName : Text → Type 0
    AtName n = env_get n (base_environment environ) ≡ inherited environ n

    start : Env
    start =
        (codes "PATH", get_or_empty (env_get (codes "PATH") environ))
        ∷ (codes "HOME", get_or_empty (env_get (codes "HOME") environ))
        ∷ []

    added :
        (n : Text)
        → env_get n (base_environment environ) ≡ (
            if exists (λ key. text_eq key n) base_env_names
            then or_value (clean_value (env_get n environ)) (env_get n start)
            else env_get n start)
    added n = env_get-add_base n environ base_env_names start

-- With distinct names among its own variables, a job sees its own value of a variable, else Python's
-- unbuffered default, else what it inherits of the daemon's environment: PATH and HOME, and USER,
-- LOGNAME, SHELL and TMPDIR if they are set without NUL. The reserved marker is never taken from the
-- job's own variables.
pub process_environment_layers :
    (environ env_extra : Env) (name : Text)
    → HasDistinctKeys env_extra
    → env_get name (process_environment environ env_extra)
      ≡ or_value (if text_eq passthrough_key name then none else env_get name env_extra) (
          or_value
            (if text_eq (codes "PYTHONUNBUFFERED") name then some (codes "1") else none)
            (inherited environ name))
unfolding process_environment job_environment env_get
process_environment_layers environ env_extra name h =
    let own = HasDistinctKeys-env_pop passthrough_key env_extra h in
    let default = (codes "PYTHONUNBUFFERED", codes "1") ∷ [] in
    let job_keys : HasDistinctKeys (job_environment env_extra) =
      HasDistinctKeys-env_update (env_pop passthrough_key env_extra) default (refl, tt) in
    let outer =
      env_get-env_update name (job_environment env_extra) (base_environment environ) job_keys in
    let inner = env_get-env_update name (env_pop passthrough_key env_extra) default own in
    let popped = env_get-env_pop name passthrough_key env_extra in
    let own_value = if text_eq passthrough_key name then none else env_get name env_extra in
    outer
    ∙ (ap (or_value (env_get name (job_environment env_extra)))
          (env_get-base_environment environ name)
        ∙ (ap (λ o. or_value o (inherited environ name))
              (inner ∙ ap (λ o. or_value o (env_get name default)) popped)
            ∙ or_value_assoc own_value (env_get name default) (inherited environ name)))

abbrev pub IsGoodItem : Text × Text → Type 0
IsGoodItem item =
    (is_name item.0 ≡ true) × (text_eq item.0 passthrough_key ≡ false) × (has_nul item.1 ≡ false)

checked_item-IsGoodItem :
    (name : Text) (value : Option Text) (item : Text × Text)
    → checked_item name value ≡ ok item
    → IsGoodItem item
unfolding check_name
checked_item-IsGoodItem name none item e = absurd (cc)
checked_item-IsGoodItem name (some value) item e = ground arith

check_items-IsGoodItem :
    (items : List (Text × Value)) (env : Env) → check_items items ≡ ok env → All IsGoodItem env
unfolding check_items
check_items-IsGoodItem [] env e = subst (All IsGoodItem) (ok-injective e) tt
check_items-IsGoodItem ((name, value) ∷ items) env e =
    let (item, first_ok, more) = bind-eq-ok (checked_item name (text_of (scalar value))) _ e in
    let (rest, rest_ok, whole) = bind-eq-ok (check_items items) _ more in
    subst (All IsGoodItem) (ok-injective whole) (
      checked_item-IsGoodItem name (text_of (scalar value)) item first_ok,
      check_items-IsGoodItem items rest rest_ok,
    )

-- An environment that `check_env` accepts has valid names, none of them reserved, and no NUL in a
-- value.
pub check_env-IsGoodItem :
    (value : Json) (env : Env) → check_env value ≡ ok env → All IsGoodItem env
unfolding check_env
check_env-IsGoodItem (object items) env e = check_items-IsGoodItem items env e
check_env-IsGoodItem (scalar v) env e = absurd (cc)
check_env-IsGoodItem (list vs) env e = absurd (cc)
