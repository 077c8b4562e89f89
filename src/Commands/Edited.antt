-- ===== src/Commands/Edited.antt =====
-- What an edit of src/queuer/daemon.py does to a job's variables and to its dependencies.
use custom_queuer.Prelude.{
  Bool-cases, List, Option, [], ap, arith, false, if◌then◌else◌, inl, inr, is_some, none, not, refl,
  select, some, subst, true, ℕ, ◌==◌, ◌||◌, ◌∙◌, ◌∷◌, ◌≡◌,
}
use custom_queuer.Tables.{Mode, Text, success, text_eq}
use custom_queuer.Args.{put_dep}
use custom_queuer.Args.Ranges.{dep_mode, dep_mode-put_dep}
use custom_queuer.JobEnv.{Env, env_get, env_set, passthrough_key}
use custom_queuer.JobEnv.Layers.{
  HasDistinctKeys, env_get-env_pop, env_get-env_set, or_value, text_eq_sym, text_eq→≡,
}
use custom_queuer.Commands.Prepare.{join_commas}
use custom_queuer.Commands.EditPlan.{
  drop_passed, edited_env, index_key, merge_env, put_names, split_commas,
}
use custom_queuer.Commands.EditDeps.{is_success_mode, merge_deps}

-- One round of the loop.
abbrev set_item : Text → Text → Env → Env
set_item name value env =
    if not (text_eq name index_key) || not (is_some (env_get index_key env))
    then env_set name value env
    else env

merge_env-index :
    (explicit env : Env)
    → is_some (env_get index_key env) ≡ true
    → env_get index_key (merge_env explicit env) ≡ env_get index_key env
unfolding merge_env
merge_env-index [] env given = refl
merge_env-index ((name, value) ∷ explicit) env given =
    merge_env-index explicit (set_item name value env) (ap is_some kept ∙ given) ∙ kept
  where
    kept : env_get index_key (set_item name value env) ≡ env_get index_key env
    kept = elim (Bool-cases (text_eq name index_key)) [
      | inl same ↦ rw (same, given) refl
      | inr other ↦ rw (other, env_get-env_set index_key name value env) (rw other refl)
    ]

env_get-set_item :
    (name key value : Text) (env : Env)
    → text_eq key name ≡ false
    → env_get name (set_item key value env) ≡ env_get name env
env_get-set_item name key value env other =
    elim (Bool-cases (not (text_eq key index_key) || not (is_some (env_get index_key env)))) [
      | inl set ↦ rw (set, env_get-env_set name key value env, other) refl
      | inr left ↦ rw left refl
    ]

merge_env-other :
    (name : Text) (explicit env : Env)
    → HasDistinctKeys explicit
    → text_eq index_key name ≡ false
    → env_get name (merge_env explicit env) ≡ or_value (env_get name explicit) (env_get name env)
unfolding merge_env env_get
merge_env-other name [] env h not_index = refl
merge_env-other name ((key, value) ∷ explicit) env h not_index =
    merge_env-other name explicit (set_item key value env) h.1 not_index ∙ step
  where
    step :
        or_value (env_get name explicit) (env_get name (set_item key value env))
        ≡ or_value
            (if text_eq key name then some value else env_get name explicit)
            (env_get name env)
    step = elim (Bool-cases (text_eq key name)) [
      | inl same ↦
          let this = text_eq→≡ key name same in
          let none_left = subst (λ n. env_get n explicit ≡ none) this h.0 in
          let free : text_eq key index_key ≡ false =
            ap (λ n. text_eq n index_key) this ∙ (text_eq_sym name index_key ∙ not_index) in
          rw (same, none_left, free, env_get-env_set name key value env) (rw same refl)
      | inr other ↦ rw (other, env_get-set_item name key value env other) refl
    ]

-- The list of copied names is apart from every other variable.
env_get-drop_passed :
    (name : Text) (explicit env : Env) (o : Option Text)
    → text_eq passthrough_key name ≡ false
    → env_get name (drop_passed explicit o env) ≡ env_get name env
env_get-drop_passed name explicit env none other = refl
env_get-drop_passed name explicit env (some names) other =
    by_names (select (λ n. not (is_some (env_get n explicit))) (split_commas names []))
  where
    by_names : (ns : List Text) → env_get name (put_names ns env) ≡ env_get name env
    by_names [] = rw (env_get-env_pop name passthrough_key env, other) refl
    by_names (n ∷ ns) =
        rw (env_get-env_set name passthrough_key (join_commas (n ∷ ns)) env, other) refl

-- An edit of the environment leaves the index of a sweep's job as it is.
pub edited_env-index :
    (explicit env : Env)
    → is_some (env_get index_key env) ≡ true
    → env_get index_key (edited_env explicit env) ≡ env_get index_key env
unfolding edited_env text_eq
edited_env-index explicit env given =
    env_get-drop_passed index_key explicit (merge_env explicit env)
      (env_get passthrough_key (merge_env explicit env)) refl
    ∙ merge_env-index explicit env given

-- An edit of the environment, with distinct names, merges it over the job's own: every variable but
-- the index of a sweep and the reserved list of copied names has its given value, or else its old one.
pub edited_env-or_value :
    (explicit env : Env) (name : Text)
    → HasDistinctKeys explicit
    → text_eq passthrough_key name ≡ false
    → text_eq index_key name ≡ false
    → env_get name (edited_env explicit env) ≡ or_value (env_get name explicit) (env_get name env)
unfolding edited_env
edited_env-or_value explicit env name h free not_index =
    env_get-drop_passed name explicit (merge_env explicit env)
      (env_get passthrough_key (merge_env explicit env)) free
    ∙ merge_env-other name explicit env h not_index

merge_deps-kept :
    (i : ℕ) (kept given deps : List (ℕ × Mode))
    → dep_mode i kept ≡ some success
    → dep_mode i deps ≡ some success
    → dep_mode i (merge_deps kept given deps) ≡ some success
unfolding merge_deps
merge_deps-kept i kept [] deps strict now = now
merge_deps-kept i kept ((k, mode) ∷ given) deps strict now =
    merge_deps-kept i kept given (put_dep k new_mode deps) strict still
  where
    new_mode : Mode
    new_mode = if is_success_mode (dep_mode k kept) then success else mode

    still : dep_mode i (put_dep k new_mode deps) ≡ some success
    still = elim (Bool-cases (k == i)) [
      | inl same ↦
          let this : dep_mode k kept ≡ some success =
            subst (λ n. dep_mode n kept ≡ some success) (ground arith) strict in
          dep_mode-put_dep i k new_mode deps ∙ rw (same, this) refl
      | inr other ↦ dep_mode-put_dep i k new_mode deps ∙ rw other now
    ]

-- A dependency that must end done and that an edit keeps still must end done, whatever the edit
-- gives for the same job.
pub merge_deps_stricter :
    (i : ℕ) (kept given : List (ℕ × Mode))
    → dep_mode i kept ≡ some success
    → dep_mode i (merge_deps kept given kept) ≡ some success
merge_deps_stricter i kept given strict = merge_deps-kept i kept given kept strict strict
