-- ===== src/JobEnv.antt =====
-- The environment of a job: src/queuer/jobenv.py. A dictionary is its list of items, without a key
-- twice.
pub mod Layers
use custom_queuer.Prelude.{
  Bool, List, Option, [], codes, exists, false, if◌then◌else◌, leb, map, none, not, select, some,
  true, ℕ, ◌&&◌, ◌==◌, ◌||◌, ◌∷◌,
}
use custom_queuer.Tables.{
  Result, Text, bad_arg, bad_env_name, env_arg, env_not_set, nul_byte, ok, raise, reserved_env_name,
  text_eq,
}
use custom_queuer.Checks.{Value}
use custom_queuer.Args.{Json, guard, list, object, scalar, text_of, ◌>>=◌, ◌>>◌}

abbrev pub Env : Type 0
Env = List (Text × Text)

-- env.get(name)
unfoldable pub env_get : Text → Env → Option Text
env_get name [] = none
env_get name ((k, v) ∷ env) = if text_eq k name then some v else env_get name env

-- env[name] = value: a key keeps its place.
unfoldable pub env_set : Text → Text → Env → Env
env_set name value [] = (name, value) ∷ []
env_set name value ((k, v) ∷ env) =
    if text_eq k name then (k, value) ∷ env else (k, v) ∷ env_set name value env

-- env.update(other)
unfoldable pub env_update : Env → Env → Env
unfolding env_set
env_update [] env = env
env_update ((k, v) ∷ other) env = env_update other (env_set k v env)

-- env.pop(name, None)
unfoldable pub env_pop : Text → Env → Env
unfolding select
env_pop name env = select (λ (k, v). not (text_eq k name)) env

abbrev upper_letter : ℕ → Bool
upper_letter c = leb b'A' c && leb c b'Z'

abbrev lower_letter : ℕ → Bool
lower_letter c = leb b'a' c && leb c b'z'

abbrev decimal : ℕ → Bool
decimal c = leb b'0' c && leb c b'9'

abbrev name_start : ℕ → Bool
name_start c = upper_letter c || lower_letter c || c == b'_'

abbrev name_char : ℕ → Bool
name_char c = name_start c || decimal c

abbrev pub all_chars : (ℕ → Bool) → Text → Bool
all_chars p [] = true
all_chars p (c ∷ cs) = p c && all_chars p cs

-- `[A-Za-z_][A-Za-z0-9_]*` matches the whole name.
unfoldable pub is_name : Text → Bool
is_name [] = false
is_name (c ∷ cs) = name_start c && all_chars name_char cs

abbrev pub passthrough_key : Text
passthrough_key = codes "QUR_ENV_PASSTHROUGH"

unfoldable pub check_name : Text → Result (Unit {0})
unfolding is_name text_eq
check_name name =
    if not (is_name name)
    then raise (bad_env_name name)
    else if text_eq name passthrough_key
    then raise (reserved_env_name name)
    else ok tt

abbrev pub has_nul : Text → Bool
has_nul text = exists (λ c. c == 0) text

abbrev pub checked_item : Text → Option Text → Result (Text × Text)
checked_item name none = raise (bad_arg env_arg)
checked_item name (some value) = do
  check_name name
  guard (not (has_nul value)) nul_byte
  ok (name, value)

unfoldable pub check_items : List (Text × Value) → Result Env
unfolding check_name exists
check_items [] = ok []
check_items ((name, value) ∷ items) = do
  item ← checked_item name (text_of (scalar value))
  rest ← check_items items
  ok (item ∷ rest)

unfoldable pub check_env : Json → Result Env
unfolding check_items
check_env (object items) = check_items items
check_env (scalar v) = raise (bad_arg env_arg)
check_env (list vs) = raise (bad_arg env_arg)

-- item.partition("="): the name, and the value after the sign if there is one.
unfoldable pub partition : Text → Text × Option Text
partition [] = ([], none)
partition (c ∷ cs) =
    let (name, value) = partition cs in if c == b'=' then ([], some cs) else (c ∷ name, value)

abbrev option_value : Text → Option Text → Option Text → Result Text
option_value name (some value) found = ok value
option_value name none none = raise (env_not_set name)
option_value name none (some value) = ok value

-- The loop of `parse_env_options`; `environ` is the caller's environment.
unfoldable pub parse_env_items : Env → List Text → Env → Result Env
unfolding partition check_name env_get env_set exists
parse_env_items environ [] out = ok out
parse_env_items environ (item ∷ items) out = do
  check_name (partition item).0
  value ← option_value (partition item).0 (partition item).1 (env_get (partition item).0 environ)
  guard (not (has_nul value)) nul_byte
  parse_env_items environ items (env_set (partition item).0 value out)

unfoldable pub parse_env_options : List Text → Env → Result Env
unfolding parse_env_items
parse_env_options values environ = parse_env_items environ values []

abbrev pub get_or_empty : Option Text → Text
get_or_empty none = []
get_or_empty (some v) = v

abbrev pub base_value : Text → Option Text → Env → Env
base_value name none env = env
base_value name (some v) env = if has_nul v then env else env_set name v env

-- BASE_ENV_NAMES
abbrev pub base_env_names : List Text
base_env_names = codes "USER" ∷ codes "LOGNAME" ∷ codes "SHELL" ∷ codes "TMPDIR" ∷ []

unfoldable pub add_base : Env → List Text → Env → Env
unfolding env_get env_set exists
add_base environ [] env = env
add_base environ (name ∷ names) env =
    add_base environ names (base_value name (env_get name environ) env)

unfoldable pub base_environment : Env → Env
unfolding add_base env_get text_eq
base_environment environ = add_base environ base_env_names (
    (codes "PATH", get_or_empty (env_get (codes "PATH") environ))
    ∷ (codes "HOME", get_or_empty (env_get (codes "HOME") environ))
    ∷ [])

-- `collect_passthrough`; `matches` is fnmatch.fnmatchcase.
unfoldable pub collect_passthrough : (Text → Text → Bool) → List Text → Env → Env
unfolding select exists is_name text_eq
collect_passthrough matches patterns environ =
    select
      (λ (name, value).
        is_name name
        && not (text_eq name passthrough_key)
        && not (has_nul value)
        && exists (matches name) patterns)
      environ

-- job_environment
unfoldable pub job_environment : Env → Env
unfolding env_update env_pop text_eq
job_environment env_extra =
    env_update (env_pop passthrough_key env_extra) ((codes "PYTHONUNBUFFERED", codes "1") ∷ [])

-- What `_run_job` passes to the process.
unfoldable pub process_environment : Env → Env → Env
unfolding base_environment job_environment env_update
process_environment environ env_extra =
    env_update (job_environment env_extra) (base_environment environ)

-- `mask_env_extra` of a dictionary.
abbrev pub mask_value : Text → Text → Text
mask_value name value = if text_eq name passthrough_key then value else codes "***"

unfoldable pub mask_env : Env → Env
unfolding text_eq
mask_env env = map (λ (k, v). (k, mask_value k v)) env
