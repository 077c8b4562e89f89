-- ===== src/Args.antt =====
-- The arguments of a request to src/queuer/daemon.py: JSON values, and the checks that the handlers
-- share. A result is a value or the ValueError; the checks write nothing.
pub mod Ranges
use mathlib.Core.Option
use custom_queuer.Prelude.{
  Bool, List, Option, [], false, if◌then◌else◌, is_nil, length, ltb, negsuc, none, not, pos, refl,
  some, true, ℕ, ℤ, ◌&&◌, ◌*◌, ◌==◌, ◌∷◌, ◌≡◌,
}
use custom_queuer.Tables.{
  ArgName, Error, Mode, Result, Text, after_any_arg, any, bad_arg, channel_arg, depends_on_arg,
  id_arg, missing_arg, not_before_arg, ok, out_of_range, pid_arg, raise, retries_arg, success,
  timeout_arg, too_many,
}
use custom_queuer.Checks.{Value, bool_value, int_value, none_value, other_value, str_value}

-- A JSON value, as far as the handlers look: what Python calls a scalar (`other_value` stands for a
-- float, which is false if it is 0), a list of values, or an object.
pub data Json : Type 0 where
  scalar : Value → Json
  list : List Value → Json
  object : List (Text × Value) → Json

abbrev pub guard : Bool → Error → Result (Unit {0})
guard false refusal = raise refusal
guard true refusal = ok tt

-- What follows a check that raises is not run.
infixl 5 ◌>>=◌ ◌>>◌
abbrev pub ◌>>=◌ : {A B : Type 0} → Result A → (A → Result B) → Result B
raise refusal >>= rest = raise refusal
ok value >>= rest = rest value

abbrev pub ◌>>◌ : {A B : Type 0} → Result A → Result B → Result B
checked >> rest = checked >>= λ _. rest

-- `bool(value)`: a list or an object counts by its length.
abbrev pub is_zero : ℤ → Bool
is_zero (pos n) = n == 0
is_zero (negsuc n) = false

abbrev pub truthy_value : Value → Bool
truthy_value none_value = false
truthy_value (bool_value b) = b
truthy_value (int_value n) = not (is_zero n)
truthy_value (str_value s) = not (is_nil s)
truthy_value (other_value truth) = truth

abbrev pub truthy : Json → Bool
truthy (scalar v) = truthy_value v
truthy (list xs) = not (is_nil xs)
truthy (object fs) = not (is_nil fs)

-- `value or default`
abbrev pub value_or : Json → Json → Json
value_or v default = if truthy v then v else default

abbrev pub is_null : Json → Bool
is_null (scalar none_value) = true
is_null _ = false

-- `type(value) is int and value >= 0`
abbrev pub natural : Json → Option ℕ
natural (scalar (int_value (pos n))) = some n
natural _ = none

-- `type(value) is int`
abbrev pub integer : Json → Option ℤ
integer (scalar (int_value n)) = some n
integer _ = none

abbrev pub text_of : Json → Option Text
text_of (scalar (str_value s)) = some s
text_of _ = none

abbrev pub boolean : Json → Option Bool
boolean (scalar (bool_value b)) = some b
boolean _ = none

-- A list of strings.
abbrev pub texts : List Value → Option (List Text)
texts [] = some []
texts (str_value s ∷ vs) = Option.map (◌∷◌ s) (texts vs)
texts (none_value ∷ vs) = none
texts (bool_value b ∷ vs) = none
texts (int_value n ∷ vs) = none
texts (other_value truth ∷ vs) = none

abbrev pub text_list : Json → Option (List Text)
text_list (list vs) = texts vs
text_list _ = none

abbrev pub max_channel : ℕ
max_channel = 9999

abbrev pub max_timeout_secs : ℕ
max_timeout_secs = 10 * 365 * 86400

abbrev pub max_retries_limit : ℕ
max_retries_limit = 1000

abbrev pub max_sweep : ℕ
max_sweep = 1000

abbrev pub max_index : ℕ
max_index = 1000000000

abbrev pub max_pid : ℕ
max_pid = 4194304

abbrev int_below : ArgName → Bool → ℤ → Result (Unit {0})
int_below key positive (negsuc n) = if positive then raise (bad_arg key) else ok tt
int_below key positive (pos n) = if positive && n == 0 then raise (bad_arg key) else ok tt

abbrev is_channel_arg : ArgName → Bool
is_channel_arg channel_arg = true
is_channel_arg _ = false

abbrev over_channel : ℤ → Bool
over_channel (negsuc n) = false
over_channel (pos n) = ltb max_channel n

abbrev int_found : ArgName → Bool → Option ℤ → Result (Option ℤ)
int_found key positive none = raise (bad_arg key)
int_found key positive (some n) = do
  int_below key positive n
  guard (not (is_channel_arg key && over_channel n)) (out_of_range key)
  ok (some n)

-- _int_arg
unfoldable pub int_arg : ArgName → (required positive : Bool) → Json → Result (Option ℤ)
int_arg key required positive value =
    if is_null value
    then (if required then raise (missing_arg key) else ok none)
    else int_found key positive (integer value)

-- An argument of `_check_channel`, `_check_timeout`, `_check_retries`: an int in a range.
abbrev in_range : ArgName → (least most : ℕ) → Option ℕ → Result ℕ
in_range key least most none = raise (bad_arg key)
in_range key least most (some n) =
    if ltb n least
    then raise (bad_arg key)
    else if ltb most n
    then raise (out_of_range key)
    else ok n

unfoldable pub check_channel : Json → Result ℕ
check_channel value = in_range channel_arg 1 max_channel (natural value)

unfoldable pub check_timeout : Json → Result ℕ
check_timeout value = in_range timeout_arg 0 max_timeout_secs (natural value)

unfoldable pub check_retries : Json → Result ℕ
check_retries value = in_range retries_arg 0 max_retries_limit (natural value)

-- The natural number that a positive integer argument is.
abbrev pub positive_int : Option ℤ → Option ℕ
positive_int none = none
positive_int (some (pos n)) = some n
positive_int (some (negsuc n)) = none

-- An id argument: a negative id names no job, as 0 does.
abbrev pub job_id_of : Option ℤ → ℕ
job_id_of none = 0
job_id_of (some (pos n)) = n
job_id_of (some (negsuc n)) = 0

-- An optional channel.
unfoldable pub channel_arg_of : Json → Result (Option ℕ)
unfolding int_arg
channel_arg_of value = int_arg channel_arg false true value >>= λ n. ok (positive_int n)

-- args["id"], after `_int_arg`.
unfoldable pub id_argument : Json → Result ℕ
unfolding int_arg
id_argument value = int_arg id_arg true false value >>= λ n. ok (job_id_of n)

abbrev pid_below : Option ℕ → Result (Option ℕ)
pid_below none = ok none
pid_below (some pid) = if ltb max_pid pid then raise (out_of_range pid_arg) else ok (some pid)

-- _pid_arg
unfoldable pub check_pid : Bool → Json → Result (Option ℕ)
unfolding int_arg
check_pid required value = do
  pid ← int_arg pid_arg required true value
  pid_below (positive_int pid)

-- A list of job ids: positive ints.
abbrev pub job_ids : List Value → Option (List ℕ)
job_ids [] = some []
job_ids (int_value (pos n) ∷ vs) = if n == 0 then none else Option.map (◌∷◌ n) (job_ids vs)
job_ids (int_value (negsuc n) ∷ vs) = none
job_ids (none_value ∷ vs) = none
job_ids (bool_value b ∷ vs) = none
job_ids (str_value s ∷ vs) = none
job_ids (other_value truth ∷ vs) = none

abbrev pub id_list : Json → Option (List ℕ)
id_list (list vs) = job_ids vs
id_list _ = none

-- deps[i] = mode: a key keeps its place.
unfoldable pub put_dep : ℕ → Mode → List (ℕ × Mode) → List (ℕ × Mode)
put_dep i mode [] = (i, mode) ∷ []
put_dep i mode ((k, m) ∷ rest) = if k == i then (k, mode) ∷ rest else (k, m) ∷ put_dep i mode rest

unfoldable pub put_deps : List ℕ → Mode → List (ℕ × Mode) → List (ℕ × Mode)
unfolding put_dep
put_deps [] mode deps = deps
put_deps (i ∷ is_) mode deps = put_deps is_ mode (put_dep i mode deps)

abbrev pub bounded_ids : ArgName → Option (List ℕ) → Result (List ℕ)
bounded_ids key none = raise (bad_arg key)
bounded_ids key (some ids) = if ltb max_sweep (length ids) then raise (too_many key) else ok ids

-- _dep_args: `after_any` first, so an id in both lists gets the mode `success`.
unfoldable pub dep_args : (depends_on after_any : Json) → Result (List (ℕ × Mode))
unfolding put_deps
dep_args depends_on after_any = do
  any_ids ← bounded_ids after_any_arg (id_list (value_or after_any (list [])))
  success_ids ← bounded_ids depends_on_arg (id_list (value_or depends_on (list [])))
  ok (put_deps success_ids success (put_deps any_ids any []))

-- `_parse_not_before`; `parse_iso` is datetime.fromisoformat with the value as UTC microseconds:
-- no timestamp, one with no offset, or a time.
pub data IsoTime : Type 0 where
  not_iso no_offset : IsoTime
  iso_time : ℕ → IsoTime

abbrev parsed_time : IsoTime → Result (Option ℕ)
parsed_time not_iso = raise (bad_arg not_before_arg)
parsed_time no_offset = raise (bad_arg not_before_arg)
parsed_time (iso_time t) = ok (some t)

abbrev time_text : (Text → IsoTime) → Option Text → Result (Option ℕ)
time_text parse_iso none = raise (bad_arg not_before_arg)
time_text parse_iso (some s) = parsed_time (parse_iso s)

unfoldable pub parse_not_before : (Text → IsoTime) → Json → Result (Option ℕ)
parse_not_before parse_iso value =
    if is_null value then ok none else time_text parse_iso (text_of value)

-- A bind that returned: both parts did.
pub bind-eq-ok :
    {A B : Type 0} (check : Result A) (rest : A → Result B) {r : B}
    → (check >>= rest) ≡ ok r
    → (value : A) × (check ≡ ok value) × (rest value ≡ ok r)
bind-eq-ok (raise refusal) rest h = absurd (cc)
bind-eq-ok (ok value) rest h = (value, refl, h)

pub ok-injective : {A : Type 0} {a b : A} → ok a ≡ ok b → a ≡ b
ok-injective e = cc
