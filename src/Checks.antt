-- ===== src/Checks.antt =====
-- The validators of src/queuer/db.py. An argument is a value of any Python type; what `str` and
-- `signal` do with characters is a parameter.
pub mod Accepted
use custom_queuer.Prelude.{
  Bool, List, Option, [], exists, false, if◌then◌else◌, leb, length, ltb, negsuc, none, not, pos,
  some, true, ℕ, ℤ, ◌&&◌, ◌*◌, ◌==◌, ◌||◌, ◌∷◌,
}
use custom_queuer.Tables.{
  Result, Text, bad_hook, bad_job_dir, bad_label, bad_retry_delay, bad_run_key, bad_stop_grace,
  bad_stop_signal, ok, raise, text_eq,
}

-- A value of any type, as far as the validators look: one of another type has its truth only.
pub data Value : Type 0 where
  none_value : Value
  bool_value : Bool → Value
  int_value : ℤ → Value
  str_value : Text → Value
  other_value : (truth : Bool) → Value

-- str.strip, str.upper, str.isdigit with int(), str.isspace and str.isprintable of one character,
-- os.path.isabs, str of an integer, and signal.Signals(n).name (`none` for a ValueError).
pub record Python : Type 0 where
  pub strip : Text → Text
  pub upper : Text → Text
  pub is_digit : Text → Bool
  pub int_of : Text → Option ℕ
  pub is_space : ℕ → Bool
  pub is_printable : ℕ → Bool
  pub is_abs : Text → Bool
  pub str_of_int : ℤ → Text
  pub signal_name : ℕ → Option Text

abbrev pub max_hook_len : ℕ
max_hook_len = 4096

abbrev pub max_stop_grace_secs : ℕ
max_stop_grace_secs = 86400

abbrev pub max_run_key_len : ℕ
max_run_key_len = 128

abbrev pub max_label_len : ℕ
max_label_len = 64

abbrev pub max_retry_delay_secs : ℕ
max_retry_delay_secs = 30 * 86400

abbrev pub is_empty : Text → Bool
is_empty [] = true
is_empty (c ∷ cs) = false

-- A number that the enumeration does not have is a ValueError.
abbrev named_signal : Python → Option ℕ → Option Text
named_signal python none = none
named_signal python (some n) = python.signal_name n

-- "SIGTERM" and the others of STOP_SIGNALS.
abbrev sig : Text → Text
sig rest = b'S' ∷ b'I' ∷ b'G' ∷ rest

abbrev pub stop_signals : List Text
stop_signals =
    sig (b'T' ∷ b'E' ∷ b'R' ∷ b'M' ∷ [])
    ∷ sig (b'I' ∷ b'N' ∷ b'T' ∷ [])
    ∷ sig (b'H' ∷ b'U' ∷ b'P' ∷ [])
    ∷ sig (b'Q' ∷ b'U' ∷ b'I' ∷ b'T' ∷ [])
    ∷ sig (b'U' ∷ b'S' ∷ b'R' ∷ b'1' ∷ [])
    ∷ sig (b'U' ∷ b'S' ∷ b'R' ∷ b'2' ∷ [])
    ∷ sig (b'K' ∷ b'I' ∷ b'L' ∷ b'L' ∷ [])
    ∷ []

unfoldable pub starts_with_sig : Text → Bool
starts_with_sig (a ∷ b ∷ c ∷ rest) = a == b'S' && b == b'I' && c == b'G'
starts_with_sig _ = false

unfoldable pub is_stop_signal : Text → Bool
unfolding exists text_eq
is_stop_signal text = exists (text_eq text) stop_signals

abbrev checked_name : Text → Result (Option Text)
checked_name text = if is_stop_signal text then ok (some text) else raise bad_stop_signal

abbrev checked_signal : Option Text → Result (Option Text)
checked_signal none = raise bad_stop_signal
checked_signal (some name) = checked_name name

module _ (python : Python) where
  open python use {strip, upper, is_digit, int_of, is_space, is_printable, is_abs, str_of_int}

  unfoldable pub check_hook : Value → Result (Option Text)
  unfolding exists
  check_hook none_value = ok none
  check_hook (str_value value) =
      if is_empty (strip value)
      then ok none
      else if exists (λ c. c == 0) value
      then raise bad_hook
      else if ltb max_hook_len (length value)
      then raise bad_hook
      else ok (some value)
  check_hook _ = raise bad_hook

  -- `text = str(value).strip().upper()` and what follows.
  unfoldable pub check_signal_text : Text → Result (Option Text)
  check_signal_text text =
      if is_empty text
      then ok none
      else if is_digit text
      then checked_signal (named_signal python (int_of text))
      else if starts_with_sig text
      then checked_name text
      else checked_name (sig text)

  unfoldable pub check_stop_signal : Value → Result (Option Text)
  unfolding check_signal_text
  check_stop_signal none_value = ok none
  check_stop_signal (str_value value) = check_signal_text (upper (strip value))
  check_stop_signal (int_value value) = check_signal_text (upper (strip (str_of_int value)))
  check_stop_signal _ = raise bad_stop_signal

  unfoldable pub check_stop_grace : Value → Result (Option ℕ)
  check_stop_grace none_value = ok none
  check_stop_grace (int_value (pos value)) =
      if leb value max_stop_grace_secs then ok (some value) else raise bad_stop_grace
  check_stop_grace _ = raise bad_stop_grace

  unfoldable pub check_run_key : Value → Result (Option Text)
  unfolding exists
  check_run_key none_value = ok none
  check_run_key (str_value value) =
      if is_empty value
      then ok none
      else if ltb max_run_key_len (length value)
          || exists (λ c. is_space c || not (is_printable c)) value
      then raise bad_run_key
      else ok (some value)
  check_run_key _ = raise bad_run_key

  unfoldable pub check_job_dir : Value → Result (Option Text)
  unfolding exists
  check_job_dir none_value = ok none
  check_job_dir (str_value value) =
      if is_empty value
      then ok none
      else if exists (λ c. c == 0) value || not (is_abs value)
      then raise bad_job_dir
      else ok (some value)
  check_job_dir _ = raise bad_job_dir

  unfoldable pub check_label : Value → Result (Option Text)
  unfolding exists
  check_label none_value = ok none
  check_label (str_value value) =
      if is_empty value
      then ok none
      else if ltb max_label_len (length value) || exists (λ c. not (is_printable c)) value
      then raise bad_label
      else ok (some value)
  check_label _ = raise bad_label

-- The retry delay of `enqueue`: `0 < retry_delay_secs <= MAX_RETRY_DELAY_SECS`.
unfoldable pub check_retry_delay : Option ℤ → Result (Option ℕ)
check_retry_delay none = ok none
check_retry_delay (some (negsuc n)) = raise bad_retry_delay
check_retry_delay (some (pos n)) =
    if ltb 0 n && leb n max_retry_delay_secs then ok (some n) else raise bad_retry_delay
