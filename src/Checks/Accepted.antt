-- ===== src/Checks/Accepted.antt =====
-- What the validators of src/queuer/db.py let through.
use custom_queuer.Prelude.{arith, exists, false, length, some, true, ◌==◌, ◌≡◌, ◌≤◌}
use custom_queuer.Tables.{Text, ok}
use custom_queuer.Checks.{
  Python, Value, bool_value, check_hook, check_signal_text, check_stop_signal, int_value,
  is_stop_signal, max_hook_len, none_value, other_value, str_value,
}

-- An accepted value is stored as it was given, and lies within the limit.
module _ (python : Python) where
  pub check_hook-stored :
      (value : Value) (text : Text)
      → check_hook python value ≡ ok (some text)
      → (value ≡ str_value text)
        × (exists (λ c. c == 0) text ≡ false)
        × (length text ≤ max_hook_len)
  unfolding check_hook
  check_hook-stored (str_value value) text e = ground arith
  check_hook-stored none_value text e = absurd (ground (arith, e))
  check_hook-stored (bool_value _) text e = absurd (ground (arith, e))
  check_hook-stored (int_value _) text e = absurd (ground (arith, e))
  check_hook-stored (other_value truth) text e = absurd (ground (arith, e))

  -- Whatever the spelling, the signal that is stored is one of STOP_SIGNALS.
  check_signal_text-is_stop_signal :
      (text name : Text)
      → check_signal_text python text ≡ ok (some name)
      → is_stop_signal name ≡ true
  unfolding check_signal_text
  check_signal_text-is_stop_signal text name e = ground arith

  pub check_stop_signal-is_stop_signal :
      (value : Value) (name : Text)
      → check_stop_signal python value ≡ ok (some name)
      → is_stop_signal name ≡ true
  unfolding check_stop_signal
  check_stop_signal-is_stop_signal (str_value value) name e =
      check_signal_text-is_stop_signal _ name e
  check_stop_signal-is_stop_signal (int_value n) name e = check_signal_text-is_stop_signal _ name e
  check_stop_signal-is_stop_signal none_value name e = absurd (ground (arith, e))
  check_stop_signal-is_stop_signal (bool_value _) name e = absurd (ground (arith, e))
  check_stop_signal-is_stop_signal (other_value truth) name e = absurd (ground (arith, e))
