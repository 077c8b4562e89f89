-- ===== src/Samples/Buttons.antt =====
-- A button of the samples. The ids of jobs are written in unary.
use custom_queuer.Prelude.{
  Bool, [], arith, codes, length, refl, some, suc, true, zero, ℕ, ◌&&◌, ◌-◌, ◌==◌, ◌∷◌, ◌≡◌,
}
use custom_queuer.Tables.{Text}
use custom_queuer.Callback.{
  Decimal, Machine, all_hex, callback_data, callback_epoch, is_action, parse_callback,
}
use custom_queuer.Callback.RoundTrip.{IsFaithful, has_no_colon, parse_callback-callback_data}

unfoldable ones : ℕ → Text
ones zero = b'1' ∷ []
ones (suc n) = b'1' ∷ ones n

unfoldable all_ones : Text → Bool
all_ones [] = true
all_ones (c ∷ cs) = c == b'1' && all_ones cs

abbrev unary : Decimal
unary = record { str_of = ones; int_of = λ s. length s - 1; is_decimal = all_ones }

length-ones : (n : ℕ) → length (ones n) ≡ suc n
unfolding ones
length-ones zero = refl
length-ones (suc n) = omega (arith, length-ones n)

unary-IsFaithful : IsFaithful unary
unfolding ones all_ones has_no_colon
unary-IsFaithful = record {
  int_of-str_of = λ n. omega (arith, length-ones n);
  str_of-is_decimal = decimal;
  str_of-has_no_colon = clean;
}
  where
    decimal : (n : ℕ) → all_ones (ones n) ≡ true
    decimal zero = refl
    decimal (suc n) = decimal n

    clean : (n : ℕ) → has_no_colon (ones n) ≡ true
    clean zero = refl
    clean (suc n) = clean n

abbrev machine : Machine
machine = record { qur_id = codes "vm3"; epoch = codes "ab12ff" }

-- A requeue button of job 2.
data_of_button : callback_data unary machine 2 (codes "rq") ≡ codes "rq:vm3:111:ab12"
unfolding callback_data ones
data_of_button = refl

parse_callback-callback_data_example :
    (parse_callback unary (callback_data unary machine 2 (codes "rq"))
      ≡ some (codes "rq", codes "vm3", 2))
    × (callback_epoch (callback_data unary machine 2 (codes "rq")) ≡ some (codes "ab12"))
unfolding is_action has_no_colon all_hex
parse_callback-callback_data_example =
    parse_callback-callback_data unary unary-IsFaithful machine 2 (codes "rq") refl refl refl
