-- ===== src/Requeue/Delay.antt =====
-- When an automatic retry (src/queuer/db.py, `requeue`) may start.
use native.Mathlib.Nat.{pow-suc}
use custom_queuer.Prelude.{
  Bool, Bool-cases, arith, false, if◌then◌else◌, inl, inr, leb, min, refl, some, suc, sym, true,
  zero, ℕ, ◌*◌, ◌+◌, ◌^◌, ◌∙◌, ◌≡◌, ◌≤◌,
}
use custom_queuer.Tables.{Job}
use custom_queuer.Checks.{max_retry_delay_secs}
use custom_queuer.EditLock.{seconds}
use custom_queuer.Requeue.{not_before_of, retry_delay}

pow-le_pow : (a b : ℕ) → a ≤ b → 2 ^ a ≤ 2 ^ b
pow-le_pow zero zero h = omega arith
pow-le_pow zero (suc b) h = rw pow-suc (omega (arith, pow-le_pow zero b (omega arith)))
pow-le_pow (suc a) zero h = absurd (omega arith)
pow-le_pow (suc a) (suc b) h =
    rw (pow-suc 2 a, pow-suc 2 b) (omega (arith, pow-le_pow a b (omega arith)))

pow-le_mul : (n a : ℕ) → 2 ^ a ≤ suc n * 2 ^ a
pow-le_mul n a = grind arith

-- From attempt 40 on the cap is reached, and 2 ^ 40 is above it.
cap-le_pow : (a : ℕ) → 40 ≤ a → max_retry_delay_secs ≤ 2 ^ a
cap-le_pow a h = omega (arith, pow-le_pow 40 a h)

min-eq-cap : (n : ℕ) → max_retry_delay_secs ≤ n → min n max_retry_delay_secs ≡ max_retry_delay_secs
min-eq-cap n h = ground arith

le_trans : {a b c : ℕ} → a ≤ b → b ≤ c → a ≤ c
le_trans h k = omega arith

-- The delay doubles with each attempt if the job asks for backoff, and is the same for each otherwise,
-- up to MAX_RETRY_DELAY_SECS: the limit of 40 on the exponent never shows.
pub retry_delay_lem :
    (delay : ℕ) (backoff : Bool) (attempt : ℕ)
    → retry_delay delay backoff attempt
      ≡ min (if backoff then delay * 2 ^ attempt else delay) max_retry_delay_secs
unfolding retry_delay
retry_delay_lem delay false attempt = refl
retry_delay_lem zero true attempt = grind arith
retry_delay_lem (suc n) true attempt = elim (Bool-cases (leb attempt 40)) [
  | inl short ↦ let same : min attempt 40 ≡ attempt = ground arith in rw same refl
  | inr long ↦
      let same : min attempt 40 ≡ 40 = ground arith in
      let capped =
        min-eq-cap (suc n * 2 ^ attempt)
          (le_trans (cap-le_pow attempt (ground arith)) (pow-le_mul n attempt)) in
      let limited =
        min-eq-cap (suc n * 2 ^ 40) (le_trans (cap-le_pow 40 (omega arith)) (pow-le_mul n 40)) in
      rw same (limited ∙ sym capped)
]

-- A retry starts after `now` and at most MAX_RETRY_DELAY_SECS after it, and only an automatic one
-- of a job with a delay waits at all.
pub not_before_of_bounds :
    (now t : ℕ) (auto : Bool) (j : Job)
    → not_before_of now auto j ≡ some t
    → (auto ≡ true) × (now ≤ t) × (t ≤ now + seconds max_retry_delay_secs)
unfolding not_before_of retry_delay
not_before_of_bounds now t auto j e = ground arith
