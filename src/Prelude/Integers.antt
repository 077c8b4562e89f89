-- ===== src/Prelude/Integers.antt =====
-- Signed integers over the native numbers. Sums and orders go through the two parts of an
-- integer, which are numbers that `omega` reads.
use Prim.Native.Nat.{ℕ, suc, ◌+◌, ◌-◌, ◌/◌, ◌≤◌, ◌<◌}
use mathlib.Core.Path.{◌≡◌}
use mathlib.Core.Bool.{Bool, true, false}
use native.Mathlib.Omega.{arith}
use custom_queuer.Prelude.Tests.{if◌then◌else◌, leb, ltb}

-- `negsuc n` is -(n + 1).
pub data ℤ : Type 0 where
  pos : ℕ → ℤ
  negsuc : ℕ → ℤ

abbrev pub pos_part : ℤ → ℕ
pos_part (pos n) = n
pos_part (negsuc n) = 0

abbrev pub neg_part : ℤ → ℕ
neg_part (pos n) = 0
neg_part (negsuc n) = suc n

-- a - b, as an integer.
abbrev pub sub_ℕ : ℕ → ℕ → ℤ
sub_ℕ a b = if leb b a then pos (a - b) else negsuc (b - a - 1)

infixl 65 ◌+ℤ◌ ◌-ℤ◌
infix 50 ◌≤ℤ◌ ◌<ℤ◌
unfoldable pub ◌+ℤ◌ : ℤ → ℤ → ℤ
a +ℤ b = sub_ℕ (pos_part a + pos_part b) (neg_part a + neg_part b)

unfoldable pub ◌-ℤ◌ : ℤ → ℤ → ℤ
a -ℤ b = sub_ℕ (pos_part a + neg_part b) (neg_part a + pos_part b)

-- Python's `a // 2`, which rounds down.
unfoldable pub half : ℤ → ℤ
half (pos n) = pos (n / 2)
half (negsuc n) = negsuc (n / 2)

abbrev pub ◌≤ℤ◌ : ℤ → ℤ → Type 0
a ≤ℤ b = pos_part a + neg_part b ≤ pos_part b + neg_part a

abbrev pub ◌<ℤ◌ : ℤ → ℤ → Type 0
a <ℤ b = pos_part a + neg_part b < pos_part b + neg_part a

abbrev pub ltb_ℤ : ℤ → ℤ → Bool
ltb_ℤ a b = ltb (pos_part a + neg_part b) (pos_part b + neg_part a)

abbrev pub leb_ℤ : ℤ → ℤ → Bool
leb_ℤ a b = leb (pos_part a + neg_part b) (pos_part b + neg_part a)

pub +ℤ_parts :
    (a b : ℤ)
    → pos_part (a +ℤ b) + neg_part a + neg_part b ≡ neg_part (a +ℤ b) + pos_part a + pos_part b
unfolding ◌+ℤ◌
+ℤ_parts a b = ground arith

pub -ℤ_parts :
    (a b : ℤ)
    → pos_part (a -ℤ b) + neg_part a + pos_part b ≡ neg_part (a -ℤ b) + pos_part a + neg_part b
unfolding ◌-ℤ◌
-ℤ_parts a b = ground arith

-- Twice the half is the number or one less.
pub half_bounds : (a : ℤ) → (half a +ℤ half a ≤ℤ a) × (a <ℤ half a +ℤ half a +ℤ pos 2)
unfolding half ◌+ℤ◌
half_bounds (pos n) = ground arith
half_bounds (negsuc n) = ground arith

pub ltb_ℤ→< : (a b : ℤ) → ltb_ℤ a b ≡ true → a <ℤ b
ltb_ℤ→< a b h = ground arith

pub ltb_ℤ_false→≤ : (a b : ℤ) → ltb_ℤ a b ≡ false → b ≤ℤ a
ltb_ℤ_false→≤ a b h = ground arith

pub <→ltb_ℤ : (a b : ℤ) → a <ℤ b → ltb_ℤ a b ≡ true
<→ltb_ℤ a b h = ground arith

pub leb_ℤ→≤ : (a b : ℤ) → leb_ℤ a b ≡ true → a ≤ℤ b
leb_ℤ→≤ a b h = ground arith

pub ≤→leb_ℤ : (a b : ℤ) → a ≤ℤ b → leb_ℤ a b ≡ true
≤→leb_ℤ a b h = ground arith

pub leb_ℤ_false→< : (a b : ℤ) → leb_ℤ a b ≡ false → b <ℤ a
leb_ℤ_false→< a b h = ground arith

-- With a gap of two or more between them, the midpoint lies strictly between.
pub midpoint_between :
    (low high : ℤ)
    → low +ℤ pos 2 ≤ℤ high
    → (low <ℤ half (low +ℤ high)) × (half (low +ℤ high) <ℤ high)
midpoint_between low high h = (
  omega (
    arith,
    +ℤ_parts low high,
    +ℤ_parts low (pos 2),
    half_bounds (low +ℤ high),
    +ℤ_parts (half (low +ℤ high)) (half (low +ℤ high)),
    +ℤ_parts (half (low +ℤ high) +ℤ half (low +ℤ high)) (pos 2),
  ),
  omega (
    arith,
    +ℤ_parts low high,
    +ℤ_parts low (pos 2),
    half_bounds (low +ℤ high),
    +ℤ_parts (half (low +ℤ high)) (half (low +ℤ high)),
    +ℤ_parts (half (low +ℤ high) +ℤ half (low +ℤ high)) (pos 2),
  ),
)
