-- ===== src/Tests/Floats.antt =====
-- A `Binary32` whose floats are the 32-bit patterns themselves.
use navbench.Common.{
  ℕ, ◌+◌, ◌-◌, ◌/◌, ◌%◌, ◌^◌, ◌<◌, ◌≡◌, Bool, true, false, not, ltb, ◌==◌, if◌then◌else◌, arith,
}
use navbench.Protocol.Value.{Binary32}

-- The exponent is not all ones.
abbrev pub finite_pattern : ℕ → Bool
finite_pattern w = not (w % 2 ^ 32 / 2 ^ 23 % 256 == 255)

-- The sign bit with a number other than zero.
abbrev pub negative_pattern : ℕ → Bool
negative_pattern w = ltb (2 ^ 31) (w % 2 ^ 32)

abbrev pub nonzero_pattern : ℕ → Bool
nonzero_pattern w = not (w % 2 ^ 31 == 0)

-- The patterns in the order of the numbers.
abbrev pub rank : ℕ → ℕ
rank w = if ltb w (2 ^ 31) then 2 ^ 31 + w else 2 ^ 32 - w

abbrev pub greater_pattern : ℕ → ℕ → Bool
greater_pattern x y = ltb (rank (y % 2 ^ 32)) (rank (x % 2 ^ 32))

again : (w : ℕ) → w % 2 ^ 32 % 2 ^ 32 ≡ w % 2 ^ 32
again w = omega arith

pub finite_round : (w : ℕ) → finite_pattern w ≡ true → finite_pattern (w % 2 ^ 32) ≡ true
finite_round w h = rw again h

pub sign_round : (w : ℕ) → negative_pattern w ≡ false → negative_pattern (w % 2 ^ 32) ≡ false
sign_round w h = rw again h

pub zero_round : (w : ℕ) → nonzero_pattern w ≡ false → nonzero_pattern (w % 2 ^ 32) ≡ false
zero_round w h = ground arith

pub order_round :
    (x y : ℕ) → greater_pattern x y ≡ false → greater_pattern (x % 2 ^ 32) (y % 2 ^ 32) ≡ false
order_round x y h = rw (again x, again y) h

pub bits_lt : (w : ℕ) → w % 2 ^ 32 < 2 ^ 32
bits_lt w = omega arith

pub bits_back : (w : ℕ) → w < 2 ^ 32 → finite_pattern w ≡ true → w % 2 ^ 32 ≡ w
bits_back w lt h = omega arith

abbrev pub patterns : Binary32
patterns = record {
  Float = ℕ;
  is_finite = finite_pattern;
  is_negative = negative_pattern;
  is_nonzero = nonzero_pattern;
  exceeds = greater_pattern;
  to_bits = λ w. w % 2 ^ 32;
  from_bits = λ w. w;
  to_bits-lt = bits_lt;
  to_bits-from_bits = bits_back;
  round_finite = finite_round;
  round_sign = sign_round;
  round_zero = zero_round;
  round_order = order_round;
}
