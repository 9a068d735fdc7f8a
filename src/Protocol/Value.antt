-- ===== src/Protocol/Value.antt =====
-- Scalars that reach the codec of host/src/navbench/protocol.py, and the checks on them: _uint,
-- _finite and _mask. Floats are a parameter: `Binary32` is what the codec uses of Python's float,
-- `math.isfinite` and the `f` fields of `struct`.
use navbench.Common.{
  ℕ, ◌-◌, ◌^◌, ◌<◌, ◌≡◌, Bool, true, false, bit_and, ltb, ◌==◌, not, if◌then◌else◌, arith,
}
use navbench.Protocol.Error.{Result, ok, err, invalid_value, ◌>>=◌, ◌>>◌, refuse}

-- A Python object in the place of an integer: `negative n` is -(n + 1), and `other` is an object
-- that is no integer.
pub data Scalar : Type 0 where
  int : ℕ → Scalar
  negative : ℕ → Scalar
  boolean : Bool → Scalar
  other : Scalar

unfoldable pub uint : Scalar → ℕ → Result ℕ
uint (int n) bits = if ltb n (2 ^ bits) then ok n else err invalid_value
uint _ bits = err invalid_value

-- `raw & ~allowed`
abbrev pub unknown_bits : ℕ → ℕ → ℕ
unknown_bits raw allowed = raw - bit_and raw allowed

unfoldable pub mask : Scalar → ℕ → Result ℕ
unfolding uint
mask value allowed = do
  raw ← uint value 16
  refuse (not (unknown_bits raw allowed == 0)) invalid_value
  ok raw

pub record Binary32 : Type 1 where
  pub Float : Type 0
  -- math.isfinite(x) and abs(x) <= _FLOAT32_MAX
  pub is_finite : Float → Bool
  -- x < 0.0
  pub is_negative : Float → Bool
  -- x != 0.0
  pub is_nonzero : Float → Bool
  -- x > y
  pub exceeds : Float → Float → Bool
  -- struct.pack("<f", x) and struct.unpack("<f", bits), as 32-bit patterns
  pub to_bits : Float → ℕ
  pub from_bits : ℕ → Float
  pub to_bits-lt : (x : Float) → to_bits x < 2 ^ 32
  -- a binary32 pattern that is a number is a Python float, and packs to itself
  pub to_bits-from_bits :
      (w : ℕ) → w < 2 ^ 32 → is_finite (from_bits w) ≡ true → to_bits (from_bits w) ≡ w
  -- rounding to binary32 is monotone, and keeps zero and the largest value
  pub round_finite : (x : Float) → is_finite x ≡ true → is_finite (from_bits (to_bits x)) ≡ true
  pub round_sign : (x : Float) → is_negative x ≡ false → is_negative (from_bits (to_bits x)) ≡ false
  pub round_zero : (x : Float) → is_nonzero x ≡ false → is_nonzero (from_bits (to_bits x)) ≡ false
  pub round_order :
      (x y : Float)
      → exceeds x y ≡ false
      → exceeds (from_bits (to_bits x)) (from_bits (to_bits y)) ≡ false

module _ (fl : Binary32) where
  -- The pattern of a float that `_finite` accepts.
  unfoldable pub finite : fl.Float → Result fl.Float
  finite x = if fl.is_finite x then ok x else err invalid_value

pub uint-eq-ok : (s : Scalar) (bits n : ℕ) → uint s bits ≡ ok n → (s ≡ int n) × (n < 2 ^ bits)
unfolding uint
uint-eq-ok (int m) bits n h = ground arith
uint-eq-ok (negative m) bits n h = cc
uint-eq-ok (boolean b) bits n h = cc
uint-eq-ok other bits n h = cc

pub uint_int : (n bits : ℕ) → n < 2 ^ bits → uint (int n) bits ≡ ok n
unfolding uint
uint_int n bits h = ground arith

pub mask-eq-ok : (s : Scalar) (allowed n : ℕ) → mask s allowed ≡ ok n → (s ≡ int n) × (n < 2 ^ 16)
unfolding mask
mask-eq-ok (int m) allowed n h = ground arith
mask-eq-ok (negative m) allowed n h = cc
mask-eq-ok (boolean b) allowed n h = cc
mask-eq-ok other allowed n h = cc

-- The number that an integer scalar is.
abbrev pub value : Scalar → ℕ
value (int n) = n
value (negative n) = 0
value (boolean b) = 0
value other = 0

pub value-eq : (s : Scalar) (bits n : ℕ) → uint s bits ≡ ok n → n ≡ value s
unfolding uint
value-eq s bits n h = ground arith
