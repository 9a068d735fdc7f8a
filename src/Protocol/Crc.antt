-- ===== src/Protocol/Crc.antt =====
-- crc16_ccitt of host/src/navbench/protocol.py.
use navbench.Common.{
  ℕ, zero, suc, ◌*◌, ◌%◌, ◌^◌, ◌<◌, ◌≡◌, refl, bit_and, bit_xor, List, [], ◌∷◌, ◌==◌, if◌then◌else◌,
  arith,
}

-- One round of the inner loop. `& 0xFFFF` is `% 2 ^ 16`.
unfoldable pub shift_bit : ℕ → ℕ
shift_bit crc =
    if bit_and crc 0x8000 == 0 then crc * 2 % 2 ^ 16 else bit_xor (crc * 2) 0x1021 % 2 ^ 16

-- `for _ in range(8)`
unfoldable pub shift_bits : ℕ → ℕ → ℕ
shift_bits zero crc = crc
shift_bits (suc n) crc = shift_bits n (shift_bit crc)

-- `crc ^= value << 8`, then the inner loop.
unfoldable pub crc_step : ℕ → ℕ → ℕ
unfolding shift_bits shift_bit
crc_step crc value = shift_bits 8 (bit_xor crc (value * 2 ^ 8))

unfoldable pub crc_loop : ℕ → List ℕ → ℕ
crc_loop crc [] = crc
crc_loop crc (value ∷ rest) = crc_loop (crc_step crc value) rest

unfoldable pub crc16_ccitt : List ℕ → ℕ
unfolding crc_loop crc_step
crc16_ccitt xs = crc_loop 0xFFFF xs

shift_bit-lt : (crc : ℕ) → shift_bit crc < 2 ^ 16
unfolding shift_bit
shift_bit-lt crc = ground arith

crc_step-lt : (crc value : ℕ) → crc_step crc value < 2 ^ 16
unfolding crc_step
crc_step-lt crc value = ground arith

crc_loop-lt : (crc : ℕ) (xs : List ℕ) → crc < 2 ^ 16 → crc_loop crc xs < 2 ^ 16
unfolding crc_loop
crc_loop-lt crc [] h = h
crc_loop-lt crc (x ∷ xs) h = crc_loop-lt (crc_step crc x) xs (crc_step-lt crc x)

-- The checksum fits in the two bytes that the packet has for it.
pub crc16_ccitt-lt : (xs : List ℕ) → crc16_ccitt xs < 2 ^ 16
unfolding crc16_ccitt
crc16_ccitt-lt xs = crc_loop-lt 0xFFFF xs (omega arith)

-- The check value of CRC-16/CCITT-FALSE.
check_value :
    crc16_ccitt (0x31 ∷ 0x32 ∷ 0x33 ∷ 0x34 ∷ 0x35 ∷ 0x36 ∷ 0x37 ∷ 0x38 ∷ 0x39 ∷ []) ≡ 0x29B1
unfolding crc16_ccitt
check_value = refl
