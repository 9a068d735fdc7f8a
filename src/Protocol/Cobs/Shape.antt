-- ===== src/Protocol/Cobs/Shape.antt =====
-- The shape of the frames that cobs_encode of host/src/navbench/protocol.py writes.
use navbench.Common.{
  ℕ, zero, suc, ◌+◌, ◌*◌, ◌/◌, ◌≤◌, ◌<◌, ◌≢◌, List, [], ◌∷◌, ◌++◌, length, length-append, All,
  All-append, arith,
}
use native.Mathlib.Decide.{ℕ_discrete}
use navbench.Protocol.Struct.Laws.{IsByte}
use navbench.Protocol.Cobs.{cobs_encode}
use navbench.Protocol.Cobs.Blocks.{blocks, blocks_cut, blocks_full, blocks_grow, cobs_encode-blocks}

abbrev pub NoZero : List ℕ → Type 0
NoZero = All (λ x. x ≢ 0)

blocks-NoZero : (blk xs : List ℕ) → NoZero blk → NoZero (blocks blk xs)
blocks-NoZero blk [] h = unfold blocks in (omega arith, h)
blocks-NoZero blk (zero ∷ rest) h =
    rw (blocks_cut blk rest)
      (omega arith, All-append _ blk (blocks [] rest) h (blocks-NoZero [] rest tt))
blocks-NoZero blk (suc v ∷ rest) h =
    let longer : NoZero (blk ++ (suc v ∷ [])) = All-append _ blk (suc v ∷ []) h (omega arith, tt) in
    elim (ℕ_discrete (length blk) 253) [
      | yes e ↦ rw (blocks_full blk (suc v) rest (omega arith) e) (
        omega arith,
        All-append _ (blk ++ (suc v ∷ [])) (blocks [] rest) longer (blocks-NoZero [] rest tt),
      )
      | no e ↦
          rw (blocks_grow blk (suc v) rest (omega arith) e)
            (blocks-NoZero (blk ++ (suc v ∷ [])) rest longer)
    ]

-- An encoded frame holds no zero byte, so that a zero can delimit frames.
pub cobs_encode-NoZero : (xs : List ℕ) → NoZero (cobs_encode xs)
cobs_encode-NoZero xs = rw (cobs_encode-blocks xs) (blocks-NoZero [] xs tt)

blocks-IsByte :
    (blk xs : List ℕ)
    → length blk ≤ 253
    → All IsByte blk
    → All IsByte xs
    → All IsByte (blocks blk xs)
blocks-IsByte blk [] n h k = unfold blocks in (omega arith, h)
blocks-IsByte blk (zero ∷ rest) n h k =
    rw (blocks_cut blk rest) (
      omega arith,
      All-append _ blk (blocks [] rest) h (blocks-IsByte [] rest (omega arith) tt k.1),
    )
blocks-IsByte blk (suc v ∷ rest) n h k =
    let longer : All IsByte (blk ++ (suc v ∷ [])) = All-append _ blk (suc v ∷ []) h (k.0, tt) in
    elim (ℕ_discrete (length blk) 253) [
      | yes e ↦ rw (blocks_full blk (suc v) rest (omega arith) e) (
        omega arith,
        All-append _ (blk ++ (suc v ∷ [])) (blocks [] rest) longer
            (blocks-IsByte [] rest (omega arith) tt k.1),
      )
      | no e ↦ rw (blocks_grow blk (suc v) rest (omega arith) e) (
          blocks-IsByte (blk ++ (suc v ∷ [])) rest (omega (arith, length-append blk (suc v ∷ [])))
            longer k.1)
    ]

pub cobs_encode-IsByte : (xs : List ℕ) → All IsByte xs → All IsByte (cobs_encode xs)
cobs_encode-IsByte xs h = rw (cobs_encode-blocks xs) (blocks-IsByte [] xs (omega arith) tt h)

pub length-blocks :
    (blk xs : List ℕ)
    → length blk ≤ 253
    → (length blk + length xs < length (blocks blk xs))
      × (254 * length (blocks blk xs) ≤ 254 + 254 * length blk + 255 * length xs + length blk)
length-blocks blk [] n = unfold blocks in omega arith
length-blocks blk (zero ∷ rest) n =
    rw (blocks_cut blk rest)
      (omega (arith, length-append blk (blocks [] rest), length-blocks [] rest (omega arith)))
length-blocks blk (suc v ∷ rest) n = elim (ℕ_discrete (length blk) 253) [
  | yes e ↦ rw (blocks_full blk (suc v) rest (omega arith) e) (
      omega (
        arith,
        length-append (blk ++ (suc v ∷ [])) (blocks [] rest),
        length-append blk (suc v ∷ []),
        length-blocks [] rest (omega arith),
      ))
  | no e ↦ rw (blocks_grow blk (suc v) rest (omega arith) e) (
      omega (
        arith,
        length-append blk (suc v ∷ []),
        length-blocks (blk ++ (suc v ∷ [])) rest (omega (arith, length-append blk (suc v ∷ []))),
      ))
]

-- The overhead of the encoding: one byte at least, and one more for each 254 bytes at most.
pub length-cobs_encode :
    (xs : List ℕ)
    → (length xs + 1 ≤ length (cobs_encode xs))
      × (length (cobs_encode xs) ≤ length xs + 1 + length xs / 254)
length-cobs_encode xs =
    rw (cobs_encode-blocks xs) (omega (arith, length-blocks [] xs (omega arith)))
