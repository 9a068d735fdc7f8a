-- ===== src/Protocol/Cobs/RoundTrip.antt =====
-- cobs_decode of host/src/navbench/protocol.py reads back what cobs_encode wrote.
use navbench.Common.{
  ℕ, zero, suc, ◌+◌, ◌-◌, ◌≤◌, ◌<◌, ◌≡◌, refl, sym, ap, ◌∙◌, false, not, ◌&&◌, Option, some, none,
  List, [], ◌∷◌, ◌++◌, append_assoc, append-nil, length, length-append, get_elem?, take, drop,
  take-length-append, drop-length-append, drop-drop, ltb, ◌==◌, ne→==, if◌then◌else◌, arith,
}
use native.Mathlib.Decide.{ℕ_discrete}
use navbench.Protocol.Error.{Result, ok}
use navbench.Protocol.Cobs.{cobs_encode, cobs_decode, cobs_decode_loop, cobs_block, finished}
use navbench.Protocol.Cobs.Shape.{length-blocks}
use navbench.Protocol.Cobs.Blocks.{blocks, blocks_cut, blocks_full, blocks_grow, cobs_encode-blocks}

pub get_elem?-append :
    (pre : List ℕ) (c : ℕ) (rest : List ℕ) → get_elem? (pre ++ (c ∷ rest)) (length pre) ≡ some c
get_elem?-append [] c rest = refl
get_elem?-append (p ∷ pre) c rest = get_elem?-append pre c rest

pub get_elem?_end : (pre : List ℕ) → get_elem? pre (length pre) ≡ none
get_elem?_end [] = refl
get_elem?_end (p ∷ pre) = get_elem?_end pre

drop_past :
    (pre : List ℕ) (c : ℕ) (rest : List ℕ) → drop (length pre + 1) (pre ++ (c ∷ rest)) ≡ rest
drop_past pre c rest =
    sym (drop-drop 1 (length pre) (pre ++ (c ∷ rest)))
    ∙ ap (drop 1) (drop-length-append pre (c ∷ rest))

-- The zero that stands between two blocks; none follows a full block or the last one.
abbrev pub joint : List ℕ → List ℕ → List ℕ
joint blk rest = if not (suc (length blk) == 0xff) && ltb 0 (length rest) then 0 ∷ [] else []

pub decode_end :
    (fuel : ℕ) (frame out : List ℕ)
    → cobs_decode_loop (suc fuel) frame (length frame) out ≡ some (ok out)
unfolding cobs_decode_loop cobs_block
decode_end fuel frame out =
    ap (cobs_block (cobs_decode_loop fuel frame) frame (length frame) out) (get_elem?_end frame)

module _ (pre blk rest : List ℕ) where
  abbrev framed : List ℕ
  framed = pre ++ (suc (length blk) ∷ (blk ++ rest))

  length-framed : length framed ≡ length pre + suc (length blk + length rest)
  length-framed =
      omega (arith, length-append pre (suc (length blk) ∷ (blk ++ rest)), length-append blk rest)

  taken :
      take (length pre + 1 + suc (length blk) - 1 - (length pre + 1)) (drop (length pre + 1) framed)
      ≡ blk
  taken =
      ap (take _) (drop_past pre (suc (length blk)) (blk ++ rest))
      ∙ ap (λ (k : ℕ). take k (blk ++ rest)) {y = length blk} (omega arith)
      ∙ take-length-append blk rest

  fits : ltb (length framed) (length pre + suc (length blk)) ≡ false
  fits = ground (arith, length-framed)

  more : ltb (length pre + suc (length blk)) (length framed) ≡ ltb 0 (length rest)
  more = ground (arith, length-framed)

  round :
      (next : ℕ → List ℕ → Option (Result (List ℕ))) (out : List ℕ)
      → cobs_block next framed (length pre) out (some (suc (length blk)))
        ≡ next (length pre + suc (length blk)) ((out ++ blk) ++ joint blk rest)
  unfolding cobs_block
  round next out =
      let here : length pre + 1 + suc (length blk) - 1 ≡ length pre + suc (length blk) =
        omega arith in
      rw (taken, here, fits, more, ne→== (suc (length blk)) 0 (omega arith))

  decode_block :
      (fuel : ℕ) (out : List ℕ)
      → cobs_decode_loop (suc fuel) framed (length pre) out
        ≡ cobs_decode_loop fuel framed
            (length pre + suc (length blk))
            ((out ++ blk) ++ joint blk rest)
  unfolding cobs_decode_loop
  decode_block fuel out =
      ap (cobs_block (cobs_decode_loop fuel framed) framed (length pre) out)
        (get_elem?-append pre (suc (length blk)) (blk ++ rest))
      ∙ round (cobs_decode_loop fuel framed) out

-- The round with the block moved to what has been read.
pub decode_step :
    (fuel : ℕ) (pre blk rest out : List ℕ)
    → cobs_decode_loop (suc fuel) (pre ++ (suc (length blk) ∷ (blk ++ rest))) (length pre) out
      ≡ cobs_decode_loop fuel
          ((pre ++ (suc (length blk) ∷ blk)) ++ rest)
          (length (pre ++ (suc (length blk) ∷ blk)))
          ((out ++ blk) ++ joint blk rest)
decode_step fuel pre blk rest out =
    decode_block pre blk rest fuel out
    ∙ ap
        (λ f.
          cobs_decode_loop fuel f (length pre + suc (length blk)) ((out ++ blk) ++ joint blk rest))
        (sym (append_assoc pre (suc (length blk) ∷ blk) rest))
    ∙ ap
        (λ (k : ℕ).
          cobs_decode_loop fuel ((pre ++ (suc (length blk) ∷ blk)) ++ rest) k
            ((out ++ blk) ++ joint blk rest))
        (sym (length-append pre (suc (length blk) ∷ blk)))

pub joint_end : (blk : List ℕ) → joint blk [] ≡ []
joint_end blk = ground arith

pub joint_cut : (blk rest : List ℕ) → length blk ≤ 253 → 0 < length rest → joint blk rest ≡ 0 ∷ []
joint_cut blk rest h k = ground arith

pub joint_full : (blk rest : List ℕ) → length blk ≡ 254 → joint blk rest ≡ []
joint_full blk rest h = ground arith

pub decode_last :
    (fuel : ℕ) (pre blk out : List ℕ)
    → cobs_decode_loop (suc (suc fuel)) (pre ++ (suc (length blk) ∷ blk)) (length pre) out
      ≡ some (ok (out ++ blk))
decode_last fuel pre blk out =
    ap (λ l. cobs_decode_loop (suc (suc fuel)) (pre ++ (suc (length blk) ∷ l)) (length pre) out)
      (sym (append-nil blk))
    ∙ decode_step (suc fuel) pre blk [] out
    ∙ ap
        (λ f.
          cobs_decode_loop (suc fuel) f (length (pre ++ (suc (length blk) ∷ blk)))
            ((out ++ blk) ++ joint blk []))
        (append-nil (pre ++ (suc (length blk) ∷ blk)))
    ∙ decode_end fuel (pre ++ (suc (length blk) ∷ blk)) ((out ++ blk) ++ joint blk [])
    ∙ ap (λ l. some (ok ((out ++ blk) ++ l))) (joint_end blk)
    ∙ ap (λ l. some (ok l)) (append-nil (out ++ blk))

-- The loop, started on the blocks of `xs` with `blk` open, adds `blk` and `xs` to what it holds.
decode_blocks :
    (xs blk pre out : List ℕ) (fuel : ℕ)
    → length blk ≤ 253
    → length (blocks blk xs) < fuel
    → cobs_decode_loop fuel (pre ++ blocks blk xs) (length pre) out ≡ some (ok (out ++ (blk ++ xs)))
decode_blocks xs blk pre out zero n h = absurd (omega arith)
decode_blocks [] blk pre out (suc zero) n h = absurd (unfold blocks in omega arith)
decode_blocks [] blk pre out (suc (suc fuel)) n h =
    rw (append-nil blk) (unfold blocks in decode_last fuel pre blk out)
decode_blocks (zero ∷ rest) blk pre out (suc fuel) n h = rw (blocks_cut blk rest) (
    decode_step fuel pre blk (blocks [] rest) out
    ∙ ap
        (λ l.
          cobs_decode_loop fuel ((pre ++ (suc (length blk) ∷ blk)) ++ blocks [] rest)
            (length (pre ++ (suc (length blk) ∷ blk))) ((out ++ blk) ++ l))
        (joint_cut blk (blocks [] rest) n (omega (arith, length-blocks [] rest (omega arith))))
    ∙ decode_blocks rest [] (pre ++ (suc (length blk) ∷ blk)) ((out ++ blk) ++ (0 ∷ [])) fuel
        (omega arith)
        (let m = rw (blocks_cut blk rest) at h in omega (arith, length-append blk (blocks [] rest)))
    ∙ ap (λ l. some (ok l))
        (append_assoc (out ++ blk) (0 ∷ []) rest ∙ append_assoc out blk (0 ∷ rest)))
decode_blocks (suc v ∷ rest) blk pre out (suc fuel) n h = elim (ℕ_discrete (length blk) 253) [
  | yes e ↦
      let blk' : List ℕ = blk ++ (suc v ∷ []) in
      let len : length blk' ≡ 254 = omega (arith, length-append blk (suc v ∷ [])) in
      let eq : blocks blk (suc v ∷ rest) ≡ suc (length blk') ∷ (blk' ++ blocks [] rest) =
        blocks_full blk (suc v) rest (omega arith) e
        ∙ ap (λ (k : ℕ). suc k ∷ (blk' ++ blocks [] rest)) (sym len) in
      rw eq (
        decode_step fuel pre blk' (blocks [] rest) out
        ∙ ap
            (λ l.
              cobs_decode_loop fuel ((pre ++ (suc (length blk') ∷ blk')) ++ blocks [] rest)
                (length (pre ++ (suc (length blk') ∷ blk'))) ((out ++ blk') ++ l))
            (joint_full blk' (blocks [] rest) len)
        ∙ decode_blocks rest [] (pre ++ (suc (length blk') ∷ blk')) ((out ++ blk') ++ []) fuel
            (omega arith) (omega (arith, ap length eq, length-append blk' (blocks [] rest)))
        ∙ ap (λ l. some (ok l))
            (ap (λ l. l ++ rest) (append-nil (out ++ blk'))
              ∙ append_assoc out blk' rest
              ∙ ap (λ l. out ++ l) (append_assoc blk (suc v ∷ []) rest)))
  | no e ↦ rw (blocks_grow blk (suc v) rest (omega arith) e) (
      decode_blocks rest (blk ++ (suc v ∷ [])) pre out (suc fuel)
        (omega (arith, length-append blk (suc v ∷ [])))
        (rw (blocks_grow blk (suc v) rest (omega arith) e) at h)
      ∙ ap (λ l. some (ok (out ++ l))) (append_assoc blk (suc v ∷ []) rest))
]

pub cobs_decode_lem :
    (xs : List ℕ)
    → 0 < length xs
    → cobs_decode xs ≡ finished (cobs_decode_loop (suc (length xs)) xs 0 [])
unfolding cobs_decode
cobs_decode_lem [] h = absurd (omega arith)
cobs_decode_lem (x ∷ xs) h = refl

-- Decoding what was encoded gives it back, whatever the data.
pub cobs_decode-cobs_encode : (xs : List ℕ) → cobs_decode (cobs_encode xs) ≡ ok xs
cobs_decode-cobs_encode xs = rw (cobs_encode-blocks xs) (
    cobs_decode_lem (blocks [] xs) (omega (arith, length-blocks [] xs (omega arith)))
    ∙ ap finished
        (decode_blocks xs [] [] [] (suc (length (blocks [] xs))) (omega arith) (omega arith)))
