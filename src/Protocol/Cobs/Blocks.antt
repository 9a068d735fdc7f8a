-- ===== src/Protocol/Cobs/Blocks.antt =====
-- What cobs_encode of host/src/navbench/protocol.py writes, as a recursion over blocks with no
-- mutable index.
use navbench.Common.{
  ℕ, zero, suc, ◌+◌, ◌≡◌, ◌≢◌, refl, sym, ap, ◌∙◌, List, [], ◌∷◌, ◌++◌, append_assoc, length,
  length-append, set, set-append, ◌==◌, if◌then◌else◌, eq→==, ne→==, arith,
}
use native.Mathlib.Decide.{ℕ_discrete}
use navbench.Protocol.Cobs.{CobsState, close_block, cobs_step, cobs_loop, cobs_encode}

-- The code of the open block `blk`, the block, and the blocks for the rest of the input.
unfoldable pub blocks : List ℕ → List ℕ → List ℕ
blocks blk [] = suc (length blk) ∷ blk
blocks blk (value ∷ rest) =
    let cut = suc (length blk) ∷ (blk ++ blocks [] rest) in
    let full = 255 ∷ ((blk ++ (value ∷ [])) ++ blocks [] rest) in
    let grow = blocks (blk ++ (value ∷ [])) rest in
    if value == 0 then cut else if length blk == 253 then full else grow

pub blocks_cut :
    (blk rest : List ℕ) → blocks blk (0 ∷ rest) ≡ suc (length blk) ∷ (blk ++ blocks [] rest)
unfolding blocks
blocks_cut blk rest = refl

pub blocks_full :
    (blk : List ℕ) (value : ℕ) (rest : List ℕ)
    → value ≢ 0
    → length blk ≡ 253
    → blocks blk (value ∷ rest) ≡ 255 ∷ ((blk ++ (value ∷ [])) ++ blocks [] rest)
unfolding blocks
blocks_full blk value rest h e = rw (ne→== value 0 h, eq→== (length blk) 253 e)

pub blocks_grow :
    (blk : List ℕ) (value : ℕ) (rest : List ℕ)
    → value ≢ 0
    → length blk ≢ 253
    → blocks blk (value ∷ rest) ≡ blocks (blk ++ (value ∷ [])) rest
unfolding blocks
blocks_grow blk value rest h e = rw (ne→== value 0 h, ne→== (length blk) 253 e)

-- The state after the finished blocks `done`, with the block `blk` open.
abbrev at_block : List ℕ → List ℕ → CobsState
at_block done blk = record {
  encoded = done ++ (0 ∷ blk);
  code_index = length done;
  code = suc (length blk);
}

close-at_block :
    (done blk : List ℕ) (n : ℕ)
    → close_block (record { encoded = done ++ (0 ∷ blk); code_index = length done; code = n })
      ≡ at_block (done ++ (n ∷ blk)) []
unfolding close_block
close-at_block done blk n =
    ap (λ l. record { encoded = l ++ (0 ∷ []); code_index = length l; code = 1 })
      (set-append done 0 blk n)

abbrev grown : List ℕ → List ℕ → ℕ → ℕ → CobsState
grown done blk value n = record {
  encoded = (done ++ (0 ∷ blk)) ++ (value ∷ []);
  code_index = length done;
  code = n;
}

grown_lem :
    (done blk : List ℕ) (value n : ℕ)
    → grown done blk value n
      ≡ record { encoded = done ++ (0 ∷ (blk ++ (value ∷ []))); code_index = length done; code = n }
grown_lem done blk value n =
    ap (λ l. record { encoded = l; code_index = length done; code = n })
      (append_assoc done (0 ∷ blk) (value ∷ []))

step_zero :
    (done blk : List ℕ)
    → cobs_step (at_block done blk) 0 ≡ at_block (done ++ (suc (length blk) ∷ blk)) []
unfolding cobs_step
step_zero done blk = close-at_block done blk (suc (length blk))

step_full :
    (done blk : List ℕ) (value : ℕ)
    → value ≢ 0
    → length blk ≡ 253
    → cobs_step (at_block done blk) value ≡ at_block (done ++ (255 ∷ (blk ++ (value ∷ [])))) []
unfolding cobs_step
step_full done blk value h e =
    let at_end : suc (length blk) + 1 ≡ 255 = omega arith in
    rw (ne→== value 0 h, eq→== (suc (length blk) + 1) 255 at_end)
      (ap close_block (grown_lem done blk value (suc (length blk) + 1))
        ∙ close-at_block done (blk ++ (value ∷ [])) (suc (length blk) + 1)
        ∙ ap (λ n. at_block (done ++ (n ∷ (blk ++ (value ∷ [])))) []) at_end)

step_grow :
    (done blk : List ℕ) (value : ℕ)
    → value ≢ 0
    → length blk ≢ 253
    → cobs_step (at_block done blk) value ≡ at_block done (blk ++ (value ∷ []))
unfolding cobs_step
step_grow done blk value h e =
    let open_block : suc (length blk) + 1 ≢ 255 = omega arith in
    let longer : suc (length blk) + 1 ≡ suc (length (blk ++ (value ∷ []))) =
      omega (arith, length-append blk (value ∷ [])) in
    rw (ne→== value 0 h, ne→== (suc (length blk) + 1) 255 open_block)
      (grown_lem done blk value (suc (length blk) + 1)
        ∙ ap
            (λ n. record {
              encoded = done ++ (0 ∷ (blk ++ (value ∷ [])));
              code_index = length done;
              code = n;
            })
            longer)

-- `encoded[code_index] = code` after the loop.
abbrev sealed : CobsState → List ℕ
sealed s = set s.encoded s.code_index s.code

sealed_loop :
    (done blk xs : List ℕ) → sealed (cobs_loop (at_block done blk) xs) ≡ done ++ blocks blk xs
unfolding cobs_loop
sealed_loop done blk [] = unfold blocks in set-append done 0 blk (suc (length blk))
sealed_loop done blk (zero ∷ rest) =
    ap (λ s. sealed (cobs_loop s rest)) (step_zero done blk)
    ∙ sealed_loop (done ++ (suc (length blk) ∷ blk)) [] rest
    ∙ append_assoc done (suc (length blk) ∷ blk) (blocks [] rest)
    ∙ ap (λ l. done ++ l) (sym (blocks_cut blk rest))
sealed_loop done blk (suc v ∷ rest) = elim (ℕ_discrete (length blk) 253) [
  | yes full ↦
      ap (λ s. sealed (cobs_loop s rest)) (step_full done blk (suc v) (omega arith) full)
      ∙ sealed_loop (done ++ (255 ∷ (blk ++ (suc v ∷ [])))) [] rest
      ∙ append_assoc done (255 ∷ (blk ++ (suc v ∷ []))) (blocks [] rest)
      ∙ ap (λ l. done ++ l) (sym (blocks_full blk (suc v) rest (omega arith) full))
  | no room ↦
      ap (λ s. sealed (cobs_loop s rest)) (step_grow done blk (suc v) (omega arith) room)
      ∙ sealed_loop done (blk ++ (suc v ∷ [])) rest
      ∙ ap (λ l. done ++ l) (sym (blocks_grow blk (suc v) rest (omega arith) room))
]

-- The encoder with its mutable index writes exactly the blocks.
pub cobs_encode-blocks : (xs : List ℕ) → cobs_encode xs ≡ blocks [] xs
unfolding cobs_encode
cobs_encode-blocks xs = sealed_loop [] [] xs
