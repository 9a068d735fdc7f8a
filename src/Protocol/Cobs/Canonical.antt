-- ===== src/Protocol/Cobs/Canonical.antt =====
-- cobs_decode of host/src/navbench/protocol.py on any frame: its loop ends, and a frame that it
-- accepts is the one that cobs_encode writes, if it is no longer than one block.
use navbench.Common.{
  ℕ, zero, suc, ◌+◌, ◌-◌, ◌≤◌, ◌<◌, ◌≡◌, ◌≢◌, refl, sym, ap, ◌∙◌, Bool, true, false, not, ◌&&◌,
  Option, some, none, List, [], ◌∷◌, ◌++◌, append_assoc, append-nil, length, length-append,
  get_elem?, take, drop, All, All-append, All-take, All-drop, length-take, length-drop,
  take-append-drop, ltb, ◌==◌, if◌then◌else◌, arith,
}
use mathlib.Core.Path.{subst}
use navbench.Protocol.Struct.Laws.{IsByte}
use native.Mathlib.Decide.{dec_lt}
use navbench.Protocol.Error.{Result, ok, err, cobs_malformed}
use navbench.Protocol.Cobs.{cobs_encode, cobs_decode, cobs_decode_loop, cobs_block, finished}
use navbench.Protocol.Cobs.Blocks.{blocks, blocks_cut, blocks_grow, cobs_encode-blocks}
use navbench.Protocol.Cobs.Shape.{NoZero}
use navbench.Protocol.Cobs.RoundTrip.{
  get_elem?-append, decode_step, decode_last, joint_cut, cobs_decode_lem,
}

get_elem?-eq-some : (xs : List ℕ) (i x : ℕ) → get_elem? xs i ≡ some x → i < length xs
get_elem?-eq-some [] i x h = cc
get_elem?-eq-some (y ∷ xs) zero x h = omega arith
get_elem?-eq-some (y ∷ xs) (suc i) x h = omega (arith, get_elem?-eq-some xs i x h)

block_total :
    (next : ℕ → List ℕ → Option (Result (List ℕ))) (frame : List ℕ) (index : ℕ) (out : List ℕ)
    (o : Option ℕ)
    → ((end : ℕ) (out' : List ℕ) → index < end → end ≤ length frame → next end out' ≢ none)
    → cobs_block next frame index out o ≢ none
unfolding cobs_block
block_total next frame index out none h = λ e. cc
block_total next frame index out (some code) h =
    let end : ℕ = index + 1 + code - 1 in
    let extended = out ++ take (end - (index + 1)) (drop (index + 1) frame) in
    let tail : List ℕ = if not (code == 0xff) && ltb end (length frame) then 0 ∷ [] else [] in
    λ e. ground (arith, h end (extended ++ tail))

-- With more fuel than bytes left the loop of `cobs_decode` ends.
pub cobs_decode_loop_total :
    (fuel : ℕ) (frame : List ℕ) (index : ℕ) (out : List ℕ)
    → index ≤ length frame
    → length frame < index + fuel
    → cobs_decode_loop fuel frame index out ≢ none
unfolding cobs_decode_loop
cobs_decode_loop_total zero frame index out k h = absurd (omega arith)
cobs_decode_loop_total (suc fuel) frame index out k h =
    block_total (cobs_decode_loop fuel frame) frame index out (get_elem? frame index)
      λ end out' lt le. cobs_decode_loop_total fuel frame end out' le (omega arith)

-- A block whose code reaches past the end is refused.
decode_short :
    (fuel : ℕ) (pre t out : List ℕ) (m : ℕ)
    → length t < m
    → cobs_decode_loop (suc fuel) (pre ++ (suc m ∷ t)) (length pre) out ≡ some (err cobs_malformed)
unfolding cobs_decode_loop
decode_short fuel pre t out m h =
    ap
      (cobs_block (cobs_decode_loop fuel (pre ++ (suc m ∷ t))) (pre ++ (suc m ∷ t)) (length pre)
        out)
      (get_elem?-append pre (suc m) t)
    ∙ unfold cobs_block in ground (arith, length-append pre (suc m ∷ t))

-- Bytes that are not zero join the open block while it has room.
blocks_run :
    (blk run rest : List ℕ)
    → NoZero run
    → length blk + length run ≤ 253
    → blocks blk (run ++ rest) ≡ blocks (blk ++ run) rest
blocks_run blk [] rest h n = ap (λ l. blocks l rest) (sym (append-nil blk))
blocks_run blk (v ∷ run) rest h n =
    blocks_grow blk v (run ++ rest) h.0 (omega arith)
    ∙ blocks_run (blk ++ (v ∷ [])) run rest h.1 (omega (arith, length-append blk (v ∷ [])))
    ∙ ap (λ l. blocks l rest) (append_assoc blk (v ∷ []) run)

blocks_only :
    (run : List ℕ) → NoZero run → length run ≤ 253 → blocks [] run ≡ suc (length run) ∷ run
blocks_only run h n =
    ap (blocks []) (sym (append-nil run))
    ∙ blocks_run [] run [] h (omega arith)
    ∙ (unfold blocks in refl)

blocks_joined :
    (run rest : List ℕ)
    → NoZero run
    → length run ≤ 253
    → blocks [] (run ++ (0 ∷ rest)) ≡ suc (length run) ∷ (run ++ blocks [] rest)
blocks_joined run rest h n = blocks_run [] run (0 ∷ rest) h (omega arith) ∙ blocks_cut run rest

abbrev Canonical : List ℕ → List ℕ → List ℕ → Type 0
Canonical s out res = (xs : List ℕ) × (res ≡ out ++ xs) × (blocks [] xs ≡ s)

some_ok : (a b : List ℕ) → some (ok a) ≡ some (ok b) → a ≡ b
some_ok a b e = cc

abbrev Accepts : ℕ → List ℕ → List ℕ → List ℕ → List ℕ → Type 0
Accepts fuel pre s out res = cobs_decode_loop fuel (pre ++ s) (length pre) out ≡ some (ok res)

-- A code and its block `run`, the last one or not; `later` is the claim for what follows.
Canonical-block :
    (fuel : ℕ)
    → ((pre s out res : List ℕ)
        → NoZero s
        → length s ≤ 254
        → Accepts fuel pre s out res
        → 0 < length s
        → Canonical s out res)
    → (pre run rest out res : List ℕ) → NoZero run
    → NoZero rest
    → length run + length rest ≤ 253
    → Accepts (suc fuel) pre (suc (length run) ∷ (run ++ rest)) out res
    → Canonical (suc (length run) ∷ (run ++ rest)) out res
Canonical-block zero later pre run [] out res hr hs n h =
    unfold cobs_decode_loop in cc (decode_step 0 pre run [] out)
Canonical-block (suc fuel) later pre run [] out res hr hs n h =
    let whole : Accepts (suc (suc fuel)) pre (suc (length run) ∷ run) out res =
      ap (λ l. cobs_decode_loop (suc (suc fuel)) (pre ++ (suc (length run) ∷ l)) (length pre) out)
        (sym (append-nil run))
      ∙ h in
    (
      run,
      sym (some_ok (out ++ run) res (sym (decode_last fuel pre run out) ∙ whole)),
      blocks_only run hr (omega arith) ∙ ap (λ l. suc (length run) ∷ l) (sym (append-nil run)),
    )
Canonical-block fuel later pre run (r ∷ rs) out res hr hs n h =
    let (xs, res_eq, blocks_eq) =
      later (pre ++ (suc (length run) ∷ run)) (r ∷ rs) ((out ++ run) ++ (0 ∷ [])) res hs
        (omega arith)
        (ap
            (λ l.
              cobs_decode_loop fuel ((pre ++ (suc (length run) ∷ run)) ++ (r ∷ rs))
                (length (pre ++ (suc (length run) ∷ run))) ((out ++ run) ++ l))
            (sym (joint_cut run (r ∷ rs) (omega arith) (omega arith)))
          ∙ sym (decode_step fuel pre run (r ∷ rs) out)
          ∙ h)
        (omega arith) in
    (
      run ++ (0 ∷ xs),
      res_eq ∙ append_assoc (out ++ run) (0 ∷ []) xs ∙ append_assoc out run (0 ∷ xs),
      blocks_joined run xs hr (omega arith) ∙ ap (λ l. suc (length run) ∷ (run ++ l)) blocks_eq,
    )

-- What the loop accepts from `s` on is what the blocks of some input are.
decode-Canonical :
    (fuel : ℕ) (pre s out res : List ℕ)
    → NoZero s
    → length s ≤ 254
    → Accepts fuel pre s out res
    → 0 < length s
    → Canonical s out res
decode-Canonical zero pre s out res hs n h k = unfold cobs_decode_loop in cc
decode-Canonical (suc fuel) pre [] out res hs n h k = absurd (omega arith)
decode-Canonical (suc fuel) pre (zero ∷ t) out res hs n h k = absurd (hs.0 refl)
decode-Canonical (suc fuel) pre (suc m ∷ t) out res hs n h k = elim (dec_lt (length t) m) [
  | yes short ↦ cc (decode_short fuel pre t out m short)
  | no long ↦
      let run_length : length (take m t) ≡ m = omega (arith, length-take m t) in
      let whole : suc (length (take m t)) ∷ (take m t ++ drop m t) ≡ suc m ∷ t =
        ap (λ (j : ℕ). suc j ∷ (take m t ++ drop m t)) run_length
        ∙ ap (λ l. suc m ∷ l) (take-append-drop m t) in
      subst (λ s. Canonical s out res) whole
        (Canonical-block fuel (decode-Canonical fuel) pre (take m t) (drop m t) out res
          (All-take _ m t hs.1) (All-drop _ m t hs.1) (omega (arith, length-drop m t))
          (subst (λ s. Accepts (suc fuel) pre s out res) (sym whole) h))
]

finished_ok :
    (o : Option (Result (List ℕ))) (res : List ℕ) → finished o ≡ ok res → o ≡ some (ok res)
finished_ok none res p = cc
finished_ok (some r) res p = ap some p

-- A frame of at most 254 bytes, none of them zero, is accepted only if it is the encoding of what
-- it decodes to.
pub cobs_encode-cobs_decode :
    (frame xs : List ℕ)
    → NoZero frame
    → length frame ≤ 254
    → cobs_decode frame ≡ ok xs
    → cobs_encode xs ≡ frame
cobs_encode-cobs_decode [] xs h n e = unfold cobs_decode in cc
cobs_encode-cobs_decode (c ∷ t) xs h n e =
    let (ys, same, blocks_eq) =
      decode-Canonical (suc (length (c ∷ t))) [] (c ∷ t) [] xs h n
        (finished_ok (cobs_decode_loop (suc (length (c ∷ t))) (c ∷ t) 0 []) xs
          (sym (cobs_decode_lem (c ∷ t) (omega arith)) ∙ e))
        (omega arith) in
    cobs_encode-blocks xs ∙ ap (blocks []) same ∙ blocks_eq

block_IsByte :
    (next : ℕ → List ℕ → Option (Result (List ℕ))) (frame : List ℕ) (index : ℕ) (out : List ℕ)
    (o : Option ℕ) (res : List ℕ)
    → ((end : ℕ) (out' : List ℕ) → All IsByte out' → next end out' ≡ some (ok res) → All IsByte res)
    → All IsByte frame
    → All IsByte out
    → cobs_block next frame index out o ≡ some (ok res)
    → All IsByte res
unfolding cobs_block
block_IsByte next frame index out none res keep hf ho h = subst (All IsByte) (some_ok out res h) ho
block_IsByte next frame index out (some code) res keep hf ho h =
    let end : ℕ = index + 1 + code - 1 in
    let piece = take (end - (index + 1)) (drop (index + 1) frame) in
    let tail : List ℕ = if not (code == 0xff) && ltb end (length frame) then 0 ∷ [] else [] in
    let tail_bytes : All IsByte tail = joint_bytes (not (code == 0xff) && ltb end (length frame)) in
    keep end ((out ++ piece) ++ tail)
      (All-append _ (out ++ piece) tail
        (All-append _ out piece ho (
          All-take _ (end - (index + 1)) (drop (index + 1) frame)
            (All-drop _ (index + 1) frame hf)))
        tail_bytes)
      (ground arith)
  where
    joint_bytes : (b : Bool) → All IsByte (if b then 0 ∷ [] else [])
    joint_bytes true = omega arith
    joint_bytes false = tt

loop_IsByte :
    (fuel : ℕ) (frame : List ℕ) (index : ℕ) (out res : List ℕ)
    → All IsByte frame
    → All IsByte out
    → cobs_decode_loop fuel frame index out ≡ some (ok res)
    → All IsByte res
unfolding cobs_decode_loop
loop_IsByte zero frame index out res hf ho h = cc
loop_IsByte (suc fuel) frame index out res hf ho h =
    block_IsByte (cobs_decode_loop fuel frame) frame index out (get_elem? frame index) res
      (λ end out' h' e. loop_IsByte fuel frame end out' res hf h' e) hf ho h

-- Decoding bytes gives bytes.
pub cobs_decode-IsByte :
    (frame res : List ℕ) → All IsByte frame → cobs_decode frame ≡ ok res → All IsByte res
cobs_decode-IsByte [] res hf h = unfold cobs_decode in cc
cobs_decode-IsByte (c ∷ t) res hf h = loop_IsByte (suc (length (c ∷ t))) (c ∷ t) 0 [] res hf tt (
    finished_ok (cobs_decode_loop (suc (length (c ∷ t))) (c ∷ t) 0 []) res
      (sym (cobs_decode_lem (c ∷ t) (omega arith)) ∙ h))
