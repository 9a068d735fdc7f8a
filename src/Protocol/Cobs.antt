-- ===== src/Protocol/Cobs.antt =====
-- cobs_encode and cobs_decode of host/src/navbench/protocol.py. Bytes are lists of numbers.
pub mod Blocks
pub mod Shape
pub mod RoundTrip
pub mod Canonical
use navbench.Common.{
  ℕ, zero, suc, ◌+◌, ◌-◌, ◌≡◌, refl, Bool, true, false, not, ◌&&◌, Option, none, some, List, [],
  ◌∷◌, ◌++◌, length, set, take, drop, get_elem?, ltb, ◌==◌, if◌then◌else◌,
}
use navbench.Protocol.Error.{Result, ok, err, cobs_malformed}

-- The local variables of `cobs_encode`.
pub record CobsState : Type 0 where
  pub encoded : List ℕ
  pub code_index : ℕ
  pub code : ℕ

-- `encoded[code_index] = code`, then a new block: its place holder is appended and `code` is 1.
close_block : CobsState → CobsState
close_block s =
    let closed = set s.encoded s.code_index s.code in
    record { encoded = closed ++ (0 ∷ []); code_index = length closed; code = 1 }

-- One round of the loop of `cobs_encode`.
cobs_step : CobsState → ℕ → CobsState
cobs_step s value =
    if value == 0
    then close_block s
    else let t = record s { encoded = s.encoded ++ (value ∷ []); code = s.code + 1 } in
      if t.code == 0xff then close_block t else t

cobs_loop : CobsState → List ℕ → CobsState
cobs_loop s [] = s
cobs_loop s (value ∷ rest) = cobs_loop (cobs_step s value) rest

unfoldable pub cobs_encode : List ℕ → List ℕ
unfolding cobs_loop cobs_step close_block
cobs_encode xs =
    let s = cobs_loop (record { encoded = 0 ∷ []; code_index = 0; code = 1 }) xs in
    set s.encoded s.code_index s.code

-- One round of the loop of `cobs_decode` at `index`, on `data[index]`, which is `none` where the
-- test `index < len(data)` fails. `next` goes on with the next round.
pub cobs_block :
    (ℕ → List ℕ → Option (Result (List ℕ)))
    → List ℕ
    → ℕ
    → List ℕ
    → Option ℕ
    → Option (Result (List ℕ))
cobs_block next frame index decoded none = some (ok decoded)
cobs_block next frame index decoded (some code) =
    let block_end = index + 1 + code - 1 in
    let extended = decoded ++ take (block_end - (index + 1)) (drop (index + 1) frame) in
    if code == 0
    then some (err cobs_malformed)
    else if ltb (length frame) block_end
    then some (err cobs_malformed)
    else next block_end
        (extended ++ (if not (code == 0xff) && ltb block_end (length frame) then 0 ∷ [] else []))

-- The loop from `index` on; `none` means that the fuel ran out.
pub cobs_decode_loop : ℕ → List ℕ → ℕ → List ℕ → Option (Result (List ℕ))
cobs_decode_loop zero frame index decoded = none
cobs_decode_loop (suc fuel) frame index decoded =
    cobs_block (cobs_decode_loop fuel frame) frame index decoded (get_elem? frame index)

-- The fuel: every round takes a byte at least, and one more round leaves the loop.
abbrev pub finished : Option (Result (List ℕ)) → Result (List ℕ)
finished none = err cobs_malformed
finished (some r) = r

unfoldable pub cobs_decode : List ℕ → Result (List ℕ)
unfolding cobs_decode_loop cobs_block
cobs_decode [] = err cobs_malformed
cobs_decode (code ∷ rest) =
    finished (cobs_decode_loop (suc (length (code ∷ rest))) (code ∷ rest) 0 [])

t1 : cobs_encode (0 ∷ 1 ∷ 2 ∷ 0 ∷ 0 ∷ 5 ∷ []) ≡ 1 ∷ 3 ∷ 1 ∷ 2 ∷ 1 ∷ 2 ∷ 5 ∷ []
unfolding cobs_encode
t1 = refl

t2 : cobs_decode (1 ∷ 3 ∷ 1 ∷ 2 ∷ 1 ∷ 2 ∷ 5 ∷ []) ≡ ok (0 ∷ 1 ∷ 2 ∷ 0 ∷ 0 ∷ 5 ∷ [])
unfolding cobs_decode
t2 = refl
