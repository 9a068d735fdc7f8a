-- ===== src/Transport/Memory/Pending.antt =====
-- The queue of chunks of `InMemoryEndpoint` (host/src/navbench/transport.py) as one string of
-- bytes: what `read`, `write`, `inject` and `close` do to that string.
use navbench.Common.{
  ℕ, zero, suc, ◌+◌, ◌-◌, ◌≤◌, ◌<◌, min, ltb, ◌==◌, if◌then◌else◌, ◌≡◌, ◌≢◌, refl, sym, ap, ◌∙◌,
  ◌⊎◌, inl, inr, Bool, true, false, some, List, [], ◌∷◌, ◌++◌, append-nil, append_assoc, length,
  take, drop, length-append, length-drop, length-take, take-nil, take-append-drop, drop-nil, ne→==,
  ltb-false→le, ltb-true→lt, Bool-cases, arith,
}
use navbench.Transport.Memory.{
  TransportFailure, Outcome, returned, raised, Endpoint, with_chunks, push, put_back, read_loop,
  read, limit_of, pending_bytes, write, inject, is_closed, bad_value, peer_disconnected,
}

-- The chunks as one string.
abbrev pub joined : List (List ℕ) → List ℕ
joined [] = []
joined (chunk ∷ chunks) = chunk ++ joined chunks

pub joined-append : (xs ys : List (List ℕ)) → joined (xs ++ ys) ≡ joined xs ++ joined ys
joined-append [] ys = refl
joined-append (x ∷ xs) ys =
    ap (λ l. x ++ l) (joined-append xs ys) ∙ sym (append_assoc x (joined xs) (joined ys))

pub joined-push :
    (e : Endpoint) (string : List ℕ) → joined ((push e string).chunks) ≡ joined e.chunks ++ string
joined-push e string =
    joined-append e.chunks (string ∷ []) ∙ ap (λ l. joined e.chunks ++ l) (append-nil string)

joined-put_back :
    (left : List ℕ) (chunks : List (List ℕ)) → joined (put_back left chunks) ≡ left ++ joined chunks
joined-put_back [] chunks = refl
joined-put_back (byte ∷ left) chunks = refl

pub pending_bytes-joined : (chunks : List (List ℕ)) → pending_bytes chunks ≡ length (joined chunks)
unfolding pending_bytes
pending_bytes-joined [] = refl
pending_bytes-joined (chunk ∷ chunks) =
    omega (arith, pending_bytes-joined chunks, length-append chunk (joined chunks))

take_past :
    (n m k : ℕ) (xs ys : List ℕ)
    → k ≡ n + m
    → n ≤ length xs
    → take k (xs ++ ys) ≡ take n xs ++ take m (drop n xs ++ ys)
take_past zero m k xs ys p q = ap (λ (i : ℕ). take i (xs ++ ys)) (omega arith)
take_past (suc n) m zero xs ys p q = absurd (omega arith)
take_past (suc n) m (suc k) [] ys p q = absurd (omega arith)
take_past (suc n) m (suc k) (x ∷ xs) ys p q =
    ap (λ l. x ∷ l) (take_past n m k xs ys (omega arith) (omega arith))

drop_past :
    (n m k : ℕ) (xs ys : List ℕ)
    → k ≡ n + m
    → n ≤ length xs
    → drop k (xs ++ ys) ≡ drop m (drop n xs ++ ys)
drop_past zero m k xs ys p q = ap (λ (i : ℕ). drop i (xs ++ ys)) (omega arith)
drop_past (suc n) m zero xs ys p q = absurd (omega arith)
drop_past (suc n) m (suc k) [] ys p q = absurd (omega arith)
drop_past (suc n) m (suc k) (x ∷ xs) ys p q = drop_past n m k xs ys (omega arith) (omega arith)

-- With `room` bytes of room left, the loop moves that many bytes of the queue to the output.
Moves : ℕ → List ℕ → List (List ℕ) → Outcome (List ℕ × List (List ℕ)) → Type 0
Moves room output chunks result =
    (left : List (List ℕ)) × (result ≡ returned (output ++ take room (joined chunks), left))
    × (joined left ≡ drop room (joined chunks))

-- Fuel is enough when it exceeds the number of chunks, or when the output is full.
Enough : ℕ → ℕ → List (List ℕ) → Type 0
Enough fuel room chunks = (length chunks < fuel) ⊎ ((room ≡ 0) × (0 < fuel))

Enough-next :
    (fuel room n : ℕ) (chunk : List ℕ) (chunks : List (List ℕ))
    → n ≡ min room (length chunk)
    → suc (length chunks) < suc fuel
    → Enough fuel (room - n) (put_back (drop n chunk) chunks)
unfolding Enough
Enough-next fuel room n chunk chunks e h = rest (drop n chunk) (length-drop n chunk)
  where
    rest :
        (left : List ℕ)
        → length left ≡ length chunk - n
        → (length (put_back left chunks) < fuel) ⊎ ((room - n ≡ 0) × (0 < fuel))
    rest [] l = inl (omega arith)
    rest (byte ∷ left) l = inr (omega arith, omega arith)

Moves-chunk :
    (room n : ℕ) (output chunk : List ℕ) (chunks : List (List ℕ))
    → n ≡ min room (length chunk)
    → (result : Outcome (List ℕ × List (List ℕ)))
    → Moves (room - n) (output ++ take n chunk) (put_back (drop n chunk) chunks) result
    → Moves room output (chunk ∷ chunks) result
unfolding Moves
Moves-chunk room n output chunk chunks e result (left, returns, rest) = (
  left,
  returns
      ∙ ap (λ l. returned (l, left))
          (append_assoc output (take n chunk) _
            ∙ ap (λ l. output ++ (take n chunk ++ take (room - n) l))
                (joined-put_back (drop n chunk) chunks)
            ∙ ap (λ l. output ++ l)
                (sym
                  (take_past n (room - n) room chunk (joined chunks) (omega arith) (omega arith)))),
  rest
      ∙ ap (drop (room - n)) (joined-put_back (drop n chunk) chunks)
      ∙ sym (drop_past n (room - n) room chunk (joined chunks) (omega arith) (omega arith)),
)

Moves-none :
    (room : ℕ) (output : List ℕ) (chunks : List (List ℕ))
    → room ≡ 0
    → Moves room output chunks (returned (output, chunks))
unfolding Moves
Moves-none zero output chunks h =
    (chunks, ap (λ l. returned (l, chunks)) (sym (append-nil output)), refl)
Moves-none (suc room) output chunks h = absurd (omega arith)

Moves-empty : (room : ℕ) (output : List ℕ) → Moves room output [] (returned (output, []))
unfolding Moves
Moves-empty room output = (
  [],
  ap (λ l. returned (l, []))
      (sym (append-nil output) ∙ ap (λ l. output ++ l) (sym (take-nil room))),
  sym (drop-nil room),
)

-- One round of the loop, by its test.
Moves-round :
    (test : Bool) (fuel limit room n : ℕ) (output chunk : List ℕ) (chunks : List (List ℕ))
    → ltb (length output) limit ≡ test
    → room ≡ limit - length output
    → n ≡ min room (length chunk)
    → suc (length chunks) < suc fuel ⊎ ((room ≡ 0) × (0 < suc fuel))
    → ((room' : ℕ) (output' : List ℕ) (chunks' : List (List ℕ))
        → room' ≡ limit - length output'
        → Enough fuel room' chunks'
        → Moves room' output' chunks' (read_loop fuel limit output' chunks'))
    → Moves room output (chunk ∷ chunks) (
        if test
        then read_loop fuel limit (output ++ take n chunk) (put_back (drop n chunk) chunks)
        else returned (output, chunk ∷ chunks))
Moves-round false fuel limit room n output chunk chunks t e f h next =
    Moves-none room output (chunk ∷ chunks) (omega (arith, ltb-false→le _ _ t))
Moves-round true fuel limit room n output chunk chunks t e f (inr h) next =
    absurd (omega (arith, ltb-true→lt _ _ t))
Moves-round true fuel limit room n output chunk chunks t e f (inl h) next =
    Moves-chunk room n output chunk chunks f _ (
      next (room - n) (output ++ take n chunk) _
        (omega (arith, length-append output (take n chunk), length-take n chunk))
        (Enough-next fuel room n chunk chunks f h))

read_loop-Moves :
    (fuel limit room : ℕ) (output : List ℕ) (chunks : List (List ℕ))
    → room ≡ limit - length output
    → Enough fuel room chunks
    → Moves room output chunks (read_loop fuel limit output chunks)
unfolding Enough read_loop
read_loop-Moves zero limit room output chunks e (inl h) = absurd (omega arith)
read_loop-Moves zero limit room output chunks e (inr h) = absurd (omega arith)
read_loop-Moves (suc fuel) limit room output [] e h = Moves-empty room output
read_loop-Moves (suc fuel) limit room output (chunk ∷ chunks) e h =
    Moves-round (ltb (length output) limit) fuel limit room
      (min (limit - length output) (length chunk)) output chunk chunks refl e
      (ap (λ (r : ℕ). min r (length chunk)) (sym e)) h
      (λ room' output' chunks'. read_loop-Moves fuel limit room' output' chunks')

-- Bytes leave an endpoint in the order in which they stand in its queue: `read` on an open
-- endpoint, with a positive `max_bytes`, returns the first bytes of the queue, as many as
-- `max_bytes` and the read limit allow, and what is left of the queue is what follows them.
pub read-joined :
    (max_bytes : ℕ) (e : Endpoint)
    → e.is_open ≡ true
    → max_bytes ≢ 0
    → (left : List (List ℕ)) × (read max_bytes e
        ≡ returned (take (limit_of max_bytes e.read_limit) (joined e.chunks), with_chunks e left))
      × (joined left ≡ drop (limit_of max_bytes e.read_limit) (joined e.chunks))
unfolding read Moves Enough
read-joined max_bytes e open_e positive =
    let limit = limit_of max_bytes e.read_limit in
    let (left, returns, rest) =
      read_loop-Moves (suc (length e.chunks)) limit limit [] e.chunks (omega arith)
        (inl (omega arith)) in
    (left, rw (open_e, ne→== max_bytes 0 positive, returns), rest)

-- A call of `read` fails, or it moves bytes from the front of an open endpoint's queue.
pub read-cases :
    (max_bytes : ℕ) (e : Endpoint)
    → ((failure : TransportFailure) × (read max_bytes e ≡ raised failure))
      ⊎ ((e.is_open ≡ true)
          × (left : List (List ℕ)) × (output : List ℕ) × (read max_bytes e
              ≡ returned (output, with_chunks e left))
          × (joined e.chunks ≡ output ++ joined left))
read-cases max_bytes e = elim (Bool-cases e.is_open) [
  | inr closed ↦ inl (is_closed, unfold read in rw closed)
  | inl opened ↦ elim (Bool-cases (max_bytes == 0)) [
    | inl none_asked ↦ inl (bad_value, unfold read in rw (opened, none_asked))
    | inr asked ↦
        let (left, returns, rest) =
          read-joined max_bytes e opened (λ z. ground (arith, z, asked)) in
        inr (
          opened,
          left,
          take (limit_of max_bytes e.read_limit) (joined e.chunks),
          returns,
          sym (take-append-drop (limit_of max_bytes e.read_limit) (joined e.chunks))
              ∙ ap (λ l. take (limit_of max_bytes e.read_limit) (joined e.chunks) ++ l) (sym rest),
        )
  ]
]

-- A call of `write` fails, or it writes nothing, or it puts the string behind an open peer's queue.
pub write-cases :
    (string : List ℕ) (e peer : Endpoint)
    → ((failure : TransportFailure) × (write string e (some peer) ≡ raised failure))
      ⊎ ((string ≡ []) × (write string e (some peer) ≡ returned (0, some peer)))
      ⊎ ((peer.is_open ≡ true)
          × (write string e (some peer) ≡ returned (length string, some (push peer string))))
write-cases [] e peer = elim (Bool-cases e.is_open) [
  | inr closed ↦ inl (is_closed, unfold write in simp closed)
  | inl opened ↦ inr (inl (refl, unfold write in simp opened))
]
write-cases (byte ∷ rest) e peer = elim (Bool-cases e.is_open) [
  | inr closed ↦ inl (is_closed, unfold write in simp closed)
  | inl opened ↦ elim (Bool-cases peer.is_open) [
    | inr closed ↦ inl (peer_disconnected, unfold write in simp (opened, closed))
    | inl listens ↦ inr (inr (listens, unfold write in simp (opened, listens)))
  ]
]

pub inject-cases :
    (string : List ℕ) (e : Endpoint)
    → ((failure : TransportFailure) × (inject string e ≡ raised failure))
      ⊎ ((string ≡ []) × (inject string e ≡ returned e))
      ⊎ ((e.is_open ≡ true) × (inject string e ≡ returned (push e string)))
inject-cases [] e = elim (Bool-cases e.is_open) [
  | inr closed ↦ inl (is_closed, unfold inject in simp closed)
  | inl opened ↦ inr (inl (refl, unfold inject in simp opened))
]
inject-cases (byte ∷ rest) e = elim (Bool-cases e.is_open) [
  | inr closed ↦ inl (is_closed, unfold inject in simp closed)
  | inl opened ↦ inr (inr (opened, unfold inject in simp opened))
]
