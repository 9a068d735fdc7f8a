-- ===== src/Transport/Frames.antt =====
-- `DeterministicFaultTransport._take_complete_frames` of host/src/navbench/transport.py, which
-- takes the delimited frames off the front of a buffer.
use navbench.Common.{
  ℕ, zero, suc, ◌+◌, ◌≡◌, refl, sym, ap, ◌∙◌, ◌⊎◌, inl, inr, Option, none, some, List, [], ◌∷◌,
  ◌++◌, ◌<◌, append-nil, append_assoc, length, take, drop, length-append, drop-drop, arith,
}
use navbench.Protocol.Cobs.Shape.{NoZero}

-- `buffer.find(0)` on what is left of the buffer.
unfoldable pub find_zero : List ℕ → Option ℕ
find_zero [] = none
find_zero (zero ∷ bytes) = some 0
find_zero (suc v ∷ bytes) = elim (find_zero bytes) [ none ↦ none | some i ↦ some (suc i) ]

-- The loop runs on fuel, of which each round uses one and takes a byte at least.
unfoldable pub take_loop :
    ℕ → List ℕ → (start : ℕ) → List (List ℕ) → Option (List (List ℕ) × List ℕ)
take_loop zero buffer start frames = none
take_loop (suc fuel) buffer start frames = elim (find_zero (drop start buffer)) [
  | none ↦ some (frames, drop start buffer)
  | some i ↦
      take_loop fuel buffer (start + suc i) (frames ++ (take (suc i) (drop start buffer) ∷ []))
]

-- The frames, and the buffer without them.
unfoldable pub take_complete_frames : List ℕ → Option (List (List ℕ) × List ℕ)
take_complete_frames buffer = take_loop (suc (length buffer)) buffer 0 []

-- A buffer cut behind each of its zeros.
pub data Cut : List ℕ → List (List ℕ) → List ℕ → Type 0 where
  cut_rest : {buffer : List ℕ} → NoZero buffer → Cut buffer [] buffer
  cut_frame :
      {buffer bytes rest : List ℕ} {frames : List (List ℕ)} (body : List ℕ)
      → NoZero body
      → buffer ≡ body ++ (0 ∷ bytes)
      → Cut bytes frames rest
      → Cut buffer ((body ++ (0 ∷ [])) ∷ frames) rest

-- What a search found: no zero, or a string without one before the zero.
Found : List ℕ → Option ℕ → Type 0
Found bytes found =
    ((found ≡ none) × NoZero bytes)
    ⊎ ((body : List ℕ) × (rest : List ℕ) × (found ≡ some (length body))
        × NoZero body
        × (bytes ≡ body ++ (0 ∷ rest)))

find_zero-Found : (bytes : List ℕ) → Found bytes (find_zero bytes)
unfolding find_zero Found
find_zero-Found [] = inl (refl, tt)
find_zero-Found (zero ∷ bytes) = inr ([], bytes, refl, tt, refl)
find_zero-Found (suc v ∷ bytes) = elim (find_zero-Found bytes) [
  | inl (e, h) ↦ inl (rw e, (omega arith, h))
  | inr (body, rest, e, h, cut) ↦
      inr (suc v ∷ body, rest, rw e, (omega arith, h), ap (λ l. suc v ∷ l) cut)
]

take_through :
    (body rest : List ℕ) → take (suc (length body)) (body ++ (0 ∷ rest)) ≡ body ++ (0 ∷ [])
take_through [] rest = refl
take_through (x ∷ body) rest = ap (λ l. x ∷ l) (take_through body rest)

drop_through : (body rest : List ℕ) → drop (suc (length body)) (body ++ (0 ∷ rest)) ≡ rest
drop_through [] rest = refl
drop_through (x ∷ body) rest = drop_through body rest

-- What the loop adds to the frames it has.
Takes : List (List ℕ) → List ℕ → Option (List (List ℕ) × List ℕ) → Type 0
Takes frames buffer result =
    (more : List (List ℕ)) × (rest : List ℕ) × (result ≡ some (frames ++ more, rest))
    × Cut buffer more rest

Takes-frame :
    (frames : List (List ℕ)) (buffer body bytes : List ℕ) (result : Option (List (List ℕ) × List ℕ))
    → NoZero body
    → buffer ≡ body ++ (0 ∷ bytes)
    → Takes (frames ++ (take (suc (length body)) buffer ∷ [])) bytes result
    → Takes frames buffer result
unfolding Takes
Takes-frame frames buffer body bytes result h cut (more, rest, e, cuts) = (
  (body ++ (0 ∷ [])) ∷ more,
  rest,
  e
      ∙ ap (λ l. some (l, rest))
          (append_assoc frames (take (suc (length body)) buffer ∷ []) more
            ∙ ap (λ l. frames ++ (l ∷ more))
                (ap (take (suc (length body))) cut ∙ take_through body bytes)),
  cut_frame body h cut cuts,
)

-- The start of the next frame is behind the zero that was found.
rest_after :
    (buffer body rest : List ℕ) (start : ℕ)
    → drop start buffer ≡ body ++ (0 ∷ rest)
    → drop (start + suc (length body)) buffer ≡ rest
rest_after buffer body rest start cut =
    sym (drop-drop (suc (length body)) start buffer)
    ∙ ap (drop (suc (length body))) cut
    ∙ drop_through body rest

take_loop-Takes :
    (fuel : ℕ) (buffer : List ℕ) (start : ℕ) (frames : List (List ℕ))
    → length (drop start buffer) < fuel
    → Takes frames (drop start buffer) (take_loop fuel buffer start frames)
unfolding take_loop Found
take_loop-Takes zero buffer start frames h = absurd (omega arith)
take_loop-Takes (suc fuel) buffer start frames h = elim (find_zero-Found (drop start buffer)) [
  | inl (e, none_left) ↦
      rw (take_loop, e)
        (unfold Takes in
          (
            [],
            drop start buffer,
            ap (λ l. some (l, drop start buffer)) (sym (append-nil frames)),
            cut_rest none_left,
          ))
  | inr (body, rest, e, clean, cut) ↦
      let after = rest_after buffer body rest start cut in
      rw (take_loop, e)
        (Takes-frame frames (drop start buffer) body rest _ clean cut (
          rw⁻¹ after (
            take_loop-Takes fuel buffer (start + suc (length body)) _
              (omega (arith, ap length after, ap length cut, length-append body (0 ∷ rest))))))
]

-- The frames that are taken are what stands up to each zero of the buffer, in order, and no zero
-- is left behind them; the loop always ends.
pub take_complete_frames-Cut :
    (buffer : List ℕ)
    → (frames : List (List ℕ)) × (rest : List ℕ) × (take_complete_frames buffer
        ≡ some (frames, rest))
      × Cut buffer frames rest
unfolding take_complete_frames Takes
take_complete_frames-Cut buffer = take_loop-Takes (suc (length buffer)) buffer 0 [] (omega arith)

Cut-append :
    (second : List ℕ) {first rest rest' : List ℕ} {frames frames' : List (List ℕ)}
    → Cut first frames rest
    → Cut (rest ++ second) frames' rest'
    → Cut (first ++ second) (frames ++ frames') rest'
Cut-append second (cut_rest h) cuts = cuts
Cut-append second (cut_frame {bytes = bytes} body h cut more) cuts =
    cut_frame body h (ap (λ l. l ++ second) cut ∙ append_assoc body (0 ∷ bytes) second)
      (Cut-append second more cuts)

tail_of : List ℕ → List ℕ
tail_of [] = []
tail_of (x ∷ xs) = xs

not_clean : (body rest : List ℕ) → NoZero (body ++ (0 ∷ rest)) → ⊥
not_clean [] rest (h, _) = h refl
not_clean (x ∷ body) rest (_, h) = not_clean body rest h

-- The part up to the first zero, and the part behind it, are determined.
first_zero :
    (body body' rest rest' : List ℕ)
    → NoZero body
    → NoZero body'
    → body ++ (0 ∷ rest) ≡ body' ++ (0 ∷ rest')
    → (body ≡ body') × (rest ≡ rest')
unfolding tail_of
first_zero [] [] rest rest' h h' e = (refl, ap tail_of e)
first_zero [] (y ∷ body') rest rest' h (y_ne, h') e = absurd (y_ne cc)
first_zero (x ∷ body) [] rest rest' (x_ne, h) h' e = absurd (x_ne cc)
first_zero (x ∷ body) (y ∷ body') rest rest' (_, h) (_, h') e =
    let (p, q) = first_zero body body' rest rest' h h' (ap tail_of e) in (cc, q)

Cut-clean :
    {buffer rest : List ℕ} {frames : List (List ℕ)}
    → NoZero buffer
    → Cut buffer frames rest
    → (frames ≡ []) × (rest ≡ buffer)
Cut-clean h (cut_rest clean) = (refl, refl)
Cut-clean h (cut_frame {bytes = bytes} body clean cut more) =
    absurd (not_clean body bytes (rw cut at h))

pub Cut-unique :
    {buffer rest rest' : List ℕ} {frames frames' : List (List ℕ)}
    → Cut buffer frames rest
    → Cut buffer frames' rest'
    → (frames ≡ frames') × (rest ≡ rest')
Cut-unique (cut_rest clean) other = let (p, q) = Cut-clean clean other in (sym p, sym q)
Cut-unique (cut_frame body clean cut more) (cut_rest whole) =
    Cut-clean whole (cut_frame body clean cut more)
Cut-unique (cut_frame {bytes = bytes} body clean cut more)
      (cut_frame {bytes = bytes'} body' clean' cut' more') =
    let (same_body, same_bytes) =
      first_zero body body' bytes bytes' clean clean' (sym cut ∙ cut') in
    let (p, q) = Cut-unique more (rw (sym same_bytes) at more') in (cc, q)

taken_or : List (List ℕ) × List ℕ → Option (List (List ℕ) × List ℕ) → List (List ℕ) × List ℕ
taken_or other none = other
taken_or other (some taken) = taken

Cut-taken :
    (buffer rest : List ℕ) (frames : List (List ℕ))
    → take_complete_frames buffer ≡ some (frames, rest)
    → Cut buffer frames rest
unfolding taken_or
Cut-taken buffer rest frames e =
    let (frames', rest', e', cuts) = take_complete_frames-Cut buffer in
    let same = ap (taken_or ([], [])) (sym e' ∙ e) in
    rw (ap (λ t. t.0) same, ap (λ t. t.1) same) at cuts

-- A frame may come in pieces: taking the frames of a buffer, then those of what is left with more
-- bytes behind it, takes the same frames in the same order, and leaves the same, as taking those
-- of all the bytes at once.
pub take_complete_frames-append :
    (first second rest rest' : List ℕ) (frames frames' : List (List ℕ))
    → take_complete_frames first ≡ some (frames, rest)
    → take_complete_frames (rest ++ second) ≡ some (frames', rest')
    → take_complete_frames (first ++ second) ≡ some (frames ++ frames', rest')
take_complete_frames-append first second rest rest' frames frames' e e' =
    let (all, left, e'', cuts) = take_complete_frames-Cut (first ++ second) in
    let (p, q) = Cut-unique cuts (
      Cut-append second (Cut-taken first rest frames e)
        (Cut-taken (rest ++ second) rest' frames' e')) in
    e'' ∙ ap (λ t. some (t, left)) p ∙ ap (λ t. some (frames ++ frames', t)) q
