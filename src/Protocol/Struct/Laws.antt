-- ===== src/Protocol/Struct/Laws.antt =====
-- `struct` packs what it unpacks and unpacks what it packs.
use navbench.Common.{
  ℕ, zero, suc, ◌+◌, ◌*◌, ◌/◌, ◌%◌, ◌^◌, ◌<◌, ◌≡◌, refl, sym, ap, ◌∙◌, List, [], ◌∷◌, ◌++◌,
  append_assoc, length, length-append, length-drop, take, drop, take-append-drop, length-take,
  take-length-append, drop-length-append, All, All-append, All-take, All-drop, arith,
}
use mathlib.Core.Path.{subst, ap₂}
use native.Mathlib.Nat.{pow-suc}
use navbench.Protocol.Struct.{Field, uint, pad, size, to_le, from_le, pack, unpack}

abbrev pub IsByte : ℕ → Type 0
IsByte b = b < 256

-- One value for each field, in its range.
abbrev pub Fits : List Field → List ℕ → Type 0
Fits [] [] = Unit
Fits [] (v ∷ vs) = ⊥
Fits (pad ∷ fs) vs = Fits fs vs
Fits (uint w ∷ fs) [] = ⊥
Fits (uint w ∷ fs) (v ∷ vs) = (v < 256 ^ w) × Fits fs vs

abbrev pub HasNoPad : List Field → Type 0
HasNoPad [] = Unit
HasNoPad (pad ∷ fs) = ⊥
HasNoPad (uint w ∷ fs) = HasNoPad fs

length-to_le : (w n : ℕ) → length (to_le w n) ≡ w
length-to_le zero n = refl
length-to_le (suc w) n = ap suc (length-to_le w (n / 256))

to_le-IsByte : (w n : ℕ) → All IsByte (to_le w n)
to_le-IsByte zero n = tt
to_le-IsByte (suc w) n = (omega arith, to_le-IsByte w (n / 256))

pow_step : (w : ℕ) → 256 ^ suc w ≡ 256 * 256 ^ w
pow_step w = omega (arith, pow-suc 256 w)

from_le-to_le : (w n : ℕ) → n < 256 ^ w → from_le (to_le w n) ≡ n
from_le-to_le zero n h = omega arith
from_le-to_le (suc w) n h = omega (arith, pow_step w, from_le-to_le w (n / 256))

to_le-from_le : (bs : List ℕ) → All IsByte bs → to_le (length bs) (from_le bs) ≡ bs
to_le-from_le [] h = refl
to_le-from_le (b ∷ bs) h =
    let low : (b + 256 * from_le bs) % 256 ≡ b = omega arith in
    let high : (b + 256 * from_le bs) / 256 ≡ from_le bs = omega arith in
    rw (low, high) (ap (λ l. b ∷ l) (to_le-from_le bs h.1))

from_le-lt : (bs : List ℕ) → All IsByte bs → from_le bs < 256 ^ length bs
from_le-lt [] h = omega arith
from_le-lt (b ∷ bs) h = omega (arith, pow_step (length bs), from_le-lt bs h.1)

take_exact : (w : ℕ) (xs ys : List ℕ) → length xs ≡ w → take w (xs ++ ys) ≡ xs
take_exact w xs ys e = subst (λ k. take k (xs ++ ys) ≡ xs) e (take-length-append xs ys)

drop_exact : (w : ℕ) (xs ys : List ℕ) → length xs ≡ w → drop w (xs ++ ys) ≡ ys
drop_exact w xs ys e = subst (λ k. drop k (xs ++ ys) ≡ ys) e (drop-length-append xs ys)

pub length-pack : (fs : List Field) (vs : List ℕ) → Fits fs vs → length (pack fs vs) ≡ size fs
unfolding pack
length-pack [] vs h = refl
length-pack (pad ∷ fs) vs h = omega (arith, length-pack fs vs h)
length-pack (uint w ∷ fs) [] h = elim h [ ]
length-pack (uint w ∷ fs) (v ∷ vs) h =
    omega (arith, length-append (to_le w v) (pack fs vs), length-to_le w v, length-pack fs vs h.1)

pub pack-IsByte : (fs : List Field) (vs : List ℕ) → All IsByte (pack fs vs)
unfolding pack
pack-IsByte [] vs = tt
pack-IsByte (pad ∷ fs) vs = (omega arith, pack-IsByte fs vs)
pack-IsByte (uint w ∷ fs) [] = tt
pack-IsByte (uint w ∷ fs) (v ∷ vs) =
    All-append _ (to_le w v) (pack fs vs) (to_le-IsByte w v) (pack-IsByte fs vs)

-- Unpacking reads the packed values back, and nothing beyond them.
pub unpack-pack :
    (fs : List Field) (vs rest : List ℕ) → Fits fs vs → unpack fs (pack fs vs ++ rest) ≡ vs
unfolding pack unpack
unpack-pack [] [] rest h = refl
unpack-pack [] (v ∷ vs) rest h = elim h [ ]
unpack-pack (pad ∷ fs) vs rest h = unpack-pack fs vs rest h
unpack-pack (uint w ∷ fs) [] rest h = elim h [ ]
unpack-pack (uint w ∷ fs) (v ∷ vs) rest h =
    let split : (to_le w v ++ pack fs vs) ++ rest ≡ to_le w v ++ (pack fs vs ++ rest) =
      append_assoc (to_le w v) (pack fs vs) rest in
    rw split (
      ap₂ (λ (a : ℕ) l. a ∷ l)
        (ap from_le (take_exact w (to_le w v) (pack fs vs ++ rest) (length-to_le w v))
          ∙ from_le-to_le w v h.0)
        (ap (unpack fs) (drop_exact w (to_le w v) (pack fs vs ++ rest) (length-to_le w v))
          ∙ unpack-pack fs vs rest h.1))

-- The bytes with the pad bytes set to zero.
abbrev pub blank : List Field → List ℕ → List ℕ
blank [] bs = []
blank (pad ∷ fs) bs = 0 ∷ blank fs (drop 1 bs)
blank (uint w ∷ fs) bs = take w bs ++ blank fs (drop w bs)

-- Packing what was unpacked gives the bytes back, but for the pad bytes.
pub pack-unpack :
    (fs : List Field) (bs : List ℕ)
    → length bs ≡ size fs
    → All IsByte bs
    → pack fs (unpack fs bs) ≡ blank fs bs
unfolding pack unpack
pack-unpack [] bs e h = refl
pack-unpack (pad ∷ fs) bs e h =
    ap (λ l. 0 ∷ l)
      (pack-unpack fs (drop 1 bs) (omega (arith, length-drop 1 bs)) (All-drop _ 1 bs h))
pack-unpack (uint w ∷ fs) bs e h =
    let taken : length (take w bs) ≡ w = omega (arith, length-take w bs) in
    ap₂ (λ a l. a ++ l)
      (ap (λ k. to_le k (from_le (take w bs))) (sym taken)
        ∙ to_le-from_le (take w bs) (All-take _ w bs h))
      (pack-unpack fs (drop w bs) (omega (arith, length-drop w bs)) (All-drop _ w bs h))

pub blank_no_pad :
    (fs : List Field) (bs : List ℕ) → HasNoPad fs → length bs ≡ size fs → blank fs bs ≡ bs
blank_no_pad [] [] p e = refl
blank_no_pad [] (b ∷ bs) p e = absurd (omega arith)
blank_no_pad (pad ∷ fs) bs p e = elim p [ ]
blank_no_pad (uint w ∷ fs) bs p e =
    ap (λ l. take w bs ++ l) (blank_no_pad fs (drop w bs) p (omega (arith, length-drop w bs)))
    ∙ take-append-drop w bs

pub unpack-Fits :
    (fs : List Field) (bs : List ℕ) → size fs ≡ length bs → All IsByte bs → Fits fs (unpack fs bs)
unfolding unpack
unpack-Fits [] bs e h = tt
unpack-Fits (pad ∷ fs) bs e h =
    unpack-Fits fs (drop 1 bs) (omega (arith, length-drop 1 bs)) (All-drop _ 1 bs h)
unpack-Fits (uint w ∷ fs) bs e h =
    let taken : length (take w bs) ≡ w = omega (arith, length-take w bs) in
    (
      subst (λ k. from_le (take w bs) < 256 ^ k) taken (from_le-lt (take w bs) (All-take _ w bs h)),
      unpack-Fits fs (drop w bs) (omega (arith, length-drop w bs)) (All-drop _ w bs h),
    )
