-- ===== src/Protocol/Struct.antt =====
-- The little-endian formats of Python's `struct` that host/src/navbench/protocol.py uses: fields
-- of 1, 2 and 4 bytes and pad bytes. A binary32 field is its 32-bit pattern.
pub mod Laws
use navbench.Common.{ℕ, zero, suc, ◌+◌, ◌*◌, ◌/◌, ◌%◌, List, [], ◌∷◌, ◌++◌, take, drop}

pub data Field : Type 0 where
  uint : ℕ → Field
  pad : Field

abbrev pub u8 : Field
u8 = uint 1

abbrev pub u16 : Field
u16 = uint 2

abbrev pub u32 : Field
u32 = uint 4

abbrev pub f32 : Field
f32 = uint 4

-- The number of bytes of a format, `Struct.size`.
abbrev pub size : List Field → ℕ
size [] = 0
size (uint w ∷ fs) = w + size fs
size (pad ∷ fs) = 1 + size fs

-- `n` in `w` bytes, the lowest first.
abbrev pub to_le : ℕ → ℕ → List ℕ
to_le zero n = []
to_le (suc w) n = (n % 256) ∷ to_le w (n / 256)

abbrev pub from_le : List ℕ → ℕ
from_le [] = 0
from_le (b ∷ bs) = b + 256 * from_le bs

-- `Struct.pack`; the program always gives as many values as the format has fields.
unfoldable pub pack : List Field → List ℕ → List ℕ
pack [] vs = []
pack (pad ∷ fs) vs = 0 ∷ pack fs vs
pack (uint w ∷ fs) [] = []
pack (uint w ∷ fs) (v ∷ vs) = to_le w v ++ pack fs vs

-- `Struct.unpack` on a string of `size fs` bytes, which its callers check first.
unfoldable pub unpack : List Field → List ℕ → List ℕ
unpack [] bs = []
unpack (pad ∷ fs) bs = unpack fs (drop 1 bs)
unpack (uint w ∷ fs) bs = from_le (take w bs) ∷ unpack fs (drop w bs)
