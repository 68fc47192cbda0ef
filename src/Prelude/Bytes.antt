-- ===== src/Prelude/Bytes.antt =====
-- Little-endian numbers inside a block of bytes, and the bounded string copy that storage.cpp,
-- fat32.cpp and vfs.cpp each define. The `|` of shifted bytes is written as a sum: the parts do not
-- overlap where the values are bytes.
use Prim.Native.Nat.{ℕ, ◌+◌, ◌-◌, ◌*◌, ◌%◌, ◌^◌, ◌<◌}
use mathlib.Core.Path.{◌≡◌, sym, ap}
use mathlib.Core.Bool.{true, false}
use mathlib.Core.List.{List, [], ◌∷◌}
use native.Mathlib.Omega.{arith}
use schwarz_kernel.Prelude.Tests.{ltb}
use schwarz_kernel.Prelude.Lists.{
  get_or, take, length, length-take-le, take-nil, take-cons, take_none,
}

abbrev pub byte_at : List ℕ → ℕ → ℕ
byte_at s off = get_or s off 0

unfoldable pub le16 : List ℕ → ℕ → ℕ
le16 s off = byte_at s off + byte_at s (off + 1) * 2 ^ 8

unfoldable pub le32 : List ℕ → ℕ → ℕ
le32 s off = le16 s off + le16 s (off + 2) * 2 ^ 16

unfoldable pub le64 : List ℕ → ℕ → ℕ
le64 s off = le32 s off + le32 s (off + 4) * 2 ^ 32

-- `a - b` in uint32_t.
abbrev pub sub32 : ℕ → ℕ → ℕ
sub32 a b = (a + 2 ^ 32 - b % 2 ^ 32) % 2 ^ 32

-- The loop of `copy_cstr`, at index `i`; the text ends where the source does or the room runs out.
copy_from : ℕ → ℕ → List ℕ → List ℕ
copy_from room i [] = []
copy_from room i (c ∷ src) = elim (ltb (i + 1) room) [
  | true ↦ c ∷ copy_from room (i + 1) src
  | false ↦ []
]

-- `copy_cstr` into an array of `cap` bytes, 0 < room: the text that the array holds afterwards.
unfoldable pub copy_cstr : List ℕ → ℕ → List ℕ
unfolding copy_from
copy_cstr src room = copy_from room 0 src

copy_from-take : (room i : ℕ) (src : List ℕ) → copy_from room i src ≡ take (room - (i + 1)) src
unfolding copy_from
copy_from-take room i [] = sym (take-nil ℕ (room - (i + 1)))
copy_from-take room i (c ∷ src) = ground (
  arith,
  copy_from-take room (i + 1) src,
  take_none (room - (i + 1)) (c ∷ src),
  take-cons (room - (i + 1)) c src,
  ap (λ n. take n src) (less_one room i),
)
  where
    less_one : (a b : ℕ) → a - (b + 1 + 1) ≡ a - (b + 1) - 1
    less_one a b = omega arith

-- What is kept is the longest prefix that leaves room for the terminator.
pub copy_cstr-take : (src : List ℕ) (room : ℕ) → copy_cstr src room ≡ take (room - 1) src
unfolding copy_cstr
copy_cstr-take src room = copy_from-take room 0 src

pub length-copy_cstr-lt : (src : List ℕ) (room : ℕ) → 0 < room → length (copy_cstr src room) < room
length-copy_cstr-lt src room h =
    omega (arith, ap length (copy_cstr-take src room), length-take-le (room - 1) src)
