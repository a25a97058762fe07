-- ===== src/Bitmap/Laws.antt =====
-- pkg/libs/bitmap: the effect of `Set` and `Clear` on what `Get` reads, position by position.
use fa_st_gshare.Common.Int.{ℤ, pos}
use fa_st_gshare.Bitmap.{
  Bitmap, position_out_of_range, in_range, offset_of, new_bitmap, set_at, clear_at, get_at,
}
use fa_st_gshare.Bitmap.Words.{
  set_bit, clear_bit, digit, digit-zero, digit-le-one, get_bit-digit, digit-set_bit,
  digit-clear_bit,
}
use fa_st_gshare.Common.{
  ℕ, ◌+◌, ◌/◌, ◌%◌, ◌<◌, ◌≤◌, ◌≡◌, ◌⊎◌, some, List, false, arith, ◌==◌, ltb, if◌then◌else◌, length,
  get_or, set, length-set, get_or-set_self, get_or-set_ne, length-replicate, get_or-replicate, some,
}

-- A bitmap has a word for each 64 positions, and its scan starts at a position of its own.
pub record IsValid (b : Bitmap) : Type 0 where
  pub words : length b.bits ≡ (b.size + 63) / 64
  pub starts : (b.size ≡ 0) ⊎ (b.position < b.size)

pub new_bitmap-IsValid : (n : ℕ) → IsValid (new_bitmap n)
unfolding new_bitmap
new_bitmap-IsValid n = record {
  words = length-replicate {A = ℕ} ((n + 63) / 64) 0;
  starts = ground arith;
}

-- The index of a position in range is inside `bits`: Go's bounds check never fails.
pub word_in_bounds : (b : Bitmap) (p : ℕ) → IsValid b → p < b.size → p / 64 < length b.bits
word_in_bounds b p v h = omega (arith, v.words)

-- The bit of a position: 1 when it is in range and set.
unfoldable pub bit : Bitmap → ℕ → ℕ
bit b p = if ltb p b.size then digit (get_or b.bits (p / 64) 0) (p % 64) else 0

pub bit-le-one : (b : Bitmap) (p : ℕ) → bit b p ≤ 1
unfolding bit
bit-le-one b p = ground (arith, digit-le-one (get_or b.bits (p / 64) 0) (p % 64))

pub get_at-bit : (b : Bitmap) (p : ℕ) → (get_at b (pos p)).0 ≡ (bit b p == 1)
unfolding get_at bit
get_at-bit b p = ground (arith, get_bit-digit (get_or b.bits (p / 64) 0) (p % 64))

pub bit-new_bitmap : (n p : ℕ) → bit (new_bitmap n) p ≡ 0
unfolding bit new_bitmap
bit-new_bitmap n p =
    ground (arith, get_or-replicate {A = ℕ} ((n + 63) / 64) (p / 64) 0, digit-zero (p % 64))

-- Reading a list after a write to one word.
get_or-set :
    (xs : List ℕ) (i j v : ℕ)
    → i < length xs
    → get_or (set xs i v) j 0 ≡ (if i == j then v else get_or xs j 0)
get_or-set xs i j v h = grind (arith, get_or-set_self xs i v 0, get_or-set_ne xs i j v 0)

-- A position is given by its word and its offset.
same_place : (p q : ℕ) → p / 64 ≡ q / 64 → p % 64 ≡ q % 64 → p ≡ q
same_place p q h k = omega arith

-- Setting a position of a valid bitmap makes its bit 1 and keeps every other bit.
pub bit-set_at :
    (b : Bitmap) (p q : ℕ)
    → IsValid b
    → p < b.size
    → bit (set_at b (pos p)).0 q ≡ (if p == q then 1 else bit b q)
unfolding bit set_at
bit-set_at b p q v h = ground (
  arith,
  word_in_bounds b p v h,
  same_place p q,
  get_or-set b.bits (p / 64) (q / 64) (set_bit (get_or b.bits (p / 64) 0) (p % 64)),
  digit-set_bit (get_or b.bits (p / 64) 0) (p % 64) (q % 64),
)

-- Clearing a position of a valid bitmap makes its bit 0 and keeps every other bit.
pub bit-clear_at :
    (b : Bitmap) (p q : ℕ)
    → IsValid b
    → p < b.size
    → bit (clear_at b (pos p)).0 q ≡ (if p == q then 0 else bit b q)
unfolding bit clear_at
bit-clear_at b p q v h = ground (
  arith,
  word_in_bounds b p v h,
  same_place p q,
  get_or-set b.bits (p / 64) (q / 64) (clear_bit (get_or b.bits (p / 64) 0) (p % 64)),
  digit-clear_bit (get_or b.bits (p / 64) 0) (p % 64) (q % 64),
)

pub set_at-IsValid : (b : Bitmap) (z : ℤ) → IsValid b → IsValid (set_at b z).0
unfolding set_at
set_at-IsValid b z v = ground (
  arith,
  length-set b.bits (offset_of z / 64)
      (set_bit (get_or b.bits (offset_of z / 64) 0) (offset_of z % 64)),
)

pub clear_at-IsValid : (b : Bitmap) (z : ℤ) → IsValid b → IsValid (clear_at b z).0
unfolding clear_at
clear_at-IsValid b z v = ground (
  arith,
  length-set b.bits (offset_of z / 64)
      (clear_bit (get_or b.bits (offset_of z / 64) 0) (offset_of z % 64)),
)

pub size-set_at : (b : Bitmap) (z : ℤ) → (set_at b z).0.size ≡ b.size
unfolding set_at
size-set_at b z = ground arith

pub size-clear_at : (b : Bitmap) (z : ℤ) → (clear_at b z).0.size ≡ b.size
unfolding clear_at
size-clear_at b z = ground arith

-- Out of range, `Clear` reports an error and changes nothing.
pub clear_at_out_of_range :
    (b : Bitmap) (z : ℤ) → in_range b z ≡ false → clear_at b z ≡ (b, some position_out_of_range)
unfolding clear_at
clear_at_out_of_range b z h = rw h
