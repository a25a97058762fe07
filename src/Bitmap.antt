-- ===== src/Bitmap.antt =====
-- pkg/libs/bitmap/bitmap.go: the allocator of the ports of a node's GPU clients.
-- `Words` has the bit operations on one `uint64`, `Laws` the effect of `Set` and `Clear` on
-- every position, `Search` what `FindFirstUnset` finds, and `Tests` runs and instances.
-- Sizes are not negative, as the one call `NewBitmap(PortRange)`; positions are signed, since
-- `Clear` is called with `port - GPUClientPortStart`. An index outside `bits` would panic in Go:
-- it reads 0 and writes nothing here, and `word_in_bounds` shows that it is never used.
pub mod Words
pub mod Laws
pub mod Search
pub mod Tests
use fa_st_gshare.Common.Int.{ℤ, pos, negsuc}
use Words.{set_bit, clear_bit, get_bit}
use fa_st_gshare.Common.{
  ℕ, zero, suc, ◌+◌, ◌/◌, ◌%◌, Bool, true, false, Option, none, some, List, ltb, get_or, set,
  replicate, if◌then◌else◌,
}

pub record Bitmap : Type 0 where
  pub bits : List ℕ
  pub position : ℕ
  pub size : ℕ

pub data RangeError : Type 0 where
  position_out_of_range : RangeError

unfoldable pub new_bitmap : ℕ → Bitmap
new_bitmap n = record { bits = replicate ((n + 63) / 64) 0; position = 0; size = n }

-- The guard `pos < 0 || pos >= b.size`, negated.
abbrev pub in_range : Bitmap → ℤ → Bool
in_range b (pos p) = ltb p b.size
in_range b (negsuc p) = false

abbrev pub offset_of : ℤ → ℕ
offset_of (pos p) = p
offset_of (negsuc p) = 0

-- `b.bits[index] = f(b.bits[index])` with `index := pos / 64; offset := pos % 64`.
abbrev pub update_word : (ℕ → ℕ → ℕ) → Bitmap → ℕ → Bitmap
update_word f b p = record b { bits = set b.bits (p / 64) (f (get_or b.bits (p / 64) 0) (p % 64)) }

-- `Set`
unfoldable pub set_at : Bitmap → ℤ → Bitmap × Option RangeError
set_at b p =
    if in_range b p
    then (update_word set_bit b (offset_of p), none)
    else (b, some position_out_of_range)

-- `Clear`
unfoldable pub clear_at : Bitmap → ℤ → Bitmap × Option RangeError
clear_at b p =
    if in_range b p
    then (update_word clear_bit b (offset_of p), none)
    else (b, some position_out_of_range)

-- `Get`
unfoldable pub get_at : Bitmap → ℤ → Bool × Option RangeError
get_at b p =
    if in_range b p
    then (get_bit (get_or b.bits (offset_of p / 64) 0) (offset_of p % 64), none)
    else (false, some position_out_of_range)

-- The loop of `FindFirstUnset` with `rounds` left: `i` is the counter.
pub search : Bitmap → ℕ → ℕ → Bitmap × ℤ
search b zero i = (b, negsuc 0)
search b (suc rounds) i =
    let rest = search b rounds (suc i) in
    let p = (b.position + i) % b.size in
    if (get_at b (pos p)).0 then rest else (record b { position = (p + 1) % b.size }, pos p)

unfoldable pub find_first_unset : Bitmap → Bitmap × ℤ
unfolding search
find_first_unset b = search b b.size 0

abbrev set_found : Bitmap × ℤ → Bitmap × ℤ
set_found (b, pos p) = ((set_at b (pos p)).0, pos p)
set_found (b, negsuc zero) = (b, negsuc zero)
set_found (b, negsuc (suc p)) = ((set_at b (negsuc (suc p))).0, negsuc (suc p))

-- `FindFirstUnsetAndSet`; `i != -1` is the second clause of `set_found`.
unfoldable pub find_first_unset_and_set : Bitmap → Bitmap × ℤ
find_first_unset_and_set b = set_found (find_first_unset b)
