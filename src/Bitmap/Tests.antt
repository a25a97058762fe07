-- ===== src/Bitmap/Tests.antt =====
-- Runs of pkg/libs/bitmap, and its theorems at concrete bitmaps.
use fa_st_gshare.Common.Int.{pos, negsuc}
use fa_st_gshare.Common.{◌≡◌, refl, [], ◌∷◌, arith, inr, none}
use fa_st_gshare.Bitmap.{
  Bitmap, set_at, clear_at, get_at, find_first_unset, find_first_unset_and_set,
}
use fa_st_gshare.Bitmap.Laws.{IsValid}
use fa_st_gshare.Bitmap.Words.{set_bit, clear_bit, get_bit}
use fa_st_gshare.Bitmap.Search.{Taken, find_first_unset_and_set_lem}

-- Positions 0, 1 and 64 of 65 are set, and the next scan starts at 64.
abbrev ports : Bitmap
ports = record { bits = 3 ∷ 1 ∷ []; position = 64; size = 65 }

ports-IsValid : IsValid ports
ports-IsValid = record { words = refl; starts = inr (omega arith) }

-- The scan goes round: 64, 0 and 1 are set, so 2 is found, and 7 is written into the word.
take_port :
    find_first_unset_and_set ports ≡ (record ports { bits = 7 ∷ 1 ∷ []; position = 3 }, pos 2)
unfolding find_first_unset_and_set find_first_unset get_at set_at get_bit set_bit
take_port = refl

clear_port : clear_at ports (pos 64) ≡ (record ports { bits = 3 ∷ 0 ∷ [] }, none)
unfolding clear_at clear_bit
clear_port = refl

full :
    find_first_unset (record { bits = 3 ∷ []; position = 1; size = 2 })
    ≡ (record { bits = 3 ∷ []; position = 1; size = 2 }, negsuc 0)
unfolding find_first_unset get_at get_bit
full = refl

find_first_unset_and_set_lem_example : Taken ports (find_first_unset_and_set ports)
find_first_unset_and_set_lem_example = find_first_unset_and_set_lem ports ports-IsValid
