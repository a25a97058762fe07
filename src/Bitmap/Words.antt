-- ===== src/Bitmap/Words.antt =====
-- pkg/libs/bitmap: the word operations `w |= 1 << k`, `w &^= 1 << k` and `w & (1 << k) != 0`.
-- The offset `k` is a remainder by 64, so `1 << k` loses no bit of a `uint64`.
use Prim.Native.Nat.{min, max, digits, bitwise, bit_and, bit_or, bit_and-bitwise, bit_or-bitwise}
use native.Mathlib.Nat.{pow-suc}
use fa_st_gshare.Common.{
  ℕ, zero, suc, ◌+◌, ◌-◌, ◌*◌, ◌/◌, ◌%◌, ◌^◌, ◌≤◌, ◌<◌, ◌≡◌, refl, ap, ◌∙◌, Bool, not, arith, ◌==◌,
  if◌then◌else◌,
}

unfoldable pub set_bit : ℕ → ℕ → ℕ
set_bit w k = bit_or w (2 ^ k)

unfoldable pub clear_bit : ℕ → ℕ → ℕ
clear_bit w k = w - bit_and w (2 ^ k)

unfoldable pub get_bit : ℕ → ℕ → Bool
get_bit w k = not (bit_and w (2 ^ k) == 0)

no_more : (n : ℕ) → 0 + n ≡ n
no_more n = omega arith

next_more : (m n : ℕ) → suc m + n ≡ suc (m + n)
next_more m n = omega arith

-- A run of `digits` gives the same with more fuel than the first number needs.
module _ (top : ℕ → ℕ) (join : ℕ → ℕ → ℕ) where
  one_more : (fuel v w : ℕ) → v ≤ fuel → digits top join (suc fuel) v w ≡ digits top join fuel v w
  one_more zero zero w h = refl
  one_more zero (suc v) w h = absurd (omega arith)
  one_more (suc fuel) zero w h = refl
  one_more (suc fuel) (suc v) w h = rw (one_more fuel (suc v / 2) (w / 2) (omega arith)) refl

  many_more :
      (extra fuel v w : ℕ)
      → v ≤ fuel
      → digits top join (extra + fuel) v w ≡ digits top join fuel v w
  many_more zero fuel v w h = ap (λ k. digits top join k v w) (no_more fuel)
  many_more (suc extra) fuel v w h =
      ap (λ k. digits top join k v w) (next_more extra fuel)
      ∙ one_more (extra + fuel) v w (omega arith)
      ∙ many_more extra fuel v w h

  -- The lowest digit apart.
  low_digit :
      (v w : ℕ)
      → bitwise top join (suc v) w
        ≡ bitwise top join (suc v / 2) (w / 2) * 2 + join (suc v % 2) (w % 2)
  low_digit v w =
      let spare : v ≡ v - suc v / 2 + suc v / 2 = omega arith in
      let half = many_more (v - suc v / 2) (suc v / 2) (suc v / 2) (w / 2) (omega arith) in
      ap (λ k. digits top join k (suc v / 2) (w / 2) * 2 + join (suc v % 2) (w % 2)) spare
      ∙ ap (λ k. k * 2 + join (suc v % 2) (w % 2)) half

or_low : (v w : ℕ) → bit_or v w ≡ bit_or (v / 2) (w / 2) * 2 + max (v % 2) (w % 2)
or_low zero w = simp bit_or-bitwise (omega arith)
or_low (suc v) w = simp bit_or-bitwise (low_digit (λ k. k) max v w)

and_low : (v w : ℕ) → bit_and v w ≡ bit_and (v / 2) (w / 2) * 2 + min (v % 2) (w % 2)
and_low zero w = simp bit_and-bitwise (omega arith)
and_low (suc v) w = simp bit_and-bitwise (low_digit (λ k. 0) min v w)

-- Both by halving, below a bound.
or_nothing : (bound v : ℕ) → v ≤ bound → bit_or v 0 ≡ v
or_nothing bound zero h = refl
or_nothing zero (suc v) h = absurd (omega arith)
or_nothing (suc bound) (suc v) h =
    omega (arith, or_low (suc v) 0, or_nothing bound (suc v / 2) (omega arith))

and_nothing : (bound v : ℕ) → v ≤ bound → bit_and v 0 ≡ 0
and_nothing bound zero h = refl
and_nothing zero (suc v) h = absurd (omega arith)
and_nothing (suc bound) (suc v) h =
    omega (arith, and_low (suc v) 0, and_nothing bound (suc v / 2) (omega arith))

-- The binary digit of `w` at place `k`.
unfoldable pub digit : ℕ → ℕ → ℕ
digit w zero = w % 2
digit w (suc k) = digit (w / 2) k

pub digit-le-one : (w k : ℕ) → digit w k ≤ 1
unfolding digit
digit-le-one w zero = omega arith
digit-le-one w (suc k) = digit-le-one (w / 2) k

pub digit-zero : (k : ℕ) → digit 0 k ≡ 0
unfolding digit
digit-zero zero = refl
digit-zero (suc k) = digit-zero k

bit_and-pow : (w k : ℕ) → bit_and w (2 ^ k) ≡ digit w k * 2 ^ k
unfolding digit
bit_and-pow w zero = omega (arith, and_low w 1, and_nothing (w / 2) (w / 2) (omega arith))
bit_and-pow w (suc k) = grind (arith, and_low w (2 ^ suc k), pow-suc 2 k, bit_and-pow (w / 2) k)

bit_and-pow-le : (w k : ℕ) → bit_and w (2 ^ k) ≤ w
bit_and-pow-le w zero = omega (arith, and_low w 1, and_nothing (w / 2) (w / 2) (omega arith))
bit_and-pow-le w (suc k) =
    grind (arith, and_low w (2 ^ suc k), pow-suc 2 k, bit_and-pow-le (w / 2) k)

pow-pos : (k : ℕ) → 0 < 2 ^ k
pow-pos zero = omega arith
pow-pos (suc k) = omega (arith, pow-suc 2 k, pow-pos k)

-- `w & (1 << k) != 0` reads digit `k`.
pub get_bit-digit : (w k : ℕ) → get_bit w k ≡ (digit w k == 1)
unfolding get_bit
get_bit-digit w k = grind (arith, bit_and-pow w k, digit-le-one w k, pow-pos k)

set_bit-zero_half : (w : ℕ) → set_bit w 0 / 2 ≡ w / 2
unfolding set_bit
set_bit-zero_half w = omega (arith, or_low w 1, or_nothing (w / 2) (w / 2) (omega arith))

set_bit-suc_half : (w k : ℕ) → set_bit w (suc k) / 2 ≡ set_bit (w / 2) k
unfolding set_bit
set_bit-suc_half w k = ground (arith, or_low w (2 ^ suc k), pow-suc 2 k)

clear_bit-zero_half : (w : ℕ) → clear_bit w 0 / 2 ≡ w / 2
unfolding clear_bit
clear_bit-zero_half w = omega (arith, and_low w 1, and_nothing (w / 2) (w / 2) (omega arith))

clear_bit-suc_half : (w k : ℕ) → clear_bit w (suc k) / 2 ≡ clear_bit (w / 2) k
unfolding clear_bit
clear_bit-suc_half w k =
    ground (arith, and_low w (2 ^ suc k), pow-suc 2 k, bit_and-pow-le (w / 2) k)

-- `w |= 1 << k` writes 1 at place `k` and nothing else.
pub digit-set_bit : (w k j : ℕ) → digit (set_bit w k) j ≡ (if k == j then 1 else digit w j)
unfolding set_bit digit
digit-set_bit w zero zero = ground (arith, or_low w 1)
digit-set_bit w zero (suc j) = ground (arith, set_bit-zero_half w)
digit-set_bit w (suc k) zero = ground (arith, or_low w (2 ^ suc k), pow-suc 2 k)
digit-set_bit w (suc k) (suc j) = ground (arith, set_bit-suc_half w k, digit-set_bit (w / 2) k j)

-- `w &^= 1 << k` writes 0 at place `k` and nothing else.
pub digit-clear_bit : (w k j : ℕ) → digit (clear_bit w k) j ≡ (if k == j then 0 else digit w j)
unfolding clear_bit digit
digit-clear_bit w zero zero = ground (arith, and_low w 1, and_nothing (w / 2) (w / 2) (omega arith))
digit-clear_bit w zero (suc j) = ground (arith, clear_bit-zero_half w)
digit-clear_bit w (suc k) zero =
    ground (arith, and_low w (2 ^ suc k), pow-suc 2 k, bit_and-pow-le (w / 2) k)
digit-clear_bit w (suc k) (suc j) =
    ground (arith, clear_bit-suc_half w k, digit-clear_bit (w / 2) k j)
