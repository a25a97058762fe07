-- ===== src/Common/Text.antt =====
-- The order of texts by their bytes, Go's `<` on strings.
use Prim.Native.Nat.{ℕ, Ordering, compare as compare_ℕ}
use Prim.Native.Char.{code}
use Prim.Native.String.compare
use Prim.Native.String.{String, [], ◌∷◌, compare, then}
use mathlib.Core.Path.{◌≡◌, refl, sym}
use mathlib.Core.Bool.{Bool, true, false}
use native.Mathlib.Omega.{arith}

abbrev flip : Ordering → Ordering
flip Ordering.lt = Ordering.gt
flip Ordering.eq = Ordering.eq
flip Ordering.gt = Ordering.lt

-- `a < b`
abbrev pub text_less : String → String → Bool
text_less a b = elim (compare a b) [ Ordering.lt ↦ true | _ ↦ false ]

compare-flip : (m n : ℕ) → compare_ℕ n m ≡ flip (compare_ℕ m n)
compare-flip m n = ground arith

then-flip : (o p : Ordering) → flip (then o p) ≡ then (flip o) (flip p)
then-flip Ordering.lt p = refl
then-flip Ordering.eq p = refl
then-flip Ordering.gt p = refl

text-flip : (s t : String) → compare t s ≡ flip (compare s t)
text-flip [] [] = rw compare.nil-nil refl
text-flip [] (d ∷ t) = rw (compare.nil-cons d t, compare.cons-nil d t) refl
text-flip (c ∷ s) [] = rw (compare.nil-cons c s, compare.cons-nil c s) refl
text-flip (c ∷ s) (d ∷ t) =
    rw
      (
        compare.cons-cons c d s t,
        compare.cons-cons d c t s,
        compare-flip (code c) (code d),
        text-flip s t,
      )
      (sym (then-flip (compare_ℕ (code c) (code d)) (compare s t)))

pub text_less-asymmetric : (s t : String) → text_less s t ≡ true → text_less t s ≡ false
text_less-asymmetric s t e = ground (arith, text-flip s t)
