-- ===== src/Bitmap/Search.antt =====
-- pkg/libs/bitmap: what `FindFirstUnset` finds. The scan starts at `position` and goes round.
use native.Mathlib.Decide.{ℕ_discrete}
use native.Mathlib.Nat.{mod-eq_of_lt, mod-lt, add-mod_right}
use fa_st_gshare.Common.Int.{ℤ, pos, negsuc}
use fa_st_gshare.Bitmap.{Bitmap, get_at, search, find_first_unset, find_first_unset_and_set}
use fa_st_gshare.Bitmap.Laws.{
  IsValid, bit, bit-le-one, get_at-bit, bit-set_at, set_at-IsValid, size-set_at,
}
use fa_st_gshare.Common.{
  ℕ, zero, suc, ◌+◌, ◌-◌, ◌%◌, ◌<◌, ◌≤◌, ◌≡◌, refl, true, false, arith, ◌==◌, if◌then◌else◌, leb,
  Bool-cases, inl, inr, ◌⊎◌,
}

-- The position that the scan reads at counter `j`.
abbrev pub scanned : Bitmap → ℕ → ℕ
scanned b j = (b.position + j) % b.size

-- What the scan from counter `i` returns: the first unset position, or -1.
abbrev pub Scanned : Bitmap → ℕ → ℕ → Bitmap × ℤ → Type 0
Scanned b rounds i r =
    ((j : ℕ) × (i ≤ j)
      × (j < i + rounds)
      × (r ≡ (record b { position = (scanned b j + 1) % b.size }, pos (scanned b j)))
      × (bit b (scanned b j) ≡ 0)
      × ((k : ℕ) → i ≤ k → k < j → bit b (scanned b k) ≡ 1))
    ⊎ ((r ≡ (b, negsuc 0)) × ((k : ℕ) → i ≤ k → k < i + rounds → bit b (scanned b k) ≡ 1))

read_taken : (b : Bitmap) (p : ℕ) → (get_at b (pos p)).0 ≡ true → bit b p ≡ 1
read_taken b p h = ground (arith, get_at-bit b p)

read_free : (b : Bitmap) (p : ℕ) → (get_at b (pos p)).0 ≡ false → bit b p ≡ 0
read_free b p h = ground (arith, get_at-bit b p, bit-le-one b p)

-- A run of set positions grows by the one in front of it.
extend_run :
    (b : Bitmap) (i n : ℕ)
    → bit b (scanned b i) ≡ 1
    → ((k : ℕ) → suc i ≤ k → k < n → bit b (scanned b k) ≡ 1)
    → (k : ℕ) → i ≤ k
    → k < n
    → bit b (scanned b k) ≡ 1
extend_run b i n first rest k p q = elim (ℕ_discrete i k) [
  | yes e ↦ rw (← e) first
  | no ne ↦ rest k (omega arith) q
]

later-Scanned :
    (b : Bitmap) (rounds i : ℕ) (r : Bitmap × ℤ)
    → bit b (scanned b i) ≡ 1
    → Scanned b rounds (suc i) r
    → Scanned b (suc rounds) i r
later-Scanned b rounds i r first (inl (j, p, q, e, unset, run)) =
    inl (j, omega arith, omega arith, e, unset, extend_run b i j first run)
later-Scanned b rounds i r first (inr (e, run)) =
    inr (e, extend_run b i (i + suc rounds) first λ k p q. run k p (omega arith))

search-Scanned : (b : Bitmap) (rounds i : ℕ) → Scanned b rounds i (search b rounds i)
unfolding search
search-Scanned b zero i = inr (refl, λ k p q. absurd (omega arith))
search-Scanned b (suc rounds) i = elim (Bool-cases (get_at b (pos (scanned b i))).0) [
  | inl taken ↦ rw taken (
      later-Scanned b rounds i (search b rounds (suc i)) (read_taken b (scanned b i) taken)
        (search-Scanned b rounds (suc i)))
  | inr free ↦ rw free (
      inl (
        i,
        omega arith,
        omega arith,
        refl,
        read_free b (scanned b i) free,
        λ k p q. absurd (omega arith),
      ))
]

-- The scan reads every position: `covers` gives the counter at which it reads `p`.
abbrev covers : Bitmap → ℕ → ℕ
covers b p = if leb b.position p then p - b.position else p + b.size - b.position

around : (b : Bitmap) (p n : ℕ) → n ≡ p + b.size → p < b.size → n % b.size ≡ p
around b p n e h = rw (e, add-mod_right p b.size) (mod-eq_of_lt h)

covers_lem :
    (b : Bitmap) (p : ℕ)
    → IsValid b
    → p < b.size
    → (covers b p < b.size) × (scanned b (covers b p) ≡ p)
covers_lem b p v h = elim (Bool-cases (leb b.position p)) [
  | inl before ↦ rw before (grind arith, grind arith)
  | inr after ↦ rw after (
    grind (arith, v.starts),
    around b p (b.position + (p + b.size - b.position)) (grind (arith, v.starts)) h,
  )
]

-- `FindFirstUnset` returns -1 exactly when every position is set; otherwise it returns an unset
-- position and changes only where the next scan starts.
pub find_first_unset_lem :
    (b : Bitmap)
    → IsValid b
    → ((find_first_unset b ≡ (b, negsuc 0)) × ((p : ℕ) → p < b.size → bit b p ≡ 1))
      ⊎ ((p : ℕ) × (p < b.size)
          × (bit b p ≡ 0)
          × (find_first_unset b ≡ (record b { position = (p + 1) % b.size }, pos p)))
unfolding find_first_unset
find_first_unset_lem b v = elim (search-Scanned b b.size 0) [
  | inl (j, _, q, e, unset, _) ↦ inr (scanned b j, mod-lt _ (omega arith), unset, e)
  | inr (e, run) ↦ inl (
    e,
    λ p h.
        let (q, at) = covers_lem b p v h in
        rw (← at) (run (covers b p) (omega arith) (omega arith)),
  )
]

-- What `FindFirstUnsetAndSet` returns, and every bit after it: on -1 all positions were set and
-- nothing changes; otherwise the position was unset, and it is the one that changes.
abbrev pub Taken : Bitmap → Bitmap × ℤ → Type 0
Taken b r =
    ((r ≡ (b, negsuc 0)) × ((p : ℕ) → p < b.size → bit b p ≡ 1))
    ⊎ ((p : ℕ) × (p < b.size)
        × (bit b p ≡ 0)
        × (r.1 ≡ pos p)
        × ((q : ℕ) → bit r.0 q ≡ (if p == q then 1 else bit b q)))

moved-IsValid :
    (b : Bitmap) (p : ℕ)
    → IsValid b
    → p < b.size
    → IsValid (record b { position = (p + 1) % b.size })
moved-IsValid b p v h = record { words = v.words; starts = inr (mod-lt _ (omega arith)) }

-- On a valid bitmap `FindFirstUnsetAndSet` returns -1 when every bit is 1, and then changes nothing;
-- otherwise it returns a position whose bit was 0, sets that bit and keeps every other.
pub find_first_unset_and_set_lem : (b : Bitmap) → IsValid b → Taken b (find_first_unset_and_set b)
unfolding find_first_unset_and_set bit
find_first_unset_and_set_lem b v = elim (find_first_unset_lem b v) [
  | inl (e, all) ↦ rw e (inl (refl, all))
  | inr (p, h, unset, e) ↦ rw e (
      inr (
        p,
        h,
        unset,
        refl,
        λ q. bit-set_at (record b { position = (p + 1) % b.size }) p q (moved-IsValid b p v h) h,
      ))
]

-- `FindFirstUnsetAndSet` keeps a bitmap valid, and its size.
pub find_first_unset_and_set-IsValid :
    (b : Bitmap)
    → IsValid b
    → IsValid (find_first_unset_and_set b).0 × ((find_first_unset_and_set b).0.size ≡ b.size)
unfolding find_first_unset_and_set
find_first_unset_and_set-IsValid b v = elim (find_first_unset_lem b v) [
  | inl (e, all) ↦ rw e (v, refl)
  | inr (p, h, unset, e) ↦ rw e (
    set_at-IsValid (record b { position = (p + 1) % b.size }) (pos p) (moved-IsValid b p v h),
    size-set_at (record b { position = (p + 1) % b.size }) (pos p),
  )
]
