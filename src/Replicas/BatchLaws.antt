-- ===== src/Replicas/BatchLaws.antt =====
-- `slowStartbatch` ends, makes at most `count` calls, and `count` of them when none fails.
use fa_st_gshare.Common.Int.{ℤ, pos, ◌+ℤ◌, ◌-ℤ◌}
use fa_st_gshare.Common.{
  ℕ, zero, suc, ◌+◌, ◌-◌, ◌*◌, ◌≤◌, ◌<◌, ◌≡◌, ◌≢◌, Option, none, some, [], arith, refl, ap, sym,
  ◌∙◌, inl, inr, List-cases,
}
use fa_st_gshare.Replicas.Batch.{
  Called, Batch, Started, int_min, record_call, run_batch, all_started, add_successes, batch_loop,
  slow_start_batch,
}

none-some {ℓ} : {A : Type ℓ} {a : A} → ◌≡◌ {A = Option A} (some a) none → ⊥
none-some e = cc

stopped_state :
    {S : Type 0} {a r : Started S}
    → ◌≡◌ {A = Option (Started S)} (some a) (some r)
    → a.state ≡ r.state
stopped_state e = cc

zero-add : (n : ℕ) → n ≡ 0 + n
zero-add n = omega arith

rest-add : (m n : ℕ) → m ≤ n → m + (n - m) ≡ n
rest-add m n h = omega arith

total-add : (c m n : ℕ) → m ≤ n → c + m + (n - m) ≡ c + n
total-add c m n h = omega arith

suc-add : (m n : ℕ) → suc (m + n) ≡ suc m + n
suc-add m n = omega arith

module _ {S : Type 0} (fn : S → Called × S) where
  -- The state after `n` calls.
  abbrev pub after : ℕ → S → S
  after zero s = s
  after (suc n) s = after n (fn s).1

  after-add : (m n : ℕ) (s : S) → after n (after m s) ≡ after (m + n) s
  after-add zero n s = ap (λ k. after k s) (zero-add n)
  after-add (suc m) n s = after-add m n (fn s).1 ∙ ap (λ k. after k s) (suc-add m n)

  record_call-state : (c : Called × S) (b : Batch S) → (record_call c b).state ≡ c.1
  unfolding record_call
  record_call-state c b = ground arith

  run_batch-state : (n : ℕ) (b : Batch S) → (run_batch fn n b).state ≡ after n b.state
  unfolding run_batch
  run_batch-state zero b = refl
  run_batch-state (suc n) b =
      run_batch-state n (record_call (fn b.state) b)
      ∙ ap (λ s. after n s) (record_call-state (fn b.state) b)

  int_min-le : (a b : ℕ) → int_min a b ≤ b
  int_min-le a b = ground arith

  abbrev first_batch : ℕ → ℕ → S → Batch S
  first_batch size need s = run_batch fn size (record { state = s; errors = []; need2wait = need })

  batch_loop-ends :
      (fuel size remaining : ℕ) (successes : ℤ) (need : ℕ) (s : S)
      → remaining < fuel
      → size ≤ remaining
      → batch_loop fn fuel size remaining successes need s ≢ none
  unfolding batch_loop
  batch_loop-ends zero size remaining successes need s h k e = omega arith
  batch_loop-ends (suc fuel) zero remaining successes need s h k e = cc
  batch_loop-ends (suc fuel) (suc n) remaining successes need s h k e =
      let b = first_batch (suc n) need s in
      elim (List-cases b.errors) [
        | inl clean ↦
            batch_loop-ends fuel _ (remaining - suc n) _ b.need2wait b.state (omega arith)
              (int_min-le (2 * suc n) (remaining - suc n)) (rw (clean, batch_loop) at e)
        | inr (x, more, failing) ↦ absurd (none-some (rw (failing, batch_loop) at e))
      ]

  -- `slowStartbatch` ends with the fuel that it is given, whatever its calls return.
  pub slow_start_batch-ends :
      (count initial : ℕ) (s : S) → slow_start_batch fn count initial s ≢ none
  unfolding slow_start_batch
  slow_start_batch-ends count initial s =
      batch_loop-ends (suc count) (int_min count initial) count (pos 0) 0 s (omega arith)
        (ground arith)

  all_started-state : (s : S) (successes : ℤ) (need : ℕ) → s ≡ (all_started s successes need).state
  unfolding all_started
  all_started-state s successes need = ground arith

  batch_loop-calls :
      (fuel size remaining : ℕ) (successes : ℤ) (need : ℕ) (s : S) {r : Started S}
      → size ≤ remaining
      → batch_loop fn fuel size remaining successes need s ≡ some r
      → (k : ℕ) × (k ≤ remaining) × (after k s ≡ r.state)
  unfolding batch_loop
  batch_loop-calls zero size remaining successes need s h e = cc
  batch_loop-calls (suc fuel) zero remaining successes need s h e =
      (0, omega arith, all_started-state s successes need ∙ stopped_state e)
  batch_loop-calls (suc fuel) (suc n) remaining successes need s {r = r} h e =
      let b = first_batch (suc n) need s in
      let ran : b.state ≡ after (suc n) s = run_batch-state (suc n) _ in
      elim (List-cases b.errors) [
        | inl clean ↦
            let (k, below, state) =
              batch_loop-calls fuel (int_min (2 * suc n) (remaining - suc n)) (remaining - suc n) _
                b.need2wait b.state (int_min-le (2 * suc n) (remaining - suc n))
                (rw (clean, batch_loop) at e) in
            (
              suc n + k,
              omega arith,
              sym (after-add (suc n) k s) ∙ ap (λ x. after k x) (sym ran) ∙ state,
            )
        | inr (x, more, failing) ↦
            (suc n, h, sym ran ∙ stopped_state (rw (failing, batch_loop) at e))
      ]

  -- `slowStartbatch` calls its function at most `count` times, whatever the calls return: what is
  -- left is the state after some number of calls up to `count`.
  pub slow_start_batch-calls :
      (count initial : ℕ) (s : S) {r : Started S}
      → slow_start_batch fn count initial s ≡ some r
      → (k : ℕ) × (k ≤ count) × (after k s ≡ r.state)
  unfolding slow_start_batch
  slow_start_batch-calls count initial s e =
      batch_loop-calls (suc count) (int_min count initial) count (pos 0) 0 s (ground arith) e

  -- None of the next `n` calls returns an error.
  abbrev pub Clean : ℕ → S → Type 0
  Clean n s = (k : ℕ) → k < n → (fn (after k s)).0.error ≡ none

  record_call-Clean :
      (c : Called × S) (b : Batch S) → c.0.error ≡ none → record_call c b ≡ record b { state = c.1 }
  unfolding record_call
  record_call-Clean c b h = rw (h, record_call) refl

  run_batch-Clean :
      (n : ℕ) (b : Batch S)
      → Clean n b.state
      → run_batch fn n b ≡ record b { state = after n b.state }
  unfolding run_batch
  run_batch-Clean zero b h = refl
  run_batch-Clean (suc n) b h =
      let first : record_call (fn b.state) b ≡ record b { state = (fn b.state).1 } =
        record_call-Clean (fn b.state) b (h 0 (omega arith)) in
      ap (λ x. run_batch fn n x) first
      ∙ run_batch-Clean n (record b { state = (fn b.state).1 }) (λ k below. h (suc k) (omega arith))

  add_clean :
      (c size : ℕ) (s : S)
      → add_successes (pos c) size (record { state = s; errors = []; need2wait = 0 })
        ≡ pos (c + size)
  unfolding add_successes ◌+ℤ◌ ◌-ℤ◌
  add_clean c size s = ground arith

  granted :
      (s s' : S) {c c' : ℕ}
      → s ≡ s'
      → c ≡ c'
      → ◌≡◌ {A = Option (Started S)}
          (some (record { state = s; successes = pos c; error = none }))
          (some (record { state = s'; successes = pos c'; error = none }))
  granted s s' same total = cc

  batch_loop-Clean :
      (fuel size remaining c : ℕ) (s : S)
      → remaining < fuel
      → size ≤ remaining
      → (size ≡ 0 → remaining ≡ 0)
      → Clean remaining s
      → batch_loop fn fuel size remaining (pos c) 0 s
        ≡ some (record { state = after remaining s; successes = pos (c + remaining); error = none })
  unfolding batch_loop all_started
  batch_loop-Clean zero size remaining c s h k p q = absurd (omega arith)
  batch_loop-Clean (suc fuel) zero remaining c s h k p q =
      rw (p refl) (granted s s refl (omega arith))
  batch_loop-Clean (suc fuel) (suc n) remaining c s h k p q =
      let ran =
        run_batch-Clean (suc n) (record { state = s; errors = []; need2wait = 0 })
          (λ j below. q j (omega arith)) in
      let joined : after (remaining - suc n) (after (suc n) s) ≡ after remaining s =
        after-add (suc n) (remaining - suc n) s
        ∙ ap (λ j. after j s) (rest-add (suc n) remaining k) in
      rw (ran, ran, add_clean c (suc n) (after (suc n) s), batch_loop)
        (batch_loop-Clean fuel (int_min (2 * suc n) (remaining - suc n)) (remaining - suc n)
            (c + suc n) (after (suc n) s) (omega arith) (int_min-le (2 * suc n) (remaining - suc n))
            (ground arith) (λ j below. rw (after-add (suc n) j s) (q (suc n + j) (omega arith)))
          ∙ granted _ _ joined (total-add c (suc n) remaining k))

  -- When none of the next `count` calls returns an error and the first batch is not empty,
  -- `slowStartbatch` makes exactly `count` calls and reports `count` successes and no error.
  pub slow_start_batch-Clean :
      (count initial : ℕ) (s : S)
      → 0 < initial
      → Clean count s
      → slow_start_batch fn count initial s
        ≡ some (record { state = after count s; successes = pos count; error = none })
  unfolding slow_start_batch
  slow_start_batch-Clean count initial s h q =
      batch_loop-Clean (suc count) (int_min count initial) count 0 s (omega arith) (ground arith)
        (ground arith) q
      ∙ granted _ _ refl (sym (zero-add count))
