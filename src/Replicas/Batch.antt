-- ===== src/Replicas/Batch.antt =====
-- controller.go: `slowStartbatch`, which calls a function in batches that grow while all succeed.
use fa_st_gshare.Common.Int.{ℤ, pos, ◌+ℤ◌, ◌-ℤ◌}
use fa_st_gshare.Common.{
  ℕ, zero, suc, ◌-◌, ◌*◌, length, leb, Bool, Option, none, some, List, [], ◌∷◌, ◌++◌, String,
  str_eq, if◌then◌else◌,
}

-- What one call of `fn` returns: whether the pod is not nil, and the error's text.
pub record Called : Type 0 where
  pub has_pod : Bool
  pub error : Option String

-- The variables of a batch, with the state that the calls change.
pub record Batch (S : Type 0) : Type 0 where
  pub state : S
  -- the channel `errCh`, in the order of the sends
  pub errors : List String
  pub need2wait : ℕ

pub record Started (S : Type 0) : Type 0 where
  pub state : S
  pub successes : ℤ
  pub error : Option String

abbrev pub waiting_text : String
waiting_text = "Waiting4Dummy"

-- `integer.IntMin`
abbrev pub int_min : ℕ → ℕ → ℕ
int_min a b = if leb a b then a else b

module _ {S : Type 0} where
  -- The tests after a call: an error goes into the channel unless the call waits for a dummy pod.
  unfoldable pub record_call : Called × S → Batch S → Batch S
  record_call (c, s) b = elim c.error [
    | none ↦ record b { state = s }
    | some e ↦
        if str_eq e waiting_text
        then record b { state = s; need2wait = if c.has_pod then b.need2wait else suc b.need2wait }
        else record b { state = s; errors = b.errors ++ e ∷ [] }
  ]

  -- The inner loop: `batchSize` calls.
  unfoldable pub run_batch : (S → Called × S) → ℕ → Batch S → Batch S
  run_batch fn zero b = b
  run_batch fn (suc n) b = run_batch fn n (record_call (fn b.state) b)

  -- After the last batch; the text of the error is as written.
  unfoldable pub all_started : S → ℤ → ℕ → Started S
  all_started s successes zero = record { state = s; successes = successes; error = none }
  all_started s successes (suc n) = record {
    state = s;
    successes = successes;
    error = some "Waiting4Dmmy";
  }

  -- `successes + batchSize - len(errCh) - need2wait`
  unfoldable pub add_successes : ℤ → ℕ → Batch S → ℤ
  add_successes successes size b =
      successes +ℤ (pos size -ℤ pos (length b.errors) -ℤ pos b.need2wait)

  -- The outer loop: fuel, batch size, remaining calls, successes, `need2wait`, state. `none`
  -- stands for too little fuel.
  unfoldable pub batch_loop : (S → Called × S) → ℕ → ℕ → ℕ → ℤ → ℕ → S → Option (Started S)
  batch_loop fn zero size remaining successes need s = none
  batch_loop fn (suc fuel) zero remaining successes need s = some (all_started s successes need)
  batch_loop fn (suc fuel) (suc k) remaining successes need s =
      let b = run_batch fn (suc k) (record { state = s; errors = []; need2wait = need }) in
      let total = add_successes successes (suc k) b in
      elim b.errors [
        | [] ↦
            batch_loop fn fuel (int_min (2 * suc k) (remaining - suc k)) (remaining - suc k) total
              b.need2wait b.state
        | e ∷ more ↦ some (record { state = b.state; successes = total; error = some e })
      ]

  -- `slowStartbatch`; its callers give a count that is not negative.
  unfoldable pub slow_start_batch : (S → Called × S) → ℕ → ℕ → S → Option (Started S)
  slow_start_batch fn count initial s =
      batch_loop fn (suc count) (int_min count initial) count (pos 0) 0 s
