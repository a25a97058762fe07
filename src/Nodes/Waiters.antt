-- ===== src/Nodes/Waiters.antt =====
-- The goroutines that wait for heartbeats, and the liveness entries that they write.
use fa_st_gshare.Common.Dict.{Dict, lookup, insert, lookup-insert}
use fa_st_gshare.Common.Outcome.{returns, deref}
use fa_st_gshare.Common.{
  ℕ, ◌+◌, ◌<◌, ◌≤◌, ◌≡◌, ◌≢◌, str_eq, ◌⊎◌, true, Option, none, some, List, [], ◌∷◌, ◌++◌, String,
  arith, Bool-cases, inl, inr, if◌then◌else◌,
}
use fa_st_gshare.Manager.State.{NodeLiveness}
use fa_st_gshare.Nodes.Liveness.{check_each}
use fa_st_gshare.Nodes.Cluster.{Handler, greeted, waiting}

-- The goroutines that wait for heartbeats of a node.
abbrev pub waits : String → Handler → ℕ
waits name (greeted x c) = 0
waits name (waiting x c) = if str_eq x name then 1 else 0

abbrev pub waiters : String → List Handler → ℕ
waiters name [] = 0
waiters name (h ∷ rest) = waits name h + waiters name rest

pub waiters-append :
    (name : String) (xs ys : List Handler)
    → waiters name (xs ++ ys) ≡ waiters name xs + waiters name ys
waiters-append name [] ys = omega arith
waiters-append name (x ∷ xs) ys = omega (arith, waiters-append name xs ys)

-- Each of them has the entry that it writes.
abbrev pub AllLive : List Handler → Dict NodeLiveness → Type 0
AllLive handlers d = (name : String) → 0 < waiters name handlers → lookup name d ≢ none

pub deref-returns : {A : Type 0} {a : A} (o : Option A) → deref o ≡ returns a → o ≡ some a
deref-returns none e = cc
deref-returns (some b) e = ground arith

pub check_each-known :
    (now : ℕ) (name : String) (d : Dict NodeLiveness)
    → lookup name d ≢ none
    → lookup name (check_each now d) ≢ none
unfolding check_each
check_each-known now name [] h = h
check_each-known now name ((k, l) ∷ rest) h = elim (Bool-cases (str_eq k name)) [
  | inl here ↦ ground arith
  | inr other ↦ rw other (check_each-known now name rest (rw other at h))
]

pub insert-known :
    (k name : String) (l : NodeLiveness) (d : Dict NodeLiveness)
    → ((str_eq k name ≡ true) ⊎ (lookup name d ≢ none))
    → lookup name (insert k l d) ≢ none
insert-known k name l d h = elim (Bool-cases (str_eq k name)) [
  | inl here ↦ ground (arith, lookup-insert k name l d)
  | inr other ↦ elim h [
    | inl here ↦ absurd (ground arith)
    | inr known ↦ rw (lookup-insert k name l d, other) known
  ]
]

pub fewer_waiters :
    (name : String) (conn : ℕ) (front back : List Handler) (all : List Handler)
    → all ≡ front ++ waiting name conn ∷ back
    → (j : String) → waiters j (front ++ back) ≤ waiters j all
fewer_waiters name conn front back all e j =
    rw e (
      omega (arith, waiters-append j front back, waiters-append j front (waiting name conn ∷ back)))
