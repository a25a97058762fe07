-- ===== src/Replicas/Tests.antt =====
-- Runs of the replica functions, and their theorems at concrete pods.
use fa_st_gshare.Common.Int.{ℤ, pos, int32, ◌+ℤ◌, ◌-ℤ◌, ◌≤ℤ◌}
use fa_st_gshare.Common.{
  ℕ, zero, suc, ◌≤◌, ◌≡◌, ◌≢◌, ◌⊎◌, refl, true, false, none, some, [], ◌∷◌, arith,
}
use fa_st_gshare.Kube.{FastPod, running, pending}
use fa_st_gshare.Replicas.Pods.{Ranked, filter_inactive_pods, get_replicas, min_replicas}
use fa_st_gshare.Replicas.Order.{less, less_by_phase}
use fa_st_gshare.Replicas.Example.{pod_of, cluster, two_pods}
use fa_st_gshare.Replicas.OrderLaws.{less-asymmetric}
use fa_st_gshare.Replicas.ScaleLaws.{filter_inactive_pods-idempotent, get_replicas_lem}
use fa_st_gshare.Replicas.Batch.{
  Called, slow_start_batch, batch_loop, run_batch, record_call, add_successes, all_started,
}
use fa_st_gshare.Replicas.BatchLaws.{
  after, Clean, slow_start_batch-ends, slow_start_batch-calls, slow_start_batch-Clean,
}

abbrev a_ranked : Ranked
a_ranked = record { pod = pod_of "a" pending; rank = 2 }

abbrev b_ranked : Ranked
b_ranked = record { pod = pod_of "b" running; rank = 2 }

pending_first : less cluster (pos 9) a_ranked b_ranked ≡ true
unfolding less less_by_phase
pending_first = refl

less-asymmetric_example : less cluster (pos 9) b_ranked a_ranked ≡ false
less-asymmetric_example =
    less-asymmetric cluster (λ d. (omega arith, refl)) (pos 9) a_ranked b_ranked pending_first

-- A call that counts, and creates a pod.
abbrev create : ℕ → Called × ℕ
create n = (record { has_pod = true; error = none }, suc n)

-- The first call waits for a dummy pod: of two pods created, one is counted.
abbrev wait_once : ℕ → Called × ℕ
wait_once zero = (record { has_pod = false; error = some "Waiting4Dummy" }, 1)
wait_once (suc n) = (record { has_pod = true; error = none }, suc (suc n))

undercount :
    slow_start_batch wait_once 3 1 0
    ≡ some (record { state = 3; successes = pos 1; error = some "Waiting4Dmmy" })
unfolding slow_start_batch batch_loop run_batch record_call add_successes all_started ◌+ℤ◌ ◌-ℤ◌
undercount = refl

slow_start_batch-ends_example : slow_start_batch create 5 1 0 ≢ none
slow_start_batch-ends_example = slow_start_batch-ends create 5 1 0

slow_start_batch-calls_example : (k : ℕ) × (k ≤ 3) × (after wait_once k 0 ≡ 3)
slow_start_batch-calls_example = slow_start_batch-calls wait_once 3 1 0 undercount

create-Clean : (n s : ℕ) → Clean create n s
create-Clean n s k h = refl

slow_start_batch-Clean_example :
    slow_start_batch create 5 1 0 ≡ some (record { state = 5; successes = pos 5; error = none })
slow_start_batch-Clean_example =
    slow_start_batch-Clean create 5 1 0 (omega arith) (create-Clean 5 0)

abbrev fp : FastPod
fp = record {
  namespace = "ns";
  name = "f";
  labels = ("app", "mine") ∷ ("com.openfaas.scale.min", "2") ∷ [];
  annotations = [];
  replicas = some (pos 1);
}

two_at_least : get_replicas (λ s. (pos 2, false)) fp ≡ some (pos 2)
unfolding get_replicas min_replicas int32
two_at_least = refl

get_replicas_lem_example :
    ((some (pos 1) ≡ some (pos 2)) ⊎ (min_replicas (λ s. (pos 2, false)) fp ≡ some (pos 2)))
    × (some (pos 1) ≡ some (pos 0) → pos 2 ≡ pos 0)
    × ((k : ℤ)
        → min_replicas (λ s. (pos 2, false)) fp ≡ some k
        → (k ≤ℤ pos 2) ⊎ (some (pos 1) ≡ some (pos 0)))
    × ((n : ℤ) → some (pos 1) ≡ some n → n ≤ℤ pos 2)
get_replicas_lem_example = (get_replicas_lem (λ s. (pos 2, false)) fp).1 (pos 2) two_at_least

filter_inactive_pods-idempotent_example :
    filter_inactive_pods (filter_inactive_pods two_pods) ≡ filter_inactive_pods two_pods
filter_inactive_pods-idempotent_example = filter_inactive_pods-idempotent two_pods
