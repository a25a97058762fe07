-- ===== src/Replicas/Pods.antt =====
-- controller_util.go: tests and counts on pods, `getPodsRankedByRelatedPodsOnSameNode`,
-- `getReplicas` and `makeLabels`.
use fa_st_gshare.Common.Int.{ℤ, pos, int32, ltb_ℤ, leb_ℤ, eqb_ℤ}
use fa_st_gshare.Common.Dict.{Dict, lookup, insert}
use fa_st_gshare.Common.{
  ℕ, suc, length, Bool, true, false, ◌&&◌, Option, none, some, List, [], ◌∷◌, String, str_eq,
  if◌then◌else◌,
}
use fa_st_gshare.Kube.{PodPhase, pending, unknown, running, succeeded, failed, Pod, FastPod}

-- `PodSucceeded != phase && PodFailed != phase`
abbrev unfinished : PodPhase → Bool
unfinished pending = true
unfinished unknown = true
unfinished running = true
unfinished succeeded = false
unfinished failed = false

abbrev is_nil {ℓ} : {A : Type ℓ} → Option A → Bool
is_nil none = true
is_nil (some a) = false

-- `IsPodActive`
unfoldable pub is_pod_active : Pod → Bool
is_pod_active p = unfinished p.phase && is_nil p.deletion_timestamp

-- `filterInactivePods`
unfoldable pub filter_inactive_pods : List Pod → List Pod
filter_inactive_pods [] = []
filter_inactive_pods (p ∷ rest) =
    let kept = filter_inactive_pods rest in if is_pod_active p then p ∷ kept else kept

-- `podsOnNode[node]` after the first loop: the active pods on a node.
unfoldable pub pods_on_node : String → List Pod → ℕ
pods_on_node name [] = 0
pods_on_node name (p ∷ rest) =
    let n = pods_on_node name rest in
    if is_pod_active p && str_eq p.node_name name then suc n else n

-- A pod of `ActivePodsWithRanks` with its rank.
pub record Ranked : Type 0 where
  pub pod : Pod
  pub rank : ℕ

abbrev pub rank_all : List Pod → List Pod → List Ranked
rank_all everyone [] = []
rank_all everyone (p ∷ rest) =
    record { pod = p; rank = pods_on_node p.node_name everyone } ∷ rank_all everyone rest

-- `getPodsRankedByRelatedPodsOnSameNode`
unfoldable pub ranked_pods : List Pod → List Ranked
ranked_pods pods = rank_all pods pods

abbrev min_replicas_name : String
min_replicas_name = "com.openfaas.scale.min"

abbrev positive_count : ℤ × Bool → Option ℤ
positive_count (r, true) = none
positive_count (r, false) = if ltb_ℤ (pos 0) r then some (int32 r) else none

-- The minimum that the label asks for. `strconv.Atoi` is the parameter `atoi`: its value, and
-- whether it failed.
unfoldable pub min_replicas : (String → ℤ × Bool) → FastPod → Option ℤ
min_replicas atoi fp = elim (lookup min_replicas_name fp.labels) [
  | none ↦ none
  | some value ↦ positive_count (atoi value)
]

abbrev pub choose_replicas : Option ℤ → Option ℤ → Option ℤ
choose_replicas minimum none = minimum
choose_replicas none (some n) = some n
choose_replicas (some k) (some n) =
    if eqb_ℤ n (pos 0) then some n else if leb_ℤ k n then some n else some k

-- `getReplicas`
unfoldable pub get_replicas : (String → ℤ × Bool) → FastPod → Option ℤ
get_replicas atoi fp = choose_replicas (min_replicas atoi fp) fp.replicas

-- The loop `for k, v := range labels { into[k] = v }`.
unfoldable pub insert_all : Dict String → Dict String → Dict String
insert_all [] into = into
insert_all ((k, v) ∷ rest) into = insert k v (insert_all rest into)

abbrev pub function_name : FastPod → Option String → String
function_name fp none = fp.name
function_name fp (some n) = n

-- `makeLabels`
unfoldable pub make_labels : FastPod → Dict String
make_labels fp = insert_all fp.labels (
    ("fast_function", function_name fp (lookup "fast_function" fp.labels))
    ∷ ("app", fp.name)
    ∷ ("controller", fp.name)
    ∷ [])

-- `getFaSTPodReplicaStatus`; the readiness tests of k8s.io are parameters. The status has the
-- numbers of pods, of available pods and of ready pods.
pub record ReplicaStatus : Type 0 where
  pub replicas : ℤ
  pub available_replicas : ℤ
  pub ready_replicas : ℤ

unfoldable pub ready_count : (Pod → Bool) → List Pod → ℕ
ready_count is_ready [] = 0
ready_count is_ready (p ∷ rest) =
    let n = ready_count is_ready rest in if is_ready p then suc n else n

unfoldable pub available_count : (Pod → Bool) → (Pod → Bool) → List Pod → ℕ
available_count is_ready is_available [] = 0
available_count is_ready is_available (p ∷ rest) =
    let n = available_count is_ready is_available rest in
    if is_ready p && is_available p then suc n else n

unfoldable pub replica_status : (Pod → Bool) → (Pod → Bool) → List Pod → ReplicaStatus
replica_status is_ready is_available pods = record {
  replicas = int32 (pos (length pods));
  available_replicas = int32 (pos (available_count is_ready is_available pods));
  ready_replicas = int32 (pos (ready_count is_ready pods));
}
