-- ===== src/Controller/Create.antt =====
-- controller.go: the branch of `reconcileReplicas` that creates pods, and the function that it
-- gives to `slowStartbatch`.
use Prim.Native.String.{◌++◌ as str_append}
use fa_st_gshare.Common.Int.{ℤ}
use fa_st_gshare.Common.Dict.{Dict, insert}
use fa_st_gshare.Common.Float.{Floats}
use fa_st_gshare.Common.Outcome.{Outcome, returns, panics, ◌>>=◌, deref}
use fa_st_gshare.Common.{
  ℕ, suc, ◌==◌, true, false, Option, none, some, List, [], ◌∷◌, ◌++◌, String, if◌then◌else◌,
}
use fa_st_gshare.Kube.{FastPod, Pod, join_key}
use fa_st_gshare.Types.{is_none_type}
use fa_st_gshare.Proto.{Rpc}
use fa_st_gshare.Manager.State.{Manager, ResourceRequest, SelectionResult, Allocation, MpsConfig}
use fa_st_gshare.Manager.Validate.{Strconv, get_pod_request_from_pod, validate_pod_request}
use fa_st_gshare.Manager.Schedule.{Selection, selected, rejected, schedule_request}
use fa_st_gshare.Manager.Request.{Requested, request_gpu_and_update_config}
use fa_st_gshare.Replicas.Batch.{Called, Started, slow_start_batch}
use fa_st_gshare.Controller.NewPod.{PodSpec, new_pod}

-- What the API server answers to the creation of a pod.
pub data Created : Type 0 where
  created namespace_terminating : Created
  create_failed : String → Created

-- The package's state, `fstp2Pods[fstpName]`, the maps of the FaSTPod's status, the pods that were
-- created, and the number of calls of the function so far.
pub record Creating (F : Type 0) : Type 0 where
  pub manager : Manager F
  pub fstp2_pods : List String
  pub bound_device_ids : Dict String
  pub gpu_client_port : Dict ℤ
  pub pods : List Pod
  pub turn : ℕ

-- What the function reads besides; the answers of the configurators and of the API server and the
-- text of `RandStr(5)` are those of one call, by its number.
pub record Surroundings (F : Type 0) : Type 0 where
  pub conv : Strconv F
  pub show : ℤ → String
  pub rpc : ℕ → Rpc
  pub rand_str : ℕ → String
  pub create : ℕ → Pod → Created

abbrev pub failure : String → Called
failure text = record { has_pod = false; error = some text }

-- `return nil, nil`
abbrev pub nothing : Called
nothing = record { has_pod = false; error = none }

-- The error for a code that is not 0.
unfoldable pub code_text : ℕ → String
code_text n =
    if n == 1
    then "NodeNotInitialized"
    else if n == 2
    then "Waiting4Dummy"
    else if n == 3
    then "Compute Resource exceed!"
    else if n == 4
    then "Out of memory!"
    else if n == 5
    then "GPU Clients Port is full!"
    else "Unknown Error"

-- The client port goes into the status when the allocation has one.
abbrev enter_port : String → Option MpsConfig → Dict ℤ → Dict ℤ
enter_port name none d = d
enter_port name (some c) d = elim c.fast_pod_mps_config [
  | none ↦ d
  | some f ↦ insert name f.gpu_client_port d
]

module _ {F : Type 0} ⦃fl : Floats F⦄ where
  -- `fstpName + "-" + RandStr(5)`
  unfoldable pub new_pod_name : Surroundings F → FastPod → ℕ → String
  new_pod_name env fp turn = str_append fp.name (str_append "-" (env.rand_str turn))

  -- The answer of the API server. What was booked is not undone.
  unfoldable pub after_create :
      SelectionResult → Allocation → Pod → Created → Creating F → Called × Creating F
  after_create sel a p created s = (
    record { has_pod = true; error = none },
    record s {
      bound_device_ids = insert p.name sel.vgpu_uuid s.bound_device_ids;
      gpu_client_port = enter_port p.name a.mps_config s.gpu_client_port;
      pods = s.pods ++ p ∷ [];
    },
  )
  after_create sel a p namespace_terminating s = (nothing, s)
  after_create sel a p (create_failed text) s = (failure text, s)

  -- The pod for an allocation, sent to the API server.
  unfoldable pub create_for :
      Surroundings F
      → FastPod
      → PodSpec
      → SelectionResult
      → String
      → ℕ
      → Allocation
      → Creating F
      → Called × Creating F
  create_for env fp spec sel name turn a s =
      let p =
        (new_pod env.show spec fp (record {
          is_warm = false;
          bound_dev_uuid = a.uuid;
          sched_node = sel.node_name;
          sched_vgpu_id = a.uuid;
          pod_name = name;
          mps_config = a.mps_config;
        })).pod in
      after_create sel a p (env.create turn p) s

  -- The switch on the code of `RequestGPUAndUpdateConfig`.
  unfoldable pub on_code :
      Surroundings F
      → FastPod
      → PodSpec
      → SelectionResult
      → String
      → ℕ
      → Requested F
      → Creating F
      → Outcome (Called × Creating F)
  on_code env fp spec sel name turn q s =
      if q.code == 0
      then (do
        a ← deref q.allocation
        returns (
            create_for env fp spec sel name turn a
              (record s { manager = q.manager; fstp2_pods = s.fstp2_pods ++ name ∷ [] })))
      else returns (failure (code_text q.code), record s { manager = q.manager })

  unfoldable pub on_selection :
      Surroundings F
      → FastPod
      → PodSpec
      → ResourceRequest F
      → ℕ
      → Selection
      → Creating F
      → Outcome (Called × Creating F)
  on_selection env fp spec req turn (rejected e) s = returns (failure "NoSchedNodeAvailable", s)
  on_selection env fp spec req turn (selected sel) s = do
    let name = new_pod_name env fp turn
    q ← request_gpu_and_update_config (env.rpc turn) s.manager sel req (join_key fp.namespace name)
    on_code env fp spec sel name turn q s

  -- With a request that could be read.
  unfoldable pub create_requested :
      Surroundings F
      → FastPod
      → PodSpec
      → ResourceRequest F
      → ℕ
      → Creating F
      → Outcome (Called × Creating F)
  create_requested env fp spec req turn s = elim (validate_pod_request req) [
    | some invalid ↦ returns (nothing, s)
    | none ↦ if is_none_type req.allocation_type then returns (nothing, s) else (do
      r ← schedule_request (env.rpc turn) s.manager req
      on_selection env fp spec req turn r.selection (record s { manager = r.manager }))
  ]

  -- The function that `slowStartbatch` calls; the cause of an error is left out of its text.
  unfoldable pub create_pod :
      Surroundings F → FastPod → PodSpec → Creating F → Outcome (Called × Creating F)
  create_pod env fp spec s0 =
      let s = record s0 { turn = suc s0.turn } in
      elim (get_pod_request_from_pod env.conv fp) [
        | none ↦ returns (failure "failed to get pod request from fastpod", s)
        | some req ↦ create_requested env fp spec req s0.turn s
      ]

  -- After a panic no call is made.
  unfoldable pub create_or_panic :
      Surroundings F → FastPod → PodSpec → Outcome (Creating F) → Called × Outcome (Creating F)
  create_or_panic env fp spec panics = (nothing, panics)
  create_or_panic env fp spec (returns s) = elim (create_pod env fp spec s) [
    | panics ↦ (nothing, panics)
    | returns r ↦ (r.0, returns (r.1))
  ]

  -- The branch for `diff` pods too few; `initial` is `SlowStartInitialBatchSize`.
  unfoldable pub scale_up :
      Surroundings F
      → FastPod
      → PodSpec
      → ℕ
      → ℕ
      → Creating F
      → Option (Started (Outcome (Creating F)))
  scale_up env fp spec initial diff s =
      slow_start_batch (create_or_panic env fp spec) diff initial (returns s)
