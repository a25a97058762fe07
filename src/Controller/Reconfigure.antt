-- ===== src/Controller/Reconfigure.antt =====
-- controller.go: `reconcileResourceConfig`, which gives the pods of a FaSTPod its new resources.
-- The code takes no mutex here.
use fa_st_gshare.Common.Dict.{Dict, lookup, insert}
use fa_st_gshare.Common.Float.{Floats}
use fa_st_gshare.Common.Outcome.{Outcome, returns, ◌>>=◌}
use fa_st_gshare.Common.{
  Bool, true, false, none, some, List, [], ◌∷◌, ◌++◌, map, String, str_eq, if◌then◌else◌,
}
use fa_st_gshare.Kube.{
  FastPod, Pod, get_text, pod_key, quota_request_name, quota_limit_name, sm_partition_name,
  vgpu_uuid_name,
}
use fa_st_gshare.Proto.{Rpc, Call}
use fa_st_gshare.Manager.State.{FastPodReq, GpuDevInfo, Node, Manager, put_gpu, put_node}
use fa_st_gshare.Manager.Queue.{find_in_queue, fast_pod_value}
use fa_st_gshare.Manager.Validate.{Strconv, resource_validity_check}
use fa_st_gshare.Manager.Config.{update_pods_gpu_config}

-- The state, the calls to configurators, the pods that the API server was sent, and the error.
pub record Reconfigured (F : Type 0) : Type 0 where
  pub manager : Manager F
  pub calls : List (Call F)
  pub sent : List Pod
  pub failed : Bool

-- The pod's own annotations, for the API server.
unfoldable pub new_pod_annotations : FastPod → Pod → Pod
new_pod_annotations fp p =
    let copy : String → Dict String → Dict String =
      λ name d. insert name (get_text name fp.annotations) d in
    record p {
      annotations =
          copy sm_partition_name (copy quota_limit_name (copy quota_request_name p.annotations));
    }

module _ {F : Type 0} where
  -- The write through the pointer that `FindInQueue` returns: the first entry of the key.
  unfoldable pub put_entry : String → FastPodReq F → List (FastPodReq F) → List (FastPodReq F)
  put_entry key r [] = []
  put_entry key r (x ∷ rest) =
      let later = put_entry key r rest in if str_eq x.key key then r ∷ rest else x ∷ later

  -- The new values, from the annotations of the FaSTPod; the errors of the parses are dropped.
  unfoldable pub new_entry : Strconv F → FastPod → FastPodReq F → FastPodReq F
  new_entry conv fp r = record r {
    qt_request = (conv.parse_float (get_text quota_request_name fp.annotations)).0;
    qt_limit = (conv.parse_float (get_text quota_limit_name fp.annotations)).0;
    sm_partition = (conv.atoi (get_text sm_partition_name fp.annotations)).0;
  }

module _ {F : Type 0} ⦃fl : Floats F⦄ where
  -- A pod that is listed, on its GPU; `update` tells whether the API server takes it.
  unfoldable pub reconfigure_entry :
      Strconv F
      → Rpc
      → (Pod → Bool)
      → FastPod
      → Manager F
      → Pod
      → Node F
      → GpuDevInfo F
      → FastPodReq F
      → Outcome (Reconfigured F)
  reconfigure_entry conv rpc update fp m p n g r =
      let g' = record g {
        fast_pod_list = put_entry (pod_key p) (new_entry conv fp r) g.fast_pod_list;
      } in
      let m' = put_node m p.node_name (put_gpu n (get_text vgpu_uuid_name p.annotations) g') in
      do
        told ← update_pods_gpu_config rpc m' p.node_name g.uuid (some g'.fast_pod_list)
        returns (record {
          manager = m';
          calls = told.1;
          sent = new_pod_annotations fp p ∷ [];
          failed = if update (new_pod_annotations fp p) then false else true;
        })

  -- `continue`
  abbrev pub passed_over : Manager F → Reconfigured F
  passed_over m = record { manager = m; calls = []; sent = []; failed = false }

  -- On a GPU that is known.
  unfoldable pub reconfigure_on :
      Strconv F
      → Rpc
      → (Pod → Bool)
      → FastPod
      → Manager F
      → Pod
      → Node F
      → GpuDevInfo F
      → Outcome (Reconfigured F)
  reconfigure_on conv rpc update fp m p n g = do
    found ← find_in_queue (pod_key p) (map fast_pod_value g.fast_pod_list)
    elim found [
      | none ↦ returns (passed_over m)
      | some r ↦
          if resource_validity_check conv p
          then reconfigure_entry conv rpc update fp m p n g r
          else returns (passed_over m)
    ]

  -- One round of the loop.
  unfoldable pub reconfigure_pod :
      Strconv F → Rpc → (Pod → Bool) → FastPod → Manager F → Pod → Outcome (Reconfigured F)
  reconfigure_pod conv rpc update fp m p = elim (lookup p.node_name m.nodes) [
    | none ↦ returns (passed_over m)
    | some n ↦ elim (lookup (get_text vgpu_uuid_name p.annotations) n.vgpu_id2_gpu) [
      | none ↦ returns (passed_over m)
      | some g ↦ reconfigure_on conv rpc update fp m p n g
    ]
  ]

  abbrev after_round : Reconfigured F → Reconfigured F → Reconfigured F
  after_round a b = record b { calls = a.calls ++ b.calls; sent = a.sent ++ b.sent }

  -- `reconcileResourceConfig`; an error of the API server ends the loop.
  unfoldable pub reconcile_resource_config :
      Strconv F → Rpc → (Pod → Bool) → FastPod → Manager F → List Pod → Outcome (Reconfigured F)
  reconcile_resource_config conv rpc update fp m [] = returns (passed_over m)
  reconcile_resource_config conv rpc update fp m (p ∷ rest) = do
    a ← reconfigure_pod conv rpc update fp m p
    elim a.failed [
      | true ↦ returns a
      | false ↦ (do
        b ← reconcile_resource_config conv rpc update fp a.manager rest
        returns (after_round a b))
    ]
