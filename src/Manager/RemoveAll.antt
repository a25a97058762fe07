-- ===== src/Manager/RemoveAll.antt =====
-- gpu_manager.go: `removeFaSTPodFromList`, when a FaSTPod is deleted. `list.Element.Next` of an
-- element that was removed is nil, so each loop ends at the first removal.
-- The pods are those that the lister returned.
use fa_st_gshare.Common.Int.{int64, ◌-ℤ◌}
use fa_st_gshare.Common.Dict.{lookup, erase}
use fa_st_gshare.Common.Float.{Floats, hundred}
use fa_st_gshare.Common.Outcome.{Outcome, returns, ◌>>=◌, deref}
use fa_st_gshare.Common.{
  ℕ, ◌==◌, length, not, ◌&&◌, ◌||◌, Bool, Option, none, some, List, [], ◌∷◌, ◌++◌, String,
  if◌then◌else◌,
}
use fa_st_gshare.Bitmap.{Bitmap}
use fa_st_gshare.Kube.{Pod, get_text, pod_key, vgpu_uuid_name, allocation_type_name}
use fa_st_gshare.Types.{
  AllocationType, mps, fast_pod, exclusive, none_type, get_allocation_type, is_fast_pod, is_mps,
  is_exclusive,
}
use fa_st_gshare.Proto.{Call, disable_mps, delete_pod, Rpc}
use fa_st_gshare.Manager.State.{FastPodReq, GpuDevInfo, Node, Manager, put_gpu, put_node}
use fa_st_gshare.Manager.Queue.{find_pod}
use fa_st_gshare.Manager.Config.{update_pods_gpu_config}
use fa_st_gshare.Manager.Remove.{
  Removed, TakenOff, free_port, remove_fast_pod, take_off_mps_pod, take_off_exclusive,
}

-- `(podlist != nil && podlist.Len() == 0 && type != Exclusive) || type == Exclusive`
abbrev pub was_last : AllocationType → Option ℕ → Bool
was_last type none = is_exclusive type
was_last type (some len) = (len == 0 && not (is_exclusive type)) || is_exclusive type

module _ {F : Type 0} ⦃fl : Floats F⦄ where
  -- `usage := (float64(SMPartition) / 100.0) * QtRequest`
  unfoldable pub freed_usage : FastPodReq F → F
  freed_usage r = fl.mul (fl.div (fl.of_int r.sm_partition) hundred) r.qt_request

  unfoldable pub drop_fast_pod : String → FastPodReq F → GpuDevInfo F → GpuDevInfo F
  drop_fast_pod key r g = record g {
    usage = fl.sub g.usage (freed_usage r);
    usage_mem = int64 (g.usage_mem -ℤ r.memory);
    fast_pod_list = remove_fast_pod key g.fast_pod_list;
  }

  -- The loop over the FastPod list.
  unfoldable pub drop_from_fast_pods : String → Bitmap → GpuDevInfo F → Bitmap × GpuDevInfo F
  drop_from_fast_pods key ports g = elim (find_pod key g.fast_pod_list) [
    | none ↦ (ports, g)
    | some r ↦ (free_port r ports, drop_fast_pod key r g)
  ]

  -- The three tests of the allocation type. The new FastPod list is sent whether or not a pod
  -- was removed.
  unfoldable pub drop_off :
      AllocationType
      → Rpc
      → Manager F
      → String
      → String
      → Bitmap
      → GpuDevInfo F
      → Outcome (TakenOff F)
  drop_off fast_pod rpc m name key ports g = do
    let (ports', g') = drop_from_fast_pods key ports g
    sent ← update_pods_gpu_config rpc m name g.uuid (some g'.fast_pod_list)
    returns (record {
      ports = ports';
      gpu = g';
      calls = sent.1;
      podlist = some (length g'.fast_pod_list);
    })
  drop_off mps rpc m name key ports g =
      let g' = take_off_mps_pod key g in
      returns
        (record { ports = ports; gpu = g'; calls = []; podlist = some (length g'.mps_pod_list) })
  drop_off exclusive rpc m name key ports g =
      returns (record { ports = ports; gpu = take_off_exclusive g; calls = []; podlist = none })
  drop_off none_type rpc m name key ports g =
      returns (record { ports = ports; gpu = g; calls = []; podlist = none })

  -- `DisableMPS`, whose error is only logged.
  unfoldable pub try_disable_mps :
      AllocationType → Rpc → Node F → GpuDevInfo F → Outcome (List (Call F))
  try_disable_mps type rpc n g =
      if is_fast_pod type || is_mps type
      then (do addr ← deref n.grpc_client; returns (disable_mps addr g.uuid ∷ []))
      else returns []

  -- The GPU without its last pod is forgotten; any other is written back.
  unfoldable pub settle :
      AllocationType → Rpc → Manager F → String → String → Node F → TakenOff F → Outcome (Removed F)
  settle type rpc m name id n t =
      let n' = record n { daemon_port_alloc = t.ports } in
      if was_last type t.podlist
      then (do
        disabled ← try_disable_mps type rpc n' t.gpu
        returns (record {
          manager = put_node m name (record n' { vgpu_id2_gpu = erase id n.vgpu_id2_gpu });
          calls = t.calls ++ disabled;
        }))
      else returns (record { manager = put_node m name (put_gpu n' id t.gpu); calls = t.calls })

  -- One pod on a GPU that is known: off the GPU's books, then deleted in the cluster.
  unfoldable pub remove_listed_pod :
      AllocationType
      → Rpc
      → String
      → Manager F
      → Pod
      → String
      → Node F
      → GpuDevInfo F
      → Outcome (Removed F)
  remove_listed_pod type rpc namespace m p id n g = do
    t ← drop_off type rpc m p.node_name (pod_key p) n.daemon_port_alloc g
    r ← settle type rpc m p.node_name id n t
    returns (record r { calls = r.calls ++ delete_pod namespace p.name ∷ [] })

  -- The body of the loop.
  unfoldable pub remove_one_pod :
      Rpc → (String → String) → String → Manager F → Pod → Outcome (Removed F)
  remove_one_pod rpc to_upper namespace m p =
      let id = get_text vgpu_uuid_name p.annotations in
      elim (lookup p.node_name m.nodes) [
        | none ↦ returns (record { manager = m; calls = [] })
        | some n ↦ elim (lookup id n.vgpu_id2_gpu) [
          | none ↦ returns (record { manager = m; calls = [] })
          | some g ↦
              remove_listed_pod
                (get_allocation_type to_upper (get_text allocation_type_name p.annotations)) rpc
                namespace m p id n g
        ]
      ]

  -- `removeFaSTPodFromList` on the pods that the lister returned.
  unfoldable pub remove_fast_pod_from_list :
      Rpc → (String → String) → String → Manager F → List Pod → Outcome (Removed F)
  remove_fast_pod_from_list rpc to_upper namespace m [] =
      returns (record { manager = m; calls = [] })
  remove_fast_pod_from_list rpc to_upper namespace m (p ∷ rest) = do
    first ← remove_one_pod rpc to_upper namespace m p
    later ← remove_fast_pod_from_list rpc to_upper namespace first.manager rest
    returns (record later { calls = first.calls ++ later.calls })
