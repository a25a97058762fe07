-- ===== src/Manager/Remove.antt =====
-- gpu_manager.go: `removePodFromList`, when a pod of a FaSTPod is scaled down. Its `podlist` stays
-- nil for a pod that is neither FastPod nor MPS, and `podlist.Len()` of a nil list panics.
use fa_st_gshare.Common.Int.{pos, int64, ◌-ℤ◌}
use fa_st_gshare.Common.Dict.{Dict, lookup, insert, erase}
use fa_st_gshare.Common.Float.{Floats, hundred, zero_float}
use fa_st_gshare.Common.Outcome.{Outcome, returns, ◌>>=◌, deref}
use fa_st_gshare.Common.{
  ℕ, ◌==◌, length, not, ◌&&◌, ◌||◌, Bool, Option, none, some, List, [], ◌∷◌, ◌++◌, String, str_eq,
  if◌then◌else◌,
}
use fa_st_gshare.Bitmap.{Bitmap, clear_at}
use fa_st_gshare.Kube.{Pod, get_text, pod_key, vgpu_uuid_name, allocation_type_name}
use fa_st_gshare.Types.{
  AllocationType, mps, fast_pod, exclusive, none_type, get_allocation_type, is_fast_pod, is_mps,
  is_exclusive,
}
use fa_st_gshare.Proto.{Call, disable_mps, release_virtual_gpu, Rpc, VirtualGpuMessage}
use fa_st_gshare.Manager.State.{
  FastPodReq, MpsPodReq, GpuDevInfo, Node, Manager, gpu_client_port_start, put_gpu, put_node,
}
use fa_st_gshare.Manager.Queue.{find_pod}
use fa_st_gshare.Manager.Config.{update_pods_gpu_config}

pub record Removed (F : Type 0) : Type 0 where
  pub manager : Manager F
  pub calls : List (Call F)

-- What the loops did to the node's ports and the GPU, with the calls that were made; `podlist` is
-- the length of the list at the end, `none` for the nil list.
pub record TakenOff (F : Type 0) : Type 0 where
  pub ports : Bitmap
  pub gpu : GpuDevInfo F
  pub calls : List (Call F)
  pub podlist : Option ℕ

-- `podlist.Remove` of the first entry with the key.
module _ {F : Type 0} where
  unfoldable pub remove_fast_pod : String → List (FastPodReq F) → List (FastPodReq F)
  remove_fast_pod key [] = []
  remove_fast_pod key (r ∷ rest) = if str_eq r.key key then rest else r ∷ remove_fast_pod key rest

  -- The port of a removed pod: `node.DaemonPortAlloc.Clear(port - GPUClientPortStart)`.
  unfoldable pub free_port : FastPodReq F → Bitmap → Bitmap
  free_port r ports = (clear_at ports (r.gpu_client_port -ℤ pos gpu_client_port_start)).0

unfoldable pub find_mps_pod : String → List MpsPodReq → Option MpsPodReq
find_mps_pod key [] = none
find_mps_pod key (r ∷ rest) = if str_eq r.key key then some r else find_mps_pod key rest

unfoldable pub remove_mps_pod : String → List MpsPodReq → List MpsPodReq
remove_mps_pod key [] = []
remove_mps_pod key (r ∷ rest) = if str_eq r.key key then rest else r ∷ remove_mps_pod key rest

abbrev pub listed_or : List VirtualGpuMessage → List VirtualGpuMessage → List VirtualGpuMessage
listed_or [] old = old
listed_or (v ∷ vs) old = v ∷ vs

-- `delete(fastPodToPhysicalGPUs[podKey], parent)`; deleting from a nil map does nothing.
abbrev pub forget_affinity : Dict (Dict Bool) → String → String → Dict (Dict Bool)
forget_affinity d key parent = elim (lookup key d) [
  | none ↦ d
  | some gpus ↦ insert key (erase parent gpus) d
]

-- `(podlist.Len() == 0 && type != Exclusive) || type == Exclusive`; `podlist.Len()` comes first.
unfoldable pub is_last : AllocationType → Option ℕ → Outcome Bool
is_last type podlist = do
  len ← deref podlist
  returns ((len == 0 && not (is_exclusive type)) || is_exclusive type)

module _ {F : Type 0} ⦃fl : Floats F⦄ where
  -- `podreq.QtRequest * (float64(podreq.SMPartition) / 100.0)`
  unfoldable pub pod_usage : FastPodReq F → F
  pod_usage r = fl.mul r.qt_request (fl.div (fl.of_int r.sm_partition) hundred)

  unfoldable pub without_fast_pod : String → FastPodReq F → GpuDevInfo F → GpuDevInfo F
  without_fast_pod key r g = record g {
    usage = fl.sub g.usage (pod_usage r);
    usage_mem = int64 (g.usage_mem -ℤ r.memory);
    fast_pod_list = remove_fast_pod key g.fast_pod_list;
  }

  -- The loop over the FastPod list: the first entry with the key goes, and the loop breaks.
  unfoldable pub take_off_fast_pod :
      Rpc → Manager F → String → String → Bitmap → GpuDevInfo F → Outcome (TakenOff F)
  take_off_fast_pod rpc m name key ports g = elim (find_pod key g.fast_pod_list) [
    | none ↦
        returns
          (record { ports = ports; gpu = g; calls = []; podlist = some (length g.fast_pod_list) })
    | some r ↦ (do
      let g' = without_fast_pod key r g
      sent ← update_pods_gpu_config rpc m name g.uuid (some g'.fast_pod_list)
      returns (record {
        ports = free_port r ports;
        gpu = g';
        calls = sent.1;
        podlist = some (length g'.fast_pod_list);
      }))
  ]

  -- The loop over the MPS list.
  unfoldable pub take_off_mps_pod : String → GpuDevInfo F → GpuDevInfo F
  take_off_mps_pod key g = elim (find_mps_pod key g.mps_pod_list) [
    | none ↦ g
    | some r ↦ record g {
      usage_mem = int64 (g.usage_mem -ℤ r.memory);
      mps_pod_list = remove_mps_pod key g.mps_pod_list;
    }
  ]

  unfoldable pub take_off_exclusive : GpuDevInfo F → GpuDevInfo F
  take_off_exclusive g = record g {
    exclusive_pod = none;
    usage = zero_float;
    usage_mem = pos 0;
    mem = pos 0;
  }

  -- The three tests of the allocation type. Only the first two set `podlist`.
  unfoldable pub take_off :
      AllocationType
      → Rpc
      → Manager F
      → String
      → String
      → Bitmap
      → GpuDevInfo F
      → Outcome (TakenOff F)
  take_off fast_pod rpc m name key ports g = take_off_fast_pod rpc m name key ports g
  take_off mps rpc m name key ports g =
      let g' = take_off_mps_pod key g in
      returns
        (record { ports = ports; gpu = g'; calls = []; podlist = some (length g'.mps_pod_list) })
  take_off exclusive rpc m name key ports g =
      returns (record { ports = ports; gpu = take_off_exclusive g; calls = []; podlist = none })
  take_off none_type rpc m name key ports g =
      returns (record { ports = ports; gpu = g; calls = []; podlist = none })

  -- `DisableMPS`: on an error the response is nil, and reading `resp.Success` panics.
  unfoldable pub disable_mps_for :
      AllocationType → Rpc → Node F → GpuDevInfo F → Outcome (List (Call F))
  disable_mps_for type rpc n g =
      if is_fast_pod type || is_mps type
      then (do
        addr ← deref n.grpc_client
        resp ← deref (rpc.on_disable_mps addr g.uuid)
        returns (disable_mps addr g.uuid ∷ []))
      else returns []

  -- `ReleaseVirtualGPU` of a virtual GPU: a non-empty answer replaces `node.vgpus`.
  unfoldable pub release_for : Rpc → Node F → GpuDevInfo F → Outcome (Node F × List (Call F))
  release_for rpc n g =
      if g.virtual
      then (do
        addr ← deref n.grpc_client
        resp ← deref (rpc.on_release_virtual_gpu addr g.uuid)
        returns (
          record n { vgpus = listed_or resp.available_virtual_gpus n.vgpus },
          release_virtual_gpu addr g.uuid ∷ [],
        ))
      else returns (n, [])

  -- The last pod of its type has left: MPS off, the GPU released and forgotten.
  unfoldable pub retire_gpu :
      AllocationType
      → Rpc
      → Manager F
      → String
      → String
      → String
      → Node F
      → GpuDevInfo F
      → List (Call F)
      → Outcome (Removed F)
  retire_gpu type rpc m name id key n g calls = do
    disabled ← disable_mps_for type rpc n g
    released ← release_for rpc n g
    let n' = record (released.0) { vgpu_id2_gpu = erase id n.vgpu_id2_gpu }
    returns (record {
      manager = record m {
        nodes = insert name n' m.nodes;
        fast_pod_to_physical_gpus = forget_affinity m.fast_pod_to_physical_gpus key g.parent_uuid;
      };
      calls = calls ++ disabled ++ released.1;
    })

  unfoldable pub remove_from_gpu :
      AllocationType
      → Rpc
      → Manager F
      → String
      → String
      → String
      → Node F
      → GpuDevInfo F
      → Outcome (Removed F)
  remove_from_gpu type rpc m name id key n g = do
    t ← take_off type rpc m name key n.daemon_port_alloc g
    last ← is_last type t.podlist
    let n' = record n { daemon_port_alloc = t.ports }
    if last
        then retire_gpu type rpc m name id key n' t.gpu t.calls
        else returns (record { manager = put_node m name (put_gpu n' id t.gpu); calls = t.calls })

  -- `removePodFromList`; its FaSTPod argument is only logged.
  unfoldable pub remove_pod_from_list :
      Rpc → (String → String) → Manager F → Pod → Outcome (Removed F)
  remove_pod_from_list rpc to_upper m p =
      let id = get_text vgpu_uuid_name p.annotations in
      elim (lookup p.node_name m.nodes) [
        | none ↦ returns (record { manager = m; calls = [] })
        | some n ↦ elim (lookup id n.vgpu_id2_gpu) [
          | none ↦ returns (record { manager = m; calls = [] })
          | some g ↦
              remove_from_gpu
                (get_allocation_type to_upper (get_text allocation_type_name p.annotations)) rpc m
                p.node_name id (pod_key p) n g
        ]
      ]
