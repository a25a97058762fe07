-- ===== src/Manager/Request.antt =====
-- gpu_manager.go: `RequestGPUAndUpdateConfig`, which books a pod on the GPU that was selected.
-- The error codes are the source's. What was written before an error stays written.
use fa_st_gshare.Common.Int.{ℤ, pos, negsuc, int64, ◌+ℤ◌, ltb_ℤ, eqb_ℤ}
use fa_st_gshare.Common.Dict.{lookup}
use fa_st_gshare.Common.Float.{Floats, one, hundred}
use fa_st_gshare.Common.Outcome.{Outcome, returns, ◌>>=◌, deref}
use fa_st_gshare.Common.{
  ℕ, ◌||◌, Option, none, some, List, [], ◌∷◌, ◌++◌, map, String, if◌then◌else◌,
}
use fa_st_gshare.Bitmap.{Bitmap, find_first_unset_and_set}
use fa_st_gshare.Types.{
  AllocationType, mps, fast_pod, exclusive, none_type, is_mps, is_fast_pod, is_none_type,
}
use fa_st_gshare.Proto.{Call, enable_mps, Rpc}
use fa_st_gshare.Manager.State.{
  FastPodReq, GpuDevInfo, Node, Manager, FastPodRequirements, ResourceRequest, SelectionResult,
  MpsConfig, Allocation, gpu_client_port_start, put_gpu, put_node,
}
use fa_st_gshare.Manager.Queue.{ListValue, find_in_queue, fast_pod_value, mps_pod_value}
use fa_st_gshare.Manager.Config.{update_pods_gpu_config}

-- What the call returns: the allocation and the error code, with the new state and the calls.
pub record Requested (F : Type 0) : Type 0 where
  pub manager : Manager F
  pub allocation : Option Allocation
  pub code : ℕ
  pub calls : List (Call F)

-- How a pod is placed on a GPU: refused with a code, or with the new node and GPU and its port.
pub data Placed (F : Type 0) : Type 0 where
  refused : ℕ → Placed F
  placed : Bitmap → GpuDevInfo F → ℤ → Placed F

module _ {F : Type 0} ⦃fl : Floats F⦄ where
  -- `if gpuInfo.allocationType == None { gpuInfo.allocationType = request.AllocationType }`
  unfoldable pub claim_type : ResourceRequest F → GpuDevInfo F → GpuDevInfo F
  claim_type req g =
      if is_none_type g.allocation_type
      then record g { allocation_type = req.allocation_type }
      else g

  -- `EnableMPS` on a GPU of type MPS or FastPod. On an error the response is nil, and reading
  -- `res.Success` panics.
  unfoldable pub enable_mps_for :
      Rpc → Node F → GpuDevInfo F → Outcome (Option MpsConfig × List (Call F))
  enable_mps_for rpc n g =
      if is_mps g.allocation_type || is_fast_pod g.allocation_type
      then (do
        addr ← deref n.grpc_client
        res ← deref (rpc.on_enable_mps addr g.uuid)
        config ← deref res.mps_config
        returns (
          some (record {
            log_directory = config.log_path;
            pipe_directory = config.tmp_path;
            fast_pod_mps_config = none;
          }),
          enable_mps addr g.uuid ∷ [],
        ))
      else returns (none, [])

  -- The GPU with a new entry in its MPS list.
  unfoldable pub with_mps_pod : ResourceRequest F → String → GpuDevInfo F → GpuDevInfo F
  with_mps_pod req key g = record g {
    usage_mem = int64 (g.usage_mem +ℤ req.memory);
    mps_pod_list = g.mps_pod_list ++ record { key = key; memory = req.memory } ∷ [];
  }

  -- The branch of an MPS request.
  unfoldable pub place_mps : ResourceRequest F → String → Bitmap → GpuDevInfo F → Outcome (Placed F)
  place_mps req key ports g = do
    let queue : List (ListValue F) = map mps_pod_value g.mps_pod_list
    found ← find_in_queue key queue
    elim found [
      | some r ↦ returns (placed ports g (pos 0))
      | none ↦
          if ltb_ℤ g.mem (int64 (g.usage_mem +ℤ req.memory))
          then returns (refused 4)
          else returns (placed ports (with_mps_pod req key g) (pos 0))
    ]

  -- The branch of an exclusive request.
  unfoldable pub place_exclusive : String → Bitmap → GpuDevInfo F → Placed F
  place_exclusive key ports g =
      placed ports (record g { exclusive_pod = some (record { key = key }) }) (pos 0)

  -- `gpuInfo.Usage + requestedQuota*requestedSM`
  unfoldable pub new_usage : FastPodRequirements F → GpuDevInfo F → F
  new_usage r g = fl.add g.usage (fl.mul r.quota_req (fl.div (fl.of_int r.sm_partition) hundred))

  -- The new list entry, and the GPU with it.
  abbrev pub pod_entry : ResourceRequest F → FastPodRequirements F → String → ℤ → FastPodReq F
  pod_entry req r key port = record {
    key = key;
    qt_request = r.quota_req;
    qt_limit = r.quota_limit;
    sm_partition = r.sm_partition;
    memory = req.memory;
    gpu_client_port = port;
  }

  unfoldable pub with_pod :
      ResourceRequest F → FastPodRequirements F → String → ℤ → GpuDevInfo F → GpuDevInfo F
  with_pod req r key port g = record g {
    usage = new_usage r g;
    usage_mem = int64 (g.usage_mem +ℤ req.memory);
    fast_pod_list = g.fast_pod_list ++ pod_entry req r key port ∷ [];
  }

  -- `newPort != -1`, and the port of the client.
  unfoldable pub place_on_port :
      ResourceRequest F → FastPodRequirements F → String → GpuDevInfo F → Bitmap × ℤ → Placed F
  place_on_port req r key g (ports, new_port) =
      let port = new_port +ℤ pos gpu_client_port_start in
      if eqb_ℤ new_port (negsuc 0) then refused 5 else placed ports (with_pod req r key port g) port

  -- A FastPod that is not in the list yet.
  unfoldable pub place_new_fast_pod :
      ResourceRequest F → FastPodRequirements F → String → Bitmap → GpuDevInfo F → Placed F
  place_new_fast_pod req r key ports g =
      if fl.gt (new_usage r g) one
      then refused 3
      else if ltb_ℤ g.mem (int64 (g.usage_mem +ℤ req.memory))
      then refused 4
      else place_on_port req r key g (find_first_unset_and_set ports)

  -- The last branch: a FastPod, or a request of no type. A pod that is listed keeps its port.
  unfoldable pub place_fast_pod :
      ResourceRequest F → String → Bitmap → GpuDevInfo F → Outcome (Placed F)
  place_fast_pod req key ports g = do
    found ← find_in_queue key (map fast_pod_value g.fast_pod_list)
    elim found [
      | some pod ↦ returns (placed ports g pod.gpu_client_port)
      | none ↦ (do
        r ← deref req.fast_pod_requirements
        returns (place_new_fast_pod req r key ports g))
    ]

  unfoldable pub place :
      AllocationType → ResourceRequest F → String → Bitmap → GpuDevInfo F → Outcome (Placed F)
  place mps req key ports g = place_mps req key ports g
  place exclusive req key ports g = returns (place_exclusive key ports g)
  place fast_pod req key ports g = place_fast_pod req key ports g
  place none_type req key ports g = place_fast_pod req key ports g

  -- The end of the last branch: send the new list, and fill in the FastPod part of the config.
  unfoldable pub answer_fast_pod :
      Rpc
      → Manager F
      → SelectionResult
      → ResourceRequest F
      → Node F
      → GpuDevInfo F
      → ℤ
      → Option MpsConfig
      → List (Call F)
      → Outcome (Requested F)
  answer_fast_pod rpc m sel req n g port config calls = do
    sent ←
        if is_fast_pod req.allocation_type
        then update_pods_gpu_config rpc m sel.node_name g.uuid (some g.fast_pod_list)
        else returns (none, [])
    r ← deref req.fast_pod_requirements
    c ← deref config
    returns (record {
      manager = m;
      allocation = some (record {
        uuid = g.uuid;
        node = sel.node_name;
        mps_config = some (record c {
          fast_pod_mps_config = some (record {
            scheduler_ip = n.daemon_ip;
            gpu_client_port = port;
            active_thread_percentage = r.sm_partition;
          });
        });
      });
      code = 0;
      calls = calls ++ sent.1;
    })

  unfoldable pub answer :
      AllocationType
      → Rpc
      → Manager F
      → SelectionResult
      → ResourceRequest F
      → Node F
      → GpuDevInfo F
      → ℤ
      → Option MpsConfig
      → List (Call F)
      → Outcome (Requested F)
  answer mps rpc m sel req n g port config calls = returns (record {
    manager = m;
    allocation = some (record { uuid = g.uuid; node = sel.node_name; mps_config = config });
    code = 0;
    calls = calls;
  })
  answer exclusive rpc m sel req n g port config calls = returns (record {
    manager = m;
    allocation = some (record { uuid = g.uuid; node = sel.node_name; mps_config = none });
    code = 0;
    calls = calls;
  })
  answer fast_pod rpc m sel req n g port config calls =
      answer_fast_pod rpc m sel req n g port config calls
  answer none_type rpc m sel req n g port config calls =
      answer_fast_pod rpc m sel req n g port config calls

  -- The state after the node's ports and one of its GPUs changed.
  abbrev pub book : Manager F → SelectionResult → Node F → Bitmap → GpuDevInfo F → Manager F
  book m sel n ports g =
      put_node m sel.node_name (put_gpu (record n { daemon_port_alloc = ports }) sel.vgpu_uuid g)

  unfoldable pub finish :
      Rpc
      → Manager F
      → SelectionResult
      → ResourceRequest F
      → Node F
      → GpuDevInfo F
      → Option MpsConfig
      → List (Call F)
      → Placed F
      → Outcome (Requested F)
  finish rpc m sel req n g config calls (refused c) = returns (record {
    manager = book m sel n n.daemon_port_alloc g;
    allocation = none;
    code = c;
    calls = calls;
  })
  finish rpc m sel req n g config calls (placed ports g' port) =
      answer req.allocation_type rpc (book m sel n ports g') sel req n g' port config calls

  -- On a GPU that was found, its type claimed.
  unfoldable pub request_on :
      Rpc
      → Manager F
      → SelectionResult
      → ResourceRequest F
      → String
      → Node F
      → GpuDevInfo F
      → Outcome (Requested F)
  request_on rpc m sel req key n g = do
    enabled ← enable_mps_for rpc n g
    p ← place req.allocation_type req key n.daemon_port_alloc g
    finish rpc m sel req n g enabled.0 enabled.1 p

  abbrev failed : Manager F → ℕ → Requested F
  failed m c = record { manager = m; allocation = none; code = c; calls = [] }

  -- `RequestGPUAndUpdateConfig`
  unfoldable pub request_gpu_and_update_config :
      Rpc → Manager F → SelectionResult → ResourceRequest F → String → Outcome (Requested F)
  request_gpu_and_update_config rpc m sel req key = elim (lookup sel.node_name m.nodes) [
    | none ↦ returns (failed m 2)
    | some n ↦ elim (lookup sel.vgpu_uuid n.vgpu_id2_gpu) [
      | none ↦ returns (failed m 3)
      | some g ↦ request_on rpc m sel req key n (claim_type req g)
    ]
  ]
