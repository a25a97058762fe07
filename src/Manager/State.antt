-- ===== src/Manager/State.antt =====
-- internal/apps/fastpod-controller-manager: the data of gpu_manager.go, scheduler.go, new_pod.go
-- and config_manager.go. A `*list.List` is a list from its front; the GPU clients' fields
-- `UUID2SchedPort` and `UUID2GPUType`, which no operation reads, are kept.
use fa_st_gshare.Common.Int.{ℤ}
use fa_st_gshare.Common.Dict.{Dict, insert}
use fa_st_gshare.Common.{ℕ, Bool, String, Option, List}
use fa_st_gshare.Bitmap.{Bitmap}
use fa_st_gshare.Proto.{VirtualGpuMessage}
use fa_st_gshare.Types.{AllocationType}

pub record FastPodReq (F : Type 0) : Type 0 where
  pub key : String
  pub qt_request : F
  pub qt_limit : F
  pub sm_partition : ℤ
  pub memory : ℤ
  pub gpu_client_port : ℤ

pub record MpsPodReq : Type 0 where
  pub key : String
  pub memory : ℤ

pub record ExclusivePodReq : Type 0 where
  pub key : String

-- `GPUDevInfo`
pub record GpuDevInfo (F : Type 0) : Type 0 where
  pub virtual : Bool
  pub sm_count : ℤ
  pub allocation_type : AllocationType
  pub gpu_type : String
  pub uuid : String
  pub mem : ℤ
  pub name : String
  pub parent_uuid : String
  pub sm_percentage : ℤ
  pub usage : F
  pub usage_mem : ℤ
  pub fast_pod_list : List (FastPodReq F)
  pub mps_pod_list : List MpsPodReq
  pub exclusive_pod : Option ExclusivePodReq

pub record Node (F : Type 0) : Type 0 where
  pub gpu_num : ℤ
  pub daemon_ip : String
  pub uuid2_sched_port : Dict String
  pub uuid2_gpu_type : Dict String
  pub vgpu_id2_gpu : Dict (GpuDevInfo F)
  pub daemon_port_alloc : Bitmap
  pub vgpus : List VirtualGpuMessage
  -- the address of the client's connection; `none` is the nil client
  pub grpc_client : Option String
  pub host_name : String

pub data NodeStatus : Type 0 where
  node_ready node_not_ready : NodeStatus

-- `ConfigConn` is the number of a connection; `LastHeartbeat` is in nanoseconds, and 0 is the zero
-- time.
pub record NodeLiveness : Type 0 where
  pub config_conn : ℕ
  pub status : NodeStatus
  pub last_heartbeat : ℕ

-- The package's variables `nodes`, `nodesLiveness` and `fastPodToPhysicalGPUs`.
pub record Manager (F : Type 0) : Type 0 where
  pub nodes : Dict (Node F)
  pub nodes_liveness : Dict NodeLiveness
  pub fast_pod_to_physical_gpus : Dict (Dict Bool)

pub record FastPodRequirements (F : Type 0) : Type 0 where
  pub quota_req : F
  pub quota_limit : F
  pub sm_partition : ℤ

pub record ResourceRequest (F : Type 0) : Type 0 where
  pub pod_key : String
  pub allocation_type : AllocationType
  pub requested_node : Option String
  pub request_gpu_uuid : Option String
  pub requested_gpu_type : Option String
  pub sm_request : Option ℤ
  pub sm_percentage : Option ℤ
  pub memory : ℤ
  pub fast_pod_requirements : Option (FastPodRequirements F)

pub record SelectionResult : Type 0 where
  pub fast_pod_key : String
  pub node_name : String
  pub vgpu_uuid : String

-- `FastPodMPSConfig` and `MPSConfig`
pub record FastPodMpsConfig : Type 0 where
  pub scheduler_ip : String
  pub gpu_client_port : ℤ
  pub active_thread_percentage : ℤ

pub record MpsConfig : Type 0 where
  pub log_directory : String
  pub pipe_directory : String
  pub fast_pod_mps_config : Option FastPodMpsConfig

-- `Allocation`; its node is named by the key of `nodes`.
pub record Allocation : Type 0 where
  pub uuid : String
  pub node : String
  pub mps_config : Option MpsConfig

-- `GPUClientPortStart` and `PortRange`
abbrev pub gpu_client_port_start : ℕ
gpu_client_port_start = 56001

abbrev pub port_range : ℕ
port_range = 1024

module _ {F : Type 0} where
  -- The write through `nodes[name]` and `node.vGPUID2GPU[id]`, which hold pointers.
  abbrev pub put_gpu : Node F → String → GpuDevInfo F → Node F
  put_gpu n id g = record n { vgpu_id2_gpu = insert id g n.vgpu_id2_gpu }

  abbrev pub put_node : Manager F → String → Node F → Manager F
  put_node m name n = record m { nodes = insert name n m.nodes }
