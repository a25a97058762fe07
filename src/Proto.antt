-- ===== src/Proto.antt =====
-- pkg/proto/seti/v1/configurator.proto: the messages between the controller manager and the
-- configurator of a node. The Go code of them is generated; a pointer field is an `Option`.
use fa_st_gshare.Common.Int.{ℤ}
use fa_st_gshare.Common.{ℕ, Bool, String, Option, List}

pub record MpsConfigMessage : Type 0 where
  pub device_uuid : String
  pub log_path : String
  pub tmp_path : String

pub record GpuMessage : Type 0 where
  pub uuid : String
  pub name : String
  pub memory_bytes : ℕ
  pub multiprocessor_count : ℤ
  pub parent_device_index : ℤ
  pub parent_uuid : String
  pub mps_enabled : Bool
  pub mps_config : Option MpsConfigMessage

pub record VirtualGpuMessage : Type 0 where
  pub id : String
  pub device_index : ℤ
  pub memory_bytes : ℕ
  pub multiprocessor_count : ℤ
  pub is_provisioned : Bool
  pub profileid : Option ℕ
  pub provisioned_gpu : Option GpuMessage
  pub is_physical : Bool
  pub physical_gpu_type : String
  pub sm_percentage : ℤ

pub record EnableMpsResponse : Type 0 where
  pub success : Bool
  pub mps_config : Option MpsConfigMessage

pub record DisableMpsResponse : Type 0 where
  pub success : Bool

pub record ReleaseVirtualGpuResponse : Type 0 where
  pub success : Bool
  pub available_virtual_gpus : List VirtualGpuMessage

pub record GetGpuResponse : Type 0 where
  pub provisioned_gpu : Option VirtualGpuMessage

-- `FastPodGPUConfig`, one pod of an `UpdateMPSConfigsRequest`.
pub record FastPodGpuConfig (F : Type 0) : Type 0 where
  pub key : String
  pub qt_request : F
  pub qt_limit : F
  pub sm_partition : ℤ
  pub memory : ℤ
  pub gpu_client_port : ℤ

-- A call of a configurator by the address that the client dialled.
pub data Call (F : Type 0) : Type 0 where
  get_gpu : String → String → Call F
  enable_mps : String → String → Call F
  disable_mps : String → String → Call F
  release_virtual_gpu : String → String → Call F
  update_mps_configs : String → String → List (FastPodGpuConfig F) → Call F
  -- the Kubernetes API: namespace and name
  delete_pod : String → String → Call F

-- The answers of the configurators during one handler, by address and device: `none` is an error,
-- and then the client returns no response (pkg/grpcclient/client.go).
pub record Rpc : Type 0 where
  pub on_get_gpu : String → String → Option GetGpuResponse
  pub on_enable_mps : String → String → Option EnableMpsResponse
  pub on_disable_mps : String → String → Option DisableMpsResponse
  pub on_release_virtual_gpu : String → String → Option ReleaseVirtualGpuResponse
  pub on_update_mps_configs : String → String → Bool
