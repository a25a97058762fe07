-- ===== src/Configurator/Server.antt =====
-- server_methods.go: the messages that describe GPUs, and the handlers of `EnableMPS`, `DisableMPS`
-- and `GetGPU` over the map `provisionedGPUs`.
use fa_st_gshare.Common.Int.{int32}
use fa_st_gshare.Common.Dict.{Dict, lookup, insert}
use fa_st_gshare.Common.Outcome.{Outcome, returns, ◌>>=◌, deref}
use fa_st_gshare.Common.{ℕ, Bool, true, false, Option, none, some, String, if◌then◌else◌}
use fa_st_gshare.Proto.{
  MpsConfigMessage, GpuMessage, VirtualGpuMessage, EnableMpsResponse, DisableMpsResponse,
  GetGpuResponse,
}
use fa_st_gshare.Configurator.Mps.{
  MpsServer, System, MpsError, get_log_dir, get_pipe_dir, setup_mps_environment, stop_mps_daemon,
}
use fa_st_gshare.Configurator.Resource.{MigProperties, Gpu, VirtualGpu}

abbrev pub mps_config_of : String → MpsServer → MpsConfigMessage
mps_config_of uuid s = record {
  device_uuid = uuid;
  log_path = get_log_dir s.uuid;
  tmp_path = get_pipe_dir s.uuid;
}

-- `mapToSetiGPU` of a GPU that is not nil.
unfoldable pub map_to_seti_gpu : Gpu → GpuMessage
map_to_seti_gpu g = record {
  uuid = g.uuid;
  name = g.name;
  memory_bytes = g.memory_bytes;
  multiprocessor_count = int32 g.multi_processor_count;
  parent_device_index = int32 g.parent_device_index;
  parent_uuid = g.parent_uuid;
  mps_enabled = g.mps_server.is_enabled;
  mps_config = some (mps_config_of g.uuid g.mps_server);
}

abbrev pub map_gpu : Option Gpu → Option GpuMessage
map_gpu none = none
map_gpu (some g) = some (map_to_seti_gpu g)

abbrev profile_of : Option MigProperties → Option ℕ
profile_of none = none
profile_of (some m) = some m.profile_id

-- `mapToSetiVirtualGPU` of a virtual GPU that is not nil. `IsPhysical` is not set, so it is false.
unfoldable pub map_to_seti_virtual_gpu : VirtualGpu → VirtualGpuMessage
map_to_seti_virtual_gpu v = record {
  id = v.id;
  device_index = int32 v.device_index;
  memory_bytes = v.memory_bytes;
  multiprocessor_count = int32 v.multi_processor_count;
  is_provisioned = v.is_provisioned;
  profileid = profile_of v.mig;
  provisioned_gpu = map_gpu v.provisioned_gpu;
  is_physical = false;
  physical_gpu_type = v.physical_gpu_type;
  sm_percentage = int32 v.sm_percentage;
}

-- The new `provisionedGPUs`, the response, and whether the error is not nil.
pub record Handled (R : Type 0) : Type 0 where
  pub gpus : Dict VirtualGpu
  pub response : R
  pub failed : Bool

-- The write through the pointers of the map.
abbrev pub put_server : Dict VirtualGpu → String → VirtualGpu → Gpu → MpsServer → Dict VirtualGpu
put_server gpus uuid v g s =
    insert uuid (record v { provisioned_gpu = some (record g { mps_server = s }) }) gpus

abbrev enabled_response : String → MpsServer → EnableMpsResponse
enabled_response uuid s = record { success = true; mps_config = some (mps_config_of uuid s) }

abbrev pub enabled_gpu :
    Dict VirtualGpu
    → String
    → VirtualGpu
    → Gpu
    → MpsServer × Option MpsError
    → Handled EnableMpsResponse
enabled_gpu gpus uuid v g (s, none) =
    let s' = record s { is_enabled = true } in
    record {
      gpus = put_server gpus uuid v g s';
      response = enabled_response uuid s';
      failed = false;
    }
enabled_gpu gpus uuid v g (s, some e) = record {
  gpus = put_server gpus uuid v g s;
  response = record { success = false; mps_config = none };
  failed = true;
}

unfoldable pub enable_mps_on :
    System → Dict VirtualGpu → String → VirtualGpu → Gpu → Handled EnableMpsResponse
enable_mps_on sys gpus uuid v g =
    if g.mps_server.is_enabled
    then record { gpus = gpus; response = enabled_response uuid g.mps_server; failed = false }
    else enabled_gpu gpus uuid v g (setup_mps_environment sys g.mps_server)

-- `EnableMPS`; a virtual GPU of the map without a GPU panics.
unfoldable pub enable_mps_handler :
    System → Dict VirtualGpu → String → Outcome (Handled EnableMpsResponse)
enable_mps_handler sys gpus uuid = elim (lookup uuid gpus) [
  | none ↦ returns (record {
    gpus = gpus;
    response = record { success = false; mps_config = none };
    failed = true;
  })
  | some v ↦ (do g ← deref v.provisioned_gpu; returns (enable_mps_on sys gpus uuid v g))
]

abbrev pub disabled_gpu :
    Dict VirtualGpu
    → String
    → VirtualGpu
    → Gpu
    → MpsServer × Option MpsError
    → Handled DisableMpsResponse
disabled_gpu gpus uuid v g (s, none) = record {
  gpus = put_server gpus uuid v g (record s { is_enabled = false });
  response = record { success = true };
  failed = false;
}
disabled_gpu gpus uuid v g (s, some e) = record {
  gpus = put_server gpus uuid v g s;
  response = record { success = false };
  failed = false;
}

unfoldable pub disable_mps_on :
    System → Dict VirtualGpu → String → VirtualGpu → Gpu → Handled DisableMpsResponse
disable_mps_on sys gpus uuid v g =
    if g.mps_server.is_enabled
    then disabled_gpu gpus uuid v g (stop_mps_daemon sys g.mps_server)
    else record { gpus = gpus; response = record { success = true }; failed = false }

-- `DisableMPS`: its error is always nil.
unfoldable pub disable_mps_handler :
    System → Dict VirtualGpu → String → Outcome (Handled DisableMpsResponse)
disable_mps_handler sys gpus uuid = elim (lookup uuid gpus) [
  | none ↦ returns (record { gpus = gpus; response = record { success = false }; failed = false })
  | some v ↦ (do g ← deref v.provisioned_gpu; returns (disable_mps_on sys gpus uuid v g))
]

-- `GetGPU`; `none` is an error.
unfoldable pub get_gpu_handler : Dict VirtualGpu → String → Option GetGpuResponse
get_gpu_handler gpus uuid = elim (lookup uuid gpus) [
  | none ↦ none
  | some v ↦ some (record { provisioned_gpu = some (map_to_seti_virtual_gpu v) })
]
