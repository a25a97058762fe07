-- ===== src/Configurator/DiscoveryTests.antt =====
-- A configurator with one whole GPU, and one that can create a GPU instance.
use fa_st_gshare.Common.Int.{pos}
use fa_st_gshare.Common.Outcome.{returns}
use fa_st_gshare.Common.{◌≡◌, refl, true, false, none, some, [], ◌∷◌, str_eq, inr}
use fa_st_gshare.Configurator.Mps.{
  System, not_exist, setup_mps_environment, is_mps_daemon_running, start_mps_daemon,
  create_directories_fails, get_pipe_dir, get_log_dir,
}
use fa_st_gshare.Configurator.Resource.{
  VirtualGpu, Nvml, access, access_instance, access_marked, describe, find_virtual_gpu,
}
use fa_st_gshare.Configurator.Server.{disable_mps_handler, map_to_seti_virtual_gpu, map_to_seti_gpu}
use fa_st_gshare.Configurator.Devices.{
  Strings, Device, mig_disabled, mig_enabled, creatable_gpus, unprovisioned_gpus, unprovisioned_gpu,
  percent_of, get_sm_count, sm_map,
}
use fa_st_gshare.Configurator.Discovery.{
  get_available_virtual_resources, discover_devices, discover_device, describe_device,
  discover_by_mode, discover_counted, discover_mig, find_mig_devices, with_creatable,
}
use fa_st_gshare.Configurator.Handlers.{
  ResourceManager, refresh, RequestVirtualGpu, RequestedGpu, request_virtual_gpu, request_found,
  find_requested, provision, answer_request, mps_copy, write_found, response_of,
}
use fa_st_gshare.Configurator.Operations.{start, requests, run_operation, Reach-operation}
use fa_st_gshare.Configurator.HandlerSafety.{Runs}
use fa_st_gshare.Configurator.ServerFlags.{request_virtual_gpu-server, refresh-disable}

abbrev str : Strings
str = record { to_lower = λ s. s; contains = λ s part. str_eq s part; show = λ n. "0" }

abbrev sys : System
sys = record {
  stat_before = λ path. not_exist;
  stat_after = λ path. not_exist;
  mkdir_fails = λ path. false;
  start_fails = λ device. false;
  quit_fails = λ device. false;
}

abbrev nvml : Nvml
nvml = record {
  device_handle_fails = false;
  new_gpu_instance = some 3;
  gpu_instance_info_fails = false;
  compute_profile_fails = false;
  new_compute_instance = some 4;
  compute_instance_info_fails = false;
  device_index_fails = false;
  mig_device_fails = false;
  mig_name = some "MIG 1g";
  mig_uuid = some "MIG-1";
  parent_uuid = some "GPU-1";
  memory_total = some 4096;
  destroy_compute_fails = false;
  destroy_gpu_fails = false;
}

abbrev whole : Device
whole = record {
  name = some "t1000";
  uuid = some "GPU-1";
  memory_total = some 8192;
  mig_mode = mig_disabled;
  mig_devices = none;
  profiles = none;
  remaining_capacity = λ id. none;
}

abbrev sliced : Device
sliced = record {
  name = some "a100";
  uuid = some "GPU-1";
  memory_total = some 8192;
  mig_mode = mig_enabled;
  mig_devices = some [];
  profiles = some (record { id = 19; multiprocessor_count = 14; memory_size_mb = 4864 } ∷ []);
  remaining_capacity = λ id. some 1;
}

-- 14 of 108 multiprocessors are 13 percent.
abbrev slice : VirtualGpu
slice = record {
  name = "a100-mig-profile-0";
  id = "vgpu-0-profile0-0";
  device_index = pos 0;
  memory_bytes = 5100273664;
  multi_processor_count = pos 14;
  is_provisioned = false;
  mig = some (record { gpu_instance = none; compute_instance = none; profile_id = 19 });
  provisioned_gpu = none;
  physical = false;
  physical_gpu_type = "a100";
  sm_percentage = pos 13;
}

abbrev fresh : ResourceManager
fresh = record { virtual_gpus = slice ∷ []; provisioned_gpus = [] }

discovers :
    refresh str (sliced ∷ []) (record { virtual_gpus = []; provisioned_gpus = [] }) ≡ returns fresh
unfolding refresh get_available_virtual_resources discover_devices discover_device describe_device
    discover_by_mode discover_counted discover_mig find_mig_devices with_creatable creatable_gpus
    unprovisioned_gpus unprovisioned_gpu percent_of get_sm_count sm_map
discovers = refl

Reach-operation_example : Runs (
    run_operation str
      (sliced ∷ [])
      nvml
      sys
      fresh
      (requests (record { profileid = some 19; device_uuid = none; use_mps = true })))
Reach-operation_example =
    Reach-operation str (sliced ∷ []) nvml sys
      (requests (record { profileid = some 19; device_uuid = none; use_mps = true }))
      (start str (sliced ∷ []) discovers)

-- The slice once it is provisioned.
abbrev provisioned : VirtualGpu
provisioned = record slice {
  is_provisioned = true;
  mig = some (record { gpu_instance = some 3; compute_instance = some 4; profile_id = 19 });
  provisioned_gpu = some (record {
    uuid = "MIG-1";
    name = "MIG 1g";
    memory_bytes = 4096;
    multi_processor_count = pos 14;
    parent_device_index = pos 0;
    parent_uuid = "GPU-1";
    mps_server = record { uuid = "MIG-1"; name = "MIG 1g"; is_enabled = false };
  });
}

abbrev granted : RequestedGpu
granted = record {
  manager = record fresh { provisioned_gpus = ("MIG-1", provisioned) ∷ [] };
  response = some (response_of provisioned (slice ∷ []));
  server = some (record { uuid = "MIG-1"; name = "MIG 1g"; is_enabled = true });
}

abbrev asked : RequestVirtualGpu
asked = record { profileid = some 19; device_uuid = none; use_mps = true }

grants : request_virtual_gpu str (sliced ∷ []) nvml sys fresh asked ≡ returns granted
unfolding request_virtual_gpu request_found find_requested find_virtual_gpu provision access
    access_instance access_marked describe write_found answer_request mps_copy refresh
    get_available_virtual_resources discover_devices discover_device describe_device
    discover_by_mode discover_counted discover_mig find_mig_devices with_creatable creatable_gpus
    unprovisioned_gpus unprovisioned_gpu percent_of get_sm_count sm_map setup_mps_environment
    is_mps_daemon_running start_mps_daemon create_directories_fails get_pipe_dir get_log_dir
    map_to_seti_virtual_gpu map_to_seti_gpu
grants = refl

request_virtual_gpu-server_example :
    request_virtual_gpu str (sliced ∷ []) nvml sys fresh (record asked { use_mps = false })
    ≡ returns (record granted { server = none })
request_virtual_gpu-server_example =
    request_virtual_gpu-server str (sliced ∷ []) nvml sys fresh asked grants

refresh-disable_example :
    (rm' : ResourceManager) × (refresh str
        (whole ∷ [])
        (record { virtual_gpus = []; provisioned_gpus = [] })
      ≡ returns rm')
    × (disable_mps_handler sys rm'.provisioned_gpus "GPU-1"
        ≡ returns (record {
          gpus = rm'.provisioned_gpus;
          response = record { success = true };
          failed = false;
        }))
refresh-disable_example =
    refresh-disable str sys (record { virtual_gpus = []; provisioned_gpus = [] }) whole "t1000"
      "GPU-1" 8192 refl refl refl (inr refl)
