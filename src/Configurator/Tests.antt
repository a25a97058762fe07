-- ===== src/Configurator/Tests.antt =====
-- The configurator's theorems at a concrete virtual GPU.
use fa_st_gshare.Common.Int.{pos}
use fa_st_gshare.Common.Dict.{Dict, lookup}
use fa_st_gshare.Common.Float.{Floats}
use fa_st_gshare.Manager.Schedule.{selected_gpu, new_gpu_dev_info}
use fa_st_gshare.Common.Outcome.{returns}
use fa_st_gshare.Common.{ℕ, ◌≡◌, refl, true, false, none, some, [], ◌∷◌}
use fa_st_gshare.Proto.{EnableMpsResponse, DisableMpsResponse}
use fa_st_gshare.Configurator.Mps.{MpsServer, System, not_exist}
use fa_st_gshare.Configurator.Resource.{
  MigProperties, Gpu, VirtualGpu, Nvml, Accessed, Released, access, access_instance, access_marked,
  describe, created_gpu_instance, created_compute_instance, release,
}
use fa_st_gshare.Configurator.ResourceLaws.{
  AccessOk, access-AccessOk, access_after_failure, release_lem,
}
use fa_st_gshare.Configurator.Server.{
  get_gpu_handler, map_to_seti_virtual_gpu, map_to_seti_gpu, Handled, enable_mps_handler,
  disable_mps_handler,
}
use fa_st_gshare.Configurator.ServerLaws.{
  described_gpu-virtual, enabled_at, enable_mps_handler-enabled, disable_mps_handler-disabled,
}

-- No daemon runs, and no call of the operating system fails.
abbrev system : System
system = record {
  stat_before = λ path. not_exist;
  stat_after = λ path. not_exist;
  mkdir_fails = λ path. false;
  start_fails = λ uuid. false;
  quit_fails = λ uuid. false;
}

abbrev server : MpsServer
server = record { uuid = "MIG-1"; name = "A100"; is_enabled = false }

abbrev properties : MigProperties
properties = record { gpu_instance = none; compute_instance = none; profile_id = 19 }

-- A slice of a GPU that is not provisioned yet.
abbrev slice : VirtualGpu
slice = record {
  name = "A100-mig-profile-19";
  id = "vgpu-0-profile19-0";
  device_index = pos 0;
  memory_bytes = 100;
  multi_processor_count = pos 14;
  is_provisioned = false;
  mig = some properties;
  provisioned_gpu = none;
  physical = false;
  physical_gpu_type = "A100";
  sm_percentage = pos 14;
}

abbrev nvml : Nvml
nvml = record {
  device_handle_fails = false;
  new_gpu_instance = some 7;
  gpu_instance_info_fails = false;
  compute_profile_fails = false;
  new_compute_instance = some 3;
  compute_instance_info_fails = false;
  device_index_fails = false;
  mig_device_fails = false;
  mig_name = some "A100";
  mig_uuid = some "MIG-1";
  parent_uuid = some "GPU-1";
  memory_total = some 100;
  destroy_compute_fails = false;
  destroy_gpu_fails = false;
}

abbrev gpu : Gpu
gpu = record {
  uuid = "MIG-1";
  name = "A100";
  memory_bytes = 100;
  multi_processor_count = pos 14;
  parent_device_index = pos 0;
  parent_uuid = "GPU-1";
  mps_server = server;
}

abbrev made : MigProperties
made = record properties { gpu_instance = some 7; compute_instance = some 3 }

abbrev ready : VirtualGpu
ready = record slice { is_provisioned = true; mig = some made; provisioned_gpu = some gpu }

abbrev accessed : Accessed
accessed = record {
  vgpu = ready;
  failed = false;
  calls = created_gpu_instance 7 ∷ created_compute_instance 3 ∷ [];
  entered = some "MIG-1";
}

slice_provisioned : access nvml slice ≡ returns accessed
unfolding access access_instance access_marked describe
slice_provisioned = refl

access-AccessOk_example : AccessOk nvml accessed
access-AccessOk_example = access-AccessOk nvml slice refl slice_provisioned

abbrev losing : Nvml
losing = record nvml { compute_instance_info_fails = true }

access_after_failure_example :
    (r : Accessed) × (access losing slice ≡ returns r)
    × (r.failed ≡ true)
    × (r.vgpu.provisioned_gpu ≡ none)
    × ((r' : Accessed) × (access losing r.vgpu ≡ returns r') × (r'.failed ≡ false))
access_after_failure_example =
    access_after_failure losing slice properties 7 3 refl refl refl refl refl refl refl refl

release_lem_example :
    (r : Released) × (release nvml system ready ≡ returns r)
    × (r.failed ≡ false
        → (r.vgpu.is_provisioned ≡ false)
          × (r.vgpu.provisioned_gpu ≡ none)
          × (r.left ≡ some "MIG-1"))
    × (r.failed ≡ true → (r.vgpu.is_provisioned ≡ true) × (r.left ≡ none))
release_lem_example = release_lem nvml system ready gpu made refl refl refl refl

abbrev gpus : Dict VirtualGpu
gpus = ("MIG-1", ready) ∷ []

enable_mps_handler-enabled_example :
    (r : Handled EnableMpsResponse) × (enable_mps_handler system gpus "MIG-1" ≡ returns r)
    × (r.failed ≡ false → enabled_at (lookup "MIG-1" r.gpus) ≡ some true)
    × (r.failed ≡ true → r.response.success ≡ false)
enable_mps_handler-enabled_example =
    enable_mps_handler-enabled system gpus "MIG-1" ready gpu refl refl

disable_mps_handler-disabled_example :
    (r : Handled DisableMpsResponse) × (disable_mps_handler system gpus "MIG-1" ≡ returns r)
    × (r.response.success ≡ true → enabled_at (lookup "MIG-1" r.gpus) ≡ some false)
disable_mps_handler-disabled_example =
    disable_mps_handler-disabled system gpus "MIG-1" ready gpu refl refl

-- Only the zero of the usage is read here.
instance naturals : Floats ℕ
naturals = record {
  add = λ a b. a;
  sub = λ a b. a;
  mul = λ a b. a;
  div = λ a b. a;
  of_int = λ z. 0;
  gt = λ a b. false;
}

abbrev physical_gpu : VirtualGpu
physical_gpu = record ready { physical = true; mig = none }

abbrev physical_gpus : Dict VirtualGpu
physical_gpus = ("MIG-1", physical_gpu) ∷ []

answer_of :
    get_gpu_handler physical_gpus "MIG-1"
    ≡ some (record { provisioned_gpu = some (map_to_seti_virtual_gpu physical_gpu) })
unfolding get_gpu_handler
answer_of = refl

entry_of :
    selected_gpu none (record { provisioned_gpu = some (map_to_seti_virtual_gpu physical_gpu) })
    ≡ returns
        (new_gpu_dev_info {F = ℕ} (map_to_seti_virtual_gpu physical_gpu) (map_to_seti_gpu gpu))
unfolding selected_gpu map_to_seti_virtual_gpu
entry_of = refl

described_gpu-virtual_example :
    (new_gpu_dev_info {F = ℕ} (map_to_seti_virtual_gpu physical_gpu) (map_to_seti_gpu gpu)).virtual
    ≡ true
described_gpu-virtual_example = described_gpu-virtual physical_gpus "MIG-1" answer_of entry_of
