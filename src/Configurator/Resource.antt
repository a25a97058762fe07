-- ===== src/Configurator/Resource.antt =====
-- virtual_resource.go: a virtual GPU, provisioned by `Access` and destroyed by `Release`. What NVML
-- answers is a parameter; the calls that change the device are listed in their order.
use fa_st_gshare.Common.Int.{ℤ}
use fa_st_gshare.Common.Outcome.{Outcome, returns, ◌>>=◌, deref}
use fa_st_gshare.Common.{
  ℕ, ◌==◌, Bool, true, false, not, ◌&&◌, ◌||◌, Option, none, some, List, [], ◌∷◌, ◌++◌, String,
  if◌then◌else◌,
}
use fa_st_gshare.Configurator.Mps.{MpsServer, System, stop_mps_daemon}

-- `MIGProperties`: the instances by number, and the profile's `Id`.
pub record MigProperties : Type 0 where
  pub gpu_instance : Option ℕ
  pub compute_instance : Option ℕ
  pub profile_id : ℕ

-- `GPU`; the NVML handle is the device's UUID.
pub record Gpu : Type 0 where
  pub uuid : String
  pub name : String
  pub memory_bytes : ℕ
  pub multi_processor_count : ℤ
  pub parent_device_index : ℤ
  pub parent_uuid : String
  pub mps_server : MpsServer

pub record VirtualGpu : Type 0 where
  pub name : String
  pub id : String
  pub device_index : ℤ
  pub memory_bytes : ℕ
  pub multi_processor_count : ℤ
  pub is_provisioned : Bool
  pub mig : Option MigProperties
  pub provisioned_gpu : Option Gpu
  pub physical : Bool
  pub physical_gpu_type : String
  pub sm_percentage : ℤ

-- The answers of NVML while one virtual GPU is provisioned or released: `none` and `true` are errors.
pub record Nvml : Type 0 where
  pub device_handle_fails : Bool
  pub new_gpu_instance : Option ℕ
  pub gpu_instance_info_fails : Bool
  pub compute_profile_fails : Bool
  pub new_compute_instance : Option ℕ
  pub compute_instance_info_fails : Bool
  pub device_index_fails : Bool
  pub mig_device_fails : Bool
  pub mig_name : Option String
  pub mig_uuid : Option String
  pub parent_uuid : Option String
  pub memory_total : Option ℕ
  pub destroy_compute_fails : Bool
  pub destroy_gpu_fails : Bool

pub data NvmlCall : Type 0 where
  created_gpu_instance : ℕ → NvmlCall
  created_compute_instance : ℕ → NvmlCall
  destroy_gpu_instance : ℕ → NvmlCall
  destroy_compute_instance : ℕ → NvmlCall

-- The virtual GPU after the call, whether an error came back, the calls, and the map
-- `provisionedGPUs`: the key under which the GPU was entered.
pub record Accessed : Type 0 where
  pub vgpu : VirtualGpu
  pub failed : Bool
  pub calls : List NvmlCall
  pub entered : Option String

abbrev pub given {ℓ} : {A : Type ℓ} → Option A → Bool
given none = false
given (some a) = true

-- An error before the virtual GPU is marked as provisioned.
abbrev pub early : VirtualGpu → List NvmlCall → Accessed
early v calls = record { vgpu = v; failed = true; calls = calls; entered = none }

-- The virtual GPU once its compute instance exists.
abbrev pub marked : VirtualGpu → MigProperties → ℕ → ℕ → VirtualGpu
marked v m gi ci = record v {
  is_provisioned = true;
  mig = some (record m { gpu_instance = some gi; compute_instance = some ci });
}

-- An error after that: both instances are destroyed, and the mark stays.
abbrev pub late : VirtualGpu → ℕ → ℕ → Accessed
late v gi ci = record {
  vgpu = v;
  failed = true;
  calls =
      created_gpu_instance gi
      ∷ created_compute_instance ci
      ∷ destroy_gpu_instance gi
      ∷ destroy_compute_instance ci
      ∷ [];
  entered = none;
}

abbrev provisioned : VirtualGpu → ℕ → ℕ → String → String → String → ℕ → Accessed
provisioned v gi ci name uuid parent memory = record {
  vgpu = record v {
    provisioned_gpu = some (record {
      uuid = uuid;
      name = name;
      memory_bytes = memory;
      multi_processor_count = v.multi_processor_count;
      parent_device_index = v.device_index;
      parent_uuid = parent;
      mps_server = record { uuid = uuid; name = name; is_enabled = false };
    });
  };
  failed = false;
  calls = created_gpu_instance gi ∷ created_compute_instance ci ∷ [];
  entered = some uuid;
}

-- The virtual GPU after the call, whether an error came back, the calls, and the key that left
-- `provisionedGPUs`.
pub record Released : Type 0 where
  pub vgpu : VirtualGpu
  pub failed : Bool
  pub calls : List NvmlCall
  pub left : Option String

module _ (nv : Nvml) where
  -- The names, the parent and the memory of the new device.
  unfoldable pub describe : VirtualGpu → ℕ → ℕ → Accessed
  describe v gi ci = elim nv.mig_name [
    | none ↦ late v gi ci
    | some name ↦ elim nv.mig_uuid [
      | none ↦ late v gi ci
      | some uuid ↦ elim nv.parent_uuid [
        | none ↦ late v gi ci
        | some parent ↦ elim nv.memory_total [
          | none ↦ late v gi ci
          | some memory ↦ provisioned v gi ci name uuid parent memory
        ]
      ]
    ]
  ]

  -- From `v.IsProvisioned = true`.
  unfoldable pub access_marked : VirtualGpu → ℕ → ℕ → Accessed
  access_marked v gi ci =
      if nv.compute_instance_info_fails || nv.device_index_fails || nv.mig_device_fails
      then late v gi ci
      else describe v gi ci

  -- With a GPU instance: `v.Mig.GPUInstance` is set after its information was read.
  unfoldable pub access_instance : VirtualGpu → MigProperties → ℕ → Accessed
  access_instance v m gi =
      let v' = record v { mig = some (record m { gpu_instance = some gi }) } in
      let undone = created_gpu_instance gi ∷ destroy_gpu_instance gi ∷ [] in
      if nv.gpu_instance_info_fails
      then early v undone
      else if nv.compute_profile_fails
      then early v' undone
      else elim nv.new_compute_instance [
        | none ↦ early v' undone
        | some ci ↦ access_marked (marked v m gi ci) gi ci
      ]

  abbrev access_new : VirtualGpu → Outcome Accessed
  access_new v = do
    m ← deref v.mig
    elim nv.new_gpu_instance [
      | none ↦ returns (early v [])
      | some gi ↦ returns (access_instance v m gi)
    ]

  -- `Access`
  unfoldable pub access : VirtualGpu → Outcome Accessed
  access v =
      if v.is_provisioned
      then returns (record { vgpu = v; failed = false; calls = []; entered = none })
      else if nv.device_handle_fails
      then returns (early v [])
      else access_new v

  abbrev pub unreleased : VirtualGpu → Released
  unreleased v = record { vgpu = v; failed = false; calls = []; left = none }

  abbrev destroy_compute_call : Option ℕ → List NvmlCall
  destroy_compute_call none = []
  destroy_compute_call (some ci) = destroy_compute_instance ci ∷ []

  abbrev destroy_gpu_call : Option ℕ → List NvmlCall
  destroy_gpu_call none = []
  destroy_gpu_call (some gi) = destroy_gpu_instance gi ∷ []

  -- Compute instance first, then GPU instance; each that is set.
  unfoldable pub destroy_instances : VirtualGpu → Gpu → MigProperties → Released
  destroy_instances v g m =
      let calls = destroy_compute_call m.compute_instance in
      let all_calls = calls ++ destroy_gpu_call m.gpu_instance in
      if given m.compute_instance && nv.destroy_compute_fails
      then record { vgpu = v; failed = true; calls = calls; left = none }
      else if given m.gpu_instance && nv.destroy_gpu_fails
      then record {
        vgpu = record v { mig = some (record m { compute_instance = none }) };
        failed = true;
        calls = all_calls;
        left = none;
      }
      else record {
        vgpu = record v {
          mig = some (record m { gpu_instance = none; compute_instance = none });
          is_provisioned = false;
          provisioned_gpu = none;
        };
        failed = false;
        calls = all_calls;
        left = some g.uuid;
      }

  abbrev release_gpu : System → VirtualGpu → Gpu → Outcome Released
  release_gpu sys v g = do
    let g' = record g { mps_server = (stop_mps_daemon sys g.mps_server).0 }
    m ← deref v.mig
    returns (destroy_instances (record v { provisioned_gpu = some g' }) g' m)

  -- `Release`; an error of the MPS daemon is only logged.
  unfoldable pub release : System → VirtualGpu → Outcome Released
  release sys v =
      if not v.is_provisioned || v.physical
      then returns (unreleased v)
      else elim v.provisioned_gpu [ none ↦ returns (unreleased v) | some g ↦ release_gpu sys v g ]

abbrev pub has_profile : ℕ → Option MigProperties → Bool
has_profile id none = false
has_profile id (some m) = m.profile_id == id

-- `FindVirtualGPU`; `none` is an error.
unfoldable pub find_virtual_gpu : ℕ → List VirtualGpu → Option VirtualGpu
find_virtual_gpu id [] = none
find_virtual_gpu id (v ∷ rest) =
    let later = find_virtual_gpu id rest in
    if v.is_provisioned then later else if has_profile id v.mig then some v else later
