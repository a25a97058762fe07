-- ===== src/Configurator/Devices.antt =====
-- virtual_resource.go and config.go: what NVML answers for the devices of a node, and the virtual
-- GPUs that describe them. `none` stands for a call that does not succeed.
use Prim.Native.String.{◌++◌ as str_append}
use fa_st_gshare.Common.Int.{pos}
use fa_st_gshare.Common.Dict.{Dict, lookup}
use fa_st_gshare.Common.Outcome.{Outcome, returns, ◌>>=◌, deref}
use fa_st_gshare.Common.{
  ℕ, zero, suc, ◌+◌, ◌*◌, ◌/◌, ◌%◌, ◌^◌, ◌==◌, Bool, true, false, Option, none, some, List, [], ◌∷◌,
  ◌++◌, String, if◌then◌else◌,
}
use fa_st_gshare.Configurator.Resource.{MigProperties, VirtualGpu}

-- `strings.ToLower`, `strings.Contains text part` and the decimal digits of `%d`
pub record Strings : Type 0 where
  pub to_lower : String → String
  pub contains : String → String → Bool
  pub show : ℕ → String

-- `nvml.GpuInstanceProfileInfo`
pub record Profile : Type 0 where
  pub id : ℕ
  pub multiprocessor_count : ℕ
  pub memory_size_mb : ℕ

-- The answers for one MIG device.
pub record MigDevice : Type 0 where
  pub name : Option String
  pub uuid : Option String
  pub memory_total : Option ℕ
  pub multiprocessor_count : Option ℕ
  pub compute_instance_id : Option ℕ
  pub gpu_instance_id : Option ℕ
  pub gpu_instance : Option ℕ
  pub profile_id : Option ℕ
  pub compute_instance : Option ℕ

-- `GetMigMode`; the mode reads as disabled where the call does not succeed.
pub data MigMode : Type 0 where
  mig_unsupported mig_disabled mig_enabled mig_failed : MigMode

-- A physical GPU. A MIG index without a device is `none`.
pub record Device : Type 0 where
  pub name : Option String
  pub uuid : Option String
  pub memory_total : Option ℕ
  pub mig_mode : MigMode
  pub mig_devices : Option (List (Option MigDevice))
  pub profiles : Option (List Profile)
  pub remaining_capacity : ℕ → Option ℕ

-- `SmMap`
unfoldable pub sm_map : Dict ℕ
sm_map = ("t1000", 16) ∷ ("a100", 108) ∷ ("v100", 84) ∷ ("rtx2080ti", 68) ∷ []

module _ (str : Strings) where
  -- `GetSMCount`
  unfoldable pub get_sm_count : String → Option ℕ
  get_sm_count full =
      let name = str.to_lower full in
      if str.contains name "a100"
      then lookup "a100" sm_map
      else if str.contains name "v100"
      then lookup "v100" sm_map
      else if str.contains name "t1000"
      then lookup "t1000" sm_map
      else if str.contains name "rtx 2080"
      then lookup "rtx2080ti" sm_map
      else lookup name sm_map

  -- A whole device: it counts as provisioned, and its server as not enabled.
  unfoldable pub physical_gpu : ℕ → String → String → ℕ → ℕ → VirtualGpu
  physical_gpu i name uuid memory sms = record {
    name = name;
    id = str_append "vgpu-physical-" uuid;
    device_index = pos i;
    memory_bytes = memory;
    multi_processor_count = pos sms;
    is_provisioned = true;
    mig = none;
    provisioned_gpu = some (record {
      uuid = uuid;
      name = name;
      memory_bytes = memory;
      multi_processor_count = pos sms;
      parent_device_index = pos i;
      parent_uuid = uuid;
      mps_server = record { uuid = uuid; name = name; is_enabled = false };
    });
    physical = true;
    physical_gpu_type = name;
    sm_percentage = pos 100;
  }

  -- `int(math.Round(float64(part) * 100.0 / float64(all)))` for counts of multiprocessors.
  unfoldable pub percent_of : ℕ → ℕ → ℕ
  percent_of part all = (200 * part + all) / (2 * all)

  unfoldable pub has_id : ℕ → List Profile → Bool
  has_id id [] = false
  has_id id (p ∷ rest) = let later = has_id id rest in if p.id == id then true else later

  -- `ok && old.ProvisionedGPU.mpsServer.isEnabled`
  unfoldable pub was_enabled : Option VirtualGpu → Outcome Bool
  was_enabled none = returns false
  was_enabled (some v) = do g ← deref v.provisioned_gpu; returns g.mps_server.is_enabled

  unfoldable pub mig_gpu :
      ℕ → String → String → ℕ → String → String → ℕ → ℕ → MigProperties → Bool → VirtualGpu
  mig_gpu i type parent sms name uuid memory count m enabled = record {
    name = name;
    id = str_append "vgpu-mig-" uuid;
    device_index = pos i;
    memory_bytes = memory;
    multi_processor_count = pos count;
    is_provisioned = true;
    mig = some m;
    provisioned_gpu = some (record {
      uuid = uuid;
      name = name;
      memory_bytes = memory;
      multi_processor_count = pos count;
      parent_device_index = pos i;
      parent_uuid = parent;
      mps_server = record { uuid = uuid; name = name; is_enabled = enabled };
    });
    physical = false;
    physical_gpu_type = type;
    sm_percentage = pos (percent_of count sms);
  }

  -- The instances of a MIG device, when its profile is one of the device's.
  unfoldable pub instances_of : Option (List Profile) → MigDevice → Option MigProperties
  instances_of none d = none
  instances_of (some profiles) d = elim d.compute_instance_id [
    | none ↦ none
    | some _ ↦ elim d.gpu_instance_id [
      | none ↦ none
      | some _ ↦ elim d.gpu_instance [
        | none ↦ none
        | some gi ↦ elim d.profile_id [
          | none ↦ none
          | some id ↦ elim d.compute_instance [
            | none ↦ none
            | some ci ↦
                if has_id id profiles
                then some
                    (record { gpu_instance = some gi; compute_instance = some ci; profile_id = id })
                else none
          ]
        ]
      ]
    ]
  ]

  -- A MIG device that could be created; its memory is a `uint64`.
  unfoldable pub unprovisioned_gpu : ℕ → String → ℕ → Profile → ℕ → VirtualGpu
  unprovisioned_gpu i type sms p j = record {
    name = str_append type (str_append "-mig-profile-" (str.show p.id));
    id = str_append "vgpu-" (
        str_append (str.show i)
          (str_append "-profile" (str_append (str.show p.id) (str_append "-" (str.show j)))));
    device_index = pos i;
    memory_bytes = p.memory_size_mb * 1024 * 1024 % 2 ^ 64;
    multi_processor_count = pos p.multiprocessor_count;
    is_provisioned = false;
    mig = some (record { gpu_instance = none; compute_instance = none; profile_id = p.id });
    provisioned_gpu = none;
    physical = false;
    physical_gpu_type = type;
    sm_percentage = pos (percent_of p.multiprocessor_count sms);
  }

  -- The numbers `j` on to `j + n` of a profile.
  unfoldable pub unprovisioned_gpus : ℕ → String → ℕ → Profile → ℕ → ℕ → List VirtualGpu
  unprovisioned_gpus i type sms p j zero = []
  unprovisioned_gpus i type sms p j (suc n) =
      unprovisioned_gpu i type sms p j ∷ unprovisioned_gpus i type sms p (j + 1) n

  abbrev pub capacity_or_zero : Option ℕ → ℕ
  capacity_or_zero none = 0
  capacity_or_zero (some n) = n

  unfoldable pub creatable_gpus : ℕ → String → ℕ → (ℕ → Option ℕ) → List Profile → List VirtualGpu
  creatable_gpus i type sms capacity [] = []
  creatable_gpus i type sms capacity (p ∷ rest) =
      unprovisioned_gpus i type sms p 0 (capacity_or_zero (capacity p.id))
      ++ creatable_gpus i type sms capacity rest
