-- ===== src/Configurator/Discovery.antt =====
-- virtual_resource.go: `getAvailableVirtualResources`, which describes every GPU of a node anew.
use fa_st_gshare.Common.Dict.{Dict, lookup, insert}
use fa_st_gshare.Common.Outcome.{Outcome, returns, ◌>>=◌}
use fa_st_gshare.Common.{ℕ, ◌+◌, Option, none, some, List, [], ◌∷◌, ◌++◌, String}
use fa_st_gshare.Configurator.Resource.{MigProperties, VirtualGpu}
use fa_st_gshare.Configurator.Devices.{
  Strings, Profile, MigDevice, MigMode, Device, get_sm_count, physical_gpu, was_enabled, mig_gpu,
  instances_of, creatable_gpus, mig_unsupported, mig_disabled, mig_enabled, mig_failed,
}

-- The list of virtual GPUs found, and the map `provisionedGPUs`.
abbrev pub Found : Type 0
Found = List VirtualGpu × Dict VirtualGpu

module _ (str : Strings) where
  -- One index of the loop over MIG devices, by its answers: any that fails skips the device.
  unfoldable pub enter_mig :
      ℕ
      → String
      → String
      → ℕ
      → Option String
      → Option String
      → Option ℕ
      → Option ℕ
      → Option MigProperties
      → Found
      → Outcome Found
  enter_mig i type parent sms none uuid memory count m found = returns found
  enter_mig i type parent sms (some name) none memory count m found = returns found
  enter_mig i type parent sms (some name) (some uuid) none count m found = returns found
  enter_mig i type parent sms (some name) (some uuid) (some memory) none m found = returns found
  enter_mig i type parent sms (some name) (some uuid) (some memory) (some count) none found =
      returns found
  enter_mig i type parent sms (some name) (some uuid) (some memory) (some count) (some m)
        (gpus, map) =
      do
        enabled ← was_enabled str (lookup uuid map)
        let v = mig_gpu str i type parent sms name uuid memory count m enabled
        returns (gpus ++ v ∷ [], insert uuid v map)

  unfoldable pub find_mig_device :
      ℕ → String → String → ℕ → Option (List Profile) → Option MigDevice → Found → Outcome Found
  find_mig_device i type parent sms profiles none found = returns found
  find_mig_device i type parent sms profiles (some d) found =
      enter_mig i type parent sms d.name d.uuid d.memory_total d.multiprocessor_count
        (instances_of str profiles d) found

  unfoldable pub find_mig_devices :
      ℕ
      → String
      → String
      → ℕ
      → Option (List Profile)
      → List (Option MigDevice)
      → Found
      → Outcome Found
  find_mig_devices i type parent sms profiles [] found = returns found
  find_mig_devices i type parent sms profiles (d ∷ rest) found = do
    next ← find_mig_device i type parent sms profiles d found
    find_mig_devices i type parent sms profiles rest next

  unfoldable pub with_creatable :
      ℕ → String → ℕ → (ℕ → Option ℕ) → Option (List Profile) → Found → Found
  with_creatable i type sms capacity none found = found
  with_creatable i type sms capacity (some profiles) (gpus, map) =
      (gpus ++ creatable_gpus str i type sms capacity profiles, map)

  -- A device in MIG mode: those that exist, then those that could be created.
  unfoldable pub discover_mig :
      ℕ → Device → String → String → ℕ → Option (List (Option MigDevice)) → Found → Outcome Found
  discover_mig i d name uuid sms none found = returns found
  discover_mig i d name uuid sms (some devices) found = do
    next ← find_mig_devices i name uuid sms d.profiles devices found
    returns (with_creatable i name sms d.remaining_capacity d.profiles next)

  unfoldable pub discover_physical : ℕ → String → String → ℕ → ℕ → Found → Outcome Found
  discover_physical i name uuid memory sms (gpus, map) =
      let v = physical_gpu str i name uuid memory sms in returns (gpus ++ v ∷ [], insert uuid v map)

  abbrev pub sms_or_zero : Option ℕ → ℕ
  sms_or_zero none = 0
  sms_or_zero (some n) = n

  unfoldable pub discover_counted : ℕ → Device → String → String → Option ℕ → Found → Outcome Found
  discover_counted i d name uuid none found = returns found
  discover_counted i d name uuid (some sms) found =
      discover_mig i d name uuid sms d.mig_devices found

  -- By the MIG mode: in MIG mode the number of multiprocessors must be known.
  unfoldable pub discover_by_mode :
      MigMode → ℕ → Device → String → String → ℕ → Found → Outcome Found
  discover_by_mode mig_unsupported i d name uuid memory found =
      discover_physical i name uuid memory (sms_or_zero (get_sm_count str name)) found
  discover_by_mode mig_disabled i d name uuid memory found =
      discover_physical i name uuid memory (sms_or_zero (get_sm_count str name)) found
  discover_by_mode mig_enabled i d name uuid memory found =
      discover_counted i d name uuid (get_sm_count str name) found
  discover_by_mode mig_failed i d name uuid memory found = returns found

  -- A device whose name, UUID or memory cannot be read is skipped.
  unfoldable pub describe_device :
      ℕ → Device → Option String → Option String → Option ℕ → Found → Outcome Found
  describe_device i d none uuid memory found = returns found
  describe_device i d (some name) none memory found = returns found
  describe_device i d (some name) (some uuid) none found = returns found
  describe_device i d (some name) (some uuid) (some memory) found =
      discover_by_mode d.mig_mode i d name uuid memory found

  unfoldable pub discover_device : ℕ → Device → Found → Outcome Found
  discover_device i d found = describe_device i d d.name d.uuid d.memory_total found

  unfoldable pub discover_devices : ℕ → List Device → Found → Outcome Found
  discover_devices i [] found = returns found
  discover_devices i (d ∷ rest) found = do
    next ← discover_device i d found
    discover_devices (i + 1) rest next

  -- `getAvailableVirtualResources`
  unfoldable pub get_available_virtual_resources : List Device → Dict VirtualGpu → Outcome Found
  get_available_virtual_resources devices map = discover_devices 0 devices ([], map)
