-- ===== src/Configurator/Entries.antt =====
-- The entries of `provisionedGPUs`: what `getAvailableVirtualResources` keeps true of them.
use fa_st_gshare.Common.Dict.{Dict, lookup, insert, erase, lookup-insert, lookup-erase}
use fa_st_gshare.Common.Outcome.{Outcome, returns, ◌>>=◌}
use fa_st_gshare.Common.{
  ℕ, ◌+◌, ◌≡◌, ◌≢◌, refl, Bool, true, false, Option, none, some, List, [], ◌∷◌, ◌++◌, String,
  str_eq, eq_iff, arith, Bool-cases, Option-cases, inl, inr, subst,
}
use fa_st_gshare.Configurator.Resource.{MigProperties, Gpu, VirtualGpu}
use fa_st_gshare.Configurator.Devices.{
  Strings, Profile, MigDevice, Device, MigMode, mig_unsupported, mig_disabled, mig_enabled,
  mig_failed, physical_gpu, was_enabled, mig_gpu, get_sm_count, instances_of,
}
use fa_st_gshare.Configurator.Discovery.{
  Found, enter_mig, find_mig_device, find_mig_devices, with_creatable, discover_mig,
  discover_physical, discover_counted, discover_by_mode, describe_device, discover_device,
  discover_devices,
}

-- An entry has its GPU, under the GPU's own UUID, and its instances unless it is a whole device.
pub record IsEntry (uuid : String) (v : VirtualGpu) : Type 0 where
  pub gpu : Gpu
  pub has_gpu : v.provisioned_gpu ≡ some gpu
  pub own_uuid : gpu.uuid ≡ uuid
  pub provisioned : v.is_provisioned ≡ true
  pub instances : v.physical ≡ false → v.mig ≢ none

abbrev pub AllEntries : Dict VirtualGpu → Type 0
AllEntries map = (uuid : String) (v : VirtualGpu) → lookup uuid map ≡ some v → IsEntry uuid v

pub insert-AllEntries :
    (map : Dict VirtualGpu) (k : String) (v : VirtualGpu)
    → AllEntries map
    → IsEntry k v
    → AllEntries (insert k v map)
insert-AllEntries map k v all new j w e = elim (Bool-cases (str_eq k j)) [
  | inl here ↦
      let known : v ≡ w = ground (arith, lookup-insert k j v map) in
      let same : k ≡ j = ground (arith, eq_iff k j) in
      subst (λ x. IsEntry j x) known (subst (λ x. IsEntry x v) same new)
  | inr other ↦ all j w (ground (arith, lookup-insert k j v map))
]

-- Erasing the key under which one entry was just written.
pub erase-AllEntries :
    (map : Dict VirtualGpu) (k : String) (v : VirtualGpu)
    → AllEntries map
    → AllEntries (erase k (insert k v map))
erase-AllEntries map k v all j w e = elim (Bool-cases (str_eq k j)) [
  | inl here ↦ absurd (ground (arith, lookup-erase k j (insert k v map)))
  | inr other ↦ all j w (ground (arith, lookup-erase k j (insert k v map), lookup-insert k j v map))
]

-- A call comes back, with entries only.
abbrev pub Comes : Outcome Found → Type 0
Comes o = (found : Found) × (o ≡ returns found) × AllEntries found.1

pub bind-Comes :
    (o : Outcome Found) (f : Found → Outcome Found)
    → Comes o
    → ((found : Found) → AllEntries found.1 → Comes (f found))
    → Comes (o >>= f)
bind-Comes o f (found, e, all) h = rw e (h found all)

module _ (str : Strings) where
  physical_gpu-IsEntry :
      (i : ℕ) (name uuid : String) (memory sms : ℕ)
      → IsEntry uuid (physical_gpu str i name uuid memory sms)
  unfolding physical_gpu
  physical_gpu-IsEntry i name uuid memory sms = record {
    gpu = _;
    has_gpu = refl;
    own_uuid = refl;
    provisioned = refl;
    instances = λ e. cc;
  }

  mig_gpu-IsEntry :
      (i : ℕ) (type parent : String) (sms : ℕ) (name uuid : String) (memory count : ℕ)
      (m : MigProperties) (enabled : Bool)
      → IsEntry uuid (mig_gpu str i type parent sms name uuid memory count m enabled)
  unfolding mig_gpu
  mig_gpu-IsEntry i type parent sms name uuid memory count m enabled = record {
    gpu = _;
    has_gpu = refl;
    own_uuid = refl;
    provisioned = refl;
    instances = λ e. λ missing. cc;
  }

  was_enabled-known :
      (uuid : String) (map : Dict VirtualGpu)
      → AllEntries map
      → (b : Bool) × (was_enabled str (lookup uuid map) ≡ returns b)
  unfolding was_enabled
  was_enabled-known uuid map all = elim (Option-cases (lookup uuid map)) [
    | inl absent ↦ (false, rw absent refl)
    | inr (v, at) ↦
        let entry = all uuid v at in (entry.gpu.mps_server.is_enabled, rw (at, entry.has_gpu) refl)
  ]

  enter_mig-Comes :
      (i : ℕ) (type parent : String) (sms : ℕ) (name uuid : Option String) (memory count : Option ℕ)
      (m : Option MigProperties) (found : Found)
      → AllEntries found.1
      → Comes (enter_mig str i type parent sms name uuid memory count m found)
  unfolding enter_mig
  enter_mig-Comes i type parent sms none uuid memory count m found all = (found, refl, all)
  enter_mig-Comes i type parent sms (some name) none memory count m found all = (found, refl, all)
  enter_mig-Comes i type parent sms (some name) (some uuid) none count m found all =
      (found, refl, all)
  enter_mig-Comes i type parent sms (some name) (some uuid) (some memory) none m found all =
      (found, refl, all)
  enter_mig-Comes i type parent sms (some name) (some uuid) (some memory) (some count) none found
        all =
      (found, refl, all)
  enter_mig-Comes i type parent sms (some name) (some uuid) (some memory) (some count) (some m)
        (gpus, map) all =
      let (enabled, known) = was_enabled-known uuid map all in
      let v = mig_gpu str i type parent sms name uuid memory count m enabled in
      (
        (gpus ++ v ∷ [], insert uuid v map),
        rw known refl,
        insert-AllEntries map uuid v all
            (mig_gpu-IsEntry i type parent sms name uuid memory count m enabled),
      )

  find_mig_devices-Comes :
      (i : ℕ) (type parent : String) (sms : ℕ) (profiles : Option (List Profile))
      (devices : List (Option MigDevice)) (found : Found)
      → AllEntries found.1
      → Comes (find_mig_devices str i type parent sms profiles devices found)
  unfolding find_mig_devices find_mig_device
  find_mig_devices-Comes i type parent sms profiles [] found all = (found, refl, all)
  find_mig_devices-Comes i type parent sms profiles (none ∷ rest) found all =
      find_mig_devices-Comes i type parent sms profiles rest found all
  find_mig_devices-Comes i type parent sms profiles (some d ∷ rest) found all =
      bind-Comes _ _
        (enter_mig-Comes i type parent sms d.name d.uuid d.memory_total d.multiprocessor_count
          (instances_of str profiles d) found all)
        (find_mig_devices-Comes i type parent sms profiles rest)

  with_creatable-entries :
      (i : ℕ) (type : String) (sms : ℕ) (capacity : ℕ → Option ℕ) (profiles : Option (List Profile))
      (found : Found)
      → AllEntries found.1
      → AllEntries (with_creatable str i type sms capacity profiles found).1
  unfolding with_creatable
  with_creatable-entries i type sms capacity none found all = all
  with_creatable-entries i type sms capacity (some profiles) (gpus, map) all = all

  discover_mig-Comes :
      (i : ℕ) (d : Device) (name uuid : String) (sms : ℕ)
      (devices : Option (List (Option MigDevice))) (found : Found)
      → AllEntries found.1
      → Comes (discover_mig str i d name uuid sms devices found)
  unfolding discover_mig
  discover_mig-Comes i d name uuid sms none found all = (found, refl, all)
  discover_mig-Comes i d name uuid sms (some devices) found all =
      bind-Comes _ _ (find_mig_devices-Comes i name uuid sms d.profiles devices found all)
        (λ next after. (
          with_creatable str i name sms d.remaining_capacity d.profiles next,
          refl,
          with_creatable-entries i name sms d.remaining_capacity d.profiles next after,
        ))

  discover_counted-Comes :
      (i : ℕ) (d : Device) (name uuid : String) (sms : Option ℕ) (found : Found)
      → AllEntries found.1
      → Comes (discover_counted str i d name uuid sms found)
  unfolding discover_counted
  discover_counted-Comes i d name uuid none found all = (found, refl, all)
  discover_counted-Comes i d name uuid (some sms) found all =
      discover_mig-Comes i d name uuid sms d.mig_devices found all

  discover_physical-Comes :
      (i : ℕ) (name uuid : String) (memory sms : ℕ) (found : Found)
      → AllEntries found.1
      → Comes (discover_physical str i name uuid memory sms found)
  unfolding discover_physical
  discover_physical-Comes i name uuid memory sms (gpus, map) all = (
    _,
    refl,
    insert-AllEntries map uuid (physical_gpu str i name uuid memory sms) all
        (physical_gpu-IsEntry i name uuid memory sms),
  )

  discover_by_mode-Comes :
      (mode : MigMode) (i : ℕ) (d : Device) (name uuid : String) (memory : ℕ) (found : Found)
      → AllEntries found.1
      → Comes (discover_by_mode str mode i d name uuid memory found)
  unfolding discover_by_mode
  discover_by_mode-Comes mig_unsupported i d name uuid memory found all =
      discover_physical-Comes i name uuid memory _ found all
  discover_by_mode-Comes mig_disabled i d name uuid memory found all =
      discover_physical-Comes i name uuid memory _ found all
  discover_by_mode-Comes mig_enabled i d name uuid memory found all =
      discover_counted-Comes i d name uuid (get_sm_count str name) found all
  discover_by_mode-Comes mig_failed i d name uuid memory found all = (found, refl, all)

  describe_device-Comes :
      (i : ℕ) (d : Device) (name uuid : Option String) (memory : Option ℕ) (found : Found)
      → AllEntries found.1
      → Comes (describe_device str i d name uuid memory found)
  unfolding describe_device
  describe_device-Comes i d none uuid memory found all = (found, refl, all)
  describe_device-Comes i d (some name) none memory found all = (found, refl, all)
  describe_device-Comes i d (some name) (some uuid) none found all = (found, refl, all)
  describe_device-Comes i d (some name) (some uuid) (some memory) found all =
      discover_by_mode-Comes d.mig_mode i d name uuid memory found all

  pub discover_devices-Comes :
      (i : ℕ) (devices : List Device) (found : Found)
      → AllEntries found.1
      → Comes (discover_devices str i devices found)
  unfolding discover_devices discover_device
  discover_devices-Comes i [] found all = (found, refl, all)
  discover_devices-Comes i (d ∷ rest) found all =
      bind-Comes _ _ (describe_device-Comes i d d.name d.uuid d.memory_total found all)
        (discover_devices-Comes (i + 1) rest)
