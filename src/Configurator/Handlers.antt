-- ===== src/Configurator/Handlers.antt =====
-- server_methods.go and virtual_resource.go: the handlers of `GetAvailableGPUs`,
-- `RequestVirtualGPU` and `ReleaseVirtualGPU` over the resource manager, and `CleanUp`.
use fa_st_gshare.Common.Int.{ℤ, int32}
use fa_st_gshare.Common.Dict.{Dict, lookup, insert, erase}
use fa_st_gshare.Common.Outcome.{Outcome, returns, ◌>>=◌}
use fa_st_gshare.Common.{
  ℕ, Bool, true, false, not, ◌&&◌, Option, none, some, List, [], ◌∷◌, map, String, if◌then◌else◌,
}
use fa_st_gshare.Proto.{GpuMessage, VirtualGpuMessage, ReleaseVirtualGpuResponse}
use fa_st_gshare.Configurator.Mps.{MpsServer, System, setup_mps_environment, stop_mps_daemon}
use fa_st_gshare.Configurator.Resource.{
  Gpu, VirtualGpu, Nvml, access, release, find_virtual_gpu, has_profile, given,
}
use fa_st_gshare.Configurator.Server.{map_to_seti_virtual_gpu, map_gpu}
use fa_st_gshare.Configurator.Devices.{Strings, Device}
use fa_st_gshare.Configurator.Discovery.{get_available_virtual_resources}

-- `ResourceManager`. A provisioned virtual GPU of the list is the entry of the map; no operation
-- reads it from the list. The handles `PhysicalGPUs` do not change; NVML is asked about them anew at
-- each refresh, and what it answers then is a parameter of the operation that refreshes.
pub record ResourceManager : Type 0 where
  pub virtual_gpus : List VirtualGpu
  pub provisioned_gpus : Dict VirtualGpu

pub record RequestVirtualGpu : Type 0 where
  pub profileid : Option ℕ
  pub device_uuid : Option String
  pub use_mps : Bool

pub record RequestVirtualGpuResponse : Type 0 where
  pub id : String
  pub device_index : ℤ
  pub memory_bytes : ℕ
  pub multiprocessor_count : ℤ
  pub provisioned_gpu : Option GpuMessage
  pub available_virtual_gpus : List VirtualGpuMessage

-- The pointer that a lookup gave: an entry of the map, by its key, or the first entry of the list
-- for the profile.
pub data Place : Type 0 where
  in_map : String → Place
  in_list : ℕ → Place

-- `getAndSetAvailableVirtualResources`
unfoldable pub refresh : Strings → List Device → ResourceManager → Outcome ResourceManager
refresh str devices rm = do
  found ← get_available_virtual_resources str devices rm.provisioned_gpus
  returns (record rm { virtual_gpus = found.0; provisioned_gpus = found.1 })

-- The response of `GetAvailableGPUs` is the refreshed list.
unfoldable pub get_available_gpus :
    Strings → List Device → ResourceManager → Outcome (ResourceManager × List VirtualGpuMessage)
get_available_gpus str devices rm = do
  rm' ← refresh str devices rm
  returns (rm', map map_to_seti_virtual_gpu rm'.virtual_gpus)

-- `GetVirtualGPU`; `none` is an error.
unfoldable pub get_virtual_gpu : ResourceManager → String → Option VirtualGpu
get_virtual_gpu rm uuid = lookup uuid rm.provisioned_gpus

-- `FindVirtualGPUUsingUUID`
unfoldable pub find_virtual_gpu_using_uuid : ResourceManager → String → Option VirtualGpu
find_virtual_gpu_using_uuid rm uuid = lookup uuid rm.provisioned_gpus

-- The write through the pointer that `FindVirtualGPU` gave.
unfoldable pub write_found : ℕ → VirtualGpu → List VirtualGpu → List VirtualGpu
write_found id new [] = []
write_found id new (v ∷ rest) =
    let later = v ∷ write_found id new rest in
    if v.is_provisioned then later else if has_profile id v.mig then new ∷ rest else later

abbrev pub write_at : Place → VirtualGpu → ResourceManager → ResourceManager
write_at (in_map uuid) v rm = record rm { provisioned_gpus = insert uuid v rm.provisioned_gpus }
write_at (in_list id) v rm = record rm { virtual_gpus = write_found id v rm.virtual_gpus }

-- The lookup of `RequestVirtualGPU`: by profile, or else by UUID.
unfoldable pub find_requested : ResourceManager → RequestVirtualGpu → Option (Place × VirtualGpu)
find_requested rm q = elim q.profileid [
  | some id ↦ elim (find_virtual_gpu id rm.virtual_gpus) [
    | none ↦ none
    | some v ↦ some (in_list id, v)
  ]
  | none ↦ elim q.device_uuid [
    | none ↦ none
    | some uuid ↦ elim (get_virtual_gpu rm uuid) [ none ↦ none | some v ↦ some (in_map uuid, v) ]
  ]
]

abbrev pub enter : Option String → VirtualGpu → Dict VirtualGpu → Dict VirtualGpu
enter none v map = map
enter (some uuid) v map = insert uuid v map

-- What `Access` leaves, and its error.
pub record Provisioned : Type 0 where
  pub manager : ResourceManager
  pub vgpu : VirtualGpu
  pub failed : Bool

-- `Access`, if a profile was asked for and the virtual GPU is not provisioned.
unfoldable pub provision :
    Nvml → ResourceManager → RequestVirtualGpu → Place → VirtualGpu → Outcome Provisioned
provision nv rm q p v =
    if given q.profileid && not v.is_provisioned && given v.mig
    then (do
      a ← access nv v
      let rm' = write_at p a.vgpu rm
      returns (record {
        manager = record rm' { provisioned_gpus = enter a.entered a.vgpu rm'.provisioned_gpus };
        vgpu = a.vgpu;
        failed = a.failed;
      }))
    else returns (record { manager = rm; vgpu = v; failed = false })

-- `mpsServer := vgpu.ProvisionedGPU.mpsServer` copies the server: what the set-up changes is the
-- copy. An error is only logged. `none` where nothing is set up.
unfoldable pub mps_copy : System → Bool → Option Gpu → Option MpsServer
mps_copy sys false gpu = none
mps_copy sys true none = none
mps_copy sys true (some g) = some (setup_mps_environment sys g.mps_server).0

abbrev pub response_of : VirtualGpu → List VirtualGpu → RequestVirtualGpuResponse
response_of v available = record {
  id = v.id;
  device_index = int32 v.device_index;
  memory_bytes = v.memory_bytes;
  multiprocessor_count = int32 v.multi_processor_count;
  provisioned_gpu = map_gpu v.provisioned_gpu;
  available_virtual_gpus = map map_to_seti_virtual_gpu available;
}

-- The state, the response (`none` is an error), and the copy of the server that was set up.
pub record RequestedGpu : Type 0 where
  pub manager : ResourceManager
  pub response : Option RequestVirtualGpuResponse
  pub server : Option MpsServer

-- After the provisioning.
unfoldable pub answer_request :
    Strings → List Device → System → Bool → Provisioned → Outcome RequestedGpu
answer_request str devices sys use_mps p =
    if p.failed
    then returns (record { manager = p.manager; response = none; server = none })
    else (do
      rm' ← refresh str devices p.manager
      returns (record {
        manager = rm';
        response = some (response_of p.vgpu rm'.virtual_gpus);
        server = mps_copy sys use_mps p.vgpu.provisioned_gpu;
      }))

unfoldable pub request_found :
    Strings
    → List Device
    → Nvml
    → System
    → ResourceManager
    → RequestVirtualGpu
    → Option (Place × VirtualGpu)
    → Outcome RequestedGpu
request_found str devices nv sys rm q none =
    returns (record { manager = rm; response = none; server = none })
request_found str devices nv sys rm q (some (p, v)) = do
  provisioned ← provision nv rm q p v
  answer_request str devices sys q.use_mps provisioned

-- `RequestVirtualGPU`
unfoldable pub request_virtual_gpu :
    Strings
    → List Device
    → Nvml
    → System
    → ResourceManager
    → RequestVirtualGpu
    → Outcome RequestedGpu
request_virtual_gpu str devices nv sys rm q =
    request_found str devices nv sys rm q (find_requested rm q)

abbrev pub leave : Option String → Dict VirtualGpu → Dict VirtualGpu
leave none map = map
leave (some uuid) map = erase uuid map

abbrev pub unsuccessful : ReleaseVirtualGpuResponse
unsuccessful = record { success = false; available_virtual_gpus = [] }

-- `Release` of the entry at `uuid`, and whether it failed.
unfoldable pub release_entry :
    Nvml → System → ResourceManager → String → VirtualGpu → Outcome (ResourceManager × Bool)
release_entry nv sys rm uuid v = do
  r ← release nv sys v
  returns (
    record rm { provisioned_gpus = leave r.left (insert uuid r.vgpu rm.provisioned_gpus) },
    r.failed,
  )

unfoldable pub release_found :
    Strings
    → List Device
    → Nvml
    → System
    → ResourceManager
    → String
    → Option VirtualGpu
    → Outcome (ResourceManager × ReleaseVirtualGpuResponse)
release_found str devices nv sys rm uuid none = returns (rm, unsuccessful)
release_found str devices nv sys rm uuid (some v) = do
  r ← release_entry nv sys rm uuid v
  if r.1 then returns (r.0, unsuccessful) else (do
    rm' ← refresh str devices (r.0)
    returns (
      rm',
      record {
        success = true;
        available_virtual_gpus = map map_to_seti_virtual_gpu rm'.virtual_gpus;
      },
    ))

-- `ReleaseVirtualGPU`; its error is always nil.
unfoldable pub release_virtual_gpu :
    Strings
    → List Device
    → Nvml
    → System
    → ResourceManager
    → String
    → Outcome (ResourceManager × ReleaseVirtualGpuResponse)
release_virtual_gpu str devices nv sys rm uuid =
    release_found str devices nv sys rm uuid (find_virtual_gpu_using_uuid rm uuid)

-- The first loop of `CleanUp`; an error is only logged.
unfoldable pub stop_server : System → Option Gpu → Option Gpu
stop_server sys none = none
stop_server sys (some g) =
    if g.mps_server.is_enabled
    then some (record g { mps_server = (stop_mps_daemon sys g.mps_server).0 })
    else some g

unfoldable pub stop_servers : System → Dict VirtualGpu → Dict VirtualGpu
stop_servers sys [] = []
stop_servers sys ((uuid, v) ∷ rest) =
    (uuid, record v { provisioned_gpu = stop_server sys v.provisioned_gpu }) ∷ stop_servers sys rest

-- The second loop, over the entries that the map had; its answers of NVML are by UUID.
unfoldable pub release_each :
    (String → Nvml) → System → Dict VirtualGpu → ResourceManager → Outcome ResourceManager
release_each nv sys [] rm = returns rm
release_each nv sys ((uuid, v) ∷ rest) rm =
    if v.is_provisioned
    then (do r ← release_entry (nv uuid) sys rm uuid v; release_each nv sys rest (r.0))
    else release_each nv sys rest rm

-- `CleanUp`
unfoldable pub clean_up : (String → Nvml) → System → ResourceManager → Outcome ResourceManager
clean_up nv sys rm =
    let stopped = stop_servers sys rm.provisioned_gpus in
    release_each nv sys stopped (record rm { provisioned_gpus = stopped })
