-- ===== src/Configurator/HandlerSafety.antt =====
-- The refresh, `RequestVirtualGPU` and `ReleaseVirtualGPU` come back, and keep the entries of
-- `provisionedGPUs`.
use fa_st_gshare.Common.Dict.{Dict, lookup}
use fa_st_gshare.Common.Outcome.{Outcome, returns}
use fa_st_gshare.Common.{
  ℕ, ◌≡◌, ◌≢◌, ◌⊎◌, refl, Bool, true, false, not, ◌&&◌, Option, none, some, List, [], map, String,
  arith, Bool-cases, Option-cases, inl, inr,
}
use fa_st_gshare.Configurator.Mps.{System}
use fa_st_gshare.Configurator.Resource.{VirtualGpu, Nvml, given, find_virtual_gpu}
use fa_st_gshare.Configurator.ResourceLaws.{access-AccessOk}
use fa_st_gshare.Proto.{ReleaseVirtualGpuResponse}
use fa_st_gshare.Configurator.Server.{map_to_seti_virtual_gpu}
use fa_st_gshare.Configurator.Devices.{Strings, Device}
use fa_st_gshare.Configurator.Discovery.{get_available_virtual_resources}
use fa_st_gshare.Configurator.Handlers.{
  ResourceManager, refresh, Place, in_map, in_list, write_at, enter, Provisioned, provision,
  RequestVirtualGpu, RequestedGpu, answer_request, request_found, request_virtual_gpu,
  find_requested, get_virtual_gpu, find_virtual_gpu_using_uuid, release_found, response_of,
  mps_copy, unsuccessful, release_virtual_gpu,
}
use fa_st_gshare.Configurator.Entries.{
  IsEntry, AllEntries, insert-AllEntries, discover_devices-Comes,
}
use fa_st_gshare.Configurator.EntrySafety.{access-returns, accessed-IsEntry, release_entry-Keeps}

-- A call comes back with a state of entries only.
abbrev pub Runs : Outcome ResourceManager → Type 0
Runs o = (rm : ResourceManager) × (o ≡ returns rm) × AllEntries rm.provisioned_gpus

module _ (str : Strings) (devices : List Device) where
  pub refresh-Runs :
      (rm : ResourceManager) → AllEntries rm.provisioned_gpus → Runs (refresh str devices rm)
  unfolding refresh get_available_virtual_resources
  refresh-Runs rm all =
      let (found, by, after) = discover_devices-Comes str 0 devices ([], rm.provisioned_gpus) all in
      (record rm { virtual_gpus = found.0; provisioned_gpus = found.1 }, simp by, after)

-- Entering what `Access` entered, after the write through the pointer.
enter-entries :
    (gpus : Dict VirtualGpu) (entered : Option String) (v : VirtualGpu)
    → AllEntries gpus
    → ((uuid : String) → entered ≡ some uuid → IsEntry uuid v)
    → AllEntries (enter entered v gpus)
enter-entries gpus none v all h = all
enter-entries gpus (some uuid) v all h = insert-AllEntries gpus uuid v all (h uuid refl)

module _ (str : Strings) (devices : List Device) (nv : Nvml) (sys : System) where
  -- A virtual GPU of the list is provisioned.
  provision-list :
      (rm : ResourceManager) (q : RequestVirtualGpu) (id : ℕ) (v : VirtualGpu)
      → AllEntries rm.provisioned_gpus
      → (p : Provisioned) × (provision nv rm q (in_list id) v ≡ returns p)
        × AllEntries p.manager.provisioned_gpus
  unfolding provision
  provision-list rm q id v all =
      elim (Bool-cases (given q.profileid && not v.is_provisioned && given v.mig)) [
        | inr named ↦ (record { manager = rm; vgpu = v; failed = false }, simp named, all)
        | inl asked ↦
            let fresh : v.is_provisioned ≡ false = ground arith in
            let has : v.mig ≢ none = ground arith in
            let (a, by, mig) = access-returns nv v fresh has in
            let ok = access-AccessOk nv v fresh by in
            (
              record {
                manager = record (write_at (in_list id) a.vgpu rm) {
                  provisioned_gpus = enter a.entered a.vgpu rm.provisioned_gpus;
                };
                vgpu = a.vgpu;
                failed = a.failed;
              },
              simp (asked, by),
              enter-entries rm.provisioned_gpus a.entered a.vgpu all
                  (λ uuid. accessed-IsEntry nv a uuid ok mig),
            )
      ]

  answer_request-Runs :
      (use_mps : Bool) (p : Provisioned)
      → AllEntries p.manager.provisioned_gpus
      → (r : RequestedGpu) × (answer_request str devices sys use_mps p ≡ returns r)
        × AllEntries r.manager.provisioned_gpus
  unfolding answer_request
  answer_request-Runs use_mps p all = elim (Bool-cases p.failed) [
    | inl bad ↦ (record { manager = p.manager; response = none; server = none }, simp bad, all)
    | inr good ↦
        let (rm', by, after) = refresh-Runs str devices p.manager all in
        (
          record {
            manager = rm';
            response = some (response_of p.vgpu rm'.virtual_gpus);
            server = mps_copy sys use_mps p.vgpu.provisioned_gpu;
          },
          simp (good, by),
          after,
        )
  ]

  -- A virtual GPU that a UUID named is not provisioned again.
  provision-named :
      (rm : ResourceManager) (q : RequestVirtualGpu) (p : Place) (v : VirtualGpu)
      → q.profileid ≡ none
      → provision nv rm q p v ≡ returns (record { manager = rm; vgpu = v; failed = false })
  unfolding provision
  provision-named rm q p v e = simp e

  request_in_list :
      (rm : ResourceManager) (q : RequestVirtualGpu) (id : ℕ) (v : VirtualGpu)
      → AllEntries rm.provisioned_gpus
      → (r : RequestedGpu) × (request_found str devices nv sys rm q (some (in_list id, v))
          ≡ returns r)
        × AllEntries r.manager.provisioned_gpus
  unfolding request_found
  request_in_list rm q id v all =
      let (p, by, after) = provision-list rm q id v all in
      let (r, answered, last) = answer_request-Runs q.use_mps p after in (r, rw by answered, last)

  request_in_map :
      (rm : ResourceManager) (q : RequestVirtualGpu) (uuid : String) (v : VirtualGpu)
      → q.profileid ≡ none
      → AllEntries rm.provisioned_gpus
      → (r : RequestedGpu) × (request_found str devices nv sys rm q (some (in_map uuid, v))
          ≡ returns r)
        × AllEntries r.manager.provisioned_gpus
  unfolding request_found
  request_in_map rm q uuid v e all =
      let by = provision-named rm q (in_map uuid) v e in
      let (r, answered, last) =
        answer_request-Runs q.use_mps (record { manager = rm; vgpu = v; failed = false }) all in
      (r, rw by answered, last)

  find_requested-cases :
      (rm : ResourceManager) (q : RequestVirtualGpu)
      → (find_requested rm q ≡ none)
        ⊎ ((id : ℕ) × (v : VirtualGpu) × (find_requested rm q ≡ some (in_list id, v)))
        ⊎ ((uuid : String) × (v : VirtualGpu) × (q.profileid ≡ none)
            × (find_requested rm q ≡ some (in_map uuid, v)))
  unfolding find_requested
  find_requested-cases rm q = elim (Option-cases q.profileid) [
    | inr (id, given_id) ↦ elim (Option-cases (find_virtual_gpu id rm.virtual_gpus)) [
      | inl absent ↦ inl (rw (given_id, absent, find_requested) refl)
      | inr (v, found) ↦ inr (inl (id, v, rw (given_id, found, find_requested) refl))
    ]
    | inl no_id ↦ elim (Option-cases q.device_uuid) [
      | inl no_uuid ↦ inl (rw (no_id, no_uuid, find_requested) refl)
      | inr (uuid, named) ↦ elim (Option-cases (get_virtual_gpu rm uuid)) [
        | inl absent ↦ inl (rw (no_id, named, absent, find_requested) refl)
        | inr (v, found) ↦ inr (inr (uuid, v, no_id, rw (no_id, named, found, find_requested) refl))
      ]
    ]
  ]

  pub request-Runs :
      (rm : ResourceManager) (q : RequestVirtualGpu)
      → AllEntries rm.provisioned_gpus
      → (r : RequestedGpu) × (request_virtual_gpu str devices nv sys rm q ≡ returns r)
        × AllEntries r.manager.provisioned_gpus
  unfolding request_virtual_gpu
  request-Runs rm q all = elim (find_requested-cases rm q) [
    | inl absent ↦ (
      record { manager = rm; response = none; server = none },
      rw absent (unfold request_found in refl),
      all,
    )
    | inr (inl (id, v, found)) ↦ rw found (request_in_list rm q id v all)
    | inr (inr (uuid, v, no_id, found)) ↦ rw found (request_in_map rm q uuid v no_id all)
  ]

  release_found-Runs :
      (rm : ResourceManager) (uuid : String) (v : VirtualGpu)
      → AllEntries rm.provisioned_gpus
      → IsEntry uuid v
      → (r : ResourceManager × ReleaseVirtualGpuResponse) × (release_found str devices nv sys rm
            uuid
            (some v)
          ≡ returns r)
        × AllEntries r.0.provisioned_gpus
  unfolding release_found
  release_found-Runs rm uuid v all entry =
      let (r, by, after) = release_entry-Keeps nv sys rm uuid v all entry in
      elim (Bool-cases r.1) [
        | inl bad ↦ ((r.0, unsuccessful), simp (by, bad), after)
        | inr good ↦
            let (rm', again, last) = refresh-Runs str devices (r.0) after in
            (
              (
                rm',
                record {
                  success = true;
                  available_virtual_gpus = map map_to_seti_virtual_gpu rm'.virtual_gpus;
                },
              ),
              simp (by, good, again),
              last,
            )
      ]

  pub release-Runs :
      (rm : ResourceManager) (uuid : String)
      → AllEntries rm.provisioned_gpus
      → (r : ResourceManager × ReleaseVirtualGpuResponse) × (release_virtual_gpu str devices nv sys
            rm uuid
          ≡ returns r)
        × AllEntries r.0.provisioned_gpus
  unfolding release_virtual_gpu find_virtual_gpu_using_uuid
  release-Runs rm uuid all = elim (Option-cases (lookup uuid rm.provisioned_gpus)) [
    | inl absent ↦ ((rm, unsuccessful), rw absent (unfold release_found in refl), all)
    | inr (v, at) ↦ rw at (release_found-Runs rm uuid v all (all uuid v at))
  ]
