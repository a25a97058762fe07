-- ===== src/Configurator/ServerFlags.antt =====
-- The flag `isEnabled` of an MPS server, which two operations do not keep: `RequestVirtualGPU`, which
-- sets up a copy of the server, and the refresh, which describes a whole device anew.
use fa_st_gshare.Common.Dict.{Dict, insert, lookup-insert_self}
use fa_st_gshare.Common.Outcome.{Outcome, returns, ◌>>=◌, >>=-returns}
use fa_st_gshare.Common.{
  ℕ, ◌≡◌, refl, Bool, true, false, Option, none, some, List, [], ◌∷◌, String, ◌⊎◌, Bool-cases, inl,
  inr, ap,
}
use fa_st_gshare.Configurator.Mps.{System}
use fa_st_gshare.Configurator.Resource.{VirtualGpu, Nvml}
use fa_st_gshare.Configurator.Server.{disable_mps_handler, disable_mps_on}
use fa_st_gshare.Configurator.Devices.{
  Strings, Device, MigMode, mig_unsupported, mig_disabled, physical_gpu, get_sm_count,
}
use fa_st_gshare.Configurator.Discovery.{
  discover_physical, discover_by_mode, describe_device, discover_device, discover_devices,
  get_available_virtual_resources, sms_or_zero,
}
use fa_st_gshare.Configurator.Handlers.{
  ResourceManager, refresh, provision, Provisioned, RequestVirtualGpu, RequestedGpu, answer_request,
  request_found, request_virtual_gpu, find_requested, mps_copy, Place,
}

-- What came back, without the copy of the server.
without_server :
    {a r : RequestedGpu}
    → ◌≡◌ {A = Outcome RequestedGpu} (returns a) (returns r)
    → ◌≡◌ {A = Outcome RequestedGpu}
        (returns (record a { server = none }))
        (returns (record r { server = none }))
without_server e =
    ap (λ (o : Outcome RequestedGpu). o >>= λ x. returns (record x { server = none })) e

module _ (str : Strings) (devices : List Device) (nv : Nvml) (sys : System) where
  answer_request-same :
      (use_mps : Bool) (p : Provisioned) {r : RequestedGpu}
      → answer_request str devices sys use_mps p ≡ returns r
      → answer_request str devices sys false p ≡ returns (record r { server = none })
  unfolding answer_request mps_copy
  answer_request-same use_mps p e = elim (Bool-cases p.failed) [
    | inl bad ↦ rw (bad, answer_request) (without_server (rw (bad, answer_request) at e))
    | inr good ↦
        let (rm', by, e1) =
          >>=-returns (refresh str devices p.manager) _ (rw (good, answer_request) at e) in
        rw (good, by, answer_request) (without_server e1)
  ]

  request_found-same :
      (rm : ResourceManager) (q : RequestVirtualGpu) (found : Option (Place × VirtualGpu))
      {r : RequestedGpu}
      → request_found str devices nv sys rm q found ≡ returns r
      → request_found str devices nv sys rm (record q { use_mps = false }) found
        ≡ returns (record r { server = none })
  unfolding request_found provision
  request_found-same rm q none e = without_server e
  request_found-same rm q (some (p, v)) e =
      let (provisioned, by, e1) = >>=-returns (provision nv rm q p v) _ e in
      rw by (answer_request-same q.use_mps provisioned e1)

  -- A request leaves the state that it would leave without MPS: what the set-up of the server
  -- records is lost, and the server counts as not enabled although its daemon may run.
  pub request_virtual_gpu-server :
      (rm : ResourceManager) (q : RequestVirtualGpu) {r : RequestedGpu}
      → request_virtual_gpu str devices nv sys rm q ≡ returns r
      → request_virtual_gpu str devices nv sys rm (record q { use_mps = false })
        ≡ returns (record r { server = none })
  unfolding request_virtual_gpu find_requested
  request_virtual_gpu-server rm q e = request_found-same rm q (find_requested rm q) e

-- A device that is not in MIG mode.
abbrev pub IsWhole : MigMode → Type 0
IsWhole mode = (mode ≡ mig_unsupported) ⊎ (mode ≡ mig_disabled)

module _ (str : Strings) (sys : System) where
  whole_mode :
      (mode : MigMode) (d : Device) (name uuid : String) (memory : ℕ) (map : Dict VirtualGpu)
      → IsWhole mode
      → discover_by_mode str mode 0 d name uuid memory ([], map)
        ≡ discover_physical str 0 name uuid memory
            (sms_or_zero str (get_sm_count str name))
            ([], map)
  unfolding discover_by_mode
  whole_mode mode d name uuid memory map (inl e) = rw e refl
  whole_mode mode d name uuid memory map (inr e) = rw e refl

  -- After a refresh of a node with one whole GPU, `DisableMPS` of this GPU reports success and
  -- changes nothing, whatever its server was before: it tells no daemon to quit.
  pub refresh-disable :
      (rm : ResourceManager) (d : Device) (name uuid : String) (memory : ℕ)
      → d.name ≡ some name
      → d.uuid ≡ some uuid
      → d.memory_total ≡ some memory
      → IsWhole d.mig_mode
      → (rm' : ResourceManager) × (refresh str (d ∷ []) rm ≡ returns rm')
        × (disable_mps_handler sys rm'.provisioned_gpus uuid
            ≡ returns (record {
              gpus = rm'.provisioned_gpus;
              response = record { success = true };
              failed = false;
            }))
  unfolding refresh get_available_virtual_resources discover_devices discover_device describe_device
      disable_mps_handler disable_mps_on physical_gpu discover_physical
  refresh-disable rm d name uuid memory named known sized whole =
      let v = physical_gpu str 0 name uuid memory (sms_or_zero str (get_sm_count str name)) in
      (
        record rm { virtual_gpus = v ∷ []; provisioned_gpus = insert uuid v rm.provisioned_gpus },
        simp (
          named,
          known,
          sized,
          whole_mode d.mig_mode d name uuid memory rm.provisioned_gpus whole,
        ),
        rw (lookup-insert_self uuid v rm.provisioned_gpus, disable_mps_handler) refl,
      )
