-- ===== src/Configurator/ServerSafety.antt =====
-- `EnableMPS` and `DisableMPS` come back, and keep the entries of `provisionedGPUs`.
use fa_st_gshare.Common.Dict.{Dict, lookup}
use fa_st_gshare.Common.Outcome.{returns}
use fa_st_gshare.Common.{◌≡◌, refl, true, false, Option, none, some, String, Option-cases, inl, inr}
use fa_st_gshare.Configurator.Mps.{
  MpsServer, MpsError, System, setup_mps_environment, stop_mps_daemon,
}
use fa_st_gshare.Configurator.Resource.{Gpu, VirtualGpu}
use fa_st_gshare.Proto.{EnableMpsResponse, DisableMpsResponse}
use fa_st_gshare.Configurator.Server.{
  Handled, put_server, enabled_gpu, disabled_gpu, enable_mps_on, enable_mps_handler, disable_mps_on,
  disable_mps_handler,
}
use fa_st_gshare.Configurator.Entries.{IsEntry, AllEntries, insert-AllEntries}
use fa_st_gshare.Configurator.EntrySafety.{choose}

-- Writing a server keeps the entry.
put_server-entries :
    (gpus : Dict VirtualGpu) (uuid : String) (v : VirtualGpu) (g : Gpu) (s : MpsServer)
    → AllEntries gpus
    → IsEntry uuid v
    → g.uuid ≡ uuid
    → AllEntries (put_server gpus uuid v g s)
put_server-entries gpus uuid v g s all entry own = insert-AllEntries gpus uuid _ all (record {
  gpu = record g { mps_server = s };
  has_gpu = refl;
  own_uuid = own;
  provisioned = entry.provisioned;
  instances = entry.instances;
})

enabled_gpu-entries :
    (gpus : Dict VirtualGpu) (uuid : String) (v : VirtualGpu) (g : Gpu)
    (p : MpsServer × Option MpsError)
    → ((s : MpsServer) → AllEntries (put_server gpus uuid v g s))
    → AllEntries (enabled_gpu gpus uuid v g p).gpus
enabled_gpu-entries gpus uuid v g (s, none) h = h (record s { is_enabled = true })
enabled_gpu-entries gpus uuid v g (s, some e) h = h s

disabled_gpu-entries :
    (gpus : Dict VirtualGpu) (uuid : String) (v : VirtualGpu) (g : Gpu)
    (p : MpsServer × Option MpsError)
    → ((s : MpsServer) → AllEntries (put_server gpus uuid v g s))
    → AllEntries (disabled_gpu gpus uuid v g p).gpus
disabled_gpu-entries gpus uuid v g (s, none) h = h (record s { is_enabled = false })
disabled_gpu-entries gpus uuid v g (s, some e) h = h s

module _ (sys : System) where
  pub enable-Runs :
      (gpus : Dict VirtualGpu) (uuid : String)
      → AllEntries gpus
      → (h : Handled EnableMpsResponse) × (enable_mps_handler sys gpus uuid ≡ returns h)
        × AllEntries h.gpus
  unfolding enable_mps_handler enable_mps_on
  enable-Runs gpus uuid all = elim (Option-cases (lookup uuid gpus)) [
    | inl absent ↦ (
      record {
        gpus = gpus;
        response = record { success = false; mps_config = none };
        failed = true;
      },
      rw (absent, enable_mps_handler) refl,
      all,
    )
    | inr (v, at) ↦
        let entry = all uuid v at in
        let g = entry.gpu in
        (
          enable_mps_on sys gpus uuid v g,
          rw (at, entry.has_gpu, enable_mps_handler) refl,
          choose (λ (h : Handled EnableMpsResponse). AllEntries h.gpus) g.mps_server.is_enabled all
              (enabled_gpu-entries gpus uuid v g (setup_mps_environment sys g.mps_server)
                (λ s. put_server-entries gpus uuid v g s all entry entry.own_uuid)),
        )
  ]

  pub disable-Runs :
      (gpus : Dict VirtualGpu) (uuid : String)
      → AllEntries gpus
      → (h : Handled DisableMpsResponse) × (disable_mps_handler sys gpus uuid ≡ returns h)
        × AllEntries h.gpus
  unfolding disable_mps_handler disable_mps_on
  disable-Runs gpus uuid all = elim (Option-cases (lookup uuid gpus)) [
    | inl absent ↦ (
      record { gpus = gpus; response = record { success = false }; failed = false },
      rw (absent, disable_mps_handler) refl,
      all,
    )
    | inr (v, at) ↦
        let entry = all uuid v at in
        let g = entry.gpu in
        (
          disable_mps_on sys gpus uuid v g,
          rw (at, entry.has_gpu, disable_mps_handler) refl,
          choose (λ (h : Handled DisableMpsResponse). AllEntries h.gpus) g.mps_server.is_enabled
              (disabled_gpu-entries gpus uuid v g (stop_mps_daemon sys g.mps_server)
                (λ s. put_server-entries gpus uuid v g s all entry entry.own_uuid))
              all,
        )
  ]
