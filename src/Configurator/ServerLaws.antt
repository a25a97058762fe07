-- ===== src/Configurator/ServerLaws.antt =====
-- What the handlers of a configurator leave, and what the controller manager makes of a GPU.
use fa_st_gshare.Common.Dict.{Dict, lookup, lookup-insert_self}
use fa_st_gshare.Common.Float.{Floats}
use fa_st_gshare.Common.Outcome.{returns, ◌>>=◌, deref}
use fa_st_gshare.Common.{
  Bool, true, false, ◌≡◌, Option, none, some, String, arith, refl, ap, ◌∙◌, if◌then◌else◌,
}
use fa_st_gshare.Proto.{EnableMpsResponse, DisableMpsResponse, GetGpuResponse}
use fa_st_gshare.Manager.State.{GpuDevInfo}
use fa_st_gshare.Manager.Schedule.{selected_gpu, new_gpu_dev_info}
use fa_st_gshare.Configurator.Mps.{
  MpsServer, System, MpsError, setup_mps_environment, stop_mps_daemon,
}
use fa_st_gshare.Configurator.Resource.{Gpu, VirtualGpu}
use fa_st_gshare.Configurator.Server.{
  Handled, put_server, enabled_gpu, disabled_gpu, map_to_seti_virtual_gpu, enable_mps_on,
  enable_mps_handler, disable_mps_on, disable_mps_handler, get_gpu_handler,
}

-- Whether the server of a virtual GPU is enabled; `none` where there is no GPU.
abbrev pub enabled_at : Option VirtualGpu → Option Bool
enabled_at none = none
enabled_at (some v) = elim v.provisioned_gpu [ none ↦ none | some g ↦ some g.mps_server.is_enabled ]

choose :
    {A : Type 0} (P : A → Type 0) (b : Bool) {x y : A}
    → (b ≡ true → P x)
    → (b ≡ false → P y)
    → P (if b then x else y)
choose P true h k = h refl
choose P false h k = k refl

module _ (sys : System) (gpus : Dict VirtualGpu) (uuid : String) (v : VirtualGpu) (g : Gpu) where
  put_enabled :
      (s : MpsServer) → enabled_at (lookup uuid (put_server gpus uuid v g s)) ≡ some s.is_enabled
  put_enabled s =
      rw
        (lookup-insert_self uuid (record v { provisioned_gpu = some (record g { mps_server = s }) })
          gpus)
        refl

  enabled_gpu_lem :
      (p : MpsServer × Option MpsError)
      → let r = enabled_gpu gpus uuid v g p in
        (r.failed ≡ false → enabled_at (lookup uuid r.gpus) ≡ some true)
        × (r.failed ≡ true → r.response.success ≡ false)
  enabled_gpu_lem (s, none) = (λ ok. put_enabled (record s { is_enabled = true }), λ bad. cc)
  enabled_gpu_lem (s, some e) = (λ ok. cc, λ bad. refl)

  known_enabled :
      lookup uuid gpus ≡ some v
      → v.provisioned_gpu ≡ some g
      → enabled_at (lookup uuid gpus) ≡ some g.mps_server.is_enabled
  known_enabled at has = rw at (rw has refl)

  enable_mps_on-enabled :
      lookup uuid gpus ≡ some v
      → v.provisioned_gpu ≡ some g
      → let r = enable_mps_on sys gpus uuid v g in
        (r.failed ≡ false → enabled_at (lookup uuid r.gpus) ≡ some true)
        × (r.failed ≡ true → r.response.success ≡ false)
  unfolding enable_mps_on
  enable_mps_on-enabled at has =
      choose
        (λ (r : Handled EnableMpsResponse).
          (r.failed ≡ false → enabled_at (lookup uuid r.gpus) ≡ some true)
          × (r.failed ≡ true → r.response.success ≡ false))
        g.mps_server.is_enabled (λ on. (λ ok. known_enabled at has ∙ ap some on, λ bad. cc))
        (λ off. enabled_gpu_lem (setup_mps_environment sys g.mps_server))

  -- `EnableMPS` of a known device with a GPU comes back; without an error its server is enabled in
  -- the new state, and with one the response says that it failed.
  pub enable_mps_handler-enabled :
      lookup uuid gpus ≡ some v
      → v.provisioned_gpu ≡ some g
      → (r : Handled EnableMpsResponse) × (enable_mps_handler sys gpus uuid ≡ returns r)
        × (r.failed ≡ false → enabled_at (lookup uuid r.gpus) ≡ some true)
        × (r.failed ≡ true → r.response.success ≡ false)
  unfolding enable_mps_handler
  enable_mps_handler-enabled at has =
      let c = enable_mps_on-enabled at has in
      (
        enable_mps_on sys gpus uuid v g,
        rw (at, enable_mps_handler)
            (ap (λ o. deref o >>= λ k. returns (enable_mps_on sys gpus uuid v k)) has),
        c.0,
        c.1,
      )

  disabled_gpu_lem :
      (p : MpsServer × Option MpsError)
      → let r = disabled_gpu gpus uuid v g p in
        r.response.success ≡ true → enabled_at (lookup uuid r.gpus) ≡ some false
  disabled_gpu_lem (s, none) ok = put_enabled (record s { is_enabled = false })
  disabled_gpu_lem (s, some e) ok = cc

  disable_mps_on-disabled :
      lookup uuid gpus ≡ some v
      → v.provisioned_gpu ≡ some g
      → let r = disable_mps_on sys gpus uuid v g in
        r.response.success ≡ true → enabled_at (lookup uuid r.gpus) ≡ some false
  unfolding disable_mps_on
  disable_mps_on-disabled at has =
      choose
        (λ (r : Handled DisableMpsResponse).
          r.response.success ≡ true → enabled_at (lookup uuid r.gpus) ≡ some false)
        g.mps_server.is_enabled (λ on. disabled_gpu_lem (stop_mps_daemon sys g.mps_server))
        (λ off ok. known_enabled at has ∙ ap some off)

  -- `DisableMPS` of a known device with a GPU comes back, and a success leaves its server disabled
  -- in the new state.
  pub disable_mps_handler-disabled :
      lookup uuid gpus ≡ some v
      → v.provisioned_gpu ≡ some g
      → (r : Handled DisableMpsResponse) × (disable_mps_handler sys gpus uuid ≡ returns r)
        × (r.response.success ≡ true → enabled_at (lookup uuid r.gpus) ≡ some false)
  unfolding disable_mps_handler
  disable_mps_handler-disabled at has = (
    disable_mps_on sys gpus uuid v g,
    rw (at, disable_mps_handler)
        (ap (λ o. deref o >>= λ k. returns (disable_mps_on sys gpus uuid v k)) has),
    disable_mps_on-disabled at has,
  )

module _ {F : Type 0} ⦃fl : Floats F⦄ where
  -- The controller manager takes every GPU that a configurator describes for a virtual one, also a
  -- physical GPU: an entry made from the answer of `GetGPU` has `virtual` set.
  pub described_gpu-virtual :
      (gpus : Dict VirtualGpu) (uuid : String) {res : GetGpuResponse} {g : GpuDevInfo F}
      → get_gpu_handler gpus uuid ≡ some res
      → selected_gpu none res ≡ returns g
      → g.virtual ≡ true
  unfolding get_gpu_handler selected_gpu map_to_seti_virtual_gpu new_gpu_dev_info
  described_gpu-virtual gpus uuid e f = ground arith
