-- ===== src/Configurator/EntrySafety.antt =====
-- The operations of a configurator come back, and keep the entries of `provisionedGPUs`.
use fa_st_gshare.Common.Dict.{Dict, insert}
use fa_st_gshare.Common.Outcome.{returns}
use fa_st_gshare.Common.{
  ℕ, ◌≡◌, ◌≢◌, ◌⊎◌, refl, Bool, true, false, ◌&&◌, none, some, [], String, arith, Bool-cases,
  Option-cases, inl, inr, if◌then◌else◌, ap,
}
use fa_st_gshare.Configurator.Mps.{System, stop_mps_daemon}
use fa_st_gshare.Configurator.Resource.{
  MigProperties, Gpu, VirtualGpu, Nvml, Accessed, Released, early, unreleased, given, marked,
  describe, access_marked, access_instance, access, destroy_instances, release,
}
use fa_st_gshare.Configurator.ResourceLaws.{AccessOk}
use fa_st_gshare.Configurator.Handlers.{ResourceManager, leave, release_entry}
use fa_st_gshare.Configurator.Entries.{IsEntry, AllEntries, insert-AllEntries, erase-AllEntries}

pub choose : {A : Type 0} (P : A → Type 0) (b : Bool) {x y : A} → P x → P y → P (if b then x else y)
choose P true h k = h
choose P false h k = k

-- What `Release` leaves of the entry at `uuid`: it leaves the map, or it stays an entry.
abbrev Left : String → Released → Type 0
Left uuid r = (r.left ≡ some uuid) ⊎ ((r.left ≡ none) × IsEntry uuid r.vgpu)

left_entries :
    (map : Dict VirtualGpu) (uuid : String) (r : Released)
    → AllEntries map
    → Left uuid r
    → AllEntries (leave r.left (insert uuid r.vgpu map))
left_entries map uuid r all (inl gone) = rw gone (erase-AllEntries map uuid r.vgpu all)
left_entries map uuid r all (inr (stays, entry)) =
    rw stays (insert-AllEntries map uuid r.vgpu all entry)

module _ (nv : Nvml) where
  describe-mig : (v : VirtualGpu) (gi ci : ℕ) → v.mig ≢ none → (describe nv v gi ci).vgpu.mig ≢ none
  unfolding describe
  describe-mig v gi ci h = ground arith

  access_instance-mig :
      (v : VirtualGpu) (m : MigProperties) (gi : ℕ)
      → v.mig ≢ none
      → (access_instance nv v m gi).vgpu.mig ≢ none
  unfolding access_instance access_marked
  access_instance-mig v m gi h = elim (Option-cases nv.new_compute_instance) [
    | inl none_made ↦ ground arith
    | inr (ci, made) ↦ ground (arith, describe-mig (marked v m gi ci) gi ci (λ e. cc))
  ]

  -- With a profile to create, `Access` comes back.
  pub access-returns :
      (v : VirtualGpu)
      → v.is_provisioned ≡ false
      → v.mig ≢ none
      → (r : Accessed) × (access nv v ≡ returns r) × (r.vgpu.mig ≢ none)
  unfolding access
  access-returns v h has = elim (Bool-cases nv.device_handle_fails) [
    | inl lost ↦ (early v [], simp (h, lost), has)
    | inr there ↦ elim (Option-cases v.mig) [
      | inl none_given ↦ absurd (has none_given)
      | inr (m, mig) ↦ elim (Option-cases nv.new_gpu_instance) [
        | inl none_made ↦ (early v [], simp (h, there, mig, none_made), has)
        | inr (gi, made) ↦
            (access_instance nv v m gi, simp (h, there, mig, made), access_instance-mig v m gi has)
      ]
    ]
  ]

  -- What it enters is an entry.
  pub accessed-IsEntry :
      (r : Accessed) (uuid : String)
      → AccessOk nv r
      → r.vgpu.mig ≢ none
      → r.entered ≡ some uuid
      → IsEntry uuid r.vgpu
  accessed-IsEntry r uuid ok has e = elim (Bool-cases r.failed) [
    | inl bad ↦ absurd (ground (arith, (ok.failure bad).0))
    | inr good ↦
        let (provisioned, _, _, key) = ok.success good in
        elim (Option-cases r.vgpu.provisioned_gpu) [
          | inl absent ↦ absurd (ground arith)
          | inr (g, has_gpu) ↦ record {
            gpu = g;
            has_gpu = has_gpu;
            own_uuid = ground arith;
            provisioned = provisioned;
            instances = λ _. has;
          }
        ]
  ]

  -- Destroying the instances of an entry: it leaves the map, or stays an entry.
  destroy_instances-entry :
      (uuid : String) (v : VirtualGpu) (g : Gpu) (m : MigProperties)
      → v.provisioned_gpu ≡ some g
      → g.uuid ≡ uuid
      → v.is_provisioned ≡ true
      → v.mig ≡ some m
      → let r = destroy_instances nv v g m in Left uuid r
  unfolding destroy_instances
  destroy_instances-entry uuid v g m has own prov mig =
      choose (Left uuid) (given m.compute_instance && nv.destroy_compute_fails)
        (inr (
          refl,
          record {
            gpu = g;
            has_gpu = has;
            own_uuid = own;
            provisioned = prov;
            instances = λ _ e. absurd (ground arith);
          },
        ))
        (choose (Left uuid) (given m.gpu_instance && nv.destroy_gpu_fails)
          (inr (
            refl,
            record {
              gpu = g;
              has_gpu = has;
              own_uuid = own;
              provisioned = prov;
              instances = λ _ e. cc;
            },
          ))
          (inl (ap some own)))

  -- `Release` of an entry comes back.
  release-returns :
      (sys : System) (uuid : String) (v : VirtualGpu)
      → IsEntry uuid v
      → (r : Released) × (release nv sys v ≡ returns r) × Left uuid r
  unfolding release
  release-returns sys uuid v entry = elim (Bool-cases v.physical) [
    | inl whole ↦ (unreleased nv v, simp (entry.provisioned, whole), inr (refl, entry))
    | inr part ↦ elim (Option-cases v.mig) [
      | inl missing ↦ absurd (entry.instances part missing)
      | inr (m, mig) ↦
          let g = entry.gpu in
          let g' = record g { mps_server = (stop_mps_daemon sys g.mps_server).0 } in
          (
            destroy_instances nv (record v { provisioned_gpu = some g' }) g' m,
            simp (entry.provisioned, part, entry.has_gpu, mig),
            destroy_instances-entry uuid (record v { provisioned_gpu = some g' }) g' m refl
                entry.own_uuid entry.provisioned mig,
          )
    ]
  ]

  -- A release leaves entries only.
  pub release_entry-Keeps :
      (sys : System) (rm : ResourceManager) (uuid : String) (v : VirtualGpu)
      → AllEntries rm.provisioned_gpus
      → IsEntry uuid v
      → (r : ResourceManager × Bool) × (release_entry nv sys rm uuid v ≡ returns r)
        × AllEntries r.0.provisioned_gpus
  unfolding release_entry
  release_entry-Keeps sys rm uuid v all entry =
      let (r, by, left) = release-returns sys uuid v entry in
      (
        (
          record rm { provisioned_gpus = leave r.left (insert uuid r.vgpu rm.provisioned_gpus) },
          r.failed,
        ),
        simp by,
        left_entries rm.provisioned_gpus uuid r all left,
      )
