-- ===== src/Configurator/ResourceLaws.antt =====
-- `Access` and `Release`: what is left of a virtual GPU, and which instances.
use fa_st_gshare.Common.Outcome.{Outcome, returns, panics}
use fa_st_gshare.Common.{
  ℕ, zero, suc, ◌-◌, Bool, ◌≡◌, ◌≢◌, true, false, Option, none, some, List, [], ◌∷◌, String, arith,
  refl, subst, ◌∙◌, inl, inr, Bool-cases, Option-cases,
}
use fa_st_gshare.Configurator.Mps.{System, stop_mps_daemon}
use fa_st_gshare.Configurator.Resource.{
  MigProperties, Gpu, VirtualGpu, Nvml, NvmlCall, created_gpu_instance, created_compute_instance,
  destroy_gpu_instance, destroy_compute_instance, Accessed, Released, marked, late, describe,
  access_marked, access_instance, access, destroy_instances, release,
}

-- What NVML documents of `Destroy`: a GPU instance with a compute instance is in use and stays. It
-- stays as well where NVML reports another error, which the flag `fails` stands for.
abbrev pub leaves : Bool → ℕ → ℕ → ℕ
leaves true computes gpus = gpus
leaves false zero gpus = gpus - 1
leaves false (suc n) gpus = gpus

-- The GPU instances that a row of calls leaves of `gpus` of them, with `computes` compute instances.
abbrev pub gpu_instances : Nvml → ℕ → ℕ → List NvmlCall → ℕ
gpu_instances nv computes gpus [] = gpus
gpu_instances nv computes gpus (created_gpu_instance n ∷ rest) =
    gpu_instances nv computes (suc gpus) rest
gpu_instances nv computes gpus (created_compute_instance n ∷ rest) =
    gpu_instances nv (suc computes) gpus rest
gpu_instances nv computes gpus (destroy_gpu_instance n ∷ rest) =
    gpu_instances nv computes (leaves nv.destroy_gpu_fails computes gpus) rest
gpu_instances nv computes gpus (destroy_compute_instance n ∷ rest) =
    gpu_instances nv (leaves nv.destroy_compute_fails 0 computes) gpus rest

abbrev pub gpu_key : Option Gpu → Option String
gpu_key none = none
gpu_key (some g) = some g.uuid

-- What a call of `Access` on a virtual GPU that was not provisioned leaves, on a device without
-- instances before.
pub record AccessOk (nv : Nvml) (r : Accessed) : Type 0 where
  -- after an error nothing is entered; a GPU instance is left when the virtual GPU is marked as
  -- provisioned, and none is left when it is not and no `Destroy` of one failed
  pub failure :
      r.failed ≡ true
      → (r.entered ≡ none)
        × (r.vgpu.is_provisioned ≡ true → gpu_instances nv 0 0 r.calls ≡ 1)
        × (r.vgpu.is_provisioned ≡ false
            → nv.destroy_gpu_fails ≡ false
            → gpu_instances nv 0 0 r.calls ≡ 0)
  -- without one, the virtual GPU is provisioned, its GPU is entered, and one instance is left
  pub success :
      r.failed ≡ false
      → (r.vgpu.is_provisioned ≡ true)
        × (gpu_instances nv 0 0 r.calls ≡ 1)
        × (r.entered ≢ none)
        × (r.entered ≡ gpu_key r.vgpu.provisioned_gpu)

returned :
    {nv : Nvml} {a r : Accessed}
    → ◌≡◌ {A = Outcome Accessed} (returns a) (returns r)
    → AccessOk nv a
    → AccessOk nv r
returned {nv = nv} e ok = subst (λ k. AccessOk nv k) (same e) ok
  where
    same : {a r : Accessed} → ◌≡◌ {A = Outcome Accessed} (returns a) (returns r) → a ≡ r
    same e = cc

stopped : {r : Accessed} → ◌≡◌ {A = Outcome Accessed} panics (returns r) → ⊥
stopped e = cc

module _ (nv : Nvml) where
  describe-AccessOk :
      (v : VirtualGpu) (gi ci : ℕ) → v.is_provisioned ≡ true → AccessOk nv (describe nv v gi ci)
  unfolding describe
  describe-AccessOk v gi ci h = record { failure = ground arith; success = ground arith }

  access_marked-AccessOk :
      (v : VirtualGpu) (gi ci : ℕ)
      → v.is_provisioned ≡ true
      → AccessOk nv (access_marked nv v gi ci)
  unfolding access_marked
  access_marked-AccessOk v gi ci h =
      let d = describe-AccessOk v gi ci h in
      record { failure = ground (arith, d.failure); success = ground (arith, d.success) }

  access_instance-AccessOk :
      (v : VirtualGpu) (m : MigProperties) (gi : ℕ)
      → v.is_provisioned ≡ false
      → AccessOk nv (access_instance nv v m gi)
  unfolding access_instance
  access_instance-AccessOk v m gi h = elim (Option-cases nv.new_compute_instance) [
    | inl none_made ↦ record { failure = ground arith; success = ground arith }
    | inr (ci, made) ↦
        let d = access_marked-AccessOk (marked v m gi ci) gi ci refl in
        record { failure = ground (arith, d.failure); success = ground (arith, d.success) }
  ]

  -- What `Access` of a virtual GPU that is not provisioned leaves, if NVML keeps a GPU instance
  -- that has a compute instance. Without an error the virtual GPU is provisioned, one GPU instance
  -- is left, and its GPU is entered under its UUID. With an error nothing is entered; when it came
  -- before the virtual GPU was marked as provisioned, no GPU instance is left unless its `Destroy`
  -- failed; when it came after that, the GPU instance is left, since it is destroyed before its
  -- compute instance.
  pub access-AccessOk :
      (v : VirtualGpu) {r : Accessed}
      → v.is_provisioned ≡ false
      → access nv v ≡ returns r
      → AccessOk nv r
  unfolding access
  access-AccessOk v h e = elim (Bool-cases nv.device_handle_fails) [
    | inl lost ↦
        returned (rw (h, lost, access) at e)
          (record { failure = ground arith; success = ground arith })
    | inr there ↦ elim (Option-cases v.mig) [
      | inl none_given ↦ absurd (stopped (rw (h, there, none_given, access) at e))
      | inr (m, mig) ↦ elim (Option-cases nv.new_gpu_instance) [
        | inl none_made ↦
            returned (rw (h, there, mig, none_made, access) at e)
              (record { failure = ground arith; success = ground arith })
        | inr (gi, made) ↦
            returned (rw (h, there, mig, made, access) at e) (access_instance-AccessOk v m gi h)
      ]
    ]
  ]

  pub access_after_failure :
      (v : VirtualGpu) (m : MigProperties) (gi ci : ℕ)
      → v.is_provisioned ≡ false
      → v.mig ≡ some m
      → nv.device_handle_fails ≡ false
      → nv.new_gpu_instance ≡ some gi
      → nv.gpu_instance_info_fails ≡ false
      → nv.compute_profile_fails ≡ false
      → nv.new_compute_instance ≡ some ci
      → nv.compute_instance_info_fails ≡ true
      → (r : Accessed) × (access nv v ≡ returns r)
        × (r.failed ≡ true)
        × (r.vgpu.provisioned_gpu ≡ v.provisioned_gpu)
        × ((r' : Accessed) × (access nv r.vgpu ≡ returns r') × (r'.failed ≡ false))
  unfolding access access_instance access_marked
  access_after_failure v m gi ci h mig handle gpu_made info profile made lost =
      let v' = marked v m gi ci in
      (
        late v' gi ci,
        rw (h, handle, mig, gpu_made, info, profile, made, lost, access) refl,
        refl,
        refl,
        (record { vgpu = v'; failed = false; calls = []; entered = none }, refl, refl),
      )

  destroy_instances-cases :
      (v : VirtualGpu) (g : Gpu) (m : MigProperties)
      → v.provisioned_gpu ≡ some g
      → let r = destroy_instances nv v g m in
        (r.failed ≡ false
          → (r.vgpu.is_provisioned ≡ false)
            × (r.vgpu.provisioned_gpu ≡ none)
            × (r.left ≡ some g.uuid))
        × (r.failed ≡ true
            → (r.vgpu.is_provisioned ≡ v.is_provisioned)
              × (r.vgpu.provisioned_gpu ≡ some g)
              × (r.left ≡ none))
  unfolding destroy_instances
  destroy_instances-cases v g m h = ground arith

  -- A `Release` of a provisioned virtual GPU that is not physical and has a GPU and its MIG
  -- properties comes back. Without an error the virtual GPU is not provisioned any more and its GPU
  -- has left the map; with one it stays provisioned, and nothing has left.
  pub release_lem :
      (sys : System) (v : VirtualGpu) (g : Gpu) (m : MigProperties)
      → v.is_provisioned ≡ true
      → v.physical ≡ false
      → v.provisioned_gpu ≡ some g
      → v.mig ≡ some m
      → (r : Released) × (release nv sys v ≡ returns r)
        × (r.failed ≡ false
            → (r.vgpu.is_provisioned ≡ false)
              × (r.vgpu.provisioned_gpu ≡ none)
              × (r.left ≡ some g.uuid))
        × (r.failed ≡ true → (r.vgpu.is_provisioned ≡ true) × (r.left ≡ none))
  unfolding release
  release_lem sys v g m on virtual has mig =
      let g' = record g { mps_server = (stop_mps_daemon sys g.mps_server).0 } in
      let v' = record v { provisioned_gpu = some g' } in
      let c = destroy_instances-cases v' g' m refl in
      (
        destroy_instances nv v' g' m,
        simp (on, virtual, has, mig) refl,
        c.0,
        λ h. ((c.1 h).0 ∙ on, (c.1 h).2),
      )
