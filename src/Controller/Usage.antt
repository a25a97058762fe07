-- ===== src/Controller/Usage.antt =====
-- `reconcileResourceConfig` and the books of the GPUs.
use fa_st_gshare.Common.Dict.{Dict, lookup, insert, lookup-insert}
use fa_st_gshare.Common.Float.{Floats}
use fa_st_gshare.Common.Outcome.{returns}
use fa_st_gshare.Common.{
  ◌≡◌, ◌⊎◌, refl, eq_iff, Bool, Bool-cases, some, List, String, str_eq, arith, inl, inr, subst, sym,
  ◌∙◌, ap,
}
use fa_st_gshare.Kube.{FastPod, Pod}
use fa_st_gshare.Proto.{Rpc}
use fa_st_gshare.Manager.State.{GpuDevInfo, Node, Manager, put_gpu}
use fa_st_gshare.Manager.Validate.{Strconv}
use fa_st_gshare.Controller.Reconfigure.{Reconfigured, reconcile_resource_config}
use fa_st_gshare.Controller.ReconfigureLaws.{Rewrites, reconcile-Rounds}

-- What a dictionary holds after one write: the new value at its key, or what it held.
lookup-insert_at {ℓ} :
    {V : Type ℓ} (k j : String) (v : V) (m : Dict V) {w : V}
    → lookup j (insert k v m) ≡ some w
    → ((k ≡ j) × (v ≡ w)) ⊎ (lookup j m ≡ some w)
lookup-insert_at k j v m e = elim (Bool-cases (str_eq k j)) [
  | inl same ↦ inl (ground (arith, eq_iff k j), ground (arith, lookup-insert k j v m))
  | inr other ↦ inr (ground (arith, lookup-insert k j v m))
]

module _ {F : Type 0} ⦃fl : Floats F⦄ where
  -- A state whose GPUs were there before, with the same compute share and memory in use.
  abbrev SameUsage : Manager F → Manager F → Type 0
  SameUsage m m' =
      (name id : String) (n' : Node F) (g' : GpuDevInfo F)
      → lookup name m'.nodes ≡ some n'
      → lookup id n'.vgpu_id2_gpu ≡ some g'
      → (n : Node F) × (g : GpuDevInfo F) × (lookup name m.nodes ≡ some n)
        × (lookup id n.vgpu_id2_gpu ≡ some g)
        × (g.usage ≡ g'.usage)
        × (g.usage_mem ≡ g'.usage_mem)

  Rewrites-SameUsage : (m m' : Manager F) → Rewrites m m' → SameUsage m m'
  Rewrites-SameUsage m m' w name id n' g' at found =
      let new : GpuDevInfo F = record w.gpu { fast_pod_list = w.pods } in
      let written : lookup name (insert w.name (put_gpu w.node w.id new) m.nodes) ≡ some n' =
        subst (λ (k : Manager F). lookup name k.nodes ≡ some n') (sym w.manager_eq) at in
      elim (lookup-insert_at w.name name _ m.nodes written) [
        | inr old ↦ (n', g', old, found, refl, refl)
        | inl (same_name, node_eq) ↦
            let here : lookup name m.nodes ≡ some w.node =
              subst (λ k. lookup k m.nodes ≡ some w.node) same_name w.at in
            let entry : lookup id (insert w.id new w.node.vgpu_id2_gpu) ≡ some g' =
              subst (λ (k : Node F). lookup id k.vgpu_id2_gpu ≡ some g') (sym node_eq) found in
            elim (lookup-insert_at w.id id new w.node.vgpu_id2_gpu entry) [
              | inr old ↦ (w.node, g', here, old, refl, refl)
              | inl (same_id, gpu_eq) ↦ (
                w.node,
                w.gpu,
                here,
                subst (λ k. lookup k w.node.vgpu_id2_gpu ≡ some w.gpu) same_id w.found,
                ap (λ (k : GpuDevInfo F). k.usage) gpu_eq,
                ap (λ (k : GpuDevInfo F). k.usage_mem) gpu_eq,
              )
            ]
      ]

  trans-SameUsage : (m1 m2 m3 : Manager F) → SameUsage m1 m2 → SameUsage m2 m3 → SameUsage m1 m3
  trans-SameUsage m1 m2 m3 first later name id n3 g3 at3 found3 =
      let (n2, g2, at2, found2, usage2, mem2) = later name id n3 g3 at3 found3 in
      let (n1, g1, at1, found1, usage1, mem1) = first name id n2 g2 at2 found2 in
      (n1, g1, at1, found1, usage1 ∙ usage2, mem1 ∙ mem2)

  -- Every GPU that `reconcileResourceConfig` leaves was there before, with the same compute share
  -- and the same memory in use, whatever resources it gives to the listed pods.
  pub reconcile_resource_config-usage :
      (conv : Strconv F) (rpc : Rpc) (update : Pod → Bool) (fp : FastPod) (m : Manager F)
      (pods : List Pod) {r : Reconfigured F}
      → reconcile_resource_config conv rpc update fp m pods ≡ returns r
      → (name id : String) (n' : Node F) (g' : GpuDevInfo F) → lookup name r.manager.nodes ≡ some n'
      → lookup id n'.vgpu_id2_gpu ≡ some g'
      → (n : Node F) × (g : GpuDevInfo F) × (lookup name m.nodes ≡ some n)
        × (lookup id n.vgpu_id2_gpu ≡ some g)
        × (g.usage ≡ g'.usage)
        × (g.usage_mem ≡ g'.usage_mem)
  reconcile_resource_config-usage conv rpc update fp m pods e =
      reconcile-Rounds SameUsage (λ a name id n g at found. (n, g, at, found, refl, refl))
        trans-SameUsage Rewrites-SameUsage conv rpc update fp m pods e
