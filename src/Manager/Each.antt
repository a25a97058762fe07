-- ===== src/Manager/Each.antt =====
-- A property of every GPU that the controller manager knows, kept by a request when placing a
-- pod and claiming a type keep it.
use fa_st_gshare.Common.Int.{ℤ}
use fa_st_gshare.Common.Dict.{Dict, lookup, insert, lookup-insert}
use fa_st_gshare.Common.Float.{Floats}
use fa_st_gshare.Common.Outcome.{returns}
use fa_st_gshare.Common.{◌≡◌, ◌⊎◌, some, String, str_eq, arith, Bool-cases, inl, inr, subst, sym}
use fa_st_gshare.Bitmap.{Bitmap}
use fa_st_gshare.Proto.{Rpc}
use fa_st_gshare.Manager.State.{GpuDevInfo, Node, Manager, ResourceRequest, SelectionResult}
use fa_st_gshare.Manager.Request.{
  Requested, placed, claim_type, place, book, request_gpu_and_update_config,
}
use fa_st_gshare.Manager.Outcomes.{request-Outcomes}

-- What a dictionary holds after one write: the new value, or what it held.
pub lookup-insert_cases {ℓ} :
    {V : Type ℓ} (k j : String) (v : V) (m : Dict V) {w : V}
    → lookup j (insert k v m) ≡ some w
    → (v ≡ w) ⊎ (lookup j m ≡ some w)
lookup-insert_cases k j v m e = elim (Bool-cases (str_eq k j)) [
  | inl same ↦ inl (ground (arith, lookup-insert k j v m))
  | inr other ↦ inr (ground (arith, lookup-insert k j v m))
]

module _ {F : Type 0} where
  abbrev pub EachGpu : (GpuDevInfo F → Type 0) → Manager F → Type 0
  EachGpu P m =
      (name id : String) (n : Node F) (g : GpuDevInfo F)
      → lookup name m.nodes ≡ some n
      → lookup id n.vgpu_id2_gpu ≡ some g
      → P g

module _ {F : Type 0} ⦃fl : Floats F⦄ where
  -- Writing one GPU that has the property.
  pub book-EachGpu :
      (P : GpuDevInfo F → Type 0) (m : Manager F) (sel : SelectionResult) (n : Node F)
      (ports : Bitmap) (g : GpuDevInfo F)
      → EachGpu P m
      → lookup sel.node_name m.nodes ≡ some n
      → P g
      → EachGpu P (book m sel n ports g)
  book-EachGpu P m sel n ports g all at p name id n' g' e f =
      elim (lookup-insert_cases sel.node_name name _ m.nodes e) [
        | inl written ↦
            elim (lookup-insert_cases sel.vgpu_uuid id g n.vgpu_id2_gpu
              (subst (λ (k : Node F). lookup id k.vgpu_id2_gpu ≡ some g') (sym written) f)) [
                | inl new ↦ subst P new p
                | inr old ↦ all sel.node_name id n g' at old
              ]
        | inr before ↦ all name id n' g' before f
      ]

  pub request-EachGpu :
      (P : GpuDevInfo F → Type 0) (rpc : Rpc) (m : Manager F) (sel : SelectionResult)
      (req : ResourceRequest F) (key : String) {r : Requested F}
      → EachGpu P m
      → ((g : GpuDevInfo F) → P g → P (claim_type req g))
      → ((ports : Bitmap) (g : GpuDevInfo F) (ports' : Bitmap) (g' : GpuDevInfo F) (port : ℤ)
          → P g
          → place req.allocation_type req key ports g ≡ returns (placed ports' g' port)
          → P g')
      → request_gpu_and_update_config rpc m sel req key ≡ returns r
      → EachGpu P r.manager
  request-EachGpu P rpc m sel req key all claims places e =
      elim (request-Outcomes rpc m sel req key e) [
        | inl (same, _, _) ↦ rw same all
        | inr (n, g, at, found, inl ok) ↦ rw ok.manager_eq (
            book-EachGpu P m sel n ok.ports ok.gpu all at
              (places _ _ _ _ _ (claims g (all _ _ n g at found)) ok.by_place))
        | inr (n, g, at, found, inr bad) ↦ rw bad.manager_eq (
            book-EachGpu P m sel n n.daemon_port_alloc (claim_type req g) all at
              (claims g (all _ _ n g at found)))
      ]
