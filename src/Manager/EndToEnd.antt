-- ===== src/Manager/EndToEnd.antt =====
-- A request that `ScheduleRequest` selected, handed on to `RequestGPUAndUpdateConfig`.
use fa_st_gshare.Common.Int.{neg_part}
use fa_st_gshare.Common.Dict.{lookup, lookup-insert_self}
use fa_st_gshare.Common.Float.{Floats}
use fa_st_gshare.Common.Outcome.{returns}
use fa_st_gshare.Common.{
  ℕ, ◌≡◌, ◌≢◌, subst, Option, none, some, String, arith, inl, inr, true, Option-cases, sym, ◌∙◌,
}
use fa_st_gshare.Proto.{Rpc}
use fa_st_gshare.Bitmap.{Bitmap}
use fa_st_gshare.Manager.State.{
  GpuDevInfo, Node, Manager, ResourceRequest, SelectionResult, put_gpu, FastPodRequirements,
}
use fa_st_gshare.Manager.Schedule.{Scheduled, selected, schedule_request}
use fa_st_gshare.Manager.Request.{
  Requested, refused, place_new_fast_pod, place_on_port, place_fast_pod, place_mps, place_exclusive,
  claim_type, place, request_gpu_and_update_config,
}
use fa_st_gshare.Types.{AllocationType, mps, fast_pod, exclusive, none_type}
use fa_st_gshare.Manager.Fit.{can_fit}
use fa_st_gshare.Manager.Queue.{find_in_queue-find_pod}
use fa_st_gshare.Manager.Each.{EachGpu}
use fa_st_gshare.Manager.Books.{IsBooked}
use fa_st_gshare.Manager.Outcomes.{request-Outcomes}
use fa_st_gshare.Manager.Safety.{can_fit-place}
use fa_st_gshare.Manager.Admission.{Admitted, schedule_request-Admitted}

pub none-some {ℓ} : {A : Type ℓ} {a : A} → ◌≡◌ {A = Option A} none (some a) → ⊥
none-some e = cc

pub same_value {ℓ} : {A : Type ℓ} {a b : A} → ◌≡◌ {A = Option A} (some a) (some b) → a ≡ b
same_value e = cc

module _ {F : Type 0} where
  -- Every node is kept under its own host name.
  abbrev pub HostNamed : Manager F → Type 0
  HostNamed m = (name : String) (n : Node F) → lookup name m.nodes ≡ some n → n.host_name ≡ name

module _ {F : Type 0} ⦃fl : Floats F⦄ where
  -- The codes with which placing refuses.
  place_new_fast_pod-codes :
      (req : ResourceRequest F) (r : FastPodRequirements F) (key : String) (ports : Bitmap)
      (g : GpuDevInfo F) {c : ℕ}
      → place_new_fast_pod req r key ports g ≡ refused c
      → c ≢ 2
  unfolding place_new_fast_pod place_on_port
  place_new_fast_pod-codes req r key ports g e = ground arith

  place_fast_pod-codes :
      (req : ResourceRequest F) (key : String) (ports : Bitmap) (g : GpuDevInfo F) {c : ℕ}
      → place_fast_pod req key ports g ≡ returns (refused c)
      → c ≢ 2
  unfolding place_fast_pod
  place_fast_pod-codes req key ports g {c = c} e = elim (Option-cases req.fast_pod_requirements) [
    | inl missing ↦ ground (arith, find_in_queue-find_pod key g.fast_pod_list)
    | inr (r, given) ↦ ground (
      arith,
      find_in_queue-find_pod key g.fast_pod_list,
      place_new_fast_pod-codes req r key ports g {c = c},
    )
  ]

  place_mps-codes :
      (req : ResourceRequest F) (key : String) (ports : Bitmap) (g : GpuDevInfo F) {c : ℕ}
      → place_mps req key ports g ≡ returns (refused c)
      → c ≢ 2
  unfolding place_mps
  place_mps-codes req key ports g e = ground arith

  place-codes :
      (type : AllocationType) (req : ResourceRequest F) (key : String) (ports : Bitmap)
      (g : GpuDevInfo F) {c : ℕ}
      → place type req key ports g ≡ returns (refused c)
      → c ≢ 2
  unfolding place place_exclusive
  place-codes mps req key ports g e = place_mps-codes req key ports g e
  place-codes exclusive req key ports g e = cc
  place-codes fast_pod req key ports g e = place_fast_pod-codes req key ports g e
  place-codes none_type req key ports g e = place_fast_pod-codes req key ports g e

  -- The new state holds the GPU under the names of the selection.
  pub node-Admitted :
      (m : Manager F) (req : ResourceRequest F) (s : SelectionResult) (m' : Manager F)
      → HostNamed m
      → (a : Admitted m req s m')
      → lookup s.node_name m'.nodes ≡ some (put_gpu a.node s.vgpu_uuid a.gpu)
  node-Admitted m req s m' named a =
      let host : s.node_name ≡ a.name = a.same_host ∙ named a.name a.node a.node_known in
      rw host a.node_written

  pub gpu-Admitted :
      (m : Manager F) (req : ResourceRequest F) (s : SelectionResult) (m' : Manager F)
      → HostNamed m
      → (a : Admitted m req s m') → (n : Node F) → lookup s.node_name m'.nodes ≡ some n
      → lookup s.vgpu_uuid n.vgpu_id2_gpu ≡ some a.gpu
  gpu-Admitted m req s m' named a n at =
      subst (λ (k : Node F). lookup s.vgpu_uuid k.vgpu_id2_gpu ≡ some a.gpu)
        (same_value (sym (node-Admitted m req s m' named a) ∙ at))
        (lookup-insert_self s.vgpu_uuid a.gpu a.node.vgpu_id2_gpu)

  refused_code :
      (req : ResourceRequest F) (key : String) (ports : Bitmap) (g : GpuDevInfo F) {c : ℕ}
      → IsBooked g
      → neg_part req.memory ≡ 0
      → can_fit req g ≡ returns true
      → place req.allocation_type req key ports (claim_type req g) ≡ returns (refused c)
      → (c ≢ 2) × (c ≢ 4)
  refused_code req key ports g {c = c} b h fits by = (
    place-codes req.allocation_type req key ports (claim_type req g) by,
    λ e. can_fit-place req key ports g b h fits (rw e at by),
  )

  -- A request that was selected, on nodes kept under their host names and GPUs whose books are
  -- right, with a memory that is not negative, is then never told that its node is unknown (code
  -- 2) or that the GPU's memory is exceeded (code 4).
  pub schedule-request :
      (rpc : Rpc) (m : Manager F) (req : ResourceRequest F) (key : String) {s : SelectionResult}
      {r : Scheduled F} {q : Requested F}
      → HostNamed m
      → EachGpu IsBooked r.manager
      → neg_part req.memory ≡ 0
      → schedule_request rpc m req ≡ returns r
      → r.selection ≡ selected s
      → request_gpu_and_update_config rpc r.manager s req key ≡ returns q
      → (q.code ≢ 2) × (q.code ≢ 4)
  schedule-request rpc m req key {s = s} {r = r} {q = q} named all h e chosen granted =
      let a = schedule_request-Admitted rpc m req e chosen in
      let here = gpu-Admitted m req s r.manager named a in
      elim (request-Outcomes rpc r.manager s req key granted) [
        | inl (_, _, inl (code, unknown)) ↦
            absurd (none-some (sym unknown ∙ node-Admitted m req s r.manager named a))
        | inl (_, _, inr (code, n, at, unknown)) ↦ (omega (arith, code), omega (arith, code))
        | inr (n, g, at, found, inl ok) ↦ (omega (arith, ok.code_eq), omega (arith, ok.code_eq))
        | inr (n, g, at, found, inr bad) ↦
            refused_code req key n.daemon_port_alloc g (all _ _ n g at found) h
              (subst (λ k. can_fit req k ≡ returns true) (same_value (sym (here n at) ∙ found))
                a.fits)
              bad.by_place
      ]
