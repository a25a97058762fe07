-- ===== src/Manager/Outcomes.antt =====
-- How `RequestGPUAndUpdateConfig` can come back, read off its result.
use fa_st_gshare.Common.Int.{ℤ}
use fa_st_gshare.Common.Dict.{lookup}
use fa_st_gshare.Common.Float.{Floats}
use fa_st_gshare.Common.Outcome.{returns, >>=-returns}
use fa_st_gshare.Common.{
  ◌≡◌, ◌≢◌, ◌⊎◌, Option, none, some, List, String, arith, Option-cases, inl, inr,
}
use fa_st_gshare.Bitmap.{Bitmap}
use fa_st_gshare.Types.{AllocationType, mps, fast_pod, exclusive, none_type}
use fa_st_gshare.Proto.{Rpc, Call}
use fa_st_gshare.Manager.State.{
  GpuDevInfo, Node, Manager, ResourceRequest, SelectionResult, MpsConfig,
}
use fa_st_gshare.Manager.Request.{
  Placed, Requested, refused, placed, claim_type, enable_mps_for, place, answer, answer_fast_pod,
  book, finish, request_on, request_gpu_and_update_config,
}

module _ {F : Type 0} ⦃fl : Floats F⦄ where
  -- The pod was placed: code 0, an allocation, and the state with the new GPU.
  pub record Granted (m : Manager F) (sel : SelectionResult) (req : ResourceRequest F)
      (key : String) (n : Node F) (g : GpuDevInfo F) (r : Requested F) : Type 0 where
    pub ports : Bitmap
    pub gpu : GpuDevInfo F
    pub port : ℤ
    pub by_place :
        place req.allocation_type req key n.daemon_port_alloc (claim_type req g)
        ≡ returns (placed ports gpu port)
    pub manager_eq : r.manager ≡ book m sel n ports gpu
    pub code_eq : r.code ≡ 0
    pub allocation_given : r.allocation ≢ none

  -- The pod was refused with the code of `place`: only the GPU's type may have been claimed.
  pub record Refused (m : Manager F) (sel : SelectionResult) (req : ResourceRequest F)
      (key : String) (n : Node F) (g : GpuDevInfo F) (r : Requested F) : Type 0 where
    pub by_place :
        place req.allocation_type req key n.daemon_port_alloc (claim_type req g)
        ≡ returns (refused r.code)
    pub manager_eq : r.manager ≡ book m sel n n.daemon_port_alloc (claim_type req g)
    pub allocation_none : r.allocation ≡ none

  answer_fast_pod-returns :
      (rpc : Rpc) (m : Manager F) (sel : SelectionResult) (req : ResourceRequest F) (n : Node F)
      (g : GpuDevInfo F) (port : ℤ) (config : Option MpsConfig) (calls : List (Call F))
      {r : Requested F}
      → answer_fast_pod rpc m sel req n g port config calls ≡ returns r
      → (r.manager ≡ m) × (r.code ≡ 0) × (r.allocation ≢ none)
  unfolding answer_fast_pod
  answer_fast_pod-returns rpc m sel req n g port config calls e = ground arith

  answer-returns :
      (type : AllocationType) (rpc : Rpc) (m : Manager F) (sel : SelectionResult)
      (req : ResourceRequest F) (n : Node F) (g : GpuDevInfo F) (port : ℤ)
      (config : Option MpsConfig) (calls : List (Call F)) {r : Requested F}
      → answer type rpc m sel req n g port config calls ≡ returns r
      → (r.manager ≡ m) × (r.code ≡ 0) × (r.allocation ≢ none)
  unfolding answer
  answer-returns mps rpc m sel req n g port config calls e = ground arith
  answer-returns exclusive rpc m sel req n g port config calls e = ground arith
  answer-returns fast_pod rpc m sel req n g port config calls e =
      answer_fast_pod-returns rpc m sel req n g port config calls e
  answer-returns none_type rpc m sel req n g port config calls e =
      answer_fast_pod-returns rpc m sel req n g port config calls e

  finish-returns :
      (rpc : Rpc) (m : Manager F) (sel : SelectionResult) (req : ResourceRequest F) (key : String)
      (n : Node F) (g : GpuDevInfo F) (config : Option MpsConfig) (calls : List (Call F))
      (p : Placed F) {r : Requested F}
      → place req.allocation_type req key n.daemon_port_alloc (claim_type req g) ≡ returns p
      → finish rpc m sel req n (claim_type req g) config calls p ≡ returns r
      → Granted m sel req key n g r ⊎ Refused m sel req key n g r
  unfolding finish
  finish-returns rpc m sel req key n g config calls (refused c) by e = inr (record {
    by_place = ground arith;
    manager_eq = ground arith;
    allocation_none = ground arith;
  })
  finish-returns rpc m sel req key n g config calls (placed ports g' port) by e =
      let (state, code, given) =
        answer-returns req.allocation_type rpc (book m sel n ports g') sel req n g' port config
          calls e in
      inl (record {
        ports = ports;
        gpu = g';
        port = port;
        by_place = by;
        manager_eq = state;
        code_eq = code;
        allocation_given = given;
      })

  request_on-returns :
      (rpc : Rpc) (m : Manager F) (sel : SelectionResult) (req : ResourceRequest F) (key : String)
      (n : Node F) (g : GpuDevInfo F) {r : Requested F}
      → request_on rpc m sel req key n (claim_type req g) ≡ returns r
      → Granted m sel req key n g r ⊎ Refused m sel req key n g r
  unfolding request_on
  request_on-returns rpc m sel req key n g e =
      let (enabled, _, e') = >>=-returns (enable_mps_for rpc n (claim_type req g)) _ e in
      let (p, by, last) =
        >>=-returns (place req.allocation_type req key n.daemon_port_alloc (claim_type req g)) _
          e' in
      finish-returns rpc m sel req key n g enabled.0 enabled.1 p by last

  -- What a request did to the state, when it came back.
  abbrev pub Outcomes :
      Manager F → SelectionResult → ResourceRequest F → String → Requested F → Type 0
  Outcomes m sel req key r =
      ((r.manager ≡ m)
        × (r.allocation ≡ none)
        × (((r.code ≡ 2) × (lookup sel.node_name m.nodes ≡ none))
            ⊎ ((r.code ≡ 3)
                × (n : Node F) × (lookup sel.node_name m.nodes ≡ some n)
                × (lookup sel.vgpu_uuid n.vgpu_id2_gpu ≡ none))))
      ⊎ ((n : Node F) × (g : GpuDevInfo F) × (lookup sel.node_name m.nodes ≡ some n)
          × (lookup sel.vgpu_uuid n.vgpu_id2_gpu ≡ some g)
          × (Granted m sel req key n g r ⊎ Refused m sel req key n g r))

  -- A request that comes back has failed with code 2 or 3 and changed nothing, or it has found its
  -- node and GPU, and then placed the pod (code 0, an allocation) or been refused by the placing.
  pub request-Outcomes :
      (rpc : Rpc) (m : Manager F) (sel : SelectionResult) (req : ResourceRequest F) (key : String)
      {r : Requested F}
      → request_gpu_and_update_config rpc m sel req key ≡ returns r
      → Outcomes m sel req key r
  unfolding request_gpu_and_update_config
  request-Outcomes rpc m sel req key e = elim (Option-cases (lookup sel.node_name m.nodes)) [
    | inl no_node ↦ inl (ground arith, ground arith, inl (ground arith, no_node))
    | inr (n, at) ↦ elim (Option-cases (lookup sel.vgpu_uuid n.vgpu_id2_gpu)) [
      | inl no_gpu ↦ inl (ground arith, ground arith, inr (ground arith, n, at, no_gpu))
      | inr (g, found) ↦
          inr (n, g, at, found, request_on-returns rpc m sel req key n g (ground arith))
    ]
  ]
