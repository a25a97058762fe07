-- ===== src/Manager/Safety.antt =====
-- No request overcommits a GPU, and what was admitted is not refused for its memory.
use fa_st_gshare.Common.Int.{
  pos, pos_part, neg_part, int64, int64_self, ◌-ℤ◌, -ℤ_parts, eq_of_parts,
}
use fa_st_gshare.Common.Float.{Floats}
use fa_st_gshare.Common.Outcome.{returns}
use fa_st_gshare.Common.{
  ℕ, ◌+◌, ◌-◌, ◌≤◌, ◌≡◌, ◌≢◌, ap, true, String, arith, Option-cases, inl, inr, subst, ◌⊎◌,
}
use fa_st_gshare.Bitmap.{Bitmap}
use fa_st_gshare.Types.{AllocationType, mps, fast_pod, exclusive, none_type}
use fa_st_gshare.Proto.{Rpc}
use fa_st_gshare.Manager.State.{
  GpuDevInfo, Manager, ResourceRequest, SelectionResult, FastPodRequirements,
}
use fa_st_gshare.Manager.Fit.{
  can_fit, can_fit_exclusive, can_fit_mps_pod, can_fit_fast_pod, fits_exclusive,
}
use fa_st_gshare.Manager.Request.{
  Requested, refused, claim_type, place, place_mps, place_exclusive, place_fast_pod,
  place_new_fast_pod, place_on_port, request_gpu_and_update_config,
}
use fa_st_gshare.Manager.Queue.{find_in_queue-find_pod}
use fa_st_gshare.Manager.Books.{
  IsBooked, IsAddable, IsShared, booked_memory, exact_sum, place-IsBooked, place-IsShared,
}
use fa_st_gshare.Manager.Each.{EachGpu, request-EachGpu}

module _ {F : Type 0} ⦃fl : Floats F⦄ where
  claim_type-IsBooked :
      (req : ResourceRequest F) (g : GpuDevInfo F) → IsBooked g → IsBooked (claim_type req g)
  unfolding claim_type
  claim_type-IsBooked req g b = ground arith

  claim_type-IsShared :
      (req : ResourceRequest F) (g : GpuDevInfo F) → IsShared g → IsShared (claim_type req g)
  unfolding claim_type
  claim_type-IsShared req g b = ground arith

  -- The books of a GPU, its memory and its compute share.
  abbrev pub IsAccounted : GpuDevInfo F → Type 0
  IsAccounted g = IsBooked g × IsShared g

  -- A request of less than 2 ^ 62 bytes that comes back, granted or refused, leaves the books
  -- of every known GPU right if they were right before: the memory in use is that of its pods and
  -- is at most what the GPU has; the compute share in use is the sum of those of the listed
  -- FastPods, in their order, and is not above 1.
  pub request-IsAccounted :
      (rpc : Rpc) (m : Manager F) (sel : SelectionResult) (req : ResourceRequest F) (key : String)
      {r : Requested F}
      → EachGpu IsAccounted m
      → IsAddable req
      → request_gpu_and_update_config rpc m sel req key ≡ returns r
      → EachGpu IsAccounted r.manager
  request-IsAccounted rpc m sel req key all a e =
      request-EachGpu IsAccounted rpc m sel req key all
        (λ g b. (claim_type-IsBooked req g b.0, claim_type-IsShared req g b.1))
        (λ ports g ports' g' port b by. (
          place-IsBooked req.allocation_type req key ports g b.0 a by,
          place-IsShared req.allocation_type req key ports g b.1 by,
        ))
        e

  exact_rest :
      (g : GpuDevInfo F)
      → IsBooked g
      → int64 (g.mem -ℤ g.usage_mem) ≡ pos (pos_part g.mem - booked_memory g)
  exact_rest g b =
      let rest : g.mem -ℤ g.usage_mem ≡ pos (pos_part g.mem - booked_memory g) = eq_of_parts _ _ (
        omega (
          arith,
          -ℤ_parts g.mem g.usage_mem,
          ap pos_part b.total,
          ap neg_part b.total,
          b.limit,
          b.mem_nonneg,
        )) in
      rw rest (int64_self _ (omega (arith, b.mem_bound)))

  -- What `canFit` admits has room in the GPU's free memory.
  can_fit-room :
      (req : ResourceRequest F) (g : GpuDevInfo F)
      → IsBooked g
      → neg_part req.memory ≡ 0
      → can_fit req g ≡ returns true
      → pos_part req.memory ≤ pos_part g.mem
  unfolding can_fit can_fit_exclusive can_fit_mps_pod can_fit_fast_pod fits_exclusive
  can_fit-room req g b h e = ground (arith, exact_rest g b)

  -- For the types that share a GPU, the room is next to what is booked.
  can_fit-shared_room :
      (req : ResourceRequest F) (g : GpuDevInfo F)
      → IsBooked g
      → neg_part req.memory ≡ 0
      → can_fit req g ≡ returns true
      → (req.allocation_type ≡ exclusive) ⊎ (booked_memory g + pos_part req.memory ≤ pos_part g.mem)
  unfolding can_fit can_fit_exclusive can_fit_mps_pod can_fit_fast_pod fits_exclusive
  can_fit-shared_room req g b h e = ground (arith, exact_rest g b)

  pub can_fit-IsAddable :
      (req : ResourceRequest F) (g : GpuDevInfo F)
      → IsBooked g
      → neg_part req.memory ≡ 0
      → can_fit req g ≡ returns true
      → IsAddable req
  can_fit-IsAddable req g b h e = record {
    memory_nonneg = h;
    memory_bound = omega (arith, can_fit-room req g b h e, b.mem_bound);
  }

  place_new_fast_pod-fits :
      (req : ResourceRequest F) (r : FastPodRequirements F) (key : String) (ports : Bitmap)
      (g : GpuDevInfo F)
      → IsBooked g
      → IsAddable req
      → booked_memory g + pos_part req.memory ≤ pos_part g.mem
      → place_new_fast_pod req r key ports g ≢ refused 4
  unfolding place_new_fast_pod place_on_port
  place_new_fast_pod-fits req r key ports g b a room e = ground (arith, exact_sum req g b a)

  place_fast_pod-fits :
      (req : ResourceRequest F) (key : String) (ports : Bitmap) (g : GpuDevInfo F)
      → IsBooked g
      → IsAddable req
      → booked_memory g + pos_part req.memory ≤ pos_part g.mem
      → place_fast_pod req key ports g ≢ returns (refused 4)
  unfolding place_fast_pod
  place_fast_pod-fits req key ports g b a room e = elim (Option-cases req.fast_pod_requirements) [
    | inl missing ↦ ground (arith, find_in_queue-find_pod key g.fast_pod_list)
    | inr (r, given) ↦ ground (
      arith,
      find_in_queue-find_pod key g.fast_pod_list,
      place_new_fast_pod-fits req r key ports g b a room,
    )
  ]

  place_mps-fits :
      (req : ResourceRequest F) (key : String) (ports : Bitmap) (g : GpuDevInfo F)
      → IsBooked g
      → IsAddable req
      → booked_memory g + pos_part req.memory ≤ pos_part g.mem
      → place_mps req key ports g ≢ returns (refused 4)
  unfolding place_mps
  place_mps-fits req key ports g b a room e = ground (arith, exact_sum req g b a)

  place-fits :
      (type : AllocationType) (req : ResourceRequest F) (key : String) (ports : Bitmap)
      (g : GpuDevInfo F)
      → IsBooked g
      → IsAddable req
      → (type ≡ exclusive) ⊎ (booked_memory g + pos_part req.memory ≤ pos_part g.mem)
      → place type req key ports g ≢ returns (refused 4)
  unfolding place place_exclusive
  place-fits mps req key ports g b a (inl ex) e = cc
  place-fits mps req key ports g b a (inr room) e = place_mps-fits req key ports g b a room e
  place-fits exclusive req key ports g b a room e = cc
  place-fits fast_pod req key ports g b a (inl ex) e = cc
  place-fits fast_pod req key ports g b a (inr room) e =
      place_fast_pod-fits req key ports g b a room e
  place-fits none_type req key ports g b a (inl ex) e = cc
  place-fits none_type req key ports g b a (inr room) e =
      place_fast_pod-fits req key ports g b a room e

  claim_type_books :
      (req : ResourceRequest F) (g : GpuDevInfo F)
      → ◌≡◌ {A = ℕ × ℕ}
          (booked_memory g, pos_part g.mem)
          (booked_memory (claim_type req g), pos_part (claim_type req g).mem)
  unfolding claim_type
  claim_type_books req g = ground arith

  -- A GPU that `canFit` admitted, its books right and the request's memory not negative, is never
  -- reported out of memory (code 4) by the placing that follows.
  pub can_fit-place :
      (req : ResourceRequest F) (key : String) (ports : Bitmap) (g : GpuDevInfo F)
      → IsBooked g
      → neg_part req.memory ≡ 0
      → can_fit req g ≡ returns true
      → place req.allocation_type req key ports (claim_type req g) ≢ returns (refused 4)
  can_fit-place req key ports g b h e =
      place-fits req.allocation_type req key ports (claim_type req g) (claim_type-IsBooked req g b)
        (can_fit-IsAddable req g b h e)
        (subst
          (λ (k : ℕ × ℕ). (req.allocation_type ≡ exclusive) ⊎ (k.0 + pos_part req.memory ≤ k.1))
          (claim_type_books req g) (can_fit-shared_room req g b h e))
