-- ===== src/Manager/Books.antt =====
-- The books of a GPU: what `RequestGPUAndUpdateConfig` keeps true of usage and memory.
use fa_st_gshare.Common.Int.{
  ℤ, pos, negsuc, pos_part, neg_part, int64, int64_self, ◌+ℤ◌, +ℤ_parts, eq_of_parts, ltb_ℤ, eqb_ℤ,
}
use fa_st_gshare.Common.Float.{Floats, one, zero_float, hundred}
use fa_st_gshare.Common.Outcome.{returns}
use fa_st_gshare.Common.{
  ℕ, ◌+◌, ◌^◌, ◌≤◌, ◌<◌, ◌≡◌, ap, refl, sym, ◌∙◌, false, none, some, List, [], ◌∷◌, ◌++◌, String,
  arith, Option-cases, inl, inr, ◌⊎◌, subst,
}
use fa_st_gshare.Bitmap.{Bitmap, find_first_unset_and_set}
use fa_st_gshare.Types.{AllocationType, mps, fast_pod, exclusive, none_type}
use fa_st_gshare.Manager.State.{
  FastPodReq, MpsPodReq, GpuDevInfo, FastPodRequirements, ResourceRequest, gpu_client_port_start,
}
use fa_st_gshare.Manager.Queue.{find_pod, find_in_queue-find_pod}
use fa_st_gshare.Manager.Request.{
  placed, place, place_mps, place_exclusive, place_fast_pod, place_new_fast_pod, place_on_port,
  with_pod, with_mps_pod, pod_entry, new_usage,
}

abbrev pub mps_memory : List MpsPodReq → ℕ
mps_memory [] = 0
mps_memory (r ∷ rest) = pos_part r.memory + mps_memory rest

pub mps_memory-snoc :
    (xs : List MpsPodReq) (r : MpsPodReq)
    → mps_memory (xs ++ r ∷ []) ≡ mps_memory xs + pos_part r.memory
mps_memory-snoc [] r = omega arith
mps_memory-snoc (x ∷ xs) r = omega (arith, mps_memory-snoc xs r)

module _ {F : Type 0} where
  abbrev pub fast_memory : List (FastPodReq F) → ℕ
  fast_memory [] = 0
  fast_memory (r ∷ rest) = pos_part r.memory + fast_memory rest

  pub fast_memory-snoc :
      (xs : List (FastPodReq F)) (r : FastPodReq F)
      → fast_memory (xs ++ r ∷ []) ≡ fast_memory xs + pos_part r.memory
  fast_memory-snoc [] r = omega arith
  fast_memory-snoc (x ∷ xs) r = omega (arith, fast_memory-snoc xs r)

  abbrev pub booked_memory : GpuDevInfo F → ℕ
  booked_memory g = fast_memory g.fast_pod_list + mps_memory g.mps_pod_list

module _ {F : Type 0} ⦃fl : Floats F⦄ where
  -- The memory in use is that of the listed pods, and neither it nor the compute share is
  -- overcommitted; a GPU has less than 2 ^ 62 bytes.
  pub record IsBooked (g : GpuDevInfo F) : Type 0 where
    pub total : g.usage_mem ≡ pos (booked_memory g)
    pub mem_nonneg : neg_part g.mem ≡ 0
    pub mem_bound : pos_part g.mem < 2 ^ 62
    pub limit : booked_memory g ≤ pos_part g.mem
    pub load : fl.gt g.usage one ≡ false

  -- The compute share of a listed pod, and that of a list, added up in its order.
  abbrev pub share : FastPodReq F → F
  share r = fl.mul r.qt_request (fl.div (fl.of_int r.sm_partition) hundred)

  abbrev pub shares : F → List (FastPodReq F) → F
  shares total [] = total
  shares total (r ∷ rest) = shares (fl.add total (share r)) rest

  pub shares-snoc :
      (total : F) (xs : List (FastPodReq F)) (r : FastPodReq F)
      → shares total (xs ++ r ∷ []) ≡ fl.add (shares total xs) (share r)
  shares-snoc total [] r = refl
  shares-snoc total (x ∷ xs) r = shares-snoc (fl.add total (share x)) xs r

  -- The compute share in use is that of the listed FastPods, from 0 and in the order in which they
  -- came.
  abbrev pub IsShared : GpuDevInfo F → Type 0
  IsShared g = g.usage ≡ shares zero_float g.fast_pod_list

  -- A request whose memory is not negative and less than 2 ^ 62 bytes, so that no sum of it and
  -- of the memory in use wraps around.
  pub record IsAddable (req : ResourceRequest F) : Type 0 where
    pub memory_nonneg : neg_part req.memory ≡ 0
    pub memory_bound : pos_part req.memory < 2 ^ 62

  pub exact_sum :
      (req : ResourceRequest F) (g : GpuDevInfo F)
      → IsBooked g
      → IsAddable req
      → int64 (g.usage_mem +ℤ req.memory) ≡ pos (booked_memory g + pos_part req.memory)
  exact_sum req g b a =
      let sum : g.usage_mem +ℤ req.memory ≡ pos (booked_memory g + pos_part req.memory) =
        eq_of_parts _ _ (
          omega (
            arith,
            +ℤ_parts g.usage_mem req.memory,
            ap pos_part b.total,
            ap neg_part b.total,
            a.memory_nonneg,
          )) in
      rw sum (int64_self _ (omega (arith, a.memory_bound, b.limit, b.mem_bound)))

  -- What a new FastPod was tested for when it was placed.
  pub place_new_fast_pod-placed :
      (req : ResourceRequest F) (r : FastPodRequirements F) (key : String) (ports : Bitmap)
      (g : GpuDevInfo F) {ports' : Bitmap} {g' : GpuDevInfo F} {port : ℤ}
      → place_new_fast_pod req r key ports g ≡ placed ports' g' port
      → (fl.gt (new_usage r g) one ≡ false)
        × (ltb_ℤ g.mem (int64 (g.usage_mem +ℤ req.memory)) ≡ false)
        × (eqb_ℤ (find_first_unset_and_set ports).1 (negsuc 0) ≡ false)
        × ((find_first_unset_and_set ports).0 ≡ ports')
        × ((find_first_unset_and_set ports).1 +ℤ pos gpu_client_port_start ≡ port)
        × (with_pod req r key port g ≡ g')
  unfolding place_new_fast_pod place_on_port
  place_new_fast_pod-placed req r key ports g e = ground arith

  with_pod-IsBooked :
      (req : ResourceRequest F) (r : FastPodRequirements F) (key : String) (port : ℤ)
      (g : GpuDevInfo F)
      → IsBooked g
      → IsAddable req
      → fl.gt (new_usage r g) one ≡ false
      → ltb_ℤ g.mem (int64 (g.usage_mem +ℤ req.memory)) ≡ false
      → IsBooked (with_pod req r key port g)
  unfolding with_pod
  with_pod-IsBooked req r key port g b a u m =
      ground
        (arith, exact_sum req g b a, fast_memory-snoc g.fast_pod_list (pod_entry req r key port))

  with_mps_pod-IsBooked :
      (req : ResourceRequest F) (key : String) (g : GpuDevInfo F)
      → IsBooked g
      → IsAddable req
      → ltb_ℤ g.mem (int64 (g.usage_mem +ℤ req.memory)) ≡ false
      → IsBooked (with_mps_pod req key g)
  unfolding with_mps_pod
  with_mps_pod-IsBooked req key g b a m = ground (
    arith,
    exact_sum req g b a,
    mps_memory-snoc g.mps_pod_list (record { key = key; memory = req.memory }),
  )

  -- An MPS pod is on the list already, or it fits and is added.
  pub place_mps-placed :
      (req : ResourceRequest F) (key : String) (ports : Bitmap) (g : GpuDevInfo F) {ports' : Bitmap}
      {g' : GpuDevInfo F} {port : ℤ}
      → place_mps req key ports g ≡ returns (placed ports' g' port)
      → (ports ≡ ports')
        × ((g ≡ g')
            ⊎ ((ltb_ℤ g.mem (int64 (g.usage_mem +ℤ req.memory)) ≡ false)
                × (with_mps_pod req key g ≡ g')))
  unfolding place_mps
  place_mps-placed req key ports g e = ground arith

  -- A FastPod is on the list already and keeps its port, or it is placed anew.
  pub place_fast_pod-placed :
      (req : ResourceRequest F) (key : String) (ports : Bitmap) (g : GpuDevInfo F) {ports' : Bitmap}
      {g' : GpuDevInfo F} {port : ℤ}
      → place_fast_pod req key ports g ≡ returns (placed ports' g' port)
      → ((pod : FastPodReq F) × (find_pod key g.fast_pod_list ≡ some pod)
          × (ports ≡ ports')
          × (g ≡ g')
          × (pod.gpu_client_port ≡ port))
        ⊎ ((r : FastPodRequirements F) × (find_pod key g.fast_pod_list ≡ none)
            × (req.fast_pod_requirements ≡ some r)
            × (place_new_fast_pod req r key ports g ≡ placed ports' g' port))
  unfolding place_fast_pod
  place_fast_pod-placed req key ports g e = elim (Option-cases (find_pod key g.fast_pod_list)) [
    | inl new ↦ elim (Option-cases req.fast_pod_requirements) [
      | inl missing ↦ absurd (ground (arith, find_in_queue-find_pod key g.fast_pod_list))
      | inr (r, given) ↦
          inr (r, new, given, ground (arith, find_in_queue-find_pod key g.fast_pod_list))
    ]
    | inr (pod, old) ↦ inl (
      pod,
      old,
      ground (arith, find_in_queue-find_pod key g.fast_pod_list),
      ground (arith, find_in_queue-find_pod key g.fast_pod_list),
      ground (arith, find_in_queue-find_pod key g.fast_pod_list),
    )
  ]

  place_fast_pod-IsBooked :
      (req : ResourceRequest F) (key : String) (ports : Bitmap) (g : GpuDevInfo F) {ports' : Bitmap}
      {g' : GpuDevInfo F} {port : ℤ}
      → IsBooked g
      → IsAddable req
      → place_fast_pod req key ports g ≡ returns (placed ports' g' port)
      → IsBooked g'
  place_fast_pod-IsBooked req key ports g {port = port} b a e =
      elim (place_fast_pod-placed req key ports g e) [
        | inl (pod, _, _, same, _) ↦ subst IsBooked same b
        | inr (r, _, _, new) ↦
            let (load, memory, _, _, _, added) = place_new_fast_pod-placed req r key ports g new in
            subst IsBooked added (with_pod-IsBooked req r key port g b a load memory)
      ]

  -- Placing a pod of any type keeps the books.
  pub place-IsBooked :
      (type : AllocationType) (req : ResourceRequest F) (key : String) (ports : Bitmap)
      (g : GpuDevInfo F) {ports' : Bitmap} {g' : GpuDevInfo F} {port : ℤ}
      → IsBooked g
      → IsAddable req
      → place type req key ports g ≡ returns (placed ports' g' port)
      → IsBooked g'
  unfolding place place_exclusive
  place-IsBooked mps req key ports g b a e = elim (place_mps-placed req key ports g e).1 [
    | inl same ↦ subst IsBooked same b
    | inr (fits, added) ↦ subst IsBooked added (with_mps_pod-IsBooked req key g b a fits)
  ]
  place-IsBooked exclusive req key ports g b a e = ground arith
  place-IsBooked fast_pod req key ports g b a e = place_fast_pod-IsBooked req key ports g b a e
  place-IsBooked none_type req key ports g b a e = place_fast_pod-IsBooked req key ports g b a e

  with_pod-IsShared :
      (req : ResourceRequest F) (r : FastPodRequirements F) (key : String) (port : ℤ)
      (g : GpuDevInfo F)
      → IsShared g
      → IsShared (with_pod req r key port g)
  unfolding with_pod new_usage
  with_pod-IsShared req r key port g b =
      ap (λ u. fl.add u (share (pod_entry req r key port))) b
      ∙ sym (shares-snoc zero_float g.fast_pod_list (pod_entry req r key port))

  place_fast_pod-IsShared :
      (req : ResourceRequest F) (key : String) (ports : Bitmap) (g : GpuDevInfo F) {ports' : Bitmap}
      {g' : GpuDevInfo F} {port : ℤ}
      → IsShared g
      → place_fast_pod req key ports g ≡ returns (placed ports' g' port)
      → IsShared g'
  place_fast_pod-IsShared req key ports g {port = port} b e =
      elim (place_fast_pod-placed req key ports g e) [
        | inl (pod, _, _, same, _) ↦ subst IsShared same b
        | inr (r, _, _, new) ↦
            let (_, _, _, _, _, added) = place_new_fast_pod-placed req r key ports g new in
            subst IsShared added (with_pod-IsShared req r key port g b)
      ]

  -- Placing a pod of any type adds its compute share.
  pub place-IsShared :
      (type : AllocationType) (req : ResourceRequest F) (key : String) (ports : Bitmap)
      (g : GpuDevInfo F) {ports' : Bitmap} {g' : GpuDevInfo F} {port : ℤ}
      → IsShared g
      → place type req key ports g ≡ returns (placed ports' g' port)
      → IsShared g'
  unfolding place place_exclusive with_mps_pod
  place-IsShared mps req key ports g b e = elim (place_mps-placed req key ports g e).1 [
    | inl same ↦ subst IsShared same b
    | inr (_, added) ↦ subst IsShared added b
  ]
  place-IsShared exclusive req key ports g b e = ground arith
  place-IsShared fast_pod req key ports g b e = place_fast_pod-IsShared req key ports g b e
  place-IsShared none_type req key ports g b e = place_fast_pod-IsShared req key ports g b e
