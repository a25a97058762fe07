-- ===== src/Manager/Fit.antt =====
-- scheduler.go: whether a request fits a GPU. The log line at the top of `canFitExclusive` reads
-- `*req.SMPercentage` with no test, so a request without it panics there.
use fa_st_gshare.Common.Int.{ℤ, int64, ◌-ℤ◌, ltb_ℤ, leb_ℤ}
use fa_st_gshare.Common.Float.{Floats, one, hundred}
use fa_st_gshare.Common.Outcome.{Outcome, returns, ◌>>=◌, deref}
use fa_st_gshare.Common.{Bool, true, false, not, ◌&&◌, ◌||◌, Option, none, some, if◌then◌else◌}
use fa_st_gshare.Types.{
  AllocationType, mps, fast_pod, exclusive, none_type, is_mps, is_fast_pod, is_exclusive,
  is_none_type,
}
use fa_st_gshare.Manager.State.{GpuDevInfo, ResourceRequest, FastPodRequirements}

-- `p != nil && bound < *p`
abbrev pub exceeds : Option ℤ → ℤ → Bool
exceeds none bound = false
exceeds (some n) bound = ltb_ℤ bound n

-- `p != nil`
abbrev pub is_some {ℓ} : {A : Type ℓ} → Option A → Bool
is_some none = false
is_some (some a) = true

module _ {F : Type 0} ⦃fl : Floats F⦄ where
  -- `canFitExclusive` behind its log lines.
  unfoldable pub fits_exclusive : ResourceRequest F → GpuDevInfo F → Bool
  fits_exclusive req info =
      if not (is_exclusive req.allocation_type)
      then false
      else if not (is_none_type info.allocation_type)
      then false
      else if ltb_ℤ info.mem req.memory
      then false
      else if exceeds req.sm_request info.sm_count
      then false
      else if exceeds req.sm_percentage info.sm_percentage
      then false
      else true

  unfoldable pub can_fit_exclusive : ResourceRequest F → GpuDevInfo F → Outcome Bool
  can_fit_exclusive req info = do
    logged ← deref req.sm_percentage
    returns (fits_exclusive req info)

  unfoldable pub can_fit_mps_pod : ResourceRequest F → GpuDevInfo F → Bool
  can_fit_mps_pod req info =
      if not (is_mps req.allocation_type)
      then false
      else if not (is_mps info.allocation_type || is_none_type info.allocation_type)
      then false
      else leb_ℤ req.memory (int64 (info.mem -ℤ info.usage_mem))

  -- `info.Usage + QuotaReq*float64(sm_partition)/100.0`
  unfoldable pub total_usage : FastPodRequirements F → GpuDevInfo F → F
  total_usage r info =
      fl.add info.usage (fl.div (fl.mul r.quota_req (fl.of_int r.sm_partition)) hundred)

  unfoldable pub can_fit_fast_pod : ResourceRequest F → GpuDevInfo F → Bool
  can_fit_fast_pod req info =
      if not (is_fast_pod req.allocation_type) then false else elim req.fast_pod_requirements [
        | none ↦ false
        | some r ↦
            if not (is_fast_pod info.allocation_type || is_none_type info.allocation_type)
            then false
            else if ltb_ℤ (int64 (info.mem -ℤ info.usage_mem)) req.memory
            then false
            else if fl.gt (total_usage r info) one
            then false
            else true
      ]

  abbrev can_fit_type : AllocationType → ResourceRequest F → GpuDevInfo F → Outcome Bool
  can_fit_type exclusive req info = can_fit_exclusive req info
  can_fit_type mps req info = returns (can_fit_mps_pod req info)
  can_fit_type fast_pod req info =
      returns (is_some req.fast_pod_requirements && can_fit_fast_pod req info)
  can_fit_type none_type req info = returns false

  -- `canFit`
  unfoldable pub can_fit : ResourceRequest F → GpuDevInfo F → Outcome Bool
  can_fit req info = can_fit_type req.allocation_type req info
