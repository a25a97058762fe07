-- ===== src/Manager/Checks.antt =====
-- What `validatePodRequest` and `resourceValidityCheck` accept, stated without their order of tests.
use fa_st_gshare.Common.Int.{ℤ, pos, ◌≤ℤ◌, ◌<ℤ◌}
use fa_st_gshare.Common.Float.{Floats, one, zero_float}
use fa_st_gshare.Common.{◌≡◌, ◌≢◌, ◌↔◌, ◌⊎◌, false, Option, none, some, arith}
use fa_st_gshare.Types.{exclusive, none_type}
use fa_st_gshare.Manager.State.{ResourceRequest, FastPodRequirements}
use fa_st_gshare.Manager.Validate.{check_requirements, check_exclusive, validate_pod_request}

abbrev pub InPercent : ℤ → Type 0
InPercent n = (pos 0 ≤ℤ n) × (n ≤ℤ pos 100)

-- An exclusive pod names a positive number of SMs, or a percentage of them, or both.
abbrev pub SizeOk : Option ℤ → Option ℤ → Type 0
SizeOk none none = ⊥
SizeOk none (some k) = InPercent k
SizeOk (some n) none = pos 0 <ℤ n
SizeOk (some n) (some k) = (pos 0 <ℤ n) × InPercent k

module _ {F : Type 0} ⦃fl : Floats F⦄ where
  -- Neither above 1 nor below 0.
  abbrev pub InUnit : F → Type 0
  InUnit q = (fl.gt q one ≡ false) × (fl.gt zero_float q ≡ false)

  abbrev pub RequirementsOk : Option (FastPodRequirements F) → Type 0
  RequirementsOk none = Unit {0}
  RequirementsOk (some r) = InUnit r.quota_limit × InUnit r.quota_req × InPercent r.sm_partition

  pub record IsAcceptable (req : ResourceRequest F) : Type 0 where
    pub typed : req.allocation_type ≢ none_type
    pub requirements : RequirementsOk req.fast_pod_requirements
    pub size : (req.allocation_type ≢ exclusive) ⊎ SizeOk req.sm_request req.sm_percentage
    pub memory : pos 0 ≤ℤ req.memory

  check_requirements-none :
      (o : Option (FastPodRequirements F)) → (check_requirements o ≡ none) ↔ RequirementsOk o
  unfolding check_requirements
  check_requirements-none none = ground arith
  check_requirements-none (some r) = ground arith

  check_exclusive-none :
      (req : ResourceRequest F)
      → (check_exclusive req ≡ none)
        ↔ ((req.allocation_type ≢ exclusive) ⊎ SizeOk req.sm_request req.sm_percentage)
  unfolding check_exclusive
  check_exclusive-none req = ground arith

  -- A request is accepted exactly when it has a type, none of its quotas compares as above 1 or as
  -- below 0, its SM partition lies between 0 and 100, an exclusive request names its SMs, and its
  -- memory is not negative. A quota that compares as neither, such as a NaN, is accepted.
  pub validate_pod_request_lem :
      (req : ResourceRequest F) → (validate_pod_request req ≡ none) ↔ IsAcceptable req
  unfolding validate_pod_request
  validate_pod_request_lem req =
      ground (arith, check_requirements-none req.fast_pod_requirements, check_exclusive-none req)
