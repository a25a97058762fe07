-- ===== src/Manager/Validate.antt =====
-- new_pod.go and gpu_manager.go: a request from the annotations of a FaSTPod, and its checks.
-- The functions of `strconv` are parameters: the value that they return, and whether they failed.
use fa_st_gshare.Common.Int.{ℤ, pos, ltb_ℤ, leb_ℤ}
use fa_st_gshare.Common.Float.{Floats, one, zero_float}
use fa_st_gshare.Common.{
  Bool, true, false, ◌&&◌, ◌||◌, Option, none, some, String, str_eq, if◌then◌else◌,
}
use fa_st_gshare.Kube.{
  FastPod, Pod, get_text, join_key, quota_request_name, quota_limit_name, sm_partition_name,
  sm_value_name, memory_name, allocation_type_name, vgpu_uuid_name, vgpu_type_name, node_name_name,
}
use fa_st_gshare.Types.{
  AllocationType, mps, fast_pod, exclusive, none_type, is_exclusive, is_none_type,
  get_allocation_type,
}
use fa_st_gshare.Manager.State.{ResourceRequest, FastPodRequirements}

-- `strconv` and `strings`
pub record Strconv (F : Type 0) : Type 0 where
  -- `ParseFloat(s, 64)`: the value, and whether the error is not nil.
  pub parse_float : String → F × Bool
  -- `ParseInt(s, 10, 64)` and `Atoi`, in the same way.
  pub parse_int : String → ℤ × Bool
  pub atoi : String → ℤ × Bool
  -- `strings.ToUpper`
  pub to_upper : String → String

-- A pointer to a text that is not empty.
abbrev non_empty : String → Option String
non_empty s = if str_eq s "" then none else some s

-- `v, err := …; if err != nil { return nil, … }`
abbrev unless_err {ℓ} : {A : Type ℓ} → A × Bool → Option A
unless_err (a, true) = none
unless_err (a, false) = some a

infixl 5 ◌>>=◌
abbrev ◌>>=◌ {ℓ κ} : {A : Type ℓ} {B : Type κ} → Option A → (A → Option B) → Option B
none >>= f = none
some a >>= f = f a

module _ {F : Type 0} (conv : Strconv F) where
  -- The fields that every request has.
  abbrev base_request : FastPod → AllocationType → ℤ → ResourceRequest F
  base_request fp type memory = record {
    pod_key = join_key fp.namespace fp.name;
    allocation_type = type;
    requested_node = non_empty (get_text node_name_name fp.annotations);
    request_gpu_uuid = non_empty (get_text vgpu_uuid_name fp.annotations);
    requested_gpu_type = non_empty (get_text vgpu_type_name fp.annotations);
    sm_request = none;
    sm_percentage = none;
    memory = memory;
    fast_pod_requirements = none;
  }

  unfoldable pub with_fast_pod_requirements :
      FastPod → ResourceRequest F → Option (ResourceRequest F)
  with_fast_pod_requirements fp req = do
    quota ← unless_err (conv.parse_float (get_text quota_request_name fp.annotations))
    limit ← unless_err (conv.parse_float (get_text quota_limit_name fp.annotations))
    partition ← unless_err (conv.atoi (get_text sm_partition_name fp.annotations))
    some (record req {
      fast_pod_requirements =
          some (record { quota_req = quota; quota_limit = limit; sm_partition = partition });
      sm_percentage = some partition;
    })

  -- One of the two parses is enough; a positive SM value wins over the partition.
  abbrev choose_sm : ResourceRequest F → ℤ × Bool → ℤ × Bool → Option (ResourceRequest F)
  choose_sm req (value, value_err) (partition, partition_err) =
      if value_err && partition_err
      then none
      else if ltb_ℤ (pos 0) value
      then some (record req { sm_request = some value })
      else some (record req { sm_percentage = some partition })

  unfoldable pub with_exclusive_size : FastPod → ResourceRequest F → Option (ResourceRequest F)
  with_exclusive_size fp req =
      choose_sm req (conv.atoi (get_text sm_value_name fp.annotations))
        (conv.atoi (get_text sm_partition_name fp.annotations))

  abbrev sized : AllocationType → FastPod → ResourceRequest F → Option (ResourceRequest F)
  sized fast_pod fp req = with_fast_pod_requirements fp req
  sized exclusive fp req = with_exclusive_size fp req
  sized mps fp req = some req
  sized none_type fp req = some req

  -- `getPodRequestFromPod`; `none` is an error.
  unfoldable pub get_pod_request_from_pod : FastPod → Option (ResourceRequest F)
  get_pod_request_from_pod fp = do
    memory ← unless_err (conv.parse_int (get_text memory_name fp.annotations))
    let type = get_allocation_type conv.to_upper (get_text allocation_type_name fp.annotations)
    sized type fp (base_request fp type memory)

pub data InvalidRequest : Type 0 where
  allocation_type_is_none invalid_quota_limit invalid_quota_request invalid_sm_partition
        sm_is_missing sm_request_not_positive invalid_sm_percentage invalid_memory :
      InvalidRequest

infixr 3 ◌or_else◌
abbrev ◌or_else◌ : Option InvalidRequest → Option InvalidRequest → Option InvalidRequest
none or_else e = e
some e or_else _ = some e

abbrev check : Bool → InvalidRequest → Option InvalidRequest
check bad e = if bad then some e else none

-- `n < 0 || n > 100`
abbrev pub outside_percent : ℤ → Bool
outside_percent n = ltb_ℤ n (pos 0) || ltb_ℤ (pos 100) n

abbrev check_sm : Option ℤ → Option ℤ → Option InvalidRequest
check_sm none none = some sm_is_missing
check_sm none (some n) = check (outside_percent n) invalid_sm_percentage
check_sm (some n) none = check (leb_ℤ n (pos 0)) sm_request_not_positive
check_sm (some n) (some k) =
    check (leb_ℤ n (pos 0)) sm_request_not_positive
    or_else check (outside_percent k) invalid_sm_percentage

module _ {F : Type 0} ⦃fl : Floats F⦄ where
  -- `q > 1.0 || q < 0.0`
  abbrev pub outside_unit : F → Bool
  outside_unit q = fl.gt q one || fl.gt zero_float q

  unfoldable pub check_requirements : Option (FastPodRequirements F) → Option InvalidRequest
  check_requirements none = none
  check_requirements (some r) =
      check (outside_unit r.quota_limit) invalid_quota_limit
      or_else check (outside_unit r.quota_req) invalid_quota_request
      or_else check (outside_percent r.sm_partition) invalid_sm_partition

  unfoldable pub check_exclusive : ResourceRequest F → Option InvalidRequest
  check_exclusive req =
      if is_exclusive req.allocation_type then check_sm req.sm_request req.sm_percentage else none

  -- `validatePodRequest`: `none` is `(true, nil)`.
  unfoldable pub validate_pod_request : ResourceRequest F → Option InvalidRequest
  validate_pod_request req =
      check (is_none_type req.allocation_type) allocation_type_is_none
      or_else check_requirements req.fast_pod_requirements
      or_else check_exclusive req
      or_else check (ltb_ℤ req.memory (pos 0)) invalid_memory

  -- `resourceValidityCheck`, as written: the second test looks at the limit's bounds once more,
  -- not at the request's.
  unfoldable pub resource_validity_check : Strconv F → Pod → Bool
  resource_validity_check conv p =
      let (limit, limit_err) = conv.parse_float (get_text quota_limit_name p.annotations) in
      let (quota, quota_err) = conv.parse_float (get_text quota_request_name p.annotations) in
      let (partition, partition_err) = conv.parse_int (get_text sm_partition_name p.annotations) in
      let (memory, memory_err) = conv.parse_int (get_text memory_name p.annotations) in
      if limit_err || outside_unit limit
      then false
      else if quota_err || outside_unit limit || fl.gt quota limit
      then false
      else if partition_err || outside_percent partition
      then false
      else if memory_err || ltb_ℤ memory (pos 0)
      then false
      else true
