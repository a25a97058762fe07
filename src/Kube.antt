-- ===== src/Kube.antt =====
-- The Kubernetes objects that the controller manager reads (k8s.io/api, and the FaSTPod of
-- pkg/apis/fastgshare.caps.in.tum/v1/types.go): plain data, with the fields that the code uses.
use Prim.Native.String.{◌++◌ as str_append}
use fa_st_gshare.Common.Int.{ℤ}
use fa_st_gshare.Common.Dict.{Dict, lookup}
use fa_st_gshare.Common.{Bool, String, Option, none, some, List}

pub data PodPhase : Type 0 where
  pending unknown running succeeded failed : PodPhase

-- A condition of type `Ready` or of another type, with the time of its last change.
pub record Condition : Type 0 where
  pub is_ready_type : Bool
  pub status_true : Bool
  pub last_transition : ℤ

pub record Pod : Type 0 where
  pub namespace : String
  pub name : String
  pub uid : String
  pub node_name : String
  pub labels : Dict String
  pub annotations : Dict String
  pub phase : PodPhase
  pub deletion_timestamp : Option ℤ
  pub conditions : List Condition
  pub restart_counts : List ℤ
  pub creation_timestamp : ℤ

-- The replicas of the spec are an `*int32`.
pub record FastPod : Type 0 where
  pub namespace : String
  pub name : String
  pub labels : Dict String
  pub annotations : Dict String
  pub replicas : Option ℤ

-- `m[k]` of a `map[string]string`: a missing key reads "".
unfoldable pub get_text : String → Dict String → String
get_text k m = elim (lookup k m) [ none ↦ "" | some v ↦ v ]

-- The annotation names of types.go.
abbrev pub quota_request_name : String
quota_request_name = "fastgshare/gpu_quota_request"

abbrev pub quota_limit_name : String
quota_limit_name = "fastgshare/gpu_quota_limit"

abbrev pub sm_partition_name : String
sm_partition_name = "fastgshare/gpu_sm_partition"

abbrev pub sm_value_name : String
sm_value_name = "fastgshare/gpu_sm_value"

abbrev pub memory_name : String
memory_name = "fastgshare/gpu_mem"

abbrev pub allocation_type_name : String
allocation_type_name = "fastgshare/allocation_type"

abbrev pub vgpu_uuid_name : String
vgpu_uuid_name = "fastgshare/vgpu_uuid"

abbrev pub vgpu_type_name : String
vgpu_type_name = "fastgshare/vgpu_type"

abbrev pub node_name_name : String
node_name_name = "fastgshare/node_name"

-- `fmt.Sprintf("%s/%s", namespace, name)`
unfoldable pub join_key : String → String → String
join_key namespace name = str_append namespace (str_append "/" name)

unfoldable pub pod_key : Pod → String
unfolding join_key
pod_key p = join_key p.namespace p.name
