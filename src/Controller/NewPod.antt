-- ===== src/Controller/NewPod.antt =====
-- new_pod.go: `newPod`, the pod that is created for an allocation.
use Prim.Native.String.{◌++◌ as str_append}
use fa_st_gshare.Common.Int.{ℤ, pos}
use fa_st_gshare.Common.Dict.{Dict, insert}
use fa_st_gshare.Common.{
  Bool, true, Option, none, some, List, [], ◌∷◌, ◌++◌, map, String, if◌then◌else◌,
}
use fa_st_gshare.Kube.{
  FastPod, Pod, pending, get_text, join_key, quota_request_name, quota_limit_name,
  sm_partition_name, memory_name, vgpu_uuid_name, allocation_type_name,
}
use fa_st_gshare.Manager.State.{MpsConfig, FastPodMpsConfig}
use fa_st_gshare.Replicas.Pods.{make_labels}

-- `NewPodParams`; its field `FaSTPod` is not set.
pub record NewPodParams : Type 0 where
  pub is_warm : Bool
  pub bound_dev_uuid : String
  pub sched_node : String
  pub sched_vgpu_id : String
  pub pod_name : String
  pub mps_config : Option MpsConfig

-- A container: environment variables, mounts by volume and path, and the pull policy.
pub record Container : Type 0 where
  pub env : List (String × String)
  pub volume_mounts : List (String × String)
  pub image_pull_policy : String

-- The `PodSpec` of a FaSTPod; its volumes are paths of the host by name.
pub record PodSpec : Type 0 where
  pub containers : List Container
  pub volumes : List (String × String)

-- The object that is sent to the API server.
pub record CreatedPod : Type 0 where
  pub pod : Pod
  pub containers : List Container
  pub volumes : List (String × String)
  pub host_ipc : Bool

-- `FaSTPodLibraryDir`
abbrev pub fast_pod_library_dir : String
fast_pod_library_dir = "/fastpod/library"

abbrev pub warm_name : String
warm_name = "fast-gshare/warmpool"

unfoldable pub device_env : NewPodParams → List (String × String)
device_env params =
    ("NVIDIA_VISIBLE_DEVICES", params.bound_dev_uuid)
    ∷ ("CUDA_VISIBLE_DEVICES", params.bound_dev_uuid)
    ∷ ("NVIDIA_DRIVER_CAPABILITIES", "compute,utility")
    ∷ []

-- The variables of a FastPod; `show` is the format `%d`.
unfoldable pub fast_pod_env :
    (ℤ → String) → String → Option FastPodMpsConfig → List (String × String)
fast_pod_env show partition none = []
fast_pod_env show partition (some c) =
    ("CUDA_MPS_ACTIVE_THREAD_PERCENTAGE", partition)
    ∷ ("SCHEDULER_IP", c.scheduler_ip)
    ∷ ("GPU_CLIENT_PORT", show c.gpu_client_port)
    ∷ ("LD_PRELOAD", str_append fast_pod_library_dir "/libfast.so.1")
    ∷ []

unfoldable pub mps_env : (ℤ → String) → String → Option MpsConfig → List (String × String)
mps_env show partition none = []
mps_env show partition (some c) =
    ("CUDA_MPS_PIPE_DIRECTORY", "/tmp/mps")
    ∷ ("CUDA_MPS_LOG_DIRECTORY", "/tmp/mps_log")
    ∷ fast_pod_env show partition c.fast_pod_mps_config

unfoldable pub mps_mounts : Option MpsConfig → List (String × String)
mps_mounts none = []
mps_mounts (some c) = ("nvidia-mps-tmp", "/tmp/mps") ∷ ("nvidia-mps-tmp-log", "/tmp/mps_log") ∷ []

unfoldable pub mps_volumes : Option MpsConfig → List (String × String)
mps_volumes none = []
mps_volumes (some c) =
    ("nvidia-mps-tmp", c.pipe_directory) ∷ ("nvidia-mps-tmp-log", c.log_directory) ∷ []

-- One round of the loop over the containers; `first` is the pull policy of the first one.
unfoldable pub equip : (ℤ → String) → FastPod → NewPodParams → String → Container → Container
equip show fp params first c = record c {
  env =
      c.env
      ++ device_env params
      ++ mps_env show (get_text sm_partition_name fp.annotations) params.mps_config
      ++ ("POD_NAME", join_key fp.namespace params.pod_name) ∷ [];
  volume_mounts =
      c.volume_mounts ++ ("fastpod-lib", fast_pod_library_dir) ∷ mps_mounts params.mps_config;
  image_pull_policy = first;
}

unfoldable pub equip_all : (ℤ → String) → FastPod → NewPodParams → List Container → List Container
equip_all show fp params [] = []
equip_all show fp params (c ∷ rest) = map (equip show fp params c.image_pull_policy) (c ∷ rest)

-- `annotationCopy[name] = fastpod.ObjectMeta.Annotations[name]`
abbrev copy_annotation : FastPod → String → Dict String → Dict String
copy_annotation fp name d = insert name (get_text name fp.annotations) d

-- The entries before the GPU's.
unfoldable pub quota_annotations : FastPod → NewPodParams → Dict String
quota_annotations fp params = copy_annotation fp memory_name (
    copy_annotation fp quota_limit_name (
      copy_annotation fp quota_request_name
        (insert warm_name (if params.is_warm then "true" else "false") fp.annotations)))

unfoldable pub pod_annotations : FastPod → NewPodParams → Dict String
pod_annotations fp params =
    copy_annotation fp allocation_type_name
      (insert vgpu_uuid_name params.sched_vgpu_id (quota_annotations fp params))

-- `newPod`, but for the reference to its owner; what the API server fills in later is empty.
unfoldable pub new_pod : (ℤ → String) → PodSpec → FastPod → NewPodParams → CreatedPod
new_pod show spec fp params = record {
  pod = record {
    namespace = fp.namespace;
    name = params.pod_name;
    uid = "";
    node_name = params.sched_node;
    labels = make_labels fp;
    annotations = pod_annotations fp params;
    phase = pending;
    deletion_timestamp = none;
    conditions = [];
    restart_counts = [];
    creation_timestamp = pos 0;
  };
  containers = equip_all show fp params spec.containers;
  volumes = spec.volumes ++ ("fastpod-lib", fast_pod_library_dir) ∷ mps_volumes params.mps_config;
  host_ipc = true;
}
