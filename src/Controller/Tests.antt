-- ===== src/Controller/Tests.antt =====
-- A pod is created for a FaSTPod on the node that joined.
use fa_st_gshare.Common.Int.{pos}
use fa_st_gshare.Common.Outcome.{Outcome, returns}
use fa_st_gshare.Common.{ℕ, ◌≡◌, refl, true, false, none, some, [], ◌∷◌, str_eq, if◌then◌else◌}
use fa_st_gshare.Kube.{
  FastPod, get_text, join_key, quota_request_name, quota_limit_name, sm_partition_name, memory_name,
  vgpu_uuid_name, allocation_type_name, node_name_name,
}
use fa_st_gshare.Types.{get_allocation_type}
use fa_st_gshare.Manager.Validate.{
  Strconv, get_pod_request_from_pod, with_fast_pod_requirements, validate_pod_request,
  check_requirements, check_exclusive,
}
use fa_st_gshare.Manager.Example.{fixed_point, req}
use fa_st_gshare.Nodes.Example.{
  world, answers, ready, ready_reached, schedules, allocation, granted, grants,
}
use fa_st_gshare.Replicas.Batch.{Started}
use fa_st_gshare.Controller.NewPod.{PodSpec, new_pod}
use fa_st_gshare.Controller.Create.{
  created, Creating, Surroundings, new_pod_name, after_create, create_for, on_code, on_selection,
  create_requested, create_pod, scale_up,
}
use fa_st_gshare.Controller.ScaleUp.{Advanced, scale_up-Reach}
use fa_st_gshare.Controller.Made.{Made, BookedFor, create_pod-Made}

abbrev conv : Strconv ℕ
conv = record {
  parse_float = λ s. if str_eq s "0.5" then (5000, false) else (10000, false);
  parse_int = λ s. (pos 30, false);
  atoi = λ s. (pos 50, false);
  to_upper = λ s. s;
}

abbrev fp : FastPod
fp = record {
  namespace = "ns";
  name = "b";
  labels = [];
  annotations =
      (quota_request_name, "0.5")
      ∷ (quota_limit_name, "1.0")
      ∷ (sm_partition_name, "50")
      ∷ (memory_name, "30")
      ∷ (allocation_type_name, "FASTPOD")
      ∷ (node_name_name, "worker")
      ∷ (vgpu_uuid_name, "GPU-1")
      ∷ [];
  replicas = some (pos 2);
}

abbrev spec : PodSpec
spec = record {
  containers = record { env = []; volume_mounts = []; image_pull_policy = "Always" } ∷ [];
  volumes = [];
}

-- The API server accepts every pod.
abbrev accepting : Surroundings ℕ
accepting = record {
  conv = conv;
  show = λ z. "56001";
  rpc = λ turn. answers;
  rand_str = λ turn. "abcde";
  create = λ turn p. created;
}

abbrev before : Creating ℕ
before = record {
  manager = ready.manager;
  fstp2_pods = [];
  bound_device_ids = [];
  gpu_client_port = [];
  pods = [];
  turn = 0;
}

reads : get_pod_request_from_pod conv fp ≡ some req
unfolding get_pod_request_from_pod with_fast_pod_requirements get_text get_allocation_type join_key
reads = refl

valid : validate_pod_request req ≡ none
unfolding validate_pod_request check_requirements check_exclusive fixed_point
valid = refl

-- The state after the pod: its key holds the first port.
abbrev after_created : Creating ℕ
after_created = record {
  manager = (granted "ns/b-abcde").manager;
  fstp2_pods = "b-abcde" ∷ [];
  bound_device_ids = ("b-abcde", "GPU-1") ∷ [];
  gpu_client_port = ("b-abcde", pos 56001) ∷ [];
  pods =
      (new_pod accepting.show spec fp (record {
        is_warm = false;
        bound_dev_uuid = "GPU-1";
        sched_node = "worker";
        sched_vgpu_id = "GPU-1";
        pod_name = "b-abcde";
        mps_config = allocation.mps_config;
      })).pod
      ∷ [];
  turn = 1;
}

creates :
    create_pod accepting fp spec before
    ≡ returns (record { has_pod = true; error = none }, after_created)
unfolding create_pod create_requested on_selection on_code create_for after_create new_pod_name
    join_key new_pod
creates =
    rw
      (
        reads,
        create_pod,
        valid,
        create_requested,
        schedules,
        on_selection,
        grants "ns/b-abcde",
        on_code,
      )
      refl

create_pod-Made_example :
    (m : Made accepting fp before (record { has_pod = true; error = none }, after_created))
    × BookedFor accepting fp before (record { has_pod = true; error = none }, after_created) m
create_pod-Made_example = create_pod-Made accepting fp spec before ready_reached creates refl

scale_up-Reach_example :
    (r : Started (Outcome (Creating ℕ))) × (scale_up accepting fp spec 1 2 before ≡ some r)
    × Advanced world ready.handlers 2 before r.state
scale_up-Reach_example = scale_up-Reach accepting fp spec 1 2 before ready_reached
