-- ===== src/Controller/ReconfigureTests.antt =====
-- A FaSTPod whose pod `ns/a` gets the whole quota.
use fa_st_gshare.Common.Int.{pos}
use fa_st_gshare.Common.Dict.{lookup}
use fa_st_gshare.Common.Outcome.{returns}
use fa_st_gshare.Common.{ℕ, ◌≡◌, refl, true, false, none, some, [], ◌∷◌, map, str_eq, if◌then◌else◌}
use fa_st_gshare.Kube.{
  FastPod, Pod, running, get_text, pod_key, join_key, quota_request_name, quota_limit_name,
  sm_partition_name, memory_name, vgpu_uuid_name,
}
use fa_st_gshare.Proto.{update_mps_configs}
use fa_st_gshare.Manager.State.{Node, GpuDevInfo}
use fa_st_gshare.Manager.Validate.{Strconv, resource_validity_check}
use fa_st_gshare.Manager.Queue.{find_in_queue}
use fa_st_gshare.Manager.Config.{config_of, update_pods_gpu_config}
use fa_st_gshare.Manager.Example.{fixed_point, rpc, entry, gpu, node, manager}
use fa_st_gshare.Controller.Reconfigure.{
  Reconfigured, put_entry, new_entry, new_pod_annotations, reconfigure_entry, reconfigure_on,
  reconfigure_pod, reconcile_resource_config,
}
use fa_st_gshare.Controller.Usage.{reconcile_resource_config-usage}

abbrev conv : Strconv ℕ
conv = record {
  parse_float = λ s. if str_eq s "0.5" then (5000, false) else (10000, false);
  parse_int = λ s. (pos 50, false);
  atoi = λ s. (pos 50, false);
  to_upper = λ s. s;
}

abbrev pod_a : Pod
pod_a = record {
  namespace = "ns";
  name = "a";
  uid = "1";
  node_name = "worker";
  labels = [];
  annotations =
      (quota_request_name, "0.5")
      ∷ (quota_limit_name, "1.0")
      ∷ (sm_partition_name, "50")
      ∷ (memory_name, "60")
      ∷ (vgpu_uuid_name, "GPU-1")
      ∷ [];
  phase = running;
  deletion_timestamp = none;
  conditions = [];
  restart_counts = [];
  creation_timestamp = pos 0;
}

abbrev fp : FastPod
fp = record {
  namespace = "ns";
  name = "f";
  labels = [];
  annotations =
      (quota_request_name, "1.0") ∷ (quota_limit_name, "1.0") ∷ (sm_partition_name, "50") ∷ [];
  replicas = some (pos 1);
}

-- The quota is doubled; the share of the GPU in use is as before.
abbrev raised : GpuDevInfo ℕ
raised = record gpu { fast_pod_list = record entry { qt_request = 10000 } ∷ [] }

abbrev reconfigured : Reconfigured ℕ
reconfigured = record {
  manager = record manager {
    nodes = ("worker", record node { vgpu_id2_gpu = ("GPU-1", raised) ∷ [] }) ∷ [];
  };
  calls = update_mps_configs "10.0.0.2:50051" "GPU-1" (map config_of raised.fast_pod_list) ∷ [];
  sent = new_pod_annotations fp pod_a ∷ [];
  failed = false;
}

reconfigures :
    reconcile_resource_config conv rpc (λ p. true) fp manager (pod_a ∷ []) ≡ returns reconfigured
unfolding reconcile_resource_config reconfigure_pod reconfigure_on reconfigure_entry put_entry
    new_entry find_in_queue get_text pod_key join_key resource_validity_check fixed_point
    update_pods_gpu_config config_of
reconfigures = refl

reconcile_resource_config-usage_example :
    (n : Node ℕ) × (g : GpuDevInfo ℕ) × (lookup "worker" manager.nodes ≡ some n)
    × (lookup "GPU-1" n.vgpu_id2_gpu ≡ some g)
    × (g.usage ≡ raised.usage)
    × (g.usage_mem ≡ raised.usage_mem)
reconcile_resource_config-usage_example =
    reconcile_resource_config-usage conv rpc (λ p. true) fp manager (pod_a ∷ []) reconfigures
      "worker" "GPU-1" (record node { vgpu_id2_gpu = ("GPU-1", raised) ∷ [] }) raised refl refl
