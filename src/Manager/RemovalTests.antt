-- ===== src/Manager/RemovalTests.antt =====
-- Removals from the controller manager of the example.
use fa_st_gshare.Common.Int.{pos, int64, ◌+ℤ◌, ◌-ℤ◌}
use fa_st_gshare.Common.Dict.{lookup}
use fa_st_gshare.Common.Outcome.{returns, panics}
use fa_st_gshare.Common.{ℕ, ◌≡◌, refl, none, some, [], ◌∷◌, map}
use fa_st_gshare.Bitmap.Laws.{bit}
use fa_st_gshare.Bitmap.{
  Bitmap, clear_at, find_first_unset_and_set, find_first_unset, get_at, set_at,
}
use fa_st_gshare.Bitmap.Words.{clear_bit, get_bit, set_bit}
use fa_st_gshare.Types.{exclusive, get_allocation_type}
use fa_st_gshare.Kube.{
  Pod, running, get_text, vgpu_uuid_name, allocation_type_name, pod_key, join_key,
}
use fa_st_gshare.Manager.Remove.{
  Removed, TakenOff, remove_pod_from_list, remove_from_gpu, take_off, take_off_fast_pod,
  without_fast_pod, pod_usage, remove_fast_pod, free_port, is_last, retire_gpu, disable_mps_for,
  release_for,
}
use fa_st_gshare.Manager.RemoveAll.{
  remove_fast_pod_from_list, remove_one_pod, remove_listed_pod, drop_off, drop_from_fast_pods,
  drop_fast_pod, freed_usage, settle, try_disable_mps,
}
use fa_st_gshare.Manager.PortRemovalAll.{remove_all-PortsBooked}
use fa_st_gshare.Manager.PortRemoval.{remove-PortsBooked}
use fa_st_gshare.Proto.{update_mps_configs, disable_mps, delete_pod}
use fa_st_gshare.Manager.Queue.{find_pod, find_in_queue}
use fa_st_gshare.Manager.Request.{
  placed, place_fast_pod, place_new_fast_pod, new_usage, place_on_port, with_pod,
}
use fa_st_gshare.Manager.Config.{config_of, update_pods_gpu_config}
use fa_st_gshare.Manager.Panics.{remove_exclusive_pod}
use fa_st_gshare.Manager.Ports.{PortsBooked}
use fa_st_gshare.Manager.PortSafety.{EachNode}
use fa_st_gshare.Manager.RoundTrip.{take_off-place}
use fa_st_gshare.Manager.Example.{
  gpu-IsBooked, req-IsAddable, new_gpu, req, fixed_point, rpc, gpu, node, manager, node-PortsBooked,
  manager-PortsBooked,
}

abbrev pod_a : Pod
pod_a = record {
  namespace = "ns";
  name = "a";
  uid = "1";
  node_name = "worker";
  labels = [];
  annotations = ("fastgshare/vgpu_uuid", "GPU-1") ∷ ("fastgshare/allocation_type", "FASTPOD") ∷ [];
  phase = running;
  deletion_timestamp = none;
  conditions = [];
  restart_counts = [];
  creation_timestamp = pos 0;
}

-- The only pod leaves: its port is free, MPS is switched off and the GPU is forgotten.
abbrev emptied : Removed ℕ
emptied = record {
  manager = record manager {
    nodes =
        (
          "worker",
          record node {
            vgpu_id2_gpu = [];
            daemon_port_alloc = record { bits = 0 ∷ []; position = 1; size = 64 };
          },
        )
        ∷ [];
  };
  calls =
      update_mps_configs "10.0.0.2:50051" "GPU-1" [] ∷ disable_mps "10.0.0.2:50051" "GPU-1" ∷ [];
}

remove_a : remove_pod_from_list rpc (λ s. s) manager pod_a ≡ returns emptied
unfolding remove_pod_from_list remove_from_gpu get_text get_allocation_type pod_key join_key
    take_off take_off_fast_pod find_pod without_fast_pod pod_usage fixed_point remove_fast_pod
    free_port clear_at clear_bit ◌-ℤ◌ int64 update_pods_gpu_config is_last retire_gpu
    disable_mps_for release_for
remove_a = refl

remove-PortsBooked_example : EachNode PortsBooked emptied.manager
remove-PortsBooked_example =
    remove-PortsBooked rpc (λ s. s) manager pod_a manager-PortsBooked remove_a

abbrev exclusive_pod_a : Pod
exclusive_pod_a = record pod_a {
  annotations =
      ("fastgshare/vgpu_uuid", "GPU-1") ∷ ("fastgshare/allocation_type", "EXCLUSIVE") ∷ [];
}

exclusive_type :
    get_allocation_type (λ s. s) (get_text allocation_type_name exclusive_pod_a.annotations)
    ≡ exclusive
unfolding get_allocation_type get_text
exclusive_type = refl

gpu_of_pod :
    lookup (get_text vgpu_uuid_name exclusive_pod_a.annotations) node.vgpu_id2_gpu ≡ some gpu
unfolding get_text
gpu_of_pod = refl

remove_exclusive_pod_example : remove_pod_from_list rpc (λ s. s) manager exclusive_pod_a ≡ panics
remove_exclusive_pod_example =
    remove_exclusive_pod rpc (λ s. s) manager exclusive_pod_a node gpu refl gpu_of_pod
      exclusive_type

-- Deleting the FaSTPod of `ns/a`.
abbrev deleted : Removed ℕ
deleted = record emptied {
  calls =
      update_mps_configs "10.0.0.2:50051" "GPU-1" []
      ∷ disable_mps "10.0.0.2:50051" "GPU-1"
      ∷ delete_pod "ns" "a"
      ∷ [];
}

delete_a : remove_fast_pod_from_list rpc (λ s. s) "ns" manager (pod_a ∷ []) ≡ returns deleted
unfolding remove_fast_pod_from_list remove_one_pod remove_listed_pod get_text get_allocation_type
    pod_key join_key drop_off drop_from_fast_pods find_pod drop_fast_pod freed_usage fixed_point
    remove_fast_pod free_port clear_at clear_bit ◌-ℤ◌ int64 update_pods_gpu_config settle
    try_disable_mps
delete_a = refl

remove_all-PortsBooked_example : EachNode PortsBooked deleted.manager
remove_all-PortsBooked_example =
    remove_all-PortsBooked rpc (λ s. s) "ns" manager (pod_a ∷ []) manager-PortsBooked delete_a

-- Pod `ns/b` comes and goes.
abbrev ports_of_two : Bitmap
ports_of_two = record { bits = 3 ∷ []; position = 2; size = 64 }

places_b :
    place_fast_pod req "ns/b" node.daemon_port_alloc gpu
    ≡ returns (placed ports_of_two new_gpu (pos 56002))
unfolding place_fast_pod find_in_queue place_new_fast_pod fixed_point new_usage int64 ◌+ℤ◌
    place_on_port find_first_unset_and_set find_first_unset get_at get_bit set_bit set_at with_pod
places_b = refl

abbrev taken_off_b : TakenOff ℕ
taken_off_b = record {
  ports = record { bits = 1 ∷ []; position = 2; size = 64 };
  gpu = gpu;
  calls = update_mps_configs "10.0.0.2:50051" "GPU-1" (map config_of gpu.fast_pod_list) ∷ [];
  podlist = some 1;
}

takes_off_b :
    take_off_fast_pod rpc manager "worker" "ns/b" ports_of_two new_gpu ≡ returns taken_off_b
unfolding take_off_fast_pod find_pod without_fast_pod pod_usage fixed_point remove_fast_pod
    free_port clear_at clear_bit ◌-ℤ◌ int64 update_pods_gpu_config config_of
takes_off_b = refl

new_key : find_pod "ns/b" gpu.fast_pod_list ≡ none
unfolding find_pod
new_key = refl

take_off-place_example :
    (taken_off_b.gpu.fast_pod_list ≡ gpu.fast_pod_list)
    × (taken_off_b.gpu.usage_mem ≡ gpu.usage_mem)
    × ((p : ℕ) → bit taken_off_b.ports p ≡ bit node.daemon_port_alloc p)
take_off-place_example =
    take_off-place rpc manager "worker" "ns/b" req node.daemon_port_alloc gpu node-PortsBooked.valid
      gpu-IsBooked req-IsAddable new_key places_b takes_off_b
