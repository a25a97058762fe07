-- ===== src/Nodes/Example.antt =====
-- A node joins, sends a heartbeat, is offered a pod and gets it: the states on the way.
use fa_st_gshare.Common.Int.{pos, int64, ◌+ℤ◌, ◌-ℤ◌, int32}
use fa_st_gshare.Common.Outcome.{returns}
use fa_st_gshare.Common.{String, ℕ, ◌≡◌, refl, true, false, none, some, [], ◌∷◌, map, replicate}
use fa_st_gshare.Proto.{Rpc, VirtualGpuMessage, get_gpu, enable_mps, update_mps_configs}
use fa_st_gshare.Types.{none_type, fast_pod}
use fa_st_gshare.Manager.State.{Allocation, GpuDevInfo, Node, Manager, node_ready, port_range}
use fa_st_gshare.Manager.Fit.{can_fit, can_fit_fast_pod, total_usage}
use fa_st_gshare.Manager.Schedule.{
  Scheduled, selected, schedule_request, schedule_on, selected_gpu, new_gpu_dev_info,
}
use fa_st_gshare.Manager.Request.{
  Requested, claim_type, place, request_gpu_and_update_config, request_on, enable_mps_for,
  place_fast_pod, finish, place_new_fast_pod, new_usage, place_on_port, answer, answer_fast_pod,
  with_pod,
}
use fa_st_gshare.Manager.Config.{config_of, update_pods_gpu_config}
use fa_st_gshare.Manager.Queue.{find_in_queue}
use fa_st_gshare.Manager.Example.{fixed_point, rpc, req, sel}
use fa_st_gshare.Bitmap.{new_bitmap, find_first_unset_and_set, find_first_unset, set_at, get_at}
use fa_st_gshare.Bitmap.Words.{set_bit, get_bit}
use fa_st_gshare.Nodes.Join.{
  Arrival, greet, meet_node, host_of, before_colon, register_node, new_node, refresh_node,
  dial_target, init_liveness,
}
use fa_st_gshare.Nodes.Liveness.{heartbeat, has_error, after_read, handle_heartbeat}
use fa_st_gshare.Nodes.Cluster.{
  Cluster, World, join, enliven, beat, Reach, start, later, empty_cluster, waiting,
}

abbrev pub world : World
world = record {
  show = λ z. "50051";
  daemon_pod = λ name. record { node_name = "worker"; host_ip = "10.0.0.2" };
  to_upper = λ s. s;
}

abbrev pub offered : VirtualGpuMessage
offered = record {
  id = "GPU-1";
  device_index = pos 0;
  memory_bytes = 100;
  multiprocessor_count = pos 80;
  is_provisioned = true;
  profileid = none;
  provisioned_gpu = some (record {
    uuid = "GPU-1";
    name = "A100";
    memory_bytes = 100;
    multiprocessor_count = pos 80;
    parent_device_index = pos 0;
    parent_uuid = "GPU-1";
    mps_enabled = false;
    mps_config = none;
  });
  is_physical = true;
  physical_gpu_type = "A100";
  sm_percentage = pos 100;
}

abbrev pub arrival : Arrival
arrival = record {
  remote_addr = "10.1.0.7:41234";
  hello = some (record { hostname = "configurator-x2x"; grpc_port = pos 50051 });
  ack_written = true;
  connected = true;
  healthy = true;
  available = some (offered ∷ []);
}

abbrev pub answers : Rpc
answers = record rpc { on_get_gpu = λ addr uuid. some (record { provisioned_gpu = some offered }) }

abbrev pub joined_node : Node ℕ
joined_node = record {
  gpu_num = pos 0;
  daemon_ip = "10.0.0.2";
  uuid2_sched_port = [];
  uuid2_gpu_type = [];
  vgpu_id2_gpu = [];
  daemon_port_alloc = new_bitmap port_range;
  vgpus = offered ∷ [];
  grpc_client = some "10.0.0.2:50051";
  host_name = "worker";
}

abbrev pub joined : Manager ℕ
joined = record {
  nodes = ("worker", joined_node) ∷ [];
  nodes_liveness = [];
  fast_pod_to_physical_gpus = [];
}

abbrev pub alive_at : ℕ → Manager ℕ
alive_at t = record joined {
  nodes_liveness =
      ("worker", record { config_conn = 1; status = node_ready; last_heartbeat = t }) ∷ [];
}

pub joins :
    greet world.show world.daemon_pod (empty_cluster {F = ℕ}).manager arrival
    ≡ returns (some (joined, "worker"))
unfolding greet meet_node host_of before_colon register_node new_node dial_target
joins = refl

pub enlivens : init_liveness 1 "worker" joined ≡ alive_at 0
unfolding init_liveness
enlivens = refl

pub beats : handle_heartbeat 7 "worker" (heartbeat true) (alive_at 0) ≡ returns (alive_at 7, true)
unfolding handle_heartbeat has_error after_read
beats = refl

abbrev pub ready : Cluster ℕ
ready = record { manager = alive_at 7; handlers = waiting "worker" 1 ∷ [] }

pub ready_reached : Reach world ready
unfolding init_liveness
ready_reached =
    later (later (later start (join 1 arrival joins)) (enliven [] [] "worker" 1 refl))
      (beat [] [] "worker" 1 7 (heartbeat true) refl beats)

-- The same node on a second connection, with its first heartbeat.
abbrev pub again_at : ℕ → Manager ℕ
again_at t = record joined {
  nodes_liveness =
      ("worker", record { config_conn = 2; status = node_ready; last_heartbeat = t }) ∷ [];
}

abbrev pub reconnected : Cluster ℕ
reconnected = record {
  manager = again_at 8;
  handlers = waiting "worker" 2 ∷ waiting "worker" 1 ∷ [];
}

joins_again :
    greet world.show world.daemon_pod ready.manager arrival ≡ returns (some (alive_at 7, "worker"))
unfolding greet meet_node host_of before_colon register_node refresh_node dial_target new_bitmap
joins_again = refl

beats_again : handle_heartbeat 8 "worker" (heartbeat true) (again_at 0) ≡ returns (again_at 8, true)
unfolding handle_heartbeat has_error after_read
beats_again = refl

pub reconnected_reached : Reach world reconnected
unfolding init_liveness
reconnected_reached =
    later
      (later (later ready_reached (join 2 arrival joins_again))
        (enliven [] (waiting "worker" 1 ∷ []) "worker" 2 refl))
      (beat [] (waiting "worker" 1 ∷ []) "worker" 2 8 (heartbeat true) refl beats_again)

-- The GPU as scheduling enters it.
abbrev pub entered : GpuDevInfo ℕ
entered = record {
  virtual = false;
  sm_count = pos 80;
  allocation_type = none_type;
  gpu_type = "";
  uuid = "GPU-1";
  mem = pos 100;
  name = "";
  parent_uuid = "GPU-1";
  sm_percentage = pos 100;
  usage = 0;
  usage_mem = pos 0;
  fast_pod_list = [];
  mps_pod_list = [];
  exclusive_pod = none;
}

abbrev pub offering : Scheduled ℕ
offering = record {
  manager = record (alive_at 7) {
    nodes = ("worker", record joined_node { vgpu_id2_gpu = ("GPU-1", entered) ∷ [] }) ∷ [];
  };
  selection = selected sel;
  calls = get_gpu "10.0.0.2:50051" "GPU-1" ∷ [];
}

pub schedules : schedule_request answers ready.manager req ≡ returns offering
unfolding schedule_request schedule_on selected_gpu can_fit can_fit_fast_pod total_usage int64 ◌-ℤ◌
    fixed_point new_gpu_dev_info
schedules = refl

pub schedules_again : schedule_request answers offering.manager req ≡ returns offering
unfolding schedule_request schedule_on selected_gpu can_fit can_fit_fast_pod total_usage int64 ◌-ℤ◌
    fixed_point
schedules_again = refl

-- The GPU with its first pod, on the first port.
abbrev pub occupied : String → GpuDevInfo ℕ
occupied key = record entered {
  allocation_type = fast_pod;
  usage = 2500;
  usage_mem = pos 30;
  fast_pod_list =
      record {
        key = key;
        qt_request = 5000;
        qt_limit = 10000;
        sm_partition = pos 50;
        memory = pos 30;
        gpu_client_port = pos 56001;
      }
      ∷ [];
}

abbrev pub allocation : Allocation
allocation = record {
  uuid = "GPU-1";
  node = "worker";
  mps_config = some (record {
    log_directory = "/tmp/log";
    pipe_directory = "/tmp/pipe";
    fast_pod_mps_config = some (record {
      scheduler_ip = "10.0.0.2";
      gpu_client_port = pos 56001;
      active_thread_percentage = pos 50;
    });
  });
}

abbrev pub granted : String → Requested ℕ
granted key = record {
  manager = record (alive_at 7) {
    nodes =
        (
          "worker",
          record joined_node {
            vgpu_id2_gpu = ("GPU-1", occupied key) ∷ [];
            daemon_port_alloc = record { bits = 1 ∷ replicate 15 0; position = 1; size = 1024 };
          },
        )
        ∷ [];
  };
  allocation = some allocation;
  code = 0;
  calls =
      enable_mps "10.0.0.2:50051" "GPU-1"
      ∷ update_mps_configs "10.0.0.2:50051" "GPU-1" (map config_of (occupied key).fast_pod_list)
      ∷ [];
}

pub grants :
    (key : String)
    → request_gpu_and_update_config answers offering.manager sel req key ≡ returns (granted key)
unfolding request_gpu_and_update_config request_on enable_mps_for claim_type place place_fast_pod
    find_in_queue finish place_new_fast_pod fixed_point new_usage int64 ◌+ℤ◌ place_on_port
    find_first_unset_and_set find_first_unset get_at get_bit set_bit set_at int32 config_of
    update_pods_gpu_config answer answer_fast_pod with_pod new_bitmap
grants key = refl
