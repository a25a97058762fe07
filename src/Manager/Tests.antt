-- ===== src/Manager/Tests.antt =====
-- Requests to the controller manager of the example.
use fa_st_gshare.Common.Int.{pos, int64, int32, ◌+ℤ◌, ◌-ℤ◌}
use fa_st_gshare.Common.Dict.{lookup}
use fa_st_gshare.Common.Outcome.{returns, panics}
use fa_st_gshare.Common.{ℕ, ◌≡◌, ◌≢◌, ◌↔◌, refl, subst, sym, true, none, some, [], ◌∷◌, map}
use fa_st_gshare.Bitmap.{find_first_unset_and_set, find_first_unset, set_at, get_at}
use fa_st_gshare.Bitmap.Words.{set_bit, get_bit}
use fa_st_gshare.Types.{mps, fast_pod}
use fa_st_gshare.Proto.{enable_mps, update_mps_configs, get_gpu}
use fa_st_gshare.Manager.State.{Node, Manager}
use fa_st_gshare.Manager.Queue.{find_in_queue}
use fa_st_gshare.Manager.Request.{
  Requested, claim_type, place, request_gpu_and_update_config, refused, request_on, enable_mps_for,
  place_fast_pod, finish, place_new_fast_pod, new_usage, place_on_port, answer, answer_fast_pod,
  with_pod,
}
use fa_st_gshare.Manager.Config.{config_of, update_pods_gpu_config}
use fa_st_gshare.Manager.Schedule.{Scheduled, selected, schedule_request, schedule_on, selected_gpu}
use fa_st_gshare.Manager.Admission.{Admitted, schedule_request-Admitted}
use fa_st_gshare.Manager.EndToEnd.{HostNamed, schedule-request}
use fa_st_gshare.Manager.Panics.{request_second_mps_pod}
use fa_st_gshare.Manager.Validate.{validate_pod_request}
use fa_st_gshare.Manager.Checks.{IsAcceptable, validate_pod_request_lem}
use fa_st_gshare.Manager.Fit.{can_fit, can_fit_fast_pod, total_usage}
use fa_st_gshare.Manager.Each.{EachGpu}
use fa_st_gshare.Manager.Books.{IsBooked}
use fa_st_gshare.Manager.Outcomes.{Outcomes, request-Outcomes}
use fa_st_gshare.Manager.Safety.{IsAccounted, request-IsAccounted, can_fit-place}
use fa_st_gshare.Manager.Ports.{PortsBooked}
use fa_st_gshare.Manager.PortSafety.{EachNode, request-PortsBooked}
use fa_st_gshare.Manager.Example.{
  gpu-IsBooked, req-IsAddable, new_gpu, fixed_point, rpc, gpu, node, manager, req, sel,
  lookup-single, single_key, manager-PortsBooked,
}

manager-IsBooked : EachGpu IsBooked manager
manager-IsBooked name id n g at found =
    subst IsBooked
      (lookup-single "GPU-1" id gpu (
        subst (λ (k : Node ℕ). lookup id k.vgpu_id2_gpu ≡ some g)
          (sym (lookup-single "worker" name node at)) found))
      gpu-IsBooked

req_fits : can_fit req gpu ≡ returns true
unfolding can_fit can_fit_fast_pod total_usage int64 ◌-ℤ◌ fixed_point
req_fits = refl

can_fit-place_example :
    place fast_pod req "ns/b" node.daemon_port_alloc (claim_type req gpu) ≢ returns (refused 4)
can_fit-place_example =
    can_fit-place req "ns/b" node.daemon_port_alloc gpu gpu-IsBooked refl req_fits

abbrev booked : Manager ℕ
booked = record manager {
  nodes =
      (
        "worker",
        record node {
          vgpu_id2_gpu = ("GPU-1", new_gpu) ∷ [];
          daemon_port_alloc = record { bits = 3 ∷ []; position = 2; size = 64 };
        },
      )
      ∷ [];
}

abbrev granted : Requested ℕ
granted = record {
  manager = booked;
  allocation = some (record {
    uuid = "GPU-1";
    node = "worker";
    mps_config = some (record {
      log_directory = "/tmp/log";
      pipe_directory = "/tmp/pipe";
      fast_pod_mps_config = some (record {
        scheduler_ip = "10.0.0.2";
        gpu_client_port = pos 56002;
        active_thread_percentage = pos 50;
      });
    });
  });
  code = 0;
  calls =
      enable_mps "10.0.0.2:50051" "GPU-1"
      ∷ update_mps_configs "10.0.0.2:50051" "GPU-1" (map config_of new_gpu.fast_pod_list)
      ∷ [];
}

request_b : request_gpu_and_update_config rpc manager sel req "ns/b" ≡ returns granted
unfolding request_gpu_and_update_config request_on enable_mps_for claim_type place place_fast_pod
    find_in_queue finish place_new_fast_pod fixed_point new_usage int64 ◌+ℤ◌ place_on_port
    find_first_unset_and_set find_first_unset get_at get_bit set_bit set_at int32 config_of
    update_pods_gpu_config answer answer_fast_pod with_pod
request_b = refl

manager-IsAccounted : EachGpu IsAccounted manager
manager-IsAccounted name id n g at found =
    subst IsAccounted
      (lookup-single "GPU-1" id gpu (
        subst (λ (k : Node ℕ). lookup id k.vgpu_id2_gpu ≡ some g)
          (sym (lookup-single "worker" name node at)) found))
      (gpu-IsBooked, unfold fixed_point in refl)

request-IsAccounted_example : EachGpu IsAccounted booked
request-IsAccounted_example =
    request-IsAccounted rpc manager sel req "ns/b" manager-IsAccounted req-IsAddable request_b

request-Outcomes_example : Outcomes manager sel req "ns/b" granted
request-Outcomes_example = request-Outcomes rpc manager sel req "ns/b" request_b

request-PortsBooked_example : EachNode PortsBooked booked
request-PortsBooked_example =
    request-PortsBooked rpc manager sel req "ns/b" manager-PortsBooked request_b

-- The scheduler selects the GPU, which it knows.
abbrev scheduled : Scheduled ℕ
scheduled = record {
  manager = manager;
  selection = selected sel;
  calls = get_gpu "10.0.0.2:50051" "GPU-1" ∷ [];
}

schedule_b : schedule_request rpc manager req ≡ returns scheduled
unfolding schedule_request schedule_on selected_gpu can_fit can_fit_fast_pod total_usage int64 ◌-ℤ◌
    fixed_point
schedule_b = refl

schedule_request-Admitted_example : Admitted manager req sel manager
schedule_request-Admitted_example = schedule_request-Admitted rpc manager req schedule_b refl

manager-HostNamed : HostNamed manager
manager-HostNamed name n at =
    subst (λ (k : Node ℕ). k.host_name ≡ name) (lookup-single "worker" name node at)
      (single_key "worker" name node at)

schedule-request_example : (granted.code ≢ 2) × (granted.code ≢ 4)
schedule-request_example =
    schedule-request rpc manager req "ns/b" manager-HostNamed manager-IsBooked refl schedule_b refl
      request_b

-- A GPU with one MPS pod.
abbrev mps_node : Node ℕ
mps_node = record node {
  vgpu_id2_gpu =
      (
        "GPU-1",
        record gpu {
          allocation_type = mps;
          fast_pod_list = [];
          mps_pod_list = record { key = "ns/a"; memory = pos 60 } ∷ [];
        },
      )
      ∷ [];
}

request_second_mps_pod_example :
    request_gpu_and_update_config rpc
      (record manager { nodes = ("worker", mps_node) ∷ [] })
      sel
      (record req { allocation_type = mps })
      "ns/b"
    ≡ panics
request_second_mps_pod_example =
    request_second_mps_pod rpc (record manager { nodes = ("worker", mps_node) ∷ [] }) sel
      (record req { allocation_type = mps }) "ns/b" mps_node _ refl refl refl (λ e. cc)

validate_pod_request_lem_example : (validate_pod_request req ≡ none) ↔ IsAcceptable req
validate_pod_request_lem_example = validate_pod_request_lem req
