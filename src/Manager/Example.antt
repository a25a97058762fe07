-- ===== src/Manager/Example.antt =====
-- A concrete controller manager for tests: a GPU of 100 bytes and pods of 60 and 30 bytes.
-- The numbers of type `float64` are naturals in units of 1 / 10000 here.
use fa_st_gshare.Common.Int.{ℤ, pos, negsuc, pos_part}
use fa_st_gshare.Common.Dict.{lookup}
use fa_st_gshare.Manager.Books.{IsBooked, IsAddable}
use fa_st_gshare.Common.Float.{Floats}
use fa_st_gshare.Common.{
  ℕ, ◌≤◌, ◌*◌, ◌/◌, ◌+◌, ◌-◌, ◌≡◌, refl, subst, true, false, none, some, [], ◌∷◌, String, eq_iff,
  arith, inr, ltb,
}
use fa_st_gshare.Bitmap.Words.{digit}
use fa_st_gshare.Bitmap.Laws.{bit}
use fa_st_gshare.Types.{fast_pod}
use fa_st_gshare.Proto.{Rpc}
use fa_st_gshare.Manager.State.{
  FastPodReq, GpuDevInfo, Node, Manager, ResourceRequest, SelectionResult, FastPodRequirements,
  node_ready,
}
use fa_st_gshare.Manager.Ports.{port_bit, PortsBooked, node_holders}
use fa_st_gshare.Manager.PortSafety.{EachNode}

instance unfoldable pub fixed_point : Floats ℕ
fixed_point = record {
  add = λ a b. a + b;
  sub = λ a b. a - b;
  mul = λ a b. a * b / 10000;
  div = λ a b. a * 10000 / b;
  of_int = λ z. pos_part z * 10000;
  gt = λ a b. ltb b a;
}

-- The configurator enables MPS on every device and takes every list of pods.
abbrev pub rpc : Rpc
rpc = record {
  on_get_gpu = λ addr uuid. some (record { provisioned_gpu = none });
  on_enable_mps = λ addr uuid. some (record {
    success = true;
    mps_config =
        some (record { device_uuid = uuid; log_path = "/tmp/log"; tmp_path = "/tmp/pipe" });
  });
  on_disable_mps = λ addr uuid. some (record { success = true });
  on_release_virtual_gpu = λ addr uuid. none;
  on_update_mps_configs = λ addr uuid. true;
}

abbrev pub entry : FastPodReq ℕ
entry = record {
  key = "ns/a";
  qt_request = 5000;
  qt_limit = 10000;
  sm_partition = pos 50;
  memory = pos 60;
  gpu_client_port = pos 56001;
}

-- Pod `ns/a` holds the first port and a quarter of the GPU.
abbrev pub gpu : GpuDevInfo ℕ
gpu = record {
  virtual = false;
  sm_count = pos 80;
  allocation_type = fast_pod;
  gpu_type = "";
  uuid = "GPU-1";
  mem = pos 100;
  name = "";
  parent_uuid = "GPU-1";
  sm_percentage = pos 100;
  usage = 2500;
  usage_mem = pos 60;
  fast_pod_list = entry ∷ [];
  mps_pod_list = [];
  exclusive_pod = none;
}

abbrev pub node : Node ℕ
node = record {
  gpu_num = pos 1;
  daemon_ip = "10.0.0.2";
  uuid2_sched_port = [];
  uuid2_gpu_type = [];
  vgpu_id2_gpu = ("GPU-1", gpu) ∷ [];
  daemon_port_alloc = record { bits = 1 ∷ []; position = 1; size = 64 };
  vgpus = [];
  grpc_client = some "10.0.0.2:50051";
  host_name = "worker";
}

abbrev pub manager : Manager ℕ
manager = record {
  nodes = ("worker", node) ∷ [];
  nodes_liveness =
      ("worker", record { config_conn = 1; status = node_ready; last_heartbeat = 1 }) ∷ [];
  fast_pod_to_physical_gpus = [];
}

abbrev pub requirements : FastPodRequirements ℕ
requirements = record { quota_req = 5000; quota_limit = 10000; sm_partition = pos 50 }

-- A second FastPod of 30 bytes.
abbrev pub req : ResourceRequest ℕ
req = record {
  pod_key = "ns/b";
  allocation_type = fast_pod;
  requested_node = some "worker";
  request_gpu_uuid = some "GPU-1";
  requested_gpu_type = none;
  sm_request = none;
  sm_percentage = some (pos 50);
  memory = pos 30;
  fast_pod_requirements = some requirements;
}

abbrev pub sel : SelectionResult
sel = record { fast_pod_key = "ns/b"; node_name = "worker"; vgpu_uuid = "GPU-1" }

-- What a dictionary of one entry holds.
pub lookup-single {ℓ} :
    {V : Type ℓ} (k j : String) (v : V) {w : V} → lookup j ((k, v) ∷ []) ≡ some w → v ≡ w
lookup-single k j v e = ground arith

-- The key of the one entry that is found.
pub single_key {ℓ} :
    {V : Type ℓ} (k j : String) (v : V) {w : V} → lookup j ((k, v) ∷ []) ≡ some w → k ≡ j
single_key k j v e = (eq_iff k j).0 (ground arith)

one_port : (p : ℤ) → node_holders p node.vgpu_id2_gpu ≤ port_bit node.daemon_port_alloc p
unfolding bit digit port_bit
one_port (negsuc p) = ground arith
one_port (pos p) = ground arith

pub node-PortsBooked : PortsBooked node
node-PortsBooked = record {
  valid = record { words = refl; starts = inr (omega arith) };
  held = one_port;
}

pub manager-PortsBooked : EachNode PortsBooked manager
manager-PortsBooked name n at =
    subst PortsBooked (lookup-single "worker" name node at) node-PortsBooked

pub gpu-IsBooked : IsBooked gpu
unfolding fixed_point
gpu-IsBooked = record {
  total = refl;
  mem_nonneg = refl;
  mem_bound = omega arith;
  limit = omega arith;
  load = refl;
}

pub req-IsAddable : IsAddable req
req-IsAddable = record { memory_nonneg = refl; memory_bound = omega arith }

-- The state after the request: the second port, and half of the GPU in use.
abbrev pub new_gpu : GpuDevInfo ℕ
new_gpu = record gpu {
  usage = 5000;
  usage_mem = pos 90;
  fast_pod_list =
      entry
      ∷ record {
        key = "ns/b";
        qt_request = 5000;
        qt_limit = 10000;
        sm_partition = pos 50;
        memory = pos 30;
        gpu_client_port = pos 56002;
      }
      ∷ [];
}
