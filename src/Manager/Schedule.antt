-- ===== src/Manager/Schedule.antt =====
-- scheduler.go: `ScheduleRequest`, which admits a request to the GPU that it names.
use fa_st_gshare.Common.Int.{pos, int64}
use fa_st_gshare.Common.Dict.{lookup}
use fa_st_gshare.Common.Float.{Floats, zero_float}
use fa_st_gshare.Common.Outcome.{Outcome, returns, ◌>>=◌, deref}
use fa_st_gshare.Common.{Bool, true, false, not, Option, none, some, List, [], ◌∷◌, String}
use fa_st_gshare.Types.{none_type}
use fa_st_gshare.Proto.{Call, get_gpu, Rpc, GetGpuResponse, GpuMessage, VirtualGpuMessage}
use fa_st_gshare.Manager.State.{
  GpuDevInfo, Node, Manager, ResourceRequest, SelectionResult, put_gpu, put_node,
}
use fa_st_gshare.Manager.Fit.{can_fit}

pub data ScheduleError : Type 0 where
  requested_node_is_nil request_gpu_uuid_is_nil node_not_found error_getting_gpu cannot_fit :
      ScheduleError

pub data Selection : Type 0 where
  selected : SelectionResult → Selection
  rejected : ScheduleError → Selection

pub record Scheduled (F : Type 0) : Type 0 where
  pub manager : Manager F
  pub selection : Selection
  pub calls : List (Call F)

module _ {F : Type 0} ⦃fl : Floats F⦄ where
  -- The entry for a GPU that the controller has not seen: `IsPhysical` decides `virtual`.
  unfoldable pub new_gpu_dev_info : VirtualGpuMessage → GpuMessage → GpuDevInfo F
  new_gpu_dev_info v gpu = record {
    virtual = not v.is_physical;
    sm_count = v.multiprocessor_count;
    allocation_type = none_type;
    gpu_type = "";
    uuid = gpu.uuid;
    mem = int64 (pos v.memory_bytes);
    name = "";
    parent_uuid = gpu.parent_uuid;
    sm_percentage = v.sm_percentage;
    usage = zero_float;
    usage_mem = pos 0;
    fast_pod_list = [];
    mps_pod_list = [];
    exclusive_pod = none;
  }

  -- `node.vGPUID2GPU[uuid]`, or a new entry from the configurator's answer.
  unfoldable pub selected_gpu : Option (GpuDevInfo F) → GetGpuResponse → Outcome (GpuDevInfo F)
  selected_gpu (some g) res = returns g
  selected_gpu none res = do
    v ← deref res.provisioned_gpu
    gpu ← deref v.provisioned_gpu
    returns (new_gpu_dev_info v gpu)

  abbrev pub judge : Bool → ResourceRequest F → Node F → String → Selection
  judge true req n uuid =
      selected (record { fast_pod_key = req.pod_key; node_name = n.host_name; vgpu_uuid = uuid })
  judge false req n uuid = rejected cannot_fit

  -- On a node that is known: the GPU is entered before the test, also when it does not fit.
  unfoldable pub schedule_on :
      Rpc → Manager F → ResourceRequest F → String → String → Node F → Outcome (Scheduled F)
  schedule_on rpc m req name uuid n = do
    addr ← deref n.grpc_client
    elim (rpc.on_get_gpu addr uuid) [
      | none ↦ returns (record {
        manager = m;
        selection = rejected error_getting_gpu;
        calls = get_gpu addr uuid ∷ [];
      })
      | some res ↦ (do
        g ← selected_gpu (lookup uuid n.vgpu_id2_gpu) res
        fits ← can_fit req g
        returns (record {
          manager = put_node m name (put_gpu n uuid g);
          selection = judge fits req n uuid;
          calls = get_gpu addr uuid ∷ [];
        }))
    ]

  abbrev turned_down : Manager F → ScheduleError → Scheduled F
  turned_down m e = record { manager = m; selection = rejected e; calls = [] }

  -- `ScheduleRequest`
  unfoldable pub schedule_request : Rpc → Manager F → ResourceRequest F → Outcome (Scheduled F)
  schedule_request rpc m req = elim req.requested_node [
    | none ↦ returns (turned_down m requested_node_is_nil)
    | some name ↦ elim req.request_gpu_uuid [
      | none ↦ returns (turned_down m request_gpu_uuid_is_nil)
      | some uuid ↦ elim (lookup name m.nodes) [
        | none ↦ returns (turned_down m node_not_found)
        | some n ↦ schedule_on rpc m req name uuid n
      ]
    ]
  ]
