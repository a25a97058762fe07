-- ===== src/Manager/Config.antt =====
-- config_manager.go: `updatePodsGPUConfig`, which sends a GPU's pod list to its configurator.
-- `podlist.Len()` is called before the nil test, so a nil list panics.
use fa_st_gshare.Common.Int.{int64, int32}
use fa_st_gshare.Common.Dict.{lookup}
use fa_st_gshare.Common.Outcome.{Outcome, returns, ◌>>=◌, deref}
use fa_st_gshare.Common.{true, false, Option, none, some, List, [], ◌∷◌, map, String}
use fa_st_gshare.Proto.{FastPodGpuConfig, Call, update_mps_configs, Rpc}
use fa_st_gshare.Manager.State.{FastPodReq, Manager, Node, NodeStatus, node_ready, node_not_ready}

pub data ConfigError : Type 0 where
  not_initialized not_ready send_failed : ConfigError

-- An error, or nil, and the calls that were made.
abbrev pub Sent : Type 0 → Type 0
Sent F = Option ConfigError × List (Call F)

module _ {F : Type 0} where
  unfoldable pub config_of : FastPodReq F → FastPodGpuConfig F
  config_of r = record {
    key = r.key;
    qt_request = r.qt_request;
    qt_limit = r.qt_limit;
    sm_partition = int64 r.sm_partition;
    memory = r.memory;
    gpu_client_port = int32 r.gpu_client_port;
  }

  -- The call, to the client of the node.
  abbrev send_configs : Rpc → String → List (FastPodReq F) → Option String → Outcome (Sent F)
  send_configs rpc uuid podlist none = returns (some not_initialized, [])
  send_configs rpc uuid podlist (some addr) = returns (
    elim (rpc.on_update_mps_configs addr uuid) [ true ↦ none | false ↦ some send_failed ],
    update_mps_configs addr uuid (map config_of podlist) ∷ [],
  )

  abbrev send_to_node : Rpc → String → List (FastPodReq F) → Option (Node F) → Outcome (Sent F)
  send_to_node rpc uuid podlist none = returns (some not_initialized, [])
  send_to_node rpc uuid podlist (some n) = send_configs rpc uuid podlist n.grpc_client

  abbrev send_when :
      Rpc
      → Manager F
      → String
      → String
      → Option (List (FastPodReq F))
      → NodeStatus
      → Outcome (Sent F)
  send_when rpc m name uuid podlist node_ready = do
    pods ← deref podlist
    send_to_node rpc uuid pods (lookup name m.nodes)
  send_when rpc m name uuid podlist node_not_ready = returns (some not_ready, [])

  -- `updatePodsGPUConfig`; `none` is the nil list.
  unfoldable pub update_pods_gpu_config :
      Rpc → Manager F → String → String → Option (List (FastPodReq F)) → Outcome (Sent F)
  update_pods_gpu_config rpc m name uuid podlist = elim (lookup name m.nodes_liveness) [
    | none ↦ returns (some not_initialized, [])
    | some live ↦ send_when rpc m name uuid podlist live.status
  ]
