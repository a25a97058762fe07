-- ===== src/Nodes/Cluster.antt =====
-- The controller manager as a system: its state, the goroutines of the node connections, and the
-- steps that they, the liveness ticker and the workers take in any order. What a step changes it
-- changes under `nodesInfoMtx` or `nodesLivenessMtx`, but for the check of the heartbeats' status in
-- the sending of a configuration, which changes nothing, and for `reconcileResourceConfig`, which
-- takes no mutex and is taken whole here nevertheless.
use fa_st_gshare.Common.Int.{ℤ}
use fa_st_gshare.Common.Float.{Floats}
use fa_st_gshare.Common.Outcome.{returns}
use fa_st_gshare.Common.{ℕ, ◌≡◌, Bool, true, false, some, List, [], ◌∷◌, ◌++◌, String}
use fa_st_gshare.Kube.{FastPod, Pod}
use fa_st_gshare.Proto.{Rpc}
use fa_st_gshare.Manager.State.{Manager, ResourceRequest, SelectionResult}
use fa_st_gshare.Manager.Schedule.{Scheduled, schedule_request}
use fa_st_gshare.Manager.Request.{Requested, request_gpu_and_update_config}
use fa_st_gshare.Manager.Remove.{Removed, remove_pod_from_list}
use fa_st_gshare.Manager.RemoveAll.{remove_fast_pod_from_list}
use fa_st_gshare.Manager.Validate.{Strconv}
use fa_st_gshare.Controller.Reconfigure.{Reconfigured, reconcile_resource_config}
use fa_st_gshare.Nodes.Join.{DaemonPod, Arrival, greet, init_liveness}
use fa_st_gshare.Nodes.Liveness.{HeartbeatRead, check_node_liveness, handle_heartbeat}

-- A goroutine of `handleNodeConnection`, by its node and its connection: it has registered the node,
-- or it waits for heartbeats.
pub data Handler : Type 0 where
  greeted : String → ℕ → Handler
  waiting : String → ℕ → Handler

pub record Cluster (F : Type 0) : Type 0 where
  pub manager : Manager F
  pub handlers : List Handler

-- Go's formatting, the API server's pods and `strings.ToUpper`.
pub record World : Type 0 where
  pub show : ℤ → String
  pub daemon_pod : String → DaemonPod
  pub to_upper : String → String

module _ {F : Type 0} ⦃fl : Floats F⦄ where
  abbrev pub empty_cluster : Cluster F
  empty_cluster = record {
    manager = record { nodes = []; nodes_liveness = []; fast_pod_to_physical_gpus = [] };
    handlers = [];
  }

  pub data Step (w : World) (s : Cluster F) : Cluster F → Type 0 where
    join :
        (conn : ℕ) (a : Arrival) {m : Manager F} {name : String}
        → greet w.show w.daemon_pod s.manager a ≡ returns (some (m, name))
        → Step w s (record { manager = m; handlers = greeted name conn ∷ s.handlers })
    enliven :
        (front back : List Handler) (name : String) (conn : ℕ)
        → s.handlers ≡ front ++ greeted name conn ∷ back
        → Step w s (record {
          manager = init_liveness conn name s.manager;
          handlers = front ++ waiting name conn ∷ back;
        })
    beat :
        (front back : List Handler) (name : String) (conn : ℕ) (now : ℕ) (read : HeartbeatRead)
        {m : Manager F}
        → s.handlers ≡ front ++ waiting name conn ∷ back
        → handle_heartbeat now name read s.manager ≡ returns (m, true)
        → Step w s (record { manager = m; handlers = s.handlers })
    hang_up :
        (front back : List Handler) (name : String) (conn : ℕ) (now : ℕ) (read : HeartbeatRead)
        {m : Manager F}
        → s.handlers ≡ front ++ waiting name conn ∷ back
        → handle_heartbeat now name read s.manager ≡ returns (m, false)
        → Step w s (record { manager = m; handlers = front ++ back })
    tick :
        (now : ℕ)
        → Step w s (record { manager = check_node_liveness now s.manager; handlers = s.handlers })
    schedule :
        (rpc : Rpc) (req : ResourceRequest F) {r : Scheduled F}
        → schedule_request rpc s.manager req ≡ returns r
        → Step w s (record { manager = r.manager; handlers = s.handlers })
    request :
        (rpc : Rpc) (sel : SelectionResult) (req : ResourceRequest F) (key : String)
        {r : Requested F}
        → request_gpu_and_update_config rpc s.manager sel req key ≡ returns r
        → Step w s (record { manager = r.manager; handlers = s.handlers })
    remove :
        (rpc : Rpc) (p : Pod) {r : Removed F}
        → remove_pod_from_list rpc w.to_upper s.manager p ≡ returns r
        → Step w s (record { manager = r.manager; handlers = s.handlers })
    remove_all :
        (rpc : Rpc) (namespace : String) (pods : List Pod) {r : Removed F}
        → remove_fast_pod_from_list rpc w.to_upper namespace s.manager pods ≡ returns r
        → Step w s (record { manager = r.manager; handlers = s.handlers })
    reconfigure :
        (rpc : Rpc) (conv : Strconv F) (update : Pod → Bool) (fp : FastPod) (pods : List Pod)
        {r : Reconfigured F}
        → reconcile_resource_config conv rpc update fp s.manager pods ≡ returns r
        → Step w s (record { manager = r.manager; handlers = s.handlers })

  pub data Reach (w : World) : Cluster F → Type 0 where
    start : Reach w empty_cluster
    later : {s t : Cluster F} → Reach w s → Step w s t → Reach w t
