-- ===== src/Nodes/Tests.antt =====
-- Tests on a node that joins, sends a heartbeat, is offered a pod and gets it.
use fa_st_gshare.Manager.Config.{not_ready, update_pods_gpu_config}
use fa_st_gshare.Nodes.Cluster.{Cluster, Reach, waiting, schedule}
use fa_st_gshare.Common.Dict.{lookup}
use fa_st_gshare.Common.Outcome.{returns, panics}
use fa_st_gshare.Common.{◌∷◌, ℕ, ◌*◌, ◌+◌, ◌^◌, ◌≤◌, ◌≡◌, ◌≢◌, ◌⊎◌, ◌↔◌, refl, some, [], arith}
use fa_st_gshare.Manager.State.{GpuDevInfo, Node, NodeLiveness, node_ready}
use fa_st_gshare.Manager.Outcomes.{Granted, Refused}
use fa_st_gshare.Manager.PortSafety.{EachNode}
use fa_st_gshare.Manager.Ports.{PortsBooked}
use fa_st_gshare.Manager.Example.{fixed_point, req, sel}
use fa_st_gshare.Nodes.Liveness.{read_failed, handle_heartbeat, check_node_liveness, has_error}
use fa_st_gshare.Nodes.Invariant.{IsNamed}
use fa_st_gshare.Nodes.Reachable.{Reach-PortsBooked, Reach-IsNamed, Reach-heartbeat}
use fa_st_gshare.Nodes.Interleaved.{here, next, Reach-request_later}
use fa_st_gshare.Nodes.LivenessLaws.{check_node_liveness_lem, stale_connection}
use fa_st_gshare.Nodes.Example.{
  answers, joined_node, alive_at, reconnected_reached, ready, ready_reached, offering, schedules,
  schedules_again, granted, grants, world,
}

Reach-PortsBooked_example : EachNode PortsBooked ready.manager
Reach-PortsBooked_example = Reach-PortsBooked ready_reached

Reach-IsNamed_example : IsNamed "worker" joined_node
Reach-IsNamed_example = Reach-IsNamed ready_reached "worker" joined_node refl

Reach-heartbeat_example : handle_heartbeat 9 "worker" read_failed ready.manager ≢ panics
Reach-heartbeat_example = Reach-heartbeat ready_reached [] [] "worker" 1 9 read_failed refl

stale_connection_example :
    (t : Cluster ℕ) × (l : NodeLiveness) × Reach world t
    × (t.handlers ≡ waiting "worker" 2 ∷ [])
    × (lookup "worker" t.manager.nodes_liveness ≡ some l)
    × (l.config_conn ≢ 1)
    × (l.last_heartbeat ≡ 8)
    × (update_pods_gpu_config answers t.manager "worker" "GPU-1" (some [])
        ≡ returns (some not_ready, []))
stale_connection_example =
    stale_connection answers 1 9 "worker" "GPU-1" read_failed (waiting "worker" 2 ∷ []) [] []
      (record { config_conn = 2; status = node_ready; last_heartbeat = 8 }) reconnected_reached refl
      refl (λ e. omega arith) (unfold has_error in refl)

check_node_liveness_lem_example :
    (l' : NodeLiveness) × (lookup "worker" (check_node_liveness 500 (alive_at 7)).nodes_liveness
      ≡ some l')
    × (l'.last_heartbeat ≡ 7)
    × ((l'.status ≡ node_ready) ↔ ((node_ready ≡ node_ready) × (500 ≤ 7 + 240 * 10 ^ 9)))
check_node_liveness_lem_example =
    check_node_liveness_lem 500 (alive_at 7) "worker"
      (record { config_conn = 1; status = node_ready; last_heartbeat = 7 }) refl

-- Another worker schedules the same request in between.
Reach-request_later_example :
    (n : Node ℕ) × (g : GpuDevInfo ℕ) × (lookup "worker" offering.manager.nodes ≡ some n)
    × (lookup "GPU-1" n.vgpu_id2_gpu ≡ some g)
    × (Granted offering.manager sel req "ns/b" n g (granted "ns/b")
        ⊎ Refused offering.manager sel req "ns/b" n g (granted "ns/b"))
Reach-request_later_example =
    Reach-request_later answers answers req "ns/b" ready_reached schedules refl
      (next here (schedule answers req schedules_again) tt) (grants "ns/b")
