-- ===== src/Nodes/LivenessLaws.antt =====
-- node_init.go and config_manager.go: when a node counts as ready.
use fa_st_gshare.Common.Dict.{Dict, lookup, insert, lookup-insert_self}
use fa_st_gshare.Common.Outcome.{returns}
use fa_st_gshare.Common.{
  ℕ, ◌+◌, ◌*◌, ◌^◌, ◌≤◌, ◌≡◌, ◌≢◌, ◌↔◌, refl, List, ◌++◌, true, false, some, [], ◌∷◌, String,
  str_eq, arith, Bool-cases, inl, inr,
}
use fa_st_gshare.Manager.State.{FastPodReq, Manager, NodeLiveness, node_ready, node_not_ready}
use fa_st_gshare.Common.Float.{Floats}
use fa_st_gshare.Nodes.Liveness.{
  HeartbeatRead, has_error, after_read, elapsed, check_ticker_itv, check_liveness, check_each,
  check_node_liveness, handle_heartbeat,
}
use fa_st_gshare.Nodes.Cluster.{Cluster, World, Handler, waiting, hang_up, Reach, later}
use fa_st_gshare.Manager.Config.{not_ready, update_pods_gpu_config}
use fa_st_gshare.Proto.{Rpc}

lookup-check_each :
    (now : ℕ) (name : String) (d : Dict NodeLiveness) {l : NodeLiveness}
    → lookup name d ≡ some l
    → lookup name (check_each now d) ≡ some (check_liveness now l)
unfolding check_each
lookup-check_each now name [] e = cc
lookup-check_each now name ((k, x) ∷ rest) {l = l} e = elim (Bool-cases (str_eq k name)) [
  | inl here ↦ ground arith
  | inr rest_of ↦ ground (arith, lookup-check_each now name rest {l = l})
]

-- The status that the check leaves.
check_liveness-ready :
    (now : ℕ) (l : NodeLiveness)
    → ((check_liveness now l).status ≡ node_ready)
      ↔ ((l.status ≡ node_ready) × (now ≤ l.last_heartbeat + check_ticker_itv * 10 ^ 9))
unfolding check_liveness elapsed
check_liveness-ready now l = ground arith

check_liveness-last :
    (now : ℕ) (l : NodeLiveness) → (check_liveness now l).last_heartbeat ≡ l.last_heartbeat
unfolding check_liveness
check_liveness-last now l = ground arith

-- What an error leaves of an entry.
after_error :
    (now : ℕ) (read : HeartbeatRead) (l : NodeLiveness)
    → has_error read ≡ true
    → after_read now read l ≡ record l { status = node_not_ready }
unfolding after_read
after_error now read l e = ground arith

module _ {F : Type 0} ⦃fl : Floats F⦄ where
  -- After a check, a node with an entry is ready exactly if it was and if its last heartbeat is
  -- not more than 240 seconds old.
  pub check_node_liveness_lem :
      (now : ℕ) (m : Manager F) (name : String) (l : NodeLiveness)
      → lookup name m.nodes_liveness ≡ some l
      → (l' : NodeLiveness) × (lookup name (check_node_liveness now m).nodes_liveness ≡ some l')
        × (l'.last_heartbeat ≡ l.last_heartbeat)
        × ((l'.status ≡ node_ready)
            ↔ ((l.status ≡ node_ready) × (now ≤ l.last_heartbeat + 240 * 10 ^ 9)))
  unfolding check_node_liveness
  check_node_liveness_lem now m name l e = (
    check_liveness now l,
    lookup-check_each now name m.nodes_liveness e,
    check_liveness-last now l,
    check_liveness-ready now l,
  )

  ended_connection :
      (now : ℕ) (name : String) (read : HeartbeatRead) (m : Manager F) (l : NodeLiveness)
      → lookup name m.nodes_liveness ≡ some l
      → has_error read ≡ true
      → handle_heartbeat now name read m
        ≡ returns (
          record m {
            nodes_liveness = insert name (record l { status = node_not_ready }) m.nodes_liveness;
          },
          false,
        )
  unfolding handle_heartbeat
  ended_connection now name read m l at error =
      rw (at, handle_heartbeat, after_error now read l error, error) refl

  refused_when_not_ready :
      (rpc : Rpc) (m : Manager F) (name uuid : String) (pods : List (FastPodReq F))
      (l : NodeLiveness)
      → lookup name m.nodes_liveness ≡ some l
      → l.status ≡ node_not_ready
      → update_pods_gpu_config rpc m name uuid (some pods) ≡ returns (some not_ready, [])
  unfolding update_pods_gpu_config
  refused_when_not_ready rpc m name uuid pods l at down = rw (at, update_pods_gpu_config, down) refl

  -- In a state that is reached, a goroutine waits on an older connection of a node, while the
  -- node's entry names another, newer connection. An error on the older connection is then a step
  -- of the system, and it leaves the entry of the newer connection as it was but for its status,
  -- which becomes not ready: the configuration of the node's pods is refused there.
  pub stale_connection :
      {w : World} {s : Cluster F} (rpc : Rpc) (older now : ℕ) (name uuid : String)
      (read : HeartbeatRead) (front back : List Handler) (pods : List (FastPodReq F))
      (l : NodeLiveness)
      → Reach w s
      → s.handlers ≡ front ++ waiting name older ∷ back
      → lookup name s.manager.nodes_liveness ≡ some l
      → l.config_conn ≢ older
      → has_error read ≡ true
      → (t : Cluster F) × (l' : NodeLiveness) × Reach w t
        × (t.handlers ≡ front ++ back)
        × (lookup name t.manager.nodes_liveness ≡ some l')
        × (l'.config_conn ≢ older)
        × (l'.last_heartbeat ≡ l.last_heartbeat)
        × (update_pods_gpu_config rpc t.manager name uuid (some pods)
            ≡ returns (some not_ready, []))
  stale_connection {w = w} {s = s} rpc older now name uuid read front back pods l r at found other
        error =
      let l' = record l { status = node_not_ready } in
      let m = record s.manager { nodes_liveness = insert name l' s.manager.nodes_liveness } in
      let now_found = lookup-insert_self name l' s.manager.nodes_liveness in
      (
        record { manager = m; handlers = front ++ back },
        l',
        later r (
            hang_up front back name older now read at
              (ended_connection now name read s.manager l found error)),
        refl,
        now_found,
        other,
        refl,
        refused_when_not_ready rpc m name uuid pods l' now_found refl,
      )
