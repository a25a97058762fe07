-- ===== src/Nodes/Liveness.antt =====
-- node_init.go and config_manager.go: the heartbeats of the nodes and the check of them.
use fa_st_gshare.Common.Dict.{Dict, lookup, insert}
use fa_st_gshare.Common.Outcome.{Outcome, returns, ◌>>=◌, deref}
use fa_st_gshare.Common.{ℕ, ◌-◌, ◌*◌, ◌^◌, Bool, true, not, ltb, [], ◌∷◌, String, if◌then◌else◌}
use fa_st_gshare.Manager.State.{Manager, NodeLiveness, node_ready, node_not_ready}

-- What reading and decoding one `ConfiguratorHeartbeatMessage` gives.
pub data HeartbeatRead : Type 0 where
  read_failed undecodable : HeartbeatRead
  heartbeat : Bool → HeartbeatRead

unfoldable pub has_error : HeartbeatRead → Bool
has_error read_failed = true
has_error undecodable = true
has_error (heartbeat alive) = not alive

-- `checkTickerItv`, in seconds
abbrev pub check_ticker_itv : ℕ
check_ticker_itv = 240

-- `curTime.Sub(last)` in nanoseconds: a `time.Duration` stops at its largest value; a
-- difference below 0, which no test tells from 0, is 0.
unfoldable pub elapsed : ℕ → ℕ → ℕ
elapsed now last = let d = now - last in if ltb d (2 ^ 63) then d else 2 ^ 63 - 1

-- One entry under `checkNodeLiveness`.
unfoldable pub check_liveness : ℕ → NodeLiveness → NodeLiveness
check_liveness now l =
    if ltb (check_ticker_itv * 10 ^ 9) (elapsed now l.last_heartbeat)
    then record l { status = node_not_ready }
    else l

unfoldable pub check_each : ℕ → Dict NodeLiveness → Dict NodeLiveness
check_each now [] = []
check_each now ((name, l) ∷ rest) = (name, check_liveness now l) ∷ check_each now rest

-- What one message makes of the node's entry.
unfoldable pub after_read : ℕ → HeartbeatRead → NodeLiveness → NodeLiveness
after_read now read l =
    if has_error read
    then record l { status = node_not_ready }
    else record l { status = node_ready; last_heartbeat = now }

module _ {F : Type 0} where
  -- `checkNodeLiveness`, at one tick
  unfoldable pub check_node_liveness : ℕ → Manager F → Manager F
  check_node_liveness now m = record m { nodes_liveness = check_each now m.nodes_liveness }

  -- One round of the heartbeat loop of `handleNodeConnection`, and whether it goes on.
  unfoldable pub handle_heartbeat :
      ℕ → String → HeartbeatRead → Manager F → Outcome (Manager F × Bool)
  handle_heartbeat now name read m = do
    l ← deref (lookup name m.nodes_liveness)
    returns (
      record m { nodes_liveness = insert name (after_read now read l) m.nodes_liveness },
      not (has_error read),
    )
