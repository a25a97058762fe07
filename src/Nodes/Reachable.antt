-- ===== src/Nodes/Reachable.antt =====
-- What holds in every state that the controller manager reaches, in whatever order its steps come.
use fa_st_gshare.Common.Dict.{lookup}
use fa_st_gshare.Common.Float.{Floats}
use fa_st_gshare.Common.Outcome.{returns, panics}
use fa_st_gshare.Common.{
  ℕ, ◌≡◌, ◌≢◌, eq_refl, ◌⊎◌, true, some, List, ◌∷◌, ◌++◌, String, arith, Option-cases, inl, inr,
  subst, sym, ◌∙◌,
}
use fa_st_gshare.Manager.State.{Node}
use fa_st_gshare.Manager.Ports.{PortsBooked}
use fa_st_gshare.Manager.PortSafety.{EachNode, request-PortsBooked}
use fa_st_gshare.Manager.PortRemoval.{remove-PortsBooked}
use fa_st_gshare.Manager.PortRemovalAll.{remove_all-PortsBooked}
use fa_st_gshare.Manager.State.{GpuDevInfo, ResourceRequest, SelectionResult}
use fa_st_gshare.Manager.Fit.{can_fit}
use fa_st_gshare.Proto.{Rpc}
use fa_st_gshare.Manager.Schedule.{Scheduled, selected, schedule_request}
use fa_st_gshare.Manager.Request.{Requested, request_gpu_and_update_config}
use fa_st_gshare.Manager.Outcomes.{Granted, Refused, request-Outcomes}
use fa_st_gshare.Manager.Admission.{schedule_request-Admitted}
use fa_st_gshare.Manager.EndToEnd.{HostNamed, node-Admitted, gpu-Admitted, none-some, same_value}
use fa_st_gshare.Controller.ReconfigureLaws.{reconcile-PortsBooked, reconcile-Keeps}
use fa_st_gshare.Nodes.Liveness.{HeartbeatRead, handle_heartbeat}
use fa_st_gshare.Nodes.Keeps.{request-Keeps, schedule-Keeps}
use fa_st_gshare.Nodes.KeepsRemoval.{remove-Keeps, remove_all-Keeps}
use fa_st_gshare.Nodes.Ports.{schedule-PortsBooked}
use fa_st_gshare.Nodes.Waiters.{waiters-append, fewer_waiters}
use fa_st_gshare.Nodes.Invariant.{
  IsNamed, Inv, Keeps-Inv, join-Inv, enliven-Inv, heartbeat-Inv, tick-Inv,
}
use fa_st_gshare.Nodes.Cluster.{
  Cluster, World, Step, join, enliven, beat, hang_up, tick, schedule, request, remove, remove_all,
  reconfigure, Reach, start, later, Handler, waiting,
}

module _ {F : Type 0} ⦃fl : Floats F⦄ where
  Step-Inv : {w : World} {s t : Cluster F} → Inv s → Step w s t → Inv t
  Step-Inv {w = w} {s = s} i (join conn a e) = join-Inv w s conn a i e
  Step-Inv {s = s} i (enliven front back name conn e) = enliven-Inv s front back name conn i e
  Step-Inv {s = s} i (beat front back name conn now read e h) =
      heartbeat-Inv s now name read s.handlers i (λ j. omega arith) h
  Step-Inv {s = s} i (hang_up front back name conn now read e h) =
      heartbeat-Inv s now name read (front ++ back) i
        (fewer_waiters name conn front back s.handlers e) h
  Step-Inv {s = s} i (tick now) = tick-Inv s now i
  Step-Inv {s = s} i (schedule rpc req e) =
      Keeps-Inv s _ i (schedule-Keeps rpc s.manager req e)
        (schedule-PortsBooked rpc s.manager req i.ports e)
  Step-Inv {s = s} i (request rpc sel req key e) =
      Keeps-Inv s _ i (request-Keeps rpc s.manager sel req key e)
        (request-PortsBooked rpc s.manager sel req key i.ports e)
  Step-Inv {w = w} {s = s} i (remove rpc p e) =
      Keeps-Inv s _ i (remove-Keeps rpc w.to_upper s.manager p e)
        (remove-PortsBooked rpc w.to_upper s.manager p i.ports e)
  Step-Inv {w = w} {s = s} i (remove_all rpc namespace pods e) =
      Keeps-Inv s _ i (remove_all-Keeps rpc w.to_upper namespace s.manager pods e)
        (remove_all-PortsBooked rpc w.to_upper namespace s.manager pods i.ports e)
  Step-Inv {s = s} i (reconfigure rpc conv update fp pods e) =
      Keeps-Inv s _ i (reconcile-Keeps conv rpc update fp s.manager pods e)
        (reconcile-PortsBooked conv rpc update fp s.manager pods i.ports e)

  Reach-Inv : {w : World} {s : Cluster F} → Reach w s → Inv s
  Reach-Inv start = record {
    ports = λ name n e. cc;
    named = λ name n e. cc;
    live = λ name waiting_name. absurd (omega arith);
  }
  Reach-Inv (later r step) = Step-Inv (Reach-Inv r) step

  -- In every state that is reached, on every node each client port is held by one listed pod at
  -- most, and only with its bit set: whatever the order of joins, heartbeats, checks, requests,
  -- reconfigurations and removals.
  pub Reach-PortsBooked : {w : World} {s : Cluster F} → Reach w s → EachNode PortsBooked s.manager
  Reach-PortsBooked r = (Reach-Inv r).ports

  -- In every state that is reached, each node is kept under its own host name and has a client.
  pub Reach-IsNamed :
      {w : World} {s : Cluster F}
      → Reach w s
      → (name : String) (n : Node F) → lookup name s.manager.nodes ≡ some n
      → IsNamed name n
  Reach-IsNamed r = (Reach-Inv r).named

  -- In every state that is reached, what a goroutine reads from its connection is handled without
  -- a panic: the liveness entry that it writes exists.
  pub Reach-heartbeat :
      {w : World} {s : Cluster F}
      → Reach w s
      → (front back : List Handler) (name : String) (conn now : ℕ) (read : HeartbeatRead)
      → s.handlers ≡ front ++ waiting name conn ∷ back
      → handle_heartbeat now name read s.manager ≢ panics
  unfolding handle_heartbeat
  Reach-heartbeat {s = s} r front back name conn now read e =
      elim (Option-cases (lookup name s.manager.nodes_liveness)) [
        | inl absent ↦ absurd (
            (Reach-Inv r).live name
              (ground
                (arith, e, eq_refl name, waiters-append name front (waiting name conn ∷ back)))
              absent)
        | inr (l, known) ↦ λ stuck. ground arith
      ]

  -- In every state that is reached, a request that is selected and requested at once, with no step
  -- in between, is placed on the GPU that was selected or refused by the placing.
  pub Reach-request :
      {w : World} {s : Cluster F} (rpc : Rpc) (req : ResourceRequest F) (key : String)
      {sel : SelectionResult} {r : Scheduled F} {q : Requested F}
      → Reach w s
      → schedule_request rpc s.manager req ≡ returns r
      → r.selection ≡ selected sel
      → request_gpu_and_update_config rpc r.manager sel req key ≡ returns q
      → (n : Node F) × (g : GpuDevInfo F) × (lookup sel.node_name r.manager.nodes ≡ some n)
        × (lookup sel.vgpu_uuid n.vgpu_id2_gpu ≡ some g)
        × (can_fit req g ≡ returns true)
        × (Granted r.manager sel req key n g q ⊎ Refused r.manager sel req key n g q)
  Reach-request {s = s} rpc req key {sel = sel} {r = r} reached e chosen granted =
      let named : HostNamed s.manager = λ name n at. ((Reach-Inv reached).named name n at).host in
      let a = schedule_request-Admitted rpc s.manager req e chosen in
      let here = node-Admitted s.manager req sel r.manager named a in
      elim (request-Outcomes rpc r.manager sel req key granted) [
        | inl (_, _, inl (code, unknown)) ↦ absurd (none-some (sym unknown ∙ here))
        | inl (_, _, inr (code, n, at, unknown)) ↦
            absurd (none-some (sym unknown ∙ gpu-Admitted s.manager req sel r.manager named a n at))
        | inr (n, g, at, found, outcome) ↦
            let fits =
              subst (λ k. can_fit req k ≡ returns true)
                (same_value (sym (gpu-Admitted s.manager req sel r.manager named a n at) ∙ found))
                a.fits in
            (n, g, at, found, fits, outcome)
      ]
