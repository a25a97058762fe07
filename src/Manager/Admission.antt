-- ===== src/Manager/Admission.antt =====
-- scheduler.go: what `ScheduleRequest` promises of the GPU that it selects.
use fa_st_gshare.Common.Dict.{lookup, insert, lookup-insert_self}
use fa_st_gshare.Common.Float.{Floats}
use fa_st_gshare.Common.Outcome.{Outcome, returns, deref, >>=-returns}
use fa_st_gshare.Common.{
  ◌≡◌, refl, ap, Bool, true, false, some, List, String, arith, Option-cases, inl, inr, sym, ◌∙◌,
}
use fa_st_gshare.Proto.{Call, Rpc}
use fa_st_gshare.Manager.State.{
  GpuDevInfo, Node, Manager, ResourceRequest, SelectionResult, put_gpu, put_node,
}
use fa_st_gshare.Manager.Fit.{can_fit}
use fa_st_gshare.Manager.Schedule.{
  ScheduleError, judge, Scheduled, selected, rejected, selected_gpu, schedule_on, schedule_request,
}

module _ {F : Type 0} ⦃fl : Floats F⦄ where
  -- The selection names a GPU of the new state, which fits, on the node that the request asks for.
  pub record Admitted (m : Manager F) (req : ResourceRequest F) (s : SelectionResult)
      (m' : Manager F) : Type 0 where
    pub name : String
    pub node : Node F
    pub gpu : GpuDevInfo F
    pub name_asked : req.requested_node ≡ some name
    pub gpu_asked : req.request_gpu_uuid ≡ some s.vgpu_uuid
    pub node_known : lookup name m.nodes ≡ some node
    pub node_written : lookup name m'.nodes ≡ some (put_gpu node s.vgpu_uuid gpu)
    pub same_host : s.node_name ≡ node.host_name
    pub fits : can_fit req gpu ≡ returns true

  failed_selection :
      {m : Manager F} {x : ScheduleError} {calls : List (Call F)} {s : SelectionResult}
      {r : Scheduled F}
      → ◌≡◌ {A = Outcome (Scheduled F)}
          (returns (record { manager = m; selection = rejected x; calls = calls }))
          (returns r)
      → r.selection ≡ selected s
      → ⊥
  failed_selection e chosen = cc

  judged_selection :
      (fits : Bool) (req : ResourceRequest F) (n : Node F) (name uuid : String) (m : Manager F)
      (g : GpuDevInfo F) {calls : List (Call F)} {s : SelectionResult} {r : Scheduled F}
      → ◌≡◌ {A = Outcome (Scheduled F)}
          (returns (record {
            manager = put_node m name (put_gpu n uuid g);
            selection = judge fits req n uuid;
            calls = calls;
          }))
          (returns r)
      → r.selection ≡ selected s
      → (fits ≡ true)
        × (insert name (put_gpu n uuid g) m.nodes ≡ r.manager.nodes)
        × (s.vgpu_uuid ≡ uuid)
        × (s.node_name ≡ n.host_name)
  judged_selection true req n name uuid m g e chosen = (refl, cc, ground arith, ground arith)
  judged_selection false req n name uuid m g e chosen = cc

  -- A known node's answer.
  schedule_on-selected :
      (rpc : Rpc) (m : Manager F) (req : ResourceRequest F) (name uuid : String) (n : Node F)
      {s : SelectionResult} {r : Scheduled F}
      → schedule_on rpc m req name uuid n ≡ returns r
      → r.selection ≡ selected s
      → (g : GpuDevInfo F) × (can_fit req g ≡ returns true)
        × (insert name (put_gpu n uuid g) m.nodes ≡ r.manager.nodes)
        × (s.vgpu_uuid ≡ uuid)
        × (s.node_name ≡ n.host_name)
  unfolding schedule_on
  schedule_on-selected rpc m req name uuid n e chosen =
      let (addr, _, e1) = >>=-returns (deref n.grpc_client) _ e in
      elim (Option-cases (rpc.on_get_gpu addr uuid)) [
        | inl failed ↦ absurd (failed_selection (rw failed at e1) chosen)
        | inr (res, answered) ↦
            let (g, _, e2) =
              >>=-returns (selected_gpu (lookup uuid n.vgpu_id2_gpu) res) _ (rw answered at e1) in
            let (fits, judged, e3) = >>=-returns (can_fit req g) _ e2 in
            let (fit, written, gpu_eq, host_eq) =
              judged_selection fits req n name uuid m g e3 chosen in
            (g, judged ∙ ap returns fit, written, gpu_eq, host_eq)
      ]

  -- When a request is selected, its GPU is registered on the node that the request names, and
  -- `canFit` admits the request to it; the selection carries the node's host name.
  pub schedule_request-Admitted :
      (rpc : Rpc) (m : Manager F) (req : ResourceRequest F) {s : SelectionResult} {r : Scheduled F}
      → schedule_request rpc m req ≡ returns r
      → r.selection ≡ selected s
      → Admitted m req s r.manager
  unfolding schedule_request
  schedule_request-Admitted rpc m req e chosen = elim (Option-cases req.requested_node) [
    | inl none_asked ↦ absurd (failed_selection (rw (none_asked, schedule_request) at e) chosen)
    | inr (name, asked) ↦ elim (Option-cases req.request_gpu_uuid) [
      | inl no_gpu ↦ absurd (failed_selection (rw (asked, no_gpu, schedule_request) at e) chosen)
      | inr (uuid, gpu_asked) ↦ elim (Option-cases (lookup name m.nodes)) [
        | inl unknown ↦
            absurd (failed_selection (rw (asked, gpu_asked, unknown, schedule_request) at e) chosen)
        | inr (n, at) ↦
            let (g, fits, written, gpu_eq, host_eq) =
              schedule_on-selected rpc m req name uuid n
                (rw (asked, gpu_asked, at, schedule_request) at e) chosen in
            record {
              name = name;
              node = n;
              gpu = g;
              name_asked = asked;
              gpu_asked = gpu_asked ∙ ap some (sym gpu_eq);
              node_known = at;
              node_written =
                  rw (← written, gpu_eq) (lookup-insert_self name (put_gpu n uuid g) m.nodes);
              same_host = host_eq;
              fits = fits;
            }
      ]
    ]
  ]
