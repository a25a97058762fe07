-- ===== src/Nodes/Keeps.antt =====
-- What the operations of gpu_manager.go and scheduler.go leave of a node: its host name and its
-- client.
use fa_st_gshare.Common.Dict.{Dict, lookup, insert, lookup-insert}
use fa_st_gshare.Common.Float.{Floats}
use fa_st_gshare.Common.Outcome.{Outcome, returns, deref, >>=-returns}
use fa_st_gshare.Common.{
  ◌≡◌, ap, refl, eq_iff, str_eq, ◌⊎◌, some, String, arith, Bool-cases, Option-cases, inl, inr,
  subst, sym, ◌∙◌,
}
use fa_st_gshare.Proto.{Rpc, GetGpuResponse}
use fa_st_gshare.Manager.State.{
  GpuDevInfo, Node, Manager, ResourceRequest, SelectionResult, put_gpu,
}
use fa_st_gshare.Manager.Fit.{can_fit}
use fa_st_gshare.Manager.Request.{Requested, request_gpu_and_update_config}
use fa_st_gshare.Manager.Outcomes.{request-Outcomes}
use fa_st_gshare.Manager.Schedule.{Scheduled, selected_gpu, schedule_on, schedule_request}
use fa_st_gshare.Manager.Remove.{Removed}

module _ {F : Type 0} where
  pub record SameNode (n n' : Node F) : Type 0 where
    pub host : n.host_name ≡ n'.host_name
    pub client : n.grpc_client ≡ n'.grpc_client

  -- What a call writes: the nodes `d`, and of the liveness nothing.
  abbrev pub Writes : Manager F → Dict (Node F) → Manager F → Type 0
  Writes m d m' = (d ≡ m'.nodes) × (m.nodes_liveness ≡ m'.nodes_liveness)

  -- Every node of the new state was there before, and the liveness is that of before.
  pub record Keeps (m m' : Manager F) : Type 0 where
    pub known :
        (name : String) (n' : Node F)
        → lookup name m'.nodes ≡ some n'
        → (n : Node F) × (lookup name m.nodes ≡ some n) × SameNode n n'
    pub liveness : m.nodes_liveness ≡ m'.nodes_liveness

  pub same_nodes-Keeps : (m m' : Manager F) → Writes m m.nodes m' → Keeps m m'
  same_nodes-Keeps m m' (same, live) = record {
    known = λ name n e. (n, rw (← same) at e, record { host = refl; client = refl });
    liveness = live;
  }

  pub trans-Keeps : (m1 m2 m3 : Manager F) → Keeps m1 m2 → Keeps m2 m3 → Keeps m1 m3
  trans-Keeps m1 m2 m3 first later = record {
    known = λ name n3 e.
        let (n2, at2, s2) = later.known name n3 e in
        let (n1, at1, s1) = first.known name n2 at2 in
        (n1, at1, record { host = s1.host ∙ s2.host; client = s1.client ∙ s2.client });
    liveness = first.liveness ∙ later.liveness;
  }

  inserted_known :
      (m m' : Manager F) (k : String) (n v : Node F)
      → lookup k m.nodes ≡ some n
      → SameNode n v
      → insert k v m.nodes ≡ m'.nodes
      → (name : String) (n' : Node F) → lookup name m'.nodes ≡ some n'
      → (n : Node F) × (lookup name m.nodes ≡ some n) × SameNode n n'
  inserted_known m m' k n v at same written name n' e = elim (Bool-cases (str_eq k name)) [
    | inl here ↦
        let known : v ≡ n' = ground (arith, lookup-insert k name v m.nodes, written) in
        (n, ground (arith, eq_iff k name), subst (λ (x : Node F). SameNode n x) known same)
    | inr other ↦ (
      n',
      ground (arith, lookup-insert k name v m.nodes, written),
      record { host = refl; client = refl },
    )
  ]

  pub insert-Keeps :
      (m m' : Manager F) (k : String) (n v : Node F)
      → lookup k m.nodes ≡ some n
      → SameNode n v
      → Writes m (insert k v m.nodes) m'
      → Keeps m m'
  insert-Keeps m m' k n v at same (written, live) = record {
    known = inserted_known m m' k n v at same written;
    liveness = live;
  }

  pub returned :
      {a r : Removed F}
      → ◌≡◌ {A = Outcome (Removed F)} (returns a) (returns r)
      → Writes a.manager a.manager.nodes r.manager
  returned e = (cc, cc)

module _ {F : Type 0} ⦃fl : Floats F⦄ where
  booked : {a m : Manager F} → a ≡ m → Writes a a.nodes m
  booked e = (ap (λ (x : Manager F). x.nodes) e, ap (λ (x : Manager F). x.nodes_liveness) e)

  pub request-Keeps :
      (rpc : Rpc) (m : Manager F) (sel : SelectionResult) (req : ResourceRequest F) (key : String)
      {r : Requested F}
      → request_gpu_and_update_config rpc m sel req key ≡ returns r
      → Keeps m r.manager
  request-Keeps rpc m sel req key {r = r} e = elim (request-Outcomes rpc m sel req key e) [
    | inl (same, _, _) ↦ same_nodes-Keeps m r.manager (booked (sym same))
    | inr (n, g, at, found, inl ok) ↦
        insert-Keeps m r.manager sel.node_name n _ at (record { host = refl; client = refl })
          (booked (sym ok.manager_eq))
    | inr (n, g, at, found, inr bad) ↦
        insert-Keeps m r.manager sel.node_name n _ at (record { host = refl; client = refl })
          (booked (sym bad.manager_eq))
  ]

  scheduled_nodes :
      {a r : Scheduled F}
      → ◌≡◌ {A = Outcome (Scheduled F)} (returns a) (returns r)
      → Writes a.manager a.manager.nodes r.manager
  scheduled_nodes e = (cc, cc)

  -- What scheduling does to the nodes: nothing, or the GPU of the answer is entered.
  schedule_on-nodes :
      (rpc : Rpc) (m : Manager F) (req : ResourceRequest F) (name uuid : String) (n : Node F)
      {r : Scheduled F}
      → schedule_on rpc m req name uuid n ≡ returns r
      → Writes m m.nodes r.manager
        ⊎ ((res : GetGpuResponse) × (g : GpuDevInfo F) × (selected_gpu
                (lookup uuid n.vgpu_id2_gpu)
                res
              ≡ returns g)
            × Writes m (insert name (put_gpu n uuid g) m.nodes) r.manager)
  unfolding schedule_on
  schedule_on-nodes rpc m req name uuid n e =
      let (addr, _, e1) = >>=-returns (deref n.grpc_client) _ e in
      elim (Option-cases (rpc.on_get_gpu addr uuid)) [
        | inl failed ↦ inl (scheduled_nodes (rw failed at e1))
        | inr (res, answered) ↦
            let (g, by, e2) =
              >>=-returns (selected_gpu (lookup uuid n.vgpu_id2_gpu) res) _ (rw answered at e1) in
            let (fits, judged, e3) = >>=-returns (can_fit req g) _ e2 in
            inr (res, g, by, scheduled_nodes e3)
      ]

  pub schedule-nodes :
      (rpc : Rpc) (m : Manager F) (req : ResourceRequest F) {r : Scheduled F}
      → schedule_request rpc m req ≡ returns r
      → Writes m m.nodes r.manager
        ⊎ ((name uuid : String) × (n : Node F) × (res : GetGpuResponse) × (g : GpuDevInfo F)
            × (lookup name m.nodes ≡ some n)
            × (selected_gpu (lookup uuid n.vgpu_id2_gpu) res ≡ returns g)
            × Writes m (insert name (put_gpu n uuid g) m.nodes) r.manager)
  unfolding schedule_request
  schedule-nodes rpc m req e = elim (Option-cases req.requested_node) [
    | inl none_asked ↦ inl (scheduled_nodes (rw (none_asked, schedule_request) at e))
    | inr (name, asked) ↦ elim (Option-cases req.request_gpu_uuid) [
      | inl no_gpu ↦ inl (scheduled_nodes (rw (asked, no_gpu, schedule_request) at e))
      | inr (uuid, gpu_asked) ↦ elim (Option-cases (lookup name m.nodes)) [
        | inl unknown ↦
            inl (scheduled_nodes (rw (asked, gpu_asked, unknown, schedule_request) at e))
        | inr (n, at) ↦
            elim (schedule_on-nodes rpc m req name uuid n
              (rw (asked, gpu_asked, at, schedule_request) at e)) [
                | inl same ↦ inl same
                | inr (res, g, by, written) ↦ inr (name, uuid, n, res, g, at, by, written)
              ]
      ]
    ]
  ]

  pub schedule-Keeps :
      (rpc : Rpc) (m : Manager F) (req : ResourceRequest F) {r : Scheduled F}
      → schedule_request rpc m req ≡ returns r
      → Keeps m r.manager
  schedule-Keeps rpc m req {r = r} e = elim (schedule-nodes rpc m req e) [
    | inl same ↦ same_nodes-Keeps m r.manager same
    | inr (name, uuid, n, res, g, at, by, written) ↦
        insert-Keeps m r.manager name n _ at (record { host = refl; client = refl }) written
  ]
