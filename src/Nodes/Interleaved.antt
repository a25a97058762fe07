-- ===== src/Nodes/Interleaved.antt =====
-- What may happen between `ScheduleRequest` and `RequestGPUAndUpdateConfig`, which take
-- `nodesInfoMtx` one after the other.
use fa_st_gshare.Common.Dict.{Dict, lookup, insert, lookup-insert, lookup-insert_self}
use fa_st_gshare.Common.Float.{Floats}
use fa_st_gshare.Common.Outcome.{returns}
use fa_st_gshare.Common.{
  ◌≡◌, ◌⊎◌, refl, eq_iff, str_eq, Bool-cases, Option-cases, some, List, String, arith, inl, inr,
  subst, sym, ◌∙◌,
}
use fa_st_gshare.Proto.{Rpc, VirtualGpuMessage}
use fa_st_gshare.Manager.State.{GpuDevInfo, Node, Manager, ResourceRequest, SelectionResult}
use fa_st_gshare.Manager.Schedule.{Scheduled, selected, schedule_request}
use fa_st_gshare.Manager.Request.{Requested, request_gpu_and_update_config}
use fa_st_gshare.Manager.Outcomes.{Granted, Refused, request-Outcomes}
use fa_st_gshare.Manager.Admission.{schedule_request-Admitted}
use fa_st_gshare.Manager.EndToEnd.{HostNamed, node-Admitted, gpu-Admitted, none-some, same_value}
use fa_st_gshare.Nodes.Join.{register_node, refresh_node, init_liveness}
use fa_st_gshare.Nodes.Liveness.{check_node_liveness}
use fa_st_gshare.Nodes.Keeps.{schedule-nodes}
use fa_st_gshare.Nodes.Invariant.{greet-registers, handle_heartbeat-writes}
use fa_st_gshare.Nodes.Reachable.{Reach-IsNamed}
use fa_st_gshare.Controller.ReconfigureLaws.{reconcile-Rounds}
use fa_st_gshare.Nodes.Cluster.{
  Cluster, World, Step, join, enliven, beat, hang_up, tick, schedule, request, remove, remove_all,
  reconfigure, Reach,
}

module _ {F : Type 0} where
  -- The manager has a node of this name, with a GPU of this key.
  abbrev pub Known : String → String → Manager F → Type 0
  Known name id m =
      (n : Node F) × (g : GpuDevInfo F) × (lookup name m.nodes ≡ some n)
      × (lookup id n.vgpu_id2_gpu ≡ some g)

  -- Of the nodes only.
  abbrev KnownIn : String → String → Dict (Node F) → Type 0
  KnownIn name id nodes =
      (n : Node F) × (g : GpuDevInfo F) × (lookup name nodes ≡ some n)
      × (lookup id n.vgpu_id2_gpu ≡ some g)

  -- A node that is written keeps what is known, if it has every GPU of the one before.
  insert-KnownIn :
      (name id k : String) (v : Node F) (nodes : Dict (Node F))
      → ((n : Node F) (g : GpuDevInfo F)
          → lookup k nodes ≡ some n
          → lookup id n.vgpu_id2_gpu ≡ some g
          → (g' : GpuDevInfo F) × (lookup id v.vgpu_id2_gpu ≡ some g'))
      → KnownIn name id nodes
      → KnownIn name id (insert k v nodes)
  insert-KnownIn name id k v nodes keeps (n, g, at, found) = elim (Bool-cases (str_eq k name)) [
    | inl here ↦
        let same : k ≡ name = ground (arith, eq_iff k name) in
        let (g', still) = keeps n g (subst (λ j. lookup j nodes ≡ some n) (sym same) at) found in
        (
          v,
          g',
          subst (λ j. lookup j (insert k v nodes) ≡ some v) same (lookup-insert_self k v nodes),
          still,
        )
    | inr other ↦ (n, g, ground (arith, lookup-insert k name v nodes), found)
  ]

  -- A GPU that is written keeps the keys.
  insert-gpu :
      (id k : String) (new : GpuDevInfo F) (d : Dict (GpuDevInfo F)) {g : GpuDevInfo F}
      → lookup id d ≡ some g
      → (g' : GpuDevInfo F) × (lookup id (insert k new d) ≡ some g')
  insert-gpu id k new d {g = g} e = elim (Bool-cases (str_eq k id)) [
    | inl here ↦ (new, ground (arith, lookup-insert k id new d))
    | inr other ↦ (g, ground (arith, lookup-insert k id new d))
  ]

  -- A GPU written back on its node.
  put-KnownIn :
      (name id k key : String) (n : Node F) (new : GpuDevInfo F) (v : Node F) (m : Manager F)
      → lookup k m.nodes ≡ some n
      → insert key new n.vgpu_id2_gpu ≡ v.vgpu_id2_gpu
      → KnownIn name id m.nodes
      → KnownIn name id (insert k v m.nodes)
  put-KnownIn name id k key n new v m at same known =
      insert-KnownIn name id k v m.nodes
        (λ n1 g1 at1 found1.
          let one : n1 ≡ n = same_value (sym at1 ∙ at) in
          let (g', still) =
            insert-gpu id key new n.vgpu_id2_gpu
              (subst (λ (x : Node F). lookup id x.vgpu_id2_gpu ≡ some g1) one found1) in
          (g', subst (λ d. lookup id d ≡ some g') same still))
        known

  register_node-Known :
      (name id k ip client : String) (gpus : List VirtualGpuMessage) (m : Manager F)
      → Known name id m
      → Known name id (register_node m k ip client gpus)
  unfolding register_node refresh_node
  register_node-Known name id k ip client gpus m known = elim (Option-cases (lookup k m.nodes)) [
    | inl unknown ↦ rw unknown (
        insert-KnownIn name id k _ m.nodes (λ n g at found. absurd (none-some (sym unknown ∙ at)))
          known)
    | inr (n, at) ↦ rw at (
        insert-KnownIn name id k _ m.nodes
          (λ n1 g at1 found. (
            g,
            subst (λ (x : Node F). lookup id x.vgpu_id2_gpu ≡ some g) (same_value (sym at1 ∙ at))
                found,
          ))
          known)
  ]

module _ {F : Type 0} ⦃fl : Floats F⦄ where
  request-Known :
      (rpc : Rpc) (m : Manager F) (sel : SelectionResult) (req : ResourceRequest F)
      (key name id : String) {r : Requested F}
      → request_gpu_and_update_config rpc m sel req key ≡ returns r
      → Known name id m
      → Known name id r.manager
  request-Known rpc m sel req key name id e known = elim (request-Outcomes rpc m sel req key e) [
    | inl (same, _, _) ↦ subst (Known name id) (sym same) known
    | inr (n, g, at, found, inl ok) ↦
        subst (Known name id) (sym ok.manager_eq)
          (put-KnownIn name id sel.node_name sel.vgpu_uuid n ok.gpu _ m at refl known)
    | inr (n, g, at, found, inr bad) ↦
        subst (Known name id) (sym bad.manager_eq)
          (put-KnownIn name id sel.node_name sel.vgpu_uuid n _ _ m at refl known)
  ]

  schedule-Known :
      (rpc : Rpc) (m : Manager F) (req : ResourceRequest F) (name id : String) {r : Scheduled F}
      → schedule_request rpc m req ≡ returns r
      → Known name id m
      → Known name id r.manager
  schedule-Known rpc m req name id e known = elim (schedule-nodes rpc m req e) [
    | inl (same, _) ↦ subst (KnownIn name id) same known
    | inr (k, uuid, n, res, g, at, by, (written, _)) ↦
        subst (KnownIn name id) written (put-KnownIn name id k uuid n g _ m at refl known)
  ]

  -- The steps that take no pod away.
  abbrev pub IsQuiet : {w : World} {s t : Cluster F} → Step w s t → Type 0
  IsQuiet (remove rpc p e) = ⊥
  IsQuiet (remove_all rpc namespace pods e) = ⊥
  IsQuiet _ = Unit

  pub data QuietRun (w : World) (s : Cluster F) : Cluster F → Type 0 where
    here : QuietRun w s s
    next : {t u : Cluster F} → QuietRun w s t → (step : Step w t u) → IsQuiet step → QuietRun w s u

  Step-Known :
      {w : World} {s t : Cluster F} (name id : String) (step : Step w s t)
      → IsQuiet step
      → Known name id s.manager
      → Known name id t.manager
  unfolding check_node_liveness init_liveness
  Step-Known {w = w} {s = s} name id (join conn a e) quiet known =
      let (at, client, gpus, same) = greet-registers w.show w.daemon_pod s.manager a e in
      subst (Known name id) same (register_node-Known name id _ at client gpus s.manager known)
  Step-Known name id (enliven front back k conn e) quiet known = known
  Step-Known {s = s} name id (beat front back k conn now read e h) quiet known =
      let (l, _, same, _) = handle_heartbeat-writes now k read s.manager h in
      subst (Known name id) same known
  Step-Known {s = s} name id (hang_up front back k conn now read e h) quiet known =
      let (l, _, same, _) = handle_heartbeat-writes now k read s.manager h in
      subst (Known name id) same known
  Step-Known name id (tick now) quiet known = known
  Step-Known {s = s} name id (schedule rpc req e) quiet known =
      schedule-Known rpc s.manager req name id e known
  Step-Known {s = s} name id (request rpc sel req key e) quiet known =
      request-Known rpc s.manager sel req key name id e known
  Step-Known name id (remove rpc p e) quiet known = absurd quiet
  Step-Known name id (remove_all rpc namespace pods e) quiet known = absurd quiet
  Step-Known {s = s} name id (reconfigure rpc conv update fp pods e) quiet known =
      reconcile-Rounds (λ a b. Known name id a → Known name id b) (λ a k. k)
        (λ a b c f g k. g (f k))
        (λ a b w k.
          subst (Known name id) w.manager_eq
            (put-KnownIn name id w.name w.id w.node _ _ a w.at refl k))
        conv rpc update fp s.manager pods e known

  QuietRun-Known :
      {w : World} {s t : Cluster F} (name id : String)
      → QuietRun w s t
      → Known name id s.manager
      → Known name id t.manager
  QuietRun-Known name id here known = known
  QuietRun-Known name id (next run step quiet) known =
      Step-Known name id step quiet (QuietRun-Known name id run known)

  -- In every state that is reached, a request selects a GPU; then other goroutines take any steps
  -- but removals of pods, and then the GPU is requested. Its node and the GPU are known by then, and
  -- the request is placed on this GPU or refused by the placing.
  pub Reach-request_later :
      {w : World} {s t : Cluster F} (rpc later_rpc : Rpc) (req : ResourceRequest F) (key : String)
      {sel : SelectionResult} {r : Scheduled F} {q : Requested F}
      → Reach w s
      → schedule_request rpc s.manager req ≡ returns r
      → r.selection ≡ selected sel
      → QuietRun w (record { manager = r.manager; handlers = s.handlers }) t
      → request_gpu_and_update_config later_rpc t.manager sel req key ≡ returns q
      → (n : Node F) × (g : GpuDevInfo F) × (lookup sel.node_name t.manager.nodes ≡ some n)
        × (lookup sel.vgpu_uuid n.vgpu_id2_gpu ≡ some g)
        × (Granted t.manager sel req key n g q ⊎ Refused t.manager sel req key n g q)
  Reach-request_later {s = s} {t = t} rpc later_rpc req key {sel = sel} {r = r} reached e chosen run
        asked =
      let named : HostNamed s.manager = λ name n at. (Reach-IsNamed reached name n at).host in
      let a = schedule_request-Admitted rpc s.manager req e chosen in
      let at0 = node-Admitted s.manager req sel r.manager named a in
      let (n, g, at, found) =
        QuietRun-Known sel.node_name sel.vgpu_uuid run
          (_, a.gpu, at0, gpu-Admitted s.manager req sel r.manager named a _ at0) in
      elim (request-Outcomes later_rpc t.manager sel req key asked) [
        | inl (_, _, inl (code, unknown)) ↦ absurd (none-some (sym unknown ∙ at))
        | inl (_, _, inr (code, n1, at1, unknown)) ↦ absurd (
            none-some (
              sym unknown
              ∙ subst (λ (x : Node F). lookup sel.vgpu_uuid x.vgpu_id2_gpu ≡ some g)
                  (same_value (sym at ∙ at1)) found))
        | inr (n1, g1, at1, found1, outcome) ↦ (n1, g1, at1, found1, outcome)
      ]
