-- ===== src/Controller/Made.antt =====
-- What a pod that the function of `reconcileReplicas` creates has to do with what was booked.
use fa_st_gshare.Common.Dict.{lookup}
use fa_st_gshare.Common.Float.{Floats}
use fa_st_gshare.Common.Outcome.{returns, >>=-returns}
use fa_st_gshare.Common.{
  suc, ◌≡◌, true, Bool-cases, none, some, Option-cases, List, refl, sym, ◌∙◌, ap, inl, inr,
}
use fa_st_gshare.Kube.{FastPod, join_key}
use fa_st_gshare.Types.{is_none_type}
use fa_st_gshare.Manager.State.{Node, GpuDevInfo, ResourceRequest, SelectionResult, Allocation}
use fa_st_gshare.Manager.Validate.{get_pod_request_from_pod, validate_pod_request}
use fa_st_gshare.Manager.Schedule.{Scheduled, Selection, selected, rejected, schedule_request}
use fa_st_gshare.Manager.Request.{Requested, request_gpu_and_update_config}
use fa_st_gshare.Manager.Outcomes.{Granted}
use fa_st_gshare.Manager.EndToEnd.{none-some}
use fa_st_gshare.Nodes.Cluster.{World, Handler, Reach}
use fa_st_gshare.Nodes.Reachable.{Reach-request}
use fa_st_gshare.Replicas.Batch.{Called}
use fa_st_gshare.Controller.NewPod.{PodSpec}
use fa_st_gshare.Controller.Create.{
  Creating, Surroundings, nothing, new_pod_name, on_code, on_selection, create_requested,
  create_pod,
}
use fa_st_gshare.Controller.CreateLaws.{cluster, on_code-manager}
use fa_st_gshare.Controller.PodOn.{PodOn, same_result, true-false, on_code-pod}

module _ {F : Type 0} ⦃fl : Floats F⦄ where
  -- A pod was created: how its request was read, offered, and granted.
  pub record Made (env : Surroundings F) (fp : FastPod) (s : Creating F) (r : Called × Creating F)
      : Type 0 where
    pub req : ResourceRequest F
    pub read : get_pod_request_from_pod env.conv fp ≡ some req
    pub valid : validate_pod_request req ≡ none
    pub offer : Scheduled F
    pub offered : schedule_request (env.rpc s.turn) s.manager req ≡ returns offer
    pub sel : SelectionResult
    pub chosen : offer.selection ≡ selected sel
    pub answer : Requested F
    pub asked :
        request_gpu_and_update_config
          (env.rpc s.turn)
          offer.manager
          sel
          req
          (join_key fp.namespace (new_pod_name env fp s.turn))
        ≡ returns answer
    pub allocation : Allocation
    pub given : answer.allocation ≡ some allocation
    pub manager_eq : r.1.manager ≡ answer.manager
    pub pod_on : PodOn s.pods (new_pod_name env fp s.turn) sel allocation r.1

  on_selection-Made :
      (env : Surroundings F) (fp : FastPod) (spec : PodSpec) (req : ResourceRequest F)
      (s : Creating F) (offer : Scheduled F) {r : Called × Creating F}
      → get_pod_request_from_pod env.conv fp ≡ some req
      → validate_pod_request req ≡ none
      → schedule_request (env.rpc s.turn) s.manager req ≡ returns offer
      → (chosen : Selection) → offer.selection ≡ chosen
      → on_selection env fp spec req s.turn chosen
          (record s { manager = offer.manager; turn = suc s.turn })
        ≡ returns r
      → r.0.has_pod ≡ true
      → Made env fp s r
  unfolding on_selection
  on_selection-Made env fp spec req s offer read valid offered (rejected x) chose e has =
      absurd (true-false (ap (λ k. k.0.has_pod) (same_result e) ∙ has))
  on_selection-Made env fp spec req s offer {r = r} read valid offered (selected sel) chose e has =
      let name = new_pod_name env fp s.turn in
      let t = record s { manager = offer.manager; turn = suc s.turn } in
      let (q, asked, rest) =
        >>=-returns
          (request_gpu_and_update_config (env.rpc s.turn) offer.manager sel req
            (join_key fp.namespace name))
          (λ q. on_code env fp spec sel name s.turn q t) e in
      let (_, (a, given, on)) = on_code-pod env fp spec sel name s.turn q t rest has in
      record {
        req = req;
        read = read;
        valid = valid;
        offer = offer;
        offered = offered;
        sel = sel;
        chosen = chose;
        answer = q;
        asked = asked;
        allocation = a;
        given = given;
        manager_eq = on_code-manager env fp spec sel name s.turn q t rest;
        pod_on = on;
      }

  create_requested-Made :
      (env : Surroundings F) (fp : FastPod) (spec : PodSpec) (req : ResourceRequest F)
      (s : Creating F) {r : Called × Creating F}
      → get_pod_request_from_pod env.conv fp ≡ some req
      → create_requested env fp spec req s.turn (record s { turn = suc s.turn }) ≡ returns r
      → r.0.has_pod ≡ true
      → Made env fp s r
  unfolding create_requested
  create_requested-Made env fp spec req s {r = r} read e has =
      let silent : (t : Creating F) → (nothing, t) ≡ r → ⊥ =
        λ t same. true-false (ap (λ k. k.0.has_pod) same ∙ has) in
      elim (Option-cases (validate_pod_request req)) [
        | inr (invalid, bad) ↦ absurd (silent _ (same_result (rw (bad, create_requested) at e)))
        | inl valid ↦ elim (Bool-cases (is_none_type req.allocation_type)) [
          | inl none_given ↦
              absurd (silent _ (same_result (rw (valid, none_given, create_requested) at e)))
          | inr given ↦
              let (x, offered, rest) =
                >>=-returns (schedule_request (env.rpc s.turn) s.manager req) _
                  (rw (valid, given, create_requested) at e) in
              on_selection-Made env fp spec req s x read valid offered x.selection refl rest has
        ]
      ]

  create_pod-read :
      (env : Surroundings F) (fp : FastPod) (spec : PodSpec) (s : Creating F)
      {r : Called × Creating F}
      → create_pod env fp spec s ≡ returns r
      → r.0.has_pod ≡ true
      → Made env fp s r
  unfolding create_pod
  create_pod-read env fp spec s {r = r} e has =
      elim (Option-cases (get_pod_request_from_pod env.conv fp)) [
        | inl missing ↦
            absurd (
              true-false
                (ap (λ k. k.0.has_pod) (same_result (rw (missing, create_pod) at e)) ∙ has))
        | inr (req, read) ↦
            create_requested-Made env fp spec req s read (rw (read, create_pod) at e) has
      ]

  -- The booking that a pod was created for.
  abbrev pub BookedFor :
      (env : Surroundings F) (fp : FastPod) (s : Creating F) (r : Called × Creating F)
      → Made env fp s r
      → Type 0
  BookedFor env fp s r m =
      (n : Node F) × (g : GpuDevInfo F) × (lookup m.sel.node_name m.offer.manager.nodes ≡ some n)
      × (lookup m.sel.vgpu_uuid n.vgpu_id2_gpu ≡ some g)
      × Granted m.offer.manager m.sel m.req (join_key fp.namespace (new_pod_name env fp s.turn)) n g
          m.answer

  pub create_pod-Made :
      {w : World} {hs : List Handler} (env : Surroundings F) (fp : FastPod) (spec : PodSpec)
      (s : Creating F) {r : Called × Creating F}
      → Reach w (cluster hs s)
      → create_pod env fp spec s ≡ returns r
      → r.0.has_pod ≡ true
      → (m : Made env fp s r) × BookedFor env fp s r m
  create_pod-Made env fp spec s {r = r} reached e has =
      let m = create_pod-read env fp spec s e has in
      let (n, g, at, found, _, outcome) =
        Reach-request (env.rpc s.turn) m.req (join_key fp.namespace (new_pod_name env fp s.turn))
          reached m.offered m.chosen m.asked in
      elim outcome [
        | inl ok ↦ (m, (n, g, at, found, ok))
        | inr bad ↦ absurd (none-some (sym bad.allocation_none ∙ m.given))
      ]
