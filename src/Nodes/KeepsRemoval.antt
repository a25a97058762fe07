-- ===== src/Nodes/KeepsRemoval.antt =====
-- What the removals of gpu_manager.go leave of a node: its host name and its client.
use fa_st_gshare.Common.Dict.{lookup}
use fa_st_gshare.Common.Float.{Floats}
use fa_st_gshare.Common.Outcome.{returns, >>=-returns}
use fa_st_gshare.Common.{
  ◌≡◌, refl, List, [], ◌∷◌, String, arith, Bool-cases, Option-cases, inl, inr, ◌∙◌, some,
}
use fa_st_gshare.Kube.{Pod, get_text, pod_key, vgpu_uuid_name}
use fa_st_gshare.Types.{AllocationType}
use fa_st_gshare.Proto.{Rpc, Call}
use fa_st_gshare.Manager.State.{GpuDevInfo, Node, Manager}
use fa_st_gshare.Manager.Remove.{
  Removed, TakenOff, take_off, is_last, release_for, disable_mps_for, retire_gpu, remove_from_gpu,
  remove_pod_from_list,
}
use fa_st_gshare.Manager.RemoveAll.{
  was_last, drop_off, try_disable_mps, settle, remove_listed_pod, remove_one_pod,
  remove_fast_pod_from_list,
}
use fa_st_gshare.Nodes.Keeps.{
  SameNode, Keeps, returned, same_nodes-Keeps, trans-Keeps, insert-Keeps,
}

module _ {F : Type 0} ⦃fl : Floats F⦄ where
  release_for-SameNode :
      (rpc : Rpc) (n : Node F) (g : GpuDevInfo F) {r : Node F × List (Call F)}
      → release_for rpc n g ≡ returns r
      → (n.host_name ≡ r.0.host_name) × (n.grpc_client ≡ r.0.grpc_client)
  unfolding release_for
  release_for-SameNode rpc n g e = ground arith

  retire_gpu-Keeps :
      (type : AllocationType) (rpc : Rpc) (m : Manager F) (name id key : String) (n n1 : Node F)
      (g : GpuDevInfo F) (calls : List (Call F)) {r : Removed F}
      → lookup name m.nodes ≡ some n
      → SameNode n n1
      → retire_gpu type rpc m name id key n1 g calls ≡ returns r
      → Keeps m r.manager
  unfolding retire_gpu
  retire_gpu-Keeps type rpc m name id key n n1 g calls {r = r} at same e =
      let (disabled, _, e1) = >>=-returns (disable_mps_for type rpc n1 g) _ e in
      let (released, by, e2) = >>=-returns (release_for rpc n1 g) _ e1 in
      let (host, client) = release_for-SameNode rpc n1 g by in
      insert-Keeps m r.manager name n _ at
        (record { host = same.host ∙ host; client = same.client ∙ client }) (returned e2)

  remove_from_gpu-Keeps :
      (type : AllocationType) (rpc : Rpc) (m : Manager F) (name id key : String) (n : Node F)
      (g : GpuDevInfo F) {r : Removed F}
      → lookup name m.nodes ≡ some n
      → remove_from_gpu type rpc m name id key n g ≡ returns r
      → Keeps m r.manager
  unfolding remove_from_gpu
  remove_from_gpu-Keeps type rpc m name id key n g {r = r} at e =
      let (t, _, e1) = >>=-returns (take_off type rpc m name key n.daemon_port_alloc g) _ e in
      let (last, _, e2) = >>=-returns (is_last type t.podlist) _ e1 in
      let same : SameNode n (record n { daemon_port_alloc = t.ports }) = record {
        host = refl;
        client = refl;
      } in
      elim (Bool-cases last) [
        | inl over ↦
            retire_gpu-Keeps type rpc m name id key n _ t.gpu t.calls at same (rw over at e2)
        | inr more ↦
            insert-Keeps m r.manager name n _ at (record { host = refl; client = refl })
              (returned (rw more at e2))
      ]

  pub remove-Keeps :
      (rpc : Rpc) (to_upper : String → String) (m : Manager F) (p : Pod) {r : Removed F}
      → remove_pod_from_list rpc to_upper m p ≡ returns r
      → Keeps m r.manager
  unfolding remove_pod_from_list
  remove-Keeps rpc to_upper m p {r = r} e = elim (Option-cases (lookup p.node_name m.nodes)) [
    | inl unknown ↦
        same_nodes-Keeps m r.manager (returned (rw (unknown, remove_pod_from_list) at e))
    | inr (n, at) ↦
        elim (Option-cases (lookup (get_text vgpu_uuid_name p.annotations) n.vgpu_id2_gpu)) [
          | inl unknown ↦
              same_nodes-Keeps m r.manager (returned (rw (at, unknown, remove_pod_from_list) at e))
          | inr (g, found) ↦
              remove_from_gpu-Keeps _ rpc m p.node_name _ (pod_key p) n g at
                (rw (at, found, remove_pod_from_list) at e)
        ]
  ]

  settle-Keeps :
      (type : AllocationType) (rpc : Rpc) (m : Manager F) (name id : String) (n : Node F)
      (t : TakenOff F) {r : Removed F}
      → lookup name m.nodes ≡ some n
      → settle type rpc m name id n t ≡ returns r
      → Keeps m r.manager
  unfolding settle
  settle-Keeps type rpc m name id n t {r = r} at e = elim (Bool-cases (was_last type t.podlist)) [
    | inl last ↦
        let (disabled, _, done) =
          >>=-returns (try_disable_mps type rpc (record n { daemon_port_alloc = t.ports }) t.gpu) _
            (rw (last, settle) at e) in
        insert-Keeps m r.manager name n _ at (record { host = refl; client = refl }) (returned done)
    | inr more ↦
        insert-Keeps m r.manager name n _ at (record { host = refl; client = refl })
          (returned (rw (more, settle) at e))
  ]

  remove_listed_pod-Keeps :
      (type : AllocationType) (rpc : Rpc) (namespace : String) (m : Manager F) (p : Pod)
      (id : String) (n : Node F) (g : GpuDevInfo F) {r : Removed F}
      → lookup p.node_name m.nodes ≡ some n
      → remove_listed_pod type rpc namespace m p id n g ≡ returns r
      → Keeps m r.manager
  unfolding remove_listed_pod
  remove_listed_pod-Keeps type rpc namespace m p id n g {r = r} at e =
      let (t, _, e1) =
        >>=-returns (drop_off type rpc m p.node_name (pod_key p) n.daemon_port_alloc g) _ e in
      let (s, settled, e2) = >>=-returns (settle type rpc m p.node_name id n t) _ e1 in
      trans-Keeps m s.manager r.manager (settle-Keeps type rpc m p.node_name id n t at settled)
        (same_nodes-Keeps s.manager r.manager (returned e2))

  remove_one_pod-Keeps :
      (rpc : Rpc) (to_upper : String → String) (namespace : String) (m : Manager F) (p : Pod)
      {r : Removed F}
      → remove_one_pod rpc to_upper namespace m p ≡ returns r
      → Keeps m r.manager
  unfolding remove_one_pod
  remove_one_pod-Keeps rpc to_upper namespace m p {r = r} e =
      elim (Option-cases (lookup p.node_name m.nodes)) [
        | inl unknown ↦ same_nodes-Keeps m r.manager (returned (rw (unknown, remove_one_pod) at e))
        | inr (n, at) ↦
            elim (Option-cases (lookup (get_text vgpu_uuid_name p.annotations) n.vgpu_id2_gpu)) [
              | inl unknown ↦
                  same_nodes-Keeps m r.manager (returned (rw (at, unknown, remove_one_pod) at e))
              | inr (g, found) ↦
                  remove_listed_pod-Keeps _ rpc namespace m p _ n g at
                    (rw (at, found, remove_one_pod) at e)
            ]
      ]

  pub remove_all-Keeps :
      (rpc : Rpc) (to_upper : String → String) (namespace : String) (m : Manager F)
      (pods : List Pod) {r : Removed F}
      → remove_fast_pod_from_list rpc to_upper namespace m pods ≡ returns r
      → Keeps m r.manager
  unfolding remove_fast_pod_from_list
  remove_all-Keeps rpc to_upper namespace m [] {r = r} e = same_nodes-Keeps m r.manager (returned e)
  remove_all-Keeps rpc to_upper namespace m (p ∷ rest) {r = r} e =
      let (first, by, e1) = >>=-returns (remove_one_pod rpc to_upper namespace m p) _ e in
      let (later, then_by, e2) =
        >>=-returns (remove_fast_pod_from_list rpc to_upper namespace first.manager rest) _ e1 in
      trans-Keeps m first.manager r.manager (remove_one_pod-Keeps rpc to_upper namespace m p by) (
        trans-Keeps first.manager later.manager r.manager
          (remove_all-Keeps rpc to_upper namespace first.manager rest then_by)
          (same_nodes-Keeps later.manager r.manager (returned e2)))
