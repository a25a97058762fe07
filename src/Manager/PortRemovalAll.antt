-- ===== src/Manager/PortRemovalAll.antt =====
-- `removeFaSTPodFromList` and the client ports of the nodes.
use fa_st_gshare.Common.Dict.{lookup}
use fa_st_gshare.Common.Float.{Floats}
use fa_st_gshare.Common.Outcome.{Outcome, returns, >>=-returns}
use fa_st_gshare.Common.{
  ◌≡◌, ◌⊎◌, some, List, [], ◌∷◌, String, arith, Bool-cases, Option-cases, inl, inr, subst,
}
use fa_st_gshare.Bitmap.{Bitmap}
use fa_st_gshare.Bitmap.Laws.{IsValid, clear_at-IsValid}
use fa_st_gshare.Kube.{Pod, get_text, pod_key, vgpu_uuid_name}
use fa_st_gshare.Types.{AllocationType, mps, fast_pod, exclusive, none_type}
use fa_st_gshare.Proto.{Rpc}
use fa_st_gshare.Manager.State.{FastPodReq, GpuDevInfo, Node, Manager}
use fa_st_gshare.Manager.Queue.{find_pod}
use fa_st_gshare.Manager.Config.{update_pods_gpu_config}
use fa_st_gshare.Manager.Remove.{
  Removed, TakenOff, remove_fast_pod, free_port, take_off_mps_pod, take_off_exclusive,
}
use fa_st_gshare.Manager.RemoveAll.{
  was_last, drop_fast_pod, drop_from_fast_pods, drop_off, try_disable_mps, settle,
  remove_listed_pod, remove_one_pod, remove_fast_pod_from_list,
}
use fa_st_gshare.Manager.Ports.{PortsBooked}
use fa_st_gshare.Manager.PortSafety.{EachNode, holders-remove, bit-free_port}
use fa_st_gshare.Manager.PortRemoval.{
  Frees, same-Frees, put-PortsBooked, erased-PortsBooked, nodes-EachNode, returned_nodes,
}

module _ {F : Type 0} ⦃fl : Floats F⦄ where
  gone-Frees :
      (key : String) (ports : Bitmap) (pods : List (FastPodReq F)) (r : FastPodReq F)
      → IsValid ports
      → find_pod key pods ≡ some r
      → Frees ports pods (free_port r ports) (remove_fast_pod key pods)
  unfolding free_port
  gone-Frees key ports pods r v found = (
    clear_at-IsValid ports _ v,
    λ p. elim (bit-free_port p r ports v) [
      | inl same ↦ inl (same, omega (arith, holders-remove p key pods found))
      | inr (cleared, held) ↦ inr (cleared, omega (arith, holders-remove p key pods found, held))
    ],
  )

  drop_from_fast_pods-cases :
      (key : String) (ports : Bitmap) (g : GpuDevInfo F)
      → let (ports', g') = drop_from_fast_pods key ports g in
        ((ports ≡ ports') × (g.fast_pod_list ≡ g'.fast_pod_list))
        ⊎ ((r : FastPodReq F) × (find_pod key g.fast_pod_list ≡ some r)
            × (free_port r ports ≡ ports')
            × (remove_fast_pod key g.fast_pod_list ≡ g'.fast_pod_list))
  unfolding drop_from_fast_pods drop_fast_pod
  drop_from_fast_pods-cases key ports g = elim (Option-cases (find_pod key g.fast_pod_list)) [
    | inl absent ↦ inl (ground arith, ground arith)
    | inr (r, found) ↦ inr (r, found, ground arith, ground arith)
  ]

  drop_from_fast_pods-Frees :
      (key : String) (ports : Bitmap) (g : GpuDevInfo F)
      → IsValid ports
      → let (ports', g') = drop_from_fast_pods key ports g in
        Frees ports g.fast_pod_list ports' g'.fast_pod_list
  drop_from_fast_pods-Frees key ports g v = elim (drop_from_fast_pods-cases key ports g) [
    | inl (same, same_pods) ↦ same-Frees ports g.fast_pod_list v same same_pods
    | inr (r, found, freed, left) ↦
        rw (← freed, ← left) (gone-Frees key ports g.fast_pod_list r v found)
  ]

  same_result : {a t : TakenOff F} → ◌≡◌ {A = Outcome (TakenOff F)} (returns a) (returns t) → a ≡ t
  same_result e = cc

  drop_off-Frees :
      (type : AllocationType) (rpc : Rpc) (m : Manager F) (name key : String) (ports : Bitmap)
      (g : GpuDevInfo F) {t : TakenOff F}
      → IsValid ports
      → drop_off type rpc m name key ports g ≡ returns t
      → Frees ports g.fast_pod_list t.ports t.gpu.fast_pod_list
  unfolding drop_off take_off_exclusive take_off_mps_pod
  drop_off-Frees fast_pod rpc m name key ports g v e =
      let (sent, _, done) =
        >>=-returns
          (update_pods_gpu_config rpc m name g.uuid
            (some (drop_from_fast_pods key ports g).1.fast_pod_list))
          _ e in
      subst (λ (t : TakenOff F). Frees ports g.fast_pod_list t.ports t.gpu.fast_pod_list)
        (same_result done) (drop_from_fast_pods-Frees key ports g v)
  drop_off-Frees mps rpc m name key ports g v e =
      same-Frees ports g.fast_pod_list v (ground arith) (ground arith)
  drop_off-Frees exclusive rpc m name key ports g v e =
      same-Frees ports g.fast_pod_list v (ground arith) (ground arith)
  drop_off-Frees none_type rpc m name key ports g v e =
      same-Frees ports g.fast_pod_list v (ground arith) (ground arith)

  settle-PortsBooked :
      (type : AllocationType) (rpc : Rpc) (m : Manager F) (name id : String) (n : Node F)
      (g : GpuDevInfo F) (t : TakenOff F) {r : Removed F}
      → EachNode PortsBooked m
      → PortsBooked n
      → lookup id n.vgpu_id2_gpu ≡ some g
      → Frees n.daemon_port_alloc g.fast_pod_list t.ports t.gpu.fast_pod_list
      → settle type rpc m name id n t ≡ returns r
      → EachNode PortsBooked r.manager
  unfolding settle
  settle-PortsBooked type rpc m name id n g t {r = r} all b found frees e =
      elim (Bool-cases (was_last type t.podlist)) [
        | inl last ↦
            let (disabled, _, done) =
              >>=-returns
                (try_disable_mps type rpc (record n { daemon_port_alloc = t.ports }) t.gpu) _
                (rw (last, settle) at e) in
            nodes-EachNode m r.manager name n _ all
              (erased-PortsBooked n (record n { daemon_port_alloc = t.ports }) id g
                t.gpu.fast_pod_list b found frees)
              (returned_nodes done)
        | inr more ↦
            nodes-EachNode m r.manager name n _ all
              (put-PortsBooked n id g t.gpu t.ports b found frees)
              (returned_nodes (rw (more, settle) at e))
      ]

  remove_listed_pod-PortsBooked :
      (type : AllocationType) (rpc : Rpc) (namespace : String) (m : Manager F) (p : Pod)
      (id : String) (n : Node F) (g : GpuDevInfo F) {r : Removed F}
      → EachNode PortsBooked m
      → lookup p.node_name m.nodes ≡ some n
      → lookup id n.vgpu_id2_gpu ≡ some g
      → remove_listed_pod type rpc namespace m p id n g ≡ returns r
      → EachNode PortsBooked r.manager
  unfolding remove_listed_pod
  remove_listed_pod-PortsBooked type rpc namespace m p id n g all at found e =
      let b = all p.node_name n at in
      let (t, by, e1) =
        >>=-returns (drop_off type rpc m p.node_name (pod_key p) n.daemon_port_alloc g) _ e in
      let (s, settled, e2) = >>=-returns (settle type rpc m p.node_name id n t) _ e1 in
      rw (← returned_nodes e2) (
        settle-PortsBooked type rpc m p.node_name id n g t all b found
          (drop_off-Frees type rpc m p.node_name (pod_key p) n.daemon_port_alloc g b.valid by)
          settled)

  remove_one_pod-PortsBooked :
      (rpc : Rpc) (to_upper : String → String) (namespace : String) (m : Manager F) (p : Pod)
      {r : Removed F}
      → EachNode PortsBooked m
      → remove_one_pod rpc to_upper namespace m p ≡ returns r
      → EachNode PortsBooked r.manager
  unfolding remove_one_pod
  remove_one_pod-PortsBooked rpc to_upper namespace m p all e =
      elim (Option-cases (lookup p.node_name m.nodes)) [
        | inl unknown ↦ rw (← returned_nodes (rw (unknown, remove_one_pod) at e)) all
        | inr (n, at) ↦
            elim (Option-cases (lookup (get_text vgpu_uuid_name p.annotations) n.vgpu_id2_gpu)) [
              | inl unknown ↦ rw (← returned_nodes (rw (at, unknown, remove_one_pod) at e)) all
              | inr (g, found) ↦
                  remove_listed_pod-PortsBooked _ rpc namespace m p _ n g all at found
                    (rw (at, found, remove_one_pod) at e)
            ]
      ]

  -- After the removal of all pods of a FaSTPod that comes back, on every node each client port is
  -- held by one listed pod at most, and only with its bit set, if that was so before.
  pub remove_all-PortsBooked :
      (rpc : Rpc) (to_upper : String → String) (namespace : String) (m : Manager F)
      (pods : List Pod) {r : Removed F}
      → EachNode PortsBooked m
      → remove_fast_pod_from_list rpc to_upper namespace m pods ≡ returns r
      → EachNode PortsBooked r.manager
  unfolding remove_fast_pod_from_list
  remove_all-PortsBooked rpc to_upper namespace m [] all e = rw (← returned_nodes e) all
  remove_all-PortsBooked rpc to_upper namespace m (p ∷ rest) all e =
      let (first, by, e1) = >>=-returns (remove_one_pod rpc to_upper namespace m p) _ e in
      let (later, then_by, e2) =
        >>=-returns (remove_fast_pod_from_list rpc to_upper namespace first.manager rest) _ e1 in
      rw (← returned_nodes e2) (
        remove_all-PortsBooked rpc to_upper namespace first.manager rest
          (remove_one_pod-PortsBooked rpc to_upper namespace m p all by) then_by)
