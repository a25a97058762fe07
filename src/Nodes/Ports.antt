-- ===== src/Nodes/Ports.antt =====
-- The ports of a node that joins and of a GPU that scheduling enters.
use fa_st_gshare.Common.Int.{ℤ}
use fa_st_gshare.Common.Dict.{Dict, lookup, insert}
use fa_st_gshare.Common.Float.{Floats}
use fa_st_gshare.Common.Outcome.{returns, deref, >>=-returns}
use fa_st_gshare.Common.{
  ◌+◌, ◌≡◌, refl, ap, none, List, [], ◌∷◌, String, arith, Option-cases, inl, inr,
}
use fa_st_gshare.Bitmap.Laws.{new_bitmap-IsValid}
use fa_st_gshare.Proto.{Rpc, GetGpuResponse, VirtualGpuMessage}
use fa_st_gshare.Manager.State.{GpuDevInfo, Node, Manager, ResourceRequest, put_gpu, port_range}
use fa_st_gshare.Manager.Schedule.{Scheduled, selected_gpu, new_gpu_dev_info, schedule_request}
use fa_st_gshare.Manager.Ports.{holders, node_holders, PortsBooked}
use fa_st_gshare.Manager.PortSafety.{EachNode, insert-EachNode}
use fa_st_gshare.Manager.PortRemoval.{same-Frees, put-PortsBooked, nodes-EachNode}
use fa_st_gshare.Nodes.Join.{new_node, refresh_node, register_node}
use fa_st_gshare.Nodes.Keeps.{schedule-nodes}

module _ {F : Type 0} where
  -- A node that is new has no pods; one that comes back has those that it had.
  new_node-PortsBooked :
      (name ip client : String) (gpus : List VirtualGpuMessage)
      → PortsBooked {F = F} (new_node name ip client gpus)
  unfolding new_node
  new_node-PortsBooked name ip client gpus = record {
    valid = new_bitmap-IsValid port_range;
    held = λ p. omega arith;
  }

  refresh_node-PortsBooked :
      (ip client : String) (gpus : List VirtualGpuMessage) (n : Node F)
      → PortsBooked n
      → PortsBooked (refresh_node ip client gpus n)
  unfolding refresh_node
  refresh_node-PortsBooked ip client gpus n b = record { valid = b.valid; held = b.held }

  pub register_node-PortsBooked :
      (m : Manager F) (name ip client : String) (gpus : List VirtualGpuMessage)
      → EachNode PortsBooked m
      → EachNode PortsBooked (register_node m name ip client gpus)
  unfolding register_node
  register_node-PortsBooked m name ip client gpus all = elim (Option-cases (lookup name m.nodes)) [
    | inl unknown ↦
        rw unknown
          (insert-EachNode PortsBooked m name _ all (new_node-PortsBooked name ip client gpus))
    | inr (n, at) ↦ rw at (
        insert-EachNode PortsBooked m name _ all
          (refresh_node-PortsBooked ip client gpus n (all name n at)))
  ]

  node_holders-insert_new :
      (p : ℤ) (id : String) (g : GpuDevInfo F) (d : Dict (GpuDevInfo F))
      → lookup id d ≡ none
      → node_holders p (insert id g d) ≡ node_holders p d + holders p g.fast_pod_list
  node_holders-insert_new p id g [] e = omega arith
  node_holders-insert_new p id g ((i, h) ∷ rest) e =
      ground (arith, node_holders-insert_new p id g rest)

module _ {F : Type 0} ⦃fl : Floats F⦄ where
  -- The GPU that scheduling enters: one that is known, or a new one without pods.
  selected_gpu-new :
      (res : GetGpuResponse) {g : GpuDevInfo F}
      → selected_gpu none res ≡ returns g
      → g.fast_pod_list ≡ []
  unfolding selected_gpu new_gpu_dev_info
  selected_gpu-new res e =
      let (v, _, e1) = >>=-returns (deref res.provisioned_gpu) _ e in
      let (gpu, _, e2) = >>=-returns (deref v.provisioned_gpu) _ e1 in ground arith

  entered-PortsBooked :
      (n : Node F) (id : String) (res : GetGpuResponse) (g : GpuDevInfo F)
      → PortsBooked n
      → selected_gpu (lookup id n.vgpu_id2_gpu) res ≡ returns g
      → PortsBooked (put_gpu n id g)
  unfolding selected_gpu
  entered-PortsBooked n id res g b by = elim (Option-cases (lookup id n.vgpu_id2_gpu)) [
    | inl absent ↦
        let empty = selected_gpu-new res (rw absent at by) in
        record {
          valid = b.valid;
          held = λ p.
              ground (arith, b.held p, empty, node_holders-insert_new p id g n.vgpu_id2_gpu absent);
        }
    | inr (known, at) ↦
        let same : known ≡ g = ground arith in
        put-PortsBooked n id known g n.daemon_port_alloc b at (
          same-Frees n.daemon_port_alloc known.fast_pod_list b.valid refl
            (ap (λ (x : GpuDevInfo F). x.fast_pod_list) same))
  ]

  pub schedule-PortsBooked :
      (rpc : Rpc) (m : Manager F) (req : ResourceRequest F) {r : Scheduled F}
      → EachNode PortsBooked m
      → schedule_request rpc m req ≡ returns r
      → EachNode PortsBooked r.manager
  schedule-PortsBooked rpc m req {r = r} all e = elim (schedule-nodes rpc m req e) [
    | inl (same, _) ↦ rw (← same) all
    | inr (name, uuid, n, res, g, at, by, (written, _)) ↦
        nodes-EachNode m r.manager name n _ all
          (entered-PortsBooked n uuid res g (all name n at) by) written
  ]
