-- ===== src/Manager/PortRemoval.antt =====
-- `removePodFromList` and the client ports of a node.
use fa_st_gshare.Common.Dict.{Dict, lookup, insert, erase}
use fa_st_gshare.Common.Int.{ℤ}
use fa_st_gshare.Common.Float.{Floats}
use fa_st_gshare.Common.Outcome.{Outcome, returns, >>=-returns}
use fa_st_gshare.Common.{
  suc, ◌+◌, ◌≤◌, ◌≡◌, ◌⊎◌, refl, some, List, [], ◌∷◌, String, str_eq, arith, Bool-cases,
  Option-cases, inl, inr, subst,
}
use fa_st_gshare.Bitmap.{Bitmap}
use fa_st_gshare.Bitmap.Laws.{IsValid, clear_at-IsValid}
use fa_st_gshare.Kube.{Pod, get_text, pod_key, vgpu_uuid_name}
use fa_st_gshare.Types.{AllocationType, mps, fast_pod, exclusive, none_type}
use fa_st_gshare.Proto.{Rpc, Call}
use fa_st_gshare.Manager.State.{FastPodReq, GpuDevInfo, Node, Manager, put_gpu}
use fa_st_gshare.Manager.Queue.{find_pod}
use fa_st_gshare.Manager.Config.{update_pods_gpu_config}
use fa_st_gshare.Manager.Remove.{
  Removed, TakenOff, free_port, without_fast_pod, take_off_fast_pod, take_off_mps_pod,
  take_off_exclusive, take_off, is_last, release_for, disable_mps_for, retire_gpu, remove_from_gpu,
  remove_pod_from_list,
}
use fa_st_gshare.Manager.Ports.{
  port_bit, port_bit-le-one, erase-le, holders, node_holders, node_holders-insert, PortsBooked,
}
use fa_st_gshare.Manager.PortSafety.{EachNode, insert-EachNode, holders-remove, bit-free_port}

-- What a removal does to one port and to the pods of its GPU: no pod gains the port, and where
-- its bit is cleared a pod has lost it.
abbrev pub FreesPort :
    {F : Type 0} → ℤ → Bitmap → List (FastPodReq F) → Bitmap → List (FastPodReq F) → Type 0
FreesPort p ports pods ports' pods' =
    ((port_bit ports' p ≡ port_bit ports p) × (holders p pods' ≤ holders p pods))
    ⊎ ((port_bit ports' p ≡ 0) × (suc (holders p pods') ≤ holders p pods))

module _ {F : Type 0} where
  abbrev pub Frees : Bitmap → List (FastPodReq F) → Bitmap → List (FastPodReq F) → Type 0
  Frees ports pods ports' pods' = IsValid ports' × ((p : ℤ) → FreesPort p ports pods ports' pods')

  node_holders-erase :
      (p : ℤ) (id : String) (g : GpuDevInfo F) (d : Dict (GpuDevInfo F))
      → lookup id d ≡ some g
      → node_holders p (erase id d) + holders p g.fast_pod_list ≤ node_holders p d
  node_holders-erase p id g [] e = cc
  node_holders-erase p id g ((i, h) ∷ rest) e = elim (Bool-cases (str_eq i id)) [
    | inl here ↦ ground (arith, erase-le p id rest)
    | inr later ↦ ground (arith, node_holders-erase p id g rest)
  ]

  -- The node with the GPU written back, or forgotten.
  pub put-PortsBooked :
      (n : Node F) (id : String) (g g' : GpuDevInfo F) (ports : Bitmap)
      → PortsBooked n
      → lookup id n.vgpu_id2_gpu ≡ some g
      → Frees n.daemon_port_alloc g.fast_pod_list ports g'.fast_pod_list
      → PortsBooked (put_gpu (record n { daemon_port_alloc = ports }) id g')
  put-PortsBooked n id g g' ports b at (v, frees) = record {
    valid = v;
    held = λ p. ground (
      arith,
      b.held p,
      frees p,
      port_bit-le-one n.daemon_port_alloc p,
      node_holders-insert p id g g' n.vgpu_id2_gpu,
    );
  }

  pub erased-PortsBooked :
      (n n' : Node F) (id : String) (g : GpuDevInfo F) (pods' : List (FastPodReq F))
      → PortsBooked n
      → lookup id n.vgpu_id2_gpu ≡ some g
      → Frees n.daemon_port_alloc g.fast_pod_list n'.daemon_port_alloc pods'
      → PortsBooked (record n' { vgpu_id2_gpu = erase id n.vgpu_id2_gpu })
  erased-PortsBooked n n' id g pods' b at (v, frees) = record {
    valid = v;
    held = λ p. ground (
      arith,
      b.held p,
      frees p,
      port_bit-le-one n.daemon_port_alloc p,
      node_holders-erase p id g n.vgpu_id2_gpu,
    );
  }

module _ {F : Type 0} ⦃fl : Floats F⦄ where
  -- What leaves the ports and the pods as they were.
  pub same-Frees :
      (ports : Bitmap) (pods : List (FastPodReq F)) {ports' : Bitmap} {pods' : List (FastPodReq F)}
      → IsValid ports
      → ports ≡ ports'
      → pods ≡ pods'
      → Frees ports pods ports' pods'
  same-Frees ports pods v e same = rw (← e, ← same) (v, λ p. inl (refl, omega arith))

  without_fast_pod-Frees :
      (key : String) (ports : Bitmap) (g : GpuDevInfo F) (r : FastPodReq F)
      → IsValid ports
      → find_pod key g.fast_pod_list ≡ some r
      → Frees ports g.fast_pod_list (free_port r ports) (without_fast_pod key r g).fast_pod_list
  unfolding without_fast_pod free_port
  without_fast_pod-Frees key ports g r v found = (
    clear_at-IsValid ports _ v,
    λ p. elim (bit-free_port p r ports v) [
      | inl same ↦ inl (same, omega (arith, holders-remove p key g.fast_pod_list found))
      | inr (cleared, held) ↦
          inr (cleared, omega (arith, holders-remove p key g.fast_pod_list found, held))
    ],
  )

  -- The loop over the FastPods: no pod had the key, or one left, and its port was cleared.
  take_off_fast_pod-cases :
      (rpc : Rpc) (m : Manager F) (name key : String) (ports : Bitmap) (g : GpuDevInfo F)
      {t : TakenOff F}
      → take_off_fast_pod rpc m name key ports g ≡ returns t
      → ((ports ≡ t.ports) × (g.fast_pod_list ≡ t.gpu.fast_pod_list))
        ⊎ ((r : FastPodReq F) × (find_pod key g.fast_pod_list ≡ some r)
            × (free_port r ports ≡ t.ports)
            × (without_fast_pod key r g ≡ t.gpu))
  unfolding take_off_fast_pod
  take_off_fast_pod-cases rpc m name key ports g e =
      elim (Option-cases (find_pod key g.fast_pod_list)) [
        | inl absent ↦ inl (ground arith)
        | inr (r, found) ↦
            let (sent, _, done) =
              >>=-returns
                (update_pods_gpu_config rpc m name g.uuid
                  (some (without_fast_pod key r g).fast_pod_list))
                _ (rw (found, take_off_fast_pod) at e) in
            inr (r, found, cc, cc)
      ]

  take_off_fast_pod-Frees :
      (rpc : Rpc) (m : Manager F) (name key : String) (ports : Bitmap) (g : GpuDevInfo F)
      {t : TakenOff F}
      → IsValid ports
      → take_off_fast_pod rpc m name key ports g ≡ returns t
      → Frees ports g.fast_pod_list t.ports t.gpu.fast_pod_list
  take_off_fast_pod-Frees rpc m name key ports g {t = t} v e =
      elim (take_off_fast_pod-cases rpc m name key ports g e) [
        | inl (same, same_pods) ↦ same-Frees ports g.fast_pod_list v same same_pods
        | inr (r, found, freed, left) ↦
            subst (λ (g' : GpuDevInfo F). Frees ports g.fast_pod_list t.ports g'.fast_pod_list) left
              (subst (λ b. Frees ports g.fast_pod_list b (without_fast_pod key r g).fast_pod_list)
                freed (without_fast_pod-Frees key ports g r v found))
      ]

  take_off-Frees :
      (type : AllocationType) (rpc : Rpc) (m : Manager F) (name key : String) (ports : Bitmap)
      (g : GpuDevInfo F) {t : TakenOff F}
      → IsValid ports
      → take_off type rpc m name key ports g ≡ returns t
      → Frees ports g.fast_pod_list t.ports t.gpu.fast_pod_list
  unfolding take_off take_off_exclusive take_off_mps_pod
  take_off-Frees fast_pod rpc m name key ports g v e =
      take_off_fast_pod-Frees rpc m name key ports g v e
  take_off-Frees mps rpc m name key ports g v e =
      same-Frees ports g.fast_pod_list v (ground arith) (ground arith)
  take_off-Frees exclusive rpc m name key ports g v e =
      same-Frees ports g.fast_pod_list v (ground arith) (ground arith)
  take_off-Frees none_type rpc m name key ports g v e =
      same-Frees ports g.fast_pod_list v (ground arith) (ground arith)

  release_for-ports :
      (rpc : Rpc) (n : Node F) (g : GpuDevInfo F) {r : Node F × List (Call F)}
      → release_for rpc n g ≡ returns r
      → (n.daemon_port_alloc ≡ r.0.daemon_port_alloc) × (n.vgpu_id2_gpu ≡ r.0.vgpu_id2_gpu)
  unfolding release_for
  release_for-ports rpc n g e = ground arith

  pub returned_nodes :
      {a r : Removed F}
      → ◌≡◌ {A = Outcome (Removed F)} (returns a) (returns r)
      → a.manager.nodes ≡ r.manager.nodes
  returned_nodes e = cc

  -- The node that a removal writes back.
  retire_gpu-nodes :
      (type : AllocationType) (rpc : Rpc) (m : Manager F) (name id key : String) (n : Node F)
      (g : GpuDevInfo F) (calls : List (Call F)) {r : Removed F}
      → retire_gpu type rpc m name id key n g calls ≡ returns r
      → (n' : Node F) × (n.daemon_port_alloc ≡ n'.daemon_port_alloc)
        × (insert name (record n' { vgpu_id2_gpu = erase id n.vgpu_id2_gpu }) m.nodes
            ≡ r.manager.nodes)
  unfolding retire_gpu
  retire_gpu-nodes type rpc m name id key n g calls e =
      let (disabled, _, e1) = >>=-returns (disable_mps_for type rpc n g) _ e in
      let (released, by, e2) = >>=-returns (release_for rpc n g) _ e1 in
      let (ports_eq, gpus_eq) = release_for-ports rpc n g by in
      (released.0, ports_eq, returned_nodes e2)

  pub nodes-EachNode :
      (m m' : Manager F) (name : String) (n n' : Node F)
      → EachNode PortsBooked m
      → PortsBooked n'
      → insert name n' m.nodes ≡ m'.nodes
      → EachNode PortsBooked m'
  nodes-EachNode m m' name n n' all b same =
      rw (← same) (insert-EachNode PortsBooked m name n' all b)

  remove_from_gpu-PortsBooked :
      (type : AllocationType) (rpc : Rpc) (m : Manager F) (name id key : String) (n : Node F)
      (g : GpuDevInfo F) {r : Removed F}
      → EachNode PortsBooked m
      → lookup name m.nodes ≡ some n
      → lookup id n.vgpu_id2_gpu ≡ some g
      → remove_from_gpu type rpc m name id key n g ≡ returns r
      → EachNode PortsBooked r.manager
  unfolding remove_from_gpu
  remove_from_gpu-PortsBooked type rpc m name id key n g {r = r} all at found e =
      let (t, by, e1) = >>=-returns (take_off type rpc m name key n.daemon_port_alloc g) _ e in
      let (last, _, e2) = >>=-returns (is_last type t.podlist) _ e1 in
      let n1 = record n { daemon_port_alloc = t.ports } in
      let frees =
        take_off-Frees type rpc m name key n.daemon_port_alloc g (all name n at).valid by in
      elim (Bool-cases last) [
        | inl over ↦
            let (n', ports_eq, written) =
              retire_gpu-nodes type rpc m name id key n1 t.gpu t.calls (rw over at e2) in
            nodes-EachNode m r.manager name n _ all
              (erased-PortsBooked n (record n' { vgpu_id2_gpu = n.vgpu_id2_gpu }) id g
                t.gpu.fast_pod_list (all name n at) found
                (subst (λ b. Frees n.daemon_port_alloc g.fast_pod_list b t.gpu.fast_pod_list)
                  ports_eq frees))
              written
        | inr more ↦
            nodes-EachNode m r.manager name n _ all
              (put-PortsBooked n id g t.gpu t.ports (all name n at) found frees)
              (returned_nodes (rw more at e2))
      ]

  -- After the removal of a pod that comes back, on every node each client port is held by one
  -- listed pod at most, and only with its bit set, if that was so before.
  pub remove-PortsBooked :
      (rpc : Rpc) (to_upper : String → String) (m : Manager F) (p : Pod) {r : Removed F}
      → EachNode PortsBooked m
      → remove_pod_from_list rpc to_upper m p ≡ returns r
      → EachNode PortsBooked r.manager
  unfolding remove_pod_from_list
  remove-PortsBooked rpc to_upper m p {r = r} all e =
      elim (Option-cases (lookup p.node_name m.nodes)) [
        | inl unknown ↦ rw (← returned_nodes (rw (unknown, remove_pod_from_list) at e)) all
        | inr (n, at) ↦
            elim (Option-cases (lookup (get_text vgpu_uuid_name p.annotations) n.vgpu_id2_gpu)) [
              | inl unknown ↦
                  rw (← returned_nodes (rw (at, unknown, remove_pod_from_list) at e)) all
              | inr (g, found) ↦
                  remove_from_gpu-PortsBooked _ rpc m p.node_name _ (pod_key p) n g all at found
                    (rw (at, found, remove_pod_from_list) at e)
            ]
      ]
