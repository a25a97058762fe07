-- ===== src/Manager/PortSafety.antt =====
-- No two pods of a node hold the same client port: kept by requests and by removals.
use fa_st_gshare.Common.Int.{ℤ, pos, negsuc, ◌-ℤ◌}
use fa_st_gshare.Common.Dict.{lookup, insert}
use fa_st_gshare.Common.Float.{Floats}
use fa_st_gshare.Common.Outcome.{returns}
use fa_st_gshare.Common.{
  ℕ, ◌+◌, ◌≡◌, ◌⊎◌, refl, true, some, List, [], ◌∷◌, String, str_eq, arith, Bool-cases, inl, inr,
  subst, sym, ◌∙◌, ◌==◌,
}
use fa_st_gshare.Bitmap.{Bitmap, clear_at, in_range}
use fa_st_gshare.Bitmap.Laws.{IsValid, bit, bit-clear_at, clear_at_out_of_range}
use fa_st_gshare.Proto.{Rpc}
use fa_st_gshare.Manager.State.{
  FastPodReq, GpuDevInfo, Node, Manager, ResourceRequest, SelectionResult, gpu_client_port_start,
  put_gpu,
}
use fa_st_gshare.Manager.Request.{Requested, claim_type, request_gpu_and_update_config}
use fa_st_gshare.Manager.Queue.{find_pod}
use fa_st_gshare.Manager.Remove.{remove_fast_pod, free_port}
use fa_st_gshare.Manager.Outcomes.{request-Outcomes}
use fa_st_gshare.Manager.Each.{lookup-insert_cases}
use fa_st_gshare.Manager.Ports.{
  holds, holders, node_holders-insert, PortsBooked, Takes, place-Takes, port_bit, port_bit-at,
  port_cases,
}

module _ {F : Type 0} where
  abbrev pub EachNode : (Node F → Type 0) → Manager F → Type 0
  EachNode P m = (name : String) (n : Node F) → lookup name m.nodes ≡ some n → P n

  pub insert-EachNode :
      (P : Node F → Type 0) (m : Manager F) (k : String) (v : Node F)
      → EachNode P m
      → P v
      → (name : String) (n : Node F) → lookup name (insert k v m.nodes) ≡ some n
      → P n
  insert-EachNode P m k v all p name n e = elim (lookup-insert_cases k name v m.nodes e) [
    | inl new ↦ subst P new p
    | inr old ↦ all name n old
  ]

module _ {F : Type 0} ⦃fl : Floats F⦄ where
  holders-claim_type :
      (p : ℤ) (req : ResourceRequest F) (g : GpuDevInfo F)
      → holders p (claim_type req g).fast_pod_list ≡ holders p g.fast_pod_list
  unfolding claim_type
  holders-claim_type p req g = ground arith

  claimed-Takes :
      (req : ResourceRequest F) (ports : Bitmap) (g : GpuDevInfo F) (ports' : Bitmap)
      (g' : GpuDevInfo F)
      → Takes ports (claim_type req g) ports' g'
      → Takes ports g ports' g'
  claimed-Takes req ports g ports' g' (v, takes) =
      (v, λ p. rw (holders-claim_type p req g) at (takes p))

  -- A node whose GPU has been written back after a pod took a port, or none.
  pub taken-PortsBooked :
      (n : Node F) (id : String) (g g' : GpuDevInfo F) (ports : Bitmap)
      → PortsBooked n
      → lookup id n.vgpu_id2_gpu ≡ some g
      → Takes n.daemon_port_alloc g ports g'
      → PortsBooked (put_gpu (record n { daemon_port_alloc = ports }) id g')
  taken-PortsBooked n id g g' ports b at (v, takes) = record {
    valid = v;
    held = λ p. ground (arith, b.held p, takes p, node_holders-insert p id g g' n.vgpu_id2_gpu);
  }

  -- When a request comes back, on every node each client port is held by one listed pod at most,
  -- and only with its bit set, if that was so before: a pod never gets a port that another has.
  pub request-PortsBooked :
      (rpc : Rpc) (m : Manager F) (sel : SelectionResult) (req : ResourceRequest F) (key : String)
      {r : Requested F}
      → EachNode PortsBooked m
      → request_gpu_and_update_config rpc m sel req key ≡ returns r
      → EachNode PortsBooked r.manager
  request-PortsBooked rpc m sel req key all e = elim (request-Outcomes rpc m sel req key e) [
    | inl (same, _, _) ↦ rw same all
    | inr (n, g, at, found, inl ok) ↦ rw ok.manager_eq (
        insert-EachNode PortsBooked m sel.node_name _ all (
          taken-PortsBooked n sel.vgpu_uuid g ok.gpu ok.ports (all _ n at) found (
            claimed-Takes req n.daemon_port_alloc g ok.ports ok.gpu (
              place-Takes req.allocation_type req key n.daemon_port_alloc (claim_type req g)
                (all _ n at).valid ok.by_place))))
    | inr (n, g, at, found, inr bad) ↦ rw bad.manager_eq (
        insert-EachNode PortsBooked m sel.node_name _ all (
          taken-PortsBooked n sel.vgpu_uuid g (claim_type req g) n.daemon_port_alloc (all _ n at)
            found ((all _ n at).valid, λ p. inl (refl, holders-claim_type p req g))))
  ]

cleared_inside :
    (p : ℕ) (ports : Bitmap) (z : ℤ)
    → IsValid ports
    → in_range ports z ≡ true
    → (bit (clear_at ports z).0 p ≡ bit ports p) ⊎ ((bit (clear_at ports z).0 p ≡ 0) × (z ≡ pos p))
cleared_inside p ports (negsuc q) v h = cc
cleared_inside p ports (pos q) v h = elim (Bool-cases (q == p)) [
  | inl same ↦ inr (bit-clear_at ports q p v (ground arith) ∙ rw same refl, ground arith)
  | inr other ↦ inl (bit-clear_at ports q p v (ground arith) ∙ rw other refl)
]

-- Clearing a position frees that port alone; one out of range frees nothing.
cleared :
    (p : ℕ) (ports : Bitmap) (z : ℤ)
    → IsValid ports
    → (bit (clear_at ports z).0 p ≡ bit ports p) ⊎ ((bit (clear_at ports z).0 p ≡ 0) × (z ≡ pos p))
cleared p ports z v = elim (Bool-cases (in_range ports z)) [
  | inl inside ↦ cleared_inside p ports z v inside
  | inr outside ↦ inl (ground (arith, clear_at_out_of_range ports z outside))
]

held_at :
    (p : ℕ) (port : ℤ)
    → port -ℤ pos gpu_client_port_start ≡ pos p
    → holds (pos (p + gpu_client_port_start)) port ≡ 1
unfolding ◌-ℤ◌
held_at p port e = ground arith

-- A removal: `r` was the first pod of the key.
module _ {F : Type 0} where
  pub holders-remove :
      (p : ℤ) (key : String) (l : List (FastPodReq F)) {r : FastPodReq F}
      → find_pod key l ≡ some r
      → holders p (remove_fast_pod key l) + holds p r.gpu_client_port ≡ holders p l
  unfolding find_pod remove_fast_pod
  holders-remove p key [] e = cc
  holders-remove p key (x ∷ l) {r = r} e = elim (Bool-cases (str_eq x.key key)) [
    | inl here ↦ ground arith
    | inr later ↦ ground (arith, holders-remove p key l {r = r})
  ]

  freed_bit :
      (q : ℕ) (r : FastPodReq F) (ports : Bitmap)
      → IsValid ports
      → (bit (free_port r ports) q ≡ bit ports q)
        ⊎ ((bit (free_port r ports) q ≡ 0)
            × (holds (pos (q + gpu_client_port_start)) r.gpu_client_port ≡ 1))
  unfolding free_port
  freed_bit q r ports v =
      elim (cleared q ports (r.gpu_client_port -ℤ pos gpu_client_port_start) v) [
        | inl same ↦ inl same
        | inr (zero_bit, at) ↦ inr (zero_bit, held_at q r.gpu_client_port at)
      ]

  pub bit-free_port :
      (p : ℤ) (r : FastPodReq F) (ports : Bitmap)
      → IsValid ports
      → (port_bit (free_port r ports) p ≡ port_bit ports p)
        ⊎ ((port_bit (free_port r ports) p ≡ 0) × (holds p r.gpu_client_port ≡ 1))
  bit-free_port p r ports v = elim (port_cases p) [
    | inr (stray, _) ↦ inl (stray (free_port r ports) ∙ sym (stray ports))
    | inl (q, at) ↦
        rw (at, port_bit-at ports q, port_bit-at (free_port r ports) q) (freed_bit q r ports v)
  ]
